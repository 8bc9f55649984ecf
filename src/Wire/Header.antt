-- ===== src/Wire/Header.antt =====
-- src/serialize.cpp: the reliable header of a v4 frame, in its fixed and its compact form.
pub mod RoundTrip
use sedsnet_cpp.Common.{
  ℕ, ◌+◌, ◌-◌, ◌^◌, bit_and, bit_or, Bool, true, false, not, ◌&&◌, ◌||◌, Option, none, some, List,
  [], ◌∷◌, ◌++◌, leb, ◌==◌, if◌then◌else◌, ◌>>=◌, ◌>>◌, guard,
}
use sedsnet_cpp.Common.Bits.{has_bit}
use sedsnet_cpp.Common.Words.{append_le, read_le}
use sedsnet_cpp.Schema.{ReliableHeaderLite}
use sedsnet_cpp.Wire.Uleb.{write_uleb128, read_uleb128}

abbrev pub flag_ack_only : ℕ
flag_ack_only = 0x01

abbrev pub flag_unordered : ℕ
flag_unordered = 0x02

abbrev pub flag_unsequenced : ℕ
flag_unsequenced = 0x80

abbrev pub wire_seq_present : ℕ
wire_seq_present = 0x04

abbrev pub wire_ack_present : ℕ
wire_ack_present = 0x08

unfoldable pub should_compact_reliable_header : ReliableHeaderLite → Bool
unfolding has_bit
should_compact_reliable_header header =
    has_bit header.flags flag_ack_only || header.seq == 0 || header.ack == 0

unfoldable pub wire_flags : ℕ → Bool → Bool → ℕ
wire_flags flags seq_present ack_present =
    let with_seq = if seq_present then bit_or flags wire_seq_present else flags in
    if ack_present then bit_or with_seq wire_ack_present else with_seq

unfoldable pub is_seq_present : ReliableHeaderLite → Bool
unfolding has_bit
is_seq_present header = not (has_bit header.flags flag_ack_only) || not (header.seq == 0)

unfoldable pub is_ack_present : ReliableHeaderLite → Bool
unfolding has_bit
is_ack_present header = not (header.ack == 0) || has_bit header.flags flag_ack_only

unfoldable pub write_compact : ReliableHeaderLite → List ℕ
unfolding wire_flags is_seq_present is_ack_present
write_compact header =
    wire_flags header.flags (is_seq_present header) (is_ack_present header)
    ∷ ((if is_seq_present header then write_uleb128 header.seq else [])
        ++ (if is_ack_present header then write_uleb128 header.ack else []))

unfoldable pub write_v4_reliable_header : ReliableHeaderLite → Bool → List ℕ
unfolding write_compact
write_v4_reliable_header header true = write_compact header
write_v4_reliable_header header false =
    header.flags ∷ (append_le 4 header.seq ++ append_le 4 header.ack)

-- A number that the flag byte announces, at most UINT32_MAX; one that it does not is 0.
unfoldable pub read_optional : Bool → List ℕ → Option (ℕ × List ℕ)
read_optional false cur = some (0, cur)
read_optional true cur = do
  (value, rest) ← read_uleb128 cur
  guard (leb value (2 ^ 32 - 1))
  some (value, rest)

unfoldable pub read_compact : ℕ → List ℕ → Option (ReliableHeaderLite × List ℕ)
unfolding has_bit read_optional
read_compact flags cur = do
  (seq, cur) ← read_optional (has_bit flags wire_seq_present) cur
  (ack, cur) ← read_optional (has_bit flags wire_ack_present) cur
  some (record { flags = bit_and flags 0xF3; seq = seq; ack = ack }, cur)

unfoldable pub read_fixed : ℕ → List ℕ → Option (ReliableHeaderLite × List ℕ)
read_fixed flags cur = do
  (seq, cur) ← read_le 4 cur
  (ack, cur) ← read_le 4 cur
  some (record { flags = flags; seq = seq; ack = ack }, cur)

unfoldable pub read_v4_reliable_header : List ℕ → Bool → Option (ReliableHeaderLite × List ℕ)
unfolding read_compact read_fixed
read_v4_reliable_header [] compact = none
read_v4_reliable_header (flags ∷ cur) compact =
    if compact then read_compact flags cur else read_fixed flags cur
