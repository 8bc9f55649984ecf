-- ===== src/Wire/Header/RoundTrip.antt =====
-- Reading back a reliable header in the form in which it was written.
use sedsnet_cpp.Common.{
  ℕ, ◌<◌, bit_and, Bool, true, false, not, ◌&&◌, ◌||◌, some, List, [], ◌++◌, ◌==◌, if◌then◌else◌,
  ◌≡◌, refl, arith,
}
use sedsnet_cpp.Common.Bits.{has_bit, all_below, all_below_sound}
use sedsnet_cpp.Common.Words.{append_le, read_le-append_le, IsU32}
use sedsnet_cpp.Schema.{ReliableHeaderLite}
use sedsnet_cpp.Wire.Uleb.{write_uleb128}
use sedsnet_cpp.Wire.Uleb.RoundTrip.{read_uleb128-write_uleb128}
use sedsnet_cpp.Wire.Header.{
  wire_flags, is_seq_present, is_ack_present, write_compact, write_v4_reliable_header,
  read_optional, read_compact, read_fixed, read_v4_reliable_header, wire_seq_present,
  wire_ack_present,
}
use mathlib.Core.List.{append_assoc}

-- The two bits in which the compact form says what follows are clear.
pub record IsHeader (h : ReliableHeaderLite) : Type 0 where
  pub is_byte : h.flags < 256
  pub clear : bit_and h.flags 0x0C ≡ 0
  pub seq_fits : IsU32 h.seq
  pub ack_fits : IsU32 h.ack

abbrev same : Bool → Bool → Bool
same true b = b
same false b = not b

same→eq : (a b : Bool) → same a b ≡ true → a ≡ b
same→eq a b h = ground arith

-- The three facts that the reader needs of the flag byte that the writer made.
abbrev reads_back : Bool → Bool → ℕ → Bool
unfolding wire_flags has_bit
reads_back p q f =
    not (bit_and f 0x0C == 0)
    || (same (has_bit (wire_flags f p q) wire_seq_present) p
        && same (has_bit (wire_flags f p q) wire_ack_present) q
        && bit_and (wire_flags f p q) 0xF3 == f)

reads_back_table : (p q : Bool) → all_below 256 (reads_back p q) ≡ true
unfolding all_below wire_flags has_bit
reads_back_table true true = refl
reads_back_table true false = refl
reads_back_table false true = refl
reads_back_table false false = refl

reads_back_lem :
    (p q : Bool) (f : ℕ)
    → f < 256
    → bit_and f 0x0C ≡ 0
    → (has_bit (wire_flags f p q) wire_seq_present ≡ p)
      × (has_bit (wire_flags f p q) wire_ack_present ≡ q)
      × (bit_and (wire_flags f p q) 0xF3 ≡ f)
unfolding wire_flags has_bit
reads_back_lem p q f h clear =
    ground (arith, all_below_sound 256 (reads_back p q) f (reads_back_table p q) h)

read_optional_lem :
    (b : Bool) (v : ℕ) (rest : List ℕ)
    → (b ≡ false → v ≡ 0)
    → IsU32 v
    → read_optional b ((if b then write_uleb128 v else []) ++ rest) ≡ some (v, rest)
unfolding read_optional
read_optional_lem false v rest absent h = ground (arith, absent refl)
read_optional_lem true v rest absent h =
    ground (arith, read_uleb128-write_uleb128 v rest (omega arith))

absent_seq : (h : ReliableHeaderLite) → is_seq_present h ≡ false → h.seq ≡ 0
unfolding is_seq_present
absent_seq h e = ground arith

absent_ack : (h : ReliableHeaderLite) → is_ack_present h ≡ false → h.ack ≡ 0
unfolding is_ack_present
absent_ack h e = ground arith

read-write_compact :
    (h : ReliableHeaderLite) (rest : List ℕ)
    → IsHeader h
    → read_v4_reliable_header (write_compact h ++ rest) true ≡ some (h, rest)
unfolding write_compact read_v4_reliable_header read_compact
read-write_compact h rest v =
    let p = is_seq_present h in
    let q = is_ack_present h in
    let tail = (if q then write_uleb128 h.ack else []) ++ rest in
    let (seq_bit, ack_bit, flags_back) = reads_back_lem p q h.flags v.is_byte v.clear in
    rw
      (
        append_assoc (if p then write_uleb128 h.seq else []) (if q then write_uleb128 h.ack else [])
            rest,
        seq_bit,
        ack_bit,
        flags_back,
        read_optional_lem p h.seq tail (absent_seq h) v.seq_fits,
      )
      (rw (read_optional_lem q h.ack rest (absent_ack h) v.ack_fits))

read-write_fixed :
    (h : ReliableHeaderLite) (rest : List ℕ)
    → IsHeader h
    → read_v4_reliable_header (write_v4_reliable_header h false ++ rest) false ≡ some (h, rest)
unfolding write_v4_reliable_header read_v4_reliable_header read_fixed
read-write_fixed h rest v =
    rw
      (
        append_assoc (append_le 4 h.seq) (append_le 4 h.ack) rest,
        read_le-append_le 4 h.seq (append_le 4 h.ack ++ rest) v.seq_fits,
      )
      (rw (read_le-append_le 4 h.ack rest v.ack_fits))

-- In either form the reader takes back a written header, if its fields fit and the two bits of
-- its flags that the compact form uses are clear, and stops behind it.
pub read-write_v4_reliable_header :
    (h : ReliableHeaderLite) (compact : Bool) (rest : List ℕ)
    → IsHeader h
    → read_v4_reliable_header (write_v4_reliable_header h compact ++ rest) compact ≡ some (h, rest)
read-write_v4_reliable_header h true rest v =
    unfold write_v4_reliable_header in read-write_compact h rest v
read-write_v4_reliable_header h false rest v = read-write_fixed h rest v
