-- ===== src/Wire/Frame/Agree.antt =====
-- `deserialize_packet` and `peek_frame_info` walk over the same bytes.
use sedsnet_cpp.Common.{
  ℕ, ◌≤◌, ◌%◌, ◌^◌, Bool, true, false, Option, none, some, List, [], ◌∷◌, length, ◌==◌, get_elem?,
  ◌≡◌, refl, arith, Bool-cases, Option-cases, inl, inr, leb,
}
use sedsnet_cpp.Common.Bits.{has_bit}
use sedsnet_cpp.Schema.{
  Schema, PacketData, FrameInfoLite, ReliableHeaderLite, TypeInfo, reliable, valid_type,
}
use sedsnet_cpp.Common.Words.{read_le_total}
use sedsnet_cpp.Wire.Compress.{Zstd}
use sedsnet_cpp.Wire.Header.{flag_ack_only, read_v4_reliable_header, read_fixed}
use sedsnet_cpp.Wire.Parse.{
  Parse, ok, reject, fault, ◌>>=◌, ◌>>◌, require, or_reject, or_fault, take_bytes,
}
use sedsnet_cpp.Wire.Bitmap.{endpoint_bitmap_bytes, parse_bitmap}
use sedsnet_cpp.Wire.Uleb.{read_uleb128}
use sedsnet_cpp.Wire.Ids.{local_type_id, has_v4_reliable_header}
use sedsnet_cpp.Wire.Frame.{
  flag_compact_reliable, skip_nonce, skip_contract, read_v4_endpoints, is_v4_frame_flags,
  frame_body, crc_holds,
}
use sedsnet_cpp.Wire.Frame.Decode.{
  read_sender_wire_len, skip_v4_reliable, skip_legacy_reliable, deserialize_v4, deserialize_legacy,
  deserialize_body, deserialize_packet,
}
use sedsnet_cpp.Wire.Frame.Peek.{
  peek_v4_reliable, peek_legacy_reliable, peek_v4, peek_legacy, peek_body, peek_frame_info,
}

-- `FrameInfoLite::ack_only`
unfoldable pub ack_only : Option ReliableHeaderLite → Bool
unfolding has_bit
ack_only none = false
ack_only (some header) = has_bit header.flags flag_ack_only

-- The envelope is the packet's, and the frame does more than acknowledge.
pub record Describes (info : FrameInfoLite) (pkt : PacketData) : Type 0 where
  pub ty : info.envelope.ty ≡ pkt.ty
  pub endpoints : info.envelope.endpoints ≡ pkt.endpoints
  pub sender : info.envelope.sender ≡ pkt.sender
  pub timestamp : info.envelope.timestamp_ms ≡ pkt.timestamp
  pub carries : ack_only info.reliable_header ≡ false

abbrev Told : Parse PacketData → Parse FrameInfoLite → Type 0
Told (ok pkt) peeked = (info : FrameInfoLite) × (peeked ≡ ok info) × Describes info pkt
Told reject peeked = Unit {0}
Told fault peeked = Unit {0}

-- Where the packet is read, the peek tells of it.
data Agrees (read : Parse PacketData) (peeked : Parse FrameInfoLite) : Type 0 where
  agrees : Told read peeked → Agrees read peeked

told :
    {read : Parse PacketData} {peeked : Parse FrameInfoLite} → Agrees read peeked → Told read peeked
told (agrees t) = t

-- A common step keeps the agreement of what follows.
step-Agrees :
    {A : Type 0} {f : A → Parse PacketData} {g : A → Parse FrameInfoLite} (m : Parse A)
    → ((a : A) → Agrees (f a) (g a))
    → Agrees (m >>= f) (m >>= g)
step-Agrees (ok a) h = h a
step-Agrees reject h = agrees tt
step-Agrees fault h = agrees tt

-- The last part of a packet, behind a step that does not decide the envelope.
last-Agrees :
    {A : Type 0} {f : A → Parse PacketData} {peeked : Parse FrameInfoLite} (m : Parse A)
    → ((a : A) → m ≡ ok a → Agrees (f a) peeked)
    → Agrees (m >>= f) peeked
last-Agrees (ok a) h = h a refl
last-Agrees reject h = agrees tt
last-Agrees fault h = agrees tt

-- Where a header lets the packet pass, the peek reports one that does.
abbrev Passes : Parse (Option ReliableHeaderLite) → Type 0
Passes peeked = (h : Option ReliableHeaderLite) × (peeked ≡ ok h) × (ack_only h ≡ false)

peek_v4_reliable-Passes :
    (s : Schema) (flags ty : ℕ) (cur rest : List ℕ)
    → skip_v4_reliable s flags ty cur ≡ ok rest
    → Passes (peek_v4_reliable s flags ty cur)
unfolding skip_v4_reliable peek_v4_reliable ack_only
peek_v4_reliable-Passes s flags ty cur rest e =
    let compact = has_bit flags flag_compact_reliable in
    elim (Bool-cases (has_v4_reliable_header s ty)) [
      | inr plain ↦ (none, rw plain, refl)
      | inl has ↦ elim (Option-cases (read_v4_reliable_header cur compact)) [
        | inl absent ↦ cc (rw (has, absent) at e)
        | inr ((h, next), found) ↦ (some h, rw (has, found), ground arith)
      ]
    ]

peek_legacy_reliable-Passes :
    (info : TypeInfo) (cur rest : List ℕ)
    → skip_legacy_reliable info cur ≡ ok rest
    → Passes (peek_legacy_reliable info cur)
unfolding skip_legacy_reliable peek_legacy_reliable ack_only read_fixed
peek_legacy_reliable-Passes info [] rest e = elim (Bool-cases (reliable info)) [
  | inr plain ↦ (none, rw plain, refl)
  | inl has ↦ cc (rw has at e)
]
peek_legacy_reliable-Passes info (b ∷ bs) rest e = elim (Bool-cases (reliable info)) [
  | inr plain ↦ (none, rw plain, refl)
  | inl has ↦
      let e' = rw has at e in
      let enough : 8 ≤ length bs = ground arith in
      let (seq, more, read_seq, len) = read_le_total 4 bs (omega arith) in
      let (ack, last, read_ack, _) = read_le_total 4 more (omega arith) in
      let long : leb 9 (length (b ∷ bs)) ≡ true = ground arith in
      (
        some (record { flags = b; seq = seq; ack = ack }),
        rw (has, long, read_seq, read_ack),
        ground arith,
      )
]

-- Behind the header only the payload is left, which the peek does not read.
module _ (info : Option ReliableHeaderLite → FrameInfoLite) (pkt : PacketData) where
  payload-Agrees :
      (fits : Bool) (peeked : Parse (Option ReliableHeaderLite))
      → ((h : Option ReliableHeaderLite) → ack_only h ≡ false → Describes (info h) pkt)
      → Passes peeked
      → Agrees (require fits >> ok pkt) (peeked >>= λ h. ok (info h))
  payload-Agrees false peeked describes passes = agrees tt
  payload-Agrees true peeked describes (h, e, carries) = agrees (info h, rw e, describes h carries)

deserialize_v4-Agrees :
    (s : Schema) (z : Zstd) (flags nep : ℕ) (cur : List ℕ)
    → Agrees (deserialize_v4 s z flags nep cur) (peek_v4 s z flags nep cur)
unfolding deserialize_v4 peek_v4
deserialize_v4-Agrees s z flags nep cur =
    step-Agrees (or_reject (read_uleb128 cur)) λ (wire_ty, cur).
      step-Agrees (or_reject (read_uleb128 cur)) λ (size, cur).
        step-Agrees (or_reject (read_uleb128 cur)) λ (ts, cur).
          step-Agrees (skip_nonce flags cur) λ cur.
            step-Agrees (or_reject (read_uleb128 cur)) λ (address, cur).
              step-Agrees (or_reject (local_type_id s (wire_ty % 2 ^ 32))) λ ty.
                step-Agrees (require (valid_type s ty)) λ _.
                  step-Agrees (read_v4_endpoints s flags ty cur) λ (eps, cur).
                    step-Agrees (require (length eps == nep)) λ _.
                      step-Agrees (skip_contract flags cur) λ cur.
                        last-Agrees (skip_v4_reliable s flags ty cur) λ rest e.
                          payload-Agrees _ _ _ _
                            (λ h carries. record {
                              ty = refl;
                              endpoints = refl;
                              sender = refl;
                              timestamp = refl;
                              carries = carries;
                            })
                            (peek_v4_reliable-Passes s flags ty cur rest e)

deserialize_legacy-Agrees :
    (s : Schema) (z : Zstd) (flags nep : ℕ) (cur : List ℕ)
    → Agrees (deserialize_legacy s z flags nep cur) (peek_legacy s z flags nep cur)
unfolding deserialize_legacy peek_legacy
deserialize_legacy-Agrees s z flags nep cur =
    step-Agrees (or_reject (read_uleb128 cur)) λ (ty, cur).
      step-Agrees (or_reject (read_uleb128 cur)) λ (size, cur).
        step-Agrees (or_reject (read_uleb128 cur)) λ (ts, cur).
          step-Agrees (or_reject (read_uleb128 cur)) λ (len, cur).
            step-Agrees (read_sender_wire_len flags len cur) λ (wire_len, cur).
              step-Agrees (require (valid_type s (ty % 2 ^ 32))) λ _. step-Agrees (require _) λ _.
                step-Agrees (take_bytes (endpoint_bitmap_bytes s) cur) λ (bitmap, cur).
                  step-Agrees (require (length (parse_bitmap s bitmap) == nep)) λ _.
                    step-Agrees (take_bytes wire_len cur) λ (sender, cur).
                      step-Agrees (require _) λ _.
                        step-Agrees (or_fault (get_elem? s.type_info ty)) λ info.
                          last-Agrees (skip_legacy_reliable info cur) λ rest e.
                            payload-Agrees _ _ _ _
                              (λ h carries. record {
                                ty = refl;
                                endpoints = refl;
                                sender = refl;
                                timestamp = refl;
                                carries = carries;
                              })
                              (peek_legacy_reliable-Passes info cur rest e)

deserialize_body-Agrees :
    (s : Schema) (z : Zstd) (body : List ℕ)
    → Agrees (deserialize_body s z body) (peek_body s z body)
unfolding deserialize_body peek_body
deserialize_body-Agrees s z [] = agrees tt
deserialize_body-Agrees s z (flags ∷ []) = agrees tt
deserialize_body-Agrees s z (flags ∷ nep ∷ cur) = elim (Bool-cases (is_v4_frame_flags flags)) [
  | inl v4 ↦ rw v4 (deserialize_v4-Agrees s z flags nep cur)
  | inr legacy ↦ rw legacy (deserialize_legacy-Agrees s z flags nep cur)
]

deserialize_packet-Agrees :
    (s : Schema) (z : Zstd) (bytes : List ℕ) (verify_crc : Bool)
    → Agrees (deserialize_packet s z bytes) (peek_frame_info s z bytes verify_crc)
unfolding deserialize_packet peek_frame_info
deserialize_packet-Agrees s z bytes true =
    step-Agrees (require (leb 6 (length bytes))) λ _.
      step-Agrees (require (crc_holds bytes)) λ _. deserialize_body-Agrees s z (frame_body bytes)
deserialize_packet-Agrees s z bytes false = step-Agrees (require (leb 6 (length bytes))) λ _.
    last-Agrees (require (crc_holds bytes)) λ _ _. deserialize_body-Agrees s z (frame_body bytes)

Told-ok :
    (read : Parse PacketData) (pkt : PacketData) {peeked : Parse FrameInfoLite}
    → Told read peeked
    → read ≡ ok pkt
    → (info : FrameInfoLite) × (peeked ≡ ok info) × Describes info pkt
Told-ok (ok p) pkt t e = let same : p ≡ pkt = cc in rw same at t
Told-ok reject pkt t e = cc
Told-ok fault pkt t e = cc

-- Whenever a frame is read as a packet, the peek succeeds on it, checking the CRC or not, with the
-- packet's type, endpoints, sender and timestamp, and does not call it an acknowledgement.
pub peek_frame_info-deserialize_packet :
    (s : Schema) (z : Zstd) (bytes : List ℕ) (verify_crc : Bool) (pkt : PacketData)
    → deserialize_packet s z bytes ≡ ok pkt
    → (info : FrameInfoLite) × (peek_frame_info s z bytes verify_crc ≡ ok info) × Describes info pkt
peek_frame_info-deserialize_packet s z bytes verify_crc pkt e =
    Told-ok (deserialize_packet s z bytes) pkt
      (told (deserialize_packet-Agrees s z bytes verify_crc)) e
