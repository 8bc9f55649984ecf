-- ===== src/EndToEnd/Answers.antt =====
-- What an acknowledgement from a board does at the source of the packet.
use sedsnet_cpp.Common.{
  ℕ, ◌^◌, ◌<◌, false, not, Option, none, some, List, [], ◌∷◌, ◌++◌, Text, text_eq, length, filter,
  is_empty, leb, ◌==◌, if◌then◌else◌, ◌≡◌, refl, ap, ◌∙◌, inl, inr, Bool-cases, arith,
}
use sedsnet_cpp.Common.Assoc.{find, erase, find-put, find-erase, find-put_other, find-erase_other}
use sedsnet_cpp.Common.Int.{ℤ}
use sedsnet_cpp.Schema.{Schema}
use sedsnet_cpp.Packets.{make_e2e_reliable_ack_packet}
use sedsnet_cpp.Wire.Checksum.{sender_hash}
use sedsnet_cpp.TimeSync.{word_at-append_le}
use sedsnet_cpp.EndToEnd.{
  Cache, EndToEndReliableSent, end_to_end_ack_prefix, starts_with,
  decode_end_to_end_ack_sender_hash, encode_end_to_end_ack_sender, acknowledged, acknowledge_found,
  replace_sent, acknowledge_end_to_end,
}

decode-encode :
    (c : ℕ) (name : Text)
    → decode_end_to_end_ack_sender_hash (encode_end_to_end_ack_sender (c ∷ name))
      ≡ some (sender_hash (c ∷ name))
unfolding decode_end_to_end_ack_sender_hash encode_end_to_end_ack_sender starts_with text_eq
decode-encode c name =
    let long : leb (length (end_to_end_ack_prefix ++ (c ∷ name))) (length end_to_end_ack_prefix)
        ≡ false =
      ground arith in
    rw (decode_end_to_end_ack_sender_hash, long) refl

replace_sent-find :
    (id : ℕ) (left : Option EndToEndReliableSent) (tx : Cache EndToEndReliableSent)
    → (find (replace_sent id left tx).entries id ≡ left)
      × ((j : ℕ) → (id == j) ≡ false → find (replace_sent id left tx).entries j ≡ find tx.entries j)
unfolding replace_sent
replace_sent-find id none tx = (find-erase tx.entries id, find-erase_other tx.entries id)
replace_sent-find id (some sent) tx =
    (find-put tx.entries id sent, λ j h. find-put_other tx.entries id j sent h)

erase-filter :
    {A : Type 0} → (m : List (ℕ × A)) (k : ℕ) → erase m k ≡ filter (λ entry. not (entry.0 == k)) m
erase-filter [] k = refl
erase-filter ((j, a) ∷ m) k = elim (Bool-cases (j == k)) [
  | inl e ↦ rw e (erase-filter m k)
  | inr e ↦ rw e (ap (λ rest. (j, a) ∷ rest) (erase-filter m k))
]

-- What is kept of a packet once the board with this hash has answered: it with the other boards
-- that are waited for, or nothing where there is none.
abbrev pub without : ℕ → EndToEndReliableSent → Option EndToEndReliableSent
without hash sent =
    let others = filter (λ destination. not (destination.0 == hash)) sent.pending_destinations in
    if is_empty others then none else some (record sent { pending_destinations = others })

abbrev pub without_maybe : ℕ → Option EndToEndReliableSent → Option EndToEndReliableSent
without_maybe hash none = none
without_maybe hash (some sent) = without hash sent

acknowledged-without :
    (hash : ℕ) (sent : EndToEndReliableSent) → acknowledged (some hash) sent ≡ without hash sent
unfolding acknowledged
acknowledged-without hash sent =
    ap
      (λ (left : List (ℕ × ℤ)).
        if is_empty left then none else some (record sent { pending_destinations = left }))
      (erase-filter sent.pending_destinations hash)

acknowledge_found-find :
    (id hash : ℕ) (sender : Text) (found : Option EndToEndReliableSent)
    (tx : Cache EndToEndReliableSent)
    → find tx.entries id ≡ found
    → decode_end_to_end_ack_sender_hash sender ≡ some hash
    → (find (acknowledge_found id sender found tx).entries id ≡ without_maybe hash found)
      × ((j : ℕ)
          → (id == j) ≡ false
          → find (acknowledge_found id sender found tx).entries j ≡ find tx.entries j)
unfolding acknowledge_found
acknowledge_found-find id hash sender none tx e d = (e, λ j h. refl)
acknowledge_found-find id hash sender (some sent) tx e d =
    let replaced = replace_sent-find id (acknowledged (some hash) sent) tx in
    rw d (replaced.0 ∙ acknowledged-without hash sent, replaced.1)

-- The acknowledgement that the board `c ∷ name` makes for a packet id of 64 bits takes, at the
-- source, from the destinations that are waited for under this id each one with this board's hash
-- and no other; the rest of what is kept is unchanged, or all of it is forgotten where no
-- destination is left. Where nothing is kept, nothing is added, and no other packet is touched.
pub acknowledge_end_to_end-acknowledged :
    (s : Schema) (id ts c : ℕ) (name : Text) (tx : Cache EndToEndReliableSent)
    → id < 2 ^ 64
    → let ack = make_e2e_reliable_ack_packet s id ts (encode_end_to_end_ack_sender (c ∷ name)) in
      (find (acknowledge_end_to_end ack tx).entries id
        ≡ without_maybe (sender_hash (c ∷ name)) (find tx.entries id))
      × ((j : ℕ)
          → (id == j) ≡ false
          → find (acknowledge_end_to_end ack tx).entries j ≡ find tx.entries j)
unfolding acknowledge_end_to_end make_e2e_reliable_ack_packet
acknowledge_end_to_end-acknowledged s id ts c name tx h =
    rw (acknowledge_end_to_end, word_at-append_le id h)
      (acknowledge_found-find id (sender_hash (c ∷ name)) (encode_end_to_end_ack_sender (c ∷ name))
        (find tx.entries id) tx refl (decode-encode c name))
