-- ===== src/Reliable/Egress.antt =====
-- src/router_core.cpp: what the sending end of a reliable channel does.
use sedsnet_cpp.Common.{
  ℕ, ◌+◌, ◌/◌, ◌%◌, ◌^◌, Bool, true, false, not, ◌||◌, Option, none, some, List, [], ◌∷◌, ◌++◌,
  length, filter, ltb, leb, ◌==◌, if◌then◌else◌,
}
use sedsnet_cpp.Common.Int.{ℤ, pos, negsuc, elem_at, int_eq}
use sedsnet_cpp.Common.Assoc.{find, erase, emplace, adjust}
use sedsnet_cpp.Schema.{
  Schema, PacketData, ReliableMode, unreliable, ordered, unordered, type_at, is_reliable_type,
}
use sedsnet_cpp.Side.{Side}
use sedsnet_cpp.Queue.{sub64}
use sedsnet_cpp.Wire.Header.{flag_unordered}
use sedsnet_cpp.Wire.Compress.{Zstd}
use sedsnet_cpp.Wire.Frame.Encode.{serialize_packet, serialize_packet_with_reliable}
use sedsnet_cpp.Reliable.{
  Sent, ReliableTxState, Owner, Tuning, reliable_key, next_seq_after, tx_at, put_tx, to_i32,
}

abbrev pub is_unordered : ReliableMode → Bool
is_unordered unreliable = false
is_unordered ordered = false
is_unordered unordered = true

-- The loop over the front of `sent_order`.
unfoldable pub ack_front : ℕ → List ℕ → List (ℕ × Sent) → List ℕ × List (ℕ × Sent)
ack_front ack [] sent = ([], sent)
ack_front ack (seq ∷ order) sent =
    let rest = ack_front ack order (erase sent seq) in
    if leb seq ack then rest else (seq ∷ order, sent)

unfoldable pub ack_tx : Bool → ℕ → ReliableTxState → ReliableTxState
unfolding ack_front
ack_tx true ack tx = record tx {
  sent_order = filter (λ seq. not (seq == ack)) tx.sent_order;
  sent = erase tx.sent ack;
}
ack_tx false ack tx =
    let acked = ack_front ack tx.sent_order tx.sent in
    record tx { sent_order = acked.0; sent = acked.1 }

unfoldable pub handle_ack : Schema → Owner → ℤ → ℕ → ℕ → Owner
unfolding ack_tx
handle_ack s owner side_id ty ack = record owner {
  reliable_tx =
      adjust owner.reliable_tx (reliable_key side_id ty)
        (ack_tx (is_unordered (type_at s ty).reliable_mode) ack);
}

unfoldable pub partial_ack_tx : ℕ → ReliableTxState → ReliableTxState
partial_ack_tx seq tx = record tx {
  sent = adjust tx.sent seq (λ sent. record sent { partial_acked = true });
}

unfoldable pub handle_partial_ack : Owner → ℤ → ℕ → ℕ → Owner
unfolding partial_ack_tx
handle_partial_ack owner side_id ty seq = record owner {
  reliable_tx = adjust owner.reliable_tx (reliable_key side_id ty) (partial_ack_tx seq);
}

abbrev pub result_ok : ℤ
result_ok = pos 0

abbrev pub result_io : ℤ
result_io = negsuc 13

abbrev pub result_packet_too_large : ℤ
result_packet_too_large = negsuc 17

module _ (serialized_tx : List (ℤ × List ℕ) → ℤ → List ℕ → ℤ) where
  unfoldable pub call_serialized_tx : Owner → ℤ → List ℕ → Owner × ℤ
  call_serialized_tx owner side_id bytes =
      if owner.side_tx_active then (record owner { side_tx_deferred = true }, result_io) else (
        record owner { calls = (side_id, bytes) ∷ owner.calls },
        serialized_tx owner.calls side_id bytes,
      )

  -- The state of a packet that was sent again on request.
  unfoldable pub resent : ℕ → Sent → Sent
  resent now sent = record sent {
    last_send_ms = now;
    retries = (sent.retries + 1) % 2 ^ 32;
    queued = false;
    partial_acked = false;
  }

  request_sent : Option Sent → Owner → ℤ → ℕ → ReliableTxState → ℕ → Owner
  unfolding resent call_serialized_tx
  request_sent none owner side_id key tx seq = owner
  request_sent (some sent) owner side_id key tx seq =
      let after = (call_serialized_tx owner side_id sent.bytes).0 in
      put_tx after key (record tx { sent = adjust tx.sent seq (resent after.clock) })

  request_tx : Option ReliableTxState → Owner → ℤ → ℕ → ℕ → Owner
  unfolding request_sent
  request_tx none owner side_id key seq = owner
  request_tx (some tx) owner side_id key seq =
      request_sent (find tx.sent seq) owner side_id key tx seq

  request_side : Option Side → Owner → ℤ → ℕ → ℕ → Owner
  unfolding request_tx
  request_side none owner side_id ty seq = owner
  request_side (some side) owner side_id ty seq =
      if side.serialized_tx
      then request_tx (find owner.reliable_tx (reliable_key side_id ty)) owner side_id
          (reliable_key side_id ty) seq
      else owner

  unfoldable pub handle_packet_request : Owner → ℤ → ℕ → ℕ → Owner
  unfolding request_side
  handle_packet_request owner side_id ty seq =
      request_side (elem_at owner.sides side_id) owner side_id ty seq

  -- What follows the call for the frame `bytes` of a channel `tx`.
  unfoldable pub finish_send : ℕ → ReliableTxState → List ℕ → ℕ → Owner × ℤ → Owner × ℤ
  finish_send key tx bytes now call = if not (int_eq (call.1) result_ok) then call else (
    put_tx (call.0) key (record {
      next_seq = next_seq_after tx.next_seq;
      sent_order = tx.sent_order ++ (tx.next_seq ∷ []);
      sent = emplace tx.sent tx.next_seq (record {
        bytes = bytes;
        last_send_ms = now;
        retries = 0;
        queued = false;
        partial_acked = false;
      });
    }),
    result_ok,
  )

  module _ (s : Schema) (z : Zstd) (threshold : ℕ) (t : Tuning) where
    -- The frame is sent under the next number; only a frame that was sent is kept.
    unfoldable pub send_numbered : Owner → ℤ → PacketData → Owner × ℤ
    unfolding call_serialized_tx finish_send
    send_numbered owner side_id pkt =
        let key = reliable_key side_id pkt.ty in
        let tx = tx_at owner key in
        let flags = if is_unordered (type_at s pkt.ty).reliable_mode then flag_unordered else 0 in
        let bytes =
          serialize_packet_with_reliable s z threshold pkt
            (record { flags = flags; seq = tx.next_seq; ack = 0 }) in
        let counted = put_tx owner key (record tx { next_seq = next_seq_after tx.next_seq }) in
        finish_send key tx bytes owner.clock (call_serialized_tx counted side_id bytes)

    unfoldable pub send_on : Option Side → Owner → ℤ → PacketData → Owner × ℤ
    unfolding send_numbered
    send_on none owner side_id pkt = (owner, result_ok)
    send_on (some side) owner side_id pkt =
        let key = reliable_key side_id pkt.ty in
        let tx = tx_at owner key in
        if not side.serialized_tx
        then (owner, result_ok)
        else (if not side.reliable_enabled || not (is_reliable_type s pkt.ty)
            then call_serialized_tx owner side_id (serialize_packet s z threshold pkt)
            else (if leb t.max_pending (length tx.sent)
                then (put_tx owner key tx, result_packet_too_large)
                else send_numbered owner side_id pkt))

    -- The callers have tested that the side exists.
    unfoldable pub send_serialized_with_reliable : Owner → ℤ → PacketData → Owner × ℤ
    unfolding send_on
    send_serialized_with_reliable owner side_id pkt =
        send_on (elem_at owner.sides side_id) owner side_id pkt

  module _ (t : Tuning) where
    -- One packet of `do_reliable_timeouts`, and the packet's new state.
    timeout_sent : Option Sent → Owner → ℤ → ReliableTxState → ℕ → Owner × ReliableTxState
    unfolding call_serialized_tx
    timeout_sent none owner side_id tx seq = (owner, tx)
    timeout_sent (some sent) owner side_id tx seq =
        let call = call_serialized_tx owner side_id sent.bytes in
        if sent.queued
          || sent.partial_acked
          || ltb (sub64 owner.clock sent.last_send_ms) t.retransmit_ms
        then (owner, tx)
        else (if leb t.max_retries sent.retries
            then (
              owner,
              record tx {
                sent_order = filter (λ k. not (k == seq)) tx.sent_order;
                sent = erase tx.sent seq;
              },
            )
            else (if int_eq (call.1) result_ok
                then (
                  call.0,
                  record tx {
                    sent = adjust tx.sent seq (λ old. record old {
                      last_send_ms = owner.clock;
                      retries = (old.retries + 1) % 2 ^ 32;
                    });
                  },
                )
                else (call.0, tx)))

    unfoldable pub timeout_seqs : List ℕ → Owner → ℤ → ReliableTxState → Owner × ReliableTxState
    unfolding timeout_sent
    timeout_seqs [] owner side_id tx = (owner, tx)
    timeout_seqs (seq ∷ seqs) owner side_id tx =
        let next = timeout_sent (find tx.sent seq) owner side_id tx seq in
        timeout_seqs seqs (next.0) side_id (next.1)

    timeout_side : Option Side → Owner → ℤ → ReliableTxState → Owner × ReliableTxState
    unfolding timeout_seqs
    timeout_side none owner side_id tx = (owner, tx)
    timeout_side (some side) owner side_id tx =
        if side.serialized_tx then timeout_seqs tx.sent_order owner side_id tx else (owner, tx)

    -- The loop over the channels; each is written back before the next one is read.
    timeout_channels : List (ℕ × ReliableTxState) → Owner → Owner
    unfolding timeout_side
    timeout_channels [] owner = owner
    timeout_channels ((key, tx) ∷ rest) owner =
        let side_id = to_i32 (key / 2 ^ 32) in
        let next = timeout_side (elem_at owner.sides side_id) owner side_id tx in
        timeout_channels rest (put_tx (next.0) key (next.1))

    unfoldable pub do_reliable_timeouts : Owner → Owner
    unfolding timeout_channels
    do_reliable_timeouts owner = timeout_channels owner.reliable_tx owner
