-- ===== src/Reliable/Ingress.antt =====
-- src/router_core.cpp: what the receiving end of a reliable channel does.
use sedsnet_cpp.Common.{
  ℕ, zero, suc, ◌-◌, Bool, true, false, Option, none, some, List, [], ◌∷◌, ◌++◌, length, map, ltb,
  if◌then◌else◌,
}
use sedsnet_cpp.Common.Bits.{has_bit}
use sedsnet_cpp.Common.Int.{ℤ}
use sedsnet_cpp.Common.Assoc.{find, erase, emplace}
use sedsnet_cpp.Schema.{Schema, PacketData, ReliableHeaderLite, FrameInfoLite}
use sedsnet_cpp.Queue.Items.{RxItem}
use sedsnet_cpp.Wire.Header.{flag_ack_only, flag_unordered, flag_unsequenced}
use sedsnet_cpp.Reliable.{
  Buffered, ReliableRxState, Owner, Tuning, reliable_key, next_seq_after, rx_at, put_rx,
  queue_reliable_ack, queue_reliable_packet_request, queue_reliable_partial_ack,
}
use sedsnet_cpp.Reliable.Egress.{handle_ack}

-- `while (true)`: the buffered packets that follow are released, each with the number it had. The
-- first argument is fuel; every round takes an entry away, so their number is enough.
unfoldable pub release_loop : ℕ → ReliableRxState → ReliableRxState × List Buffered
release_loop zero rx = (rx, [])
release_loop (suc fuel) rx = elim (find rx.buffered rx.expected_seq) [
  | none ↦ (rx, [])
  | some entry ↦
      let next = release_loop fuel (record {
        expected_seq = next_seq_after rx.expected_seq;
        last_ack = rx.expected_seq;
        buffered = erase rx.buffered rx.expected_seq;
      }) in
      (next.0, entry ∷ next.1)
]

-- The channel's state after the packet it waits for.
unfoldable pub accept : ReliableRxState → ℕ → ReliableRxState × List Buffered
unfolding release_loop
accept rx seq =
    release_loop (length rx.buffered)
      (record rx { expected_seq = next_seq_after rx.expected_seq; last_ack = seq })

-- The channel's state after a packet from the future.
unfoldable pub hold : Tuning → ReliableRxState → ℕ → Buffered → ReliableRxState
hold t rx seq entry =
    if ltb (length rx.buffered) t.max_pending
    then record rx { buffered = emplace rx.buffered seq entry }
    else rx

unfoldable pub as_rx_item : ℤ → Buffered → RxItem
as_rx_item side_id entry = record {
  pkt = entry.pkt;
  src_side = some side_id;
  wire_bytes = entry.wire_bytes;
}

module _ (s : Schema) (t : Tuning) where
  -- The branches for a packet of an ordered channel.
  unfoldable pub ingress_ordered :
      Owner → ℤ → ℕ → ReliableHeaderLite → PacketData → List ℕ → Owner × Bool
  unfolding accept hold as_rx_item
  ingress_ordered owner side_id ty hdr pkt wire_bytes =
      let key = reliable_key side_id ty in
      let rx = rx_at owner key in
      let previous = if ltb 0 rx.expected_seq then rx.expected_seq - 1 else 0 in
      let accepted = accept rx hdr.seq in
      if ltb hdr.seq rx.expected_seq
      then (
        queue_reliable_ack s (put_rx owner key (record rx { last_ack = previous })) side_id ty
            previous,
        false,
      )
      else (if ltb rx.expected_seq hdr.seq
          then (
            queue_reliable_packet_request s
                (queue_reliable_partial_ack s
                  (put_rx owner key
                    (hold t rx hdr.seq (record { pkt = pkt; wire_bytes = wire_bytes })))
                  side_id ty hdr.seq)
                side_id ty rx.expected_seq,
            false,
          )
          else (
            queue_reliable_ack s
                (record (put_rx owner key (accepted.0)) {
                  reliable_released_rx =
                      owner.reliable_released_rx ++ map (as_rx_item side_id) (accepted.1);
                })
                side_id ty accepted.0.last_ack,
            true,
          ))

  unfoldable pub ingress_header :
      Option ReliableHeaderLite → Owner → ℤ → ℕ → PacketData → List ℕ → Owner × Bool
  unfolding ingress_ordered
  ingress_header none owner side_id ty pkt wire_bytes = (owner, true)
  ingress_header (some hdr) owner side_id ty pkt wire_bytes =
      let key = reliable_key side_id ty in
      if has_bit hdr.flags flag_ack_only
      then (handle_ack s owner side_id ty hdr.ack, false)
      else (if has_bit hdr.flags flag_unsequenced
          then (owner, true)
          else (if has_bit hdr.flags flag_unordered
              then (
                queue_reliable_ack s
                    (put_rx owner key (record (rx_at owner key) { last_ack = hdr.seq })) side_id ty
                    hdr.seq,
                true,
              )
              else ingress_ordered owner side_id ty hdr pkt wire_bytes))

  -- The answer is whether the caller goes on with the packet.
  unfoldable pub process_reliable_ingress :
      Owner → ℤ → FrameInfoLite → PacketData → List ℕ → Owner × Bool
  unfolding ingress_header
  process_reliable_ingress owner side_id frame pkt wire_bytes =
      ingress_header frame.reliable_header owner side_id frame.envelope.ty pkt wire_bytes
