-- ===== src/Relay/Return.antt =====
-- The way back of an acknowledgement through a relay.
use sedsnet_cpp.Common.{
  ℕ, true, false, not, ◌&&◌, Option, none, some, List, length, ◌==◌, both_branches, ◌≡◌, refl, ap,
  ◌∙◌, inl, inr, Bool-cases, arith,
}
use sedsnet_cpp.Common.Int.{ℤ}
use sedsnet_cpp.Common.Assoc.{find, find-put}
use sedsnet_cpp.Schema.{
  Schema, PacketData, dt_reliable_ack, is_reliable_type, is_internal_control_type,
}
use sedsnet_cpp.Queue.{enqueue_bounded}
use sedsnet_cpp.Queue.Items.{tx_cost}
use sedsnet_cpp.Wire.Checksum.{packet_id, source_packet_id}
use sedsnet_cpp.TimeSync.{word_at}
use sedsnet_cpp.EndToEnd.{
  EndToEndLimits, is_end_to_end_ack_sender, decode_end_to_end_ack_sender_hash,
  note_reliable_return_route, remember_entry,
}
use sedsnet_cpp.Relay.{
  Relay, enqueue, note_return, note_route, note_acked, send_back, forward_ack, dispatch,
  relay_receive, is_discovery_control_type,
}

is_ack : (ty : ℕ) → ty ≡ dt_reliable_ack → is_internal_control_type ty ≡ true
unfolding is_internal_control_type
is_ack ty e = ground arith

module _ (s : Schema) (limits : EndToEndLimits)
    (serialized_tx : List (ℤ × List ℕ) → ℤ → List ℕ → ℤ) where
  note_route-find :
      (relay : Relay) (side_id : ℤ) (id : ℕ)
      → find (note_route s limits relay side_id id).reliable_return_routes.entries id ≡ some side_id
  unfolding note_route note_reliable_return_route remember_entry
  note_route-find relay side_id id = find-put _ id side_id

  note_return-find :
      (relay : Relay) (pkt : PacketData) (side_id : ℤ)
      → is_reliable_type s pkt.ty ≡ true
      → is_internal_control_type pkt.ty ≡ false
      → find
          (note_return s limits relay pkt (some side_id)).reliable_return_routes.entries
          (source_packet_id s pkt)
        ≡ some side_id
  unfolding note_return
  note_return-find relay pkt side_id rel ctl =
      elim (Bool-cases (source_packet_id s pkt == packet_id s pkt)) [
        | inl e ↦
            let same : source_packet_id s pkt ≡ packet_id s pkt = ground arith in
            rw (note_return, rel, ctl, e)
              (ap
                  (find
                    (note_route s limits relay side_id
                      (packet_id s pkt)).reliable_return_routes.entries)
                  same
                ∙ note_route-find relay side_id (packet_id s pkt))
        | inr e ↦
            rw (note_return, rel, ctl, e)
              (note_route-find (note_route s limits relay side_id (packet_id s pkt)) side_id
                (source_packet_id s pkt))
      ]

  dispatch-routes :
      (relay : Relay) (pkt : PacketData) (src_side : Option ℤ)
      → is_internal_control_type pkt.ty ≡ false
      → (dispatch s limits serialized_tx relay pkt src_side).reliable_return_routes
        ≡ relay.reliable_return_routes
  unfolding dispatch
  dispatch-routes relay pkt src_side ctl =
      rw (dispatch, ctl)
        (both_branches (λ (r : Relay). r.reliable_return_routes ≡ relay.reliable_return_routes)
          (is_discovery_control_type pkt.ty) _ _ refl refl)

  returns :
      (found : Option ℕ) (relay : Relay) (ack : PacketData) (side back : ℤ) (id : ℕ)
      → find relay.reliable_return_routes.entries id ≡ some back
      → (send_back s limits
          (some side)
          (find (note_acked s limits found relay id).reliable_return_routes.entries id)
          (note_acked s limits found relay id)
          ack).link
        ≡ (enqueue relay ack (some side) (some back)).link
  unfolding note_acked send_back enqueue
  returns none relay ack side back id e = rw e refl
  returns (some hash) relay ack side back id e = rw e refl

  forward_ack-returns :
      (relay : Relay) (ack : PacketData) (side back : ℤ)
      → find relay.reliable_return_routes.entries (word_at 0 ack.payload) ≡ some back
      → (forward_ack s limits relay ack (some side)).link
        ≡ (enqueue relay ack (some side) (some back)).link
  unfolding forward_ack
  forward_ack-returns relay ack side back e =
      returns (decode_end_to_end_ack_sender_hash ack.sender) relay ack side back
        (word_at 0 ack.payload) e

  note_return-control :
      (relay : Relay) (pkt : PacketData) (side : ℤ)
      → is_internal_control_type pkt.ty ≡ true
      → note_return s limits relay pkt (some side) ≡ relay
  unfolding note_return
  note_return-control relay pkt side ctl =
      let skip : (is_reliable_type s pkt.ty && not (is_internal_control_type pkt.ty)) ≡ false =
        ground (arith, ctl) in
      rw (note_return, skip) refl

  dispatch-forward :
      (relay : Relay) (ack : PacketData) (side : ℤ)
      → ack.ty ≡ dt_reliable_ack
      → is_end_to_end_ack_sender ack.sender ≡ true
      → length ack.payload ≡ 8
      → dispatch s limits serialized_tx relay ack (some side)
        ≡ forward_ack s limits relay ack (some side)
  unfolding dispatch
  dispatch-forward relay ack side ty sender size =
      let ctl : is_internal_control_type ack.ty ≡ true = is_ack ack.ty ty in
      let acks : (ack.ty == dt_reliable_ack) ≡ true = ground arith in
      let eight : (length ack.payload == 8) ≡ true = ground arith in
      rw (dispatch, ctl, acks, sender, eight) refl

  -- A relay has received a reliable packet from the side `from`. When a board's acknowledgement of
  -- the packet's source id comes next, from any side, the relay queues it for the side `from`.
  pub relay_receive-returns :
      (relay : Relay) (pkt ack : PacketData) (from side : ℤ)
      → is_reliable_type s pkt.ty ≡ true
      → is_internal_control_type pkt.ty ≡ false
      → ack.ty ≡ dt_reliable_ack
      → is_end_to_end_ack_sender ack.sender ≡ true
      → length ack.payload ≡ 8
      → word_at 0 ack.payload ≡ source_packet_id s pkt
      → let first = relay_receive s limits serialized_tx relay pkt (some from) in
        (relay_receive s limits serialized_tx first ack (some side)).link.tx_queue
        ≡ (enqueue_bounded tx_cost first.link.tx_queue
            (record {
              pkt = ack;
              src_side = some side;
              dst_side = some from;
              deliver_local = false;
            })
            false
            first.link.max_queue_budget).0
  unfolding relay_receive enqueue
  relay_receive-returns relay pkt ack from side rel ctl ty sender size word =
      let first = relay_receive s limits serialized_tx relay pkt (some from) in
      let known : find first.reliable_return_routes.entries (word_at 0 ack.payload) ≡ some from =
        ap (find first.reliable_return_routes.entries) word
        ∙ ap (λ c. find c.entries (source_packet_id s pkt))
            (dispatch-routes (note_return s limits relay pkt (some from)) pkt (some from) ctl)
        ∙ note_return-find relay pkt from rel ctl in
      ap (λ r. (dispatch s limits serialized_tx r ack (some side)).link.tx_queue)
        (note_return-control first ack side (is_ack ack.ty ty))
      ∙ ap (λ r. r.link.tx_queue) (dispatch-forward first ack side ty sender size)
      ∙ ap (λ l. l.tx_queue) (forward_ack-returns first ack side from known)
