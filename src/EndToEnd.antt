-- ===== src/EndToEnd.antt =====
-- src/router_core.cpp: acknowledgements between the source of a reliable packet and the boards
-- that it is for, across relays.
-- A router keeps the packets that it waits to hear of, a relay the boards that have answered; both
-- keep the side to which the answers go back. Each of these maps has a deque that bounds it.
pub mod Destinations
pub mod Timeouts
pub mod Caches
pub mod Retries
pub mod Restarts
pub mod Answers
use sedsnet_cpp.Common.{
  ℕ, ◌+◌, ◌%◌, ◌^◌, max, Bool, true, false, not, ◌&&◌, ◌||◌, Option, none, some, List, [], ◌∷◌,
  ◌++◌, Text, text_eq, codes, length, contains, filter, take, drop, is_empty, ltb, leb, ◌==◌,
  if◌then◌else◌,
}
use sedsnet_cpp.Common.Int.{ℤ}
use sedsnet_cpp.Common.Words.{read_le}
use sedsnet_cpp.Common.Assoc.{find, put, erase}
use sedsnet_cpp.Schema.{Schema, PacketData}
use sedsnet_cpp.Packets.{make_e2e_reliable_ack_packet}
use sedsnet_cpp.Queue.{enqueue_bounded}
use sedsnet_cpp.Queue.Items.{tx_cost}
use sedsnet_cpp.Wire.Checksum.{sender_hash, packet_id, source_packet_id}
use sedsnet_cpp.Reliable.{Owner}
use sedsnet_cpp.TimeSync.{word_at}

pub record EndToEndReliableSent : Type 0 where
  pub pkt : PacketData
  pub pending_destinations : List (ℕ × ℤ)
  pub tracked_destinations : Bool
  pub last_send_ms : ℕ
  pub retries : ℕ
  pub queued : Bool

-- A map with the deque that bounds it.
pub record Cache (A : Type 0) : Type 0 where
  pub entries : List (ℕ × A)
  pub order : List ℕ

-- `runtime_reliable_max_return_routes()` and its like.
pub record EndToEndLimits : Type 0 where
  pub max_return_routes : ℕ
  pub max_end_to_end_pending : ℕ
  pub max_end_to_end_ack_cache : ℕ

abbrev pub end_to_end_ack_sender : Text
end_to_end_ack_sender = codes "E2EACK"

abbrev pub end_to_end_ack_prefix : Text
end_to_end_ack_prefix = codes "E2EACK:"

unfoldable pub starts_with : Text → Text → Bool
starts_with text prefix = text_eq (take (length prefix) text) prefix

unfoldable pub is_end_to_end_ack_sender : Text → Bool
unfolding starts_with
is_end_to_end_ack_sender sender =
    text_eq sender end_to_end_ack_sender || starts_with sender end_to_end_ack_prefix

unfoldable pub decode_end_to_end_ack_sender_hash : Text → Option ℕ
unfolding starts_with
decode_end_to_end_ack_sender_hash sender =
    if not (starts_with sender end_to_end_ack_prefix)
      || leb (length sender) (length end_to_end_ack_prefix)
    then none
    else some (sender_hash (drop (length end_to_end_ack_prefix) sender))

unfoldable pub encode_end_to_end_ack_sender : Text → Text
encode_end_to_end_ack_sender sender = end_to_end_ack_prefix ++ sender

unfoldable pub is_end_to_end_destination_sender : Text → Bool
unfolding is_end_to_end_ack_sender
is_end_to_end_destination_sender sender =
    not (text_eq sender (codes "RELAY")) && not (is_end_to_end_ack_sender sender)

module _ {A : Type 0} where
  -- The loop that drops the oldest while the deque is at its limit.
  unfoldable pub drop_oldest_entries : ℕ → List ℕ → List (ℕ × A) → Cache A
  drop_oldest_entries cap [] entries = record { entries = entries; order = [] }
  drop_oldest_entries cap (oldest ∷ order) entries =
      let smaller = drop_oldest_entries cap order (erase entries oldest) in
      if leb cap (length (oldest ∷ order))
      then smaller
      else record { entries = entries; order = oldest ∷ order }

  -- `remember_reliable_return_route`, `remember_end_to_end_reliable_tx` and the head of
  -- `note_end_to_end_acked_destination` differ in the map, the deque and the limit.
  unfoldable pub remember : ℕ → ℕ → Cache A → Cache A
  unfolding drop_oldest_entries
  remember limit packet_id cache =
      let rest = filter (λ id. not (id == packet_id)) cache.order in
      let room = drop_oldest_entries (max 1 limit) rest cache.entries in
      record { entries = room.entries; order = room.order ++ (packet_id ∷ []) }

  -- What follows it in each caller: `map[packet_id] = a`.
  unfoldable pub remember_entry : ℕ → ℕ → A → Cache A → Cache A
  unfolding remember
  remember_entry limit packet_id a cache =
      let room = remember limit packet_id cache in
      record room { entries = put room.entries packet_id a }

unfoldable pub note_reliable_return_route : EndToEndLimits → Cache ℤ → ℤ → ℕ → Cache ℤ
unfolding remember_entry
note_reliable_return_route limits routes side_id packet_id =
    remember_entry limits.max_return_routes packet_id side_id routes

abbrev or_none : Option (List ℕ) → List ℕ
or_none none = []
or_none (some senders) = senders

unfoldable pub note_end_to_end_acked_destination :
    EndToEndLimits → Cache (List ℕ) → ℕ → ℕ → Cache (List ℕ)
unfolding remember
note_end_to_end_acked_destination limits acked packet_id hash =
    let room = remember limits.max_end_to_end_ack_cache packet_id acked in
    let senders = or_none (find room.entries packet_id) in
    let grown = if contains senders hash then senders else hash ∷ senders in
    record room {
      entries = put room.entries packet_id (
          if ltb (length senders) (max 1 limits.max_end_to_end_pending) || contains senders hash
          then grown
          else senders);
    }

-- The branch of `router_receive_impl` for an acknowledgement from a board.
unfoldable pub acknowledged : Option ℕ → EndToEndReliableSent → Option EndToEndReliableSent
acknowledged none sent = none
acknowledged (some hash) sent =
    let left = erase sent.pending_destinations hash in
    if is_empty left then none else some (record sent { pending_destinations = left })

replace_sent :
    ℕ → Option EndToEndReliableSent → Cache EndToEndReliableSent → Cache EndToEndReliableSent
replace_sent id none tx = record tx { entries = erase tx.entries id }
replace_sent id (some sent) tx = record tx { entries = put tx.entries id sent }

acknowledge_found :
    ℕ → Text → Option EndToEndReliableSent → Cache EndToEndReliableSent → Cache EndToEndReliableSent
unfolding acknowledged replace_sent decode_end_to_end_ack_sender_hash
acknowledge_found id sender none tx = tx
acknowledge_found id sender (some sent) tx =
    replace_sent id (acknowledged (decode_end_to_end_ack_sender_hash sender) sent) tx

unfoldable pub acknowledge_end_to_end :
    PacketData → Cache EndToEndReliableSent → Cache EndToEndReliableSent
unfolding acknowledge_found word_at
acknowledge_end_to_end pkt tx =
    let acked_id = word_at 0 pkt.payload in
    acknowledge_found acked_id pkt.sender (find tx.entries acked_id) tx

module _ (s : Schema) where
  queue_ack_of : Owner → ℕ → Option ℤ → Owner
  queue_ack_of link id src_side = record link {
    tx_queue =
        (enqueue_bounded tx_cost link.tx_queue
          (record {
            pkt =
                make_e2e_reliable_ack_packet s id link.clock
                  (encode_end_to_end_ack_sender link.sender);
            src_side = none;
            dst_side = src_side;
            deliver_local = false;
          })
          true link.max_queue_budget).0;
  }

  unfoldable pub queue_end_to_end_ack : Owner → PacketData → Option ℤ → Owner
  unfolding queue_ack_of encode_end_to_end_ack_sender
  queue_end_to_end_ack link pkt src_side =
      let first = queue_ack_of link (packet_id s pkt) src_side in
      if source_packet_id s pkt == packet_id s pkt
      then first
      else queue_ack_of first (source_packet_id s pkt) src_side
