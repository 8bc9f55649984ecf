-- ===== src/Reliable.antt =====
-- src/router_core.cpp: the reliable link layer that the router and the relay share, as the part of
-- an owner (`SedsRouter` or `SedsRelay`) that it reads and writes.
-- `now_ms()` answers `clock` throughout one operation. What a transmit callback answers is the
-- parameter `serialized_tx` of the code that calls it: a function of the calls made before, the
-- side and the bytes. A callback does not call the owner again.
pub mod Ingress
pub mod Egress
pub mod InOrder
pub mod Delivery
pub mod Pending
pub mod Sending
pub mod Keys
use sedsnet_cpp.Common.{
  ℕ, zero, suc, ◌+◌, ◌-◌, ◌*◌, ◌/◌, ◌%◌, ◌^◌, bit_or, Bool, true, false, not, ◌&&◌, ◌||◌, Option,
  none, some, List, [], ◌∷◌, ◌++◌, length, Text, ltb, ◌==◌, if◌then◌else◌,
}
use sedsnet_cpp.Common.Int.{ℤ, pos, negsuc, elem_at}
use sedsnet_cpp.Common.Assoc.{find, put}
use sedsnet_cpp.Schema.{
  Schema, PacketData, dt_reliable_ack, dt_reliable_packet_request, dt_reliable_partial_ack,
}
use sedsnet_cpp.Queue.{Queue, enqueue_bounded}
use sedsnet_cpp.Queue.Items.{TxItem, RxItem, tx_cost}
use sedsnet_cpp.Side.{Side}
use sedsnet_cpp.Packets.{make_reliable_control_packet}

pub record Sent : Type 0 where
  pub bytes : List ℕ
  pub last_send_ms : ℕ
  pub retries : ℕ
  pub queued : Bool
  pub partial_acked : Bool

pub record ReliableTxState : Type 0 where
  pub next_seq : ℕ
  pub sent_order : List ℕ
  pub sent : List (ℕ × Sent)

pub record Buffered : Type 0 where
  pub pkt : PacketData
  pub wire_bytes : List ℕ

pub record ReliableRxState : Type 0 where
  pub expected_seq : ℕ
  pub last_ack : ℕ
  pub buffered : List (ℕ × Buffered)

-- The states that `operator[]` of a map makes for a new key.
abbrev pub new_tx : ReliableTxState
new_tx = record { next_seq = 1; sent_order = []; sent = [] }

abbrev pub new_rx : ReliableRxState
new_rx = record { expected_seq = 1; last_ack = 0; buffered = [] }

pub record Owner : Type 0 where
  pub sides : List Side
  pub tx_queue : Queue TxItem
  pub reliable_released_rx : List RxItem
  pub reliable_tx : List (ℕ × ReliableTxState)
  pub reliable_rx : List (ℕ × ReliableRxState)
  pub max_queue_budget : ℕ
  pub sender : Text
  pub clock : ℕ
  pub side_tx_active : Bool
  pub side_tx_deferred : Bool
  pub calls : List (ℤ × List ℕ)

-- The runtime limits of `runtime_tuning_config()`.
pub record Tuning : Type 0 where
  pub max_pending : ℕ
  pub retransmit_ms : ℕ
  pub max_retries : ℕ

-- `static_cast<uint32_t>` and `static_cast<int32_t>`.
abbrev pub to_u32 : ℤ → ℕ
to_u32 (pos n) = n % 2 ^ 32
to_u32 (negsuc n) = 2 ^ 32 - 1 - n % 2 ^ 32

unfoldable pub to_i32 : ℕ → ℤ
to_i32 n = if ltb n (2 ^ 31) then pos n else negsuc (2 ^ 32 - 1 - n)

unfoldable pub reliable_key : ℤ → ℕ → ℕ
reliable_key side_id ty = bit_or (to_u32 side_id * 2 ^ 32) ty

-- The number after a sequence number: zero is left out.
unfoldable pub next_seq_after : ℕ → ℕ
next_seq_after seq = let next = (seq + 1) % 2 ^ 32 in if next == 0 then 1 else next

abbrev pub or_new_rx : Option ReliableRxState → ReliableRxState
or_new_rx none = new_rx
or_new_rx (some rx) = rx

abbrev pub or_new_tx : Option ReliableTxState → ReliableTxState
or_new_tx none = new_tx
or_new_tx (some tx) = tx

-- `owner.reliable_rx[key]` and `owner.reliable_tx[key]`
abbrev pub rx_at : Owner → ℕ → ReliableRxState
rx_at owner key = or_new_rx (find owner.reliable_rx key)

abbrev pub tx_at : Owner → ℕ → ReliableTxState
tx_at owner key = or_new_tx (find owner.reliable_tx key)

abbrev pub put_rx : Owner → ℕ → ReliableRxState → Owner
put_rx owner key rx = record owner { reliable_rx = put owner.reliable_rx key rx }

abbrev pub put_tx : Owner → ℕ → ReliableTxState → Owner
put_tx owner key tx = record owner { reliable_tx = put owner.reliable_tx key tx }

module _ (s : Schema) where
  -- `queue_reliable_ack`, `queue_reliable_packet_request` and `queue_reliable_partial_ack` differ
  -- in the type of the control packet.
  unfoldable pub queue_on : Option Side → ℕ → Owner → ℤ → ℕ → ℕ → Owner
  queue_on none control_ty owner side_id ty seq = owner
  queue_on (some side) control_ty owner side_id ty seq =
      if not side.reliable_enabled || not side.serialized_tx then owner else record owner {
        tx_queue =
            (enqueue_bounded tx_cost owner.tx_queue
              (record {
                pkt = make_reliable_control_packet s control_ty ty seq owner.clock owner.sender;
                src_side = none;
                dst_side = some side_id;
                deliver_local = false;
              })
              true owner.max_queue_budget).0;
      }

  unfoldable pub queue_reliable_ack : Owner → ℤ → ℕ → ℕ → Owner
  unfolding queue_on
  queue_reliable_ack owner side_id =
      queue_on (elem_at owner.sides side_id) dt_reliable_ack owner side_id

  unfoldable pub queue_reliable_packet_request : Owner → ℤ → ℕ → ℕ → Owner
  unfolding queue_on
  queue_reliable_packet_request owner side_id =
      queue_on (elem_at owner.sides side_id) dt_reliable_packet_request owner side_id

  unfoldable pub queue_reliable_partial_ack : Owner → ℤ → ℕ → ℕ → Owner
  unfolding queue_on
  queue_reliable_partial_ack owner side_id =
      queue_on (elem_at owner.sides side_id) dt_reliable_partial_ack owner side_id
