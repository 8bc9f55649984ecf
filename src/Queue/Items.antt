-- ===== src/Queue/Items.antt =====
-- The items of the two queues and what they cost: src/queue.cpp and Cpp-Headers/internal.hpp.
use sedsnet_cpp.Common.{ℕ, ◌+◌, ◌*◌, Bool, Option, List, length}
use sedsnet_cpp.Common.Int.{ℤ}
use sedsnet_cpp.Schema.{PacketData}

pub record TxItem : Type 0 where
  pub pkt : PacketData
  pub src_side : Option ℤ
  pub dst_side : Option ℤ
  pub deliver_local : Bool

pub record RxItem : Type 0 where
  pub pkt : PacketData
  pub src_side : Option ℤ
  pub wire_bytes : List ℕ

-- The sizes of `ty` and `timestamp`, and four bytes for each endpoint.
unfoldable pub byte_cost : PacketData → ℕ
byte_cost pkt = 4 + 8 + length pkt.sender + length pkt.endpoints * 4 + length pkt.payload

unfoldable pub tx_cost : TxItem → ℕ
unfolding byte_cost
tx_cost item = byte_cost item.pkt + 1 + 4 * 2

unfoldable pub rx_cost : RxItem → ℕ
unfolding byte_cost
rx_cost item = byte_cost item.pkt + 4 + length item.wire_bytes
