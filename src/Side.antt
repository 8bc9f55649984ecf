-- ===== src/Side.antt =====
-- `Side` of Cpp-Headers/internal.hpp and `side_accepts_packet` of src/core.cpp.
-- Of the callbacks a side keeps only whether they are set; what they answer is a parameter of the
-- code that calls them.
use sedsnet_cpp.Common.{Bool, not, ◌&&◌, Text}
use sedsnet_cpp.Schema.{Schema, PacketData}
use sedsnet_cpp.Schema.LinkLocal.{packet_requires_link_local}

pub record Side : Type 0 where
  pub name : Text
  pub serialized_tx : Bool
  pub packet_tx : Bool
  pub reliable_enabled : Bool
  pub link_local_enabled : Bool
  pub ingress_enabled : Bool
  pub egress_enabled : Bool

unfoldable pub side_accepts_packet : Schema → Side → PacketData → Bool
side_accepts_packet s side pkt =
    not (packet_requires_link_local s pkt && not side.link_local_enabled)
