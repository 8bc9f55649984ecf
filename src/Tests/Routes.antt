-- ===== src/Tests/Routes.antt =====
-- The results on destinations, applied.
use sedsnet_cpp.Common.{Bool, true, false, none, some, List, [], ◌∷◌, All, codes}
use sedsnet_cpp.Common.Int.{pos}
use sedsnet_cpp.Side.{Side}
use sedsnet_cpp.Topology.{DiscoveryRoute}
use sedsnet_cpp.Routing.{RouteKey, select_destinations}
use sedsnet_cpp.Routing.Policy.{RoutePolicy, failover}
use sedsnet_cpp.Routing.Destinations.{MaySend, select_destinations-MaySend}
use sedsnet_cpp.Tests.{schema, imu}

abbrev side : Bool → Side
side sends = record {
  name = codes "CAN";
  serialized_tx = true;
  packet_tx = false;
  reliable_enabled = true;
  link_local_enabled = false;
  ingress_enabled = true;
  egress_enabled = sends;
}

abbrev sides : List Side
sides = side true ∷ side true ∷ side false ∷ side true ∷ []

abbrev backup : RoutePolicy
backup = record {
  mode = failover;
  weights = [];
  priorities = (pos 1, 9) ∷ (pos 3, 2) ∷ [];
  rr_counter = 0;
}

abbrev route : DiscoveryRoute
route = record { endpoints = 100 ∷ []; timesync_sources = []; last_seen_ms = 50; announcers = [] }

abbrev blocked : RouteKey
blocked = record { src_side = pos 0; dst_side = pos 3 }

select_destinations-MaySend_example : All (MaySend schema sides imu (some (pos 0)) 60) (
    (select_destinations schema sides imu
      (some (pos 0))
      60
      ((blocked, false) ∷ [])
      []
      ((pos 1, route) ∷ (pos 3, route) ∷ [])
      backup
      none
      none).1)
select_destinations-MaySend_example =
    select_destinations-MaySend schema sides imu (some (pos 0)) 60 ((blocked, false) ∷ []) []
      ((pos 1, route) ∷ (pos 3, route) ∷ []) backup none
