-- ===== src/Tests/Locals.antt =====
-- The result on local handlers, applied: one endpoint fails, another accepts.
use sedsnet_cpp.Common.{ℕ, true, [], ◌∷◌, codes, ◌==◌, if◌then◌else◌, arith}
use sedsnet_cpp.Common.Int.{ℤ, negsuc}
use sedsnet_cpp.Schema.{PacketData}
use sedsnet_cpp.Reliable.Egress.{result_ok}
use sedsnet_cpp.Local.{LocalEndpoint}
use sedsnet_cpp.Local.Told.{IsTold, dispatch_local_packet_handlers-IsTold}
use sedsnet_cpp.Tests.{schema, gps}

abbrev on_endpoint : ℕ → LocalEndpoint
on_endpoint endpoint = record {
  endpoint = endpoint;
  packet_handler = true;
  serialized_handler = true;
  user = 0;
}

abbrev full_disk : LocalEndpoint → PacketData → ℤ
full_disk local pkt = if local.endpoint == 100 then negsuc 13 else result_ok

dispatch_local_packet_handlers-IsTold_example :
    IsTold full_disk 3 schema (codes "CPP") gps (on_endpoint 100 ∷ on_endpoint 101 ∷ []) []
dispatch_local_packet_handlers-IsTold_example =
    dispatch_local_packet_handlers-IsTold full_disk 3 schema (codes "CPP") gps
      (on_endpoint 100 ∷ on_endpoint 101 ∷ []) [] (omega arith)
