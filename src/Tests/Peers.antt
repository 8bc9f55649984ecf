-- ===== src/Tests/Peers.antt =====
-- The results on peer-to-peer datagrams and streams, applied to two routers.
use sedsnet_cpp.Common.{
  ℕ, ◌^◌, ◌<◌, true, false, none, some, [], ◌∷◌, Text, codes, text_eq, length, ◌≡◌, refl, inl,
  arith,
}
use sedsnet_cpp.Schema.{PacketData}
use sedsnet_cpp.Reliable.{Owner}
use sedsnet_cpp.Reliable.Egress.{result_ok}
use sedsnet_cpp.TimeSync.{TimeSyncRuntime}
use sedsnet_cpp.Router.{Router, P2pStreamSession, PortHandler, Callbacks, result_bad_arg}
use sedsnet_cpp.Common.Assoc.{find}
use sedsnet_cpp.Peer.Payload.{encode_p2p_stream_payload}
use sedsnet_cpp.Peer.Streams.{
  p2p_packet, send_p2p_stream, send_p2p_stream_control, open_p2p_stream_to_address,
}
use sedsnet_cpp.Peer.Dispatch.{dispatch_p2p_packet}
use sedsnet_cpp.Peer.Ids.{IsAllocated, allocate_p2p_stream_id-IsAllocated}
use sedsnet_cpp.Peer.Sessions.{KeepsStreams}
use sedsnet_cpp.Peer.Invariant.{here, next, opens_by_address, sends, hears, PeerSteps-KeepsStreams}
use sedsnet_cpp.Peer.Connect.{IsHandshake, IsReady, open_p2p_stream-IsHandshake}
use sedsnet_cpp.Peer.Ends.{used, dispatch_p2p_packet-closes, send_p2p_stream_control-stays}
use sedsnet_cpp.Peer.Transfer.{IsDelivered, send_p2p_stream-IsDelivered}
use sedsnet_cpp.Tests.{schema}

abbrev no_time : TimeSyncRuntime
no_time = record {
  enabled = false;
  role = 0;
  priority = 100;
  source_timeout_ms = 5000;
  announce_interval_ms = 1000;
  request_interval_ms = 1000;
  last_announce_ms = 0;
  last_request_ms = 0;
  has_network_time = false;
  network_anchor_local_ms = 0;
  network_anchor_unix_ms = 0;
  current_source = [];
  current_source_priority = 0;
  sources = [];
}

abbrev link_of : Text → Owner
link_of name = record {
  sides = [];
  tx_queue = record { items = []; bytes = 0 };
  reliable_released_rx = [];
  reliable_tx = [];
  reliable_rx = [];
  max_queue_budget = 4096;
  sender = name;
  clock = 1000;
  side_tx_active = false;
  side_tx_deferred = false;
  calls = [];
}

abbrev handler : PortHandler
handler = record { cb = true; user = 7 }

-- Both listen on port 80, and know that the pump has address 9.
abbrev peer : Text → ℕ → Router
peer name address = record {
  link = link_of name;
  timesync = no_time;
  p2p_address = address;
  p2p_address_book = (codes "PUMP", 9) ∷ [];
  p2p_host_by_address = (9, codes "PUMP") ∷ [];
  p2p_handlers = [];
  p2p_stream_handlers = (80, handler ∷ []) ∷ [];
  p2p_stream_sessions = [];
  p2p_next_stream_id = 1;
  message_calls = [];
  stream_calls = [];
}

abbrev valve : Router
valve = peer (codes "VALVE") 4

abbrev pump : Router
pump = peer (codes "PUMP") 9

abbrev well : Callbacks
well = record { on_message = λ log h view. result_ok; on_stream = λ log h view. result_ok }

abbrev ready :
    (name : Text) (address : ℕ)
    → length name < 2 ^ 16
    → address < 2 ^ 32
    → IsReady (peer name address)
ready name address named addressed = record {
  sends = record { named = named; addressed = addressed };
  keeps = record { all = tt; next_positive = omega arith; next_fits = omega arith };
  room = omega arith;
}

open_p2p_stream-IsHandshake_example : IsHandshake well schema valve pump (codes "PUMP") 9 80 5000
unfolding text_eq
open_p2p_stream-IsHandshake_example =
    open_p2p_stream-IsHandshake well schema valve pump (codes "PUMP") 9 80 5000 (λ log h view. refl)
      (ready (codes "VALVE") 4 (omega arith) (omega arith))
      (ready (codes "PUMP") 9 (omega arith) (omega arith)) tt refl refl refl refl (omega arith)
      (omega arith)

-- A stream from port 5000 of the valve to port 80 of the pump, at both ends.
abbrev to_pump : P2pStreamSession
to_pump = record {
  peer_hostname = codes "PUMP";
  peer_address = 9;
  local_port = 5000;
  peer_port = 80;
  peer_stream_id = 3;
  next_sequence = 1;
  connected = true;
}

abbrev to_valve : P2pStreamSession
to_valve = record {
  peer_hostname = codes "VALVE";
  peer_address = 4;
  local_port = 80;
  peer_port = 5000;
  peer_stream_id = 2;
  next_sequence = 1;
  connected = true;
}

abbrev joined_valve : Router
joined_valve = record valve { p2p_stream_sessions = (2, to_pump) ∷ [] }

abbrev joined_pump : Router
joined_pump = record pump { p2p_stream_sessions = (3, to_valve) ∷ [] }

send_p2p_stream-IsDelivered_example :
    IsDelivered well schema
      (λ log h view. refl)
      joined_valve
      joined_pump
      2
      to_pump
      to_valve
      (1 ∷ 2 ∷ [])
send_p2p_stream-IsDelivered_example =
    send_p2p_stream-IsDelivered well schema (λ log h view. refl) joined_valve joined_pump 2 to_pump
      to_valve (1 ∷ 2 ∷ []) (record { named = omega arith; addressed = omega arith }) refl refl refl
      refl (omega arith) (omega arith) (omega arith) (omega arith) (omega arith) (omega arith)

allocate_p2p_stream_id-IsAllocated_example : IsAllocated joined_pump
allocate_p2p_stream_id-IsAllocated_example =
    allocate_p2p_stream_id-IsAllocated joined_pump (omega arith) (omega arith) (omega arith)

-- The valve opens a stream, sends on it, and hears a frame from another host.
abbrev opened_valve : Router
opened_valve = (open_p2p_stream_to_address schema valve 9 80 5000).0

abbrev used_valve : Router
used_valve = (send_p2p_stream schema opened_valve 1 (1 ∷ 2 ∷ [])).0

abbrev stranger : Router
stranger = peer (codes "STRANGER") 77

abbrev end_of_two : PacketData
end_of_two = p2p_packet schema stranger 9999 4444 (encode_p2p_stream_payload 4 17 2 5 [])

PeerSteps-KeepsStreams_example :
    KeepsStreams (dispatch_p2p_packet well schema used_valve end_of_two).0
PeerSteps-KeepsStreams_example =
    PeerSteps-KeepsStreams well schema
      (record { all = tt; next_positive = omega arith; next_fits = omega arith })
      (next (next (next here (opens_by_address 9 80 5000)) (sends 1 (1 ∷ 2 ∷ [])))
        (hears end_of_two))

dispatch_p2p_packet-closes_example :
    find (dispatch_p2p_packet well schema joined_valve end_of_two).0.p2p_stream_sessions 2 ≡ none
dispatch_p2p_packet-closes_example =
    dispatch_p2p_packet-closes well schema (λ log h view. refl) stranger joined_valve 9999 4444 4 17
      2 5 to_pump (inl refl) (record { named = omega arith; addressed = omega arith }) (omega arith)
      (omega arith) (omega arith) (omega arith) (omega arith) refl refl

-- A stream that a datagram from port 0 has opened.
abbrev from_nowhere : P2pStreamSession
from_nowhere = record to_valve { peer_port = 0 }

abbrev haunted : Router
haunted = record pump { p2p_stream_sessions = (3, from_nowhere) ∷ [] }

send_p2p_stream_control-stays_example :
    ((send_p2p_stream_control schema haunted 3 4 []).1 ≡ result_bad_arg)
    × (find (send_p2p_stream_control schema haunted 3 4 []).0.p2p_stream_sessions 3
        ≡ some (used from_nowhere))
send_p2p_stream_control-stays_example =
    send_p2p_stream_control-stays schema haunted 3 4 [] from_nowhere refl refl
