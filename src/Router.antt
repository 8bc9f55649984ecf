-- ===== src/Router.antt =====
-- `SedsRouter` of Cpp-Headers/internal.hpp, the part that peer-to-peer traffic is about.
-- A handler is known by what was registered: a function pointer is `true` where it is not null.
-- What a handler answers is a parameter, `Callbacks`: a function of the calls made before, which the
-- router here keeps a log of, the newest first. A handler does not call the router again.
use sedsnet_cpp.Common.{ℕ, Bool, List, Text}
use sedsnet_cpp.Common.Int.{ℤ, negsuc}
use sedsnet_cpp.Reliable.{Owner}
use sedsnet_cpp.TimeSync.{TimeSyncRuntime}
pub use sedsnet_cpp.TimeSync.Setting.{result_bad_arg}
pub use sedsnet_cpp.Relay.{result_handler_error}

-- `P2pPortHandler` and `P2pStreamHandler`.
pub record PortHandler : Type 0 where
  pub cb : Bool
  pub user : ℕ

pub record P2pStreamSession : Type 0 where
  pub peer_hostname : Text
  pub peer_address : ℕ
  pub local_port : ℕ
  pub peer_port : ℕ
  pub peer_stream_id : ℕ
  pub next_sequence : ℕ
  pub connected : Bool

-- `SedsP2pMessageView`
pub record MessageView : Type 0 where
  pub source_hostname : Text
  pub source_address : ℕ
  pub source_port : ℕ
  pub destination_port : ℕ
  pub payload : List ℕ

-- `SedsP2pStreamEventView`; the kinds are 1 accepted, 2 connected, 3 data, 4 closed, 5 reset.
pub record StreamEventView : Type 0 where
  pub kind : ℕ
  pub stream_id : ℕ
  pub peer_stream_id : ℕ
  pub sequence : ℕ
  pub peer_hostname : Text
  pub peer_address : ℕ
  pub local_port : ℕ
  pub peer_port : ℕ
  pub payload : List ℕ

pub record Callbacks : Type 0 where
  pub on_message : List (PortHandler × MessageView) → PortHandler → MessageView → ℤ
  pub on_stream : List (PortHandler × StreamEventView) → PortHandler → StreamEventView → ℤ

pub record Router : Type 0 where
  pub link : Owner
  pub timesync : TimeSyncRuntime
  pub p2p_address : ℕ
  pub p2p_address_book : List (Text × ℕ)
  pub p2p_host_by_address : List (ℕ × Text)
  pub p2p_handlers : List (ℕ × List PortHandler)
  pub p2p_stream_handlers : List (ℕ × List PortHandler)
  pub p2p_stream_sessions : List (ℕ × P2pStreamSession)
  pub p2p_next_stream_id : ℕ
  pub message_calls : List (PortHandler × MessageView)
  pub stream_calls : List (PortHandler × StreamEventView)

-- `SedsResult`
abbrev pub result_size_mismatch : ℤ
result_size_mismatch = negsuc 3

abbrev pub result_deserialize : ℤ
result_deserialize = negsuc 12
