-- ===== src/Peer.antt =====
-- src/upstream_api_compat.cpp: datagrams and streams between two routers, carried as the payload of
-- packets of one built-in type. Payload has the two codecs, Streams the streams.
pub mod Payload
pub mod RoundTrip
pub mod Addresses
pub mod Streams
pub mod Dispatch
pub mod Ids
pub mod Sessions
pub mod Uses
pub mod Invariant
pub mod Handshake
pub mod Accepting
pub mod Connect
pub mod Ends
pub mod Transfer
