-- ===== src/Lib.antt =====
-- SEDSnet C++: a telemetry library for routers and relays that pass packets over serial links.
--
-- A packet (`PacketData`) has a type and endpoints from a schema. A router hands received packets to
-- local handlers and sends its own ones; a relay passes packets on between its sides. Both serialize
-- packets into frames (src/serialize.cpp), keep bounded queues (src/queue.cpp), run a reliable
-- protocol on each link (src/router_core.cpp), drop packets seen before, and choose the sides that a
-- packet goes to (src/router_core.cpp, src/core.cpp) by what discovery has learnt of the boards behind
-- them (src/discovery.cpp). The source of a reliable packet waits for the boards that it is for, whose
-- acknowledgements the relays pass back (src/router_core.cpp). Routers agree on a network time
-- (src/timesync.cpp, src/router_api.cpp), send each other datagrams and open streams to each other, and
-- seal bytes and sign credentials (src/upstream_api_compat.cpp).
--
-- The files:
--   Common      numbers, lists, texts, bytes, bits, signed integers and maps.
--   Schema      Cpp-Headers/internal.hpp and src/core.cpp: `kTypeInfo`, `kEndpointNames` and the
--               structs of packets and headers; LinkLocal and Payload are the tests of src/core.cpp.
--   Wire        src/serialize.cpp: Checksum (the hashes of src/core.cpp), Uleb, Ids, Header, Bitmap,
--               Compress, and Frame with the writers (Encode), the readers (Decode, Peek, Offset).
--   Queue       src/queue.cpp, and `enforce_shared_queue_budget` of Cpp-Headers/internal.hpp.
--   Side        the struct `Side` and `side_accepts_packet`.
--   Packets     the packets that src/core.cpp makes.
--   Reliable    the link protocol of src/router_core.cpp: Egress is the sending end and Ingress the
--               receiving end. Each function keeps its name, without `_impl`.
--   Recent      `push_recent`; Window and Held are proofs.
--   Topology    Cpp-Headers/discovery_helpers.hpp: boards and what they reach, and `DiscoveryRoute`.
--   Discovery   src/discovery.cpp. Payload has the codecs, Advertise what a side is told; Live,
--               Expiry, LinkLocal and Repeats are proofs.
--   EndToEnd    the end-to-end part of src/router_core.cpp: Destinations is who is waited for,
--               Timeouts what is sent again; Caches, Answers, Retries and Restarts
--               are proofs.
--   Relay       `relay_receive_impl` and the relay's `transmit_item` of src/router_core.cpp, on top of
--               the parts above; Return is about the way back of acknowledgements.
--   Local       handing a packet to the handlers of the local endpoints (`dispatch_local_packet_handlers`
--               and the functions beside it in src/router_core.cpp); Attempts, Report
--               and Told are proofs.
--   Router      `SedsRouter`, the part that peer-to-peer traffic is about.
--   Peer        the peer-to-peer part of src/upstream_api_compat.cpp: Payload has the codecs, Addresses
--               and Streams what a program calls, Dispatch what is done with a packet that arrives; the
--               other files are proofs. The calls keep their names without `seds_router_`.
--   Crypto      the crypto part of src/upstream_api_compat.cpp: Sha256, Hmac with the tags and the key
--               stream, Cipher with `seds_crypto_seal` and `seds_crypto_open`, Credential with the
--               credentials of managed nodes; the other files are proofs.
--   Calendar    the civil time of src/core.cpp.
--   TimeSync    src/timesync.cpp; Setting and Polling are the calls of src/router_api.cpp and
--               src/router.cpp on network time, Exchange, Answer and Spacing proofs.
--   Routing     `default_candidates`, `select_destinations`, and `apply_policy` in Policy.
--   Tests       a concrete schema, packets, queues and channels.
--
-- How the code is read:
--   - The schema, a global that code generation and registration fill, is an argument. In the
--     table of types no name is null (what is not registered has the name ""); in that of endpoints
--     one is, for an endpoint that is not registered. A comparison of a frame reader with a null name
--     that no test guards is a `fault`; in the hash of a packet's id a null name reads as the empty
--     text. The number of endpoints is the length of their table.
--   - Bytes are numbers below 256, words wrap around at their width, the host is little-endian.
--   - A reader of frames answers `ok`, `reject` (`std::nullopt`) or `fault`: it would read outside
--     the frame or a table, or through a null name.
--   - zstd is the parameter `Zstd`, with its documented law `IsLossless`. Transmit callbacks are a
--     parameter that may answer anything, depending on the calls before; they do not call back.
--   - Handlers of endpoints and of ports and the functions of a crypto provider are parameters that may
--     answer anything; the handlers do not call the router.
--   - The clock has one value throughout an operation. Maps are association lists.
--   - Loops are structural recursion or have fuel: ten rounds for a varint, twenty digits for a
--     64-bit number, the number of buffered packets for the release of packets, the number of queued
--     items for the shared budget. Every round of the last two takes an item away. Hashing and masking
--     have the number of bytes for fuel, and take 64 and 32 of them in a round; the search for a stream
--     id has the number of tries of the source. A decoder of discovery has the length of what is left for
--     fuel; each element takes four bytes or more.
--   - Sets are lists in which an element may stand twice, and the unspecified order of an unordered
--     map is that of its list.
--
-- Not modelled: the receive and transmit handlers of the router; the C API and its checks of null
-- pointers; the rest of src/upstream_api_compat.cpp (schema registration from JSON, managed variables,
-- statistics texts), an adapter around these parts; the builders and decoders on the class `Packet` in
-- Cpp-Headers/timesync.hpp and Cpp-Headers/discovery_helpers.hpp that the router does not call; locks,
-- allocation failures, C strings and buffers that overlap.
pub mod Common
pub mod Schema
pub mod Wire
pub mod Queue
pub mod Side
pub mod Packets
pub mod Reliable
pub mod Recent
pub mod Topology
pub mod Discovery
pub mod EndToEnd
pub mod Routing
pub mod Relay
pub mod Local
pub mod Router
pub mod Peer
pub mod Crypto
pub mod Calendar
pub mod TimeSync
pub mod Tests
