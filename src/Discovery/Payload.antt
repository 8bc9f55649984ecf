-- ===== src/Discovery/Payload.antt =====
-- src/discovery.cpp and Cpp-Headers/discovery_helpers.hpp: what the payloads of discovery say.
-- A text or a list is its length in four bytes and its elements. `none` is the exception
-- `std::invalid_argument`; memory that `reserve` cannot get is not modelled.
pub mod Ends
use sedsnet_cpp.Common.{
  ℕ, zero, suc, ◌-◌, not, ◌&&◌, ◌||◌, Option, none, some, List, [], ◌∷◌, ◌++◌, Text, take, drop,
  filter, is_empty, length, ltb, leb, ◌==◌, if◌then◌else◌, ◌>>=◌, ◌>>◌, guard,
}
use sedsnet_cpp.Common.Words.{append_le, read_le}
use sedsnet_cpp.Common.Sorting.{sort_dedup}
use sedsnet_cpp.Schema.{Schema, PacketData, valid_endpoint, ep_discovery}
use sedsnet_cpp.Topology.{TopologyBoardNode, normalize_topology_boards, sort_dedup_strings}

-- Every four bytes are an endpoint; what is left over at the end is not read.
words : ℕ → List ℕ → List ℕ
words zero payload = []
words (suc fuel) payload = elim (read_le 4 payload) [
  | none ↦ []
  | some (ep, rest) ↦ ep ∷ words fuel rest
]

unfoldable pub decode_discovery_endpoints : Schema → PacketData → List ℕ
unfolding words
decode_discovery_endpoints s pkt = sort_dedup ltb (
    filter (λ ep. valid_endpoint s ep && not (ep == ep_discovery))
      (words (length pkt.payload) pkt.payload))

-- The loop over the sources stops where the payload ends too early; `fuel` is their number, and as
-- each takes four bytes or more, the length of the payload is enough.
sources_loop : ℕ → ℕ → List ℕ → List Text
sources_loop zero count payload = []
sources_loop (suc fuel) count payload = elim (read_le 4 payload) [
  | none ↦ []
  | some (len, rest) ↦
      let later = sources_loop fuel (count - 1) (drop len rest) in
      if count == 0 || ltb (length rest) len
      then []
      else (if len == 0 then later else take len rest ∷ later)
]

unfoldable pub decode_discovery_timesync_sources_packet : PacketData → List Text
unfolding sources_loop
decode_discovery_timesync_sources_packet pkt = elim (read_le 4 pkt.payload) [
  | none ↦ []
  | some (count, rest) ↦ sort_dedup_strings (sources_loop (length pkt.payload) count rest)
]

unfoldable pub decode_sized_string : List ℕ → Option (Text × List ℕ)
decode_sized_string payload = read_le 4 payload >>= λ (len, rest).
    guard (leb len (length rest)) >> some (take len rest, drop len rest)

-- `count` elements, one after the other. Each takes a byte or more, so the length of the payload is
-- fuel enough.
unfoldable pub decode_many :
    {A : Type 0} → (List ℕ → Option (A × List ℕ)) → ℕ → ℕ → List ℕ → Option (List A × List ℕ)
decode_many decode zero count payload = if count == 0 then some ([], payload) else none
decode_many decode (suc fuel) count payload =
    let later = decode payload >>= λ (a, rest).
    decode_many decode fuel (count - 1) rest >>= λ (found, left). some (a ∷ found, left) in
    if count == 0 then some ([], payload) else later

unfoldable pub decode_words : ℕ → List ℕ → Option (List ℕ × List ℕ)
unfolding decode_many
decode_words count payload = decode_many (read_le 4) (length payload) count payload

-- Empty strings are left out.
unfoldable pub decode_strings : ℕ → List ℕ → Option (List Text × List ℕ)
unfolding decode_many decode_sized_string
decode_strings count payload =
    decode_many decode_sized_string (length payload) count payload >>= λ (texts, left).
    some (filter (λ text. not (is_empty text)) texts, left)

unfoldable pub decode_board : List ℕ → Option (TopologyBoardNode × List ℕ)
unfolding decode_sized_string decode_strings decode_words
decode_board payload = decode_sized_string payload >>= λ (sender, rest1).
    read_le 4 rest1 >>= λ (endpoint_count, rest2).
    decode_words endpoint_count rest2 >>= λ (endpoints, rest3).
    read_le 4 rest3 >>= λ (source_count, rest4).
    decode_strings source_count rest4 >>= λ (sources, rest5).
    read_le 4 rest5 >>= λ (connection_count, rest6).
    decode_strings connection_count rest6 >>= λ (connections, rest7). some (
      record {
        sender_id = sender;
        reachable_endpoints = filter (λ ep. not (ep == ep_discovery)) endpoints;
        reachable_timesync_sources = sources;
        connections = connections;
      },
      rest7,
    )

unfoldable pub decode_boards : ℕ → List ℕ → Option (List TopologyBoardNode × List ℕ)
unfolding decode_many decode_board
decode_boards count payload = decode_many decode_board (length payload) count payload

unfoldable pub decode_discovery_topology_payload : List ℕ → Option (List TopologyBoardNode)
unfolding decode_boards
decode_discovery_topology_payload payload = read_le 4 payload >>= λ (count, rest).
    decode_boards count rest >>= λ (boards, left).
    guard (is_empty left) >> some (normalize_topology_boards boards)

or_no_boards : Option (List TopologyBoardNode) → List TopologyBoardNode
or_no_boards none = []
or_no_boards (some boards) = boards

unfoldable pub decode_discovery_topology_packet : PacketData → List TopologyBoardNode
unfolding decode_discovery_topology_payload or_no_boards
decode_discovery_topology_packet pkt = or_no_boards (decode_discovery_topology_payload pkt.payload)

-- A text or a list behind its length.
unfoldable pub encode_sized_string : Text → List ℕ
encode_sized_string text = append_le 4 (length text) ++ text

unfoldable pub encode_strings : List Text → List ℕ
unfolding encode_sized_string
encode_strings [] = []
encode_strings (text ∷ texts) = encode_sized_string text ++ encode_strings texts

unfoldable pub encode_words : List ℕ → List ℕ
encode_words [] = []
encode_words (word ∷ rest) = append_le 4 word ++ encode_words rest

unfoldable pub encode_board : TopologyBoardNode → List ℕ
unfolding encode_sized_string encode_strings encode_words
encode_board board =
    encode_sized_string board.sender_id
    ++ (append_le 4 (length board.reachable_endpoints)
        ++ (encode_words board.reachable_endpoints
            ++ (append_le 4 (length board.reachable_timesync_sources)
                ++ (encode_strings board.reachable_timesync_sources
                    ++ (append_le 4 (length board.connections)
                        ++ encode_strings board.connections)))))

unfoldable pub encode_boards : List TopologyBoardNode → List ℕ
unfolding encode_board
encode_boards [] = []
encode_boards (board ∷ boards) = encode_board board ++ encode_boards boards

-- The payload of `build_discovery_topology`.
unfoldable pub encode_topology : List TopologyBoardNode → List ℕ
unfolding encode_boards
encode_topology boards =
    let normalized = normalize_topology_boards boards in
    append_le 4 (length normalized) ++ encode_boards normalized
