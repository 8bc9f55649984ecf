-- ===== src/Peer/Payload.antt =====
-- src/upstream_api_compat.cpp: the bytes of a datagram and of a stream frame.
-- `le_at n off` is a byte, `read_u16_le` or `read_u32_le` at an offset, where `n` is 1, 2 or 4; the
-- source tests the length of the payload before.
use sedsnet_cpp.Common.{
  ℕ, ◌+◌, ◌%◌, ◌^◌, ◌||◌, not, Option, none, some, List, [], ◌∷◌, ◌++◌, Text, codes, text_eq,
  length, take, drop, ltb, ◌==◌, if◌then◌else◌,
}
use sedsnet_cpp.Common.Words.{append_le, le_at}

pub record P2pDatagram : Type 0 where
  pub source_hostname : Text
  pub source_address : ℕ
  pub source_port : ℕ
  pub destination_port : ℕ
  pub payload : List ℕ

pub record P2pStreamFrame : Type 0 where
  pub flags : ℕ
  pub source_stream_id : ℕ
  pub destination_stream_id : ℕ
  pub sequence : ℕ
  pub payload : List ℕ

abbrev pub p2p_stream_magic : Text
p2p_stream_magic = codes "SDSP"

unfoldable pub encode_p2p_payload : Text → ℕ → ℕ → ℕ → List ℕ → List ℕ
encode_p2p_payload source_hostname source_address src_port dst_port payload =
    1
    ∷ (append_le 2 dst_port
        ++ (append_le 2 src_port
            ++ (append_le 4 source_address
                ++ (append_le 2 (length source_hostname % 2 ^ 16)
                    ++ (append_le 4 (length payload % 2 ^ 32) ++ (source_hostname ++ payload))))))

unfoldable pub decode_p2p_payload : List ℕ → Option P2pDatagram
unfolding le_at
decode_p2p_payload payload =
    let host_len = le_at 2 9 payload in
    let host_end = 15 + host_len in
    let body_end = host_end + le_at 4 11 payload in
    if ltb (length payload) 15
      || not (le_at 1 0 payload == 1)
      || ltb (length payload) host_end
      || not (body_end == length payload)
    then none
    else some (record {
      source_hostname = take host_len (drop 15 payload);
      source_address = le_at 4 5 payload;
      source_port = le_at 2 3 payload;
      destination_port = le_at 2 1 payload;
      payload = drop host_end payload;
    })

unfoldable pub encode_p2p_stream_payload : ℕ → ℕ → ℕ → ℕ → List ℕ → List ℕ
encode_p2p_stream_payload flags source_stream_id destination_stream_id sequence payload =
    p2p_stream_magic
    ++ (1
        ∷ flags
        ∷ (append_le 4 source_stream_id
            ++ (append_le 4 destination_stream_id
                ++ (append_le 4 sequence ++ (append_le 4 (length payload % 2 ^ 32) ++ payload)))))

-- `P2pStreamFrame{}`, by which a frame that is damaged is told from a datagram.
abbrev pub no_frame : P2pStreamFrame
no_frame = record {
  flags = 0;
  source_stream_id = 0;
  destination_stream_id = 0;
  sequence = 0;
  payload = [];
}

unfoldable pub decode_p2p_stream_payload : List ℕ → Option P2pStreamFrame
unfolding le_at
decode_p2p_stream_payload payload =
    if not (text_eq (take 4 payload) p2p_stream_magic)
    then none
    else (if ltb (length payload) 22
          || not (le_at 1 4 payload == 1)
          || not (22 + le_at 4 18 payload == length payload)
        then some no_frame
        else some (record {
          flags = le_at 1 5 payload;
          source_stream_id = le_at 4 6 payload;
          destination_stream_id = le_at 4 10 payload;
          sequence = le_at 4 14 payload;
          payload = drop 22 payload;
        }))
