-- ===== src/Peer/RoundTrip.antt =====
-- The codecs of datagrams and of stream frames take back what they wrote.
use sedsnet_cpp.Common.{
  ℕ, ◌+◌, ◌%◌, ◌^◌, ◌<◌, some, List, Text, text_eq, length, take, drop, ltb, ◌==◌, ◌≡◌, true, false,
  refl, ◌∙◌, take_front, drop_front, drop-add, length-append, arith,
}
use sedsnet_cpp.Common.Words.{append_le, le_at, le_at-append_le, read_le}
use sedsnet_cpp.Peer.Payload.{
  encode_p2p_payload, decode_p2p_payload, encode_p2p_stream_payload, decode_p2p_stream_payload,
  p2p_stream_magic,
}

module _ (host : Text) (address src dst : ℕ) (payload : List ℕ) where
  abbrev encoded : List ℕ
  encoded = encode_p2p_payload host address src dst payload

  dst_field : dst < 2 ^ 16 → le_at 2 1 encoded ≡ dst
  unfolding encode_p2p_payload append_le
  dst_field h = le_at-append_le 2 1 dst encoded _ refl h

  src_field : src < 2 ^ 16 → le_at 2 3 encoded ≡ src
  unfolding encode_p2p_payload append_le
  src_field h = le_at-append_le 2 3 src encoded _ refl h

  address_field : address < 2 ^ 32 → le_at 4 5 encoded ≡ address
  unfolding encode_p2p_payload append_le
  address_field h = le_at-append_le 4 5 address encoded _ refl h

  host_field : length host < 2 ^ 16 → le_at 2 9 encoded ≡ length host
  unfolding encode_p2p_payload append_le
  host_field h =
      le_at-append_le 2 9 (length host % 2 ^ 16) encoded _ refl (omega arith) ∙ omega arith

  body_field : length payload < 2 ^ 32 → le_at 4 11 encoded ≡ length payload
  unfolding encode_p2p_payload append_le
  body_field h =
      le_at-append_le 4 11 (length payload % 2 ^ 32) encoded _ refl (omega arith) ∙ omega arith

  length-encoded : length encoded ≡ 15 + (length host + length payload)
  unfolding encode_p2p_payload append_le
  length-encoded = omega (arith, length-append {0} host payload)

  version_field : le_at 1 0 encoded ≡ 1
  unfolding encode_p2p_payload le_at read_le
  version_field = refl

  host_text : take (length host) (drop 15 encoded) ≡ host
  unfolding encode_p2p_payload append_le
  host_text = take_front host payload

  body_bytes : drop (15 + length host) encoded ≡ payload
  unfolding encode_p2p_payload append_le
  body_bytes = drop-add 15 (length host) encoded ∙ drop_front host payload

  -- A datagram comes back as it was sent, with ports of 16 bits, an address of 32 bits, a host name
  -- below 2 ^ 16 bytes and a body below 2 ^ 32 bytes.
  pub decode_p2p_payload-encode_p2p_payload :
      dst < 2 ^ 16
      → src < 2 ^ 16
      → address < 2 ^ 32
      → length host < 2 ^ 16
      → length payload < 2 ^ 32
      → decode_p2p_payload (encode_p2p_payload host address src dst payload)
        ≡ some (record {
          source_hostname = host;
          source_address = address;
          source_port = src;
          destination_port = dst;
          payload = payload;
        })
  unfolding decode_p2p_payload
  decode_p2p_payload-encode_p2p_payload hd hs ha hh hp =
      let long : ltb (length encoded) 15 ≡ false = ground (arith, length-encoded) in
      let inside : ltb (length encoded) (15 + length host) ≡ false =
        ground (arith, length-encoded) in
      let exact : (15 + length host + length payload == length encoded) ≡ true =
        ground (arith, length-encoded) in
      rw
        (
          dst_field hd,
          src_field hs,
          address_field ha,
          host_field hh,
          body_field hp,
          version_field,
          long,
          inside,
          exact,
          host_text,
          body_bytes,
        )
        refl

module _ (flags source destination sequence : ℕ) (payload : List ℕ) where
  abbrev pub framed : List ℕ
  framed = encode_p2p_stream_payload flags source destination sequence payload

  source_field : source < 2 ^ 32 → le_at 4 6 framed ≡ source
  unfolding encode_p2p_stream_payload append_le
  source_field h = le_at-append_le 4 6 source framed _ refl h

  destination_field : destination < 2 ^ 32 → le_at 4 10 framed ≡ destination
  unfolding encode_p2p_stream_payload append_le
  destination_field h = le_at-append_le 4 10 destination framed _ refl h

  sequence_field : sequence < 2 ^ 32 → le_at 4 14 framed ≡ sequence
  unfolding encode_p2p_stream_payload append_le
  sequence_field h = le_at-append_le 4 14 sequence framed _ refl h

  size_field : length payload < 2 ^ 32 → le_at 4 18 framed ≡ length payload
  unfolding encode_p2p_stream_payload append_le
  size_field h =
      le_at-append_le 4 18 (length payload % 2 ^ 32) framed _ refl (omega arith) ∙ omega arith

  frame_version : le_at 1 4 framed ≡ 1
  unfolding encode_p2p_stream_payload le_at read_le
  frame_version = refl

  frame_flags : le_at 1 5 framed ≡ flags
  unfolding encode_p2p_stream_payload le_at read_le
  frame_flags = omega arith

  frame_magic : text_eq (take 4 framed) p2p_stream_magic ≡ true
  unfolding encode_p2p_stream_payload text_eq
  frame_magic = refl

  pub length-framed : length framed ≡ 22 + length payload
  unfolding encode_p2p_stream_payload append_le
  length-framed = omega arith

  frame_body : drop 22 framed ≡ payload
  unfolding encode_p2p_stream_payload append_le
  frame_body = refl

  -- A stream frame comes back as it was sent, with ids and a sequence number of 32 bits and a body
  -- below 2 ^ 32 bytes.
  pub decode_p2p_stream_payload-encode_p2p_stream_payload :
      source < 2 ^ 32
      → destination < 2 ^ 32
      → sequence < 2 ^ 32
      → length payload < 2 ^ 32
      → decode_p2p_stream_payload
          (encode_p2p_stream_payload flags source destination sequence payload)
        ≡ some (record {
          flags = flags;
          source_stream_id = source;
          destination_stream_id = destination;
          sequence = sequence;
          payload = payload;
        })
  unfolding decode_p2p_stream_payload
  decode_p2p_stream_payload-encode_p2p_stream_payload hs hd hq hp =
      let long : ltb (length framed) 22 ≡ false = ground (arith, length-framed) in
      let exact : (22 + length payload == length framed) ≡ true = ground (arith, length-framed) in
      rw
        (
          source_field hs,
          destination_field hd,
          sequence_field hq,
          size_field hp,
          frame_version,
          frame_flags,
          frame_magic,
          long,
          exact,
          frame_body,
        )
        refl
