-- ===== src/Wire/Checksum.antt =====
-- src/core.cpp: the CRC of a frame and the hashes by which packets and senders are known.
use sedsnet_cpp.Common.{
  ℕ, zero, suc, ◌-◌, ◌*◌, ◌/◌, ◌%◌, ◌^◌, ◌<◌, bit_and, bit_xor, List, [], ◌∷◌, ◌++◌, Text, Option,
  none, some, get_elem?, contains, length, if◌then◌else◌, ltb, to_string, filter, arith,
}
use sedsnet_cpp.Common.Words.{append_le}
use sedsnet_cpp.Schema.{Schema, TypeInfo, PacketData, type_at}

-- `for (int bit = 0; bit < 8; ++bit)`, with `mask = -(crc & 1u)`.
unfoldable pub crc_bits : ℕ → ℕ → ℕ
crc_bits zero crc = crc
crc_bits (suc n) crc =
    let mask = (2 ^ 32 - bit_and crc 1) % 2 ^ 32 in
    crc_bits n (bit_xor (crc / 2) (bit_and 0xEDB88320 mask))

unfoldable pub crc_loop : List ℕ → ℕ → ℕ
unfolding crc_bits
crc_loop [] crc = crc
crc_loop (byte ∷ bytes) crc = crc_loop bytes (crc_bits 8 (bit_xor crc byte))

-- `~crc` on a uint32_t is its distance from the largest one.
unfoldable pub crc32_bytes : List ℕ → ℕ
unfolding crc_loop
crc32_bytes bytes = 0xFFFFFFFF - crc_loop bytes 0xFFFFFFFF

pub crc32_bytes-lt : (bytes : List ℕ) → crc32_bytes bytes < 2 ^ 32
unfolding crc32_bytes
crc32_bytes-lt bytes = omega arith

unfoldable pub hash_bytes_u64 : ℕ → List ℕ → ℕ
hash_bytes_u64 h [] = h
hash_bytes_u64 h (byte ∷ bytes) =
    let mixed = bit_xor h byte * 0x9E3779B1 % 2 ^ 64 in
    hash_bytes_u64 (bit_xor mixed (mixed / 2 ^ 27)) bytes

-- `hash_string` is `hash_bytes_u64` on the bytes of the text.
abbrev pub hash_string : ℕ → Text → ℕ
hash_string h value = hash_bytes_u64 h value

-- `sender_hash`
unfoldable pub sender_hash_loop : ℕ → Text → ℕ
sender_hash_loop h [] = h
sender_hash_loop h (ch ∷ sender) = sender_hash_loop (bit_xor h ch * 1099511628211 % 2 ^ 64) sender

unfoldable pub sender_hash : Text → ℕ
unfolding sender_hash_loop
sender_hash sender = sender_hash_loop 0x517CC1B727220A95 sender

-- The name of an entry, or its number where the table has no such entry. (A null name in the table
-- is undefined behaviour in the source; here it reads as the empty text.)
unfoldable pub name_or_number : Option (Option Text) → ℕ → Text
name_or_number none id = to_string id
name_or_number (some none) id = []
name_or_number (some (some name)) id = name

type_name : Option TypeInfo → Option (Option Text)
type_name none = none
type_name (some info) = some info.name

unfoldable pub hash_endpoints : Schema → ℕ → List ℕ → ℕ
unfolding hash_bytes_u64 name_or_number
hash_endpoints s h [] = h
hash_endpoints s h (ep ∷ eps) =
    hash_endpoints s (hash_string h (name_or_number (get_elem? s.endpoint_names ep) ep)) eps

unfoldable pub packet_id_with_endpoints : Schema → PacketData → List ℕ → ℕ
unfolding hash_bytes_u64 hash_endpoints name_or_number type_name
packet_id_with_endpoints s pkt endpoints =
    let h1 = hash_string 0x9E3779B97F4A7C15 pkt.sender in
    let h2 = hash_string h1 (name_or_number (type_name (get_elem? s.type_info pkt.ty)) pkt.ty) in
    let h3 = hash_endpoints s h2 endpoints in
    let h4 = hash_bytes_u64 h3 (append_le 8 pkt.timestamp) in
    let h5 = hash_bytes_u64 h4 (append_le 8 (length pkt.payload)) in hash_bytes_u64 h5 pkt.payload

unfoldable pub packet_id : Schema → PacketData → ℕ
unfolding packet_id_with_endpoints
packet_id s pkt = packet_id_with_endpoints s pkt pkt.endpoints

-- The second loop of `source_packet_id`: append what the list does not hold yet.
unfoldable pub add_missing : List ℕ → List ℕ → List ℕ
add_missing endpoints [] = endpoints
add_missing endpoints (ep ∷ eps) =
    add_missing (if contains endpoints ep then endpoints else endpoints ++ (ep ∷ [])) eps

-- Schema order first, then the rest in packet order.
unfoldable pub source_endpoints : Schema → PacketData → List ℕ
unfolding add_missing type_at
source_endpoints s pkt =
    add_missing (filter (contains pkt.endpoints) (type_at s pkt.ty).endpoints) pkt.endpoints

unfoldable pub source_packet_id : Schema → PacketData → ℕ
unfolding packet_id packet_id_with_endpoints source_endpoints
source_packet_id s pkt =
    if ltb pkt.ty (length s.type_info)
    then packet_id_with_endpoints s pkt (source_endpoints s pkt)
    else packet_id s pkt
