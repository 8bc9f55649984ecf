-- ===== src/Crypto/Hmac.antt =====
-- src/upstream_api_compat.cpp: HMAC over the hash, the tags and the key stream of the software
-- cipher, and the comparison of tags.
use sedsnet_cpp.Common.{
  ℕ, zero, suc, ◌+◌, ◌%◌, ◌^◌, bit_or, bit_xor, Bool, false, not, List, [], ◌∷◌, ◌++◌, Text, codes,
  map, length, take, drop, replicate, is_empty, ◌==◌, if◌then◌else◌,
}
use sedsnet_cpp.Common.Words.{append_le}
use sedsnet_cpp.Crypto.Sha256.{Sha256, new_hash, update, finalize, digest}

unfoldable pub normalize_software_key : List ℕ → List ℕ
normalize_software_key key = if length key == 32 then key else digest key

-- The key over the first 32 bytes of a pad of 64.
unfoldable pub pad_key : ℕ → List ℕ → List ℕ
pad_key filler key = map (λ k. bit_xor filler k) key ++ replicate 32 filler

unfoldable pub update_all : Sha256 → List (List ℕ) → Sha256
update_all s [] = s
update_all s (chunk ∷ chunks) = update_all (update s chunk) chunks

unfoldable pub hmac_sha256 : List ℕ → List (List ℕ) → List ℕ
unfolding pad_key update_all
hmac_sha256 key chunks =
    let inner_hash = finalize (update_all (update new_hash (pad_key 0x36 key)) chunks) in
    finalize (update (update new_hash (pad_key 0x5c key)) inner_hash)

-- The differences of the bytes, collected in a uint8_t.
unfoldable pub differences : ℕ → List ℕ → List ℕ → ℕ
differences diff [] ys = diff
differences diff (x ∷ xs) [] = diff
differences diff (x ∷ xs) (y ∷ ys) = differences (bit_or diff (bit_xor x y)) xs ys

unfoldable pub constant_time_eq : List ℕ → List ℕ → Bool
unfolding differences
constant_time_eq a b = if not (length a == length b) then false else differences 0 a b == 0

abbrev pub tag_label : Text
tag_label = codes "SEDS-HMAC-TAG"

abbrev pub credential_label : Text
credential_label = codes "SEDS-MASTER-CREDENTIAL"

abbrev pub stream_label : Text
stream_label = codes "SEDS-HMAC-STREAM"

unfoldable pub software_tag : List ℕ → ℕ → List ℕ → List ℕ → List ℕ → List ℕ
software_tag key key_id nonce aad ciphertext =
    hmac_sha256 key (tag_label ∷ append_le 4 key_id ∷ nonce ∷ aad ∷ ciphertext ∷ [])

unfoldable pub managed_credential_tag : List ℕ → List ℕ → List ℕ
managed_credential_tag key body = hmac_sha256 key (credential_label ∷ body ∷ [])

unfoldable pub stream_block : List ℕ → ℕ → List ℕ → List ℕ → ℕ → List ℕ
stream_block key key_id nonce aad counter =
    hmac_sha256 key (stream_label ∷ append_le 4 key_id ∷ nonce ∷ aad ∷ append_le 8 counter ∷ [])

-- `output[offset + i] = input[offset + i] ^ block[i]`
unfoldable pub xor_block : List ℕ → List ℕ → List ℕ
xor_block [] block = []
xor_block (x ∷ xs) [] = []
xor_block (x ∷ xs) (b ∷ bs) = bit_xor x b ∷ xor_block xs bs

-- Each round of the loop takes up to 32 bytes, so their number is enough for fuel.
module _ (block : ℕ → List ℕ) where
  unfoldable pub stream_loop : ℕ → ℕ → List ℕ → List ℕ
  unfolding xor_block
  stream_loop zero counter input = []
  stream_loop (suc fuel) counter input =
      let rest = stream_loop fuel ((counter + 1) % 2 ^ 64) (drop 32 input) in
      if is_empty input then [] else xor_block (take 32 input) (block counter) ++ rest

unfoldable pub apply_hmac_stream : List ℕ → ℕ → List ℕ → List ℕ → List ℕ → List ℕ
unfolding stream_loop
apply_hmac_stream key key_id nonce aad input =
    stream_loop (stream_block key key_id nonce aad) (length input) 0 input
