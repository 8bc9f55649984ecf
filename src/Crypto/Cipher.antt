-- ===== src/Crypto/Cipher.antt =====
-- src/upstream_api_compat.cpp: sealing and opening by the registered provider or, where there is
-- none, by the software cipher with a registered key.
-- The provider's functions are parameters. Input pointers are taken to be there; an output buffer is
-- a pointer, null or not, with its capacity, and what is written to it is part of the answer.
use sedsnet_cpp.Common.{
  ℕ, Bool, true, false, not, ◌&&◌, ◌||◌, Option, none, some, List, [], length, take, ltb, ◌==◌,
  if◌then◌else◌,
}
use sedsnet_cpp.Common.Int.{ℤ}
use sedsnet_cpp.Common.Assoc.{find, put}
use sedsnet_cpp.Reliable.Egress.{result_ok}
use sedsnet_cpp.Router.{result_bad_arg, result_size_mismatch, result_handler_error}
use sedsnet_cpp.Crypto.Hmac.{
  normalize_software_key, constant_time_eq, software_tag, apply_hmac_stream,
}

pub record OutBuffer : Type 0 where
  pub there : Bool
  pub cap : ℕ

-- The result and what was written.
pub record Sealed : Type 0 where
  pub result : ℤ
  pub ciphertext : List ℕ
  pub tag : List ℕ

pub record Opened : Type 0 where
  pub result : ℤ
  pub plaintext : List ℕ

-- `g_crypto_seal` and `g_crypto_open`, and `g_software_keys`.
pub record Crypto : Type 0 where
  pub provider : Bool
  pub software_keys : List (ℕ × List ℕ)

unfoldable pub register_provider : Bool → Bool → Crypto → Crypto × ℤ
register_provider seal open_ g =
    if not seal || not open_ then (g, result_bad_arg) else (record g { provider = true }, result_ok)

unfoldable pub clear_provider : Crypto → Crypto
clear_provider g = record g { provider = false }

unfoldable pub register_software_key : Crypto → ℕ → List ℕ → Crypto × ℤ
register_software_key g key_id key = if ltb (length key) 16 then (g, result_bad_arg) else (
  record g { software_keys = put g.software_keys key_id (normalize_software_key key) },
  result_ok,
)

unfoldable pub clear_software_keys : Crypto → Crypto
clear_software_keys g = record g { software_keys = [] }

abbrev seal_fails : ℤ → Sealed
seal_fails rc = record { result = rc; ciphertext = []; tag = [] }

abbrev open_fails : ℤ → Opened
open_fails rc = record { result = rc; plaintext = [] }

-- `pointer == nullptr && cap != 0`
abbrev is_bad : OutBuffer → Bool
is_bad out = not out.there && not (out.cap == 0)

unfoldable pub software_seal :
    Option (List ℕ) → ℕ → List ℕ → List ℕ → List ℕ → OutBuffer → OutBuffer → Sealed
software_seal none key_id nonce aad plaintext out tag_out = seal_fails result_bad_arg
software_seal (some key) key_id nonce aad plaintext out tag_out =
    let ciphertext = apply_hmac_stream key key_id nonce aad plaintext in
    if not out.there || not tag_out.there || ltb out.cap (length plaintext) || ltb tag_out.cap 16
    then seal_fails result_size_mismatch
    else record {
      result = result_ok;
      ciphertext = ciphertext;
      tag = take 16 (software_tag key key_id nonce aad ciphertext);
    }

unfoldable pub open_with : List ℕ → ℕ → List ℕ → List ℕ → List ℕ → List ℕ → OutBuffer → Opened
open_with key key_id nonce aad ciphertext tag out =
    if not out.there || ltb out.cap (length ciphertext)
    then open_fails result_size_mismatch
    else (if constant_time_eq (take 16 (software_tag key key_id nonce aad ciphertext)) tag
        then record {
          result = result_ok;
          plaintext = apply_hmac_stream key key_id nonce aad ciphertext;
        }
        else open_fails result_handler_error)

unfoldable pub software_open :
    Option (List ℕ) → ℕ → List ℕ → List ℕ → List ℕ → List ℕ → OutBuffer → Opened
unfolding open_with
software_open none key_id nonce aad ciphertext tag out = open_fails result_bad_arg
software_open (some key) key_id nonce aad ciphertext tag out =
    if length tag == 16
    then open_with key key_id nonce aad ciphertext tag out
    else open_fails result_bad_arg

module _ (provider_seal : ℕ → List ℕ → List ℕ → List ℕ → OutBuffer → OutBuffer → Sealed)
    (provider_open : ℕ → List ℕ → List ℕ → List ℕ → List ℕ → OutBuffer → Opened) (g : Crypto) where
  unfoldable pub crypto_seal : ℕ → List ℕ → List ℕ → List ℕ → OutBuffer → OutBuffer → Sealed
  unfolding software_seal
  crypto_seal key_id nonce aad plaintext out tag_out =
      if is_bad out || is_bad tag_out
      then seal_fails result_bad_arg
      else (if g.provider
          then provider_seal key_id nonce aad plaintext out tag_out
          else software_seal (find g.software_keys key_id) key_id nonce aad plaintext out tag_out)

  unfoldable pub crypto_open : ℕ → List ℕ → List ℕ → List ℕ → List ℕ → OutBuffer → Opened
  unfolding software_open
  crypto_open key_id nonce aad ciphertext tag out =
      if is_bad out
      then open_fails result_bad_arg
      else (if g.provider
          then provider_open key_id nonce aad ciphertext tag out
          else software_open (find g.software_keys key_id) key_id nonce aad ciphertext tag out)
