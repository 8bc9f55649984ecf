-- ===== src/Crypto/Seal.antt =====
-- src/upstream_api_compat.cpp: what the software cipher seals, it opens again, and nothing with
-- another tag.
use sedsnet_cpp.Common.{
  ℕ, ◌≤◌, Bool, true, false, not, ◌&&◌, ◌||◌, some, List, [], length, length-take, take, ltb, ◌==◌,
  if◌then◌else◌, All, ◌≡◌, refl, sym, ap, ◌∙◌, arith,
}
use Prim.Native.Nat.{min}
use sedsnet_cpp.Common.Words.{IsByte}
use sedsnet_cpp.Common.Assoc.{find, find-put}
use sedsnet_cpp.Reliable.Egress.{result_ok}
use sedsnet_cpp.Router.{result_handler_error}
use sedsnet_cpp.Crypto.Hmac.{
  normalize_software_key, software_tag, apply_hmac_stream, constant_time_eq,
}
use sedsnet_cpp.Crypto.Masking.{
  All-take, hmac_sha256-IsByte, hmac_sha256-length, constant_time_eq-eq, constant_time_eq_self,
}
use sedsnet_cpp.Crypto.KeyStream.{apply_hmac_stream-length, apply_hmac_stream_undo}
use sedsnet_cpp.Crypto.Cipher.{
  OutBuffer, Sealed, Opened, Crypto, software_seal, open_with, software_open, crypto_seal,
  crypto_open, register_software_key,
}

pub software_tag-IsByte :
    (key : List ℕ) (key_id : ℕ) (nonce aad ciphertext : List ℕ)
    → All IsByte (take 16 (software_tag key key_id nonce aad ciphertext))
unfolding software_tag
software_tag-IsByte key key_id nonce aad ciphertext =
    All-take IsByte 16 _ (hmac_sha256-IsByte key _)

-- A pointer to so many bytes.
abbrev pub room : ℕ → OutBuffer
room n = record { there = true; cap = n }

pub nothing_less : (a b : ℕ) → a ≤ b → ltb b a ≡ false
nothing_less a b h = ground arith

software_seal-room :
    (key : List ℕ) (key_id : ℕ) (nonce aad plaintext : List ℕ) (n m : ℕ)
    → length plaintext ≤ n
    → 16 ≤ m
    → software_seal (some key) key_id nonce aad plaintext (room n) (room m) ≡ record {
      result = result_ok;
      ciphertext = apply_hmac_stream key key_id nonce aad plaintext;
      tag =
          take 16
            (software_tag key key_id nonce aad (apply_hmac_stream key key_id nonce aad plaintext));
    }
unfolding software_seal
software_seal-room key key_id nonce aad plaintext n m h k =
    rw (nothing_less (length plaintext) n h, nothing_less 16 m k) refl

open_with-own_tag :
    (key : List ℕ) (key_id : ℕ) (nonce aad ciphertext : List ℕ) (n : ℕ)
    → length ciphertext ≤ n
    → open_with key key_id nonce aad ciphertext
        (take 16 (software_tag key key_id nonce aad ciphertext))
        (room n)
      ≡ record { result = result_ok; plaintext = apply_hmac_stream key key_id nonce aad ciphertext }
unfolding open_with
open_with-own_tag key key_id nonce aad ciphertext n h =
    rw
      (
        nothing_less (length ciphertext) n h,
        constant_time_eq_self _ (software_tag-IsByte key key_id nonce aad ciphertext),
      )
      refl

tag-length :
    (key : List ℕ) (key_id : ℕ) (nonce aad ciphertext : List ℕ)
    → length (take 16 (software_tag key key_id nonce aad ciphertext)) ≡ 16
unfolding software_tag
tag-length key key_id nonce aad ciphertext =
    length-take 16 _ ∙ ap (min 16) (hmac_sha256-length key _)

pub software_open-own_tag :
    (key : List ℕ) (key_id : ℕ) (nonce aad ciphertext : List ℕ) (n : ℕ)
    → length ciphertext ≤ n
    → software_open
        (some key)
        key_id
        nonce
        aad
        ciphertext
        (take 16 (software_tag key key_id nonce aad ciphertext))
        (room n)
      ≡ record { result = result_ok; plaintext = apply_hmac_stream key key_id nonce aad ciphertext }
unfolding software_open
software_open-own_tag key key_id nonce aad ciphertext n h =
    rw (tag-length key key_id nonce aad ciphertext)
      (open_with-own_tag key key_id nonce aad ciphertext n h)

software_open-software_seal :
    (key : List ℕ) (key_id : ℕ) (nonce aad plaintext : List ℕ) (n m k : ℕ)
    → All IsByte plaintext
    → length plaintext ≤ n
    → 16 ≤ m
    → length plaintext ≤ k
    → let s = software_seal (some key) key_id nonce aad plaintext (room n) (room m) in
      (s.result ≡ result_ok)
      × (software_open (some key) key_id nonce aad s.ciphertext s.tag (room k)
          ≡ record { result = result_ok; plaintext = plaintext })
software_open-software_seal key key_id nonce aad plaintext n m k bytes fits tag_fits back =
    let masked = apply_hmac_stream key key_id nonce aad plaintext in
    let is_sealed = software_seal-room key key_id nonce aad plaintext n m fits tag_fits in
    let opened : Sealed → Opened =
      λ s. software_open (some key) key_id nonce aad s.ciphertext s.tag (room k) in
    let plain : List ℕ → Opened = λ p. record { result = result_ok; plaintext = p } in
    (
      ap (λ s. s.result) is_sealed,
      ap opened is_sealed
          ∙ software_open-own_tag key key_id nonce aad masked k
              (omega (arith, apply_hmac_stream-length key key_id nonce aad plaintext))
          ∙ ap plain (apply_hmac_stream_undo key key_id nonce aad plaintext bytes),
    )

-- A test that would have failed was passed.
tests_false :
    (b : Bool) (x y : Opened)
    → (x.result ≡ result_ok → ⊥)
    → (if b then x else y).result ≡ result_ok
    → (if b then x else y) ≡ y
tests_false true x y fails h = absurd (fails h)
tests_false false x y fails h = refl

tests_true :
    (b : Bool) (x y : Opened)
    → (y.result ≡ result_ok → ⊥)
    → (if b then x else y).result ≡ result_ok
    → (b ≡ true) × ((if b then x else y) ≡ x)
tests_true true x y fails h = (refl, refl)
tests_true false x y fails h = absurd (fails h)

module _ (key : List ℕ) (key_id : ℕ) (nonce aad ciphertext tag : List ℕ) (out : OutBuffer) where
  abbrev expected : List ℕ
  expected = take 16 (software_tag key key_id nonce aad ciphertext)

  abbrev unmasked : List ℕ
  unmasked = apply_hmac_stream key key_id nonce aad ciphertext

  open_with-IsAuthentic :
      All IsByte tag
      → (open_with key key_id nonce aad ciphertext tag out).result ≡ result_ok
      → (tag ≡ expected)
        × ((open_with key key_id nonce aad ciphertext tag out).plaintext ≡ unmasked)
  unfolding open_with
  open_with-IsAuthentic bytes ok =
      let small = not out.there || ltb out.cap (length ciphertext) in
      let opened : Opened = record { result = result_ok; plaintext = unmasked } in
      let wrong : Opened = record { result = result_handler_error; plaintext = [] } in
      let same = constant_time_eq expected tag in
      let fits = tests_false small _ (if same then opened else wrong) (λ e. cc) ok in
      let equal = tests_true same opened wrong (λ e. cc) (ap (λ o. o.result) (sym fits) ∙ ok) in
      (
        sym (
            constant_time_eq-eq expected tag (software_tag-IsByte key key_id nonce aad ciphertext)
              bytes equal.0),
        ap (λ o. o.plaintext) (fits ∙ equal.1),
      )

  software_open-IsAuthentic :
      All IsByte tag
      → (software_open (some key) key_id nonce aad ciphertext tag out).result ≡ result_ok
      → (tag ≡ expected)
        × ((software_open (some key) key_id nonce aad ciphertext tag out).plaintext ≡ unmasked)
  unfolding software_open
  software_open-IsAuthentic bytes ok =
      let opened = open_with key key_id nonce aad ciphertext tag out in
      let sized = (tests_true (length tag == 16) opened _ (λ e. cc) ok).1 in
      let result = open_with-IsAuthentic bytes (ap (λ o. o.result) (sym sized) ∙ ok) in
      (result.0, ap (λ o. o.plaintext) sized ∙ result.1)

module _ (provider_seal : ℕ → List ℕ → List ℕ → List ℕ → OutBuffer → OutBuffer → Sealed)
    (provider_open : ℕ → List ℕ → List ℕ → List ℕ → List ℕ → OutBuffer → Opened) (g : Crypto)
    (key_id : ℕ) (key : List ℕ) (nonce aad : List ℕ) where
  -- With no provider and a key of at least 16 bytes registered under the id, what `seal` writes,
  -- `open` with the same id, nonce and associated data turns back into the plaintext, when the
  -- plaintext is bytes and the three output buffers are there and large enough (16 bytes for the tag);
  -- both answer that all is well.
  pub crypto_open-crypto_seal :
      (plaintext : List ℕ) (n m k : ℕ)
      → g.provider ≡ false
      → 16 ≤ length key
      → All IsByte plaintext
      → length plaintext ≤ n
      → 16 ≤ m
      → length plaintext ≤ k
      → let h = (register_software_key g key_id key).0 in
        let s =
          crypto_seal provider_seal provider_open h key_id nonce aad plaintext (room n) (room m) in
        (s.result ≡ result_ok)
        × (crypto_open provider_seal provider_open h key_id nonce aad s.ciphertext s.tag (room k)
            ≡ record { result = result_ok; plaintext = plaintext })
  unfolding register_software_key crypto_seal crypto_open
  crypto_open-crypto_seal plaintext n m k none_there long bytes fits tag_fits back =
      rw
        (
          none_there,
          nothing_less 16 (length key) long,
          find-put g.software_keys key_id (normalize_software_key key),
        )
        (software_open-software_seal (normalize_software_key key) key_id nonce aad plaintext n m k
          bytes fits tag_fits back)

  -- With no provider and the key that is registered, `open` answers that all is well only for the tag
  -- of the ciphertext under that key, id, nonce and associated data, and writes the unmasked bytes.
  pub crypto_open-IsAuthentic :
      (ciphertext tag : List ℕ) (out : OutBuffer)
      → g.provider ≡ false
      → find g.software_keys key_id ≡ some key
      → All IsByte tag
      → (crypto_open provider_seal provider_open g key_id nonce aad ciphertext tag out).result
        ≡ result_ok
      → (tag ≡ take 16 (software_tag key key_id nonce aad ciphertext))
        × ((crypto_open provider_seal provider_open g key_id nonce aad ciphertext tag out).plaintext
            ≡ apply_hmac_stream key key_id nonce aad ciphertext)
  unfolding crypto_open
  crypto_open-IsAuthentic ciphertext tag out none_there registered bytes ok =
      let bad = not out.there && not (out.cap == 0) in
      let by_provider = provider_open key_id nonce aad ciphertext tag out in
      let by_key =
        software_open (find g.software_keys key_id) key_id nonce aad ciphertext tag out in
      let software = software_open (some key) key_id nonce aad ciphertext tag out in
      let is_software =
        tests_false bad _ (if g.provider then by_provider else by_key) (λ e. cc) ok
        ∙ ap (λ b. if b then by_provider else by_key) none_there
        ∙ ap (λ k. software_open k key_id nonce aad ciphertext tag out) registered in
      let result =
        software_open-IsAuthentic key key_id nonce aad ciphertext tag out bytes
          (ap (λ o. o.result) (sym is_software) ∙ ok) in
      (result.0, ap (λ o. o.plaintext) is_software ∙ result.1)
