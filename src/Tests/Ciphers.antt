-- ===== src/Tests/Ciphers.antt =====
-- The results on the hash, the software cipher and the credentials, applied.
use sedsnet_cpp.Common.{
  ℕ, false, some, List, [], ◌∷◌, ◌++◌, codes, replicate, ◌≡◌, refl, ap, arith, take,
}
use sedsnet_cpp.Common.Int.{negsuc}
use sedsnet_cpp.Reliable.Egress.{result_ok}
use sedsnet_cpp.Crypto.Sha256.{new_hash, update, digest, big_endian, compress}
use sedsnet_cpp.Crypto.Streaming.{update-append}
use sedsnet_cpp.Crypto.Hmac.{software_tag, apply_hmac_stream}
use sedsnet_cpp.Crypto.Cipher.{
  OutBuffer, Sealed, Opened, Crypto, register_software_key, crypto_seal, crypto_open,
}
use sedsnet_cpp.Crypto.Seal.{
  room, software_tag-IsByte, software_open-own_tag, crypto_open-crypto_seal,
  crypto_open-IsAuthentic,
}
use sedsnet_cpp.Crypto.Credential.{
  ManagedCredentialInfo, issue_managed_credential, verify_managed_credential, info_of,
}
use sedsnet_cpp.Crypto.Signature.{
  issue-IsByte, IsInfo, IsIssued, verify_managed_credential-issue_managed_credential,
  verify_managed_credential-IsIssued,
}

-- The digest of "abc" that the standard gives.
abc_digest :
    digest (0x61 ∷ 0x62 ∷ 0x63 ∷ [])
    ≡ big_endian 32 0xba7816bf8f01cfea414140de5dae2223b00361a396177a9cb410ff61f20015ad
unfolding digest big_endian compress
abc_digest = refl

update-append_example :
    update (update new_hash (codes "SEDS")) (codes "NET")
    ≡ update new_hash (codes "SEDS" ++ codes "NET")
update-append_example = update-append new_hash (codes "SEDS") (codes "NET") (omega arith)

abbrev no_seal : ℕ → List ℕ → List ℕ → List ℕ → OutBuffer → OutBuffer → Sealed
no_seal key_id nonce aad plaintext out tag_out = record {
  result = negsuc 0;
  ciphertext = [];
  tag = [];
}

abbrev no_open : ℕ → List ℕ → List ℕ → List ℕ → List ℕ → OutBuffer → Opened
no_open key_id nonce aad ciphertext tag out = record { result = negsuc 0; plaintext = [] }

abbrev no_keys : Crypto
no_keys = record { provider = false; software_keys = [] }

abbrev secret : List ℕ
secret = replicate 16 42

abbrev keyed : Crypto
keyed = (register_software_key no_keys 7 secret).0

crypto_open-crypto_seal_example :
    let s =
      crypto_seal no_seal no_open keyed 7
        (1 ∷ [])
        (2 ∷ [])
        (10 ∷ 20 ∷ 30 ∷ [])
        (room 3)
        (room 16) in
    (s.result ≡ result_ok)
    × (crypto_open no_seal no_open keyed 7 (1 ∷ []) (2 ∷ []) s.ciphertext s.tag (room 3)
        ≡ record { result = result_ok; plaintext = 10 ∷ 20 ∷ 30 ∷ [] })
crypto_open-crypto_seal_example =
    crypto_open-crypto_seal no_seal no_open no_keys 7 secret (1 ∷ []) (2 ∷ []) (10 ∷ 20 ∷ 30 ∷ []) 3
      16 3 refl (omega arith) (omega arith) (omega arith) (omega arith) (omega arith)

-- A key of 32 bytes is kept as it is.
abbrev one_key : Crypto
one_key = record { provider = false; software_keys = (7, replicate 32 1) ∷ [] }

abbrev empty_tag : List ℕ
empty_tag = take 16 (software_tag (replicate 32 1) 7 [] [] [])

empty_tag_opens :
    (crypto_open no_seal no_open one_key 7 [] [] [] empty_tag (room 0)).result ≡ result_ok
unfolding crypto_open
empty_tag_opens =
    ap (λ o. o.result) (software_open-own_tag (replicate 32 1) 7 [] [] [] 0 (omega arith))

crypto_open-IsAuthentic_example :
    (empty_tag ≡ take 16 (software_tag (replicate 32 1) 7 [] [] []))
    × ((crypto_open no_seal no_open one_key 7 [] [] [] empty_tag (room 0)).plaintext
        ≡ apply_hmac_stream (replicate 32 1) 7 [] [] [])
crypto_open-IsAuthentic_example =
    crypto_open-IsAuthentic no_seal no_open one_key 7 (replicate 32 1) [] [] [] empty_tag (room 0)
      refl refl (software_tag-IsByte (replicate 32 1) 7 [] [] []) empty_tag_opens

abbrev pass : ManagedCredentialInfo
pass = record {
  subject_id = 12;
  key_id = 7;
  epoch = 3;
  not_before_ms = 1000;
  not_after_ms = 2000;
  permissions = 5;
}

abbrev pass_fits : IsInfo pass
pass_fits = record {
  subject_fits = omega arith;
  key_fits = omega arith;
  epoch_fits = omega arith;
  not_before_fits = omega arith;
  not_after_fits = omega arith;
  permissions_fits = omega arith;
}

verify_managed_credential-issue_managed_credential_example :
    let issued = issue_managed_credential secret pass (room 80) in
    (issued.result ≡ result_ok)
    × (verify_managed_credential secret issued.credential 1500
        ≡ record { result = result_ok; info = some pass })
verify_managed_credential-issue_managed_credential_example =
    verify_managed_credential-issue_managed_credential secret (omega arith) pass 1500 80 pass_fits
      (omega arith) (omega arith) (omega arith)

abbrev credential : List ℕ
credential = (issue_managed_credential secret pass (room 80)).credential

credential_verifies : (verify_managed_credential secret credential 1500).result ≡ result_ok
credential_verifies =
    ap (λ v. v.result)
      (verify_managed_credential-issue_managed_credential secret (omega arith) pass 1500 80
        pass_fits (omega arith) (omega arith) (omega arith)).1

verify_managed_credential-IsIssued_example : IsIssued secret credential 1500 (info_of credential)
verify_managed_credential-IsIssued_example =
    verify_managed_credential-IsIssued secret credential 1500
      (issue-IsByte secret (omega arith) pass 80 (omega arith)) credential_verifies
