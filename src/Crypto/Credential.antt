-- ===== src/Crypto/Credential.antt =====
-- src/upstream_api_compat.cpp and C-Headers/sedsnet.h: the signed credential of a managed node.
-- Input pointers are taken to be there; what is written to the output is part of the answer.
use sedsnet_cpp.Common.{
  ℕ, Bool, not, ◌||◌, Option, none, some, List, [], ◌∷◌, ◌++◌, text_eq, length, take, drop, ltb,
  ◌==◌, if◌then◌else◌,
}
use sedsnet_cpp.Common.Int.{ℤ}
use sedsnet_cpp.Common.Words.{append_le, le_at}
use sedsnet_cpp.Reliable.Egress.{result_ok}
use sedsnet_cpp.Router.{result_bad_arg, result_size_mismatch, result_handler_error}
use sedsnet_cpp.Crypto.Hmac.{normalize_software_key, managed_credential_tag, constant_time_eq}
use sedsnet_cpp.Crypto.Cipher.{OutBuffer}

pub record ManagedCredentialInfo : Type 0 where
  pub subject_id : ℕ
  pub key_id : ℕ
  pub epoch : ℕ
  pub not_before_ms : ℕ
  pub not_after_ms : ℕ
  pub permissions : ℕ

-- The result and the bytes written to the output.
pub record Issued : Type 0 where
  pub result : ℤ
  pub credential : List ℕ

-- The result and what `*out_info` was set to, where it was.
pub record Verified : Type 0 where
  pub result : ℤ
  pub info : Option ManagedCredentialInfo

abbrev pub managed_credential_magic : List ℕ
managed_credential_magic = 83 ∷ 69 ∷ 68 ∷ 83 ∷ 67 ∷ 82 ∷ 49 ∷ 0 ∷ []

unfoldable pub credential_body : ManagedCredentialInfo → List ℕ
credential_body info =
    managed_credential_magic
    ++ (append_le 8 info.subject_id
        ++ (append_le 4 info.key_id
            ++ (append_le 8 info.epoch
                ++ (append_le 8 info.not_before_ms
                    ++ (append_le 8 info.not_after_ms ++ append_le 4 info.permissions)))))

unfoldable pub issue_managed_credential : List ℕ → ManagedCredentialInfo → OutBuffer → Issued
unfolding credential_body
issue_managed_credential root_key info out =
    let body = credential_body info in
    let key = normalize_software_key root_key in
    if ltb (length root_key) 16 || not out.there
    then record { result = result_bad_arg; credential = [] }
    else (if ltb out.cap 80
        then record { result = result_size_mismatch; credential = [] }
        else record { result = result_ok; credential = body ++ managed_credential_tag key body })

abbrev pub no_info : ManagedCredentialInfo
no_info = record {
  subject_id = 0;
  key_id = 0;
  epoch = 0;
  not_before_ms = 0;
  not_after_ms = 0;
  permissions = 0;
}

unfoldable pub info_of : List ℕ → ManagedCredentialInfo
info_of credential = record {
  subject_id = le_at 8 8 credential;
  key_id = le_at 4 16 credential;
  epoch = le_at 8 20 credential;
  not_before_ms = le_at 8 28 credential;
  not_after_ms = le_at 8 36 credential;
  permissions = le_at 4 44 credential;
}

-- `constant_time_eq` of the tag that the body must have and the one that it carries.
unfoldable pub is_signed : List ℕ → List ℕ → Bool
is_signed root_key credential =
    constant_time_eq (managed_credential_tag (normalize_software_key root_key) (take 48 credential))
      (take 32 (drop 48 credential))

abbrev denied : ℤ → Verified
denied rc = record { result = rc; info = some no_info }

unfoldable pub verify_managed_credential : List ℕ → List ℕ → ℕ → Verified
unfolding info_of is_signed
verify_managed_credential root_key credential now_ms =
    let info = info_of credential in
    if ltb (length root_key) 16 || not (length credential == 80)
    then record { result = result_bad_arg; info = none }
    else (if not (text_eq managed_credential_magic (take 8 credential))
        then denied result_bad_arg
        else (if not (is_signed root_key credential)
            then denied result_handler_error
            else (if ltb now_ms info.not_before_ms || ltb info.not_after_ms now_ms
                then denied result_handler_error
                else record { result = result_ok; info = some info })))
