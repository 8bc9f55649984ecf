-- ===== src/Crypto/Signature.antt =====
-- src/upstream_api_compat.cpp: the credentials that verify are the ones that were issued.
use sedsnet_cpp.Common.{
  ℕ, ◌+◌, ◌≤◌, Bool, true, false, not, ◌||◌, some, List, [], ◌∷◌, ◌++◌, length, length-drop, take,
  drop, take-append-drop, drop-add, text_eq, text_eq_iff, ltb, ◌==◌, if◌then◌else◌, All, ◌≡◌, refl,
  sym, ap, ◌∙◌, arith,
}
use mathlib.Core.Bool.{false≢true}
use mathlib.Core.Path.{subst}
use sedsnet_cpp.Common.Words.{
  IsByte, IsU32, IsU64, append_le, le_at, le_at-append_le, append_le-le_at,
}
use sedsnet_cpp.Reliable.Egress.{result_ok}
use sedsnet_cpp.Router.{result_handler_error}
use sedsnet_cpp.Crypto.Hmac.{normalize_software_key, managed_credential_tag, constant_time_eq}
use sedsnet_cpp.Crypto.Masking.{
  All-take, All-drop, All-append, hmac_sha256-IsByte, hmac_sha256-length, constant_time_eq-eq,
  constant_time_eq_self,
}
use sedsnet_cpp.Crypto.Seal.{room, nothing_less}
use sedsnet_cpp.Crypto.Credential.{
  ManagedCredentialInfo, credential_body, Issued, Verified, issue_managed_credential, info_of,
  is_signed, verify_managed_credential, managed_credential_magic, no_info,
}

pub record IsInfo (info : ManagedCredentialInfo) : Type 0 where
  pub subject_fits : IsU64 info.subject_id
  pub key_fits : IsU32 info.key_id
  pub epoch_fits : IsU64 info.epoch
  pub not_before_fits : IsU64 info.not_before_ms
  pub not_after_fits : IsU64 info.not_after_ms
  pub permissions_fits : IsU32 info.permissions

info_of-credential_body :
    (info : ManagedCredentialInfo) (tag : List ℕ)
    → IsInfo info
    → info_of (credential_body info ++ tag) ≡ info
unfolding info_of credential_body append_le
info_of-credential_body info tag h =
    let c = credential_body info ++ tag in
    rw
      (
        le_at-append_le 8 8 info.subject_id c _ refl h.subject_fits,
        le_at-append_le 4 16 info.key_id c _ refl h.key_fits,
        le_at-append_le 8 20 info.epoch c _ refl h.epoch_fits,
        le_at-append_le 8 28 info.not_before_ms c _ refl h.not_before_fits,
        le_at-append_le 8 36 info.not_after_ms c _ refl h.not_after_fits,
        le_at-append_le 4 44 info.permissions c tag refl h.permissions_fits,
      )
      refl

take-length {ℓ} : {A : Type ℓ} → (xs : List A) → take (length xs) xs ≡ xs
take-length [] = refl
take-length (x ∷ xs) = ap (λ ys. x ∷ ys) (take-length xs)

managed_credential_tag-length : (key body : List ℕ) → length (managed_credential_tag key body) ≡ 32
unfolding managed_credential_tag
managed_credential_tag-length key body = hmac_sha256-length key _

managed_credential_tag-IsByte : (key body : List ℕ) → All IsByte (managed_credential_tag key body)
unfolding managed_credential_tag
managed_credential_tag-IsByte key body = hmac_sha256-IsByte key _

-- The last test of the verification.
abbrev in_window : ℕ → ManagedCredentialInfo → Verified
in_window now_ms info =
    if ltb now_ms info.not_before_ms || ltb info.not_after_ms now_ms
    then record { result = result_handler_error; info = some no_info }
    else record { result = result_ok; info = some info }

in_window-lem :
    (now_ms : ℕ) (info : ManagedCredentialInfo)
    → info.not_before_ms ≤ now_ms
    → now_ms ≤ info.not_after_ms
    → in_window now_ms info ≡ record { result = result_ok; info = some info }
in_window-lem now_ms info early late =
    rw (nothing_less info.not_before_ms now_ms early, nothing_less now_ms info.not_after_ms late)
      refl

verify_managed_credential-signed :
    (root_key c : List ℕ) (now_ms : ℕ)
    → 16 ≤ length root_key
    → length c ≡ 80
    → take 8 c ≡ managed_credential_magic
    → is_signed root_key c ≡ true
    → verify_managed_credential root_key c now_ms ≡ in_window now_ms (info_of c)
unfolding verify_managed_credential
verify_managed_credential-signed root_key c now_ms long whole magic signed =
    rw
      (
        nothing_less 16 (length root_key) long,
        whole,
        (text_eq_iff managed_credential_magic (take 8 c)).1 (sym magic),
        signed,
      )
      refl

module _ (root_key : List ℕ) (long : 16 ≤ length root_key) (info : ManagedCredentialInfo) where
  abbrev own_tag : List ℕ
  own_tag = managed_credential_tag (normalize_software_key root_key) (credential_body info)

  own_tag-length : length own_tag ≡ 32
  own_tag-length = managed_credential_tag-length _ _

  issue-room :
      (n : ℕ)
      → 80 ≤ n
      → issue_managed_credential root_key info (room n)
        ≡ record { result = result_ok; credential = credential_body info ++ own_tag }
  unfolding issue_managed_credential
  issue-room n h = rw (nothing_less 16 (length root_key) long, nothing_less 80 n h) refl

  credential_body-IsByte : All IsByte (credential_body info)
  unfolding credential_body append_le
  credential_body-IsByte = omega arith

  -- What is issued is bytes.
  pub issue-IsByte :
      (n : ℕ) → 80 ≤ n → All IsByte (issue_managed_credential root_key info (room n)).credential
  issue-IsByte n h =
      subst (λ i. All IsByte i.credential) (sym (issue-room n h))
        (All-append IsByte (credential_body info) own_tag credential_body-IsByte
          (managed_credential_tag-IsByte _ _))

  body_part :
      (take 48 (credential_body info ++ own_tag) ≡ credential_body info)
      × (drop 48 (credential_body info ++ own_tag) ≡ own_tag)
  unfolding credential_body append_le
  body_part = (refl, refl)

  magic_part : take 8 (credential_body info ++ own_tag) ≡ managed_credential_magic
  unfolding credential_body
  magic_part = refl

  signed_part : is_signed root_key (credential_body info ++ own_tag) ≡ true
  unfolding is_signed
  signed_part =
      let key = normalize_software_key root_key in
      let whole : take 32 own_tag ≡ own_tag =
        ap (λ m. take m own_tag) (sym own_tag-length) ∙ take-length own_tag in
      ap
        (λ body.
          constant_time_eq (managed_credential_tag key body)
            (take 32 (drop 48 (credential_body info ++ own_tag))))
        body_part.0
      ∙ ap (λ tag. constant_time_eq own_tag (take 32 tag)) body_part.1
      ∙ ap (constant_time_eq own_tag) whole
      ∙ constant_time_eq_self own_tag (managed_credential_tag-IsByte key _)

  length_part : length (credential_body info ++ own_tag) ≡ 80
  unfolding credential_body append_le
  length_part = omega (arith, own_tag-length)

  -- A credential issued under a root key of at least 16 bytes into a buffer of at least 80 verifies
  -- under the same key at every time of its window, and gives back every field, with fields that fit
  -- their 64 and 32 bits.
  pub verify_managed_credential-issue_managed_credential :
      (now_ms n : ℕ)
      → IsInfo info
      → info.not_before_ms ≤ now_ms
      → now_ms ≤ info.not_after_ms
      → 80 ≤ n
      → let issued = issue_managed_credential root_key info (room n) in
        (issued.result ≡ result_ok)
        × (verify_managed_credential root_key issued.credential now_ms
            ≡ record { result = result_ok; info = some info })
  verify_managed_credential-issue_managed_credential now_ms n fits early late room_there =
      let made = issue-room n room_there in
      let verified : Issued → Verified =
        λ i. verify_managed_credential root_key i.credential now_ms in
      (
        ap (λ i. i.result) made,
        ap verified made
            ∙ verify_managed_credential-signed root_key _ now_ms long length_part magic_part
                signed_part
            ∙ ap (in_window now_ms) (info_of-credential_body info own_tag fits)
            ∙ in_window-lem now_ms info early late,
      )

module _ (c : List ℕ) (bytes : All IsByte c) where
  field_part :
      (n off : ℕ)
      → off + n ≤ length c
      → append_le n (le_at n off c) ++ drop (off + n) c ≡ drop off c
  field_part n off h =
      ap (λ a. a ++ drop (off + n) c)
        (append_le-le_at n off c (All-drop IsByte off c bytes) (omega (arith, length-drop off c)))
      ∙ ap (λ b. take n (drop off c) ++ b) (drop-add off n c)
      ∙ take-append-drop n (drop off c)

  -- The fields of the body, written again.
  credential_body-info_of :
      length c ≡ 80
      → take 8 c ≡ managed_credential_magic
      → credential_body (info_of c) ++ drop 48 c ≡ c
  unfolding credential_body info_of append_le
  credential_body-info_of h magic =
      let rest : ℕ → ℕ → List ℕ → List ℕ = λ n off r. append_le n (le_at n off c) ++ r in
      let at44 = field_part 4 44 (omega arith) in
      let at36 = ap (rest 8 36) at44 ∙ field_part 8 36 (omega arith) in
      let at28 = ap (rest 8 28) at36 ∙ field_part 8 28 (omega arith) in
      let at20 = ap (rest 8 20) at28 ∙ field_part 8 20 (omega arith) in
      let at16 = ap (rest 4 16) at20 ∙ field_part 4 16 (omega arith) in
      let at8 = ap (rest 8 8) at16 ∙ field_part 8 8 (omega arith) in
      ap (λ r. managed_credential_magic ++ r) at8
      ∙ ap (λ front. front ++ drop 8 c) (sym magic)
      ∙ take-append-drop 8 c

  body_of_bytes :
      length c ≡ 80 → take 8 c ≡ managed_credential_magic → take 48 c ≡ credential_body (info_of c)
  unfolding credential_body append_le
  body_of_bytes h magic = ap (take 48) (sym (credential_body-info_of h magic))

  signed_bytes :
      (root_key : List ℕ)
      → length c ≡ 80
      → is_signed root_key c ≡ true
      → managed_credential_tag (normalize_software_key root_key) (take 48 c) ≡ drop 48 c
  unfolding is_signed
  signed_bytes root_key h signed =
      let tag = managed_credential_tag (normalize_software_key root_key) (take 48 c) in
      let rest : 32 ≡ length (drop 48 c) = omega (arith, length-drop 48 c) in
      constant_time_eq-eq tag (take 32 (drop 48 c)) (managed_credential_tag-IsByte _ _)
        (All-take IsByte 32 (drop 48 c) (All-drop IsByte 48 c bytes)) signed
      ∙ ap (λ m. take m (drop 48 c)) rest
      ∙ take-length (drop 48 c)

not-false : {b : Bool} → not b ≡ false → b ≡ true
not-false {b = true} h = refl
not-false {b = false} h = absurd (false≢true (sym h))

open_tests :
    (b : Bool) (x y : Verified)
    → (x.result ≡ result_ok → ⊥)
    → (if b then x else y).result ≡ result_ok
    → (b ≡ false) × (y.result ≡ result_ok)
open_tests true x y differs h = absurd (differs h)
open_tests false x y differs h = (refl, h)

-- What a credential that verifies is.
pub record IsIssued (root_key c : List ℕ) (now_ms : ℕ) (info : ManagedCredentialInfo) : Type 0 where
  pub issued : c ≡ (issue_managed_credential root_key info (room 80)).credential
  pub told : (verify_managed_credential root_key c now_ms).info ≡ some info
  pub early : info.not_before_ms ≤ now_ms
  pub late : now_ms ≤ info.not_after_ms

window-info :
    (now_ms : ℕ) (info : ManagedCredentialInfo)
    → (in_window now_ms info).result ≡ result_ok
    → (info.not_before_ms ≤ now_ms)
      × (now_ms ≤ info.not_after_ms)
      × ((in_window now_ms info).info ≡ some info)
window-info now_ms info h =
    let tests =
      open_tests (ltb now_ms info.not_before_ms || ltb info.not_after_ms now_ms)
        (record { result = result_handler_error; info = some no_info })
        (record { result = result_ok; info = some info }) (λ e. cc) h in
    let before : info.not_before_ms ≤ now_ms = ground (arith, tests.0) in
    let after : now_ms ≤ info.not_after_ms = ground (arith, tests.0) in
    let outcome : Bool → Verified = λ b.
      if b
      then record { result = result_handler_error; info = some no_info }
      else record { result = result_ok; info = some info } in
    (before, after, ap (λ b. (outcome b).info) tests.0)

record IsAccepted (root_key c : List ℕ) : Type 0 where
  pub long : 16 ≤ length root_key
  pub whole : length c ≡ 80
  pub magic : take 8 c ≡ managed_credential_magic
  pub signed : is_signed root_key c ≡ true

verify_managed_credential-IsAccepted :
    (root_key c : List ℕ) (now_ms : ℕ)
    → (verify_managed_credential root_key c now_ms).result ≡ result_ok
    → IsAccepted root_key c
unfolding verify_managed_credential
verify_managed_credential-IsAccepted root_key c now_ms h =
    let sizes = open_tests (ltb (length root_key) 16 || not (length c == 80)) _ _ (λ e. cc) h in
    let labels =
      open_tests (not (text_eq managed_credential_magic (take 8 c))) _ _ (λ e. cc) sizes.1 in
    let tags = open_tests (not (is_signed root_key c)) _ _ (λ e. cc) labels.1 in
    record {
      long = ground (arith, sizes.0);
      whole = ground (arith, sizes.0);
      magic = sym ((text_eq_iff managed_credential_magic (take 8 c)).0 (not-false labels.0));
      signed = not-false tags.0;
    }

-- A credential of bytes that verifies under a root key is, byte for byte, the one that the key issues
-- for the fields that verification gives back, and the time is in its window.
pub verify_managed_credential-IsIssued :
    (root_key c : List ℕ) (now_ms : ℕ)
    → All IsByte c
    → (verify_managed_credential root_key c now_ms).result ≡ result_ok
    → IsIssued root_key c now_ms (info_of c)
verify_managed_credential-IsIssued root_key c now_ms bytes h =
    let a = verify_managed_credential-IsAccepted root_key c now_ms h in
    let info = info_of c in
    let key = normalize_software_key root_key in
    let is_window =
      verify_managed_credential-signed root_key c now_ms a.long a.whole a.magic a.signed in
    let window = window-info now_ms info (ap (λ v. v.result) (sym is_window) ∙ h) in
    let tag : drop 48 c ≡ managed_credential_tag key (credential_body info) =
      sym (signed_bytes c bytes root_key a.whole a.signed)
      ∙ ap (managed_credential_tag key) (body_of_bytes c bytes a.whole a.magic) in
    record {
      issued =
          sym (credential_body-info_of c bytes a.whole a.magic)
          ∙ ap (λ t. credential_body info ++ t) tag
          ∙ ap (λ i. i.credential) (sym (issue-room root_key a.long info 80 (omega arith)));
      told = ap (λ v. v.info) is_window ∙ window.2;
      early = window.0;
      late = window.1;
    }
