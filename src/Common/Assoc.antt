-- ===== src/Common/Assoc.antt =====
-- `std::map` and `std::unordered_map` with a number for key, as association lists.
use Prim.Native.Nat.{ℕ, suc, ◌+◌, ◌≤◌, ◌<◌}
use mathlib.Core.Path.{◌≡◌, refl, ap, sym, ◌∙◌}
use mathlib.Core.Bool.{false, not, ◌||◌}
use mathlib.Core.List.{List, [], ◌∷◌, ◌++◌}
use mathlib.Core.Option.{Option, none, some, none-ne-some}
use mathlib.Core.Logic.{inl, inr}
use native.Mathlib.Omega.{arith}
use sedsnet_cpp.Common.Tests.{◌==◌, if◌then◌else◌, Bool-cases}
use sedsnet_cpp.Common.Lists.{length, filter, contains}

module _ {ℓ} {A : Type ℓ} where
  abbrev pub find : List (ℕ × A) → ℕ → Option A
  find [] key = none
  find ((k, a) ∷ rest) key = if k == key then some a else find rest key

  -- `map.erase(key)`
  abbrev pub erase : List (ℕ × A) → ℕ → List (ℕ × A)
  erase [] key = []
  erase ((k, a) ∷ rest) key = if k == key then erase rest key else (k, a) ∷ erase rest key

  -- `map[key] = a`
  abbrev pub put : List (ℕ × A) → ℕ → A → List (ℕ × A)
  put [] key b = (key, b) ∷ []
  put ((k, a) ∷ rest) key b = if k == key then (k, b) ∷ rest else (k, a) ∷ put rest key b

  -- `map.emplace(key, a)` keeps the entry that is there.
  abbrev pub emplace : List (ℕ × A) → ℕ → A → List (ℕ × A)
  emplace [] key b = (key, b) ∷ []
  emplace ((k, a) ∷ rest) key b = if k == key then (k, a) ∷ rest else (k, a) ∷ emplace rest key b

  -- An entry that is there is changed in place.
  abbrev pub adjust : List (ℕ × A) → ℕ → (A → A) → List (ℕ × A)
  adjust [] key f = []
  adjust ((k, a) ∷ rest) key f = if k == key then (k, f a) ∷ rest else (k, a) ∷ adjust rest key f

  abbrev pub keys : List (ℕ × A) → List ℕ
  keys [] = []
  keys ((k, a) ∷ rest) = k ∷ keys rest

  pub length-keys : (m : List (ℕ × A)) → length (keys m) ≡ length m
  length-keys [] = refl
  length-keys ((k, a) ∷ rest) = ap suc (length-keys rest)

  pub find-put : (m : List (ℕ × A)) (k : ℕ) (a : A) → find (put m k a) k ≡ some a
  find-put [] k a = ground arith
  find-put ((j, b) ∷ rest) k a = elim (Bool-cases (j == k)) [
    | inl e ↦ rw e (rw e refl)
    | inr e ↦ rw e (rw e (find-put rest k a))
  ]

  pub find-put_other :
      (m : List (ℕ × A)) (k j : ℕ) (a : A) → (k == j) ≡ false → find (put m k a) j ≡ find m j
  find-put_other [] k j a h = rw h refl
  find-put_other ((i, b) ∷ rest) k j a h = elim (Bool-cases (i == k)) [
    | inl e ↦ let differs : (i == j) ≡ false = ground arith in rw (e, differs) refl
    | inr e ↦ rw e (ap (λ o. if i == j then some b else o) (find-put_other rest k j a h))
  ]

  pub keys-emplace :
      (m : List (ℕ × A)) (k : ℕ) (a : A)
      → contains (keys m) k ≡ false
      → keys (emplace m k a) ≡ keys m ++ (k ∷ [])
  keys-emplace [] k a h = refl
  keys-emplace ((j, b) ∷ rest) k a h = elim (Bool-cases (j == k)) [
    | inl e ↦ ground (arith, h, e)
    | inr e ↦
        let later : contains (keys rest) k ≡ false =
          sym (ap (λ b. b || contains (keys rest) k) e) ∙ h in
        rw e (ap (λ ks. j ∷ ks) (keys-emplace rest k a later))
  ]

  pub keys-adjust : (m : List (ℕ × A)) (k : ℕ) (f : A → A) → keys (adjust m k f) ≡ keys m
  keys-adjust [] k f = refl
  keys-adjust ((j, b) ∷ rest) k f = elim (Bool-cases (j == k)) [
    | inl e ↦ rw e refl
    | inr e ↦ rw e (ap (λ ks. j ∷ ks) (keys-adjust rest k f))
  ]

  pub keys-erase :
      (m : List (ℕ × A)) (k : ℕ) → keys (erase m k) ≡ filter (λ j. not (j == k)) (keys m)
  keys-erase [] k = refl
  keys-erase ((j, b) ∷ rest) k = elim (Bool-cases (j == k)) [
    | inl e ↦ rw e (keys-erase rest k)
    | inr e ↦ rw e (ap (λ ks. j ∷ ks) (keys-erase rest k))
  ]

  pub find-erase : (m : List (ℕ × A)) (k : ℕ) → find (erase m k) k ≡ none
  find-erase [] k = refl
  find-erase ((j, b) ∷ rest) k = elim (Bool-cases (j == k)) [
    | inl e ↦ rw e (find-erase rest k)
    | inr e ↦ rw e (rw e (find-erase rest k))
  ]

  pub find-erase_other :
      (m : List (ℕ × A)) (k j : ℕ) → (k == j) ≡ false → find (erase m k) j ≡ find m j
  find-erase_other [] k j h = refl
  find-erase_other ((i, b) ∷ rest) k j h = elim (Bool-cases (i == k)) [
    | inl e ↦
        let differs : (i == j) ≡ false = ground arith in
        rw (e, differs) (find-erase_other rest k j h)
    | inr e ↦ rw e (ap (λ o. if i == j then some b else o) (find-erase_other rest k j h))
  ]

  pub length-erase_le : (m : List (ℕ × A)) (k : ℕ) → length (erase m k) ≤ length m
  length-erase_le [] k = omega arith
  length-erase_le ((j, b) ∷ rest) k = ground (arith, length-erase_le rest k)

  -- An entry that is there is lost.
  pub length-erase_lt :
      (m : List (ℕ × A)) (k : ℕ) (a : A) → find m k ≡ some a → length (erase m k) < length m
  length-erase_lt [] k a h = absurd (none-ne-some a h)
  length-erase_lt ((j, b) ∷ rest) k a h = elim (Bool-cases (j == k)) [
    | inl e ↦ rw e (omega (arith, length-erase_le rest k))
    | inr e ↦
        let later : find rest k ≡ some a =
          sym (ap (λ c. if c then some b else find rest k) e) ∙ h in
        rw e (omega (arith, length-erase_lt rest k a later))
  ]

  pub length-emplace_le : (m : List (ℕ × A)) (k : ℕ) (a : A) → length (emplace m k a) ≤ length m + 1
  length-emplace_le [] k a = omega arith
  length-emplace_le ((j, b) ∷ rest) k a = ground (arith, length-emplace_le rest k a)
