-- ===== src/Common/Keyed.antt =====
-- `std::map` and `std::unordered_map` with any key, as association lists; `same` tests two keys.
use mathlib.Core.Path.{◌≡◌, refl}
use mathlib.Core.Bool.{Bool, true, not}
use mathlib.Core.List.{List, [], ◌∷◌}
use mathlib.Core.Option.{Option, none, some}
use mathlib.Core.Logic.{inl, inr}
use sedsnet_cpp.Common.Tests.{if◌then◌else◌, Bool-cases}
use sedsnet_cpp.Common.Lists.{filter}

module _ {ℓ κ} {K : Type ℓ} {A : Type κ} (same : K → K → Bool) where
  abbrev pub lookup : List (K × A) → K → Option A
  lookup [] key = none
  lookup ((k, a) ∷ rest) key = if same k key then some a else lookup rest key

  -- `map[key] = a`
  abbrev pub store : List (K × A) → K → A → List (K × A)
  store [] key b = (key, b) ∷ []
  store ((k, a) ∷ rest) key b = if same k key then (k, b) ∷ rest else (k, a) ∷ store rest key b

  -- `map[key]` makes an entry where there is none.
  abbrev pub touch : List (K × A) → K → A → List (K × A)
  touch [] key b = (key, b) ∷ []
  touch ((k, a) ∷ rest) key b = if same k key then (k, a) ∷ rest else (k, a) ∷ touch rest key b

  -- `map.erase(key)`
  abbrev pub remove : List (K × A) → K → List (K × A)
  remove entries key = filter (λ entry. not (same (entry.0) key)) entries

  pub lookup-store :
      (m : List (K × A)) (k : K) (a : A) → same k k ≡ true → lookup (store m k a) k ≡ some a
  lookup-store [] k a h = rw h refl
  lookup-store ((j, b) ∷ rest) k a h = elim (Bool-cases (same j k)) [
    | inl e ↦ rw e (rw e refl)
    | inr e ↦ rw e (rw e (lookup-store rest k a h))
  ]
