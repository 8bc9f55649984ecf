-- ===== src/Common/Sorting.antt =====
-- `std::ranges::sort` followed by `std::ranges::unique`, and the orders that it is used with.
use Prim.Native.Nat.{ℕ}
use mathlib.Core.Path.{◌≡◌, refl}
use mathlib.Core.Bool.{Bool, true, false, ◌||◌}
use mathlib.Core.List.{List, [], ◌∷◌}
use native.Mathlib.Omega.{arith}
use sedsnet_cpp.Common.Tests.{◌==◌, ltb, if◌then◌else◌}
use sedsnet_cpp.Common.Lists.{contains}

-- Of equal elements the first stays.
module _ {ℓ} {A : Type ℓ} (lt : A → A → Bool) where
  unfoldable pub insert_once : A → List A → List A
  insert_once a [] = a ∷ []
  insert_once a (b ∷ bs) =
      if lt a b then a ∷ b ∷ bs else (if lt b a then b ∷ insert_once a bs else a ∷ bs)

  unfoldable pub sort_dedup : List A → List A
  unfolding insert_once
  sort_dedup [] = []
  sort_dedup (a ∷ rest) = insert_once a (sort_dedup rest)

-- Strings are compared by their bytes.
unfoldable pub text_ltb : List ℕ → List ℕ → Bool
text_ltb [] [] = false
text_ltb [] (b ∷ bs) = true
text_ltb (a ∷ as_) [] = false
text_ltb (a ∷ as_) (b ∷ bs) = if ltb a b then true else (if a == b then text_ltb as_ bs else false)

insert_once-contains :
    (a : ℕ) (xs : List ℕ) (y : ℕ) → contains (insert_once ltb a xs) y ≡ (a == y || contains xs y)
unfolding insert_once
insert_once-contains a [] y = refl
insert_once-contains a (b ∷ bs) y = let later = insert_once-contains a bs y in ground (arith, later)

-- Sorting keeps the elements.
pub sort_dedup-contains : (xs : List ℕ) (y : ℕ) → contains (sort_dedup ltb xs) y ≡ contains xs y
unfolding sort_dedup
sort_dedup-contains [] y = refl
sort_dedup-contains (x ∷ xs) y =
    let step = insert_once-contains x (sort_dedup ltb xs) y in
    let rest = sort_dedup-contains xs y in ground (arith, step, rest)
