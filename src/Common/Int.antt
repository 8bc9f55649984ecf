-- ===== src/Common/Int.antt =====
-- Signed integers over the native numbers: the ids of sides are `int32_t`, with -1 for "none".
use Prim.Native.Nat.{ℕ, ◌-◌}
use mathlib.Core.Path.{◌≡◌}
use mathlib.Core.Logic.{◌↔◌}
use mathlib.Core.Bool.{Bool, true, false}
use mathlib.Core.Option.{Option, none}
use mathlib.Core.List.{List}
use native.Mathlib.Omega.{arith}
use sedsnet_cpp.Common.Tests.{◌==◌, leb, if◌then◌else◌}
use sedsnet_cpp.Common.Lists.{get_elem?}

-- `negsuc n` is -(n + 1).
pub data ℤ : Type 0 where
  pos : ℕ → ℤ
  negsuc : ℕ → ℤ

abbrev pub int_eq : ℤ → ℤ → Bool
int_eq (pos a) (pos b) = a == b
int_eq (pos a) (negsuc b) = false
int_eq (negsuc a) (pos b) = false
int_eq (negsuc a) (negsuc b) = a == b

pub int_eq_iff : (a b : ℤ) → (int_eq a b ≡ true) ↔ (a ≡ b)
int_eq_iff (pos a) (pos b) = (λ e. ground arith, λ e. ground arith)
int_eq_iff (pos a) (negsuc b) = (λ e. cc, λ e. cc)
int_eq_iff (negsuc a) (pos b) = (λ e. cc, λ e. cc)
int_eq_iff (negsuc a) (negsuc b) = (λ e. ground arith, λ e. ground arith)

-- `items[i]` after the test `i >= 0 && i < items.size()`; `none` where the test fails.
unfoldable pub elem_at {ℓ} : {A : Type ℓ} → List A → ℤ → Option A
elem_at items (pos i) = get_elem? items i
elem_at items (negsuc i) = none

-- `a - b` on signed numbers.
abbrev pub diff : ℕ → ℕ → ℤ
diff a b = if leb b a then pos (a - b) else negsuc (b - a - 1)
