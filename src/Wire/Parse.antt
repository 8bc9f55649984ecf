-- ===== src/Wire/Parse.antt =====
-- Results of the frame readers. `reject` is `return std::nullopt`; `fault` is undefined behaviour:
-- a read outside the frame or outside a table, or through a null name.
use sedsnet_cpp.Common.{
  ℕ, Bool, true, false, List, Option, none, some, length, take, drop, leb, if◌then◌else◌,
}

pub data Parse {ℓ} (A : Type ℓ) : Type ℓ where
  ok : A → Parse A
  reject : Parse A
  fault : Parse A

infixl 5 ◌>>=◌ ◌>>◌
abbrev pub ◌>>=◌ {ℓ κ} : {A : Type ℓ} {B : Type κ} → Parse A → (A → Parse B) → Parse B
ok a >>= f = f a
reject >>= f = reject
fault >>= f = fault

abbrev pub ◌>>◌ {ℓ} : {B : Type ℓ} → Parse (Unit {0}) → Parse B → Parse B
m >> k = m >>= λ _. k

-- `if (!test) return std::nullopt;`
abbrev pub require : Bool → Parse (Unit {0})
require true = ok tt
require false = reject

abbrev pub or_reject {ℓ} : {A : Type ℓ} → Option A → Parse A
or_reject (some a) = ok a
or_reject none = reject

-- An access that the source does not check.
abbrev pub or_fault {ℓ} : {A : Type ℓ} → Option A → Parse A
or_fault (some a) = ok a
or_fault none = fault

-- `n` bytes from the cursor on, and the cursor behind them.
unfoldable pub take_bytes : ℕ → List ℕ → Parse (List ℕ × List ℕ)
take_bytes n cur = if leb n (length cur) then ok (take n cur, drop n cur) else fault
