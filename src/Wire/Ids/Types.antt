-- ===== src/Wire/Ids/Types.antt =====
-- The wire id of a type names the same type again.
use sedsnet_cpp.Common.{
  ℕ, zero, suc, ◌-◌, ◌≤◌, true, none, some, List, [], ◌∷◌, Text, text_eq, text_eq_iff, get_elem?,
  length, ◌≡◌, refl, arith, Option-cases, inl, inr, Bool-cases,
}
use sedsnet_cpp.Schema.{Schema, valid_type, type_at}
use sedsnet_cpp.Wire.Ids.{
  builtin_types, is_name, position, type_by_name, or_user_id, v4_type_id, local_user_type,
  local_builtin_or, local_type_id,
}

-- The entry that `position` found carries the name.
position-get_elem? :
    (name : Text) (texts : List Text) (i k : ℕ)
    → position (some name) texts i ≡ some k
    → (i ≤ k) × (get_elem? texts (k - i) ≡ some name)
unfolding position is_name
position-get_elem? name [] i k e = cc
position-get_elem? name (text ∷ texts) i k e = elim (Bool-cases (text_eq name text)) [
  | inl hit ↦
      let found : some i ≡ some k = rw hit at e in
      let here : i ≡ k = cc in
      let zeroth : k - i ≡ 0 = omega arith in
      (omega arith, rw (zeroth, (text_eq_iff name text).0 hit))
  | inr miss ↦
      let (below, at) = position-get_elem? name texts (suc i) k (rw miss at e) in
      let next : k - i ≡ suc (k - suc i) = omega arith in (omega arith, rw next at)
]

get_elem?-beyond {ℓ} : {A : Type ℓ} (xs : List A) (i : ℕ) → length xs ≤ i → get_elem? xs i ≡ none
get_elem?-beyond [] i h = refl
get_elem?-beyond (x ∷ xs) zero h = absurd (omega arith)
get_elem?-beyond (x ∷ xs) (suc i) h = get_elem?-beyond xs i (omega arith)

-- A type by whose name and number it can be found again: it is the first of its name, and has a
-- number of the runtime range where its name is not built in.
pub record IsFindable (s : Schema) (name : Text) (ty : ℕ) : Type 0 where
  pub valid : valid_type s ty ≡ true
  pub named : (type_at s ty).name ≡ some name
  pub first : type_by_name name s.type_info 0 ≡ some ty
  pub runtime : position (some name) builtin_types 0 ≡ none → 100 ≤ ty

-- The receiver's type is the sender's, for every type that can be found again.
pub local_type_id-v4_type_id :
    (s : Schema) (name : Text) (ty : ℕ)
    → IsFindable s name ty
    → local_type_id s (v4_type_id s ty) ≡ some ty
unfolding local_type_id v4_type_id
local_type_id-v4_type_id s name ty v = elim (Option-cases (position (some name) builtin_types 0)) [
  | inl absent ↦
      let high = v.runtime absent in
      let beyond : get_elem? builtin_types ty ≡ none =
        get_elem?-beyond builtin_types ty (omega arith) in
      let same : or_user_id none ty ≡ ty = unfold or_user_id in ground arith in
      rw (v.valid, v.named, absent, same, beyond)
        (unfold local_builtin_or local_user_type in rw v.valid (ground arith))
  | inr (k, found) ↦
      let at = (position-get_elem? name builtin_types 0 k found).1 in
      let whole : k - 0 ≡ k = omega arith in
      let entry : get_elem? builtin_types k ≡ some name = rw whole at at in
      rw (v.valid, v.named, found, or_user_id, entry, local_builtin_or) v.first
]
