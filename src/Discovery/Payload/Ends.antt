-- ===== src/Discovery/Payload/Ends.antt =====
-- discovery.cpp and Cpp-Headers/discovery_helpers.hpp: the loops that decode a topology.
use sedsnet_cpp.Common.{
  ℕ, zero, suc, ◌+◌, ◌-◌, ◌*◌, ◌≤◌, Option, none, some, List, [], ◌∷◌, take, drop, length,
  length-drop, leb, ◌==◌, if◌then◌else◌, ◌>>=◌, ◌>>◌, guard, ◌≡◌, refl, ap, ◌∙◌, inl, inr,
  Bool-cases, both_branches, arith,
}
use mathlib.Core.Path.{subst}
use sedsnet_cpp.Common.Words.{read_le}
use sedsnet_cpp.Discovery.Payload.{
  decode_many, decode_words, decode_sized_string, decode_strings, decode_board, decode_boards,
}

-- A decoder that leaves `k` bytes less than it was given, where it answers.
abbrev Shrinks {ℓ} : {A : Type ℓ} → ℕ → List ℕ → Option (A × List ℕ) → Type 0
Shrinks k payload none = Unit {0}
Shrinks k payload (some (a, rest)) = length rest + k ≤ length payload

module _ {A : Type 0} where
  Shrinks-weaken :
      (k j : ℕ) (payload rest : List ℕ) (o : Option (A × List ℕ))
      → length rest + k ≤ length payload
      → Shrinks j rest o
      → Shrinks (k + j) payload o
  Shrinks-weaken k j payload rest none h hs = tt
  Shrinks-weaken k j payload rest (some (a, left)) h hs = omega (arith, h, hs)

  Shrinks-less :
      (k j : ℕ) (payload : List ℕ) (o : Option (A × List ℕ))
      → j ≤ k
      → Shrinks k payload o
      → Shrinks j payload o
  Shrinks-less k j payload none h hs = tt
  Shrinks-less k j payload (some (a, left)) h hs = omega (arith, h, hs)

Shrinks-bind :
    {A B : Type 0} (k j : ℕ) (payload : List ℕ) (o : Option (A × List ℕ))
    (f : A × List ℕ → Option (B × List ℕ))
    → Shrinks k payload o
    → ((a : A) (rest : List ℕ) → Shrinks j rest (f (a, rest)))
    → Shrinks (k + j) payload (o >>= f)
Shrinks-bind k j payload none f h hf = tt
Shrinks-bind k j payload (some (a, rest)) f h hf =
    Shrinks-weaken k j payload rest (f (a, rest)) h (hf a rest)

one_byte :
    (n b : ℕ) (payload : List ℕ) (o : Option (ℕ × List ℕ))
    → Shrinks n payload o
    → Shrinks
        (suc n)
        (b ∷ payload)
        (elim o [ none ↦ none | some (v, rest) ↦ some (b + 256 * v, rest) ])
one_byte n b payload none h = tt
one_byte n b payload (some (v, rest)) h = omega (arith, h)

cut :
    (len : ℕ) (rest : List ℕ)
    → Shrinks 0 rest (guard (leb len (length rest)) >> some (take len rest, drop len rest))
cut len rest = elim (Bool-cases (leb len (length rest))) [
  | inl e ↦ rw e (omega (arith, length-drop len rest))
  | inr e ↦ rw e tt
]

read_le-Shrinks : (n : ℕ) (payload : List ℕ) → Shrinks n payload (read_le n payload)
unfolding read_le
read_le-Shrinks zero payload = omega arith
read_le-Shrinks (suc n) [] = tt
read_le-Shrinks (suc n) (b ∷ payload) =
    one_byte n b payload (read_le n payload) (read_le-Shrinks n payload)

decode_sized_string-Shrinks : (payload : List ℕ) → Shrinks 4 payload (decode_sized_string payload)
unfolding decode_sized_string
decode_sized_string-Shrinks payload =
    Shrinks-bind 4 0 payload (read_le 4 payload) _ (read_le-Shrinks 4 payload)
      (λ len rest. cut len rest)

module _ {A : Type 0} (decode : List ℕ → Option (A × List ℕ)) (k : ℕ)
    (shrinks : (payload : List ℕ) → Shrinks (suc k) payload (decode payload)) where
  decode_many-Shrinks :
      (fuel count : ℕ) (payload : List ℕ)
      → Shrinks 0 payload (decode_many decode fuel count payload)
  unfolding decode_many
  decode_many-Shrinks zero count payload =
      both_branches (Shrinks 0 payload) (count == 0) _ _ (omega arith) tt
  decode_many-Shrinks (suc fuel) count payload =
      both_branches (Shrinks 0 payload) (count == 0) _ _ (omega arith) (
        Shrinks-less (suc k + (0 + 0)) 0 payload _ (omega arith) (
          Shrinks-bind (suc k) (0 + 0) payload (decode payload) _ (shrinks payload) (λ a rest.
            Shrinks-bind 0 0 rest (decode_many decode fuel (count - 1) rest) _
              (decode_many-Shrinks fuel (count - 1) rest) (λ found left. omega arith))))

-- The elements found are as many as the count says, and each has taken a byte or more.
abbrev pub Counts {ℓ} : {A : Type ℓ} → ℕ → List ℕ → Option (List A × List ℕ) → Type 0
Counts count payload none = Unit {0}
Counts count payload (some (found, left)) =
    (length found ≡ count) × (length left + count ≤ length payload)

module _ {A : Type 0} where
  abbrev push_front : A → Option (List A × List ℕ) → Option (List A × List ℕ)
  push_front a o = o >>= λ (found, left). some (a ∷ found, left)

  push_front-Counts :
      (a : A) (count : ℕ) (payload rest : List ℕ) (o : Option (List A × List ℕ))
      → length rest + 1 ≤ length payload
      → Counts count rest o
      → Counts (suc count) payload (push_front a o)
  push_front-Counts a count payload rest none h hc = tt
  push_front-Counts a count payload rest (some (found, left)) h (len, room) =
      (omega (arith, len), omega (arith, h, room))

  first-Counts :
      (k count : ℕ) (payload : List ℕ) (o : Option (A × List ℕ))
      (later : List ℕ → Option (List A × List ℕ))
      → Shrinks (suc k) payload o
      → ((rest : List ℕ) → Counts count rest (later rest))
      → Counts (suc count) payload (o >>= λ (a, rest). push_front a (later rest))
  first-Counts k count payload none later h hl = tt
  first-Counts k count payload (some (a, rest)) later h hl =
      push_front-Counts a count payload rest (later rest) (omega (arith, h)) (hl rest)

  none_left :
      (k : ℕ) (payload : List ℕ) (o : Option (A × List ℕ))
      → Shrinks (suc k) payload o
      → length payload ≤ 0
      → o ≡ none
  none_left k payload none h hp = refl
  none_left k payload (some (a, rest)) h hp = absurd (omega (arith, h, hp))

  same_later :
      (k n : ℕ) (payload : List ℕ) (o : Option (A × List ℕ))
      (f g : List ℕ → Option (List A × List ℕ))
      → Shrinks (suc k) payload o
      → length payload ≤ suc n
      → ((rest : List ℕ) → length rest ≤ n → f rest ≡ g rest)
      → (o >>= λ (a, rest). push_front a (f rest)) ≡ (o >>= λ (a, rest). push_front a (g rest))
  same_later k n payload none f g h hn e = refl
  same_later k n payload (some (a, rest)) f g h hn e =
      ap (push_front a) (e rest (omega (arith, h, hn)))

module _ {A : Type 0} (decode : List ℕ → Option (A × List ℕ)) (k : ℕ)
    (shrinks : (payload : List ℕ) → Shrinks (suc k) payload (decode payload)) where
  decode_many-Counts :
      (fuel count : ℕ) (payload : List ℕ)
      → Counts count payload (decode_many decode fuel count payload)
  unfolding decode_many
  decode_many-Counts zero count payload = elim (Bool-cases (count == 0)) [
    | inl e ↦ rw e (ground (arith, e), ground (arith, e))
    | inr e ↦ rw e tt
  ]
  decode_many-Counts (suc fuel) count payload = elim (Bool-cases (count == 0)) [
    | inl e ↦ rw e (ground (arith, e), ground (arith, e))
    | inr e ↦
        let more : suc (count - 1) ≡ count = ground (arith, e) in
        let step =
          first-Counts k (count - 1) payload (decode payload) (decode_many decode fuel (count - 1))
            (shrinks payload) (decode_many-Counts fuel (count - 1)) in
        rw e (
          subst
            (λ n. Counts n payload (
              decode payload >>= λ (a, rest).
              push_front a (decode_many decode fuel (count - 1) rest)))
            more step)
  ]

  -- One round more than the payload has bytes makes no difference.
  decode_many-suc :
      (fuel count : ℕ) (payload : List ℕ)
      → length payload ≤ fuel
      → decode_many decode (suc fuel) count payload ≡ decode_many decode fuel count payload
  unfolding decode_many
  decode_many-suc zero count payload h =
      ap
        (λ o.
          if count == 0
          then some ([], payload)
          else (o >>= λ (a, rest). push_front a (decode_many decode zero (count - 1) rest)))
        (none_left k payload (decode payload) (shrinks payload) h)
  decode_many-suc (suc fuel) count payload h =
      ap (λ later. if count == 0 then some ([], payload) else later)
        (same_later k fuel payload (decode payload) (decode_many decode (suc fuel) (count - 1))
          (decode_many decode fuel (count - 1)) (shrinks payload) h
          (decode_many-suc fuel (count - 1)))

  decode_many_ends :
      (extra fuel count : ℕ) (payload : List ℕ)
      → length payload ≤ fuel
      → decode_many decode (extra + fuel) count payload ≡ decode_many decode fuel count payload
  decode_many_ends zero fuel count payload h =
      let same : 0 + fuel ≡ fuel = omega arith in ap (λ n. decode_many decode n count payload) same
  decode_many_ends (suc extra) fuel count payload h =
      let next : suc extra + fuel ≡ suc (extra + fuel) = omega arith in
      ap (λ n. decode_many decode n count payload) next
      ∙ decode_many-suc (extra + fuel) count payload (omega (arith, h))
      ∙ decode_many_ends extra fuel count payload h

decode_words-Shrinks :
    (count : ℕ) (payload : List ℕ) → Shrinks 0 payload (decode_words count payload)
unfolding decode_words
decode_words-Shrinks count payload =
    decode_many-Shrinks (read_le 4) 3 (read_le-Shrinks 4) (length payload) count payload

decode_strings-Shrinks :
    (count : ℕ) (payload : List ℕ) → Shrinks 0 payload (decode_strings count payload)
unfolding decode_strings
decode_strings-Shrinks count payload =
    Shrinks-bind 0 0 payload _ _
      (decode_many-Shrinks decode_sized_string 3 decode_sized_string-Shrinks (length payload) count
        payload)
      (λ texts left. omega arith)

decode_board-Shrinks : (payload : List ℕ) → Shrinks 16 payload (decode_board payload)
unfolding decode_board
decode_board-Shrinks payload =
    Shrinks-bind 4 12 payload _ _ (decode_sized_string-Shrinks payload) (λ sender rest1.
      Shrinks-bind 4 8 rest1 _ _ (read_le-Shrinks 4 rest1) (λ count rest2.
        Shrinks-bind 0 8 rest2 _ _ (decode_words-Shrinks count rest2) (λ endpoints rest3.
          Shrinks-bind 4 4 rest3 _ _ (read_le-Shrinks 4 rest3) (λ count rest4.
            Shrinks-bind 0 4 rest4 _ _ (decode_strings-Shrinks count rest4) (λ sources rest5.
              Shrinks-bind 4 0 rest5 _ _ (read_le-Shrinks 4 rest5) (λ count rest6.
                Shrinks-bind 0 0 rest6 _ _ (decode_strings-Shrinks count rest6)
                  (λ connections rest7. omega arith)))))))

-- Whatever number of boards a payload announces, the loop that decodes them ends: any more fuel
-- than the payload has bytes gives the same answer. Where the answer is boards, they are as many
-- as announced, and no more than the payload has bytes.
pub decode_boards_ends :
    (count extra : ℕ) (payload : List ℕ)
    → (decode_many decode_board (extra + length payload) count payload
        ≡ decode_boards count payload)
      × Counts count payload (decode_boards count payload)
unfolding decode_boards
decode_boards_ends count extra payload = (
  decode_many_ends decode_board 15 decode_board-Shrinks extra (length payload) count payload
      (omega arith),
  decode_many-Counts decode_board 15 decode_board-Shrinks (length payload) count payload,
)
