-- ===== src/Recent/Window.antt =====
-- What the ids seen last are.
use sedsnet_cpp.Common.{
  ℕ, ◌≤◌, ◌<◌, true, false, not, ◌||◌, List, [], ◌∷◌, ◌++◌, length, length-append, contains, filter,
  leb, ◌==◌, if◌then◌else◌, ◌≡◌, refl, ap, sym, ◌∙◌, inl, inr, Bool-cases, arith, ==_refl,
}
use sedsnet_cpp.Recent.{Recent, push_recent, drop_front_id, append_id}
use sedsnet_cpp.Reliable.Pending.{Distinct, Distinct-append}

-- The set has the ids of the deque, each id stands once in the deque, and there are at most `max`.
pub record IsWindow (max : ℕ) (recent : Recent) : Type 0 where
  pub same : (id : ℕ) → contains recent.recent_set id ≡ contains recent.recent_ids id
  pub distinct : Distinct recent.recent_ids
  pub bounded : length recent.recent_ids ≤ max

pub contains-append : (xs : List ℕ) (x y : ℕ) → contains (xs ++ (x ∷ [])) y ≡ contains (x ∷ xs) y
contains-append [] x y = refl
contains-append (z ∷ xs) x y = let later = contains-append xs x y in ground (arith, later)

pub contains-filter :
    (xs : List ℕ) (x y : ℕ)
    → contains (filter (λ k. not (k == x)) xs) y ≡ (if x == y then false else contains xs y)
contains-filter [] x y = ground arith
contains-filter (z ∷ xs) x y = let later = contains-filter xs x y in ground (arith, later)

append_id-IsWindow :
    (max : ℕ) (recent : Recent) (id : ℕ)
    → IsWindow max recent
    → contains recent.recent_ids id ≡ false
    → length recent.recent_ids < max
    → IsWindow max (append_id recent id)
unfolding append_id
append_id-IsWindow max recent id h fresh hb = record {
  same = λ k. ap (λ b. id == k || b) (h.same k) ∙ sym (contains-append recent.recent_ids id k);
  distinct = Distinct-append recent.recent_ids id h.distinct fresh;
  bounded = omega (arith, length-append recent.recent_ids (id ∷ []), hb);
}

drop_front_id-IsWindow :
    (max x : ℕ) (xs set : List ℕ)
    → IsWindow max (record { recent_ids = x ∷ xs; recent_set = set })
    → IsWindow max (drop_front_id (record { recent_ids = x ∷ xs; recent_set = set }))
unfolding drop_front_id
drop_front_id-IsWindow max x xs set h = record {
  same = λ k. elim (Bool-cases (x == k)) [
    | inl e ↦
        let x≡k : x ≡ k = ground arith in
        let gone : contains xs k ≡ false = ap (contains xs) (sym x≡k) ∙ h.distinct.0 in
        contains-filter set x k ∙ rw (e, gone) refl
    | inr e ↦ contains-filter set x k ∙ rw e (h.same k ∙ rw e refl)
  ];
  distinct = h.distinct.1;
  bounded = omega (arith, h.bounded);
}

append_id-contains :
    (recent : Recent) (id : ℕ) → contains (append_id recent id).recent_set id ≡ true
unfolding append_id
append_id-contains recent id = rw (==_refl id) refl

gone_later :
    (x : ℕ) (xs set : List ℕ) (id : ℕ)
    → contains (x ∷ xs) id ≡ false
    → contains (drop_front_id (record { recent_ids = x ∷ xs; recent_set = set })).recent_ids id
      ≡ false
unfolding drop_front_id
gone_later x xs set id h = elim (Bool-cases (x == id)) [
  | inl e ↦ ground (arith, h, e)
  | inr e ↦ sym (ap (λ b. b || contains xs id) e) ∙ h
]

shorter :
    (max x : ℕ) (xs set : List ℕ)
    → length (x ∷ xs) ≤ max
    → length (drop_front_id (record { recent_ids = x ∷ xs; recent_set = set })).recent_ids < max
unfolding drop_front_id
shorter max x xs set h = omega (arith, h)

push_full :
    (max : ℕ) (ids set : List ℕ) (id : ℕ)
    → IsWindow max (record { recent_ids = ids; recent_set = set })
    → max ≤ length ids
    → 0 < max
    → contains ids id ≡ false
    → IsWindow max (append_id (drop_front_id (record { recent_ids = ids; recent_set = set })) id)
push_full max [] set id h hl hm fresh = absurd (omega arith)
push_full max (x ∷ xs) set id h hl hm fresh =
    append_id-IsWindow max _ id (drop_front_id-IsWindow max x xs set h)
      (gone_later x xs set id fresh) (shorter max x xs set h.bounded)

-- Pushing an id, with a limit above zero, keeps the set and the deque alike, without a duplicate
-- and within the limit, and the id is in the set right after it.
pub push_recent-IsWindow :
    (max : ℕ) (recent : Recent) (id : ℕ)
    → 0 < max
    → IsWindow max recent
    → IsWindow max (push_recent max recent id)
      × (contains (push_recent max recent id).recent_set id ≡ true)
unfolding push_recent
push_recent-IsWindow max recent id hm h = elim (Bool-cases (contains recent.recent_set id)) [
  | inl seen ↦ rw (push_recent, seen) (h, seen)
  | inr new ↦
      let fresh : contains recent.recent_ids id ≡ false = sym (h.same id) ∙ new in
      elim (Bool-cases (leb max (length recent.recent_ids))) [
        | inl full ↦
            rw (push_recent, new, full)
              (
                push_full max recent.recent_ids recent.recent_set id h (ground arith) hm fresh,
                append_id-contains (drop_front_id recent) id,
              )
        | inr room ↦
            rw (push_recent, new, room)
              (
                append_id-IsWindow max recent id h fresh (ground arith),
                append_id-contains recent id,
              )
      ]
]
