-- ===== src/Recent/Held.antt =====
-- How long an id that was seen is among the ids seen last.
use sedsnet_cpp.Common.{
  ℕ, ◌+◌, ◌≤◌, ◌<◌, true, false, List, [], ◌∷◌, ◌++◌, length, length-append, contains, leb,
  if◌then◌else◌, ◌≡◌, refl, ap, ◌∙◌, inl, inr, Bool-cases, arith, ==_refl,
}
use mathlib.Core.List.{append_assoc}
use sedsnet_cpp.Recent.{Recent, push_recent, drop_front_id, append_id}
use sedsnet_cpp.Recent.Window.{IsWindow, push_recent-IsWindow}

-- The id stands in the deque, and at most `k` ids behind it.
record IsHeld (recent : Recent) (id k : ℕ) : Type 0 where
  front : List ℕ
  back : List ℕ
  split : recent.recent_ids ≡ front ++ (id ∷ back)
  few : length back ≤ k

drop_front_id-ids :
    (recent : Recent) (x : ℕ) (xs : List ℕ)
    → recent.recent_ids ≡ x ∷ xs
    → (drop_front_id recent).recent_ids ≡ xs
unfolding drop_front_id
drop_front_id-ids recent x xs e = rw e refl

append_id-IsHeld :
    (recent : Recent) (x id k : ℕ) → IsHeld recent id k → IsHeld (append_id recent x) id (k + 1)
unfolding append_id
append_id-IsHeld recent x id k h = record {
  front = h.front;
  back = h.back ++ (x ∷ []);
  split = ap (λ ids. ids ++ (x ∷ [])) h.split ∙ append_assoc h.front (id ∷ h.back) (x ∷ []);
  few = omega (arith, length-append h.back (x ∷ []), h.few);
}

-- An id with fewer than `max` others at and behind it is not at the front of a full deque.
drop_front_id-IsHeld :
    (max : ℕ) (recent : Recent) (id k : ℕ) (front back : List ℕ)
    → recent.recent_ids ≡ front ++ (id ∷ back)
    → length back ≤ k
    → max ≤ length recent.recent_ids
    → k + 1 < max
    → IsHeld (drop_front_id recent) id k
drop_front_id-IsHeld max recent id k [] back e few full room =
    let size = ap length e in absurd (omega (arith, size))
drop_front_id-IsHeld max recent id k (x ∷ front) back e few full room = record {
  front = front;
  back = back;
  split = drop_front_id-ids recent x (front ++ (id ∷ back)) e;
  few = few;
}

push_recent-IsHeld :
    (max : ℕ) (recent : Recent) (x id k : ℕ)
    → k + 1 < max
    → IsHeld recent id k
    → IsHeld (push_recent max recent x) id (k + 1)
unfolding push_recent
push_recent-IsHeld max recent x id k room h = elim (Bool-cases (contains recent.recent_set x)) [
  | inl seen ↦
      rw (push_recent, seen)
        (record { front = h.front; back = h.back; split = h.split; few = omega (arith, h.few) })
  | inr new ↦ elim (Bool-cases (leb max (length recent.recent_ids))) [
    | inl full ↦
        rw (push_recent, new, full)
          (append_id-IsHeld (drop_front_id recent) x id k
            (drop_front_id-IsHeld max recent id k h.front h.back h.split h.few (ground arith) room))
    | inr free ↦ rw (push_recent, new, free) (append_id-IsHeld recent x id k h)
  ]
]

-- An id that is new is the last of the deque once it is pushed.
push_recent-IsLast :
    (max : ℕ) (recent : Recent) (id : ℕ)
    → contains recent.recent_set id ≡ false
    → IsHeld (push_recent max recent id) id 0
unfolding push_recent append_id
push_recent-IsLast max recent id new =
    let kept = if leb max (length recent.recent_ids) then drop_front_id recent else recent in
    rw (push_recent, new)
      (record { front = kept.recent_ids; back = []; split = refl; few = omega arith })

contains-held : (front back : List ℕ) (id : ℕ) → contains (front ++ (id ∷ back)) id ≡ true
contains-held [] back id = rw (==_refl id) refl
contains-held (x ∷ front) back id = let later = contains-held front back id in ground (arith, later)

-- The ids pushed in turn.
abbrev pub push_all : ℕ → Recent → List ℕ → Recent
push_all max recent [] = recent
push_all max recent (id ∷ ids) = push_all max (push_recent max recent id) ids

push_all-IsHeld :
    (max : ℕ) (recent : Recent) (id k : ℕ) (ids : List ℕ)
    → IsWindow max recent
    → IsHeld recent id k
    → k + length ids < max
    → IsWindow max (push_all max recent ids)
      × (contains (push_all max recent ids).recent_set id ≡ true)
push_all-IsHeld max recent id k [] w h room =
    (w, w.same id ∙ ap (λ ids. contains ids id) h.split ∙ contains-held h.front h.back id)
push_all-IsHeld max recent id k (x ∷ ids) w h room =
    push_all-IsHeld max (push_recent max recent x) id (k + 1) ids
      ((push_recent-IsWindow max recent x (omega arith) w).0)
      (push_recent-IsHeld max recent x id k (omega arith) h) (omega arith)

-- Take a set and a deque that have the same ids, each once in the deque and at most as many as the
-- limit. An id that was not in the set is, once it is pushed, still in it after any further pushes
-- that are fewer than the limit, and the set and the deque are still as they were said to be.
pub push_all-contains :
    (max : ℕ) (recent : Recent) (id : ℕ) (ids : List ℕ)
    → IsWindow max recent
    → contains recent.recent_set id ≡ false
    → length ids < max
    → IsWindow max (push_all max (push_recent max recent id) ids)
      × (contains (push_all max (push_recent max recent id) ids).recent_set id ≡ true)
push_all-contains max recent id ids w new room =
    push_all-IsHeld max (push_recent max recent id) id 0 ids
      ((push_recent-IsWindow max recent id (omega arith) w).0)
      (push_recent-IsLast max recent id new) (omega arith)
