-- ===== src/Queue/Bounded.antt =====
-- What a bounded enqueue keeps and what it drops.
use sedsnet_cpp.Common.{
  ℕ, zero, suc, ◌+◌, ◌^◌, ◌≤◌, ◌<◌, Bool, true, false, Option, none, some, List, [], ◌∷◌, ◌++◌,
  drop, ltb, if◌then◌else◌, ◌≡◌, refl, arith, inl, inr, Bool-cases,
}
use sedsnet_cpp.Queue.{Queue, add64, sub64, make_room, enqueue_bounded, pop, pop_front}

module _ {ℓ} {A : Type ℓ} (byte_cost : A → ℕ) where
  abbrev pub total : List A → ℕ
  total [] = 0
  total (item ∷ items) = byte_cost item + total items

  pub total-append : (xs ys : List A) → total (xs ++ ys) ≡ total xs + total ys
  total-append [] ys = omega arith
  total-append (x ∷ xs) ys = omega (arith, total-append xs ys)

  -- The counter is the cost of the items.
  abbrev pub IsCounted : Queue A → Type 0
  IsCounted queue = queue.bytes ≡ total queue.items

  -- What `make_room` leaves: the items but the first `dropped`, with room for `cost` more bytes.
  -- With one item less dropped there would have been no room.
  record MakesRoom (cost budget : ℕ) (items : List A) (room : Queue A) : Type ℓ where
    dropped : ℕ
    kept : room.items ≡ drop dropped items
    counted : room.bytes ≡ total room.items
    fits : room.bytes + cost ≤ budget
    needed : (j : ℕ) → j < dropped → budget < total (drop j items) + cost

  make_room-MakesRoom :
      (cost budget : ℕ) (items : List A)
      → total items + cost < 2 ^ 64
      → cost ≤ budget
      → MakesRoom cost budget items (make_room byte_cost cost budget items (total items))
  unfolding make_room
  make_room-MakesRoom cost budget [] h c = record {
    dropped = 0;
    kept = refl;
    counted = refl;
    fits = omega arith;
    needed = λ j p. absurd (omega arith);
  }
  make_room-MakesRoom cost budget (x ∷ xs) h c =
      elim (Bool-cases (ltb budget (add64 (total (x ∷ xs)) cost))) [
        | inl over ↦
            let rest = make_room-MakesRoom cost budget xs (omega arith) c in
            let left : sub64 (total (x ∷ xs)) (byte_cost x) ≡ total xs = omega arith in
            let first : budget < total (x ∷ xs) + cost = ground arith in
            rw (over, left)
              (record {
                dropped = suc rest.dropped;
                kept = rest.kept;
                counted = rest.counted;
                fits = rest.fits;
                needed = later xs rest.dropped x first rest.needed;
              })
        | inr under ↦ rw under (record {
          dropped = 0;
          kept = refl;
          counted = refl;
          fits = ground arith;
          needed = λ j p. absurd (omega arith);
        })
      ]
    where
      later :
          (xs : List A) (n : ℕ) (x : A)
          → budget < total (x ∷ xs) + cost
          → ((j : ℕ) → j < n → budget < total (drop j xs) + cost)
          → (j : ℕ) → j < suc n
          → budget < total (drop j (x ∷ xs)) + cost
      later xs n x first rest zero p = first
      later xs n x first rest (suc j) p = rest j (omega arith)

  -- The counter is right and within the budget.
  abbrev pub IsBounded : ℕ → Queue A → Type 0
  IsBounded budget queue = IsCounted queue × queue.bytes ≤ budget

  -- The queue that an accepted item leaves: the new item stands at its end of what is kept of the
  -- old ones.
  pub record Enqueues (queue : Queue A) (item : A) (front : Bool) (budget : ℕ) (after : Queue A)
      : Type ℓ where
    pub dropped : ℕ
    pub kept : after.items ≡ (
        if front then item ∷ drop dropped queue.items else drop dropped queue.items ++ (item ∷ []))
    pub bounded : IsBounded budget after
    pub needed : (j : ℕ) → j < dropped → budget < total (drop j queue.items) + byte_cost item

  total-placed :
      (front : Bool) (item : A) (items : List A)
      → total (if front then item ∷ items else items ++ (item ∷ [])) ≡ total items + byte_cost item
  total-placed true item items = omega arith
  total-placed false item items = omega (arith, total-append items (item ∷ []))

  -- With a budget below 2 ^ 63, an item that costs no more than the budget is accepted by a
  -- bounded queue, at either end. The queue stays bounded, only items at its front are
  -- dropped, and no more of them than the budget asks for.
  pub enqueue_bounded-Enqueues :
      (queue : Queue A) (item : A) (front : Bool) (budget : ℕ)
      → IsBounded budget queue
      → budget < 2 ^ 63
      → byte_cost item ≤ budget
      → ((enqueue_bounded byte_cost queue item front budget).1 ≡ true)
        × Enqueues queue item front budget ((enqueue_bounded byte_cost queue item front budget).0)
  unfolding enqueue_bounded
  enqueue_bounded-Enqueues queue item front budget h hb hc =
      let cheap : ltb budget (byte_cost item) ≡ false = ground arith in
      let room = make_room byte_cost (byte_cost item) budget queue.items queue.bytes in
      let made : MakesRoom (byte_cost item) budget queue.items room =
        rw h.0
          (make_room-MakesRoom (byte_cost item) budget queue.items (omega (arith, h.0, h.1)) hc) in
      let fits = made.fits in
      let sum : add64 room.bytes (byte_cost item) ≡ room.bytes + byte_cost item = omega arith in
      rw (cheap, sum)
        (
          refl,
          record {
            dropped = made.dropped;
            kept = rw made.kept;
            bounded = (rw (total-placed front item room.items, made.counted), fits);
            needed = made.needed;
          },
        )

  -- With a budget below 2 ^ 63, an enqueue at either end, accepted or refused, keeps a bounded
  -- queue bounded.
  enqueue_bounded-IsBounded :
      (queue : Queue A) (item : A) (front : Bool) (budget : ℕ)
      → IsBounded budget queue
      → budget < 2 ^ 63
      → IsBounded budget ((enqueue_bounded byte_cost queue item front budget).0)
  enqueue_bounded-IsBounded queue item front budget h hb =
      elim (Bool-cases (ltb budget (byte_cost item))) [
        | inl dear ↦ (unfold enqueue_bounded in rw dear h)
        | inr cheap ↦
            (enqueue_bounded-Enqueues queue item front budget h hb (ground arith)).1.bounded
      ]

  abbrev pub PopsFront : ℕ → Queue A → Option (A × Queue A) → Type ℓ
  PopsFront budget queue none = queue.items ≡ []
  PopsFront budget queue (some (item, rest)) =
      (queue.items ≡ item ∷ rest.items) × IsBounded budget rest

  pop_front-PopsFront :
      (items : List A) (bytes budget : ℕ)
      → (bytes ≡ total items)
      → bytes ≤ budget
      → budget < 2 ^ 64
      → PopsFront budget (record { items = items; bytes = bytes }) (pop_front byte_cost items bytes)
  unfolding pop_front
  pop_front-PopsFront [] bytes budget h hb hc = refl
  pop_front-PopsFront (x ∷ xs) bytes budget h hb hc = (refl, (omega arith, omega arith))

  -- Popping a bounded queue of less than 2 ^ 64 bytes takes the first item, if there is one, and
  -- leaves the others in a bounded queue.
  pub pop-PopsFront :
      (queue : Queue A) (budget : ℕ)
      → IsBounded budget queue
      → budget < 2 ^ 64
      → PopsFront budget queue (pop byte_cost queue)
  unfolding pop
  pop-PopsFront queue budget h hb = pop_front-PopsFront queue.items queue.bytes budget h.0 h.1 hb
