-- ===== src/Queue/Shared.antt =====
-- The receive and transmit queues of one owner under one budget.
use sedsnet_cpp.Common.{
  ℕ, zero, suc, ◌+◌, ◌^◌, ◌≤◌, ◌<◌, Option, none, some, List, [], ◌∷◌, length, drop, ltb, leb, ◌≡◌,
  refl, ap, arith, inl, inr, Bool-cases,
}
use sedsnet_cpp.Queue.{
  Queue, add64, sub64, drop_rx, drop_tx, drop_oldest, enforce_loop, enforce_shared_queue_budget,
}
use sedsnet_cpp.Queue.Bounded.{total, IsCounted}

module _ {A B : Type 0} (rx_cost : A → ℕ) (tx_cost : B → ℕ) where
  -- Both counters are right, and their sum is a `size_t`.
  abbrev pub AreCounted : Queue A → Queue B → Type 0
  AreCounted rx tx = IsCounted rx_cost rx × IsCounted tx_cost tx × rx.bytes + tx.bytes < 2 ^ 64

  -- What the loop leaves of two queues: each loses its first items only, and they fit.
  pub record Shares (budget : ℕ) (rx : Queue A) (tx : Queue B) (after : Queue A × Queue B)
      : Type 0 where
    pub rx_dropped : ℕ
    pub tx_dropped : ℕ
    pub rx_kept : after.0.items ≡ drop rx_dropped rx.items
    pub tx_kept : after.1.items ≡ drop tx_dropped tx.items
    pub rx_counted : IsCounted rx_cost (after.0)
    pub tx_counted : IsCounted tx_cost (after.1)
    pub fits : after.0.bytes + after.1.bytes ≤ budget

  abbrev whole : {C : Type 0} → (C → ℕ) → List C → Queue C
  whole cost xs = record { items = xs; bytes = total cost xs }

  now :
      (budget : ℕ) (xs : List A) (ys : List B)
      → total rx_cost xs + total tx_cost ys ≤ budget
      → Shares budget (whole rx_cost xs) (whole tx_cost ys) (whole rx_cost xs, whole tx_cost ys)
  now budget xs ys hb = record {
    rx_dropped = 0;
    tx_dropped = 0;
    rx_kept = refl;
    tx_kept = refl;
    rx_counted = refl;
    tx_counted = refl;
    fits = hb;
  }

  one_rx :
      (budget : ℕ) (x : A) (xs : List A) (ys : List B) (r : Queue A × Queue B)
      → Shares budget (whole rx_cost xs) (whole tx_cost ys) r
      → Shares budget (whole rx_cost (x ∷ xs)) (whole tx_cost ys) r
  one_rx budget x xs ys r h = record {
    rx_dropped = suc h.rx_dropped;
    tx_dropped = h.tx_dropped;
    rx_kept = h.rx_kept;
    tx_kept = h.tx_kept;
    rx_counted = h.rx_counted;
    tx_counted = h.tx_counted;
    fits = h.fits;
  }

  one_tx :
      (budget : ℕ) (y : B) (xs : List A) (ys : List B) (r : Queue A × Queue B)
      → Shares budget (whole rx_cost xs) (whole tx_cost ys) r
      → Shares budget (whole rx_cost xs) (whole tx_cost (y ∷ ys)) r
  one_tx budget y xs ys r h = record {
    rx_dropped = h.rx_dropped;
    tx_dropped = suc h.tx_dropped;
    rx_kept = h.rx_kept;
    tx_kept = h.tx_kept;
    rx_counted = h.rx_counted;
    tx_counted = h.tx_counted;
    fits = h.fits;
  }

  -- One round over the budget drops the front of one of the queues, or finds both empty.
  data Round (xs : List A) (ys : List B) : Option (Queue A × Queue B) → Type 0 where
    both_empty : xs ≡ [] → ys ≡ [] → Round xs ys none
    from_rx :
        (x : A) (rest : List A)
        → xs ≡ x ∷ rest
        → Round xs ys (some (whole rx_cost rest, whole tx_cost ys))
    from_tx :
        (y : B) (rest : List B)
        → ys ≡ y ∷ rest
        → Round xs ys (some (whole rx_cost xs, whole tx_cost rest))

  drop_oldest-Round :
      (xs : List A) (ys : List B)
      → total rx_cost xs + total tx_cost ys < 2 ^ 64
      → Round xs ys (drop_oldest rx_cost tx_cost (whole rx_cost xs) (whole tx_cost ys))
  unfolding drop_oldest drop_rx drop_tx
  drop_oldest-Round [] [] hs = both_empty refl refl
  drop_oldest-Round (x ∷ xs) [] hs =
      let left : sub64 (total rx_cost (x ∷ xs)) (rx_cost x) ≡ total rx_cost xs = omega arith in
      rw left (from_rx x xs refl)
  drop_oldest-Round [] (y ∷ ys) hs =
      let left : sub64 (total tx_cost (y ∷ ys)) (tx_cost y) ≡ total tx_cost ys = omega arith in
      rw left (from_tx y ys refl)
  drop_oldest-Round (x ∷ xs) (y ∷ ys) hs =
      let rx_left : sub64 (total rx_cost (x ∷ xs)) (rx_cost x) ≡ total rx_cost xs = omega arith in
      let tx_left : sub64 (total tx_cost (y ∷ ys)) (tx_cost y) ≡ total tx_cost ys = omega arith in
      elim (Bool-cases (leb (total tx_cost (y ∷ ys)) (total rx_cost (x ∷ xs)))) [
        | inl e ↦ rw (e, rx_left) (from_rx x xs refl)
        | inr e ↦ rw (e, tx_left) (from_tx y ys refl)
      ]

  abbrev Loops : ℕ → ℕ → Type 0
  Loops fuel budget =
      (xs : List A) (ys : List B)
      → length xs + length ys ≤ fuel
      → total rx_cost xs + total tx_cost ys < 2 ^ 64
      → Shares budget (whole rx_cost xs) (whole tx_cost ys)
          (enforce_loop rx_cost tx_cost fuel budget (whole rx_cost xs) (whole tx_cost ys))

  after_round :
      (fuel budget : ℕ) (xs : List A) (ys : List B) (m : Option (Queue A × Queue B))
      → Round xs ys m
      → Loops fuel budget
      → length xs + length ys ≤ suc fuel
      → total rx_cost xs + total tx_cost ys < 2 ^ 64
      → Shares budget (whole rx_cost xs) (whole tx_cost ys) (elim m [
        | none ↦ (whole rx_cost xs, whole tx_cost ys)
        | some (rx', tx') ↦ enforce_loop rx_cost tx_cost fuel budget rx' tx'
      ])
  after_round fuel budget xs ys _ (both_empty ex ey) loop hf hs =
      rw (ex, ey) (now budget [] [] (omega arith))
  after_round fuel budget xs ys _ (from_rx x rest e) loop hf hs =
      let shorter : length rest + length ys ≤ fuel = omega (arith, hf, ap length e) in
      let smaller : total rx_cost rest + total tx_cost ys < 2 ^ 64 =
        omega (arith, hs, ap (total rx_cost) e) in
      rw e (one_rx budget x rest ys _ (loop rest ys shorter smaller))
  after_round fuel budget xs ys _ (from_tx y rest e) loop hf hs =
      let shorter : length xs + length rest ≤ fuel = omega (arith, hf, ap length e) in
      let smaller : total rx_cost xs + total tx_cost rest < 2 ^ 64 =
        omega (arith, hs, ap (total tx_cost) e) in
      rw e (one_tx budget y xs rest _ (loop xs rest shorter smaller))

  enforce_loop-Shares : (fuel budget : ℕ) → Loops fuel budget
  unfolding enforce_loop
  enforce_loop-Shares zero budget [] [] hf hs = now budget [] [] (omega arith)
  enforce_loop-Shares zero budget (x ∷ xs) ys hf hs = absurd (omega arith)
  enforce_loop-Shares zero budget [] (y ∷ ys) hf hs = absurd (omega arith)
  enforce_loop-Shares (suc fuel) budget xs ys hf hs =
      elim (Bool-cases (ltb budget (add64 (total rx_cost xs) (total tx_cost ys)))) [
        | inl over ↦
            let m = drop_oldest rx_cost tx_cost (whole rx_cost xs) (whole tx_cost ys) in
            let round = drop_oldest-Round xs ys hs in
            let loop = enforce_loop-Shares fuel budget in
            rw (enforce_loop, over) (after_round fuel budget xs ys m round loop hf hs)
        | inr under ↦ rw (enforce_loop, under) (now budget xs ys (ground arith))
      ]

  from_counters :
      (fuel budget : ℕ) (xs : List A) (ys : List B) (rx_bytes tx_bytes : ℕ)
      → rx_bytes ≡ total rx_cost xs
      → tx_bytes ≡ total tx_cost ys
      → rx_bytes + tx_bytes < 2 ^ 64
      → length xs + length ys ≤ fuel
      → Shares budget
          (record { items = xs; bytes = rx_bytes })
          (record { items = ys; bytes = tx_bytes })
          (enforce_loop rx_cost tx_cost fuel budget
            (record { items = xs; bytes = rx_bytes })
            (record { items = ys; bytes = tx_bytes }))
  from_counters fuel budget xs ys rx_bytes tx_bytes hx hy hs hf =
      rw (hx, hy) (enforce_loop-Shares fuel budget xs ys hf (omega (arith, hx, hy, hs)))

  -- With right counters, whose sum does not wrap, the two queues end within the budget they share.
  -- Their counters are right again, and each has lost only items at its front.
  pub enforce_shared_queue_budget-Shares :
      (budget : ℕ) (rx : Queue A) (tx : Queue B)
      → AreCounted rx tx
      → Shares budget rx tx (enforce_shared_queue_budget rx_cost tx_cost budget rx tx)
  unfolding enforce_shared_queue_budget
  enforce_shared_queue_budget-Shares budget rx tx h =
      from_counters _ budget rx.items tx.items rx.bytes tx.bytes h.0 h.1 h.2 (omega arith)
