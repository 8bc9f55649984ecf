-- ===== src/Reliable/Pending.antt =====
-- The packets that the sending end of a reliable channel waits to hear of.
use sedsnet_cpp.Common.{
  ℕ, ◌≤◌, ◌<◌, true, false, ◌||◌, List, [], ◌∷◌, ◌++◌, All, contains, filter, length, length-append,
  ltb, leb, ◌==◌, ◌≡◌, refl, ap, sym, ◌∙◌, inl, inr, Bool-cases, arith,
}
use sedsnet_cpp.Common.Assoc.{erase, emplace, keys, keys-emplace}
use sedsnet_cpp.Reliable.{Sent, ReliableTxState}
use sedsnet_cpp.Reliable.Egress.{ack_front, ack_tx}

abbrev pub Distinct : List ℕ → Type 0
Distinct [] = Unit {0}
Distinct (x ∷ xs) = (contains xs x ≡ false) × Distinct xs

abbrev pub Ascending : List ℕ → Type 0
Ascending [] = Unit {0}
Ascending (x ∷ xs) = All (λ y. x < y) xs × Ascending xs

-- The two records of the sent packets agree, each packet stands once, and there are at most `max`.
pub record IsTracked (max : ℕ) (order : List ℕ) (sent : List (ℕ × Sent)) : Type 0 where
  pub agree : keys sent ≡ order
  pub distinct : Distinct order
  pub bounded : length order ≤ max

erase-absent : (m : List (ℕ × Sent)) (k : ℕ) → contains (keys m) k ≡ false → erase m k ≡ m
erase-absent [] k h = refl
erase-absent ((j, b) ∷ m) k h = elim (Bool-cases (j == k)) [
  | inl e ↦ ground (arith, h, e)
  | inr e ↦
      let later : contains (keys m) k ≡ false = sym (ap (λ b. b || contains (keys m) k) e) ∙ h in
      rw e (ap (λ m. (j, b) ∷ m) (erase-absent m k later))
]

erase_head :
    (m : List (ℕ × Sent)) (k : ℕ) (b : Sent)
    → contains (keys m) k ≡ false
    → erase ((k, b) ∷ m) k ≡ m
erase_head m k b h = let same : (k == k) ≡ true = ground arith in rw same (erase-absent m k h)

filter-All : (ack : ℕ) (xs : List ℕ) → All (λ y. ack < y) xs → filter (λ seq. ltb ack seq) xs ≡ xs
filter-All ack [] h = refl
filter-All ack (x ∷ xs) h =
    let kept : ltb ack x ≡ true = ground (arith, h.0) in
    rw kept (ap (λ xs. x ∷ xs) (filter-All ack xs (h.1)))

All-lt : (a b : ℕ) (xs : List ℕ) → a < b → All (λ y. b < y) xs → All (λ y. a < y) xs
All-lt a b [] hab h = h
All-lt a b (x ∷ xs) hab h = (omega (arith, hab, h.0), All-lt a b xs hab (h.1))

ack_front-keys :
    (max ack : ℕ) (sent : List (ℕ × Sent))
    → Distinct (keys sent)
    → length (keys sent) ≤ max
    → IsTracked max ((ack_front ack (keys sent) sent).0) ((ack_front ack (keys sent) sent).1)
unfolding ack_front
ack_front-keys max ack [] hd hb = record { agree = refl; distinct = tt; bounded = omega arith }
ack_front-keys max ack ((k, b) ∷ sent) hd hb = elim (Bool-cases (leb k ack)) [
  | inl e ↦ rw (e, erase_head sent k b (hd.0)) (ack_front-keys max ack sent (hd.1) (omega arith))
  | inr e ↦ rw e (record { agree = refl; distinct = hd; bounded = hb })
]

ack_front-filter :
    (ack : ℕ) (order : List ℕ) (sent : List (ℕ × Sent))
    → Ascending order
    → (ack_front ack order sent).0 ≡ filter (λ seq. ltb ack seq) order
unfolding ack_front
ack_front-filter ack [] sent h = refl
ack_front-filter ack (seq ∷ order) sent h = elim (Bool-cases (leb seq ack)) [
  | inl e ↦
      let dropped : ltb ack seq ≡ false = ground arith in
      rw (e, dropped) (ack_front-filter ack order (erase sent seq) (h.1))
  | inr e ↦
      let kept : ltb ack seq ≡ true = ground arith in
      let above = All-lt ack seq order (ground arith) (h.0) in
      rw (e, kept) (ap (λ xs. seq ∷ xs) (sym (filter-All ack order above)))
]

-- On an ordered channel whose two records agree and whose numbers ascend, an acknowledgement
-- ends the wait for the packets up to its number and for no other, and the records still agree.
pub ack_tx-acknowledges :
    (max ack : ℕ) (tx : ReliableTxState)
    → IsTracked max tx.sent_order tx.sent
    → Ascending tx.sent_order
    → ((ack_tx false ack tx).sent_order ≡ filter (λ seq. ltb ack seq) tx.sent_order)
      × IsTracked max (ack_tx false ack tx).sent_order (ack_tx false ack tx).sent
unfolding ack_tx
ack_tx-acknowledges max ack tx h ha = (
  ack_front-filter ack tx.sent_order tx.sent ha,
  rw (sym h.agree) (ack_front-keys max ack tx.sent (rw h.agree h.distinct) (rw h.agree h.bounded)),
)

contains-snoc :
    (xs : List ℕ) (x y : ℕ)
    → contains xs y ≡ false
    → (x == y) ≡ false
    → contains (xs ++ (x ∷ [])) y ≡ false
contains-snoc [] x y h e = ground arith
contains-snoc (z ∷ xs) x y h e = elim (Bool-cases (z == y)) [
  | inl q ↦ ground (arith, h, q)
  | inr q ↦
      let later : contains xs y ≡ false = sym (ap (λ b. b || contains xs y) q) ∙ h in
      rw q (contains-snoc xs x y later e)
]

pub Distinct-append :
    (xs : List ℕ) (x : ℕ) → Distinct xs → contains xs x ≡ false → Distinct (xs ++ (x ∷ []))
Distinct-append [] x h e = (refl, tt)
Distinct-append (z ∷ xs) x h e = elim (Bool-cases (z == x)) [
  | inl q ↦ ground (arith, e, q)
  | inr q ↦
      let later : contains xs x ≡ false = sym (ap (λ b. b || contains xs x) q) ∙ e in
      (contains-snoc xs x z (h.0) (ground arith), Distinct-append xs x (h.1) later)
]

-- A packet that is sent under a number that is not waited for.
pub one_more :
    (max : ℕ) (order : List ℕ) (sent : List (ℕ × Sent)) (seq : ℕ) (new : Sent)
    → IsTracked max order sent
    → contains order seq ≡ false
    → length order < max
    → IsTracked max (order ++ (seq ∷ [])) (emplace sent seq new)
one_more max order sent seq new h fresh hb = record {
  agree = keys-emplace sent seq new (rw h.agree fresh) ∙ ap (λ ks. ks ++ (seq ∷ [])) h.agree;
  distinct = Distinct-append order seq h.distinct fresh;
  bounded = omega (arith, length-append order (seq ∷ []), hb);
}
