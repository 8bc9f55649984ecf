-- ===== src/EndToEnd/Caches.antt =====
-- The maps of packet ids stay within their limits.
use sedsnet_cpp.Common.{
  ℕ, ◌≤◌, ◌<◌, max, Bool, true, false, not, ◌||◌, some, List, [], ◌∷◌, length, length-append,
  contains, filter, leb, ◌==◌, if◌then◌else◌, ◌≡◌, refl, ap, sym, ◌∙◌, inl, inr, Bool-cases, arith,
  ==_refl,
}
use mathlib.Core.Bool.{true≢false}
use sedsnet_cpp.Common.Assoc.{find, put, erase, keys, keys-erase, find-put}
use sedsnet_cpp.Reliable.Pending.{Distinct, Distinct-append}
use sedsnet_cpp.Recent.Window.{contains-append, contains-filter}
use sedsnet_cpp.EndToEnd.{Cache, drop_oldest_entries, remember, remember_entry}

Distinct-filter : (xs : List ℕ) (x : ℕ) → Distinct xs → Distinct (filter (λ k. not (k == x)) xs)
Distinct-filter [] x h = tt
Distinct-filter (y ∷ xs) x h = elim (Bool-cases (y == x)) [
  | inl e ↦ rw e (Distinct-filter xs x (h.1))
  | inr e ↦ rw e (contains-filter xs x y ∙ ground (arith, h.0), Distinct-filter xs x (h.1))
]

absent_filter : (xs : List ℕ) (x : ℕ) → contains (filter (λ k. not (k == x)) xs) x ≡ false
absent_filter xs x =
    contains-filter xs x x ∙ ap (λ b. if b then false else contains xs x) (==_refl x)

absent_tail :
    (x id : ℕ) (order : List ℕ) → contains (x ∷ order) id ≡ false → contains order id ≡ false
absent_tail x id order h = elim (Bool-cases (x == id)) [
  | inl e ↦ ground (arith, h, e)
  | inr e ↦ sym (ap (λ b. b || contains order id) e) ∙ h
]

rest_known :
    (id k : ℕ) (order : List ℕ)
    → contains order k ≡ true
    → (id == k || contains (filter (λ j. not (j == id)) order) k) ≡ true
rest_known id k order h =
    let e = contains-filter order id k in
    elim (Bool-cases (id == k)) [ inl q ↦ rw q refl | inr q ↦ rw q (e ∙ rw q h) ]

either :
    (id k : ℕ) (in_map in_order : Bool)
    → (in_map ≡ true → (id == k || in_order) ≡ true)
    → (id == k || in_map) ≡ true
    → (id == k || in_order) ≡ true
either id k in_map in_order known h = elim (Bool-cases (id == k)) [
  | inl q ↦ rw q refl
  | inr q ↦ known (sym (ap (λ b. b || in_map) q) ∙ h)
]

known_tail :
    (x id k : ℕ) (order : List ℕ)
    → (id == k || contains (x ∷ order) k) ≡ true
    → (x == k) ≡ false
    → (id == k || contains order k) ≡ true
known_tail x id k order h e = sym (ap (λ b. id == k || (b || contains order k)) e) ∙ h

module _ {A : Type 0} where
  -- Each entry's id is in the deque, each id stands once in the deque, and there are at most `cap`.
  pub record IsCache (cap : ℕ) (cache : Cache A) : Type 0 where
    pub known : (k : ℕ) → contains (keys cache.entries) k ≡ true → contains cache.order k ≡ true
    pub distinct : Distinct cache.order
    pub bounded : length cache.order ≤ cap

  -- The same while `id` is not in the deque but may be in the map.
  record IsBut (id cap : ℕ) (cache : Cache A) : Type 0 where
    known :
        (k : ℕ)
        → contains (keys cache.entries) k ≡ true
        → (id == k || contains cache.order k) ≡ true
    distinct : Distinct cache.order
    absent : contains cache.order id ≡ false
    bounded : length cache.order < cap

  known_erased :
      (id x : ℕ) (order : List ℕ) (entries : List (ℕ × A))
      → ((k : ℕ) → contains (keys entries) k ≡ true → (id == k || contains (x ∷ order) k) ≡ true)
      → (k : ℕ) → contains (keys (erase entries x)) k ≡ true
      → (id == k || contains order k) ≡ true
  known_erased id x order entries known k h =
      let kept : (if x == k then false else contains (keys entries) k) ≡ true =
        sym (ap (λ ks. contains ks k) (keys-erase entries x) ∙ contains-filter (keys entries) x k)
        ∙ h in
      elim (Bool-cases (x == k)) [
        | inl e ↦
            absurd
              (true≢false (sym kept ∙ ap (λ b. if b then false else contains (keys entries) k) e))
        | inr e ↦
            known_tail x id k order
              (known k (sym (ap (λ b. if b then false else contains (keys entries) k) e) ∙ kept)) e
      ]

  drop_oldest_entries-IsBut :
      (id cap : ℕ) (order : List ℕ) (entries : List (ℕ × A))
      → 0 < cap
      → ((k : ℕ) → contains (keys entries) k ≡ true → (id == k || contains order k) ≡ true)
      → Distinct order
      → contains order id ≡ false
      → IsBut id cap (drop_oldest_entries cap order entries)
  unfolding drop_oldest_entries
  drop_oldest_entries-IsBut id cap [] entries hc known distinct absent = record {
    known = known;
    distinct = tt;
    absent = refl;
    bounded = hc;
  }
  drop_oldest_entries-IsBut id cap (x ∷ order) entries hc known distinct absent =
      elim (Bool-cases (leb cap (length (x ∷ order)))) [
        | inl full ↦ rw full (
            drop_oldest_entries-IsBut id cap order (erase entries x) hc
              (known_erased id x order entries known) (distinct.1) (absent_tail x id order absent))
        | inr room ↦ rw room (record {
          known = known;
          distinct = distinct;
          absent = absent;
          bounded = ground (arith, room);
        })
      ]

  keys-put :
      (m : List (ℕ × A)) (k j : ℕ) (a : A)
      → contains (keys (put m k a)) j ≡ (k == j || contains (keys m) j)
  keys-put [] k j a = refl
  keys-put ((i, b) ∷ m) k j a =
      let later = keys-put m k j a in
      elim (Bool-cases (i == k)) [
        | inl e ↦ rw e (ground (arith, e))
        | inr e ↦ rw e (ground (arith, later))
      ]

  -- With any limit the map and its deque stay together, without a duplicate, and hold at most so
  -- many entries (one, where the limit is zero); the new entry can be found.
  pub remember_entry-IsCache :
      (limit packet_id : ℕ) (a : A) (cache : Cache A)
      → IsCache (max 1 limit) cache
      → IsCache (max 1 limit) (remember_entry limit packet_id a cache)
        × (find (remember_entry limit packet_id a cache).entries packet_id ≡ some a)
  unfolding remember_entry remember
  remember_entry-IsCache limit packet_id a cache h =
      let rest = filter (λ id. not (id == packet_id)) cache.order in
      let room =
        drop_oldest_entries-IsBut packet_id (max 1 limit) rest cache.entries (omega arith)
          (λ k hk. rest_known packet_id k cache.order (h.known k hk))
          (Distinct-filter cache.order packet_id h.distinct)
          (absent_filter cache.order packet_id) in
      (
        record {
          known = λ k hk.
              contains-append (drop_oldest_entries (max 1 limit) rest cache.entries).order packet_id
                k
              ∙ either packet_id k _ _ (room.known k) (
                  sym (
                    keys-put (drop_oldest_entries (max 1 limit) rest cache.entries).entries
                      packet_id k a)
                  ∙ hk);
          distinct = Distinct-append _ packet_id room.distinct room.absent;
          bounded = omega (
            arith,
            length-append (drop_oldest_entries (max 1 limit) rest cache.entries).order
                (packet_id ∷ []),
            room.bounded,
          );
        },
        find-put _ packet_id a,
      )
