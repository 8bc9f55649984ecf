-- ===== src/Queue.antt =====
-- src/queue.cpp, and `enforce_shared_queue_budget` of Cpp-Headers/internal.hpp.
-- A queue is a `std::deque` with the `size_t` that counts its bytes; the head of the list is the
-- front of the deque.
pub mod Items
pub mod Bounded
pub mod Shared
use sedsnet_cpp.Common.{
  ℕ, zero, suc, ◌+◌, ◌-◌, ◌%◌, ◌^◌, Bool, true, false, ◌&&◌, ◌||◌, not, Option, none, some, List,
  [], ◌∷◌, ◌++◌, length, is_empty, ltb, leb, if◌then◌else◌,
}

pub record Queue {ℓ} (A : Type ℓ) : Type ℓ where
  pub items : List A
  pub bytes : ℕ

-- `size_t` sums and differences.
abbrev pub add64 : ℕ → ℕ → ℕ
add64 a b = (a + b) % 2 ^ 64

abbrev pub sub64 : ℕ → ℕ → ℕ
sub64 a b = (a + 2 ^ 64 - b) % 2 ^ 64

module _ {ℓ} {A : Type ℓ} (byte_cost : A → ℕ) where
  -- `while (!queue.empty() && queue_bytes + cost > max_queue_budget)`
  unfoldable pub make_room : ℕ → ℕ → List A → ℕ → Queue A
  make_room cost budget [] bytes = record { items = []; bytes = bytes }
  make_room cost budget (item ∷ items) bytes =
      let smaller = make_room cost budget items (sub64 bytes (byte_cost item)) in
      if ltb budget (add64 bytes cost)
      then smaller
      else record { items = item ∷ items; bytes = bytes }

  unfoldable pub enqueue_bounded : Queue A → A → Bool → ℕ → Queue A × Bool
  unfolding make_room
  enqueue_bounded queue item front budget =
      let cost = byte_cost item in
      let room = make_room cost budget queue.items queue.bytes in
      if ltb budget cost then (queue, false) else (
        record {
          items = if front then item ∷ room.items else room.items ++ (item ∷ []);
          bytes = add64 room.bytes cost;
        },
        true,
      )

  unfoldable pub pop_front : List A → ℕ → Option (A × Queue A)
  pop_front [] bytes = none
  pop_front (item ∷ items) bytes =
      some (item, record { items = items; bytes = sub64 bytes (byte_cost item) })

  -- `pop_tx` and `pop_rx`
  unfoldable pub pop : Queue A → Option (A × Queue A)
  unfolding pop_front
  pop queue = pop_front queue.items queue.bytes

-- `clear_tx_queue` and `clear_rx_queue`
unfoldable pub clear {ℓ} : {A : Type ℓ} → Queue A → Queue A
clear queue = record { items = []; bytes = 0 }

-- One round of the loop that takes both queues of an owner under one budget; `none` is `break`.
module _ {A B : Type 0} (rx_cost : A → ℕ) (tx_cost : B → ℕ) where
  drop_rx : List A → Queue A → Queue A
  drop_rx [] rx = rx
  drop_rx (item ∷ items) rx = record { items = items; bytes = sub64 rx.bytes (rx_cost item) }

  drop_tx : List B → Queue B → Queue B
  drop_tx [] tx = tx
  drop_tx (item ∷ items) tx = record { items = items; bytes = sub64 tx.bytes (tx_cost item) }

  unfoldable pub drop_oldest : Queue A → Queue B → Option (Queue A × Queue B)
  unfolding drop_rx drop_tx
  drop_oldest rx tx =
      if not (is_empty rx.items) && (is_empty tx.items || leb tx.bytes rx.bytes)
      then some (drop_rx rx.items rx, tx)
      else (if not (is_empty tx.items) then some (rx, drop_tx tx.items tx) else none)

  -- The first argument is fuel; every round drops an item, so the number of items is enough.
  unfoldable pub enforce_loop : ℕ → ℕ → Queue A → Queue B → Queue A × Queue B
  unfolding drop_oldest
  enforce_loop zero budget rx tx = (rx, tx)
  enforce_loop (suc fuel) budget rx tx = elim (ltb budget (add64 rx.bytes tx.bytes)) [
    | false ↦ (rx, tx)
    | true ↦ elim (drop_oldest rx tx) [
      | none ↦ (rx, tx)
      | some (rx', tx') ↦ enforce_loop fuel budget rx' tx'
    ]
  ]

  unfoldable pub enforce_shared_queue_budget : ℕ → Queue A → Queue B → Queue A × Queue B
  unfolding enforce_loop
  enforce_shared_queue_budget budget rx tx =
      enforce_loop (length rx.items + length tx.items) budget rx tx
