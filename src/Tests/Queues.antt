-- ===== src/Tests/Queues.antt =====
-- The results on queues, applied.
use sedsnet_cpp.Common.{ℕ, true, false, [], ◌∷◌, ◌≡◌, refl, arith, contains}
use sedsnet_cpp.Queue.{Queue, enqueue_bounded, enforce_shared_queue_budget}
use sedsnet_cpp.Queue.Bounded.{Enqueues, enqueue_bounded-Enqueues}
use sedsnet_cpp.Queue.Shared.{Shares, enforce_shared_queue_budget-Shares}
use sedsnet_cpp.Recent.{Recent, push_recent}
use sedsnet_cpp.Recent.Window.{IsWindow}
use sedsnet_cpp.Recent.Held.{push_all, push_all-contains}

-- Items that cost their own value.
abbrev own_cost : ℕ → ℕ
own_cost n = n

abbrev three : Queue ℕ
three = record { items = 30 ∷ 20 ∷ 10 ∷ []; bytes = 60 }

enqueue_bounded-Enqueues_example :
    ((enqueue_bounded own_cost three 25 false 64).1 ≡ true)
    × Enqueues own_cost three 25 false 64 ((enqueue_bounded own_cost three 25 false 64).0)
enqueue_bounded-Enqueues_example =
    enqueue_bounded-Enqueues own_cost three 25 false 64 (refl, omega arith) (omega arith)
      (omega arith)

enforce_shared_queue_budget-Shares_example :
    Shares own_cost own_cost 50 three three
      (enforce_shared_queue_budget own_cost own_cost 50 three three)
enforce_shared_queue_budget-Shares_example =
    enforce_shared_queue_budget-Shares own_cost own_cost 50 three three (refl, refl, omega arith)

abbrev window : Recent
window = record { recent_ids = 4 ∷ 9 ∷ []; recent_set = 9 ∷ 4 ∷ [] }

window-IsWindow : IsWindow 2 window
window-IsWindow = record {
  same = λ id. ground arith;
  distinct = (refl, (refl, tt));
  bounded = omega arith;
}

push_all-contains_example :
    IsWindow 2 (push_all 2 (push_recent 2 window 6) (5 ∷ []))
    × (contains (push_all 2 (push_recent 2 window 6) (5 ∷ [])).recent_set 6 ≡ true)
push_all-contains_example = push_all-contains 2 window 6 (5 ∷ []) window-IsWindow refl (omega arith)
