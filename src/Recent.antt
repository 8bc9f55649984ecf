-- ===== src/Recent.antt =====
-- `push_recent` of src/router_core.cpp: the ids of the packets seen last, which the router and the
-- relay drop duplicates by. The deque and the set stand here as two lists.
pub mod Window
pub mod Held
use sedsnet_cpp.Common.{
  ℕ, Bool, not, List, [], ◌∷◌, ◌++◌, length, contains, filter, leb, ◌==◌, if◌then◌else◌,
}

pub record Recent : Type 0 where
  pub recent_ids : List ℕ
  pub recent_set : List ℕ

-- The deque's front is read only where it has one: the runtime configuration refuses a limit of 0.
drop_front_id : Recent → Recent
drop_front_id recent = elim recent.recent_ids [
  | [] ↦ recent
  | id ∷ ids ↦ record {
    recent_ids = ids;
    recent_set = filter (λ k. not (k == id)) recent.recent_set;
  }
]

append_id : Recent → ℕ → Recent
append_id recent id = record {
  recent_ids = recent.recent_ids ++ (id ∷ []);
  recent_set = id ∷ recent.recent_set;
}

unfoldable pub push_recent : ℕ → Recent → ℕ → Recent
unfolding drop_front_id append_id
push_recent max_recent_rx_ids recent id =
    if contains recent.recent_set id
    then recent
    else append_id
        (if leb max_recent_rx_ids (length recent.recent_ids) then drop_front_id recent else recent)
        id
