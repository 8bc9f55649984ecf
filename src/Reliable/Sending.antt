-- ===== src/Reliable/Sending.antt =====
-- What sending does to the numbers of a reliable channel.
use sedsnet_cpp.Common.{ℕ, false, List, [], ◌∷◌, ◌++◌, ◌≡◌}
use sedsnet_cpp.Common.Int.{ℤ, int_eq}
use sedsnet_cpp.Schema.{Schema}
use sedsnet_cpp.Reliable.{ReliableTxState, next_seq_after}
use sedsnet_cpp.Reliable.Egress.{result_ok}
use sedsnet_cpp.Reliable.Pending.{IsTracked}

module _ (serialized_tx : List (ℤ × List ℕ) → ℤ → List ℕ → ℤ) where
  -- What a numbered send leaves of a channel `tx`, and its answer.
  pub record Sends (max : ℕ) (tx after : ReliableTxState) (rc : ℤ) : Type 0 where
    pub tracked : IsTracked max after.sent_order after.sent
    pub counted : after.next_seq ≡ next_seq_after tx.next_seq
    pub kept : rc ≡ result_ok → after.sent_order ≡ tx.sent_order ++ (tx.next_seq ∷ [])
    pub lost :
        int_eq rc result_ok ≡ false → (after.sent_order ≡ tx.sent_order) × (after.sent ≡ tx.sent)
