-- ===== src/Tests/Links.antt =====
-- The results on reliable channels, applied.
use sedsnet_cpp.Common.{
  ℕ, true, false, some, List, [], ◌∷◌, codes, filter, ltb, ◌≡◌, ◌↔◌, refl, arith,
}
use sedsnet_cpp.Common.Bits.{has_bit}
use sedsnet_cpp.Common.Int.{ℤ, pos, negsuc}
use sedsnet_cpp.Schema.{FrameInfoLite}
use sedsnet_cpp.Reliable.{Sent, ReliableTxState, Buffered, Owner, Tuning, reliable_key, rx_at}
use sedsnet_cpp.Reliable.Egress.{ack_tx}
use sedsnet_cpp.Reliable.Ingress.{process_reliable_ingress}
use sedsnet_cpp.Reliable.InOrder.{IsChannel}
use sedsnet_cpp.Reliable.Delivery.{
  Arrives, receive_all, DeliversAll, receive_all-DeliversAll, expected,
  process_reliable_ingress-accepts,
}
use sedsnet_cpp.Reliable.Pending.{IsTracked, ack_tx-acknowledges}
use sedsnet_cpp.Tests.{schema, gps}

abbrev limits : Tuning
limits = record { max_pending = 8; retransmit_ms = 200; max_retries = 3 }

abbrev owner : Owner
owner = record {
  sides = [];
  tx_queue = record { items = []; bytes = 0 };
  reliable_released_rx = [];
  reliable_tx = [];
  reliable_rx = [];
  max_queue_budget = 4096;
  sender = codes "NODE";
  clock = 1000;
  side_tx_active = false;
  side_tx_deferred = false;
  calls = [];
}

-- Packet `n` of the stream has `n` for its timestamp.
abbrev stream : ℕ → Buffered
stream n = record { pkt = record gps { timestamp = n }; wire_bytes = n ∷ [] }

abbrev frame : ℕ → FrameInfoLite
frame n = record {
  envelope = record { ty = 100; endpoints = 100 ∷ []; sender = codes "GPS"; timestamp_ms = n };
  reliable_header = some (record { flags = 0; seq = n; ack = 0 });
}

frame-Arrives : (n : ℕ) → Arrives stream schema limits (pos 0) 100 (frame n) (stream n)
unfolding has_bit
frame-Arrives n = record {
  hdr = record { flags = 0; seq = n; ack = 0 };
  header = refl;
  not_ack = refl;
  sequenced = refl;
  in_order = refl;
  typed = refl;
  carried = refl;
}

owner-IsChannel : IsChannel stream limits.max_pending (rx_at owner (reliable_key (pos 0) 100))
owner-IsChannel = record { carries = tt; bounded = omega arith; waits = refl }

-- Packet 3 comes early, packet 1 twice and packet 4 before packet 2.
abbrev arrivals : List (FrameInfoLite × Buffered)
arrivals =
    (frame 3, stream 3)
    ∷ (frame 1, stream 1)
    ∷ (frame 1, stream 1)
    ∷ (frame 4, stream 4)
    ∷ (frame 2, stream 2)
    ∷ []

receive_all-DeliversAll_example :
    DeliversAll stream schema limits
      (pos 0)
      100
      owner
      (receive_all schema limits (pos 0) owner arrivals)
receive_all-DeliversAll_example =
    receive_all-DeliversAll stream schema limits (pos 0) 100 owner arrivals
      (
        frame-Arrives 3,
        (frame-Arrives 1, (frame-Arrives 1, (frame-Arrives 4, (frame-Arrives 2, tt)))),
      )
      refl owner-IsChannel

process_reliable_ingress-accepts_example :
    ((process_reliable_ingress schema limits owner (pos 0) (frame 1) (stream 1).pkt (1 ∷ [])).1
      ≡ true)
    ↔ ((frame-Arrives 1).hdr.seq ≡ expected stream schema limits (pos 0) 100 owner)
process_reliable_ingress-accepts_example =
    process_reliable_ingress-accepts stream schema limits (pos 0) 100 owner (frame 1) (stream 1)
      (frame-Arrives 1)

abbrev sent : Sent
sent = record { bytes = []; last_send_ms = 0; retries = 0; queued = false; partial_acked = false }

abbrev waiting : ReliableTxState
waiting = record {
  next_seq = 4;
  sent_order = 1 ∷ 2 ∷ 3 ∷ [];
  sent = (1, sent) ∷ (2, sent) ∷ (3, sent) ∷ [];
}

waiting-IsTracked : IsTracked 8 waiting.sent_order waiting.sent
waiting-IsTracked = record {
  agree = refl;
  distinct = (refl, (refl, (refl, tt)));
  bounded = omega arith;
}

ack_tx-acknowledges_example :
    ((ack_tx false 2 waiting).sent_order ≡ filter (λ seq. ltb 2 seq) waiting.sent_order)
    × IsTracked 8 (ack_tx false 2 waiting).sent_order (ack_tx false 2 waiting).sent
ack_tx-acknowledges_example =
    ack_tx-acknowledges 8 2 waiting waiting-IsTracked
      ((omega arith, (omega arith, tt)), ((omega arith, tt), (tt, tt)))

-- A link whose callback always answers `SEDS_IO`.
abbrev broken : List (ℤ × List ℕ) → ℤ → List ℕ → ℤ
broken calls side_id bytes = negsuc 13
