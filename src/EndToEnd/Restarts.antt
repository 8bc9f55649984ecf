-- ===== src/EndToEnd/Restarts.antt =====
-- How the wait for the boards of a packet starts anew when it is handed to the sides.
use sedsnet_cpp.Common.{ℕ, ◌-◌, true, ◌||◌, some, List, contains, ltb, if◌then◌else◌, ◌≡◌}
use sedsnet_cpp.Common.Assoc.{find}
use sedsnet_cpp.Schema.{Schema}
use sedsnet_cpp.EndToEnd.{EndToEndReliableSent}

-- What the first loop of the timeouts makes at the time `now` of a packet that is kept as `sent`
-- and was not sent again yet: within 200 ms of the sending it is left as it is, later it is counted.
abbrev pub counted_once : ℕ → EndToEndReliableSent → EndToEndReliableSent
counted_once now sent =
    if ltb (now - sent.last_send_ms) 200 then sent else record sent { retries = 1; queued = true }

module _ (now id : ℕ) where
  -- What the first loop left is right for the packet under the id: it is kept, and after 200 ms it
  -- is among those to send again.
  abbrev IsCounted : EndToEndReliableSent → List (ℕ × EndToEndReliableSent) × List ℕ → Type 0
  IsCounted sent counted =
      (find (counted.0) id ≡ some (counted_once now sent))
      × ((ltb (now - sent.last_send_ms) 200 || contains (counted.1) id) ≡ true)
