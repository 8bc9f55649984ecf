-- ===== src/Discovery/Repeats.antt =====
-- What a link-local endpoint in an announce does on a side without link-local traffic.
use sedsnet_cpp.Common.{
  ℕ, true, false, not, ◌||◌, List, [], ◌∷◌, Text, text_eq, All, contains, filter, ◌==◌,
  both_branches, ◌≡◌, refl, ap, sym, ◌∙◌, inl, inr, Bool-cases, arith,
}
use mathlib.Core.Bool.{true≢false}
use sedsnet_cpp.Schema.{Schema, PacketData}
use sedsnet_cpp.Schema.LinkLocal.{endpoint_link_local_only}
use sedsnet_cpp.Topology.{TopologyBoardNode, SenderState, list_eq, number_eq}
use sedsnet_cpp.Discovery.{
  refresh_sender_topology_state, update_board, find_board, known_endpoints, allowed_endpoints,
  learn_announce,
}
use sedsnet_cpp.Discovery.Payload.{decode_discovery_endpoints}
use sedsnet_cpp.Discovery.LinkLocal.{
  IsShared, IsClean, All-filter, not-true, normalize_topology_boards-IsClean,
}

module _ (s : Schema) where
  find_board-IsClean :
      (sender : Text) (boards : List TopologyBoardNode)
      → All (IsClean s) boards
      → All (IsShared s) (known_endpoints (find_board sender boards))
  unfolding find_board
  find_board-IsClean sender [] h = tt
  find_board-IsClean sender (board ∷ boards) (h, hs) =
      both_branches (λ found. All (IsShared s) (known_endpoints found))
        (text_eq board.sender_id sender) _ _ h (find_board-IsClean sender boards hs)

  update_board-IsClean :
      (sender : Text) (endpoints : List ℕ) (boards : List TopologyBoardNode)
      → All (IsShared s) endpoints
      → All (IsClean s) boards
      → All
          (IsClean s)
          (update_board (λ board. record board { reachable_endpoints = endpoints }) sender boards)
  unfolding update_board
  update_board-IsClean sender endpoints [] he h = (he, tt)
  update_board-IsClean sender endpoints (board ∷ boards) he (h, hs) =
      both_branches (All (IsClean s)) (text_eq board.sender_id sender) _ _ (he, hs)
        (h, update_board-IsClean sender endpoints boards he hs)

  list_eq-not_shared :
      (xs ys : List ℕ) (ep : ℕ)
      → All (IsShared s) xs
      → contains ys ep ≡ true
      → endpoint_link_local_only s ep ≡ true
      → list_eq number_eq xs ys ≡ false
  unfolding list_eq
  list_eq-not_shared [] [] ep h hc hl = absurd (true≢false (sym hc))
  list_eq-not_shared [] (y ∷ ys) ep h hc hl = refl
  list_eq-not_shared (x ∷ xs) [] ep h hc hl = refl
  list_eq-not_shared (x ∷ xs) (y ∷ ys) ep (h, hs) hc hl = elim (Bool-cases (x == y)) [
    | inr e ↦ rw e refl
    | inl e ↦ elim (Bool-cases (y == ep)) [
      | inl q ↦
          let same : x ≡ ep = ground arith in
          absurd (true≢false (sym hl ∙ sym (ap (endpoint_link_local_only s) same) ∙ h))
      | inr q ↦
          rw e (list_eq-not_shared xs ys ep hs (sym (ap (λ b. b || contains ys ep) q) ∙ hc) hl)
    ]
  ]

  -- On a side without link-local traffic, an announce that names a link-local endpoint tells
  -- something new each time: it is counted as a change although no link-local endpoint stands in
  -- the sender's boards before it or after it.
  pub learn_announce-changes :
      (pkt : PacketData) (state : SenderState) (ep : ℕ)
      → contains (decode_discovery_endpoints s pkt) ep ≡ true
      → endpoint_link_local_only s ep ≡ true
      → All (IsClean s) state.topology_boards
      → let learned = learn_announce s false pkt state in
        (learned.1 ≡ true) × All (IsClean s) learned.0.topology_boards
  unfolding learn_announce refresh_sender_topology_state allowed_endpoints
  learn_announce-changes pkt state ep hc hl h =
      let reachable = decode_discovery_endpoints s pkt in
      (
        ap not (
            list_eq-not_shared (known_endpoints (find_board pkt.sender state.topology_boards))
              reachable ep (find_board-IsClean pkt.sender state.topology_boards h) hc hl),
        normalize_topology_boards-IsClean s _ (
            update_board-IsClean pkt.sender
              (filter (λ e. not (endpoint_link_local_only s e)) reachable) state.topology_boards
              (All-filter (IsShared s) (λ e. not (endpoint_link_local_only s e)) reachable
                (λ e q. not-true (endpoint_link_local_only s e) q))
              h),
      )
