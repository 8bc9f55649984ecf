-- ===== src/Reliable/Delivery.antt =====
-- Runs of arrivals on one ordered reliable channel: `process_reliable_ingress` of
-- src/router_core.cpp, and what its callers in src/router_api.cpp do with its answer.
use sedsnet_cpp.Common.{
  ℕ, zero, suc, ◌+◌, ◌≤◌, Bool, true, false, Option, none, some, List, [], ◌∷◌, ◌++◌, All, length,
  map, ltb, ◌≡◌, ◌↔◌, refl, ap, sym, ◌∙◌, inl, inr, Bool-cases, arith,
}
use mathlib.Core.Bool.{false≢true}
use sedsnet_cpp.Common.Bits.{has_bit}
use sedsnet_cpp.Common.Int.{ℤ, elem_at}
use sedsnet_cpp.Common.Assoc.{find, put, find-put}
use sedsnet_cpp.Schema.{
  Schema, ReliableHeaderLite, FrameInfoLite, dt_reliable_ack, dt_reliable_packet_request,
  dt_reliable_partial_ack,
}
use sedsnet_cpp.Side.{Side}
use sedsnet_cpp.Queue.Items.{RxItem}
use sedsnet_cpp.Wire.Header.{flag_ack_only, flag_unordered, flag_unsequenced}
use sedsnet_cpp.Reliable.{
  Buffered, ReliableRxState, Owner, Tuning, reliable_key, next_seq_after, rx_at, or_new_rx,
  queue_on, queue_reliable_ack, queue_reliable_packet_request, queue_reliable_partial_ack,
}
use sedsnet_cpp.Reliable.Ingress.{
  accept, hold, as_rx_item, ingress_ordered, ingress_header, process_reliable_ingress,
}
use sedsnet_cpp.Reliable.InOrder.{
  upcoming, advance, IsChannel, Releases, accept-Releases, hold-IsChannel,
}

-- What the caller hands on: the packet itself, if it may go on, then what was released.
abbrev pub delivery : ℤ → Buffered → Owner × Bool → List RxItem
delivery side_id entry (owner, true) = as_rx_item side_id entry ∷ owner.reliable_released_rx
delivery side_id entry (owner, false) = owner.reliable_released_rx

module _ (s : Schema) (t : Tuning) (side_id : ℤ) where
  -- The frames arrive one after the other; the caller empties the released packets each time.
  unfoldable pub receive_all : Owner → List (FrameInfoLite × Buffered) → Owner × List RxItem
  receive_all owner [] = (owner, [])
  receive_all owner ((frame, entry) ∷ rest) =
      let r = process_reliable_ingress s t owner side_id frame entry.pkt entry.wire_bytes in
      let next = receive_all (record (r.0) { reliable_released_rx = [] }) rest in
      (next.0, delivery side_id entry r ++ next.1)

  queue_on-rx :
      (side : Option Side) (control_ty : ℕ) (owner : Owner) (ty seq : ℕ)
      → ((queue_on s side control_ty owner side_id ty seq).reliable_rx ≡ owner.reliable_rx)
        × ((queue_on s side control_ty owner side_id ty seq).reliable_released_rx
            ≡ owner.reliable_released_rx)
  unfolding queue_on
  queue_on-rx none control_ty owner ty seq = (refl, refl)
  queue_on-rx (some side) control_ty owner ty seq = ground arith

hold-expects :
    (t : Tuning) (rx : ReliableRxState) (seq : ℕ) (entry : Buffered)
    → (hold t rx seq entry).expected_seq ≡ rx.expected_seq
unfolding hold
hold-expects t rx seq entry = ground arith

module _ (stream : ℕ → Buffered) (s : Schema) (t : Tuning) (side_id : ℤ) (ty : ℕ) where
  -- A frame of the channel for a numbered packet, with the packet the stream has for the number.
  pub record Arrives (frame : FrameInfoLite) (entry : Buffered) : Type 0 where
    pub hdr : ReliableHeaderLite
    pub header : frame.reliable_header ≡ some hdr
    pub not_ack : has_bit hdr.flags flag_ack_only ≡ false
    pub sequenced : has_bit hdr.flags flag_unsequenced ≡ false
    pub in_order : has_bit hdr.flags flag_unordered ≡ false
    pub typed : frame.envelope.ty ≡ ty
    pub carried : entry ≡ stream hdr.seq

  abbrev key : ℕ
  key = reliable_key side_id ty

  abbrev pub expected : Owner → ℕ
  expected owner = (rx_at owner key).expected_seq

  -- The step hands on the next `count` packets of the stream.
  pub record Delivers (owner : Owner) (entry : Buffered) (r : Owner × Bool) : Type 0 where
    pub count : ℕ
    pub delivered :
        delivery side_id entry r
        ≡ map (as_rx_item side_id) (map stream (upcoming count (expected owner)))
    pub expects : expected (r.0) ≡ advance count (expected owner)
    pub channel : IsChannel stream t.max_pending (rx_at (r.0) key)

  rx_at-put :
      (owner owner' : Owner) (rx : ReliableRxState)
      → owner'.reliable_rx ≡ put owner.reliable_rx key rx
      → rx_at owner' key ≡ rx
  rx_at-put owner owner' rx e =
      ap (λ m. or_new_rx (find m key)) e ∙ ap or_new_rx (find-put owner.reliable_rx key rx)

  -- A packet that is not handed on.
  kept-Delivers :
      (owner owner' : Owner) (entry : Buffered) (rx : ReliableRxState)
      → owner'.reliable_rx ≡ put owner.reliable_rx key rx
      → owner'.reliable_released_rx ≡ []
      → rx.expected_seq ≡ expected owner
      → IsChannel stream t.max_pending rx
      → Delivers owner entry (owner', false)
  kept-Delivers owner owner' entry rx e er ex hc = record {
    count = 0;
    delivered = er;
    expects = ap (λ rx. rx.expected_seq) (rx_at-put owner owner' rx e) ∙ ex;
    channel = rw (rx_at-put owner owner' rx e) hc;
  }

  -- The packet that the channel waits for.
  taken-Delivers :
      (owner owner' : Owner) (entry : Buffered) (r : ReliableRxState × List Buffered)
      → owner'.reliable_rx ≡ put owner.reliable_rx key (r.0)
      → owner'.reliable_released_rx ≡ map (as_rx_item side_id) (r.1)
      → entry ≡ stream (expected owner)
      → Releases stream (next_seq_after (expected owner)) (length (rx_at owner key).buffered) r
      → length (rx_at owner key).buffered ≤ t.max_pending
      → Delivers owner entry (owner', true)
  taken-Delivers owner owner' entry r e er he h hn = record {
    count = suc h.count;
    delivered = rw (er, he, h.released) refl;
    expects = ap (λ rx. rx.expected_seq) (rx_at-put owner owner' (r.0) e) ∙ h.expects;
    channel = rw (rx_at-put owner owner' (r.0) e) (record {
      carries = h.carries;
      bounded = omega (arith, h.bounded, hn);
      waits = h.nothing_next;
    });
  }

  queue_ack-rx :
      (owner : Owner) (seq : ℕ)
      → ((queue_reliable_ack s owner side_id ty seq).reliable_rx ≡ owner.reliable_rx)
        × ((queue_reliable_ack s owner side_id ty seq).reliable_released_rx
            ≡ owner.reliable_released_rx)
  unfolding queue_reliable_ack
  queue_ack-rx owner seq =
      queue_on-rx s t side_id (elem_at owner.sides side_id) dt_reliable_ack owner ty seq

  queue_both-rx :
      (owner : Owner) (seq seq' : ℕ)
      → ((queue_reliable_packet_request s
            (queue_reliable_partial_ack s owner side_id ty seq)
            side_id
            ty
            seq').reliable_rx
          ≡ owner.reliable_rx)
        × ((queue_reliable_packet_request s
              (queue_reliable_partial_ack s owner side_id ty seq)
              side_id
              ty
              seq').reliable_released_rx
            ≡ owner.reliable_released_rx)
  unfolding queue_reliable_packet_request queue_reliable_partial_ack
  queue_both-rx owner seq seq' =
      let partial = queue_reliable_partial_ack s owner side_id ty seq in
      let first =
        queue_on-rx s t side_id (elem_at owner.sides side_id) dt_reliable_partial_ack owner ty
          seq in
      let second =
        queue_on-rx s t side_id (elem_at partial.sides side_id) dt_reliable_packet_request partial
          ty seq' in
      (second.0 ∙ first.0, second.1 ∙ first.1)

  ingress_ordered-Delivers :
      (owner : Owner) (hdr : ReliableHeaderLite) (entry : Buffered)
      → entry ≡ stream hdr.seq
      → owner.reliable_released_rx ≡ []
      → IsChannel stream t.max_pending (rx_at owner key)
      → Delivers owner entry (ingress_ordered s t owner side_id ty hdr entry.pkt entry.wire_bytes)
  unfolding ingress_ordered
  ingress_ordered-Delivers owner hdr entry he hr hc =
      let rx = rx_at owner key in
      elim (Bool-cases (ltb hdr.seq (expected owner))) [
        | inl old ↦
            rw (ingress_ordered, old)
              (kept-Delivers owner _ entry (record rx { last_ack = _ }) ((queue_ack-rx _ _).0)
                ((queue_ack-rx _ _).1 ∙ hr) refl
                (record { carries = hc.carries; bounded = hc.bounded; waits = hc.waits }))
        | inr e ↦ elim (Bool-cases (ltb (expected owner) hdr.seq)) [
          | inl new ↦
              rw (ingress_ordered, e, new)
                (kept-Delivers owner _ entry (hold t rx hdr.seq entry) ((queue_both-rx _ _ _).0)
                  ((queue_both-rx _ _ _).1 ∙ hr) (hold-expects t rx hdr.seq entry)
                  (hold-IsChannel stream t rx hdr.seq entry he (ground arith) hc))
          | inr f ↦
              let same : hdr.seq ≡ expected owner = ground arith in
              rw (ingress_ordered, e, f)
                (taken-Delivers owner _ entry (accept rx hdr.seq) ((queue_ack-rx _ _).0)
                  ((queue_ack-rx _ _).1 ∙ rw hr refl) (he ∙ ap stream same)
                  (rw same (accept-Releases stream rx hc.carries)) hc.bounded)
        ]
      ]

  ingress_ordered-accepts :
      (owner : Owner) (hdr : ReliableHeaderLite) (entry : Buffered)
      → ((ingress_ordered s t owner side_id ty hdr entry.pkt entry.wire_bytes).1 ≡ true)
        ↔ (hdr.seq ≡ expected owner)
  unfolding ingress_ordered
  ingress_ordered-accepts owner hdr entry = elim (Bool-cases (ltb hdr.seq (expected owner))) [
    | inl old ↦ rw (ingress_ordered, old) (λ e. absurd (false≢true e), λ e. ground (arith, old))
    | inr e ↦ elim (Bool-cases (ltb (expected owner) hdr.seq)) [
      | inl new ↦
          rw (ingress_ordered, e, new) (λ e. absurd (false≢true e), λ e. ground (arith, new))
      | inr f ↦ rw (ingress_ordered, e, f) (λ _. ground (arith, e, f), λ _. refl)
    ]
  ]

  -- One frame of the channel hands on the next packets of the stream: none, or those from the
  -- expected one on. The buffer stays within the limit, and the expected number after it is not
  -- in the buffer.
  pub process_reliable_ingress-Delivers :
      (owner : Owner) (frame : FrameInfoLite) (entry : Buffered)
      → Arrives frame entry
      → owner.reliable_released_rx ≡ []
      → IsChannel stream t.max_pending (rx_at owner key)
      → Delivers owner entry
          (process_reliable_ingress s t owner side_id frame entry.pkt entry.wire_bytes)
  unfolding process_reliable_ingress ingress_header
  process_reliable_ingress-Delivers owner frame entry h hr hc =
      rw (h.header, h.typed, h.not_ack, h.sequenced, h.in_order)
        (ingress_ordered-Delivers owner h.hdr entry h.carried hr hc)

  -- A numbered frame of an ordered channel is handed on exactly if it has the number that is
  -- expected.
  pub process_reliable_ingress-accepts :
      (owner : Owner) (frame : FrameInfoLite) (entry : Buffered)
      → (h : Arrives frame entry)
      → ((process_reliable_ingress s t owner side_id frame entry.pkt entry.wire_bytes).1 ≡ true)
        ↔ (h.hdr.seq ≡ expected owner)
  unfolding process_reliable_ingress ingress_header
  process_reliable_ingress-accepts owner frame entry h =
      rw (h.header, h.typed, h.not_ack, h.sequenced, h.in_order)
        (ingress_ordered-accepts owner h.hdr entry)

  abbrev pub AllArrive : List (FrameInfoLite × Buffered) → Type 0
  AllArrive = All (λ f. Arrives (f.0) (f.1))

  -- The packets that a run hands on, and the state it ends in.
  pub record DeliversAll (owner : Owner) (r : Owner × List RxItem) : Type 0 where
    pub count : ℕ
    pub delivered : r.1 ≡ map (as_rx_item side_id) (map stream (upcoming count (expected owner)))
    pub expects : expected (r.0) ≡ advance count (expected owner)
    pub channel : IsChannel stream t.max_pending (rx_at (r.0) key)

  abbrev items : ℕ → ℕ → List RxItem
  items n seq = map (as_rx_item side_id) (map stream (upcoming n seq))

  items-add : (m n seq : ℕ) → items m seq ++ items n (advance m seq) ≡ items (m + n) seq
  items-add zero n seq = let none_first : 0 + n ≡ n = omega arith in rw none_first refl
  items-add (suc m) n seq =
      let one_first : suc m + n ≡ suc (m + n) = omega arith in
      rw one_first
        (ap (λ xs. as_rx_item side_id (stream seq) ∷ xs) (items-add m n (next_seq_after seq)))

  advance-add : (m n seq : ℕ) → advance (m + n) seq ≡ advance n (advance m seq)
  advance-add zero n seq = let none_first : 0 + n ≡ n = omega arith in rw none_first refl
  advance-add (suc m) n seq =
      let one_first : suc m + n ≡ suc (m + n) = omega arith in
      rw one_first (advance-add m n (next_seq_after seq))

  -- Take an ordered channel with no released packet waiting, whose buffer holds packets of the
  -- stream, at most `max_pending` and not the expected one. Whatever numbered frames of it
  -- arrive, in whatever order, some lost and others more than once: the packets handed on are
  -- those of the stream from the expected number on, each once and in order, and the buffer
  -- stays within the limit.
  pub receive_all-DeliversAll :
      (owner : Owner) (frames : List (FrameInfoLite × Buffered))
      → AllArrive frames
      → owner.reliable_released_rx ≡ []
      → IsChannel stream t.max_pending (rx_at owner key)
      → DeliversAll owner (receive_all s t side_id owner frames)
  unfolding receive_all
  receive_all-DeliversAll owner [] h hr hc = record {
    count = 0;
    delivered = refl;
    expects = refl;
    channel = hc;
  }
  receive_all-DeliversAll owner ((frame, entry) ∷ rest) h hr hc =
      let r = process_reliable_ingress s t owner side_id frame entry.pkt entry.wire_bytes in
      let step = process_reliable_ingress-Delivers owner frame entry (h.0) hr hc in
      let next : Owner = record (r.0) { reliable_released_rx = [] } in
      let later = receive_all-DeliversAll next rest (h.1) refl step.channel in
      record {
        count = step.count + later.count;
        delivered =
            ap (λ xs. xs ++ (receive_all s t side_id next rest).1) step.delivered
            ∙ ap (λ xs. items step.count (expected owner) ++ xs) later.delivered
            ∙ ap (λ seq. items step.count (expected owner) ++ items later.count seq) step.expects
            ∙ items-add step.count later.count (expected owner);
        expects =
            later.expects
            ∙ ap (advance later.count) step.expects
            ∙ sym (advance-add step.count later.count (expected owner));
        channel = later.channel;
      }
