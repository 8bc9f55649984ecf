-- ===== src/TimeSync/Exchange.antt =====
-- A request and its response between two routers, and the estimate from four time stamps.
use sedsnet_cpp.Common.{
  ℕ, ◌+◌, ◌-◌, ◌/◌, ◌^◌, ◌<◌, ◌≤◌, true, false, ◌||◌, ◌==◌, leb, Option, none, List, [], length,
  ◌≡◌, refl, ap, ◌∙◌, arith,
}
use sedsnet_cpp.Common.Int.{ℤ}
use sedsnet_cpp.Common.Words.{append_le, read_le-append_le}
use sedsnet_cpp.Schema.{Schema, PacketData}
use sedsnet_cpp.Packets.{make_internal_packet}
use sedsnet_cpp.Queue.{enqueue_bounded}
use sedsnet_cpp.Queue.Items.{tx_cost}
use sedsnet_cpp.Reliable.{Owner}
use sedsnet_cpp.TimeSync.{
  TimeSyncRuntime, current_network_ms, word_at, or_zero, response, handle_request, handle_response,
  handle_timesync_packet, dt_time_sync_request, dt_time_sync_announce, estimate_network_time,
}

current_network_ms_lt : (now : ℕ) (ts : TimeSyncRuntime) → current_network_ms now ts < 2 ^ 64
unfolding current_network_ms
current_network_ms_lt now ts = ground arith

response-word :
    (s : Schema) (now : ℕ) (sender : List ℕ) (seq t1 network : ℕ)
    → network < 2 ^ 64
    → word_at 24 (response s now sender seq t1 network).payload ≡ network
unfolding response make_internal_packet append_le word_at or_zero
response-word s now sender seq t1 network h = ap or_zero (read_le-append_le 8 network [] h)

takes_response :
    (s : Schema) (link : Owner) (ts : TimeSyncRuntime) (now : ℕ) (sender : List ℕ)
    (seq t1 network : ℕ) (src_side : Option ℤ)
    → let answer = response s now sender seq t1 network in
      handle_timesync_packet s link ts answer src_side
      ≡ (link, handle_response link.clock ts answer)
unfolding handle_timesync_packet response make_internal_packet append_le
takes_response s link ts now sender seq t1 network src_side = refl

takes_request :
    (s : Schema) (link : Owner) (ts : TimeSyncRuntime) (request : PacketData) (src_side : Option ℤ)
    → (request.ty == dt_time_sync_request) ≡ true
    → 16 ≤ length request.payload
    → handle_timesync_packet s link ts request src_side
      ≡ (handle_request s link ts request src_side, ts)
unfolding handle_timesync_packet
takes_request s link ts request src_side ty size =
    let other : (request.ty == dt_time_sync_announce) ≡ false = ground arith in
    let full : leb 16 (length request.payload) ≡ true = ground arith in
    rw (handle_timesync_packet, other, ty, full) refl

answers_request :
    (s : Schema) (link : Owner) (ts : TimeSyncRuntime) (request : PacketData) (src_side : Option ℤ)
    → ts.enabled ≡ true
    → (ts.role == 1 || ts.role == 2) ≡ true
    → ts.has_network_time ≡ true
    → handle_request s link ts request src_side ≡ record link {
      tx_queue =
          (enqueue_bounded tx_cost link.tx_queue
            (record {
              pkt =
                  response s link.clock link.sender
                    (word_at 0 request.payload)
                    (word_at 8 request.payload)
                    (current_network_ms link.clock ts);
              src_side = none;
              dst_side = src_side;
              deliver_local = false;
            })
            false
            link.max_queue_budget).0;
    }
unfolding handle_request
answers_request s link ts request src_side on role has = rw (handle_request, on, role, has) refl

anchored :
    (clock later : ℕ) (ts : TimeSyncRuntime) (pkt : PacketData) (network : ℕ)
    → word_at 24 pkt.payload ≡ network
    → clock ≤ later
    → later < 2 ^ 64
    → network + (later - clock) < 2 ^ 64
    → current_network_ms later (handle_response clock ts pkt) ≡ network + (later - clock)
unfolding handle_response current_network_ms
anchored clock later ts pkt network e h hl fits = omega (arith, e)

-- The answer to a request, and its handling by a client: the server queues it for the side of the
-- request, and what it makes the client's network time be when its clock reads `later`.
pub record IsAnswered (s : Schema) (server : Owner) (ts : TimeSyncRuntime) (request : PacketData)
    (src_side : Option ℤ) (client : Owner) (held : TimeSyncRuntime) (side : Option ℤ) (later : ℕ)
    : Type 0 where
  pub answer : PacketData
  pub queued : handle_timesync_packet s server ts request src_side ≡ (
    record server {
      tx_queue =
          (enqueue_bounded tx_cost server.tx_queue
            (record { pkt = answer; src_side = none; dst_side = src_side; deliver_local = false })
            false
            server.max_queue_budget).0;
    },
    ts,
  )
  pub agrees :
      current_network_ms later ((handle_timesync_packet s client held answer side).1)
      ≡ current_network_ms server.clock ts + (later - client.clock)

-- An enabled router with role 1 or 2 that has the time answers a request of sixteen bytes or more
-- with a packet for the side of the request. A router that handles this packet has, at each time
-- from then on, the network time that the answering router had when it answered and the
-- milliseconds that have passed since it was handled, as long as the clock and this sum fit a
-- uint64_t and no other call has changed what it keeps.
pub handle_timesync_packet-IsAnswered :
    (s : Schema) (server : Owner) (ts : TimeSyncRuntime) (request : PacketData)
    (src_side : Option ℤ) (client : Owner) (held : TimeSyncRuntime) (side : Option ℤ) (later : ℕ)
    → ts.enabled ≡ true
    → (ts.role == 1 || ts.role == 2) ≡ true
    → ts.has_network_time ≡ true
    → (request.ty == dt_time_sync_request) ≡ true
    → 16 ≤ length request.payload
    → client.clock ≤ later
    → later < 2 ^ 64
    → current_network_ms server.clock ts + (later - client.clock) < 2 ^ 64
    → IsAnswered s server ts request src_side client held side later
handle_timesync_packet-IsAnswered s server ts request src_side client held side later on role has ty
      size after hl fits =
    let network = current_network_ms server.clock ts in
    let lt = current_network_ms_lt server.clock ts in
    let seq = word_at 0 request.payload in
    let t1 = word_at 8 request.payload in
    let answer = response s server.clock server.sender seq t1 network in
    record {
      answer = answer;
      queued =
          rw (takes_request s server ts request src_side ty size)
            (ap (λ link. (link, ts)) (answers_request s server ts request src_side on role has));
      agrees =
          ap (λ r. current_network_ms later (r.1))
            (takes_response s client held server.clock server.sender seq t1 network side)
          ∙ anchored client.clock later held answer network
              (response-word s server.clock server.sender seq t1 network lt) after hl fits;
    }

-- Two clocks of which the network's is `offset` ahead, a request that takes `forth`, an answer
-- that takes `back` after `processing`: the estimate errs by the half of the difference of the
-- two ways, and not at all where they take equally long.
pub estimate_network_time_lem :
    (t1 offset forth processing back : ℕ)
    → t1 + offset + forth + processing + forth + back < 2 ^ 64
    → let estimate =
        estimate_network_time t1
          (t1 + forth + processing + back)
          (t1 + offset + forth)
          (t1 + offset + forth + processing) in
      (estimate.1 ≡ (forth + back) / 2)
      × (estimate.0 + back ≡ t1 + forth + processing + back + offset + (forth + back) / 2)
unfolding estimate_network_time
estimate_network_time_lem t1 offset forth processing back h = (ground arith, ground arith)
