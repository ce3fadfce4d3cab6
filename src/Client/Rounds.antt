-- ===== src/Client/Rounds.antt =====
-- The client's windows and estimator stay valid over the rounds of its worker.
use rel4u.Prelude.{
  ℕ, zero, suc, ◌&&◌, List, [], ◌∷◌, if_intro, option_intro, ltb, leb, if◌then◌else◌, length,
  get_or,
}
use rel4u.Packet.PktType
use rel4u.Packet.DeliveryMode
use rel4u.Rtt.{get_rto}
use rel4u.Rtt.Bounds.{on_timeout-IsValid}
use rel4u.Mpmc.Defs.{Item, sub64}
use rel4u.Mpmc.Ops.{try_pop, size}
use rel4u.Window.Send.{zero_slot, push, can_send, get_expired}
use rel4u.Window.Send.Inv.{push-IsSendWindow}
use rel4u.Endpoint.{Platform, World, Arrival, read_clock, ms_to_ns, mark_resent}
use rel4u.Endpoint.Inbox.{is_code}
use rel4u.Endpoint.Link.{mark_resent-IsSendWindow}
use rel4u.Endpoint.Incoming.{AllArrived, AllRounds}
use rel4u.Client.{Client, send_packet}
use rel4u.Client.Worker.{
  Worker, is_connecting, is_connected, seq_or_zero, recv_loop, handshake, drain_item, drain_loop,
  drain, resend_loop, resend, ack_timer, heartbeat_timer, inactivity_timer, timers, round, work,
}
use rel4u.Client.Inv.{
  IsClient, Good, send_packet-IsClient, trigger_reconnect-IsClient, recv_loop-IsClient,
}

module _ (env : Platform) where
  handshake-IsClient : (w : Worker) (now_ns : ℕ) → Good env w → (Good env) (handshake env w now_ns)
  unfolding handshake
  handshake-IsClient w now_ns v =
      let interval = w.client.config.reconnect_interval_ms in
      let retry_ms = if ltb 0 interval && ltb interval 200 then interval else 200 in
      if_intro (Good env)
        (is_connecting w.state && leb (ms_to_ns retry_ms) (sub64 now_ns w.last_connect_req_ns))
        (λ e.
          send_packet-IsClient env PktType.connect_req DeliveryMode.unreliable_unordered 0 [] 0
            (w.client, w.world) v)
        (λ e. v)

  drain_item-IsClient :
      (r : Client × World) (item : Item) → IsClient r.0 → IsClient (drain_item env r item).0
  unfolding drain_item
  drain_item-IsClient (c, u) item v =
      let clock = read_clock env u in
      let p = push c.send_win item.mode item.bytes item.len clock.0 in
      let d : IsClient (record c { send_win = p.1 }) = record {
        send_valid =
            push-IsSendWindow c.send_win item.mode item.bytes item.len clock.0 v.send_valid;
        recv_valid = v.recv_valid;
        rtt_valid = v.rtt_valid;
      } in
      if_intro (λ (t : Client × World). IsClient t.0) (is_code 0 p.0)
        (λ e.
          send_packet-IsClient env PktType.data_pkt item.mode (seq_or_zero p.2) item.bytes item.len
            (record c { send_win = p.1 }, clock.1) d)
        (λ e. d)

  drain_loop-IsClient :
      (fuel : ℕ) (r : Client × World) → IsClient r.0 → IsClient (drain_loop env fuel r).0
  unfolding drain_loop
  drain_loop-IsClient zero r v = v
  drain_loop-IsClient (suc fuel) (c, u) v =
      let Valid = λ (t : Client × World). IsClient t.0 in
      let popped = try_pop c.send_queue in
      let d : Client = record c { send_queue = popped.0 } in
      if_intro Valid (can_send c.send_win)
        (λ e. option_intro Valid popped.1 v (λ item e'.
          drain_loop-IsClient fuel (drain_item env (d, u) item)
            (drain_item-IsClient (d, u) item v)))
        (λ e. v)

  resend_loop-IsClient :
      (now_ns : ℕ) (r : Client × World) (is : List ℕ)
      → IsClient r.0
      → IsClient (resend_loop env now_ns r is).0
  unfolding resend_loop
  resend_loop-IsClient now_ns r [] v = v
  resend_loop-IsClient now_ns (c, u) (i ∷ is) v =
      let w = mark_resent now_ns c.send_win i in
      let s = get_or w.slots i zero_slot in
      resend_loop-IsClient now_ns
        (send_packet env PktType.data_pkt s.delivery_mode s.seq_num s.payload s.payload_len
          (record c { send_win = w }, u))
        is
        (send_packet-IsClient env PktType.data_pkt s.delivery_mode s.seq_num s.payload s.payload_len
          (record c { send_win = w }, u)
          (record {
            send_valid = mark_resent-IsSendWindow now_ns c.send_win i v.send_valid;
            recv_valid = v.recv_valid;
            rtt_valid = v.rtt_valid;
          }))

  resend-IsClient :
      (now_ns : ℕ) (r : Client × World) → IsClient r.0 → IsClient (resend env now_ns r).0
  unfolding resend
  resend-IsClient now_ns (c, u) v =
      let expired = get_expired c.send_win now_ns (get_rto c.rtt) 16 in
      if_intro (λ (t : Client × World). IsClient t.0) (ltb 0 (length expired))
        (λ e. resend_loop-IsClient now_ns _ expired (record {
          send_valid = v.send_valid;
          recv_valid = v.recv_valid;
          rtt_valid = on_timeout-IsValid c.rtt v.rtt_valid;
        }))
        (λ e. v)

  ack_timer-IsClient : (r : Client × World) → IsClient r.0 → IsClient (ack_timer env r).0
  unfolding ack_timer
  ack_timer-IsClient (c, u) v =
      if_intro (λ (t : Client × World). IsClient t.0) c.ack_pending
        (λ e.
          send_packet-IsClient env PktType.ack DeliveryMode.unreliable_unordered 0 [] 0 (c, u) v)
        (λ e. v)

  heartbeat_timer-IsClient :
      (now_ns : ℕ) (r : Client × World) → IsClient r.0 → IsClient (heartbeat_timer env now_ns r).0
  unfolding heartbeat_timer
  heartbeat_timer-IsClient now_ns (c, u) v =
      if_intro (λ (t : Client × World). IsClient t.0)
        (leb (ms_to_ns c.config.heartbeat_interval_ms) (sub64 now_ns c.last_heartbeat_sent_ns))
        (λ e.
          send_packet-IsClient env PktType.heartbeat DeliveryMode.unreliable_unordered 0 [] 0 (c, u)
            v)
        (λ e. v)

  inactivity_timer-IsClient :
      (now_ns : ℕ) (r : Client × World) → IsClient r.0 → IsClient (inactivity_timer env now_ns r).0
  unfolding inactivity_timer
  inactivity_timer-IsClient now_ns (c, u) v =
      let Valid = λ (t : Client × World). IsClient t.0 in
      if_intro Valid
        (leb (ms_to_ns c.config.inactivity_timeout_ms) (sub64 now_ns c.last_activity_ns))
        (λ e.
          if_intro Valid c.config.disable_auto_reconnect (λ f. v)
            (λ f. trigger_reconnect-IsClient env (c, u) v))
        (λ e. v)

  timers-IsClient : (r : Client × World) → IsClient r.0 → IsClient (timers env r).0
  unfolding timers
  timers-IsClient (c, u) v =
      let clock = read_clock env u in
      inactivity_timer-IsClient clock.0 _ (
        heartbeat_timer-IsClient clock.0 _
          (ack_timer-IsClient _ (resend-IsClient clock.0 (c, clock.1) v)))

  round-IsClient :
      (w : Worker) (arrivals : List Arrival)
      → AllArrived arrivals
      → Good env w
      → Good env (round env w arrivals)
  unfolding round drain
  round-IsClient w arrivals b v =
      let clock = read_clock env w.world in
      let start : Worker = record w { world = clock.1; state = w.client.state } in
      let t = recv_loop-IsClient env _ arrivals b (handshake-IsClient start clock.0 v) in
      let x = recv_loop env (handshake env start clock.0) arrivals in
      if_intro (Good env) (is_connected x.state)
        (λ e.
          timers-IsClient _
            (drain_loop-IsClient (suc (size x.client.send_queue)) (x.client, x.world) t))
        (λ e. t)

  -- Over any rounds of the worker thread, whatever bytes arrive in them, whatever the clock and
  -- the socket answer and whatever the queues refuse, a client with valid windows and a valid
  -- estimator keeps them valid: through acknowledgements, data, sending, sending again, resets and
  -- reconnections.
  pub work-IsClient :
      (w : Worker) (rounds : List (List Arrival))
      → AllRounds rounds
      → IsClient w.client
      → IsClient (work env w rounds).client
  unfolding work
  work-IsClient w [] b v = v
  work-IsClient w (arrivals ∷ rounds) b v =
      if_intro (Good env) w.client.running
        (λ e. work-IsClient (round env w arrivals) rounds b.1 (round-IsClient w arrivals b.0 v))
        (λ e. v)
