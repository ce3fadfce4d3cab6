-- ===== src/Server/Rounds.antt =====
-- The server's sends and timers keep its sessions valid, and so does each round of its worker.
use rel4u.Prelude.{
  ℕ, zero, suc, ◌+◌, ◌≤◌, ◌<◌, ◌≡◌, refl, sym, ap, subst, ◌∙◌, Bool, true, not, List, [], ◌∷◌,
  Option, none, if_intro, option_intro, arith, ltb, leb, if◌then◌else◌, length, get_or,
}
use rel4u.Packet.PktType
use rel4u.Packet.DeliveryMode
use rel4u.Rtt.{get_rto, on_timeout}
use rel4u.Rtt.Bounds.{on_timeout-IsValid}
use rel4u.Mpmc.Defs.{Item, sub64}
use rel4u.Mpmc.Ops.{size, try_pop}
use rel4u.Window.Send.{zero_slot, push, can_send, get_expired}
use rel4u.Window.Send.Inv.{push-IsSendWindow}
use rel4u.Session.{ClientSession, SessionTable, is_active, find_by_id}
use rel4u.Session.Inv.{IsTable}
use rel4u.Endpoint.{Platform, World, Arrival, read_clock, ms_to_ns, count_lost, mark_resent}
use rel4u.Endpoint.Inbox.{is_code}
use rel4u.Endpoint.Link.{mark_resent-IsSendWindow}
use rel4u.Endpoint.Incoming.{AllArrived}
use rel4u.Client.Worker.{is_connected, seq_or_zero}
use rel4u.Server.{Server, session_of, put, send_packet}
use rel4u.Server.Worker.{
  recv_loop, send_item, drain_item, next_item, drain_loop, drain, resend_loop, resend, ack_timer,
  heartbeat_timer, session_timers, timer_loop, timers, round,
}
use rel4u.Server.Inv.{
  AllSessions, IsServer, session_of-IsSession, put-IsServer, free-IsServer, find_by_id-lt,
}
use rel4u.Server.Packets.{Good, send_packet-IsServer, control-IsServer}
use rel4u.Server.Arrivals.{recv_loop-IsServer}

module _ (env : Platform) (n : ℕ) where
  send_item-IsServer :
      (i : ℕ) (item : Item) (r : Server × World)
      → i < n
      → Good env n r
      → Good env n (send_item env i item r)
  unfolding send_item
  send_item-IsServer i item (s, u) l v =
      let clock = read_clock env u in
      let x = session_of s i in
      let y = session_of-IsSession n s v i l in
      let p = push x.send_win item.mode item.bytes item.len clock.0 in
      let t = put s i (record x { send_win = p.1 }) in
      let w =
        put-IsServer n s v i l (record x { send_win = p.1 })
          (record {
            send_valid =
                push-IsSendWindow x.send_win item.mode item.bytes item.len clock.0 y.send_valid;
            recv_valid = y.recv_valid;
            rtt_valid = y.rtt_valid;
          })
          refl refl in
      let sent : Server × World =
        if is_code 0 p.0
        then send_packet env i PktType.data_pkt item.mode (seq_or_zero p.2) item.bytes item.len
            (t, clock.1)
        else (t, clock.1) in
      let z : Good env n sent =
        if_intro (Good env n) (is_code 0 p.0)
          (λ e.
            send_packet-IsServer env n i PktType.data_pkt item.mode (seq_or_zero p.2) item.bytes
              item.len (t, clock.1) l w)
          (λ e. w) in
      record { table_valid = z.table_valid; sessions_valid = z.sessions_valid; room = z.room }

  same_table : (s t : Server) → IsServer n s → t.session_table ≡ s.session_table → IsServer n t
  same_table s t v e = record {
    table_valid = subst IsTable (sym e) v.table_valid;
    sessions_valid = subst (λ (x : SessionTable). AllSessions x.sessions) (sym e) v.sessions_valid;
    room = ap (λ (x : SessionTable). x.max_clients) e ∙ v.room;
  }

  drain_item-IsServer :
      (item : Item) (r : Server × World) → Good env n r → Good env n (drain_item env item r).0
  unfolding drain_item
  drain_item-IsServer item (s, u) v =
      let P = λ (d : (Server × World) × Bool). Good env n d.0 in
      let dropped = same_table s (record s { pending_item = none }) v refl in
      option_intro P (find_by_id s.session_table item.client_id) dropped (λ i e.
        let l : i < n = omega (arith, v.room, find_by_id-lt s.session_table item.client_id i e) in
        if_intro P (is_connected (session_of s i).state)
          (λ f.
            if_intro P (can_send (session_of s i).send_win)
              (λ g. send_item-IsServer i item (s, u) l v) (λ g. v))
          (λ f. dropped))

  next_item-table : (s : Server) → (next_item env s).0.session_table ≡ s.session_table
  unfolding next_item
  next_item-table s =
      let popped = try_pop s.send_queue in
      option_intro (λ (d : Server × Option Item). d.0.session_table ≡ s.session_table)
        s.pending_item refl (λ item e. refl)

  drain_loop-IsServer :
      (fuel : ℕ) (r : Server × World) → Good env n r → Good env n (drain_loop env fuel r)
  unfolding drain_loop
  drain_loop-IsServer zero r v = v
  drain_loop-IsServer (suc fuel) (s, u) v =
      let w = same_table s (next_item env s).0 v (next_item-table s) in
      option_intro (Good env n) (next_item env s).1 w (λ item e.
        let d = drain_item-IsServer item ((next_item env s).0, u) w in
        if_intro (Good env n) (drain_item env item ((next_item env s).0, u)).1
          (λ f. drain_loop-IsServer fuel (drain_item env item ((next_item env s).0, u)).0 d)
          (λ f. d))

  module _ (i now_ns : ℕ) (l : i < n) where
    resend_loop-IsServer :
        (r : Server × World) (ks : List ℕ)
        → Good env n r
        → Good env n (resend_loop env i now_ns r ks)
    unfolding resend_loop
    resend_loop-IsServer r [] v = v
    resend_loop-IsServer (s, u) (k ∷ ks) v =
        let x = session_of s i in
        let y = session_of-IsSession n s v i l in
        let w = mark_resent now_ns x.send_win k in
        let slot = get_or w.slots k zero_slot in
        resend_loop-IsServer
          (send_packet env i PktType.data_pkt slot.delivery_mode slot.seq_num slot.payload
            slot.payload_len (put s i (record x { send_win = w }), u))
          ks
          (send_packet-IsServer env n i PktType.data_pkt slot.delivery_mode slot.seq_num
            slot.payload slot.payload_len (put s i (record x { send_win = w }), u) l
            (put-IsServer n s v i l (record x { send_win = w })
              (record {
                send_valid = mark_resent-IsSendWindow now_ns x.send_win k y.send_valid;
                recv_valid = y.recv_valid;
                rtt_valid = y.rtt_valid;
              })
              refl refl))

    resend-IsServer : (r : Server × World) → Good env n r → Good env n (resend env i now_ns r)
    unfolding resend
    resend-IsServer (s, u) v =
        let x = session_of s i in
        let y = session_of-IsSession n s v i l in
        let expired = get_expired x.send_win now_ns (get_rto x.rtt) 16 in
        let z : ClientSession = record x {
          rtt = on_timeout x.rtt;
          stats = count_lost x.stats (length expired);
        } in
        if_intro (Good env n) (ltb 0 (length expired))
          (λ e.
            resend_loop-IsServer (put s i z, u) expired
              (put-IsServer n s v i l z
                (record {
                  send_valid = y.send_valid;
                  recv_valid = y.recv_valid;
                  rtt_valid = on_timeout-IsValid x.rtt y.rtt_valid;
                })
                refl refl))
          (λ e. v)

    ack_timer-IsServer : (r : Server × World) → Good env n r → Good env n (ack_timer env i r)
    unfolding ack_timer
    ack_timer-IsServer (s, u) v =
        if_intro (Good env n) (session_of s i).ack_pending
          (λ e. control-IsServer env n i PktType.ack (s, u) l v) (λ e. v)

    heartbeat_timer-IsServer :
        (r : Server × World) → Good env n r → Good env n (heartbeat_timer env i now_ns r)
    unfolding heartbeat_timer
    heartbeat_timer-IsServer (s, u) v =
        let sent =
          send_packet env i PktType.heartbeat DeliveryMode.unreliable_unordered 0 [] 0 (s, u) in
        let w = control-IsServer env n i PktType.heartbeat (s, u) l v in
        if_intro (Good env n)
          (leb (ms_to_ns s.config.heartbeat_interval_ms)
            (sub64 now_ns (session_of s i).last_heartbeat_sent_ns))
          (λ e. put-IsServer n sent.0 w i l _ (session_of-IsSession n sent.0 w i l) refl refl)
          (λ e. v)

    session_timers-IsServer :
        (r : Server × World) → Good env n r → Good env n (session_timers env now_ns i r)
    unfolding session_timers
    session_timers-IsServer (s, u) v =
        let x = session_of s i in
        if_intro (Good env n) (not (is_active x)) (λ e. v)
          (λ e.
            if_intro (Good env n)
              (leb (ms_to_ns s.config.inactivity_timeout_ms) (sub64 now_ns x.last_activity_ns))
              (λ f. free-IsServer n s v i l)
              (λ f.
                if_intro (Good env n) (is_connected x.state)
                  (λ g.
                    heartbeat_timer-IsServer _ (ack_timer-IsServer _ (resend-IsServer (s, u) v)))
                  (λ g. v)))

  timer_loop-IsServer :
      (now_ns i m : ℕ) (r : Server × World)
      → i + m ≤ n
      → Good env n r
      → Good env n (timer_loop env now_ns i m r)
  unfolding timer_loop
  timer_loop-IsServer now_ns i zero r l v = v
  timer_loop-IsServer now_ns i (suc m) r l v =
      timer_loop-IsServer now_ns (i + 1) m (session_timers env now_ns i r) (omega arith)
        (session_timers-IsServer i now_ns (omega arith) r v)

  timers-IsServer : (r : Server × World) → Good env n r → Good env n (timers env r)
  unfolding timers
  timers-IsServer (s, u) v =
      let clock = read_clock env u in
      timer_loop-IsServer clock.0 0 s.session_table.max_clients (s, clock.1) (omega (arith, v.room))
        v

  -- A round of the worker thread, whatever bytes arrive in it, whatever the clock and the socket
  -- answer and whatever the queues refuse, keeps a valid server valid, if there is memory for the
  -- windows of new sessions: the table's count is that of the sessions in use, each session has its
  -- index for identifier, and the windows and the estimator of every session are valid.
  pub round-IsServer :
      (r : Server × World) (arrivals : List Arrival)
      → ((t : ℕ) → env.window_memory t ≡ (true, true))
      → AllArrived arrivals
      → IsServer n r.0
      → IsServer n (round env r arrivals).0
  unfolding round drain
  round-IsServer (s, u) arrivals memory b v =
      let t = recv_loop-IsServer env n memory arrivals (s, (read_clock env u).1) b v in
      timers-IsServer _ (
        drain_loop-IsServer
          (suc (suc (size (recv_loop env arrivals (s, (read_clock env u).1)).0.send_queue)))
          (recv_loop env arrivals (s, (read_clock env u).1)) t)
