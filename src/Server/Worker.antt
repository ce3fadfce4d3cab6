-- ===== src/Server/Worker.antt =====
-- The worker thread of the server: `server_worker_thread_func`.
use Prim.Native.Nat.{bit_xor}
use rel4u.Prelude.{
  ℕ, zero, suc, ◌+◌, ◌%◌, ◌^◌, Bool, true, false, not, ◌||◌, List, [], ◌∷◌, Option, none, some, ltb,
  leb, ◌==◌, if◌then◌else◌, length, drop, get_or,
}
use rel4u.Net.{Addr}
use rel4u.Packet.{Header, zero_header, header_len, decode_header}
use rel4u.Packet.PktType
use rel4u.Packet.DeliveryMode
use rel4u.Rtt.{get_rto, on_timeout}
use rel4u.Mpmc.Defs.{Item, sub64}
use rel4u.Mpmc.Ops.{try_pop, size}
use rel4u.Window.Send.{zero_slot, can_send, push, on_ack, get_expired}
use rel4u.Session.{
  connected, ClientSession, is_active, find_by_addr, find_by_id, allocate, touch_lru, free,
}
use rel4u.Endpoint.{
  Platform, World, Arrival, read_clock, send_to, ms_to_ns, control_header, control_bytes,
  count_recv, count_lost, mark_resent,
}
use rel4u.Endpoint.Inbox.{is_code, on_data}
use rel4u.Client.Worker.{is_connecting, is_connected, seq_or_zero}
use rel4u.Server.{Server, session_of, put, send_packet}

module _ (env : Platform) where
  abbrev pub send_control : ℕ → ℕ → Server × World → Server × World
  send_control i type = send_packet env i type DeliveryMode.unreliable_unordered 0 [] 0

  -- A packet without a session, to the sender of a datagram.
  unfoldable pub answer : Addr → Header → Server × World → Server × World
  answer dest hdr (s, u) = (s, (send_to env u dest (control_bytes hdr)).1)

  -- `(uint32_t)(now_ns ^ (uintptr_t)&src_addr)`, and 1 for 0.
  unfoldable pub new_session_id : ℕ → ℕ
  new_session_id now_ns =
      let id = bit_xor now_ns env.src_addr_at % 2 ^ 32 in if id == 0 then 1 else id

  -- The answer to a connection request of a client that has a session.
  unfoldable pub welcome : ℕ → ℕ → Server × World → Server × World
  welcome now_ns i (s, u) = send_control i PktType.connect_resp (
    put s i
        (record (session_of s i) { last_activity_ns = now_ns; last_heartbeat_sent_ns = now_ns }),
    u,
  )

  -- A connection request without a session.
  unfoldable pub admit : Addr → ℕ → Server × World → Server × World
  admit src now_ns (s, u) =
      let r = allocate (env.window_memory u.ticks) s.session_table src (new_session_id now_ns) in
      let t = record s { session_table = r.1 } in
      elim r.0 [
        | none ↦ answer src (control_header PktType.reject 0) (t, u)
        | some i ↦ welcome now_ns i (t, u)
      ]

  unfoldable pub on_connect_req : Addr → ℕ → Server × World → Server × World
  on_connect_req src now_ns (s, u) =
      elim (find_by_addr env.af_inet env.af_inet6 s.session_table src) [
        | none ↦ admit src now_ns (s, u)
        | some i ↦ welcome now_ns i (s, u)
      ]

  -- A packet that belongs to no session.
  unfoldable pub on_stray : Addr → Header → Server × World → Server × World
  on_stray src hdr r =
      if hdr.packet_type == PktType.reset
        || (hdr.packet_type == PktType.disconnect || hdr.packet_type == PktType.reject)
      then r
      else answer src
          (record (control_header PktType.reset hdr.session_id) { seq_num = hdr.seq_num }) r

  -- The acknowledgements of a packet of session `i`.
  unfoldable pub take_acks : ℕ → Header → ℕ → Server → Server
  take_acks i hdr now_ns s =
      let x = session_of s i in
      let a =
        on_ack hdr.ack_num hdr.sack_mask now_ns
          (record { win = x.send_win; rtt = x.rtt; stats = x.stats }) in
      put s i (record x { send_win = a.win; rtt = a.rtt; stats = a.stats })

  -- The data of a packet of session `i`.
  unfoldable pub take_data : ℕ → Header → List ℕ → Server → Server
  take_data i hdr payload s =
      let x = session_of s i in
      let d =
        on_data env.node_size env.has_memory x.client_id x.recv_win s.recv_queue hdr payload in
      record (put s i (record x { recv_win = d.0; ack_pending = x.ack_pending || d.2 })) {
        recv_queue = d.1;
      }

  -- `session->state = REL4U_STATE_CONNECTED` for a session that is connecting.
  unfoldable pub promoted : ClientSession → ClientSession
  promoted x = if is_connecting x.state then record x { state = connected } else x

  -- A packet of session `i` that is neither the end of the handshake nor of the connection.
  unfoldable pub on_session_packet : ℕ → Header → List ℕ → ℕ → Server × World → Server × World
  on_session_packet i hdr payload now_ns (s, u) =
      let acked : Server × World = (take_acks i hdr now_ns s, u) in
      let beat =
        if hdr.packet_type == PktType.heartbeat
        then send_control i PktType.heartbeat_ack acked
        else acked in
      if hdr.packet_type == PktType.data_pkt then (take_data i hdr payload beat.0, beat.1) else beat

  -- The session's times, counters and state, which each of its packets changes.
  unfoldable pub touched : ℕ → ℕ → ℕ → Server → Server
  touched i now_ns bytes_read s =
      let t = record s { session_table = touch_lru s.session_table i now_ns } in
      let x = session_of t i in
      put t i (promoted (record x { stats = count_recv x.stats bytes_read }))

  unfoldable pub on_member : ℕ → Header → List ℕ → ℕ → ℕ → Server × World → Server × World
  on_member i hdr payload bytes_read now_ns (s, u) =
      let t = touched i now_ns bytes_read s in
      if hdr.packet_type == PktType.connect_ack
      then (t, u)
      else if hdr.packet_type == PktType.disconnect
      then (record t { session_table = free t.session_table i }, u)
      else on_session_packet i hdr payload now_ns (t, u)

  -- A packet other than a connection request.
  unfoldable pub on_other : Addr → Header → List ℕ → ℕ → ℕ → Server × World → Server × World
  on_other src hdr payload bytes_read now_ns (s, u) =
      elim (find_by_addr env.af_inet env.af_inet6 s.session_table src) [
        | none ↦ on_stray src hdr (s, u)
        | some i ↦
            if (session_of s i).session_id == hdr.session_id
            then on_member i hdr payload bytes_read now_ns (s, u)
            else on_stray src hdr (s, u)
      ]

  -- One datagram.
  unfoldable pub on_arrival : Arrival → Server × World → Server × World
  on_arrival a (s, u) =
      let r = decode_header a.bytes (length a.bytes) zero_header in
      let clock = read_clock env u in
      let t : Server × World =
        (record s { stats = count_recv s.stats (length a.bytes) }, clock.1) in
      if not (is_code 0 r.0)
      then (s, u)
      else if r.1.packet_type == PktType.connect_req
      then on_connect_req a.src clock.0 t
      else on_other a.src r.1 (drop header_len a.bytes) (length a.bytes) clock.0 t

  -- The loop over the datagrams at hand, which ends at one without bytes.
  unfoldable pub recv_loop : List Arrival → Server × World → Server × World
  recv_loop [] r = r
  recv_loop (a ∷ later) r =
      let rest = recv_loop later (on_arrival a r) in if length a.bytes == 0 then r else rest

  -- A message for session `i`, whose window has room.
  unfoldable pub send_item : ℕ → Item → Server × World → Server × World
  send_item i item (s, u) =
      let clock = read_clock env u in
      let x = session_of s i in
      let r = push x.send_win item.mode item.bytes item.len clock.0 in
      let t = put s i (record x { send_win = r.1 }) in
      let sent =
        if is_code 0 r.0
        then send_packet env i PktType.data_pkt item.mode (seq_or_zero r.2) item.bytes item.len
            (t, clock.1)
        else (t, clock.1) in
      (record sent.0 { pending_item = none }, sent.1)

  -- The message at hand: the server, and whether the loop goes on.
  unfoldable pub drain_item : Item → Server × World → (Server × World) × Bool
  drain_item item (s, u) = elim (find_by_id s.session_table item.client_id) [
    | none ↦ ((record s { pending_item = none }, u), true)
    | some i ↦
        if is_connected (session_of s i).state
        then (if can_send (session_of s i).send_win
            then (send_item i item (s, u), true)
            else ((s, u), false))
        else ((record s { pending_item = none }, u), true)
  ]

  -- The message to send next, and the queue without it.
  unfoldable pub next_item : Server → Server × Option Item
  next_item s =
      let popped = try_pop s.send_queue in
      elim s.pending_item [
        | some item ↦ (s, some item)
        | none ↦ (record s { send_queue = popped.0; pending_item = popped.1 }, popped.1)
      ]

  -- The loop that empties the send queue into the windows, with fuel.
  unfoldable pub drain_loop : ℕ → Server × World → Server × World
  drain_loop zero r = r
  drain_loop (suc fuel) (s, u) =
      let n = next_item s in
      elim n.1 [
        | none ↦ (n.0, u)
        | some item ↦
            let d = drain_item item (n.0, u) in
            let rest = drain_loop fuel d.0 in if d.1 then rest else d.0
      ]

  -- A round for each message, with the one at hand, and one more.
  unfoldable pub drain : Server × World → Server × World
  drain (s, u) = drain_loop (suc (suc (size s.send_queue))) (s, u)

  -- The loop over the slots whose packets are sent again.
  unfoldable pub resend_loop : ℕ → ℕ → Server × World → List ℕ → Server × World
  resend_loop i now_ns r [] = r
  resend_loop i now_ns (s, u) (k ∷ ks) =
      let x = session_of s i in
      let w = mark_resent now_ns x.send_win k in
      let slot = get_or w.slots k zero_slot in
      resend_loop i now_ns
        (send_packet env i PktType.data_pkt slot.delivery_mode slot.seq_num slot.payload
          slot.payload_len (put s i (record x { send_win = w }), u))
        ks

  unfoldable pub resend : ℕ → ℕ → Server × World → Server × World
  resend i now_ns (s, u) =
      let x = session_of s i in
      let expired = get_expired x.send_win now_ns (get_rto x.rtt) 16 in
      let t =
        put s i
          (record x { rtt = on_timeout x.rtt; stats = count_lost x.stats (length expired) }) in
      if ltb 0 (length expired) then resend_loop i now_ns (t, u) expired else (s, u)

  unfoldable pub ack_timer : ℕ → Server × World → Server × World
  ack_timer i (s, u) =
      if (session_of s i).ack_pending then send_control i PktType.ack (s, u) else (s, u)

  unfoldable pub heartbeat_timer : ℕ → ℕ → Server × World → Server × World
  heartbeat_timer i now_ns (s, u) =
      let sent = send_control i PktType.heartbeat (s, u) in
      let x = session_of sent.0 i in
      if leb (ms_to_ns s.config.heartbeat_interval_ms)
        (sub64 now_ns (session_of s i).last_heartbeat_sent_ns)
      then (put sent.0 i (record x { last_heartbeat_sent_ns = now_ns }), sent.1)
      else (s, u)

  -- The timers of the session with index `i`.
  unfoldable pub session_timers : ℕ → ℕ → Server × World → Server × World
  session_timers now_ns i (s, u) =
      let x = session_of s i in
      let live = heartbeat_timer i now_ns (ack_timer i (resend i now_ns (s, u))) in
      if not (is_active x)
      then (s, u)
      else if leb (ms_to_ns s.config.inactivity_timeout_ms) (sub64 now_ns x.last_activity_ns)
      then (record s { session_table = free s.session_table i }, u)
      else if is_connected x.state
      then live
      else (s, u)

  -- The loop over `n` sessions from index `i` on.
  unfoldable pub timer_loop : ℕ → ℕ → ℕ → Server × World → Server × World
  timer_loop now_ns i zero r = r
  timer_loop now_ns i (suc n) r = timer_loop now_ns (i + 1) n (session_timers now_ns i r)

  unfoldable pub timers : Server × World → Server × World
  timers (s, u) =
      let clock = read_clock env u in timer_loop clock.0 0 s.session_table.max_clients (s, clock.1)

  -- One round of the worker's loop, with the datagrams that wait at the socket.
  unfoldable pub round : Server × World → List Arrival → Server × World
  round (s, u) arrivals = timers (drain (recv_loop arrivals (s, (read_clock env u).1)))
