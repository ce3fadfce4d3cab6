-- ===== src/Client/Worker.antt =====
-- The worker thread of the client: `client_worker_thread_func`.
use rel4u.Prelude.{
  ℕ, zero, suc, Bool, true, false, not, ◌&&◌, ◌||◌, List, [], ◌∷◌, Option, none, some, ltb, leb,
  ◌==◌, if◌then◌else◌, length, drop, get_or,
}
use rel4u.Net.{addr_equal}
use rel4u.Packet.{Header, zero_header, header_len, decode_header}
use rel4u.Packet.PktType
use rel4u.Packet.DeliveryMode
use rel4u.Rtt.{get_rto, on_timeout}
use rel4u.Mpmc.Defs.{Item, sub64}
use rel4u.Mpmc.Ops.{try_pop, size}
use rel4u.Window.Send.{zero_slot, can_send, push, on_ack, get_expired}
use rel4u.Session.{ConnState, disconnected, connecting, connected}
use rel4u.Endpoint.{
  Platform, World, Arrival, read_clock, ms_to_ns, count_recv, count_lost, mark_resent,
}
use rel4u.Endpoint.Inbox.{is_code, on_data}
use rel4u.Client.{Client, send_packet, trigger_reconnect}

abbrev pub is_connecting : ConnState → Bool
is_connecting connecting = true
is_connecting _ = false

abbrev pub is_connected : ConnState → Bool
is_connected connected = true
is_connected _ = false

-- The worker's variables: `state` is its own copy of the client's state.
pub record Worker : Type 0 where
  pub client : Client
  pub world : World
  pub state : ConnState
  pub last_connect_req_ns : ℕ

abbrev pub at_worker : Worker → Client × World → Worker
at_worker w (c, u) = record w { client = c; world = u }

-- The tests that a packet from the server has to pass.
unfoldable pub accepts : ConnState → ℕ → Header → Bool
accepts state session_id hdr =
    if hdr.packet_type == PktType.reject
    then is_connecting state
    else if hdr.packet_type == PktType.connect_resp
    then is_connecting state && not (hdr.session_id == 0)
    else is_connected state && hdr.session_id == session_id

-- `uint32_t seq = 0;`, which a push may overwrite.
abbrev pub seq_or_zero : Option ℕ → ℕ
seq_or_zero none = 0
seq_or_zero (some n) = n

module _ (env : Platform) where
  abbrev pub send_control : ℕ → Client × World → Client × World
  send_control type = send_packet env type DeliveryMode.unreliable_unordered 0 [] 0

  -- A connection response.
  unfoldable pub on_connect_resp : Worker → Header → ℕ → Worker
  on_connect_resp w hdr now_ns =
      let sent =
        send_control PktType.connect_ack
          (record w.client { session_id = hdr.session_id; state = connected }, w.world) in
      record w {
        client = record sent.0 { last_activity_ns = now_ns; last_heartbeat_sent_ns = now_ns };
        world = sent.1;
        state = connected;
      }

  -- The acknowledgements of a packet, the answer to a heartbeat, and the data.
  unfoldable pub on_session_packet : Client × World → Header → List ℕ → ℕ → Client × World
  on_session_packet (c, u) hdr payload now_ns =
      let a =
        on_ack hdr.ack_num hdr.sack_mask now_ns
          (record { win = c.send_win; rtt = c.rtt; stats = c.stats }) in
      let acked = record c { send_win = a.win; rtt = a.rtt; stats = a.stats } in
      let beat =
        if hdr.packet_type == PktType.heartbeat
        then send_control PktType.heartbeat_ack (acked, u)
        else (acked, u) in
      let d =
        on_data env.node_size env.has_memory 0 beat.0.recv_win beat.0.recv_queue hdr payload in
      if hdr.packet_type == PktType.data_pkt
      then (
        record beat.0 { recv_win = d.0; recv_queue = d.1; ack_pending = beat.0.ack_pending || d.2 },
        beat.1,
      )
      else beat

  -- A packet that has passed the tests: the worker, and whether the loop over the datagrams ends.
  unfoldable pub on_accepted : Worker → Header → List ℕ → ℕ → Worker × Bool
  on_accepted w hdr payload bytes_read =
      let clock = read_clock env w.world in
      let c = record w.client {
        last_activity_ns = clock.0;
        stats = count_recv w.client.stats bytes_read;
      } in
      let v = record w { client = c; world = clock.1 } in
      let again = trigger_reconnect env (c, clock.1) in
      if hdr.packet_type == PktType.connect_resp && is_connecting w.state
      then (on_connect_resp v hdr clock.0, false)
      else if hdr.packet_type == PktType.reset
      then (record (at_worker w again) { state = again.0.state }, false)
      else if hdr.packet_type == PktType.reject
      then (
        record v { client = record c { rejected = true; state = disconnected; running = false } },
        true,
      )
      else if hdr.packet_type == PktType.disconnect
      then (record v { client = record c { state = disconnected; running = false } }, true)
      else (at_worker w (on_session_packet (c, clock.1) hdr payload clock.0), false)

  -- One datagram.
  unfoldable pub on_arrival : Worker → Arrival → Worker × Bool
  on_arrival w a =
      let r = decode_header a.bytes (length a.bytes) zero_header in
      if not (addr_equal env.af_inet env.af_inet6 a.src w.client.server_addr)
      then (w, false)
      else if not (is_code 0 r.0)
      then (w, false)
      else if accepts w.state w.client.session_id r.1
      then on_accepted w r.1 (drop header_len a.bytes) (length a.bytes)
      else (w, false)

  -- The loop over the datagrams at hand, which ends at one without bytes.
  unfoldable pub recv_loop : Worker → List Arrival → Worker
  recv_loop w [] = w
  recv_loop w (a ∷ later) =
      let r = on_arrival w a in
      let rest = recv_loop r.0 later in if length a.bytes == 0 then w else if r.1 then r.0 else rest

  -- The handshake at the start of a round.
  unfoldable pub handshake : Worker → ℕ → Worker
  handshake w now_ns =
      let interval = w.client.config.reconnect_interval_ms in
      let retry_ms = if ltb 0 interval && ltb interval 200 then interval else 200 in
      if is_connecting w.state && leb (ms_to_ns retry_ms) (sub64 now_ns w.last_connect_req_ns)
      then record (at_worker w (send_control PktType.connect_req (w.client, w.world))) {
        last_connect_req_ns = now_ns;
      }
      else w

  -- One message from the send queue.
  unfoldable pub drain_item : Client × World → Item → Client × World
  drain_item (c, u) item =
      let clock = read_clock env u in
      let r = push c.send_win item.mode item.bytes item.len clock.0 in
      let d = record c { send_win = r.1 } in
      let seq = seq_or_zero r.2 in
      if is_code 0 r.0
      then send_packet env PktType.data_pkt item.mode seq item.bytes item.len (d, clock.1)
      else (d, clock.1)

  -- The loop that empties the send queue into the window, with fuel.
  unfoldable pub drain_loop : ℕ → Client × World → Client × World
  drain_loop zero r = r
  drain_loop (suc fuel) (c, u) =
      let popped = try_pop c.send_queue in
      let d = record c { send_queue = popped.0 } in
      if can_send c.send_win
      then elim popped.1 [ none ↦ (d, u) | some item ↦ drain_loop fuel (drain_item (d, u) item) ]
      else (c, u)

  unfoldable pub drain : Client × World → Client × World
  drain (c, u) = drain_loop (suc (size c.send_queue)) (c, u)

  -- The loop over the slots whose packets are sent again.
  unfoldable pub resend_loop : ℕ → Client × World → List ℕ → Client × World
  resend_loop now_ns r [] = r
  resend_loop now_ns (c, u) (i ∷ is) =
      let w = mark_resent now_ns c.send_win i in
      let s = get_or w.slots i zero_slot in
      resend_loop now_ns
        (send_packet env PktType.data_pkt s.delivery_mode s.seq_num s.payload s.payload_len
          (record c { send_win = w }, u))
        is

  unfoldable pub resend : ℕ → Client × World → Client × World
  resend now_ns (c, u) =
      let expired = get_expired c.send_win now_ns (get_rto c.rtt) 16 in
      let d = record c { rtt = on_timeout c.rtt; stats = count_lost c.stats (length expired) } in
      if ltb 0 (length expired) then resend_loop now_ns (d, u) expired else (c, u)

  unfoldable pub ack_timer : Client × World → Client × World
  ack_timer (c, u) = if c.ack_pending then send_control PktType.ack (c, u) else (c, u)

  unfoldable pub heartbeat_timer : ℕ → Client × World → Client × World
  heartbeat_timer now_ns (c, u) =
      let sent = send_control PktType.heartbeat (c, u) in
      if leb (ms_to_ns c.config.heartbeat_interval_ms) (sub64 now_ns c.last_heartbeat_sent_ns)
      then (record sent.0 { last_heartbeat_sent_ns = now_ns }, sent.1)
      else (c, u)

  unfoldable pub inactivity_timer : ℕ → Client × World → Client × World
  inactivity_timer now_ns (c, u) =
      if leb (ms_to_ns c.config.inactivity_timeout_ms) (sub64 now_ns c.last_activity_ns)
      then if c.config.disable_auto_reconnect
        then (record c { state = disconnected }, u)
        else trigger_reconnect env (c, u)
      else (c, u)

  -- The timers of a round.
  unfoldable pub timers : Client × World → Client × World
  timers (c, u) =
      let clock = read_clock env u in
      inactivity_timer clock.0 (heartbeat_timer clock.0 (ack_timer (resend clock.0 (c, clock.1))))

  -- One round of the loop, with the datagrams that wait at the socket.
  unfoldable pub round : Worker → List Arrival → Worker
  round w arrivals =
      let clock = read_clock env w.world in
      let start = record w { world = clock.1; state = w.client.state } in
      let v = recv_loop (handshake start clock.0) arrivals in
      let r = timers (drain (v.client, v.world)) in
      if is_connected v.state then at_worker v r else v

  -- The thread, over the rounds that it makes.
  unfoldable pub work : Worker → List (List Arrival) → Worker
  work w [] = w
  work w (arrivals ∷ rounds) =
      let rest = work (round w arrivals) rounds in if w.client.running then rest else w

  -- The thread's start.
  unfoldable pub start_worker : Client → World → Worker
  start_worker c u =
      let a = read_clock env u in
      let b = read_clock env a.1 in
      let d = read_clock env b.1 in
      record {
        client = record c {
          last_activity_ns = a.0;
          last_heartbeat_sent_ns = b.0;
          last_ack_sent_ns = d.0;
        };
        world = d.1;
        state = c.state;
        last_connect_req_ns = 0;
      }
