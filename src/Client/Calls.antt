-- ===== src/Client/Calls.antt =====
-- The calls of an application on a client: connecting, sending, receiving and closing.
use rel4u.Prelude.{
  ℕ, Bool, true, false, not, ◌&&◌, ◌||◌, List, [], ◌∷◌, Option, none, some, ltb, leb, ◌==◌,
  if◌then◌else◌,
}
use rel4u.Prelude.Int.{ℤ, pos, is_zero}
use rel4u.Packet.PktType
use rel4u.Rtt.{get_rto}
use rel4u.Stats.{Stats}
use rel4u.Mpmc.Ops.{try_push, wake_all}
use rel4u.Mpmc.Ops
use rel4u.Mpmc.Wait.{Wake, pop_wait}
use rel4u.Window.Send
use rel4u.Window.Recv
use rel4u.Session.{ConnState, disconnected, connecting, zero_session}
use rel4u.Endpoint.{Platform, World, send_to, control_header, control_bytes}
use rel4u.Endpoint.Config.{
  err_invalid_param, err_socket, err_queue_full, err_timeout, err_not_connected, err_msg_too_large,
  err_server_full, err_system, max_payload, message, Received, received, queue_stats, count_dropped,
}
use rel4u.Client.{Client, fresh_session}
use rel4u.Client.Worker.{is_connecting, is_connected}

abbrev is_disconnected : ConnState → Bool
is_disconnected disconnected = true
is_disconnected _ = false

-- Whether the socket, the wake-up pipe and the thread could be had.
pub record Resources : Type 0 where
  pub socket : Bool
  pub pipe : Bool
  pub thread : Bool

-- What the waiting call sees of the client in one round of its loop.
pub record Seen : Type 0 where
  pub running : Bool
  pub state : ConnState
  pub rejected : Bool
  pub elapsed_ms : ℕ

abbrev refused : Bool → ℤ
refused rejected = if rejected then err_server_full else err_not_connected

-- The wait of `rel4u_client_connect`: its code, or `none` while it waits. Each code but 0 is
-- returned after `disconnect`.
unfoldable pub connect_wait : ℕ → List Seen → Option ℤ
connect_wait timeout_ms [] = none
connect_wait timeout_ms (s ∷ later) =
    let rest = connect_wait timeout_ms later in
    if not s.running
    then some (refused s.rejected)
    else if is_connected s.state
    then some (pos 0)
    else if is_disconnected s.state
    then some (refused s.rejected)
    else if leb timeout_ms s.elapsed_ms
    then some err_timeout
    else rest

module _ (env : Platform) where
  -- The packet that tells the server.
  unfoldable pub send_fin : Client × World → Client × World
  send_fin (c, u) =
      let sent =
        send_to env u c.server_addr
          (control_bytes (control_header PktType.disconnect c.session_id)) in
      (record c { running = false }, sent.1)

  -- `rel4u_client_disconnect`. The worker is taken to be between two rounds.
  unfoldable pub disconnect : Client × World → Client × World
  disconnect (c, u) =
      let told = if c.running then send_fin (c, u) else (c, u) in
      if c.worker_started
      then (
        fresh_session (record told.0 {
          recv_queue = wake_all told.0.recv_queue;
          worker_started = false;
          sock_open = false;
          state = disconnected;
        }),
        told.1,
      )
      else (record c { sock_open = false; state = disconnected }, u)

  -- `rel4u_client_connect` up to its wait: the code that it returns at once, or `none`.
  unfoldable pub connect_start : Resources → Client × World → Option ℤ × Client × World
  connect_start res (c, u) =
      let closed = disconnect (c, u) in
      if is_connected c.state
      then (some (pos 0), c, u)
      else elim (env.resolve c.config.server_address c.config.server_port) [
        | none ↦
            (some err_invalid_param, record closed.0 { server_addr = zero_session.addr }, closed.1)
        | some addr ↦
            let d = record (fresh_session (record closed.0 { server_addr = addr })) {
              rejected = false;
            } in
            if not res.socket
            then (some err_socket, record d { sock_open = false }, closed.1)
            else if not res.pipe
            then (some err_system, record d { sock_open = false }, closed.1)
            else if not res.thread
            then (
              some err_system,
              record d { running = false; state = disconnected; sock_open = false },
              closed.1,
            )
            else (
              none,
              record d {
                sock_open = true;
                running = true;
                state = connecting;
                worker_started = true;
              },
              closed.1,
            )
      ]

  -- `rel4u_client_destroy`, but for the memory that it frees.
  unfoldable pub destroy : Client × World → Client × World
  destroy (c, u) =
      let r = disconnect (c, u) in
      (
        record r.0 {
          send_queue = Ops.destroy r.0.send_queue;
          recv_queue = Ops.destroy r.0.recv_queue;
          send_win = Send.destroy r.0.send_win;
          recv_win = Recv.destroy r.0.recv_win;
        },
        r.1,
      )

  -- `rel4u_client_send`; `mem` tells whether the queue gets memory.
  unfoldable pub send : Bool → Client → ℕ → List ℕ → ℕ → ℤ × Client
  send mem c mode payload len =
      let r = try_push env.node_size mem c.send_queue (message 0 mode payload len) in
      let d = record c { send_queue = r.0 } in
      if ltb (max_payload c.config.mtu) len
      then (err_msg_too_large, c)
      else if not c.running
      then (err_not_connected, c)
      else if not (is_connected c.state)
          && (c.config.disable_auto_reconnect || not (is_connecting c.state))
      then (err_not_connected, c)
      else if r.1
      then (pos 0, d)
      else (err_queue_full, record d { stats = count_dropped c.stats r.0 c.recv_queue })

-- `rel4u_client_recv`, along the wake-ups of its wait.
unfoldable pub recv : Client → ℕ → ℤ → List Wake → Option (Client × Received)
recv c buffer_size timeout_ms wakes =
    if buffer_size == 0
    then some (c, record { code = err_invalid_param; client_id = 0; bytes = [] })
    else elim (received buffer_size (is_zero timeout_ms) (pop_wait c.recv_queue timeout_ms wakes)) [
      | none ↦ none
      | some r ↦ some (record c { recv_queue = r.0 }, r.1)
    ]

-- `rel4u_client_get_state`.
unfoldable pub get_state : Client → ConnState
get_state c = c.state

-- `rel4u_client_get_stats`.
unfoldable pub get_stats : Client → Stats
get_stats c = record (queue_stats c.stats c.send_queue c.recv_queue) {
  current_rto_ms = get_rto c.rtt;
}
