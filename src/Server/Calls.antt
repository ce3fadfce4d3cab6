-- ===== src/Server/Calls.antt =====
-- The calls of an application on a server: `rel4u_server_create` to `rel4u_server_get_client_stats`.
use rel4u.Prelude.{
  ℕ, zero, suc, ◌+◌, Bool, true, false, not, ◌||◌, List, [], Option, none, some, ltb, ◌==◌,
  if◌then◌else◌, ◌>>=◌,
}
use rel4u.Prelude.Int.{ℤ, pos, is_zero}
use rel4u.Packet.PktType
use rel4u.Rtt.{get_rto}
use rel4u.Stats.{Stats, no_stats}
use rel4u.Mpmc.Defs.{Queue}
use rel4u.Mpmc.Ops.{try_push, try_pop, wake_all, size}
use rel4u.Mpmc.Ops
use rel4u.Mpmc.Wait.{Wake, pop_wait}
use rel4u.Session.{SessionTable, table_init, table_destroy, find_by_id, free}
use rel4u.Endpoint.{Platform, World, send_to, control_header, control_bytes}
use rel4u.Endpoint.Config.{
  err_invalid_param, err_socket, err_queue_full, err_not_connected, err_msg_too_large,
  err_client_not_found, err_system, or_default, default_limit, max_payload, message, Received,
  received, queue_stats, count_dropped,
}
use rel4u.Server.{ServerConfig, Server, session_of}

-- The configuration that a server keeps.
unfoldable pub with_defaults : ServerConfig → ServerConfig
with_defaults k = record k {
  max_clients = or_default 1 64 k.max_clients;
  mtu = or_default 1 1400 k.mtu;
  send_queue_capacity = or_default 8 256 k.send_queue_capacity;
  recv_queue_capacity = or_default 8 256 k.recv_queue_capacity;
  window_size = or_default 8 64 k.window_size;
  heartbeat_interval_ms = or_default 1 1000 k.heartbeat_interval_ms;
  inactivity_timeout_ms = or_default 1 5000 k.inactivity_timeout_ms;
  max_send_memory_bytes = default_limit k.memory_mode k.max_send_memory_bytes;
  max_recv_memory_bytes = default_limit k.memory_mode k.max_recv_memory_bytes;
}

-- Whether `calloc` and `malloc` return memory, for the server, its queues, its table and the windows.
pub record Memory : Type 0 where
  pub self : Bool
  pub send_queue : Bool
  pub recv_queue : Bool
  pub table : Bool
  pub windows : ℕ → Bool × Bool

-- `rel4u_server_create` (`none` for the null pointer); `item_size` is `sizeof(rel4u_mpmc_item_t)`.
unfoldable pub create : ℕ → Memory → ServerConfig → Option Server
create item_size mem config =
    let k = with_defaults config in
    if config.bind_port == 0 || not mem.self
    then none
    else (Ops.init item_size mem.send_queue k.memory_mode k.queue_full_policy k.send_queue_capacity
          k.max_send_memory_bytes
        >>= λ send_queue.
            Ops.init item_size mem.recv_queue k.memory_mode k.queue_full_policy
              k.recv_queue_capacity k.max_recv_memory_bytes
            >>= λ recv_queue.
                table_init mem.table mem.windows k.max_clients k.full_policy k.window_size
                >>= λ table. some (record {
                  config = k;
                  sock_open = false;
                  running = false;
                  send_queue = send_queue;
                  recv_queue = recv_queue;
                  session_table = table;
                  stats = no_stats;
                  pending_item = none;
                }))

-- Whether the address could be resolved, and the socket, its binding, the wake-up pipe and the thread
-- be had.
pub record Resources : Type 0 where
  pub address : Bool
  pub socket : Bool
  pub bound : Bool
  pub pipe : Bool
  pub thread : Bool

-- `rel4u_server_start`.
unfoldable pub start : Resources → Server → ℤ × Server
start res s =
    let closed = record s { sock_open = false } in
    if s.running
    then (pos 0, s)
    else if not res.address
    then (err_invalid_param, s)
    else if not res.socket
    then (err_socket, closed)
    else if not res.bound
    then (err_socket, closed)
    else if not res.pipe
    then (err_system, closed)
    else if not res.thread
    then (err_system, record closed { running = false })
    else (pos 0, record s { sock_open = true; running = true })

-- The loop that frees the sessions, `n` of them from index `i` on.
unfoldable pub free_loop : ℕ → ℕ → SessionTable → SessionTable
free_loop i zero t = t
free_loop i (suc n) t = free_loop (i + 1) n (free t i)

-- `while (rel4u_mpmc_try_pop(...)) {}`, with fuel.
unfoldable pub empty_loop : ℕ → Queue → Queue
empty_loop zero q = q
empty_loop (suc fuel) q =
    let popped = try_pop q in
    let rest = empty_loop fuel popped.0 in elim popped.1 [ none ↦ popped.0 | some item ↦ rest ]

unfoldable pub emptied : Queue → Queue
emptied q = empty_loop (suc (size q)) q

-- `rel4u_server_stop`; the worker is taken to have ended.
unfoldable pub stop : Server → Server
stop s =
    if s.running
    then record s {
      running = false;
      sock_open = false;
      session_table = free_loop 0 s.session_table.max_clients s.session_table;
      send_queue = emptied s.send_queue;
      recv_queue = emptied (wake_all s.recv_queue);
      pending_item = none;
    }
    else s

-- `rel4u_server_destroy`, but for the memory that it frees.
unfoldable pub destroy : Server → Server
destroy s =
    let t = stop s in
    record t {
      send_queue = Ops.destroy t.send_queue;
      recv_queue = Ops.destroy t.recv_queue;
      session_table = table_destroy t.session_table;
    }

module _ (env : Platform) where
  -- `rel4u_server_send`; `mem` tells whether the queue gets memory.
  unfoldable pub send : Bool → Server → ℕ → ℕ → List ℕ → ℕ → ℤ × Server
  send mem s client_id mode payload len =
      let r = try_push env.node_size mem s.send_queue (message client_id mode payload len) in
      let t = record s { send_queue = r.0 } in
      if ltb (max_payload s.config.mtu) len
      then (err_msg_too_large, s)
      else if not s.running
      then (err_not_connected, s)
      else if r.1
      then (pos 0, t)
      else (err_queue_full, record t { stats = count_dropped s.stats r.0 s.recv_queue })

  -- `rel4u_server_disconnect_client`.
  unfoldable pub disconnect_client : Server × World → ℕ → ℤ × Server × World
  disconnect_client (s, u) client_id = elim (find_by_id s.session_table client_id) [
    | none ↦ (err_client_not_found, s, u)
    | some i ↦
        let x = session_of s i in
        let sent =
          send_to env u x.addr (control_bytes (control_header PktType.disconnect x.session_id)) in
        (pos 0, record s { session_table = free s.session_table i }, sent.1)
  ]

-- `rel4u_server_recv`, along the wake-ups of its wait.
unfoldable pub recv : Server → ℕ → ℤ → List Wake → Option (Server × Received)
recv s buffer_size timeout_ms wakes =
    if buffer_size == 0
    then some (s, record { code = err_invalid_param; client_id = 0; bytes = [] })
    else elim (received buffer_size (is_zero timeout_ms) (pop_wait s.recv_queue timeout_ms wakes)) [
      | none ↦ none
      | some r ↦ some (record s { recv_queue = r.0 }, r.1)
    ]

-- `rel4u_server_get_stats`.
unfoldable pub get_stats : Server → Stats
get_stats s = record (queue_stats s.stats s.send_queue s.recv_queue) {
  active_connections = s.session_table.active_count;
}

-- `rel4u_server_get_client_stats` (`none` for `REL4U_ERR_CLIENT_NOT_FOUND`).
unfoldable pub get_client_stats : Server → ℕ → Option Stats
get_client_stats s client_id = elim (find_by_id s.session_table client_id) [
  | none ↦ none
  | some i ↦ some (record (session_of s i).stats { current_rto_ms = get_rto (session_of s i).rtt })
]
