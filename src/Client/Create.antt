-- ===== src/Client/Create.antt =====
-- `rel4u_client_create`.
use rel4u.Prelude.{
  ℕ, Bool, true, false, not, ◌||◌, List, Option, none, some, ◌==◌, if◌then◌else◌, ◌>>=◌,
}
use rel4u.Stats.{no_stats}
use rel4u.Mpmc.Ops.{try_push, wake_all, size, bytes, dropped_count}
use rel4u.Mpmc.Ops
use rel4u.Window.Send
use rel4u.Window.Recv
use rel4u.Session.{disconnected, default_rtt, zero_session}
use rel4u.Endpoint.Config.{or_default, default_limit}
use rel4u.Client.{ClientConfig, Client}

-- The configuration that a client keeps.
unfoldable pub with_defaults : ClientConfig → ClientConfig
with_defaults k = record k {
  mtu = or_default 1 1400 k.mtu;
  send_queue_capacity = or_default 8 128 k.send_queue_capacity;
  recv_queue_capacity = or_default 8 128 k.recv_queue_capacity;
  window_size = or_default 8 64 k.window_size;
  heartbeat_interval_ms = or_default 1 1000 k.heartbeat_interval_ms;
  inactivity_timeout_ms = or_default 1 5000 k.inactivity_timeout_ms;
  connect_timeout_ms = or_default 1 3000 k.connect_timeout_ms;
  reconnect_interval_ms = or_default 1 1000 k.reconnect_interval_ms;
  max_send_memory_bytes = default_limit k.memory_mode k.max_send_memory_bytes;
  max_recv_memory_bytes = default_limit k.memory_mode k.max_recv_memory_bytes;
}

-- Whether `calloc` and `malloc` return memory, for the client, its queues and its windows.
pub record Memory : Type 0 where
  pub self : Bool
  pub send_queue : Bool
  pub recv_queue : Bool
  pub send_win : Bool
  pub recv_win : Bool

abbrev pub is_missing : Option (List ℕ) → Bool
is_missing none = true
is_missing (some text) = false

-- `rel4u_client_create` (`none` for the null pointer); `item_size` is `sizeof(rel4u_mpmc_item_t)`.
unfoldable pub create : ℕ → Memory → ClientConfig → Option Client
create item_size mem config =
    let k = with_defaults config in
    if is_missing config.server_address || config.server_port == 0 || not mem.self
    then none
    else (Ops.init item_size mem.send_queue k.memory_mode k.queue_full_policy k.send_queue_capacity
          k.max_send_memory_bytes
        >>= λ send_queue.
            Ops.init item_size mem.recv_queue k.memory_mode k.queue_full_policy
              k.recv_queue_capacity k.max_recv_memory_bytes
            >>= λ recv_queue. Send.init mem.send_win k.window_size 1 >>= λ send_win.
                Recv.init mem.recv_win k.window_size 1 >>= λ recv_win. some (record {
                  config = k;
                  sock_open = false;
                  server_addr = zero_session.addr;
                  worker_started = false;
                  running = false;
                  state = disconnected;
                  session_id = 0;
                  rejected = false;
                  send_queue = send_queue;
                  recv_queue = recv_queue;
                  send_win = send_win;
                  recv_win = recv_win;
                  rtt = default_rtt;
                  last_activity_ns = 0;
                  last_heartbeat_sent_ns = 0;
                  last_ack_sent_ns = 0;
                  ack_pending = false;
                  stats = no_stats;
                }))
