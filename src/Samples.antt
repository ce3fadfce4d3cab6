-- ===== src/Samples.antt =====
-- A platform, a client and a server with two sessions, for the tests of the modules that compose them.
use rel4u.Prelude.{ℕ, true, false, [], ◌∷◌, none, some}
use rel4u.Prelude.Int.{pos}
use rel4u.Packet.{Header, zero_header, magic_number, protocol_version}
use rel4u.Packet.PktType
use rel4u.Net.{Addr}
use rel4u.Stats.{no_stats}
use rel4u.Mpmc.Defs.{fixed, drop_new, Queue, no_item}
use rel4u.Window.Send
use rel4u.Window.Recv
use rel4u.Session.{ClientSession, connected, reject, zero_session, default_rtt}
use rel4u.Endpoint.{Platform, World, Arrival}
use rel4u.Client.{Client}
use rel4u.Client.Worker.{Worker}
use rel4u.Server.{Server}

abbrev pub home : ℕ → Addr
home port = record { ss_family = 2; sin_port = port; sin_addr = 127; sin6_port = 0; sin6_addr = [] }

abbrev pub platform : Platform
platform = record {
  time_now_ns = λ t. t;
  sendto = λ t. pos 24;
  resolve = λ name port. none;
  af_inet = 2;
  af_inet6 = 10;
  node_size = 40;
  has_memory = λ seq. true;
  window_memory = λ t. (true, true);
  src_addr_at = 4096;
}

abbrev pub world : World
world = record { ticks = 5; sent = [] }

-- An empty ring of four places.
abbrev pub queue : Queue
queue = record {
  mode = fixed;
  full_policy = drop_new;
  max_bytes = 0;
  current_bytes = 0;
  dropped_count = 0;
  items = no_item ∷ no_item ∷ no_item ∷ no_item ∷ [];
  capacity = 4;
  head = 1;
  tail = 1;
  nodes = [];
  count = 0;
  wake_generation = 0;
}

abbrev pub client : Client
client = record {
  config = record {
    server_address = some (49 ∷ []);
    server_port = 9000;
    bind_address = none;
    bind_port = 0;
    mtu = 1400;
    send_queue_capacity = 8;
    recv_queue_capacity = 8;
    window_size = 4;
    heartbeat_interval_ms = 1000;
    inactivity_timeout_ms = 5000;
    connect_timeout_ms = 3000;
    disable_auto_reconnect = false;
    reconnect_interval_ms = 1000;
    memory_mode = fixed;
    queue_full_policy = drop_new;
    max_send_memory_bytes = 0;
    max_recv_memory_bytes = 0;
  };
  sock_open = true;
  server_addr = home 9000;
  worker_started = true;
  running = true;
  state = connected;
  session_id = 77;
  rejected = false;
  send_queue = queue;
  recv_queue = queue;
  send_win = Send.fresh 4 1;
  recv_win = Recv.fresh 4 1;
  rtt = default_rtt;
  last_activity_ns = 0;
  last_heartbeat_sent_ns = 0;
  last_ack_sent_ns = 0;
  ack_pending = false;
  stats = no_stats;
}

abbrev pub worker : Worker
worker = record { client = client; world = world; state = connected; last_connect_req_ns = 0 }

abbrev pub session : ℕ → ClientSession
session i = record zero_session {
  client_id = i;
  session_id = 70;
  addr = home i;
  state = connected;
  send_win = Send.fresh 4 1;
  recv_win = Recv.fresh 4 10;
  rtt = default_rtt;
}

abbrev pub server : Server
server = record {
  config = record {
    bind_address = [];
    bind_port = 9000;
    max_clients = 2;
    full_policy = reject;
    mtu = 1400;
    send_queue_capacity = 8;
    recv_queue_capacity = 8;
    window_size = 4;
    heartbeat_interval_ms = 1000;
    inactivity_timeout_ms = 5000;
    memory_mode = fixed;
    queue_full_policy = drop_new;
    max_send_memory_bytes = 0;
    max_recv_memory_bytes = 0;
  };
  sock_open = true;
  running = true;
  send_queue = queue;
  recv_queue = queue;
  session_table = record {
    sessions = session 0 ∷ session 1 ∷ [];
    max_clients = 2;
    active_count = 2;
    full_policy = reject;
  };
  stats = no_stats;
  pending_item = none;
}

-- A heartbeat of session 77.
abbrev pub heartbeat : Header
heartbeat = record zero_header {
  magic = magic_number;
  version = protocol_version;
  packet_type = PktType.heartbeat;
  session_id = 77;
}

abbrev pub heartbeat_from : Addr → Arrival
heartbeat_from src = record {
  src = src;
  bytes =
      0x34 ∷ 0x55 ∷ 1 ∷ 6 ∷ 0 ∷ 0 ∷ 0 ∷ 0 ∷ 0 ∷ 0 ∷ 0 ∷ 77 ∷ 0 ∷ 0 ∷ 0 ∷ 0 ∷ 0 ∷ 0 ∷ 0 ∷ 0 ∷ 0 ∷ 0
      ∷ 0 ∷ 0 ∷ [];
}
