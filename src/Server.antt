-- ===== src/Server.antt =====
-- The server of src/core/rel4u_server.c: its state and its packets.
pub mod Calls
pub mod Worker
pub mod Inv
pub mod Packets
pub mod Arrivals
pub mod Rounds
pub mod Known
pub mod Queued
pub mod Messages
mod Tests
use rel4u.Prelude.{ℕ, ◌%◌, ◌^◌, Bool, false, List, [], Option, if◌then◌else◌}
use rel4u.Prelude.Int.{ℤ, pos, pos_part, leb_ℤ, ltb_ℤ}
use rel4u.Net.{Addr}
use rel4u.Stats.{Stats}
use rel4u.Mpmc.Defs.{MemoryMode, FullPolicy, Item, Queue}
use rel4u.Session.{ClientSession, SessionTable, MaxClientsPolicy, session_at, put_session}
use rel4u.Endpoint.{Platform, World, read_clock, send_to, packet_header, packet_bytes, count_sent}

-- `rel4u_server_config_t`. The null pointer for `bind_address` is the empty list.
pub record ServerConfig : Type 0 where
  pub bind_address : List ℕ
  pub bind_port : ℕ
  pub max_clients : ℕ
  pub full_policy : MaxClientsPolicy
  pub mtu : ℕ
  pub send_queue_capacity : ℕ
  pub recv_queue_capacity : ℕ
  pub window_size : ℕ
  pub heartbeat_interval_ms : ℕ
  pub inactivity_timeout_ms : ℕ
  pub memory_mode : MemoryMode
  pub queue_full_policy : FullPolicy
  pub max_send_memory_bytes : ℕ
  pub max_recv_memory_bytes : ℕ

-- `struct rel4u_server`, without the handles of the system. `pending_item` is `none` where
-- `has_pending_item` is false.
pub record Server : Type 0 where
  pub config : ServerConfig
  pub sock_open : Bool
  pub running : Bool
  pub send_queue : Queue
  pub recv_queue : Queue
  pub session_table : SessionTable
  pub stats : Stats
  pub pending_item : Option Item

abbrev pub session_of : Server → ℕ → ClientSession
session_of s i = session_at s.session_table i

abbrev pub put : Server → ℕ → ClientSession → Server
put s i x = record s { session_table = put_session s.session_table i x }

module _ (env : Platform) where
  -- `server_send_packet`, after the send.
  unfoldable pub packet_sent : ℕ → Server → ℤ → World → Server × World
  packet_sent i s sent u =
      let clock = read_clock env u in
      let x = session_of s i in
      if ltb_ℤ (pos 0) sent
      then (
        record (put s i (record x {
          stats = count_sent x.stats (pos_part sent);
          last_ack_sent_ns = clock.0;
          ack_pending = false;
        })) { stats = count_sent s.stats (pos_part sent) },
        clock.1,
      )
      else (s, u)

  -- `server_send_packet`, to the session with index `i`.
  unfoldable pub send_packet : ℕ → ℕ → ℕ → ℕ → List ℕ → ℕ → Server × World → Server × World
  send_packet i type mode seq payload payload_len (s, u) =
      let x = session_of s i in
      let raw =
        packet_bytes (packet_header x.session_id x.recv_win type mode seq payload_len) payload
          payload_len in
      let sent = send_to env u x.addr raw.1 in
      if leb_ℤ raw.0 (pos 0) then (s, u) else packet_sent i s sent.0 sent.1
