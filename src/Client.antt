-- ===== src/Client.antt =====
-- The client of src/core/rel4u_client.c: its state, its packets and its reconnection.
pub mod Create
pub mod Worker
pub mod Calls
pub mod Inv
pub mod Rounds
pub mod Link
pub mod States
pub mod Dispatch
pub mod Messages
pub mod Start
mod Tests
use rel4u.Prelude.{ℕ, ◌%◌, ◌^◌, Bool, true, false, List, [], Option, if◌then◌else◌}
use rel4u.Prelude.Int.{ℤ, pos, pos_part, leb_ℤ, ltb_ℤ}
use rel4u.Net.{Addr}
use rel4u.Stats.{Stats}
use rel4u.Rtt.{Rtt}
use rel4u.Mpmc.Defs.{MemoryMode, FullPolicy, Queue}
use rel4u.Window.Send.{SendWindow, reclaim_unacked}
use rel4u.Window.Send
use rel4u.Window.Recv.{RecvWindow}
use rel4u.Window.Recv
use rel4u.Session.{ConnState, disconnected, connecting, default_rtt}
use rel4u.Endpoint.{Platform, World, read_clock, send_to, packet_header, packet_bytes, count_sent}

-- `rel4u_client_config_t`. A string is the list of its characters, or `none` for the null pointer.
pub record ClientConfig : Type 0 where
  pub server_address : Option (List ℕ)
  pub server_port : ℕ
  pub bind_address : Option (List ℕ)
  pub bind_port : ℕ
  pub mtu : ℕ
  pub send_queue_capacity : ℕ
  pub recv_queue_capacity : ℕ
  pub window_size : ℕ
  pub heartbeat_interval_ms : ℕ
  pub inactivity_timeout_ms : ℕ
  pub connect_timeout_ms : ℕ
  pub disable_auto_reconnect : Bool
  pub reconnect_interval_ms : ℕ
  pub memory_mode : MemoryMode
  pub queue_full_policy : FullPolicy
  pub max_send_memory_bytes : ℕ
  pub max_recv_memory_bytes : ℕ

-- `struct rel4u_client`, without the handles of the system: `sock_open` tells whether `sock` is one.
pub record Client : Type 0 where
  pub config : ClientConfig
  pub sock_open : Bool
  pub server_addr : Addr
  pub worker_started : Bool
  pub running : Bool
  pub state : ConnState
  pub session_id : ℕ
  pub rejected : Bool
  pub send_queue : Queue
  pub recv_queue : Queue
  pub send_win : SendWindow
  pub recv_win : RecvWindow
  pub rtt : Rtt
  pub last_activity_ns : ℕ
  pub last_heartbeat_sent_ns : ℕ
  pub last_ack_sent_ns : ℕ
  pub ack_pending : Bool
  pub stats : Stats

-- The windows, the estimator and the session as a new connection starts with them.
unfoldable pub fresh_session : Client → Client
fresh_session c = record c {
  send_win = (Send.reset c.send_win 1).1;
  recv_win = (Recv.reset c.recv_win 1).1;
  rtt = default_rtt;
  session_id = 0;
  ack_pending = false;
}

module _ (env : Platform) where
  -- `client_send_packet`, after the send.
  unfoldable pub packet_sent : Client → ℤ → World → Client × World
  packet_sent c sent u =
      let clock = read_clock env u in
      if ltb_ℤ (pos 0) sent
      then (
        record c {
          stats = count_sent c.stats (pos_part sent);
          last_ack_sent_ns = clock.0;
          ack_pending = false;
        },
        clock.1,
      )
      else (c, u)

  -- `client_send_packet`.
  unfoldable pub send_packet : ℕ → ℕ → ℕ → List ℕ → ℕ → Client × World → Client × World
  send_packet type mode seq payload payload_len (c, u) =
      let raw =
        packet_bytes (packet_header c.session_id c.recv_win type mode seq payload_len) payload
          payload_len in
      let sent = send_to env u c.server_addr raw.1 in
      if leb_ℤ raw.0 (pos 0) then (c, u) else packet_sent c sent.0 sent.1

  -- The branch of `client_trigger_reconnect` that reconnects.
  unfoldable pub reconnect : Client × World → Client × World
  reconnect (c, u) =
      let reclaimed = reclaim_unacked env.node_size env.has_memory c.send_win c.send_queue in
      let clock = read_clock env u in
      (
        record (fresh_session (record c { send_queue = reclaimed.0 })) {
          last_activity_ns = clock.0;
          state = connecting;
        },
        clock.1,
      )

  -- `client_trigger_reconnect`.
  unfoldable pub trigger_reconnect : Client × World → Client × World
  trigger_reconnect (c, u) =
      if c.config.disable_auto_reconnect
      then (record c { state = disconnected }, u)
      else reconnect (c, u)
