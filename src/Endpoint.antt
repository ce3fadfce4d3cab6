-- ===== src/Endpoint.antt =====
-- What the client and the server share: clock, datagrams, and the packets that carry a window's
-- acknowledgements. src/core/rel4u_client.c and src/core/rel4u_server.c.
pub mod Inbox
pub mod Config
pub mod Link
pub mod Incoming
pub mod Wire
pub mod Sending
pub mod Delivery
pub mod Drains
mod Tests
use rel4u.Prelude.{
  ℕ, ◌+◌, ◌*◌, ◌%◌, ◌^◌, Bool, List, [], ◌∷◌, ◌++◌, Option, length, take, get_or, set,
}
use rel4u.Prelude.Int.{ℤ}
use rel4u.Packet.{Header, zero_header, magic_number, protocol_version, header_len, encode_header}
use rel4u.Net.{Addr}
use rel4u.Stats.{Stats}
use rel4u.Mpmc.Defs.{add64}
use rel4u.Window.Index.{max_payload_size}
use rel4u.Window.Send.{SendSlot, SendWindow, zero_slot}
use rel4u.Window.Recv.{RecvWindow, get_ack_info}

-- What the system below the library answers. Each reading of the clock and each result of a send is
-- told by how many went before it.
pub record Platform : Type 0 where
  -- `rel4u_time_now_ns` and `rel4u_time_now_ms`
  pub time_now_ns : ℕ → ℕ
  -- `rel4u_net_sendto`: the bytes sent, or a negative number
  pub sendto : ℕ → ℤ
  -- `rel4u_net_addr_from_string`
  pub resolve : Option (List ℕ) → ℕ → Option Addr
  pub af_inet : ℕ
  pub af_inet6 : ℕ
  -- `sizeof(rel4u_mpmc_node_t)`
  pub node_size : ℕ
  -- whether `malloc` returns memory for the packet of a sequence number
  pub has_memory : ℕ → Bool
  -- whether `calloc` returns memory for the windows of a session, by the clock readings so far
  pub window_memory : ℕ → Bool × Bool
  -- the address of the worker's local variable `src_addr`
  pub src_addr_at : ℕ

pub record Datagram : Type 0 where
  pub dest : Addr
  pub bytes : List ℕ

-- How often the clock was read, and the datagrams sent, newest first.
pub record World : Type 0 where
  pub ticks : ℕ
  pub sent : List Datagram

-- A datagram that `rel4u_net_recvfrom` hands out.
pub record Arrival : Type 0 where
  pub src : Addr
  pub bytes : List ℕ

unfoldable pub read_clock : Platform → World → ℕ × World
read_clock env u = (env.time_now_ns u.ticks, record u { ticks = u.ticks + 1 })

unfoldable pub send_to : Platform → World → Addr → List ℕ → ℤ × World
send_to env u dest bytes =
    (env.sendto (length u.sent), record u { sent = record { dest = dest; bytes = bytes } ∷ u.sent })

-- `(uint64_t)ms * 1000000ULL`.
abbrev pub ms_to_ns : ℕ → ℕ
ms_to_ns ms = ms * 1000000 % 2 ^ 64

-- The header of a packet without acknowledgements, which `memset` cleared before.
unfoldable pub control_header : ℕ → ℕ → Header
control_header type session_id = record zero_header {
  magic = magic_number;
  version = protocol_version;
  packet_type = type;
  session_id = session_id;
}

-- `uint8_t buf[REL4U_HEADER_LEN]`, encoded.
unfoldable pub control_bytes : Header → List ℕ
control_bytes hdr = (encode_header hdr [] header_len).1

-- The header that `client_send_packet` and `server_send_packet` fill in.
unfoldable pub packet_header : ℕ → RecvWindow → ℕ → ℕ → ℕ → ℕ → Header
packet_header session_id win type mode seq payload_len =
    let info = get_ack_info win in
    record (control_header (type % 2 ^ 8) session_id) {
      delivery_mode = mode % 2 ^ 8;
      payload_len = payload_len % 2 ^ 16;
      seq_num = seq;
      ack_num = info.0;
      sack_mask = info.1;
    }

-- `sizeof(raw_buf)` of both.
abbrev pub packet_size : ℕ
packet_size = max_payload_size + header_len

-- What encoding returns, and the bytes that are sent.
unfoldable pub packet_bytes : Header → List ℕ → ℕ → ℤ × List ℕ
packet_bytes hdr payload payload_len =
    let r = encode_header hdr [] packet_size in (r.0, r.1 ++ take payload_len payload)

-- `packets_sent++; bytes_sent += sent;`
unfoldable pub count_sent : Stats → ℕ → Stats
count_sent st n = record st {
  packets_sent = add64 st.packets_sent 1;
  bytes_sent = add64 st.bytes_sent n;
}

-- `packets_recv++; bytes_recv += bytes_read;`
unfoldable pub count_recv : Stats → ℕ → Stats
count_recv st n = record st {
  packets_recv = add64 st.packets_recv 1;
  bytes_recv = add64 st.bytes_recv n;
}

-- `packets_retransmitted += n; packets_lost += n;`
unfoldable pub count_lost : Stats → ℕ → Stats
count_lost st n = record st {
  packets_retransmitted = add64 st.packets_retransmitted n;
  packets_lost = add64 st.packets_lost n;
}

-- `expired[e]->last_sent_time_ns = now_ns; expired[e]->retransmit_count++;`
unfoldable pub mark_resent : ℕ → SendWindow → ℕ → SendWindow
mark_resent now_ns w i =
    let s = get_or w.slots i zero_slot in
    record w {
      slots = set w.slots i (record s {
        last_sent_time_ns = now_ns;
        retransmit_count = (s.retransmit_count + 1) % 2 ^ 8;
      });
    }
