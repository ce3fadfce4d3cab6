-- ===== src/Handshake.antt =====
-- The handshake of a client and a server, composed: the connection request and the acknowledgement of
-- the response as src/core/rel4u_server.c takes them, the response as src/core/rel4u_client.c does.
pub mod Table
pub mod Replies
pub mod Admission
pub mod Joined
mod Tests
use rel4u.Prelude.{ℕ, List, []}
use rel4u.Packet.{Header}
use rel4u.Packet.DeliveryMode
use rel4u.Window.Recv.{RecvWindow}
use rel4u.Endpoint.{packet_header, packet_bytes}

-- The header and the bytes of a packet without data, as both ends build it.
abbrev pub control : ℕ → RecvWindow → ℕ → Header
control session_id win type =
    packet_header session_id win type DeliveryMode.unreliable_unordered 0 0

abbrev pub control_datagram : ℕ → RecvWindow → ℕ → List ℕ
control_datagram session_id win type = (packet_bytes (control session_id win type) [] 0).1
