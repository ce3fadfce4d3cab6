-- ===== src/Packet/PktType.antt =====
-- `rel4u_pkt_type_t` of src/core/rel4u_packet.h. A header carries any byte, hence the numbers.
use rel4u.Prelude.{ℕ}

abbrev pub connect_req : ℕ
connect_req = 0x01

abbrev pub connect_resp : ℕ
connect_resp = 0x02

abbrev pub connect_ack : ℕ
connect_ack = 0x03

-- `REL4U_PKT_DATA`.
abbrev pub data_pkt : ℕ
data_pkt = 0x04

abbrev pub ack : ℕ
ack = 0x05

abbrev pub heartbeat : ℕ
heartbeat = 0x06

abbrev pub heartbeat_ack : ℕ
heartbeat_ack = 0x07

abbrev pub disconnect : ℕ
disconnect = 0x08

abbrev pub reject : ℕ
reject = 0x09

abbrev pub reset : ℕ
reset = 0x0a
