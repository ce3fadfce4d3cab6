-- ===== src/Endpoint/Sending.antt =====
-- The datagrams that `client_send_packet` and `server_send_packet` build, as the other end reads them.
use rel4u.Prelude.{
  ℕ, ◌^◌, ◌≤◌, ◌<◌, ◌≡◌, refl, List, ◌++◌, length, length-take, take, drop, replicate, arith,
}
use rel4u.Prelude.Int.{pos}
use rel4u.Packet.{
  Header, zero_header, header_len, magic_number, protocol_version, header_bytes, encode_header,
  decode_header,
}
use rel4u.Packet.RoundTrip.{IsHeader, decode-encode}
use rel4u.Window.Recv.{RecvWindow}
use rel4u.Window.Recv.AckInfo.{get_ack_info-lt}
use rel4u.Endpoint.{control_header, packet_header, packet_bytes, packet_size}

-- A header in front of a payload: both come out again.
pub packet_bytes_lem :
    (h : Header) (payload : List ℕ) (len : ℕ)
    → IsHeader h
    → h.magic ≡ magic_number
    → h.version ≡ protocol_version
    → h.payload_len ≡ len
    → len ≤ length payload
    → let raw = packet_bytes h payload len in
      (raw.0 ≡ pos header_len)
      × (decode_header raw.1 (length raw.1) zero_header ≡ (pos 0, h))
      × (drop header_len raw.1 ≡ take len payload)
unfolding packet_bytes encode_header header_bytes
packet_bytes_lem h payload len v m e p l =
    let out = replicate header_len 0 ++ take len payload in
    let d =
      decode-encode h zero_header out packet_size (length (packet_bytes h payload len).1) v m e
        (omega arith) (omega (arith, p, length-take len payload)) in
    (refl, d.1, refl)

-- The header of a packet with acknowledgements fits its fields.
pub packet_header-IsHeader :
    (session_id : ℕ) (win : RecvWindow) (type mode seq len : ℕ)
    → session_id < 2 ^ 32
    → seq < 2 ^ 32
    → IsHeader (packet_header session_id win type mode seq len)
unfolding packet_header control_header
packet_header-IsHeader session_id win type mode seq len h k = record {
  magic_fits = omega arith;
  version_fits = omega arith;
  packet_type_fits = omega arith;
  delivery_mode_fits = omega arith;
  flags_fits = omega arith;
  payload_len_fits = omega arith;
  session_id_fits = h;
  seq_num_fits = k;
  ack_num_fits = (get_ack_info-lt win).0;
  sack_mask_fits = (get_ack_info-lt win).1;
}

-- What one end sends with a payload that it has, of a length that fits its field, the other decodes:
-- the header that the sender filled in, its acknowledgements among it, and behind it the payload.
pub sent-decoded :
    (session_id : ℕ) (win : RecvWindow) (type mode seq : ℕ) (payload : List ℕ) (len : ℕ)
    → session_id < 2 ^ 32
    → seq < 2 ^ 32
    → len < 2 ^ 16
    → len ≤ length payload
    → let hdr = packet_header session_id win type mode seq len in
      let raw = packet_bytes hdr payload len in
      (raw.0 ≡ pos header_len)
      × (decode_header raw.1 (length raw.1) zero_header ≡ (pos 0, hdr))
      × (drop header_len raw.1 ≡ take len payload)
unfolding packet_header control_header
sent-decoded session_id win type mode seq payload len h k f l =
    packet_bytes_lem (packet_header session_id win type mode seq len) payload len
      (packet_header-IsHeader session_id win type mode seq len h k) refl refl (omega arith) l
