-- ===== src/Endpoint/Wire.antt =====
-- What one end sends without data, the other decodes.
use rel4u.Prelude.{ℕ, ◌^◌, ◌<◌, ◌≡◌, refl, [], length, arith}
use rel4u.Prelude.Int.{pos}
use rel4u.Packet.{
  Header, zero_header, header_len, magic_number, protocol_version, header_bytes, encode_header,
  decode_header,
}
use rel4u.Packet.PktType
use rel4u.Packet.RoundTrip.{IsHeader, decode-encode}
use rel4u.Endpoint.{control_header, control_bytes}

length-control_bytes : (h : Header) → length (control_bytes h) ≡ header_len
unfolding control_bytes encode_header header_bytes
length-control_bytes h = refl

pub decode-control_bytes :
    (h : Header)
    → IsHeader h
    → h.magic ≡ magic_number
    → h.version ≡ protocol_version
    → h.payload_len ≡ 0
    → decode_header (control_bytes h) (length (control_bytes h)) zero_header ≡ (pos 0, h)
unfolding control_bytes
decode-control_bytes h v m e p =
    (decode-encode h zero_header [] header_len (length (control_bytes h)) v m e (omega arith)
      (omega (arith, p, length-control_bytes h))).1

-- The RESET that answers a packet without a session.
abbrev pub reset_header : ℕ → ℕ → Header
reset_header session_id seq = record (control_header PktType.reset session_id) { seq_num = seq }

pub decode-reset :
    (session_id seq : ℕ)
    → session_id < 2 ^ 32
    → seq < 2 ^ 32
    → let bytes = control_bytes (reset_header session_id seq) in
      decode_header bytes (length bytes) zero_header ≡ (pos 0, reset_header session_id seq)
unfolding control_header
decode-reset session_id seq h k =
    decode-control_bytes (reset_header session_id seq)
      (record {
        magic_fits = omega arith;
        version_fits = omega arith;
        packet_type_fits = omega arith;
        delivery_mode_fits = omega arith;
        flags_fits = omega arith;
        payload_len_fits = omega arith;
        session_id_fits = h;
        seq_num_fits = k;
        ack_num_fits = omega arith;
        sack_mask_fits = omega arith;
      })
      refl refl refl
