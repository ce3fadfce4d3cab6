-- ===== src/Packet/Tests.antt =====
-- Runs of the header codec, and its theorems at concrete headers.
use rel4u.Prelude.{◌≡◌, ◌≢◌, ◌↔◌, ◌≤◌, ◌<◌, ◌+◌, refl, ℕ, List, [], ◌∷◌, arith, ltb, if◌then◌else◌}
use rel4u.Prelude.Int.{pos, negsuc}
use rel4u.Packet.{
  Header, magic_number, protocol_version, header_len, header_bytes, encode_header, read_header,
  decode_header, zero_header,
}
use rel4u.Packet.PktType
use rel4u.Packet.DeliveryMode
use rel4u.Packet.RoundTrip.{IsHeader, decode-encode, decode_errors}

-- A data packet with two bytes of payload.
abbrev hello : Header
hello = record {
  magic = magic_number;
  version = protocol_version;
  packet_type = PktType.data_pkt;
  delivery_mode = DeliveryMode.reliable_ordered;
  flags = 0;
  payload_len = 2;
  session_id = 0xdead_beef;
  seq_num = 7;
  ack_num = 0x0102_0304;
  sack_mask = 0x8000_0001;
}

abbrev wire : List ℕ
wire =
    0x34 ∷ 0x55 ∷ 1 ∷ 4 ∷ 3 ∷ 0 ∷ 0 ∷ 2 ∷ 0xde ∷ 0xad ∷ 0xbe ∷ 0xef ∷ 0 ∷ 0 ∷ 0 ∷ 7 ∷ 1 ∷ 2 ∷ 3 ∷ 4
    ∷ 0x80 ∷ 0 ∷ 0 ∷ 1 ∷ 104 ∷ 105 ∷ []

encoded : encode_header hello wire 26 ≡ (pos 24, wire)
unfolding encode_header header_bytes
encoded = refl

hello-IsHeader : IsHeader hello
hello-IsHeader = omega arith

decode-encode_example :
    ((encode_header hello wire 26).0 ≡ pos header_len)
    × (decode_header (encode_header hello wire 26).1 26 zero_header ≡ (pos 0, hello))
decode-encode_example =
    decode-encode hello zero_header wire 26 26 hello-IsHeader refl refl (omega arith) (omega arith)

decode_errors_example :
    let r = decode_header wire 25 zero_header in
    let h = read_header wire in
    ((r.0 ≡ negsuc 0) ↔ (25 < header_len))
    × ((r.0 ≡ negsuc 1) ↔ ((header_len ≤ 25) × (h.magic ≢ magic_number)))
    × ((r.0 ≡ negsuc 2)
        ↔ ((header_len ≤ 25) × (h.magic ≡ magic_number) × (h.version ≢ protocol_version)))
    × ((r.0 ≡ negsuc 3) ↔ (
        (header_len ≤ 25)
        × (h.magic ≡ magic_number)
        × (h.version ≡ protocol_version)
        × (25 < header_len + h.payload_len)))
    × (r.1 ≡ (if ltb 25 header_len then zero_header else h))
decode_errors_example = decode_errors wire 25 zero_header
