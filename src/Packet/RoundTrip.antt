-- ===== src/Packet/RoundTrip.antt =====
-- Encoding and decoding of the header, one after the other, and the errors of decoding.
use rel4u.Prelude.{
  ℕ, ◌+◌, ◌*◌, ◌^◌, ◌≤◌, ◌<◌, ◌≡◌, List, [], ◌∷◌, length, drop, ltb, if◌then◌else◌, ◌↔◌, ◌≢◌, arith,
}
use rel4u.Prelude.Int.{pos, negsuc}
use rel4u.Packet.{
  Header, byte, header_bytes, encode_header, read_header, decode_header, magic_number,
  protocol_version, header_len,
}

-- Each field fits the width of its C type.
pub record IsHeader (h : Header) : Type 0 where
  pub magic_fits : h.magic < 2 ^ 16
  pub version_fits : h.version < 2 ^ 8
  pub packet_type_fits : h.packet_type < 2 ^ 8
  pub delivery_mode_fits : h.delivery_mode < 2 ^ 8
  pub flags_fits : h.flags < 2 ^ 8
  pub payload_len_fits : h.payload_len < 2 ^ 16
  pub session_id_fits : h.session_id < 2 ^ 32
  pub seq_num_fits : h.seq_num < 2 ^ 32
  pub ack_num_fits : h.ack_num < 2 ^ 32
  pub sack_mask_fits : h.sack_mask < 2 ^ 32

-- The bytes of a number, put together again.
word16 : (n : ℕ) → n < 2 ^ 16 → byte 1 n * 2 ^ 8 + byte 0 n ≡ n
word16 n h = omega arith

word32 :
    (n : ℕ)
    → n < 2 ^ 32
    → (byte 3 n * 2 ^ 8 + byte 2 n) * 2 ^ 16 + (byte 1 n * 2 ^ 8 + byte 0 n) ≡ n
word32 n h = omega arith

-- Reading back the bytes of a header, whatever follows them.
read-header_bytes :
    (h : Header) (rest : List ℕ) → IsHeader h → read_header (header_bytes h rest) ≡ h
unfolding read_header header_bytes
read-header_bytes h rest v = λ i. record {
  magic = word16 h.magic v.magic_fits i;
  version = h.version;
  packet_type = h.packet_type;
  delivery_mode = h.delivery_mode;
  flags = h.flags;
  payload_len = word16 h.payload_len v.payload_len_fits i;
  session_id = word32 h.session_id v.session_id_fits i;
  seq_num = word32 h.seq_num v.seq_num_fits i;
  ack_num = word32 h.ack_num v.ack_num_fits i;
  sack_mask = word32 h.sack_mask v.sack_mask_fits i;
}

-- A buffer of bytes.
abbrev pub AllBytes : List ℕ → Type 0
AllBytes [] = Unit {0}
AllBytes (b ∷ bs) = (b < 2 ^ 8) × AllBytes bs

word16_bytes :
    (a b : ℕ) → a < 2 ^ 8 → b < 2 ^ 8 → (byte 1 (a * 2 ^ 8 + b) ≡ a) × (byte 0 (a * 2 ^ 8 + b) ≡ b)
word16_bytes a b h k = omega arith

word32_bytes :
    (a b c d : ℕ)
    → a < 2 ^ 8
    → b < 2 ^ 8
    → c < 2 ^ 8
    → d < 2 ^ 8
    → let n = (a * 2 ^ 8 + b) * 2 ^ 16 + (c * 2 ^ 8 + d) in
      (byte 3 n ≡ a) × (byte 2 n ≡ b) × (byte 1 n ≡ c) × (byte 0 n ≡ d)
word32_bytes a b c d ha hb hc hd = omega arith

-- Writing back the fields that were read from a buffer of 24 bytes or more restores it.
pub header_bytes-read :
    (buf : List ℕ)
    → AllBytes buf
    → 24 ≤ length buf
    → header_bytes (read_header buf) (drop 24 buf) ≡ buf
unfolding read_header header_bytes
header_bytes-read
      (b0 ∷ b1 ∷ b2 ∷ b3 ∷ b4 ∷ b5 ∷ b6 ∷ b7 ∷ b8 ∷ b9 ∷ b10 ∷ b11 ∷ b12 ∷ b13 ∷ b14 ∷ b15 ∷ b16
        ∷ b17 ∷ b18 ∷ b19 ∷ b20 ∷ b21 ∷ b22 ∷ b23 ∷ rest)
      v h =
    let w0 = word16_bytes b0 b1 v.0 v.1.0 in
    let w6 = word16_bytes b6 b7 v.1.1.1.1.1.1.0 v.1.1.1.1.1.1.1.0 in
    let w8 =
      word32_bytes b8 b9 b10 b11 v.1.1.1.1.1.1.1.1.0 v.1.1.1.1.1.1.1.1.1.0 v.1.1.1.1.1.1.1.1.1.1.0
        v.1.1.1.1.1.1.1.1.1.1.1.0 in
    let w12 =
      word32_bytes b12 b13 b14 b15 v.1.1.1.1.1.1.1.1.1.1.1.1.0 v.1.1.1.1.1.1.1.1.1.1.1.1.1.0
        v.1.1.1.1.1.1.1.1.1.1.1.1.1.1.0 v.1.1.1.1.1.1.1.1.1.1.1.1.1.1.1.0 in
    let w16 =
      word32_bytes b16 b17 b18 b19 v.1.1.1.1.1.1.1.1.1.1.1.1.1.1.1.1.0
        v.1.1.1.1.1.1.1.1.1.1.1.1.1.1.1.1.1.0 v.1.1.1.1.1.1.1.1.1.1.1.1.1.1.1.1.1.1.0
        v.1.1.1.1.1.1.1.1.1.1.1.1.1.1.1.1.1.1.1.0 in
    let w20 =
      word32_bytes b20 b21 b22 b23 v.1.1.1.1.1.1.1.1.1.1.1.1.1.1.1.1.1.1.1.1.0
        v.1.1.1.1.1.1.1.1.1.1.1.1.1.1.1.1.1.1.1.1.1.0
        v.1.1.1.1.1.1.1.1.1.1.1.1.1.1.1.1.1.1.1.1.1.1.0
        v.1.1.1.1.1.1.1.1.1.1.1.1.1.1.1.1.1.1.1.1.1.1.1.0 in
    λ i.
      w0.0 i
      ∷ w0.1 i
      ∷ b2
      ∷ b3
      ∷ b4
      ∷ b5
      ∷ w6.0 i
      ∷ w6.1 i
      ∷ w8.0 i
      ∷ w8.1 i
      ∷ w8.2 i
      ∷ w8.3 i
      ∷ w12.0 i
      ∷ w12.1 i
      ∷ w12.2 i
      ∷ w12.3 i
      ∷ w16.0 i
      ∷ w16.1 i
      ∷ w16.2 i
      ∷ w16.3 i
      ∷ w20.0 i
      ∷ w20.1 i
      ∷ w20.2 i
      ∷ w20.3 i
      ∷ rest
header_bytes-read _ v h = absurd (omega arith)

-- A header whose fields fit their widths, with the protocol's magic and version, encoded into a
-- buffer of 24 bytes or more: the call returns 24, and decoding the buffer as a datagram long enough
-- for the declared payload accepts it and yields the header.
pub decode-encode :
    (h d : Header) (out : List ℕ) (size n : ℕ)
    → IsHeader h
    → h.magic ≡ magic_number
    → h.version ≡ protocol_version
    → header_len ≤ size
    → header_len + h.payload_len ≤ n
    → ((encode_header h out size).0 ≡ pos header_len)
      × (decode_header (encode_header h out size).1 n d ≡ (pos 0, h))
unfolding encode_header decode_header
decode-encode h d out size n v m e hs hn =
    ground (arith, read-header_bytes h (drop header_len out) v)

-- Decoding returns 0 exactly for a datagram with a whole header, the protocol's magic and version,
-- and a declared payload that lies inside the datagram.
pub decode_accepts :
    (buf : List ℕ) (n : ℕ) (d : Header)
    → ((decode_header buf n d).0 ≡ pos 0) ↔ (
        (header_len ≤ n)
        × ((read_header buf).magic ≡ magic_number)
        × ((read_header buf).version ≡ protocol_version)
        × (header_len + (read_header buf).payload_len ≤ n))
unfolding decode_header
decode_accepts buf n d = ground arith

-- A buffer of bytes that decodes without error: encoding the decoded header over it returns 24 and
-- leaves the buffer as it was.
pub encode-decode :
    (buf : List ℕ) (n size : ℕ) (d : Header)
    → AllBytes buf
    → n ≤ length buf
    → header_len ≤ size
    → (decode_header buf n d).0 ≡ pos 0
    → encode_header (decode_header buf n d).1 buf size ≡ (pos header_len, buf)
unfolding encode_header decode_header
encode-decode buf n size d v hn hs e =
    let long = ((decode_accepts buf n d).0 e).0 in
    ground (arith, header_bytes-read buf v (omega (arith, long)))

-- A datagram shorter than a header leaves the output header as it was and returns -1.
-- Otherwise the output header is what the bytes say, also when an error is returned: -2 for another
-- magic, -3 for the magic with another version, -4 for both right with a cut payload.
pub decode_errors :
    (buf : List ℕ) (n : ℕ) (d : Header)
    → let r = decode_header buf n d in
      let h = read_header buf in
      ((r.0 ≡ negsuc 0) ↔ (n < header_len))
      × ((r.0 ≡ negsuc 1) ↔ ((header_len ≤ n) × (h.magic ≢ magic_number)))
      × ((r.0 ≡ negsuc 2)
          ↔ ((header_len ≤ n) × (h.magic ≡ magic_number) × (h.version ≢ protocol_version)))
      × ((r.0 ≡ negsuc 3) ↔ (
          (header_len ≤ n)
          × (h.magic ≡ magic_number)
          × (h.version ≡ protocol_version)
          × (n < header_len + h.payload_len)))
      × (r.1 ≡ (if ltb n header_len then d else h))
unfolding decode_header
decode_errors buf n d = ground arith
