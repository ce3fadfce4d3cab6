-- ===== src/Packet.antt =====
-- src/core/rel4u_packet.h and src/core/rel4u_packet.c: the 24-byte header on the wire.
pub mod PktType
pub mod DeliveryMode
pub mod RoundTrip
mod Tests
use rel4u.Prelude.{ℕ, ◌+◌, ◌*◌, ◌/◌, ◌%◌, ◌^◌, List, ◌∷◌, ltb, ◌==◌, if◌then◌else◌, get_or, drop}
use rel4u.Prelude.Int.{ℤ, pos, negsuc}

abbrev pub magic_number : ℕ
magic_number = 0x3455

abbrev pub protocol_version : ℕ
protocol_version = 1

abbrev pub header_len : ℕ
header_len = 24

-- `rel4u_header_t`; the widths are those of `IsHeader` in `RoundTrip`.
pub record Header : Type 0 where
  pub magic : ℕ
  pub version : ℕ
  pub packet_type : ℕ
  pub delivery_mode : ℕ
  pub flags : ℕ
  pub payload_len : ℕ
  pub session_id : ℕ
  pub seq_num : ℕ
  pub ack_num : ℕ
  pub sack_mask : ℕ

-- `memset(&hdr, 0, sizeof(hdr))`.
abbrev pub zero_header : Header
zero_header = record {
  magic = 0;
  version = 0;
  packet_type = 0;
  delivery_mode = 0;
  flags = 0;
  payload_len = 0;
  session_id = 0;
  seq_num = 0;
  ack_num = 0;
  sack_mask = 0;
}

-- A byte of a number, counted from the least significant.
abbrev pub byte : ℕ → ℕ → ℕ
byte k n = n / 2 ^ (8 * k) % 2 ^ 8

-- `htons` and `htonl` with the `memcpy` behind them: the most significant byte first.
abbrev pub put16 : ℕ → List ℕ → List ℕ
put16 n rest = byte 1 n ∷ byte 0 n ∷ rest

abbrev pub put32 : ℕ → List ℕ → List ℕ
put32 n rest = byte 3 n ∷ byte 2 n ∷ byte 1 n ∷ byte 0 n ∷ rest

-- `memcpy` and `ntohs`, `ntohl` at an offset.
abbrev pub get16 : List ℕ → ℕ → ℕ
get16 buf i = get_or buf i 0 * 2 ^ 8 + get_or buf (i + 1) 0

abbrev pub get32 : List ℕ → ℕ → ℕ
get32 buf i = get16 buf i * 2 ^ 16 + get16 buf (i + 2)

-- The writes at the offsets 0, 2, 3, 4, 5, 6, 8, 12, 16 and 20 lie side by side; what stands behind
-- byte 24 of the buffer stays.
unfoldable pub header_bytes : Header → List ℕ → List ℕ
header_bytes h rest = put16 h.magic (
    h.version
    ∷ h.packet_type
    ∷ h.delivery_mode
    ∷ h.flags
    ∷ put16 h.payload_len
        (put32 h.session_id (put32 h.seq_num (put32 h.ack_num (put32 h.sack_mask rest)))))

-- `rel4u_packet_encode_header`: what it returns, and the buffer. `buf_size` is the caller's word for
-- the buffer's size.
unfoldable pub encode_header : Header → List ℕ → ℕ → ℤ × List ℕ
encode_header h out_buf buf_size =
    if ltb buf_size header_len
    then (negsuc 0, out_buf)
    else (pos header_len, header_bytes h (drop header_len out_buf))

unfoldable pub read_header : List ℕ → Header
read_header buf = record {
  magic = get16 buf 0;
  version = get_or buf 2 0;
  packet_type = get_or buf 3 0;
  delivery_mode = get_or buf 4 0;
  flags = get_or buf 5 0;
  payload_len = get16 buf 6;
  session_id = get32 buf 8;
  seq_num = get32 buf 12;
  ack_num = get32 buf 16;
  sack_mask = get32 buf 20;
}

-- `rel4u_packet_decode_header`: what it returns, and `*out_hdr`, which the errors -2, -3 and -4 leave
-- filled in.
unfoldable pub decode_header : List ℕ → ℕ → Header → ℤ × Header
decode_header in_buf buf_len out_hdr =
    let h = read_header in_buf in
    if ltb buf_len header_len
    then (negsuc 0, out_hdr)
    else if h.magic == magic_number
    then (if h.version == protocol_version
        then (if ltb buf_len (header_len + h.payload_len) then (negsuc 3, h) else (pos 0, h))
        else (negsuc 2, h))
    else (negsuc 1, h)
