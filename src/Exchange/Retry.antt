-- ===== src/Exchange/Retry.antt =====
-- The packets that the sender sends again, at the receiver.
use rel4u.Prelude.{
  ℕ, ◌+◌, ◌%◌, ◌^◌, ◌<◌, ◌≡◌, ◌≢◌, sym, ap, ◌∙◌, true, false, List, inl, inr, arith, length, get_or,
  drop, take, take_twice, length-take,
}
use rel4u.Prelude.Int.{pos}
use rel4u.Packet.{Header, zero_header, header_len, decode_header}
use rel4u.Packet.PktType
use rel4u.Window.Index.{bad_capacity}
use rel4u.Window.Send.{SendSlot, zero_slot}
use rel4u.Window.Send.Inv.{outstanding}
use rel4u.Window.Recv.{RecvWindow}
use rel4u.Endpoint.{control_header, packet_header, packet_bytes}
use rel4u.Endpoint.Sending.{sent-decoded}
use rel4u.Transfer.{Carries, arrive}
use rel4u.Exchange.{Exchange, has, Reach}
use rel4u.Exchange.Arrived.{arrive-has}
use rel4u.Exchange.NoLoss.{Awaits, settled, Reach-IsFaithful}

-- What the workers send for a slot: the packet of `client_send_packet` and `server_send_packet`.
abbrev pub header_for : ℕ → RecvWindow → SendSlot → Header
header_for session_id win x =
    packet_header session_id win PktType.data_pkt x.delivery_mode x.seq_num x.payload_len

abbrev pub datagram_for : ℕ → RecvWindow → SendSlot → List ℕ
datagram_for session_id win x =
    (packet_bytes (header_for session_id win x) x.payload x.payload_len).1

-- Such a datagram carries the slot's message.
datagram-Carries :
    (first : ℕ) (s : Exchange) (i session_id : ℕ) (win : RecvWindow) (x : SendSlot)
    → i < length s.sent
    → session_id < 2 ^ 32
    → Awaits first s i x
    → let bytes = datagram_for session_id win x in
      (decode_header bytes (length bytes) zero_header ≡ (pos 0, header_for session_id win x))
      × Carries first s.sent i (header_for session_id win x) (drop header_len bytes)
unfolding packet_header control_header
datagram-Carries first s i session_id win x l h a =
    let m = a.3 in
    let r =
      sent-decoded session_id win PktType.data_pkt x.delivery_mode x.seq_num x.payload x.payload_len
        h (omega (arith, a.2)) (omega (arith, m.3)) m.2 in
    let fits : x.payload_len % 2 ^ 16 ≡ x.payload_len = omega (arith, m.3) in
    let whole : take x.payload_len (take x.payload_len x.payload) ≡ take x.payload_len x.payload =
      take_twice x.payload_len x.payload in
    (
      r.1,
      record {
        in_stream = l;
        mode_ordered = omega (arith, m.1);
        numbered = a.2;
        whole = omega (arith, fits, ap length r.2, length-take x.payload_len x.payload, m.2);
        carried =
            ap (λ (n : ℕ). take n (drop header_len (datagram_for session_id win x))) fits
            ∙ ap (take x.payload_len) r.2
            ∙ whole
            ∙ m.0;
      },
    )

-- In a state that the exchange can reach, a message that has been given a number, lies within reach of
-- the receive window and has not arrived is held by an outstanding slot of the send window that is
-- not acknowledged. The datagram that a worker sends for this slot, in whatever session and with
-- whatever acknowledgements, decodes; and when the receiver gets it, the message has arrived.
pub retry_arrives :
    {max_ready send_capacity recv_capacity first : ℕ} {s : Exchange}
    → Reach max_ready send_capacity recv_capacity first s
    → 0 < max_ready
    → bad_capacity send_capacity ≡ false
    → send_capacity < 2 ^ 31
    → bad_capacity recv_capacity ≡ false
    → recv_capacity < 2 ^ 31
    → first < 2 ^ 32
    → length s.sent < 2 ^ 31
    → (i session_id : ℕ) (win : RecvWindow) → i < length s.sent
    → i < length s.receiver.log + s.receiver.window.capacity
    → has s.receiver i ≡ false
    → session_id < 2 ^ 32
    → (j : ℕ) × (j < length (outstanding s.sender.win))
      × ((get_or (outstanding s.sender.win) j zero_slot).acked ≡ false)
      × (let bytes = datagram_for session_id win (get_or (outstanding s.sender.win) j zero_slot) in
          (hdr : Header) × (decode_header bytes (length bytes) zero_header ≡ (pos 0, hdr))
          × (has (arrive max_ready s.receiver hdr (drop header_len bytes)) i ≡ true))
retry_arrives {max_ready} {first} {s} r p e l g k h b i session_id win inside near missing fits =
    let f = Reach-IsFaithful r p e l g k h b in
    elim (settled first s f b i inside) [
      | inl there ↦ absurd (clash (sym missing ∙ there))
      | inr (j, m, a) ↦
          let x = get_or (outstanding s.sender.win) j zero_slot in
          let c = datagram-Carries first s i session_id win x inside fits a in
          (
            j,
            m,
            a.1,
            (
              header_for session_id win x,
              c.0,
              arrive-has first s.sent s.receiver f.prefix max_ready p i
                  (header_for session_id win x) (drop header_len (datagram_for session_id win x))
                  c.1 b near,
            ),
          )
    ]
  where
    clash : false ≢ true
    clash q = cc
