-- ===== src/Client/Dispatch.antt =====
-- A message that the worker takes from the send queue: the push into the send window, and the datagram.
use rel4u.Prelude.{
  ℕ, suc, ◌+◌, ◌^◌, ◌≤◌, ◌<◌, ◌≡◌, refl, sym, ap, subst, ◌∙◌, true, false, List, [], ◌∷◌, ◌++◌,
  none, some, if_intro, if_true, if_false, arith, ltb, length, take, drop,
}
use rel4u.Prelude.Int.{pos, ltb_ℤ, leb_ℤ}
use rel4u.Packet.{Header, zero_header, header_len, decode_header}
use rel4u.Packet.PktType
use rel4u.Window.Index.{max_payload_size}
use rel4u.Window.Send.{is_reliable, slot_of, push, can_send}
use rel4u.Window.Send.Inv.{outstanding}
use rel4u.Window.Send.Push.{push_reliable, first_sent}
use rel4u.Mpmc.Defs.{Item}
use rel4u.Mpmc.Ops.{try_pop}
use rel4u.Mpmc.Fixed.Refine.{}
use rel4u.Endpoint.{
  Platform, World, Datagram, packet_header, packet_bytes, send_to, read_clock, control_header,
}
use rel4u.Endpoint.Inbox.{is_code}
use rel4u.Endpoint.Sending.{sent-decoded}
use rel4u.Client.{Client, send_packet, packet_sent}
use rel4u.Client.Inv.{IsClient}
use rel4u.Client.Worker.{seq_or_zero, drain_item, drain_loop}

module _ (env : Platform) where
  -- A packet reaches the socket and leaves window and queue as they are.
  pub send_packet_lem :
      (type mode seq : ℕ) (payload : List ℕ) (len : ℕ) (c : Client) (u : World)
      → let raw =
          packet_bytes (packet_header c.session_id c.recv_win type mode seq len) payload len in
        leb_ℤ raw.0 (pos 0) ≡ false
        → let r = send_packet env type mode seq payload len (c, u) in
          (r.1.sent ≡ record { dest = c.server_addr; bytes = raw.1 } ∷ u.sent)
          × (r.0.send_win ≡ c.send_win)
          × (r.0.send_queue ≡ c.send_queue)
  unfolding send_packet send_to packet_sent read_clock
  send_packet_lem type mode seq payload len c u good =
      let raw =
        packet_bytes (packet_header c.session_id c.recv_win type mode seq len) payload len in
      let d : Datagram = record { dest = c.server_addr; bytes = raw.1 } in
      let t = send_to env u c.server_addr raw.1 in
      let Done = λ (r : Client × World).
        (r.1.sent ≡ d ∷ u.sent) × (r.0.send_win ≡ c.send_win) × (r.0.send_queue ≡ c.send_queue) in
      subst Done (sym (if_false (c, u) (packet_sent env c t.0 t.1) good))
        (if_intro Done (ltb_ℤ (pos 0) t.0) (λ e. (refl, refl, refl)) (λ e. (refl, refl, refl)))

  -- The worker takes a message.
  pub drain_one :
      (fuel : ℕ) (c : Client) (u : World) (item : Item)
      → can_send c.send_win ≡ true
      → (try_pop c.send_queue).1 ≡ some item
      → drain_loop env (suc fuel) (c, u)
        ≡ drain_loop env fuel
            (drain_item env (record c { send_queue = (try_pop c.send_queue).0 }, u) item)
  unfolding drain_loop
  drain_one fuel c u item can e = rw (can, e) refl

  -- From an empty queue it takes none.
  pub drain_none :
      (fuel : ℕ) (r : Client × World)
      → (try_pop r.0.send_queue).1 ≡ none
      → let t = drain_loop env (suc fuel) r in (t.1 ≡ r.1) × (t.0.send_win ≡ r.0.send_win)
  unfolding drain_loop
  drain_none fuel (c, u) e = rw e (
      if_intro (λ (t : Client × World). (t.1 ≡ u) × (t.0.send_win ≡ c.send_win))
        (can_send c.send_win) (λ f. (refl, refl)) (λ f. (refl, refl)))

  -- What is sent for a message: the datagram of its packet, as the other end reads it.
  pub record Dispatched (c : Client) (u : World) (mode len : ℕ) (payload bytes : List ℕ)
      (r : Client × World) : Type 0 where
    pub header : Header
    pub raw : List ℕ
    pub sent_lem : r.1.sent ≡ record { dest = c.server_addr; bytes = raw } ∷ u.sent
    pub decoded : decode_header raw (length raw) zero_header ≡ (pos 0, header)
    pub is_data : header.packet_type ≡ PktType.data_pkt
    pub same_session : header.session_id ≡ c.session_id
    pub next_number : header.seq_num ≡ c.send_win.next_seq
    pub same_mode : header.delivery_mode ≡ mode
    pub same_len : header.payload_len ≡ len
    pub carried : drop header_len raw ≡ take len payload
    pub kept :
        outstanding r.0.send_win
        ≡ outstanding c.send_win
          ++ first_sent
              (slot_of c.send_win c.send_win.next_seq).payload
              c.send_win.next_seq
              mode
              bytes
              len
              (env.time_now_ns u.ticks)
            ∷ []

  pub drain_item-Dispatched :
      (c : Client) (u : World) (item : Item)
      → IsClient c
      → c.session_id < 2 ^ 32
      → is_reliable item.mode ≡ true
      → item.mode < 2 ^ 8
      → item.len ≤ max_payload_size
      → item.len ≤ length item.bytes
      → length (outstanding c.send_win) < c.send_win.capacity
      → let r = drain_item env (c, u) item in
        Dispatched c u item.mode item.len item.bytes item.bytes r × (r.0.send_queue ≡ c.send_queue)
  unfolding drain_item read_clock packet_header control_header
  drain_item-Dispatched c u item v h k m l b room =
      let now = env.time_now_ns u.ticks in
      let w = c.send_win in
      let r = push w item.mode item.bytes item.len now in
      let d : Client = record c { send_win = r.1 } in
      let u' : World = record u { ticks = u.ticks + 1 } in
      let p = push_reliable w item.mode item.bytes item.len now v.send_valid k l in
      let free : ltb (length (outstanding w)) w.capacity ≡ true = ground (arith, room) in
      let code : is_code 0 r.0 ≡ true = ap (is_code 0) (p.0 ∙ if_true _ _ free) in
      let seq : r.2 ≡ some w.next_seq = p.1 ∙ if_true _ _ free in
      let hdr =
        packet_header d.session_id d.recv_win PktType.data_pkt item.mode w.next_seq item.len in
      let s =
        sent-decoded d.session_id d.recv_win PktType.data_pkt item.mode w.next_seq item.bytes
          item.len h v.send_valid.next_fits (omega (arith, l)) b in
      let raw = packet_bytes hdr item.bytes item.len in
      let good : leb_ℤ raw.0 (pos 0) ≡ false = ap (λ z. leb_ℤ z (pos 0)) s.0 in
      let q = send_packet_lem PktType.data_pkt item.mode w.next_seq item.bytes item.len d u' good in
      let sends =
        λ (n : ℕ). send_packet env PktType.data_pkt item.mode n item.bytes item.len (d, u') in
      let e : drain_item env (c, u) item ≡ sends w.next_seq =
        if_true _ _ code ∙ ap (λ o. sends (seq_or_zero o)) seq in
      (
        record {
          header = hdr;
          raw = raw.1;
          sent_lem = ap (λ (t : Client × World). t.1.sent) e ∙ q.0;
          decoded = s.1;
          is_data = refl;
          same_session = refl;
          next_number = refl;
          same_mode = omega (arith, m);
          same_len = omega (arith, l);
          carried = s.2;
          kept =
              ap (λ (t : Client × World). outstanding t.0.send_win) e
              ∙ ap outstanding q.1
              ∙ p.2
              ∙ if_true _ _ free;
        },
        ap (λ (t : Client × World). t.0.send_queue) e ∙ q.2,
      )
