-- ===== src/Handshake/Replies.antt =====
-- What the two ends send, and what sending leaves as it is.
use rel4u.Prelude.{
  ℕ, ◌^◌, ◌<◌, ◌≡◌, refl, sym, ap, subst, ◌∙◌, false, [], ◌∷◌, if_intro, if_false, arith, length,
  length-set, get_or-set_self,
}
use rel4u.Prelude.Int.{ℤ, pos, ltb_ℤ, leb_ℤ, pos_part}
use rel4u.Packet.{zero_header, decode_header, encode_header}
use rel4u.Packet.DeliveryMode
use rel4u.Net.{Addr}
use rel4u.Window.Recv.{RecvWindow}
use rel4u.Session.{ClientSession, ConnState, zero_session, find_by_addr, is_active}
use rel4u.Endpoint.{Platform, World, Datagram, count_sent, read_clock, send_to, packet_bytes}
use rel4u.Endpoint.Sending.{sent-decoded}
use rel4u.Client.{Client}
use rel4u.Client as Client
use rel4u.Client.Worker as ClientWorker
use rel4u.Server.{Server, session_of, put}
use rel4u.Server as Server
use rel4u.Server.Worker as ServerWorker
use rel4u.Handshake.{control, control_datagram}
use rel4u.Handshake.Table.{find_by_addr-same}

-- The other end decodes such a packet.
pub control-decoded :
    (session_id : ℕ) (win : RecvWindow) (type : ℕ)
    → session_id < 2 ^ 32
    → let bytes = control_datagram session_id win type in
      decode_header bytes (length bytes) zero_header ≡ (pos 0, control session_id win type)
control-decoded session_id win type h =
    (sent-decoded session_id win type DeliveryMode.unreliable_unordered 0 [] 0 h (omega arith)
      (omega arith) (omega arith)).1

-- Encoding succeeds.
encoded :
    (session_id : ℕ) (win : RecvWindow) (type : ℕ)
    → leb_ℤ (packet_bytes (control session_id win type) [] 0).0 (pos 0) ≡ false
unfolding packet_bytes encode_header
encoded session_id win type = refl

-- The parts of a session that its packets leave as they are.
pub record SameSession (x y : ClientSession) : Type 0 where
  pub same_id : x.session_id ≡ y.session_id
  pub same_addr : x.addr ≡ y.addr
  pub same_state : x.state ≡ y.state
  pub same_send : x.send_win ≡ y.send_win
  pub same_recv : x.recv_win ≡ y.recv_win

pub SameSession-trans :
    {x y z : ClientSession} → SameSession x y → SameSession y z → SameSession x z
SameSession-trans p q = record {
  same_id = p.same_id ∙ q.same_id;
  same_addr = p.same_addr ∙ q.same_addr;
  same_state = p.same_state ∙ q.same_state;
  same_send = p.same_send ∙ q.same_send;
  same_recv = p.same_recv ∙ q.same_recv;
}

pub SameSession-refl : (x : ClientSession) → SameSession x x
SameSession-refl x = record {
  same_id = refl;
  same_addr = refl;
  same_state = refl;
  same_send = refl;
  same_recv = refl;
}

module _ (env : Platform) (i : ℕ) (src : Addr) where
  -- The server finds the same session, and it is the same.
  abbrev pub Found : Server → Server → Type 0
  Found s t =
      (find_by_addr env.af_inet env.af_inet6 t.session_table src
        ≡ find_by_addr env.af_inet env.af_inet6 s.session_table src)
      × SameSession (session_of t i) (session_of s i)
      × (length t.session_table.sessions ≡ length s.session_table.sessions)

  pub session_of-put :
      (s : Server) (x : ClientSession)
      → i < length s.session_table.sessions
      → session_of (put s i x) i ≡ x
  session_of-put s x l = get_or-set_self s.session_table.sessions i x zero_session l

  pub put-Found :
      (s : Server) (x : ClientSession)
      → i < length s.session_table.sessions
      → SameSession x (session_of s i)
      → Found s (put s i x)
  put-Found s x l h = (
    find_by_addr-same env.af_inet env.af_inet6 s.session_table src i x
        (ap (λ (c : ConnState). is_active (record x { state = c })) h.same_state) h.same_addr,
    subst (λ y. SameSession y (session_of s i)) (sym (session_of-put s x l)) h,
    length-set s.session_table.sessions i x,
  )

  -- The counters after a send.
  packet_sent-Found :
      (s : Server) (sent : ℤ) (u : World)
      → i < length s.session_table.sessions
      → let r = Server.packet_sent env i s sent u in (r.1.sent ≡ u.sent) × Found s r.0
  unfolding Server.packet_sent read_clock
  packet_sent-Found s sent u l =
      let x = session_of s i in
      let clock = read_clock env u in
      let y : ClientSession = record x {
        stats = count_sent x.stats (pos_part sent);
        last_ack_sent_ns = clock.0;
        ack_pending = false;
      } in
      let t : Server = record (put s i y) { stats = count_sent s.stats (pos_part sent) } in
      let f = put-Found s y l (record {
        same_id = refl;
        same_addr = refl;
        same_state = refl;
        same_send = refl;
        same_recv = refl;
      }) in
      if_intro (λ (r : Server × World). (r.1.sent ≡ u.sent) × Found s r.0) (ltb_ℤ (pos 0) sent)
        {x = (t, clock.1)} {y = (s, u)} (λ e. (refl, f))
        (λ e. (refl, (refl, SameSession-refl x, refl)))

  -- A packet of the server to its session.
  pub server_sends :
      (type : ℕ) (s : Server) (u : World)
      → i < length s.session_table.sessions
      → let x = session_of s i in
        let r = ServerWorker.send_control env i type (s, u) in
        (r.1.sent
          ≡ record { dest = x.addr; bytes = control_datagram x.session_id x.recv_win type }
            ∷ u.sent)
        × Found s r.0
  unfolding Server.send_packet send_to
  server_sends type s u l =
      let x = session_of s i in
      let bytes = control_datagram x.session_id x.recv_win type in
      let d : Datagram = record { dest = x.addr; bytes = bytes } in
      let t = send_to env u x.addr bytes in
      let q = packet_sent-Found s t.0 t.1 l in
      subst (λ (r : Server × World). (r.1.sent ≡ d ∷ u.sent) × Found s r.0)
        (sym (if_false _ _ (encoded x.session_id x.recv_win type))) (q.0, q.1)

client_packet_sent :
    (env : Platform) (c : Client) (sent : ℤ) (u : World)
    → let r = Client.packet_sent env c sent u in
      (r.1.sent ≡ u.sent)
      × (r.0.state ≡ c.state)
      × (r.0.session_id ≡ c.session_id)
      × (r.0.recv_win ≡ c.recv_win)
      × (r.0.send_win ≡ c.send_win)
unfolding Client.packet_sent read_clock
client_packet_sent env c sent u =
    if_intro
      (λ (r : Client × World).
        (r.1.sent ≡ u.sent)
        × (r.0.state ≡ c.state)
        × (r.0.session_id ≡ c.session_id)
        × (r.0.recv_win ≡ c.recv_win)
        × (r.0.send_win ≡ c.send_win))
      (ltb_ℤ (pos 0) sent) (λ e. (refl, refl, refl, refl, refl))
      (λ e. (refl, refl, refl, refl, refl))

-- A packet of the client.
pub client_sends :
    (env : Platform) (type : ℕ) (c : Client) (u : World)
    → let r = ClientWorker.send_control env type (c, u) in
      (r.1.sent
        ≡ record { dest = c.server_addr; bytes = control_datagram c.session_id c.recv_win type }
          ∷ u.sent)
      × (r.0.state ≡ c.state)
      × (r.0.session_id ≡ c.session_id)
      × (r.0.recv_win ≡ c.recv_win)
      × (r.0.send_win ≡ c.send_win)
unfolding Client.send_packet send_to
client_sends env type c u =
    let bytes = control_datagram c.session_id c.recv_win type in
    let d : Datagram = record { dest = c.server_addr; bytes = bytes } in
    let t = send_to env u c.server_addr bytes in
    let q = client_packet_sent env c t.0 t.1 in
    subst
      (λ (r : Client × World).
        (r.1.sent ≡ d ∷ u.sent)
        × (r.0.state ≡ c.state)
        × (r.0.session_id ≡ c.session_id)
        × (r.0.recv_win ≡ c.recv_win)
        × (r.0.send_win ≡ c.send_win))
      (sym (if_false _ _ (encoded c.session_id c.recv_win type))) (q.0, q.1, q.2, q.3, q.4)
