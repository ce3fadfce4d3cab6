-- ===== src/Server/Queued.antt =====
-- The worker of the server with a data packet of a session: what it puts into the receive queue.
use rel4u.Prelude.{
  ℕ, ◌+◌, ◌<◌, ◌≡◌, refl, ap, ◌∙◌, not, List, Option, none, some, if_intro, if_true, if_false,
  arith, ◌==◌, if◌then◌else◌, length, length-set, drop, get_or-set_self,
}
use rel4u.Prelude.Int.{ℤ, pos}
use rel4u.Packet.{Header, zero_header, header_len, decode_header}
use rel4u.Packet.PktType
use rel4u.Net.{Addr}
use rel4u.Mpmc.Defs.{Queue}
use rel4u.Window.Recv.{RecvWindow}
use rel4u.Session.{ClientSession, find_by_addr, touch_lru, zero_session}
use rel4u.Client.Worker.{is_connecting}
use rel4u.Endpoint.{Platform, World, read_clock, count_recv}
use rel4u.Endpoint.Inbox.{is_code, on_data}
use rel4u.Server.{Server, session_of, put}
use rel4u.Server.Worker.{
  on_arrival, on_connect_req, on_other, on_stray, on_member, on_session_packet, take_acks,
  take_data, touched, promoted,
}

module _ (env : Platform) (i : ℕ) where
  -- The parts of a session that its packet is read with.
  abbrev Same : Server → Server → Type 0
  Same s t =
      ((session_of t i).client_id ≡ (session_of s i).client_id)
      × ((session_of t i).recv_win ≡ (session_of s i).recv_win)
      × (t.recv_queue ≡ s.recv_queue)
      × (length t.session_table.sessions ≡ length s.session_table.sessions)

  put-Same :
      (s : Server) (x : ClientSession)
      → i < length s.session_table.sessions
      → x.client_id ≡ (session_of s i).client_id
      → x.recv_win ≡ (session_of s i).recv_win
      → Same s (put s i x)
  put-Same s x l a b =
      let e : session_of (put s i x) i ≡ x =
        get_or-set_self s.session_table.sessions i x zero_session l in
      (
        ap (λ (y : ClientSession). y.client_id) e ∙ a,
        ap (λ (y : ClientSession). y.recv_win) e ∙ b,
        refl,
        length-set s.session_table.sessions i x,
      )

  touched-Same :
      (s : Server) (now_ns bytes_read : ℕ)
      → i < length s.session_table.sessions
      → Same s (touched env i now_ns bytes_read s)
  unfolding touched promoted touch_lru
  touched-Same s now_ns bytes_read l =
      let x : ClientSession = record (session_of s i) { last_activity_ns = now_ns } in
      let t = put s i x in
      let p = put-Same s x l refl refl in
      let y : ClientSession = record (session_of t i) {
        stats = count_recv (session_of t i).stats bytes_read;
      } in
      let Kept = λ (z : ClientSession).
        (z.client_id ≡ (session_of t i).client_id) × (z.recv_win ≡ (session_of t i).recv_win) in
      let k = if_intro Kept (is_connecting y.state) (λ e. (refl, refl)) (λ e. (refl, refl)) in
      let q =
        put-Same t (promoted env y) (omega (arith, length-set s.session_table.sessions i x, l)) k.0
          k.1 in
      (q.0 ∙ p.0, q.1 ∙ p.1, q.2 ∙ p.2, q.3 ∙ p.3)

  take_acks-Same :
      (s : Server) (hdr : Header) (now_ns : ℕ)
      → i < length s.session_table.sessions
      → Same s (take_acks env i hdr now_ns s)
  unfolding take_acks
  take_acks-Same s hdr now_ns l = put-Same s _ l refl refl

  -- The queue that a data packet of session `i` leaves behind.
  member_queue :
      (s : Server) (u : World) (hdr : Header) (payload : List ℕ) (bytes_read now_ns : ℕ)
      → i < length s.session_table.sessions
      → hdr.packet_type ≡ PktType.data_pkt
      → let x = session_of s i in
        (on_member env i hdr payload bytes_read now_ns (s, u)).0.recv_queue
        ≡ (on_data env.node_size env.has_memory x.client_id x.recv_win s.recv_queue hdr payload).1
  unfolding on_member on_session_packet take_data
  member_queue s u hdr payload bytes_read now_ns l d =
      let t = touched env i now_ns bytes_read s in
      let p = touched-Same s now_ns bytes_read l in
      let a = take_acks env i hdr now_ns t in
      let q = take_acks-Same t hdr now_ns (omega (arith, p.3, l)) in
      let Queue_of = λ (r : Server × World). r.0.recv_queue in
      ap Queue_of (if_false {b = hdr.packet_type == PktType.connect_ack} _ _ (ground (arith, d)))
      ∙ ap Queue_of (if_false {b = hdr.packet_type == PktType.disconnect} _ _ (ground (arith, d)))
      ∙ ap Queue_of (if_true {b = hdr.packet_type == PktType.data_pkt} _ _ (ground (arith, d)))
      ∙ ap (λ (b : Server × World). (take_data env i hdr payload b.0).recv_queue)
          (if_false {b = hdr.packet_type == PktType.heartbeat} _ (a, u) (ground (arith, d)))
      ∙ ap (λ c. got c (session_of a i).recv_win a.recv_queue) (q.0 ∙ p.0)
      ∙ ap (λ w. got (session_of s i).client_id w a.recv_queue) (q.1 ∙ p.1)
      ∙ ap (got (session_of s i).client_id (session_of s i).recv_win) (q.2 ∙ p.2)
    where
      got : ℕ → RecvWindow → Queue → Queue
      got c w r = (on_data env.node_size env.has_memory c w r hdr payload).1

  -- The worker takes the datagram for one of session `i`.
  pub arrival_queue :
      (s : Server) (u : World) (src : Addr) (bytes : List ℕ) (hdr : Header)
      → find_by_addr env.af_inet env.af_inet6 s.session_table src ≡ some i
      → i < length s.session_table.sessions
      → decode_header bytes (length bytes) zero_header ≡ (pos 0, hdr)
      → hdr.packet_type ≡ PktType.data_pkt
      → hdr.session_id ≡ (session_of s i).session_id
      → let x = session_of s i in
        (on_arrival env (record { src = src; bytes = bytes }) (s, u)).0.recv_queue
        ≡ (on_data env.node_size env.has_memory x.client_id x.recv_win s.recv_queue hdr
            (drop header_len bytes)).1
  unfolding on_arrival read_clock on_other
  arrival_queue s u src bytes hdr f l e d k =
      let now = env.time_now_ns u.ticks in
      let payload = drop header_len bytes in
      let r : Server × World = (
        record s { stats = count_recv s.stats (length bytes) },
        record u { ticks = u.ticks + 1 },
      ) in
      let Queue_of = λ (t : Server × World). t.0.recv_queue in
      ap {B = Queue}
        (λ (x : ℤ × Header).
          (if not (is_code 0 x.0)
            then (s, u)
            else if x.1.packet_type == PktType.connect_req
            then on_connect_req env src now r
            else on_other env src x.1 payload (length bytes) now r).0.recv_queue)
        e
      ∙ ap Queue_of (if_false {b = hdr.packet_type == PktType.connect_req} _ _ (ground (arith, d)))
      ∙ ap {B = Queue}
          (λ (o : Option ℕ).
            let t : Server × World = elim o [
              | none ↦ on_stray env src hdr r
              | some j ↦
                  if (session_of r.0 j).session_id == hdr.session_id
                  then on_member env j hdr payload (length bytes) now r
                  else on_stray env src hdr r
            ] in
            t.0.recv_queue)
          f
      ∙ ap Queue_of
          (if_true {b = (session_of s i).session_id == hdr.session_id} _ _ (ground (arith, k)))
      ∙ member_queue r.0 r.1 hdr payload (length bytes) now l d
