-- ===== src/Handshake/Admission.antt =====
-- A connection request of an unknown client at a server with a free session.
use Prim.Native.Nat.{bit_xor}
use rel4u.Prelude.{
  ℕ, ◌+◌, ◌%◌, ◌^◌, ◌<◌, ◌≡◌, ◌≢◌, refl, sym, ap, ap₂, subst, ◌∙◌, Bool, true, false, not, List,
  ◌∷◌, Option, none, some, inl, inr, if_true, if_intro, arith, ◌==◌, if◌then◌else◌, length, drop,
  length-set,
}
use rel4u.Prelude.Int.{ℤ, pos}
use rel4u.Packet.{Header, zero_header, header_len, decode_header}
use rel4u.Packet.PktType
use rel4u.Net.{Addr, addr_equal}
use rel4u.Window.Send
use rel4u.Window.Recv
use rel4u.Window.Recv.{RecvWindow}
use rel4u.Session.{
  ClientSession, SessionTable, ConnState, connecting, find_by_addr, admitted, allocate, is_active,
  session_at, put_session,
}
use rel4u.Session.Allocate.{FreeSlot, allocate_lem, gets, Outcome}
use rel4u.Endpoint.{Platform, World, read_clock, count_recv, control_header}
use rel4u.Endpoint.Inbox.{is_code}
use rel4u.Server.{Server, session_of, put}
use rel4u.Server.Worker.{
  new_session_id, welcome, admit, on_connect_req, on_other, on_arrival, answer, send_control,
}
use rel4u.Server.Inv.{IsServer, IsSession, session_of-IsSession, send_init_again, recv_init_again}
use rel4u.Handshake.{control_datagram}
use rel4u.Handshake.Table.{IsInet, addr_equal_self, find_by_addr-put}
use rel4u.Handshake.Replies.{
  SameSession, SameSession-trans, session_of-put, put-Found, server_sends,
}

pub new_session_id-fits :
    (env : Platform) (now_ns : ℕ)
    → (new_session_id env now_ns < 2 ^ 32) × (new_session_id env now_ns ≢ 0)
unfolding new_session_id
new_session_id-fits env now_ns =
    let P = λ (t : ℕ). (t < 2 ^ 32) × (t ≢ 0) in
    let id = bit_xor now_ns env.src_addr_at % 2 ^ 32 in
    if_intro P (id == 0) (λ e. (omega arith, one-ne)) (λ e. (omega arith, ground (arith, e)))
  where
    one-ne : ◌≢◌ {A = ℕ} 1 0
    one-ne f = absurd (omega arith)

-- The session of a new client: it has a number, and windows whose numbers start at 1.
pub record IsNew (src : Addr) (x : ClientSession) : Type 0 where
  pub id_fits : x.session_id < 2 ^ 32
  pub id_given : x.session_id ≢ 0
  pub addr_given : x.addr ≡ src
  pub send_starts : x.send_win.next_seq ≡ 1
  pub recv_starts : x.recv_win.expected_seq ≡ 1

pub IsNew-same : (src : Addr) (x y : ClientSession) → SameSession y x → IsNew src x → IsNew src y
IsNew-same src x y s n = record {
  id_fits = omega (arith, s.same_id, n.id_fits);
  id_given = λ e. n.id_given (sym s.same_id ∙ e);
  addr_given = s.same_addr ∙ n.addr_given;
  send_starts = ap (λ (w : Send.SendWindow). w.next_seq) s.same_send ∙ n.send_starts;
  recv_starts = ap (λ (w : RecvWindow). w.expected_seq) s.same_recv ∙ n.recv_starts;
}

admitted-IsNew :
    (x : ClientSession) (src : Addr) (session_id : ℕ)
    → IsSession x
    → session_id < 2 ^ 32
    → session_id ≢ 0
    → IsNew src (admitted (true, true) x src session_id)
unfolding admitted
admitted-IsNew x src session_id v h k =
    let c = x.send_win.capacity in
    record {
      id_fits = h;
      id_given = k;
      addr_given = refl;
      send_starts =
          ap
            (λ (o : Option Send.SendWindow).
              let w : Send.SendWindow = elim o [ none ↦ Send.destroy x.send_win | some w ↦ w ] in
              w.next_seq)
            (send_init_again c v.send_valid.cap_valid);
      recv_starts =
          ap
            (λ (o : Option RecvWindow).
              let w : RecvWindow = elim o [ none ↦ Recv.destroy x.recv_win | some w ↦ w ] in
              w.expected_seq)
            (recv_init_again c v.send_valid.cap_valid);
    }

state-admitted :
    (mem : Bool × Bool) (x : ClientSession) (src : Addr) (session_id : ℕ)
    → (admitted mem x src session_id).state ≡ connecting
unfolding admitted
state-admitted mem x src session_id = refl

-- What a request leads to: a session of the client's own, and the response that names it.
abbrev pub Welcomed : Platform → Addr → World → Server × World → Type 0
Welcomed env src u r =
    (i : ℕ) × (i < length r.0.session_table.sessions)
    × (find_by_addr env.af_inet env.af_inet6 r.0.session_table src ≡ some i)
    × IsNew src (session_of r.0 i)
    × ((session_of r.0 i).state ≡ connecting)
    × (r.1.sent
        ≡ record {
          dest = src;
          bytes =
              control_datagram (session_of r.0 i).session_id (session_of r.0 i).recv_win
                PktType.connect_resp;
        }
          ∷ u.sent)

module _ (env : Platform) (src : Addr) (inet : IsInet env.af_inet env.af_inet6 src) where
  -- The response to a session that has been set up.
  welcome-Welcomed :
      (now_ns i : ℕ) (s : Server) (u : World)
      → i < length s.session_table.sessions
      → find_by_addr env.af_inet env.af_inet6 s.session_table src ≡ some i
      → IsNew src (session_of s i)
      → (session_of s i).state ≡ connecting
      → Welcomed env src u (welcome env now_ns i (s, u))
  unfolding welcome
  welcome-Welcomed now_ns i s u l f new c =
      let x : ClientSession = record (session_of s i) {
        last_activity_ns = now_ns;
        last_heartbeat_sent_ns = now_ns;
      } in
      let t = put s i x in
      let p = put-Found env i src s x l (record {
        same_id = refl;
        same_addr = refl;
        same_state = refl;
        same_send = refl;
        same_recv = refl;
      }) in
      let q = server_sends env i src PktType.connect_resp t u (omega (arith, p.2, l)) in
      let r = send_control env i PktType.connect_resp (t, u) in
      let same = SameSession-trans q.1.1 p.1 in
      (
        i,
        omega (arith, q.1.2, p.2, l),
        q.1.0 ∙ p.0 ∙ f,
        IsNew-same src (session_of s i) (session_of r.0 i) same new,
        same.same_state ∙ c,
        q.0
            ∙ ap₂ (λ (a : Addr) (b : List ℕ). record { dest = a; bytes = b } ∷ u.sent)
                (p.1.same_addr ∙ new.addr_given)
                (ap₂ (λ (k : ℕ) (w : RecvWindow). control_datagram k w PktType.connect_resp)
                  (sym q.1.1.same_id) (sym q.1.1.same_recv)),
      )

  module _ (n : ℕ) (s : Server) (u : World) (v : IsServer n s)
      (unknown : find_by_addr env.af_inet env.af_inet6 s.session_table src ≡ none)
      (free : s.session_table.active_count < s.session_table.max_clients)
      (memory : env.window_memory u.ticks ≡ (true, true)) where
    -- The table has a session for the client.
    has_slot : (session_id : ℕ) → FreeSlot (true, true) s.session_table src session_id
    has_slot session_id =
        elim (allocate_lem (true, true) s.session_table src session_id v.table_valid) [
          | inl e ↦ e
          | inr (inl e) ↦ absurd (omega (arith, e.0, free))
          | inr (inr (inl e)) ↦ absurd (omega (arith, e.0, free))
          | inr (inr (inr e)) ↦ absurd (omega (arith, e.0, free))
        ]

    admit-Welcomed : (now_ns : ℕ) → Welcomed env src u (admit env src now_ns (s, u))
    unfolding admit find_by_addr
    admit-Welcomed now_ns =
        let id = new_session_id env now_ns in
        let fits = new_session_id-fits env now_ns in
        let f = has_slot id in
        let k = f.1 in
        let old = session_at s.session_table k in
        let x = admitted (true, true) old src id in
        let good =
          session_of-IsSession n s v k (omega (arith, f.2, v.table_valid.storage, v.room)) in
        let new = admitted-IsNew old src id good fits.0 fits.1 in
        let g : allocate (env.window_memory u.ticks) s.session_table src id
            ≡ gets (true, true) s.session_table src id k (s.session_table.active_count + 1) false =
          ap (λ (m : Bool × Bool). allocate m s.session_table src id) memory ∙ f.4 in
        let table : SessionTable = record (put_session s.session_table k x) {
          active_count = s.session_table.active_count + 1;
        } in
        let t : Server = record s { session_table = table } in
        let at : session_of t k ≡ x = session_of-put env k src s x f.2 in
        let found =
          find_by_addr-put env.af_inet env.af_inet6 s.session_table src k x unknown f.2
            (ap (λ (c : ConnState). is_active (record x { state = c }))
              (state-admitted (true, true) old src id))
            (ap (λ a. addr_equal env.af_inet env.af_inet6 a src) new.addr_given
              ∙ addr_equal_self env.af_inet env.af_inet6 src inet) in
        subst
          (λ (o : Outcome). Welcomed env src u (elim o.0 [
            | none ↦
                answer env src (control_header PktType.reject 0)
                  (record s { session_table = o.1 }, u)
            | some i ↦ welcome env now_ns i (record s { session_table = o.1 }, u)
          ]))
          (sym g)
          (welcome-Welcomed now_ns k t u
            (omega (arith, f.2, length-set s.session_table.sessions k x)) found
            (subst (IsNew src) (sym at) new)
            (ap (λ (y : ClientSession). y.state) at ∙ state-admitted (true, true) old src id))

  -- The datagram of a connection request.
  pub request-Welcomed :
      (n : ℕ) (s : Server) (u : World) (bytes : List ℕ) (hdr : Header)
      → IsServer n s
      → find_by_addr env.af_inet env.af_inet6 s.session_table src ≡ none
      → s.session_table.active_count < s.session_table.max_clients
      → env.window_memory (u.ticks + 1) ≡ (true, true)
      → decode_header bytes (length bytes) zero_header ≡ (pos 0, hdr)
      → hdr.packet_type ≡ PktType.connect_req
      → Welcomed env src u (on_arrival env (record { src = src; bytes = bytes }) (s, u))
  unfolding on_arrival on_connect_req read_clock
  request-Welcomed n s u bytes hdr v unknown free memory d t =
      let now = env.time_now_ns u.ticks in
      let c : Server = record s { stats = count_recv s.stats (length bytes) } in
      let u' : World = record u { ticks = u.ticks + 1 } in
      let v' : IsServer n c = record {
        table_valid = v.table_valid;
        sessions_valid = v.sessions_valid;
        room = v.room;
      } in
      let payload = drop header_len bytes in
      let handled : on_arrival env (record { src = src; bytes = bytes }) (s, u)
          ≡ admit env src now (c, u') =
        ap
          (λ (x : ℤ × Header).
            if not (is_code 0 x.0)
            then (s, u)
            else if x.1.packet_type == PktType.connect_req
            then on_connect_req env src now (c, u')
            else on_other env src x.1 payload (length bytes) now (c, u'))
          d
        ∙ if_true {b = hdr.packet_type == PktType.connect_req} _ _ (ground arith)
        ∙ ap {B = Server × World}
            (λ (o : Option ℕ). elim o [
              | none ↦ admit env src now (c, u')
              | some i ↦ welcome env now i (c, u')
            ])
            unknown in
      subst (Welcomed env src u) (sym handled) (admit-Welcomed n c u' v' unknown free memory now)
