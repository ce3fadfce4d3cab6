-- ===== src/Server/Known.antt =====
-- A connection request from an address that has a session.
use rel4u.Prelude.{
  ℕ, ◌^◌, ◌≤◌, ◌<◌, ◌≡◌, refl, sym, ap, subst, ◌∙◌, List, [], Option, none, some, if_true, if_intro,
  arith, leb, length, get_or-set_self, length-set,
}
use rel4u.Prelude.Int.{pos, ltb_ℤ, leb_ℤ}
use rel4u.Seq.{sub32}
use rel4u.Packet.{Header}
use rel4u.Packet.PktType
use rel4u.Packet.DeliveryMode
use rel4u.Net.{Addr}
use rel4u.Window.Recv.{RecvWindow, on_packet, refusal}
use rel4u.Window.Recv.Accept.{refusal_lem}
use rel4u.Window.Recv.Once.{by_ordered, ordered_answer}
use rel4u.Session.{ClientSession, zero_session, find_by_addr}
use rel4u.Endpoint.{Platform, World, send_to, packet_header, packet_bytes}
use rel4u.Server.{Server, session_of, put, packet_sent, send_packet}
use rel4u.Server.Worker.{welcome, admit, on_connect_req}
use rel4u.Server.Inv.{IsServer, session_of-IsSession, find_by_addr-lt}

-- The parts of a session that belong to the connection.
abbrev pub SameConnection : ClientSession → ClientSession → Type 0
SameConnection x y =
    (x.session_id ≡ y.session_id)
    × (x.client_id ≡ y.client_id)
    × (x.state ≡ y.state)
    × (x.send_win ≡ y.send_win)
    × (x.recv_win ≡ y.recv_win)
    × (x.rtt ≡ y.rtt)

session_of-put :
    (s : Server) (i : ℕ) (x : ClientSession)
    → i < length s.session_table.sessions
    → session_of (put s i x) i ≡ x
session_of-put s i x l = get_or-set_self s.session_table.sessions i x zero_session l

module _ (env : Platform) (i : ℕ) where
  send_packet-SameConnection :
      (type mode seq : ℕ) (payload : List ℕ) (len : ℕ) (s : Server) (u : World)
      → i < length s.session_table.sessions
      → SameConnection
          (session_of (send_packet env i type mode seq payload len (s, u)).0 i)
          (session_of s i)
  unfolding send_packet packet_sent
  send_packet-SameConnection type mode seq payload len s u l =
      let x = session_of s i in
      let raw =
        packet_bytes (packet_header x.session_id x.recv_win type mode seq len) payload len in
      let sent = send_to env u x.addr raw.1 in
      let Same = λ (t : Server × World). SameConnection (session_of t.0 i) x in
      if_intro Same (leb_ℤ raw.0 (pos 0)) (λ e. (refl, refl, refl, refl, refl, refl))
        (λ e.
          if_intro Same (ltb_ℤ (pos 0) sent.0)
            (λ f.
              subst (λ y. SameConnection y x) (sym (session_of-put s i _ l))
                (refl, refl, refl, refl, refl, refl))
            (λ f. (refl, refl, refl, refl, refl, refl)))

  -- The answer to a known client leaves its connection as it is.
  pub welcome-SameConnection :
      (now_ns : ℕ) (s : Server) (u : World)
      → i < length s.session_table.sessions
      → SameConnection (session_of (welcome env now_ns i (s, u)).0 i) (session_of s i)
  unfolding welcome
  welcome-SameConnection now_ns s u l =
      let x : ClientSession = record (session_of s i) {
        last_activity_ns = now_ns;
        last_heartbeat_sent_ns = now_ns;
      } in
      let t = put s i x in
      let inside : i < length t.session_table.sessions =
        omega (arith, length-set s.session_table.sessions i x) in
      let p =
        send_packet-SameConnection PktType.connect_resp DeliveryMode.unreliable_unordered 0 [] 0 t u
          inside in
      subst
        (λ y.
          SameConnection
            (session_of
              (send_packet env i PktType.connect_resp DeliveryMode.unreliable_unordered 0 [] 0
                (t, u)).0
              i)
            y
          → SameConnection
              (session_of
                (send_packet env i PktType.connect_resp DeliveryMode.unreliable_unordered 0 [] 0
                  (t, u)).0
                i)
              (session_of s i))
        (sym (session_of-put s i x l)) (λ q. q) p

-- A connection request from an address that has a session keeps that session: its number, state,
-- windows and estimator. So a client that has reset its own windows, to reconnect, numbers its
-- packets from 1 again, and the reliable ordered ones that lie behind the number that the session
-- expects are answered as duplicates, code 1: none of them is delivered.
pub reconnect_keeps_window :
    (env : Platform) (n i : ℕ) (s : Server) (u : World) (src : Addr) (now_ns : ℕ) (hdr : Header)
    (payload : List ℕ) (max_ready : ℕ)
    → IsServer n s
    → find_by_addr env.af_inet env.af_inet6 s.session_table src ≡ some i
    → 0 < max_ready
    → hdr.seq_num < 2 ^ 32
    → hdr.delivery_mode ≡ DeliveryMode.reliable_ordered
    → 2 ^ 31 ≤ sub32 hdr.seq_num (session_of s i).recv_win.expected_seq
    → let t = (on_connect_req env src now_ns (s, u)).0 in
      SameConnection (session_of t i) (session_of s i)
      × (on_packet (session_of t i).recv_win hdr payload max_ready
          ≡ (pos 1, (session_of s i).recv_win, []))
unfolding on_connect_req
reconnect_keeps_window env n i s u src now_ns hdr payload max_ready v f p h m behind =
    let l = find_by_addr-lt env.af_inet env.af_inet6 s.session_table src i v.table_valid f in
    let Kept = λ (t : Server).
      SameConnection (session_of t i) (session_of s i)
      × (on_packet (session_of t i).recv_win hdr payload max_ready
          ≡ (pos 1, (session_of s i).recv_win, [])) in
    let w = (session_of s i).recv_win in
    let wv = (session_of-IsSession n s v i (omega (arith, v.room))).recv_valid in
    let dup : refusal w hdr.seq_num ≡ some (pos 1) =
      refusal_lem w wv hdr.seq_num h
      ∙ if_true {b = leb (2 ^ 31) (sub32 hdr.seq_num w.expected_seq)} _ _
          (ground (arith, behind)) in
    let answer =
      by_ordered hdr m max_ready p w payload ∙ ordered_answer w hdr payload max_ready dup in
    let c = welcome-SameConnection env i now_ns s u (omega (arith, v.table_valid.storage)) in
    subst (λ (r : Server × World). Kept r.0)
      (sym (
        ap {B = Server × World}
          (λ (o : Option ℕ). elim o [
            | none ↦ admit env src now_ns (s, u)
            | some k ↦ welcome env now_ns k (s, u)
          ])
          f))
      (c, ap (λ (x : RecvWindow). on_packet x hdr payload max_ready) c.4 ∙ answer)
