-- ===== src/Server/Packets.antt =====
-- The parts of the server's handlers keep its sessions valid.
use rel4u.Prelude.{
  ℕ, ◌^◌, ◌<◌, ◌≡◌, refl, sym, subst, Bool, true, ◌||◌, List, [], none, some, if_intro,
  option_intro, arith,
}
use rel4u.Prelude.Int.{pos, ltb_ℤ, leb_ℤ}
use rel4u.Packet.{Header}
use rel4u.Packet.PktType
use rel4u.Packet.DeliveryMode
use rel4u.Net.{Addr}
use rel4u.Window.Send.{AckState}
use rel4u.Window.Send.OnAck.{on_ack_lem}
use rel4u.Session.{
  ConnState, disconnected, connecting, connected, disconnecting, ClientSession, is_active,
  find_by_addr, allocate, touch_lru,
}
use rel4u.Endpoint.{
  Platform, World, send_to, packet_header, packet_bytes, control_header, count_recv,
}
use rel4u.Endpoint.Inbox.{on_data}
use rel4u.Endpoint.Link.{on_ack-IsValid}
use rel4u.Endpoint.Incoming.{on_data-IsRecvWindow}
use rel4u.Client.Worker.{is_connecting}
use rel4u.Server.{Server, session_of, put, packet_sent, send_packet}
use rel4u.Server.Worker.{
  new_session_id, answer, welcome, admit, on_connect_req, take_acks, take_data, promoted, touched,
}
use rel4u.Server.Inv.{
  IsSession, IsServer, session_of-IsSession, put-IsServer, allocate-IsServer, allocate-lt,
  find_by_addr-lt,
}

module _ (env : Platform) (n : ℕ) where
  -- The server of a pair with the world outside.
  abbrev pub Good : Server × World → Type 0
  Good r = IsServer n r.0

  pub send_packet-IsServer :
      (i type mode seq : ℕ) (payload : List ℕ) (len : ℕ) (r : Server × World)
      → i < n
      → Good r
      → Good (send_packet env i type mode seq payload len r)
  unfolding send_packet packet_sent
  send_packet-IsServer i type mode seq payload len (s, u) l v =
      let x = session_of s i in
      let raw =
        packet_bytes (packet_header x.session_id x.recv_win type mode seq len) payload len in
      let sent = send_to env u x.addr raw.1 in
      let w = put-IsServer n s v i l _ (session_of-IsSession n s v i l) refl refl in
      if_intro Good (leb_ℤ raw.0 (pos 0)) (λ e. v)
        (λ e.
          if_intro Good (ltb_ℤ (pos 0) sent.0)
            (λ f. record {
              table_valid = w.table_valid;
              sessions_valid = w.sessions_valid;
              room = w.room;
            })
            (λ f. v))

  -- A packet without data.
  pub control-IsServer :
      (i type : ℕ) (r : Server × World)
      → i < n
      → Good r
      → Good (send_packet env i type DeliveryMode.unreliable_unordered 0 [] 0 r)
  control-IsServer i type r l v =
      send_packet-IsServer i type DeliveryMode.unreliable_unordered 0 [] 0 r l v

  welcome-IsServer :
      (now_ns i : ℕ) (r : Server × World) → i < n → Good r → Good (welcome env now_ns i r)
  unfolding welcome
  welcome-IsServer now_ns i (s, u) l v =
      control-IsServer i PktType.connect_resp _ l
        (put-IsServer n s v i l _ (session_of-IsSession n s v i l) refl refl)

  module _ (memory : (t : ℕ) → env.window_memory t ≡ (true, true)) where
    admit-IsServer :
        (src : Addr) (now_ns : ℕ) (r : Server × World) → Good r → Good (admit env src now_ns r)
    unfolding admit answer
    admit-IsServer src now_ns (s, u) v =
        let id = new_session_id env now_ns in
        let after =
          λ (m : Bool × Bool). record s { session_table = (allocate m s.session_table src id).1 } in
        let w = allocate-IsServer n s src id v in
        subst
          (λ (m : Bool × Bool). Good (elim (allocate m s.session_table src id).0 [
            | none ↦ answer env src (control_header PktType.reject 0) (after m, u)
            | some i ↦ welcome env now_ns i (after m, u)
          ]))
          (sym (memory u.ticks))
          (option_intro Good (allocate (true, true) s.session_table src id).0 w (λ i e.
            welcome-IsServer now_ns i (after (true, true), u)
              (omega
                (arith, v.room, allocate-lt (true, true) s.session_table src id i v.table_valid e))
              w))

    pub on_connect_req-IsServer :
        (src : Addr) (now_ns : ℕ) (r : Server × World)
        → Good r
        → Good (on_connect_req env src now_ns r)
    unfolding on_connect_req
    on_connect_req-IsServer src now_ns (s, u) v =
        option_intro Good (find_by_addr env.af_inet env.af_inet6 s.session_table src)
          (admit-IsServer src now_ns (s, u) v)
          (λ i e.
            welcome-IsServer now_ns i (s, u)
              (omega (
                arith,
                v.room,
                find_by_addr-lt env.af_inet env.af_inet6 s.session_table src i v.table_valid e,
              ))
              v)

  pub take_acks-IsServer :
      (i : ℕ) (hdr : Header) (now_ns : ℕ) (s : Server)
      → i < n
      → IsServer n s
      → IsServer n (take_acks env i hdr now_ns s)
  unfolding take_acks
  take_acks-IsServer i hdr now_ns s l v =
      let x = session_of s i in
      let y = session_of-IsSession n s v i l in
      let a : AckState = record { win = x.send_win; rtt = x.rtt; stats = x.stats } in
      put-IsServer n s v i l _
        (record {
          send_valid = (on_ack_lem hdr.ack_num hdr.sack_mask now_ns a y.send_valid).0;
          recv_valid = y.recv_valid;
          rtt_valid = on_ack-IsValid now_ns hdr.ack_num hdr.sack_mask a y.rtt_valid;
        })
        refl refl

  pub take_data-IsServer :
      (i : ℕ) (hdr : Header) (payload : List ℕ) (s : Server)
      → i < n
      → hdr.seq_num < 2 ^ 32
      → IsServer n s
      → IsServer n (take_data env i hdr payload s)
  unfolding take_data
  take_data-IsServer i hdr payload s l h v =
      let x = session_of s i in
      let y = session_of-IsSession n s v i l in
      let w =
        put-IsServer n s v i l
          (record x {
            recv_win =
                (on_data env.node_size env.has_memory x.client_id x.recv_win s.recv_queue hdr
                  payload).0;
            ack_pending =
                x.ack_pending
                || (on_data env.node_size env.has_memory x.client_id x.recv_win s.recv_queue hdr
                    payload).2;
          })
          (record {
            send_valid = y.send_valid;
            recv_valid =
                on_data-IsRecvWindow env.node_size env.has_memory x.client_id x.recv_win
                  s.recv_queue hdr payload y.recv_valid h;
            rtt_valid = y.rtt_valid;
          })
          refl refl in
      record { table_valid = w.table_valid; sessions_valid = w.sessions_valid; room = w.room }

  promoted-active :
      (x : ClientSession)
      → (is_active (promoted env x) ≡ is_active x) × ((promoted env x).client_id ≡ x.client_id)
  unfolding promoted
  promoted-active x = by_state x.state refl
    where
      by_state :
          (c : ConnState)
          → x.state ≡ c
          → (is_active (promoted env x) ≡ is_active x) × ((promoted env x).client_id ≡ x.client_id)
      by_state disconnected e = (rw e refl, rw e refl)
      by_state connecting e = (rw e refl, rw e refl)
      by_state connected e = (rw e refl, rw e refl)
      by_state disconnecting e = (rw e refl, rw e refl)

  promoted-IsSession : (x : ClientSession) → IsSession x → IsSession (promoted env x)
  unfolding promoted
  promoted-IsSession x v = if_intro IsSession (is_connecting x.state) (λ e. v) (λ e. v)

  pub touched-IsServer :
      (i now_ns bytes_read : ℕ) (s : Server)
      → i < n
      → IsServer n s
      → IsServer n (touched env i now_ns bytes_read s)
  unfolding touched touch_lru
  touched-IsServer i now_ns bytes_read s l v =
      let t = put s i (record (session_of s i) { last_activity_ns = now_ns }) in
      let w = put-IsServer n s v i l _ (session_of-IsSession n s v i l) refl refl in
      let x : ClientSession = record (session_of t i) {
        stats = count_recv (session_of t i).stats bytes_read;
      } in
      let p = promoted-active x in
      put-IsServer n t w i l (promoted env x)
        (promoted-IsSession x (session_of-IsSession n t w i l)) p.1 p.0
