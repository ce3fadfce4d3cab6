-- ===== src/Handshake/Joined.antt =====
-- The response at the client, its acknowledgement at the server, and the handshake as a whole.
use rel4u.Prelude.{
  ℕ, ◌+◌, ◌^◌, ◌<◌, ◌≡◌, ◌≢◌, refl, sym, ap, subst, ◌∙◌, Bool, true, false, not, ◌&&◌, List, ◌∷◌,
  Option, none, some, if_true, if_false, arith, ◌==◌, if◌then◌else◌, length, drop, length-set,
}
use rel4u.Prelude.Int.{ℤ, pos}
use rel4u.Packet.{Header, zero_header, header_len, decode_header}
use rel4u.Packet.PktType
use rel4u.Net.{Addr, addr_equal}
use rel4u.Window.Recv.{RecvWindow}
use rel4u.Session.{ClientSession, connecting, connected, find_by_addr, touch_lru}
use rel4u.Endpoint.{Platform, World, Arrival, read_clock, count_recv, control_header, packet_header}
use rel4u.Endpoint.Inbox.{is_code}
use rel4u.Client.{Client}
use rel4u.Client.Worker.{Worker, accepts, is_connecting, is_connected, on_accepted, on_connect_resp}
use rel4u.Client.Worker as ClientWorker
use rel4u.Server.{Server, session_of, put}
use rel4u.Server.Worker.{touched, promoted, on_member, on_other, on_stray, on_connect_req}
use rel4u.Server.Worker as ServerWorker
use rel4u.Server.Inv.{IsServer}
use rel4u.Handshake.{control, control_datagram}
use rel4u.Handshake.Table.{IsInet}
use rel4u.Handshake.Replies.{client_sends, control-decoded, session_of-put}
use rel4u.Handshake.Admission.{IsNew, request-Welcomed}

-- The response of the server at a connecting client.
module _ (env : Platform) (src : Addr) (w : Worker) (session_id : ℕ) (win : RecvWindow) where
  abbrev response : Arrival
  response = record { src = src; bytes = control_datagram session_id win PktType.connect_resp }

  -- The client is connected, with the session and the windows that it had, and has sent its
  -- acknowledgement.
  abbrev pub Connected : Worker → Type 0
  Connected v =
      (v.state ≡ connected)
      × (v.client.state ≡ connected)
      × (v.client.session_id ≡ session_id)
      × (v.client.send_win ≡ w.client.send_win)
      × (v.client.recv_win ≡ w.client.recv_win)
      × (v.world.sent
          ≡ record {
            dest = w.client.server_addr;
            bytes = control_datagram session_id w.client.recv_win PktType.connect_ack;
          }
            ∷ w.world.sent)

  response-accepted :
      addr_equal env.af_inet env.af_inet6 src w.client.server_addr ≡ true
      → session_id < 2 ^ 32
      → session_id ≢ 0
      → w.state ≡ connecting
      → ClientWorker.on_arrival env w response
        ≡ on_accepted env w
            (control session_id win PktType.connect_resp)
            (drop header_len response.bytes)
            (length response.bytes)
  unfolding ClientWorker.on_arrival accepts packet_header control_header
  response-accepted e h k c =
      let bytes = response.bytes in
      if_false {b = not (addr_equal env.af_inet env.af_inet6 src w.client.server_addr)} _ _
        (ap not e)
      ∙ ap
          (λ (x : ℤ × Header).
            if not (is_code 0 x.0)
            then (w, false)
            else if accepts w.state w.client.session_id x.1
            then on_accepted env w x.1 (drop header_len bytes) (length bytes)
            else (w, false))
          (control-decoded session_id win PktType.connect_resp h)
      ∙ if_true {b = is_connecting w.state && not (session_id == 0)} _ _
          (ap (λ x. is_connecting x && not (session_id == 0)) c ∙ ground (arith, k))

  accepted-Connected :
      w.state ≡ connecting
      → Connected
          (on_accepted env w
            (control session_id win PktType.connect_resp)
            (drop header_len response.bytes)
            (length response.bytes)).0
  unfolding on_accepted on_connect_resp packet_header control_header read_clock
  accepted-Connected c =
      let hdr = control session_id win PktType.connect_resp in
      let now = env.time_now_ns w.world.ticks in
      let d : Client = record w.client {
        last_activity_ns = now;
        stats = count_recv w.client.stats (length response.bytes);
        session_id = session_id;
        state = connected;
      } in
      let u : World = record w.world { ticks = w.world.ticks + 1 } in
      let q = client_sends env PktType.connect_ack d u in
      subst (λ (r : Worker × Bool). Connected r.0)
        (sym (if_true {b = is_connecting w.state} _ _ (ap is_connecting c)))
        (refl, q.1, q.2, q.4, q.3, q.0)

-- The acknowledgement of the client at the server.
module _ (env : Platform) (src : Addr) (s : Server) (u : World) (i session_id : ℕ)
    (win : RecvWindow) where
  abbrev confirmation : Arrival
  confirmation = record { src = src; bytes = control_datagram session_id win PktType.connect_ack }

  confirmed :
      session_id < 2 ^ 32
      → find_by_addr env.af_inet env.af_inet6 s.session_table src ≡ some i
      → (session_of s i).session_id ≡ session_id
      → (ServerWorker.on_arrival env confirmation (s, u)).0
        ≡ touched env i
            (env.time_now_ns u.ticks)
            (length confirmation.bytes)
            (record s { stats = count_recv s.stats (length confirmation.bytes) })
  unfolding ServerWorker.on_arrival read_clock on_other on_member packet_header control_header
  confirmed h f e =
      let bytes = confirmation.bytes in
      let now = env.time_now_ns u.ticks in
      let hdr = control session_id win PktType.connect_ack in
      let payload = drop header_len bytes in
      let r : Server × World = (
        record s { stats = count_recv s.stats (length bytes) },
        record u { ticks = u.ticks + 1 },
      ) in
      ap {B = Server}
        (λ (x : ℤ × Header).
          (if not (is_code 0 x.0)
            then (s, u)
            else if x.1.packet_type == PktType.connect_req
            then on_connect_req env src now r
            else on_other env src x.1 payload (length bytes) now r).0)
        (control-decoded session_id win PktType.connect_ack h)
      ∙ ap {B = Server}
          (λ (o : Option ℕ).
            let t : Server × World = elim o [
              | none ↦ on_stray env src hdr r
              | some k ↦
                  if (session_of r.0 k).session_id == hdr.session_id
                  then on_member env k hdr payload (length bytes) now r
                  else on_stray env src hdr r
            ] in
            t.0)
          f
      ∙ ap (λ (t : Server × World). t.0)
          (if_true {b = (session_of s i).session_id == session_id} _ _ (ground (arith, e)))

  touched-connected :
      (now_ns bytes_read : ℕ)
      → i < length s.session_table.sessions
      → (session_of s i).state ≡ connecting
      → let t = touched env i now_ns bytes_read s in
        ((session_of t i).state ≡ connected)
        × ((session_of t i).session_id ≡ (session_of s i).session_id)
  unfolding touched promoted touch_lru
  touched-connected now_ns bytes_read l c =
      let x : ClientSession = record (session_of s i) { last_activity_ns = now_ns } in
      let t = put s i x in
      let y : ClientSession = record (session_of t i) {
        stats = count_recv (session_of t i).stats bytes_read;
      } in
      let at : session_of t i ≡ x = session_of-put env i src s x l in
      let waits : y.state ≡ connecting = ap (λ (z : ClientSession). z.state) at ∙ c in
      let z : ClientSession = if is_connecting y.state then record y { state = connected } else y in
      let last : session_of (put t i z) i ≡ z =
        session_of-put env i src t z (omega (arith, length-set s.session_table.sessions i x, l)) in
      let on : z ≡ record y { state = connected } =
        if_true {b = is_connecting y.state} _ _ (ap is_connecting waits) in
      (
        ap (λ (q : ClientSession). q.state) (last ∙ on),
        ap (λ (q : ClientSession). q.session_id) (last ∙ on)
            ∙ ap (λ (q : ClientSession). q.session_id) at,
      )

-- A connecting client and a server that does not know it: the server's table is valid and has a free
-- session, there is memory for its windows, the request decodes, and the addresses are such that
-- `rel4u_net_addr_equal` tells them. On the request the server gives the client a session, connecting,
-- whose windows start at the number 1, and sends one datagram, to the client. When that reaches the
-- client from the server's address, the client is connected, in the same session, which is not 0,
-- with the windows that it had, and sends one datagram, to the server. When that reaches the server,
-- the session of the client is connected too and has kept its number.
pub handshake_completes :
    (env env' : Platform) (n : ℕ) (s : Server) (u v : World) (src dest : Addr) (bytes : List ℕ)
    (hdr : Header) (w : Worker)
    → IsServer n s
    → IsInet env.af_inet env.af_inet6 src
    → find_by_addr env.af_inet env.af_inet6 s.session_table src ≡ none
    → s.session_table.active_count < s.session_table.max_clients
    → env.window_memory (u.ticks + 1) ≡ (true, true)
    → decode_header bytes (length bytes) zero_header ≡ (pos 0, hdr)
    → hdr.packet_type ≡ PktType.connect_req
    → w.state ≡ connecting
    → addr_equal env'.af_inet env'.af_inet6 dest w.client.server_addr ≡ true
    → let r = ServerWorker.on_arrival env (record { src = src; bytes = bytes }) (s, u) in
      (i : ℕ) × IsNew src (session_of r.0 i)
      × ((session_of r.0 i).state ≡ connecting)
      × ((resp : List ℕ) × (r.1.sent ≡ record { dest = src; bytes = resp } ∷ u.sent)
          × (let c = (ClientWorker.on_arrival env' w (record { src = dest; bytes = resp })).0 in
              (c.state ≡ connected)
              × (c.client.state ≡ connected)
              × (c.client.session_id ≡ (session_of r.0 i).session_id)
              × (c.client.send_win ≡ w.client.send_win)
              × (c.client.recv_win ≡ w.client.recv_win)
              × ((ack : List ℕ) × (c.world.sent
                    ≡ record { dest = w.client.server_addr; bytes = ack } ∷ w.world.sent)
                  × (let t =
                        (ServerWorker.on_arrival env
                          (record { src = src; bytes = ack })
                          (r.0, v)).0 in
                      ((session_of t i).state ≡ connected)
                      × ((session_of t i).session_id ≡ c.client.session_id)))))
handshake_completes env env' n s u v src dest bytes hdr w valid inet unknown free memory d t
      connecting_now same =
    let (i, l, f, new, c, sent) =
      request-Welcomed env src inet n s u bytes hdr valid unknown free memory d t in
    let r = ServerWorker.on_arrival env (record { src = src; bytes = bytes }) (s, u) in
    let x = session_of r.0 i in
    let resp = control_datagram x.session_id x.recv_win PktType.connect_resp in
    let ack = control_datagram x.session_id w.client.recv_win PktType.connect_ack in
    let q : Connected env' dest w x.session_id x.recv_win
        (ClientWorker.on_arrival env' w (record { src = dest; bytes = resp })).0 =
      subst (λ (a : Worker × Bool). Connected env' dest w x.session_id x.recv_win a.0)
        (sym (
          response-accepted env' dest w x.session_id x.recv_win same new.id_fits new.id_given
            connecting_now))
        (accepted-Connected env' dest w x.session_id x.recv_win connecting_now) in
    let known : Server = record r.0 { stats = count_recv r.0.stats (length ack) } in
    let k =
      touched-connected env src known v i x.session_id w.client.recv_win (env.time_now_ns v.ticks)
        (length ack) l c in
    let e = confirmed env src r.0 v i x.session_id w.client.recv_win new.id_fits f refl in
    let Now = λ (a : Server).
      ((session_of a i).state ≡ connected) × ((session_of a i).session_id ≡ x.session_id) in
    let z = subst Now (sym e) k in
    (i, new, c, (resp, sent, (q.0, q.1, q.2, q.3, q.4, (ack, q.5, (z.0, z.1 ∙ sym q.2)))))
