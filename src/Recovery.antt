-- ===== src/Recovery.antt =====
-- A server that has lost a session, and the client that still holds it: the answer of
-- src/core/rel4u_server.c to the client's packets, and what src/core/rel4u_client.c does on it.
mod Tests
use rel4u.Prelude.{
  ℕ, ◌+◌, ◌%◌, ◌^◌, ◌<◌, ◌≡◌, ◌≢◌, refl, sym, ap, subst, ◌∙◌, Bool, true, false, not, ◌&&◌, ◌||◌,
  List, [], ◌∷◌, Option, none, some, ◌⊎◌, inl, inr, if_true, if_false, arith, ◌==◌, if◌then◌else◌,
  length, drop,
}
use rel4u.Prelude.Int.{ℤ, pos}
use rel4u.Packet.{Header, zero_header, header_len, decode_header}
use rel4u.Packet.PktType
use rel4u.Packet.RoundTrip.{AllBytes}
use rel4u.Endpoint.Incoming.{decoded_seq-lt}
use rel4u.Net.{Addr, addr_equal}
use rel4u.Window.Send.{reclaim_unacked}
use rel4u.Window.Send
use rel4u.Window.Recv
use rel4u.Session.{ConnState, connecting, connected, find_by_addr}
use rel4u.Endpoint.{
  Platform, World, Datagram, Arrival, read_clock, send_to, control_header, control_bytes,
  count_recv,
}
use rel4u.Endpoint.Inbox.{is_code}
use rel4u.Endpoint.Wire.{reset_header, decode-reset}
use rel4u.Client.{Client, fresh_session, reconnect, trigger_reconnect}
use rel4u.Client.Worker.{Worker, accepts, is_connecting, is_connected, on_accepted}
use rel4u.Client.Worker
use rel4u.Server.{Server, session_of}
use rel4u.Server.Worker.{answer, on_connect_req, on_stray, on_other, on_member}
use rel4u.Server.Worker as ServerWorker

-- The types of packet that the server answers although it has no session for their sender.
abbrev pub IsAnswered : ℕ → Type 0
IsAnswered type =
    (type ≢ PktType.connect_req)
    × (type ≢ PktType.reset)
    × (type ≢ PktType.disconnect)
    × (type ≢ PktType.reject)

module _ (env : Platform) (a : Arrival) (hdr : Header) (s : Server) (u : World) where
  stray_answer :
      decode_header a.bytes (length a.bytes) zero_header ≡ (pos 0, hdr)
      → IsAnswered hdr.packet_type
      → find_by_addr env.af_inet env.af_inet6 s.session_table a.src ≡ none
      → ServerWorker.on_arrival env a (s, u) ≡ (
        record s { stats = count_recv s.stats (length a.bytes) },
        record {
          ticks = u.ticks + 1;
          sent =
              record {
                dest = a.src;
                bytes = control_bytes (reset_header hdr.session_id hdr.seq_num);
              }
              ∷ u.sent;
        },
      )
  unfolding ServerWorker.on_arrival read_clock on_other on_stray answer send_to
  stray_answer d t f =
      let now = env.time_now_ns u.ticks in
      let r : Server × World = (
        record s { stats = count_recv s.stats (length a.bytes) },
        record u { ticks = u.ticks + 1 },
      ) in
      let payload = drop header_len a.bytes in
      ap
        (λ (x : ℤ × Header).
          if not (is_code 0 x.0)
          then (s, u)
          else if x.1.packet_type == PktType.connect_req
          then on_connect_req env a.src now r
          else on_other env a.src x.1 payload (length a.bytes) now r)
        d
      ∙ if_false {b = hdr.packet_type == PktType.connect_req} _ _ (ground arith)
      ∙ ap {B = Server × World}
          (λ (o : Option ℕ). elim o [
            | none ↦ on_stray env a.src hdr r
            | some i ↦
                if (session_of r.0 i).session_id == hdr.session_id
                then on_member env i hdr payload (length a.bytes) now r
                else on_stray env a.src hdr r
          ])
          f
      ∙ if_false
          {b = hdr.packet_type == PktType.reset
            || (hdr.packet_type == PktType.disconnect || hdr.packet_type == PktType.reject)}
          _ _ (ground arith)

-- What the client makes of the RESET for its session.
module _ (env : Platform) (src : Addr) (w : Worker) (seq : ℕ) where
  abbrev answer_to : Arrival
  answer_to = record { src = src; bytes = control_bytes (reset_header w.client.session_id seq) }

  after_reset :
      addr_equal env.af_inet env.af_inet6 src w.client.server_addr ≡ true
      → w.client.session_id < 2 ^ 32
      → seq < 2 ^ 32
      → w.state ≡ connected
      → Worker.on_arrival env w answer_to
        ≡ on_accepted env w
            (reset_header w.client.session_id seq)
            (drop header_len answer_to.bytes)
            (length answer_to.bytes)
  unfolding Worker.on_arrival accepts control_header
  after_reset e h k c =
      let bytes = answer_to.bytes in
      if_false {b = not (addr_equal env.af_inet env.af_inet6 src w.client.server_addr)} _ _
        (ap not e)
      ∙ ap
          (λ (x : ℤ × Header).
            if not (is_code 0 x.0)
            then (w, false)
            else if accepts w.state w.client.session_id x.1
            then on_accepted env w x.1 (drop header_len bytes) (length bytes)
            else (w, false))
          (decode-reset w.client.session_id seq h k)
      ∙ if_true {b = is_connected w.state && w.client.session_id == w.client.session_id} _ _
          (ap (λ x. is_connected x && w.client.session_id == w.client.session_id) c ∙ ground arith)

  abbrev pub Reconnected : Worker → Type 0
  Reconnected v =
      (v.client.state ≡ connecting)
      × (v.state ≡ connecting)
      × (v.client.session_id ≡ 0)
      × (v.client.send_queue
          ≡ (reclaim_unacked env.node_size env.has_memory w.client.send_win w.client.send_queue).0)
      × (v.client.send_win ≡ (Send.reset w.client.send_win 1).1)
      × (v.client.recv_win ≡ (Recv.reset w.client.recv_win 1).1)

  reset-Reconnected :
      w.client.config.disable_auto_reconnect ≡ false
      → Reconnected
          (on_accepted env w
            (reset_header w.client.session_id seq)
            (drop header_len answer_to.bytes)
            (length answer_to.bytes)).0
  unfolding on_accepted control_header trigger_reconnect reconnect fresh_session read_clock
  reset-Reconnected e =
      let now = env.time_now_ns w.world.ticks in
      let c : Client = record w.client {
        last_activity_ns = now;
        stats = count_recv w.client.stats (length answer_to.bytes);
      } in
      let u : World = record w.world { ticks = w.world.ticks + 1 } in
      subst
        (λ (r : Client × World).
          Reconnected (record w { client = r.0; world = r.1; state = r.0.state }))
        (sym (if_false _ (reconnect env (c, u)) e)) (refl, refl, refl, refl, refl, refl)

-- A packet of a connected client reaches a server that knows no session for the client's address: the
-- packet decodes, and is no connection request, RESET, DISCONNECT or REJECT. The server sends one
-- datagram, to the packet's source. When it reaches the client whose session the packet names, from
-- the server's address, a client that may reconnect on its own does: it is connecting, without a
-- session, with its windows reset to the number 1, and its unacknowledged packets are back in its
-- send queue as `rel4u_send_window_reclaim_unacked` puts them there.
pub lost_session :
    (env env' : Platform) (a : Arrival) (hdr : Header) (s : Server) (u : World) (src : Addr)
    (w : Worker)
    → decode_header a.bytes (length a.bytes) zero_header ≡ (pos 0, hdr)
    → AllBytes a.bytes
    → IsAnswered hdr.packet_type
    → find_by_addr env.af_inet env.af_inet6 s.session_table a.src ≡ none
    → hdr.session_id ≡ w.client.session_id
    → w.client.session_id < 2 ^ 32
    → w.state ≡ connected
    → w.client.config.disable_auto_reconnect ≡ false
    → addr_equal env'.af_inet env'.af_inet6 src w.client.server_addr ≡ true
    → (d : Datagram) × ((ServerWorker.on_arrival env a (s, u)).1.sent ≡ d ∷ u.sent)
      × (d.dest ≡ a.src)
      × Reconnected env' src w hdr.seq_num
          (Worker.on_arrival env' w (record { src = src; bytes = d.bytes })).0
lost_session env env' a hdr s u src w d b t f e h c auto same =
    let seq_fits : hdr.seq_num < 2 ^ 32 =
      subst (λ (r : ℤ × Header). r.1.seq_num < 2 ^ 32) d (decoded_seq-lt a.bytes b) in
    let sent : List ℕ = control_bytes (reset_header hdr.session_id hdr.seq_num) in
    let bytes : control_bytes (reset_header w.client.session_id hdr.seq_num) ≡ sent =
      ap (λ n. control_bytes (reset_header n hdr.seq_num)) (sym e) in
    (
      record { dest = a.src; bytes = sent },
      ap (λ (r : Server × World). r.1.sent) (stray_answer env a hdr s u d t f),
      refl,
      subst
          (λ bs.
            Reconnected env' src w hdr.seq_num
              (Worker.on_arrival env' w (record { src = src; bytes = bs })).0)
          bytes
          (subst (λ (r : Worker × Bool). Reconnected env' src w hdr.seq_num r.0)
            (sym (after_reset env' src w hdr.seq_num same h seq_fits c))
            (reset-Reconnected env' src w hdr.seq_num auto)),
    )
