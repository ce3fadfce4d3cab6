-- ===== src/Client/Link/Loop.antt =====
-- The loop over the datagrams, `Client.Worker.recv_loop`, against the table of Client.Link.
use rel4u.Prelude.{
  ℕ, ◌≡◌, refl, sym, ap, subst, ◌∙◌, Bool, true, false, not, ◌&&◌, List, [], ◌∷◌, ◌⊎◌, inl, inr,
  Bool-cases, if_true, if_false, if_intro, arith, ◌==◌, if◌then◌else◌, length, drop,
}
use rel4u.Prelude.Int.{pos, ltb_ℤ, leb_ℤ}
use rel4u.Packet.{Header, zero_header, header_len, decode_header}
use rel4u.Packet.PktType
use rel4u.Packet.DeliveryMode
use rel4u.Net.{addr_equal}
use rel4u.Session.{ConnState, disconnected, connecting, connected}
use rel4u.Endpoint.{
  Platform, World, Arrival, read_clock, send_to, packet_header, packet_bytes, count_recv,
}
use rel4u.Endpoint.Inbox.{is_code}
use rel4u.Client.{
  ClientConfig, Client, packet_sent, send_packet, fresh_session, reconnect, trigger_reconnect,
}
use rel4u.Client.Link.{
  link_after, link_through, link_through-disconnected, link_after_response, link_after-reset,
  link_after-reject, link_after-disconnect, link_after_other, link_after_refused,
}
use rel4u.Client.Worker.{
  Worker, accepts, is_connecting, on_connect_resp, on_session_packet, on_accepted, on_arrival,
  recv_loop,
}

abbrev link : Client → ConnState × ℕ
link c = (c.state, c.session_id)

-- The settings that a datagram does not change.
abbrev SameServer : Client → Client → Type 0
SameServer c d = (d.server_addr ≡ c.server_addr) × (d.config ≡ c.config)

abbrev SameLink : Client → Client → Type 0
SameLink c d = (link d ≡ link c) × SameServer c d

module _ (env : Platform) where
  send_packet-link :
      (type mode seq : ℕ) (payload : List ℕ) (len : ℕ) (r : Client × World)
      → SameLink r.0 (send_packet env type mode seq payload len r).0
  unfolding send_packet packet_sent
  send_packet-link type mode seq payload len (c, u) =
      let raw =
        packet_bytes (packet_header c.session_id c.recv_win type mode seq len) payload len in
      let sent = send_to env u c.server_addr raw.1 in
      let Same = λ (t : Client × World). SameLink c t.0 in
      if_intro Same (leb_ℤ raw.0 (pos 0)) (λ e. (refl, (refl, refl)))
        (λ e.
          if_intro Same (ltb_ℤ (pos 0) sent.0) (λ f. (refl, (refl, refl)))
            (λ f. (refl, (refl, refl))))

  on_session_packet-link :
      (r : Client × World) (hdr : Header) (payload : List ℕ) (now_ns : ℕ)
      → SameLink r.0 (on_session_packet env r hdr payload now_ns).0
  unfolding on_session_packet
  on_session_packet-link (c, u) hdr payload now_ns =
      let Same = λ (t : Client × World). SameLink c t.0 in
      let beat =
        if_intro Same (hdr.packet_type == PktType.heartbeat)
          (λ e. send_packet-link PktType.heartbeat_ack DeliveryMode.unreliable_unordered 0 [] 0 _)
          (λ e. (refl, (refl, refl))) in
      if_intro Same (hdr.packet_type == PktType.data_pkt) (λ e. beat) (λ e. beat)

  reconnect-link :
      (c : Client) (u : World) (disabled : Bool)
      → (link (if disabled then (record c { state = disconnected }, u) else reconnect env (c, u)).0
          ≡ (if disabled then (disconnected, c.session_id) else (connecting, 0)))
        × SameServer c
            (if disabled then (record c { state = disconnected }, u) else reconnect env (c, u)).0
  unfolding reconnect fresh_session
  reconnect-link c u true = (refl, (refl, refl))
  reconnect-link c u false = (refl, (refl, refl))

  trigger_reconnect-link :
      (r : Client × World)
      → (link (trigger_reconnect env r).0 ≡ (
          if r.0.config.disable_auto_reconnect
          then (disconnected, r.0.session_id)
          else (connecting, 0)))
        × SameServer r.0 (trigger_reconnect env r).0
  unfolding trigger_reconnect
  trigger_reconnect-link (c, u) = reconnect-link c u c.config.disable_auto_reconnect

  -- What a datagram does to the link of the worker's client.
  abbrev Follows : ConnState × ℕ → Worker → Worker × Bool → Type 0
  Follows next w r =
      (link r.0.client ≡ next)
      × SameServer w.client r.0.client
      × (((r.1 ≡ true) × (r.0.client.state ≡ disconnected))
          ⊎ ((r.1 ≡ false) × (r.0.state ≡ r.0.client.state)))

  on_accepted-Follows :
      (w : Worker) (hdr : Header) (payload : List ℕ) (bytes_read : ℕ)
      → w.state ≡ w.client.state
      → accepts w.state w.client.session_id hdr ≡ true
      → Follows
          (link_after w.client.config.disable_auto_reconnect hdr w.state w.client.session_id)
          w
          (on_accepted env w hdr payload bytes_read)
  unfolding on_accepted on_connect_resp
  on_accepted-Follows w hdr payload bytes_read same ok =
      let clock = read_clock env w.world in
      let c : Client = record w.client {
        last_activity_ns = clock.0;
        stats = count_recv w.client.stats bytes_read;
      } in
      let disabled = c.config.disable_auto_reconnect in
      let Holds = Follows (link_after disabled hdr w.state c.session_id) w in
      if_intro Holds (hdr.packet_type == PktType.connect_resp && is_connecting w.state)
        (λ e.
          let s =
            send_packet-link PktType.connect_ack DeliveryMode.unreliable_unordered 0 [] 0
              (record c { session_id = hdr.session_id; state = connected }, clock.1) in
          let after = link_after_response disabled hdr w.state c.session_id ok e in
          (s.0 ∙ sym after, s.1, inr (refl, sym (ap (λ t. t.0) s.0))))
        (λ e.
          if_intro Holds (hdr.packet_type == PktType.reset)
            (λ f.
              let s = trigger_reconnect-link (c, clock.1) in
              let after = link_after-reset disabled hdr w.state c.session_id ok f in
              (s.0 ∙ sym after, s.1, inr (refl, refl)))
            (λ f.
              if_intro Holds (hdr.packet_type == PktType.reject)
                (λ g.
                  let after = link_after-reject disabled hdr w.state c.session_id ok g in
                  (sym after, (refl, refl), inl (refl, refl)))
                (λ g.
                  if_intro Holds (hdr.packet_type == PktType.disconnect)
                    (λ k.
                      let after = link_after-disconnect disabled hdr w.state c.session_id ok k in
                      (sym after, (refl, refl), inl (refl, refl)))
                    (λ k.
                      let s = on_session_packet-link (c, clock.1) hdr payload clock.0 in
                      let after = link_after_other disabled hdr w.state c.session_id e f g k in
                      (
                        s.0 ∙ ap (λ t. (t, c.session_id)) (sym same) ∙ sym after,
                        s.1,
                        inr (refl, same ∙ sym (ap (λ t. t.0) s.0)),
                      )))))

module _ (env : Platform) where
  -- The link after one datagram.
  abbrev after_arrival : Worker → Arrival → ConnState × ℕ
  after_arrival w a =
      let r = decode_header a.bytes (length a.bytes) zero_header in
      if addr_equal env.af_inet env.af_inet6 a.src w.client.server_addr && is_code 0 r.0
      then link_after w.client.config.disable_auto_reconnect r.1 w.state w.client.session_id
      else (w.state, w.client.session_id)

  on_arrival-Follows :
      (w : Worker) (a : Arrival)
      → w.state ≡ w.client.state
      → Follows env (after_arrival w a) w (on_arrival env w a)
  unfolding on_arrival
  on_arrival-Follows w a same =
      let r = decode_header a.bytes (length a.bytes) zero_header in
      let near = addr_equal env.af_inet env.af_inet6 a.src w.client.server_addr in
      let session = w.client.session_id in
      let Holds = Follows env (after_arrival w a) w in
      let unmoved : Follows env (w.state, session) w (w, false) =
        (ap (λ s. (s, session)) (sym same), (refl, refl), inr (refl, same)) in
      let ignored : (near && is_code 0 r.0) ≡ false → Holds (w, false) =
        λ e. subst (λ l. Follows env l w (w, false)) (sym (if_false _ _ e)) unmoved in
      if_intro Holds (not near) (λ e. ignored (ground arith))
        (λ e.
          if_intro Holds (not (is_code 0 r.0)) (λ f. ignored (ground arith))
            (λ f.
              let known : (near && is_code 0 r.0) ≡ true = ground arith in
              let disabled = w.client.config.disable_auto_reconnect in
              let after = link_after disabled r.1 w.state session in
              if_intro Holds (accepts w.state session r.1)
                (λ g.
                  subst
                    (λ l.
                      Follows env l w
                        (on_accepted env w r.1 (drop header_len a.bytes) (length a.bytes)))
                    (sym (if_true _ _ known))
                    (on_accepted-Follows env w r.1 (drop header_len a.bytes) (length a.bytes) same
                      g))
                (λ g.
                  subst (λ l. Follows env l w (w, false))
                    (sym (link_after_refused disabled r.1 w.state session g)
                      ∙ sym (if_true _ _ known))
                    unmoved)))

  -- If the worker's copy of the state agrees with the client's, the state and the session of the client
  -- after the datagrams of one round are those that a table gives, packet by packet. While connecting,
  -- CONNECT_RESP with a session other than 0 connects with that session and REJECT disconnects. While
  -- connected, and with the client's session in the header, RESET goes back to connecting without a
  -- session (to disconnected if the client may not reconnect), and DISCONNECT disconnects. Nothing else
  -- moves them. Only packets of the server's address that decode count, up to the first datagram
  -- without bytes.
  pub recv_loop-link_through :
      (w : Worker) (arrivals : List Arrival)
      → w.state ≡ w.client.state
      → let c = (recv_loop env w arrivals).client in
        (c.state, c.session_id)
        ≡ link_through env w.client.server_addr w.client.config.disable_auto_reconnect arrivals
            (w.state, w.client.session_id)
  unfolding recv_loop link_through
  recv_loop-link_through w [] same = ap (λ s. (s, w.client.session_id)) (sym same)
  recv_loop-link_through w (a ∷ later) same =
      let r = on_arrival env w a in
      let f = on_arrival-Follows w a same in
      let server = w.client.server_addr in
      let through = λ (l : ConnState × ℕ).
        link_through env server w.client.config.disable_auto_reconnect later l in
      elim (Bool-cases (length a.bytes == 0)) [
        | inl e ↦ rw e (ap (λ s. (s, w.client.session_id)) (sym same))
        | inr e ↦ rw e (elim f.2 [
          | inl (stop, down) ↦
              let session = r.0.client.session_id in
              let ended = ap (λ s. (s, session)) down in
              ap (λ (v : Worker). link v.client) (if_true _ _ stop)
              ∙ ended
              ∙ sym (link_through-disconnected env server _ later session)
              ∙ ap through (sym ended ∙ f.0)
          | inr (on, agree) ↦
              ap (λ (v : Worker). link v.client) (if_false _ _ on)
              ∙ recv_loop-link_through r.0 later agree
              ∙ ap
                  (λ t.
                    link_through env t r.0.client.config.disable_auto_reconnect later
                      (r.0.state, r.0.client.session_id))
                  f.1.0
              ∙ ap
                  (λ (k : ClientConfig).
                    link_through env server k.disable_auto_reconnect later
                      (r.0.state, r.0.client.session_id))
                  f.1.1
              ∙ ap through (ap (λ s. (s, r.0.client.session_id)) agree ∙ f.0)
        ])
      ]
