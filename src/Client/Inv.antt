-- ===== src/Client/Inv.antt =====
-- The client's windows and estimator stay valid, whatever arrives.
use rel4u.Prelude.{
  ℕ, ◌^◌, ◌<◌, Bool, not, ◌&&◌, List, [], ◌∷◌, if_intro, arith, ◌==◌, if◌then◌else◌, length, drop,
}
use rel4u.Prelude.Int.{pos, ltb_ℤ, leb_ℤ}
use rel4u.Packet.{Header, zero_header, header_len, decode_header}
use rel4u.Packet.PktType
use rel4u.Packet.DeliveryMode
use rel4u.Packet.RoundTrip.{AllBytes}
use rel4u.Net.{addr_equal}
use rel4u.Window.Send.{AckState, on_ack}
use rel4u.Window.Send.OnAck.{on_ack_lem}
use rel4u.Window.Fresh.{send_reset-IsSendWindow, recv_reset-IsRecvWindow}
use rel4u.Endpoint.{Platform, World, Arrival, send_to, packet_header, packet_bytes}
use rel4u.Endpoint.Inbox.{is_code}
use rel4u.Endpoint.Link.{IsLink, default_rtt-IsValid, on_ack-IsValid}
use rel4u.Endpoint.Incoming.{AllArrived, on_data-IsRecvWindow, decoded_seq-lt}
use rel4u.Client.{Client, fresh_session, packet_sent, send_packet, reconnect, trigger_reconnect}
use rel4u.Client.Worker.{
  Worker, accepts, is_connecting, on_connect_resp, on_session_packet, on_accepted, on_arrival,
  recv_loop,
}

abbrev pub IsClient : Client → Type 0
IsClient c = IsLink c.send_win c.recv_win c.rtt

fresh_session-IsClient : (c : Client) → IsClient c → IsClient (fresh_session c)
unfolding fresh_session
fresh_session-IsClient c v = record {
  send_valid = send_reset-IsSendWindow c.send_win 1 v.send_valid (omega arith);
  recv_valid = recv_reset-IsRecvWindow c.recv_win 1 v.recv_valid (omega arith);
  rtt_valid = default_rtt-IsValid;
}

module _ (env : Platform) where
  pub send_packet-IsClient :
      (type mode seq : ℕ) (payload : List ℕ) (len : ℕ) (r : Client × World)
      → IsClient r.0
      → IsClient (send_packet env type mode seq payload len r).0
  unfolding send_packet packet_sent
  send_packet-IsClient type mode seq payload len (c, u) v =
      let raw =
        packet_bytes (packet_header c.session_id c.recv_win type mode seq len) payload len in
      let sent = send_to env u c.server_addr raw.1 in
      let Valid = λ (t : Client × World). IsClient t.0 in
      if_intro Valid (leb_ℤ raw.0 (pos 0)) (λ e. v)
        (λ e. if_intro Valid (ltb_ℤ (pos 0) sent.0) (λ f. v) (λ f. v))

  pub trigger_reconnect-IsClient :
      (r : Client × World) → IsClient r.0 → IsClient (trigger_reconnect env r).0
  unfolding trigger_reconnect reconnect
  trigger_reconnect-IsClient (c, u) v =
      if_intro (λ (t : Client × World). IsClient t.0) c.config.disable_auto_reconnect (λ e. v)
        (λ e. fresh_session-IsClient _ v)

  on_session_packet-IsClient :
      (r : Client × World) (hdr : Header) (payload : List ℕ) (now_ns : ℕ)
      → hdr.seq_num < 2 ^ 32
      → IsClient r.0
      → IsClient (on_session_packet env r hdr payload now_ns).0
  unfolding on_session_packet
  on_session_packet-IsClient (c, u) hdr payload now_ns h v =
      let s : AckState = record { win = c.send_win; rtt = c.rtt; stats = c.stats } in
      let a = on_ack hdr.ack_num hdr.sack_mask now_ns s in
      let acked : Client = record c { send_win = a.win; rtt = a.rtt; stats = a.stats } in
      let w : IsClient acked = record {
        send_valid = (on_ack_lem hdr.ack_num hdr.sack_mask now_ns s v.send_valid).0;
        recv_valid = v.recv_valid;
        rtt_valid = on_ack-IsValid now_ns hdr.ack_num hdr.sack_mask s v.rtt_valid;
      } in
      let Valid = λ (t : Client × World). IsClient t.0 in
      let b : IsClient
          (if hdr.packet_type == PktType.heartbeat
            then send_packet env PktType.heartbeat_ack DeliveryMode.unreliable_unordered 0 [] 0
                (acked, u)
            else (acked, u)).0 =
        if_intro Valid (hdr.packet_type == PktType.heartbeat)
          (λ e.
            send_packet-IsClient PktType.heartbeat_ack DeliveryMode.unreliable_unordered 0 [] 0
              (acked, u) w)
          (λ e. w) in
      if_intro Valid (hdr.packet_type == PktType.data_pkt)
        (λ e. record {
          send_valid = b.send_valid;
          recv_valid =
              on_data-IsRecvWindow env.node_size env.has_memory 0 _ _ hdr payload b.recv_valid h;
          rtt_valid = b.rtt_valid;
        })
        (λ e. b)

  abbrev pub Good : Worker → Type 0
  Good w = IsClient w.client

  on_accepted-IsClient :
      (w : Worker) (hdr : Header) (payload : List ℕ) (bytes_read : ℕ)
      → hdr.seq_num < 2 ^ 32
      → Good w
      → Good (on_accepted env w hdr payload bytes_read).0
  unfolding on_accepted on_connect_resp
  on_accepted-IsClient w hdr payload bytes_read h v =
      let Valid = λ (t : Worker × Bool). Good t.0 in
      if_intro Valid (hdr.packet_type == PktType.connect_resp && is_connecting w.state)
        (λ e. send_packet-IsClient PktType.connect_ack DeliveryMode.unreliable_unordered 0 [] 0 _ v)
        (λ e.
          if_intro Valid (hdr.packet_type == PktType.reset) (λ f. trigger_reconnect-IsClient _ v)
            (λ f.
              if_intro Valid (hdr.packet_type == PktType.reject) (λ g. v)
                (λ g.
                  if_intro Valid (hdr.packet_type == PktType.disconnect) (λ k. v)
                    (λ k. on_session_packet-IsClient _ hdr payload _ h v))))

  on_arrival-IsClient :
      (w : Worker) (a : Arrival) → AllBytes a.bytes → Good w → Good (on_arrival env w a).0
  unfolding on_arrival
  on_arrival-IsClient w a b v =
      let r = decode_header a.bytes (length a.bytes) zero_header in
      let Valid = λ (t : Worker × Bool). Good t.0 in
      if_intro Valid (not (addr_equal env.af_inet env.af_inet6 a.src w.client.server_addr)) (λ e. v)
        (λ e.
          if_intro Valid (not (is_code 0 r.0)) (λ f. v)
            (λ f.
              if_intro Valid (accepts w.state w.client.session_id r.1)
                (λ g.
                  on_accepted-IsClient w r.1 (drop header_len a.bytes) (length a.bytes)
                    (decoded_seq-lt a.bytes b) v)
                (λ g. v)))

  pub recv_loop-IsClient :
      (w : Worker) (arrivals : List Arrival)
      → AllArrived arrivals
      → Good w
      → Good (recv_loop env w arrivals)
  unfolding recv_loop
  recv_loop-IsClient w [] b v = v
  recv_loop-IsClient w (a ∷ later) b v =
      let u = on_arrival-IsClient w a b.0 v in
      if_intro Good (length a.bytes == 0) (λ e. v)
        (λ e.
          if_intro Good (on_arrival env w a).1 (λ f. u)
            (λ f. recv_loop-IsClient (on_arrival env w a).0 later b.1 u))
