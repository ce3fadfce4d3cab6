-- ===== src/Server/Arrivals.antt =====
-- Whatever arrives at the server, its sessions stay valid.
use rel4u.Prelude.{
  ℕ, ◌^◌, ◌<◌, ◌≡◌, true, not, ◌||◌, List, [], ◌∷◌, if_intro, option_intro, arith, ◌==◌,
  if◌then◌else◌, length, drop,
}
use rel4u.Packet.{Header, zero_header, header_len, decode_header}
use rel4u.Packet.PktType
use rel4u.Packet.DeliveryMode
use rel4u.Packet.RoundTrip.{AllBytes}
use rel4u.Net.{Addr}
use rel4u.Session.{find_by_addr}
use rel4u.Endpoint.{Platform, World, Arrival, read_clock, count_recv}
use rel4u.Endpoint.Inbox.{is_code}
use rel4u.Endpoint.Incoming.{decoded_seq-lt, AllArrived}
use rel4u.Server.{Server, session_of, send_packet}
use rel4u.Server.Worker.{
  answer, on_stray, take_acks, on_session_packet, touched, on_member, on_other, on_arrival,
  recv_loop,
}
use rel4u.Server.Inv.{IsServer, free-IsServer, find_by_addr-lt}
use rel4u.Server.Packets.{
  Good, control-IsServer, on_connect_req-IsServer, take_acks-IsServer, take_data-IsServer,
  touched-IsServer,
}

module _ (env : Platform) (n : ℕ) where
  on_session_packet-IsServer :
      (i : ℕ) (hdr : Header) (payload : List ℕ) (now_ns : ℕ) (r : Server × World)
      → i < n
      → hdr.seq_num < 2 ^ 32
      → Good env n r
      → Good env n (on_session_packet env i hdr payload now_ns r)
  unfolding on_session_packet
  on_session_packet-IsServer i hdr payload now_ns (s, u) l h v =
      let a = take_acks-IsServer env n i hdr now_ns s l v in
      let acked : Server × World = (take_acks env i hdr now_ns s, u) in
      let beat : Server × World =
        if hdr.packet_type == PktType.heartbeat
        then send_packet env i PktType.heartbeat_ack DeliveryMode.unreliable_unordered 0 [] 0 acked
        else acked in
      let b : Good env n beat =
        if_intro (Good env n) (hdr.packet_type == PktType.heartbeat)
          (λ e. control-IsServer env n i PktType.heartbeat_ack acked l a) (λ e. a) in
      if_intro (Good env n) (hdr.packet_type == PktType.data_pkt)
        (λ e. take_data-IsServer env n i hdr payload beat.0 l h b) (λ e. b)

  on_member-IsServer :
      (i : ℕ) (hdr : Header) (payload : List ℕ) (bytes_read now_ns : ℕ) (r : Server × World)
      → i < n
      → hdr.seq_num < 2 ^ 32
      → Good env n r
      → Good env n (on_member env i hdr payload bytes_read now_ns r)
  unfolding on_member
  on_member-IsServer i hdr payload bytes_read now_ns (s, u) l h v =
      let t = touched env i now_ns bytes_read s in
      let w = touched-IsServer env n i now_ns bytes_read s l v in
      if_intro (Good env n) (hdr.packet_type == PktType.connect_ack) (λ e. w)
        (λ e.
          if_intro (Good env n) (hdr.packet_type == PktType.disconnect)
            (λ f. free-IsServer n t w i l)
            (λ f. on_session_packet-IsServer i hdr payload now_ns (t, u) l h w))

  on_stray-IsServer :
      (src : Addr) (hdr : Header) (r : Server × World)
      → Good env n r
      → (Good env n) (on_stray env src hdr r)
  unfolding on_stray answer
  on_stray-IsServer src hdr (s, u) v =
      if_intro (Good env n)
        (hdr.packet_type == PktType.reset
          || (hdr.packet_type == PktType.disconnect || hdr.packet_type == PktType.reject))
        (λ e. v) (λ e. v)

  on_other-IsServer :
      (src : Addr) (hdr : Header) (payload : List ℕ) (bytes_read now_ns : ℕ) (r : Server × World)
      → hdr.seq_num < 2 ^ 32
      → Good env n r
      → Good env n (on_other env src hdr payload bytes_read now_ns r)
  unfolding on_other
  on_other-IsServer src hdr payload bytes_read now_ns (s, u) h v =
      option_intro (Good env n) (find_by_addr env.af_inet env.af_inet6 s.session_table src)
        (on_stray-IsServer src hdr (s, u) v)
        (λ i e.
          if_intro (Good env n) ((session_of s i).session_id == hdr.session_id)
            (λ f.
              on_member-IsServer i hdr payload bytes_read now_ns (s, u)
                (omega (
                  arith,
                  v.room,
                  find_by_addr-lt env.af_inet env.af_inet6 s.session_table src i v.table_valid e,
                ))
                h v)
            (λ f. on_stray-IsServer src hdr (s, u) v))

  module _ (memory : (t : ℕ) → env.window_memory t ≡ (true, true)) where
    on_arrival-IsServer :
        (a : Arrival) (r : Server × World)
        → AllBytes a.bytes
        → Good env n r
        → (Good env n) (on_arrival env a r)
    unfolding on_arrival
    on_arrival-IsServer a (s, u) b v =
        let r = decode_header a.bytes (length a.bytes) zero_header in
        let clock = read_clock env u in
        let t : Server = record s { stats = count_recv s.stats (length a.bytes) } in
        let w : IsServer n t = record {
          table_valid = v.table_valid;
          sessions_valid = v.sessions_valid;
          room = v.room;
        } in
        if_intro (Good env n) (not (is_code 0 r.0)) (λ e. v)
          (λ e.
            if_intro (Good env n) (r.1.packet_type == PktType.connect_req)
              (λ f. on_connect_req-IsServer env n memory a.src clock.0 (t, clock.1) w)
              (λ f.
                on_other-IsServer a.src r.1 (drop header_len a.bytes) (length a.bytes) clock.0
                  (t, clock.1) (decoded_seq-lt a.bytes b) w))

    pub recv_loop-IsServer :
        (arrivals : List Arrival) (r : Server × World)
        → AllArrived arrivals
        → Good env n r
        → Good env n (recv_loop env arrivals r)
    unfolding recv_loop
    recv_loop-IsServer [] r b v = v
    recv_loop-IsServer (a ∷ later) r b v =
        if_intro (Good env n) (length a.bytes == 0) (λ e. v)
          (λ e. recv_loop-IsServer later (on_arrival env a r) b.1 (on_arrival-IsServer a r b.0 v))
