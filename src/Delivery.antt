-- ===== src/Delivery.antt =====
-- A message from the application of a client to that of the server, composed: `rel4u_client_send` and
-- the client's worker of src/core/rel4u_client.c, the server's worker and `rel4u_server_recv` of
-- src/core/rel4u_server.c.
mod Tests
use rel4u.Prelude.{
  ℕ, ◌^◌, ◌≤◌, ◌<◌, ◌≡◌, refl, sym, ap, subst, ◌∙◌, Bool, true, List, [], ◌∷◌, some, none, arith,
  length, take, drop, replicate, take_twice, length-take,
}
use rel4u.Prelude.Int.{ℤ, pos}
use rel4u.Packet.{header_len}
use rel4u.Packet.DeliveryMode
use rel4u.Net.{Addr}
use rel4u.Mpmc.Defs.{Queue}
use rel4u.Mpmc.Fixed.{IsRing, contents}
use rel4u.Window.Index.{max_payload_size}
use rel4u.Window.Send.Inv.{outstanding}
use rel4u.Window.Recv.Inv.{IsRecvWindow}
use rel4u.Window.Recv.Deliver.{buffer}
use rel4u.Session.{connected, find_by_addr}
use rel4u.Endpoint.{Platform, World}
use rel4u.Endpoint.Config.{max_payload}
use rel4u.Client.{Client}
use rel4u.Client.Calls as ClientCalls
use rel4u.Client.Worker.{drain}
use rel4u.Client.Inv.{IsClient}
use rel4u.Client.Messages.{send-Dispatched}
use rel4u.Server.{Server, session_of}
use rel4u.Server.Calls as ServerCalls
use rel4u.Server.Worker.{on_arrival}
use rel4u.Server.Messages.{arrival-recv}

-- The session of a client at the server: with its number, and a receive window that waits for the
-- client's next number and keeps no packet.
pub record InStep (env : Platform) (src : Addr) (i : ℕ) (c : Client) (s : Server) : Type 0 where
  pub found : find_by_addr env.af_inet env.af_inet6 s.session_table src ≡ some i
  pub in_table : i < length s.session_table.sessions
  pub same_session : c.session_id ≡ (session_of s i).session_id
  pub recv_valid : IsRecvWindow (session_of s i).recv_win
  pub nothing_kept :
      buffer (session_of s i).recv_win ≡ replicate (session_of s i).recv_win.capacity none
  pub expected : c.send_win.next_seq ≡ (session_of s i).recv_win.expected_seq

-- A connected client, with room in its send window, whose session at the server is in step with it, the
-- send queue of the one and the receive queue of the other empty. A reliable ordered message within the
-- limits that the application gives to `rel4u_client_send` is accepted; the client's worker sends one
-- datagram for it, to the server; and when this one reaches the server from the client's address, the
-- next call of `rel4u_server_recv` with a buffer that is large enough returns just the message, with the
-- number of the client.
pub send-recv :
    (env env' : Platform) (mem : Bool) (c : Client) (s : Server) (u v : World) (src : Addr) (i : ℕ)
    (payload : List ℕ) (len buffer_size : ℕ) (timeout_ms : ℤ)
    → IsClient c
    → c.session_id < 2 ^ 32
    → c.running ≡ true
    → c.state ≡ connected
    → IsRing c.send_queue
    → contents c.send_queue ≡ []
    → length (outstanding c.send_win) < c.send_win.capacity
    → InStep env' src i c s
    → IsRing s.recv_queue
    → contents s.recv_queue ≡ []
    → len ≤ max_payload c.config.mtu
    → len ≤ max_payload_size
    → len ≤ length payload
    → len ≤ buffer_size
    → 0 < buffer_size
    → let sent = ClientCalls.send env mem c DeliveryMode.reliable_ordered payload len in
      let r = drain env (sent.1, u) in
      (sent.0 ≡ pos 0)
      × ((raw : List ℕ) × (r.1.sent ≡ record { dest = c.server_addr; bytes = raw } ∷ u.sent)
          × (let t = (on_arrival env' (record { src = src; bytes = raw }) (s, v)).0 in
              (q : Queue) × (ServerCalls.recv t buffer_size timeout_ms []
                ≡ some (
                  record t { recv_queue = q },
                  record {
                    code = pos 0;
                    client_id = (session_of s i).client_id;
                    bytes = take len payload;
                  },
                ))))
send-recv env env' mem c s u v src i payload len buffer_size timeout_ms valid small_id running
      now_connected ring empty room step ring' empty' fits small whole large some_room =
    let (code, d) =
      send-Dispatched env mem c u DeliveryMode.reliable_ordered len payload valid small_id ring
        empty room running now_connected refl (omega arith) fits small whole in
    let there : length (drop header_len d.raw) ≡ len =
      ap length d.carried ∙ length-take len payload ∙ omega (arith, whole) in
    let g =
      arrival-recv env' s v src i d.raw d.header buffer_size timeout_ms step.found step.in_table
        step.recv_valid step.nothing_kept ring' empty' d.decoded d.is_data
        (d.same_session ∙ step.same_session) d.same_mode (d.next_number ∙ step.expected)
        (omega (arith, d.same_len, small)) (omega (arith, d.same_len, there))
        (omega (arith, d.same_len, large)) some_room in
    let t = (on_arrival env' (record { src = src; bytes = d.raw }) (s, v)).0 in
    let same : take d.header.payload_len (drop header_len d.raw) ≡ take len payload =
      ap (λ n. take n (drop header_len d.raw)) d.same_len
      ∙ ap (take len) d.carried
      ∙ take_twice len payload in
    (
      code,
      (
        d.raw,
        d.sent_lem,
        (
          g.0,
          g.1
              ∙ ap
                  (λ b. some (
                    record t { recv_queue = g.0 },
                    record { code = pos 0; client_id = (session_of s i).client_id; bytes = b },
                  ))
                  same,
        ),
      ),
    )
