-- ===== src/Handshake/Tests.antt =====
-- A handshake at a concrete server and client.
use rel4u.Prelude.{ℕ, ◌≡◌, refl, true, false, List, [], ◌∷◌, none, inl, arith}
use rel4u.Packet.PktType
use rel4u.Net.{addr_equal}
use rel4u.Window.Send
use rel4u.Window.Recv
use rel4u.Window.Index.{bad_capacity}
use rel4u.Window.Fresh.{fresh-IsSendWindow, fresh-IsRecvWindow}
use rel4u.Endpoint.{packet_header, control_header}
use rel4u.Session.{connecting, connected, disconnected, find_by_addr}
use rel4u.Endpoint.Link.{default_rtt-IsValid}
use rel4u.Client.Worker.{Worker}
use rel4u.Client.Worker as ClientWorker
use rel4u.Server.{Server, session_of}
use rel4u.Server.Worker as ServerWorker
use rel4u.Server.Inv.{IsServer, IsSession}
use rel4u.Handshake.{control, control_datagram}
use rel4u.Handshake.Replies.{control-decoded}
use rel4u.Handshake.Admission.{IsNew}
use rel4u.Handshake.Joined.{handshake_completes}
use rel4u.Samples.{home, platform, world, client, worker, server, session}

-- The second session of the server is free.
abbrev half_full : Server
half_full = record server {
  session_table = record server.session_table {
    sessions = session 0 ∷ record (session 1) { state = disconnected } ∷ [];
    active_count = 1;
  };
}

four_good : bad_capacity 4 ≡ false
unfolding bad_capacity
four_good = refl

session-IsSession : IsSession (session 0)
session-IsSession = record {
  send_valid = fresh-IsSendWindow 4 1 four_good (omega arith) (omega arith);
  recv_valid = fresh-IsRecvWindow 4 10 four_good (omega arith) (omega arith);
  rtt_valid = default_rtt-IsValid;
}

half_full-IsServer : IsServer 2 half_full
half_full-IsServer = record {
  table_valid = record {
    storage = refl;
    counted = refl;
    ids = (refl, (refl, tt));
    fits = omega arith;
  };
  sessions_valid = (session-IsSession, (session-IsSession, tt));
  room = refl;
}

unknown : find_by_addr 2 10 half_full.session_table (home 5) ≡ none
unfolding find_by_addr addr_equal
unknown = refl

same_server : addr_equal 2 10 (home 9000) (home 9000) ≡ true
unfolding addr_equal
same_server = refl

abbrev waiting : Worker
waiting = record worker {
  client = record client { state = connecting; session_id = 0 };
  state = connecting;
}

-- The request as the client builds it.
abbrev request : List ℕ
request = control_datagram 0 (Recv.fresh 4 1) PktType.connect_req

request-type : (control 0 (Recv.fresh 4 1) PktType.connect_req).packet_type ≡ PktType.connect_req
unfolding packet_header control_header
request-type = refl

handshake_completes_example :
    let r =
      ServerWorker.on_arrival platform
        (record { src = home 5; bytes = request })
        (half_full, world) in
    (i : ℕ) × IsNew (home 5) (session_of r.0 i)
    × ((session_of r.0 i).state ≡ connecting)
    × ((resp : List ℕ) × (r.1.sent ≡ record { dest = home 5; bytes = resp } ∷ [])
        × (let c =
              (ClientWorker.on_arrival platform waiting
                (record { src = home 9000; bytes = resp })).0 in
            (c.state ≡ connected)
            × (c.client.state ≡ connected)
            × (c.client.session_id ≡ (session_of r.0 i).session_id)
            × (c.client.send_win ≡ Send.fresh 4 1)
            × (c.client.recv_win ≡ Recv.fresh 4 1)
            × ((ack : List ℕ) × (c.world.sent ≡ record { dest = home 9000; bytes = ack } ∷ [])
                × (let t =
                      (ServerWorker.on_arrival platform
                        (record { src = home 5; bytes = ack })
                        (r.0, world)).0 in
                    ((session_of t i).state ≡ connected)
                    × ((session_of t i).session_id ≡ c.client.session_id)))))
handshake_completes_example =
    handshake_completes platform platform 2 half_full world world (home 5) (home 9000) request
      (control 0 (Recv.fresh 4 1) PktType.connect_req) waiting half_full-IsServer (inl refl) unknown
      (omega arith) refl (control-decoded 0 (Recv.fresh 4 1) PktType.connect_req (omega arith))
      request-type refl same_server
