-- ===== src/Server/Tests.antt =====
-- The server's theorems at a concrete server.
use rel4u.Prelude.{◌≡◌, refl, false, [], ◌∷◌, some, arith}
use rel4u.Prelude.Int.{pos}
use rel4u.Packet.{Header}
use rel4u.Packet.DeliveryMode
use rel4u.Net.{addr_equal}
use rel4u.Window.Index.{bad_capacity}
use rel4u.Window.Recv.{on_packet}
use rel4u.Window.Fresh.{fresh-IsSendWindow, fresh-IsRecvWindow}
use rel4u.Session.{find_by_addr}
use rel4u.Endpoint.Link.{default_rtt-IsValid}
use rel4u.Server.{session_of}
use rel4u.Server.Inv.{IsSession, IsServer}
use rel4u.Server.Rounds.{round-IsServer}
use rel4u.Server.Known.{SameConnection, reconnect_keeps_window}
use rel4u.Server.Worker.{on_connect_req, round}
use rel4u.Samples.{home, platform, world, session, server, heartbeat, heartbeat_from}

four_good : bad_capacity 4 ≡ false
unfolding bad_capacity
four_good = refl

session_of-IsSession : IsSession (session 0)
session_of-IsSession = record {
  send_valid = fresh-IsSendWindow 4 1 four_good (omega arith) (omega arith);
  recv_valid = fresh-IsRecvWindow 4 10 four_good (omega arith) (omega arith);
  rtt_valid = default_rtt-IsValid;
}

server-IsServer : IsServer 2 server
server-IsServer = record {
  table_valid = record {
    storage = refl;
    counted = refl;
    ids = (refl, (refl, tt));
    fits = omega arith;
  };
  sessions_valid = (session_of-IsSession, (session_of-IsSession, tt));
  room = refl;
}

round-IsServer_example :
    IsServer 2 (round platform (server, world) (heartbeat_from (home 1) ∷ [])).0
round-IsServer_example =
    round-IsServer platform 2 (server, world) (heartbeat_from (home 1) ∷ []) (λ t. refl)
      (omega arith, tt) server-IsServer

known : find_by_addr 2 10 server.session_table (home 1) ≡ some 1
unfolding find_by_addr addr_equal
known = refl

-- The first packet of a client that has reset its windows.
abbrev first_again : Header
first_again = record heartbeat {
  seq_num = 1;
  delivery_mode = DeliveryMode.reliable_ordered;
  payload_len = 2;
}

reconnect_keeps_window_example :
    let t = (on_connect_req platform (home 1) 100 (server, world)).0 in
    SameConnection (session_of t 1) (session 1)
    × (on_packet (session_of t 1).recv_win first_again (7 ∷ 8 ∷ []) 64
        ≡ (pos 1, (session 1).recv_win, []))
reconnect_keeps_window_example =
    reconnect_keeps_window platform 2 1 server world (home 1) 100 first_again (7 ∷ 8 ∷ []) 64
      server-IsServer known (omega arith) (omega arith) refl (omega arith)
