-- ===== src/Recovery/Tests.antt =====
-- A lost session at a concrete server and client.
use rel4u.Prelude.{◌≡◌, refl, true, [], ◌∷◌, none, arith}
use rel4u.Prelude.Int.{pos}
use rel4u.Packet.{zero_header, decode_header, read_header}
use rel4u.Net.{addr_equal}
use rel4u.Session.{find_by_addr}
use rel4u.Endpoint.{Datagram}
use rel4u.Client.Worker
use rel4u.Server.Worker as ServerWorker
use rel4u.Recovery.{Reconnected, lost_session}
use rel4u.Samples.{home, platform, world, server, worker, heartbeat, heartbeat_from}

decodes : decode_header (heartbeat_from (home 9)).bytes 24 zero_header ≡ (pos 0, heartbeat)
unfolding decode_header read_header
decodes = refl

unknown : find_by_addr 2 10 server.session_table (home 9) ≡ none
unfolding find_by_addr addr_equal
unknown = refl

same_server : addr_equal 2 10 (home 9000) (home 9000) ≡ true
unfolding addr_equal
same_server = refl

lost_session_example :
    (d : Datagram) × ((ServerWorker.on_arrival platform
        (heartbeat_from (home 9))
        (server, world)).1.sent
      ≡ d ∷ [])
    × (d.dest ≡ home 9)
    × Reconnected platform
        (home 9000)
        worker
        0
        (Worker.on_arrival platform worker (record { src = home 9000; bytes = d.bytes })).0
lost_session_example =
    lost_session platform platform (heartbeat_from (home 9)) heartbeat server world (home 9000)
      worker decodes (omega arith) (omega arith) unknown refl (omega arith) refl refl same_server
