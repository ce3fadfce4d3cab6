-- ===== src/Delivery/Tests.antt =====
-- A message of two bytes from a concrete client to a concrete server.
use rel4u.Prelude.{ℕ, ◌≡◌, refl, true, false, List, [], ◌∷◌, some, arith, take}
use rel4u.Prelude.Int.{pos}
use rel4u.Net.{addr_equal}
use rel4u.Mpmc.Defs.{Queue}
use rel4u.Mpmc.Fixed.{IsRing}
use rel4u.Window.Recv
use rel4u.Window.Index.{bad_capacity}
use rel4u.Window.Fresh.{fresh-IsSendWindow, fresh-IsRecvWindow}
use rel4u.Session.{find_by_addr}
use rel4u.Endpoint.Config.{max_payload}
use rel4u.Endpoint.Link.{default_rtt-IsValid}
use rel4u.Client.Calls as ClientCalls
use rel4u.Client.Worker.{drain}
use rel4u.Client.Inv.{IsClient}
use rel4u.Server.{Server}
use rel4u.Server.Calls as ServerCalls
use rel4u.Server.Worker.{on_arrival}
use rel4u.Delivery.{InStep, send-recv}
use rel4u.Samples.{home, platform, world, queue, client, server, session}

four_good : bad_capacity 4 ≡ false
unfolding bad_capacity
four_good = refl

client-IsClient : IsClient client
client-IsClient = record {
  send_valid = fresh-IsSendWindow 4 1 four_good (omega arith) (omega arith);
  recv_valid = fresh-IsRecvWindow 4 1 four_good (omega arith) (omega arith);
  rtt_valid = default_rtt-IsValid;
}

queue-IsRing : IsRing queue
queue-IsRing = record {
  mode_fixed = refl;
  room = omega arith;
  small = omega arith;
  storage = omega arith;
  head_in = omega arith;
  count_le = omega arith;
  tail_lem = refl;
}

-- The server has the client in its second session.
abbrev joined : Server
joined = record server {
  session_table = record server.session_table {
    sessions =
        session 0
        ∷ record (session 1) { addr = home 5; session_id = 77; recv_win = Recv.fresh 4 1 }
        ∷ [];
  };
  recv_queue = queue;
}

in_step : InStep platform (home 5) 1 client joined
unfolding find_by_addr addr_equal rel4u.Window.Index.slot_index
in_step = record {
  found = refl;
  in_table = omega arith;
  same_session = refl;
  recv_valid = fresh-IsRecvWindow 4 1 four_good (omega arith) (omega arith);
  nothing_kept = refl;
  expected = refl;
}

abbrev text : List ℕ
text = 104 ∷ 105 ∷ []

send-recv_example :
    let sent = ClientCalls.send platform true client 3 text 2 in
    let r = drain platform (sent.1, world) in
    (sent.0 ≡ pos 0)
    × ((raw : List ℕ) × (r.1.sent ≡ record { dest = home 9000; bytes = raw } ∷ [])
        × (let t = (on_arrival platform (record { src = home 5; bytes = raw }) (joined, world)).0 in
            (q : Queue) × (ServerCalls.recv t 16 (pos 100) []
              ≡ some (
                record t { recv_queue = q },
                record { code = pos 0; client_id = 1; bytes = take 2 text },
              ))))
unfolding max_payload
send-recv_example =
    send-recv platform platform true client joined world world (home 5) 1 text 2 16 (pos 100)
      client-IsClient (omega arith) refl refl queue-IsRing refl (omega arith) in_step queue-IsRing
      refl (omega arith) (omega arith) (omega arith) (omega arith) (omega arith)
