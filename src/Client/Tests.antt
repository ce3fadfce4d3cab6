-- ===== src/Client/Tests.antt =====
-- The client's theorems at a concrete client.
use rel4u.Prelude.{ℕ, List, memcpy, ◌≡◌, true, refl, false, [], ◌∷◌, inl, arith}
use rel4u.Net.{addr_equal}
use rel4u.Window.Index.{bad_capacity}
use rel4u.Window.Fresh.{fresh-IsSendWindow, fresh-IsRecvWindow}
use rel4u.Endpoint.Link.{default_rtt-IsValid}
use rel4u.Session.{disconnected}
use rel4u.Prelude.Int.{pos}
use rel4u.Mpmc.Fixed.{IsRing}
use rel4u.Endpoint.Config.{max_payload}
use rel4u.Client.Calls.{send}
use rel4u.Client.Dispatch.{Dispatched}
use rel4u.Client.Messages.{send-Dispatched}
use rel4u.Client.{Client}
use rel4u.Client.Inv.{IsClient}
use rel4u.Client.Rounds.{work-IsClient}
use rel4u.Client.Worker.{work, recv_loop, drain}
use rel4u.Client.Link.{link_after, link_through}
use rel4u.Endpoint.{Arrival}
use rel4u.Packet.{read_header, decode_header}
use rel4u.Client.Link.Loop.{recv_loop-link_through}
use rel4u.Client.States.{Foreign, recv_loop-Foreign}
use rel4u.Samples.{home, platform, world, queue, client, worker, heartbeat_from}

four_good : bad_capacity 4 ≡ false
unfolding bad_capacity
four_good = refl

client-IsClient : IsClient client
client-IsClient = record {
  send_valid = fresh-IsSendWindow 4 1 four_good (omega arith) (omega arith);
  recv_valid = fresh-IsRecvWindow 4 1 four_good (omega arith) (omega arith);
  rtt_valid = default_rtt-IsValid;
}

work-IsClient_example :
    IsClient (work platform worker ((heartbeat_from (home 9000) ∷ []) ∷ [] ∷ [])).client
work-IsClient_example =
    work-IsClient platform worker ((heartbeat_from (home 9000) ∷ []) ∷ [] ∷ [])
      ((omega arith, tt), (tt, tt)) client-IsClient

-- A heartbeat, a reset, and a refusal.
abbrev three_arrivals : List Arrival
three_arrivals =
    heartbeat_from (home 9000)
    ∷ record {
      src = home 9000;
      bytes = 0x34 ∷ 0x55 ∷ 1 ∷ 0x0a ∷ 0 ∷ 0 ∷ 0 ∷ 0 ∷ 0 ∷ 0 ∷ 0 ∷ 77 ∷ later;
    }
    ∷ record {
      src = home 9000;
      bytes = 0x34 ∷ 0x55 ∷ 1 ∷ 0x09 ∷ 0 ∷ 0 ∷ 0 ∷ 0 ∷ 0 ∷ 0 ∷ 0 ∷ 0 ∷ later;
    }
    ∷ []
  where
    later : List ℕ
    later = 0 ∷ 0 ∷ 0 ∷ 0 ∷ 0 ∷ 0 ∷ 0 ∷ 0 ∷ 0 ∷ 0 ∷ 0 ∷ 0 ∷ []

recv_loop-link_through_example :
    let c = (recv_loop platform worker three_arrivals).client in
    (c.state, c.session_id)
    ≡ link_through platform client.server_addr client.config.disable_auto_reconnect three_arrivals
        (client.state, client.session_id)
recv_loop-link_through_example = recv_loop-link_through platform worker three_arrivals refl

-- The reset starts over, and the refusal then disconnects.
link_through-three_arrivals :
    link_through platform client.server_addr client.config.disable_auto_reconnect three_arrivals
      (client.state, client.session_id)
    ≡ (disconnected, 0)
unfolding link_through link_after decode_header read_header addr_equal
link_through-three_arrivals = refl

elsewhere : Foreign platform worker (heartbeat_from (home 9))
unfolding addr_equal
elsewhere = inl refl

recv_loop-Foreign_example :
    recv_loop platform worker (heartbeat_from (home 9) ∷ heartbeat_from (home 9) ∷ []) ≡ worker
recv_loop-Foreign_example =
    recv_loop-Foreign platform worker (heartbeat_from (home 9) ∷ heartbeat_from (home 9) ∷ [])
      (elsewhere, (elsewhere, tt))

queue-IsRing : IsRing queue
queue-IsRing = record {
  mode_fixed = refl;
  room = omega arith;
  small = omega arith;
  storage = omega arith;
  head_in = omega arith;
  count_le = omega arith;
  tail_lem = refl;
}

abbrev text : List ℕ
text = 104 ∷ 105 ∷ []

-- Two bytes in the reliable ordered mode.
send-Dispatched_example :
    let s = send platform true client 3 text 2 in
    (s.0 ≡ pos 0)
    × Dispatched platform client world 3 2 text (memcpy [] text 2) (drain platform (s.1, world))
unfolding max_payload
send-Dispatched_example =
    send-Dispatched platform true client world 3 2 text client-IsClient (omega arith) queue-IsRing
      refl (omega arith) refl refl refl (omega arith) (omega arith) (omega arith) (omega arith)
