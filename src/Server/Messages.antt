-- ===== src/Server/Messages.antt =====
-- A message on its way into a server: the datagram at the worker, the receive queue, and
-- `rel4u_server_recv`.
use rel4u.Prelude.{
  ℕ, zero, suc, ◌≤◌, ◌<◌, ◌≡◌, refl, sym, ap, subst, ◌∙◌, List, [], ◌∷◌, Option, none, some,
  if_true, if_false, arith, ◌==◌, leb, length, take, drop, memcpy, take-memcpy, take_twice,
  replicate,
}
use mathlib.Core.List.{append-nil}
use rel4u.Prelude.Int.{ℤ, pos, is_zero}
use rel4u.Packet.{Header, zero_header, header_len, decode_header}
use rel4u.Packet.PktType
use rel4u.Packet.DeliveryMode
use rel4u.Net.{Addr}
use rel4u.Mpmc.Defs.{Item, Queue, max_msg_size, pop_head_locked}
use rel4u.Mpmc.Ops.{push_notify}
use rel4u.Mpmc.Wait.{popped, gave_up, pop_wait, wait_loop}
use rel4u.Mpmc.Fixed.{IsRing, contents}
use rel4u.Mpmc.Fixed.Alone.{pushed_alone, popped_alone}
use rel4u.Window.Recv.{slot_of}
use rel4u.Window.Recv.Inv.{IsRecvWindow}
use rel4u.Window.Recv.Deliver.{buffer}
use rel4u.Session.{find_by_addr}
use rel4u.Endpoint.{Platform, World}
use rel4u.Endpoint.Inbox.{slot_item}
use rel4u.Endpoint.Config.{Received, received}
use rel4u.Endpoint.Delivery.{slot, on_data_alone}
use rel4u.Server.{Server, session_of}
use rel4u.Server.Calls as Calls
use rel4u.Server.Worker.{on_arrival}
use rel4u.Server.Queued.{arrival_queue}

memcpy_nil : (n : ℕ) (src : List ℕ) → memcpy [] src n ≡ take n src
memcpy_nil zero src = refl
memcpy_nil (suc n) src = append-nil (take (suc n) src)

-- What is copied out of a buffer that was copied into.
memcpy_twice :
    (n : ℕ) (old src : List ℕ)
    → n ≤ length src
    → memcpy [] (memcpy [] (memcpy old src n) n) n ≡ take n src
memcpy_twice n old src h =
    memcpy_nil n (memcpy [] (memcpy old src n) n)
    ∙ ap (take n) (memcpy_nil n (memcpy old src n))
    ∙ take_twice n (memcpy old src n)
    ∙ take-memcpy n old src h

-- The application fetches the one message of the queue.
recv_alone :
    (s : Server) (x : Item) (buffer_size : ℕ) (timeout_ms : ℤ)
    → IsRing s.recv_queue
    → contents s.recv_queue ≡ x ∷ []
    → 0 < buffer_size
    → x.len ≤ buffer_size
    → (q : Queue) × (Calls.recv s buffer_size timeout_ms []
        ≡ some (
          record s { recv_queue = q },
          record { code = pos 0; client_id = x.client_id; bytes = memcpy [] x.bytes x.len },
        ))
unfolding Calls.recv received pop_wait wait_loop
recv_alone s x buffer_size timeout_ms v e h l =
    let p = popped_alone s.recv_queue x v e in
    let q = (pop_head_locked s.recv_queue).0 in
    let waited : pop_wait s.recv_queue timeout_ms [] ≡ popped q x =
      if_false {b = s.recv_queue.count == 0} _ _ (ground (arith, p.3))
      ∙ ap (λ (o : Option Item). elim o [ none ↦ gave_up q | some y ↦ popped q y ]) p.2 in
    let answer : ℕ → Option (Queue × Received) = λ n.
      some (q, record { code = pos 0; client_id = x.client_id; bytes = memcpy [] x.bytes n }) in
    let got : received buffer_size (is_zero timeout_ms) (popped q x) ≡ answer x.len =
      ap answer (if_true {b = leb x.len buffer_size} _ _ (ground (arith, l))) in
    let given : Option (Queue × Received) → Option (Server × Received) =
      λ o. elim o [ none ↦ none | some r ↦ some (record s { recv_queue = r.0 }, r.1) ] in
    (
      q,
      if_false {b = buffer_size == 0} _ _ (ground (arith, h))
          ∙ ap given (ap (received buffer_size (is_zero timeout_ms)) waited ∙ got),
    )

module _ (env : Platform) where
  -- A server whose receive queue is empty, and a client with a session whose receive window keeps no
  -- packet: when a datagram from the client's address decodes to a reliable ordered data packet of that
  -- session, with the number that the window expects and at most 9216 bytes of payload, which it has,
  -- then the worker puts its payload into the receive queue, and the next call of `rel4u_server_recv`
  -- with a buffer that is large enough returns 0, the number of the client and just the payload,
  -- whatever its limit of time, without a wait.
  pub arrival-recv :
      (s : Server) (u : World) (src : Addr) (i : ℕ) (bytes : List ℕ) (hdr : Header)
      (buffer_size : ℕ) (timeout_ms : ℤ)
      → find_by_addr env.af_inet env.af_inet6 s.session_table src ≡ some i
      → i < length s.session_table.sessions
      → IsRecvWindow (session_of s i).recv_win
      → buffer (session_of s i).recv_win ≡ replicate (session_of s i).recv_win.capacity none
      → IsRing s.recv_queue
      → contents s.recv_queue ≡ []
      → decode_header bytes (length bytes) zero_header ≡ (pos 0, hdr)
      → hdr.packet_type ≡ PktType.data_pkt
      → hdr.session_id ≡ (session_of s i).session_id
      → hdr.delivery_mode ≡ DeliveryMode.reliable_ordered
      → hdr.seq_num ≡ (session_of s i).recv_win.expected_seq
      → hdr.payload_len ≤ max_msg_size
      → hdr.payload_len ≤ length (drop header_len bytes)
      → hdr.payload_len ≤ buffer_size
      → 0 < buffer_size
      → let r = (on_arrival env (record { src = src; bytes = bytes }) (s, u)).0 in
        (q : Queue) × (Calls.recv r buffer_size timeout_ms []
          ≡ some (
            record r { recv_queue = q },
            record {
              code = pos 0;
              client_id = (session_of s i).client_id;
              bytes = take hdr.payload_len (drop header_len bytes);
            },
          ))
  unfolding push_notify slot_item
  arrival-recv s u src i bytes hdr buffer_size timeout_ms f l v nothing ring empty e d k mode now
        small whole fits room =
      let x = session_of s i in
      let payload = drop header_len bytes in
      let kept = slot x.recv_win hdr payload v now mode nothing in
      let item = slot_item x.client_id kept in
      let r = (on_arrival env (record { src = src; bytes = bytes }) (s, u)).0 in
      let p =
        pushed_alone env.node_size (env.has_memory hdr.seq_num) s.recv_queue item ring empty
          small in
      let pushed =
        arrival_queue env i s u src bytes hdr f l e d k
        ∙ on_data_alone x.recv_win hdr payload v now mode nothing env.node_size env.has_memory
            x.client_id s.recv_queue in
      let g =
        recv_alone r item buffer_size timeout_ms (subst IsRing (sym pushed) p.0)
          (ap contents pushed ∙ p.1) room fits in
      (
        g.0,
        g.1
            ∙ ap
                (λ b. some (
                  record r { recv_queue = g.0 },
                  record { code = pos 0; client_id = x.client_id; bytes = b },
                ))
                (memcpy_twice hdr.payload_len (slot_of x.recv_win hdr.seq_num).payload payload
                  whole),
      )
