-- ===== src/Endpoint/Inbox.antt =====
-- What client and server do with a data packet: src/core/rel4u_client.c lines 469 to 512, and
-- src/core/rel4u_server.c lines 434 to 477.
use rel4u.Prelude.{
  ℕ, zero, suc, Bool, true, false, ◌&&◌, List, [], ◌∷◌, ltb, ◌==◌, if◌then◌else◌, length, memcpy,
}
use rel4u.Prelude.Int.{ℤ, pos, negsuc}
use rel4u.Packet.{Header}
use rel4u.Mpmc.Defs.{Item, Queue}
use rel4u.Mpmc.Ops.{push_notify}
use rel4u.Window.Recv.{RecvSlot, RecvWindow, on_packet, pop_ready}

-- `sizeof(ready_slots) / sizeof(ready_slots[0])`
abbrev pub max_ready : ℕ
max_ready = 64

abbrev pub is_code : ℕ → ℤ → Bool
is_code n (pos m) = n == m
is_code n (negsuc m) = false

-- The item that a ready slot becomes.
unfoldable pub slot_item : ℕ → RecvSlot → Item
slot_item client_id s = record {
  client_id = client_id;
  mode = s.delivery_mode;
  len = s.payload_len;
  bytes = memcpy [] s.payload s.payload_len;
}

module _ (node_size : ℕ) (mem : ℕ → Bool) (client_id : ℕ) where
  -- `for (k = 0; k < ready_count; k++) { ... rel4u_mpmc_push_notify(...); }`
  unfoldable pub push_all : Queue → List RecvSlot → Queue
  push_all q [] = q
  push_all q (s ∷ ss) =
      push_all (push_notify node_size (mem s.seq_num) q (slot_item client_id s)).0 ss

  -- `while (pop_ready(...) == 0 && ready_count > 0) { ... }`, with fuel.
  unfoldable pub pop_all : ℕ → RecvWindow → Queue → RecvWindow × Queue
  pop_all zero w q = (w, q)
  pop_all (suc fuel) w q =
      let r = pop_ready w max_ready in
      let rest = pop_all fuel r.1 (push_all q r.2) in
      if is_code 0 r.0 && ltb 0 (length r.2) then rest else (r.1, q)

  -- The same with the test `ready_count == 64` before each call.
  unfoldable pub pop_more : ℕ → ℕ → RecvWindow → Queue → RecvWindow × Queue
  pop_more zero ready_count w q = (w, q)
  pop_more (suc fuel) ready_count w q =
      let r = pop_ready w max_ready in
      let rest = pop_more fuel (length r.2) r.1 (push_all q r.2) in
      if ready_count == max_ready
      then (if is_code 0 r.0 && ltb 0 (length r.2) then rest else (r.1, q))
      else (w, q)

  -- The case of a data packet: the window, the queue, and whether an acknowledgement is due.
  unfoldable pub on_data : RecvWindow → Queue → Header → List ℕ → RecvWindow × Queue × Bool
  on_data w q hdr payload =
      let r = on_packet w hdr payload max_ready in
      let fuel = suc (length w.slots) in
      let more = pop_more fuel (length r.2) r.1 (push_all q r.2) in
      let all = pop_all fuel r.1 q in
      if is_code 0 r.0
      then (more.0, more.1, true)
      else if is_code 1 r.0
      then (all.0, all.1, true)
      else (r.1, q, false)
