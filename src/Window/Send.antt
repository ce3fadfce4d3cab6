-- ===== src/Window/Send.antt =====
-- The send window of src/core/rel4u_window.c.
pub mod Inv
pub mod Push
pub mod Ack
pub mod Marks
pub mod Sack
pub mod OnAck
pub mod Timer
pub mod Reclaim
use rel4u.Prelude.{
  ℕ, zero, suc, ◌+◌, ◌-◌, ◌*◌, ◌/◌, ◌%◌, ◌^◌, Bool, true, false, not, ◌&&◌, ◌||◌, List, [], ◌∷◌,
  Option, none, some, ltb, leb, ◌==◌, if◌then◌else◌, get_or, set, memcpy, replicate, bit_and,
}
use rel4u.Prelude.Int.{ℤ, pos, negsuc, ltb_ℤ, to_int32}
use rel4u.Seq.{add32, sub32, seq_lt, seq_lte, seq_gt, seq_gte, seq_diff}
use rel4u.Rtt.{Rtt, update_sample}
use rel4u.Stats.{Stats}
use rel4u.Packet.DeliveryMode
use rel4u.Window.Index.{slot_index, bad_capacity, max_payload_size}
use rel4u.Mpmc.Defs.{Item, Queue}
use rel4u.Mpmc.Ops.{push_front}

-- `rel4u_send_slot_t`.
pub record SendSlot : Type 0 where
  pub seq_num : ℕ
  pub first_sent_time_ns : ℕ
  pub last_sent_time_ns : ℕ
  pub payload_len : ℕ
  pub retransmit_count : ℕ
  pub delivery_mode : ℕ
  pub in_use : Bool
  pub acked : Bool
  pub payload : List ℕ

-- `rel4u_send_window_t`. `slots` is empty for a null pointer.
pub record SendWindow : Type 0 where
  pub slots : List SendSlot
  pub capacity : ℕ
  pub head_seq : ℕ
  pub next_seq : ℕ
  pub next_unrel_seq : ℕ
  pub in_flight : ℕ

-- A payload buffer that `calloc` or `memset` cleared.
unfoldable pub zero_payload : List ℕ
zero_payload = replicate max_payload_size 0

abbrev pub zero_slot : SendSlot
zero_slot = record {
  seq_num = 0;
  first_sent_time_ns = 0;
  last_sent_time_ns = 0;
  payload_len = 0;
  retransmit_count = 0;
  delivery_mode = 0;
  in_use = false;
  acked = false;
  payload = zero_payload;
}

abbrev pub fresh : ℕ → ℕ → SendWindow
fresh capacity initial_seq = record {
  slots = replicate capacity zero_slot;
  capacity = capacity;
  head_seq = initial_seq;
  next_seq = initial_seq;
  next_unrel_seq = initial_seq;
  in_flight = 0;
}

-- `rel4u_send_window_init` (`none` for -1); `mem` tells whether `calloc` returns memory.
unfoldable pub init : Bool → ℕ → ℕ → Option SendWindow
unfolding bad_capacity
init mem capacity initial_seq =
    if bad_capacity capacity then none else if mem then some (fresh capacity initial_seq) else none

-- `rel4u_send_window_destroy`.
unfoldable pub destroy : SendWindow → SendWindow
destroy w = record w { slots = []; capacity = 0; in_flight = 0 }

abbrev pub is_null : List SendSlot → Bool
is_null [] = true
is_null (s ∷ ss) = false

-- `rel4u_send_window_reset`: what it returns, and the window.
unfoldable pub reset : SendWindow → ℕ → ℤ × SendWindow
reset w initial_seq =
    if is_null w.slots || w.capacity == 0
    then (negsuc 0, w)
    else (pos 0, fresh w.capacity initial_seq)

-- The window has no room for another reliable packet.
unfoldable pub is_full : SendWindow → Bool
is_full w =
    leb w.capacity w.in_flight || not (ltb_ℤ (seq_diff w.next_seq w.head_seq) (to_int32 w.capacity))

-- `rel4u_send_window_can_send`.
unfoldable pub can_send : SendWindow → Bool
can_send w =
    ltb w.in_flight w.capacity && ltb_ℤ (seq_diff w.next_seq w.head_seq) (to_int32 w.capacity)

abbrev pub slot_of : SendWindow → ℕ → SendSlot
slot_of w seq = get_or w.slots (slot_index seq w.capacity) zero_slot

abbrev pub put_slot : SendWindow → ℕ → SendSlot → SendWindow
put_slot w seq s = record w { slots = set w.slots (slot_index seq w.capacity) s }

abbrev pub is_reliable : ℕ → Bool
is_reliable mode = mode == DeliveryMode.reliable_ordered || mode == DeliveryMode.reliable_unordered

-- The slot that a push fills in; `mode` is an `int`, stored as `uint8_t`.
unfoldable pub filled_slot : SendSlot → ℕ → ℕ → List ℕ → ℕ → ℕ → SendSlot
filled_slot old seq mode bytes len now_ns = record {
  seq_num = seq;
  first_sent_time_ns = now_ns;
  last_sent_time_ns = now_ns;
  payload_len = len % 2 ^ 16;
  retransmit_count = 0;
  delivery_mode = mode % 2 ^ 8;
  in_use = true;
  acked = false;
  payload = memcpy old.payload bytes len;
}

-- `rel4u_send_window_push`: what it returns, the window, and `*out_seq` where it is written.
unfoldable pub push : SendWindow → ℕ → List ℕ → ℕ → ℕ → ℤ × SendWindow × Option ℕ
unfolding is_full
push w mode bytes len now_ns =
    let seq = w.next_seq in
    if ltb max_payload_size len
    then (negsuc 0, w, none)
    else if is_reliable mode
    then (if is_full w then (negsuc 1, w, none) else (
      pos 0,
      record (put_slot w seq (filled_slot (slot_of w seq) seq mode bytes len now_ns)) {
        next_seq = add32 seq 1;
        in_flight = add32 w.in_flight 1;
      },
      some seq,
    ))
    else (pos 0, record w { next_unrel_seq = add32 w.next_unrel_seq 1 }, some w.next_unrel_seq)

-- What `rel4u_send_window_on_ack` changes.
pub record AckState : Type 0 where
  pub win : SendWindow
  pub rtt : Rtt
  pub stats : Stats

-- The round-trip sample of a packet that was sent once (Karn's rule).
unfoldable pub sample : ℕ → SendSlot → AckState → AckState
sample now_ns slot s =
    let rtt = update_sample s.rtt ((now_ns - slot.first_sent_time_ns) / 1000000 % 2 ^ 32) in
    if slot.retransmit_count == 0 && leb slot.first_sent_time_ns now_ns
    then record s {
      rtt = rtt;
      stats = record s.stats { current_rtt_ms = rtt.srtt_ms; current_rto_ms = rtt.rto_ms };
    }
    else s

-- `slot->acked = true; if (win->in_flight > 0) win->in_flight--;` and the sample.
unfoldable pub ack_slot : ℕ → ℕ → SendSlot → AckState → AckState
ack_slot now_ns seq slot s = sample now_ns slot (record s {
  win = record (put_slot s.win seq (record slot { acked = true })) {
    in_flight = if ltb 0 s.win.in_flight then s.win.in_flight - 1 else s.win.in_flight;
  };
})

-- The slot holds the packet with that number.
abbrev pub holds : SendSlot → ℕ → Bool
holds slot seq = slot.in_use && slot.seq_num == seq

-- `slot->in_use = false;`
abbrev pub release_slot : ℕ → SendWindow → SendWindow
release_slot seq w = put_slot w seq (record (slot_of w seq) { in_use = false })

-- `if (!slot->acked) { ... }` for the slot of a sequence number.
unfoldable pub ack_once : ℕ → ℕ → AckState → AckState
ack_once now_ns seq s =
    if (slot_of s.win seq).acked then s else ack_slot now_ns seq (slot_of s.win seq) s

-- One round of the loop over the cumulatively acknowledged packets.
unfoldable pub ack_head : ℕ → AckState → AckState
ack_head now_ns s =
    let seq = s.win.head_seq in
    let t = ack_once now_ns seq s in
    let u =
      if holds (slot_of s.win seq) seq then record t { win = release_slot seq t.win } else s in
    record u { win = record u.win { head_seq = add32 u.win.head_seq 1 } }

abbrev pub acks_head : ℕ → SendWindow → Bool
acks_head ack_num w = seq_lte w.head_seq ack_num && not (w.head_seq == w.next_seq)

-- The loop, with fuel.
unfoldable pub ack_loop : ℕ → ℕ → ℕ → AckState → AckState
ack_loop zero ack_num now_ns s = s
ack_loop (suc fuel) ack_num now_ns s =
    let rest = ack_loop fuel ack_num now_ns (ack_head now_ns s) in
    if acks_head ack_num s.win then rest else s

-- One round of the loop over the bits of the mask.
unfoldable pub sack_bit : ℕ → ℕ → ℕ → ℕ → AckState → AckState
sack_bit ack_num sack_mask now_ns i s =
    let seq = (ack_num + 1 + i) % 2 ^ 32 in
    let slot = slot_of s.win seq in
    if not (bit_and sack_mask (2 ^ i) == 0)
      && (seq_lt seq s.win.next_seq && seq_gte seq s.win.head_seq)
      && (holds slot seq && not slot.acked)
    then ack_slot now_ns seq slot s
    else s

-- The bits from `i` on, `n` of them.
unfoldable pub sack_loop : ℕ → ℕ → ℕ → ℕ → ℕ → AckState → AckState
sack_loop zero i ack_num sack_mask now_ns s = s
sack_loop (suc n) i ack_num sack_mask now_ns s =
    sack_loop n (i + 1) ack_num sack_mask now_ns (sack_bit ack_num sack_mask now_ns i s)

-- `rel4u_send_window_on_ack`. The first loop takes at most the rounds that lie between `head_seq` and
-- `next_seq`.
unfoldable pub on_ack : ℕ → ℕ → ℕ → AckState → AckState
on_ack ack_num sack_mask now_ns s =
    let t = ack_loop (sub32 s.win.next_seq s.win.head_seq) ack_num now_ns s in
    if sack_mask == 0 then t else sack_loop 32 0 ack_num sack_mask now_ns t

-- The slot's packet is to be sent again.
abbrev pub is_expired : ℕ → ℕ → SendSlot → ℕ → Bool
is_expired now_ns rto_ns slot seq =
    holds slot seq
    && not slot.acked
    && (leb slot.last_sent_time_ns now_ns && leb rto_ns (now_ns - slot.last_sent_time_ns))

-- The loop of `rel4u_send_window_get_expired` from `seq` on, with fuel and the places left in the
-- output. A pointer to a slot is the slot's index.
unfoldable pub expired_loop : ℕ → SendWindow → ℕ → ℕ → ℕ → ℕ → List ℕ
expired_loop zero w now_ns rto_ns seq places = []
expired_loop (suc fuel) w now_ns rto_ns seq places =
    let expired = is_expired now_ns rto_ns (slot_of w seq) seq in
    let rest =
      expired_loop fuel w now_ns rto_ns (add32 seq 1) (if expired then places - 1 else places) in
    let index = slot_index seq w.capacity in
    if seq_lt seq w.next_seq
    then (if expired then (if leb places 1 then index ∷ [] else index ∷ rest) else rest)
    else []

-- `rel4u_send_window_get_expired`.
unfoldable pub get_expired : SendWindow → ℕ → ℕ → ℕ → List ℕ
get_expired w now_ns rto_ms max_slots =
    if max_slots == 0
    then []
    else expired_loop (sub32 w.next_seq w.head_seq) w now_ns (rto_ms * 1000000 % 2 ^ 64) w.head_seq
        max_slots

-- The item that an unacknowledged packet goes back to the queue as.
unfoldable pub reclaimed_item : SendSlot → Item
reclaimed_item slot = record {
  client_id = 0;
  mode = slot.delivery_mode;
  len = slot.payload_len;
  bytes = memcpy [] slot.payload slot.payload_len;
}

-- `node_size` is `sizeof(rel4u_mpmc_node_t)`; `mem` tells whether the queue gets memory for the packet
-- of a sequence number.
module _ (node_size : ℕ) (mem : ℕ → Bool) where
  unfoldable pub reclaim_slot : ℕ → SendWindow → Queue × ℕ → Queue × ℕ
  reclaim_slot seq w (q, n) =
      let slot = slot_of w seq in
      let (r, accepted, _) = push_front node_size (mem seq) q (reclaimed_item slot) in
      if holds slot seq && not slot.acked && is_reliable slot.delivery_mode
      then (r, if accepted then n + 1 else n)
      else (q, n)

  -- The loop from `seq` down, with fuel.
  unfoldable pub reclaim_loop : ℕ → SendWindow → ℕ → Queue × ℕ → Queue × ℕ
  reclaim_loop zero w seq r = r
  reclaim_loop (suc fuel) w seq r =
      let rest = reclaim_loop fuel w (sub32 seq 1) (reclaim_slot (sub32 seq 1) w r) in
      if seq_gt seq w.head_seq then rest else r

  -- `rel4u_send_window_reclaim_unacked`: the queue, and how many packets went back to it.
  unfoldable pub reclaim_unacked : SendWindow → Queue → Queue × ℕ
  reclaim_unacked w q =
      if is_null w.slots || not (seq_gt w.next_seq w.head_seq)
      then (q, 0)
      else reclaim_loop (sub32 w.next_seq w.head_seq) w w.next_seq (q, 0)
