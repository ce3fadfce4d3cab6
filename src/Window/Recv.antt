-- ===== src/Window/Recv.antt =====
-- The receive window of src/core/rel4u_window.c.
pub mod Inv
pub mod Deliver
pub mod Accept
pub mod Modes
pub mod Once
pub mod AckInfo
use rel4u.Prelude.{
  ℕ, zero, suc, ◌+◌, ◌-◌, ◌%◌, ◌^◌, Bool, true, false, not, ◌&&◌, ◌||◌, List, [], ◌∷◌, ◌++◌, Option,
  none, some, ltb, leb, ◌==◌, if◌then◌else◌, length, get_or, set, memcpy, replicate, bit_or,
}
use rel4u.Prelude.Int.{ℤ, pos, negsuc, leb_ℤ, to_int32}
use rel4u.Seq.{add32, sub32, seq_lt, seq_gt, seq_diff}
use rel4u.Packet.{Header}
use rel4u.Packet.DeliveryMode
use rel4u.Window.Index.{slot_index, bad_capacity, max_payload_size}

-- `rel4u_recv_slot_t`.
pub record RecvSlot : Type 0 where
  pub seq_num : ℕ
  pub payload_len : ℕ
  pub delivery_mode : ℕ
  pub received : Bool
  pub payload : List ℕ

-- `rel4u_recv_window_t`. `slots` is empty for a null pointer.
pub record RecvWindow : Type 0 where
  pub slots : List RecvSlot
  pub capacity : ℕ
  pub expected_seq : ℕ
  pub highest_unrel_seq : ℕ
  pub has_highest_unrel : Bool

-- A slot that `calloc` or `memset` cleared.
abbrev pub zero_slot : RecvSlot
zero_slot = record {
  seq_num = 0;
  payload_len = 0;
  delivery_mode = 0;
  received = false;
  payload = replicate max_payload_size 0;
}

abbrev pub fresh : ℕ → ℕ → RecvWindow
fresh capacity initial_seq = record {
  slots = replicate capacity zero_slot;
  capacity = capacity;
  expected_seq = initial_seq;
  highest_unrel_seq = 0;
  has_highest_unrel = false;
}

-- `rel4u_recv_window_init` (`none` for -1); `mem` tells whether `calloc` returns memory.
unfoldable pub init : Bool → ℕ → ℕ → Option RecvWindow
unfolding bad_capacity
init mem capacity initial_seq =
    if bad_capacity capacity then none else if mem then some (fresh capacity initial_seq) else none

-- `rel4u_recv_window_destroy`.
unfoldable pub destroy : RecvWindow → RecvWindow
destroy w = record w { slots = []; capacity = 0 }

abbrev pub is_null : List RecvSlot → Bool
is_null [] = true
is_null (s ∷ ss) = false

-- `rel4u_recv_window_reset`: what it returns, and the window.
unfoldable pub reset : RecvWindow → ℕ → ℤ × RecvWindow
reset w initial_seq =
    if is_null w.slots || w.capacity == 0
    then (negsuc 0, w)
    else (pos 0, fresh w.capacity initial_seq)

abbrev pub slot_of : RecvWindow → ℕ → RecvSlot
slot_of w seq = get_or w.slots (slot_index seq w.capacity) zero_slot

abbrev pub put_slot : RecvWindow → ℕ → RecvSlot → RecvWindow
put_slot w seq s = record w { slots = set w.slots (slot_index seq w.capacity) s }

-- `slot->received && slot->seq_num == seq`.
abbrev pub holds : RecvSlot → ℕ → Bool
holds slot seq = slot.received && slot.seq_num == seq

-- `slot->received = false; win->expected_seq++;` for the slot of `expected_seq`.
unfoldable pub pass_expected : RecvWindow → RecvWindow
pass_expected w =
    record (put_slot w w.expected_seq (record (slot_of w w.expected_seq) { received = false })) {
      expected_seq = add32 w.expected_seq 1;
    }

-- One round of the loop of `rel4u_recv_window_pop_ready`, with the places left in the output: `none`
-- where the loop ends, else the window and what the round puts out.
unfoldable pub pop_step : ℕ → RecvWindow → Option (RecvWindow × List RecvSlot)
pop_step places w =
    let slot = slot_of w w.expected_seq in
    if places == 0
    then none
    else if holds slot w.expected_seq
    then some (
      pass_expected w,
      if slot.delivery_mode == DeliveryMode.reliable_ordered then slot ∷ [] else [],
    )
    else none

-- One round of the loop that ends the case of a reliable unordered packet.
unfoldable pub drain_step : ℕ → RecvWindow → Option (RecvWindow × List RecvSlot)
drain_step places w =
    let slot = slot_of w w.expected_seq in
    if holds slot w.expected_seq
    then (if slot.delivery_mode == DeliveryMode.reliable_unordered
        then some (pass_expected w, [])
        else if slot.delivery_mode == DeliveryMode.reliable_ordered
        then (if places == 0 then none else some (pass_expected w, slot ∷ []))
        else none)
    else none

-- Rounds until one ends the loop, with fuel.
unfoldable pub rounds :
    (ℕ → RecvWindow → Option (RecvWindow × List RecvSlot))
    → ℕ
    → ℕ
    → RecvWindow
    → RecvWindow × List RecvSlot
rounds step zero places w = (w, [])
rounds step (suc fuel) places w = elim (step places w) [
  | none ↦ (w, [])
  | some r ↦ let rest = rounds step fuel (places - length r.1) r.0 in (rest.0, r.1 ++ rest.1)
]

-- `rel4u_recv_window_pop_ready`: what it returns, the window, and the slots it puts out. Each round
-- but the last clears a slot.
unfoldable pub pop_ready : RecvWindow → ℕ → ℤ × RecvWindow × List RecvSlot
pop_ready w max_ready =
    let r = rounds pop_step (suc (length w.slots)) max_ready w in
    if max_ready == 0 then (negsuc 0, w, []) else (pos 0, r.0, r.1)

-- What is put out for a packet that is delivered as it arrives.
unfoldable pub direct_slot : Header → List ℕ → RecvSlot
direct_slot hdr payload = record {
  seq_num = hdr.seq_num;
  payload_len = hdr.payload_len;
  delivery_mode = hdr.delivery_mode;
  received = true;
  payload = memcpy [] payload hdr.payload_len;
}

-- Mode 1.
unfoldable pub on_unreliable_ordered : RecvWindow → Header → List ℕ → ℤ × RecvWindow × List RecvSlot
on_unreliable_ordered w hdr payload =
    if not w.has_highest_unrel || seq_gt hdr.seq_num w.highest_unrel_seq
    then (
      pos 0,
      record w { highest_unrel_seq = hdr.seq_num; has_highest_unrel = true },
      direct_slot hdr payload ∷ [],
    )
    else (pos 1, w, [])

-- Why the windows of modes 2 and 3 refuse a packet: what is returned, or `none` for a packet to take.
unfoldable pub refusal : RecvWindow → ℕ → Option ℤ
refusal w seq =
    if seq_lt seq w.expected_seq
    then some (pos 1)
    else if leb_ℤ (to_int32 w.capacity) (seq_diff seq w.expected_seq)
    then some (negsuc 1)
    else if holds (slot_of w seq) seq
    then some (pos 1)
    else none

-- Mode 2: the slot records the packet, which is delivered at once.
unfoldable pub noted : RecvWindow → Header → RecvWindow
noted w hdr = put_slot w hdr.seq_num (record (slot_of w hdr.seq_num) {
  received = true;
  seq_num = hdr.seq_num;
  payload_len = hdr.payload_len;
  delivery_mode = hdr.delivery_mode;
})

unfoldable pub on_reliable_unordered :
    RecvWindow → Header → List ℕ → ℕ → ℤ × RecvWindow × List RecvSlot
on_reliable_unordered w hdr payload max_ready = elim (refusal w hdr.seq_num) [
  | some code ↦ (code, w, [])
  | none ↦
      let r = rounds drain_step (suc (length w.slots)) (max_ready - 1) (noted w hdr) in
      (pos 0, r.0, direct_slot hdr payload ∷ r.1)
]

-- Mode 3: the slot keeps the packet until its turn.
unfoldable pub kept : RecvWindow → Header → List ℕ → RecvWindow
kept w hdr payload =
    let slot = slot_of w hdr.seq_num in
    put_slot w hdr.seq_num (record {
      seq_num = hdr.seq_num;
      payload_len = hdr.payload_len;
      delivery_mode = hdr.delivery_mode;
      received = true;
      payload = memcpy slot.payload payload hdr.payload_len;
    })

unfoldable pub on_reliable_ordered :
    RecvWindow → Header → List ℕ → ℕ → ℤ × RecvWindow × List RecvSlot
on_reliable_ordered w hdr payload max_ready = elim (refusal w hdr.seq_num) [
  | some code ↦ (code, w, [])
  | none ↦ pop_ready (kept w hdr payload) max_ready
]

-- `rel4u_recv_window_on_packet`: what it returns, the window, and the slots it puts out.
unfoldable pub on_packet : RecvWindow → Header → List ℕ → ℕ → ℤ × RecvWindow × List RecvSlot
on_packet w hdr payload max_ready =
    if max_ready == 0
    then (negsuc 0, w, [])
    else if hdr.delivery_mode == DeliveryMode.unreliable_unordered
    then (pos 0, w, direct_slot hdr payload ∷ [])
    else if hdr.delivery_mode == DeliveryMode.unreliable_ordered
    then on_unreliable_ordered w hdr payload
    else if hdr.delivery_mode == DeliveryMode.reliable_unordered
    then on_reliable_unordered w hdr payload max_ready
    else if hdr.delivery_mode == DeliveryMode.reliable_ordered
    then on_reliable_ordered w hdr payload max_ready
    else (negsuc 0, w, [])

-- The loop of `rel4u_recv_window_get_ack_info` over the bits from `i` on, `n` of them.
unfoldable pub mask_loop : ℕ → ℕ → RecvWindow → ℕ → ℕ
mask_loop zero i w mask = mask
mask_loop (suc n) i w mask =
    let seq = add32 w.expected_seq i in
    mask_loop n (i + 1) w (if holds (slot_of w seq) seq then bit_or mask (2 ^ i) else mask)

-- `rel4u_recv_window_get_ack_info`: the acknowledged number and the mask.
unfoldable pub get_ack_info : RecvWindow → ℕ × ℕ
get_ack_info w = (sub32 w.expected_seq 1, mask_loop 32 0 w 0)
