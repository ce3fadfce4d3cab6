-- ===== src/Window/Tests.antt =====
-- The windows' theorems at concrete windows.
use rel4u.Prelude.{
  ◌+◌, ◌≤◌, ◌-◌, ◌^◌, ◌≡◌, refl, true, false, [], ◌∷◌, ◌++◌, none, some, inr, arith, ltb,
  if◌then◌else◌, length, take, ◌%◌, ◌*◌, get_or, ◌&&◌,
}
use rel4u.Prelude.Int.{pos, negsuc}
use rel4u.Packet.{Header, zero_header}
use rel4u.Rtt
use rel4u.Stats.{no_stats}
use rel4u.Seq.{sub32, add32, seq_diff}
use rel4u.Window.Index.{slot_index, bad_capacity, max_payload_size}
use rel4u.Window.Send.{
  reclaim_unacked, get_expired, SendWindow, AckState, push, on_ack, ack_loop, is_full, can_send,
  filled_slot, slot_of,
}
use rel4u.Window.Send
use rel4u.Window.Send.Inv.{IsSendWindow, outstanding, push-IsSendWindow}
use rel4u.Window.Send.Push.{push_reliable, first_sent}
use rel4u.Window.Send.Ack.{AckedUpTo, ack_loop_lem}
use rel4u.Window.Send.Timer.{due_slots, get_expired_lem}
use rel4u.Window.Send.OnAck.{Result, on_ack_lem}
use rel4u.Window.Send.Reclaim.{undelivered, Fits, reclaim_unacked_lem}
use rel4u.Mpmc.Defs.{Queue}
use rel4u.Mpmc.Fixed.{IsRing, contents}
use rel4u.Samples
use rel4u.Window.Recv.{RecvWindow, on_packet, pop_ready, pop_step, refusal, get_ack_info}
use rel4u.Window.Recv
use rel4u.Window.Recv.Inv.{IsRecvWindow}
use rel4u.Window.Recv.Deliver.{Drained, pop_stop, buffer}
use rel4u.Window.Recv.Accept.{is_some}
use rel4u.Prelude.Digits.{bit}
use rel4u.Window.Recv.AckInfo.{get_ack_info_lem}
use rel4u.Window.Recv.Modes.{on_packet-IsRecvWindow, pop_ready_lem}
use rel4u.Window.Recv.Once.{on_packet_once}
use rel4u.Window.Fresh.{fresh-IsSendWindow, fresh-IsRecvWindow}

four_good : bad_capacity 4 ≡ false
unfolding bad_capacity
four_good = refl

-- A send window of four slots with two packets outstanding, on both sides of the wrap.
abbrev empty : SendWindow
empty = Send.fresh 4 (2 ^ 32 - 1)

abbrev one_out : SendWindow
one_out = (push empty 3 (1 ∷ 2 ∷ []) 2 100).1

abbrev two_out : SendWindow
two_out = (push one_out 2 (5 ∷ []) 1 200).1

empty-IsSendWindow : IsSendWindow empty
empty-IsSendWindow = fresh-IsSendWindow 4 (2 ^ 32 - 1) four_good (omega arith) (omega arith)

one_out-IsSendWindow : IsSendWindow one_out
one_out-IsSendWindow = push-IsSendWindow empty 3 (1 ∷ 2 ∷ []) 2 100 empty-IsSendWindow

get_expired_lem_example :
    get_expired one_out 9000000 3 16
    ≡ take 16 (
        due_slots 9000000
          (3 * 1000000 % 2 ^ 64)
          one_out.capacity
          one_out.head_seq
          (outstanding one_out))
get_expired_lem_example = get_expired_lem one_out 9000000 3 16 one_out-IsSendWindow (omega arith)

push-IsSendWindow_example : IsSendWindow two_out
push-IsSendWindow_example = push-IsSendWindow one_out 2 (5 ∷ []) 1 200 one_out-IsSendWindow

push_reliable_example :
    let (code, r, seq) = push one_out 2 (5 ∷ []) 1 200 in
    let room = ltb (length (outstanding one_out)) one_out.capacity in
    let packet =
      first_sent (slot_of one_out one_out.next_seq).payload one_out.next_seq 2 (5 ∷ []) 1 200 in
    (code ≡ (if room then pos 0 else negsuc 1))
    × (seq ≡ (if room then some one_out.next_seq else none))
    × (outstanding r ≡ (if room then outstanding one_out ++ packet ∷ [] else outstanding one_out))
    × (r.next_seq ≡ (if room then add32 one_out.next_seq 1 else one_out.next_seq))
    × (r.head_seq ≡ one_out.head_seq)
push_reliable_example =
    push_reliable one_out 2 (5 ∷ []) 1 200 one_out-IsSendWindow refl (omega arith)

abbrev sent_two : AckState
sent_two = record { win = two_out; rtt = Rtt.init 0 0 0; stats = no_stats }

-- The second packet is acknowledged by a bit of the mask.
on_ack_lem_example : Result (2 ^ 32 - 2) 2 sent_two (on_ack (2 ^ 32 - 2) 2 900 sent_two)
on_ack_lem_example = on_ack_lem (2 ^ 32 - 2) 2 900 sent_two push-IsSendWindow_example

-- Both packets are acknowledged at once.
ack_loop_lem_example : AckedUpTo 0 sent_two (ack_loop 2 0 900 sent_two)
unfolding push Send.is_full rel4u.Seq.seq_diff
ack_loop_lem_example = ack_loop_lem 2 0 900 sent_two push-IsSendWindow_example (omega arith)

-- A receive window of four slots, and packets in the reliable modes.
abbrev waiting : RecvWindow
waiting = Recv.fresh 4 1

waiting-IsRecvWindow : IsRecvWindow waiting
waiting-IsRecvWindow = fresh-IsRecvWindow 4 1 four_good (omega arith) (omega arith)

abbrev second : Header
second = record zero_header { delivery_mode = 3; seq_num = 2; payload_len = 2 }

-- The second packet comes first and is kept.
abbrev gap : RecvWindow
gap = (on_packet waiting second (7 ∷ 8 ∷ []) 16).1

on_packet-IsRecvWindow_example : IsRecvWindow gap
on_packet-IsRecvWindow_example =
    on_packet-IsRecvWindow waiting second (7 ∷ 8 ∷ []) 16 waiting-IsRecvWindow (omega arith)

second_taken : (on_packet waiting second (7 ∷ 8 ∷ []) 16).0 ≡ pos 0
unfolding on_packet Recv.on_reliable_ordered refusal pop_ready rel4u.Seq.seq_lt rel4u.Seq.seq_diff
    rel4u.Window.Index.slot_index
second_taken = refl

on_packet_once_example : on_packet gap second [] 4 ≡ (pos 1, gap, [])
on_packet_once_example =
    on_packet_once waiting second (7 ∷ 8 ∷ []) [] 16 4 waiting-IsRecvWindow (omega arith)
      (omega arith) (omega arith) (inr refl) second_taken

pop_ready_lem_example :
    let r = pop_ready gap 3 in
    (r.0 ≡ pos 0)
    × IsRecvWindow r.1
    × Drained pop_stop 3 gap (r.1, r.2)
    × (pop_step (3 - length r.2) r.1 ≡ none)
pop_ready_lem_example = pop_ready_lem gap 3 on_packet-IsRecvWindow_example (omega arith)

-- Bit 1 of the mask: the second packet is kept.
get_ack_info_lem_example :
    bit (get_ack_info gap).1 1 ≡ (ltb 1 32 && is_some (get_or (buffer gap) 1 none))
get_ack_info_lem_example = get_ack_info_lem gap on_packet-IsRecvWindow_example 1

abbrev room_for_two : Queue
room_for_two = Samples.queue

room_for_two-IsRing : IsRing room_for_two
room_for_two-IsRing = record {
  mode_fixed = refl;
  room = omega arith;
  small = omega arith;
  storage = omega arith;
  head_in = omega arith;
  count_le = omega arith;
  tail_lem = refl;
}

one_out-Fits : Fits (outstanding one_out)
unfolding push seq_diff filled_slot slot_index
one_out-Fits = omega arith

enough_room :
    length (contents room_for_two) + length (undelivered (outstanding one_out))
    ≤ room_for_two.capacity
unfolding push seq_diff slot_index filled_slot
enough_room = omega arith

reclaim_unacked_lem_example :
    let r = reclaim_unacked 40 (λ seq. true) one_out room_for_two in
    (contents r.0 ≡ undelivered (outstanding one_out) ++ contents room_for_two)
    × IsRing r.0
    × (r.1 ≡ length (undelivered (outstanding one_out)))
reclaim_unacked_lem_example =
    reclaim_unacked_lem 40 (λ seq. true) one_out room_for_two one_out-IsSendWindow one_out-Fits
      room_for_two-IsRing enough_room
