-- ===== src/Exchange/Tests.antt =====
-- Two messages over the wrap of the sequence numbers: the second arrives first, its acknowledgement
-- reaches the sender, and the first is sent again.
use rel4u.Prelude.{
  ℕ, ◌+◌, ◌-◌, ◌^◌, ◌<◌, ◌≡◌, ◌⊎◌, refl, true, false, [], ◌∷◌, some, length, drop, get_elem?,
  get_or, take, arith,
}
use rel4u.Packet.{Header, zero_header, header_len, decode_header}
use rel4u.Packet.DeliveryMode
use rel4u.Session.{default_rtt}
use rel4u.Stats.{no_stats}
use rel4u.Window.Index.{bad_capacity, slot_index}
use rel4u.Window.Send.{zero_slot, push}
use rel4u.Window.Recv.{
  on_packet, on_reliable_ordered, kept, pop_ready, get_ack_info, refusal, mask_loop, rounds,
  pop_step,
}
use rel4u.Seq.{seq_lt, seq_diff}
use rel4u.Window.Send.Inv.{outstanding}
use rel4u.Transfer.{Carries, arrive}
use rel4u.Exchange.{
  Exchange, has, send, send_again, acknowledge, take_ack, opened, Reach, start, later, sends,
  sends_again, arrives, acknowledges, ack_arrives,
}
use rel4u.Prelude.Int.{pos}
use rel4u.Exchange.Retry.{datagram_for, retry_arrives}
use rel4u.Exchange.NoLoss.{Awaits, no_loss}

four_good : bad_capacity 4 ≡ false
unfolding bad_capacity
four_good = refl

abbrev first : ℕ
first = 2 ^ 32 - 1

abbrev at_start : Exchange
at_start = opened 4 4 first default_rtt no_stats

-- Both messages are pushed.
abbrev both_sent : Exchange
both_sent = send 6 (8 ∷ 9 ∷ []) (send 5 (7 ∷ []) at_start)

abbrev header : Header
header = record zero_header {
  seq_num = 0;
  payload_len = 2;
  delivery_mode = DeliveryMode.reliable_ordered;
}

both_sent-sent : both_sent.sent ≡ (7 ∷ []) ∷ (8 ∷ 9 ∷ []) ∷ []
unfolding send push seq_diff
both_sent-sent = refl

second_carried : Carries first both_sent.sent 1 header (8 ∷ 9 ∷ [])
unfolding send push seq_diff
second_carried = record {
  in_stream = omega arith;
  mode_ordered = refl;
  numbered = refl;
  whole = omega arith;
  carried = refl;
}

abbrev second_there : Exchange
second_there = record both_sent { receiver = arrive 64 both_sent.receiver header (8 ∷ 9 ∷ []) }

abbrev acknowledged : Exchange
acknowledged = acknowledge second_there

abbrev ack : ℕ × ℕ
ack = get_ack_info second_there.receiver.window

-- The mask names the second message, and nothing has been handed out.
ack_lem : ack ≡ (2 ^ 32 - 2, 2)
unfolding send push arrive on_packet on_reliable_ordered kept pop_ready get_ack_info refusal
    mask_loop seq_lt seq_diff slot_index rounds pop_step
ack_lem = refl

ack_sent : get_elem? acknowledged.acks 0 ≡ some ack
unfolding acknowledge
ack_sent = refl

abbrev at_end : Exchange
at_end = send_again 10 3 (take_ack 9 ack acknowledged)

at_end-Reach : Reach 64 4 4 first at_end
at_end-Reach =
    later
      (later
        (later
          (later
            (later (later (start default_rtt no_stats) (sends 5 (7 ∷ []))) (sends 6 (8 ∷ 9 ∷ [])))
            (arrives 1 header (8 ∷ 9 ∷ []) second_carried))
          acknowledges)
        (ack_arrives 9 0 ack ack_sent))
      (sends_again 10 3)

two_messages : length at_end.sent ≡ 2
unfolding send push acknowledge take_ack send_again seq_diff
two_messages = refl

no_loss_example :
    (at_end.receiver.log ≡ take (length at_end.receiver.log) at_end.sent)
    × ((i : ℕ)
        → i < length at_end.sent
        → (has at_end.receiver i ≡ true)
          ⊎ ((j : ℕ) × (j < length (outstanding at_end.sender.win))
              × Awaits first at_end i (get_or (outstanding at_end.sender.win) j zero_slot)))
no_loss_example =
    no_loss at_end-Reach (omega arith) four_good (omega arith) four_good (omega arith) (omega arith)
      (omega (arith, two_messages))

-- The first message is missing, within reach of the window.
missing : has at_end.receiver 0 ≡ false
unfolding send push acknowledge take_ack send_again arrive on_packet on_reliable_ordered kept
    pop_ready refusal seq_lt seq_diff slot_index rounds pop_step
missing = refl

near : 0 < length at_end.receiver.log + at_end.receiver.window.capacity
unfolding send push acknowledge take_ack send_again arrive on_packet on_reliable_ordered kept
    pop_ready refusal seq_lt seq_diff slot_index rounds pop_step
near = omega arith

retry_arrives_example :
    (j : ℕ) × (j < length (outstanding at_end.sender.win))
    × ((get_or (outstanding at_end.sender.win) j zero_slot).acked ≡ false)
    × (let bytes =
          datagram_for 77 at_start.receiver.window
            (get_or (outstanding at_end.sender.win) j zero_slot) in
        (hdr : Header) × (decode_header bytes (length bytes) zero_header ≡ (pos 0, hdr))
        × (has (arrive 64 at_end.receiver hdr (drop header_len bytes)) 0 ≡ true))
retry_arrives_example =
    retry_arrives at_end-Reach (omega arith) four_good (omega arith) four_good (omega arith)
      (omega arith) (omega (arith, two_messages)) 0 77 at_start.receiver.window
      (omega (arith, two_messages)) near missing (omega arith)
