-- ===== src/Transfer/Tests.antt =====
-- Two messages that arrive in the wrong order, over the wrap of the sequence numbers.
use rel4u.Prelude.{ℕ, ◌-◌, ◌^◌, ◌≤◌, ◌<◌, ◌≡◌, refl, false, List, [], ◌∷◌, length, take, arith}
use rel4u.Packet.{Header, zero_header}
use rel4u.Packet.DeliveryMode
use rel4u.Window.Index.{bad_capacity}
use rel4u.Window.Recv.{fresh}
use rel4u.Transfer.{Receiver, Carries, arrive, hand_out, arrives, Reach, start, later}
use rel4u.Transfer.Order.{in_order}
use rel4u.Transfer.Progress.{next_arrives}

four_good : bad_capacity 4 ≡ false
unfolding bad_capacity
four_good = refl

abbrev messages : List (List ℕ)
messages = (7 ∷ []) ∷ (8 ∷ 9 ∷ []) ∷ []

abbrev header : ℕ → ℕ → Header
header seq len = record zero_header {
  seq_num = seq;
  payload_len = len;
  delivery_mode = DeliveryMode.reliable_ordered;
}

abbrev waiting : Receiver
waiting = record { window = fresh 4 (2 ^ 32 - 1); log = [] }

second_carried : Carries (2 ^ 32 - 1) messages 1 (header 0 2) (8 ∷ 9 ∷ [])
second_carried = record {
  in_stream = omega arith;
  mode_ordered = refl;
  numbered = refl;
  whole = omega arith;
  carried = refl;
}

first_carried : Carries (2 ^ 32 - 1) messages 0 (header (2 ^ 32 - 1) 1) (7 ∷ [])
first_carried = record {
  in_stream = omega arith;
  mode_ordered = refl;
  numbered = refl;
  whole = omega arith;
  carried = refl;
}

abbrev after_second : Receiver
after_second = arrive 64 waiting (header 0 2) (8 ∷ 9 ∷ [])

after_second-Reach : Reach 64 4 (2 ^ 32 - 1) messages after_second
after_second-Reach = later start (arrives 1 (header 0 2) (8 ∷ 9 ∷ []) second_carried)

in_order_example :
    (k : ℕ) × (k ≤ length messages)
    × ((arrive 64 after_second (header (2 ^ 32 - 1) 1) (7 ∷ [])).log ≡ take k messages)
in_order_example =
    in_order (later after_second-Reach (arrives 0 (header (2 ^ 32 - 1) 1) (7 ∷ []) first_carried))
      (omega arith) four_good (omega arith) (omega arith) (omega arith)

next_arrives_example :
    0 < length (hand_out 64 (arrive 64 waiting (header (2 ^ 32 - 1) 1) (7 ∷ []))).log
next_arrives_example =
    next_arrives start (omega arith) four_good (omega arith) (omega arith) (omega arith)
      (header (2 ^ 32 - 1) 1) (7 ∷ []) first_carried
