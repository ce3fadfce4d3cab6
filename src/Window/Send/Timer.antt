-- ===== src/Window/Send/Timer.antt =====
-- `rel4u_send_window_get_expired`: the packets that are to be sent again.
use rel4u.Prelude.{
  ℕ, zero, suc, ◌-◌, ◌*◌, ◌%◌, ◌^◌, ◌≤◌, ◌<◌, ◌≡◌, refl, sym, ap, ap₂, subst, ◌∙◌, Bool, true,
  false, not, ◌&&◌, List, [], ◌∷◌, if_true, if_false, arith, leb, ◌==◌, if◌then◌else◌, take,
}
use native.Mathlib.Decide.{ℕ_discrete}
use rel4u.Prelude.Ring.{segment, segment_cons}
use rel4u.Seq.{add32, sub32, seq_lt}
use rel4u.Window.Index.{IsCapacity, slot_index, slot_index-add32}
use rel4u.Window.Send.{
  SendSlot, SendWindow, zero_slot, slot_of, is_expired, expired_loop, get_expired,
}
use rel4u.Window.Send.Inv.{outstanding, Numbered, IsSendWindow}

-- A packet is due: it is not acknowledged, and the timeout has passed since it was last sent.
abbrev pub is_due : ℕ → ℕ → SendSlot → Bool
is_due now_ns rto_ns s =
    not s.acked && (leb s.last_sent_time_ns now_ns && leb rto_ns (now_ns - s.last_sent_time_ns))

-- The slots of the packets that are due, of a list of packets from a sequence number on.
abbrev pub due_slots : ℕ → ℕ → ℕ → ℕ → List SendSlot → List ℕ
due_slots now_ns rto_ns capacity seq [] = []
due_slots now_ns rto_ns capacity seq (s ∷ ss) =
    let rest = due_slots now_ns rto_ns capacity (add32 seq 1) ss in
    if is_due now_ns rto_ns s then slot_index seq capacity ∷ rest else rest

take-nil : (n : ℕ) → take {A = ℕ} n [] ≡ []
take-nil zero = refl
take-nil (suc n) = refl

module _ (w : SendWindow) (now_ns rto_ns : ℕ) (cap_valid : IsCapacity w.capacity)
    (next_fits : w.next_seq < 2 ^ 32) where
  -- The packets from a sequence number up to the next to assign.
  abbrev from : ℕ → List SendSlot
  from seq = segment zero_slot w.slots w.capacity (slot_index seq w.capacity) (sub32 w.next_seq seq)

  from_cons :
      (seq : ℕ)
      → seq < 2 ^ 32
      → 0 < sub32 w.next_seq seq
      → from seq ≡ slot_of w seq ∷ from (add32 seq 1)
  from_cons seq h p =
      let d : sub32 w.next_seq (add32 seq 1) ≡ sub32 w.next_seq seq - 1 = omega arith in
      segment_cons zero_slot w.slots w.capacity (slot_index seq w.capacity) (sub32 w.next_seq seq) p
      ∙ ap₂ (λ (i n : ℕ). slot_of w seq ∷ segment zero_slot w.slots w.capacity i n)
          (sym (slot_index-add32 seq 1 w.capacity cap_valid)) (sym d)

  -- What one round of the loop adds to the rounds behind it.
  abbrev round : ℕ → ℕ → Bool → List ℕ → List ℕ
  round seq places b rest =
      if b
      then (if leb places 1
          then slot_index seq w.capacity ∷ []
          else slot_index seq w.capacity ∷ rest)
      else rest

  round_lem :
      (seq places : ℕ) (b : Bool) (ss : List SendSlot) (loop : ℕ → List ℕ)
      → 0 < places
      → ((k : ℕ) → 0 < k → loop k ≡ take k (due_slots now_ns rto_ns w.capacity (add32 seq 1) ss))
      → round seq places b (loop (if b then places - 1 else places))
        ≡ take places (
            let rest = due_slots now_ns rto_ns w.capacity (add32 seq 1) ss in
            if b then slot_index seq w.capacity ∷ rest else rest)
  round_lem seq places false ss loop p ih = ih places p
  round_lem seq (suc places) true ss loop p ih = elim (ℕ_discrete places 0) [
    | yes z ↦ rw z refl
    | no z ↦
        let e : suc places - 1 ≡ places = omega arith in
        if_false {b = leb (suc places) 1} _ _ (ground arith)
        ∙ ap (λ (t : List ℕ). slot_index seq w.capacity ∷ t) (ap loop e ∙ ih places (omega arith))
  ]
  round_lem seq zero true ss loop p ih = absurd (omega arith)

  expired_loop_lem :
      (fuel seq places : ℕ)
      → seq < 2 ^ 32
      → sub32 w.next_seq seq ≤ fuel
      → sub32 w.next_seq seq < 2 ^ 31
      → 0 < places
      → Numbered seq (from seq)
      → expired_loop fuel w now_ns rto_ns seq places
        ≡ take places (due_slots now_ns rto_ns w.capacity seq (from seq))
  unfolding expired_loop seq_lt
  expired_loop_lem zero seq places h f l p n =
      let z : 0 ≡ sub32 w.next_seq seq = omega arith in
      sym (take-nil places)
      ∙ ap
          (λ (k : ℕ). take places (
            due_slots now_ns rto_ns w.capacity seq
              (segment zero_slot w.slots w.capacity (slot_index seq w.capacity) k)))
          z
  expired_loop_lem (suc fuel) seq places h f l p n = elim (ℕ_discrete (sub32 w.next_seq seq) 0) [
    | yes z ↦
        if_false {b = seq_lt seq w.next_seq} _ _ (ground arith)
        ∙ sym (take-nil places)
        ∙ ap
            (λ (k : ℕ). take places (
              due_slots now_ns rto_ns w.capacity seq
                (segment zero_slot w.slots w.capacity (slot_index seq w.capacity) k)))
            (sym z)
    | no z ↦
        let c = from_cons seq h (omega arith) in
        let m = subst (Numbered seq) c n in
        let ih = λ (k : ℕ) (q : 0 < k).
          expired_loop_lem fuel (add32 seq 1) k (omega arith) (omega arith) (omega arith) q m.2 in
        let due = is_due now_ns rto_ns (slot_of w seq) in
        let same : is_expired now_ns rto_ns (slot_of w seq) seq ≡ due = ground (arith, m.0, m.1) in
        if_true {b = seq_lt seq w.next_seq} _ _ (ground arith)
        ∙ ap
            (λ (b : Bool).
              round seq places b (
                expired_loop fuel w now_ns rto_ns (add32 seq 1) (if b then places - 1 else places)))
            same
        ∙ round_lem seq places due (from (add32 seq 1))
            (λ k. expired_loop fuel w now_ns rto_ns (add32 seq 1) k) p ih
        ∙ ap (λ (ss : List SendSlot). take places (due_slots now_ns rto_ns w.capacity seq ss))
            (sym c)
  ]

-- For a valid window and an output of at least one place, `get_expired` yields the slots of the
-- outstanding packets that are not acknowledged and were last sent at least the timeout ago, in the
-- order of their sequence numbers, up to as many as there are places.
pub get_expired_lem :
    (w : SendWindow) (now_ns rto_ms max_slots : ℕ)
    → IsSendWindow w
    → 0 < max_slots
    → get_expired w now_ns rto_ms max_slots
      ≡ take max_slots
          (due_slots now_ns (rto_ms * 1000000 % 2 ^ 64) w.capacity w.head_seq (outstanding w))
unfolding get_expired
get_expired_lem w now_ns rto_ms max_slots v p =
    if_false {b = max_slots == 0} _ _ (ground arith)
    ∙ expired_loop_lem w now_ns (rto_ms * 1000000 % 2 ^ 64) v.cap_valid v.next_fits
        (sub32 w.next_seq w.head_seq) w.head_seq max_slots v.head_fits (omega arith)
        (omega (arith, v.span_le, v.cap_valid.at_most)) p v.numbered
