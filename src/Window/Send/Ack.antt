-- ===== src/Window/Send/Ack.antt =====
-- Cumulative acknowledgements: the loop over the packets up to the acknowledged number.
use native.Mathlib.Nat.{mod-lt}
use native.Mathlib.Decide.{ℕ_discrete}
use rel4u.Prelude.{
  ◌≢◌, ℕ, zero, suc, ◌+◌, ◌-◌, ◌%◌, ◌≤◌, ◌<◌, ◌≡◌, refl, sym, ap, ap₂, subst, ◌∙◌, true, false,
  List, [], ◌∷◌, inl, inr, Bool-cases, if_true, if_false, map_if, arith, ltb, if◌then◌else◌, length,
  set, length-set,
}
use rel4u.Prelude.Ring.{segment, segment_cons, segment-set_ne, mod-ne, mod_next, mod_here}
use rel4u.Seq.{add32, sub32, seq_lte}
use rel4u.Window.Index.{slot_index, slot_index-lt, slot_index-add32}
use rel4u.Window.Send.{
  SendSlot, SendWindow, AckState, zero_slot, slot_of, put_slot, holds, sample, ack_slot, ack_once,
  release_slot, ack_head, acks_head, ack_loop,
}
use rel4u.Window.Send.Inv.{outstanding, Numbered, unacked, IsSendWindow}

pub win-sample : (now_ns : ℕ) (slot : SendSlot) (s : AckState) → (sample now_ns slot s).win ≡ s.win
unfolding sample
win-sample now_ns slot s = ground arith

-- A slot marked as acknowledged, and the counter that goes with it.
abbrev pub acked_win : SendWindow → ℕ → SendWindow
acked_win w seq = record (put_slot w seq (record (slot_of w seq) { acked = true })) {
  in_flight = if ltb 0 w.in_flight then w.in_flight - 1 else w.in_flight;
}

pub win-ack_slot :
    (now_ns seq : ℕ) (s : AckState)
    → (ack_slot now_ns seq (slot_of s.win seq) s).win ≡ acked_win s.win seq
unfolding ack_slot
win-ack_slot now_ns seq s = win-sample now_ns _ _

win-ack_once :
    (now_ns seq : ℕ) (s : AckState)
    → (ack_once now_ns seq s).win
      ≡ (if (slot_of s.win seq).acked then s.win else acked_win s.win seq)
unfolding ack_once
win-ack_once now_ns seq s =
    map_if (λ (t : AckState). t.win) (slot_of s.win seq).acked s
      (ack_slot now_ns seq (slot_of s.win seq) s)
    ∙ ap (λ (t : SendWindow). if (slot_of s.win seq).acked then s.win else t)
        (win-ack_slot now_ns seq s)

-- The head slot given up, and the window moved on.
abbrev pass_head : SendWindow → SendWindow
pass_head w = record (release_slot w.head_seq w) { head_seq = add32 w.head_seq 1 }

win-ack_head :
    (now_ns : ℕ) (s : AckState)
    → holds (slot_of s.win s.win.head_seq) s.win.head_seq ≡ true
    → (ack_head now_ns s).win ≡ (
        if (slot_of s.win s.win.head_seq).acked
        then pass_head s.win
        else pass_head (acked_win s.win s.win.head_seq))
unfolding ack_head
win-ack_head now_ns s h =
    let seq = s.win.head_seq in
    let t = ack_once now_ns seq s in
    let advance = λ (u : AckState). record u.win { head_seq = add32 u.win.head_seq 1 } in
    let released = λ (w : SendWindow).
      let r = release_slot seq w in record r { head_seq = add32 r.head_seq 1 } in
    ap advance (if_true (record t { win = release_slot seq t.win }) s h)
    ∙ ap released (win-ack_once now_ns seq s)
    ∙ map_if released (slot_of s.win seq).acked s.win (acked_win s.win seq)

module _ (w : SendWindow) (v : IsSendWindow w) (some_out : 0 < sub32 w.next_seq w.head_seq) where
  abbrev h0 : ℕ
  h0 = slot_index w.head_seq w.capacity

  -- The outstanding packets behind the oldest.
  abbrev others : List SendSlot
  others =
      segment zero_slot w.slots w.capacity ((h0 + 1) % w.capacity) (sub32 w.next_seq w.head_seq - 1)

  outstanding_cons : outstanding w ≡ slot_of w w.head_seq ∷ others
  outstanding_cons =
      segment_cons zero_slot w.slots w.capacity h0 (sub32 w.next_seq w.head_seq) some_out

  head-Numbered : Numbered w.head_seq (slot_of w w.head_seq ∷ others)
  head-Numbered = subst (Numbered w.head_seq) outstanding_cons v.numbered

  head_holds : holds (slot_of w w.head_seq) w.head_seq ≡ true
  head_holds = ground (arith, head-Numbered.0, head-Numbered.1)

  -- Writes to the head's slot do not show in the others.
  others_set :
      (slots : List SendSlot) (x : SendSlot)
      → segment zero_slot
          (set slots h0 x)
          w.capacity
          ((h0 + 1) % w.capacity)
          (sub32 w.next_seq w.head_seq - 1)
        ≡ segment zero_slot slots w.capacity
            ((h0 + 1) % w.capacity)
            (sub32 w.next_seq w.head_seq - 1)
  others_set slots x =
      segment-set_ne zero_slot slots w.capacity ((h0 + 1) % w.capacity)
        (sub32 w.next_seq w.head_seq - 1) h0 x
        (mod-lt (h0 + 1) (omega (arith, v.cap_valid.at_least)))
        (λ j p e. mod-ne w.capacity h0 0 (suc j) (omega arith) (omega (arith, v.span_le)) (
          mod_here w.capacity h0 (slot_index-lt w.head_seq w.capacity v.cap_valid)
          ∙ sym e
          ∙ mod_next w.capacity h0 j))

  -- A window that is moved on by one packet, whatever became of that packet's slot.
  passed :
      (slots : List SendSlot) (in_flight : ℕ)
      → length slots ≡ w.capacity
      → segment zero_slot slots w.capacity ((h0 + 1) % w.capacity) (sub32 w.next_seq w.head_seq - 1)
        ≡ others
      → in_flight ≡ unacked others
      → let r = record w { slots = slots; in_flight = in_flight; head_seq = add32 w.head_seq 1 } in
        IsSendWindow r × (outstanding r ≡ others)
  passed slots in_flight l same e =
      let d : sub32 w.next_seq (add32 w.head_seq 1) ≡ sub32 w.next_seq w.head_seq - 1 =
        omega (arith, v.head_fits, v.next_fits) in
      let i = slot_index-add32 w.head_seq 1 w.capacity v.cap_valid in
      let o = ap₂ (λ h n. segment zero_slot slots w.capacity h n) i d ∙ same in
      (
        record {
          cap_valid = v.cap_valid;
          storage = l;
          head_fits = omega arith;
          next_fits = v.next_fits;
          span_le = omega (arith, d, v.span_le);
          numbered = subst (Numbered (add32 w.head_seq 1)) (sym o) head-Numbered.2;
          counted = e ∙ ap unacked (sym o);
        },
        o,
      )

  unacked_cons : w.in_flight ≡ (if (slot_of w w.head_seq).acked then 0 else 1) + unacked others
  unacked_cons = v.counted ∙ ap unacked outstanding_cons

-- One round of the loop over a valid window with packets outstanding drops the oldest of them.
ack_head_lem :
    (now_ns : ℕ) (s : AckState)
    → IsSendWindow s.win
    → 0 < sub32 s.win.next_seq s.win.head_seq
    → let r = (ack_head now_ns s).win in
      IsSendWindow r
      × (outstanding s.win ≡ slot_of s.win s.win.head_seq ∷ outstanding r)
      × (r.head_seq ≡ add32 s.win.head_seq 1)
      × (r.next_seq ≡ s.win.next_seq)
      × (r.capacity ≡ s.win.capacity)
ack_head_lem now_ns s v p =
    let w = s.win in
    let e = win-ack_head now_ns s (head_holds w v p) in
    elim (Bool-cases (slot_of w w.head_seq).acked) [
      | inl a ↦
          let e' = e ∙ if_true _ _ a in
          let q =
            passed w v p _ w.in_flight (length-set w.slots _ _ ∙ v.storage)
              (others_set w v p w.slots _)
              (omega (arith, unacked_cons w v p, if_true {A = ℕ} 0 1 a)) in
          rw e' (
            q.0,
            outstanding_cons w v p ∙ ap (λ t. slot_of w w.head_seq ∷ t) (sym q.1),
            refl,
            refl,
            refl,
          )
      | inr a ↦
          let e' = e ∙ if_false _ _ a in
          let n : w.in_flight ≡ suc (unacked (others w v p)) =
            omega (arith, unacked_cons w v p, if_false {A = ℕ} 0 1 a) in
          let q =
            passed w v p _ (if ltb 0 w.in_flight then w.in_flight - 1 else w.in_flight)
              (length-set (acked_win w w.head_seq).slots _ _ ∙ length-set w.slots _ _ ∙ v.storage)
              (others_set w v p (acked_win w w.head_seq).slots _ ∙ others_set w v p w.slots _)
              (ground (arith, n)) in
          rw e' (
            q.0,
            outstanding_cons w v p ∙ ap (λ t. slot_of w w.head_seq ∷ t) (sym q.1),
            refl,
            refl,
            refl,
          )
    ]

-- The packets that a cumulative acknowledgement leaves, from the sequence number of the first on.
abbrev pub beyond_ack : ℕ → ℕ → List SendSlot → List SendSlot
beyond_ack ack_num seq [] = []
beyond_ack ack_num seq (s ∷ ss) =
    if seq_lte seq ack_num then beyond_ack ack_num (add32 seq 1) ss else s ∷ ss

-- What the loop over `s` has to end in.
abbrev pub AckedUpTo : ℕ → AckState → AckState → Type 0
AckedUpTo ack_num s t =
    IsSendWindow t.win
    × (outstanding t.win ≡ beyond_ack ack_num s.win.head_seq (outstanding s.win))
    × (t.win.next_seq ≡ s.win.next_seq)
    × (t.win.capacity ≡ s.win.capacity)
    × (acks_head ack_num t.win ≡ false)

-- With nothing outstanding, or with the oldest packet not acknowledged, there is nothing to do.
ack_stops :
    (ack_num : ℕ) (s : AckState)
    → IsSendWindow s.win
    → acks_head ack_num s.win ≡ false
    → AckedUpTo ack_num s s
ack_stops ack_num s v e = elim (ℕ_discrete s.win.head_seq s.win.next_seq) [
  | yes n ↦
      let d : sub32 s.win.next_seq s.win.head_seq ≡ 0 = omega (arith, v.head_fits, n) in
      let h = slot_index s.win.head_seq s.win.capacity in
      let o = ap (λ (k : ℕ). segment zero_slot s.win.slots s.win.capacity h k) d in
      (v, o ∙ ap (beyond_ack ack_num s.win.head_seq) (sym o), refl, refl, e)
  | no n ↦
      let p : 0 < sub32 s.win.next_seq s.win.head_seq =
        omega (arith, v.head_fits, v.next_fits, n) in
      let o = outstanding_cons s.win v p in
      let l : seq_lte s.win.head_seq ack_num ≡ false = ground (arith, n) in
      (v, o ∙ sym (ap (beyond_ack ack_num s.win.head_seq) o ∙ if_false _ _ l), refl, refl, e)
]

ack_goes_on :
    (ack_num now_ns : ℕ) (s t : AckState)
    → IsSendWindow s.win
    → acks_head ack_num s.win ≡ true
    → AckedUpTo ack_num (ack_head now_ns s) t
    → AckedUpTo ack_num s t
ack_goes_on ack_num now_ns s t v e u =
    let n : s.win.head_seq ≢ s.win.next_seq = ground arith in
    let p : 0 < sub32 s.win.next_seq s.win.head_seq = omega (arith, v.head_fits, v.next_fits, n) in
    let a = ack_head_lem now_ns s v p in
    let l : seq_lte s.win.head_seq ack_num ≡ true = ground arith in
    let step = ap (beyond_ack ack_num s.win.head_seq) a.1 ∙ if_true _ _ l in
    let at = ap (λ (k : ℕ). beyond_ack ack_num k (outstanding (ack_head now_ns s).win)) a.2 in
    (u.0, u.1 ∙ at ∙ sym step, u.2 ∙ a.3, u.3 ∙ a.4, u.4)

distance_after :
    (now_ns ack_num : ℕ) (s : AckState) (fuel : ℕ)
    → IsSendWindow s.win
    → acks_head ack_num s.win ≡ true
    → sub32 s.win.next_seq s.win.head_seq ≤ suc fuel
    → IsSendWindow (ack_head now_ns s).win
      × (sub32 (ack_head now_ns s).win.next_seq (ack_head now_ns s).win.head_seq ≤ fuel)
distance_after now_ns ack_num s fuel v e h =
    let n : s.win.head_seq ≢ s.win.next_seq = ground arith in
    let p : 0 < sub32 s.win.next_seq s.win.head_seq = omega (arith, v.head_fits, v.next_fits, n) in
    let a = ack_head_lem now_ns s v p in (a.0, omega (arith, a.2, a.3, v.head_fits, v.next_fits))

-- With fuel for the distance between head and next, the loop over a valid window drops the oldest
-- packets up to the acknowledged number, and ends by its own test.
pub ack_loop_lem :
    (fuel ack_num now_ns : ℕ) (s : AckState)
    → IsSendWindow s.win
    → sub32 s.win.next_seq s.win.head_seq ≤ fuel
    → AckedUpTo ack_num s (ack_loop fuel ack_num now_ns s)
unfolding ack_loop
ack_loop_lem zero ack_num now_ns s v h =
    let n : s.win.head_seq ≡ s.win.next_seq = omega (arith, v.head_fits, v.next_fits) in
    ack_stops ack_num s v (ground (arith, n))
ack_loop_lem (suc fuel) ack_num now_ns s v h = elim (Bool-cases (acks_head ack_num s.win)) [
  | inl e ↦
      let q = distance_after now_ns ack_num s fuel v e h in
      subst (AckedUpTo ack_num s) (sym (if_true _ s e)) (
        ack_goes_on ack_num now_ns s (ack_loop fuel ack_num now_ns (ack_head now_ns s)) v e
          (ack_loop_lem fuel ack_num now_ns (ack_head now_ns s) q.0 q.1))
  | inr e ↦ subst (AckedUpTo ack_num s) (sym (if_false _ s e)) (ack_stops ack_num s v e)
]
