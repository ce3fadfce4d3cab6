-- ===== src/Window/Send/OnAck.antt =====
-- `rel4u_send_window_on_ack`: the loop over the mask, and the function as a whole.
use rel4u.Prelude.{
  ℕ, zero, suc, ◌+◌, ◌^◌, ◌≡◌, refl, sym, ap, ap₂, subst, ◌∙◌, Bool, false, not, ◌&&◌, ◌||◌, List,
  inl, inr, Bool-cases, if_true, if_false, arith, ◌==◌,
}
use rel4u.Prelude.Bits.{zero-bit_and}
use rel4u.Prelude.Digits.{bit}
use rel4u.Seq.{add32, sub32, seq_lte}
use rel4u.Window.Send.{SendSlot, AckState, sack_bit, sack_loop, on_ack, acks_head, ack_loop}
use rel4u.Window.Send.Inv.{outstanding, IsSendWindow}
use rel4u.Window.Send.Ack.{beyond_ack, ack_loop_lem}
use rel4u.Window.Send.Marks.{mark_miss, mark, mark-mark, mark_none}
use rel4u.Window.Send.Sack.{Marks, sack_seq, sack_bit-Marks}

-- The packets that bits `i` to `i + n - 1` of a mask speak of.
abbrev pub sacked : ℕ → ℕ → ℕ → ℕ → ℕ → Bool
sacked zero i ack_num sack_mask q = false
sacked (suc n) i ack_num sack_mask q =
    (bit sack_mask i && q == sack_seq ack_num i) || sacked n (i + 1) ack_num sack_mask q

sack_loop-Marks :
    (n i ack_num sack_mask now_ns : ℕ) (s : AckState)
    → IsSendWindow s.win
    → Marks (sacked n i ack_num sack_mask) s.win (sack_loop n i ack_num sack_mask now_ns s).win
unfolding sack_loop
sack_loop-Marks zero i ack_num sack_mask now_ns s v =
    (v, sym (mark_none s.win.head_seq (outstanding s.win)), refl, refl)
sack_loop-Marks (suc n) i ack_num sack_mask now_ns s v =
    let one = sack_bit-Marks ack_num sack_mask now_ns i s v in
    let t = sack_bit ack_num sack_mask now_ns i s in
    let rest = sack_loop-Marks n (i + 1) ack_num sack_mask now_ns t one.0 in
    let p = λ (m : ℕ). bit sack_mask i && m == sack_seq ack_num i in
    let joined =
      mark-mark p (sacked n (i + 1) ack_num sack_mask) s.win.head_seq (outstanding s.win) in
    (
      rest.0,
      rest.1
          ∙ ap₂ (λ (h : ℕ) (l : List SendSlot). mark (sacked n (i + 1) ack_num sack_mask) h l) one.2
              one.1
          ∙ joined,
      rest.2 ∙ one.2,
      rest.3 ∙ one.3,
    )

sacked_none : (n i ack_num sack_mask q : ℕ) → sack_mask ≡ 0 → sacked n i ack_num sack_mask q ≡ false
sacked_none zero i ack_num sack_mask q z = refl
sacked_none (suc n) i ack_num sack_mask q z =
    neither (bit sack_mask i) _ _ no_bit (sacked_none n (i + 1) ack_num sack_mask q z)
  where
    no_bit : bit sack_mask i ≡ false
    no_bit = rw z (ground (arith, zero-bit_and (2 ^ i)))

    neither : (a b c : Bool) → a ≡ false → c ≡ false → (a && b) || c ≡ false
    neither a b c x y = ground arith

-- What an acknowledgement makes of a state.
abbrev pub Result : ℕ → ℕ → AckState → AckState → Type 0
Result ack_num sack_mask s t =
    IsSendWindow t.win
    × (outstanding t.win
        ≡ mark (sacked 32 0 ack_num sack_mask) t.win.head_seq
            (beyond_ack ack_num s.win.head_seq (outstanding s.win)))
    × (acks_head ack_num t.win ≡ false)
    × (t.win.next_seq ≡ s.win.next_seq)

-- An acknowledgement that arrives at a valid window leaves a valid one: `in_flight` still counts the
-- outstanding packets that are not acknowledged. The outstanding packets are those that were beyond
-- the acknowledged number, each marked if it was already or if a bit of the mask speaks of it; the
-- loop over the cumulative part has gone through all that it covers, and the next number to assign
-- is the same.
pub on_ack_lem :
    (ack_num sack_mask now_ns : ℕ) (s : AckState)
    → IsSendWindow s.win
    → let r = (on_ack ack_num sack_mask now_ns s).win in
      IsSendWindow r
      × (outstanding r
          ≡ mark
              (sacked 32 0 ack_num sack_mask)
              r.head_seq
              (beyond_ack ack_num s.win.head_seq (outstanding s.win)))
      × (acks_head ack_num r ≡ false)
      × (r.next_seq ≡ s.win.next_seq)
unfolding on_ack
on_ack_lem ack_num sack_mask now_ns s v =
    let t = ack_loop (sub32 s.win.next_seq s.win.head_seq) ack_num now_ns s in
    let a = ack_loop_lem (sub32 s.win.next_seq s.win.head_seq) ack_num now_ns s v (omega arith) in
    let u = sack_loop 32 0 ack_num sack_mask now_ns t in
    elim (Bool-cases (sack_mask == 0)) [
      | inl e ↦
          let z : sack_mask ≡ 0 = ground arith in
          let unmarked =
            mark_miss (sacked 32 0 ack_num sack_mask) t.win.head_seq (outstanding t.win)
              a.0.head_fits
              (λ j l. sacked_none 32 0 ack_num sack_mask (add32 t.win.head_seq j) z) in
          subst (Result ack_num sack_mask s) (sym (if_true t u e)) (
            a.0,
            sym (ap (mark (sacked 32 0 ack_num sack_mask) t.win.head_seq) (sym a.1) ∙ unmarked)
                ∙ refl,
            a.4,
            a.2,
          )
      | inr e ↦
          let m = sack_loop-Marks 32 0 ack_num sack_mask now_ns t a.0 in
          let same_test = ap₂ (λ (h n : ℕ). seq_lte h ack_num && not (h == n)) m.2 m.3 in
          let marked =
            ap₂ (λ (h : ℕ) (l : List SendSlot). mark (sacked 32 0 ack_num sack_mask) h l) (sym m.2)
              a.1 in
          subst (Result ack_num sack_mask s) (sym (if_false t u e))
            (m.0, m.1 ∙ marked, same_test ∙ a.4, m.3 ∙ a.2)
    ]
