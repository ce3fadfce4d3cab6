-- ===== src/Window/Send/Sack.antt =====
-- Selective acknowledgements: one bit of the mask.
use native.Mathlib.Decide.{dec_lt}
use rel4u.Prelude.{
  lt→ltb, ℕ, suc, ◌+◌, ◌-◌, ◌%◌, ◌^◌, ◌≤◌, ◌<◌, ◌≡◌, refl, sym, ap, subst, ◌∙◌, Bool, true, false,
  not, ◌&&◌, ◌||◌, ◌⊎◌, inl, inr, Bool-cases, if_true, if_false, map_if, arith, ltb, ◌==◌,
  if◌then◌else◌, length, get_or, set, length-set,
}
use rel4u.Prelude.Ring.{segment-set, get_or-segment}
use rel4u.Prelude.Digits.{bit}
use rel4u.Seq.{add32, sub32, seq_lt, seq_gte}
use rel4u.Seq.Order.{seq_window}
use rel4u.Window.Index.{slot_index, slot_index-lt, slot_index-add32}
use rel4u.Window.Send.{
  SendSlot, SendWindow, AckState, zero_slot, slot_of, holds, ack_slot, sack_bit,
}
use rel4u.Window.Send.Inv.{outstanding, Numbered, unacked, IsSendWindow, length-outstanding}
use rel4u.Window.Send.Ack.{acked_win, win-ack_slot}
use rel4u.Window.Send.Marks.{
  mark, mark_same, mark_none, mark_one, Numbered-set, unacked-set, Numbered-get,
}

-- The packet that bit `i` of the mask speaks of.
abbrev pub sack_seq : ℕ → ℕ → ℕ
sack_seq ack_num i = (ack_num + 1 + i) % 2 ^ 32

-- The write to the slot of an outstanding packet.
acked_win_lem :
    (w : SendWindow) (j : ℕ)
    → IsSendWindow w
    → j < sub32 w.next_seq w.head_seq
    → slot_of w (add32 w.head_seq j) ≡ get_or (outstanding w) j zero_slot
acked_win_lem w j v l =
    let h0 = slot_index w.head_seq w.capacity in
    ap (λ (i : ℕ). get_or w.slots i zero_slot)
      (slot_index-add32 w.head_seq j w.capacity v.cap_valid)
    ∙ sym (
        get_or-segment zero_slot w.slots w.capacity h0 (sub32 w.next_seq w.head_seq) j
          (slot_index-lt w.head_seq w.capacity v.cap_valid) l)

acked_win-IsSendWindow :
    (w : SendWindow) (j : ℕ)
    → IsSendWindow w
    → j < sub32 w.next_seq w.head_seq
    → (slot_of w (add32 w.head_seq j)).acked ≡ false
    → let r = acked_win w (add32 w.head_seq j) in
      IsSendWindow r
      × (outstanding r
          ≡ set (outstanding w) j (record (get_or (outstanding w) j zero_slot) { acked = true }))
acked_win-IsSendWindow w j v l e =
    let c = w.capacity in
    let h0 = slot_index w.head_seq c in
    let same = acked_win_lem w j v l in
    let x = record (slot_of w (add32 w.head_seq j)) { acked = true } in
    let o =
      segment-set zero_slot w.slots c h0 (sub32 w.next_seq w.head_seq) j
        (slot_index (add32 w.head_seq j) c) x (omega (arith, v.storage))
        (slot_index-lt w.head_seq c v.cap_valid) v.span_le l
        (slot_index-add32 w.head_seq j c v.cap_valid)
      ∙ ap (λ (y : SendSlot). set (outstanding w) j (record y { acked = true })) same in
    let e' = ap (λ (y : SendSlot). y.acked) (sym same) ∙ e in
    let n = unacked-set j (outstanding w) (omega (arith, length-outstanding w)) e' in
    (
      record {
        cap_valid = v.cap_valid;
        storage = length-set w.slots (slot_index (add32 w.head_seq j) c) x ∙ v.storage;
        head_fits = v.head_fits;
        next_fits = v.next_fits;
        span_le = v.span_le;
        numbered =
            subst (Numbered w.head_seq) (sym o)
              (Numbered-set w.head_seq j (outstanding w) v.numbered);
        counted = counter w.in_flight (v.counted ∙ n) ∙ ap unacked (sym o);
      },
      o,
    )
  where
    counter : (n : ℕ) {m : ℕ} → n ≡ suc m → (if ltb 0 n then n - 1 else n) ≡ m
    counter n h = ground (arith, h)

-- What a step over a valid window may change: it marks packets.
abbrev pub Marks : (ℕ → Bool) → SendWindow → SendWindow → Type 0
Marks p w r =
    IsSendWindow r
    × (outstanding r ≡ mark p w.head_seq (outstanding w))
    × (r.head_seq ≡ w.head_seq)
    × (r.next_seq ≡ w.next_seq)

-- The test of the code, for the packet of bit `i`.
abbrev applies : ℕ → ℕ → SendWindow → ℕ → Bool
applies ack_num sack_mask w i =
    bit sack_mask i
    && (seq_lt (sack_seq ack_num i) w.next_seq && seq_gte (sack_seq ack_num i) w.head_seq)
    && (holds (slot_of w (sack_seq ack_num i)) (sack_seq ack_num i)
        && not (slot_of w (sack_seq ack_num i)).acked)

no_hit : (a b c : Bool) → c ≡ false → a || (b && c) ≡ a || false
no_hit a b c e = ground arith

old_hit : (a c : Bool) → a ≡ true → a || c ≡ a || false
old_hit a c e = ground arith

and_last :
    (a b c d : Bool)
    → (a && b && (c && not d)) ≡ false
    → b ≡ true
    → c ≡ true
    → d ≡ false
    → a ≡ false
and_last a b c d e x y z = ground arith

-- A packet of the window by its distance from the head.
at_distance : (head q : ℕ) → head < 2 ^ 32 → q < 2 ^ 32 → add32 head (sub32 q head) ≡ q
at_distance head q h k = omega arith

module _ (ack_num sack_mask now_ns i : ℕ) (s : AckState) (v : IsSendWindow s.win) where
  abbrev w : SendWindow
  w = s.win

  abbrev q : ℕ
  q = sack_seq ack_num i

  abbrev j : ℕ
  j = sub32 q w.head_seq

  -- The mark that the bit asks for.
  abbrev hit : ℕ → Bool
  hit n = bit sack_mask i && n == q

  q_at : add32 w.head_seq j ≡ q
  q_at = at_distance w.head_seq q v.head_fits (omega arith)

  in_window : (seq_lt q w.next_seq && seq_gte q w.head_seq) ≡ ltb j (sub32 w.next_seq w.head_seq)
  in_window =
      seq_window w.head_seq w.next_seq q v.head_fits v.next_fits (omega arith)
        (omega (arith, v.span_le, v.cap_valid.at_most))

  -- The bit applies: the packet's slot is marked.
  sack_bit-hit :
      bit sack_mask i ≡ true
      → j < sub32 w.next_seq w.head_seq
      → (slot_of w q).acked ≡ false
      → Marks hit w (acked_win w q)
  sack_bit-hit b l a =
      let a' = ap (λ (n : ℕ). (slot_of w n).acked) q_at ∙ a in
      let r = acked_win-IsSendWindow w j v l a' in
      let r' =
        subst
          (λ (n : ℕ).
            IsSendWindow (acked_win w n)
            × (outstanding (acked_win w n)
                ≡ set (outstanding w) j
                    (record (get_or (outstanding w) j zero_slot) { acked = true })))
          q_at r in
      let len = length-outstanding w in
      let m =
        mark_one w.head_seq j (outstanding w) v.head_fits (omega (arith, len))
          (omega (arith, len, v.span_le, v.cap_valid.at_most)) in
      let t =
        mark_same hit (λ n. n == add32 w.head_seq j) w.head_seq (outstanding w) v.head_fits
          (λ k g.
            ap (λ (c : Bool). (get_or (outstanding w) k zero_slot).acked || c)
              (ap (λ (c : Bool). c && add32 w.head_seq k == q) b
                ∙ ap (λ (x : ℕ). add32 w.head_seq k == x) (sym q_at))) in
      (r'.0, r'.1 ∙ sym m ∙ sym t, refl, refl)

  missed :
      (bit sack_mask i ≡ false) ⊎ (sub32 w.next_seq w.head_seq ≤ j) ⊎ ((slot_of w q).acked ≡ true)
      → (k : ℕ) → k < length (outstanding w)
      → (get_or (outstanding w) k zero_slot).acked || hit (add32 w.head_seq k)
        ≡ (get_or (outstanding w) k zero_slot).acked || false
  missed (inl b) k g =
      ap
        (λ (c : Bool). (get_or (outstanding w) k zero_slot).acked || (c && add32 w.head_seq k == q))
        b
  missed (inr (inl far)) k g =
      let len = length-outstanding w in
      let f : (add32 w.head_seq k == q) ≡ false =
        ground (arith, v.head_fits, v.span_le, v.cap_valid.at_most) in
      no_hit _ (bit sack_mask i) _ f
  missed (inr (inr a)) k g = elim (Bool-cases (add32 w.head_seq k == q)) [
    | inl f ↦
        let e : add32 w.head_seq k ≡ q = ground arith in
        let len = length-outstanding w in
        let old =
          ap (λ (y : SendSlot). y.acked) (sym (acked_win_lem w k v (omega (arith, len, g))))
          ∙ ap (λ (n : ℕ). (slot_of w n).acked) e
          ∙ a in
        old_hit _ _ old
    | inr f ↦ no_hit _ (bit sack_mask i) _ f
  ]

  -- It does not apply: no packet gains a mark.
  sack_bit-miss :
      (bit sack_mask i ≡ false) ⊎ (sub32 w.next_seq w.head_seq ≤ j) ⊎ ((slot_of w q).acked ≡ true)
      → Marks hit w w
  sack_bit-miss m = (
    v,
    sym (
        mark_same hit (λ n. false) w.head_seq (outstanding w) v.head_fits (missed m)
        ∙ mark_none w.head_seq (outstanding w)),
    refl,
    refl,
  )

  q-holds : j < sub32 w.next_seq w.head_seq → holds (slot_of w q) q ≡ true
  q-holds l =
      let len = length-outstanding w in
      let n =
        Numbered-get w.head_seq j (outstanding w) v.head_fits v.numbered (omega (arith, len, l)) in
      let same = sym (ap (λ (m : ℕ). slot_of w m) q_at) ∙ acked_win_lem w j v l in
      rw same (ground (arith, n.0, n.1, q_at))

  why_not :
      applies ack_num sack_mask w i ≡ false
      → (bit sack_mask i ≡ false) ⊎ (sub32 w.next_seq w.head_seq ≤ j) ⊎ ((slot_of w q).acked ≡ true)
  why_not e = elim (dec_lt j (sub32 w.next_seq w.head_seq)) [
    | yes l ↦ by_bit e (in_window ∙ lt→ltb _ _ l) (q-holds l) _ refl
    | no f ↦ inr (inl (omega (arith, f)))
  ]
    where
      by_bit :
          applies ack_num sack_mask w i ≡ false
          → (seq_lt q w.next_seq && seq_gte q w.head_seq) ≡ true
          → holds (slot_of w q) q ≡ true
          → (c : Bool) → (slot_of w q).acked ≡ c
          → (bit sack_mask i ≡ false)
            ⊎ (sub32 w.next_seq w.head_seq ≤ j)
            ⊎ ((slot_of w q).acked ≡ true)
      by_bit e x y true z = inr (inr z)
      by_bit e x y false z = inl (and_last (bit sack_mask i) _ _ _ e x y z)

  -- One bit of the mask marks the outstanding packet that it speaks of, if there is one.
  pub sack_bit-Marks : Marks hit w (sack_bit ack_num sack_mask now_ns i s).win
  unfolding sack_bit
  sack_bit-Marks =
      subst (Marks hit w) (sym by_test) (by_slot (Bool-cases (applies ack_num sack_mask w i)))
    where
      by_test :
          (sack_bit ack_num sack_mask now_ns i s).win
          ≡ (if applies ack_num sack_mask w i then acked_win w q else w)
      by_test =
          map_if (λ (t : AckState). t.win) (applies ack_num sack_mask w i)
            (ack_slot now_ns q (slot_of w q) s) s
          ∙ ap (λ (t : SendWindow). if applies ack_num sack_mask w i then t else w)
              (win-ack_slot now_ns q s)

      by_slot :
          (applies ack_num sack_mask w i ≡ true) ⊎ (applies ack_num sack_mask w i ≡ false)
          → Marks hit w (if applies ack_num sack_mask w i then acked_win w q else w)
      by_slot (inl e) =
          subst (Marks hit w) (sym (if_true _ _ e))
            (sack_bit-hit (ground arith) (ground (arith, in_window)) (ground arith))
      by_slot (inr e) = subst (Marks hit w) (sym (if_false _ _ e)) (sack_bit-miss (why_not e))
