-- ===== src/Window/Recv/Inv.antt =====
-- What makes a receive window valid, and the loops that move it on.
use native.Mathlib.Nat.{mod-lt}
use rel4u.Prelude.{
  ℕ, zero, suc, ◌+◌, ◌-◌, ◌%◌, ◌^◌, ◌≤◌, ◌<◌, ◌≡◌, ◌≢◌, refl, sym, ap, ap₂, subst, ◌∙◌, true, false,
  not, ◌||◌, List, [], ◌∷◌, ◌++◌, Option, none, some, ◌⊎◌, inl, inr, if_true, arith, ◌==◌,
  if◌then◌else◌, length, get_or, set, length-set, length-append,
}
use rel4u.Prelude.Ring.{segment, segment_cons, segment-set_end}
use rel4u.Seq.{add32}
use rel4u.Window.Index.{IsCapacity, slot_index, slot_index-lt, slot_index-add32}
use rel4u.Window.Recv.{
  RecvSlot, RecvWindow, zero_slot, slot_of, holds, pass_expected, pop_step, drain_step, rounds,
}

-- The slots from that of `expected_seq` on, once round.
abbrev pub view : RecvWindow → List RecvSlot
view w = segment zero_slot w.slots w.capacity (slot_index w.expected_seq w.capacity) w.capacity

-- The packets that are kept have the numbers from `seq` on, each in its place.
abbrev pub InPlace : ℕ → List RecvSlot → Type 0
InPlace seq [] = Unit
InPlace seq (s ∷ ss) = (not s.received || s.seq_num == seq ≡ true) × InPlace (add32 seq 1) ss

pub record IsRecvWindow (w : RecvWindow) : Type 0 where
  pub cap_valid : IsCapacity w.capacity
  pub storage : length w.slots ≡ w.capacity
  pub expected_fits : w.expected_seq < 2 ^ 32
  pub in_place : InPlace w.expected_seq (view w)

InPlace-snoc :
    (seq : ℕ) (ss : List RecvSlot) (x : RecvSlot)
    → InPlace seq ss
    → x.received ≡ false
    → InPlace seq (ss ++ x ∷ [])
InPlace-snoc seq [] x h e = (ground arith, tt)
InPlace-snoc seq (s ∷ ss) x h e = (h.0, InPlace-snoc (add32 seq 1) ss x h.1 e)

-- The head's slot, given up.
abbrev pub cleared : RecvWindow → RecvSlot
cleared w = record (slot_of w w.expected_seq) { received = false }

module _ (w : RecvWindow) (v : IsRecvWindow w) where
  abbrev c : ℕ
  c = w.capacity

  abbrev h0 : ℕ
  h0 = slot_index w.expected_seq w.capacity

  abbrev pub behind : List RecvSlot
  behind = segment zero_slot w.slots w.capacity ((h0 + 1) % w.capacity) (w.capacity - 1)

  pub view_cons : view w ≡ slot_of w w.expected_seq ∷ behind
  view_cons = segment_cons zero_slot w.slots c h0 c (omega (arith, v.cap_valid.at_least))

  -- The window moves on: its view loses the slot in front and gains one that is free.
  pub view-pass_expected : view (pass_expected w) ≡ behind ++ cleared w ∷ []
  unfolding pass_expected
  view-pass_expected =
      let pos_c : 0 < c = omega (arith, v.cap_valid.at_least) in
      let hl = slot_index-lt w.expected_seq c v.cap_valid in
      let h1 = mod-lt (h0 + 1) {m = c} pos_c in
      let at : ((h0 + 1) % c + (c - 1)) % c ≡ h0 = round_trip c h0 hl in
      let n : suc (c - 1) ≡ c = omega arith in
      ap (λ (h : ℕ). segment zero_slot (set w.slots h0 (cleared w)) c h c)
        (slot_index-add32 w.expected_seq 1 c v.cap_valid)
      ∙ ap₂ (λ (k m : ℕ). segment zero_slot (set w.slots k (cleared w)) c ((h0 + 1) % c) m) (sym at)
          (sym n)
      ∙ segment-set_end zero_slot w.slots c ((h0 + 1) % c) (c - 1) (cleared w)
          (omega (arith, v.storage)) h1 (omega arith)
    where
      round_trip : (c h : ℕ) → h < c → ((h + 1) % c + (c - 1)) % c ≡ h
      round_trip c h l = grind arith

  pub pass_expected-IsRecvWindow : IsRecvWindow (pass_expected w)
  unfolding pass_expected
  pass_expected-IsRecvWindow =
      let p = subst (InPlace w.expected_seq) view_cons v.in_place in
      record {
        cap_valid = v.cap_valid;
        storage = length-set w.slots h0 (cleared w) ∙ v.storage;
        expected_fits = omega arith;
        in_place =
            subst (InPlace (add32 w.expected_seq 1)) (sym view-pass_expected)
              (InPlace-snoc (add32 w.expected_seq 1) behind (cleared w) p.1 refl);
      }

-- The packets that are kept.
abbrev pub kept_count : List RecvSlot → ℕ
kept_count [] = 0
kept_count (s ∷ ss) = (if s.received then 1 else 0) + kept_count ss

pub kept_count-le-length : (ss : List RecvSlot) → kept_count ss ≤ length ss
kept_count-le-length [] = omega arith
kept_count-le-length (s ∷ ss) = ground (arith, kept_count-le-length ss)

kept_count-set :
    (i : ℕ) (ss : List RecvSlot)
    → (get_or ss i zero_slot).received ≡ true
    → kept_count ss
      ≡ suc (kept_count (set ss i (record (get_or ss i zero_slot) { received = false })))
kept_count-set i [] e = absurd (true≢false (sym e))
  where
    true≢false : true ≢ false
    true≢false f = ground arith
kept_count-set zero (s ∷ ss) e = omega (arith, if_true {A = ℕ} 1 0 e)
kept_count-set (suc i) (s ∷ ss) e = omega (arith, kept_count-set i ss e)

pub kept_count-pass_expected :
    (w : RecvWindow)
    → holds (slot_of w w.expected_seq) w.expected_seq ≡ true
    → kept_count w.slots ≡ suc (kept_count (pass_expected w).slots)
unfolding pass_expected
kept_count-pass_expected w e =
    kept_count-set (slot_index w.expected_seq w.capacity) w.slots (ground arith)

-- A round that does not end a loop moves on over a packet that is kept.
abbrev pub Passes : (ℕ → RecvWindow → Option (RecvWindow × List RecvSlot)) → Type 0
Passes step =
    (places : ℕ) (w : RecvWindow)
    → (step places w ≡ none)
      ⊎ ((out : List RecvSlot) × (step places w ≡ some (pass_expected w, out))
          × (holds (slot_of w w.expected_seq) w.expected_seq ≡ true))

pub pop_step-Passes : Passes pop_step
unfolding pop_step
pop_step-Passes places w = ground arith

pub drain_step-Passes : Passes drain_step
unfolding drain_step
drain_step-Passes places w = ground arith

module _ (step : ℕ → RecvWindow → Option (RecvWindow × List RecvSlot)) where
  pub rounds-none :
      (fuel places : ℕ) (w : RecvWindow)
      → step places w ≡ none
      → rounds step (suc fuel) places w ≡ (w, [])
  unfolding rounds
  rounds-none fuel places w e = rw (e, rounds) refl

  pub rounds-some :
      (fuel places : ℕ) (w v : RecvWindow) (out : List RecvSlot)
      → step places w ≡ some (v, out)
      → let rest = rounds step fuel (places - length out) v in
        rounds step (suc fuel) places w ≡ (rest.0, out ++ rest.1)
  unfolding rounds
  rounds-some fuel places w v out e = rw (e, rounds) refl

module _ (step : ℕ → RecvWindow → Option (RecvWindow × List RecvSlot)) (passes : Passes step) where
  pub rounds-IsRecvWindow :
      (fuel places : ℕ) (w : RecvWindow)
      → IsRecvWindow w
      → IsRecvWindow (rounds step fuel places w).0
  unfolding rounds
  rounds-IsRecvWindow zero places w v = v
  rounds-IsRecvWindow (suc fuel) places w v = elim (passes places w) [
    | inl e ↦
        subst (λ (r : RecvWindow × List RecvSlot). IsRecvWindow r.0)
          (sym (rounds-none step fuel places w e)) v
    | inr (out, e, h) ↦
        subst (λ (r : RecvWindow × List RecvSlot). IsRecvWindow r.0)
          (sym (rounds-some step fuel places w (pass_expected w) out e))
          (rounds-IsRecvWindow fuel (places - length out) (pass_expected w)
            (pass_expected-IsRecvWindow w v))
  ]

  pub rounds-capacity :
      (fuel places : ℕ) (w : RecvWindow) → (rounds step fuel places w).0.capacity ≡ w.capacity
  unfolding rounds pass_expected
  rounds-capacity zero places w = refl
  rounds-capacity (suc fuel) places w = elim (passes places w) [
    | inl e ↦
        ap (λ (r : RecvWindow × List RecvSlot). r.0.capacity) (rounds-none step fuel places w e)
    | inr (out, e, h) ↦
        ap (λ (r : RecvWindow × List RecvSlot). r.0.capacity)
          (rounds-some step fuel places w (pass_expected w) out e)
        ∙ rounds-capacity fuel (places - length out) (pass_expected w)
  ]

  -- With a round for each packet that is kept and one more, the loop ends by its own test.
  pub rounds-end :
      (fuel places : ℕ) (w : RecvWindow)
      → kept_count w.slots < fuel
      → let r = rounds step fuel places w in step (places - length r.1) r.0 ≡ none
  rounds-end zero places w l = absurd (omega arith)
  rounds-end (suc fuel) places w l = elim (passes places w) [
    | inl e ↦
        subst (λ (r : RecvWindow × List RecvSlot). step (places - length r.1) r.0 ≡ none)
          (sym (rounds-none step fuel places w e)) (ap (λ (n : ℕ). step n w) (omega arith) ∙ e)
    | inr (out, e, h) ↦
        let rest = rounds step fuel (places - length out) (pass_expected w) in
        let less : places - length (out ++ rest.1) ≡ places - length out - length rest.1 =
          omega (arith, length-append out rest.1) in
        subst (λ (r : RecvWindow × List RecvSlot). step (places - length r.1) r.0 ≡ none)
          (sym (rounds-some step fuel places w (pass_expected w) out e))
          (ap (λ (n : ℕ). step n rest.0) less
            ∙ rounds-end fuel (places - length out) (pass_expected w)
                (omega (arith, kept_count-pass_expected w h)))
  ]
