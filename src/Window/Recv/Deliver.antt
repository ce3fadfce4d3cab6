-- ===== src/Window/Recv/Deliver.antt =====
-- What the loops of the receive window put out, against the sequence of the slots that it keeps.
use mathlib.Core.List.{append-nil, append_assoc, map-append}
use rel4u.Prelude.{
  ℕ, zero, suc, ◌+◌, ◌-◌, ◌%◌, ◌^◌, ◌≤◌, ◌<◌, ◌≡◌, refl, sym, ap, ap₂, subst, ◌∙◌, Bool, true,
  false, not, ◌&&◌, ◌||◌, List, [], ◌∷◌, ◌++◌, map, Option, none, some, inl, inr, Bool-cases,
  if_true, if_false, arith, ◌==◌, if◌then◌else◌, length, take, drop, replicate, take-append,
  drop-append,
}
use rel4u.Seq.{add32}
use rel4u.Packet.DeliveryMode
use rel4u.Window.Recv.{
  RecvSlot, RecvWindow, slot_of, holds, pass_expected, pop_step, drain_step, rounds,
}
use rel4u.Window.Recv.Inv.{
  view, InPlace, IsRecvWindow, view_cons, behind, cleared, view-pass_expected,
  pass_expected-IsRecvWindow, kept_count, kept_count-pass_expected, rounds-none, rounds-some,
}

abbrev pub content : RecvSlot → Option RecvSlot
content s = if s.received then some s else none

-- The packets that the window keeps, from the expected one on.
abbrev pub buffer : RecvWindow → List (Option RecvSlot)
buffer w = map content (view w)

-- Those of the packets that wait for their turn to be delivered.
abbrev pub delivered : List RecvSlot → List RecvSlot
delivered [] = []
delivered (s ∷ ss) =
    (if s.delivery_mode == DeliveryMode.reliable_ordered then s ∷ [] else []) ++ delivered ss

-- How many packets a loop passes: it ends at a packet that is missing and where `stop` tells it to.
abbrev pub run : (ℕ → RecvSlot → Bool) → ℕ → List RecvSlot → ℕ
run stop places [] = 0
run stop places (s ∷ ss) =
    let rest =
      run stop (places - (if s.delivery_mode == DeliveryMode.reliable_ordered then 1 else 0)) ss in
    if not s.received || stop places s then 0 else suc rest

-- `rel4u_recv_window_pop_ready` stops when the output is full.
abbrev pub pop_stop : ℕ → RecvSlot → Bool
pop_stop places s = places == 0

-- The loop after a reliable unordered packet passes the packets of that mode with a full output.
abbrev pub drain_stop : ℕ → RecvSlot → Bool
drain_stop places s =
    not (s.delivery_mode == DeliveryMode.reliable_unordered)
    && (not (s.delivery_mode == DeliveryMode.reliable_ordered) || places == 0)

-- What one round does, by the rule for stopping.
abbrev pub StepsBy :
    (ℕ → RecvSlot → Bool) → (ℕ → RecvWindow → Option (RecvWindow × List RecvSlot)) → Type 0
StepsBy stop step =
    (places : ℕ) (w : RecvWindow)
    → step places w ≡ (
        if holds (slot_of w w.expected_seq) w.expected_seq
          && not (stop places (slot_of w w.expected_seq))
        then some (pass_expected w, delivered (slot_of w w.expected_seq ∷ []))
        else none)

pub pop_step-StepsBy : StepsBy pop_stop pop_step
unfolding pop_step
pop_step-StepsBy places w = ground arith

pub drain_step-StepsBy : StepsBy drain_stop drain_step
unfolding drain_step
drain_step-StepsBy places w = ground arith

-- A free slot behind the others changes neither.
run-snoc :
    (stop : ℕ → RecvSlot → Bool) (places : ℕ) (ss : List RecvSlot) (x : RecvSlot)
    → x.received ≡ false
    → run stop places (ss ++ x ∷ []) ≡ run stop places ss
run-snoc stop places [] x e = ground arith
run-snoc stop places (s ∷ ss) x e =
    let p = places - (if s.delivery_mode == DeliveryMode.reliable_ordered then 1 else 0) in
    ap (λ (n : ℕ). if not s.received || stop places s then 0 else suc n) (run-snoc stop p ss x e)

pub run-le-length :
    (stop : ℕ → RecvSlot → Bool) (places : ℕ) (ss : List RecvSlot) → run stop places ss ≤ length ss
run-le-length stop places [] = omega arith
run-le-length stop places (s ∷ ss) = ground (
  arith,
  run-le-length stop (places - (if s.delivery_mode == DeliveryMode.reliable_ordered then 1 else 0))
      ss,
)

drop-turn :
    (n : ℕ) (os : List (Option RecvSlot))
    → n ≤ length os
    → drop n (os ++ none ∷ []) ++ replicate n none ≡ drop n os ++ replicate (suc n) none
drop-turn n os l =
    ap (λ t. t ++ replicate n none) (drop-append n os (none ∷ []) l)
    ∙ append_assoc (drop n os) (none ∷ []) (replicate n none)

length-map : (f : RecvSlot → Option RecvSlot) (ss : List RecvSlot) → length (map f ss) ≡ length ss
length-map f [] = refl
length-map f (s ∷ ss) = ap suc (length-map f ss)

delivered_cons :
    (s : RecvSlot) (ss : List RecvSlot) → delivered (s ∷ ss) ≡ delivered (s ∷ []) ++ delivered ss
delivered_cons s ss = ap (λ t. t ++ delivered ss) (sym (append-nil _))

moved : (q m m' n : ℕ) → m' ≡ m → n ≡ suc m → (add32 q 1 + m') % 2 ^ 32 ≡ (q + n) % 2 ^ 32
moved q m m' n e f = omega arith

-- What a loop over `w` makes of it.
abbrev pub Drained : (ℕ → RecvSlot → Bool) → ℕ → RecvWindow → RecvWindow × List RecvSlot → Type 0
Drained stop places w r =
    let n = run stop places (view w) in
    (r.1 ≡ delivered (take n (view w)))
    × (r.0.expected_seq ≡ (w.expected_seq + n) % 2 ^ 32)
    × (buffer r.0 ≡ drop n (buffer w) ++ replicate n none)

module _ (stop : ℕ → RecvSlot → Bool) (places : ℕ) (w : RecvWindow) (v : IsRecvWindow w) where
  abbrev slot : RecvSlot
  slot = slot_of w w.expected_seq

  -- A kept packet in front is the expected one.
  holds_kept : holds slot w.expected_seq ≡ slot.received
  holds_kept =
      let p = subst (InPlace w.expected_seq) (view_cons w v) v.in_place in ground (arith, p.0)

  Drained-stop :
      (holds slot w.expected_seq && not (stop places slot)) ≡ false → Drained stop places w (w, [])
  Drained-stop e =
      let n : run stop places (view w) ≡ 0 =
        ap (run stop places) (view_cons w v) ∙ ground (arith, holds_kept) in
      rw n (refl, omega (arith, v.expected_fits), sym (append-nil (buffer w)))

  Drained-step :
      (r : RecvWindow × List RecvSlot)
      → (holds slot w.expected_seq && not (stop places slot)) ≡ true
      → Drained stop (places - length (delivered (slot ∷ []))) (pass_expected w) r
      → Drained stop places w (r.0, delivered (slot ∷ []) ++ r.1)
  unfolding pass_expected
  Drained-step r e d =
      let p = places - length (delivered (slot ∷ [])) in
      let m = run stop p (behind w v) in
      let one : length (delivered (slot ∷ []))
          ≡ (if slot.delivery_mode == DeliveryMode.reliable_ordered then 1 else 0) =
        ground arith in
      let n : run stop places (view w) ≡ suc m =
        ap (run stop places) (view_cons w v)
        ∙ ap
            (λ (k : ℕ).
              if not slot.received || stop places slot
              then 0
              else suc (run stop (places - k) (behind w v)))
            (sym one)
        ∙ if_false 0 (suc m) (ground (arith, holds_kept)) in
      let m' : run stop p (view (pass_expected w)) ≡ m =
        ap (run stop p) (view-pass_expected w v) ∙ run-snoc stop p (behind w v) (cleared w) refl in
      let l : m ≤ length (behind w v) = run-le-length stop p (behind w v) in
      let now : delivered (take (suc m) (view w))
          ≡ delivered (slot ∷ []) ++ delivered (take m (behind w v)) =
        ap (λ (ss : List RecvSlot). delivered (take (suc m) ss)) (view_cons w v)
        ∙ delivered_cons slot (take m (behind w v)) in
      (
        ap (λ (t : List RecvSlot). delivered (slot ∷ []) ++ t)
              (d.0
                ∙ ap₂ (λ (k : ℕ) (ss : List RecvSlot). delivered (take k ss)) m'
                    (view-pass_expected w v)
                ∙ ap delivered (take-append m (behind w v) (cleared w ∷ []) l))
            ∙ sym now
            ∙ ap (λ (k : ℕ). delivered (take k (view w))) (sym n),
        d.1
            ∙ moved w.expected_seq m (run stop p (view (pass_expected w)))
                (run stop places (view w)) m' n,
        d.2
            ∙ ap (λ (k : ℕ). drop k (buffer (pass_expected w)) ++ replicate k none) m'
            ∙ ap (λ (ss : List RecvSlot). drop m (map content ss) ++ replicate m none)
                (view-pass_expected w v)
            ∙ ap (λ (ss : List (Option RecvSlot)). drop m ss ++ replicate m none)
                (map-append content (behind w v) (cleared w ∷ []))
            ∙ drop-turn m (map content (behind w v))
                (omega (arith, l, length-map content (behind w v)))
            ∙ ap (λ (ss : List RecvSlot). drop (suc m) (map content ss) ++ replicate (suc m) none)
                (sym (view_cons w v))
            ∙ ap (λ (k : ℕ). drop k (buffer w) ++ replicate k none) (sym n),
      )

module _ (stop : ℕ → RecvSlot → Bool) (step : ℕ → RecvWindow → Option (RecvWindow × List RecvSlot))
    (by : StepsBy stop step) where
  -- With a round for each packet that is kept and one more, a loop puts out those that are to be
  -- delivered of the packets that it passes, in their order, and the window moves on by these.
  pub rounds-Drained :
      (fuel places : ℕ) (w : RecvWindow)
      → IsRecvWindow w
      → kept_count w.slots < fuel
      → Drained stop places w (rounds step fuel places w)
  rounds-Drained zero places w v l = absurd (omega arith)
  rounds-Drained (suc fuel) places w v l =
      elim (Bool-cases (
        holds (slot_of w w.expected_seq) w.expected_seq
        && not (stop places (slot_of w w.expected_seq)))) [
          | inl e ↦
              let out = delivered (slot_of w w.expected_seq ∷ []) in
              let now = by places w ∙ if_true _ _ e in
              let rest =
                rounds-Drained fuel (places - length out) (pass_expected w)
                  (pass_expected-IsRecvWindow w v)
                  (omega (arith, kept_count-pass_expected w (ground arith))) in
              subst (Drained stop places w)
                (sym (rounds-some step fuel places w (pass_expected w) out now))
                (Drained-step stop places w v
                  (rounds step fuel (places - length out) (pass_expected w)) e rest)
          | inr e ↦
              subst (Drained stop places w)
                (sym (rounds-none step fuel places w (by places w ∙ if_false _ _ e)))
                (Drained-stop stop places w v e)
        ]
