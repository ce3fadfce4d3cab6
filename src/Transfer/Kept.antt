-- ===== src/Transfer/Kept.antt =====
-- The packets that a window keeps against the messages of the stream.
use mathlib.Core.Path.{◌≡◌, refl, sym, ap, ap₂, subst, ◌∙◌}
use rel4u.Prelude.{
  ℕ, zero, suc, ◌+◌, ◌-◌, ◌%◌, ◌≤◌, ◌<◌, true, not, ◌||◌, List, [], ◌∷◌, ◌++◌, map, Option, none,
  some, inl, inr, Bool-cases, if_true, if_false, arith, ◌==◌, if◌then◌else◌, length, get_or,
  get_or-replicate, set, take, drop, replicate,
}
use rel4u.Packet.DeliveryMode
use rel4u.Window.Recv.{RecvSlot, zero_slot}
use rel4u.Window.Recv.Deliver.{content, delivered, run, pop_stop}
use rel4u.Transfer.{message}
use rel4u.Prelude.Ring.{segment}

-- What the window keeps belongs to the stream, from its next message on.
abbrev pub Matches : List (List ℕ) → List (Option RecvSlot) → Type 0
Matches ms [] = Unit {0}
Matches [] (none ∷ os) = Matches [] os
Matches [] (some x ∷ os) = ⊥
Matches (m ∷ ms) (none ∷ os) = Matches ms os
Matches (m ∷ ms) (some x ∷ os) =
    (message x ≡ m) × (x.delivery_mode ≡ DeliveryMode.reliable_ordered) × Matches ms os

pub Matches-set :
    (ms : List (List ℕ)) (os : List (Option RecvSlot)) (j : ℕ) (x : RecvSlot)
    → Matches ms os
    → j < length ms
    → message x ≡ get_or ms j []
    → x.delivery_mode ≡ DeliveryMode.reliable_ordered
    → Matches ms (set os j (some x))
Matches-set ms [] j x h l e d = tt
Matches-set [] (o ∷ os) j x h l e d = absurd (omega arith)
Matches-set (m ∷ ms) (none ∷ os) zero x h l e d = (e, d, h)
Matches-set (m ∷ ms) (some y ∷ os) zero x h l e d = (e, d, h.2)
Matches-set (m ∷ ms) (none ∷ os) (suc j) x h l e d = Matches-set ms os j x h (omega arith) e d
Matches-set (m ∷ ms) (some y ∷ os) (suc j) x h l e d =
    (h.0, h.1, Matches-set ms os j x h.2 (omega arith) e d)

Matches-free : (ms : List (List ℕ)) (n : ℕ) → Matches ms (replicate n none)
Matches-free ms zero = tt
Matches-free [] (suc n) = Matches-free [] n
Matches-free (m ∷ ms) (suc n) = Matches-free ms n

pub Matches-append :
    (ms : List (List ℕ)) (os : List (Option RecvSlot)) (n : ℕ)
    → Matches ms os
    → Matches ms (os ++ replicate n none)
Matches-append ms [] n h = Matches-free ms n
Matches-append [] (none ∷ os) n h = Matches-append [] os n h
Matches-append [] (some x ∷ os) n h = absurd h
Matches-append (m ∷ ms) (none ∷ os) n h = Matches-append ms os n h
Matches-append (m ∷ ms) (some x ∷ os) n h = (h.0, h.1, Matches-append ms os n h.2)

-- What passing `k` packets hands out and leaves.
abbrev pub Passed : List RecvSlot → List (List ℕ) → ℕ → Type 0
Passed ss ms k =
    (map message (delivered (take k ss)) ≡ take k ms)
    × (k ≤ length ms)
    × Matches (drop k ms) (drop k (map content ss))

Passed-cons :
    (s : RecvSlot) (ss : List RecvSlot) (ms : List (List ℕ)) (k : ℕ)
    → Matches ms (some s ∷ map content ss)
    → ((ns : List (List ℕ)) → Matches ns (map content ss) → Passed ss ns k)
    → Passed (s ∷ ss) ms (suc k)
Passed-cons s ss [] k h f = absurd h
Passed-cons s ss (m ∷ ms) k h f =
    let r = f ms h.2 in
    (
      ap (λ (t : List RecvSlot). map message (t ++ delivered (take k ss)))
            (if_true (s ∷ []) [] (ground (arith, h.1)))
          ∙ ap₂ (λ (a : List ℕ) (t : List (List ℕ)). a ∷ t) h.0 r.0,
      omega (arith, r.1),
      r.2,
    )

-- The packets that `pop_ready` passes are the next messages of the stream.
pub run-Passed :
    (places : ℕ) (ss : List RecvSlot) (ms : List (List ℕ))
    → Matches ms (map content ss)
    → Passed ss ms (run pop_stop places ss)
run-Passed places [] ms h = (refl, omega arith, h)
run-Passed places (s ∷ ss) ms h =
    let p = places - (if s.delivery_mode == DeliveryMode.reliable_ordered then 1 else 0) in
    let k = run pop_stop p ss in
    elim (Bool-cases (not s.received || places == 0)) [
      | inl e ↦ subst (Passed (s ∷ ss) ms) (sym (if_true 0 (suc k) e)) (refl, omega arith, h)
      | inr e ↦
          let r : s.received ≡ true = ground arith in
          subst (Passed (s ∷ ss) ms) (sym (if_false 0 (suc k) e)) (
            Passed-cons s ss ms k
              (subst (λ o. Matches ms (o ∷ map content ss)) (if_true (some s) none r) h)
              (run-Passed p ss))
    ]

Matches_cons :
    (ms : List (List ℕ)) (o : Option RecvSlot) (os : List (Option RecvSlot))
    → o ≡ none
    → ((ns : List (List ℕ)) → Matches ns os)
    → Matches ms (o ∷ os)
Matches_cons [] o os e f = subst (λ t. Matches [] (t ∷ os)) (sym e) (f [])
Matches_cons (m ∷ ms) o os e f = subst (λ t. Matches (m ∷ ms) (t ∷ os)) (sym e) (f ms)

pub Matches-replicate :
    (c h n : ℕ) (ms : List (List ℕ))
    → Matches ms (map content (segment zero_slot (replicate c zero_slot) c h n))
Matches-replicate c h zero ms = tt
Matches-replicate c h (suc n) ms =
    Matches_cons ms _ _ (ap content (get_or-replicate c h zero_slot))
      (Matches-replicate c ((h + 1) % c) n)

-- The stream may go on.
Matches-none : (ms : List (List ℕ)) (os : List (Option RecvSlot)) → Matches [] os → Matches ms os
Matches-none ms [] h = tt
Matches-none [] (o ∷ os) h = h
Matches-none (m ∷ ms) (none ∷ os) h = Matches-none ms os h
Matches-none (m ∷ ms) (some x ∷ os) h = absurd h

pub Matches-more :
    (ms ns : List (List ℕ)) (os : List (Option RecvSlot)) → Matches ms os → Matches (ms ++ ns) os
Matches-more ms ns [] h = tt
Matches-more [] ns (o ∷ os) h = Matches-none ns (o ∷ os) h
Matches-more (m ∷ ms) ns (none ∷ os) h = Matches-more ms ns os h
Matches-more (m ∷ ms) ns (some x ∷ os) h = (h.0, h.1, Matches-more ms ns os h.2)
