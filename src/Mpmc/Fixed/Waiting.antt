-- ===== src/Mpmc/Fixed/Waiting.antt =====
-- `rel4u_mpmc_pop_wait` on a queue in fixed mode, against what the consumer sees of its contents.
use native.Mathlib.Decide.{ℕ_discrete}
use rel4u.Prelude.{
  ℕ, ◌≡◌, ◌≢◌, ◌⊎◌, ◌∙◌, refl, sym, ap, subst, true, false, List, [], ◌∷◌, Option, none, some, inl,
  inr, if_true, if_false, if_intro, arith, length, ◌==◌,
}
use rel4u.Prelude.Int.{ℤ, pos, negsuc, is_zero, is_negative}
use rel4u.Mpmc.Defs.{Item, Queue, pop_head_locked}
use rel4u.Mpmc.Wait.{Wake, Waited, popped, gave_up, blocked, gives_up, finish, wait_loop, pop_wait}
use rel4u.Mpmc.Fixed.{IsRing, contents, length-contents, spec_pop}
use rel4u.Mpmc.Fixed.Refine.{pop_refines, pop_head_locked-IsRing}

-- The queue at the call and at each wake-up.
abbrev pub AllRings : Queue → List Wake → Type 0
AllRings q [] = IsRing q
AllRings q (w ∷ ws) = IsRing q × AllRings w.queue ws

-- A wake-up that ends the wait of an empty queue: one of `wake_all`, which counts the generation on, or
-- the time limit, where there is one.
abbrev pub Ends : ℤ → ℕ → Wake → Type 0
Ends timeout gen w =
    (w.queue.wake_generation ≢ gen) ⊎ ((is_negative timeout ≡ false) × (w.signaled ≡ false))

-- Any other: a signal, and without a time limit also a wake-up without one.
abbrev pub Spurious : ℤ → ℕ → Wake → Type 0
Spurious timeout gen w =
    (w.queue.wake_generation ≡ gen) × ((is_negative timeout ≡ true) ⊎ (w.signaled ≡ true))

-- What a wait comes to, from a queue that is seen and the wake-ups behind it; a negative time limit is
-- none, and with a limit of 0 the call does not wait.
pub data Outcome (timeout : ℤ) (gen : ℕ) : Queue → List Wake → Waited → Type 0 where
  takes :
      {q r : Queue} {ws : List Wake} {x : Item}
      → contents q ≡ x ∷ contents r
      → IsRing r
      → Outcome timeout gen q ws (popped r x)
  polls :
      {q : Queue} {ws : List Wake}
      → contents q ≡ []
      → timeout ≡ pos 0
      → Outcome timeout gen q ws (gave_up q)
  blocks : {q : Queue} → contents q ≡ [] → timeout ≢ pos 0 → Outcome timeout gen q [] blocked
  ends :
      {q : Queue} {w : Wake} {ws : List Wake}
      → contents q ≡ []
      → timeout ≢ pos 0
      → contents w.queue ≡ []
      → Ends timeout gen w
      → Outcome timeout gen q (w ∷ ws) (gave_up w.queue)
  goes_on :
      {q : Queue} {w : Wake} {ws : List Wake} {o : Waited}
      → contents q ≡ []
      → timeout ≢ pos 0
      → (contents w.queue ≢ []) ⊎ Spurious timeout gen w
      → Outcome timeout gen w.queue ws o
      → Outcome timeout gen q (w ∷ ws) o

empty_lem : (q : Queue) → q.count ≡ 0 → contents q ≡ []
empty_lem q z = none_of (contents q) (length-contents q ∙ z)
  where
    none_of : (xs : List Item) → length xs ≡ 0 → xs ≡ []
    none_of [] e = refl
    none_of (x ∷ xs) e = absurd (omega (arith, e))

filled_lem : (q : Queue) → q.count ≢ 0 → contents q ≢ []
filled_lem q f e = f (sym (length-contents q) ∙ ap length e)

-- From a ring that is not empty the call takes the oldest item.
taken :
    (timeout : ℤ) (gen : ℕ) (q : Queue) (ws : List Wake)
    → IsRing q
    → q.count ≢ 0
    → Outcome timeout gen q ws (finish (pop_head_locked q))
unfolding spec_pop
taken timeout gen q ws v f = by_contents (contents q) refl
  where
    r : Queue × Option Item
    r = pop_head_locked q

    by_contents : (xs : List Item) → contents q ≡ xs → Outcome timeout gen q ws (finish r)
    by_contents [] e = absurd (filled_lem q f e)
    by_contents (x ∷ xs) e =
        let p : (contents r.0, r.1) ≡ (xs, some x) = pop_refines q v ∙ ap spec_pop e in
        let left : contents r.0 ≡ xs = ap (λ (t : List Item × Option Item). t.0) p in
        let out : finish r ≡ popped r.0 x =
          ap (λ (o : Option Item). elim o [ none ↦ gave_up r.0 | some y ↦ popped r.0 y ])
            (ap (λ (t : List Item × Option Item). t.1) p) in
        subst (Outcome timeout gen q ws) (sym out)
          (takes (e ∙ ap (λ ys. x ∷ ys) (sym left)) (pop_head_locked-IsRing q v))

is_zero-eq : (t : ℤ) → is_zero t ≡ true → t ≡ pos 0
is_zero-eq (pos n) e = ap pos (ground (arith, e))
is_zero-eq (negsuc n) e = cc

is_zero-neq : (t : ℤ) → is_zero t ≡ false → t ≢ pos 0
is_zero-neq t e z = let f : true ≡ false = ap is_zero (sym z) ∙ e in cc

gives_up-Ends :
    (t : ℤ) (gen : ℕ) (w : Wake) → gives_up t gen w ≡ true → (w.queue.count ≡ 0) × Ends t gen w
gives_up-Ends (pos n) gen w e = elim (ℕ_discrete w.queue.wake_generation gen) [
  | yes g ↦ (ground (arith, e), inr (refl, ground (arith, e, g)))
  | no f ↦ (ground (arith, e), inl f)
]
gives_up-Ends (negsuc n) gen w e = (ground (arith, e), inl (ground (arith, e)))

gives_up-Spurious :
    (t : ℤ) (gen : ℕ) (w : Wake)
    → gives_up t gen w ≡ false
    → (contents w.queue ≢ []) ⊎ Spurious t gen w
gives_up-Spurious (pos n) gen w e = elim (ℕ_discrete w.queue.count 0) [
  | no f ↦ inl (filled_lem w.queue f)
  | yes z ↦ inr (ground (arith, e, z), inr (ground (arith, e, z)))
]
gives_up-Spurious (negsuc n) gen w e = elim (ℕ_discrete w.queue.count 0) [
  | no f ↦ inl (filled_lem w.queue f)
  | yes z ↦ inr (ground (arith, e, z), inl refl)
]

loop-Outcome :
    (timeout : ℤ) (gen : ℕ) (q : Queue) (ws : List Wake)
    → AllRings q ws
    → Outcome timeout gen q ws (wait_loop timeout gen q ws)
unfolding wait_loop
loop-Outcome timeout gen q [] v = elim (ℕ_discrete q.count 0) [
  | no f ↦
      subst (Outcome timeout gen q []) (sym (if_false {b = q.count == 0} _ _ (ground (arith, f))))
        (taken timeout gen q [] v f)
  | yes z ↦
      subst (Outcome timeout gen q []) (sym (if_true {b = q.count == 0} _ _ (ground (arith, z)))) (
        if_intro (Outcome timeout gen q []) (is_zero timeout)
          (λ e. polls (empty_lem q z) (is_zero-eq timeout e))
          (λ e. blocks (empty_lem q z) (is_zero-neq timeout e)))
]
loop-Outcome timeout gen q (w ∷ ws) v =
    let Done = Outcome timeout gen q (w ∷ ws) in
    elim (ℕ_discrete q.count 0) [
      | no f ↦
          subst Done (sym (if_false {b = q.count == 0} _ _ (ground (arith, f))))
            (taken timeout gen q (w ∷ ws) v.0 f)
      | yes z ↦ subst Done (sym (if_true {b = q.count == 0} _ _ (ground (arith, z)))) (
          if_intro Done (is_zero timeout) (λ e. polls (empty_lem q z) (is_zero-eq timeout e))
            (λ e.
              if_intro Done (gives_up timeout gen w)
                (λ g.
                  let h = gives_up-Ends timeout gen w g in
                  ends (empty_lem q z) (is_zero-neq timeout e) (empty_lem w.queue h.0) h.1)
                (λ g.
                  goes_on (empty_lem q z) (is_zero-neq timeout e)
                    (gives_up-Spurious timeout gen w g) (loop-Outcome timeout gen w.queue ws v.1))))
    ]

-- On a queue in fixed mode that is valid whenever the consumer sees it, the call does this: it looks at
-- the queue at once and at each wake-up. The first time that the queue is not empty, it takes the oldest
-- item and leaves the others in their order. While the queue is empty, it gives up at once with a time
-- limit of 0; else it gives up at a wake-up of `wake_all` and, with a time limit, at its end; any other
-- wake-up it waits out, so it blocks when there is none left.
pub pop_wait-Outcome :
    (timeout : ℤ) (q : Queue) (ws : List Wake)
    → AllRings q ws
    → Outcome timeout q.wake_generation q ws (pop_wait q timeout ws)
unfolding pop_wait
pop_wait-Outcome timeout q ws v = loop-Outcome timeout q.wake_generation q ws v
