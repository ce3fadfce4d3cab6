-- ===== src/Mpmc/Fixed/Refine.antt =====
-- The operations on a queue in fixed mode, against those of a bounded double-ended queue.
use rel4u.Prelude.{
  ℕ, ◌+◌, ◌-◌, ◌<◌, ◌≡◌, refl, ap, ap₂, ◌∙◌, Bool, true, List, [], ◌∷◌, ◌++◌, arith, inl, inr,
  Bool-cases, ltb,
}
use rel4u.Prelude.Ring.{segment_cons, mod_next}
use native.Mathlib.Nat.{mod-lt}
use rel4u.Mpmc.Defs.{
  FullPolicy, Item, Queue, no_item, max_msg_size, make_slot, push_back_fixed, push_front_fixed,
  push_back_locked, push_front_locked, pop_head_locked,
}
use rel4u.Mpmc.Calls.{Call, pushes, pushes_front, pops, Reply, pushed, popped, call, run}
use rel4u.Mpmc.Fixed.{
  IsRing, contents, evict, with_room, spec_push_back, spec_push_front, spec_pop, make_slot-IsRing,
  make_slot_refines, make_slot_room, head_moves, tail_moves, same-make_slot, put_back-IsRing,
  put_front-IsRing, contents-put_back, contents-put_front,
}

-- The room after `make_slot`, in the ring that it returns.
slot_free :
    (q : Queue)
    → IsRing q
    → (make_slot q).1 ≡ true
    → (make_slot q).0.count < (make_slot q).0.capacity
slot_free q v e = omega (arith, make_slot_room v e, (same-make_slot q).0)

module _ (node_size : ℕ) (mem : Bool) where
  push_back_fixed-IsRing :
      (q : Queue) (x : Item) → IsRing q → IsRing (push_back_fixed node_size mem q x).0
  unfolding push_back_fixed
  push_back_fixed-IsRing q x v = elim (Bool-cases (make_slot q).1) [
    | inl e ↦ rw e (put_back-IsRing x (make_slot-IsRing v) (slot_free q v e))
    | inr e ↦ rw e (make_slot-IsRing v)
  ]

  push_front_fixed-IsRing :
      (q : Queue) (x : Item) → IsRing q → IsRing (push_front_fixed node_size mem q x).0
  unfolding push_front_fixed
  push_front_fixed-IsRing q x v = elim (Bool-cases (make_slot q).1) [
    | inl e ↦ rw e (put_front-IsRing x (make_slot-IsRing v) (slot_free q v e))
    | inr e ↦ rw e (make_slot-IsRing v)
  ]

  -- A push at the end keeps the indices of the ring in order.
  pub push_back_locked-IsRing :
      (q : Queue) (x : Item) → IsRing q → IsRing (push_back_locked node_size mem q x).0
  unfolding push_back_locked
  push_back_locked-IsRing q x v = rw v.mode_fixed (ground (arith, push_back_fixed-IsRing q x v))

  pub push_front_locked-IsRing :
      (q : Queue) (x : Item) → IsRing q → IsRing (push_front_locked node_size mem q x).0
  unfolding push_front_locked
  push_front_locked-IsRing q x v = rw v.mode_fixed (ground (arith, push_front_fixed-IsRing q x v))

  push_back_fixed_refines :
      (q : Queue) (x : Item)
      → IsRing q
      → let r = push_back_fixed node_size mem q x in
        (contents r.0, r.1)
        ≡ with_room (evict q.capacity q.full_policy (contents q)) (λ ys. ys ++ x ∷ [])
  unfolding push_back_fixed
  push_back_fixed_refines q x v = elim (Bool-cases (make_slot q).1) [
    | inl e ↦
        rw (← make_slot_refines v, e)
          (ap (λ t. (t, true)) (contents-put_back x (make_slot-IsRing v) (slot_free q v e)))
    | inr e ↦ rw (← make_slot_refines v, e)
  ]

  push_front_fixed_refines :
      (q : Queue) (x : Item)
      → IsRing q
      → let r = push_front_fixed node_size mem q x in
        (contents r.0, r.1) ≡ with_room (evict q.capacity q.full_policy (contents q)) (λ ys. x ∷ ys)
  unfolding push_front_fixed
  push_front_fixed_refines q x v = elim (Bool-cases (make_slot q).1) [
    | inl e ↦
        rw (← make_slot_refines v, e)
          (ap (λ t. (t, true)) (contents-put_front x (make_slot-IsRing v) (slot_free q v e)))
    | inr e ↦ rw (← make_slot_refines v, e)
  ]

  -- On a valid ring a push at the end is that of the bounded queue of the ring's contents: it refuses
  -- an item longer than 9216 bytes; below the capacity it appends the item; at the capacity it drops
  -- the oldest item for it under DROP_LAST, and refuses it under DROP_NEW.
  pub push_back_refines :
      (q : Queue) (x : Item)
      → IsRing q
      → let r = push_back_locked node_size mem q x in
        (contents r.0, r.1) ≡ spec_push_back q.capacity q.full_policy (contents q) x
  unfolding push_back_locked spec_push_back
  push_back_refines q x v = elim (Bool-cases (ltb max_msg_size x.len)) [
    | inl e ↦ rw e
    | inr e ↦ rw (e, v.mode_fixed) (push_back_fixed_refines q x v)
  ]

  -- On a valid ring a push at the front does the same, with the item put before the others.
  pub push_front_refines :
      (q : Queue) (x : Item)
      → IsRing q
      → let r = push_front_locked node_size mem q x in
        (contents r.0, r.1) ≡ spec_push_front q.capacity q.full_policy (contents q) x
  unfolding push_front_locked spec_push_front
  push_front_refines q x v = elim (Bool-cases (ltb max_msg_size x.len)) [
    | inl e ↦ rw e
    | inr e ↦ rw (e, v.mode_fixed) (push_front_fixed_refines q x v)
  ]

pub pop_head_locked-IsRing : (q : Queue) → IsRing q → IsRing (pop_head_locked q).0
unfolding pop_head_locked
pop_head_locked-IsRing q v = ground (
  arith,
  mod_next q.capacity q.head (q.count - 1),
  mod-lt (q.head + 1) {m = q.capacity} (omega arith),
  head_moves q v,
  tail_moves q v,
)

-- On a valid ring a pop takes the oldest item, and nothing from an empty one.
pub pop_refines :
    (q : Queue)
    → IsRing q
    → let r = pop_head_locked q in (contents r.0, r.1) ≡ spec_pop (contents q)
unfolding pop_head_locked spec_pop
pop_refines q v =
    ground (arith, head_moves q v, segment_cons no_item q.items q.capacity q.head q.count)

module _ (node_size : ℕ) (mem : Bool) where
  call-IsRing : (q : Queue) (c : Call) → IsRing q → IsRing (call node_size mem q c).0
  unfolding call
  call-IsRing q (pushes x) v = push_back_locked-IsRing node_size mem q x v
  call-IsRing q (pushes_front x) v = push_front_locked-IsRing node_size mem q x v
  call-IsRing q pops v = pop_head_locked-IsRing q v

  call_keeps :
      (q : Queue) (c : Call)
      → IsRing q
      → ((call node_size mem q c).0.capacity ≡ q.capacity)
        × ((call node_size mem q c).0.full_policy ≡ q.full_policy)
  unfolding call push_back_locked push_front_locked pop_head_locked push_back_fixed push_front_fixed
  call_keeps q (pushes x) v = rw v.mode_fixed (ground (arith, same-make_slot q))
  call_keeps q (pushes_front x) v = rw v.mode_fixed (ground (arith, same-make_slot q))
  call_keeps q pops v = rw v.mode_fixed (ground arith)

-- The bounded double-ended queue's answers.
unfoldable pub spec_call : ℕ → FullPolicy → List Item → Call → List Item × Reply
spec_call c p xs (pushes x) = let (ys, b) = spec_push_back c p xs x in (ys, pushed b)
spec_call c p xs (pushes_front x) = let (ys, b) = spec_push_front c p xs x in (ys, pushed b)
spec_call c p xs pops = let (ys, o) = spec_pop xs in (ys, popped o)

unfoldable pub spec_run : ℕ → FullPolicy → List Item → List Call → List Reply
spec_run c p xs [] = []
spec_run c p xs (k ∷ ks) = let (ys, y) = spec_call c p xs k in y ∷ spec_run c p ys ks

module _ (node_size : ℕ) (mem : Bool) where
  call_refines :
      (q : Queue) (c : Call)
      → IsRing q
      → let r = call node_size mem q c in
        (contents r.0, r.1) ≡ spec_call q.capacity q.full_policy (contents q) c
  unfolding call spec_call
  call_refines q (pushes x) v = ap (λ t. (t.0, pushed t.1)) (push_back_refines node_size mem q x v)
  call_refines q (pushes_front x) v =
      ap (λ t. (t.0, pushed t.1)) (push_front_refines node_size mem q x v)
  call_refines q pops v = ap (λ t. (t.0, popped t.1)) (pop_refines q v)

  -- No sequence of calls, by however many threads, tells a valid ring from the bounded double-ended
  -- queue of its contents: all answers are the same.
  pub run_refines :
      (cs : List Call) (q : Queue)
      → IsRing q
      → run node_size mem q cs ≡ spec_run q.capacity q.full_policy (contents q) cs
  unfolding run spec_run
  run_refines [] q v = refl
  run_refines (c ∷ cs) q v =
      let k = call_keeps node_size mem q c v in
      let r = (call node_size mem q c).0 in
      ap (λ (t : List Reply). (call node_size mem q c).1 ∷ t)
        (run_refines cs r (call-IsRing node_size mem q c v)
          ∙ ap₂ (λ (n : ℕ) (p : FullPolicy). spec_run n p (contents r) cs) k.0 k.1)
      ∙ ap (λ (t : List Item × Reply). t.1 ∷ spec_run q.capacity q.full_policy t.0 cs)
          (call_refines q c v)
