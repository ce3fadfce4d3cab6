-- ===== src/Mpmc/Fixed/Alone.antt =====
-- A single item in a ring: pushed into an empty one, and popped again.
use rel4u.Prelude.{
  ℕ, ◌≤◌, ◌<◌, ◌≡◌, ◌∙◌, sym, ap, Bool, true, List, [], ◌∷◌, Option, some, arith, length,
}
use rel4u.Mpmc.Defs.{Item, Queue, FullPolicy, max_msg_size, push_back_locked, pop_head_locked}
use rel4u.Mpmc.Fixed.{IsRing, contents, length-contents, spec_push_back, spec_pop, evict}
use rel4u.Mpmc.Fixed.Refine.{
  push_back_refines, pop_refines, push_back_locked-IsRing, pop_head_locked-IsRing,
}

spec_one :
    (c : ℕ) (p : FullPolicy) (x : Item)
    → 0 < c
    → x.len ≤ max_msg_size
    → spec_push_back c p [] x ≡ (x ∷ [], true)
unfolding spec_push_back evict
spec_one c p x h l = ground (arith, h, l)

pub pushed_alone :
    (node_size : ℕ) (mem : Bool) (q : Queue) (x : Item)
    → IsRing q
    → contents q ≡ []
    → x.len ≤ max_msg_size
    → let r = push_back_locked node_size mem q x in
      IsRing r.0 × (contents r.0 ≡ x ∷ []) × (r.1 ≡ true)
pushed_alone node_size mem q x v e l =
    let r = push_back_locked node_size mem q x in
    let pushed : (contents r.0, r.1) ≡ (x ∷ [], true) =
      push_back_refines node_size mem q x v
      ∙ ap (λ xs. spec_push_back q.capacity q.full_policy xs x) e
      ∙ spec_one q.capacity q.full_policy x (omega (arith, v.room)) l in
    (
      push_back_locked-IsRing node_size mem q x v,
      ap (λ (t : List Item × Bool). t.0) pushed,
      ap (λ (t : List Item × Bool). t.1) pushed,
    )

pub popped_alone :
    (q : Queue) (x : Item)
    → IsRing q
    → contents q ≡ x ∷ []
    → let r = pop_head_locked q in IsRing r.0 × (contents r.0 ≡ []) × (r.1 ≡ some x) × (q.count ≡ 1)
unfolding spec_pop
popped_alone q x v e =
    let r = pop_head_locked q in
    let p : (contents r.0, r.1) ≡ ([], some x) = pop_refines q v ∙ ap spec_pop e in
    (
      pop_head_locked-IsRing q v,
      ap (λ (t : List Item × Option Item). t.0) p,
      ap (λ (t : List Item × Option Item). t.1) p,
      sym (length-contents q) ∙ ap length e,
    )
