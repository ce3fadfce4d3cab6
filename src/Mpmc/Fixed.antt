-- ===== src/Mpmc/Fixed.antt =====
-- The queue in fixed mode, and the bounded double-ended queue that it stands for.
pub mod Refine
pub mod Alone
pub mod Waiting
use mathlib.Core.List.{tail}
use native.Mathlib.Nat.{mod-lt, mod-eq_of_lt, mod-add-mod, mod_self}
use rel4u.Prelude.{
  ℕ, zero, suc, ◌+◌, ◌-◌, ◌%◌, ◌^◌, ◌≤◌, ◌<◌, ◌≡◌, ◌≢◌, refl, ap, ap₂, sym, ◌∙◌, Bool, true, false,
  List, [], ◌∷◌, ◌++◌, Option, none, some, arith, inl, inr, Bool-cases, ltb, ◌==◌, if◌then◌else◌,
  length, get_or, set, length-set, length-append,
}
use rel4u.Prelude.Ring.{segment, length-segment, segment-set_end, segment-set_front, mod_next}
use rel4u.Mpmc.Defs.{
  MemoryMode, fixed, dynamic, FullPolicy, Item, Queue, no_item, max_msg_size, add64, sub64,
  is_drop_last, make_slot, push_back_fixed, push_front_fixed, push_back_locked, push_front_locked,
  pop_head_locked,
}

-- The ring's indices are in range, and `tail` is `count` places behind `head`.
pub record IsRing (q : Queue) : Type 0 where
  pub mode_fixed : q.mode ≡ fixed
  pub room : 2 ≤ q.capacity
  pub small : q.capacity < 2 ^ 63
  pub storage : q.capacity ≤ length q.items
  pub head_in : q.head < q.capacity
  pub count_le : q.count ≤ q.capacity
  pub tail_lem : q.tail ≡ (q.head + q.count) % q.capacity

-- The queued items, oldest first.
abbrev pub contents : Queue → List Item
contents q = segment no_item q.items q.capacity q.head q.count

-- What a bounded double-ended queue does.
unfoldable pub evict : ℕ → FullPolicy → List Item → List Item × Bool
evict c p xs =
    if ltb (length xs) c
    then (xs, true)
    else if is_drop_last p
    then (tail xs, true)
    else (xs, false)

-- With room, change the contents.
abbrev pub with_room : List Item × Bool → (List Item → List Item) → List Item × Bool
with_room (ys, room) f = if room then (f ys, true) else (ys, false)

unfoldable pub spec_push_back : ℕ → FullPolicy → List Item → Item → List Item × Bool
spec_push_back c p xs x =
    if ltb max_msg_size x.len then (xs, false) else with_room (evict c p xs) (λ ys. ys ++ x ∷ [])

unfoldable pub spec_push_front : ℕ → FullPolicy → List Item → Item → List Item × Bool
spec_push_front c p xs x =
    if ltb max_msg_size x.len then (xs, false) else with_room (evict c p xs) (λ ys. x ∷ ys)

unfoldable pub spec_pop : List Item → List Item × Option Item
spec_pop [] = ([], none)
spec_pop (x ∷ xs) = (xs, some x)

-- None of the index sums wraps.
pub head_moves : (q : Queue) → IsRing q → add64 q.head 1 ≡ q.head + 1
head_moves q v = omega arith

pub tail_moves :
    (q : Queue) → IsRing q → 0 < q.count → (q.head + suc (q.count - 1)) % q.capacity ≡ q.tail
tail_moves q v p = ap (λ t. t % q.capacity) (omega arith) ∙ sym v.tail_lem

pub make_slot-IsRing : {q : Queue} → IsRing q → IsRing (make_slot q).0
unfolding make_slot
make_slot-IsRing {q} v = ground (
  arith,
  mod_next q.capacity q.head (q.count - 1),
  mod-lt (q.head + 1) {m = q.capacity} (omega arith),
  tail_moves q v,
)

pub length-contents : (q : Queue) → length (contents q) ≡ q.count
length-contents q = length-segment no_item q.items q.capacity q.head q.count

tail_segment :
    (d : Item) (buf : List Item) (c h n : ℕ)
    → 0 < n
    → tail (segment d buf c h n) ≡ segment d buf c ((h + 1) % c) (n - 1)
tail_segment d buf c h zero p = absurd (omega arith)
tail_segment d buf c h (suc n) p = ap (λ k. segment d buf c ((h + 1) % c) k) (omega arith)

pub make_slot_refines :
    {q : Queue}
    → IsRing q
    → (contents (make_slot q).0, (make_slot q).1) ≡ evict q.capacity q.full_policy (contents q)
unfolding make_slot evict
make_slot_refines {q} v = ground (
  arith,
  length-contents q,
  head_moves q v,
  tail_segment no_item q.items q.capacity q.head q.count,
)

pub make_slot_room :
    {q : Queue} → IsRing q → (make_slot q).1 ≡ true → (make_slot q).0.count < q.capacity
unfolding make_slot
make_slot_room {q} v e = ground arith

pub same-make_slot :
    (q : Queue)
    → ((make_slot q).0.capacity ≡ q.capacity) × ((make_slot q).0.full_policy ≡ q.full_policy)
unfolding make_slot
same-make_slot q = ground arith

-- Writing at the tail and writing before the head, in a ring with a free place.
abbrev pub put_back : Queue → Item → Queue
put_back r x = record r {
  items = set r.items r.tail x;
  tail = add64 r.tail 1 % r.capacity;
  count = add64 r.count 1;
}

abbrev pub before_head : Queue → ℕ
before_head r = if r.head == 0 then sub64 r.capacity 1 else sub64 r.head 1

abbrev pub put_front : Queue → Item → Queue
put_front r x = record r {
  head = before_head r;
  items = set r.items (before_head r) x;
  count = add64 r.count 1;
}

pub put_back-IsRing :
    {r : Queue} (x : Item) → IsRing r → r.count < r.capacity → IsRing (put_back r x)
put_back-IsRing {r} x v p = record {
  mode_fixed = v.mode_fixed;
  room = v.room;
  small = v.small;
  storage = omega (arith, length-set r.items r.tail x);
  head_in = v.head_in;
  count_le = omega arith;
  tail_lem =
      let e : add64 r.tail 1 ≡ r.tail + 1 =
        omega (arith, mod-lt (r.head + r.count) {m = r.capacity} (omega arith)) in
      let f : add64 r.count 1 ≡ r.count + 1 = omega arith in
      rw (e, f, v.tail_lem, mod-add-mod) (ap (λ t. t % r.capacity) (omega arith));
}

pub contents-put_back :
    {r : Queue} (x : Item)
    → IsRing r
    → r.count < r.capacity
    → contents (put_back r x) ≡ contents r ++ x ∷ []
contents-put_back {r} x v p =
    let f : add64 r.count 1 ≡ suc r.count = omega arith in
    ap₂ (λ i n. segment no_item (set r.items i x) r.capacity r.head n) v.tail_lem f
    ∙ segment-set_end no_item r.items r.capacity r.head r.count x v.storage v.head_in p

before_head_lem :
    {r : Queue}
    → IsRing r
    → (before_head r < r.capacity) × ((before_head r + 1) % r.capacity ≡ r.head)
before_head_lem {r} v = elim (Bool-cases (r.head == 0)) [
  | inl e ↦
      let f : add64 (sub64 r.capacity 1) 1 ≡ r.capacity = omega arith in
      ground (arith, mod_self r.capacity)
  | inr e ↦ ground (arith, mod-eq_of_lt v.head_in)
]

pub put_front-IsRing :
    {r : Queue} (x : Item) → IsRing r → r.count < r.capacity → IsRing (put_front r x)
put_front-IsRing {r} x v p = record {
  mode_fixed = v.mode_fixed;
  room = v.room;
  small = v.small;
  storage = omega (arith, length-set r.items (before_head r) x);
  head_in = (before_head_lem v).0;
  count_le = omega arith;
  tail_lem =
      let f : add64 r.count 1 ≡ suc r.count = omega arith in
      rw f (
        v.tail_lem
        ∙ ap (λ t. (t + r.count) % r.capacity) (sym (before_head_lem v).1)
        ∙ mod_next r.capacity (before_head r) r.count);
}

pub contents-put_front :
    {r : Queue} (x : Item)
    → IsRing r
    → r.count < r.capacity
    → contents (put_front r x) ≡ x ∷ contents r
contents-put_front {r} x v p =
    let f : add64 r.count 1 ≡ suc r.count = omega arith in
    let b = before_head_lem v in
    ap (λ n. segment no_item (set r.items (before_head r) x) r.capacity (before_head r) n) f
    ∙ segment-set_front no_item r.items r.capacity (before_head r) r.count x v.storage b.0 p
    ∙ ap (λ h. x ∷ segment no_item r.items r.capacity h r.count) b.1
