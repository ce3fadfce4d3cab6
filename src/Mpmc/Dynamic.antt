-- ===== src/Mpmc/Dynamic.antt =====
-- The counters, the byte limit and the eviction of a queue in dynamic mode.
pub mod Push
pub mod Order
use rel4u.Prelude.{
  ℕ, zero, suc, ◌+◌, ◌-◌, ◌%◌, ◌^◌, ◌≤◌, ◌<◌, ◌≡◌, refl, ap, sym, ◌∙◌, Bool, true, false, List, [],
  ◌∷◌, ◌++◌, Option, none, some, arith, inl, inr, Bool-cases, ltb, if◌then◌else◌, length,
  length-append, take, drop, memcpy,
}
use rel4u.Mpmc.Defs.{
  fixed, dynamic, Item, Node, Queue, max_msg_size, add64, sub64, is_drop_last, make_room, room_for,
  new_node, node_item, push_back_dynamic, push_front_dynamic, push_back_locked, push_front_locked,
  pop_node, pop_head_locked,
}

-- The bytes that the nodes hold.
abbrev pub total : List Node → ℕ
total [] = 0
total (n ∷ ns) = n.allocated_size + total ns

-- `node_size` is `sizeof(rel4u_mpmc_node_t)`.
abbrev pub AllSized : ℕ → List Node → Type 0
AllSized node_size [] = Unit {0}
AllSized node_size (n ∷ ns) = (n.allocated_size ≡ node_size + n.len) × AllSized node_size ns

-- The counters agree with the list, and the bytes are within the limit.
pub record IsHeap (node_size : ℕ) (q : Queue) : Type 0 where
  pub mode_dynamic : q.mode ≡ dynamic
  pub small : q.max_bytes < 2 ^ 63
  pub bytes_eq : q.current_bytes ≡ total q.nodes
  pub bytes_le : total q.nodes ≤ q.max_bytes
  pub count_eq : q.count ≡ length q.nodes
  pub sized : AllSized node_size q.nodes

pub length-le-total : (k : ℕ) (ns : List Node) → 0 < k → AllSized k ns → length ns ≤ total ns
length-le-total k [] p s = omega arith
length-le-total k (n ∷ ns) p s = omega (arith, length-le-total k ns p s.1)

-- The nodes that are left when the oldest have been evicted until `needed` bytes fit below `limit`.
unfoldable pub keep_newest : ℕ → ℕ → List Node → List Node
keep_newest limit needed [] = []
keep_newest limit needed (n ∷ ns) =
    if ltb limit (total (n ∷ ns) + needed) then keep_newest limit needed ns else n ∷ ns

module _ (node_size : ℕ) (pos : 0 < node_size) where
  -- One eviction.
  abbrev after_evict : Queue → Node → Queue
  after_evict q n = record q {
    current_bytes = sub64 q.current_bytes n.allocated_size;
    count = sub64 q.count 1;
    dropped_count = add64 q.dropped_count 1;
  }

  after_evict-IsHeap :
      (q : Queue) (n : Node) (ns : List Node)
      → IsHeap node_size (record q { nodes = n ∷ ns })
      → IsHeap node_size (record (after_evict q n) { nodes = ns })
  after_evict-IsHeap q n ns v = ground (arith, length-le-total node_size ns pos v.sized.1)

  -- What the loop leaves: the list at hand stands in for the queue's own.
  pub make_room-IsHeap :
      (q : Queue) (needed : ℕ) (ns : List Node)
      → needed ≤ q.max_bytes
      → IsHeap node_size (record q { nodes = ns })
      → IsHeap node_size (make_room q needed ns).0
  unfolding make_room
  make_room-IsHeap q needed [] h v = ground arith
  make_room-IsHeap q needed (n ∷ ns) h v =
      ground (arith, make_room-IsHeap (after_evict q n) needed ns h (after_evict-IsHeap q n ns v))

  pub make_room_lem :
      (q : Queue) (needed : ℕ) (ns : List Node)
      → needed ≤ q.max_bytes
      → IsHeap node_size (record q { nodes = ns })
      → is_drop_last q.full_policy ≡ true
      → let r = make_room q needed ns in
        (r.1 ≡ true)
        × (r.0.nodes ≡ keep_newest q.max_bytes needed ns)
        × (total r.0.nodes + needed ≤ q.max_bytes)
  unfolding make_room keep_newest
  make_room_lem q needed [] h v p = ground arith
  make_room_lem q needed (n ∷ ns) h v p =
      ground (arith, make_room_lem (after_evict q n) needed ns h (after_evict-IsHeap q n ns v))

  pub make_room_fits :
      (q : Queue) (needed : ℕ) (ns : List Node)
      → needed ≤ q.max_bytes
      → IsHeap node_size (record q { nodes = ns })
      → (make_room q needed ns).1 ≡ true
      → (total (make_room q needed ns).0.nodes + needed ≤ q.max_bytes)
        × ((make_room q needed ns).0.max_bytes ≡ q.max_bytes)
  unfolding make_room
  make_room_fits q needed [] h v e = ground arith
  make_room_fits q needed (n ∷ ns) h v e =
      ground (arith, make_room_fits (after_evict q n) needed ns h (after_evict-IsHeap q n ns v))
