-- ===== src/Mpmc/Dynamic/Order.antt =====
-- What a push to a queue in dynamic mode accepts, and which items it evicts for that.
use mathlib.Core.List.{append-nil}
use rel4u.Prelude.{
  ap, subst, ◌∙◌, take, drop-nil, ℕ, zero, suc, ◌+◌, ◌-◌, ◌^◌, ◌≤◌, ◌<◌, ◌≡◌, ◌⊎◌, refl, Bool, true,
  false, List, [], ◌∷◌, ◌++◌, arith, inl, inr, Bool-cases, ltb, leb, if◌then◌else◌, drop,
}
use rel4u.Mpmc.Defs.{
  FullPolicy, Item, Node, Queue, max_msg_size, add64, is_drop_last, make_room, room_for, new_node,
  push_back_dynamic, push_back_locked,
}
use rel4u.Mpmc.Calls.{Call, pushes, pushes_front, pops, call}
use rel4u.Mpmc.Dynamic.{total, IsHeap, keep_newest, make_room_lem}
use rel4u.Mpmc.Dynamic.Push.{
  push_back_locked-IsHeap, push_front_locked-IsHeap, pop_head_locked-IsHeap,
}

minimal_step :
    (limit needed k : ℕ) (n : Node) (ns : List Node)
    → limit < total (n ∷ ns) + needed
    → (k ≡ 0) ⊎ (limit < total (drop (k - 1) ns) + needed)
    → limit < total (drop (suc k - 1) (n ∷ ns)) + needed
minimal_step limit needed zero n ns h m = h
minimal_step limit needed (suc j) n ns h (inl z) = absurd (omega arith)
minimal_step limit needed (suc j) n ns h (inr m) =
    let e : suc (suc j) - 1 ≡ suc j = omega arith in
    let f : suc j - 1 ≡ j = omega arith in rw e (rw f at m)

-- The eviction drops a number of the oldest nodes: none if the room is there already, and otherwise
-- no more than needed.
pub keep_newest_minimal :
    (limit needed : ℕ) (ns : List Node)
    → needed ≤ limit
    → (k : ℕ) × (keep_newest limit needed ns ≡ drop k ns)
      × (total (drop k ns) + needed ≤ limit)
      × ((k ≡ 0) ⊎ (limit < total (drop (k - 1) ns) + needed))
unfolding keep_newest
keep_newest_minimal limit needed [] h = (0, refl, omega arith, inl refl)
keep_newest_minimal limit needed (n ∷ ns) h =
    elim (Bool-cases (ltb limit (total (n ∷ ns) + needed))) [
      | inl e ↦
          let (k, same, fits, least) = keep_newest_minimal limit needed ns h in
          (suc k, rw e same, fits, inr (minimal_step limit needed k n ns (ground arith) least))
      | inr e ↦ (0, rw e, ground arith, inl refl)
    ]

-- The nodes and the answer when `needed` bytes are asked for.
unfoldable pub spec_room : ℕ → FullPolicy → ℕ → List Node → List Node × Bool
spec_room limit p needed ns =
    if ltb limit needed
    then (ns, false)
    else if is_drop_last p
    then (keep_newest limit needed ns, true)
    else (ns, leb (total ns + needed) limit)

make_room_drop_new :
    (k : ℕ) (q : Queue) (needed : ℕ) (ns : List Node)
    → 0 < k
    → needed ≤ q.max_bytes
    → IsHeap k (record q { nodes = ns })
    → is_drop_last q.full_policy ≡ false
    → let r = make_room q needed ns in
      (r.0.nodes ≡ ns) × (r.1 ≡ leb (total ns + needed) q.max_bytes)
unfolding make_room
make_room_drop_new k q needed [] p h v e = ground arith
make_room_drop_new k q needed (n ∷ ns) p h v e = ground arith

-- An item as it stands in the queue: its first `len` bytes.
abbrev pub queued : Item → ℕ → Node
queued x size = record {
  client_id = x.client_id;
  mode = x.mode;
  len = x.len;
  allocated_size = size;
  bytes = take x.len x.bytes;
}

new_node-queued : (x : Item) (size : ℕ) → new_node x size ≡ queued x size
unfolding new_node
new_node-queued x size =
    ap (λ (b : List ℕ). record (queued x size) { bytes = b })
      (ap (λ t. take x.len x.bytes ++ t) (drop-nil x.len) ∙ append-nil (take x.len x.bytes))

module _ (node_size : ℕ) (pos : 0 < node_size) where
  room_for_refines :
      (q : Queue) (needed : ℕ)
      → IsHeap node_size q
      → let r = room_for node_size true q needed in
        (r.0.nodes, r.1) ≡ spec_room q.max_bytes q.full_policy needed q.nodes
  unfolding room_for spec_room
  room_for_refines q needed v = elim (Bool-cases (is_drop_last q.full_policy)) [
    | inl e ↦ ground (arith, make_room_lem node_size pos q needed q.nodes)
    | inr e ↦ ground (arith, make_room_drop_new node_size q needed q.nodes)
  ]

  push_back_dynamic_room :
      (q : Queue) (x : Item)
      → IsHeap node_size q
      → node_size < 2 ^ 32
      → let r = push_back_locked node_size true q x in
        let room = spec_room q.max_bytes q.full_policy (node_size + x.len) q.nodes in
        (r.1 ≡ (if ltb max_msg_size x.len then false else room.1))
        × (r.0.nodes ≡ (
            if ltb max_msg_size x.len
            then q.nodes
            else if room.1
            then room.0 ++ new_node x (node_size + x.len) ∷ []
            else room.0))
  unfolding push_back_locked push_back_dynamic
  push_back_dynamic_room q x v h = elim (Bool-cases (ltb max_msg_size x.len)) [
    | inl e ↦ rw e (refl, refl)
    | inr e ↦
        let w : add64 node_size x.len ≡ node_size + x.len = ground arith in
        rw (e, v.mode_dynamic, w, ← room_for_refines q (node_size + x.len) v) (ground arith)
  ]

  -- With memory to be had, a push at the end refuses an item longer than 9216 bytes or larger than
  -- the limit. Under DROP_NEW it appends the item if it fits beside the queued ones and leaves them
  -- as they are if not; under DROP_LAST it always appends, behind the newest items that leave
  -- room. What it appends is the item with its client number, its mode and its first `len` bytes.
  pub push_back_dynamic_refines :
      (q : Queue) (x : Item)
      → IsHeap node_size q
      → node_size < 2 ^ 32
      → let r = push_back_locked node_size true q x in
        let room = spec_room q.max_bytes q.full_policy (node_size + x.len) q.nodes in
        (r.1 ≡ (if ltb max_msg_size x.len then false else room.1))
        × (r.0.nodes ≡ (
            if ltb max_msg_size x.len
            then q.nodes
            else if room.1
            then room.0 ++ queued x (node_size + x.len) ∷ []
            else room.0))
  push_back_dynamic_refines q x v h =
      let r = push_back_locked node_size true q x in
      let room = spec_room q.max_bytes q.full_policy (node_size + x.len) q.nodes in
      subst
        (λ (n : Node).
          (r.1 ≡ (if ltb max_msg_size x.len then false else room.1))
          × (r.0.nodes ≡ (
              if ltb max_msg_size x.len
              then q.nodes
              else if room.1
              then room.0 ++ n ∷ []
              else room.0)))
        (new_node-queued x (node_size + x.len)) (push_back_dynamic_room q x v h)

-- Any call, by any thread, on a queue in dynamic mode keeps the byte count equal to the bytes that
-- the queued nodes hold, the item count equal to their number, and the bytes within the limit;
-- also if no memory is to be had.
pub call-IsHeap :
    (node_size : ℕ) (mem : Bool) (q : Queue) (c : Call)
    → 0 < node_size
    → node_size < 2 ^ 32
    → IsHeap node_size q
    → IsHeap node_size (call node_size mem q c).0
unfolding call
call-IsHeap k mem q (pushes x) p f v = push_back_locked-IsHeap k p f mem q x v
call-IsHeap k mem q (pushes_front x) p f v = push_front_locked-IsHeap k p f mem q x v
call-IsHeap k mem q pops p f v = pop_head_locked-IsHeap k q p v
