-- ===== src/Mpmc/Dynamic/Push.antt =====
-- The counters and the byte limit of a queue in dynamic mode, under each operation.
use rel4u.Prelude.{
  ℕ, ◌+◌, ◌^◌, ◌≤◌, ◌<◌, ◌≡◌, refl, ap, subst, ◌∙◌, Bool, true, false, List, [], ◌∷◌, ◌++◌, arith,
  inl, inr, Bool-cases, ltb, length, length-append, ◌==◌,
}
use rel4u.Mpmc.Defs.{
  Item, Node, Queue, max_msg_size, add64, room_for, new_node, push_back_dynamic, push_front_dynamic,
  push_back_locked, push_front_locked, pop_node, pop_head_locked,
}
use rel4u.Mpmc.Dynamic.{total, AllSized, IsHeap, length-le-total, make_room-IsHeap, make_room_fits}

total-append : (ns : List Node) (n : Node) → total (ns ++ n ∷ []) ≡ total ns + n.allocated_size
total-append [] n = omega arith
total-append (m ∷ ns) n = omega (arith, total-append ns n)

AllSized-append :
    (k : ℕ) (ns : List Node) (n : Node)
    → AllSized k ns
    → n.allocated_size ≡ k + n.len
    → AllSized k (ns ++ n ∷ [])
AllSized-append k [] n s e = (e, tt)
AllSized-append k (m ∷ ns) n s e = (s.0, AllSized-append k ns n s.1 e)

module _ (node_size : ℕ) (pos : 0 < node_size) (fits : node_size < 2 ^ 32) (mem : Bool) where
  room_for-IsHeap :
      (q : Queue) (needed : ℕ)
      → IsHeap node_size q
      → IsHeap node_size (room_for node_size mem q needed).0
  unfolding room_for
  room_for-IsHeap q needed v = ground (arith, make_room-IsHeap node_size pos q needed q.nodes)

  room_for_fits :
      (q : Queue) (needed : ℕ)
      → IsHeap node_size q
      → (room_for node_size mem q needed).1 ≡ true
      → total (room_for node_size mem q needed).0.nodes + needed
        ≤ (room_for node_size mem q needed).0.max_bytes
  unfolding room_for
  room_for_fits q needed v e = ground (arith, make_room_fits node_size pos q needed q.nodes)

  -- Linking in a node of the right size, at either end.
  link_back-IsHeap :
      (r : Queue) (n : Node)
      → IsHeap node_size r
      → n.allocated_size ≡ node_size + n.len
      → total r.nodes + n.allocated_size ≤ r.max_bytes
      → IsHeap node_size (record r {
        nodes = r.nodes ++ n ∷ [];
        count = add64 r.count 1;
        current_bytes = add64 r.current_bytes n.allocated_size;
      })
  link_back-IsHeap r n v e h =
      let t = total-append r.nodes n in
      let l = length-append r.nodes (n ∷ []) in
      let k = length-le-total node_size r.nodes pos v.sized in
      record {
        mode_dynamic = v.mode_dynamic;
        small = v.small;
        bytes_eq = omega arith;
        bytes_le = omega arith;
        count_eq = omega arith;
        sized = AllSized-append node_size r.nodes n v.sized e;
      }

  link_front-IsHeap :
      (r : Queue) (n : Node)
      → IsHeap node_size r
      → n.allocated_size ≡ node_size + n.len
      → total r.nodes + n.allocated_size ≤ r.max_bytes
      → IsHeap node_size (record r {
        nodes = n ∷ r.nodes;
        count = add64 r.count 1;
        current_bytes = add64 r.current_bytes n.allocated_size;
      })
  link_front-IsHeap r n v e h =
      let k = length-le-total node_size r.nodes pos v.sized in
      record {
        mode_dynamic = v.mode_dynamic;
        small = v.small;
        bytes_eq = omega arith;
        bytes_le = omega arith;
        count_eq = omega arith;
        sized = (e, v.sized);
      }

  -- A push at either end keeps the counters right and the bytes within the limit.
  pub push_back_locked-IsHeap :
      (q : Queue) (x : Item)
      → IsHeap node_size q
      → IsHeap node_size (push_back_locked node_size mem q x).0
  unfolding push_back_locked push_back_dynamic new_node
  push_back_locked-IsHeap q x v = elim (Bool-cases (ltb max_msg_size x.len)) [
    | inl e ↦ rw e v
    | inr e ↦ rw (e, v.mode_dynamic) (pushed (room_for-IsHeap q (add64 node_size x.len) v) e)
  ]
    where
      pushed :
          IsHeap node_size (room_for node_size mem q (add64 node_size x.len)).0
          → ltb max_msg_size x.len ≡ false
          → IsHeap node_size (push_back_dynamic node_size mem q x).0
      pushed w e = elim (Bool-cases (room_for node_size mem q (add64 node_size x.len)).1) [
        | inl r ↦ rw r (
            link_back-IsHeap _ (new_node x (add64 node_size x.len)) w (ground arith)
              (room_for_fits q (add64 node_size x.len) v r))
        | inr r ↦ rw r w
      ]

  pub push_front_locked-IsHeap :
      (q : Queue) (x : Item)
      → IsHeap node_size q
      → IsHeap node_size (push_front_locked node_size mem q x).0
  unfolding push_front_locked push_front_dynamic new_node
  push_front_locked-IsHeap q x v = elim (Bool-cases (ltb max_msg_size x.len)) [
    | inl e ↦ rw e v
    | inr e ↦ rw (e, v.mode_dynamic) (pushed (room_for-IsHeap q (add64 node_size x.len) v) e)
  ]
    where
      pushed :
          IsHeap node_size (room_for node_size mem q (add64 node_size x.len)).0
          → ltb max_msg_size x.len ≡ false
          → IsHeap node_size (push_front_dynamic node_size mem q x).0
      pushed w e = elim (Bool-cases (room_for node_size mem q (add64 node_size x.len)).1) [
        | inl r ↦ rw r (
            link_front-IsHeap _ (new_node x (add64 node_size x.len)) w (ground arith)
              (room_for_fits q (add64 node_size x.len) v r))
        | inr r ↦ rw r w
      ]

pop_node-IsHeap :
    (k : ℕ) (q : Queue) (ns : List Node)
    → 0 < k
    → q.nodes ≡ ns
    → IsHeap k q
    → IsHeap k (pop_node q ns).0
unfolding pop_node
pop_node-IsHeap k q [] p e v = v
pop_node-IsHeap k q (n ∷ ns) p e v =
    let s = subst (AllSized k) e v.sized in
    let b = v.bytes_eq ∙ ap total e in
    let c = v.count_eq ∙ ap (length {0}) e in
    let l = v.bytes_le in
    record {
      mode_dynamic = v.mode_dynamic;
      small = v.small;
      bytes_eq = omega (arith, v.small);
      bytes_le = omega (arith, ap total e);
      count_eq = omega (arith, v.small, length-le-total k ns p s.1, ap total e);
      sized = s.1;
    }

-- A pop keeps them right too.
pub pop_head_locked-IsHeap :
    (k : ℕ) (q : Queue) → 0 < k → IsHeap k q → IsHeap k (pop_head_locked q).0
unfolding pop_head_locked
pop_head_locked-IsHeap k q p v = elim (Bool-cases (q.count == 0)) [
  | inl e ↦ rw e v
  | inr e ↦ rw (e, v.mode_dynamic) (pop_node-IsHeap k q q.nodes p refl v)
]
