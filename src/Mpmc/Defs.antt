-- ===== src/Mpmc/Defs.antt =====
-- The queue of src/core/rel4u_mpmc.c and its functions that run with the mutex held.
use rel4u.Prelude.{
  ℕ, ◌+◌, ◌-◌, ◌%◌, ◌^◌, Bool, true, false, List, [], ◌∷◌, ◌++◌, Option, none, some, ltb, ◌==◌,
  if◌then◌else◌, get_or, set, memcpy,
}

abbrev pub max_msg_size : ℕ
max_msg_size = 9216

-- `rel4u_memory_mode_t`.
pub data MemoryMode : Type 0 where
  fixed dynamic : MemoryMode

-- `rel4u_queue_full_policy_t`.
pub data FullPolicy : Type 0 where
  drop_new drop_last : FullPolicy

-- `rel4u_mpmc_item_t`; `bytes` is its field `data`.
pub record Item : Type 0 where
  pub client_id : ℕ
  pub mode : ℕ
  pub len : ℕ
  pub bytes : List ℕ

-- `rel4u_mpmc_node_t`, without the links.
pub record Node : Type 0 where
  pub client_id : ℕ
  pub mode : ℕ
  pub len : ℕ
  pub allocated_size : ℕ
  pub bytes : List ℕ

-- `rel4u_mpmc_queue_t`. `items` is empty for a null pointer, and `nodes` is the linked list from
-- `node_head` on, whose last entry is `node_tail`.
pub record Queue : Type 0 where
  pub mode : MemoryMode
  pub full_policy : FullPolicy
  pub max_bytes : ℕ
  pub current_bytes : ℕ
  pub dropped_count : ℕ
  pub items : List Item
  pub capacity : ℕ
  pub head : ℕ
  pub tail : ℕ
  pub nodes : List Node
  pub count : ℕ
  pub wake_generation : ℕ

-- `size_t` and `uint64_t` arithmetic.
abbrev pub add64 : ℕ → ℕ → ℕ
add64 a b = (a + b) % 2 ^ 64

abbrev pub sub64 : ℕ → ℕ → ℕ
sub64 a b = (a + 2 ^ 64 - b) % 2 ^ 64

-- What the bytes of unwritten memory are taken for.
abbrev pub no_item : Item
no_item = record { client_id = 0; mode = 0; len = 0; bytes = [] }

abbrev pub is_drop_last : FullPolicy → Bool
is_drop_last drop_new = false
is_drop_last drop_last = true

-- `q->dropped_count++; return false;`
abbrev pub reject : Queue → Queue × Bool
reject q = (record q { dropped_count = add64 q.dropped_count 1 }, false)

-- The fixed mode's start of both pushes: with a full ring, evict the oldest item or give up.
unfoldable pub make_slot : Queue → Queue × Bool
make_slot q =
    if ltb q.count q.capacity
    then (q, true)
    else if is_drop_last q.full_policy
    then (
      record q {
        head = add64 q.head 1 % q.capacity;
        count = sub64 q.count 1;
        dropped_count = add64 q.dropped_count 1;
      },
      true,
    )
    else reject q

-- The dynamic mode's loop of both pushes, along the list of nodes: evict the oldest nodes until
-- `needed` more bytes fit, or give up.
unfoldable pub make_room : Queue → ℕ → List Node → Queue × Bool
make_room q needed [] =
    if ltb q.max_bytes (add64 q.current_bytes needed)
    then reject (record q { nodes = [] })
    else (record q { nodes = [] }, true)
make_room q needed (victim ∷ rest) =
    let evicted : Queue × Bool =
      make_room
        (record q {
          current_bytes = sub64 q.current_bytes victim.allocated_size;
          count = sub64 q.count 1;
          dropped_count = add64 q.dropped_count 1;
        })
        needed rest in
    if ltb q.max_bytes (add64 q.current_bytes needed)
    then (if is_drop_last q.full_policy
        then evicted
        else reject (record q { nodes = victim ∷ rest }))
    else (record q { nodes = victim ∷ rest }, true)

-- The node that a push fills in, in memory of `node_size + len` bytes.
unfoldable pub new_node : Item → ℕ → Node
new_node item needed = record {
  client_id = item.client_id;
  mode = item.mode;
  len = item.len;
  allocated_size = needed;
  bytes = memcpy [] item.bytes item.len;
}

-- What a pop copies out of a node.
unfoldable pub node_item : Node → Item
node_item n = record {
  client_id = n.client_id;
  mode = n.mode;
  len = n.len;
  bytes = memcpy [] n.bytes n.len;
}

-- `node_size` is `sizeof(rel4u_mpmc_node_t)`, and `mem` tells whether `malloc` returns memory.
module _ (node_size : ℕ) (mem : Bool) where
  -- `mpmc_push_back_locked`, by its two modes.
  unfoldable pub push_back_fixed : Queue → Item → Queue × Bool
  push_back_fixed q item =
      let (r, room) = make_slot q in
      if room
      then (
        record r {
          items = set r.items r.tail item;
          tail = add64 r.tail 1 % r.capacity;
          count = add64 r.count 1;
        },
        true,
      )
      else (r, false)

  -- The test of the size and the loop, for both pushes.
  unfoldable pub room_for : Queue → ℕ → Queue × Bool
  room_for q needed =
      if ltb q.max_bytes needed
      then reject q
      else (let (r, room) = make_room q needed q.nodes in
          if room then (if mem then (r, true) else reject r) else (r, false))

  unfoldable pub push_back_dynamic : Queue → Item → Queue × Bool
  push_back_dynamic q item =
      let needed = add64 node_size item.len in
      let (r, room) = room_for q needed in
      if room
      then (
        record r {
          nodes = r.nodes ++ new_node item needed ∷ [];
          count = add64 r.count 1;
          current_bytes = add64 r.current_bytes needed;
        },
        true,
      )
      else (r, false)

  unfoldable pub push_back_locked : Queue → Item → Queue × Bool
  push_back_locked q item =
      if ltb max_msg_size item.len
      then (q, false)
      else elim q.mode [ fixed ↦ push_back_fixed q item | dynamic ↦ push_back_dynamic q item ]

  -- `mpmc_push_front_locked`, by its two modes.
  unfoldable pub push_front_fixed : Queue → Item → Queue × Bool
  push_front_fixed q item =
      let (r, room) = make_slot q in
      let at = if r.head == 0 then sub64 r.capacity 1 else sub64 r.head 1 in
      if room
      then (record r { head = at; items = set r.items at item; count = add64 r.count 1 }, true)
      else (r, false)

  unfoldable pub push_front_dynamic : Queue → Item → Queue × Bool
  push_front_dynamic q item =
      let needed = add64 node_size item.len in
      let (r, room) = room_for q needed in
      if room
      then (
        record r {
          nodes = new_node item needed ∷ r.nodes;
          count = add64 r.count 1;
          current_bytes = add64 r.current_bytes needed;
        },
        true,
      )
      else (r, false)

  unfoldable pub push_front_locked : Queue → Item → Queue × Bool
  push_front_locked q item =
      if ltb max_msg_size item.len
      then (q, false)
      else elim q.mode [ fixed ↦ push_front_fixed q item | dynamic ↦ push_front_dynamic q item ]

-- The dynamic branch of `mpmc_pop_head_locked`.
unfoldable pub pop_node : Queue → List Node → Queue × Option Item
pop_node q [] = (q, none)
pop_node q (n ∷ rest) = (
  record q {
    nodes = rest;
    count = sub64 q.count 1;
    current_bytes = sub64 q.current_bytes n.allocated_size;
  },
  some (node_item n),
)

-- `mpmc_pop_head_locked`: the queue, and `*out_item` where it returns true.
unfoldable pub pop_head_locked : Queue → Queue × Option Item
pop_head_locked q = if q.count == 0 then (q, none) else elim q.mode [
  | fixed ↦ (
    record q { head = add64 q.head 1 % q.capacity; count = sub64 q.count 1 },
    some (get_or q.items q.head no_item),
  )
  | dynamic ↦ pop_node q q.nodes
]
