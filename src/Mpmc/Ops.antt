-- ===== src/Mpmc/Ops.antt =====
-- The public operations of src/core/rel4u_mpmc.c. Each holds the queue's mutex from its start to its
-- end, so a run of several threads is a sequence of them.
use rel4u.Prelude.{
  ℕ, ◌+◌, ◌*◌, ◌%◌, ◌^◌, Bool, [], Option, none, some, ltb, ◌==◌, if◌then◌else◌, replicate,
}
use rel4u.Mpmc.Defs.{
  MemoryMode, fixed, dynamic, FullPolicy, Item, Queue, no_item, push_back_locked, push_front_locked,
  pop_head_locked,
}

-- `rel4u_mpmc_init` (`none` for -1). `item_size` is `sizeof(rel4u_mpmc_item_t)`, and `mem` tells
-- whether the array can be allocated.
unfoldable pub init : ℕ → Bool → MemoryMode → FullPolicy → ℕ → ℕ → Option Queue
init item_size mem mode full_policy capacity max_bytes = elim mode [
  | fixed ↦
      if ltb capacity 2
      then none
      else if mem
      then some (record {
        mode = fixed;
        full_policy = full_policy;
        max_bytes = item_size * capacity % 2 ^ 64;
        current_bytes = item_size * capacity % 2 ^ 64;
        dropped_count = 0;
        items = replicate capacity no_item;
        capacity = capacity;
        head = 0;
        tail = 0;
        nodes = [];
        count = 0;
        wake_generation = 0;
      })
      else none
  | dynamic ↦ some (record {
    mode = dynamic;
    full_policy = full_policy;
    max_bytes = if max_bytes == 0 then 1024 * 1024 else max_bytes;
    current_bytes = 0;
    dropped_count = 0;
    items = [];
    capacity = 0;
    head = 0;
    tail = 0;
    nodes = [];
    count = 0;
    wake_generation = 0;
  })
]

-- `rel4u_mpmc_wake_all`: it also broadcasts the condition.
unfoldable pub wake_all : Queue → Queue
wake_all q = record q { wake_generation = (q.wake_generation + 1) % 2 ^ 32 }

-- `rel4u_mpmc_destroy`.
unfoldable pub destroy : Queue → Queue
unfolding wake_all
destroy q =
    let cleared = record (wake_all q) { capacity = 0; count = 0; current_bytes = 0 } in
    elim q.mode [ fixed ↦ record cleared { items = [] } | dynamic ↦ record cleared { nodes = [] } ]

unfoldable pub try_pop : Queue → Queue × Option Item
try_pop = pop_head_locked

module _ (node_size : ℕ) (mem : Bool) where
  unfoldable pub try_push : Queue → Item → Queue × Bool
  try_push = push_back_locked node_size mem

  -- With whether the condition is signalled.
  unfoldable pub push_notify : Queue → Item → Queue × Bool × Bool
  push_notify q item =
      let (r, accepted) = push_back_locked node_size mem q item in (r, accepted, accepted)

  unfoldable pub push_front : Queue → Item → Queue × Bool × Bool
  push_front q item =
      let (r, accepted) = push_front_locked node_size mem q item in (r, accepted, accepted)

unfoldable pub size : Queue → ℕ
size q = q.count

unfoldable pub bytes : Queue → ℕ
bytes q = q.current_bytes

unfoldable pub dropped_count : Queue → ℕ
dropped_count q = q.dropped_count
