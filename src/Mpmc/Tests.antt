-- ===== src/Mpmc/Tests.antt =====
-- The queue's theorems at concrete queues.
use rel4u.Prelude.{ℕ, ◌+◌, ◌≡◌, refl, true, false, [], ◌∷◌, ◌++◌, arith, ltb, if◌then◌else◌}
use rel4u.Prelude.Int.{pos, negsuc}
use rel4u.Mpmc.Defs.{
  fixed, dynamic, drop_last, Item, Node, Queue, no_item, max_msg_size, push_back_locked,
}
use rel4u.Mpmc.Ops.{wake_all}
use rel4u.Mpmc.Calls.{pushes, pushes_front, pops, call, run}
use rel4u.Mpmc.Wait.{gave_up, pop_wait, pop_wait-wake_all}
use rel4u.Mpmc.Fixed.Waiting.{Outcome, pop_wait-Outcome}
use rel4u.Mpmc.Fixed.{IsRing, contents}
use rel4u.Mpmc.Fixed.Refine.{spec_run, run_refines}
use rel4u.Mpmc.Dynamic.{IsHeap}
use rel4u.Mpmc.Dynamic.Order.{queued, spec_room, push_back_dynamic_refines, call-IsHeap}

abbrev item : ℕ → Item
item n = record { client_id = n; mode = 3; len = 2; bytes = 1 ∷ 2 ∷ [] }

-- A full ring of two items whose oldest is in the second place.
abbrev ring : Queue
ring = record {
  mode = fixed;
  full_policy = drop_last;
  max_bytes = 0;
  current_bytes = 0;
  dropped_count = 0;
  items = item 2 ∷ item 1 ∷ [];
  capacity = 2;
  head = 1;
  tail = 1;
  nodes = [];
  count = 2;
  wake_generation = 0;
}

ring-IsRing : IsRing ring
ring-IsRing = record {
  mode_fixed = refl;
  room = omega arith;
  small = omega arith;
  storage = omega arith;
  head_in = omega arith;
  count_le = omega arith;
  tail_lem = refl;
}

run_refines_example :
    run 40 true ring (pushes (item 3) ∷ pops ∷ pushes_front (item 4) ∷ pops ∷ [])
    ≡ spec_run ring.capacity ring.full_policy
        (contents ring)
        (pushes (item 3) ∷ pops ∷ pushes_front (item 4) ∷ pops ∷ [])
run_refines_example =
    run_refines 40 true (pushes (item 3) ∷ pops ∷ pushes_front (item 4) ∷ pops ∷ []) ring
      ring-IsRing

-- Two nodes in a queue limited to 100 bytes.
abbrev node : ℕ → Node
node n = record { client_id = n; mode = 3; len = 2; allocated_size = 42; bytes = 1 ∷ 2 ∷ [] }

abbrev heap : Queue
heap = record {
  mode = dynamic;
  full_policy = drop_last;
  max_bytes = 100;
  current_bytes = 84;
  dropped_count = 0;
  items = [];
  capacity = 0;
  head = 0;
  tail = 0;
  nodes = node 1 ∷ node 2 ∷ [];
  count = 2;
  wake_generation = 0;
}

heap-IsHeap : IsHeap 40 heap
heap-IsHeap = record {
  mode_dynamic = refl;
  small = omega arith;
  bytes_eq = refl;
  bytes_le = omega arith;
  count_eq = refl;
  sized = (refl, (refl, tt));
}

push_back_dynamic_refines_example :
    let r = push_back_locked 40 true heap (item 3) in
    let room = spec_room heap.max_bytes heap.full_policy (40 + (item 3).len) heap.nodes in
    (r.1 ≡ (if ltb max_msg_size (item 3).len then false else room.1))
    × (r.0.nodes ≡ (
        if ltb max_msg_size (item 3).len
        then heap.nodes
        else if room.1
        then room.0 ++ queued (item 3) (40 + (item 3).len) ∷ []
        else room.0))
push_back_dynamic_refines_example =
    push_back_dynamic_refines 40 (omega arith) heap (item 3) heap-IsHeap (omega arith)

call-IsHeap_example : IsHeap 40 (call 40 false heap (pushes_front (item 3))).0
call-IsHeap_example =
    call-IsHeap 40 false heap (pushes_front (item 3)) (omega arith) (omega arith) heap-IsHeap

-- An empty ring, waited on.
abbrev idle : Queue
idle = record ring { count = 0; tail = 1; items = no_item ∷ item 1 ∷ [] }

abbrev filled : Queue
filled = record idle { count = 1; tail = 0 }

pop_wait-wake_all_example :
    pop_wait idle (negsuc 0) (record { signaled = true; queue = wake_all idle } ∷ [])
    ≡ gave_up (wake_all idle)
pop_wait-wake_all_example =
    pop_wait-wake_all idle idle (negsuc 0) true [] refl (λ e. ground arith) refl refl (omega arith)

idle-IsRing : IsRing idle
idle-IsRing = record {
  mode_fixed = refl;
  room = omega arith;
  small = omega arith;
  storage = omega arith;
  head_in = omega arith;
  count_le = omega arith;
  tail_lem = refl;
}

filled-IsRing : IsRing filled
filled-IsRing = record {
  mode_fixed = refl;
  room = omega arith;
  small = omega arith;
  storage = omega arith;
  head_in = omega arith;
  count_le = omega arith;
  tail_lem = refl;
}

-- An item is there at the first wake-up.
pop_wait-Outcome_example :
    Outcome
      (pos 50)
      0
      idle
      (record { signaled = true; queue = filled } ∷ [])
      (pop_wait idle (pos 50) (record { signaled = true; queue = filled } ∷ []))
pop_wait-Outcome_example =
    pop_wait-Outcome (pos 50) idle (record { signaled = true; queue = filled } ∷ [])
      (idle-IsRing, filled-IsRing)
