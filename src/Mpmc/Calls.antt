-- ===== src/Mpmc/Calls.antt =====
-- The calls that threads make on a queue, in the order in which they get its mutex.
use rel4u.Prelude.{ℕ, Bool, List, [], ◌∷◌, Option}
use rel4u.Mpmc.Defs.{Item, Queue, push_back_locked, push_front_locked, pop_head_locked}

-- A call on the queue. Each holds the mutex from start to end, so what several threads do is one
-- sequence of calls.
pub data Call : Type 0 where
  pushes pushes_front : Item → Call
  pops : Call

pub data Reply : Type 0 where
  pushed : Bool → Reply
  popped : Option Item → Reply

module _ (node_size : ℕ) (mem : Bool) where
  unfoldable pub call : Queue → Call → Queue × Reply
  call q (pushes x) = let (r, b) = push_back_locked node_size mem q x in (r, pushed b)
  call q (pushes_front x) = let (r, b) = push_front_locked node_size mem q x in (r, pushed b)
  call q pops = let (r, o) = pop_head_locked q in (r, popped o)

  unfoldable pub run : Queue → List Call → List Reply
  run q [] = []
  run q (c ∷ cs) = let (r, y) = call q c in y ∷ run r cs
