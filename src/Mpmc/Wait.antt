-- ===== src/Mpmc/Wait.antt =====
-- `rel4u_mpmc_pop_wait`: a consumer that waits on the condition.
use rel4u.Prelude.{
  ℕ, Bool, not, ◌&&◌, ◌||◌, List, [], ◌∷◌, ◌≡◌, ◌≢◌, ◌<◌, ◌^◌, Option, none, some, arith, ◌==◌,
  if◌then◌else◌,
}
use rel4u.Prelude.Int.{ℤ, pos, negsuc, is_zero}
use rel4u.Mpmc.Defs.{Item, Queue, pop_head_locked}
use rel4u.Mpmc.Ops.{wake_all}

-- What the wait hands back: whether it was signalled (`rel4u_cond_timedwait_ms`), and the queue as
-- the other threads left it when the mutex was taken again.
pub record Wake : Type 0 where
  pub signaled : Bool
  pub queue : Queue

-- `blocked`: the wake-ups at hand are used up, and the call is still waiting.
pub data Waited : Type 0 where
  popped : Queue → Item → Waited
  gave_up : Queue → Waited
  blocked : Waited

abbrev pub finish : Queue × Option Item → Waited
finish (q, none) = gave_up q
finish (q, some x) = popped q x

-- The tests behind the wait: without a limit of time, and with one.
abbrev pub gives_up : ℤ → ℕ → Wake → Bool
gives_up (pos n) gen w =
    w.queue.count == 0 && (not w.signaled || not (w.queue.wake_generation == gen))
gives_up (negsuc n) gen w = w.queue.count == 0 && not (w.queue.wake_generation == gen)

-- The `while` loop, along the wake-ups.
unfoldable pub wait_loop : ℤ → ℕ → Queue → List Wake → Waited
wait_loop timeout gen q [] =
    if q.count == 0
    then if is_zero timeout then gave_up q else blocked
    else finish (pop_head_locked q)
wait_loop timeout gen q (w ∷ ws) =
    let again : Waited = wait_loop timeout gen w.queue ws in
    if q.count == 0
    then if is_zero timeout
      then gave_up q
      else if gives_up timeout gen w
      then gave_up w.queue
      else again
    else finish (pop_head_locked q)

unfoldable pub pop_wait : Queue → ℤ → List Wake → Waited
unfolding wait_loop
pop_wait q timeout ws = wait_loop timeout q.wake_generation q ws

-- With a time limit of 0 the call never waits: it is a plain pop.
pub pop_wait_zero :
    (q : Queue) (ws : List Wake) → pop_wait q (pos 0) ws ≡ finish (pop_head_locked q)
unfolding pop_wait pop_head_locked
pop_wait_zero q [] = ground arith
pop_wait_zero q (w ∷ ws) = ground arith

-- A wake-up by `wake_all` with nothing queued ends the wait at once, with and without a time limit.
pub pop_wait-wake_all :
    (q r : Queue) (timeout : ℤ) (signaled : Bool) (ws : List Wake)
    → q.count ≡ 0
    → timeout ≢ pos 0
    → r.count ≡ 0
    → r.wake_generation ≡ q.wake_generation
    → q.wake_generation < 2 ^ 32
    → pop_wait q timeout (record { signaled = signaled; queue = wake_all r } ∷ ws)
      ≡ gave_up (wake_all r)
unfolding pop_wait wake_all
pop_wait-wake_all q r (pos n) signaled ws e z f g h = ground arith
pop_wait-wake_all q r (negsuc n) signaled ws e z f g h = ground arith
