-- ===== src/Clock.antt =====
-- The clock of src/platform/rel4u_time.c, and the time limit that src/platform/rel4u_threads.c gives
-- to the wait on a condition.
pub mod Bounds
mod Tests
use rel4u.Prelude.{ℕ, ◌+◌, ◌*◌, ◌/◌, ◌%◌, ◌^◌, Bool}
use rel4u.Prelude.Int.{ℤ, is_zero}

-- `struct timespec`, for times that are not negative.
pub record Timespec : Type 0 where
  pub tv_sec : ℕ
  pub tv_nsec : ℕ

-- `struct timeval`.
pub record Timeval : Type 0 where
  pub tv_sec : ℕ
  pub tv_usec : ℕ

-- `rel4u_time_now_ns` from what `clock_gettime` stores.
unfoldable pub now_ns : Timespec → ℕ
now_ns ts = (ts.tv_sec * 1000000000 % 2 ^ 64 + ts.tv_nsec) % 2 ^ 64

-- The same on Windows, from the performance counter and its frequency.
unfoldable pub perf_now_ns : ℕ → ℕ → ℕ
perf_now_ns counter frequency = counter * 1000000000 % 2 ^ 64 / frequency

-- `rel4u_time_now_ms` from the nanoseconds.
unfoldable pub now_ms : ℕ → ℕ
now_ms ns = ns / 1000000

-- What `rel4u_time_sleep_ms` gives to `nanosleep`.
unfoldable pub sleep_time : ℕ → Timespec
sleep_time ms = record { tv_sec = ms / 1000; tv_nsec = ms % 1000 * 1000000 }

-- The point in time that `rel4u_cond_timedwait_ms` gives to `pthread_cond_timedwait`.
unfoldable pub deadline : Timeval → ℕ → Timespec
deadline tv timeout_ms =
    let ns = (tv.tv_usec * 1000 % 2 ^ 64 + timeout_ms * 1000000 % 2 ^ 64) % 2 ^ 64 in
    record { tv_sec = tv.tv_sec + ns / 1000000000; tv_nsec = ns % 1000000000 }

-- `rel4u_cond_timedwait_ms`, given the time of day and what `pthread_cond_timedwait` answers.
unfoldable pub cond_timedwait_ms : (Timespec → ℤ) → Timeval → ℕ → Bool
cond_timedwait_ms timedwait tv timeout_ms = is_zero (timedwait (deadline tv timeout_ms))
