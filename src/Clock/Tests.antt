-- ===== src/Clock/Tests.antt =====
-- The clock's theorems at concrete times.
use rel4u.Prelude.{◌+◌, ◌*◌, ◌/◌, ◌^◌, ◌≤◌, ◌<◌, ◌≡◌, refl, false, arith}
use rel4u.Prelude.Int.{pos}
use rel4u.Clock.{Timeval, perf_now_ns, sleep_time, deadline, cond_timedwait_ms}
use rel4u.Clock.Bounds.{total_ns, waits_lem, perf_now_ns_lem}

-- 999.999 milliseconds after a full second.
abbrev late : Timeval
late = record { tv_sec = 1700000000; tv_usec = 999999 }

-- The wait ends with a time-out.
timed_out : cond_timedwait_ms (λ until. pos 110) late 10 ≡ false
unfolding cond_timedwait_ms
timed_out = refl

waits_lem_example :
    ((sleep_time 1500).tv_nsec < 1000000000)
    × (total_ns (sleep_time 1500) ≡ 1500 * 1000000)
    × ((deadline late 1500).tv_nsec < 1000000000)
    × (total_ns (deadline late 1500) ≡ 1700000000 * 1000000000 + 999999 * 1000 + 1500 * 1000000)
waits_lem_example = waits_lem late 1500 (omega arith) (omega arith)

-- At 10 MHz the clock goes back after about half an hour.
perf_now_ns_lem_example :
    (perf_now_ns 18446744073 10000000 ≡ 18446744073 * 1000000000 / 10000000)
    × (perf_now_ns 50000000000 10000000 * 10000000 < 2 ^ 64)
    × (18446744073 < 18446744074)
    × (perf_now_ns 18446744074 10000000 ≤ perf_now_ns 18446744073 10000000)
perf_now_ns_lem_example =
    perf_now_ns_lem 18446744073 18446744074 50000000000 10000000 (omega arith) (omega arith)
      (omega arith) (omega arith)
