-- ===== src/Rtt.antt =====
-- src/core/rel4u_rtt.h and src/core/rel4u_rtt.c: the round-trip estimator.
pub mod Bounds
mod Tests
use rel4u.Prelude.{ℕ, ◌+◌, ◌-◌, ◌*◌, ◌/◌, ◌%◌, ◌^◌, Bool, true, false, ltb, if◌then◌else◌}
use rel4u.Prelude.Int.{ℤ, pos_part, neg_part, to_int32}

-- `rel4u_rtt_t`; the numbers are `uint32_t`.
pub record Rtt : Type 0 where
  pub srtt_ms : ℕ
  pub rttvar_ms : ℕ
  pub rto_ms : ℕ
  pub min_rto_ms : ℕ
  pub max_rto_ms : ℕ
  pub has_sample : Bool

abbrev pub default_rto_ms : ℕ
default_rto_ms = 200

abbrev pub default_min_rto_ms : ℕ
default_min_rto_ms = 20

abbrev pub default_max_rto_ms : ℕ
default_max_rto_ms = 2000

-- The two tests that end `rel4u_rtt_init` and `rel4u_rtt_update_sample`, in their order.
unfoldable pub clamp_rto : ℕ → ℕ → ℕ → ℕ
clamp_rto rto lo hi = let r = if ltb rto lo then lo else rto in if ltb hi r then hi else r

unfoldable pub init : ℕ → ℕ → ℕ → Rtt
init initial_rto_ms min_rto_ms max_rto_ms =
    let lo = if ltb 0 min_rto_ms then min_rto_ms else default_min_rto_ms in
    let hi = if ltb 0 max_rto_ms then max_rto_ms else default_max_rto_ms in
    let rto = if ltb 0 initial_rto_ms then initial_rto_ms else default_rto_ms in
    record {
      srtt_ms = 0;
      rttvar_ms = 0;
      rto_ms = clamp_rto rto lo hi;
      min_rto_ms = lo;
      max_rto_ms = hi;
      has_sample = false;
    }

-- `diff = (int32_t)a - (int32_t)b; if (diff < 0) diff = -diff;`, read back as `uint32_t`.
unfoldable pub abs_diff : ℕ → ℕ → ℕ
abs_diff a b =
    let x = pos_part (to_int32 a) + neg_part (to_int32 b) in
    let y = neg_part (to_int32 a) + pos_part (to_int32 b) in
    (if ltb x y then y - x else x - y) % 2 ^ 32

-- `if (x < 1) x = 1;`
abbrev pub at_least_one : ℕ → ℕ
at_least_one x = if ltb x 1 then 1 else x

-- The new variation and smoothed time; the sums and products are `uint32_t`.
unfoldable pub rttvar_after : Rtt → ℕ → ℕ
rttvar_after r sample = at_least_one (
    if r.has_sample then (3 * r.rttvar_ms + abs_diff r.srtt_ms sample) % 2 ^ 32 / 4 else sample / 2)

unfoldable pub srtt_after : Rtt → ℕ → ℕ
srtt_after r sample = if r.has_sample then (7 * r.srtt_ms + sample) % 2 ^ 32 / 8 else sample

unfoldable pub update_sample : Rtt → ℕ → Rtt
update_sample r sample =
    let var = rttvar_after r sample in
    let srtt = srtt_after r sample in
    record {
      srtt_ms = srtt;
      rttvar_ms = var;
      rto_ms =
          clamp_rto ((srtt + at_least_one (4 * var % 2 ^ 32)) % 2 ^ 32) r.min_rto_ms r.max_rto_ms;
      min_rto_ms = r.min_rto_ms;
      max_rto_ms = r.max_rto_ms;
      has_sample = true;
    }

unfoldable pub on_timeout : Rtt → Rtt
on_timeout r =
    let doubled = r.rto_ms * 2 % 2 ^ 32 in
    record r { rto_ms = if ltb r.max_rto_ms doubled then r.max_rto_ms else doubled }

unfoldable pub get_rto : Rtt → ℕ
get_rto r = r.rto_ms
