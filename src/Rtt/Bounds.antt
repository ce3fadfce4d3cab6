-- ===== src/Rtt/Bounds.antt =====
-- The range of the timeout, and the sizes of the sums that the estimator computes.
use rel4u.Prelude.{
  ℕ, zero, suc, refl, ◌∙◌, ◌%◌, ltb, if◌then◌else◌, ◌+◌, ◌-◌, ◌*◌, ◌/◌, ◌^◌, ◌≤◌, ◌<◌, ◌≡◌, max,
  min, arith,
}
use native.Mathlib.Nat.{one-le-pow, pow-suc, mul-le-mul_left, mul-le-mul_right}
use native.Mathlib.Decide.{dec_le}
use rel4u.Rtt.{
  at_least_one, Rtt, init, update_sample, on_timeout, rttvar_after, srtt_after, clamp_rto, abs_diff,
  default_rto_ms,
}

-- The limits of the timeout are in order and small enough to be doubled, and the timeout is
-- between them.
pub record IsValid (r : Rtt) : Type 0 where
  pub min_pos : 0 < r.min_rto_ms
  pub ordered : r.min_rto_ms ≤ r.max_rto_ms
  pub small : r.max_rto_ms ≤ 2 ^ 31 - 1
  pub above : r.min_rto_ms ≤ r.rto_ms
  pub below : r.rto_ms ≤ r.max_rto_ms

clamp_rto_bounds :
    (rto lo hi : ℕ) → lo ≤ hi → (lo ≤ clamp_rto rto lo hi) × (clamp_rto rto lo hi ≤ hi)
unfolding clamp_rto
clamp_rto_bounds rto lo hi h = ground arith

-- Starting values whose effective limits are in order and below 2 ^ 31 give a valid estimator.
pub init-IsValid :
    (rto lo hi : ℕ)
    → (init rto lo hi).min_rto_ms ≤ (init rto lo hi).max_rto_ms
    → (init rto lo hi).max_rto_ms < 2 ^ 31
    → IsValid (init rto lo hi)
unfolding init
init-IsValid rto lo hi h k =
    let b =
      clamp_rto_bounds (if ltb 0 rto then rto else default_rto_ms) (init rto lo hi).min_rto_ms
        (init rto lo hi).max_rto_ms h in
    record { min_pos = ground arith; ordered = h; small = omega arith; above = b.0; below = b.1 }

-- Every sample keeps the estimator valid: the timeout stays between its limits, whatever the sample.
pub update_sample-IsValid : (r : Rtt) (sample : ℕ) → IsValid r → IsValid (update_sample r sample)
unfolding update_sample
update_sample-IsValid r sample v =
    let b = clamp_rto_bounds _ r.min_rto_ms r.max_rto_ms v.ordered in
    record { min_pos = v.min_pos; ordered = v.ordered; small = v.small; above = b.0; below = b.1 }

pub on_timeout-IsValid : (r : Rtt) → IsValid r → IsValid (on_timeout r)
unfolding on_timeout
on_timeout-IsValid r v = ground arith

max-on_timeout : (r : Rtt) → (on_timeout r).max_rto_ms ≡ r.max_rto_ms
unfolding on_timeout
max-on_timeout r = refl

-- A timeout of a valid estimator doubles the interval, up to the limit, without a wrap, and keeps
-- the estimator valid and its estimates as they are.
pub on_timeout_backoff :
    (r : Rtt)
    → IsValid r
    → ((on_timeout r).rto_ms ≡ min (2 * r.rto_ms) r.max_rto_ms)
      × IsValid (on_timeout r)
      × ((on_timeout r).srtt_ms ≡ r.srtt_ms)
      × ((on_timeout r).rttvar_ms ≡ r.rttvar_ms)
unfolding on_timeout
on_timeout_backoff r v = (ground arith, on_timeout-IsValid r v, refl, refl)

-- Repeated timeouts.
unfoldable pub timeouts : ℕ → Rtt → Rtt
timeouts zero r = r
timeouts (suc n) r = timeouts n (on_timeout r)

min_scale : (p x m : ℕ) → 1 ≤ p → min (p * min (2 * x) m) m ≡ min (2 * p * x) m
min_scale p x m h = elim (dec_le (2 * x) m) [
  | yes k ↦ let e : min (2 * x) m ≡ 2 * x = omega arith in rw e (omega arith)
  | no k ↦
      let e : min (2 * x) m ≡ m = omega arith in
      let f : m ≤ p * m = omega (arith, mul-le-mul_right m h) in
      let g : p * m ≤ p * (2 * x) = mul-le-mul_left p (omega arith) in rw e (omega arith)
]

-- `n` timeouts in a row multiply the interval by 2 ^ n, up to the limit.
pub timeouts_backoff :
    (n : ℕ) (r : Rtt) → IsValid r → (timeouts n r).rto_ms ≡ min (2 ^ n * r.rto_ms) r.max_rto_ms
unfolding timeouts
timeouts_backoff zero r v = omega arith
timeouts_backoff (suc n) r v =
    let e = (on_timeout_backoff r v).0 in
    let m : (on_timeout r).max_rto_ms ≡ r.max_rto_ms = max-on_timeout r in
    let ih = timeouts_backoff n (on_timeout r) (on_timeout-IsValid r v) in
    ih
    ∙ rw (e, m)
        (min_scale (2 ^ n) r.rto_ms r.max_rto_ms (one-le-pow n 2 (omega arith))
          ∙ rw (pow-suc 2 n) (omega arith))

-- The estimates lie below a bound that the sums can take eight times.
pub record IsBounded (b : ℕ) (r : Rtt) : Type 0 where
  pub some_room : 1 ≤ b
  pub no_wrap : b ≤ 2 ^ 28
  pub srtt_le : r.srtt_ms ≤ b
  pub rttvar_le : r.rttvar_ms ≤ b

-- |srtt - sample|
abbrev pub distance : ℕ → ℕ → ℕ
distance a c = max (a - c) (c - a)

abs_diff-distance : (a c : ℕ) → a < 2 ^ 31 → c < 2 ^ 31 → abs_diff a c ≡ distance a c
unfolding abs_diff
abs_diff-distance a c h k = ground arith

srtt_after_lem :
    (b : ℕ) (r : Rtt) (sample : ℕ)
    → IsBounded b r
    → sample ≤ b
    → (srtt_after r sample ≡ (if r.has_sample then (7 * r.srtt_ms + sample) / 8 else sample))
      × (srtt_after r sample ≤ b)
unfolding srtt_after
srtt_after_lem b r sample v h = ground arith

rttvar_after_lem :
    (b : ℕ) (r : Rtt) (sample : ℕ)
    → IsBounded b r
    → sample ≤ b
    → (rttvar_after r sample ≡ (
        if r.has_sample
        then max 1 ((3 * r.rttvar_ms + distance r.srtt_ms sample) / 4)
        else max 1 (sample / 2)))
      × (1 ≤ rttvar_after r sample)
      × (rttvar_after r sample ≤ b)
unfolding rttvar_after
rttvar_after_lem b r sample v h =
    ground (arith, abs_diff-distance r.srtt_ms sample (omega arith) (omega arith))

-- For samples below a bound of at most 2 ^ 28 no sum or product of the estimator wraps: the
-- estimates stay below the bound, and follow the formulas SRTT' = (7 SRTT + R) / 8,
-- RTTVAR' = max(1, (3 RTTVAR + |SRTT - R|) / 4) and RTO' = SRTT' + 4 RTTVAR', put between the limits;
-- the first sample R sets SRTT' = R and RTTVAR' = max(1, R / 2).
pub update_sample_lem :
    (b : ℕ) (r : Rtt) (sample : ℕ)
    → IsBounded b r
    → sample ≤ b
    → let q = update_sample r sample in
      IsBounded b q
      × (q.srtt_ms ≡ (if r.has_sample then (7 * r.srtt_ms + sample) / 8 else sample))
      × (q.rttvar_ms ≡ (
          if r.has_sample
          then max 1 ((3 * r.rttvar_ms + distance r.srtt_ms sample) / 4)
          else max 1 (sample / 2)))
      × (q.rto_ms ≡ clamp_rto (q.srtt_ms + 4 * q.rttvar_ms) r.min_rto_ms r.max_rto_ms)
unfolding update_sample
update_sample_lem b r sample v h =
    let s = srtt_after_lem b r sample v h in
    let t = rttvar_after_lem b r sample v h in
    let e : (srtt_after r sample + at_least_one (4 * rttvar_after r sample % 2 ^ 32)) % 2 ^ 32
        ≡ srtt_after r sample + 4 * rttvar_after r sample =
      ground (arith, s, t) in
    (
      record { some_room = v.some_room; no_wrap = v.no_wrap; srtt_le = s.1; rttvar_le = t.2 },
      s.0,
      t.0,
      rw e,
    )
