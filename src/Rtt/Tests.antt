-- ===== src/Rtt/Tests.antt =====
-- The estimator's theorems at concrete values.
use rel4u.Prelude.{◌+◌, ◌*◌, ◌/◌, ◌≡◌, true, max, arith, if◌then◌else◌}
use rel4u.Rtt.{Rtt, clamp_rto, update_sample}
use rel4u.Rtt.Bounds.{IsBounded, distance, update_sample_lem}

-- A round trip of 40 ms, with its variation, and a timeout of 100 ms.
abbrev settled : Rtt
settled = record {
  srtt_ms = 40;
  rttvar_ms = 15;
  rto_ms = 100;
  min_rto_ms = 20;
  max_rto_ms = 2000;
  has_sample = true;
}

settled-IsBounded : IsBounded 2000 settled
settled-IsBounded = record {
  some_room = omega arith;
  no_wrap = omega arith;
  srtt_le = omega arith;
  rttvar_le = omega arith;
}

update_sample_lem_example :
    let q = update_sample settled 56 in
    IsBounded 2000 q
    × (q.srtt_ms ≡ (if settled.has_sample then (7 * settled.srtt_ms + 56) / 8 else 56))
    × (q.rttvar_ms ≡ (
        if settled.has_sample
        then max 1 ((3 * settled.rttvar_ms + distance settled.srtt_ms 56) / 4)
        else max 1 (56 / 2)))
    × (q.rto_ms ≡ clamp_rto (q.srtt_ms + 4 * q.rttvar_ms) settled.min_rto_ms settled.max_rto_ms)
update_sample_lem_example = update_sample_lem 2000 settled 56 settled-IsBounded (omega arith)
