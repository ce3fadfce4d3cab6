-- ===== src/Stats.antt =====
-- `rel4u_stats_t` of include/rel4u.h.
use rel4u.Prelude.{ℕ}

pub record Stats : Type 0 where
  pub bytes_sent : ℕ
  pub bytes_recv : ℕ
  pub packets_sent : ℕ
  pub packets_recv : ℕ
  pub packets_lost : ℕ
  pub packets_retransmitted : ℕ
  pub packets_dropped_queue_full : ℕ
  pub current_rtt_ms : ℕ
  pub current_rto_ms : ℕ
  pub active_connections : ℕ
  pub send_queue_occupancy : ℕ
  pub recv_queue_occupancy : ℕ
  pub send_queue_bytes : ℕ
  pub recv_queue_bytes : ℕ

-- `memset(&stats, 0, sizeof(stats))`.
abbrev pub no_stats : Stats
no_stats = record {
  bytes_sent = 0;
  bytes_recv = 0;
  packets_sent = 0;
  packets_recv = 0;
  packets_lost = 0;
  packets_retransmitted = 0;
  packets_dropped_queue_full = 0;
  current_rtt_ms = 0;
  current_rto_ms = 0;
  active_connections = 0;
  send_queue_occupancy = 0;
  recv_queue_occupancy = 0;
  send_queue_bytes = 0;
  recv_queue_bytes = 0;
}
