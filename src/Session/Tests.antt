-- ===== src/Session/Tests.antt =====
-- The table's theorems at concrete tables.
use rel4u.Prelude.{ℕ, ◌≡◌, refl, true, [], ◌∷◌, some, ◌⊎◌, arith}
use rel4u.Net.{Addr}
use rel4u.Session.{
  ClientSession, SessionTable, connected, disconnected, reject, drop_old, is_active, zero_session,
  session_at, table_init, allocate, free, touch_lru, find_by_addr,
}
use rel4u.Session.Inv.{IsTable}
use rel4u.Session.Allocate.{FreeSlot, Rejected, Evicted, NoVictim, allocate_lem}

abbrev home : ℕ → Addr
home port = record { ss_family = 2; sin_port = port; sin_addr = 127; sin6_port = 0; sin6_addr = [] }

abbrev client : ℕ → ℕ → ClientSession
client i time = record zero_session {
  client_id = i;
  session_id = 77;
  addr = home i;
  state = connected;
  last_activity_ns = time;
}

-- Two clients, the second of which was active earlier.
abbrev full : SessionTable
full = record {
  sessions = client 0 90 ∷ client 1 40 ∷ [];
  max_clients = 2;
  active_count = 2;
  full_policy = drop_old;
}

full-IsTable : IsTable full
full-IsTable = record {
  storage = refl;
  counted = refl;
  ids = (refl, (refl, tt));
  fits = omega arith;
}

allocate_lem_example :
    FreeSlot (true, true) full (home 9) 5
    ⊎ (Rejected (true, true) full (home 9) 5
        ⊎ Evicted (true, true) full (home 9) 5
        ⊎ NoVictim (true, true) full (home 9) 5)
allocate_lem_example = allocate_lem (true, true) full (home 9) 5 full-IsTable

-- The second client is evicted.
evicts : (allocate (true, true) full (home 9) 5).0 ≡ some 1
unfolding allocate rel4u.Session.allocate_at rel4u.Session.choose_slot rel4u.Session.victim
    rel4u.Session.oldest_loop
evicts = refl
