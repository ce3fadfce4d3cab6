-- ===== src/Session/Lookup.antt =====
-- Setting up the table, and finding sessions in it.
use mathlib.Core.Option
use rel4u.Prelude.{
  ℕ, zero, suc, ◌+◌, ◌^◌, ◌<◌, ◌≡◌, refl, sym, ap, ◌∙◌, Bool, true, false, ◌&&◌, ◌||◌, List, [],
  ◌∷◌, none, some, ◌⊎◌, inl, inr, if_false, arith, ◌==◌, length,
}
use rel4u.Net.{Addr, addr_equal}
use rel4u.Window.Index.{bad_capacity}
use rel4u.Window.Send
use rel4u.Window.Recv
use rel4u.Session.{
  ClientSession, SessionTable, MaxClientsPolicy, is_active, zero_session, default_rtt, init_loop,
  table_init, empty_table, session_at, find_by_addr,
}
use rel4u.Session.Inv.{active, Ids, IsTable, NoneIs, first-cases}

abbrev pub all_memory : ℕ → Bool × Bool
all_memory i = (true, true)

-- What the loop of `table_init` makes with all the memory it asks for.
abbrev blank : ℕ → ℕ → ℕ → List ClientSession
blank window_size i zero = []
blank window_size i (suc n) =
    record zero_session {
      client_id = i;
      send_win = Send.fresh window_size 1;
      recv_win = Recv.fresh window_size 1;
      rtt = default_rtt;
    }
    ∷ blank window_size (i + 1) n

send_init :
    (window_size : ℕ)
    → bad_capacity window_size ≡ false
    → Send.init true window_size 1 ≡ some (Send.fresh window_size 1)
unfolding Send.init
send_init window_size e = if_false _ _ e

recv_init :
    (window_size : ℕ)
    → bad_capacity window_size ≡ false
    → Recv.init true window_size 1 ≡ some (Recv.fresh window_size 1)
unfolding Recv.init
recv_init window_size e = if_false _ _ e

init_loop-blank :
    (window_size i n : ℕ)
    → bad_capacity window_size ≡ false
    → init_loop all_memory window_size i n ≡ some (blank window_size i n)
unfolding init_loop
init_loop-blank window_size i zero e = refl
init_loop-blank window_size i (suc n) e =
    rw (send_init window_size e, recv_init window_size e, init_loop-blank window_size (i + 1) n e)
      refl

blank_lem :
    (window_size i n : ℕ)
    → (length (blank window_size i n) ≡ n)
      × (active (blank window_size i n) ≡ 0)
      × Ids i (blank window_size i n)
blank_lem window_size i zero = (refl, refl, tt)
blank_lem window_size i (suc n) =
    let q = blank_lem window_size (i + 1) n in (ap suc q.0, omega (arith, q.1), (refl, q.2))

-- For at least one client, less than 2 ^ 31 of them, and a window size that the windows accept, the
-- table is set up if there is memory for it: it is valid and has no session in use.
pub table_init-IsTable :
    (max_clients window_size : ℕ) (policy : MaxClientsPolicy)
    → 0 < max_clients
    → max_clients < 2 ^ 31
    → bad_capacity window_size ≡ false
    → (t : SessionTable) × (table_init true all_memory max_clients policy window_size ≡ some t)
      × IsTable t
      × (t.active_count ≡ 0)
unfolding table_init
table_init-IsTable max_clients window_size policy p l e =
    let q = blank_lem window_size 0 max_clients in
    (
      _,
      if_false {b = max_clients == 0 || bad_capacity window_size} _ _ (ground (arith, e))
          ∙ ap (Option.map (empty_table max_clients policy))
              (init_loop-blank window_size 0 max_clients e),
      record { storage = q.0; counted = sym q.1; ids = q.2; fits = l },
      refl,
    )

-- A search by address finds the index of a session in use that has this address, or there is none.
pub find_by_addr_lem :
    (af_inet af_inet6 : ℕ) (t : SessionTable) (addr : Addr)
    → ((find_by_addr af_inet af_inet6 t addr ≡ none)
        × NoneIs (λ s. is_active s && addr_equal af_inet af_inet6 s.addr addr) t.sessions)
      ⊎ ((k : ℕ) × (find_by_addr af_inet af_inet6 t addr ≡ some k)
          × (k < length t.sessions)
          × (is_active (session_at t k) ≡ true)
          × (addr_equal af_inet af_inet6 (session_at t k).addr addr ≡ true))
unfolding find_by_addr
find_by_addr_lem af_inet af_inet6 t addr =
    elim (first-cases (λ s. is_active s && addr_equal af_inet af_inet6 s.addr addr) 0 t.sessions) [
      | inl q ↦ inl q
      | inr (k, q, l, f) ↦ inr (k, q ∙ ap some (omega arith), l, ground arith, ground arith)
    ]
