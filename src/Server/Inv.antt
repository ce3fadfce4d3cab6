-- ===== src/Server/Inv.antt =====
-- The server's table of sessions, with the windows and estimators in it, stays valid.
use rel4u.Prelude.{
  ℕ, zero, suc, ◌+◌, ◌<◌, ◌≡◌, sym, ap, subst, ◌∙◌, Bool, true, false, List, [], ◌∷◌, Option, none,
  some, ◌⊎◌, inl, inr, if_false, if_intro, arith, ◌==◌, if◌then◌else◌, length, get_or, set,
}
use rel4u.Net.{Addr}
use rel4u.Window.Index.{IsCapacity, IsCapacity-bad_capacity}
use rel4u.Window.Send.{zero_slot, AckState, push, can_send, on_ack, get_expired}
use rel4u.Window.Send
use rel4u.Window.Send.Inv.{IsSendWindow}
use rel4u.Window.Recv
use rel4u.Window.Recv.Inv.{IsRecvWindow}
use rel4u.Window.Fresh.{empty-IsSendWindow, empty-IsRecvWindow}
use rel4u.Session.{
  ClientSession, SessionTable, is_active, zero_session, admitted, session_at, find_by_addr,
  find_by_id, allocate, free,
}
use rel4u.Session.Inv.{IsTable}
use rel4u.Session.Allocate.{
  gets, Outcome, allocate_lem, allocate-IsTable, put_session-IsTable, free-IsTable,
}
use rel4u.Session.Lookup.{find_by_addr_lem}
use rel4u.Endpoint.Link.{IsLink, default_rtt-IsValid}
use rel4u.Server.{Server, session_of, put}
use rel4u.Server.Worker.{}

abbrev pub IsSession : ClientSession → Type 0
IsSession x = IsLink x.send_win x.recv_win x.rtt

abbrev pub AllSessions : List ClientSession → Type 0
AllSessions [] = Unit {0}
AllSessions (x ∷ xs) = IsSession x × AllSessions xs

-- A server for `n` clients.
pub record IsServer (n : ℕ) (s : Server) : Type 0 where
  pub table_valid : IsTable s.session_table
  pub sessions_valid : AllSessions s.session_table.sessions
  pub room : s.session_table.max_clients ≡ n

AllSessions-get :
    (ss : List ClientSession) (k : ℕ)
    → AllSessions ss
    → k < length ss
    → IsSession (get_or ss k zero_session)
AllSessions-get [] k h l = absurd (omega arith)
AllSessions-get (x ∷ ss) zero h l = h.0
AllSessions-get (x ∷ ss) (suc k) h l = AllSessions-get ss k h.1 (omega arith)

AllSessions-set :
    (ss : List ClientSession) (k : ℕ) (x : ClientSession)
    → AllSessions ss
    → IsSession x
    → AllSessions (set ss k x)
AllSessions-set [] k x h v = tt
AllSessions-set (s ∷ ss) zero x h v = (v, h.1)
AllSessions-set (s ∷ ss) (suc k) x h v = (h.0, AllSessions-set ss k x h.1 v)

module _ (n : ℕ) (s : Server) (v : IsServer n s) (i : ℕ) (l : i < n) where
  inside : i < length s.session_table.sessions
  inside = omega (arith, v.table_valid.storage, v.room)

  pub session_of-IsSession : IsSession (session_of s i)
  session_of-IsSession = AllSessions-get s.session_table.sessions i v.sessions_valid inside

  -- A session in place of another with the same identifier, both in use or neither.
  pub put-IsServer :
      (x : ClientSession)
      → IsSession x
      → x.client_id ≡ (session_of s i).client_id
      → is_active x ≡ is_active (session_of s i)
      → IsServer n (put s i x)
  put-IsServer x w e a = record {
    table_valid =
        put_session-IsTable s.session_table i s.session_table.active_count x v.table_valid inside e
          (ap (λ (b : Bool). s.session_table.active_count + (if b then 1 else 0)) (sym a));
    sessions_valid = AllSessions-set s.session_table.sessions i x v.sessions_valid w;
    room = v.room;
  }

  pub free-IsServer : IsServer n (record s { session_table = free s.session_table i })
  unfolding free
  free-IsServer = record {
    table_valid = (free-IsTable s.session_table i 0 v.table_valid inside).0;
    sessions_valid =
        if_intro (λ (t : SessionTable). AllSessions t.sessions) (is_active (session_of s i))
          (λ e. AllSessions-set s.session_table.sessions i _ v.sessions_valid session_of-IsSession)
          (λ e. v.sessions_valid);
    room =
        if_intro (λ (t : SessionTable). t.max_clients ≡ n) (is_active (session_of s i))
          (λ e. v.room) (λ e. v.room);
  }

-- The windows of a new client, if there is memory for them, have the size of those before.
module _ (c : ℕ) (v : IsCapacity c) where
  abbrev size_or_default : ℕ
  size_or_default = if c == 0 then 64 else c

  same_size : size_or_default ≡ c
  same_size = let l = v.at_least in if_false {b = c == 0} 64 c (ground arith)

  pub send_init_again : Send.init true size_or_default 1 ≡ some (Send.fresh c 1)
  unfolding Send.init
  send_init_again =
      ap (λ k. Send.init true k 1) same_size ∙ if_false _ _ (IsCapacity-bad_capacity c v)

  pub recv_init_again : Recv.init true size_or_default 1 ≡ some (Recv.fresh c 1)
  unfolding Recv.init
  recv_init_again =
      ap (λ k. Recv.init true k 1) same_size ∙ if_false _ _ (IsCapacity-bad_capacity c v)

pub admitted-IsSession :
    (x : ClientSession) (addr : Addr) (session_id : ℕ)
    → IsSession x
    → IsSession (admitted (true, true) x addr session_id)
unfolding admitted
admitted-IsSession x addr session_id v =
    let c = x.send_win.capacity in
    let k = v.send_valid.cap_valid in
    record {
      send_valid =
          subst
            (λ (o : Option Send.SendWindow).
              IsSendWindow (elim o [ none ↦ Send.destroy x.send_win | some w ↦ w ]))
            (sym (send_init_again c k)) (empty-IsSendWindow c 1 k (omega arith));
      recv_valid =
          subst
            (λ (o : Option Recv.RecvWindow).
              IsRecvWindow (elim o [ none ↦ Recv.destroy x.recv_win | some w ↦ w ]))
            (sym (recv_init_again c k)) (empty-IsRecvWindow c 1 k (omega arith));
      rtt_valid = default_rtt-IsValid;
    }

-- What allocating a session comes to.
pub allocate-cases :
    (mem : Bool × Bool) (t : SessionTable) (addr : Addr) (session_id : ℕ)
    → IsTable t
    → (allocate mem t addr session_id ≡ (none, t, false))
      ⊎ ((k : ℕ) × (count : ℕ) × (evicted : Bool) × (k < length t.sessions)
          × (allocate mem t addr session_id ≡ gets mem t addr session_id k count evicted))
allocate-cases mem t addr session_id v = elim (allocate_lem mem t addr session_id v) [
  | inl (l, k, p, f, e) ↦ inr (k, t.active_count + 1, false, p, e)
  | inr (inl (l, q, e)) ↦ inl e
  | inr (inr (inl (l, q, k, p, a, n, e))) ↦ inr (k, t.active_count, true, p, e)
  | inr (inr (inr (l, q, n, e))) ↦ inl e
]

pub allocate-IsServer :
    (n : ℕ) (s : Server) (addr : Addr) (session_id : ℕ)
    → IsServer n s
    → IsServer n
        (record s { session_table = (allocate (true, true) s.session_table addr session_id).1 })
allocate-IsServer n s addr session_id v =
    let t = s.session_table in
    let good = allocate-IsTable (true, true) t addr session_id v.table_valid in
    let Rest = λ (o : Outcome). AllSessions o.1.sessions × (o.1.max_clients ≡ n) in
    let rest : Rest (allocate (true, true) t addr session_id) =
      elim (allocate-cases (true, true) t addr session_id v.table_valid) [
        | inl e ↦ subst Rest (sym e) (v.sessions_valid, v.room)
        | inr (k, count, evicted, p, e) ↦ subst Rest (sym e) (
          AllSessions-set t.sessions k _ v.sessions_valid (
              admitted-IsSession (session_at t k) addr session_id
                (AllSessions-get t.sessions k v.sessions_valid p)),
          v.room,
        )
      ] in
    record { table_valid = good; sessions_valid = rest.0; room = rest.1 }

-- The index that allocating a session answers.
pub allocate-lt :
    (mem : Bool × Bool) (t : SessionTable) (addr : Addr) (session_id i : ℕ)
    → IsTable t
    → (allocate mem t addr session_id).0 ≡ some i
    → i < t.max_clients
allocate-lt mem t addr session_id i v e = elim (allocate-cases mem t addr session_id v) [
  | inl f ↦ let g = ap (λ (o : Outcome). o.0) f in absurd (ground (arith, e, g))
  | inr (k, count, evicted, p, f) ↦
      let g = ap (λ (o : Outcome). o.0) f in ground (arith, e, g, p, v.storage)
]

pub find_by_addr-lt :
    (af_inet af_inet6 : ℕ) (t : SessionTable) (addr : Addr) (i : ℕ)
    → IsTable t
    → find_by_addr af_inet af_inet6 t addr ≡ some i
    → i < t.max_clients
find_by_addr-lt af_inet af_inet6 t addr i v e = elim (find_by_addr_lem af_inet af_inet6 t addr) [
  | inl f ↦ let g = f.0 in absurd (ground (arith, e, g))
  | inr (k, f, l, a, q) ↦ ground (arith, e, f, l, v.storage)
]

pub find_by_id-lt :
    (t : SessionTable) (client_id i : ℕ) → find_by_id t client_id ≡ some i → i < t.max_clients
unfolding find_by_id
find_by_id-lt t client_id i e = ground arith
