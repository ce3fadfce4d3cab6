-- ===== src/Session/Allocate.antt =====
-- Which session a new client gets, and what becomes of the table.
use native.Mathlib.Decide.{dec_lt}
use rel4u.Prelude.{
  ℕ, ◌+◌, ◌-◌, ◌^◌, ◌≤◌, ◌<◌, ◌≡◌, refl, sym, ap, ap₂, subst, ◌∙◌, Bool, true, false, not, List, [],
  ◌∷◌, Option, none, some, ◌⊎◌, inl, inr, if_true, if_false, if_intro, arith, ltb, if◌then◌else◌,
  length, length-set,
}
use rel4u.Seq.{add32, sub32}
use rel4u.Net.{Addr}
use rel4u.Session.{
  ClientSession, SessionTable, MaxClientsPolicy, disconnected, reject, drop_old, is_active,
  zero_session, oldest_loop, choose_slot, victim, allocate_at, admitted, put_session, session_at,
  allocate, touch_lru, free,
}
use rel4u.Session.Inv.{
  active, IsTable, active-le-length, active-set, Ids-set, get_or-inside, NoneIs, first-cases,
  NoneOlder, oldest_loop-cases,
}

-- A table in which all sessions are in use has no free one.
NoneIs-active :
    (ss : List ClientSession) → NoneIs (λ s. not (is_active s)) ss → active ss ≡ length ss
NoneIs-active [] h = refl
NoneIs-active (s ∷ ss) h =
    let e : is_active s ≡ true = ground (arith, h.0) in
    omega (arith, if_true {A = ℕ} 1 0 e, NoneIs-active ss h.1)

again : (n : ℕ) → 0 < n → n < 2 ^ 31 → add32 (sub32 n 1) 1 ≡ n
again n p l = omega arith

abbrev pub Outcome : Type 0
Outcome = Option ℕ × SessionTable × Bool

module _ (mem : Bool × Bool) (t : SessionTable) (addr : Addr) (session_id : ℕ) where
  -- The client gets session `k`.
  abbrev pub gets : ℕ → ℕ → Bool → Outcome
  gets k count evicted = (
    some k,
    record (put_session t k (admitted mem (session_at t k) addr session_id)) {
      active_count = count;
    },
    evicted,
  )

  abbrev pub FreeSlot : Type 0
  FreeSlot =
      (t.active_count < t.max_clients)
      × (k : ℕ) × (k < length t.sessions)
      × (is_active (session_at t k) ≡ false)
      × (allocate mem t addr session_id ≡ gets k (t.active_count + 1) false)

  abbrev pub Rejected : Type 0
  Rejected =
      (t.max_clients ≤ t.active_count)
      × (t.full_policy ≡ reject)
      × (allocate mem t addr session_id ≡ (none, t, false))

  abbrev pub Evicted : Type 0
  Evicted =
      (t.max_clients ≤ t.active_count)
      × (t.full_policy ≡ drop_old)
      × (k : ℕ) × (k < length t.sessions)
      × (is_active (session_at t k) ≡ true)
      × NoneOlder (session_at t k).last_activity_ns t.sessions
      × (allocate mem t addr session_id ≡ gets k t.active_count true)

  abbrev pub NoVictim : Type 0
  NoVictim =
      (t.max_clients ≤ t.active_count)
      × (t.full_policy ≡ drop_old)
      × NoneOlder (2 ^ 64 - 1) t.sessions
      × (allocate mem t addr session_id ≡ (none, t, false))

  abbrev lru : Option ℕ
  lru = oldest_loop t.sessions 0 (2 ^ 64 - 1) none

  allocate-chosen :
      (k : ℕ) (evicted : Bool)
      → choose_slot t ≡ (some k, evicted)
      → allocate mem t addr session_id
        ≡ gets k (add32 (if evicted then sub32 t.active_count 1 else t.active_count) 1) evicted
  unfolding allocate allocate_at
  allocate-chosen k evicted e = ap (allocate_at mem t addr session_id) e

  allocate-none : choose_slot t ≡ (none, false) → allocate mem t addr session_id ≡ (none, t, false)
  unfolding allocate allocate_at
  allocate-none e = ap (allocate_at mem t addr session_id) e

  room : IsTable t → t.active_count < t.max_clients → FreeSlot
  unfolding choose_slot
  room v l = elim (first-cases (λ s. not (is_active s)) 0 t.sessions) [
    | inl (q, n) ↦ absurd (omega (arith, NoneIs-active t.sessions n, v.storage, v.counted))
    | inr (k, q, p, f) ↦
        let c : choose_slot t ≡ (some k, false) =
          if_true {b = ltb t.active_count t.max_clients} _ _ (ground arith)
          ∙ ap (λ (o : Option ℕ). (o, false)) (q ∙ ap some (omega arith)) in
        let n : add32 t.active_count 1 ≡ t.active_count + 1 = omega (arith, v.fits) in
        (l, k, p, ground arith, allocate-chosen k false c ∙ ap (λ n. gets k n false) n)
  ]

  no_room :
      IsTable t
      → t.max_clients ≤ t.active_count
      → (policy : MaxClientsPolicy) → t.full_policy ≡ policy
      → Rejected ⊎ Evicted ⊎ NoVictim
  unfolding choose_slot victim
  no_room v l reject e = inl (
    l,
    e,
    allocate-none (
        if_false {b = ltb t.active_count t.max_clients} _ _ (ground arith)
        ∙ ap (λ (q : MaxClientsPolicy). victim q lru) e),
  )
  no_room v l drop_old e = elim (oldest_loop-cases t.sessions 0 (2 ^ 64 - 1) none) [
    | inl (q, n) ↦ inr (
        inr (
          l,
          e,
          n,
          allocate-none
              (if_false {b = ltb t.active_count t.max_clients} _ _ (ground arith) ∙ ap₂ victim e q),
        ))
    | inr (k, q, p, a, u, n) ↦
        let c : choose_slot t ≡ (some k, true) =
          if_false {b = ltb t.active_count t.max_clients} _ _ (ground arith)
          ∙ ap₂ victim e (q ∙ ap some (omega arith)) in
        let m : add32 (sub32 t.active_count 1) 1 ≡ t.active_count =
          again t.active_count (omega (arith, l, v.storage, p))
            (omega (arith, active-le-length t.sessions, v.counted, v.storage, v.fits)) in
        inr (inl (l, e, k, p, a, n, allocate-chosen k true c ∙ ap (λ n. gets k n true) m))
  ]

-- In a valid table a new client gets a session that is free if there is one, and the table then
-- counts one more. In a full table the policy `reject` turns the client away and changes nothing;
-- `drop_old` takes a session in use of which no other has been active earlier, reports the eviction,
-- and the count stays as it was. Only if all sessions were active at the last instant that 64 bits
-- hold, none is taken.
pub allocate_lem :
    (mem : Bool × Bool) (t : SessionTable) (addr : Addr) (session_id : ℕ)
    → IsTable t
    → FreeSlot mem t addr session_id
      ⊎ (Rejected mem t addr session_id
          ⊎ Evicted mem t addr session_id
          ⊎ NoVictim mem t addr session_id)
allocate_lem mem t addr session_id v = elim (dec_lt t.active_count t.max_clients) [
  | yes l ↦ inl (room mem t addr session_id v l)
  | no l ↦ inr (no_room mem t addr session_id v (omega (arith, l)) t.full_policy refl)
]

-- A session in the table that is replaced by one with the same identifier.
pub put_session-IsTable :
    (t : SessionTable) (k count : ℕ) (x : ClientSession)
    → IsTable t
    → k < length t.sessions
    → x.client_id ≡ (session_at t k).client_id
    → count + (if is_active (session_at t k) then 1 else 0)
      ≡ t.active_count + (if is_active x then 1 else 0)
    → IsTable (record (put_session t k x) { active_count = count })
put_session-IsTable t k count x v l e n = record {
  storage = length-set t.sessions k x ∙ v.storage;
  counted = omega (arith, n, active-set t.sessions k x l, v.counted);
  ids =
      Ids-set 0 t.sessions k x v.ids
        (e ∙ ap (λ s. s.client_id) (get_or-inside t.sessions k zero_session x l));
  fits = v.fits;
}

gets-IsTable :
    (mem : Bool × Bool) (t : SessionTable) (addr : Addr) (session_id k count : ℕ)
    → IsTable t
    → k < length t.sessions
    → count + (if is_active (session_at t k) then 1 else 0) ≡ t.active_count + 1
    → IsTable (gets mem t addr session_id k count false).1
unfolding admitted
gets-IsTable mem t addr session_id k count v l n =
    put_session-IsTable t k count (admitted mem (session_at t k) addr session_id) v l refl n

-- Giving a session to a client keeps the table valid: the count is that of the sessions in use, and
-- each session's identifier is its index.
pub allocate-IsTable :
    (mem : Bool × Bool) (t : SessionTable) (addr : Addr) (session_id : ℕ)
    → IsTable t
    → IsTable (allocate mem t addr session_id).1
allocate-IsTable mem t addr session_id v = elim (allocate_lem mem t addr session_id v) [
  | inl (l, k, p, f, e) ↦
      subst (λ (o : Outcome). IsTable o.1) (sym e)
        (gets-IsTable mem t addr session_id k (t.active_count + 1) v p
          (omega (arith, if_false {A = ℕ} 1 0 f)))
  | inr (inl (l, q, e)) ↦ subst (λ (o : Outcome). IsTable o.1) (sym e) v
  | inr (inr (inl (l, q, k, p, a, n, e))) ↦
      subst (λ (o : Outcome). IsTable o.1) (sym e)
        (gets-IsTable mem t addr session_id k t.active_count v p
          (omega (arith, if_true {A = ℕ} 1 0 a)))
  | inr (inr (inr (l, q, n, e))) ↦ subst (λ (o : Outcome). IsTable o.1) (sym e) v
]

-- Giving up a session keeps the table valid, so does noting its activity.
pub free-IsTable :
    (t : SessionTable) (k now_ns : ℕ)
    → IsTable t
    → k < length t.sessions
    → IsTable (free t k) × IsTable (touch_lru t k now_ns)
unfolding free touch_lru
free-IsTable t k now_ns v l = (
  if_intro IsTable (is_active (session_at t k))
      (λ a.
        put_session-IsTable t k
          (if ltb 0 t.active_count then t.active_count - 1 else t.active_count)
          (record (session_at t k) { state = disconnected; session_id = 0 }) v l refl
          (let b = if_true {A = ℕ} 1 0 a in
            let one =
              active-set t.sessions k (record (session_at t k) { state = disconnected }) l in
            ground (arith, b, v.counted, one)))
      (λ a. v),
  put_session-IsTable t k t.active_count (record (session_at t k) { last_activity_ns = now_ns }) v l
      refl refl,
)
