-- ===== src/Handshake/Table.antt =====
-- Searches by address in a table with a session replaced.
use rel4u.Prelude.{
  ℕ, zero, suc, ◌+◌, ◌<◌, ◌≡◌, ◌⊎◌, refl, sym, ap, ◌∙◌, Bool, true, List, [], ◌∷◌, none, some, inl,
  inr, Bool-cases, if_true, if_false, arith, ◌&&◌, length, get_or, set,
}
use rel4u.Net.{Addr, addr_equal}
use rel4u.Net.Same.{same_bytes_refl}
use rel4u.Session.{
  ClientSession, SessionTable, first, find_by_addr, zero_session, session_at, put_session,
  is_active,
}
use rel4u.Session.Inv.{NoneIs, first-cases}

pub first-none :
    (p : ClientSession → Bool) (i : ℕ) (ss : List ClientSession) → first p i ss ≡ none → NoneIs p ss
first-none p i ss e = elim (first-cases p i ss) [
  | inl q ↦ q.1
  | inr (k, q, l, f) ↦ absurd (clash (i + k) (sym e ∙ q))
]
  where
    clash : (k : ℕ) → none ≡ some k → ⊥
    clash k f = cc

-- A session that passes the test, where none did.
pub first-set :
    (p : ClientSession → Bool) (i : ℕ) (ss : List ClientSession) (k : ℕ) (x : ClientSession)
    → NoneIs p ss
    → k < length ss
    → p x ≡ true
    → first p i (set ss k x) ≡ some (i + k)
first-set p i [] k x h l e = absurd (omega arith)
first-set p i (s ∷ ss) zero x h l e = if_true _ _ e ∙ ap some (omega arith)
first-set p i (s ∷ ss) (suc k) x h l e =
    if_false _ _ h.0 ∙ first-set p (i + 1) ss k x h.1 (omega arith) e ∙ ap some (omega arith)

-- A session that tests as the one before it did.
pub first-same :
    (p : ClientSession → Bool) (i : ℕ) (ss : List ClientSession) (k : ℕ) (x : ClientSession)
    → p x ≡ p (get_or ss k zero_session)
    → first p i (set ss k x) ≡ first p i ss
first-same p i [] k x e = refl
first-same p i (s ∷ ss) zero x e = elim (Bool-cases (p s)) [
  | inl f ↦ if_true _ _ (e ∙ f) ∙ sym (if_true _ _ f)
  | inr f ↦ if_false _ _ (e ∙ f) ∙ sym (if_false _ _ f)
]
first-same p i (s ∷ ss) (suc k) x e = elim (Bool-cases (p s)) [
  | inl f ↦ if_true _ _ f ∙ sym (if_true _ _ f)
  | inr f ↦ if_false _ _ f ∙ first-same p (i + 1) ss k x e ∙ sym (if_false _ _ f)
]

module _ (af_inet af_inet6 : ℕ) where
  -- An address of one of the two families.
  abbrev pub IsInet : Addr → Type 0
  IsInet a = (a.ss_family ≡ af_inet) ⊎ (a.ss_family ≡ af_inet6)

  pub addr_equal_self : (a : Addr) → IsInet a → addr_equal af_inet af_inet6 a a ≡ true
  unfolding addr_equal
  addr_equal_self a h = ground (arith, same_bytes_refl a.sin6_addr)

  pub find_by_addr-put :
      (t : SessionTable) (src : Addr) (k : ℕ) (x : ClientSession)
      → find_by_addr af_inet af_inet6 t src ≡ none
      → k < length t.sessions
      → is_active x ≡ true
      → addr_equal af_inet af_inet6 x.addr src ≡ true
      → find_by_addr af_inet af_inet6 (put_session t k x) src ≡ some k
  unfolding find_by_addr
  find_by_addr-put t src k x e l a b =
      let p = λ (s : ClientSession). is_active s && addr_equal af_inet af_inet6 s.addr src in
      first-set p 0 t.sessions k x (first-none p 0 t.sessions e) l (ground (arith, a, b))
      ∙ ap some (omega arith)

  pub find_by_addr-same :
      (t : SessionTable) (src : Addr) (k : ℕ) (x : ClientSession)
      → is_active x ≡ is_active (session_at t k)
      → x.addr ≡ (session_at t k).addr
      → find_by_addr af_inet af_inet6 (put_session t k x) src ≡ find_by_addr af_inet af_inet6 t src
  unfolding find_by_addr
  find_by_addr-same t src k x a b =
      first-same (λ s. is_active s && addr_equal af_inet af_inet6 s.addr src) 0 t.sessions k x
        (ap (λ c. c && addr_equal af_inet af_inet6 x.addr src) a
          ∙ ap (λ y. is_active (session_at t k) && addr_equal af_inet af_inet6 y src) b)
