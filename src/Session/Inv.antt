-- ===== src/Session/Inv.antt =====
-- What makes a table of sessions valid.
use rel4u.Prelude.{
  ℕ, zero, suc, ◌+◌, ◌^◌, ◌≤◌, ◌<◌, ◌≡◌, refl, ap, ap₂, ◌∙◌, Bool, true, false, ◌&&◌, List, [], ◌∷◌,
  Option, none, some, ◌⊎◌, inl, inr, Bool-cases, if_true, if_false, arith, ltb, if◌then◌else◌,
  length, get_or, set,
}
use rel4u.Session.{ClientSession, SessionTable, is_active, zero_session, first, oldest_loop}

-- The sessions that are in use.
abbrev pub active : List ClientSession → ℕ
active [] = 0
active (s ∷ ss) = (if is_active s then 1 else 0) + active ss

-- A session's identifier is its index.
abbrev pub Ids : ℕ → List ClientSession → Type 0
Ids i [] = Unit
Ids i (s ∷ ss) = (s.client_id ≡ i) × Ids (i + 1) ss

pub record IsTable (t : SessionTable) : Type 0 where
  pub storage : length t.sessions ≡ t.max_clients
  pub counted : t.active_count ≡ active t.sessions
  pub ids : Ids 0 t.sessions
  pub fits : t.max_clients < 2 ^ 31

pub active-le-length : (ss : List ClientSession) → active ss ≤ length ss
active-le-length [] = omega arith
active-le-length (s ∷ ss) = ground (arith, active-le-length ss)

pub active-set :
    (ss : List ClientSession) (k : ℕ) (x : ClientSession)
    → k < length ss
    → active (set ss k x) + (if is_active (get_or ss k zero_session) then 1 else 0)
      ≡ active ss + (if is_active x then 1 else 0)
active-set [] k x l = absurd (omega arith)
active-set (s ∷ ss) zero x l = omega arith
active-set (s ∷ ss) (suc k) x l = omega (arith, active-set ss k x (omega arith))

pub Ids-set :
    (i : ℕ) (ss : List ClientSession) (k : ℕ) (x : ClientSession)
    → Ids i ss
    → x.client_id ≡ (get_or ss k x).client_id
    → Ids i (set ss k x)
Ids-set i [] k x h e = tt
Ids-set i (s ∷ ss) zero x h e = (e ∙ h.0, h.1)
Ids-set i (s ∷ ss) (suc k) x h e = (h.0, Ids-set (i + 1) ss k x h.1 e)

pub get_or-inside :
    (ss : List ClientSession) (k : ℕ) (x y : ClientSession)
    → k < length ss
    → get_or ss k x ≡ get_or ss k y
get_or-inside [] k x y l = absurd (omega arith)
get_or-inside (s ∷ ss) zero x y l = refl
get_or-inside (s ∷ ss) (suc k) x y l = get_or-inside ss k x y (omega arith)

-- No session of a list passes the test.
abbrev pub NoneIs : (ClientSession → Bool) → List ClientSession → Type 0
NoneIs p [] = Unit
NoneIs p (s ∷ ss) = (p s ≡ false) × NoneIs p ss

-- What `first` finds: nothing, or the index of a session that passes the test behind others that do
-- not.
pub first-cases :
    (p : ClientSession → Bool) (i : ℕ) (ss : List ClientSession)
    → ((first p i ss ≡ none) × NoneIs p ss)
      ⊎ ((k : ℕ) × (first p i ss ≡ some (i + k))
          × (k < length ss)
          × (p (get_or ss k zero_session) ≡ true))
first-cases p i [] = inl (refl, tt)
first-cases p i (s ∷ ss) = elim (Bool-cases (p s)) [
  | inl e ↦ inr (0, if_true _ _ e ∙ ap some (omega arith), omega arith, e)
  | inr e ↦ elim (first-cases p (i + 1) ss) [
    | inl q ↦ inl (if_false _ _ e ∙ q.0, (e, q.1))
    | inr (k, q, l, f) ↦ inr (suc k, if_false _ _ e ∙ q ∙ ap some (omega arith), omega arith, f)
  ]
]

-- No session in use has been active before a time.
abbrev pub NoneOlder : ℕ → List ClientSession → Type 0
NoneOlder time ss = NoneIs (λ s. is_active s && ltb s.last_activity_ns time) ss

NoneOlder-le : (a b : ℕ) (ss : List ClientSession) → a ≤ b → NoneOlder b ss → NoneOlder a ss
NoneOlder-le a b [] l h = tt
NoneOlder-le a b (s ∷ ss) l h = (ground (arith, h.0, l), NoneOlder-le a b ss l h.1)

-- What the search for the least recently active session finds.
pub oldest_loop-cases :
    (ss : List ClientSession) (i time : ℕ) (slot : Option ℕ)
    → ((oldest_loop ss i time slot ≡ slot) × NoneOlder time ss)
      ⊎ ((k : ℕ) × (oldest_loop ss i time slot ≡ some (i + k))
          × (k < length ss)
          × (is_active (get_or ss k zero_session) ≡ true)
          × ((get_or ss k zero_session).last_activity_ns < time)
          × NoneOlder (get_or ss k zero_session).last_activity_ns ss)
unfolding oldest_loop
oldest_loop-cases [] i time slot = inl (refl, tt)
oldest_loop-cases (s ∷ ss) i time slot =
    elim (Bool-cases (is_active s && ltb s.last_activity_ns time)) [
      | inl e ↦
          let a : is_active s ≡ true = ground arith in
          let y : s.last_activity_ns < time = ground arith in
          let go =
            ap₂ (λ (t : ℕ) (o : Option ℕ). oldest_loop ss (i + 1) t o)
              (if_true s.last_activity_ns time e) (if_true (some i) slot e) in
          elim (oldest_loop-cases ss (i + 1) s.last_activity_ns (some i)) [
            | inl q ↦
                inr (0, go ∙ q.0 ∙ ap some (omega arith), omega arith, a, y, (ground arith, q.1))
            | inr (k, q, l, f, g, h) ↦ inr (
              suc k,
              go ∙ q ∙ ap some (omega arith),
              omega arith,
              f,
              omega (arith, g, y),
              (ground (arith, g), h),
            )
          ]
      | inr e ↦
          let go =
            ap₂ (λ (t : ℕ) (o : Option ℕ). oldest_loop ss (i + 1) t o)
              (if_false s.last_activity_ns time e) (if_false (some i) slot e) in
          elim (oldest_loop-cases ss (i + 1) time slot) [
            | inl q ↦ inl (go ∙ q.0, (e, q.1))
            | inr (k, q, l, f, g, h) ↦ inr (
              suc k,
              go ∙ q ∙ ap some (omega arith),
              omega arith,
              f,
              g,
              (ground (arith, g, e), h),
            )
          ]
    ]
