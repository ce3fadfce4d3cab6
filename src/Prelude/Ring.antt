-- ===== src/Prelude/Ring.antt =====
-- An array read round and round: the entries from an index on, in order.
use mathlib.Core.Path.{◌≡◌, refl, ap, ap₂, ◌∙◌, sym}
use mathlib.Core.Logic.{◌≢◌}
use mathlib.Core.List.{List, [], ◌∷◌, ◌++◌}
use native.Mathlib.Omega.{arith}
use native.Mathlib.Nat.{mod-add-mod, mod-eq_of_lt, mod-lt, add-zero}
use Prim.Native.Nat.{ℕ, zero, suc, ◌+◌, ◌-◌, ◌%◌, ◌≤◌, ◌<◌}
use rel4u.Prelude.Lists.{length, get_or, set, get_or-set_self, get_or-set_ne}

-- Two places of a ring that are less than a round apart are different.
pub mod-ne : (c h j k : ℕ) → j < k → k < c + j → (h + j) % c ≢ (h + k) % c
mod-ne c h j k p q e = grind arith

pub mod_next : (c h j : ℕ) → ((h + 1) % c + j) % c ≡ (h + suc j) % c
mod_next c h j = mod-add-mod (h + 1) c j ∙ ap (λ t. t % c) (omega arith)

pub mod_here : (c h : ℕ) → h < c → (h + 0) % c ≡ h
mod_here c h hh = ap (λ t. t % c) (add-zero h) ∙ mod-eq_of_lt hh

module _ {ℓ} {A : Type ℓ} (d : A) where
  -- The `n` entries from index `h` on, round at `c`; `d` stands for what lies out of bounds.
  abbrev pub segment : List A → ℕ → ℕ → ℕ → List A
  segment buf c h zero = []
  segment buf c h (suc n) = get_or buf h d ∷ segment buf c ((h + 1) % c) n

  pub length-segment : (buf : List A) (c h n : ℕ) → length (segment buf c h n) ≡ n
  length-segment buf c h zero = refl
  length-segment buf c h (suc n) = ap suc (length-segment buf c ((h + 1) % c) n)

  pub segment_cons :
      (buf : List A) (c h n : ℕ)
      → 0 < n
      → segment buf c h n ≡ get_or buf h d ∷ segment buf c ((h + 1) % c) (n - 1)
  segment_cons buf c h zero p = absurd (omega arith)
  segment_cons buf c h (suc n) p = ap (λ k. segment buf c h (suc k)) (omega arith)

  -- A write elsewhere does not show.
  pub segment-set_ne :
      (buf : List A) (c h n i : ℕ) (x : A)
      → h < c
      → ((j : ℕ) → j < n → (h + j) % c ≢ i)
      → segment (set buf i x) c h n ≡ segment buf c h n
  segment-set_ne buf c h zero i x hh out = refl
  segment-set_ne buf c h (suc n) i x hh out =
      ap₂ ◌∷◌
        (get_or-set_ne buf i h x d (λ e. out 0 (omega arith) (omega (arith, e, mod_here c h hh))))
        (segment-set_ne buf c ((h + 1) % c) n i x (mod-lt (h + 1) (omega arith))
          λ j p e. out (suc j) (omega arith) (sym (mod_next c h j) ∙ e))

  pub segment_snoc :
      (buf : List A) (c h n : ℕ)
      → h < c
      → segment buf c h (suc n) ≡ segment buf c h n ++ get_or buf ((h + n) % c) d ∷ []
  segment_snoc buf c h zero hh = ap (λ t. get_or buf t d ∷ []) (sym (mod_here c h hh))
  segment_snoc buf c h (suc n) hh =
      ap (λ t. get_or buf h d ∷ t)
        (segment_snoc buf c ((h + 1) % c) n (mod-lt (h + 1) (omega arith))
          ∙ ap (λ t. segment buf c ((h + 1) % c) n ++ get_or buf t d ∷ []) (mod_next c h n))

  -- A write just behind the segment makes it longer by that entry.
  pub segment-set_end :
      (buf : List A) (c h n : ℕ) (x : A)
      → c ≤ length buf
      → h < c
      → n < c
      → segment (set buf ((h + n) % c) x) c h (suc n) ≡ segment buf c h n ++ x ∷ []
  segment-set_end buf c h n x hl hh hn =
      let at_end =
        get_or-set_self buf ((h + n) % c) x d
          (omega (arith, mod-lt (h + n) {m = c} (omega arith))) in
      let before =
        segment-set_ne buf c h n ((h + n) % c) x hh (λ j p. mod-ne c h j n p (omega arith)) in
      segment_snoc (set buf ((h + n) % c) x) c h n hh ∙ rw (at_end, before)

  -- A write at the place before the segment puts that entry in front.
  pub segment-set_front :
      (buf : List A) (c h n : ℕ) (x : A)
      → c ≤ length buf
      → h < c
      → n < c
      → segment (set buf h x) c h (suc n) ≡ x ∷ segment buf c ((h + 1) % c) n
  segment-set_front buf c h n x hl hh hn =
      ap₂ ◌∷◌ (get_or-set_self buf h x d (omega arith))
        (segment-set_ne buf c ((h + 1) % c) n h x (mod-lt (h + 1) (omega arith)) away)
    where
      away : (j : ℕ) → j < n → ((h + 1) % c + j) % c ≢ h
      away j p e =
          mod-ne c h 0 (suc j) (omega arith) (omega arith)
            (omega (arith, mod_here c h hh, e, mod_next c h j))

  pub get_or-segment :
      (buf : List A) (c h n j : ℕ)
      → h < c
      → j < n
      → get_or (segment buf c h n) j d ≡ get_or buf ((h + j) % c) d
  get_or-segment buf c h zero j hh hj = absurd (omega arith)
  get_or-segment buf c h (suc n) zero hh hj = ap (λ t. get_or buf t d) (sym (mod_here c h hh))
  get_or-segment buf c h (suc n) (suc j) hh hj =
      get_or-segment buf c ((h + 1) % c) n j (mod-lt (h + 1) (omega arith)) (omega arith)
      ∙ ap (λ t. get_or buf t d) (mod_next c h j)

  -- A write inside the segment is a write to that entry.
  pub segment-set :
      (buf : List A) (c h n j i : ℕ) (x : A)
      → c ≤ length buf
      → h < c
      → n ≤ c
      → j < n
      → i ≡ (h + j) % c
      → segment (set buf i x) c h n ≡ set (segment buf c h n) j x
  segment-set buf c h zero j i x hl hh hn hj e = absurd (omega arith)
  segment-set buf c h (suc n) zero i x hl hh hn hj e =
      let e' : i ≡ h = e ∙ mod_here c h hh in
      ap (λ t. segment (set buf t x) c h (suc n)) e' ∙ segment-set_front buf c h n x hl hh hn
  segment-set buf c h (suc n) (suc j) i x hl hh hn hj e =
      ap₂ ◌∷◌
        (get_or-set_ne buf i h x d (λ f.
          mod-ne c h 0 (suc j) (omega arith) (omega arith) (omega (arith, mod_here c h hh, e, f))))
        (segment-set buf c ((h + 1) % c) n j i x hl (mod-lt (h + 1) (omega arith)) (omega arith)
          (omega arith) (e ∙ sym (mod_next c h j)))
