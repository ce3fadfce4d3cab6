-- ===== src/Prelude/Digits.antt =====
-- Single bits: `a | b` and `a & (1 << k)` by the binary digits, at every width.
use Prim.Native.Nat.{
  ℕ, zero, suc, ◌+◌, ◌*◌, ◌/◌, ◌%◌, ◌^◌, ◌≤◌, ◌<◌, min, max, bit_and, bit_or, digits, bitwise,
  bit_and-bitwise, bit_or-bitwise,
}
use mathlib.Core.Path.{◌≡◌, refl, ap, ◌∙◌}
use mathlib.Core.Bool.{Bool, false, not, ◌||◌}
use native.Mathlib.Nat.{pow-suc, one-le-pow}
use native.Mathlib.Omega.{arith}
use rel4u.Prelude.Tests.{◌==◌}

-- One equation for the lowest digit, without the fuel.
module _ (z : ℕ → ℕ) (f : ℕ → ℕ → ℕ) where
  digits_enough : (n m a b : ℕ) → a ≤ n → a ≤ m → digits z f n a b ≡ digits z f m a b
  digits_enough zero zero a b p q = refl
  digits_enough zero (suc m) zero b p q = refl
  digits_enough zero (suc m) (suc a) b p q = absurd (omega arith)
  digits_enough (suc n) zero zero b p q = refl
  digits_enough (suc n) zero (suc a) b p q = absurd (omega arith)
  digits_enough (suc n) (suc m) zero b p q = refl
  digits_enough (suc n) (suc m) (suc a) b p q =
      rw (digits_enough n m (suc a / 2) (b / 2) (omega arith) (omega arith))

  lowest_digit :
      (a b : ℕ)
      → bitwise z f (suc a) b ≡ bitwise z f (suc a / 2) (b / 2) * 2 + f (suc a % 2) (b % 2)
  lowest_digit a b =
      omega (arith, digits_enough a (suc a / 2) (suc a / 2) (b / 2) (omega arith) (omega arith))

bit_or-halves : (a b : ℕ) → bit_or a b ≡ bit_or (a / 2) (b / 2) * 2 + max (a % 2) (b % 2)
bit_or-halves zero b = simp bit_or-bitwise (omega arith)
bit_or-halves (suc a) b = simp bit_or-bitwise (lowest_digit (λ y. y) max a b)

bit_and-halves : (a b : ℕ) → bit_and a b ≡ bit_and (a / 2) (b / 2) * 2 + min (a % 2) (b % 2)
bit_and-halves zero b = simp bit_and-bitwise (omega arith)
bit_and-halves (suc a) b = simp bit_and-bitwise (lowest_digit (λ y. 0) min a b)

-- Binary digit `k`.
abbrev pub digit : ℕ → ℕ → ℕ
digit zero a = a % 2
digit (suc k) a = digit k (a / 2)

digit-lt : (k a : ℕ) → digit k a < 2
digit-lt zero a = omega arith
digit-lt (suc k) a = digit-lt k (a / 2)

digit-bit_or : (k a b : ℕ) → digit k (bit_or a b) ≡ max (digit k a) (digit k b)
digit-bit_or zero a b = omega (arith, bit_or-halves a b)
digit-bit_or (suc k) a b =
    let e : bit_or a b / 2 ≡ bit_or (a / 2) (b / 2) = omega (arith, bit_or-halves a b) in
    ap (digit k) e ∙ digit-bit_or k (a / 2) (b / 2)

digit-zero : (k : ℕ) → digit k 0 ≡ 0
digit-zero zero = refl
digit-zero (suc k) = digit-zero k

half-pow : (i : ℕ) → 2 ^ suc i / 2 ≡ 2 ^ i
half-pow i = omega (arith, pow-suc 2 i)

digit-pow : (k i : ℕ) → (digit k (2 ^ i) == 1) ≡ (k == i)
digit-pow zero zero = refl
digit-pow zero (suc i) = let e : 2 ^ suc i % 2 ≡ 0 = omega (arith, pow-suc 2 i) in ground (arith, e)
digit-pow (suc k) zero = let e = digit-zero k in ground (arith, e)
digit-pow (suc k) (suc i) = ap (λ a. digit k a == 1) (half-pow i) ∙ digit-pow k i ∙ ground arith

bit_and-nil : (n a : ℕ) → a ≤ n → bit_and a 0 ≡ 0
bit_and-nil n zero h = refl
bit_and-nil zero (suc a) h = absurd (omega arith)
bit_and-nil (suc n) (suc a) h =
    omega (arith, bit_and-halves (suc a) 0, bit_and-nil n (suc a / 2) (omega arith))

bit_and-pow : (k a : ℕ) → bit_and a (2 ^ k) ≡ digit k a * 2 ^ k
bit_and-pow zero a = omega (arith, bit_and-halves a 1, bit_and-nil (a / 2) (a / 2) (omega arith))
bit_and-pow (suc k) a =
    let h = ap (bit_and (a / 2)) (half-pow k) ∙ bit_and-pow k (a / 2) in
    let p = ap (λ (t : ℕ). digit k (a / 2) * t) (pow-suc 2 k) in
    omega (arith, bit_and-halves a (2 ^ suc k), h, p, pow-suc 2 k)

-- The test `a & (1 << k)`.
abbrev pub bit : ℕ → ℕ → Bool
bit a k = not (bit_and a (2 ^ k) == 0)

bit-digit : (k a : ℕ) → bit a k ≡ (digit k a == 1)
bit-digit k a = by_value (digit k a) (digit-lt k a) (bit_and-pow k a)
  where
    by_value : (d : ℕ) → d < 2 → bit_and a (2 ^ k) ≡ d * 2 ^ k → bit a k ≡ (d == 1)
    by_value d l e = let p = one-le-pow k 2 (omega arith) in ground (arith, e, p)

pub bit-zero : (k : ℕ) → bit 0 k ≡ false
bit-zero k = bit-digit k 0 ∙ ap (λ (d : ℕ). d == 1) (digit-zero k)

-- Setting a bit leaves the others.
pub bit-set : (a i k : ℕ) → bit (bit_or a (2 ^ i)) k ≡ bit a k || k == i
bit-set a i k =
    bit-digit k (bit_or a (2 ^ i))
    ∙ ap (λ (d : ℕ). d == 1) (digit-bit_or k a (2 ^ i))
    ∙ joined (digit k a) (digit k (2 ^ i)) (digit-lt k a) (digit-lt k (2 ^ i)) (bit-digit k a)
        (digit-pow k i)
  where
    joined :
        (d e : ℕ)
        → d < 2
        → e < 2
        → bit a k ≡ (d == 1)
        → (e == 1) ≡ (k == i)
        → (max d e == 1) ≡ bit a k || k == i
    joined d e p q f g = rw (f, ← g) (ground arith)

-- `|` stays within a width.
pub bit_or-lt : (n a b : ℕ) → a < 2 ^ n → b < 2 ^ n → bit_or a b < 2 ^ n
bit_or-lt zero a b p q = omega (arith, bit_or-halves a b, bit_or_none)
  where
    bit_or_none : bit_or (a / 2) (b / 2) ≡ 0
    bit_or_none =
        let e : a / 2 ≡ 0 = omega arith in let f : b / 2 ≡ 0 = omega arith in rw (e, f) refl
bit_or-lt (suc n) a b p q = omega (
  arith,
  bit_or-halves a b,
  bit_or-lt n (a / 2) (b / 2) (omega (arith, pow-suc 2 n)) (omega (arith, pow-suc 2 n)),
  pow-suc 2 n,
)

pub pow-lt : (i n : ℕ) → i < n → 2 ^ i < 2 ^ n
pow-lt zero (suc n) l = omega (arith, one-le-pow n 2 (omega arith), pow-suc 2 n)
pow-lt (suc i) (suc n) l = omega (arith, pow-lt i n (omega arith), pow-suc 2 n, pow-suc 2 i)
pow-lt i zero l = absurd (omega arith)
