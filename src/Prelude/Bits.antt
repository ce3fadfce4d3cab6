-- ===== src/Prelude/Bits.antt =====
-- `&` with a low mask, and the test `c & (c - 1)` for a power of two, at every width.
use Prim.Native.Nat.{
  ℕ, zero, suc, ◌+◌, ◌-◌, ◌*◌, ◌/◌, ◌%◌, ◌^◌, ◌≤◌, ◌<◌, min, bit_and, digits, bit_and-bitwise,
}
use mathlib.Core.Path.{◌≡◌, refl}
use mathlib.Core.Logic.{◌⊎◌, inl, inr}
use native.Mathlib.Nat.{pow-suc, one-le-pow}
use native.Mathlib.Omega.{arith}

abbrev conj : ℕ → ℕ → ℕ → ℕ
conj n a b = digits (λ _. zero) min n a b

mod_double : (a p : ℕ) → 0 < p → a % (2 * p) ≡ (a / 2) % p * 2 + a % 2
mod_double a p h = grind arith

conj_mask : (k n a : ℕ) → a ≤ n → conj n a (2 ^ k - 1) ≡ a % 2 ^ k
conj_mask k zero zero h = omega (arith, one-le-pow k 2 (omega arith))
conj_mask k zero (suc a) h = absurd (omega arith)
conj_mask k (suc n) zero h = omega (arith, one-le-pow k 2 (omega arith))
conj_mask zero (suc n) (suc a) h = omega (arith, conj_mask 0 n (suc a / 2) (omega arith))
conj_mask (suc k) (suc n) (suc a) h =
    let p = one-le-pow k 2 (omega arith) in
    let e : 2 ^ suc k ≡ 2 * 2 ^ k = omega (arith, pow-suc 2 k) in
    let f : (2 * 2 ^ k - 1) / 2 ≡ 2 ^ k - 1 = omega arith in
    rw (e, f) (omega (arith, conj_mask k n (suc a / 2) (omega arith), mod_double (suc a) (2 ^ k) p))

pub bit_and_mask : (k a : ℕ) → bit_and a (2 ^ k - 1) ≡ a % 2 ^ k
bit_and_mask k a = rw bit_and-bitwise (conj_mask k a a (omega arith))

-- `a & a` is `a`.
conj_self : (n a : ℕ) → a ≤ n → conj n a a ≡ a
conj_self zero zero h = refl
conj_self zero (suc a) h = absurd (omega arith)
conj_self (suc n) zero h = refl
conj_self (suc n) (suc a) h = omega (arith, conj_self n (suc a / 2) (omega arith))

-- A number is a power of two.
abbrev pub IsPowTwo : ℕ → Type 0
IsPowTwo c = (k : ℕ) × (c ≡ 2 ^ k)

IsPowTwo-double : (c d : ℕ) → c ≡ 2 * d → IsPowTwo d → IsPowTwo c
IsPowTwo-double c d e (k, p) = (suc k, omega (arith, pow-suc 2 k))

-- One digit of `c & (c - 1)`, for an even and for an odd number.
conj_pred_even :
    (n m : ℕ)
    → (suc m % 2 ≡ 0)
    → conj (suc n) (suc m) (suc m - 1) ≡ 0
    → conj n (suc m / 2) (suc m / 2 - 1) ≡ 0
conj_pred_even n m ev e =
    let h : (suc m - 1) / 2 ≡ suc m / 2 - 1 = omega arith in rw (← h) (omega arith)

conj_pred_odd : (n m : ℕ) → m ≤ n → (suc m % 2 ≡ 1) → conj (suc n) (suc m) (suc m - 1) ≡ 0 → m ≡ 0
conj_pred_odd n m b od e =
    let h : (suc m - 1) / 2 ≡ suc m / 2 = omega arith in
    let e' = rw h at e in omega (arith, e', conj_self n (suc m / 2) (omega arith))

parity : (m : ℕ) → (m % 2 ≡ 0) ⊎ (m % 2 ≡ 1)
parity m = omega arith

conj_pred : (n c : ℕ) → c ≤ n → 0 < c → conj n c (c - 1) ≡ 0 → IsPowTwo c
conj_pred n zero h pos e = absurd (omega arith)
conj_pred zero (suc c) h pos e = absurd (omega arith)
conj_pred (suc n) (suc c) h pos e = elim (parity (suc c)) [
  | inl ev ↦
      IsPowTwo-double (suc c) (suc c / 2) (omega arith)
        (conj_pred n (suc c / 2) (omega arith) (omega arith) (conj_pred_even n c ev e))
  | inr od ↦ (0, omega (arith, conj_pred_odd n c (omega arith) od e))
]

-- `c & (c - 1) == 0` tells the powers of two among the positive numbers.
pub bit_and_pred : (c : ℕ) → 0 < c → bit_and c (c - 1) ≡ 0 → IsPowTwo c
bit_and_pred c pos e = conj_pred c c (omega arith) pos (rw bit_and-bitwise at e)

pub zero-bit_and : (b : ℕ) → bit_and 0 b ≡ 0
zero-bit_and b = rw bit_and-bitwise refl
