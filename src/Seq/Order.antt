-- ===== src/Seq/Order.antt =====
-- What the comparisons of serial numbers mean for numbers that lie less than 2 ^ 31 apart.
use rel4u.Prelude.{ℕ, ◌^◌, ◌<◌, ◌≡◌, ◌⊎◌, true, false, not, ◌&&◌, ltb, arith}
use rel4u.Prelude.Int.{pos}
use rel4u.Seq.{add32, sub32, seq_lt, seq_lte, seq_gt, seq_gte, seq_diff}

-- A number that lies `n` steps ahead, up to 2 ^ 31 - 1 of them, compares as later, also across the
-- wrap at 2 ^ 32, and its distance is `n`.
pub seq-add32 :
    (a n : ℕ)
    → a < 2 ^ 32
    → 0 < n
    → n < 2 ^ 31
    → (seq_lt a (add32 a n) ≡ true)
      × (seq_lte a (add32 a n) ≡ true)
      × (seq_gt a (add32 a n) ≡ false)
      × (seq_gte a (add32 a n) ≡ false)
      × (seq_lt (add32 a n) a ≡ false)
      × (seq_gt (add32 a n) a ≡ true)
      × (seq_diff (add32 a n) a ≡ pos n)
unfolding seq_lt seq_lte seq_gt seq_gte seq_diff
seq-add32 a n ha hn hb = ground arith

-- Exactly one of before, equal and after holds, but for two numbers that are 2 ^ 31 apart: each of
-- those is before the other.
pub seq_trichotomy :
    (a b : ℕ)
    → a < 2 ^ 32
    → b < 2 ^ 32
    → ((a ≡ b) × (seq_lt a b ≡ false) × (seq_gt a b ≡ false))
      ⊎ ((seq_lt a b ≡ true) × (seq_gt a b ≡ false) × (seq_lt b a ≡ false))
      ⊎ ((seq_lt a b ≡ false) × (seq_gt a b ≡ true) × (seq_lt b a ≡ true))
      ⊎ ((sub32 a b ≡ 2 ^ 31) × (seq_lt a b ≡ true) × (seq_lt b a ≡ true))
unfolding seq_lt seq_gt
seq_trichotomy a b ha hb = ground arith

pub seq_lte-lt : (a b : ℕ) → seq_lte a b ≡ not (seq_gt a b)
unfolding seq_lte seq_gt
seq_lte-lt a b = ground arith

pub seq_gte-lt : (a b : ℕ) → seq_gte a b ≡ not (seq_lt a b)
unfolding seq_gte seq_lt
seq_gte-lt a b = ground arith

-- Moving both numbers on by the same amount changes no comparison.
pub seq_lt_shift :
    (a b n : ℕ) → a < 2 ^ 32 → b < 2 ^ 32 → seq_lt (add32 a n) (add32 b n) ≡ seq_lt a b
unfolding seq_lt
seq_lt_shift a b n ha hb = ground arith

-- For a window from `lo` to `hi` of less than 2 ^ 31 numbers, the test `lo ≤ q < hi` of the code
-- picks the numbers whose distance from `lo` is below that of `hi`.
pub seq_window :
    (lo hi q : ℕ)
    → lo < 2 ^ 32
    → hi < 2 ^ 32
    → q < 2 ^ 32
    → sub32 hi lo < 2 ^ 31
    → (seq_lt q hi && seq_gte q lo) ≡ ltb (sub32 q lo) (sub32 hi lo)
unfolding seq_lt seq_gte
seq_window lo hi q a b c h = ground arith
