-- ===== src/Seq.antt =====
-- The serial numbers of src/core/rel4u_window.h: 32-bit arithmetic and the comparisons by the sign
-- of a difference.
pub mod Order
mod Tests
use rel4u.Prelude.{ℕ, ◌+◌, ◌-◌, ◌%◌, ◌^◌, Bool}
use rel4u.Prelude.Int.{ℤ, pos, ltb_ℤ, leb_ℤ, to_int32}

-- `uint32_t` sums and differences.
abbrev pub add32 : ℕ → ℕ → ℕ
add32 a b = (a + b) % 2 ^ 32

abbrev pub sub32 : ℕ → ℕ → ℕ
sub32 a b = (a + 2 ^ 32 - b) % 2 ^ 32

unfoldable pub seq_lt : ℕ → ℕ → Bool
seq_lt a b = ltb_ℤ (to_int32 (sub32 a b)) (pos 0)

unfoldable pub seq_lte : ℕ → ℕ → Bool
seq_lte a b = leb_ℤ (to_int32 (sub32 a b)) (pos 0)

unfoldable pub seq_gt : ℕ → ℕ → Bool
seq_gt a b = ltb_ℤ (pos 0) (to_int32 (sub32 a b))

unfoldable pub seq_gte : ℕ → ℕ → Bool
seq_gte a b = leb_ℤ (pos 0) (to_int32 (sub32 a b))

unfoldable pub seq_diff : ℕ → ℕ → ℤ
seq_diff a b = to_int32 (sub32 a b)
