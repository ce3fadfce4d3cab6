-- ===== src/Seq/Tests.antt =====
-- Serial numbers at the wrap.
use rel4u.Prelude.{◌-◌, ◌^◌, ◌≡◌, refl, true}
use rel4u.Seq.{seq_lt}

wraps : seq_lt (2 ^ 32 - 1) 0 ≡ true
unfolding seq_lt
wraps = refl
