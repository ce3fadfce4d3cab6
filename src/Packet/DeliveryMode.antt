-- ===== src/Packet/DeliveryMode.antt =====
-- `rel4u_delivery_mode_t` of include/rel4u.h. A header carries any byte, hence the numbers.
use rel4u.Prelude.{ℕ}

abbrev pub unreliable_unordered : ℕ
unreliable_unordered = 0

abbrev pub unreliable_ordered : ℕ
unreliable_ordered = 1

abbrev pub reliable_unordered : ℕ
reliable_unordered = 2

abbrev pub reliable_ordered : ℕ
reliable_ordered = 3
