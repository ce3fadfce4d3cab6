-- ===== src/Window/Index.antt =====
-- Where a window keeps a sequence number: `seq & (capacity - 1)`.
use native.Mathlib.Nat.{
  mod_self, pow-suc, one-le-pow, mod-mod_of_dvd, mod-lt, mod-add-mod, zero-add, dvd-mul_left,
}
use native.Mathlib.Decide.{dec_lt}
use Prim.Native.Nat.{◌∣◌}
use rel4u.Prelude.{
  ℕ, zero, suc, ◌+◌, ◌-◌, ◌*◌, ◌%◌, ◌^◌, ◌≤◌, ◌<◌, ◌≡◌, sym, ap, ◌∙◌, Bool, false, ltb, ◌==◌, ◌||◌,
  not, bit_and, arith,
}
use rel4u.Prelude.Bits.{bit_and_mask, bit_and_pred}
use rel4u.Seq.{add32, sub32}

abbrev pub max_payload_size : ℕ
max_payload_size = 9216

unfoldable pub slot_index : ℕ → ℕ → ℕ
slot_index seq capacity = bit_and seq (sub32 capacity 1)

-- The test that `rel4u_send_window_init` and `rel4u_recv_window_init` refuse a capacity by.
unfoldable pub bad_capacity : ℕ → Bool
bad_capacity capacity = ltb capacity 2 || not (bit_and capacity (sub32 capacity 1) == 0)

-- A power of two that fits an `int32_t`.
pub record IsCapacity (c : ℕ) : Type 0 where
  pub exponent : ℕ
  pub power : c ≡ 2 ^ exponent
  pub at_least : 2 ≤ c
  pub at_most : c < 2 ^ 31

pow_add : (j k : ℕ) → 2 ^ (j + k) ≡ 2 ^ j * 2 ^ k
pow_add zero k = ap (λ t. 2 ^ t) (zero-add k) ∙ omega arith
pow_add (suc j) k =
    let e : suc j + k ≡ suc (j + k) = omega arith in
    rw e (omega (arith, pow-suc 2 (j + k), ap (λ t. t * 2 ^ k) (pow-suc 2 j), pow_add j k))

exponent-lt : (k : ℕ) → 2 ^ k < 2 ^ 31 → k < 31
exponent-lt k h = elim (dec_lt k 31) [
  | yes p ↦ p
  | no p ↦
      let e : 31 + (k - 31) ≡ k = omega arith in
      absurd (
        omega
          (arith, h, ap (λ t. 2 ^ t) e, pow_add 31 (k - 31), one-le-pow (k - 31) 2 (omega arith)))
]

-- A capacity divides 2 ^ 32, so that the index of a sequence number does not notice the wrap.
capacity-dvd : (c : ℕ) → IsCapacity c → c ∣ 2 ^ 32
capacity-dvd c v =
    let k = v.exponent in
    let l = exponent-lt k (omega (arith, v.power, v.at_most)) in
    let e : 32 - k + k ≡ 32 = omega arith in
    let f : 2 ^ 32 ≡ 2 ^ (32 - k) * c =
      ap (λ t. 2 ^ t) (sym e) ∙ pow_add (32 - k) k ∙ ap (λ t. 2 ^ (32 - k) * t) (sym v.power) in
    rw f (dvd-mul_left c (2 ^ (32 - k)))

pub slot_index-mod : (seq c : ℕ) → IsCapacity c → slot_index seq c ≡ seq % c
unfolding slot_index
slot_index-mod seq c v =
    let e : sub32 c 1 ≡ 2 ^ v.exponent - 1 = omega (arith, v.power, v.at_least, v.at_most) in
    rw e (bit_and_mask v.exponent seq ∙ ap (λ t. seq % t) (sym v.power))

pub slot_index-lt : (seq c : ℕ) → IsCapacity c → slot_index seq c < c
slot_index-lt seq c v =
    omega (arith, slot_index-mod seq c v, mod-lt seq {m = c} (omega (arith, v.at_least)))

-- Moving on by `j` moves the index round by `j`.
pub slot_index-add32 :
    (seq j c : ℕ) → IsCapacity c → slot_index (add32 seq j) c ≡ (slot_index seq c + j) % c
slot_index-add32 seq j c v =
    slot_index-mod (add32 seq j) c v
    ∙ mod-mod_of_dvd c (seq + j) (capacity-dvd c v)
    ∙ sym (mod-add-mod seq c j)
    ∙ ap (λ t. (t + j) % c) (sym (slot_index-mod seq c v))

-- What the test of a capacity lets through is a capacity, if it fits an `int32_t`.
pub bad_capacity-IsCapacity : (c : ℕ) → bad_capacity c ≡ false → c < 2 ^ 31 → IsCapacity c
unfolding bad_capacity
bad_capacity-IsCapacity c e h =
    let g : 2 ≤ c = ground arith in
    let f : sub32 c 1 ≡ c - 1 = omega arith in
    let p = bit_and_pred c (omega arith) (ground (arith, f)) in
    record { exponent = p.0; power = p.1; at_least = g; at_most = h }

pub IsCapacity-bad_capacity : (c : ℕ) → IsCapacity c → bad_capacity c ≡ false
unfolding bad_capacity slot_index
IsCapacity-bad_capacity c v =
    let e = slot_index-mod c c v ∙ mod_self c in let g = v.at_least in ground (arith, e, g)
