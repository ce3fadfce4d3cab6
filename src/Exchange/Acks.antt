-- ===== src/Exchange/Acks.antt =====
-- What an acknowledgement tells, and what the sender makes of it.
use mathlib.Core.Path.{◌≡◌, sym, ap, subst, ◌∙◌}
use rel4u.Prelude.{
  ℕ, zero, suc, ◌+◌, ◌-◌, ◌%◌, ◌^◌, ◌≤◌, ◌<◌, true, false, ◌||◌, ◌&&◌, List, [], ◌∷◌, none, some,
  inl, inr, Bool-cases, if_true, if_false, arith, ◌==◌, ltb, max, length, get_elem?,
}
use rel4u.Prelude.Digits.{bit}
use rel4u.Seq.{add32, seq_lte}
use rel4u.Window.Send.{SendSlot}
use rel4u.Window.Send.Ack.{beyond_ack}
use rel4u.Window.Send.OnAck.{sacked}
use rel4u.Window.Send.Sack.{sack_seq}
use rel4u.Window.Recv.{get_ack_info}
use rel4u.Window.Recv.AckInfo.{keeps, get_ack_info_lem}
use rel4u.Transfer.{Receiver}
use rel4u.Transfer.Order.{IsPrefix}
use rel4u.Exchange.{has}
use rel4u.Exchange.Pending.{Pending}

-- An acknowledgement speaks of messages that have arrived: those before number `e` of the stream, and
-- those that its mask names.
pub record Told (first : ℕ) (r : Receiver) (a : ℕ × ℕ) : Type 0 where
  pub upto : ℕ
  pub upto_le : upto ≤ length r.log
  pub number : a.0 ≡ (first + upto + (2 ^ 32 - 1)) % 2 ^ 32
  pub masked : (k : ℕ) → bit a.1 k ≡ true → has r (upto + k) ≡ true

pub Told-grows :
    (first : ℕ) (r t : Receiver) (a : ℕ × ℕ)
    → length r.log ≤ length t.log
    → ((j : ℕ) → has r j ≡ true → has t j ≡ true)
    → Told first r a
    → Told first t a
Told-grows first r t a l g d = record {
  upto = d.upto;
  upto_le = omega (arith, d.upto_le, l);
  number = d.number;
  masked = λ k e. g (d.upto + k) (d.masked k e);
}

-- What the receiver sends.
pub get_ack_info-Told :
    (first : ℕ) (stream : List (List ℕ)) (r : Receiver)
    → IsPrefix first stream r
    → Told first r (get_ack_info r.window)
unfolding get_ack_info
get_ack_info-Told first stream r p = record {
  upto = length r.log;
  upto_le = omega arith;
  number = omega (arith, p.expected);
  masked = λ k e. kept_one k (sym (get_ack_info_lem r.window p.window_valid k) ∙ e);
}
  where
    kept_one : (k : ℕ) → (ltb k 32 && keeps r.window k) ≡ true → has r (length r.log + k) ≡ true
    kept_one k e =
        let f : keeps r.window k ≡ true = ground (arith, e) in
        let g : length r.log + k - length r.log ≡ k = omega arith in
        let h = ap (keeps r.window) g ∙ f in ground (arith, h)

abbrev pub AllTold : ℕ → Receiver → List (ℕ × ℕ) → Type 0
AllTold first r [] = Unit {0}
AllTold first r (a ∷ others) = Told first r a × AllTold first r others

pub AllTold-grows :
    (first : ℕ) (r t : Receiver) (others : List (ℕ × ℕ))
    → length r.log ≤ length t.log
    → ((j : ℕ) → has r j ≡ true → has t j ≡ true)
    → AllTold first r others
    → AllTold first t others
AllTold-grows first r t [] l g d = tt
AllTold-grows first r t (a ∷ others) l g d =
    (Told-grows first r t a l g d.0, AllTold-grows first r t others l g d.1)

pub AllTold-get :
    (first : ℕ) (r : Receiver) (others : List (ℕ × ℕ)) (k : ℕ) (a : ℕ × ℕ)
    → AllTold first r others
    → get_elem? others k ≡ some a
    → Told first r a
AllTold-get first r [] k a d e = absurd (empty e)
  where
    empty : none ≡ some a → ⊥
    empty f = cc
AllTold-get first r (b ∷ others) zero a d e = subst (Told first r) (some_inj e) d.0
  where
    some_inj : some b ≡ some a → b ≡ a
    some_inj f = cc
AllTold-get first r (b ∷ others) (suc k) a d e = AllTold-get first r others k a d.1 e

-- A packet that the mask speaks of.
sacked-bit :
    (n i ack_num mask q : ℕ)
    → sacked n i ack_num mask q ≡ true
    → (k : ℕ) × (k < i + n) × (bit mask k ≡ true) × (q ≡ sack_seq ack_num k)
sacked-bit zero i ack_num mask q e = absurd (clash e)
  where
    clash : false ≡ true → ⊥
    clash f = cc
sacked-bit (suc n) i ack_num mask q e = elim (Bool-cases (bit mask i && q == sack_seq ack_num i)) [
  | inl h ↦ (i, omega arith, ground (arith, h), ground (arith, h))
  | inr h ↦
      let r =
        sacked-bit n (i + 1) ack_num mask q
          (sym (ap (λ b. b || sacked n (i + 1) ack_num mask q) h) ∙ e) in
      (r.0, omega (arith, r.1), r.2, r.3)
]

pub sacked-has :
    (first : ℕ) (r : Receiver) (a : ℕ × ℕ)
    → Told first r a
    → length r.log < 2 ^ 31
    → (j : ℕ) → j < 2 ^ 31
    → sacked 32 0 a.0 a.1 ((first + j) % 2 ^ 32) ≡ true
    → has r j ≡ true
sacked-has first r a d short j l e =
    let s = sacked-bit 32 0 a.0 a.1 ((first + j) % 2 ^ 32) e in
    let same : d.upto + s.0 ≡ j = omega (arith, s.1, s.3, d.number, d.upto_le, short, l) in
    ap (has r) (sym same) ∙ d.masked s.0 s.2

-- Whether the oldest packet is covered by the acknowledged number.
covered :
    (first i upto a : ℕ)
    → a ≡ (first + upto + (2 ^ 32 - 1)) % 2 ^ 32
    → i + 1 < 2 ^ 31
    → upto < 2 ^ 31
    → seq_lte ((first + i) % 2 ^ 32) a ≡ ltb i upto
unfolding seq_lte
covered first i upto a e l m = ground (arith, e)

-- The window after the cumulative part.
abbrev pub Left : Receiver → List (List ℕ) → ℕ → ℕ → List SendSlot → List SendSlot → Type 0
Left r sent i upto xs ys =
    (length ys ≤ length xs)
    × (i + length xs - length ys ≤ max i upto)
    × Pending r sent (i + length xs - length ys) ys

pub beyond_ack-Left :
    (first : ℕ) (r : Receiver) (sent : List (List ℕ)) (a upto i : ℕ) (xs : List SendSlot)
    → a ≡ (first + upto + (2 ^ 32 - 1)) % 2 ^ 32
    → upto < 2 ^ 31
    → i + length xs < 2 ^ 31
    → Pending r sent i xs
    → Left r sent i upto xs (beyond_ack a ((first + i) % 2 ^ 32) xs)
beyond_ack-Left first r sent a upto i [] e m l p = (omega arith, omega arith, tt)
beyond_ack-Left first r sent a upto i (x ∷ xs) e m l p =
    let c = covered first i upto a e (omega arith) m in
    let rest = beyond_ack a (add32 ((first + i) % 2 ^ 32) 1) xs in
    elim (Bool-cases (ltb i upto)) [
      | inl b ↦
          let q =
            subst (λ (t : ℕ). Left r sent (suc i) upto xs (beyond_ack a t xs)) (next_number first i)
              (beyond_ack-Left first r sent a upto (suc i) xs e m (omega arith) p.2) in
          subst (Left r sent i upto (x ∷ xs)) (sym (if_true rest (x ∷ xs) (c ∙ b))) (
            omega (arith, q.0),
            ground (arith, q.0, q.1, b),
            subst (λ k. Pending r sent k rest) (omega (arith, q.0)) q.2,
          )
      | inr b ↦
          subst (Left r sent i upto (x ∷ xs)) (sym (if_false rest (x ∷ xs) (c ∙ b)))
            (omega arith, omega arith, subst (λ k. Pending r sent k (x ∷ xs)) (omega arith) p)
    ]
  where
    next_number : (f k : ℕ) → (f + suc k) % 2 ^ 32 ≡ add32 ((f + k) % 2 ^ 32) 1
    next_number f k = omega arith
