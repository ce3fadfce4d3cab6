-- ===== src/Exchange/Pending.antt =====
-- The packets of the send window against the messages of the stream.
use mathlib.Core.Path.{◌≡◌, refl, sym, ap, ap₂, subst, ◌∙◌}
use rel4u.Prelude.{
  ℕ, zero, suc, ◌+◌, ◌%◌, ◌^◌, ◌≤◌, ◌<◌, Bool, true, false, ◌||◌, List, [], ◌∷◌, ◌++◌, arith,
  length, get_or, get_or-append, take,
}
use rel4u.Prelude.Ring.{segment}
use rel4u.Seq.{add32}
use rel4u.Packet.DeliveryMode
use rel4u.Window.Index.{max_payload_size}
use rel4u.Window.Send.{SendSlot, zero_slot}
use rel4u.Window.Send.Marks.{mark}
use rel4u.Endpoint.Link.{Alike}
use rel4u.Transfer.{Receiver}
use rel4u.Exchange.{bytes_of, has}

-- The slot holds a message as a push of it left it.
abbrev pub Holds : SendSlot → List ℕ → Type 0
Holds x bytes =
    (bytes_of x ≡ bytes)
    × (x.delivery_mode ≡ DeliveryMode.reliable_ordered)
    × (x.payload_len ≤ length x.payload)
    × (x.payload_len ≤ max_payload_size)

-- The slots hold the messages from number `i` on, and what they mark as acknowledged has arrived.
abbrev pub Pending : Receiver → List (List ℕ) → ℕ → List SendSlot → Type 0
Pending r sent i [] = Unit {0}
Pending r sent i (x ∷ xs) =
    (x.acked ≡ true → has r i ≡ true) × Holds x (get_or sent i []) × Pending r sent (suc i) xs

pub Pending-grows :
    (r t : Receiver) (sent : List (List ℕ)) (i : ℕ) (xs : List SendSlot)
    → ((j : ℕ) → has r j ≡ true → has t j ≡ true)
    → Pending r sent i xs
    → Pending t sent i xs
Pending-grows r t sent i [] g p = tt
Pending-grows r t sent i (x ∷ xs) g p =
    (λ a. g i (p.0 a), p.1, Pending-grows r t sent (suc i) xs g p.2)

-- One more message, at the end of the stream and of the window.
pub Pending-more :
    (r : Receiver) (sent : List (List ℕ)) (bytes : List ℕ) (i : ℕ) (xs : List SendSlot)
    → i + length xs ≤ length sent
    → Pending r sent i xs
    → Pending r (sent ++ bytes ∷ []) i xs
Pending-more r sent bytes i [] l p = tt
Pending-more r sent bytes i (x ∷ xs) l p = (
  p.0,
  subst (Holds x) (sym (get_or-append sent (bytes ∷ []) i [] (omega arith))) p.1,
  Pending-more r sent bytes (suc i) xs (omega arith) p.2,
)

pub Pending-snoc :
    (r : Receiver) (sent : List (List ℕ)) (i : ℕ) (xs : List SendSlot) (x : SendSlot)
    → Pending r sent i xs
    → (x.acked ≡ true → has r (i + length xs) ≡ true)
    → Holds x (get_or sent (i + length xs) [])
    → Pending r sent i (xs ++ x ∷ [])
Pending-snoc r sent i [] x p a b =
    let e : i + 0 ≡ i = omega arith in
    subst (λ k. (x.acked ≡ true → has r k ≡ true) × Holds x (get_or sent k []) × Unit {0}) e
      (a, b, tt)
Pending-snoc r sent i (y ∷ xs) x p a b =
    let e : i + suc (length xs) ≡ suc i + length xs = omega arith in
    (
      p.0,
      p.1,
      Pending-snoc r sent (suc i) xs x p.2 (subst (λ k. x.acked ≡ true → has r k ≡ true) e a)
          (subst (λ k. Holds x (get_or sent k [])) e b),
    )

-- A packet of the window is not acknowledged, or has arrived.
pub Pending-get :
    (r : Receiver) (sent : List (List ℕ)) (i j : ℕ) (xs : List SendSlot)
    → Pending r sent i xs
    → j < length xs
    → ((get_or xs j zero_slot).acked ≡ true → has r (i + j) ≡ true)
      × Holds (get_or xs j zero_slot) (get_or sent (i + j) [])
Pending-get r sent i j [] p l = absurd (omega arith)
Pending-get r sent i zero (x ∷ xs) p l =
    let e : i ≡ i + 0 = omega arith in
    subst (λ k. (x.acked ≡ true → has r k ≡ true) × Holds x (get_or sent k [])) e (p.0, p.1)
Pending-get r sent i (suc j) (x ∷ xs) p l =
    let e : suc i + j ≡ i + suc j = omega arith in
    let y = get_or xs j zero_slot in
    subst (λ k. (y.acked ≡ true → has r k ≡ true) × Holds y (get_or sent k [])) e
      (Pending-get r sent (suc i) j xs p.2 (omega arith))

-- Marking packets that have arrived.
pub Pending-mark :
    (r : Receiver) (sent : List (List ℕ)) (first : ℕ) (test : ℕ → Bool) (i : ℕ) (xs : List SendSlot)
    → Pending r sent i xs
    → ((j : ℕ) → j < i + length xs → test ((first + j) % 2 ^ 32) ≡ true → has r j ≡ true)
    → Pending r sent i (mark test ((first + i) % 2 ^ 32) xs)
Pending-mark r sent first test i [] p f = tt
Pending-mark r sent first test i (x ∷ xs) p f =
    let e : (first + suc i) % 2 ^ 32 ≡ add32 ((first + i) % 2 ^ 32) 1 = omega arith in
    (
      λ a. either x.acked (test ((first + i) % 2 ^ 32)) a p.0 (f i (omega arith)),
      p.1,
      subst (λ (q : ℕ). Pending r sent (suc i) (mark test q xs)) e
          (Pending-mark r sent first test (suc i) xs p.2 (λ j l. f j (omega (arith, l)))),
    )
  where
    either :
        (a b : Bool)
        → a || b ≡ true
        → (a ≡ true → has r i ≡ true)
        → (b ≡ true → has r i ≡ true)
        → has r i ≡ true
    either true b e f g = f refl
    either false b e f g = g e

pub length-mark :
    (test : ℕ → Bool) (seq : ℕ) (xs : List SendSlot) → length (mark test seq xs) ≡ length xs
length-mark test seq [] = refl
length-mark test seq (x ∷ xs) = ap suc (length-mark test (add32 seq 1) xs)

-- Slots that hold the same packets serve as well.
module _ (r : Receiver) (sent : List (List ℕ)) (ss ts : List SendSlot) (c : ℕ)
    (alike : (j : ℕ) → Alike (get_or ts j zero_slot) (get_or ss j zero_slot)) where
  pub Pending-alike :
      (n i h : ℕ)
      → Pending r sent i (segment zero_slot ss c h n)
      → Pending r sent i (segment zero_slot ts c h n)
  Pending-alike zero i h p = tt
  Pending-alike (suc n) i h p =
      let a = alike h in
      (
        λ e. p.0 (sym a.2 ∙ e),
        (
          ap₂ (λ (k : ℕ) (b : List ℕ). take k b) a.4 a.5 ∙ p.1.0,
          a.3 ∙ p.1.1,
          omega (arith, a.4, ap length a.5, p.1.2),
          omega (arith, a.4, p.1.3),
        ),
        Pending-alike n (suc i) ((h + 1) % c) p.2,
      )
