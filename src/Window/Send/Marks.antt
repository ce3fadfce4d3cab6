-- ===== src/Window/Send/Marks.antt =====
-- Marking packets as acknowledged by their numbers, on the list of outstanding packets.
use rel4u.Prelude.{
  ℕ, zero, suc, ◌^◌, ◌<◌, ◌≡◌, refl, ap, ap₂, ◌∙◌, Bool, true, false, ◌||◌, List, [], ◌∷◌, if_false,
  arith, ◌==◌, length, get_or, set,
}
use rel4u.Seq.{add32}
use rel4u.Window.Send.{SendSlot, zero_slot}
use rel4u.Window.Send.Inv.{Numbered, unacked}

-- The packets with those marked as acknowledged whose numbers pass a test.
abbrev pub mark : (ℕ → Bool) → ℕ → List SendSlot → List SendSlot
mark p seq [] = []
mark p seq (s ∷ ss) = record s { acked = s.acked || p seq } ∷ mark p (add32 seq 1) ss

pub mark-mark :
    (p q : ℕ → Bool) (seq : ℕ) (ss : List SendSlot)
    → mark q seq (mark p seq ss) ≡ mark (λ n. p n || q n) seq ss
mark-mark p q seq [] = refl
mark-mark p q seq (s ∷ ss) =
    ap₂ ◌∷◌ (ap (λ (b : Bool). record s { acked = b }) (or_assoc s.acked (p seq) (q seq)))
      (mark-mark p q (add32 seq 1) ss)
  where
    or_assoc : (a b c : Bool) → (a || b) || c ≡ a || (b || c)
    or_assoc a b c = ground arith

-- Only the numbers of the packets matter.
pub mark_same :
    (p q : ℕ → Bool) (seq : ℕ) (ss : List SendSlot)
    → seq < 2 ^ 32
    → ((j : ℕ)
        → j < length ss
        → (get_or ss j zero_slot).acked || p (add32 seq j)
          ≡ (get_or ss j zero_slot).acked || q (add32 seq j))
    → mark p seq ss ≡ mark q seq ss
mark_same p q seq [] h e = refl
mark_same p q seq (s ∷ ss) h e =
    ap₂ ◌∷◌ (ap (λ (b : Bool). record s { acked = b }) (head_same (e 0 (omega arith))))
      (mark_same p q (add32 seq 1) ss (omega arith) λ j l. tail_same j (e (suc j) (omega arith)))
  where
    here : add32 seq 0 ≡ seq
    here = omega arith

    head_same :
        s.acked || p (add32 seq 0) ≡ s.acked || q (add32 seq 0)
        → s.acked || p seq ≡ s.acked || q seq
    head_same f = rw here at f

    tail_same :
        (j : ℕ)
        → (get_or ss j zero_slot).acked || p (add32 seq (suc j))
          ≡ (get_or ss j zero_slot).acked || q (add32 seq (suc j))
        → (get_or ss j zero_slot).acked || p (add32 (add32 seq 1) j)
          ≡ (get_or ss j zero_slot).acked || q (add32 (add32 seq 1) j)
    tail_same j f = let g : add32 (add32 seq 1) j ≡ add32 seq (suc j) = omega arith in rw g f

pub mark_none : (seq : ℕ) (ss : List SendSlot) → mark (λ n. false) seq ss ≡ ss
mark_none seq [] = refl
mark_none seq (s ∷ ss) =
    ap₂ ◌∷◌ (ap (λ (b : Bool). record s { acked = b }) (or_false s.acked))
      (mark_none (add32 seq 1) ss)
  where
    or_false : (a : Bool) → a || false ≡ a
    or_false a = ground arith

pub mark_miss :
    (p : ℕ → Bool) (seq : ℕ) (ss : List SendSlot)
    → seq < 2 ^ 32
    → ((j : ℕ) → j < length ss → p (add32 seq j) ≡ false)
    → mark p seq ss ≡ ss
mark_miss p seq ss h e =
    mark_same p (λ n. false) seq ss h
      (λ j l. ap (λ (b : Bool). (get_or ss j zero_slot).acked || b) (e j l))
    ∙ mark_none seq ss

-- Marking one packet is a write to it.
pub mark_one :
    (seq j : ℕ) (ss : List SendSlot)
    → seq < 2 ^ 32
    → j < length ss
    → length ss < 2 ^ 32
    → mark (λ n. n == add32 seq j) seq ss
      ≡ set ss j (record (get_or ss j zero_slot) { acked = true })
mark_one seq j [] h l k = absurd (omega arith)
mark_one seq zero (s ∷ ss) h l k =
    let e : s.acked || seq == add32 seq 0 ≡ true = ground arith in
    ap₂ ◌∷◌ (ap (λ (b : Bool). record s { acked = b }) e)
      (mark_miss (λ n. n == add32 seq 0) (add32 seq 1) ss (omega arith) λ i g. ground arith)
mark_one seq (suc j) (s ∷ ss) h l k =
    let e : s.acked || seq == add32 seq (suc j) ≡ s.acked = ground arith in
    let f : add32 seq (suc j) ≡ add32 (add32 seq 1) j = omega arith in
    ap₂ ◌∷◌ (ap (λ (b : Bool). record s { acked = b }) e) (
      ap (λ (t : ℕ). mark (λ n. n == t) (add32 seq 1) ss) f
      ∙ mark_one (add32 seq 1) j ss (omega arith) (omega arith) (omega arith))

-- Marking an outstanding packet keeps the numbers, and takes it from the count.
pub Numbered-set :
    (seq j : ℕ) (ss : List SendSlot)
    → Numbered seq ss
    → Numbered seq (set ss j (record (get_or ss j zero_slot) { acked = true }))
Numbered-set seq j [] n = tt
Numbered-set seq zero (s ∷ ss) n = n
Numbered-set seq (suc j) (s ∷ ss) n = (n.0, n.1, Numbered-set (add32 seq 1) j ss n.2)

pub unacked-set :
    (j : ℕ) (ss : List SendSlot)
    → j < length ss
    → (get_or ss j zero_slot).acked ≡ false
    → unacked ss ≡ suc (unacked (set ss j (record (get_or ss j zero_slot) { acked = true })))
unacked-set j [] l e = absurd (omega arith)
unacked-set zero (s ∷ ss) l e = omega (arith, if_false {A = ℕ} 0 1 e)
unacked-set (suc j) (s ∷ ss) l e = omega (arith, unacked-set j ss (omega arith) e)

pub Numbered-get :
    (seq j : ℕ) (ss : List SendSlot)
    → seq < 2 ^ 32
    → Numbered seq ss
    → j < length ss
    → ((get_or ss j zero_slot).in_use ≡ true) × ((get_or ss j zero_slot).seq_num ≡ add32 seq j)
Numbered-get seq j [] h n l = absurd (omega arith)
Numbered-get seq zero (s ∷ ss) h n l = (n.0, n.1 ∙ omega arith)
Numbered-get seq (suc j) (s ∷ ss) h n l =
    let q = Numbered-get (add32 seq 1) j ss (omega arith) n.2 (omega arith) in
    (q.0, q.1 ∙ omega arith)
