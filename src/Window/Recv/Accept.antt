-- ===== src/Window/Recv/Accept.antt =====
-- Which packets the receive window takes, and what becomes of them.
use mathlib.Core.Path.{◌≡◌, refl, sym, ap, ap₂, subst, ◌∙◌}
use native.Mathlib.Decide.{dec_lt}
use rel4u.Prelude.{
  ℕ, zero, suc, ◌+◌, ◌%◌, ◌^◌, ◌<◌, Bool, true, false, not, ◌||◌, List, [], ◌∷◌, map, Option, none,
  some, if_true, arith, leb, ◌==◌, if◌then◌else◌, length, get_or, set, length-set,
}
use rel4u.Prelude.Int.{ℤ, pos, negsuc, ltb_ℤ, leb_ℤ, to_int32}
use rel4u.Prelude.Ring.{length-segment, get_or-segment, segment-set}
use rel4u.Seq.{add32, sub32, seq_lt, seq_diff}
use rel4u.Window.Index.{slot_index, slot_index-lt, slot_index-add32}
use rel4u.Window.Recv.{RecvSlot, RecvWindow, zero_slot, slot_of, put_slot, holds, refusal}
use rel4u.Window.Recv.Inv.{view, InPlace, IsRecvWindow}
use rel4u.Window.Recv.Deliver.{buffer, content}

abbrev pub is_some : Option RecvSlot → Bool
is_some none = false
is_some (some s) = true

get_or-buffer :
    (ss : List RecvSlot) (j : ℕ) → get_or (map content ss) j none ≡ content (get_or ss j zero_slot)
get_or-buffer [] j = refl
get_or-buffer (s ∷ ss) zero = refl
get_or-buffer (s ∷ ss) (suc j) = get_or-buffer ss j

set-buffer :
    (ss : List RecvSlot) (j : ℕ) (x : RecvSlot)
    → x.received ≡ true
    → map content (set ss j x) ≡ set (map content ss) j (some x)
set-buffer [] j x e = refl
set-buffer (s ∷ ss) zero x e = ap (λ o. o ∷ map content ss) (if_true (some x) none e)
set-buffer (s ∷ ss) (suc j) x e = ap (λ os. content s ∷ os) (set-buffer ss j x e)

InPlace-get :
    (seq j : ℕ) (ss : List RecvSlot)
    → seq < 2 ^ 32
    → InPlace seq ss
    → j < length ss
    → (not (get_or ss j zero_slot).received || (get_or ss j zero_slot).seq_num == add32 seq j)
      ≡ true
InPlace-get seq j [] h n l = absurd (omega arith)
InPlace-get seq zero (s ∷ ss) h n l =
    let e : add32 seq 0 ≡ seq = omega arith in ap (λ k. not s.received || s.seq_num == k) e ∙ n.0
InPlace-get seq (suc j) (s ∷ ss) h n l =
    let e : add32 seq (suc j) ≡ add32 (add32 seq 1) j = omega arith in
    ap (λ k. not (get_or ss j zero_slot).received || (get_or ss j zero_slot).seq_num == k) e
    ∙ InPlace-get (add32 seq 1) j ss (omega arith) n.1 (omega arith)

InPlace-set :
    (seq j : ℕ) (ss : List RecvSlot) (x : RecvSlot)
    → seq < 2 ^ 32
    → InPlace seq ss
    → x.seq_num ≡ add32 seq j
    → InPlace seq (set ss j x)
InPlace-set seq j [] x h n e = tt
InPlace-set seq zero (s ∷ ss) x h n e = (ground arith, n.1)
InPlace-set seq (suc j) (s ∷ ss) x h n e =
    (n.0, InPlace-set (add32 seq 1) j ss x (omega arith) n.1 (omega arith))

-- The tests for a packet at a signed distance, in a window that keeps it or not.
abbrev codes : ℤ → ℕ → Bool → Option ℤ
codes d c b =
    if ltb_ℤ d (pos 0)
    then some (pos 1)
    else if leb_ℤ (to_int32 c) d
    then some (negsuc 1)
    else if b
    then some (pos 1)
    else none

codes_lem :
    (d c : ℕ) (b : Bool)
    → c < 2 ^ 31
    → codes (to_int32 d) c b ≡ (
        if leb (2 ^ 31) d
        then some (pos 1)
        else if leb c d
        then some (negsuc 1)
        else if b
        then some (pos 1)
        else none)
codes_lem d c b h = ground arith

far :
    (d c : ℕ) (a b : Bool)
    → ¬ d < c
    → (if leb (2 ^ 31) d
        then some (pos 1)
        else if leb c d
        then some (negsuc 1)
        else if a
        then some (pos 1)
        else none)
      ≡ (if leb (2 ^ 31) d
          then some (pos 1)
          else if leb c d
          then some (negsuc 1)
          else if b
          then some (pos 1)
          else none)
far d c a b f = ground arith

module _ (w : RecvWindow) (v : IsRecvWindow w) (seq : ℕ) (fits : seq < 2 ^ 32) where
  -- How far the packet is from the expected one.
  abbrev pub ahead : ℕ
  ahead = sub32 seq w.expected_seq

  abbrev h0 : ℕ
  h0 = slot_index w.expected_seq w.capacity

  seq_at : add32 w.expected_seq ahead ≡ seq
  seq_at = omega (arith, v.expected_fits)

  slot_at : slot_index seq w.capacity ≡ (h0 + ahead) % w.capacity
  slot_at =
      ap (λ n. slot_index n w.capacity) (sym seq_at)
      ∙ slot_index-add32 w.expected_seq ahead w.capacity v.cap_valid

  view_at : ahead < w.capacity → get_or (view w) ahead zero_slot ≡ slot_of w seq
  view_at l =
      get_or-segment zero_slot w.slots w.capacity h0 w.capacity ahead
        (slot_index-lt w.expected_seq w.capacity v.cap_valid) l
      ∙ ap (λ i. get_or w.slots i zero_slot) (sym slot_at)

  pub buffer_at : ahead < w.capacity → get_or (buffer w) ahead none ≡ content (slot_of w seq)
  buffer_at l = get_or-buffer (view w) ahead ∙ ap content (view_at l)

  pub holds_at :
      ahead < w.capacity → holds (slot_of w seq) seq ≡ is_some (get_or (buffer w) ahead none)
  holds_at l =
      let p =
        InPlace-get w.expected_seq ahead (view w) v.expected_fits v.in_place
          (omega (arith, length-segment zero_slot w.slots w.capacity h0 w.capacity, l)) in
      let q : (not (slot_of w seq).received || (slot_of w seq).seq_num == seq) ≡ true =
        ap₂ (λ (s : RecvSlot) (n : ℕ). not s.received || s.seq_num == n) (sym (view_at l))
          (sym seq_at)
        ∙ p in
      ground (arith, q) ∙ ap is_some (sym (buffer_at l))

  -- A window refuses what lies behind the expected packet, what lies beyond the capacity, and what it
  -- keeps.
  pub refusal_lem : refusal w seq ≡ (
      if leb (2 ^ 31) ahead
      then some (pos 1)
      else if leb w.capacity ahead
      then some (negsuc 1)
      else if is_some (get_or (buffer w) ahead none)
      then some (pos 1)
      else none)
  unfolding refusal seq_lt seq_diff
  refusal_lem = elim (dec_lt ahead w.capacity) [
    | yes l ↦
        ap (λ b. codes (to_int32 ahead) w.capacity b) (holds_at l)
        ∙ codes_lem ahead w.capacity (is_some (get_or (buffer w) ahead none)) v.cap_valid.at_most
    | no f ↦
        codes_lem ahead w.capacity (holds (slot_of w seq) seq) v.cap_valid.at_most
        ∙ far ahead w.capacity (holds (slot_of w seq) seq) (is_some (get_or (buffer w) ahead none))
            f
  ]

  -- A packet that is put into its slot.
  pub put_slot_lem :
      (x : RecvSlot)
      → ahead < w.capacity
      → x.seq_num ≡ seq
      → x.received ≡ true
      → IsRecvWindow (put_slot w seq x)
        × (buffer (put_slot w seq x) ≡ set (buffer w) ahead (some x))
  put_slot_lem x l e r =
      let o =
        segment-set zero_slot w.slots w.capacity h0 w.capacity ahead (slot_index seq w.capacity) x
          (omega (arith, v.storage)) (slot_index-lt w.expected_seq w.capacity v.cap_valid)
          (omega arith) l slot_at in
      (
        record {
          cap_valid = v.cap_valid;
          storage = length-set w.slots (slot_index seq w.capacity) x ∙ v.storage;
          expected_fits = v.expected_fits;
          in_place = subst (InPlace w.expected_seq) (sym o) (
              InPlace-set w.expected_seq ahead (view w) x v.expected_fits v.in_place
                (e ∙ sym seq_at));
        },
        ap (map content) o ∙ set-buffer (view w) ahead x r,
      )
