-- ===== src/Window/Recv/AckInfo.antt =====
-- `rel4u_recv_window_get_ack_info`: what the mask tells of the packets that the window keeps.
use native.Mathlib.Decide.{dec_lt, ℕ_discrete}
use rel4u.Prelude.{
  ℕ, zero, suc, ◌+◌, ◌%◌, ◌^◌, ◌≤◌, ◌<◌, ◌≡◌, ◌≢◌, sym, ap, ◌∙◌, Bool, false, ◌&&◌, ◌||◌, none,
  map_if, if_intro, arith, ltb, leb, ◌==◌, if◌then◌else◌, get_or, get_or-beyond, bit_or,
}
use native.Mathlib.Nat.{mod-lt, mod-add-mod}
use rel4u.Prelude.Digits.{bit, bit-zero, bit-set, bit_or-lt, pow-lt}
use rel4u.Seq.{add32, sub32}
use rel4u.Window.Index.{slot_index, slot_index-add32}
use rel4u.Window.Recv.{RecvSlot, RecvWindow, slot_of, zero_slot, holds, mask_loop, get_ack_info}
use rel4u.Window.Recv.Inv.{IsRecvWindow}
use rel4u.Window.Recv.Deliver.{buffer, content}
use rel4u.Window.Recv.Accept.{is_some, holds_at, buffer_at}
use rel4u.Window.Recv.Once.{length-buffer}

-- The window keeps the packet that is `k` numbers beyond the expected one.
abbrev pub keeps : RecvWindow → ℕ → Bool
keeps w k = is_some (get_or (buffer w) k none)

module _ (w : RecvWindow) (v : IsRecvWindow w) where
  -- The test of the code for the packet of bit `k`.
  abbrev pub marked : ℕ → Bool
  marked k = holds (slot_of w (add32 w.expected_seq k)) (add32 w.expected_seq k)

  marked-near : (k : ℕ) → k < w.capacity → marked k ≡ keeps w k
  marked-near k l =
      let e : sub32 (add32 w.expected_seq k) w.expected_seq ≡ k =
        omega (arith, v.expected_fits, v.cap_valid.at_most) in
      holds_at w v (add32 w.expected_seq k) (omega arith) (omega (arith, e, l)) ∙ ap (keeps w) e

  -- A number a capacity or more ahead meets the slot of a nearer one.
  marked-far : (k : ℕ) → w.capacity ≤ k → k < 2 ^ 31 → marked k ≡ false
  marked-far k g b =
      let c = w.capacity in
      let near = k % c in
      let l : near < c = mod-lt k (omega (arith, v.cap_valid.at_least)) in
      let i : slot_index (add32 w.expected_seq k) c ≡ slot_index (add32 w.expected_seq near) c =
        slot_index-add32 w.expected_seq k c v.cap_valid
        ∙ round (slot_index w.expected_seq c) k c
        ∙ sym (slot_index-add32 w.expected_seq near c v.cap_valid) in
      let q = add32 w.expected_seq near in
      let a : sub32 q w.expected_seq ≡ near = omega (arith, v.expected_fits, v.cap_valid.at_most) in
      let in_reach : sub32 q w.expected_seq < c = omega (arith, a, l) in
      let there : holds (slot_of w q) q ≡ is_some (content (slot_of w q)) =
        holds_at w v q (omega arith) in_reach
        ∙ ap is_some (buffer_at w v q (omega arith) in_reach) in
      let same = ap (λ (j : ℕ). get_or w.slots j zero_slot) i in
      rw same (
        other_number (slot_of w q) q (add32 w.expected_seq k) there
          (omega (arith, v.expected_fits, v.cap_valid.at_most)))
    where
      round : (h k c : ℕ) → (h + k) % c ≡ (h + k % c) % c
      round h k c =
          ap (λ (t : ℕ). t % c) (omega arith)
          ∙ sym (mod-add-mod k c h)
          ∙ ap (λ (t : ℕ). t % c) (omega arith)

      other_number :
          (x : RecvSlot) (q r : ℕ) → holds x q ≡ is_some (content x) → q ≢ r → holds x r ≡ false
      other_number x q r e n = ground (arith, e, n)

  marked-keeps : (k : ℕ) → k < 2 ^ 31 → marked k ≡ keeps w k
  marked-keeps k b = elim (dec_lt k w.capacity) [
    | yes l ↦ marked-near k l
    | no f ↦
        marked-far k (omega arith) b
        ∙ sym (ap is_some (get_or-beyond (buffer w) k none (omega (arith, length-buffer w, f))))
  ]

mask_loop-bit :
    (n i : ℕ) (w : RecvWindow) (v : IsRecvWindow w) (mask k : ℕ)
    → bit (mask_loop n i w mask) k ≡ bit mask k || (leb i k && ltb k (i + n) && marked w v k)
unfolding mask_loop
mask_loop-bit zero i w v mask k = ground arith
mask_loop-bit (suc n) i w v mask k =
    let hit = marked w v i in
    mask_loop-bit n (i + 1) w v (if hit then bit_or mask (2 ^ i) else mask) k
    ∙ ap (λ b. b || (leb (i + 1) k && ltb k (i + 1 + n) && marked w v k))
        (map_if (λ m. bit m k) hit (bit_or mask (2 ^ i)) mask
          ∙ ap (λ b. if hit then b else bit mask k) (bit-set mask i k))
    ∙ one_more (ℕ_discrete k i)
  where
    by_number :
        (a b c : Bool)
        → k ≡ i
        → b ≡ c
        → (if b then a || k == i else a) || (leb (i + 1) k && ltb k (i + 1 + n) && c)
          ≡ a || (leb i k && ltb k (i + suc n) && c)
    by_number a b c e f = ground arith

    by_other :
        (a b c : Bool)
        → k ≢ i
        → (if b then a || k == i else a) || (leb (i + 1) k && ltb k (i + 1 + n) && c)
          ≡ a || (leb i k && ltb k (i + suc n) && c)
    by_other a b c e = ground arith

    one_more :
        Dec (k ≡ i)
        → (if marked w v i then bit mask k || k == i else bit mask k)
            || (leb (i + 1) k && ltb k (i + 1 + n) && marked w v k)
          ≡ bit mask k || (leb i k && ltb k (i + suc n) && marked w v k)
    one_more (yes e) =
        by_number (bit mask k) (marked w v i) (marked w v k) e (ap (marked w v) (sym e))
    one_more (no f) = by_other (bit mask k) (marked w v i) (marked w v k) f

-- Bit `k` of the mask says whether the window keeps the packet that is `k` numbers beyond the expected
-- one, for each of the 32 bits, also where the window is smaller; no other bit is set.
pub get_ack_info_lem :
    (w : RecvWindow)
    → IsRecvWindow w
    → (k : ℕ) → bit (get_ack_info w).1 k ≡ (ltb k 32 && is_some (get_or (buffer w) k none))
unfolding get_ack_info
get_ack_info_lem w v k =
    mask_loop-bit 32 0 w v 0 k
    ∙ ap (λ b. b || (leb 0 k && ltb k (0 + 32) && marked w v k)) (bit-zero k)
    ∙ within (dec_lt k 32)
  where
    within :
        Dec (k < 32)
        → false || (leb 0 k && ltb k (0 + 32) && marked w v k) ≡ (ltb k 32 && keeps w k)
    within (yes l) = let m = marked-keeps w v k (omega arith) in ground (arith, m)
    within (no f) = ground arith

mask_loop-lt :
    (n i : ℕ) (w : RecvWindow) (mask : ℕ)
    → i + n ≤ 32
    → mask < 2 ^ 32
    → mask_loop n i w mask < 2 ^ 32
unfolding mask_loop
mask_loop-lt zero i w mask l h = h
mask_loop-lt (suc n) i w mask l h =
    let seq = add32 w.expected_seq i in
    mask_loop-lt n (i + 1) w (if holds (slot_of w seq) seq then bit_or mask (2 ^ i) else mask)
      (omega arith)
      (if_intro (λ m. m < 2 ^ 32) (holds (slot_of w seq) seq)
        (λ e. bit_or-lt 32 mask (2 ^ i) h (pow-lt i 32 (omega arith))) (λ e. h))

-- Both numbers fit their fields.
pub get_ack_info-lt :
    (w : RecvWindow) → ((get_ack_info w).0 < 2 ^ 32) × ((get_ack_info w).1 < 2 ^ 32)
unfolding get_ack_info
get_ack_info-lt w = (omega arith, mask_loop-lt 32 0 w 0 (omega arith) (omega arith))
