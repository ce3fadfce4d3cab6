-- ===== src/Window/Send/Inv.antt =====
-- The invariant of the send window, and what a push does to the packets that it holds.
use rel4u.Prelude.{
  ℕ, suc, ◌+◌, ◌%◌, ◌^◌, ◌≤◌, ◌<◌, ◌≡◌, refl, sym, ap, ap₂, subst, ◌∙◌, true, false, not, List, [],
  ◌∷◌, ◌++◌, none, some, inl, inr, Bool-cases, arith, ltb, if◌then◌else◌, length, set, length-set,
}
use rel4u.Prelude.Int.{pos, negsuc}
use rel4u.Prelude.Ring.{segment, length-segment, segment-set_end}
use rel4u.Seq.{add32, sub32, seq_diff}
use rel4u.Window.Index.{IsCapacity, slot_index, slot_index-lt, slot_index-add32, max_payload_size}
use rel4u.Window.Send.{
  SendSlot, SendWindow, zero_slot, is_full, can_send, slot_of, put_slot, is_reliable, filled_slot,
  push,
}

-- The packets that have been sent and not yet cumulatively acknowledged, oldest first.
abbrev pub outstanding : SendWindow → List SendSlot
outstanding w =
    segment zero_slot w.slots w.capacity (slot_index w.head_seq w.capacity)
      (sub32 w.next_seq w.head_seq)

-- Slots in use, numbered from `seq` on.
abbrev pub Numbered : ℕ → List SendSlot → Type 0
Numbered seq [] = Unit {0}
Numbered seq (s ∷ ss) = (s.in_use ≡ true) × (s.seq_num ≡ seq) × Numbered (add32 seq 1) ss

abbrev pub unacked : List SendSlot → ℕ
unacked [] = 0
unacked (s ∷ ss) = (if s.acked then 0 else 1) + unacked ss

pub record IsSendWindow (w : SendWindow) : Type 0 where
  pub cap_valid : IsCapacity w.capacity
  pub storage : length w.slots ≡ w.capacity
  pub head_fits : w.head_seq < 2 ^ 32
  pub next_fits : w.next_seq < 2 ^ 32
  pub span_le : sub32 w.next_seq w.head_seq ≤ w.capacity
  pub numbered : Numbered w.head_seq (outstanding w)
  pub counted : w.in_flight ≡ unacked (outstanding w)

pub unacked-le-length : (ss : List SendSlot) → unacked ss ≤ length ss
unacked-le-length [] = omega arith
unacked-le-length (s ∷ ss) = ground (arith, unacked-le-length ss)

pub length-outstanding : (w : SendWindow) → length (outstanding w) ≡ sub32 w.next_seq w.head_seq
length-outstanding w =
    length-segment zero_slot w.slots w.capacity (slot_index w.head_seq w.capacity)
      (sub32 w.next_seq w.head_seq)

unacked-append :
    (ss : List SendSlot) (s : SendSlot)
    → unacked (ss ++ s ∷ []) ≡ unacked ss + (if s.acked then 0 else 1)
unacked-append [] s = omega arith
unacked-append (t ∷ ss) s = omega (arith, unacked-append ss s)

Numbered-append :
    (seq : ℕ) (ss : List SendSlot) (s : SendSlot)
    → seq < 2 ^ 32
    → Numbered seq ss
    → s.in_use ≡ true
    → s.seq_num ≡ add32 seq (length ss)
    → Numbered seq (ss ++ s ∷ [])
Numbered-append seq [] s h n u e = (u, e ∙ omega arith, tt)
Numbered-append seq (t ∷ ss) s h n u e =
    (n.0, n.1, Numbered-append (add32 seq 1) ss s (omega arith) n.2 u (e ∙ omega arith))

-- In a valid window the two tests for room agree, and say whether fewer packets are outstanding than
-- the window has slots.
pub can_send_lem :
    (w : SendWindow)
    → IsSendWindow w
    → (can_send w ≡ ltb (length (outstanding w)) w.capacity) × (is_full w ≡ not (can_send w))
unfolding can_send is_full seq_diff
can_send_lem w v = ground (arith, length-outstanding w, unacked-le-length (outstanding w))

-- A push of a reliable packet into a valid window with room.
put_next : SendWindow → SendSlot → SendWindow
put_next w s = record (put_slot w w.next_seq s) {
  next_seq = add32 w.next_seq 1;
  in_flight = add32 w.in_flight 1;
}

outstanding-put_next :
    (w : SendWindow) (s : SendSlot)
    → IsSendWindow w
    → sub32 w.next_seq w.head_seq < w.capacity
    → outstanding (put_next w s) ≡ outstanding w ++ s ∷ []
unfolding put_next
outstanding-put_next w s v h =
    let c = w.capacity in
    let d = sub32 w.next_seq w.head_seq in
    let h0 = slot_index w.head_seq c in
    let k : c < 2 ^ 31 = v.cap_valid.at_most in
    let e : add32 w.head_seq d ≡ w.next_seq = omega (arith, v.head_fits, v.next_fits) in
    let i : slot_index w.next_seq c ≡ (h0 + d) % c =
      ap (λ t. slot_index t c) (sym e) ∙ slot_index-add32 w.head_seq d c v.cap_valid in
    let n : sub32 (add32 w.next_seq 1) w.head_seq ≡ suc d =
      omega (arith, v.head_fits, v.next_fits) in
    ap₂ (λ j m. segment zero_slot (set w.slots j s) c h0 m) i n
    ∙ segment-set_end zero_slot w.slots c h0 d s (omega (arith, v.storage))
        (slot_index-lt w.head_seq c v.cap_valid) h

put_next-IsSendWindow :
    (w : SendWindow) (s : SendSlot)
    → IsSendWindow w
    → sub32 w.next_seq w.head_seq < w.capacity
    → s.in_use ≡ true
    → s.seq_num ≡ w.next_seq
    → s.acked ≡ false
    → IsSendWindow (put_next w s)
unfolding put_next
put_next-IsSendWindow w s v h u e a =
    let c = w.capacity in
    let d = sub32 w.next_seq w.head_seq in
    let k : c < 2 ^ 31 = v.cap_valid.at_most in
    let o = outstanding-put_next w s v h in
    let l = length-outstanding w in
    let n : s.seq_num ≡ add32 w.head_seq (length (outstanding w)) =
      omega (arith, v.head_fits, v.next_fits, e, l) in
    let f : unacked (outstanding w ++ s ∷ []) ≡ unacked (outstanding w) + 1 =
      ground (arith, unacked-append (outstanding w) s) in
    record {
      cap_valid = v.cap_valid;
      storage = length-set w.slots (slot_index w.next_seq c) s ∙ v.storage;
      head_fits = v.head_fits;
      next_fits = omega arith;
      span_le = omega (arith, v.head_fits, v.next_fits);
      numbered =
          subst (Numbered w.head_seq) (sym o)
            (Numbered-append w.head_seq (outstanding w) s v.head_fits v.numbered u n);
      counted = omega (arith, v.counted, ap unacked o, f, unacked-le-length (outstanding w), l);
    }

-- The test for room, in the words of the code.
is_full_lem :
    (w : SendWindow)
    → IsSendWindow w
    → is_full w ≡ not (ltb (sub32 w.next_seq w.head_seq) w.capacity)
is_full_lem w v =
    let c = can_send_lem w v in
    c.1 ∙ ap not (c.0 ∙ ap (λ n. ltb n w.capacity) (length-outstanding w))

module _ (w : SendWindow) (mode : ℕ) (bytes : List ℕ) (len now_ns : ℕ) (v : IsSendWindow w) where
  -- The packet's slot.
  abbrev packet : SendSlot
  packet = filled_slot (slot_of w w.next_seq) w.next_seq mode bytes len now_ns

  push_room :
      ltb max_payload_size len ≡ false
      → is_reliable mode ≡ true
      → ltb (sub32 w.next_seq w.head_seq) w.capacity ≡ true
      → push w mode bytes len now_ns ≡ (pos 0, put_next w packet, some w.next_seq)
  unfolding push put_next
  push_room l r e = let f = is_full_lem w v in rw (l, r, f, e)

  push_no_room :
      ltb max_payload_size len ≡ false
      → is_reliable mode ≡ true
      → ltb (sub32 w.next_seq w.head_seq) w.capacity ≡ false
      → push w mode bytes len now_ns ≡ (negsuc 1, w, none)
  unfolding push
  push_no_room l r e = let f = is_full_lem w v in rw (l, r, f, e)

  packet-IsSendWindow :
      ltb (sub32 w.next_seq w.head_seq) w.capacity ≡ true → IsSendWindow (put_next w packet)
  unfolding filled_slot
  packet-IsSendWindow e = put_next-IsSendWindow w packet v (ground arith) refl refl refl

  push_unreliable :
      ltb max_payload_size len ≡ false
      → is_reliable mode ≡ false
      → push w mode bytes len now_ns
        ≡ (pos 0, record w { next_unrel_seq = add32 w.next_unrel_seq 1 }, some w.next_unrel_seq)
  unfolding push
  push_unreliable l r = rw (l, r)

  pub push_too_long :
      ltb max_payload_size len ≡ true → push w mode bytes len now_ns ≡ (negsuc 0, w, none)
  unfolding push
  push_too_long l = rw l

  by_room :
      ltb max_payload_size len ≡ false
      → is_reliable mode ≡ true
      → IsSendWindow (push w mode bytes len now_ns).1
  by_room l r = elim (Bool-cases (ltb (sub32 w.next_seq w.head_seq) w.capacity)) [
    | inl e ↦ rw (push_room l r e) (packet-IsSendWindow e)
    | inr e ↦ rw (push_no_room l r e) v
  ]

  by_mode : ltb max_payload_size len ≡ false → IsSendWindow (push w mode bytes len now_ns).1
  by_mode l = elim (Bool-cases (is_reliable mode)) [
    | inl r ↦ by_room l r
    | inr r ↦ rw (push_unreliable l r) v'
  ]
    where
      v' : IsSendWindow (record w { next_unrel_seq = add32 w.next_unrel_seq 1 })
      v' = record {
        cap_valid = v.cap_valid;
        storage = v.storage;
        head_fits = v.head_fits;
        next_fits = v.next_fits;
        span_le = v.span_le;
        numbered = v.numbered;
        counted = v.counted;
      }

  -- A push into a valid window keeps it valid, whatever the mode, the length and the room.
  pub push-IsSendWindow : IsSendWindow (push w mode bytes len now_ns).1
  push-IsSendWindow = elim (Bool-cases (ltb max_payload_size len)) [
    | inl l ↦ rw (push_too_long l) v
    | inr l ↦ by_mode l
  ]

-- A push of a reliable packet that is not too long, by whether there is room.
pub push_filled :
    (w : SendWindow) (mode : ℕ) (bytes : List ℕ) (len now_ns : ℕ)
    → IsSendWindow w
    → is_reliable mode ≡ true
    → len ≤ max_payload_size
    → let (code, r, seq) = push w mode bytes len now_ns in
      let room = ltb (length (outstanding w)) w.capacity in
      let packet = filled_slot (slot_of w w.next_seq) w.next_seq mode bytes len now_ns in
      (code ≡ (if room then pos 0 else negsuc 1))
      × (seq ≡ (if room then some w.next_seq else none))
      × (outstanding r ≡ (if room then outstanding w ++ packet ∷ [] else outstanding w))
      × (r.next_seq ≡ (if room then add32 w.next_seq 1 else w.next_seq))
      × (r.head_seq ≡ w.head_seq)
unfolding put_next
push_filled w mode bytes len now_ns v r h =
    let l : ltb max_payload_size len ≡ false = ground arith in
    rw (length-outstanding w) (elim (Bool-cases (ltb (sub32 w.next_seq w.head_seq) w.capacity)) [
      | inl e ↦
          let p = push_room w mode bytes len now_ns v l r e in
          rw (e, p)
            (
              refl,
              refl,
              outstanding-put_next w (packet w mode bytes len now_ns v) v (ground arith),
              refl,
              refl,
            )
      | inr e ↦
          let p = push_no_room w mode bytes len now_ns v l r e in
          rw (e, p) (refl, refl, refl, refl, refl)
    ])
