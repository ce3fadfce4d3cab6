-- ===== src/Window/Send/Reclaim.antt =====
-- `rel4u_send_window_reclaim_unacked`: the packets that go back to the queue.
use mathlib.Core.List.{append_assoc, append-nil}
use native.Mathlib.Decide.{ℕ_discrete}
use rel4u.Prelude.{
  ℕ, zero, suc, ◌+◌, ◌^◌, ◌≤◌, ◌<◌, ◌≡◌, refl, sym, ap, subst, ◌∙◌, Bool, true, false, not, ◌&&◌,
  ◌||◌, List, [], ◌∷◌, ◌++◌, inl, inr, Bool-cases, if_true, if_false, arith, if◌then◌else◌, length,
  length-append, get_or, take, drop-nil,
}
use rel4u.Prelude.Ring.{segment, segment_snoc, length-segment}
use rel4u.Seq.{add32, sub32, seq_gt}
use rel4u.Mpmc.Defs.{Item, Queue, max_msg_size, make_slot, push_front_fixed, push_front_locked}
use rel4u.Mpmc.Ops.{push_front}
use rel4u.Mpmc.Fixed.{IsRing, contents, evict, spec_push_front}
use rel4u.Mpmc.Fixed.Refine.{push_front_refines, push_front_locked-IsRing}
use rel4u.Window.Index.{slot_index, slot_index-lt, slot_index-add32}
use rel4u.Window.Send.{
  SendSlot, SendWindow, zero_slot, slot_of, holds, is_null, is_reliable, reclaimed_item,
  reclaim_slot, reclaim_loop, reclaim_unacked,
}
use rel4u.Window.Send.Inv.{outstanding, Numbered, IsSendWindow}

-- The packets that are to be delivered still, as items.
abbrev pub goes_back : SendSlot → Bool
goes_back s = not s.acked && is_reliable s.delivery_mode

-- The message of a packet, with the packet's mode.
abbrev pub message_of : SendSlot → Item
message_of s = record {
  client_id = 0;
  mode = s.delivery_mode;
  len = s.payload_len;
  bytes = take s.payload_len s.payload;
}

reclaimed_item-message_of : (s : SendSlot) → reclaimed_item s ≡ message_of s
unfolding reclaimed_item
reclaimed_item-message_of s =
    ap
      (λ bytes. record {
        client_id = 0;
        mode = s.delivery_mode;
        len = s.payload_len;
        bytes = bytes;
      })
      (ap (λ rest. take s.payload_len s.payload ++ rest) (drop-nil s.payload_len)
        ∙ append-nil (take s.payload_len s.payload))

abbrev pub undelivered : List SendSlot → List Item
undelivered [] = []
undelivered (s ∷ ss) = if goes_back s then message_of s ∷ undelivered ss else undelivered ss

abbrev pub Fits : List SendSlot → Type 0
Fits [] = Unit {0}
Fits (s ∷ ss) = (s.payload_len ≤ max_msg_size) × Fits ss

undelivered-append :
    (ss : List SendSlot) (s : SendSlot)
    → undelivered (ss ++ s ∷ []) ≡ undelivered ss ++ undelivered (s ∷ [])
undelivered-append [] s = refl
undelivered-append (t ∷ ss) s = elim (Bool-cases (goes_back t)) [
  | inl e ↦
      if_true _ _ e
      ∙ ap (λ (x : List Item). message_of t ∷ x) (undelivered-append ss s)
      ∙ ap (λ (x : List Item). x ++ undelivered (s ∷ [])) (sym (if_true _ _ e))
  | inr e ↦
      if_false _ _ e
      ∙ undelivered-append ss s
      ∙ ap (λ (x : List Item). x ++ undelivered (s ∷ [])) (sym (if_false _ _ e))
]

Numbered-last :
    (seq : ℕ) (ss : List SendSlot) (s : SendSlot)
    → seq < 2 ^ 32
    → Numbered seq (ss ++ s ∷ [])
    → Numbered seq ss × (s.in_use ≡ true) × (s.seq_num ≡ add32 seq (length ss))
Numbered-last seq [] s h n = (tt, n.0, omega (arith, n.1))
Numbered-last seq (t ∷ ss) s h n =
    let r = Numbered-last (add32 seq 1) ss s (omega arith) n.2 in
    ((n.0, n.1, r.0), r.1, omega (arith, r.2))

Fits-last :
    (ss : List SendSlot) (s : SendSlot)
    → Fits (ss ++ s ∷ [])
    → Fits ss × (s.payload_len ≤ max_msg_size)
Fits-last [] s h = (tt, h.0)
Fits-last (t ∷ ss) s h = let r = Fits-last ss s h.1 in ((h.0, r.0), r.1)

-- A push at the front of a ring with room.
push_front-capacity :
    (node_size : ℕ) (mem : Bool) (q : Queue) (x : Item)
    → IsRing q
    → (push_front_locked node_size mem q x).0.capacity ≡ q.capacity
unfolding push_front_locked push_front_fixed make_slot
push_front-capacity node_size mem q x v = let e = v.mode_fixed in ground arith

module _ (node_size : ℕ) (mem : Bool) (q : Queue) (s : SendSlot) (v : IsRing q)
    (fits : s.payload_len ≤ max_msg_size) (room : length (contents q) < q.capacity) where
  pushed_front :
      ((contents (push_front node_size mem q (reclaimed_item s)).0 ≡ message_of s ∷ contents q)
        × ((push_front node_size mem q (reclaimed_item s)).1 ≡ true))
      × IsRing (push_front node_size mem q (reclaimed_item s)).0
      × ((push_front node_size mem q (reclaimed_item s)).0.capacity ≡ q.capacity)
  unfolding push_front reclaimed_item spec_push_front evict
  pushed_front =
      let x = reclaimed_item s in
      let e = push_front_refines node_size mem q x v in
      let f : spec_push_front q.capacity q.full_policy (contents q) x ≡ (x ∷ contents q, true) =
        ground arith in
      (
        (
          ap (λ (r : List Item × Bool). r.0) (e ∙ f)
              ∙ ap (λ y. y ∷ contents q) (reclaimed_item-message_of s),
          ap (λ (r : List Item × Bool). r.1) (e ∙ f),
        ),
        push_front_locked-IsRing node_size mem q x v,
        push_front-capacity node_size mem q x v,
      )

module _ (node_size : ℕ) (mem : ℕ → Bool) (w : SendWindow) (valid : IsSendWindow w) where
  -- The first `k` packets that are outstanding.
  abbrev front : ℕ → List SendSlot
  front k = segment zero_slot w.slots w.capacity (slot_index w.head_seq w.capacity) k

  front_snoc : (k : ℕ) → front (suc k) ≡ front k ++ slot_of w (add32 w.head_seq k) ∷ []
  front_snoc k =
      segment_snoc zero_slot w.slots w.capacity (slot_index w.head_seq w.capacity) k
        (slot_index-lt w.head_seq w.capacity valid.cap_valid)
      ∙ ap (λ (i : ℕ). front k ++ get_or w.slots i zero_slot ∷ [])
          (sym (slot_index-add32 w.head_seq k w.capacity valid.cap_valid))

  -- What has gone back to `q`, and the count, when the packets `ss` have been through the loop.
  record Back (q : Queue) (n : ℕ) (ss : List SendSlot) (r : Queue × ℕ) : Type 0 where
    pub same : contents r.0 ≡ undelivered ss ++ contents q
    pub ring : IsRing r.0
    pub counted : r.1 ≡ n + length (undelivered ss)

  -- One packet of the loop.
  one :
      (seq : ℕ) (q : Queue) (n : ℕ)
      → IsRing q
      → (slot_of w seq).in_use ≡ true
      → (slot_of w seq).seq_num ≡ seq
      → (slot_of w seq).payload_len ≤ max_msg_size
      → length (contents q) + length (undelivered (slot_of w seq ∷ [])) ≤ q.capacity
      → let r = reclaim_slot node_size mem seq w (q, n) in
        Back q n (slot_of w seq ∷ []) r × (r.0.capacity ≡ q.capacity)
  unfolding reclaim_slot
  one seq q n v u e fits room =
      let s = slot_of w seq in
      let p = push_front node_size (mem seq) q (reclaimed_item s) in
      elim (Bool-cases (goes_back s)) [
        | inl g ↦
            let h : (holds s seq && not s.acked && is_reliable s.delivery_mode) ≡ true =
              ground arith in
            let one_more : length (undelivered (s ∷ [])) ≡ 1 =
              ap length (if_true (message_of s ∷ []) [] g) in
            let f = pushed_front node_size (mem seq) q s v fits (omega (arith, one_more)) in
            subst (λ (r : Queue × ℕ). Back q n (s ∷ []) r × (r.0.capacity ≡ q.capacity))
              (sym (if_true _ _ h))
              (
                record {
                  same =
                      f.0.0
                      ∙ ap (λ (x : List Item). x ++ contents q)
                          (sym (if_true (message_of s ∷ []) [] g));
                  ring = f.1;
                  counted = if_true (n + 1) n f.0.1 ∙ omega (arith, one_more);
                },
                f.2,
              )
        | inr g ↦
            let h : (holds s seq && not s.acked && is_reliable s.delivery_mode) ≡ false =
              ground arith in
            let no_more = if_false (message_of s ∷ []) [] g in
            subst (λ (r : Queue × ℕ). Back q n (s ∷ []) r × (r.0.capacity ≡ q.capacity))
              (sym (if_false _ _ h))
              (
                record {
                  same = ap (λ (x : List Item). x ++ contents q) (sym no_more);
                  ring = v;
                  counted = omega (arith, ap length no_more);
                },
                refl,
              )
      ]

  loop :
      (fuel k seq : ℕ) (q : Queue) (n : ℕ)
      → k ≤ fuel
      → k < 2 ^ 31
      → seq ≡ add32 w.head_seq k
      → Numbered w.head_seq (front k)
      → Fits (front k)
      → IsRing q
      → length (contents q) + length (undelivered (front k)) ≤ q.capacity
      → Back q n (front k) (reclaim_loop node_size mem fuel w seq (q, n))
  unfolding reclaim_loop seq_gt
  loop zero zero seq q n l s e m f v room = record { same = refl; ring = v; counted = omega arith }
  loop zero (suc k) seq q n l s e m f v room = absurd (omega arith)
  loop (suc fuel) zero seq q n l s e m f v room =
      subst (Back q n []) (sym (if_false {b = seq_gt seq w.head_seq} _ _ (ground arith)))
        (record { same = refl; ring = v; counted = omega arith })
  loop (suc fuel) (suc k) seq q n l s e m f v room =
      let p = sub32 seq 1 in
      let x = slot_of w p in
      let head_fits = valid.head_fits in
      let at : p ≡ add32 w.head_seq k = omega arith in
      let cut : front (suc k) ≡ front k ++ x ∷ [] =
        front_snoc k ∙ ap (λ (j : ℕ). front k ++ slot_of w j ∷ []) (sym at) in
      let nl = Numbered-last w.head_seq (front k) x head_fits (subst (Numbered w.head_seq) cut m) in
      let fl = Fits-last (front k) x (subst Fits cut f) in
      let both : undelivered (front (suc k)) ≡ undelivered (front k) ++ undelivered (x ∷ []) =
        ap undelivered cut ∙ undelivered-append (front k) x in
      let lengths : length (undelivered (front (suc k)))
          ≡ length (undelivered (front k)) + length (undelivered (x ∷ [])) =
        ap length both ∙ length-append (undelivered (front k)) (undelivered (x ∷ [])) in
      let lk = length-segment zero_slot w.slots w.capacity (slot_index w.head_seq w.capacity) k in
      let o =
        one p q n v nl.1 (nl.2 ∙ ap (λ j. add32 w.head_seq j) lk ∙ sym at) fl.1
          (omega (arith, lengths)) in
      let r = reclaim_slot node_size mem p w (q, n) in
      let more : length (contents r.0) ≡ length (undelivered (x ∷ [])) + length (contents q) =
        ap length o.0.same ∙ length-append (undelivered (x ∷ [])) (contents q) in
      let ih =
        loop fuel k p r.0 r.1 (omega arith) (omega arith) at nl.0 fl.0 o.0.ring
          (omega (arith, lengths, more, o.1)) in
      subst (Back q n (front (suc k)))
        (sym (if_true {b = seq_gt seq w.head_seq} _ _ (ground arith)))
        (record {
          same =
              ih.same
              ∙ ap (λ (t : List Item). undelivered (front k) ++ t) o.0.same
              ∙ sym (append_assoc (undelivered (front k)) (undelivered (x ∷ [])) (contents q))
              ∙ ap (λ (t : List Item). t ++ contents q) (sym both);
          ring = ih.ring;
          counted = omega (arith, ih.counted, o.0.counted, lengths);
        })

-- The packets of a valid window that are reliable and not acknowledged go back to the front of a
-- valid queue in fixed mode, in the order in which they were sent and before what the queue holds, each
-- as a message with the mode, the length and the bytes of the packet, if the queue has room for them and
-- none is longer than 9216 bytes. The call returns how many.
pub reclaim_unacked_lem :
    (node_size : ℕ) (mem : ℕ → Bool) (w : SendWindow) (q : Queue)
    → IsSendWindow w
    → Fits (outstanding w)
    → IsRing q
    → length (contents q) + length (undelivered (outstanding w)) ≤ q.capacity
    → let r = reclaim_unacked node_size mem w q in
      (contents r.0 ≡ undelivered (outstanding w) ++ contents q)
      × IsRing r.0
      × (r.1 ≡ length (undelivered (outstanding w)))
unfolding reclaim_unacked seq_gt
reclaim_unacked_lem node_size mem w q valid f v room =
    let k = sub32 w.next_seq w.head_seq in
    let Done = λ (r : Queue × ℕ).
      (contents r.0 ≡ undelivered (outstanding w) ++ contents q)
      × IsRing r.0
      × (r.1 ≡ length (undelivered (outstanding w))) in
    let not_null : is_null w.slots ≡ false =
      stored w.slots (omega (arith, valid.storage, valid.cap_valid.at_least)) in
    elim (ℕ_discrete k 0) [
      | yes z ↦
          let nothing = ap front_at z in
          subst Done
            (sym (
              if_true {b = is_null w.slots || not (seq_gt w.next_seq w.head_seq)} _ _
                (ground arith)))
            (
              ap (λ (ss : List SendSlot). undelivered ss ++ contents q) (sym nothing),
              v,
              ap (λ (ss : List SendSlot). length (undelivered ss)) (sym nothing),
            )
      | no z ↦
          let b =
            loop node_size mem w valid k k w.next_seq q 0 (omega arith)
              (omega (arith, valid.span_le, valid.cap_valid.at_most))
              (omega (arith, valid.head_fits, valid.next_fits)) valid.numbered f v room in
          let l = valid.span_le in
          let c = valid.cap_valid.at_most in
          subst Done
            (sym (
              if_false {b = is_null w.slots || not (seq_gt w.next_seq w.head_seq)} _ _
                (ground (arith, not_null, l, c))))
            (b.same, b.ring, b.counted ∙ omega arith)
    ]
  where
    front_at : ℕ → List SendSlot
    front_at n = segment zero_slot w.slots w.capacity (slot_index w.head_seq w.capacity) n

    stored : (ss : List SendSlot) → 0 < length ss → is_null ss ≡ false
    stored [] l = absurd (omega arith)
    stored (s ∷ ss) l = refl
