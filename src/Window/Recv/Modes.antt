-- ===== src/Window/Recv/Modes.antt =====
-- The modes of delivery: what becomes of a packet that arrives.
use mathlib.Core.Path.{◌≡◌, refl, sym, subst, ◌∙◌}
use rel4u.Prelude.{
  ℕ, suc, ◌-◌, ◌^◌, ◌<◌, true, false, not, ◌||◌, List, [], ◌∷◌, none, some, ◌⊎◌, inl, inr,
  Option-cases, if_false, if_intro, arith, ◌==◌, length, get_or, set,
}
use rel4u.Prelude.Int.{ℤ, pos, negsuc}
use rel4u.Seq.{sub32, seq_gt}
use rel4u.Packet.{Header}
use rel4u.Packet.DeliveryMode
use rel4u.Window.Recv.{
  RecvSlot, RecvWindow, slot_of, pop_step, drain_step, rounds, pop_ready, refusal, noted, kept,
  on_packet, on_unreliable_ordered, on_reliable_unordered, on_reliable_ordered, direct_slot,
}
use rel4u.Window.Recv.Inv.{
  IsRecvWindow, rounds-IsRecvWindow, rounds-end, pop_step-Passes, drain_step-Passes, kept_count,
  kept_count-le-length,
}
use rel4u.Window.Recv.Deliver.{buffer, pop_stop, Drained, rounds-Drained, pop_step-StepsBy}
use rel4u.Window.Recv.Accept.{is_some, refusal_lem, put_slot_lem}

-- What a call returns and what it leaves.
abbrev pub Answer : Type 0
Answer = ℤ × RecvWindow × List RecvSlot

-- Out of a valid window with room for at least one slot, `pop_ready` hands out the packets kept from
-- the expected one on, up to the first that is missing or as many as there is room for: those of
-- them that wait for their turn, in sequence. The window stays valid, expects the packet behind
-- these, and keeps the others. The loop has ended by its own test.
pub pop_ready_lem :
    (w : RecvWindow) (max_ready : ℕ)
    → IsRecvWindow w
    → 0 < max_ready
    → let r = pop_ready w max_ready in
      (r.0 ≡ pos 0)
      × IsRecvWindow r.1
      × Drained pop_stop max_ready w (r.1, r.2)
      × (pop_step (max_ready - length r.2) r.1 ≡ none)
unfolding pop_ready
pop_ready_lem w max_ready v p =
    let fuel = suc (length w.slots) in
    let enough : kept_count w.slots < fuel = omega (arith, kept_count-le-length w.slots) in
    let e : (max_ready == 0) ≡ false = ground arith in
    let r = rounds pop_step fuel max_ready w in
    subst
      (λ (a : Answer).
        (a.0 ≡ pos 0)
        × IsRecvWindow a.1
        × Drained pop_stop max_ready w (a.1, a.2)
        × (pop_step (max_ready - length a.2) a.1 ≡ none))
      (sym (if_false (negsuc 0, w, []) (pos 0, r.0, r.1) e))
      (
        refl,
        rounds-IsRecvWindow pop_step pop_step-Passes fuel max_ready w v,
        rounds-Drained pop_stop pop_step pop_step-StepsBy fuel max_ready w v enough,
        rounds-end pop_step pop_step-Passes fuel max_ready w enough,
      )

-- Where the window would take the packet.
abbrev pub Takes : RecvWindow → ℕ → Type 0
Takes w seq =
    (sub32 seq w.expected_seq < w.capacity)
    × (is_some (get_or (buffer w) (sub32 seq w.expected_seq) none) ≡ false)

pub takes :
    (w : RecvWindow) (seq : ℕ) → IsRecvWindow w → seq < 2 ^ 32 → refusal w seq ≡ none → Takes w seq
takes w seq v h e = let f = sym (refusal_lem w v seq h) ∙ e in ground (arith, f)

pub refusal-none :
    (w : RecvWindow) (seq : ℕ) → IsRecvWindow w → seq < 2 ^ 32 → Takes w seq → refusal w seq ≡ none
refusal-none w seq v h (l, b) = refusal_lem w v seq h ∙ ground (arith, v.cap_valid.at_most)

-- The window that a reliable packet is put into, in both modes.
module _ (w : RecvWindow) (hdr : Header) (payload : List ℕ) (v : IsRecvWindow w)
    (h : hdr.seq_num < 2 ^ 32) where
  pub noted_lem :
      sub32 hdr.seq_num w.expected_seq < w.capacity
      → IsRecvWindow (noted w hdr)
        × (buffer (noted w hdr)
            ≡ set (buffer w) (sub32 hdr.seq_num w.expected_seq) (
                some (record (slot_of w hdr.seq_num) {
                  received = true;
                  seq_num = hdr.seq_num;
                  payload_len = hdr.payload_len;
                  delivery_mode = hdr.delivery_mode;
                })))
  unfolding noted
  noted_lem l = put_slot_lem w v hdr.seq_num h _ l refl refl

  pub kept_lem :
      sub32 hdr.seq_num w.expected_seq < w.capacity
      → IsRecvWindow (kept w hdr payload)
        × ((x : RecvSlot) × (buffer (kept w hdr payload)
              ≡ set (buffer w) (sub32 hdr.seq_num w.expected_seq) (some x)))
  unfolding kept
  kept_lem l = let p = put_slot_lem w v hdr.seq_num h _ l refl refl in (p.0, (_, p.1))

  -- The two ways that an answer for a reliable packet comes about.
  pub on_reliable_ordered-cases :
      (max_ready : ℕ)
      → ((code : ℤ) × (refusal w hdr.seq_num ≡ some code)
          × (on_reliable_ordered w hdr payload max_ready ≡ (code, w, [])))
        ⊎ (Takes w hdr.seq_num
            × (on_reliable_ordered w hdr payload max_ready
                ≡ pop_ready (kept w hdr payload) max_ready))
  unfolding on_reliable_ordered
  on_reliable_ordered-cases max_ready = elim (Option-cases (refusal w hdr.seq_num)) [
    | inl e ↦ inr (takes w hdr.seq_num v h e, rw (e, on_reliable_ordered) refl)
    | inr (code, e) ↦ inl (code, e, rw (e, on_reliable_ordered) refl)
  ]

  abbrev pub noted_rounds : ℕ → RecvWindow × List RecvSlot
  noted_rounds max_ready = rounds drain_step (suc (length w.slots)) (max_ready - 1) (noted w hdr)

  pub on_reliable_unordered-cases :
      (max_ready : ℕ)
      → ((code : ℤ) × (refusal w hdr.seq_num ≡ some code)
          × (on_reliable_unordered w hdr payload max_ready ≡ (code, w, [])))
        ⊎ (Takes w hdr.seq_num
            × (on_reliable_unordered w hdr payload max_ready ≡ (
              pos 0,
              (noted_rounds max_ready).0,
              direct_slot hdr payload ∷ (noted_rounds max_ready).1,
            )))
  unfolding on_reliable_unordered
  on_reliable_unordered-cases max_ready = elim (Option-cases (refusal w hdr.seq_num)) [
    | inl e ↦ inr (takes w hdr.seq_num v h e, rw (e, on_reliable_unordered) refl)
    | inr (code, e) ↦ inl (code, e, rw (e, on_reliable_unordered) refl)
  ]

  pub takes_noted :
      sub32 hdr.seq_num w.expected_seq < w.capacity
      → (max_ready : ℕ) → IsRecvWindow (noted_rounds max_ready).0
  takes_noted l max_ready =
      rounds-IsRecvWindow drain_step drain_step-Passes (suc (length w.slots)) (max_ready - 1)
        (noted w hdr) (noted_lem l).0

  on_reliable-IsRecvWindow :
      (max_ready : ℕ)
      → 0 < max_ready
      → IsRecvWindow (on_reliable_ordered w hdr payload max_ready).1
        × IsRecvWindow (on_reliable_unordered w hdr payload max_ready).1
  on_reliable-IsRecvWindow max_ready p = (
    elim (on_reliable_ordered-cases max_ready) [
      | inl (code, f, e) ↦ subst (λ (a : Answer). IsRecvWindow a.1) (sym e) v
      | inr (t, e) ↦
          subst (λ (a : Answer). IsRecvWindow a.1) (sym e)
            (pop_ready_lem (kept w hdr payload) max_ready (kept_lem t.0).0 p).1
    ],
    elim (on_reliable_unordered-cases max_ready) [
      | inl (code, f, e) ↦ subst (λ (a : Answer). IsRecvWindow a.1) (sym e) v
      | inr (t, e) ↦ subst (λ (a : Answer). IsRecvWindow a.1) (sym e) (takes_noted t.0 max_ready)
    ],
  )

  on_unreliable_ordered-IsRecvWindow : IsRecvWindow (on_unreliable_ordered w hdr payload).1
  unfolding on_unreliable_ordered
  on_unreliable_ordered-IsRecvWindow =
      if_intro (λ (a : Answer). IsRecvWindow a.1)
        (not w.has_highest_unrel || seq_gt hdr.seq_num w.highest_unrel_seq)
        (λ e. record {
          cap_valid = v.cap_valid;
          storage = v.storage;
          expected_fits = v.expected_fits;
          in_place = v.in_place;
        })
        (λ e. v)

-- Whatever packet arrives, in whatever mode and with whatever room for the output, a valid window
-- stays valid: the capacity and the number of slots do not change, and each packet that is kept lies
-- less than a capacity behind the expected one, in the slot of its sequence number.
pub on_packet-IsRecvWindow :
    (w : RecvWindow) (hdr : Header) (payload : List ℕ) (max_ready : ℕ)
    → IsRecvWindow w
    → hdr.seq_num < 2 ^ 32
    → IsRecvWindow (on_packet w hdr payload max_ready).1
unfolding on_packet
on_packet-IsRecvWindow w hdr payload max_ready v h =
    let Valid = λ (a : Answer). IsRecvWindow a.1 in
    if_intro Valid (max_ready == 0) (λ e. v)
      λ e.
        let p : 0 < max_ready = ground (arith, e) in
        let reliable = on_reliable-IsRecvWindow w hdr payload v h max_ready p in
        if_intro Valid (hdr.delivery_mode == DeliveryMode.unreliable_unordered) (λ m. v)
          λ m.
            if_intro Valid (hdr.delivery_mode == DeliveryMode.unreliable_ordered)
              (λ n. on_unreliable_ordered-IsRecvWindow w hdr payload v h)
              λ n.
                if_intro Valid (hdr.delivery_mode == DeliveryMode.reliable_unordered)
                  (λ k. reliable.1)
                  λ k.
                    if_intro Valid (hdr.delivery_mode == DeliveryMode.reliable_ordered)
                      (λ l. reliable.0) λ l. v
