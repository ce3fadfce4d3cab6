-- ===== src/Window/Recv/Once.antt =====
-- A reliable packet that arrives again.
use mathlib.Core.Path.{◌≡◌, refl, sym, ap, ap₂, ◌∙◌}
use native.Mathlib.Decide.{dec_lt}
use rel4u.Prelude.{
  ℕ, zero, suc, ◌+◌, ◌-◌, ◌^◌, ◌≤◌, ◌<◌, ◌≢◌, Bool, true, List, [], ◌∷◌, map, Option, none, some,
  ◌⊎◌, inl, inr, if_true, if_false, if_intro, arith, ◌==◌, length, get_or, set, drop, replicate,
  get_or-drop, get_or-append, length-drop,
}
use rel4u.Prelude.Int.{pos}
use rel4u.Prelude.Ring.{length-segment}
use rel4u.Seq.{sub32}
use rel4u.Packet.{Header}
use rel4u.Packet.DeliveryMode
use rel4u.Window.Index.{slot_index}
use rel4u.Window.Recv.{
  RecvSlot, RecvWindow, zero_slot, pop_step, drain_step, pop_ready, refusal, noted, kept, on_packet,
  on_reliable_unordered, on_reliable_ordered,
}
use rel4u.Window.Recv.Inv.{
  view, IsRecvWindow, rounds-capacity, pop_step-Passes, drain_step-Passes, kept_count,
  kept_count-le-length,
}
use rel4u.Window.Recv.Deliver.{
  buffer, content, run, run-le-length, pop_stop, drain_stop, Drained, rounds-Drained,
  drain_step-StepsBy,
}
use rel4u.Window.Recv.Accept.{is_some, refusal_lem}
use rel4u.Window.Recv.Modes.{
  Answer, noted_lem, kept_lem, on_reliable_ordered-cases, on_reliable_unordered-cases, noted_rounds,
  takes_noted, pop_ready_lem,
}

length-map : (f : RecvSlot → Option RecvSlot) (ss : List RecvSlot) → length (map f ss) ≡ length ss
length-map f [] = refl
length-map f (s ∷ ss) = ap suc (length-map f ss)

-- A packet that the window keeps is refused once a loop has gone over the window.
module _ (stop : ℕ → RecvSlot → Bool) (places : ℕ) (w : RecvWindow) (r : RecvWindow × List RecvSlot)
    (seq : ℕ) where
  abbrev d : ℕ
  d = sub32 seq w.expected_seq

  refused_after :
      IsRecvWindow w
      → IsRecvWindow r.0
      → seq < 2 ^ 32
      → d < w.capacity
      → is_some (get_or (buffer w) d none) ≡ true
      → r.0.capacity ≡ w.capacity
      → Drained stop places w r
      → refusal r.0 seq ≡ some (pos 1)
  refused_after v v' h l s c a =
      let n = run stop places (view w) in
      let lv =
        length-segment zero_slot w.slots w.capacity (slot_index w.expected_seq w.capacity)
          w.capacity in
      let nl : n ≤ w.capacity = omega (arith, run-le-length stop places (view w), lv) in
      let lb = length-map content (view w) ∙ lv in
      refusal_lem r.0 v' seq h ∙ (elim (dec_lt d n) [
        | yes p ↦
            let behind : 2 ^ 31 ≤ sub32 seq r.0.expected_seq =
              omega (arith, a.1, v.cap_valid.at_most, v.expected_fits) in
            ground (arith, behind)
        | no p ↦
            let e : sub32 seq r.0.expected_seq ≡ d - n =
              omega (arith, a.1, v.cap_valid.at_most, v.expected_fits) in
            let there : get_or (buffer r.0) (sub32 seq r.0.expected_seq) none
                ≡ get_or (buffer w) d none =
              ap₂ (λ (os : List (Option RecvSlot)) (j : ℕ). get_or os j none) a.2 e
              ∙ get_or-append (drop n (buffer w)) (replicate n none) (d - n) none
                  (omega (arith, length-drop n (buffer w), lb))
              ∙ get_or-drop (n + (d - n)) n (d - n) none (buffer w) refl
              ∙ ap (λ j. get_or (buffer w) j none) (omega arith) in
            let k = ap is_some there ∙ s in ground (arith, k, e, l, c, v.cap_valid.at_most)
      ])

pub set-is_some :
    (os : List (Option RecvSlot)) (j : ℕ) (x : RecvSlot)
    → j < length os
    → is_some (get_or (set os j (some x)) j none) ≡ true
set-is_some [] j x l = absurd (omega arith)
set-is_some (o ∷ os) zero x l = refl
set-is_some (o ∷ os) (suc j) x l = set-is_some os j x (omega arith)

pub length-buffer : (w : RecvWindow) → length (buffer w) ≡ w.capacity
length-buffer w =
    length-map content (view w)
    ∙ length-segment zero_slot w.slots w.capacity (slot_index w.expected_seq w.capacity) w.capacity

pub pop_ready-capacity :
    (w : RecvWindow) (max_ready : ℕ) → (pop_ready w max_ready).1.capacity ≡ w.capacity
unfolding pop_ready
pop_ready-capacity w max_ready =
    if_intro (λ (a : Answer). a.1.capacity ≡ w.capacity) (max_ready == 0) (λ e. refl)
      (λ e. rounds-capacity pop_step pop_step-Passes (suc (length w.slots)) max_ready w)

refusal-ne : (w : RecvWindow) (seq : ℕ) → refusal w seq ≢ some (pos 0)
unfolding refusal
refusal-ne w seq e = ground arith

-- The answer of either reliable mode to a packet that it takes leaves a window that refuses it.
module _ (w : RecvWindow) (hdr : Header) (payload : List ℕ) (v : IsRecvWindow w)
    (h : hdr.seq_num < 2 ^ 32) (max_ready : ℕ) (p : 0 < max_ready) where
  ordered_refused :
      (on_reliable_ordered w hdr payload max_ready).0 ≡ pos 0
      → refusal (on_reliable_ordered w hdr payload max_ready).1 hdr.seq_num ≡ some (pos 1)
  unfolding kept
  ordered_refused z = elim (on_reliable_ordered-cases w hdr payload v h max_ready) [
    | inl (code, f, e) ↦
        absurd (refusal-ne w hdr.seq_num (f ∙ ap some (ap (λ (a : Answer). a.0) (sym e) ∙ z)))
    | inr (t, e) ↦
        let k = kept_lem w hdr payload v h t.0 in
        let q = pop_ready_lem (kept w hdr payload) max_ready k.0 p in
        let r = pop_ready (kept w hdr payload) max_ready in
        ap (λ (a : Answer). refusal a.1 hdr.seq_num) e
        ∙ refused_after pop_stop max_ready (kept w hdr payload) (r.1, r.2) hdr.seq_num k.0 q.1 h t.0
            (ap (λ os. is_some (get_or os (sub32 hdr.seq_num w.expected_seq) none)) k.1.1
              ∙ set-is_some (buffer w) (sub32 hdr.seq_num w.expected_seq) k.1.0
                  (omega (arith, length-buffer w, t.0)))
            (pop_ready-capacity (kept w hdr payload) max_ready) q.2
  ]

  unordered_refused :
      (on_reliable_unordered w hdr payload max_ready).0 ≡ pos 0
      → refusal (on_reliable_unordered w hdr payload max_ready).1 hdr.seq_num ≡ some (pos 1)
  unfolding noted
  unordered_refused z = elim (on_reliable_unordered-cases w hdr payload v h max_ready) [
    | inl (code, f, e) ↦
        absurd (refusal-ne w hdr.seq_num (f ∙ ap some (ap (λ (a : Answer). a.0) (sym e) ∙ z)))
    | inr (t, e) ↦
        let k = noted_lem w hdr payload v h t.0 in
        let fuel = suc (length w.slots) in
        let enough : kept_count (noted w hdr).slots < fuel =
          omega (arith, kept_count-le-length (noted w hdr).slots, k.0.storage, v.storage) in
        ap (λ (a : Answer). refusal a.1 hdr.seq_num) e
        ∙ refused_after drain_stop (max_ready - 1) (noted w hdr)
            (noted_rounds w hdr payload v h max_ready) hdr.seq_num k.0
            (takes_noted w hdr payload v h t.0 max_ready) h t.0
            (ap (λ os. is_some (get_or os (sub32 hdr.seq_num w.expected_seq) none)) k.1
              ∙ set-is_some (buffer w) (sub32 hdr.seq_num w.expected_seq) _
                  (omega (arith, length-buffer w, t.0)))
            (rounds-capacity drain_step drain_step-Passes fuel (max_ready - 1) (noted w hdr))
            (rounds-Drained drain_stop drain_step drain_step-StepsBy fuel (max_ready - 1)
              (noted w hdr) k.0 enough)
  ]

-- How the modes are told apart.
by_unordered :
    (hdr : Header)
    → hdr.delivery_mode ≡ DeliveryMode.reliable_unordered
    → (max_ready : ℕ) → 0 < max_ready
    → (w : RecvWindow) (payload : List ℕ)
    → on_packet w hdr payload max_ready ≡ on_reliable_unordered w hdr payload max_ready
unfolding on_packet
by_unordered hdr e max_ready p w payload =
    if_false {b = max_ready == 0} _ _ (ground arith)
    ∙ if_false {b = hdr.delivery_mode == DeliveryMode.unreliable_unordered} _ _ (ground arith)
    ∙ if_false {b = hdr.delivery_mode == DeliveryMode.unreliable_ordered} _ _ (ground arith)
    ∙ if_true {b = hdr.delivery_mode == DeliveryMode.reliable_unordered} _ _ (ground arith)

pub by_ordered :
    (hdr : Header)
    → hdr.delivery_mode ≡ DeliveryMode.reliable_ordered
    → (max_ready : ℕ) → 0 < max_ready
    → (w : RecvWindow) (payload : List ℕ)
    → on_packet w hdr payload max_ready ≡ on_reliable_ordered w hdr payload max_ready
unfolding on_packet
by_ordered hdr e max_ready p w payload =
    if_false {b = max_ready == 0} _ _ (ground arith)
    ∙ if_false {b = hdr.delivery_mode == DeliveryMode.unreliable_unordered} _ _ (ground arith)
    ∙ if_false {b = hdr.delivery_mode == DeliveryMode.unreliable_ordered} _ _ (ground arith)
    ∙ if_false {b = hdr.delivery_mode == DeliveryMode.reliable_unordered} _ _ (ground arith)
    ∙ if_true {b = hdr.delivery_mode == DeliveryMode.reliable_ordered} _ _ (ground arith)

unordered_answer :
    (u : RecvWindow) (hdr : Header) (payload : List ℕ) (max_ready : ℕ)
    → refusal u hdr.seq_num ≡ some (pos 1)
    → on_reliable_unordered u hdr payload max_ready ≡ (pos 1, u, [])
unfolding on_reliable_unordered
unordered_answer u hdr payload max_ready t = rw (t, on_reliable_unordered) refl

pub ordered_answer :
    (u : RecvWindow) (hdr : Header) (payload : List ℕ) (max_ready : ℕ)
    → refusal u hdr.seq_num ≡ some (pos 1)
    → on_reliable_ordered u hdr payload max_ready ≡ (pos 1, u, [])
unfolding on_reliable_ordered
ordered_answer u hdr payload max_ready t = rw (t, on_reliable_ordered) refl

-- Once a valid window has taken a packet in one of the two reliable modes, it takes no other with the
-- same sequence number and mode: `on_packet` answers 1, puts nothing out and changes nothing, whether
-- the first has been delivered since or is still kept.
pub on_packet_once :
    (w : RecvWindow) (hdr : Header) (payload again : List ℕ) (max_ready max_again : ℕ)
    → IsRecvWindow w
    → hdr.seq_num < 2 ^ 32
    → 0 < max_ready
    → 0 < max_again
    → (hdr.delivery_mode ≡ DeliveryMode.reliable_unordered)
      ⊎ (hdr.delivery_mode ≡ DeliveryMode.reliable_ordered)
    → (on_packet w hdr payload max_ready).0 ≡ pos 0
    → let r = on_packet w hdr payload max_ready in
      on_packet r.1 hdr again max_again ≡ (pos 1, r.1, [])
on_packet_once w hdr payload again max_ready max_again v h p q m z = elim m [
  | inl e ↦
      let f = by_unordered hdr e max_ready p in
      let g = by_unordered hdr e max_again q in
      let s =
        unordered_refused w hdr payload v h max_ready p
          (ap (λ (a : Answer). a.0) (sym (f w payload)) ∙ z) in
      let t = ap (λ (a : Answer). refusal a.1 hdr.seq_num) (f w payload) ∙ s in
      g (on_packet w hdr payload max_ready).1 again
      ∙ unordered_answer (on_packet w hdr payload max_ready).1 hdr again max_again t
  | inr e ↦
      let f = by_ordered hdr e max_ready p in
      let g = by_ordered hdr e max_again q in
      let s =
        ordered_refused w hdr payload v h max_ready p
          (ap (λ (a : Answer). a.0) (sym (f w payload)) ∙ z) in
      let t = ap (λ (a : Answer). refusal a.1 hdr.seq_num) (f w payload) ∙ s in
      g (on_packet w hdr payload max_ready).1 again
      ∙ ordered_answer (on_packet w hdr payload max_ready).1 hdr again max_again t
]
