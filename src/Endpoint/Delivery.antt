-- ===== src/Endpoint/Delivery.antt =====
-- A data packet that a receive window waits for: what reaches the queue of the application.
use rel4u.Prelude.{
  Bool, ◌-◌, ◌^◌, ◌<◌, ◌==◌, if◌then◌else◌, if_true, if_false, Bool-cases, inl, inr, memcpy, get_or,
  set, subst, length, ℕ, zero, suc, ◌≡◌, refl, sym, ap, ◌∙◌, true, false, List, [], ◌∷◌, Option,
  none, some, map, arith, take, replicate,
}
use rel4u.Prelude.Int.{ℤ, pos}
use rel4u.Seq.{sub32}
use rel4u.Packet.{Header}
use rel4u.Packet.DeliveryMode
use rel4u.Window.Recv.{RecvSlot, RecvWindow, slot_of, kept, on_packet}
use rel4u.Mpmc.Defs.{Queue}
use rel4u.Mpmc.Ops.{push_notify}
use rel4u.Endpoint.Inbox.{max_ready, is_code, slot_item, push_all, pop_more, on_data}
use rel4u.Window.Recv.Inv.{IsRecvWindow, view}
use rel4u.Window.Recv.Accept.{is_some, put_slot_lem}
use rel4u.Window.Recv.Modes.{
  Takes, on_reliable_ordered-cases, pop_ready_lem, kept_lem, refusal-none,
}
use rel4u.Window.Recv.Once.{by_ordered}
use rel4u.Window.Recv.Deliver.{content, buffer, delivered, run, pop_stop}

-- Behind a packet that is kept and before one that is not, a loop stops.
run-stops :
    (places n : ℕ) (ss : List RecvSlot)
    → map content ss ≡ replicate n none
    → run pop_stop places ss ≡ 0
run-stops places n [] e = refl
run-stops places zero (s ∷ ss) e = absurd (cc)
run-stops places (suc n) (s ∷ ss) e = let c : content s ≡ none = cc in ground (arith, c)

content-some : (s x : RecvSlot) → content s ≡ some x → (s.received ≡ true) × (s ≡ x)
content-some s x e = elim (Bool-cases s.received) [
  | inl r ↦ let f : content s ≡ some s = if_true _ _ r in (r, cc)
  | inr r ↦ let f : content s ≡ none = if_false _ _ r in absurd (cc)
]

alone :
    (ss : List RecvSlot) (x : RecvSlot) (n : ℕ)
    → map content ss ≡ some x ∷ replicate n none
    → x.delivery_mode ≡ DeliveryMode.reliable_ordered
    → delivered (take (run pop_stop 64 ss) ss) ≡ x ∷ []
alone [] x n e m = absurd (cc)
alone (s ∷ ss) x n e m =
    let c : content s ≡ some x = cc in
    let rest : map content ss ≡ replicate n none = cc in
    let (r, same) = content-some s x c in
    let z =
      run-stops (64 - (if s.delivery_mode == DeliveryMode.reliable_ordered then 1 else 0)) n ss
        rest in
    let one : run pop_stop 64 (s ∷ ss) ≡ 1 = ground (arith, r, z) in
    ap (λ k. delivered (take k (s ∷ ss))) one
    ∙ ap (λ y. delivered (y ∷ [])) same
    ∙ delivered_lem x m
  where
    delivered_lem :
        (x : RecvSlot)
        → x.delivery_mode ≡ DeliveryMode.reliable_ordered
        → delivered (x ∷ []) ≡ x ∷ []
    delivered_lem x m = ground (arith, m)

pop_more_ends :
    (node_size : ℕ) (mem : ℕ → Bool) (client_id fuel n : ℕ) (w : RecvWindow) (q : Queue)
    → n ≡ 1
    → pop_more node_size mem client_id (suc fuel) n w q ≡ (w, q)
unfolding pop_more
pop_more_ends node_size mem client_id fuel n w q e =
    if_false {b = n == max_ready} _ _ (ground (arith, e))

module _ (w : RecvWindow) (hdr : Header) (payload : List ℕ) (v : IsRecvWindow w)
    (now : hdr.seq_num ≡ w.expected_seq) (mode : hdr.delivery_mode ≡ DeliveryMode.reliable_ordered)
    (nothing : buffer w ≡ replicate w.capacity none) where
  -- The slot of the packet.
  abbrev pub slot : RecvSlot
  slot = record {
    seq_num = hdr.seq_num;
    payload_len = hdr.payload_len;
    delivery_mode = hdr.delivery_mode;
    received = true;
    payload = memcpy (slot_of w hdr.seq_num).payload payload hdr.payload_len;
  }

  seq_fits : hdr.seq_num < 2 ^ 32
  seq_fits = omega (arith, now, v.expected_fits)

  here : sub32 hdr.seq_num w.expected_seq ≡ 0
  here = omega (arith, now, v.expected_fits)

  Takes-expected : Takes w hdr.seq_num
  Takes-expected = (
    omega (arith, here, v.cap_valid.at_least),
    ap (λ i. is_some (get_or (buffer w) i none)) here
        ∙ ap (λ os. is_some (get_or os 0 none)) nothing
        ∙ free w.capacity,
  )
    where
      free : (n : ℕ) → is_some (get_or {A = Option RecvSlot} (replicate n none) 0 none) ≡ false
      free zero = refl
      free (suc n) = refl

  kept_alone : buffer (kept w hdr payload) ≡ some slot ∷ replicate (w.capacity - 1) none
  unfolding kept
  kept_alone =
      let p = put_slot_lem w v hdr.seq_num seq_fits slot (Takes-expected.0) refl refl in
      p.1
      ∙ ap (λ i. set (buffer w) i (some slot)) here
      ∙ ap (λ os. set os 0 (some slot)) nothing
      ∙ at_front w.capacity (omega (arith, v.cap_valid.at_least))
    where
      at_front :
          (n : ℕ)
          → 0 < n
          → set (replicate n none) 0 (some slot) ≡ some slot ∷ replicate (n - 1) none
      at_front zero h = absurd (omega (arith, h))
      at_front (suc n) h = ap (λ (k : ℕ). some slot ∷ replicate k none) (omega arith)

  -- It is put out at once, alone.
  on_packet_alone : let r = on_packet w hdr payload 64 in (r.0 ≡ pos 0) × (r.2 ≡ slot ∷ [])
  on_packet_alone =
      let e0 = by_ordered hdr mode 64 (omega arith) w payload in
      let Alone = λ (r : ℤ × RecvWindow × List RecvSlot). (r.0 ≡ pos 0) × (r.2 ≡ slot ∷ []) in
      subst Alone (sym e0) (elim (on_reliable_ordered-cases w hdr payload v seq_fits 64) [
        | inl (code, f, e) ↦
            let g = refusal-none w hdr.seq_num v seq_fits Takes-expected in absurd (cc)
        | inr (t, e) ↦
            let k = kept_lem w hdr payload v seq_fits Takes-expected.0 in
            let d = pop_ready_lem (kept w hdr payload) 64 k.0 (omega arith) in
            subst Alone (sym e)
              (d.0, d.2.0 ∙ alone (view (kept w hdr payload)) slot (w.capacity - 1) kept_alone mode)
      ])

  -- The loop behind it asks for no more, and the queue gets the message.
  pub on_data_alone :
      (node_size : ℕ) (mem : ℕ → Bool) (client_id : ℕ) (q : Queue)
      → (on_data node_size mem client_id w q hdr payload).1
        ≡ (push_notify node_size (mem hdr.seq_num) q (slot_item client_id slot)).0
  unfolding on_data push_all
  on_data_alone node_size mem client_id q =
      let r = on_packet w hdr payload max_ready in
      let p = on_packet_alone in
      let pushed = push_all node_size mem client_id q r.2 in
      let one : length r.2 ≡ 1 = ap length p.1 in
      let accepted = if_true {b = is_code 0 r.0} _ _ (ap (is_code 0) p.0) in
      ap (λ (t : RecvWindow × Queue × Bool). t.1) accepted
      ∙ ap (λ (t : RecvWindow × Queue). t.1)
          (pop_more_ends node_size mem client_id (length w.slots) (length r.2) r.1 pushed one)
      ∙ ap (push_all node_size mem client_id q) p.1
