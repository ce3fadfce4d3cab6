-- ===== src/Endpoint/Drains.antt =====
-- The loops around `rel4u_recv_window_pop_ready` end by their own tests.
use rel4u.Prelude.{
  ℕ, zero, suc, ◌+◌, ◌-◌, ◌≤◌, ◌<◌, ◌≡◌, refl, sym, ap, subst, Bool, true, false, ◌&&◌, List, none,
  some, ◌⊎◌, inl, inr, ◌^◌, if_intro, arith, ltb, ◌==◌, length, length-append,
}
use rel4u.Prelude.Int.{ℤ, pos}
use rel4u.Mpmc.Defs.{Queue}
use rel4u.Window.Recv.{
  RecvSlot, RecvWindow, pop_step, pass_expected, rounds, pop_ready, refusal, kept, on_packet,
}
use rel4u.Window.Recv.Inv.{
  IsRecvWindow, kept_count, kept_count-le-length, kept_count-pass_expected, pop_step-Passes,
  rounds-none, rounds-some,
}
use rel4u.Packet.{Header}
use rel4u.Packet.DeliveryMode
use rel4u.Window.Recv.Modes.{
  pop_ready_lem, kept_lem, on_reliable_ordered-cases, on_packet-IsRecvWindow,
}
use rel4u.Window.Recv.Once.{by_ordered, pop_ready-capacity}
use rel4u.Endpoint.Incoming.{on_data-IsRecvWindow}
use rel4u.Endpoint.Inbox.{max_ready, is_code, push_all, pop_all, pop_more, on_data}

at_most_one :
    (places : ℕ) (w v : RecvWindow) (out : List RecvSlot)
    → pop_step places w ≡ some (v, out)
    → length out ≤ 1
unfolding pop_step
at_most_one places w v out e = ground arith

no_more_than_places :
    (places : ℕ) (w v : RecvWindow) (out : List RecvSlot)
    → pop_step places w ≡ some (v, out)
    → length out ≤ places
unfolding pop_step
no_more_than_places places w v out e = ground arith

length-rounds :
    (fuel places : ℕ) (w : RecvWindow) → length (rounds pop_step fuel places w).1 ≤ places
unfolding rounds
length-rounds zero places w = omega arith
length-rounds (suc fuel) places w = elim (pop_step-Passes places w) [
  | inl e ↦
      subst (λ (r : RecvWindow × List RecvSlot). length r.1 ≤ places)
        (sym (rounds-none pop_step fuel places w e)) (omega arith)
  | inr (out, e, h) ↦
      let v = pass_expected w in
      let rest = rounds pop_step fuel (places - length out) v in
      subst (λ (r : RecvWindow × List RecvSlot). length r.1 ≤ places)
        (sym (rounds-some pop_step fuel places w v out e))
        (omega (
          arith,
          length-append out rest.1,
          length-rounds fuel (places - length out) v,
          no_more_than_places places w v out e,
        ))
]

-- What is handed out was kept.
rounds-kept_count :
    (fuel places : ℕ) (w : RecvWindow)
    → let r = rounds pop_step fuel places w in
      kept_count r.0.slots + length r.1 ≤ kept_count w.slots
unfolding rounds
rounds-kept_count zero places w = omega arith
rounds-kept_count (suc fuel) places w = elim (pop_step-Passes places w) [
  | inl e ↦
      subst
        (λ (r : RecvWindow × List RecvSlot). kept_count r.0.slots + length r.1 ≤ kept_count w.slots)
        (sym (rounds-none pop_step fuel places w e)) (omega arith)
  | inr (out, e, h) ↦
      let v = pass_expected w in
      let rest = rounds pop_step fuel (places - length out) v in
      subst
        (λ (r : RecvWindow × List RecvSlot). kept_count r.0.slots + length r.1 ≤ kept_count w.slots)
        (sym (rounds-some pop_step fuel places w v out e))
        (omega (
          arith,
          length-append out rest.1,
          rounds-kept_count fuel (places - length out) v,
          kept_count-pass_expected w h,
          at_most_one places w v out e,
        ))
]

pop_ready-kept_count :
    (w : RecvWindow)
    → let r = pop_ready w max_ready in kept_count r.1.slots + length r.2 ≤ kept_count w.slots
unfolding pop_ready
pop_ready-kept_count w = rounds-kept_count (suc (length w.slots)) max_ready w

length-pop_ready : (w : RecvWindow) → length (pop_ready w max_ready).2 ≤ max_ready
unfolding pop_ready
length-pop_ready w = length-rounds (suc (length w.slots)) max_ready w

-- Nothing is due: the packet that the window waits for is not there.
abbrev pub Settled : RecvWindow → Type 0
Settled w = pop_step max_ready w ≡ none

-- A loop that ends with places left ends because nothing is due.
pop_step-Settled : (places : ℕ) (w : RecvWindow) → 0 < places → pop_step places w ≡ none → Settled w
unfolding pop_step
pop_step-Settled places w l e = ground arith

module _ (node_size : ℕ) (mem : ℕ → Bool) (client_id : ℕ) where
  pop_all-Settled :
      (fuel : ℕ) (w : RecvWindow) (q : Queue)
      → IsRecvWindow w
      → kept_count w.slots < fuel
      → Settled (pop_all node_size mem client_id fuel w q).0
  unfolding pop_all
  pop_all-Settled zero w q v l = absurd (omega arith)
  pop_all-Settled (suc fuel) w q v l =
      let r = pop_ready w max_ready in
      let p = pop_ready_lem w max_ready v (omega arith) in
      let k = pop_ready-kept_count w in
      if_intro (λ (t : RecvWindow × Queue). Settled t.0) (is_code 0 r.0 && ltb 0 (length r.2))
        (λ e.
          let some_out : 0 < length r.2 = ground arith in
          pop_all-Settled fuel r.1 (push_all node_size mem client_id q r.2) p.1 (omega arith))
        (λ e.
          let zero_code = ap (is_code 0) p.0 in
          let nothing : length r.2 ≡ 0 = ground arith in
          pop_step-Settled (max_ready - length r.2) r.1 (omega arith) p.3)

  pop_more-Settled :
      (fuel ready_count : ℕ) (w : RecvWindow) (q : Queue)
      → IsRecvWindow w
      → kept_count w.slots < fuel
      → (ready_count < max_ready → Settled w)
      → ready_count ≤ max_ready
      → Settled (pop_more node_size mem client_id fuel ready_count w q).0
  unfolding pop_more
  pop_more-Settled zero ready_count w q v l h c = absurd (omega arith)
  pop_more-Settled (suc fuel) ready_count w q v l h c =
      let r = pop_ready w max_ready in
      let p = pop_ready_lem w max_ready v (omega arith) in
      let k = pop_ready-kept_count w in
      let Good = λ (t : RecvWindow × Queue). Settled t.0 in
      if_intro Good (ready_count == max_ready)
        (λ f.
          if_intro Good (is_code 0 r.0 && ltb 0 (length r.2))
            (λ e.
              let some_out : 0 < length r.2 = ground arith in
              pop_more-Settled fuel (length r.2) r.1 (push_all node_size mem client_id q r.2) p.1
                (omega arith)
                (λ (m : length r.2 < max_ready).
                  pop_step-Settled (max_ready - length r.2) r.1 (omega arith) p.3)
                (length-pop_ready w))
            (λ e.
              let zero_code = ap (is_code 0) p.0 in
              let nothing : length r.2 ≡ 0 = ground arith in
              pop_step-Settled (max_ready - length r.2) r.1 (omega arith) p.3))
        (λ f. h (ground (arith, f, c)))

no_zero :
    (w : RecvWindow) (seq : ℕ) (code : ℤ) → refusal w seq ≡ some code → is_code 0 code ≡ true → ⊥
unfolding refusal
no_zero w seq code f z = ground arith

neither : (c : ℤ) → (c ≡ pos 0) ⊎ (c ≡ pos 1) → is_code 0 c ≡ false → is_code 1 c ≡ false → ⊥
neither c (inl e) f g = let h = ap (is_code 0) e in ground arith
neither c (inr e) f g = let h = ap (is_code 1) e in ground arith

-- What the window answers to a reliable ordered packet that it takes.
taken-Settled :
    (w : RecvWindow) (hdr : Header) (payload : List ℕ)
    → IsRecvWindow w
    → hdr.seq_num < 2 ^ 32
    → hdr.delivery_mode ≡ DeliveryMode.reliable_ordered
    → let r = on_packet w hdr payload max_ready in
      is_code 0 r.0 ≡ true → (length r.2 ≤ max_ready) × (length r.2 < max_ready → Settled r.1)
taken-Settled w hdr payload v h m =
    let P = λ (a : ℤ × RecvWindow × List RecvSlot).
      is_code 0 a.0 ≡ true → (length a.2 ≤ max_ready) × (length a.2 < max_ready → Settled a.1) in
    subst P (sym (by_ordered hdr m max_ready (omega arith) w payload))
      (elim (on_reliable_ordered-cases w hdr payload v h max_ready) [
        | inl (code, f, e) ↦ subst P (sym e) (λ z. absurd (no_zero w hdr.seq_num code f z))
        | inr (t, e) ↦
            let k = kept w hdr payload in
            let p = pop_ready_lem k max_ready (kept_lem w hdr payload v h t.0).0 (omega arith) in
            subst P (sym e) (λ z. (
              length-pop_ready k,
              λ l.
                  pop_step-Settled (max_ready - length (pop_ready k max_ready).2)
                    (pop_ready k max_ready).1 (omega arith) p.3,
            ))
      ])

on_packet-capacity :
    (w : RecvWindow) (hdr : Header) (payload : List ℕ)
    → IsRecvWindow w
    → hdr.seq_num < 2 ^ 32
    → hdr.delivery_mode ≡ DeliveryMode.reliable_ordered
    → (on_packet w hdr payload max_ready).1.capacity ≡ w.capacity
unfolding kept
on_packet-capacity w hdr payload v h m =
    let Same = λ (a : ℤ × RecvWindow × List RecvSlot). a.1.capacity ≡ w.capacity in
    subst Same (sym (by_ordered hdr m max_ready (omega arith) w payload))
      (elim (on_reliable_ordered-cases w hdr payload v h max_ready) [
        | inl (code, f, e) ↦ subst Same (sym e) refl
        | inr (t, e) ↦ subst Same (sym e) (pop_ready-capacity (kept w hdr payload) max_ready)
      ])

-- After a reliable ordered packet that the window takes or knows already, nothing is due: the loops
-- that hand out what the window keeps run to their own end, however many packets it keeps, and the
-- packet that the window waits for is not there. The window stays valid.
pub on_data-Settled :
    (node_size : ℕ) (mem : ℕ → Bool) (client_id : ℕ) (w : RecvWindow) (q : Queue) (hdr : Header)
    (payload : List ℕ)
    → IsRecvWindow w
    → hdr.seq_num < 2 ^ 32
    → hdr.delivery_mode ≡ DeliveryMode.reliable_ordered
    → ((on_packet w hdr payload max_ready).0 ≡ pos 0)
      ⊎ ((on_packet w hdr payload max_ready).0 ≡ pos 1)
    → let r = (on_data node_size mem client_id w q hdr payload).0 in Settled r × IsRecvWindow r
unfolding on_data
on_data-Settled node_size mem client_id w q hdr payload v h m code =
    let r = on_packet w hdr payload max_ready in
    let u = on_packet-IsRecvWindow w hdr payload max_ready v h in
    let fuel = suc (length w.slots) in
    let enough : kept_count r.1.slots < fuel = omega (
      arith,
      kept_count-le-length r.1.slots,
      u.storage,
      v.storage,
      on_packet-capacity w hdr payload v h m,
    ) in
    let Good = λ (t : RecvWindow × Queue × Bool). Settled t.0 in
    (
      if_intro Good (is_code 0 r.0)
          (λ e.
            let t = taken-Settled w hdr payload v h m e in
            pop_more-Settled node_size mem client_id fuel (length r.2) r.1
              (push_all node_size mem client_id q r.2) u enough t.1 t.0)
          (λ e.
            if_intro Good (is_code 1 r.0)
              (λ f. pop_all-Settled node_size mem client_id fuel r.1 q u enough)
              (λ f. absurd (neither r.0 code e f))),
      on_data-IsRecvWindow node_size mem client_id w q hdr payload v h,
    )
