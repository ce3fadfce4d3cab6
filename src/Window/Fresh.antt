-- ===== src/Window/Fresh.antt =====
-- The windows that `rel4u_send_window_init` and `rel4u_recv_window_init` set up.
use rel4u.Prelude.{
  ℕ, zero, suc, ◌+◌, ◌%◌, ◌^◌, ◌<◌, ◌≡◌, refl, sym, ap, subst, true, false, not, ◌||◌, [], some,
  if_false, if_intro, arith, ◌==◌, replicate, length-replicate, get_or-replicate,
}
use rel4u.Prelude.Ring.{segment}
use rel4u.Prelude.Int.{ℤ}
use rel4u.Seq.{add32, sub32}
use rel4u.Window.Index.{IsCapacity, slot_index, bad_capacity, bad_capacity-IsCapacity}
use rel4u.Window.Send
use rel4u.Window.Send.Inv.{outstanding, Numbered, unacked, IsSendWindow}
use rel4u.Window.Recv
use rel4u.Window.Recv.Inv.{InPlace, IsRecvWindow}

pub outstanding-fresh : (capacity seq : ℕ) → outstanding (Send.fresh capacity seq) ≡ []
outstanding-fresh capacity seq =
    let none_out : sub32 seq seq ≡ 0 = omega arith in
    ap
      (λ (n : ℕ).
        segment Send.zero_slot (replicate capacity Send.zero_slot) capacity
          (slot_index seq capacity) n)
      none_out

pub empty-IsSendWindow :
    (capacity seq : ℕ) → IsCapacity capacity → seq < 2 ^ 32 → IsSendWindow (Send.fresh capacity seq)
empty-IsSendWindow capacity seq c h =
    let o = outstanding-fresh capacity seq in
    record {
      cap_valid = c;
      storage = length-replicate capacity Send.zero_slot;
      head_fits = h;
      next_fits = h;
      span_le = omega arith;
      numbered = subst (Numbered seq) (sym o) tt;
      counted = ap unacked (sym o);
    }

pub fresh-IsSendWindow :
    (capacity seq : ℕ)
    → bad_capacity capacity ≡ false
    → capacity < 2 ^ 31
    → seq < 2 ^ 32
    → IsSendWindow (Send.fresh capacity seq)
fresh-IsSendWindow capacity seq e l h =
    empty-IsSendWindow capacity seq (bad_capacity-IsCapacity capacity e l) h

-- Resetting keeps a window valid.
pub send_reset-IsSendWindow :
    (w : Send.SendWindow) (seq : ℕ)
    → IsSendWindow w
    → seq < 2 ^ 32
    → IsSendWindow (Send.reset w seq).1
unfolding Send.reset
send_reset-IsSendWindow w seq v h =
    if_intro (λ (r : ℤ × Send.SendWindow). IsSendWindow r.1)
      (Send.is_null w.slots || w.capacity == 0) (λ e. v)
      (λ e. empty-IsSendWindow w.capacity seq v.cap_valid h)

-- A window size that passes the test of the code and fits an `int32_t` gives a valid and empty send
-- window, if there is memory for it.
pub send_init_lem :
    (capacity seq : ℕ)
    → bad_capacity capacity ≡ false
    → capacity < 2 ^ 31
    → seq < 2 ^ 32
    → (w : Send.SendWindow) × (Send.init true capacity seq ≡ some w)
      × IsSendWindow w
      × (outstanding w ≡ [])
unfolding Send.init
send_init_lem capacity seq e l h = (
  Send.fresh capacity seq,
  if_false _ _ e,
  fresh-IsSendWindow capacity seq e l h,
  outstanding-fresh capacity seq,
)

InPlace-replicate :
    (c h seq n : ℕ) → InPlace seq (segment Recv.zero_slot (replicate c Recv.zero_slot) c h n)
InPlace-replicate c h seq zero = tt
InPlace-replicate c h seq (suc n) = (
  ap (λ (s : Recv.RecvSlot). not s.received || s.seq_num == seq)
      (get_or-replicate c h Recv.zero_slot),
  InPlace-replicate c ((h + 1) % c) (add32 seq 1) n,
)

pub empty-IsRecvWindow :
    (capacity seq : ℕ) → IsCapacity capacity → seq < 2 ^ 32 → IsRecvWindow (Recv.fresh capacity seq)
empty-IsRecvWindow capacity seq c h = record {
  cap_valid = c;
  storage = length-replicate capacity Recv.zero_slot;
  expected_fits = h;
  in_place = InPlace-replicate capacity (slot_index seq capacity) seq capacity;
}

pub fresh-IsRecvWindow :
    (capacity seq : ℕ)
    → bad_capacity capacity ≡ false
    → capacity < 2 ^ 31
    → seq < 2 ^ 32
    → IsRecvWindow (Recv.fresh capacity seq)
fresh-IsRecvWindow capacity seq e l h =
    empty-IsRecvWindow capacity seq (bad_capacity-IsCapacity capacity e l) h

pub recv_reset-IsRecvWindow :
    (w : Recv.RecvWindow) (seq : ℕ)
    → IsRecvWindow w
    → seq < 2 ^ 32
    → IsRecvWindow (Recv.reset w seq).1
unfolding Recv.reset
recv_reset-IsRecvWindow w seq v h =
    if_intro (λ (r : ℤ × Recv.RecvWindow). IsRecvWindow r.1)
      (Recv.is_null w.slots || w.capacity == 0) (λ e. v)
      (λ e. empty-IsRecvWindow w.capacity seq v.cap_valid h)

-- A window size that passes the test of the code and fits an `int32_t` gives a valid receive window
-- that expects the initial number, if there is memory for it.
pub recv_init_lem :
    (capacity seq : ℕ)
    → bad_capacity capacity ≡ false
    → capacity < 2 ^ 31
    → seq < 2 ^ 32
    → (w : Recv.RecvWindow) × (Recv.init true capacity seq ≡ some w)
      × IsRecvWindow w
      × (w.expected_seq ≡ seq)
unfolding Recv.init
recv_init_lem capacity seq e l h =
    (Recv.fresh capacity seq, if_false _ _ e, fresh-IsRecvWindow capacity seq e l h, refl)
