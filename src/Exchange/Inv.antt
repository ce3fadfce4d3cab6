-- ===== src/Exchange/Inv.antt =====
-- The invariant of the exchange; packets that are sent again, and acknowledgements.
use rel4u.Prelude.{
  ℕ, ◌+◌, ◌-◌, ◌%◌, ◌^◌, ◌≤◌, ◌<◌, ◌≡◌, sym, ap, subst, ◌∙◌, List, arith, length, get_or, set,
}
use rel4u.Seq.{sub32}
use rel4u.Rtt.{Rtt}
use rel4u.Stats.{Stats}
use rel4u.Window.Index.{slot_index}
use rel4u.Window.Send.{SendWindow, zero_slot, on_ack}
use rel4u.Window.Send.Inv.{outstanding, IsSendWindow, length-outstanding}
use rel4u.Window.Send.Marks.{mark}
use rel4u.Window.Send.Ack.{beyond_ack}
use rel4u.Window.Send.OnAck.{sacked, on_ack_lem}
use rel4u.Endpoint.{mark_resent}
use rel4u.Endpoint.Link.{resent, set-Alike, mark_resent-IsSendWindow}
use rel4u.Transfer.{Receiver}
use rel4u.Transfer.Order.{IsPrefix}
use rel4u.Exchange.{Exchange}
use rel4u.Exchange.Arrived.{Grows}
use rel4u.Exchange.Pending.{Pending, Pending-grows, Pending-mark, length-mark, Pending-alike}
use rel4u.Exchange.Acks.{AllTold, AllTold-grows, Told, sacked-has, beyond_ack-Left, Left}

-- The number of the oldest outstanding message.
abbrev pub base : List (List ℕ) → SendWindow → ℕ
base sent w = length sent - length (outstanding w)

-- The send window against the stream and the receiver.
pub record IsSource (first : ℕ) (sent : List (List ℕ)) (r : Receiver) (w : SendWindow)
    : Type 0 where
  pub send_valid : IsSendWindow w
  pub next : w.next_seq ≡ (first + length sent) % 2 ^ 32
  pub span : length (outstanding w) ≤ length sent
  pub base_le : base sent w ≤ length r.log
  pub pending : Pending r sent (base sent w) (outstanding w)

pub record IsFaithful (first : ℕ) (s : Exchange) : Type 0 where
  pub prefix : IsPrefix first s.sent s.receiver
  pub source : IsSource first s.sent s.receiver s.sender.win
  pub told : AllTold first s.receiver s.acks

pub head_number :
    (first : ℕ) (sent : List (List ℕ)) (r : Receiver) (w : SendWindow)
    → IsSource first sent r w
    → w.head_seq ≡ (first + base sent w) % 2 ^ 32
head_number first sent r w s =
    let l = length-outstanding w in
    omega (arith, l, s.span, s.next, s.send_valid.head_fits, s.send_valid.next_fits)

-- The receiver moves on.
pub receiver-IsFaithful :
    (first : ℕ) (s : Exchange) (r : Receiver)
    → IsFaithful first s
    → IsPrefix first s.sent r
    → Grows s.receiver r
    → IsFaithful first (record s { receiver = r })
receiver-IsFaithful first s r f p g = record {
  prefix = p;
  source = record {
    send_valid = f.source.send_valid;
    next = f.source.next;
    span = f.source.span;
    base_le = omega (arith, f.source.base_le, g.0);
    pending = Pending-grows s.receiver r s.sent _ (outstanding s.sender.win) g.1 f.source.pending;
  };
  told = AllTold-grows first s.receiver r s.acks g.0 g.1 f.told;
}

module _ (first : ℕ) (sent : List (List ℕ)) (r : Receiver) (w : SendWindow) (now_ns : ℕ)
    (s : IsSource first sent r w) where
  -- A packet is sent again.
  pub resent-IsSource : (i : ℕ) → IsSource first sent r (mark_resent now_ns w i)
  unfolding mark_resent
  resent-IsSource i =
      let h = slot_index w.head_seq w.capacity in
      let n = sub32 w.next_seq w.head_seq in
      let again = mark_resent now_ns w i in
      let same : length (outstanding again) ≡ length (outstanding w) =
        length-outstanding again ∙ sym (length-outstanding w) in
      let b : base sent again ≡ base sent w = omega (arith, same) in
      record {
        send_valid = mark_resent-IsSendWindow now_ns w i s.send_valid;
        next = s.next;
        span = omega (arith, same, s.span);
        base_le = omega (arith, b, s.base_le);
        pending =
            subst (λ (k : ℕ). Pending r sent k (outstanding again)) (sym b)
              (Pending-alike r sent w.slots
                (set w.slots i (resent now_ns (get_or w.slots i zero_slot))) w.capacity
                (set-Alike now_ns w.slots i) n (base sent w) h s.pending);
      }

  -- An acknowledgement that the receiver has sent.
  pub acked-IsSource :
      (a : ℕ × ℕ) (rtt : Rtt) (stats : Stats)
      → Told first r a
      → length r.log ≤ length sent
      → length sent < 2 ^ 31
      → IsSource first sent r
          (on_ack a.0 a.1 now_ns (record { win = w; rtt = rtt; stats = stats })).win
  acked-IsSource a rtt stats d within short =
      let t = on_ack a.0 a.1 now_ns (record { win = w; rtt = rtt; stats = stats }) in
      let q =
        on_ack_lem a.0 a.1 now_ns (record { win = w; rtt = rtt; stats = stats }) s.send_valid in
      let xs = outstanding w in
      let ys = beyond_ack a.0 w.head_seq xs in
      let f : Left r sent (base sent w) d.upto xs ys =
        subst (λ (k : ℕ). Left r sent (base sent w) d.upto xs (beyond_ack a.0 k xs))
          (sym (head_number first sent r w s))
          (beyond_ack-Left first r sent a.0 d.upto (base sent w) xs d.number
            (omega (arith, d.upto_le, within, short)) (omega (arith, s.span, short)) s.pending) in
      let len : length (outstanding t.win) ≡ length ys =
        ap length q.1 ∙ length-mark (sacked 32 0 a.0 a.1) t.win.head_seq ys in
      let b : base sent t.win ≡ base sent w + length xs - length ys =
        omega (arith, len, s.span, f.0) in
      let head : t.win.head_seq ≡ (first + base sent t.win) % 2 ^ 32 = omega (
        arith,
        length-outstanding t.win,
        len,
        f.0,
        s.span,
        s.next,
        q.3,
        q.0.head_fits,
        q.0.next_fits,
      ) in
      let p : Pending r sent (base sent t.win) ys =
        subst (λ (k : ℕ). Pending r sent k ys) (sym b) f.2 in
      let m = Pending-mark r sent first (sacked 32 0 a.0 a.1) (base sent t.win) ys p (λ j l e.
        sacked-has first r a d (omega (arith, within, short)) j
          (omega (arith, l, len, f.0, s.span, short)) e) in
      record {
        send_valid = q.0;
        next = q.3 ∙ s.next;
        span = omega (arith, len, f.0, s.span);
        base_le = omega (arith, b, f.1, s.base_le, d.upto_le);
        pending = subst (Pending r sent (base sent t.win)) (sym q.1) (
            subst (λ (k : ℕ). Pending r sent (base sent t.win) (mark (sacked 32 0 a.0 a.1) k ys))
              (sym head) m);
      }
