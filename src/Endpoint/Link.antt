-- ===== src/Endpoint/Link.antt =====
-- The windows and the estimator at one end of a connection, and what keeps them valid.
use rel4u.Prelude.{
  ℕ, zero, suc, ◌+◌, ◌%◌, ◌^◌, ◌≡◌, refl, sym, ap, ◌∙◌, Bool, not, ◌&&◌, List, [], ◌∷◌, if_intro,
  arith, leb, ◌==◌, if◌then◌else◌, length-set, get_or, set, bit_and,
}
use rel4u.Prelude.Ring.{segment}
use rel4u.Seq.{add32, sub32, seq_lt, seq_gte}
use rel4u.Packet.{}
use rel4u.Rtt.{Rtt, clamp_rto}
use rel4u.Rtt
use rel4u.Rtt.Bounds.{IsValid, update_sample-IsValid}
use rel4u.Window.Index.{slot_index}
use rel4u.Window.Send.{
  SendSlot, SendWindow, AckState, zero_slot, slot_of, sample, ack_slot, ack_once, ack_head,
  ack_loop, acks_head, sack_bit, sack_loop, on_ack, holds,
}
use rel4u.Window.Send.Inv.{Numbered, unacked, IsSendWindow}
use rel4u.Window.Recv.{RecvWindow}
use rel4u.Window.Recv.Inv.{IsRecvWindow}
use rel4u.Endpoint.{mark_resent}
use rel4u.Session.{default_rtt}

pub record IsLink (send : SendWindow) (recv : RecvWindow) (rtt : Rtt) : Type 0 where
  pub send_valid : IsSendWindow send
  pub recv_valid : IsRecvWindow recv
  pub rtt_valid : IsValid rtt

-- Slots that hold the same packet, in the same state.
abbrev pub Alike : SendSlot → SendSlot → Type 0
Alike s t =
    (s.in_use ≡ t.in_use)
    × (s.seq_num ≡ t.seq_num)
    × (s.acked ≡ t.acked)
    × (s.delivery_mode ≡ t.delivery_mode)
    × (s.payload_len ≡ t.payload_len)
    × (s.payload ≡ t.payload)

abbrev pub resent : ℕ → SendSlot → SendSlot
resent now_ns s = record s {
  last_sent_time_ns = now_ns;
  retransmit_count = (s.retransmit_count + 1) % 2 ^ 8;
}

pub set-Alike :
    (now_ns : ℕ) (ss : List SendSlot) (i j : ℕ)
    → Alike
        (get_or (set ss i (resent now_ns (get_or ss i zero_slot))) j zero_slot)
        (get_or ss j zero_slot)
set-Alike now_ns [] i j = (refl, refl, refl, refl, refl, refl)
set-Alike now_ns (s ∷ ss) zero zero = (refl, refl, refl, refl, refl, refl)
set-Alike now_ns (s ∷ ss) zero (suc j) = (refl, refl, refl, refl, refl, refl)
set-Alike now_ns (s ∷ ss) (suc i) zero = (refl, refl, refl, refl, refl, refl)
set-Alike now_ns (s ∷ ss) (suc i) (suc j) = set-Alike now_ns ss i j

module _ (ss ts : List SendSlot) (c : ℕ)
    (alike : (j : ℕ) → Alike (get_or ts j zero_slot) (get_or ss j zero_slot)) where
  Numbered-alike :
      (n seq h : ℕ)
      → Numbered seq (segment zero_slot ss c h n)
      → Numbered seq (segment zero_slot ts c h n)
  Numbered-alike zero seq h p = tt
  Numbered-alike (suc n) seq h p =
      let a = alike h in (a.0 ∙ p.0, a.1 ∙ p.1, Numbered-alike n (add32 seq 1) ((h + 1) % c) p.2)

  unacked-alike :
      (n h : ℕ) → unacked (segment zero_slot ts c h n) ≡ unacked (segment zero_slot ss c h n)
  unacked-alike zero h = refl
  unacked-alike (suc n) h =
      let a = ap {B = ℕ} (λ (b : Bool). if b then 0 else 1) (alike h).2 in
      omega (arith, unacked-alike n ((h + 1) % c), a)

-- Sending packets again keeps the window valid.
pub mark_resent-IsSendWindow :
    (now_ns : ℕ) (w : SendWindow) (i : ℕ) → IsSendWindow w → IsSendWindow (mark_resent now_ns w i)
unfolding mark_resent
mark_resent-IsSendWindow now_ns w i v =
    let x = resent now_ns (get_or w.slots i zero_slot) in
    let alike = set-Alike now_ns w.slots i in
    let h = slot_index w.head_seq w.capacity in
    let n = sub32 w.next_seq w.head_seq in
    record {
      cap_valid = v.cap_valid;
      storage = length-set w.slots i x ∙ v.storage;
      head_fits = v.head_fits;
      next_fits = v.next_fits;
      span_le = v.span_le;
      numbered =
          Numbered-alike w.slots (set w.slots i x) w.capacity alike n w.head_seq h v.numbered;
      counted = v.counted ∙ sym (unacked-alike w.slots (set w.slots i x) w.capacity alike n h);
    }

-- Acknowledgements keep the estimator valid.
module _ (now_ns : ℕ) where
  sample-IsValid :
      (slot : SendSlot) (s : AckState) → IsValid s.rtt → IsValid (sample now_ns slot s).rtt
  unfolding sample
  sample-IsValid slot s v =
      if_intro (λ (t : AckState). IsValid t.rtt)
        (slot.retransmit_count == 0 && leb slot.first_sent_time_ns now_ns)
        (λ e. update_sample-IsValid s.rtt _ v) (λ e. v)

  ack_slot-IsValid :
      (seq : ℕ) (slot : SendSlot) (s : AckState)
      → IsValid s.rtt
      → IsValid (ack_slot now_ns seq slot s).rtt
  unfolding ack_slot
  ack_slot-IsValid seq slot s v = sample-IsValid slot _ v

  ack_once-IsValid : (seq : ℕ) (s : AckState) → IsValid s.rtt → IsValid (ack_once now_ns seq s).rtt
  unfolding ack_once
  ack_once-IsValid seq s v =
      if_intro (λ (t : AckState). IsValid t.rtt) (slot_of s.win seq).acked (λ e. v)
        (λ e. ack_slot-IsValid seq (slot_of s.win seq) s v)

  ack_head-IsValid : (s : AckState) → IsValid s.rtt → IsValid (ack_head now_ns s).rtt
  unfolding ack_head
  ack_head-IsValid s v =
      if_intro (λ (t : AckState). IsValid t.rtt)
        (holds (slot_of s.win s.win.head_seq) s.win.head_seq)
        (λ e. ack_once-IsValid s.win.head_seq s v) (λ e. v)

  ack_loop-IsValid :
      (fuel ack_num : ℕ) (s : AckState)
      → IsValid s.rtt
      → IsValid (ack_loop fuel ack_num now_ns s).rtt
  unfolding ack_loop
  ack_loop-IsValid zero ack_num s v = v
  ack_loop-IsValid (suc fuel) ack_num s v =
      if_intro (λ (t : AckState). IsValid t.rtt) (acks_head ack_num s.win)
        (λ e. ack_loop-IsValid fuel ack_num (ack_head now_ns s) (ack_head-IsValid s v)) (λ e. v)

  sack_bit-IsValid :
      (ack_num sack_mask i : ℕ) (s : AckState)
      → IsValid s.rtt
      → IsValid (sack_bit ack_num sack_mask now_ns i s).rtt
  unfolding sack_bit
  sack_bit-IsValid ack_num sack_mask i s v =
      let seq = (ack_num + 1 + i) % 2 ^ 32 in
      let slot = slot_of s.win seq in
      if_intro (λ (t : AckState). IsValid t.rtt)
        (not (bit_and sack_mask (2 ^ i) == 0)
          && (seq_lt seq s.win.next_seq && seq_gte seq s.win.head_seq)
          && (holds slot seq && not slot.acked))
        (λ e. ack_slot-IsValid seq slot s v) (λ e. v)

  sack_loop-IsValid :
      (n i ack_num sack_mask : ℕ) (s : AckState)
      → IsValid s.rtt
      → IsValid (sack_loop n i ack_num sack_mask now_ns s).rtt
  unfolding sack_loop
  sack_loop-IsValid zero i ack_num sack_mask s v = v
  sack_loop-IsValid (suc n) i ack_num sack_mask s v =
      sack_loop-IsValid n (i + 1) ack_num sack_mask (sack_bit ack_num sack_mask now_ns i s)
        (sack_bit-IsValid ack_num sack_mask i s v)

  pub on_ack-IsValid :
      (ack_num sack_mask : ℕ) (s : AckState)
      → IsValid s.rtt
      → IsValid (on_ack ack_num sack_mask now_ns s).rtt
  unfolding on_ack
  on_ack-IsValid ack_num sack_mask s v =
      let t = ack_loop-IsValid (sub32 s.win.next_seq s.win.head_seq) ack_num s v in
      if_intro (λ (t : AckState). IsValid t.rtt) (sack_mask == 0) (λ e. t)
        (λ e. sack_loop-IsValid 32 0 ack_num sack_mask _ t)

pub default_rtt-IsValid : IsValid default_rtt
unfolding Rtt.init clamp_rto
default_rtt-IsValid = omega arith
