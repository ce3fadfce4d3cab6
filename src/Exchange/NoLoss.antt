-- ===== src/Exchange/NoLoss.antt =====
-- The runs of the exchange: its steps, its start, and where each message is.
use native.Mathlib.Decide.{dec_lt}
use rel4u.Prelude.{
  ℕ, ◌+◌, ◌-◌, ◌%◌, ◌^◌, ◌≤◌, ◌<◌, ◌≡◌, ◌⊎◌, sym, ap, subst, ◌∙◌, true, false, List, [], ◌∷◌,
  Option, none, some, inl, inr, Bool-cases, arith, length, length-append, get_or, take,
}
use rel4u.Rtt.{Rtt}
use rel4u.Stats.{Stats}
use rel4u.Window.Index.{bad_capacity}
use rel4u.Window.Send
use rel4u.Window.Send.{SendSlot, SendWindow, zero_slot, filled_slot, slot_of, push}
use rel4u.Window.Send.Inv.{outstanding}
use rel4u.Window.Send.Marks.{Numbered-get}
use rel4u.Window.Fresh.{fresh-IsSendWindow, outstanding-fresh}
use rel4u.Transfer.Order.{start-IsPrefix, arrive-IsPrefix, hand_out-IsPrefix}
use rel4u.Exchange.{
  Exchange, has, numbered_too, send, send_again, acknowledge, take_ack, opened, Step, Reach, sends,
  sends_again, arrives, hands_out, acknowledges, ack_arrives, start, later,
}
use rel4u.Exchange.Arrived.{arrive-Grows, hand_out-Grows}
use rel4u.Exchange.Pending.{Pending, Holds, Pending-get}
use rel4u.Exchange.Acks.{AllTold-get, get_ack_info-Told}
use rel4u.Exchange.Push.{send-IsFaithful}
use rel4u.Exchange.Inv.{
  base, IsFaithful, head_number, receiver-IsFaithful, resent-IsSource, acked-IsSource,
}

length-numbered_too :
    (seq : Option ℕ) (sent : List (List ℕ)) (bytes : List ℕ)
    → length sent ≤ length (numbered_too seq sent bytes)
length-numbered_too none sent bytes = omega arith
length-numbered_too (some q) sent bytes = omega (arith, length-append sent (bytes ∷ []))

Step-length :
    {max_ready first : ℕ} {s t : Exchange}
    → Step max_ready first s t
    → length s.sent ≤ length t.sent
unfolding send send_again acknowledge take_ack
Step-length {s} (sends now_ns bytes) = length-numbered_too _ s.sent bytes
Step-length (sends_again now_ns i) = omega arith
Step-length (arrives i hdr payload c) = omega arith
Step-length hands_out = omega arith
Step-length acknowledges = omega arith
Step-length (ack_arrives now_ns k a e) = omega arith

Step-IsFaithful :
    {max_ready first : ℕ} {s t : Exchange}
    → Step max_ready first s t
    → 0 < max_ready
    → length s.sent < 2 ^ 31
    → IsFaithful first s
    → IsFaithful first t
unfolding send_again acknowledge take_ack
Step-IsFaithful {first} {s} (sends now_ns bytes) p b f = send-IsFaithful first s f bytes now_ns
Step-IsFaithful {first} {s} (sends_again now_ns i) p b f = record {
  prefix = f.prefix;
  source = resent-IsSource first s.sent s.receiver s.sender.win now_ns f.source i;
  told = f.told;
}
Step-IsFaithful {max_ready} {first} {s} (arrives i hdr payload c) p b f =
    receiver-IsFaithful first s _ f
      (arrive-IsPrefix first s.sent s.receiver f.prefix max_ready p i hdr payload c b)
      (arrive-Grows first s.sent s.receiver f.prefix max_ready p i hdr payload c b)
Step-IsFaithful {max_ready} {first} {s} hands_out p b f =
    receiver-IsFaithful first s _ f (hand_out-IsPrefix first s.sent s.receiver f.prefix max_ready p)
      (hand_out-Grows first s.sent s.receiver f.prefix max_ready p)
Step-IsFaithful {first} {s} acknowledges p b f = record {
  prefix = f.prefix;
  source = f.source;
  told = (get_ack_info-Told first s.sent s.receiver f.prefix, f.told);
}
Step-IsFaithful {first} {s} (ack_arrives now_ns k a e) p b f = record {
  prefix = f.prefix;
  source =
      acked-IsSource first s.sent s.receiver s.sender.win now_ns f.source a s.sender.rtt
        s.sender.stats (AllTold-get first s.receiver s.acks k a f.told e) f.prefix.within b;
  told = f.told;
}

opened-IsFaithful :
    (send_capacity recv_capacity first : ℕ) (rtt : Rtt) (stats : Stats)
    → bad_capacity send_capacity ≡ false
    → send_capacity < 2 ^ 31
    → bad_capacity recv_capacity ≡ false
    → recv_capacity < 2 ^ 31
    → first < 2 ^ 32
    → IsFaithful first (opened send_capacity recv_capacity first rtt stats)
opened-IsFaithful send_capacity recv_capacity first rtt stats e l g k h =
    let o = outstanding-fresh send_capacity first in
    record {
      prefix = start-IsPrefix recv_capacity first [] g k h;
      source = record {
        send_valid = fresh-IsSendWindow send_capacity first e l h;
        next = omega arith;
        span = omega (arith, ap length o);
        base_le = omega arith;
        pending =
            subst
              (Pending (opened send_capacity recv_capacity first rtt stats).receiver []
                (base [] (Send.fresh send_capacity first)))
              (sym o) tt;
      };
      told = tt;
    }

pub Reach-IsFaithful :
    {max_ready send_capacity recv_capacity first : ℕ} {s : Exchange}
    → Reach max_ready send_capacity recv_capacity first s
    → 0 < max_ready
    → bad_capacity send_capacity ≡ false
    → send_capacity < 2 ^ 31
    → bad_capacity recv_capacity ≡ false
    → recv_capacity < 2 ^ 31
    → first < 2 ^ 32
    → length s.sent < 2 ^ 31
    → IsFaithful first s
Reach-IsFaithful {send_capacity} {recv_capacity} {first} (start rtt stats) p e l g k h b =
    opened-IsFaithful send_capacity recv_capacity first rtt stats e l g k h
Reach-IsFaithful (later {s} r st) p e l g k h b =
    let shorter : length s.sent < 2 ^ 31 = omega (arith, Step-length st, b) in
    Step-IsFaithful st p shorter (Reach-IsFaithful r p e l g k h shorter)

-- The slot waits for an acknowledgement of message `i`, whose bytes it holds.
abbrev pub Awaits : ℕ → Exchange → ℕ → SendSlot → Type 0
Awaits first s i x =
    (x.in_use ≡ true)
    × (x.acked ≡ false)
    × (x.seq_num ≡ (first + i) % 2 ^ 32)
    × Holds x (get_or s.sent i [])

-- A message has arrived, or a slot waits for its acknowledgement.
pub settled :
    (first : ℕ) (s : Exchange)
    → IsFaithful first s
    → length s.sent < 2 ^ 31
    → (i : ℕ) → i < length s.sent
    → (has s.receiver i ≡ true)
      ⊎ ((j : ℕ) × (j < length (outstanding s.sender.win))
          × Awaits first s i (get_or (outstanding s.sender.win) j zero_slot))
settled first s f b i l = elim (dec_lt i (base s.sent w)) [
  | yes before ↦ inl (ground (arith, before, f.source.base_le))
  | no behind ↦ by_mark (Bool-cases (get_or (outstanding w) j zero_slot).acked) (omega arith)
]
  where
    w : SendWindow
    w = s.sender.win

    j : ℕ
    j = i - base s.sent w

    by_mark :
        (((get_or (outstanding w) j zero_slot).acked ≡ true)
          ⊎ ((get_or (outstanding w) j zero_slot).acked ≡ false))
        → base s.sent w ≤ i
        → (has s.receiver i ≡ true)
          ⊎ ((j : ℕ) × (j < length (outstanding w))
              × Awaits first s i (get_or (outstanding w) j zero_slot))
    by_mark a g =
        let inside : j < length (outstanding w) = omega (arith, f.source.span, l, g) in
        let at : base s.sent w + j ≡ i = omega (arith, g) in
        let q =
          Pending-get s.receiver s.sent (base s.sent w) j (outstanding w) f.source.pending inside in
        let n =
          Numbered-get w.head_seq j (outstanding w) f.source.send_valid.head_fits
            f.source.send_valid.numbered inside in
        elim a [
          | inl e ↦ inl (subst (λ (k : ℕ). has s.receiver k ≡ true) at (q.0 e))
          | inr e ↦ inr (
            j,
            inside,
            (
              n.0,
              e,
              n.1 ∙ omega (arith, head_number first s.sent s.receiver w f.source, at),
              subst (λ (k : ℕ). Holds (get_or (outstanding w) j zero_slot) (get_or s.sent k [])) at
                  q.1,
            ),
          )
        ]

-- Whatever the network does to the packets and to the acknowledgements of fewer than 2^31 reliable
-- ordered messages, numbered from any 32-bit number on, between two windows of sizes below 2^31 that
-- the code accepts: the receiver has handed out a prefix of the messages that were given numbers, in
-- their order; and each of these messages has arrived, handed out or kept by the receive window, or
-- an outstanding slot of the send window still holds its number and its bytes, in use and not
-- acknowledged.
pub no_loss :
    {max_ready send_capacity recv_capacity first : ℕ} {s : Exchange}
    → Reach max_ready send_capacity recv_capacity first s
    → 0 < max_ready
    → bad_capacity send_capacity ≡ false
    → send_capacity < 2 ^ 31
    → bad_capacity recv_capacity ≡ false
    → recv_capacity < 2 ^ 31
    → first < 2 ^ 32
    → length s.sent < 2 ^ 31
    → (s.receiver.log ≡ take (length s.receiver.log) s.sent)
      × ((i : ℕ)
          → i < length s.sent
          → (has s.receiver i ≡ true)
            ⊎ ((j : ℕ) × (j < length (outstanding s.sender.win))
                × Awaits first s i (get_or (outstanding s.sender.win) j zero_slot)))
no_loss {first} {s} r p e l g k h b =
    let f = Reach-IsFaithful r p e l g k h b in (f.prefix.same, settled first s f b)
