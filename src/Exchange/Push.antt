-- ===== src/Exchange/Push.antt =====
-- The exchange when a message is pushed into the send window.
use rel4u.Prelude.{
  ℕ, ◌+◌, ◌%◌, ◌^◌, ◌≤◌, ◌≡◌, refl, sym, ap, subst, ◌∙◌, true, List, [], ◌∷◌, ◌++◌, Option, inl,
  inr, Bool-cases, if_true, if_false, arith, ltb, length, length-append, length-take,
  get_or-append_end, take, drop, take-append, drop-append, take-memcpy, take_all,
}
use rel4u.Prelude.Int.{ℤ}
use rel4u.Seq.{add32}
use rel4u.Packet.DeliveryMode
use rel4u.Window.Index.{max_payload_size}
use rel4u.Window.Send.{SendSlot, SendWindow, filled_slot, slot_of, push}
use rel4u.Window.Send.Inv.{outstanding, IsSendWindow, push-IsSendWindow, push_filled, push_too_long}
use rel4u.Window.Recv.Deliver.{buffer}
use rel4u.Transfer.{Receiver}
use rel4u.Transfer.Kept.{Matches, Matches-more}
use rel4u.Transfer.Order.{IsPrefix}
use rel4u.Exchange.{Exchange, has, numbered_too, send}
use rel4u.Exchange.Pending.{Pending, Holds, Pending-more, Pending-snoc}
use rel4u.Exchange.Inv.{base, IsSource, IsFaithful}

-- The stream goes on by one message.
IsPrefix-more :
    (first : ℕ) (sent : List (List ℕ)) (bytes : List ℕ) (r : Receiver)
    → IsPrefix first sent r
    → IsPrefix first (sent ++ bytes ∷ []) r
IsPrefix-more first sent bytes r p = record {
  window_valid = p.window_valid;
  expected = p.expected;
  within = omega (arith, p.within, length-append sent (bytes ∷ []));
  same = p.same ∙ sym (take-append (length r.log) sent (bytes ∷ []) p.within);
  waiting =
      subst (λ (ms : List (List ℕ)). Matches ms (buffer r.window))
        (sym (drop-append (length r.log) sent (bytes ∷ []) p.within))
        (Matches-more (drop (length r.log) sent) (bytes ∷ []) (buffer r.window) p.waiting);
}

module _ (first : ℕ) (s : Exchange) (f : IsFaithful first s) (bytes : List ℕ) (now_ns : ℕ) where
  abbrev w : SendWindow
  w = s.sender.win

  abbrev packet : SendSlot
  packet =
      filled_slot (slot_of w w.next_seq) w.next_seq DeliveryMode.reliable_ordered bytes
        (length bytes) now_ns

  -- The exchange after a push that left a window and gave a number or none.
  abbrev pushed : SendWindow → Option ℕ → Exchange
  pushed x seq = record s {
    sender = record s.sender { win = x };
    sent = numbered_too seq s.sent bytes;
  }

  packet-Holds : length bytes ≤ max_payload_size → Holds packet bytes
  unfolding filled_slot
  packet-Holds l =
      let e : length bytes % 2 ^ 16 ≡ length bytes = omega arith in
      let old = (slot_of w w.next_seq).payload in
      let room = length-append (take (length bytes) bytes) (drop (length bytes) old) in
      let whole = length-take (length bytes) bytes in
      (
        ap (λ (n : ℕ). take n packet.payload) e
            ∙ take-memcpy (length bytes) old bytes (omega arith)
            ∙ take_all bytes,
        refl,
        omega (arith, e, room, whole),
        omega (arith, e),
      )

  packet_new : packet.acked ≡ true → has s.receiver (base s.sent w + length (outstanding w)) ≡ true
  unfolding filled_slot
  packet_new e = cc

  sent-IsSource :
      (x : SendWindow)
      → length bytes ≤ max_payload_size
      → IsSendWindow x
      → outstanding x ≡ outstanding w ++ packet ∷ []
      → x.next_seq ≡ add32 w.next_seq 1
      → IsSource first (s.sent ++ bytes ∷ []) s.receiver x
  sent-IsSource x l v o e =
      let a = length-append s.sent (bytes ∷ []) in
      let b = ap length o ∙ length-append (outstanding w) (packet ∷ []) in
      let src = f.source in
      let same : base (s.sent ++ bytes ∷ []) x ≡ base s.sent w = omega (arith, a, b, src.span) in
      let at : base s.sent w + length (outstanding w) ≡ length s.sent = omega (arith, src.span) in
      record {
        send_valid = v;
        next = omega (arith, e, a, src.next);
        span = omega (arith, a, b, src.span);
        base_le = omega (arith, same, src.base_le);
        pending =
            subst (λ (k : ℕ). Pending s.receiver (s.sent ++ bytes ∷ []) k (outstanding x))
              (sym same)
              (subst (Pending s.receiver (s.sent ++ bytes ∷ []) (base s.sent w)) (sym o) (
                Pending-snoc s.receiver (s.sent ++ bytes ∷ []) (base s.sent w) (outstanding w)
                  packet
                  (Pending-more s.receiver s.sent bytes (base s.sent w) (outstanding w)
                    (omega (arith, at)) src.pending)
                  packet_new
                  (subst (Holds packet) (sym (get_or-append_end s.sent bytes [] _ at))
                    (packet-Holds l))));
      }

  refused-IsSource :
      (x : SendWindow)
      → IsSendWindow x
      → outstanding x ≡ outstanding w
      → x.next_seq ≡ w.next_seq
      → IsSource first s.sent s.receiver x
  refused-IsSource x v o e =
      let b = ap length o in
      let same : base s.sent x ≡ base s.sent w = omega (arith, b) in
      record {
        send_valid = v;
        next = e ∙ f.source.next;
        span = omega (arith, b, f.source.span);
        base_le = omega (arith, same, f.source.base_le);
        pending =
            subst (λ (k : ℕ). Pending s.receiver s.sent k (outstanding x)) (sym same)
              (subst (Pending s.receiver s.sent (base s.sent w)) (sym o) f.source.pending);
      }

  -- Where the window takes the length, it has room or not.
  by_room :
      length bytes ≤ max_payload_size
      → let t = push w DeliveryMode.reliable_ordered bytes (length bytes) now_ns in
        IsFaithful first (pushed t.1 t.2)
  by_room l =
      let t = push w DeliveryMode.reliable_ordered bytes (length bytes) now_ns in
      let v =
        push-IsSendWindow w DeliveryMode.reliable_ordered bytes (length bytes) now_ns
          f.source.send_valid in
      let q =
        push_filled w DeliveryMode.reliable_ordered bytes (length bytes) now_ns f.source.send_valid
          refl l in
      elim (Bool-cases (ltb (length (outstanding w)) w.capacity)) [
        | inl e ↦
            subst (λ seq. IsFaithful first (pushed t.1 seq)) (sym (q.1 ∙ if_true _ _ e))
              (record {
                prefix = IsPrefix-more first s.sent bytes s.receiver f.prefix;
                source = sent-IsSource t.1 l v (q.2 ∙ if_true _ _ e) (q.3 ∙ if_true _ _ e);
                told = f.told;
              })
        | inr e ↦
            subst (λ seq. IsFaithful first (pushed t.1 seq)) (sym (q.1 ∙ if_false _ _ e))
              (record {
                prefix = f.prefix;
                source = refused-IsSource t.1 v (q.2 ∙ if_false _ _ e) (q.3 ∙ if_false _ _ e);
                told = f.told;
              })
      ]

  pub send-IsFaithful : IsFaithful first (send now_ns bytes s)
  unfolding send
  send-IsFaithful = elim (Bool-cases (ltb max_payload_size (length bytes))) [
    | inl e ↦
        subst (λ (t : ℤ × SendWindow × Option ℕ). IsFaithful first (pushed t.1 t.2))
          (sym (
            push_too_long w DeliveryMode.reliable_ordered bytes (length bytes) now_ns
              f.source.send_valid e))
          (record { prefix = f.prefix; source = f.source; told = f.told })
    | inr e ↦ by_room (ground (arith, e))
  ]
