-- ===== src/Window/Send/Push.antt =====
-- What `rel4u_send_window_push` puts into the window for a reliable packet.
use rel4u.Prelude.{
  ℕ, ◌^◌, ◌≤◌, ◌<◌, ◌≡◌, ap, ap₂, ◌∙◌, true, false, List, [], ◌∷◌, ◌++◌, none, some, arith, ltb,
  if◌then◌else◌, length, take, drop,
}
use rel4u.Prelude.Int.{pos, negsuc}
use rel4u.Seq.{add32}
use rel4u.Window.Index.{max_payload_size}
use rel4u.Window.Send.{SendSlot, SendWindow, slot_of, is_reliable, filled_slot, push}
use rel4u.Window.Send.Inv.{outstanding, IsSendWindow, push_filled}

-- The slot of a packet that has been sent once, at `now_ns`; `old` is what the slot's buffer held.
abbrev pub first_sent : List ℕ → ℕ → ℕ → List ℕ → ℕ → ℕ → SendSlot
first_sent old seq mode bytes len now_ns = record {
  seq_num = seq;
  first_sent_time_ns = now_ns;
  last_sent_time_ns = now_ns;
  payload_len = len;
  retransmit_count = 0;
  delivery_mode = mode;
  in_use = true;
  acked = false;
  payload = take len bytes ++ drop len old;
}

filled_slot-first_sent :
    (old : SendSlot) (seq mode : ℕ) (bytes : List ℕ) (len now_ns : ℕ)
    → is_reliable mode ≡ true
    → len ≤ max_payload_size
    → filled_slot old seq mode bytes len now_ns ≡ first_sent old.payload seq mode bytes len now_ns
unfolding filled_slot
filled_slot-first_sent old seq mode bytes len now_ns r h =
    let small : mode < 2 ^ 8 = ground (arith, r) in
    ap₂
      (λ m n. record (first_sent old.payload seq mode bytes len now_ns) {
        delivery_mode = m;
        payload_len = n;
      })
      (omega (arith, small)) (omega (arith, h))

-- In a valid window, a push of a reliable packet of at most 9216 bytes succeeds exactly if fewer
-- packets are outstanding than the window has slots. Then it returns 0 and the next sequence number,
-- which it counts up, and appends the packet to the outstanding ones: not acknowledged, with its
-- bytes, its length and its mode, sent now for the first time. Without room it returns -2, no number, and leaves the
-- outstanding packets and the number as they are.
pub push_reliable :
    (w : SendWindow) (mode : ℕ) (bytes : List ℕ) (len now_ns : ℕ)
    → IsSendWindow w
    → is_reliable mode ≡ true
    → len ≤ max_payload_size
    → let (code, r, seq) = push w mode bytes len now_ns in
      let room = ltb (length (outstanding w)) w.capacity in
      let packet = first_sent (slot_of w w.next_seq).payload w.next_seq mode bytes len now_ns in
      (code ≡ (if room then pos 0 else negsuc 1))
      × (seq ≡ (if room then some w.next_seq else none))
      × (outstanding r ≡ (if room then outstanding w ++ packet ∷ [] else outstanding w))
      × (r.next_seq ≡ (if room then add32 w.next_seq 1 else w.next_seq))
      × (r.head_seq ≡ w.head_seq)
push_reliable w mode bytes len now_ns v r h =
    let p = push_filled w mode bytes len now_ns v r h in
    let e = filled_slot-first_sent (slot_of w w.next_seq) w.next_seq mode bytes len now_ns r h in
    let room = ltb (length (outstanding w)) w.capacity in
    (
      p.0,
      p.1,
      p.2 ∙ ap (λ (x : SendSlot). if room then outstanding w ++ x ∷ [] else outstanding w) e,
      p.3,
      p.4,
    )
