-- ===== src/Transfer/Order.antt =====
-- The order in which the messages of the stream are handed out.
use mathlib.Core.Path.{◌≡◌, refl, sym, ap, ap₂, subst, ◌∙◌}
use mathlib.Core.List.{append-nil}
use rel4u.Prelude.{
  ℕ, ◌+◌, ◌%◌, ◌^◌, ◌≤◌, ◌<◌, true, false, List, [], ◌++◌, map, inl, inr, arith, length,
  length-append, length-take, length-drop, take_add, drop_add, get_or-drop, take, drop, take-memcpy,
  memcpy,
}
use rel4u.Prelude.Int.{ℤ}
use rel4u.Seq.{sub32}
use rel4u.Packet.{Header}
use rel4u.Window.Index.{bad_capacity}
use rel4u.Window.Recv.{RecvSlot, RecvWindow, fresh, slot_of, kept, pop_ready}
use rel4u.Window.Recv.Inv.{view, IsRecvWindow}
use rel4u.Window.Recv.Deliver.{buffer, run, pop_stop}
use rel4u.Window.Recv.Accept.{put_slot_lem}
use rel4u.Window.Recv.Modes.{Takes, pop_ready_lem, on_reliable_ordered-cases}
use rel4u.Window.Recv.Once.{by_ordered}
use rel4u.Window.Fresh.{fresh-IsRecvWindow}
use rel4u.Transfer.{
  message, Receiver, Carries, handed, arrive, hand_out, arrives, hands_out, Reach, start, later,
}
use rel4u.Transfer.Kept.{
  Matches, Matches-set, Matches-append, Matches-replicate, Passed, run-Passed,
}
use rel4u.Window.Index.{slot_index}

-- The messages handed out are the first of the stream, and the packets kept belong to those behind.
pub record IsPrefix (first : ℕ) (stream : List (List ℕ)) (s : Receiver) : Type 0 where
  pub window_valid : IsRecvWindow s.window
  pub expected : s.window.expected_seq ≡ (first + length s.log) % 2 ^ 32
  pub within : length s.log ≤ length stream
  pub same : s.log ≡ take (length s.log) stream
  pub waiting : Matches (drop (length s.log) stream) (buffer s.window)

module _ (first : ℕ) (stream : List (List ℕ)) (s : Receiver) (p : IsPrefix first stream s)
    (max_ready : ℕ) (room : 0 < max_ready) where
  abbrev n : ℕ
  n = length s.log

  -- Handing out what is due from a window that keeps packets of the stream.
  module _ (w : RecvWindow) (v : IsRecvWindow w) (h : Matches (drop n stream) (buffer w)) where
    abbrev due : ℕ
    due = run pop_stop max_ready (view w)

    due-Passed : Passed (view w) (drop n stream) due
    due-Passed = run-Passed max_ready (view w) (drop n stream) h

    due_out : map message (pop_ready w max_ready).2 ≡ take due (drop n stream)
    due_out = ap (map message) (pop_ready_lem w max_ready v room).2.0 ∙ due-Passed.0

    pub length-handed : length (handed s (pop_ready w max_ready)).log ≡ n + due
    length-handed =
        let out = map message (pop_ready w max_ready).2 in
        let more : length out ≡ due =
          ap length due_out ∙ length-take due (drop n stream) ∙ omega (arith, due-Passed.1) in
        omega (arith, length-append s.log out)

    IsPrefix-pop_ready :
        w.expected_seq ≡ s.window.expected_seq
        → IsPrefix first stream (handed s (pop_ready w max_ready))
    IsPrefix-pop_ready e =
        let q = pop_ready_lem w max_ready v room in
        let now = (handed s (pop_ready w max_ready)).log in
        record {
          window_valid = q.1;
          expected = omega (arith, q.2.1, p.expected, length-handed);
          within = omega (arith, due-Passed.1, length-drop n stream, p.within, length-handed);
          same =
              ap₂ (λ (a b : List (List ℕ)). a ++ b) p.same due_out
              ∙ sym (take_add (length now) n due stream length-handed);
          waiting =
              subst (λ (t : List (List ℕ)). Matches t (buffer (pop_ready w max_ready).1))
                (sym (drop_add (length now) n due stream length-handed))
                (subst (Matches (drop due (drop n stream))) (sym q.2.2) (
                  Matches-append (drop due (drop n stream)) (drop due (buffer w)) due
                    due-Passed.2));
        }

  -- The place of a packet of the stream that the window takes.
  module _ (i : ℕ) (hdr : Header) (payload : List ℕ) (c : Carries first stream i hdr payload)
      (short : length stream < 2 ^ 31) (t : Takes s.window hdr.seq_num) where
    abbrev w : RecvWindow
    w = s.window

    abbrev d : ℕ
    d = sub32 hdr.seq_num w.expected_seq

    pub place : i ≡ n + d
    place = omega (
      arith, p.expected, c.numbered, p.within, c.in_stream, short, t.0,
      p.window_valid.cap_valid.at_most,
    )

    pub kept-Matches :
        IsRecvWindow (kept w hdr payload) × Matches (drop n stream) (buffer (kept w hdr payload))
    unfolding kept
    kept-Matches =
        let x : RecvSlot = record {
          seq_num = hdr.seq_num;
          payload_len = hdr.payload_len;
          delivery_mode = hdr.delivery_mode;
          received = true;
          payload = memcpy (slot_of w hdr.seq_num).payload payload hdr.payload_len;
        } in
        let q =
          put_slot_lem w p.window_valid hdr.seq_num (omega (arith, c.numbered)) x t.0 refl refl in
        (
          q.0,
          subst (Matches (drop n stream)) (sym q.1) (
              Matches-set (drop n stream) (buffer w) d x p.waiting
                (omega (arith, length-drop n stream, place, c.in_stream))
                (take-memcpy hdr.payload_len (slot_of w hdr.seq_num).payload payload c.whole
                  ∙ c.carried
                  ∙ sym (get_or-drop i n d [] stream place))
                c.mode_ordered),
        )

  pub arrive-IsPrefix :
      (i : ℕ) (hdr : Header) (payload : List ℕ)
      → Carries first stream i hdr payload
      → length stream < 2 ^ 31
      → IsPrefix first stream (arrive max_ready s hdr payload)
  unfolding arrive kept
  arrive-IsPrefix i hdr payload c short =
      let After = λ (a : ℤ × RecvWindow × List RecvSlot). IsPrefix first stream (handed s a) in
      subst After (sym (by_ordered hdr c.mode_ordered max_ready room s.window payload))
        (elim (on_reliable_ordered-cases s.window hdr payload p.window_valid
          (omega (arith, c.numbered)) max_ready) [
            | inl (code, f, e) ↦ subst After (sym e) (
                subst (λ l. IsPrefix first stream (record { window = s.window; log = l }))
                  (sym (append-nil s.log)) p)
            | inr (t, e) ↦
                let k = kept-Matches i hdr payload c short t in
                subst After (sym e) (IsPrefix-pop_ready (kept s.window hdr payload) k.0 k.1 refl)
          ])

  pub hand_out-IsPrefix : IsPrefix first stream (hand_out max_ready s)
  unfolding hand_out
  hand_out-IsPrefix = IsPrefix-pop_ready s.window p.window_valid p.waiting refl

pub start-IsPrefix :
    (capacity first : ℕ) (stream : List (List ℕ))
    → bad_capacity capacity ≡ false
    → capacity < 2 ^ 31
    → first < 2 ^ 32
    → IsPrefix first stream (record { window = fresh capacity first; log = [] })
start-IsPrefix capacity first stream e l h =
    let v = fresh-IsRecvWindow capacity first e l h in
    record {
      window_valid = v;
      expected = omega arith;
      within = omega arith;
      same = refl;
      waiting = Matches-replicate capacity (slot_index first capacity) capacity stream;
    }

pub Reach-IsPrefix :
    {max_ready capacity first : ℕ} {stream : List (List ℕ)} {s : Receiver}
    → Reach max_ready capacity first stream s
    → 0 < max_ready
    → bad_capacity capacity ≡ false
    → capacity < 2 ^ 31
    → first < 2 ^ 32
    → length stream < 2 ^ 31
    → IsPrefix first stream s
Reach-IsPrefix {capacity} {first} {stream} start p e l h b =
    start-IsPrefix capacity first stream e l h
Reach-IsPrefix {max_ready} {first} {stream} (later {s} r (arrives i hdr payload c)) p e l h b =
    arrive-IsPrefix first stream s (Reach-IsPrefix r p e l h b) max_ready p i hdr payload c b
Reach-IsPrefix {max_ready} {first} {stream} (later {s} r hands_out) p e l h b =
    hand_out-IsPrefix first stream s (Reach-IsPrefix r p e l h b) max_ready p

-- Whatever the network loses, repeats and reorders of a stream of fewer than 2^31 reliable ordered
-- messages, numbered from any 32-bit number on, a receive window of a size below 2^31 that the code
-- accepts, asked for one slot or more at a time, hands out a prefix of the stream: each message once,
-- in the order in which they were sent, with none left out.
pub in_order :
    {max_ready capacity first : ℕ} {stream : List (List ℕ)} {s : Receiver}
    → Reach max_ready capacity first stream s
    → 0 < max_ready
    → bad_capacity capacity ≡ false
    → capacity < 2 ^ 31
    → first < 2 ^ 32
    → length stream < 2 ^ 31
    → (k : ℕ) × (k ≤ length stream) × (s.log ≡ take k stream)
in_order {s} r p e l h b = let i = Reach-IsPrefix r p e l h b in (length s.log, i.within, i.same)
