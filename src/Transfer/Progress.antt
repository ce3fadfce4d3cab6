-- ===== src/Transfer/Progress.antt =====
-- The next message of the stream gets through.
use mathlib.Core.List.{append-nil}
use rel4u.Prelude.{
  ℕ, ◌^◌, ◌≤◌, ◌<◌, ◌≡◌, ◌≢◌, sym, ap, subst, ◌∙◌, true, false, List, drop, [], ◌∷◌, map, none,
  some, inl, inr, arith, length, length-append, get_or,
}
use rel4u.Prelude.Int.{ℤ}
use rel4u.Seq.{sub32}
use rel4u.Packet.{Header}
use rel4u.Window.Index.{bad_capacity}
use rel4u.Window.Recv.{RecvSlot, RecvWindow, kept, pop_ready, refusal}
use rel4u.Window.Recv.Inv.{view, IsRecvWindow}
use rel4u.Window.Recv.Deliver.{content, buffer, run, pop_stop}
use rel4u.Window.Recv.Accept.{is_some, refusal_lem}
use rel4u.Window.Recv.Modes.{Takes, on_reliable_ordered-cases, kept_lem}
use rel4u.Window.Recv.Once.{by_ordered, set-is_some, length-buffer}
use rel4u.Transfer.{message, Receiver, Carries, handed, arrive, hand_out, Reach}
use rel4u.Transfer.Kept.{Matches}
use rel4u.Transfer.Order.{IsPrefix, Reach-IsPrefix, length-handed, kept-Matches}

-- A loop with room passes the expected packet if it is kept.
run-pos :
    (places : ℕ) (ss : List RecvSlot)
    → 0 < places
    → is_some (get_or (map content ss) 0 none) ≡ true
    → 0 < run pop_stop places ss
run-pos places [] p e = absurd (no e)
  where
    no : false ≢ true
    no f = cc
run-pos places (s ∷ ss) p e = ground arith

-- A window hands out at least the expected packet, if it keeps it.
module _ (first : ℕ) (stream : List (List ℕ)) (s : Receiver) (p : IsPrefix first stream s)
    (max_ready : ℕ) (room : 0 < max_ready) where
  grows :
      (w : RecvWindow)
      → IsRecvWindow w
      → Matches (drop (length s.log) stream) (buffer w)
      → is_some (get_or (buffer w) 0 none) ≡ true
      → length s.log < length (handed s (pop_ready w max_ready)).log
  grows w v h e = omega (
    arith,
    length-handed first stream s p max_ready room w v h,
    run-pos max_ready (view w) room e,
  )

hand_out-grows : (max_ready : ℕ) (s : Receiver) → length s.log ≤ length (hand_out max_ready s).log
unfolding hand_out
hand_out-grows max_ready s =
    omega (arith, length-append s.log (map message (pop_ready s.window max_ready).2))

module _ (first : ℕ) (stream : List (List ℕ)) (s : Receiver) (p : IsPrefix first stream s)
    (max_ready : ℕ) (room : 0 < max_ready) (hdr : Header) (payload : List ℕ)
    (c : Carries first stream (length s.log) hdr payload) (short : length stream < 2 ^ 31) where
  expected_now : sub32 hdr.seq_num s.window.expected_seq ≡ 0
  expected_now = omega (arith, c.numbered, p.expected)

  seq_fits : hdr.seq_num < 2 ^ 32
  seq_fits = omega (arith, c.numbered)

  -- A packet that the window refuses although it is expected is there already.
  there_already :
      (code : ℤ)
      → refusal s.window hdr.seq_num ≡ some code
      → is_some (get_or (buffer s.window) 0 none) ≡ true
  there_already code f =
      let e = sym (refusal_lem s.window p.window_valid hdr.seq_num seq_fits) ∙ f in
      let z = ap (λ j. is_some (get_or (buffer s.window) j none)) expected_now in
      let l = p.window_valid.cap_valid.at_least in ground (arith, e, z, expected_now, l)

  now_there :
      Takes s.window hdr.seq_num
      → is_some (get_or (buffer (kept s.window hdr payload)) 0 none) ≡ true
  now_there t =
      let k = kept_lem s.window hdr payload p.window_valid seq_fits t.0 in
      let d = sub32 hdr.seq_num s.window.expected_seq in
      ap (λ j. is_some (get_or (buffer (kept s.window hdr payload)) j none)) (sym expected_now)
      ∙ ap (λ os. is_some (get_or os d none)) k.1.1
      ∙ set-is_some (buffer s.window) d k.1.0 (omega (arith, length-buffer s.window, t.0))

  fetched :
      is_some (get_or (buffer s.window) 0 none) ≡ true
      → length s.log < length (hand_out max_ready s).log
  unfolding hand_out
  fetched e = grows first stream s p max_ready room s.window p.window_valid p.waiting e

  arrive-grows : length s.log < length (hand_out max_ready (arrive max_ready s hdr payload)).log
  unfolding arrive
  arrive-grows =
      let After = λ (a : ℤ × RecvWindow × List RecvSlot).
        length s.log < length (hand_out max_ready (handed s a)).log in
      subst After (sym (by_ordered hdr c.mode_ordered max_ready room s.window payload))
        (elim (on_reliable_ordered-cases s.window hdr payload p.window_valid seq_fits max_ready) [
          | inl (code, f, e) ↦ subst After (sym e) (
              subst
                (λ l.
                  length s.log
                  < length (hand_out max_ready (record { window = s.window; log = l })).log)
                (sym (append-nil s.log)) (fetched (there_already code f)))
          | inr (t, e) ↦
              let k =
                kept-Matches first stream s p max_ready room (length s.log) hdr payload c short t in
              let w = kept s.window hdr payload in
              subst After (sym e) (
                omega (
                  arith,
                  grows first stream s p max_ready room w k.0 k.1 (now_there t),
                  hand_out-grows max_ready (handed s (pop_ready w max_ready)),
                ))
        ])

-- In any state that such a window can reach, when the message that it waits for arrives and what is
-- due is fetched, at least this message is handed out: the log grows.
pub next_arrives :
    {max_ready capacity first : ℕ} {stream : List (List ℕ)} {s : Receiver}
    → Reach max_ready capacity first stream s
    → 0 < max_ready
    → bad_capacity capacity ≡ false
    → capacity < 2 ^ 31
    → first < 2 ^ 32
    → length stream < 2 ^ 31
    → (hdr : Header) (payload : List ℕ) → Carries first stream (length s.log) hdr payload
    → length s.log < length (hand_out max_ready (arrive max_ready s hdr payload)).log
next_arrives {max_ready} {first} {stream} {s} r p e l h b hdr payload c =
    arrive-grows first stream s (Reach-IsPrefix r p e l h b) max_ready p hdr payload c b
