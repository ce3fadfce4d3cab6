-- ===== src/Exchange/Arrived.antt =====
-- What has arrived at the receiver: kept by its window, or handed out.
use mathlib.Core.List.{append-nil}
use native.Mathlib.Decide.{dec_lt}
use rel4u.Prelude.{
  ℕ, zero, suc, ◌+◌, ◌-◌, ◌^◌, ◌≤◌, ◌<◌, ◌≡◌, ◌≢◌, refl, sym, ap, subst, ◌∙◌, Bool, true, false,
  ◌||◌, List, [], ◌∷◌, ◌++◌, Option, none, some, inl, inr, Bool-cases, arith, ltb, length, get_or,
  get_or-append, get_or-beyond, get_or-drop, length-drop, set, drop, replicate,
}
use rel4u.Prelude.Int.{ℤ}
use rel4u.Seq.{sub32}
use rel4u.Packet.{Header}
use rel4u.Window.Recv.{RecvSlot, RecvWindow, pop_ready, kept}
use rel4u.Window.Recv.Inv.{view, IsRecvWindow}
use rel4u.Window.Recv.Deliver.{buffer, run, pop_stop}
use rel4u.Window.Recv.Accept.{is_some, refusal_lem}
use rel4u.Window.Recv.Modes.{Takes, pop_ready_lem, kept_lem, on_reliable_ordered-cases}
use rel4u.Window.Recv.Once.{by_ordered, set-is_some, length-buffer}
use rel4u.Window.Recv.AckInfo.{keeps}
use rel4u.Transfer.{Receiver, Carries, handed, arrive, hand_out}
use rel4u.Transfer.Kept.{Matches}
use rel4u.Transfer.Order.{IsPrefix, length-handed, kept-Matches}
use rel4u.Exchange.{has}

-- The receiver has all that it had.
abbrev pub Grows : Receiver → Receiver → Type 0
Grows r t = (length r.log ≤ length t.log) × ((i : ℕ) → has r i ≡ true → has t i ≡ true)

is_some-lt :
    (os : List (Option RecvSlot)) (j : ℕ) → is_some (get_or os j none) ≡ true → j < length os
is_some-lt os j e = elim (dec_lt j (length os)) [
  | yes l ↦ l
  | no f ↦ absurd (clash (ap is_some (sym (get_or-beyond os j none (omega arith))) ∙ e))
]
  where
    clash : false ≢ true
    clash g = cc

is_some-set :
    (os : List (Option RecvSlot)) (d j : ℕ) (x : RecvSlot)
    → is_some (get_or os j none) ≡ true
    → is_some (get_or (set os d (some x)) j none) ≡ true
is_some-set [] d j x e = e
is_some-set (o ∷ os) zero zero x e = refl
is_some-set (o ∷ os) zero (suc j) x e = e
is_some-set (o ∷ os) (suc d) zero x e = e
is_some-set (o ∷ os) (suc d) (suc j) x e = is_some-set os d j x e

-- Dropping `due` packets in front.
is_some-drop :
    (os : List (Option RecvSlot)) (due i j : ℕ)
    → i ≡ due + j
    → is_some (get_or os i none) ≡ true
    → is_some (get_or (drop due os ++ replicate due none) j none) ≡ true
is_some-drop os due i j e s =
    let l = is_some-lt os i s in
    ap is_some (
      get_or-append (drop due os) (replicate due none) j none (omega (arith, length-drop due os))
      ∙ get_or-drop i due j none os e)
    ∙ s

module _ (first : ℕ) (stream : List (List ℕ)) (r : Receiver) (p : IsPrefix first stream r)
    (max_ready : ℕ) (room : 0 < max_ready) where
  abbrev n : ℕ
  n = length r.log

  module _ (w : RecvWindow) (v : IsRecvWindow w) (m : Matches (drop n stream) (buffer w)) where
    abbrev due : ℕ
    due = run pop_stop max_ready (view w)

    -- Handing out what is due from `w`.
    pop_ready-has :
        (i : ℕ)
        → ltb i n || keeps w (i - n) ≡ true
        → has (handed r (pop_ready w max_ready)) i ≡ true
    pop_ready-has i e =
        let t = handed r (pop_ready w max_ready) in
        let l : length t.log ≡ n + due = length-handed first stream r p max_ready room w v m in
        let b = (pop_ready_lem w max_ready v room).2.2 in
        elim (dec_lt i (n + due)) [
          | yes before ↦ ground (arith, l, before)
          | no behind ↦
              let k : keeps w (i - n) ≡ true = ground (arith, behind) in
              let there : keeps t.window (i - length t.log) ≡ true =
                ap (λ os. is_some (get_or os (i - length t.log) none)) b
                ∙ is_some-drop (buffer w) due (i - n) (i - length t.log) (omega (arith, l, behind))
                    k in
              ground (arith, there)
        ]

    pop_ready-Grows :
        ((i : ℕ) → has r i ≡ true → ltb i n || keeps w (i - n) ≡ true)
        → Grows r (handed r (pop_ready w max_ready))
    pop_ready-Grows f = (
      omega (arith, length-handed first stream r p max_ready room w v m),
      λ i e. pop_ready-has i (f i e),
    )

  pub hand_out-Grows : Grows r (hand_out max_ready r)
  unfolding hand_out
  hand_out-Grows = pop_ready-Grows r.window p.window_valid p.waiting (λ i e. e)

  -- A packet that the window takes.
  pub kept-has :
      (hdr : Header) (payload : List ℕ)
      → hdr.seq_num < 2 ^ 32
      → Takes r.window hdr.seq_num
      → (i : ℕ) → has r i ≡ true
      → ltb i n || keeps (kept r.window hdr payload) (i - n) ≡ true
  kept-has hdr payload h t i e =
      let k = kept_lem r.window hdr payload p.window_valid h t.0 in
      let d = sub32 hdr.seq_num r.window.expected_seq in
      either (ltb i n) (keeps r.window (i - n)) _ e (λ f.
        ap (λ os. is_some (get_or os (i - n) none)) k.1.1
        ∙ is_some-set (buffer r.window) d (i - n) k.1.0 f)
    where
      either : (a b c : Bool) → a || b ≡ true → (b ≡ true → c ≡ true) → a || c ≡ true
      either true b c x y = refl
      either false b c x y = y x

  pub arrive-Grows :
      (i : ℕ) (hdr : Header) (payload : List ℕ)
      → Carries first stream i hdr payload
      → length stream < 2 ^ 31
      → Grows r (arrive max_ready r hdr payload)
  unfolding arrive
  arrive-Grows i hdr payload c short =
      let After = λ (a : ℤ × RecvWindow × List RecvSlot). Grows r (handed r a) in
      let fits : hdr.seq_num < 2 ^ 32 = omega (arith, c.numbered) in
      subst After (sym (by_ordered hdr c.mode_ordered max_ready room r.window payload))
        (elim (on_reliable_ordered-cases r.window hdr payload p.window_valid fits max_ready) [
          | inl (code, f, e) ↦ subst After (sym e) (
              subst (λ l. Grows r (record { window = r.window; log = l })) (sym (append-nil r.log))
                (omega arith, λ j g. g))
          | inr (t, e) ↦
              let k = kept-Matches first stream r p max_ready room i hdr payload c short t in
              subst After (sym e)
                (pop_ready-Grows (kept r.window hdr payload) k.0 k.1 (kept-has hdr payload fits t))
        ])

  -- The packet of a message within reach of the window makes the message arrive.
  pub arrive-has :
      (i : ℕ) (hdr : Header) (payload : List ℕ)
      → Carries first stream i hdr payload
      → length stream < 2 ^ 31
      → i < n + r.window.capacity
      → has (arrive max_ready r hdr payload) i ≡ true
  unfolding arrive
  arrive-has i hdr payload c short near = elim (Bool-cases (has r i)) [
    | inl e ↦ (arrive-Grows i hdr payload c short).1 i e
    | inr e ↦
        let Has = λ (a : ℤ × RecvWindow × List RecvSlot). has (handed r a) i ≡ true in
        let fits : hdr.seq_num < 2 ^ 32 = omega (arith, c.numbered) in
        let missing : keeps r.window (i - n) ≡ false = ground (arith, e) in
        let behind : n ≤ i = ground (arith, e) in
        let d = sub32 hdr.seq_num r.window.expected_seq in
        let at : d ≡ i - n =
          omega (arith, p.expected, c.numbered, p.within, c.in_stream, short, behind) in
        let small : d < r.window.capacity = omega (arith, at, near, behind) in
        subst Has (sym (by_ordered hdr c.mode_ordered max_ready room r.window payload))
          (elim (on_reliable_ordered-cases r.window hdr payload p.window_valid fits max_ready) [
            | inl (code, f, g) ↦
                let q = sym (refusal_lem r.window p.window_valid hdr.seq_num fits) ∙ f in
                let free = ap (keeps r.window) at ∙ missing in
                let top = p.window_valid.cap_valid.at_most in
                absurd (ground (arith, q, free, small, top))
            | inr (t, g) ↦
                let k = kept-Matches first stream r p max_ready room i hdr payload c short t in
                let x = kept_lem r.window hdr payload p.window_valid fits t.0 in
                let there : keeps (kept r.window hdr payload) (i - n) ≡ true =
                  ap (keeps (kept r.window hdr payload)) (sym at)
                  ∙ ap (λ os. is_some (get_or os d none)) x.1.1
                  ∙ set-is_some (buffer r.window) d x.1.0
                      (omega (arith, length-buffer r.window, small)) in
                subst Has (sym g)
                  (pop_ready-has (kept r.window hdr payload) k.0 k.1 i (ground (arith, there)))
          ])
  ]
