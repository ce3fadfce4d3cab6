-- ===== src/Net/Resources.antt =====
-- The descriptors that a wake-up channel takes and gives back, on Windows and on POSIX.
use rel4u.Prelude.{
  ℕ, ◌≡◌, ◌⊎◌, ◌∙◌, refl, sym, ap, ap₂, Bool, true, false, not, List, [], ◌∷◌, if◌then◌else◌,
  if_true, if_false, arith, Bool-cases, inl, inr, subst,
}
use rel4u.Prelude.Int.{ℤ, pos, negsuc, is_zero, eqb_ℤ}
use rel4u.Net.{Addr}
use rel4u.Net.System.{invalid, is_open}
use rel4u.Net.Windows.{WinSock, Channel}
use rel4u.Net.Windows as Windows

-- The descriptors without the first entry of `fd`.
unfoldable pub without : ℤ → List ℤ → List ℤ
without fd [] = []
without fd (x ∷ xs) = if eqb_ℤ fd x then xs else x ∷ without fd xs

without-head : (fd : ℤ) (xs : List ℤ) → without fd (fd ∷ xs) ≡ xs
unfolding without
without-head (pos n) xs = ground arith
without-head (negsuc n) xs = ground arith

-- A guard `if (!b) return x;`.
module _ {ℓ} {A : Type ℓ} where
  stopped : {b : Bool} (x y : A) → b ≡ false → (if not b then x else y) ≡ x
  stopped x y e = ground (arith, e)

  passed : {b : Bool} (x y : A) → b ≡ true → (if not b then x else y) ≡ y
  passed x y e = ground (arith, e)

-- What the documentation says of the sockets that are open: a new one is added, a closed one is gone,
-- and the other calls leave them as they are.
pub record Counts {S : Type 0} (ws : WinSock S) : Type 0 where
  pub opened : S → List ℤ
  pub socket_adds :
      (s : S)
      → opened (ws.socket s).1
        ≡ (if is_open (ws.socket s).0 then (ws.socket s).0 ∷ opened s else opened s)
  pub bind_keeps : (fd : ℤ) (a : Addr) (s : S) → opened (ws.bind fd a s).1 ≡ opened s
  pub name_keeps : (fd : ℤ) (s : S) → opened (ws.getsockname fd s).2 ≡ opened s
  pub connect_keeps : (fd : ℤ) (a : Addr) (s : S) → opened (ws.connect fd a s).1 ≡ opened s
  pub mode_keeps : (fd : ℤ) (m : ℕ) (s : S) → opened (ws.set_mode fd m s).1 ≡ opened s
  pub close_removes : (fd : ℤ) (s : S) → opened (ws.closesocket fd s) ≡ without fd (opened s)

module _ {S : Type 0} (ws : WinSock S) (laws : Counts ws) where
  -- A call that failed has left the channel and the open sockets as they were; one that did not has
  -- opened the two of the channel.
  abbrev Created : Channel → List ℤ → ℤ × Channel × S → Type 0
  Created p before r =
      ((r.0 ≡ negsuc 0) × (r.1 ≡ p) × (laws.opened r.2 ≡ before))
      ⊎ ((r.0 ≡ pos 0)
          × (is_open r.1.send_sock ≡ true)
          × (is_open r.1.recv_sock ≡ true)
          × (laws.opened r.2 ≡ r.1.send_sock ∷ r.1.recv_sock ∷ before))

  -- The newest socket closed again.
  closed_lem :
      (fd : ℤ) (before : List ℤ) (t : S)
      → laws.opened t ≡ fd ∷ before
      → laws.opened (ws.closesocket fd t) ≡ before
  closed_lem fd before t e = laws.close_removes fd t ∙ ap (without fd) e ∙ without-head fd before

  add_sender_lem :
      (listener : ℤ) (addr : Addr) (p : Channel) (before : List ℤ) (s : S)
      → is_open listener ≡ true
      → laws.opened s ≡ listener ∷ before
      → Created p before (Windows.add_sender ws listener addr p s)
  unfolding Windows.add_sender
  add_sender_lem listener addr p before s o e =
      let r = ws.socket s in
      let c = ws.connect r.0 addr r.1 in
      let n = Windows.set_nonblocking ws listener true c.1 in
      let m = Windows.set_nonblocking ws r.0 true n.1 in
      let made : ℤ × Channel × S = (pos 0, record { send_sock = r.0; recv_sock = listener }, m.1) in
      let one_less : ℤ × Channel × S = (negsuc 0, p, ws.closesocket listener r.1) in
      let two_less : ℤ × Channel × S =
        (negsuc 0, p, ws.closesocket listener (ws.closesocket r.0 c.1)) in
      let last : ℤ × Channel × S = if not (is_zero c.0) then two_less else made in
      elim (Bool-cases (is_open r.0)) [
        | inl got ↦
            let two : laws.opened c.1 ≡ r.0 ∷ listener ∷ before =
              laws.connect_keeps r.0 addr r.1
              ∙ laws.socket_adds s
              ∙ if_true _ _ got
              ∙ ap (λ xs. r.0 ∷ xs) e in
            subst (Created p before) (sym (passed one_less last got))
              (elim (Bool-cases (is_zero c.0)) [
                | inl joined ↦ subst (Created p before) (sym (passed two_less made joined)) (
                    inr (
                      refl,
                      got,
                      o,
                      laws.mode_keeps r.0 1 n.1 ∙ laws.mode_keeps listener 1 c.1 ∙ two,
                    ))
                | inr lost ↦ subst (Created p before) (sym (stopped two_less made lost)) (
                    inl (
                      refl,
                      refl,
                      closed_lem listener before (ws.closesocket r.0 c.1)
                          (closed_lem r.0 (listener ∷ before) c.1 two),
                    ))
              ])
        | inr none_left ↦
            let one : laws.opened r.1 ≡ listener ∷ before =
              laws.socket_adds s ∙ if_false _ _ none_left ∙ e in
            subst (Created p before) (sym (stopped one_less last none_left))
              (inl (refl, refl, closed_lem listener before r.1 one))
      ]

  create_lem : (p : Channel) (s : S) → Created p (laws.opened s) (Windows.create ws p s)
  unfolding Windows.create
  create_lem p s =
      let l = ws.socket s in
      let b = ws.bind l.0 (Windows.local_address ws) l.1 in
      let g = ws.getsockname l.0 b.1 in
      let before = laws.opened s in
      let rest = Windows.add_sender ws l.0 g.1 p g.2 in
      let no_name : ℤ × Channel × S = (negsuc 0, p, ws.closesocket l.0 g.2) in
      let no_port : ℤ × Channel × S = (negsuc 0, p, ws.closesocket l.0 b.1) in
      let named : ℤ × Channel × S = if not (is_zero g.0) then no_name else rest in
      let bound : ℤ × Channel × S = if not (is_zero b.0) then no_port else named in
      elim (Bool-cases (is_open l.0)) [
        | inl got ↦
            let one : laws.opened b.1 ≡ l.0 ∷ before =
              laws.bind_keeps l.0 (Windows.local_address ws) l.1
              ∙ laws.socket_adds s
              ∙ if_true _ _ got in
            let still : laws.opened g.2 ≡ l.0 ∷ before = laws.name_keeps l.0 b.1 ∙ one in
            let given_up : (t : S)
                → laws.opened t ≡ l.0 ∷ before
                → Created p before (negsuc 0, p, ws.closesocket l.0 t) =
              λ t e. inl (refl, refl, closed_lem l.0 before t e) in
            subst (Created p before) (sym (passed (negsuc 0, p, l.1) bound got))
              (elim (Bool-cases (is_zero b.0)) [
                | inr no_bind ↦
                    subst (Created p before) (sym (stopped no_port named no_bind))
                      (given_up b.1 one)
                | inl bind_ok ↦
                    subst (Created p before) (sym (passed no_port named bind_ok))
                      (elim (Bool-cases (is_zero g.0)) [
                        | inr unnamed ↦
                            subst (Created p before) (sym (stopped no_name rest unnamed))
                              (given_up g.2 still)
                        | inl name_ok ↦
                            subst (Created p before) (sym (passed no_name rest name_ok))
                              (add_sender_lem l.0 g.1 p before g.2 got still)
                      ])
              ])
        | inr none_left ↦
            subst (Created p before) (sym (stopped (negsuc 0, p, l.1) bound none_left))
              (inl (refl, refl, laws.socket_adds s ∙ if_false _ _ none_left))
      ]

  close_lem :
      (p : Channel) (before : List ℤ) (s : S)
      → is_open p.send_sock ≡ true
      → is_open p.recv_sock ≡ true
      → laws.opened s ≡ p.send_sock ∷ p.recv_sock ∷ before
      → (laws.opened (Windows.close ws p s).1 ≡ before)
        × ((Windows.close ws p s).0 ≡ record { send_sock = invalid; recv_sock = invalid })
  unfolding Windows.close
  close_lem p before s o k e =
      let t = ws.closesocket p.send_sock s in
      let sent : Windows.socket_close ws p.send_sock s ≡ t = if_true _ _ o in
      let received : (u : S)
          → Windows.socket_close ws p.recv_sock u ≡ ws.closesocket p.recv_sock u =
        λ u. if_true _ _ k in
      (
        ap laws.opened (
              received (Windows.socket_close ws p.send_sock s)
              ∙ ap (ws.closesocket p.recv_sock) sent)
            ∙ closed_lem p.recv_sock before t (closed_lem p.send_sock (p.recv_sock ∷ before) s e),
        ap₂ (λ a b. record { send_sock = a; recv_sock = b }) (if_true _ _ o) (if_true _ _ k),
      )

  -- The wake-up channel on Windows, whatever the socket calls answer: either its creation fails with -1,
  -- leaves the channel as it was, and has closed every socket that it opened; or it returns 0 and has
  -- opened the two sockets of the channel, and closing the channel then closes these two and no other
  -- and marks both as gone.
  pub channel_lem :
      (p : Channel) (s : S)
      → let r = Windows.create ws p s in
        let c = Windows.close ws r.1 r.2 in
        ((r.0 ≡ negsuc 0) × (r.1 ≡ p) × (laws.opened r.2 ≡ laws.opened s))
        ⊎ ((r.0 ≡ pos 0)
            × (laws.opened r.2 ≡ r.1.send_sock ∷ r.1.recv_sock ∷ laws.opened s)
            × (laws.opened c.1 ≡ laws.opened s)
            × (c.0 ≡ record { send_sock = invalid; recv_sock = invalid }))
  channel_lem p s = elim (create_lem p s) [
    | inl failed ↦ inl failed
    | inr (made, o, k, e) ↦
        let r = Windows.create ws p s in
        let c = close_lem r.1 (laws.opened s) r.2 o k e in inr (made, e, c.0, c.1)
  ]
