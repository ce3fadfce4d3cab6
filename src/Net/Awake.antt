-- ===== src/Net/Awake.antt =====
-- A worker thread that waits, and another thread that signals: `rel4u_wakeup_pipe_signal`,
-- `rel4u_net_poll` and `rel4u_wakeup_pipe_drain` one after the other.
use native.Mathlib.Decide.{dec_lt}
use rel4u.Prelude.{
  ℕ, zero, suc, ◌-◌, ◌<◌, ◌≡◌, ◌∙◌, refl, sym, ap, Bool, true, false, ◌&&◌, List, [], ◌∷◌, ◌++◌,
  ◌==◌, if◌then◌else◌, arith, length, get_or, ltb, min, if_false, if_true, subst,
}
use rel4u.Prelude.Int.{ℤ, pos, negsuc, is_negative}
use rel4u.Net.System.{PollFd, System, is_open, is_positive, is_readable}
use rel4u.Net.Wakeup.{WakeupPipe, Readable, entry, flag, signal, drain_loop, drain, net_poll}

-- What the documentation of the system says of a pipe whose two ends, `p.read_fd` and `p.write_fd`, are
-- open and do not block: `Ready` holds of the states in which it is so, `queued` counts its bytes.
pub record IsPipe {S : Type 0} (sys : System S) (p : WakeupPipe) : Type 1 where
  pub Ready : S → Type 0
  pub queued : S → ℕ
  pub read_open : is_open p.read_fd ≡ true
  pub write_open : is_open p.write_fd ≡ true
  -- a write adds its byte or finds the pipe full
  pub write-Ready : (s : S) → Ready s → Ready (sys.write p.write_fd (1 ∷ []) s).1
  pub write_fills : (s : S) → Ready s → 0 < queued (sys.write p.write_fd (1 ∷ []) s).1
  -- a read takes what is there, and fails on an empty pipe
  pub read-Ready : (n : ℕ) (s : S) → Ready s → Ready (sys.read p.read_fd n s).1
  pub read_some :
      (n : ℕ) (s : S) → Ready s → 0 < queued s → (sys.read p.read_fd n s).0 ≡ pos (min (queued s) n)
  pub read_none :
      (n : ℕ) (s : S) → Ready s → queued s ≡ 0 → is_negative (sys.read p.read_fd n s).0 ≡ true
  pub read_takes : (n : ℕ) (s : S) → Ready s → queued (sys.read p.read_fd n s).1 ≡ queued s - n
  -- a poll of the read end, alone or behind another descriptor, finds out whether there is a byte
  pub poll-Ready : (fds : List PollFd) (t : ℤ) (s : S) → Ready s → Ready (sys.poll fds t s).2
  pub poll_keeps :
      (fds : List PollFd) (t : ℤ) (s : S) → Ready s → queued (sys.poll fds t s).2 ≡ queued s
  pub poll_tells :
      (before : List PollFd) (t : ℤ) (s : S)
      → Ready s
      → is_positive (sys.poll (before ++ entry sys p.read_fd) t s).0 ≡ true
      → is_readable sys (get_or (sys.poll (before ++ entry sys p.read_fd) t s).1 (length before) 0)
        ≡ ltb 0 (queued s)
  pub poll_finds :
      (before : List PollFd) (t : ℤ) (s : S)
      → Ready s
      → 0 < queued s
      → is_negative (sys.poll (before ++ entry sys p.read_fd) t s).0 ≡ false
      → is_positive (sys.poll (before ++ entry sys p.read_fd) t s).0 ≡ true

negative_lem : (x : ℤ) → is_negative x ≡ true → is_positive x ≡ false
negative_lem (pos n) e = ground (arith, e)
negative_lem (negsuc n) e = refl

and_true : (a b c : Bool) → b ≡ true → (a && b && c) ≡ (a && c)
and_true a b c e = ground (arith, e)

index_lem : (b : Bool) (x : PollFd) → (if b then 1 else 0) ≡ length (if b then x ∷ [] else [])
index_lem true x = refl
index_lem false x = refl

not_empty :
    (fds : List PollFd) (b : Bool) (x : PollFd)
    → b ≡ true
    → (length (fds ++ (if b then x ∷ [] else [])) == 0) ≡ false
not_empty [] true x e = refl
not_empty [] false x e = ground (arith, e)
not_empty (y ∷ ys) b x e = ground arith

module _ {S : Type 0} (sys : System S) (p : WakeupPipe) (laws : IsPipe sys p) where
  -- The wait asks the system, and reads the entry of the pipe behind that of the socket.
  net_poll-asked :
      (sock timeout_ms : ℤ) (s : S)
      → let r = sys.poll (entry sys sock ++ entry sys p.read_fd) timeout_ms s in
        let t = net_poll sys sock p timeout_ms s in
        (t.0.code ≡ r.0)
        × (t.0.wakeup
            ≡ (is_positive r.0 && is_readable sys (get_or r.1 (length (entry sys sock)) 0)))
        × (t.1 ≡ r.2)
  unfolding net_poll
  net_poll-asked sock timeout_ms s =
      let r = sys.poll (entry sys sock ++ entry sys p.read_fd) timeout_ms s in
      let asked : Readable × S = (
        record {
          code = r.0;
          socket = flag sys r.0 sock r.1 0;
          wakeup = flag sys r.0 p.read_fd r.1 (if is_open sock then 1 else 0);
        },
        r.2,
      ) in
      let e : net_poll sys sock p timeout_ms s ≡ asked = if_false _ _ (
        not_empty (entry sys sock) (is_open p.read_fd)
          (record { fd = p.read_fd; events = sys.pollin }) laws.read_open) in
      let found = is_readable sys (get_or r.1 (if is_open sock then 1 else 0) 0) in
      let open_flag : flag sys r.0 p.read_fd r.1 (if is_open sock then 1 else 0)
          ≡ (is_positive r.0 && found) =
        and_true (is_positive r.0) (is_open p.read_fd) found laws.read_open in
      (
        ap (λ (t : Readable × S). t.0.code) e,
        ap (λ (t : Readable × S). t.0.wakeup) e
            ∙ open_flag
            ∙ ap (λ (i : ℕ). is_positive r.0 && is_readable sys (get_or r.1 i 0))
                (index_lem (is_open sock) (record { fd = sock; events = sys.pollin })),
        ap (λ (t : Readable × S). t.1) e,
      )

  -- The wait tells of the pipe just what is in it, whether or not the socket is open.
  net_poll-wakeup :
      (sock timeout_ms : ℤ) (s : S)
      → laws.Ready s
      → let r = (net_poll sys sock p timeout_ms s).0 in
        r.wakeup ≡ (is_positive r.code && ltb 0 (laws.queued s))
  net_poll-wakeup sock timeout_ms s ready =
      let a = net_poll-asked sock timeout_ms s in
      let tells = laws.poll_tells (entry sys sock) timeout_ms s ready in
      a.1 ∙ and_lem _ _ _ tells ∙ ap (λ (c : ℤ). is_positive c && ltb 0 (laws.queued s)) (sym a.0)
    where
      and_lem : (a b c : Bool) → (a ≡ true → b ≡ c) → (a && b) ≡ (a && c)
      and_lem true b c e = e refl
      and_lem false b c e = refl

  net_poll-Ready :
      (sock timeout_ms : ℤ) (s : S)
      → laws.Ready s
      → let t = (net_poll sys sock p timeout_ms s).1 in
        laws.Ready t × (laws.queued t ≡ laws.queued s)
  net_poll-Ready sock timeout_ms s ready =
      let fds = entry sys sock ++ entry sys p.read_fd in
      let e = (net_poll-asked sock timeout_ms s).2 in
      (
        subst laws.Ready (sym e) (laws.poll-Ready fds timeout_ms s ready),
        ap laws.queued e ∙ laws.poll_keeps fds timeout_ms s ready,
      )

  abbrev Emptied : S × Bool → Type 0
  Emptied r = (r.1 ≡ true) × laws.Ready r.0 × (laws.queued r.0 ≡ 0)

  -- Enough rounds empty the pipe.
  drain_loop_lem :
      (n : ℕ) (s : S) → laws.Ready s → laws.queued s < n → Emptied (drain_loop sys n p.read_fd s)
  unfolding drain_loop
  drain_loop_lem zero s ready l = absurd (omega (arith, l))
  drain_loop_lem (suc n) s ready l =
      let r = sys.read p.read_fd 64 s in
      elim (dec_lt 0 (laws.queued s)) [
        | yes some_left ↦
            let more : is_positive r.0 ≡ true =
              ap is_positive (laws.read_some 64 s ready some_left) ∙ ground (arith, some_left) in
            let t = laws.read_takes 64 s ready in
            subst Emptied (sym (if_true (drain_loop sys n p.read_fd r.1) (r.1, true) more))
              (drain_loop_lem n r.1 (laws.read-Ready 64 s ready) (omega (arith, t, l, some_left)))
        | no empty ↦
            let over : is_positive r.0 ≡ false =
              negative_lem r.0 (laws.read_none 64 s ready (omega (arith, empty))) in
            let t = laws.read_takes 64 s ready in
            subst Emptied (sym (if_false (drain_loop sys n p.read_fd r.1) (r.1, true) over))
              (refl, laws.read-Ready 64 s ready, omega (arith, t, empty))
      ]

  -- Once another thread has signalled, the next wait of the worker that the system does not break off
  -- returns and tells of it; the loop that then empties the pipe comes to its end, given more rounds
  -- than there are bytes in the pipe; and the wait after that does not tell of the signal again.
  pub signal_once :
      (sock sock' timeout_ms : ℤ) (n : ℕ) (s : S)
      → laws.Ready s
      → let polled = net_poll sys sock p timeout_ms (signal sys p s) in
        is_negative polled.0.code ≡ false
        → laws.queued polled.1 < n
        → let drained = drain sys n p polled.1 in
          (is_positive polled.0.code ≡ true)
          × (polled.0.wakeup ≡ true)
          × (drained.1 ≡ true)
          × ((net_poll sys sock' p timeout_ms drained.0).0.wakeup ≡ false)
  unfolding signal drain
  signal_once sock sock' timeout_ms n s ready calm enough =
      let woken = signal sys p s in
      let sent : woken ≡ (sys.write p.write_fd (1 ∷ []) s).1 = if_true _ _ laws.write_open in
      let woken_ready : laws.Ready woken = subst laws.Ready (sym sent) (laws.write-Ready s ready) in
      let filled : 0 < laws.queued woken =
        subst (λ (t : S). 0 < laws.queued t) (sym sent) (laws.write_fills s ready) in
      let polled = net_poll sys sock p timeout_ms woken in
      let a = net_poll-asked sock timeout_ms woken in
      let found : is_positive polled.0.code ≡ true =
        ap is_positive a.0
        ∙ laws.poll_finds (entry sys sock) timeout_ms woken woken_ready filled
            (ap is_negative (sym a.0) ∙ calm) in
      let told : polled.0.wakeup ≡ true =
        net_poll-wakeup sock timeout_ms woken woken_ready ∙ ground (arith, found, filled) in
      let kept = net_poll-Ready sock timeout_ms woken woken_ready in
      let e : drain sys n p polled.1 ≡ drain_loop sys n p.read_fd polled.1 =
        if_true _ _ laws.read_open in
      let emptied : Emptied (drain sys n p polled.1) =
        subst Emptied (sym e) (drain_loop_lem n polled.1 kept.0 enough) in
      let quiet = net_poll-wakeup sock' timeout_ms (drain sys n p polled.1).0 emptied.1 in
      (found, told, emptied.0, quiet ∙ ground (arith, emptied.2))
