-- ===== src/Net/Wakeup.antt =====
-- The wake-up pipe and the wait of a worker thread: `rel4u_wakeup_pipe_create`, `_signal`, `_drain` and
-- `_close`, and `rel4u_net_poll`, as on POSIX.
use rel4u.Prelude.{
  ℕ, zero, suc, ◌-◌, ◌^◌, Bool, true, false, ◌&&◌, List, [], ◌∷◌, ◌++◌, none, some, ◌==◌,
  if◌then◌else◌, length, get_or, bit_and, bit_or,
}
use rel4u.Prelude.Int.{ℤ, pos, negsuc}
use rel4u.Net.System.{PollFd, System, invalid, is_open, is_positive, is_readable}

-- `rel4u_wakeup_pipe_t`.
pub record WakeupPipe : Type 0 where
  pub read_fd : ℤ
  pub write_fd : ℤ

-- What `rel4u_net_poll` returns and stores.
pub record Readable : Type 0 where
  pub code : ℤ
  pub socket : Bool
  pub wakeup : Bool

module _ {S : Type 0} (sys : System S) where
  -- `flags |= O_NONBLOCK` or `flags &= ~O_NONBLOCK`.
  abbrev new_flags : Bool → ℕ → ℕ
  new_flags nonblocking flags =
      if nonblocking
      then bit_or flags sys.o_nonblock
      else bit_and flags (2 ^ 32 - 1 - sys.o_nonblock)

  abbrev set_flags_from : ℤ → Bool → ℤ × S → ℤ × S
  set_flags_from sock nonblocking (pos flags, s) =
      sys.set_flags sock (new_flags nonblocking flags) s
  set_flags_from sock nonblocking (negsuc n, s) = (negsuc 0, s)

  -- `rel4u_net_socket_set_nonblocking`.
  unfoldable pub set_nonblocking : ℤ → Bool → S → ℤ × S
  set_nonblocking sock nonblocking s = set_flags_from sock nonblocking (sys.get_flags sock s)

  unfoldable pub create : WakeupPipe → S → ℤ × WakeupPipe × S
  unfolding set_nonblocking
  create p s =
      let r = sys.pipe s in
      elim r.0 [
        | none ↦ (negsuc 0, p, r.1)
        | some fds ↦
            let a = set_nonblocking fds.0 true r.1 in
            let b = set_nonblocking fds.1 true a.1 in
            (pos 0, record { read_fd = fds.0; write_fd = fds.1 }, b.1)
      ]

  unfoldable pub signal : WakeupPipe → S → S
  signal p s = if is_open p.write_fd then (sys.write p.write_fd (1 ∷ []) s).1 else s

  -- `while (read(...) > 0) {}`, and whether it came to its end.
  unfoldable pub drain_loop : ℕ → ℤ → S → S × Bool
  drain_loop zero fd s = (s, false)
  drain_loop (suc n) fd s =
      let r = sys.read fd 64 s in
      let rest = drain_loop n fd r.1 in if is_positive r.0 then rest else (r.1, true)

  unfoldable pub drain : ℕ → WakeupPipe → S → S × Bool
  drain n p s = if is_open p.read_fd then drain_loop n p.read_fd s else (s, true)

  -- The two halves of `rel4u_wakeup_pipe_close`.
  abbrev close_write : WakeupPipe × S → WakeupPipe × S
  close_write (p, s) =
      if is_open p.write_fd
      then (record p { write_fd = invalid }, sys.close p.write_fd s)
      else (p, s)

  abbrev close_read : WakeupPipe × S → WakeupPipe × S
  close_read (p, s) =
      if is_open p.read_fd then (record p { read_fd = invalid }, sys.close p.read_fd s) else (p, s)

  unfoldable pub close : WakeupPipe → S → WakeupPipe × S
  close p s = close_read (close_write (p, s))

  -- The entry of a descriptor that is open.
  abbrev pub entry : ℤ → List PollFd
  entry fd = if is_open fd then record { fd = fd; events = sys.pollin } ∷ [] else []

  -- The flag of an entry, behind a call that found something.
  abbrev pub flag : ℤ → ℤ → List ℕ → ℕ → Bool
  flag code fd revents idx =
      is_positive code && is_open fd && is_readable sys (get_or revents idx 0)

  unfoldable pub net_poll : ℤ → WakeupPipe → ℤ → S → Readable × S
  net_poll sock p timeout_ms s =
      let fds = entry sock ++ entry p.read_fd in
      let r = sys.poll fds timeout_ms s in
      if length fds == 0 then (record { code = pos 0; socket = false; wakeup = false }, s) else (
        record {
          code = r.0;
          socket = flag r.0 sock r.1 0;
          wakeup = flag r.0 p.read_fd r.1 (if is_open sock then 1 else 0);
        },
        r.2,
      )
