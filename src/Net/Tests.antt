-- ===== src/Net/Tests.antt =====
-- The theorems at concrete systems. For the wake-up pipe, the state of the system is the number of bytes in the pipe, whose
-- ends are the descriptors 3 and 4. The socket is 5 and never has anything to read.
use rel4u.Prelude.{
  ℕ, ◌+◌, ◌-◌, ◌<◌, ◌≡◌, ◌⊎◌, ◌↔◌, refl, Bool, true, false, List, [], ◌∷◌, ◌++◌, some, map, ◌==◌,
  if◌then◌else◌, arith, length, get_or, ltb, min,
}
use rel4u.Prelude.Int.{ℤ, pos, negsuc, is_negative}
use rel4u.Net.{Addr, addr_equal}
use rel4u.Net.Same.{addr_equal_lem}
use rel4u.Net.Windows.{WinSock, Channel}
use rel4u.Net.Windows as Windows
use rel4u.Net.Resources.{without, Counts, channel_lem}
use rel4u.Net.System.{invalid, PollFd, System, is_positive, is_readable}
use rel4u.Net.Wakeup.{WakeupPipe, Readable, entry, signal, drain, net_poll}
use rel4u.Net.Awake.{IsPipe, signal_once}

abbrev port : ℕ → Addr
port n = record { ss_family = 2; sin_port = n; sin_addr = 127; sin6_port = 0; sin6_addr = [] }

abbrev is_three : ℤ → Bool
is_three (pos n) = n == 3
is_three (negsuc n) = false

abbrev events : ℕ → PollFd → ℕ
events s f = if is_three f.fd then (if s == 0 then 0 else 1) else 0

abbrev counter : System ℕ
counter = record {
  pipe = λ s. (some (pos 3, pos 4), s);
  get_flags = λ fd s. (pos 2, s);
  set_flags = λ fd flags s. (pos 0, s);
  write = λ fd bytes s. (pos 1, s + 1);
  read = λ fd n s. (if s == 0 then negsuc 0 else pos (min s n), s - n);
  close = λ fd s. s;
  poll = λ fds t s. (pos (min s 1), map (events s) fds, s);
  o_nonblock = 2048;
  pollin = 1;
}

abbrev wakeup : WakeupPipe
wakeup = record { read_fd = pos 3; write_fd = pos 4 }

tells :
    (before : List PollFd) (s : ℕ)
    → is_readable counter
        (get_or (map (events s) (before ++ entry counter (pos 3))) (length before) 0)
      ≡ ltb 0 s
tells [] s = ground arith
tells (f ∷ fs) s = tells fs s

read_lem : (n s : ℕ) → 0 < s → (if s == 0 then negsuc 0 else pos (min s n)) ≡ pos (min s n)
read_lem n s l = ground (arith, l)

empty_lem : (n s : ℕ) → s ≡ 0 → is_negative (if s == 0 then negsuc 0 else pos (min s n)) ≡ true
empty_lem n s e = ground (arith, e)

found_lem : (s : ℕ) → 0 < s → is_positive (pos (min s 1)) ≡ true
found_lem s l = ground (arith, l)

abbrev wakeup_laws : IsPipe counter wakeup
wakeup_laws = record {
  Ready = λ s. Unit;
  queued = λ s. s;
  read_open = refl;
  write_open = refl;
  write-Ready = λ s r. tt;
  write_fills = λ s r. omega arith;
  read-Ready = λ n s r. tt;
  read_some = λ n s r l. read_lem n s l;
  read_none = λ n s r e. empty_lem n s e;
  read_takes = λ n s r. refl;
  poll-Ready = λ fds t s r. tt;
  poll_keeps = λ fds t s r. refl;
  poll_tells = λ before t s r e. tells before s;
  poll_finds = λ before t s r l e. found_lem s l;
}

abbrev woken : Readable × ℕ
woken = net_poll counter (pos 5) wakeup (pos 10) (signal counter wakeup 2)

-- Three bytes wait when the worker polls, and one round of the loop reads them.
signal_once_example :
    let drained = drain counter 4 wakeup woken.1 in
    (is_positive woken.0.code ≡ true)
    × (woken.0.wakeup ≡ true)
    × (drained.1 ≡ true)
    × ((net_poll counter (negsuc 0) wakeup (pos 10) drained.0).0.wakeup ≡ false)
unfolding signal net_poll
signal_once_example =
    signal_once counter wakeup wakeup_laws (pos 5) (negsuc 0) (pos 10) 4 2 tt calm few
  where
    calm : is_negative woken.0.code ≡ false
    calm = refl

    few : woken.1 < 4
    few = omega arith

-- Windows with the open sockets as its state, newest first, where nothing can be connected.
abbrev sockets : WinSock (List ℤ)
sockets = record {
  socket = λ s. (pos (length s), pos (length s) ∷ s);
  bind = λ fd a s. (pos 0, s);
  getsockname = λ fd s. (pos 0, port 4000, s);
  connect = λ fd a s. (negsuc 0, s);
  set_mode = λ fd m s. (pos 0, s);
  closesocket = without;
  af_inet = 2;
  loopback = 16777343;
}

abbrev sockets_laws : Counts sockets
sockets_laws = record {
  opened = λ s. s;
  socket_adds = λ s. refl;
  bind_keeps = λ fd a s. refl;
  name_keeps = λ fd s. refl;
  connect_keeps = λ fd a s. refl;
  mode_keeps = λ fd m s. refl;
  close_removes = λ fd s. refl;
}

abbrev gone : Channel
gone = record { send_sock = invalid; recv_sock = invalid }

-- Two sockets are opened and closed again.
fails : Windows.create sockets gone (pos 9 ∷ []) ≡ (negsuc 0, gone, pos 9 ∷ [])
unfolding Windows.create without
fails = refl

channel_lem_example :
    let r = Windows.create sockets gone (pos 9 ∷ []) in
    let c = Windows.close sockets r.1 r.2 in
    ((r.0 ≡ negsuc 0) × (r.1 ≡ gone) × (r.2 ≡ pos 9 ∷ []))
    ⊎ ((r.0 ≡ pos 0)
        × (r.2 ≡ r.1.send_sock ∷ r.1.recv_sock ∷ pos 9 ∷ [])
        × (c.1 ≡ pos 9 ∷ [])
        × (c.0 ≡ gone))
channel_lem_example = channel_lem sockets sockets_laws gone (pos 9 ∷ [])

-- Two ports of one host.
addr_equal_lem_example : (addr_equal 2 10 (port 1) (port 2) ≡ true) ↔ (
    (((port 1).ss_family ≡ 2)
      × ((port 2).ss_family ≡ 2)
      × ((port 1).sin_port ≡ (port 2).sin_port)
      × ((port 1).sin_addr ≡ (port 2).sin_addr))
    ⊎ (((port 1).ss_family ≡ 10)
        × ((port 2).ss_family ≡ 10)
        × ((port 1).sin6_port ≡ (port 2).sin6_port)
        × ((port 1).sin6_addr ≡ (port 2).sin6_addr)))
addr_equal_lem_example = addr_equal_lem 2 10 (port 1) (port 2) (λ e. ground (arith, e))
