-- ===== src/Net/Windows.antt =====
-- The wake-up channel on Windows, two sockets of the loop-back address: the functions
-- `rel4u_wakeup_pipe_create` and `rel4u_wakeup_pipe_close` of src/platform/rel4u_net.c.
use rel4u.Prelude.{ℕ, Bool, true, not, [], if◌then◌else◌}
use rel4u.Prelude.Int.{ℤ, pos, negsuc, is_zero}
use rel4u.Net.{Addr}
use rel4u.Net.System.{invalid, is_open}

-- The socket calls of the system, on a state that the code does not see.
pub record WinSock (S : Type 0) : Type 0 where
  -- a new datagram socket, or `INVALID_SOCKET`
  pub socket : S → ℤ × S
  pub bind : ℤ → Addr → S → ℤ × S
  -- its result and the address of the socket
  pub getsockname : ℤ → S → ℤ × Addr × S
  pub connect : ℤ → Addr → S → ℤ × S
  -- `ioctlsocket` with `FIONBIO`
  pub set_mode : ℤ → ℕ → S → ℤ × S
  pub closesocket : ℤ → S → S
  pub af_inet : ℕ
  -- `htonl(INADDR_LOOPBACK)`
  pub loopback : ℕ

-- `rel4u_wakeup_pipe_t`.
pub record Channel : Type 0 where
  pub send_sock : ℤ
  pub recv_sock : ℤ

module _ {S : Type 0} (ws : WinSock S) where
  -- `rel4u_net_socket_set_nonblocking`.
  abbrev pub set_nonblocking : ℤ → Bool → S → ℤ × S
  set_nonblocking sock nonblocking s = ws.set_mode sock (if nonblocking then 1 else 0) s

  -- `rel4u_net_socket_close`, whose test is that of the other close calls too.
  abbrev pub socket_close : ℤ → S → S
  socket_close sock s = if is_open sock then ws.closesocket sock s else s

  abbrev pub local_address : Addr
  local_address = record {
    ss_family = ws.af_inet;
    sin_port = 0;
    sin_addr = ws.loopback;
    sin6_port = 0;
    sin6_addr = [];
  }

  -- From the listener's address on: the sender.
  unfoldable pub add_sender : ℤ → Addr → Channel → S → ℤ × Channel × S
  add_sender listener addr p s =
      let r = ws.socket s in
      let sender = r.0 in
      let c = ws.connect sender addr r.1 in
      if not (is_open sender)
      then (negsuc 0, p, ws.closesocket listener r.1)
      else if not (is_zero c.0)
      then (negsuc 0, p, ws.closesocket listener (ws.closesocket sender c.1))
      else (
        pos 0,
        record { send_sock = sender; recv_sock = listener },
        (set_nonblocking sender true (set_nonblocking listener true c.1).1).1,
      )

  -- The listener, its address, and the sender.
  unfoldable pub create : Channel → S → ℤ × Channel × S
  unfolding add_sender
  create p s =
      let l = ws.socket s in
      let listener = l.0 in
      let b = ws.bind listener local_address l.1 in
      let g = ws.getsockname listener b.1 in
      if not (is_open listener)
      then (negsuc 0, p, l.1)
      else if not (is_zero b.0)
      then (negsuc 0, p, ws.closesocket listener b.1)
      else if not (is_zero g.0)
      then (negsuc 0, p, ws.closesocket listener g.2)
      else add_sender listener g.1 p g.2

  unfoldable pub close : Channel → S → Channel × S
  close p s = (
    record {
      send_sock = if is_open p.send_sock then invalid else p.send_sock;
      recv_sock = if is_open p.recv_sock then invalid else p.recv_sock;
    },
    socket_close p.recv_sock (socket_close p.send_sock s),
  )
