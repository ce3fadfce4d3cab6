-- ===== src/Net/System.antt =====
-- The system calls that the POSIX part of src/platform/rel4u_net.c makes, on a state of the system that
-- the code does not see.
use rel4u.Prelude.{ℕ, Bool, true, false, not, List, Option, ◌==◌, bit_and}
use rel4u.Prelude.Int.{ℤ, pos, negsuc}

-- An entry of the array that `poll` takes: the descriptor and the events asked for.
pub record PollFd : Type 0 where
  pub fd : ℤ
  pub events : ℕ

pub record System (S : Type 0) : Type 0 where
  -- the two descriptors, the end that is read first, or nothing where the call fails
  pub pipe : S → Option (ℤ × ℤ) × S
  -- `F_GETFL` and `F_SETFL` of `fcntl`
  pub get_flags : ℤ → S → ℤ × S
  pub set_flags : ℤ → ℕ → S → ℤ × S
  pub write : ℤ → List ℕ → S → ℤ × S
  -- `read` with the number of bytes that the buffer holds
  pub read : ℤ → ℕ → S → ℤ × S
  pub close : ℤ → S → S
  -- `poll`: its result, and the `revents` of each entry
  pub poll : List PollFd → ℤ → S → ℤ × List ℕ × S
  pub o_nonblock : ℕ
  pub pollin : ℕ

-- `-1`, which stands for no descriptor.
abbrev pub invalid : ℤ
invalid = negsuc 0

-- `fd != -1`.
abbrev pub is_open : ℤ → Bool
is_open (pos n) = true
is_open (negsuc n) = not (n == 0)

-- `ret > 0`.
abbrev pub is_positive : ℤ → Bool
is_positive (pos n) = not (n == 0)
is_positive (negsuc n) = false

-- `revents & POLLIN`.
abbrev pub is_readable : {S : Type 0} → System S → ℕ → Bool
is_readable sys revents = not (bit_and revents sys.pollin == 0)
