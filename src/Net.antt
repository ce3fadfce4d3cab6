-- ===== src/Net.antt =====
-- src/platform/rel4u_net.c: the addresses and their comparison; the children have the system calls.
pub mod System
pub mod Wakeup
pub mod Awake
pub mod Windows
pub mod Resources
pub mod Same
mod Tests
use rel4u.Prelude.{ℕ, Bool, true, false, ◌&&◌, List, [], ◌∷◌, ◌==◌, if◌then◌else◌}

-- `rel4u_net_addr_t`: the fields of `struct sockaddr_storage` that are read through `sockaddr_in` and
-- `sockaddr_in6`.
pub record Addr : Type 0 where
  pub ss_family : ℕ
  pub sin_port : ℕ
  pub sin_addr : ℕ
  pub sin6_port : ℕ
  pub sin6_addr : List ℕ

-- `memcmp(a, b, n) == 0` for two arrays of the same size.
abbrev pub same_bytes : List ℕ → List ℕ → Bool
same_bytes [] [] = true
same_bytes (x ∷ xs) (y ∷ ys) = x == y && same_bytes xs ys
same_bytes [] (y ∷ ys) = false
same_bytes (x ∷ xs) [] = false

-- `af_inet` and `af_inet6` are the system's numbers for the two families.
module _ (af_inet af_inet6 : ℕ) where
  -- `rel4u_net_addr_equal`.
  unfoldable pub addr_equal : Addr → Addr → Bool
  addr_equal a b =
      if a.ss_family == b.ss_family
      then (if a.ss_family == af_inet
          then a.sin_port == b.sin_port && a.sin_addr == b.sin_addr
          else if a.ss_family == af_inet6
          then a.sin6_port == b.sin6_port && same_bytes a.sin6_addr b.sin6_addr
          else false)
      else false
