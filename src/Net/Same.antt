-- ===== src/Net/Same.antt =====
-- `rel4u_net_addr_equal` against the addresses that it compares.
use native.Mathlib.Decide.{ℕ_discrete}
use rel4u.Prelude.{
  ℕ, ◌∙◌, ◌≡◌, ◌≢◌, ◌⊎◌, ◌↔◌, refl, sym, ap, ap₂, true, List, [], ◌∷◌, inl, inr, arith,
}
use rel4u.Net.{Addr, same_bytes, addr_equal}

pub same_bytes_refl : (xs : List ℕ) → same_bytes xs xs ≡ true
same_bytes_refl [] = refl
same_bytes_refl (x ∷ xs) = ground (arith, same_bytes_refl xs)

same_bytes-eq : (xs ys : List ℕ) → same_bytes xs ys ≡ true → xs ≡ ys
same_bytes-eq [] [] e = refl
same_bytes-eq [] (y ∷ ys) e = absurd (ground (arith, e))
same_bytes-eq (x ∷ xs) [] e = absurd (ground (arith, e))
same_bytes-eq (x ∷ xs) (y ∷ ys) e =
    ap₂ (λ z zs. z ∷ zs) (ground (arith, e)) (same_bytes-eq xs ys (ground (arith, e)))

-- Two addresses are the same for the code exactly if both are of the IPv4 family with the same port and
-- the same address, or both of the IPv6 family with the same port and the same bytes of the address.
-- The system's numbers for the two families differ.
pub addr_equal_lem :
    (inet inet6 : ℕ) (a b : Addr)
    → inet ≢ inet6
    → (addr_equal inet inet6 a b ≡ true) ↔ (
        ((a.ss_family ≡ inet)
          × (b.ss_family ≡ inet)
          × (a.sin_port ≡ b.sin_port)
          × (a.sin_addr ≡ b.sin_addr))
        ⊎ ((a.ss_family ≡ inet6)
            × (b.ss_family ≡ inet6)
            × (a.sin6_port ≡ b.sin6_port)
            × (a.sin6_addr ≡ b.sin6_addr)))
unfolding addr_equal
addr_equal_lem inet inet6 a b n = (
  λ e. elim (ℕ_discrete a.ss_family inet) [
    | yes p ↦ inl (p, ground (arith, e, p), ground (arith, e, p, n), ground (arith, e, p, n))
    | no q ↦
        let bytes : same_bytes a.sin6_addr b.sin6_addr ≡ true = ground (arith, e, q) in
        inr (
          ground (arith, e, q),
          ground (arith, e, q),
          ground (arith, e, q),
          same_bytes-eq a.sin6_addr b.sin6_addr bytes,
        )
  ],
  λ h. elim h [
    | inl (f, g, p, x) ↦ ground (arith, f, g, p, x)
    | inr (f, g, p, x) ↦
        let bytes : same_bytes a.sin6_addr b.sin6_addr ≡ true =
          ap (λ ys. same_bytes a.sin6_addr ys) (sym x) ∙ same_bytes_refl a.sin6_addr in
        ground (arith, f, g, p, bytes, n)
  ],
)
