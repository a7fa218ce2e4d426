-- ===== src/SocketTypes/Laws.antt =====
-- The global options as a map with defaults, and the port of an endpoint.
use sm_ext_socket.Base.{ℕ, ◌<◌, ◌≡◌, refl, ap, none, some, List, arith, if◌then◌else◌}
use sm_ext_socket.Base.Int.{ℤ, eqb_ℤ}
use sm_ext_socket.SocketTypes.{
  SocketOption, no_endpoint, GlobalOptions, set_global, get_global, inet, inet6, other_family,
  ntohs, extract_endpoint,
}

-- An option read after a write is the value written, at the option that was written, and as before
-- at any other.
pub get_global-set_global :
    (g : GlobalOptions) (o p : SocketOption) (v : ℤ)
    → get_global (set_global g o v) p ≡ (if eqb_ℤ o p then v else get_global g p)
unfolding get_global set_global
get_global-set_global g o p v = ground arith

-- Network byte order is undone by itself on 16-bit numbers, which it keeps in range.
ntohs-ntohs : (p : ℕ) → p < 65536 → (ntohs (ntohs p) ≡ p) × (ntohs p < 65536)
unfolding ntohs
ntohs-ntohs p h = omega arith

module _ {Address : Type 0} (ip4_name ip6_name : Address → List ℕ) where
  -- The endpoint of an IPv4 or IPv6 address, whose 16-bit port lies in network byte order, has the
  -- printed address and that port. No address, or one of another family, gives the empty endpoint.
  pub extract_endpoint-ntohs :
      (a : Address) (port : ℕ)
      → port < 65536
      → (extract_endpoint ip4_name ip6_name (some (inet a (ntohs port)))
          ≡ record { address = ip4_name a; port = port })
        × (extract_endpoint ip4_name ip6_name (some (inet6 a (ntohs port)))
            ≡ record { address = ip6_name a; port = port })
        × (extract_endpoint ip4_name ip6_name none ≡ no_endpoint)
        × (extract_endpoint ip4_name ip6_name (some other_family) ≡ no_endpoint)
  unfolding extract_endpoint
  extract_endpoint-ntohs a port h =
      let back : ntohs (ntohs port) ≡ port = (ntohs-ntohs port h).0 in
      (
        ap (λ n. record { address = ip4_name a; port = n }) back,
        ap (λ n. record { address = ip6_name a; port = n }) back,
        refl,
        refl,
      )
