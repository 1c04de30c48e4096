-- ===== src/Egress.antt =====
-- The address policy of the egress guard (crates/federation/src/egress.rs): which addresses the
-- server may connect to.
pub mod Policy
pub mod Resolver
pub mod Guard
use toot_tok.Common.{
  ℕ, ◌/◌, Bool, true, false, ◌&&◌, ◌||◌, not, leb, if◌then◌else◌, none, some, ◌==◌,
}
use toot_tok.Net.{
  Ipv4Addr, Ipv6Addr, IpAddr, high_bits, v4_is_unspecified, v4_is_loopback, v4_is_private,
  v4_is_link_local, v4_is_broadcast, v4_is_documentation, v4_is_multicast, v6_is_unspecified,
  v6_is_loopback, v6_is_unique_local, v6_is_unicast_link_local, v6_is_multicast, to_ipv4_mapped,
}

-- 100.64.0.0/10, by the mask 0b1100_0000 of the second octet.
unfoldable pub is_cgnat : Ipv4Addr → Bool
is_cgnat i = i.a == 100 && high_bits i.b 6 == 64

-- The disjunction that ends `v4_is_blocked`.
unfoldable pub v4_is_special : Ipv4Addr → Bool
v4_is_special i =
    v4_is_unspecified i
    || (v4_is_loopback i
        || (v4_is_private i
            || (v4_is_link_local i
                || (v4_is_broadcast i
                    || (v4_is_documentation i
                        || (v4_is_multicast i
                            || (i.a == 192 && (i.b == 0 && i.c == 0)
                                || (i.a == 198 && (i.b == 18 || i.b == 19) || leb 240 i.a))))))))

unfoldable pub v4_is_blocked : Ipv4Addr → Bool → Bool
v4_is_blocked i allow_loopback =
    if allow_loopback && v4_is_loopback i
    then false
    else if is_cgnat i
    then true
    else v4_is_special i

-- The documentation ranges 2001:db8::/32 and 3fff::/20.
unfoldable pub v6_is_documentation : Ipv6Addr → Bool
v6_is_documentation i = i.s0 == 0x2001 && i.s1 == 0xdb8 || i.s0 == 0x3fff && leb i.s1 0x0fff

unfoldable pub v6_is_blocked : Ipv6Addr → Bool → Bool
v6_is_blocked i allow_loopback =
    if allow_loopback && v6_is_loopback i then false else elim (to_ipv4_mapped i) [
      | some mapped ↦ v4_is_blocked mapped allow_loopback
      | none ↦
          v6_is_unspecified i
          || (v6_is_loopback i
              || (v6_is_unique_local i
                  || (v6_is_unicast_link_local i || (v6_is_multicast i || v6_is_documentation i))))
    ]

unfoldable pub ip_is_blocked : IpAddr → Bool → Bool
ip_is_blocked (IpAddr.v4 i) allow_loopback = v4_is_blocked i allow_loopback
ip_is_blocked (IpAddr.v6 i) allow_loopback = v6_is_blocked i allow_loopback

unfoldable pub is_global : IpAddr → Bool
is_global (IpAddr.v4 i) = not (
    v4_is_unspecified i
    || (v4_is_loopback i
        || (v4_is_private i
            || (v4_is_link_local i
                || (v4_is_multicast i || (v4_is_broadcast i || (is_cgnat i || leb 224 i.a)))))))
is_global (IpAddr.v6 i) =
    high_bits i.s0 13 == 0x2000 && (not (v6_is_unicast_link_local i) && not (v6_is_unique_local i))
