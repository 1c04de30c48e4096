-- ===== src/Egress/Policy.antt =====
-- What the address policy says, in CIDR blocks, and what the loopback switch changes.
use toot_tok.Common.{
  ℕ, ◌≡◌, Bool, true, false, ◌&&◌, ◌||◌, not, leb, none, some, ◌==◌, List, [], ◌∷◌, arith,
  disjunctions, Option, Bool-cases, Option-cases, inl, inr,
}
use toot_tok.Net.{
  Ipv4Addr, Ipv6Addr, IpAddr, IsOctets, v4_is_unspecified, v4_is_loopback, v4_is_private,
  v4_is_link_local, v4_is_broadcast, v4_is_documentation, v4_is_multicast, v6_is_loopback,
  to_ipv4_mapped,
}
use toot_tok.Net.Ranges.{Cidr, cidr, contains, number, any_contains}
use toot_tok.Egress.{is_cgnat, v4_is_special, v4_is_blocked, v6_is_blocked, ip_is_blocked}

-- The blocks that are refused. The source's comment takes 192.0.0.9 and 192.0.0.10 out of the block
-- 192.0.0.0/24; its test does not, and this list has the whole block.
abbrev pub blocked_v4 : List Cidr
blocked_v4 =
    cidr 100 64 0 0 10
    ∷ cidr 0 0 0 0 32
    ∷ cidr 127 0 0 0 8
    ∷ cidr 10 0 0 0 8
    ∷ cidr 172 16 0 0 12
    ∷ cidr 192 168 0 0 16
    ∷ cidr 169 254 0 0 16
    ∷ cidr 255 255 255 255 32
    ∷ cidr 192 0 2 0 24
    ∷ cidr 198 51 100 0 24
    ∷ cidr 203 0 113 0 24
    ∷ cidr 224 0 0 0 4
    ∷ cidr 192 0 0 0 24
    ∷ cidr 198 18 0 0 15
    ∷ cidr 240 0 0 0 4
    ∷ []

abbrev pub address : Ipv4Addr → ℕ
address i = number i.a i.b i.c i.d

-- The globally reachable addresses 192.0.0.9 and 192.0.0.10, which a comment of the source excludes.
abbrev pub is_anycast : Ipv4Addr → Bool
is_anycast i = (i.a == 192 && (i.b == 0 && i.c == 0)) && (i.d == 9 || i.d == 10)

module _ (i : Ipv4Addr) (o : IsOctets i) where
  in_range : Cidr → Bool
  in_range r = contains r (address i)

  cgnat-range : is_cgnat i ≡ in_range (cidr 100 64 0 0 10)
  unfolding is_cgnat in_range
  cgnat-range = ground arith

  unspecified-range : v4_is_unspecified i ≡ in_range (cidr 0 0 0 0 32)
  unfolding v4_is_unspecified in_range
  unspecified-range = ground arith

  loopback-range : v4_is_loopback i ≡ in_range (cidr 127 0 0 0 8)
  unfolding v4_is_loopback in_range
  loopback-range = ground arith

  private-range : v4_is_private i ≡ (
      in_range (cidr 10 0 0 0 8)
      || (in_range (cidr 172 16 0 0 12) || in_range (cidr 192 168 0 0 16)))
  unfolding v4_is_private in_range
  private-range = ground arith

  link_local-range : v4_is_link_local i ≡ in_range (cidr 169 254 0 0 16)
  unfolding v4_is_link_local in_range
  link_local-range = ground arith

  broadcast-range : v4_is_broadcast i ≡ in_range (cidr 255 255 255 255 32)
  unfolding v4_is_broadcast in_range
  broadcast-range = ground arith

  documentation-range : v4_is_documentation i ≡ (
      in_range (cidr 192 0 2 0 24)
      || (in_range (cidr 198 51 100 0 24) || in_range (cidr 203 0 113 0 24)))
  unfolding v4_is_documentation in_range
  documentation-range = ground arith

  multicast-range : v4_is_multicast i ≡ in_range (cidr 224 0 0 0 4)
  unfolding v4_is_multicast in_range
  multicast-range = ground arith

  protocol-range : (i.a == 192 && (i.b == 0 && i.c == 0)) ≡ in_range (cidr 192 0 0 0 24)
  unfolding in_range
  protocol-range = ground arith

  benchmark-range : (i.a == 198 && (i.b == 18 || i.b == 19)) ≡ in_range (cidr 198 18 0 0 15)
  unfolding in_range
  benchmark-range = ground arith

  reserved-range : leb 240 i.a ≡ in_range (cidr 240 0 0 0 4)
  unfolding in_range
  reserved-range = ground arith

  blocked-ranges : v4_is_blocked i false ≡ any_contains blocked_v4 (address i)
  unfolding v4_is_blocked v4_is_special in_range
  blocked-ranges = simp (
    cgnat-range, unspecified-range, loopback-range, private-range, link_local-range,
    broadcast-range, documentation-range, multicast-range, protocol-range, benchmark-range,
    reserved-range, disjunctions,
  )

  -- Without the loopback switch an IPv4 address, its octets below 256, is blocked exactly when its
  -- 32-bit number lies in one of the CIDR blocks of `blocked_v4`. The addresses 192.0.0.9 and
  -- 192.0.0.10 are blocked too, against the comment in the source.
  pub v4_is_blocked-ranges :
      (v4_is_blocked i false ≡ any_contains blocked_v4 (address i))
      × (is_anycast i ≡ true → v4_is_blocked i false ≡ true)
  unfolding v4_is_blocked v4_is_special
  v4_is_blocked-ranges = (blocked-ranges, λ h. ground (arith, h))

-- The loopback addresses that the development switch lets through: 127.0.0.0/8, `::1`, and an
-- IPv4-mapped 127.0.0.0/8.
abbrev is_loopback_mapped : Option Ipv4Addr → Bool
is_loopback_mapped none = false
is_loopback_mapped (some m) = v4_is_loopback m

abbrev pub is_loopback : IpAddr → Bool
is_loopback (IpAddr.v4 i) = v4_is_loopback i
is_loopback (IpAddr.v6 i) = v6_is_loopback i || is_loopback_mapped (to_ipv4_mapped i)

v4_is_blocked-switch :
    (i : Ipv4Addr) → v4_is_blocked i true ≡ (v4_is_blocked i false && not (v4_is_loopback i))
unfolding v4_is_blocked v4_is_special is_cgnat
v4_is_blocked-switch i = elim (Bool-cases (v4_is_loopback i)) [
  | inl l ↦ rw l (ground arith)
  | inr l ↦ rw l (ground arith)
]

-- The loopback switch unblocks the loopback addresses and changes nothing else.
pub ip_is_blocked-switch :
    (ip : IpAddr) → ip_is_blocked ip true ≡ (ip_is_blocked ip false && not (is_loopback ip))
unfolding ip_is_blocked v6_is_blocked
ip_is_blocked-switch (IpAddr.v4 i) = v4_is_blocked-switch i
ip_is_blocked-switch (IpAddr.v6 i) = elim (Option-cases (to_ipv4_mapped i)) [
  | inl e ↦ rw (e, is_loopback_mapped) (ground arith)
  | inr (m, e) ↦ rw (e, is_loopback_mapped) (ground (arith, v4_is_blocked-switch m))
]

-- An IPv6 address that maps an IPv4 address is blocked exactly when that one is.
pub mapped_agrees :
    (i : Ipv6Addr) (m : Ipv4Addr) (allow_loopback : Bool)
    → to_ipv4_mapped i ≡ some m
    → ip_is_blocked (IpAddr.v6 i) allow_loopback ≡ ip_is_blocked (IpAddr.v4 m) allow_loopback
unfolding ip_is_blocked v6_is_blocked v6_is_loopback to_ipv4_mapped
mapped_agrees i m al e = ground arith
