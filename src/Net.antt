-- ===== src/Net.antt =====
-- Internet addresses, and the tests of `std::net` that the program's guards call
-- (crates/federation/src/egress.rs): an IPv4 address is its four octets, each below 256, and an
-- IPv6 address its eight segments, each below 2^16.
pub mod Ranges
use toot_tok.Common.{
  ℕ, ◌+◌, ◌*◌, ◌/◌, ◌%◌, ◌^◌, ◌<◌, ◌≡◌, refl, ◌↔◌, Bool, true, false, ◌&&◌, ◌||◌, arith, leb, ◌==◌,
  if◌then◌else◌, Option, none, some,
}
use toot_tok.Common.Eq.{Eq}

pub record Ipv4Addr : Type 0 where
  pub a : ℕ
  pub b : ℕ
  pub c : ℕ
  pub d : ℕ

pub record Ipv6Addr : Type 0 where
  pub s0 : ℕ
  pub s1 : ℕ
  pub s2 : ℕ
  pub s3 : ℕ
  pub s4 : ℕ
  pub s5 : ℕ
  pub s6 : ℕ
  pub s7 : ℕ

pub data IpAddr : Type 0 where
  v4 : Ipv4Addr → IpAddr
  v6 : Ipv6Addr → IpAddr

abbrev pub ipv4 : ℕ → ℕ → ℕ → ℕ → IpAddr
ipv4 a b c d = v4 (record { a = a; b = b; c = c; d = d })

abbrev pub segments : ℕ → ℕ → ℕ → ℕ → ℕ → ℕ → ℕ → ℕ → Ipv6Addr
segments s0 s1 s2 s3 s4 s5 s6 s7 = record {
  s0 = s0;
  s1 = s1;
  s2 = s2;
  s3 = s3;
  s4 = s4;
  s5 = s5;
  s6 = s6;
  s7 = s7;
}

abbrev pub localhost : IpAddr
localhost = ipv4 127 0 0 1

-- x & !(2^k - 1): the bits of `x` from the `k`-th upwards.
abbrev pub high_bits : ℕ → ℕ → ℕ
high_bits x k = x / 2 ^ k * 2 ^ k

unfoldable pub v4_is_unspecified : Ipv4Addr → Bool
v4_is_unspecified i = i.a == 0 && (i.b == 0 && (i.c == 0 && i.d == 0))

unfoldable pub v4_is_loopback : Ipv4Addr → Bool
v4_is_loopback i = i.a == 127

unfoldable pub v4_is_private : Ipv4Addr → Bool
v4_is_private i =
    i.a == 10 || (i.a == 172 && (leb 16 i.b && leb i.b 31) || i.a == 192 && i.b == 168)

unfoldable pub v4_is_link_local : Ipv4Addr → Bool
v4_is_link_local i = i.a == 169 && i.b == 254

unfoldable pub v4_is_broadcast : Ipv4Addr → Bool
v4_is_broadcast i = i.a == 255 && (i.b == 255 && (i.c == 255 && i.d == 255))

unfoldable pub v4_is_documentation : Ipv4Addr → Bool
v4_is_documentation i =
    i.a == 192 && (i.b == 0 && i.c == 2)
    || (i.a == 198 && (i.b == 51 && i.c == 100) || i.a == 203 && (i.b == 0 && i.c == 113))

unfoldable pub v4_is_multicast : Ipv4Addr → Bool
v4_is_multicast i = leb 224 i.a && leb i.a 239

-- The first seven segments are zero.
abbrev is_low : Ipv6Addr → Bool
is_low i =
    i.s0 == 0
    && (i.s1 == 0 && (i.s2 == 0 && (i.s3 == 0 && (i.s4 == 0 && (i.s5 == 0 && i.s6 == 0)))))

unfoldable pub v6_is_unspecified : Ipv6Addr → Bool
v6_is_unspecified i = is_low i && i.s7 == 0

unfoldable pub v6_is_loopback : Ipv6Addr → Bool
v6_is_loopback i = is_low i && i.s7 == 1

unfoldable pub v6_is_unique_local : Ipv6Addr → Bool
v6_is_unique_local i = high_bits i.s0 9 == 0xfc00

unfoldable pub v6_is_unicast_link_local : Ipv6Addr → Bool
v6_is_unicast_link_local i = high_bits i.s0 6 == 0xfe80

unfoldable pub v6_is_multicast : Ipv6Addr → Bool
v6_is_multicast i = high_bits i.s0 8 == 0xff00

-- `::ffff:a.b.c.d`.
unfoldable pub to_ipv4_mapped : Ipv6Addr → Option Ipv4Addr
to_ipv4_mapped i =
    if i.s0 == 0 && (i.s1 == 0 && (i.s2 == 0 && (i.s3 == 0 && (i.s4 == 0 && i.s5 == 0xffff))))
    then some (record { a = i.s6 / 256; b = i.s6 % 256; c = i.s7 / 256; d = i.s7 % 256 })
    else none

abbrev pub v4_beq : Ipv4Addr → Ipv4Addr → Bool
v4_beq i j = i.a == j.a && (i.b == j.b && (i.c == j.c && i.d == j.d))

abbrev pub v6_beq : Ipv6Addr → Ipv6Addr → Bool
v6_beq i j =
    i.s0 == j.s0
    && (i.s1 == j.s1
        && (i.s2 == j.s2
            && (i.s3 == j.s3
                && (i.s4 == j.s4 && (i.s5 == j.s5 && (i.s6 == j.s6 && i.s7 == j.s7))))))

abbrev pub ip_beq : IpAddr → IpAddr → Bool
ip_beq (v4 i) (v4 j) = v4_beq i j
ip_beq (v6 i) (v6 j) = v6_beq i j
ip_beq _ _ = false

v4_beq_iff : (i j : Ipv4Addr) → (v4_beq i j ≡ true) ↔ (i ≡ j)
v4_beq_iff i j = ground arith

v6_beq_iff : (i j : Ipv6Addr) → (v6_beq i j ≡ true) ↔ (i ≡ j)
v6_beq_iff i j = ground arith

pub ip_beq_iff : (i j : IpAddr) → (ip_beq i j ≡ true) ↔ (i ≡ j)
ip_beq_iff (v4 i) (v4 j) = ground (arith, v4_beq_iff i j)
ip_beq_iff (v6 i) (v6 j) = ground (arith, v6_beq_iff i j)
ip_beq_iff _ _ = ground arith

instance abbrev pub ip_eq : Eq IpAddr
ip_eq = record { beq = ip_beq; decides = ip_beq_iff }

-- The value ranges of the fields' types, `u8` and `u16`.
pub record IsOctets (i : Ipv4Addr) : Type 0 where
  pub a_lt : i.a < 256
  pub b_lt : i.b < 256
  pub c_lt : i.c < 256
  pub d_lt : i.d < 256
