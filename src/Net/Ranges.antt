-- ===== src/Net/Ranges.antt =====
-- Address blocks in CIDR notation, over an IPv4 address as one 32-bit number. This is the
-- description that network documents give, independent of the tests on octets.
use toot_tok.Common.{ℕ, ◌+◌, ◌*◌, ◌/◌, ◌-◌, ◌^◌, Bool, List, any, ◌==◌}

pub record Cidr : Type 0 where
  pub base : ℕ
  pub prefix : ℕ

-- The number that four octets write.
abbrev pub number : ℕ → ℕ → ℕ → ℕ → ℕ
number a b c d = a * 2 ^ 24 + b * 2 ^ 16 + c * 2 ^ 8 + d

abbrev pub cidr : ℕ → ℕ → ℕ → ℕ → ℕ → Cidr
cidr a b c d prefix = record { base = number a b c d; prefix = prefix }

-- The first `prefix` bits are those of the base.
abbrev pub contains : Cidr → ℕ → Bool
contains r n = n / 2 ^ (32 - r.prefix) == r.base / 2 ^ (32 - r.prefix)

abbrev pub any_contains : List Cidr → ℕ → Bool
any_contains rs n = any (λ r. contains r n) rs
