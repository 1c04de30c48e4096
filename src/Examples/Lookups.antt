-- ===== src/Examples/Lookups.antt =====
-- The DNS resolver (crates/federation/src/resolver.rs) on a host with a private and a public address.
use toot_tok.Common.{◌≡◌, ◌≢◌, refl, false, not, List, [], ◌∷◌, map, filter, All}
use toot_tok.Net.{
  ipv4, v4_is_unspecified, v4_is_loopback, v4_is_private, v4_is_link_local, v4_is_broadcast,
  v4_is_documentation, v4_is_multicast,
}
use toot_tok.Egress.{ip_is_blocked, v4_is_blocked, v4_is_special, is_cgnat}
use toot_tok.Egress.Guard.{SocketAddr}
use toot_tok.Egress.Resolver.{
  GuardedResolve, admitted, check, resolve_host, without_port, resolve_safe,
}

abbrev guard : GuardedResolve
guard = record { allow_loopback = false; allow_hosts = "localhost.test" ∷ [] }

abbrev private_addr : SocketAddr
private_addr = record { ip = ipv4 10 0 0 5; port = 0 }

abbrev public_addr : SocketAddr
public_addr = record { ip = ipv4 9 9 9 9; port = 0 }

abbrev candidates : List SocketAddr
candidates = private_addr ∷ public_addr ∷ []

resolve_safe_example :
    (public_addr ∷ [] ≡ map without_port (filter (λ a. not (ip_is_blocked a.ip false)) candidates))
    × All (λ a. ip_is_blocked a.ip false ≡ false) (public_addr ∷ [])
    × (public_addr ∷ [] ≢ [])
unfolding resolve_host admitted check ip_is_blocked v4_is_blocked v4_is_special is_cgnat
    v4_is_unspecified v4_is_loopback v4_is_private v4_is_link_local v4_is_broadcast
    v4_is_documentation v4_is_multicast
resolve_safe_example = resolve_safe guard "there.test" candidates (public_addr ∷ []) refl refl
