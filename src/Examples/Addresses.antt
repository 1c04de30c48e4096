-- ===== src/Examples/Addresses.antt =====
-- The egress guard (crates/federation/src/egress.rs) on the addresses and hosts of its own tests.
use toot_tok.Common.{
  ℕ, ◌≤◌, ◌≡◌, refl, Bool, true, false, Option, none, some, List, [], ◌∷◌, All, arith, String,
}
use toot_tok.Common.Map.{lookup, insert}
use toot_tok.Net.{
  Ipv4Addr, Ipv6Addr, IpAddr, ipv4, segments, to_ipv4_mapped, v4_is_unspecified, v4_is_loopback,
  v4_is_private, v4_is_link_local, v4_is_broadcast, v4_is_documentation, v4_is_multicast,
  v6_is_loopback, v6_is_unicast_link_local, v6_is_unique_local,
}
use toot_tok.Net.Ranges.{any_contains}
use toot_tok.Egress.{
  v4_is_blocked, v4_is_special, is_cgnat, ip_is_blocked, v6_is_blocked, is_global,
}
use toot_tok.Egress.Policy.{v4_is_blocked-ranges, blocked_v4, address, is_anycast}
use toot_tok.Egress.Guard.{
  Url, Host, Client, ok, Dns, new, choose, sort_by_rank, insert_ranked, rank, client_for,
  validate_and_pin, port_of, scheme_allowed,
}
use toot_tok.Egress.Guard.Choice.{choose_sound, member}
use toot_tok.Egress.Guard.Runs.{Request, serve, client_for_safe, rebinding_safe}

abbrev shared_space : Ipv4Addr
shared_space = record { a = 100; b = 127; c = 255; d = 254 }

abbrev anycast : Ipv4Addr
anycast = record { a = 192; b = 0; c = 0; d = 9 }

v4_is_blocked-ranges_example :
    (v4_is_blocked anycast false ≡ any_contains blocked_v4 (address anycast))
    × (is_anycast anycast ≡ true → v4_is_blocked anycast false ≡ true)
v4_is_blocked-ranges_example = v4_is_blocked-ranges anycast (omega arith)

shared_space_blocked : v4_is_blocked shared_space false ≡ true
unfolding v4_is_blocked is_cgnat v4_is_loopback
shared_space_blocked = refl

abbrev mapped_loopback : Ipv6Addr
mapped_loopback = segments 0 0 0 0 0 0xffff 0x7f00 1

abbrev answers : List IpAddr
answers = ipv4 10 0 0 7 ∷ IpAddr.v6 (segments 0x2606 0x4700 0 0 0 0 0 1) ∷ ipv4 8 8 8 8 ∷ []

chosen : choose false answers ≡ some (ipv4 8 8 8 8)
unfolding choose sort_by_rank insert_ranked rank is_global ip_is_blocked v4_is_blocked v4_is_special
    is_cgnat v4_is_unspecified v4_is_loopback v4_is_private v4_is_link_local v4_is_broadcast
    v4_is_documentation v4_is_multicast v6_is_blocked v6_is_loopback v6_is_unicast_link_local
    v6_is_unique_local to_ipv4_mapped
chosen = refl

choose_sound_example :
    (ip_is_blocked (ipv4 8 8 8 8) false ≡ false)
    × (member (ipv4 8 8 8 8) answers ≡ true)
    × All (λ j. ip_is_blocked j false ≡ false → rank (ipv4 8 8 8 8) ≤ rank j) answers
choose_sound_example = choose_sound false answers (ipv4 8 8 8 8) chosen

abbrev media_url : Url
media_url = record {
  text = "https://media.example/v.mp4";
  scheme = "https";
  host_str = some "media.example";
  host = some (Host.domain "media.example");
  port = none;
}

abbrev first_answer : Dns
first_answer host port = some (ipv4 8 8 8 8 ∷ [])

abbrev rebound_answer : Dns
rebound_answer host port = some (ipv4 169 254 169 254 ∷ [])

abbrev first_request : Request
first_request = record { url = media_url; dns = first_answer; builds = true }

abbrev rebound_request : Request
rebound_request = record { url = media_url; dns = rebound_answer; builds = true }

abbrev pinned_client : Client
pinned_client = record {
  resolve_host = "media.example";
  resolve_addr = record { ip = ipv4 8 8 8 8; port = 443 };
  follows_redirects = false;
  timeout_s = 10;
}

-- A definition that opens the guard for the runs below.
guard_runs : ℕ
unfolding client_for validate_and_pin scheme_allowed port_of new serve lookup insert choose
    sort_by_rank insert_ranked rank is_global ip_is_blocked v4_is_blocked v4_is_special is_cgnat
    v4_is_unspecified v4_is_loopback v4_is_private v4_is_link_local v4_is_broadcast
    v4_is_documentation v4_is_multicast
guard_runs = 0

first_connects :
    (client_for (serve (new false) []) media_url first_answer true).1 ≡ ok pinned_client
unfolding guard_runs
first_connects = refl

client_for_safe_example :
    (media_url.host_str ≡ some "media.example")
    × (ip_is_blocked (ipv4 8 8 8 8) false ≡ false)
    × (◌≡◌ {A = ℕ} 443 (port_of media_url))
    × (◌≡◌ {A = Bool} false false)
client_for_safe_example = client_for_safe false [] first_request pinned_client first_connects

second_connects :
    let g = (client_for (serve (new false) []) media_url first_answer true).0 in
    (client_for (serve g []) media_url rebound_answer true).1 ≡ ok pinned_client
unfolding guard_runs
second_connects = refl

rebinding_safe_example : pinned_client.resolve_addr ≡ pinned_client.resolve_addr
rebinding_safe_example =
    rebinding_safe false [] [] first_request rebound_request pinned_client pinned_client
      first_connects second_connects refl refl

abbrev reads_url : String → Option Url
reads_url raw = some media_url

abbrev no_literals : String → Option IpAddr
no_literals host = none
