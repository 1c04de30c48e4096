-- ===== src/Egress/Guard.antt =====
-- `EgressGuard` (crates/federation/src/egress.rs): resolve a host once, validate the addresses,
-- pin one, and build a client that can only connect to it. A `Url` is what the `url` crate reports
-- of a parsed URL, and a DNS answer is an argument of each call, so that it may differ from call
-- to call. The two mutexes are never poisoned, since nothing panics under them.
pub mod Choice
pub mod Pinning
pub mod Safety
pub mod Runs
pub mod Ingest
use toot_tok.Common.{
  ℕ, suc, ◌+◌, Bool, true, false, ◌&&◌, not, leb, if◌then◌else◌, Option, none, some, List, [], ◌∷◌,
  String, find,
}
use toot_tok.Common.Eq.{◌==◌, string_eq, nat_eq, pair_eq}
use toot_tok.Common.Map.{lookup, insert}
use toot_tok.Net.{IpAddr}
use toot_tok.Egress.{ip_is_blocked, is_global}

-- `url::Host`.
pub data Host : Type 0 where
  domain : String → Host
  literal : IpAddr → Host

pub record Url : Type 0 where
  pub text : String
  pub scheme : String
  pub host_str : Option String
  pub host : Option Host
  pub port : Option ℕ

pub record SocketAddr : Type 0 where
  pub ip : IpAddr
  pub port : ℕ

-- The settings of the `reqwest` builder: the host whose resolution is overridden, the address it
-- is overridden with, and the redirect policy.
pub record Client : Type 0 where
  pub resolve_host : String
  pub resolve_addr : SocketAddr
  pub follows_redirects : Bool
  pub timeout_s : ℕ

pub data EgressError : Type 0 where
  no_host : String → EgressError
  resolution_failed : String → EgressError
  blocked_address : IpAddr → String → EgressError
  scheme_not_allowed : String → EgressError
  client_build : EgressError
  lookup_failed : EgressError

pub data Result (A : Type 0) : Type 0 where
  ok : A → Result A
  err : EgressError → Result A

abbrev pub Key : Type 0
Key = String × ℕ

pub record EgressGuard : Type 0 where
  pub allow_loopback : Bool
  pub allow_http : Bool
  pub pinned : List (Key × SocketAddr)
  pub clients : List (Key × Client)

-- What `lookup_host` answers: an error, or a list of addresses.
abbrev pub Dns : Type 0
Dns = String → ℕ → Option (List IpAddr)

unfoldable pub new : Bool → EgressGuard
new allow_loopback = record {
  allow_loopback = allow_loopback;
  allow_http = allow_loopback;
  pinned = [];
  clients = [];
}

unfoldable pub scheme_allowed : Bool → String → Bool
scheme_allowed allow_http scheme =
    if scheme == "https" then true else scheme == "http" && allow_http

abbrev or_port : Option ℕ → ℕ → ℕ
or_port (some p) d = p
or_port none d = d

unfoldable pub port_of : Url → ℕ
port_of url = or_port url.port (if url.scheme == "https" then 443 else 80)

is_ipv4 : IpAddr → Bool
is_ipv4 (IpAddr.v4 i) = true
is_ipv4 (IpAddr.v6 i) = false

-- The sort key `(!is_global, !is_ipv4)`, in its lexicographic order.
unfoldable pub rank : IpAddr → ℕ
unfolding is_ipv4
rank ip = (if is_global ip then 0 else 2) + (if is_ipv4 ip then 0 else 1)

unfoldable pub insert_ranked : IpAddr → List IpAddr → List IpAddr
insert_ranked x [] = x ∷ []
insert_ranked x (y ∷ ys) = if leb (rank x) (rank y) then x ∷ y ∷ ys else y ∷ insert_ranked x ys

-- `sort_by_key` is stable, and so is insertion from the right.
unfoldable pub sort_by_rank : List IpAddr → List IpAddr
sort_by_rank [] = []
sort_by_rank (x ∷ xs) = insert_ranked x (sort_by_rank xs)

-- The loop over the sorted addresses: the first that the policy accepts.
unfoldable pub choose : Bool → List IpAddr → Option IpAddr
choose allow_loopback ips = find (λ ip. not (ip_is_blocked ip allow_loopback)) (sort_by_rank ips)

resolve : Url → String → ℕ → Dns → Option (List IpAddr)
resolve url host port dns = elim url.host [
  | some h ↦ elim h [ literal ip ↦ some (ip ∷ []) | domain d ↦ dns host port ]
  | none ↦ dns host port
]

-- `resolved[0]`, of a list that is never empty here.
abbrev head_or : IpAddr → List IpAddr → IpAddr
head_or d [] = d
head_or d (x ∷ xs) = x

-- What happens to the addresses of a host that is not pinned yet.
abbrev pin_resolved :
    EgressGuard → String → ℕ → Option (List IpAddr) → EgressGuard × Result SocketAddr
pin_resolved g host port none = (g, err lookup_failed)
pin_resolved g host port (some []) = (g, err (resolution_failed host))
pin_resolved g host port (some (ip ∷ ips)) = elim (choose g.allow_loopback (ip ∷ ips)) [
  | some chosen ↦
      let addr : SocketAddr = record { ip = chosen; port = port } in
      (record g { pinned = insert (host, port) addr g.pinned }, ok addr)
  | none ↦ (g, err (blocked_address (head_or ip (sort_by_rank (ip ∷ ips))) host))
]

pin_host : EgressGuard → Url → Dns → Option String → EgressGuard × Result SocketAddr
unfolding resolve
pin_host g url dns none = (g, err (no_host url.text))
pin_host g url dns (some host) = elim (lookup (host, port_of url) g.pinned) [
  | some addr ↦ (g, ok addr)
  | none ↦ pin_resolved g host (port_of url) (resolve url host (port_of url) dns)
]

unfoldable pub validate_and_pin : EgressGuard → Url → Dns → EgressGuard × Result SocketAddr
unfolding pin_host
validate_and_pin g url dns =
    if scheme_allowed g.allow_http url.scheme
    then pin_host g url dns url.host_str
    else (g, err (scheme_not_allowed url.scheme))

-- `client_for` behind a validated address. `builds` says whether `reqwest` builds the client.
client_at : EgressGuard → Url → Bool → SocketAddr → Option String → EgressGuard × Result Client
client_at g url builds addr none = (g, err (no_host url.text))
client_at g url builds addr (some host) = elim (lookup (host, port_of url) g.clients) [
  | some client ↦ (g, ok client)
  | none ↦
      let client : Client = record {
        resolve_host = host;
        resolve_addr = addr;
        follows_redirects = false;
        timeout_s = 10;
      } in
      if builds
      then (record g { clients = insert (host, port_of url) client g.clients }, ok client)
      else (g, err client_build)
]

abbrev client_after : EgressGuard × Result SocketAddr → Url → Bool → EgressGuard × Result Client
unfolding client_at
client_after (g, ok addr) url builds = client_at g url builds addr url.host_str
client_after (g, err e) url builds = (g, err e)

unfoldable pub client_for : EgressGuard → Url → Dns → Bool → EgressGuard × Result Client
unfolding client_after
client_for g url dns builds = client_after (validate_and_pin g url dns) url builds
