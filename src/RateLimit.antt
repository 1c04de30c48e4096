-- ===== src/RateLimit.antt =====
-- The fixed-window rate limiter (crates/server/src/ratelimit.rs). Time is in nanoseconds, and the
-- time of a call is its argument. The map stands behind a mutex, so that calls do not interleave.
pub mod Windows
pub mod Retry
pub mod ClientIp
use toot_tok.Common.{
  ℕ, ◌+◌, ◌-◌, ◌*◌, ◌/◌, Bool, true, false, leb, if◌then◌else◌, Option, none, some, List, [], ◌∷◌,
  any, max,
}
use toot_tok.Common.Eq.{◌==◌}
use toot_tok.Common.Map.{lookup, insert}
use toot_tok.Common.Text.{Text, trim, first_part, to_str}
use toot_tok.Net.{IpAddr, ip_eq, localhost}

pub record Window : Type 0 where
  pub start : ℕ
  pub count : ℕ  -- u32

pub record RateLimiter : Type 0 where
  pub buckets : List (IpAddr × Window)
  pub limit : ℕ  -- u32
  pub window : ℕ
  pub trusted_proxies : List IpAddr

abbrev pub second : ℕ
second = 1_000_000_000

unfoldable pub new : ℕ → RateLimiter
new limit_per_min = record {
  buckets = [];
  limit = limit_per_min;
  window = 60 * second;
  trusted_proxies = [];
}

-- The route classes.
abbrev pub auth : RateLimiter
unfolding new
auth = new 10

abbrev pub upload : RateLimiter
unfolding new
upload = new 6

abbrev pub accounts : RateLimiter
unfolding new
accounts = new 60

abbrev pub admin : RateLimiter
unfolding new
admin = new 30

abbrev pub general : RateLimiter
unfolding new
general = new 120

unfoldable pub with_trusted_proxies : RateLimiter → List IpAddr → RateLimiter
with_trusted_proxies l proxies = record l { trusted_proxies = proxies }

-- `Ok(())`, or `Err(retry_after_secs)`.
pub data Answer : Type 0 where
  admitted : Answer
  retry_after : ℕ → Answer

abbrev pub fresh : ℕ → Window
fresh now = record { start = now; count = 0 }

-- The entry of the map, inserted if it is missing and reset if its window is over.
abbrev or_fresh : Option Window → ℕ → Window
or_fresh none now = fresh now
or_fresh (some w) now = w

unfoldable pub current : ℕ → Option Window → ℕ → Window
current window entry now =
    let w = or_fresh entry now in if leb window (now - w.start) then fresh now else w

-- What a hit makes of the entry. `duration_since` and `saturating_sub` stop at 0, as `-` does.
unfoldable pub count_hit : ℕ → ℕ → Window → ℕ → Window × Answer
count_hit limit window w now =
    if leb limit w.count
    then (w, retry_after (max ((window - (now - w.start)) / second) 1))
    else (record w { count = w.count + 1 }, admitted)

unfoldable pub check : RateLimiter → IpAddr → ℕ → RateLimiter × Answer
check l ip now =
    let w = current l.window (lookup ip l.buckets) now in
    let (w', answer) = count_hit l.limit l.window w now in
    (record l { buckets = insert ip w' l.buckets }, answer)

-- What the limiter reads of a request: the peer of the socket, when there is one, and the value of
-- the `X-Forwarded-For` header.
pub record Request : Type 0 where
  pub peer : Option IpAddr
  pub forwarded_for : Option Text

abbrev and_then {ℓ κ} : {A : Type ℓ} {B : Type κ} → Option A → (A → Option B) → Option B
and_then none f = none
and_then (some a) f = f a

-- `parse_ip` is the address parser of `std::net`.
unfoldable pub forwarded_first_hop : (Text → Option IpAddr) → Request → Option IpAddr
forwarded_first_hop parse_ip req =
    and_then (and_then req.forwarded_for to_str) (λ s. parse_ip (trim (first_part b',' s)))

abbrev or_ip : Option IpAddr → IpAddr → IpAddr
or_ip none ip = ip
or_ip (some ip) _ = ip

-- The client of a request with the given peer.
abbrev client_of_peer : (Text → Option IpAddr) → Request → List IpAddr → Option IpAddr → IpAddr
client_of_peer parse_ip req trusted none = or_ip (forwarded_first_hop parse_ip req) localhost
client_of_peer parse_ip req trusted (some peer) =
    if any (λ p. p == peer) trusted then or_ip (forwarded_first_hop parse_ip req) peer else peer

unfoldable pub client_ip : (Text → Option IpAddr) → Request → List IpAddr → IpAddr
client_ip parse_ip req trusted = client_of_peer parse_ip req trusted req.peer

-- The middleware: a request goes on, or is answered 429 with a `Retry-After`.
unfoldable pub apply : (Text → Option IpAddr) → RateLimiter → Request → ℕ → RateLimiter × Answer
apply parse_ip l req now = check l (client_ip parse_ip req l.trusted_proxies) now
