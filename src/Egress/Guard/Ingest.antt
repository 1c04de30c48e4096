-- ===== src/Egress/Guard/Ingest.antt =====
-- `validate_media_ingest_url` (crates/federation/src/egress.rs): the check of a remote media URL
-- before it is stored. `parse_url` and `parse_ip` stand for the parsers of the `url` crate and of
-- `std::net`, and `dns` for the resolver.
use toot_tok.Common.{
  ◌≡◌, refl, Bool, true, false, ◌&&◌, not, if◌then◌else◌, Option, none, some, List, [], ◌∷◌, String,
  find, all, arith, Bool-cases, Option-cases, inl, inr, is_none,
}
use toot_tok.Common.Eq.{◌==◌, string_eq}
use toot_tok.Net.{IpAddr}
use toot_tok.Egress.{ip_is_blocked}
use toot_tok.Egress.Guard.{Url, Dns, port_of}

pub data Rejection : Type 0 where
  unparseable : Rejection
  scheme_not_allowed : String → Rejection
  no_host : Rejection
  literal_blocked : IpAddr → Rejection
  unresolved : String → Rejection
  resolves_to_blocked : String → IpAddr → Rejection

pub data Verdict : Type 0 where
  accepted : Verdict
  rejected : Rejection → Verdict

abbrev pub is_accepted : Verdict → Bool
is_accepted accepted = true
is_accepted (rejected r) = false

unfoldable pub media_scheme_ok : Bool → String → Bool
media_scheme_ok allow_loopback scheme =
    if scheme == "https" then true else scheme == "http" && allow_loopback

-- `host_str().filter(|h| !h.is_empty())`.
abbrev pub named_host : Option String → Option String
named_host none = none
named_host (some h) = if h == "" then none else some h

abbrev check_resolved : Bool → String → Option (List IpAddr) → Verdict
check_resolved al host none = rejected (unresolved host)
check_resolved al host (some []) = rejected (unresolved host)
check_resolved al host (some (ip ∷ ips)) = elim (find (λ j. ip_is_blocked j al) (ip ∷ ips)) [
  | some bad ↦ rejected (resolves_to_blocked host bad)
  | none ↦ accepted
]

module _ (parse_ip : String → Option IpAddr) (dns : Dns) where
  abbrev check_host : Bool → Url → Option String → Verdict
  check_host al url none = rejected no_host
  check_host al url (some host) = elim (parse_ip host) [
    | some ip ↦ if ip_is_blocked ip al then rejected (literal_blocked ip) else accepted
    | none ↦ check_resolved al host (dns host (port_of url))
  ]

  abbrev check_url : Bool → Option Url → Verdict
  check_url al none = rejected unparseable
  check_url al (some url) =
      if media_scheme_ok al url.scheme
      then check_host al url (named_host url.host_str)
      else rejected (scheme_not_allowed url.scheme)

  unfoldable pub validate_media_ingest_url : (String → Option Url) → String → Bool → Verdict
  validate_media_ingest_url parse_url raw al = check_url al (parse_url raw)

  -- The addresses that a host stands for: its literal, or what DNS answers.
  abbrev pub addresses : Url → String → List IpAddr
  addresses url host = elim (parse_ip host) [
    | some ip ↦ ip ∷ []
    | none ↦ elim (dns host (port_of url)) [ none ↦ [] | some ips ↦ ips ]
  ]

  abbrev pub allowed_addresses : Bool → List IpAddr → Bool
  allowed_addresses al [] = false
  allowed_addresses al (ip ∷ ips) = all (λ j. not (ip_is_blocked j al)) (ip ∷ ips)

  find-all :
      (al : Bool) (ips : List IpAddr)
      → is_none (find (λ j. ip_is_blocked j al) ips) ≡ all (λ j. not (ip_is_blocked j al)) ips
  find-all al [] = refl
  find-all al (ip ∷ ips) = ground (arith, find-all al ips)

  check_resolved-allowed :
      (al : Bool) (host : String) (o : Option (List IpAddr))
      → is_accepted (check_resolved al host o)
        ≡ allowed_addresses al (elim o [ none ↦ [] | some ips ↦ ips ])
  check_resolved-allowed al host none = refl
  check_resolved-allowed al host (some []) = refl
  check_resolved-allowed al host (some (ip ∷ ips)) = ground (arith, find-all al (ip ∷ ips))

  abbrev pub storable_at : Bool → Url → Option String → Bool
  storable_at al url none = false
  storable_at al url (some host) =
      media_scheme_ok al url.scheme && allowed_addresses al (addresses url host)

  -- What a media URL has to be.
  abbrev pub storable : Bool → Option Url → Bool
  storable al none = false
  storable al (some url) = storable_at al url (named_host url.host_str)

  check_host-storable :
      (al : Bool) (url : Url) (h : Option String)
      → media_scheme_ok al url.scheme ≡ true
      → is_accepted (check_host al url h) ≡ storable_at al url h
  check_host-storable al url none s = refl
  check_host-storable al url (some host) s = elim (Option-cases (parse_ip host)) [
    | inl e ↦ rw (s, e, check_host, addresses) (check_resolved-allowed al host _)
    | inr (ip, e) ↦ rw (s, e, check_host, addresses) (ground arith)
  ]

  check_url-storable : (al : Bool) (o : Option Url) → is_accepted (check_url al o) ≡ storable al o
  check_url-storable al none = refl
  check_url-storable al (some url) = elim (Bool-cases (media_scheme_ok al url.scheme)) [
    | inl s ↦ rw (s, check_url) (check_host-storable al url (named_host url.host_str) s)
    | inr s ↦
        rw (s, check_url)
          (elim (Option-cases (named_host url.host_str)) [
            | inl e ↦ rw (e, storable_at)
            | inr (host, e) ↦ rw (e, s, storable_at)
          ])
  ]

  -- A media URL is accepted exactly when it parses, its scheme is https (or http in the loopback
  -- mode), it names a host, and the host stands for some address and for no blocked one.
  pub ingest_exact :
      (parse_url : String → Option Url) (raw : String) (al : Bool)
      → is_accepted (validate_media_ingest_url parse_url raw al) ≡ storable al (parse_url raw)
  unfolding validate_media_ingest_url
  ingest_exact parse_url raw al = check_url-storable al (parse_url raw)
