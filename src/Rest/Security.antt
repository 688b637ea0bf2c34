-- ===== src/Rest/Security.antt =====
-- drivers/rest/security.py. A URL is split and rebuilt by `urllib.parse`; names are resolved and
-- addresses classified by `socket` and `ipaddress`.
pub mod Destination
pub mod Confined
use r64_db_engine.Base.{
  ℕ, String, ◌<>◌, Bool, true, false, not, ◌||◌, Option, none, some, List, [], ◌∷◌, is_empty,
  contains, if◌then◌else◌, ◌==◌, string_eq, nat_eq, ◌&&◌,
}
use r64_db_engine.Base.Results.{Result, ok, err, ◌>>=◌, ◌>>◌, guard}
use r64_db_engine.Config.Env.{sorted_set}
use r64_db_engine.Rest.{
  not_https, no_hostname, host_not_allowed, dns_error, no_addresses, unparseable_address,
  address_category, not_routable, next_malformed, next_not_https, next_userinfo, next_no_host,
  next_host, next_port, next_path, RestError, security, foreign,
}
use r64_db_engine.Rest.Texts.{lower, canonical, ends_with}

-- The port of an authority: absent, a number, or a text that `SplitResult.port` raises on.
pub data Port : Type 0 where
  default : Port
  number : ℕ → Port
  malformed : String → Port

-- `SplitResult`
pub record Url : Type 0 where
  pub scheme : String
  pub netloc : String
  pub username : Option String
  pub password : Option String
  pub hostname : Option String
  pub port : Port
  pub path : String
  pub query : String

-- `urlsplit` (`none`: ValueError) and `urlunsplit` of a scheme, netloc, path and query.
pub record Urls : Type 0 where
  pub split : String → Option Url
  pub unsplit : String → String → String → String → String

-- The properties of an `ipaddress` object that the fence reads.
pub record Address : Type 0 where
  pub is_loopback : Bool
  pub is_link_local : Bool
  pub is_unspecified : Bool
  pub is_multicast : Bool
  pub is_reserved : Bool
  pub is_private : Bool
  pub is_global : Bool

-- `getaddrinfo` (`none`: gaierror) and `ip_address` (`none`: ValueError).
pub record Network : Type 0 where
  pub getaddrinfo : String → Option (List String)
  pub ip_address : String → Option Address

-- `not s`, of an optional text
abbrev pub blank : Option String → Bool
blank none = true
blank (some s) = is_empty s

abbrev pub text_of : Option String → String
text_of none = ""
text_of (some s) = s

abbrev pub value_error : Option Url → Result RestError Url
value_error none = err (foreign "ValueError")
value_error (some u) = ok u

-- `SplitResult.port`
abbrev pub read_port : Port → Result RestError (Option ℕ)
read_port default = ok none
read_port (number n) = ok (some n)
read_port (malformed t) = err (foreign t)

abbrev pub same_port : Option ℕ → Option ℕ → Bool
unfolding nat_eq
same_port none none = true
same_port (some m) (some n) = m == n
same_port _ _ = false

module _ (urls : Urls) where
  abbrev pub urlsplit : String → Result RestError Url
  urlsplit url = value_error (urls.split url)

  unfoldable pub assert_https : String → Result RestError (Unit {0})
  assert_https url = do
    u ← urlsplit url
    guard (lower u.scheme == "https") (security (not_https (lower u.scheme)))

  unfoldable pub host_of : String → Result RestError String
  host_of url = do
    u ← urlsplit url
    guard (not (blank u.hostname)) (security no_hostname)
    ok (canonical (text_of u.hostname))

  unfoldable pub assert_host_allowed : String → String → Result RestError (Unit {0})
  assert_host_allowed url allowed_host = do
    host ← host_of url
    let allowed = canonical allowed_host
    guard (host == allowed || ends_with host ("." <> allowed)) (security (host_not_allowed allowed))

abbrev pub some_address : List String → Bool
some_address [] = false
some_address (_ ∷ _) = true

module _ (net : Network) where
  unfoldable pub resolve_addresses : String → Result RestError (List String)
  resolve_addresses host = elim (net.getaddrinfo host) [
    | none ↦ err (security dns_error)
    | some infos ↦ ok (sorted_set infos)
  ]

  -- The label of the first category that matches.
  unfoldable pub category : Address → Option String
  category ip =
      if ip.is_loopback
      then some "loopback"
      else if ip.is_link_local
      then some "link-local"
      else if ip.is_unspecified
      then some "unspecified"
      else if ip.is_multicast
      then some "multicast"
      else if ip.is_reserved
      then some "reserved"
      else if ip.is_private
      then some "private"
      else none

  abbrev pub classify : String → Option Address → Result RestError (Unit {0})
  classify address none = err (security (unparseable_address address))
  classify address (some ip) = elim (category ip) [
    | some label ↦ err (security (address_category address label))
    | none ↦ guard ip.is_global (security (not_routable address))
  ]

  unfoldable pub assert_public_address : String → Result RestError (Unit {0})
  assert_public_address address = classify address (net.ip_address address)

  unfoldable pub assert_public_addresses : List String → Result RestError (Unit {0})
  assert_public_addresses [] = ok tt
  assert_public_addresses (a ∷ as') =
      let rest = assert_public_addresses as' in assert_public_address a >> rest

  unfoldable pub assert_public_host : Urls → String → Result RestError (List String)
  assert_public_host urls url = do
    host ← host_of urls url
    addresses ← resolve_addresses host
    guard (some_address addresses) (security no_addresses)
    assert_public_addresses addresses
    ok addresses

  unfoldable pub assert_destination : Urls → String → String → Bool → Result RestError (List String)
  assert_destination urls url allowed_host resolve = do
    assert_https urls url
    assert_host_allowed urls url allowed_host
    if resolve then assert_public_host urls url else ok []

-- The checks of `confine_next_url` on the two split URLs, in its order. The message of the last one
-- shows the paths sorted.
unfoldable pub confine_parts : Url → Url → List String → Result RestError (Unit {0})
confine_parts candidate pinned allowed_next_paths = do
  guard (lower candidate.scheme == "https") (security next_not_https)
  guard (blank candidate.username && blank candidate.password) (security next_userinfo)
  guard (not (is_empty (canonical (text_of candidate.hostname)))) (security next_no_host)
  guard (canonical (text_of candidate.hostname) == canonical (text_of pinned.hostname))
      (security (next_host (canonical (text_of pinned.hostname))))
  p ← read_port candidate.port
  q ← read_port pinned.port
  guard (same_port p q) (security (next_port q))
  guard (candidate.path == pinned.path || contains allowed_next_paths candidate.path)
      (security (next_path (pinned.path ∷ allowed_next_paths)))

abbrev pub malformed_next : Option Url → Result RestError Url
malformed_next none = err (security next_malformed)
malformed_next (some u) = ok u

unfoldable pub confine_next_url : Urls → String → String → List String → Result RestError String
confine_next_url urls next_url pinned_url allowed_next_paths = do
  pinned ← urlsplit urls pinned_url
  candidate ← malformed_next (urls.split next_url)
  confine_parts candidate pinned allowed_next_paths
  ok (urls.unsplit pinned.scheme pinned.netloc candidate.path candidate.query)
