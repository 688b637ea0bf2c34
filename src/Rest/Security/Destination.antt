-- ===== src/Rest/Security/Destination.antt =====
-- drivers/rest/security.py: what a destination that passes the fence satisfies.
use r64_db_engine.Base.{
  String, ◌<>◌, ◌≡◌, refl, sym, ap, ◌∙◌, ◌≢◌, ◌⊎◌, inl, inr, true, false, not, Option, none, some,
  List, [], ◌∷◌, All, ◌==◌, string_eq, eq_of_==, or-split, Option-cases, ◌||◌, arith,
}
use r64_db_engine.Base.Results.{
  ok, err, ◌>>◌, guard, >>=-eq-ok, >>-eq-ok, ok-injective, guard-eq-ok,
}
use mathlib.Core.Path.{subst}
use mathlib.Core.Option.{some-injective}
use r64_db_engine.Rest.{security, dns_error, no_hostname, no_addresses}
use r64_db_engine.Config.Env.{sorted_set}
use r64_db_engine.Config.Env.Sorted.{All-of_sorted_set}
use r64_db_engine.Rest.Texts.{lower, canonical, ends_with, ends_with-split}
use r64_db_engine.Rest.Security.{
  Url, Urls, Address, Network, text_of, blank, some_address, urlsplit, value_error, assert_https,
  host_of, assert_host_allowed, resolve_addresses, category, classify, assert_public_address,
  assert_public_addresses, assert_public_host, assert_destination,
}

-- The host, or labels in front of it with their dot.
abbrev pub IsHostOrSubdomain : String → String → Type 0
IsHostOrSubdomain host allowed =
    (host ≡ allowed) ⊎ ((labels : String) × (host ≡ labels <> ("." <> allowed)))

-- Publicly routable, and in none of the refused categories.
pub record IsPublic (ip : Address) : Type 0 where
  pub not_loopback : ip.is_loopback ≡ false
  pub not_link_local : ip.is_link_local ≡ false
  pub not_unspecified : ip.is_unspecified ≡ false
  pub not_multicast : ip.is_multicast ≡ false
  pub not_reserved : ip.is_reserved ≡ false
  pub not_private : ip.is_private ≡ false
  pub global : ip.is_global ≡ true

abbrev pub IsPublicAddress : Network → String → Type 0
IsPublicAddress net a = (ip : Address) × (net.ip_address a ≡ some ip) × IsPublic ip

module _ (net : Network) where
  classify-IsPublic :
      (address : String) (ip : Address) → classify net address (some ip) ≡ ok tt → IsPublic ip
  unfolding category
  classify-IsPublic address ip h = ground arith

  unreadable :
      (address : String) (o : Option Address) → o ≡ none → classify net address o ≡ ok tt → ⊥
  unreadable address none e h = cc
  unreadable address (some ip) e h = cc

  pub assert_public_address-IsPublic :
      (address : String) → assert_public_address net address ≡ ok tt → IsPublicAddress net address
  unfolding assert_public_address
  assert_public_address-IsPublic address h = elim (Option-cases (net.ip_address address)) [
    | inl e ↦ absurd (unreadable address (net.ip_address address) e h)
    | inr (ip, e) ↦
        (ip, e, classify-IsPublic address ip (ap (λ o. classify net address o) (sym e) ∙ h))
  ]

  assert_public_addresses-All :
      (as' : List String) → assert_public_addresses net as' ≡ ok tt → All (IsPublicAddress net) as'
  unfolding assert_public_addresses
  assert_public_addresses-All [] h = tt
  assert_public_addresses-All (a ∷ as') h =
      let (u, p, q) =
        >>=-eq-ok (assert_public_address net a) (λ _. assert_public_addresses net as') h in
      (assert_public_address-IsPublic a p, assert_public_addresses-All as' q)

-- What `urlsplit` returns is what the text splits into.
parts-ok : (o : Option Url) (u : Url) → value_error o ≡ ok u → o ≡ some u
parts-ok none u h = cc
parts-ok (some v) u h = cc

-- What `host_of` reads.
host_of-parts :
    (urls : Urls) (url host : String)
    → host_of urls url ≡ ok host
    → (u : Url) × (urls.split url ≡ some u) × (host ≡ canonical (text_of u.hostname))
unfolding host_of
host_of-parts urls url host h =
    let (u, read, rest) = >>=-eq-ok (urlsplit urls url) _ h in
    let (_, last) = >>-eq-ok (guard (not (blank u.hostname)) (security no_hostname)) _ rest in
    (u, parts-ok (urls.split url) u read, sym (ok-injective _ _ last))

boundary :
    (host allowed : String)
    → (host == allowed || ends_with host ("." <> allowed)) ≡ true
    → IsHostOrSubdomain host allowed
boundary host allowed h = elim (or-split (host == allowed) _ h) [
  | inl e ↦ inl (eq_of_== host allowed e)
  | inr e ↦ inr (ends_with-split host ("." <> allowed) e)
]

host_allowed :
    (urls : Urls) (url allowed_host : String)
    → assert_host_allowed urls url allowed_host ≡ ok tt
    → (u : Url) × (urls.split url ≡ some u)
      × IsHostOrSubdomain (canonical (text_of u.hostname)) (canonical allowed_host)
unfolding assert_host_allowed
host_allowed urls url allowed_host h =
    let (host, read, rest) = >>=-eq-ok (host_of urls url) _ h in
    let (u, split, same) = host_of-parts urls url host read in
    (
      u,
      split,
      subst (λ x. IsHostOrSubdomain x (canonical allowed_host)) same
          (boundary host (canonical allowed_host) (guard-eq-ok _ _ rest)),
    )

is_https :
    (urls : Urls) (url : String) (u : Url)
    → urls.split url ≡ some u
    → assert_https urls url ≡ ok tt
    → lower u.scheme ≡ "https"
unfolding assert_https
is_https urls url u split h =
    let (v, read, rest) = >>=-eq-ok (urlsplit urls url) _ h in
    let same : v ≡ u = some-injective v u (sym (parts-ok (urls.split url) v read) ∙ split) in
    eq_of_== (lower u.scheme) "https"
      (ap (λ (x : Url). lower x.scheme == "https") (sym same) ∙ guard-eq-ok _ _ rest)

not_empty : (xs : List String) → some_address xs ≡ true → xs ≢ []
not_empty [] h = cc
not_empty (x ∷ xs) h = λ e. cc

resolved :
    (o : Option (List String)) (addresses : List String)
    → (elim o [ none ↦ err (security dns_error) | some infos ↦ ok (sorted_set infos) ])
      ≡ ok addresses
    → (infos : List String) × (o ≡ some infos) × (addresses ≡ sorted_set infos)
resolved none addresses h = cc
resolved (some infos) addresses h = (infos, refl, sym (ok-injective _ _ h))

nonempty_of_sorted : (infos : List String) → sorted_set infos ≢ [] → infos ≢ []
unfolding sorted_set
nonempty_of_sorted [] h e = h refl
nonempty_of_sorted (x ∷ infos) h e = cc

-- What name resolution returned for a host: some addresses, all of them public.
abbrev pub ResolvesPublicly : Network → String → List String → Type 0
ResolvesPublicly net host addresses =
    (infos : List String) × (net.getaddrinfo host ≡ some infos)
    × (infos ≢ [])
    × All (IsPublicAddress net) infos
    × (addresses ≡ sorted_set infos)

public_host :
    (net : Network) (urls : Urls) (url : String) (addresses : List String)
    → assert_public_host net urls url ≡ ok addresses
    → (u : Url) × (urls.split url ≡ some u)
      × ResolvesPublicly net (canonical (text_of u.hostname)) addresses
unfolding assert_public_host resolve_addresses
public_host net urls url addresses h =
    let (host, read, h1) = >>=-eq-ok (host_of urls url) _ h in
    let (u, split, same_host) = host_of-parts urls url host read in
    let (found, looked, h2) = >>=-eq-ok (resolve_addresses net host) _ h1 in
    let (infos, answer, sorted) = resolved (net.getaddrinfo host) found looked in
    let (nonempty, h3) =
      >>-eq-ok (guard (some_address found) (security no_addresses))
        (assert_public_addresses net found >> ok found) h2 in
    let (public, last) = >>-eq-ok (assert_public_addresses net found) (ok found) h3 in
    let all = assert_public_addresses-All net found public in
    (
      u,
      split,
      subst (λ (x : String). ResolvesPublicly net x addresses) same_host
          (
            infos,
            answer,
            nonempty_of_sorted infos (
                subst (λ (xs : List String). xs ≢ []) sorted
                  (not_empty found (guard-eq-ok _ _ nonempty))),
            All-of_sorted_set (IsPublicAddress net) infos
                (subst (All (IsPublicAddress net)) sorted all),
            sym (ok-injective found addresses last) ∙ sorted,
          ),
    )

-- A URL that `assert_destination` admits is https, its host is the allowed one or a subdomain of it
-- on a label boundary, name resolution of that host returned at least one address, every address that
-- it returned is public, and the addresses that are vetted are those, sorted and without repetition.
pub assert_destination-public :
    (net : Network) (urls : Urls) (url allowed_host : String) (addresses : List String)
    → assert_destination net urls url allowed_host true ≡ ok addresses
    → (u : Url) × (urls.split url ≡ some u)
      × (lower u.scheme ≡ "https")
      × IsHostOrSubdomain (canonical (text_of u.hostname)) (canonical allowed_host)
      × ResolvesPublicly net (canonical (text_of u.hostname)) addresses
unfolding assert_destination
assert_destination-public net urls url allowed_host addresses h =
    let (_, https, h1) = >>=-eq-ok (assert_https urls url) _ h in
    let (_, host, h2) = >>=-eq-ok (assert_host_allowed urls url allowed_host) _ h1 in
    let (u, split, bounded) = host_allowed urls url allowed_host host in
    let (v, split_again, public) = public_host net urls url addresses h2 in
    let same : v ≡ u = some-injective v u (sym split_again ∙ split) in
    (
      u,
      split,
      is_https urls url u split https,
      bounded,
      subst (λ (x : Url). ResolvesPublicly net (canonical (text_of x.hostname)) addresses) same
          public,
    )
