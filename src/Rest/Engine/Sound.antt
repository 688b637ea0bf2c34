-- ===== src/Rest/Engine/Sound.antt =====
-- drivers/rest: which errors the checks and the reading of one page can raise.
use r64_db_engine.Base.{
  String, ◌≡◌, refl, sym, ap, ◌∙◌, inl, inr, Bool, true, false, not, ◌&&◌, Option, none, some, List,
  [], ◌∷◌, is_empty, ◌==◌, string_eq, nat_eq, arith,
}
use r64_db_engine.Base.Results.{Result, ok, err, ◌>>=◌, guard, >>=-eq-err, err-injective}
use r64_db_engine.Rest.{
  undeclared, no_hostname, no_addresses, next_not_https, next_userinfo, next_no_host, next_host,
  next_port, RestError, security, invariant,
}
use r64_db_engine.Rest.Texts.{lower, canonical}
use r64_db_engine.Rest.Security.{
  Port, Url, Urls, Network, text_of, blank, value_error, urlsplit, assert_https, host_of,
  assert_host_allowed, resolve_addresses, category, assert_public_address, assert_public_addresses,
  some_address, assert_public_host, assert_destination, read_port, same_port, confine_parts,
  malformed_next, confine_next_url,
}

-- Neither an `EngineInvariantError` nor the refusal of undeclared inputs.
abbrev pub sound : RestError → Bool
sound (security (undeclared _ _)) = false
sound (invariant _) = false
sound _ = true

abbrev pub IsSound {ℓ} : {A : Type ℓ} → Result RestError A → Type ℓ
IsSound m = (e : RestError) → m ≡ err e → sound e ≡ true

pub ok-IsSound {ℓ} : {A : Type ℓ} (a : A) → IsSound (ok a)
ok-IsSound a e h = cc

pub err-IsSound {ℓ} : {A : Type ℓ} (d : RestError) → sound d ≡ true → IsSound {A = A} (err d)
err-IsSound d s e h = ap sound (sym (err-injective d e h)) ∙ s

pub guard-IsSound : (b : Bool) (d : RestError) → sound d ≡ true → IsSound (guard b d)
guard-IsSound true d s = ok-IsSound tt
guard-IsSound false d s = err-IsSound d s

pub >>=-IsSound {ℓ κ} :
    {A : Type ℓ} {B : Type κ} (m : Result RestError A) (f : A → Result RestError B)
    → IsSound m
    → ((a : A) → IsSound (f a))
    → IsSound (m >>= f)
>>=-IsSound m f first next e h = elim (>>=-eq-err m f h) [
  | inl raised ↦ first e raised
  | inr (a, _, later) ↦ next a e later
]

pub urlsplit-IsSound : (urls : Urls) (url : String) → IsSound (urlsplit urls url)
urlsplit-IsSound urls url = of (urls.split url)
  where
    of : (o : Option Url) → IsSound (value_error o)
    of none = err-IsSound _ refl
    of (some u) = ok-IsSound u

assert_https-IsSound : (urls : Urls) (url : String) → IsSound (assert_https urls url)
unfolding assert_https
assert_https-IsSound urls url =
    >>=-IsSound (urlsplit urls url) _ (urlsplit-IsSound urls url) (λ u. guard-IsSound _ _ refl)

host_of-IsSound : (urls : Urls) (url : String) → IsSound (host_of urls url)
unfolding host_of
host_of-IsSound urls url = >>=-IsSound (urlsplit urls url) _ (urlsplit-IsSound urls url) (λ u.
    >>=-IsSound (guard (not (blank u.hostname)) (security no_hostname)) _ (guard-IsSound _ _ refl)
      (λ _. ok-IsSound _))

assert_host_allowed-IsSound :
    (urls : Urls) (url allowed : String) → IsSound (assert_host_allowed urls url allowed)
unfolding assert_host_allowed
assert_host_allowed-IsSound urls url allowed =
    >>=-IsSound (host_of urls url) _ (host_of-IsSound urls url) (λ host. guard-IsSound _ _ refl)

module _ (net : Network) where
  resolve_addresses-IsSound : (host : String) → IsSound (resolve_addresses net host)
  unfolding resolve_addresses
  resolve_addresses-IsSound host e h = ground arith

  pub assert_public_address-IsSound :
      (address : String) → IsSound (assert_public_address net address)
  unfolding assert_public_address category
  assert_public_address-IsSound address e h = ground arith

  assert_public_addresses-IsSound : (as' : List String) → IsSound (assert_public_addresses net as')
  unfolding assert_public_addresses
  assert_public_addresses-IsSound [] = ok-IsSound tt
  assert_public_addresses-IsSound (a ∷ as') =
      >>=-IsSound (assert_public_address net a) _ (assert_public_address-IsSound a)
        (λ _. assert_public_addresses-IsSound as')

  assert_public_host-IsSound :
      (urls : Urls) (url : String) → IsSound (assert_public_host net urls url)
  unfolding assert_public_host
  assert_public_host-IsSound urls url =
      >>=-IsSound (host_of urls url) _ (host_of-IsSound urls url) (λ host.
        >>=-IsSound (resolve_addresses net host) _ (resolve_addresses-IsSound host) (λ found.
          >>=-IsSound (guard (some_address found) (security no_addresses)) _
            (guard-IsSound _ _ refl)
            (λ _.
              >>=-IsSound (assert_public_addresses net found) _
                (assert_public_addresses-IsSound found) (λ _. ok-IsSound found))))

  pub assert_destination-IsSound :
      (urls : Urls) (url allowed : String) → IsSound (assert_destination net urls url allowed true)
  unfolding assert_destination
  assert_destination-IsSound urls url allowed =
      >>=-IsSound (assert_https urls url) _ (assert_https-IsSound urls url) (λ _.
        >>=-IsSound (assert_host_allowed urls url allowed) _
          (assert_host_allowed-IsSound urls url allowed) (λ _. assert_public_host-IsSound urls url))

read_port-IsSound : (p : Port) → IsSound (read_port p)
read_port-IsSound Port.default = ok-IsSound none
read_port-IsSound (Port.number n) = ok-IsSound (some n)
read_port-IsSound (Port.malformed t) = err-IsSound _ refl

confine_parts-IsSound :
    (candidate pinned : Url) (allowed : List String)
    → IsSound (confine_parts candidate pinned allowed)
unfolding confine_parts
confine_parts-IsSound candidate pinned allowed =
    >>=-IsSound (guard (lower candidate.scheme == "https") (security next_not_https)) _
      (guard-IsSound _ _ refl)
      (λ _.
        >>=-IsSound
          (guard (blank candidate.username && blank candidate.password) (security next_userinfo)) _
          (guard-IsSound _ _ refl)
          (λ _.
            >>=-IsSound
              (guard (not (is_empty (canonical (text_of candidate.hostname))))
                (security next_no_host))
              _ (guard-IsSound _ _ refl)
              (λ _.
                >>=-IsSound
                  (guard
                    (canonical (text_of candidate.hostname) == canonical (text_of pinned.hostname))
                    (security (next_host (canonical (text_of pinned.hostname)))))
                  _ (guard-IsSound _ _ refl)
                  (λ _.
                    >>=-IsSound (read_port candidate.port) _ (read_port-IsSound candidate.port)
                      (λ p.
                        >>=-IsSound (read_port pinned.port) _ (read_port-IsSound pinned.port) (λ q.
                          >>=-IsSound (guard (same_port p q) (security (next_port q))) _
                            (guard-IsSound _ _ refl) (λ _. guard-IsSound _ _ refl)))))))

pub confine_next_url-IsSound :
    (urls : Urls) (next_url pinned_url : String) (allowed : List String)
    → IsSound (confine_next_url urls next_url pinned_url allowed)
unfolding confine_next_url
confine_next_url-IsSound urls next_url pinned_url allowed =
    >>=-IsSound (urlsplit urls pinned_url) _ (urlsplit-IsSound urls pinned_url) (λ pinned.
      >>=-IsSound (malformed_next (urls.split next_url)) _ (of (urls.split next_url)) (λ candidate.
        >>=-IsSound (confine_parts candidate pinned allowed) _
          (confine_parts-IsSound candidate pinned allowed) (λ _. ok-IsSound _)))
  where
    of : (o : Option Url) → IsSound (malformed_next o)
    of none = err-IsSound _ refl
    of (some u) = ok-IsSound u
