-- ===== src/Rest/Security/Confined.antt =====
-- drivers/rest/security.py: where `confine_next_url` lets a provider's next-page URL lead, and
-- what its refusals can show.
use mathlib.Core.Path.{subst}
use r64_db_engine.Base.{
  ℕ, String, ◌≡◌, refl, sym, ap, ◌∙◌, ◌⊎◌, inl, inr, Bool, true, false, not, ◌&&◌, ◌||◌, Option,
  none, some, List, ◌∷◌, contains, is_empty, ◌==◌, nat_eq, string_eq, eq_of_==, or-split,
}
use r64_db_engine.Base.Results.{
  Result, ok, err, ◌>>=◌, ◌>>◌, guard, >>=-eq-ok, >>-eq-ok, ok-injective, guard-eq-ok,
  guard->>-eq-err, >>=-eq-err,
}
use r64_db_engine.Rest.{
  next_malformed, next_not_https, next_userinfo, next_no_host, next_host, next_port, next_path,
  RestError, security, foreign,
}
use r64_db_engine.Rest.Texts.{lower, canonical}
use r64_db_engine.Rest.Security.{
  Port, default, number, malformed, Url, Urls, text_of, blank, read_port, same_port, value_error,
  urlsplit, confine_parts, malformed_next, confine_next_url,
}

-- A candidate that `confine_next_url` follows, against the URL that the recipe pins.
pub record IsConfined (candidate pinned : Url) (allowed_next_paths : List String) : Type 0 where
  pub https : lower candidate.scheme ≡ "https"
  pub no_userinfo : (blank candidate.username && blank candidate.password) ≡ true
  pub same_host : canonical (text_of candidate.hostname) ≡ canonical (text_of pinned.hostname)
  pub same_ports :
      (p : Option ℕ) × (read_port candidate.port ≡ ok p) × (read_port pinned.port ≡ ok p)
  pub declared_path :
      (candidate.path ≡ pinned.path) ⊎ (contains allowed_next_paths candidate.path ≡ true)

same_port-eq : (p q : Option ℕ) → same_port p q ≡ true → p ≡ q
unfolding nat_eq
same_port-eq none none h = refl
same_port-eq none (some n) h = cc
same_port-eq (some m) none h = cc
same_port-eq (some m) (some n) h = ap (λ (x : ℕ). some x) (eq_of_== m n h)

-- The errors whose message shows the recipe's own values alone.
pub data IsAuthored (pinned : Url) (allowed_next_paths : List String) : RestError → Type 0 where
  malformed_url : IsAuthored pinned allowed_next_paths (security next_malformed)
  scheme : IsAuthored pinned allowed_next_paths (security next_not_https)
  userinfo : IsAuthored pinned allowed_next_paths (security next_userinfo)
  no_host : IsAuthored pinned allowed_next_paths (security next_no_host)
  host :
      IsAuthored pinned allowed_next_paths
        (security (next_host (canonical (text_of pinned.hostname))))
  port :
      {p : Option ℕ}
      → read_port pinned.port ≡ ok p
      → IsAuthored pinned allowed_next_paths (security (next_port p))
  pinned_port :
      {e : RestError} → read_port pinned.port ≡ err e → IsAuthored pinned allowed_next_paths e
  path :
      IsAuthored pinned allowed_next_paths (security (next_path (pinned.path ∷ allowed_next_paths)))

declared :
    {a b : String} {found : Bool} → ((a == b) ≡ true) ⊎ (found ≡ true) → (a ≡ b) ⊎ (found ≡ true)
declared {a} {b} (inl e) = inl (eq_of_== a b e)
declared (inr e) = inr e

confine_parts-IsConfined :
    (candidate pinned : Url) (allowed : List String)
    → confine_parts candidate pinned allowed ≡ ok tt
    → IsConfined candidate pinned allowed
unfolding confine_parts
confine_parts-IsConfined candidate pinned allowed h =
    let (g1, h1) =
      >>-eq-ok (guard (lower candidate.scheme == "https") (security next_not_https)) _ h in
    let (g2, h2) =
      >>-eq-ok
        (guard (blank candidate.username && blank candidate.password) (security next_userinfo)) _
        h1 in
    let (_, h3) =
      >>-eq-ok
        (guard (not (is_empty (canonical (text_of candidate.hostname)))) (security next_no_host)) _
        h2 in
    let (g4, h4) =
      >>-eq-ok
        (guard (canonical (text_of candidate.hostname) == canonical (text_of pinned.hostname))
          (security (next_host (canonical (text_of pinned.hostname)))))
        _ h3 in
    let (p, read_p, h5) = >>=-eq-ok (read_port candidate.port) _ h4 in
    let (q, read_q, h6) = >>=-eq-ok (read_port pinned.port) _ h5 in
    let (g7, h7) = >>-eq-ok (guard (same_port p q) (security (next_port q))) _ h6 in
    record {
      https = eq_of_== _ _ (guard-eq-ok _ _ g1);
      no_userinfo = guard-eq-ok _ _ g2;
      same_host = eq_of_== _ _ (guard-eq-ok _ _ g4);
      same_ports = (
        p,
        read_p,
        read_q ∙ ap (λ (x : Option ℕ). ok x) (sym (same_port-eq p q (guard-eq-ok _ _ g7))),
      );
      declared_path = declared (
          or-split (candidate.path == pinned.path) (contains allowed candidate.path)
            (guard-eq-ok _ _ h7));
    }

after_split : (o : Option Url) (c : Url) → malformed_next o ≡ ok c → o ≡ some c
after_split none c h = cc
after_split (some u) c h = cc

parts-ok : (o : Option Url) (u : Url) → value_error o ≡ ok u → o ≡ some u
parts-ok none u h = cc
parts-ok (some v) u h = cc

-- A next-page URL that is followed is rebuilt from the pinned scheme and authority, a path that is
-- the pinned one or declared, and the provider's query; and what the provider sent had https, no
-- userinfo, the pinned host and the pinned port.
pub confine_next_url-IsConfined :
    (urls : Urls) (next_url pinned_url url : String) (allowed_next_paths : List String)
    → confine_next_url urls next_url pinned_url allowed_next_paths ≡ ok url
    → (candidate : Url) × (pinned : Url) × (urls.split next_url ≡ some candidate)
      × (urls.split pinned_url ≡ some pinned)
      × IsConfined candidate pinned allowed_next_paths
      × (url ≡ urls.unsplit pinned.scheme pinned.netloc candidate.path candidate.query)
unfolding confine_next_url
confine_next_url-IsConfined urls next_url pinned_url url allowed h =
    let (pinned, read_pinned, h1) = >>=-eq-ok (urlsplit urls pinned_url) _ h in
    let (candidate, read_next, h2) = >>=-eq-ok (malformed_next (urls.split next_url)) _ h1 in
    let (checked, last) = >>-eq-ok (confine_parts candidate pinned allowed) _ h2 in
    (
      candidate,
      pinned,
      after_split (urls.split next_url) candidate read_next,
      parts-ok (urls.split pinned_url) pinned read_pinned,
      confine_parts-IsConfined candidate pinned allowed checked,
      sym (ok-injective _ _ last),
    )

candidate_port :
    (p : Port) (e : RestError)
    → read_port p ≡ err e
    → (t : String) × (p ≡ malformed t) × (e ≡ foreign t)
candidate_port default e h = cc
candidate_port (number n) e h = cc
candidate_port (malformed t) e h = (t, refl, cc)

guard-err : (b : Bool) (e : RestError) {d : RestError} → guard b e ≡ err d → e ≡ d
guard-err true e h = cc
guard-err false e h = cc

-- The checks from the ports on.
ports_refused :
    (candidate pinned : Url) (allowed : List String) (e : RestError)
    → (read_port candidate.port >>= λ p. read_port pinned.port >>= λ q.
        guard (same_port p q) (security (next_port q))
        >> guard
            (candidate.path == pinned.path || contains allowed candidate.path)
            (security (next_path (pinned.path ∷ allowed))))
      ≡ err e
    → IsAuthored pinned allowed e
      ⊎ ((t : String) × (candidate.port ≡ malformed t) × (e ≡ foreign t))
ports_refused candidate pinned allowed e h = elim (>>=-eq-err (read_port candidate.port) _ h) [
  | inl bad ↦ inr (candidate_port candidate.port e bad)
  | inr (p, read_p, h1) ↦ elim (>>=-eq-err (read_port pinned.port) _ h1) [
    | inl bad ↦ inl (IsAuthored.pinned_port bad)
    | inr (q, read_q, h2) ↦ elim (guard->>-eq-err (same_port p q) (security (next_port q)) _ h2) [
      | inl same ↦ inl (subst (IsAuthored pinned allowed) (sym same) (IsAuthored.port read_q))
      | inr h3 ↦ inl (subst (IsAuthored pinned allowed) (guard-err _ _ h3) IsAuthored.path)
    ]
  ]
]

parts_refused :
    (candidate pinned : Url) (allowed : List String) (e : RestError)
    → confine_parts candidate pinned allowed ≡ err e
    → IsAuthored pinned allowed e
      ⊎ ((t : String) × (candidate.port ≡ malformed t) × (e ≡ foreign t))
unfolding confine_parts
parts_refused candidate pinned allowed e h =
    elim (guard->>-eq-err (lower candidate.scheme == "https") (security next_not_https) _ h) [
      | inl same ↦ inl (subst (IsAuthored pinned allowed) (sym same) IsAuthored.scheme)
      | inr h1 ↦
          elim (guard->>-eq-err (blank candidate.username && blank candidate.password)
            (security next_userinfo) _ h1) [
              | inl same ↦ inl (subst (IsAuthored pinned allowed) (sym same) IsAuthored.userinfo)
              | inr h2 ↦
                  elim (guard->>-eq-err (not (is_empty (canonical (text_of candidate.hostname))))
                    (security next_no_host) _ h2) [
                      | inl same ↦
                          inl (subst (IsAuthored pinned allowed) (sym same) IsAuthored.no_host)
                      | inr h3 ↦
                          elim (guard->>-eq-err
                            (canonical (text_of candidate.hostname)
                              == canonical (text_of pinned.hostname))
                            (security (next_host (canonical (text_of pinned.hostname)))) _ h3) [
                              | inl same ↦
                                  inl (subst (IsAuthored pinned allowed) (sym same) IsAuthored.host)
                              | inr h4 ↦ ports_refused candidate pinned allowed e h4
                            ]
                    ]
            ]
    ]

no_candidate :
    (o : Option Url) (e : RestError) → malformed_next o ≡ err e → e ≡ security next_malformed
no_candidate none e h = cc
no_candidate (some u) e h = cc

confined_err :
    (m : Result RestError (Unit {0})) (url : String) (e : RestError)
    → (m >> ok url) ≡ err e
    → m ≡ err e
confined_err (ok tt) url e h = cc
confined_err (err d) url e h = cc

-- The checks on a candidate against a pinned URL that splits.
candidate_refused :
    (urls : Urls) (found : Option Url) (pinned : Url) (allowed : List String) (e : RestError)
    → (malformed_next found >>= λ candidate.
        confine_parts candidate pinned allowed
        >> ok (urls.unsplit pinned.scheme pinned.netloc candidate.path candidate.query))
      ≡ err e
    → IsAuthored pinned allowed e
      ⊎ ((candidate : Url) × (t : String) × (found ≡ some candidate)
          × (candidate.port ≡ malformed t)
          × (e ≡ foreign t))
candidate_refused urls found pinned allowed e h = elim (>>=-eq-err (malformed_next found) _ h) [
  | inl bad ↦
      inl (
        subst (IsAuthored pinned allowed) (sym (no_candidate found e bad)) IsAuthored.malformed_url)
  | inr (candidate, read, h1) ↦
      elim (parts_refused candidate pinned allowed e
        (confined_err (confine_parts candidate pinned allowed) _ e h1)) [
          | inl authored ↦ inl authored
          | inr (t, bad, same) ↦ inr (candidate, t, after_split found candidate read, bad, same)
        ]
]

-- A next-page URL that is refused raises an error that shows the recipe's own values alone, with one
-- exception: a port that is no number raises Python's own error, whose message shows the port.
pub confine_next_url-IsAuthored :
    (urls : Urls) (next_url pinned_url : String) (allowed_next_paths : List String) (pinned : Url)
    (e : RestError)
    → urls.split pinned_url ≡ some pinned
    → confine_next_url urls next_url pinned_url allowed_next_paths ≡ err e
    → IsAuthored pinned allowed_next_paths e
      ⊎ ((candidate : Url) × (t : String) × (urls.split next_url ≡ some candidate)
          × (candidate.port ≡ malformed t)
          × (e ≡ foreign t))
unfolding confine_next_url
confine_next_url-IsAuthored urls next_url pinned_url allowed pinned e split h =
    candidate_refused urls (urls.split next_url) pinned allowed e
      (ap (λ o. value_error o >>= continue) (sym split) ∙ h)
  where
    continue : Url → Result RestError String
    continue p = malformed_next (urls.split next_url) >>= λ candidate.
        confine_parts candidate p allowed
        >> ok (urls.unsplit p.scheme p.netloc candidate.path candidate.query)
