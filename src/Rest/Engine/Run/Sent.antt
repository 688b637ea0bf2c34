-- ===== src/Rest/Engine/Run/Sent.antt =====
-- drivers/rest/engine.py: which requests a recipe sends, whatever the provider answers.
use mathlib.Core.Path.{subst}
use r64_db_engine.Base.{
  ℕ, zero, suc, ◌≤◌, String, ◌≡◌, refl, ap, ◌∙◌, ◌⊎◌, inl, inr, Bool, true, false, not, Option,
  none, some, List, [], ◌∷◌, ◌++◌, length, filter, contains, is_empty, if◌then◌else◌, arith,
  string_eq,
}
use r64_db_engine.Base.Results.{Result, ok, err, ◌>>=◌, >>=-eq-ok, >>-eq-ok, ok-injective}
use r64_db_engine.Base.Json.{
  Json, null, bool, num, text, arr, obj, Fields, field_names, truthy, get,
}
use r64_db_engine.Rest.{RestError}
use r64_db_engine.Rest.Recipes.{
  Method, get_method, post_method, Recipe, RecipeBook, declared_params,
}
use r64_db_engine.Rest.Security.{assert_destination, confine_next_url}
use r64_db_engine.Rest.Engine.{extract, next_page_params, merge}
use r64_db_engine.Rest.Engine.Request.{Request, World, authorise, build_request, prepare, exchange}
use r64_db_engine.Rest.Engine.Run.{
  scrub_boundary, validate_response, follow_link, Next, exhausted, turn, next_of, read_page,
  first_of, Run, after_page, after_prepare, given, run_pages, run_recipe,
}

build_request-url : (m : Method) (url : String) (q h : Fields) → (build_request m url q h).url ≡ url
unfolding build_request
build_request-url get_method url q h = refl
build_request-url post_method url q h = refl

turn-url :
    (url next_url : String) (params next_params : Fields)
    → ◌≡◌ {A = Result RestError Next} (ok (turn url params)) (ok (turn next_url next_params))
    → url ≡ next_url
turn-url url next_url params next_params h = cc

-- What passes the boundary with a value had it before.
pub unscrubbed {ℓ} :
    {A : Type ℓ} (page : ℕ) (r : Result RestError A) (a : A)
    → scrub_boundary page r ≡ ok a
    → r ≡ ok a
unscrubbed page (ok b) a h = h
unscrubbed page (err (RestError.security e)) a h = cc
unscrubbed page (err (RestError.execution e)) a h = cc
unscrubbed page (err (RestError.validation e)) a h = cc
unscrubbed page (err (RestError.invariant e)) a h = cc
unscrubbed page (err (RestError.foreign e)) a h = cc

after_page-length :
    (n : ℕ) (rows : List Fields) (first : Json) (again : String → Fields → List Fields → Json → Run)
    (r : Result RestError (Json × List Fields × Next))
    → ((url : String) (params : Fields) (more : List Fields) (got : Json)
        → length (again url params more got).sent ≤ n)
    → length (after_page rows first again r).sent ≤ n
after_page-length n rows first again (err e) h = omega arith
after_page-length n rows first again (ok (payload, got, exhausted)) h = omega arith
after_page-length n rows first again (ok (payload, got, turn url params)) h = h url params _ _

after_prepare-length :
    (n page : ℕ) (r : Result RestError (List String × Request))
    (after : List String × Request → Run)
    → ((prepared : List String × Request) → length (after prepared).sent ≤ n)
    → length (after_prepare page r after).sent ≤ suc n
after_prepare-length n page (err e) after h = omega arith
after_prepare-length n page (ok prepared) after h = omega (arith, h prepared)

module _ (world : World) (recipe : Recipe) (book : RecipeBook) where
  -- The URL of the recipe, or one that `confine_next_url` made of a provider's.
  abbrev pub IsPinned : String → Type 0
  IsPinned url =
      (url ≡ recipe.url)
      ⊎ ((next_url : String) × (confine_next_url world.urls next_url recipe.url
              recipe.pagination.allowed_next_paths
            ≡ ok url))

  -- A request that goes to such a URL, which passed the check of a destination with what name
  -- resolution answers at that page.
  abbrev pub IsFenced : ℕ → Request → Type 0
  IsFenced page request =
      IsPinned request.url
      × ((addresses : List String) × (assert_destination (world.net page) world.urls request.url
              recipe.allowed_host true
            ≡ ok addresses))

  -- Requests of which the first is that of a page, the second that of the next page, and so on.
  abbrev pub AreFenced : ℕ → List Request → Type 0
  AreFenced page [] = Unit
  AreFenced page (request ∷ sent) = IsFenced page request × AreFenced (suc page) sent

  prepare-IsFenced :
      (url : String) (params : Fields) (page : ℕ) (vetted : List String) (request : Request)
      → IsPinned url
      → prepare world recipe url params page ≡ ok (vetted, request)
      → IsFenced page request
  unfolding prepare
  prepare-IsFenced url params page vetted request pinned h =
      let (addresses, checked, h1) =
        >>=-eq-ok (assert_destination (world.net page) world.urls url recipe.allowed_host true) _
          h in
      let (parts, _, last) = >>=-eq-ok (authorise world.files recipe.auth params) _ h1 in
      subst (IsFenced page) (ap (λ (x : List String × Request). x.1) (ok-injective _ _ last))
        (rw (build_request-url recipe.method url parts.0 parts.1) (pinned, (addresses, checked)))

  confined-IsPinned :
      (link next_url : String) (params next_params : Fields)
      → (confine_next_url world.urls link recipe.url recipe.pagination.allowed_next_paths >>= λ url.
          ok (turn url params))
        ≡ ok (turn next_url next_params)
      → IsPinned next_url
  confined-IsPinned link next_url params next_params h =
      let (url, confined, last) =
        >>=-eq-ok (confine_next_url world.urls link recipe.url recipe.pagination.allowed_next_paths)
          _ h in
      inr (link, confined ∙ ap (λ (x : String). ok x) (turn-url _ _ _ _ last))

  no_turn :
      (b : Bool) (e : RestError) (next_url : String) (next_params : Fields)
      → (if b then err e else ok exhausted) ≡ ok (turn next_url next_params)
      → IsPinned next_url
  no_turn true e next_url next_params h = cc
  no_turn false e next_url next_params h = cc

  text-IsPinned :
      (b : Bool) (link next_url : String) (params next_params : Fields)
      → (if b
          then ok exhausted
          else (confine_next_url world.urls link recipe.url recipe.pagination.allowed_next_paths
              >>= λ url. ok (turn url params)))
        ≡ ok (turn next_url next_params)
      → IsPinned next_url
  text-IsPinned true link next_url params next_params h = cc
  text-IsPinned false link next_url params next_params h =
      confined-IsPinned link next_url params next_params h

  follow_link-IsPinned :
      (next_url : String) (params next_params : Fields) (value : Option Json)
      → follow_link world recipe params value ≡ ok (turn next_url next_params)
      → IsPinned next_url
  follow_link-IsPinned next_url params next_params none h = cc
  follow_link-IsPinned next_url params next_params (some (text link)) h =
      text-IsPinned (is_empty link) link next_url params next_params h
  follow_link-IsPinned next_url params next_params (some null) h = cc
  follow_link-IsPinned next_url params next_params (some (bool b)) h =
      no_turn b _ next_url next_params h
  follow_link-IsPinned next_url params next_params (some (num n)) h =
      no_turn (truthy (num n)) _ next_url next_params h
  follow_link-IsPinned next_url params next_params (some (arr vs)) h =
      no_turn (truthy (arr vs)) _ next_url next_params h
  follow_link-IsPinned next_url params next_params (some (obj fs)) h =
      no_turn (truthy (obj fs)) _ next_url next_params h

  turned-IsPinned :
      (b : Bool) (url next_url : String) (params next_params nxt : Fields)
      → IsPinned url
      → (if b
          then follow_link world recipe params (get "__link__" nxt)
          else ok (turn url (merge params nxt)))
        ≡ ok (turn next_url next_params)
      → IsPinned next_url
  turned-IsPinned true url next_url params next_params nxt pinned h =
      follow_link-IsPinned next_url params next_params (get "__link__" nxt) h
  turned-IsPinned false url next_url params next_params nxt pinned h =
      subst IsPinned (turn-url _ _ _ _ h) pinned

  next_of-IsPinned :
      (url next_url : String) (params next_params : Fields) (nxt : Option Fields)
      → IsPinned url
      → next_of world recipe url params nxt ≡ ok (turn next_url next_params)
      → IsPinned next_url
  unfolding next_of
  next_of-IsPinned url next_url params next_params none pinned h = cc
  next_of-IsPinned url next_url params next_params (some nxt) pinned h =
      turned-IsPinned (contains (field_names nxt) "__link__") url next_url params next_params nxt
        pinned h

  read_page-IsPinned :
      (page : ℕ) (url next_url : String) (params next_params : Fields)
      (prepared : List String × Request) (payload : Json) (rows : List Fields)
      → IsPinned url
      → read_page world recipe book page url params prepared
        ≡ ok (payload, rows, turn next_url next_params)
      → IsPinned next_url
  unfolding read_page
  read_page-IsPinned page url next_url params next_params prepared payload rows pinned h =
      let (answer, _, h1) = >>=-eq-ok (exchange world book page prepared) _ h in
      let (_, h2) = >>-eq-ok (validate_response world recipe answer.0 page) _ h1 in
      let (got, _, h3) = >>=-eq-ok (extract recipe answer.0) _ h2 in
      let (nxt, _, h4) = >>=-eq-ok (next_page_params recipe answer.0 answer.1.link page) _ h3 in
      let (after, followed, last) = >>=-eq-ok (next_of world recipe url params nxt) _ h4 in
      next_of-IsPinned url next_url params next_params nxt pinned
        (followed ∙ ap (λ (x : Json × List Fields × Next). ok x.2) (ok-injective _ _ last))

  after_page-AreFenced :
      (page : ℕ) (rows : List Fields) (first : Json)
      (again : String → Fields → List Fields → Json → Run)
      (r : Result RestError (Json × List Fields × Next))
      → ((payload : Json) (got : List Fields) (url : String) (params : Fields)
          → r ≡ ok (payload, got, turn url params)
          → AreFenced page (again url params (rows ++ got) (first_of first payload)).sent)
      → AreFenced page (after_page rows first again r).sent
  after_page-AreFenced page rows first again (err e) h = tt
  after_page-AreFenced page rows first again (ok (payload, got, exhausted)) h = tt
  after_page-AreFenced page rows first again (ok (payload, got, turn url params)) h =
      h payload got url params refl

  after_prepare-AreFenced :
      (page : ℕ) (r : Result RestError (List String × Request))
      (after : List String × Request → Run)
      → ((prepared : List String × Request)
          → r ≡ ok prepared
          → IsFenced page prepared.1 × AreFenced (suc page) (after prepared).sent)
      → AreFenced page (after_prepare page r after).sent
  after_prepare-AreFenced page (err e) after h = tt
  after_prepare-AreFenced page (ok prepared) after h = h prepared refl

  run_pages-AreFenced :
      (left page : ℕ) (url : String) (params : Fields) (rows : List Fields) (first : Json)
      → IsPinned url
      → AreFenced page (run_pages world recipe book left page url params rows first).sent
  unfolding run_pages
  run_pages-AreFenced zero page url params rows first pinned = tt
  run_pages-AreFenced (suc left) page url params rows first pinned =
      after_prepare-AreFenced page (prepare world recipe url params page) _ (λ (vetted, request) p.
        (
          prepare-IsFenced url params page vetted request pinned p,
          after_page-AreFenced (suc page) rows first (run_pages world recipe book left (suc page)) _
              (λ payload got next_url next_params q.
                run_pages-AreFenced left (suc page) next_url next_params (rows ++ got)
                  (first_of first payload)
                  (read_page-IsPinned page url next_url params next_params (vetted, request) payload
                    got pinned (unscrubbed page _ _ q))),
        ))

  run_pages-length :
      (left page : ℕ) (url : String) (params : Fields) (rows : List Fields) (first : Json)
      → length (run_pages world recipe book left page url params rows first).sent ≤ left
  unfolding run_pages
  run_pages-length zero page url params rows first = omega arith
  run_pages-length (suc left) page url params rows first =
      after_prepare-length left page (prepare world recipe url params page) _ (λ prepared.
        after_page-length left rows first (run_pages world recipe book left (suc page)) _
          (λ next_url next_params more got.
            run_pages-length left (suc page) next_url next_params more got))

  -- The requests that a recipe sends are those of pages 1, 2, 3 and so on, at most `max_pages`. Each goes
  -- to the recipe's URL or to one that `confine_next_url` made of a provider's, and that URL passed the check
  -- of a destination with what name resolution answers at the request's own page.
  pub run_recipe-IsFenced :
      (params : Fields)
      → AreFenced 1 (run_recipe world recipe book params).sent
        × (length (run_recipe world recipe book params).sent ≤ recipe.pagination.max_pages)
  unfolding run_recipe
  run_recipe-IsFenced params =
      fenced (filter (λ k. not (contains (declared_params recipe) k)) (field_names params))
    where
      fenced :
          (ks : List String)
          → AreFenced 1 (given world recipe book ks params).sent
            × (length (given world recipe book ks params).sent ≤ recipe.pagination.max_pages)
      fenced [] = (
        run_pages-AreFenced recipe.pagination.max_pages 1 recipe.url _ [] null (inl refl),
        run_pages-length recipe.pagination.max_pages 1 recipe.url _ [] null,
      )
      fenced (k ∷ ks) = (tt, omega arith)
