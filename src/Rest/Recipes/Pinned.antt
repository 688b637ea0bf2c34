-- ===== src/Rest/Recipes/Pinned.antt =====
-- drivers/rest/recipes.py: what a recipe that is accepted satisfies.
use mathlib.Core.Path.{subst}
use r64_db_engine.Base.{
  String, ◌≡◌, refl, ap, ◌∙◌, Bool, true, false, not, List, [], ◌∷◌, All, string_eq,
}
use r64_db_engine.Base.Results.{
  Result, ok, err, guard, >>=-eq-ok, >>-eq-ok, guard-eq-ok, ok-injective,
}
use r64_db_engine.Base.Json.{Json, null, bool, num, text, arr, obj, Fields, get}
use r64_db_engine.Rest.{RestError}
use r64_db_engine.Rest.Recipes.{Recipe}
use r64_db_engine.Rest.Recipes.Parse.{
  placeholder, reject_unknown, require, as_text, as_mapping, parse_auth, parse_pagination,
  parse_extract,
}
use r64_db_engine.Rest.Recipes.Paginated.{HasParams, parse_pagination-HasParams}
use r64_db_engine.Rest.Recipes.Book.{
  mapping_or_empty, schema_or_default, fenced, method_of, has_brace, recipe_keys, pin, recipe_of,
  parse_recipe, parse_recipes,
}
use r64_db_engine.Rest.Security.{Urls, assert_https, host_of, assert_host_allowed}

-- A recipe whose URL is pinned to its host, with a pagination that can be followed.
pub record IsLoadedRecipe (urls : Urls) (r : Recipe) : Type 0 where
  pub https : assert_https urls r.url ≡ ok tt
  pub host : host_of urls r.url ≡ ok r.allowed_host
  pub no_placeholder : has_brace r.url ≡ false
  pub followed : HasParams r.pagination

unfenced : (m : Result RestError (Unit {0})) → fenced m ≡ ok tt → m ≡ ok tt
unfenced (ok tt) h = refl
unfenced (err e) h = cc

unfenced_text : (m : Result RestError String) (s : String) → fenced m ≡ ok s → m ≡ ok s
unfenced_text (ok t) s h = ap (λ (x : String). ok x) (ok-injective _ _ h)
unfenced_text (err e) s h = cc

pub negated : (b : Bool) → not b ≡ true → b ≡ false
negated true h = cc
negated false h = refl

-- What `pin` checks of a recipe's URL.
pin-checks :
    (urls : Urls) (url allowed_host : String)
    → pin urls url ≡ ok allowed_host
    → (assert_https urls url ≡ ok tt)
      × (host_of urls url ≡ ok allowed_host)
      × (has_brace url ≡ false)
unfolding pin
pin-checks urls url allowed_host h =
    let (https, h1) = >>-eq-ok (fenced (assert_https urls url)) _ h in
    let (host, read, h2) = >>=-eq-ok (fenced (host_of urls url)) _ h1 in
    let (plain, h3) = >>-eq-ok (guard (not (has_brace url)) placeholder) _ h2 in
    let (_, last) = >>-eq-ok (fenced (assert_host_allowed urls url host)) _ h3 in
    (
      unfenced _ https,
      unfenced_text (host_of urls url) host read
          ∙ ap (λ (x : String). ok x) (ok-injective _ _ last),
      negated _ (guard-eq-ok _ _ plain),
    )

recipe_of-IsLoadedRecipe :
    (urls : Urls) (doc : Fields) (r : Recipe) → recipe_of urls doc ≡ ok r → IsLoadedRecipe urls r
unfolding recipe_of
recipe_of-IsLoadedRecipe urls doc r h =
    let (_, h1) = >>-eq-ok (reject_unknown doc recipe_keys "recipe") _ h in
    let (named, _, h2) = >>=-eq-ok (require doc "name" "recipe") _ h1 in
    let (_, _, h3) = >>=-eq-ok (as_text "name" named) _ h2 in
    let (asked, _, h4) = >>=-eq-ok (require doc "method" "recipe") _ h3 in
    let (how, _, h5) = >>=-eq-ok (as_text "method" asked) _ h4 in
    let (_, _, h6) = >>=-eq-ok (method_of how) _ h5 in
    let (located, _, h7) = >>=-eq-ok (require doc "url" "recipe") _ h6 in
    let (url, _, h8) = >>=-eq-ok (as_text "url" located) _ h7 in
    let (allowed_host, pinned, h9) = >>=-eq-ok (pin urls url) _ h8 in
    let (_, _, h10) = >>=-eq-ok (schema_or_default (get "params_schema" doc)) _ h9 in
    let (admitted, _, h11) = >>=-eq-ok (require doc "response_schema" "recipe") _ h10 in
    let (_, _, h12) = >>=-eq-ok (as_mapping "response_schema" admitted) _ h11 in
    let (_, _, h13) = >>=-eq-ok (parse_auth (get "auth" doc)) _ h12 in
    let (pagination, paged, h14) = >>=-eq-ok (parse_pagination (get "pagination" doc)) _ h13 in
    let (extracted, _, h15) = >>=-eq-ok (require doc "extract" "recipe") _ h14 in
    let (_, _, h16) = >>=-eq-ok (parse_extract extracted) _ h15 in
    let (_, _, last) =
      >>=-eq-ok (mapping_or_empty "static_params" (get "static_params" doc)) _ h16 in
    let (https, host, plain) = pin-checks urls url allowed_host pinned in
    subst (IsLoadedRecipe urls) (ok-injective _ _ last) (record {
      https = https;
      host = host;
      no_placeholder = plain;
      followed = parse_pagination-HasParams (get "pagination" doc) pagination paged;
    })

parse_recipe-IsLoadedRecipe :
    (urls : Urls) (v : Json) (r : Recipe) → parse_recipe urls v ≡ ok r → IsLoadedRecipe urls r
parse_recipe-IsLoadedRecipe urls (obj doc) r h = recipe_of-IsLoadedRecipe urls doc r h
parse_recipe-IsLoadedRecipe urls null r h = cc
parse_recipe-IsLoadedRecipe urls (bool b) r h = cc
parse_recipe-IsLoadedRecipe urls (num n) r h = cc
parse_recipe-IsLoadedRecipe urls (text s) r h = cc
parse_recipe-IsLoadedRecipe urls (arr vs) r h = cc

pub parse_recipes-All :
    (urls : Urls) (vs : List Json) (rs : List Recipe)
    → parse_recipes urls vs ≡ ok rs
    → All (IsLoadedRecipe urls) rs
unfolding parse_recipes
parse_recipes-All urls [] rs h = subst (All (IsLoadedRecipe urls)) (ok-injective _ _ h) tt
parse_recipes-All urls (v ∷ vs) rs h =
    let (r, first, h1) = >>=-eq-ok (parse_recipe urls v) _ h in
    let (others, rest, last) = >>=-eq-ok (parse_recipes urls vs) _ h1 in
    subst (All (IsLoadedRecipe urls)) (ok-injective _ _ last)
      (parse_recipe-IsLoadedRecipe urls v r first, parse_recipes-All urls vs others rest)
