-- ===== src/Rest/Recipes/Ordered.antt =====
-- drivers/rest/recipes.py: what the threading of an accepted book satisfies.
use mathlib.Core.Path.{subst}
use r64_db_engine.Base.{
  String, ◌≡◌, refl, true, not, Option, none, some, List, [], ◌∷◌, ◌++◌, filter, contains, All,
  string_eq,
}
use r64_db_engine.Base.Results.{ok, guard, >>=-eq-ok, >>-eq-ok, guard-eq-ok, ok-injective}
use r64_db_engine.Base.Dict
use r64_db_engine.Base.Dict.{Dict, keys}
use r64_db_engine.Base.Json.{Json, null, bool, num, text, arr, obj, Fields, get, field_names}
use r64_db_engine.Rest.Recipes.{Recipe, ThreadStep, declared_params}
use r64_db_engine.Rest.Recipes.Parse.{reject_unknown, require, as_text, not_run}
use r64_db_engine.Rest.Recipes.Book.{mapping_or_empty}
use r64_db_engine.Rest.Recipes.Threading.{
  known_recipe, none_undeclared, bindings, producer_of, check_producers, step_of, parse_step,
  parse_steps,
}

-- Each step names a recipe that is there, gives it declared inputs only, and reads recipes that ran before.
pub record IsReady (recipes : Dict String Recipe) (seen : List String) (step : ThreadStep)
    : Type 0 where
  pub recipe : Recipe
  pub found : Dict.lookup step.recipe recipes ≡ some recipe
  pub declared :
      filter
        (λ k. not (contains (declared_params recipe) k))
        (keys step.bind ++ field_names step.params)
      ≡ []
  pub produced : All (λ b. contains seen (producer_of b.1) ≡ true) step.bind

abbrev pub IsOrdered : Dict String Recipe → List String → List ThreadStep → Type 0
IsOrdered recipes seen [] = Unit
IsOrdered recipes seen (step ∷ steps) =
    IsReady recipes seen step × IsOrdered recipes (step.recipe ∷ seen) steps

known : (name : String) (o : Option Recipe) (r : Recipe) → known_recipe name o ≡ ok r → o ≡ some r
known name none r h = cc
known name (some q) r h = cc

no_undeclared : (ks : List String) → none_undeclared ks ≡ ok tt → ks ≡ []
no_undeclared [] h = refl
no_undeclared (k ∷ ks) h = cc

check_producers-All :
    (seen : List String) (bind : Dict String String)
    → check_producers seen bind ≡ ok tt
    → All (λ b. contains seen (producer_of b.1) ≡ true) bind
unfolding check_producers
check_producers-All seen [] h = tt
check_producers-All seen ((target, expression) ∷ bind) h =
    let (ran, rest) =
      >>-eq-ok (guard (contains seen (producer_of expression)) (not_run (producer_of expression))) _
        h in
    (guard-eq-ok _ _ ran, check_producers-All seen bind rest)

step_of-IsReady :
    (recipes : Dict String Recipe) (seen : List String) (doc : Fields) (step : ThreadStep)
    → step_of recipes seen doc ≡ ok step
    → IsReady recipes seen step
unfolding step_of
step_of-IsReady recipes seen doc step h =
    let (_, h1) =
      >>-eq-ok (reject_unknown doc ("recipe" ∷ "bind" ∷ "params" ∷ []) "threading") _ h in
    let (named, _, h2) = >>=-eq-ok (require doc "recipe" "threading") _ h1 in
    let (name, _, h3) = >>=-eq-ok (as_text "threading.recipe" named) _ h2 in
    let (recipe, found, h4) = >>=-eq-ok (known_recipe name (Dict.lookup name recipes)) _ h3 in
    let (bound, _, h5) = >>=-eq-ok (mapping_or_empty "threading.bind" (get "bind" doc)) _ h4 in
    let (bind, _, h6) = >>=-eq-ok (bindings bound) _ h5 in
    let (params, _, h7) = >>=-eq-ok (mapping_or_empty "threading.params" (get "params" doc)) _ h6 in
    let (inputs, h8) =
      >>-eq-ok
        (none_undeclared (
          filter (λ k. not (contains (declared_params recipe) k))
            (keys bind ++ field_names params)))
        _ h7 in
    let (ran, last) = >>-eq-ok (check_producers seen bind) _ h8 in
    subst (IsReady recipes seen) (ok-injective _ _ last) (record {
      recipe = recipe;
      found = known name (Dict.lookup name recipes) recipe found;
      declared = no_undeclared _ inputs;
      produced = check_producers-All seen bind ran;
    })

parse_step-IsReady :
    (recipes : Dict String Recipe) (seen : List String) (v : Json) (step : ThreadStep)
    → parse_step recipes seen v ≡ ok step
    → IsReady recipes seen step
parse_step-IsReady recipes seen (obj doc) step h = step_of-IsReady recipes seen doc step h
parse_step-IsReady recipes seen null step h = cc
parse_step-IsReady recipes seen (bool b) step h = cc
parse_step-IsReady recipes seen (num n) step h = cc
parse_step-IsReady recipes seen (text s) step h = cc
parse_step-IsReady recipes seen (arr vs) step h = cc

pub parse_steps-IsOrdered :
    (recipes : Dict String Recipe) (seen : List String) (vs : List Json) (steps : List ThreadStep)
    → parse_steps recipes seen vs ≡ ok steps
    → IsOrdered recipes seen steps
unfolding parse_steps
parse_steps-IsOrdered recipes seen [] steps h =
    subst (IsOrdered recipes seen) (ok-injective _ _ h) tt
parse_steps-IsOrdered recipes seen (v ∷ vs) steps h =
    let (step, first, h1) = >>=-eq-ok (parse_step recipes seen v) _ h in
    let (others, rest, last) = >>=-eq-ok (parse_steps recipes (step.recipe ∷ seen) vs) _ h1 in
    subst (IsOrdered recipes seen) (ok-injective _ _ last) (
      parse_step-IsReady recipes seen v step first,
      parse_steps-IsOrdered recipes (step.recipe ∷ seen) vs others rest,
    )
