-- ===== src/Rest/Engine/Run.antt =====
-- drivers/rest/engine.py: `scrub_boundary`, `run_recipe` and `run_book`. The literals that the
-- scrubber redacts in messages are not modelled.
pub mod Sent
pub mod Complete
pub mod Page
pub mod Expected
use r64_db_engine.Base.{
  ℕ, zero, suc, ◌+◌, String, Bool, true, false, not, Option, none, some, List, [], ◌∷◌, ◌++◌,
  filter, contains, is_empty, if◌then◌else◌, ◌==◌, string_eq,
}
use r64_db_engine.Base.Results.{Result, ok, err, ◌>>=◌, ◌>>◌, guard}
use r64_db_engine.Base.Dict
use r64_db_engine.Base.Dict.{Dict}
use r64_db_engine.Base.Json.{Json, null, text, Fields, end, field, get, field_names, truthy}
use r64_db_engine.Rest.{
  Failure, page_cap, unbound, wrapped, undeclared, schema, RestError, security, execution,
  validation, foreign,
}
use r64_db_engine.Rest.Texts.{partition}
use r64_db_engine.Rest.Recipes.{Recipe, RecipeBook, ThreadStep, declared_params}
use r64_db_engine.Rest.Security.{confine_next_url}
use r64_db_engine.Rest.Engine.{dotted_get, extract, next_page_params, put, merge}
use r64_db_engine.Rest.Engine.Request.{Request, Response, World, prepare, exchange}

-- The engine's own exceptions pass, any other becomes a `RecipeExecutionError` with its text.
abbrev pub scrub_boundary {ℓ} : {A : Type ℓ} → ℕ → Result RestError A → Result RestError A
scrub_boundary page (err (foreign message)) = err (execution (wrapped page message))
scrub_boundary page r = r

unfoldable pub validate_response : World → Recipe → Json → ℕ → Result RestError (Unit {0})
validate_response world recipe payload page =
    elim (world.violation recipe.response_schema payload) [
      | none ↦ ok tt
      | some violation ↦ err (validation (schema page violation))
    ]

-- Where the loop goes after a page: `exhausted`, or the URL and the parameters of the next one.
pub data Next : Type 0 where
  exhausted : Next
  turn : String → Fields → Next

abbrev pub follow_link : World → Recipe → Fields → Option Json → Result RestError Next
follow_link world recipe params (some (text link)) = if is_empty link then ok exhausted else (do
  url ← confine_next_url world.urls link recipe.url recipe.pagination.allowed_next_paths
  ok (turn url params))
follow_link world recipe params (some v) =
    if truthy v then err (foreign "not a URL") else ok exhausted
follow_link world recipe params none = ok exhausted

unfoldable pub next_of : World → Recipe → String → Fields → Option Fields → Result RestError Next
unfolding merge
next_of world recipe url params none = ok exhausted
next_of world recipe url params (some nxt) =
    if contains (field_names nxt) "__link__"
    then follow_link world recipe params (get "__link__" nxt)
    else ok (turn url (merge params nxt))

-- One page under the boundary, from the response on: its payload, its records, and what follows.
unfoldable pub read_page :
    World
    → Recipe
    → RecipeBook
    → ℕ
    → String
    → Fields
    → List String × Request
    → Result RestError (Json × List Fields × Next)
unfolding exchange next_of validate_response
read_page world recipe book page url params prepared = do
  answer ← exchange world book page prepared
  validate_response world recipe answer.0 page
  rows ← extract recipe answer.0
  nxt ← next_page_params recipe answer.0 answer.1.link page
  after ← next_of world recipe url params nxt
  ok (answer.0, rows, after)

-- The outcome of a recipe, with the requests that it sent.
pub record Run : Type 0 where
  pub outcome : Result RestError (List Fields × Json)
  pub sent : List Request

abbrev pub first_of : Json → Json → Json
first_of null payload = payload
first_of first payload = first

abbrev pub raised_before : ℕ → RestError → Run
raised_before page e = record { outcome = scrub_boundary page (err e); sent = [] }

abbrev pub sending : Request → Run → Run
sending request run = record { outcome = run.outcome; sent = request ∷ run.sent }

-- The end of one turn of the loop, with the loop's next turn.
abbrev pub after_page :
    List Fields
    → Json
    → (String → Fields → List Fields → Json → Run)
    → Result RestError (Json × List Fields × Next)
    → Run
after_page records first again (err e) = record { outcome = err e; sent = [] }
after_page records first again (ok (payload, rows, exhausted)) = record {
  outcome = ok (records ++ rows, first_of first payload);
  sent = [];
}
after_page records first again (ok (payload, rows, turn next_url next_params)) =
    again next_url next_params (records ++ rows) (first_of first payload)

abbrev pub after_prepare :
    ℕ → Result RestError (List String × Request) → (List String × Request → Run) → Run
after_prepare page (err e) after = raised_before page e
after_prepare page (ok prepared) after = sending prepared.1 (after prepared)

module _ (world : World) (recipe : Recipe) (book : RecipeBook) where
  -- The loop on the pages, with the number of pages that may still be asked for.
  unfoldable pub run_pages : ℕ → ℕ → String → Fields → List Fields → Json → Run
  unfolding read_page
  run_pages zero page url params records first = record {
    outcome = err (execution (page_cap recipe.pagination.max_pages));
    sent = [];
  }
  run_pages (suc left) page url params records first =
      after_prepare page (prepare world recipe url params page) (λ prepared.
        after_page records first (run_pages left (suc page))
          (scrub_boundary page (read_page world recipe book page url params prepared)))

  abbrev pub given : List String → Fields → Run
  given [] params =
      run_pages recipe.pagination.max_pages 1 recipe.url (merge recipe.static_params params) [] null
  given (k ∷ ks) params = record {
    outcome = err (security (undeclared (k ∷ ks) (declared_params recipe)));
    sent = [];
  }

  unfoldable pub run_recipe : Fields → Run
  unfolding run_pages
  run_recipe params =
      given (filter (λ k. not (contains (declared_params recipe) k)) (field_names params)) params

abbrev payload_of : Dict String Json → String → Json
payload_of payloads producer = elim (Dict.lookup producer payloads) [ none ↦ null | some v ↦ v ]

-- The value that a binding's expression reads.
unfoldable pub bound_value : Dict String Json → String → Json
unfolding partition dotted_get
bound_value payloads expression =
    let (producer, rest) = partition b'.' expression in
    if is_empty rest
    then payload_of payloads producer
    else dotted_get (payload_of payloads producer) rest

abbrev pub bind_one : String → String → Json → Fields → Result RestError Fields
bind_one target expression null params = err (execution (unbound target expression))
bind_one target expression value params = ok (put target value params)

unfoldable pub bind_params :
    Dict String Json → Dict String String → Fields → Result RestError Fields
unfolding bound_value put
bind_params payloads [] params = ok params
bind_params payloads ((target, expression) ∷ bind) params = do
  bound ← bind_one target expression (bound_value payloads expression) params
  bind_params payloads bind bound

abbrev pub recipe_of : Option Recipe → Result RestError Recipe
recipe_of none = err (foreign "KeyError")
recipe_of (some recipe) = ok recipe

-- The loop on the steps; the `i`th one meets the `i`th world.
unfoldable pub run_steps :
    (ℕ → World)
    → RecipeBook
    → ℕ
    → List ThreadStep
    → Dict String Json
    → List Fields
    → Result RestError (List Fields)
unfolding run_recipe bind_params
run_steps worlds book i [] payloads records = ok records
run_steps worlds book i (step ∷ steps) payloads records = do
  recipe ← recipe_of (Dict.lookup step.recipe book.recipes)
  params ← bind_params payloads step.bind step.params
  result ← (run_recipe (worlds i) recipe book params).outcome
  run_steps worlds book (suc i) steps (Dict.insert recipe.name result.1 payloads) result.0

-- `run_book`
unfoldable pub run_book : (ℕ → World) → RecipeBook → Result RestError (List Fields)
unfolding run_steps
run_book worlds book = run_steps worlds book 0 book.threading [] []
