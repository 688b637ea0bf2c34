-- ===== src/Rest/Recipes/Threading.antt =====
-- drivers/rest/recipes.py: the steps of a book, each over the recipes and those that have run.
use r64_db_engine.Base.{
  String, not, Option, none, some, List, [], ◌∷◌, ◌++◌, filter, contains, string_eq, nat_eq,
}
use r64_db_engine.Base.Results.{Result, ok, err, ◌>>=◌, ◌>>◌, guard}
use r64_db_engine.Base.Dict
use r64_db_engine.Base.Dict.{Dict, keys}
use r64_db_engine.Base.Json.{Json, obj, Fields, end, field, get, field_names}
use r64_db_engine.Rest.Texts.{partition}
use r64_db_engine.Rest.Recipes.{Recipe, ThreadStep, declared_params}
use r64_db_engine.Rest.Recipes.Parse.{
  BookError, not_defined, not_declared, not_run, untyped, require, reject_unknown, as_text,
}
use r64_db_engine.Rest.Recipes.Book.{mapping_or_empty}

abbrev pub known_recipe : String → Option Recipe → Result BookError Recipe
known_recipe name none = err (not_defined name)
known_recipe name (some recipe) = ok recipe

abbrev pub none_undeclared : List String → Result BookError (Unit {0})
none_undeclared [] = ok tt
none_undeclared (k ∷ ks) = err (not_declared (k ∷ ks))

-- The entries of `bind`, whose expressions are texts.
unfoldable pub bindings : Fields → Result BookError (Dict String String)
bindings end = ok []
bindings (field target v fs) = do
  expression ← as_text "bind" v
  rest ← bindings fs
  ok ((target, expression) ∷ rest)

-- `expression.split(".", 1)[0]`
abbrev pub producer_of : String → String
unfolding partition nat_eq
producer_of expression = (partition b'.' expression).0

unfoldable pub check_producers : List String → Dict String String → Result BookError (Unit {0})
check_producers seen [] = ok tt
check_producers seen ((target, expression) ∷ bind) = do
  guard (contains seen (producer_of expression)) (not_run (producer_of expression))
  check_producers seen bind

-- The step of a mapping, for the recipes and those that have run.
unfoldable pub step_of : Dict String Recipe → List String → Fields → Result BookError ThreadStep
unfolding reject_unknown require bindings check_producers declared_params Dict.lookup
step_of recipes seen doc = do
  reject_unknown doc ("recipe" ∷ "bind" ∷ "params" ∷ []) "threading"
  named ← require doc "recipe" "threading"
  name ← as_text "threading.recipe" named
  recipe ← known_recipe name (Dict.lookup name recipes)
  bound ← mapping_or_empty "threading.bind" (get "bind" doc)
  bind ← bindings bound
  params ← mapping_or_empty "threading.params" (get "params" doc)
  none_undeclared
      (filter (λ k. not (contains (declared_params recipe) k)) (keys bind ++ field_names params))
  check_producers seen bind
  ok (record { recipe = name; bind = bind; params = params })

abbrev pub parse_step : Dict String Recipe → List String → Json → Result BookError ThreadStep
parse_step recipes seen (obj doc) = step_of recipes seen doc
parse_step recipes seen _ = err (untyped "threading")

unfoldable pub parse_steps :
    Dict String Recipe → List String → List Json → Result BookError (List ThreadStep)
unfolding step_of
parse_steps recipes seen [] = ok []
parse_steps recipes seen (v ∷ vs) = do
  step ← parse_step recipes seen v
  steps ← parse_steps recipes (step.recipe ∷ seen) vs
  ok (step ∷ steps)
