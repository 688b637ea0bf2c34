-- ===== src/Rest/Recipes/Book.antt =====
-- drivers/rest/recipes.py: a recipe, and the recipes by their names.
use r64_db_engine.Base.{
  String, Bool, not, ◌||◌, Option, none, some, List, [], ◌∷◌, ◌++◌, contains, any, codes,
  if◌then◌else◌, ◌==◌, string_eq, nat_eq,
}
use r64_db_engine.Base.Results.{Result, ok, err, ◌>>=◌, ◌>>◌, guard}
use r64_db_engine.Base.Dict.{Dict, keys}
use r64_db_engine.Base.Json.{Json, text, obj, Fields, end, field, get, truthy}
use r64_db_engine.Rest.{RestError}
use r64_db_engine.Rest.Texts.{lower}
use r64_db_engine.Rest.Recipes.{Method, get_method, post_method, Recipe}
use r64_db_engine.Rest.Recipes.Parse.{
  BookError, not_a_mapping, not_permitted, duplicate, placeholder, fence, untyped, require,
  reject_unknown, as_mapping, as_text, parse_auth, parse_pagination, parse_extract,
}
use r64_db_engine.Rest.Security.{Urls, assert_https, host_of, assert_host_allowed}

-- `doc.get(key) or {}`, as a mapping
abbrev pub mapping_or_empty : String → Option Json → Result BookError Fields
mapping_or_empty place none = ok end
mapping_or_empty place (some (obj fs)) = ok fs
mapping_or_empty place (some v) = if truthy v then err (untyped place) else ok end

-- `doc.get("params_schema") or {"type": "object", "properties": {}}`
abbrev pub schema_or_default : Option Json → Result BookError Fields
schema_or_default none = ok (field "type" (text "object") (field "properties" (obj end) end))
schema_or_default (some (obj (field k v fs))) = ok (field k v fs)
schema_or_default (some v) =
    if truthy v
    then err (untyped "params_schema")
    else ok (field "type" (text "object") (field "properties" (obj end) end))

-- A `RecipeSecurityError` passes through the loader.
abbrev pub fenced {ℓ} : {A : Type ℓ} → Result RestError A → Result BookError A
fenced (ok a) = ok a
fenced (err e) = err (fence e)

pub method_of : String → Result BookError Method
unfolding lower string_eq
method_of s =
    if lower s == "get"
    then ok get_method
    else if lower s == "post"
    then ok post_method
    else err (not_permitted "method")

-- Whether a brace stands in the URL.
abbrev pub has_brace : String → Bool
unfolding nat_eq
has_brace url = any (λ c. c == b'{' || c == b'}') (codes url)

abbrev pub recipe_keys : List String
recipe_keys =
    "name" ∷ "method" ∷ "url" ∷ "auth" ∷ "params_schema" ∷ "response_schema" ∷ "pagination"
    ∷ "extract" ∷ "static_params" ∷ []

-- The destination of a recipe: its host, after the checks at load.
unfoldable pub pin : Urls → String → Result BookError String
pin urls url = do
  fenced (assert_https urls url)
  allowed_host ← fenced (host_of urls url)
  guard (not (has_brace url)) placeholder
  fenced (assert_host_allowed urls url allowed_host)
  ok allowed_host

unfoldable pub recipe_of : Urls → Fields → Result BookError Recipe
unfolding pin method_of reject_unknown require
recipe_of urls doc = do
  reject_unknown doc recipe_keys "recipe"
  named ← require doc "name" "recipe"
  name ← as_text "name" named
  asked ← require doc "method" "recipe"
  how ← as_text "method" asked
  method ← method_of how
  located ← require doc "url" "recipe"
  url ← as_text "url" located
  allowed_host ← pin urls url
  params_schema ← schema_or_default (get "params_schema" doc)
  admitted ← require doc "response_schema" "recipe"
  response_schema ← as_mapping "response_schema" admitted
  auth ← parse_auth (get "auth" doc)
  pagination ← parse_pagination (get "pagination" doc)
  extracted ← require doc "extract" "recipe"
  extract ← parse_extract extracted
  static_params ← mapping_or_empty "static_params" (get "static_params" doc)
  ok (record {
    name = name;
    method = method;
    url = url;
    allowed_host = allowed_host;
    auth = auth;
    params_schema = params_schema;
    response_schema = response_schema;
    pagination = pagination;
    extract = extract;
    static_params = static_params;
  })

abbrev pub parse_recipe : Urls → Json → Result BookError Recipe
parse_recipe urls (obj doc) = recipe_of urls doc
parse_recipe urls _ = err (not_a_mapping "recipe")

unfoldable pub parse_recipes : Urls → List Json → Result BookError (List Recipe)
unfolding recipe_of
parse_recipes urls [] = ok []
parse_recipes urls (v ∷ vs) = do
  recipe ← parse_recipe urls v
  recipes ← parse_recipes urls vs
  ok (recipe ∷ recipes)

-- `by_name`, over the recipes that are in it already.
unfoldable pub by_name : Dict String Recipe → List Recipe → Result BookError (Dict String Recipe)
by_name known [] = ok known
by_name known (recipe ∷ recipes) = do
  guard (not (contains (keys known) recipe.name)) (duplicate recipe.name)
  by_name (known ++ (recipe.name, recipe) ∷ []) recipes
