-- ===== src/Rest/Recipes/Load.antt =====
-- drivers/rest/recipes.py: the output columns, the limits, and `parse_book`. Seconds are whole numbers.
use r64_db_engine.Base.{
  String, Option, none, some, List, [], ◌∷◌, if◌then◌else◌, ◌==◌, string_eq, nat_eq,
}
use r64_db_engine.Base.Results.{Result, ok, err, ◌>>=◌, ◌>>◌}
use r64_db_engine.Base.Decimal.{pos, int}
use r64_db_engine.Base.Json.{
  Json, num, text, arr, obj, nil, cons, Fields, end, field, get, items, truthy,
}
use r64_db_engine.Rest.Recipes.{
  Recipe, OutputType, int64, double, string, bool_type, timestamp_us, OutputColumn, RecipeBook,
}
use r64_db_engine.Rest.Recipes.Parse.{
  BookError, not_a_mapping, not_permitted, required, untyped, require, reject_unknown, as_mapping,
  as_text, or_else, to_int, at_least_one,
}
use r64_db_engine.Rest.Security.{Urls}
use r64_db_engine.Rest.Recipes.{Limits}
use r64_db_engine.Rest.Recipes.Book.{mapping_or_empty, parse_recipes, by_name}
use r64_db_engine.Rest.Recipes.Threading.{parse_steps}

pub last_name : Recipe → List Recipe → String
last_name recipe [] = recipe.name
last_name recipe (next ∷ recipes) = last_name next recipes

-- `doc.get("threading") or [{"recipe": recipes[-1].name}]`
unfoldable pub raw_threading : String → Option Json → Result BookError (List Json)
raw_threading last none = ok (obj (field "recipe" (text last) end) ∷ [])
raw_threading last (some (arr (cons v vs))) = ok (v ∷ items vs)
raw_threading last (some v) =
    if truthy v then err (untyped "threading") else ok (obj (field "recipe" (text last) end) ∷ [])

output_type : String → Result BookError OutputType
unfolding string_eq
output_type s =
    if s == "int64"
    then ok int64
    else if s == "double"
    then ok double
    else if s == "string"
    then ok string
    else if s == "bool"
    then ok bool_type
    else if s == "timestamp[us]"
    then ok timestamp_us
    else err (not_permitted "output.type")

abbrev zone_of : OutputType → Json → Result BookError (Option String)
unfolding string_eq
zone_of timestamp_us (text tz) =
    if tz == "UTC" then ok (some tz) else err (not_permitted "output.tz")
zone_of timestamp_us _ = err (not_permitted "output.tz")
zone_of _ _ = ok none

column_of : Fields → Result BookError OutputColumn
unfolding output_type reject_unknown require
column_of doc = do
  reject_unknown doc ("name" ∷ "from" ∷ "type" ∷ "tz" ∷ []) "output"
  typed ← require doc "type" "output"
  spelled ← as_text "output.type" typed
  type ← output_type spelled
  tz ← zone_of type (or_else (get "tz" doc) (text "UTC"))
  named ← require doc "name" "output"
  name ← as_text "output.name" named
  from ← require doc "from" "output"
  source ← as_text "output.from" from
  ok (record { name = name; source = source; type = type; tz = tz })

columns_of : List Json → Result BookError (List OutputColumn)
unfolding column_of
columns_of [] = ok []
columns_of (v ∷ vs) = do
  doc ← as_mapping "output.columns" v
  column ← column_of doc
  columns ← columns_of vs
  ok (column ∷ columns)

abbrev some_columns : Option Json → Result BookError (List OutputColumn)
unfolding columns_of
some_columns (some (arr nil)) = err (required "output.columns")
some_columns (some (arr (cons v vs))) = columns_of (v ∷ items vs)
some_columns _ = err (required "output.columns")

unfoldable pub parse_output : Json → Result BookError (List OutputColumn)
unfolding columns_of
parse_output (obj doc) = some_columns (get "columns" doc)
parse_output _ = err (required "output.columns")

unfoldable pub parse_limits : Option Json → Result BookError Limits
unfolding reject_unknown int at_least_one
parse_limits raw = do
  doc ← mapping_or_empty "limits" raw
  reject_unknown doc ("max_response_bytes" ∷ "timeout_s" ∷ []) "limits"
  bytes ← to_int "limits" (or_else (get "max_response_bytes" doc) (num (pos 33554432)))
  seconds ← to_int "limits" (or_else (get "timeout_s" doc) (num (pos 30)))
  max_response_bytes ← at_least_one "limits" bytes
  timeout_s ← at_least_one "limits" seconds
  ok (record { max_response_bytes = max_response_bytes; timeout_s = timeout_s })

abbrev pub recipe_list : Json → Result BookError (List Json)
recipe_list (arr (cons v vs)) = ok (v ∷ items vs)
recipe_list _ = err (required "recipes")

abbrev pub last_of : List Recipe → String
unfolding last_name
last_of [] = ""
last_of (recipe ∷ recipes) = last_name recipe recipes

-- `parse_book` of a mapping
unfoldable pub book_of : Urls → Fields → Result BookError RecipeBook
unfolding reject_unknown require parse_recipes by_name raw_threading last_name parse_steps
    parse_limits parse_output
book_of urls doc = do
  reject_unknown doc ("dataset" ∷ "recipes" ∷ "threading" ∷ "output" ∷ "limits" ∷ []) "recipe book"
  listed ← require doc "recipes" "recipe book"
  raw_recipes ← recipe_list listed
  parsed ← parse_recipes urls raw_recipes
  recipes ← by_name [] parsed
  raw_steps ← raw_threading (last_of parsed) (get "threading" doc)
  threading ← parse_steps recipes [] raw_steps
  limits ← parse_limits (get "limits" doc)
  named ← require doc "dataset" "recipe book"
  dataset ← as_text "dataset" named
  shown ← require doc "output" "recipe book"
  output ← parse_output shown
  ok (record {
    dataset = dataset;
    recipes = recipes;
    threading = threading;
    output = output;
    limits = limits;
  })

unfoldable pub parse_book : Urls → Json → Result BookError RecipeBook
unfolding book_of
parse_book urls (obj doc) = book_of urls doc
parse_book urls _ = err (not_a_mapping "recipe book")
