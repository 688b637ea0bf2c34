-- ===== src/Tests/Books.antt =====
-- drivers/rest/recipes.py and `run_book` on a book of two steps.
use r64_db_engine.Base.{
  ℕ, String, ◌≡◌, refl, true, Option, none, some, List, arith, [], ◌∷◌, string_eq, nat_eq,
}
use r64_db_engine.Base.Results.{ok, err}
use r64_db_engine.Base.Dict
use r64_db_engine.Base.Json.{Json, null, num, text, arr, obj, Items, nil, cons, Fields, end, field}
use r64_db_engine.Rest.{execution, transport}
use r64_db_engine.Rest.Recipes.{Recipe, RecipeBook, none_auth, get_method, page, records}
use r64_db_engine.Rest.Recipes.Paginated.{HasParams}
use r64_db_engine.Rest.Recipes.Load.{parse_book}
use r64_db_engine.Rest.Recipes.Loaded.{IsLoaded, parse_book-IsLoaded}
use r64_db_engine.Rest.Engine.{next_page_params}
use r64_db_engine.Rest.Engine.Request.{World}
use r64_db_engine.Rest.Engine.Run.{run_book}
use r64_db_engine.Rest.Engine.Run.Expected.{expected, run_book-expected}
use r64_db_engine.Tests.Rests.{urls, net, items_url}

abbrev schema : Json
schema = obj (field "type" (text "object") end)

abbrev params : Json
params = obj (field "properties" (obj (field "id" schema end)) end)

abbrev recipe_doc : String → Json
recipe_doc name = obj (
    field "name" (text name) (
      field "method" (text "get") (
        field "url" (text items_url) (
          field "params_schema" params (
            field "response_schema" schema (
              field "pagination"
                (obj (
                  field "type" (text "cursor")
                    (field "cursor_path" (text "next") (field "cursor_param" (text "after") end))))
                (field "extract" (text "rows") end)))))))

abbrev book_doc : Json
book_doc = obj (
    field "dataset" (text "items") (
      field "recipes" (arr (cons (recipe_doc "first") (cons (recipe_doc "second") nil))) (
        field "threading"
          (arr (
            cons (obj (field "recipe" (text "first") end)) (
              cons
                (obj (
                  field "recipe" (text "second")
                    (field "bind" (obj (field "id" (text "first.rows[0].id") end)) end)))
                nil)))
          (field "output"
            (obj (
              field "columns"
                (arr (
                  cons
                    (obj (
                      field "name" (text "id")
                        (field "from" (text "id") (field "type" (text "int64") end))))
                    nil))
                end))
            end))))

parsed : (book : RecipeBook) × (parse_book urls book_doc ≡ ok book)
unfolding parse_book urls string_eq nat_eq r64_db_engine.Base.Json.get
    r64_db_engine.Rest.Security.assert_https r64_db_engine.Rest.Security.host_of
    r64_db_engine.Rest.Security.assert_host_allowed r64_db_engine.Rest.Texts.canonical
    r64_db_engine.Rest.Recipes.Parse.parse_auth r64_db_engine.Rest.Recipes.Parse.parse_pagination
    r64_db_engine.Rest.Recipes.Parse.check_keys r64_db_engine.Rest.Recipes.Parse.parse_extract
    r64_db_engine.Rest.Recipes.Parse.reject_unknown r64_db_engine.Rest.Recipes.Parse.require
    r64_db_engine.Rest.Recipes.Parse.pagination_of r64_db_engine.Rest.Recipes.Parse.at_least_one
    r64_db_engine.Rest.Recipes.Book.recipe_of r64_db_engine.Rest.Recipes.Book.pin
    r64_db_engine.Rest.Recipes.Book.parse_recipes r64_db_engine.Rest.Recipes.Book.by_name
    r64_db_engine.Rest.Recipes.Threading.bindings
    r64_db_engine.Rest.Recipes.Threading.check_producers
    r64_db_engine.Rest.Recipes.Threading.step_of r64_db_engine.Rest.Recipes.Threading.parse_steps
    r64_db_engine.Rest.Recipes.declared_params r64_db_engine.Rest.Texts.partition
    r64_db_engine.Rest.Texts.lower Dict.lookup r64_db_engine.Rest.Recipes.Load.parse_limits
    r64_db_engine.Rest.Recipes.Load.parse_output
parsed = (_, refl)

parse_book-IsLoaded_example : IsLoaded urls parsed.0
parse_book-IsLoaded_example = parse_book-IsLoaded urls book_doc parsed.0 parsed.1

-- The provider does not answer.
abbrev down : World
down = record {
  urls = urls;
  files = λ f. none;
  net = λ n. net;
  client = λ n request. err "down";
  violation = λ s v. none;
}

not_answered : run_book (λ i. down) parsed.0 ≡ err (execution (transport 1 "down"))
unfolding run_book parsed urls string_eq nat_eq r64_db_engine.Rest.Engine.Request.prepare
    r64_db_engine.Rest.Security.assert_public_host r64_db_engine.Rest.Security.resolve_addresses
    r64_db_engine.Config.Env.sorted_set r64_db_engine.Rest.Security.assert_public_addresses
    r64_db_engine.Rest.Security.assert_public_address r64_db_engine.Rest.Security.category
not_answered = refl

run_book-expected_example : expected (execution (transport 1 "down")) ≡ true
run_book-expected_example =
    run_book-expected urls (λ i. down) parsed.0 (execution (transport 1 "down"))
      parse_book-IsLoaded_example not_answered

abbrev paged : Recipe
paged = record {
  name = "paged";
  method = get_method;
  url = items_url;
  allowed_host = "api.x.io";
  auth = record { type = none_auth; env_file = none; key_name = none };
  params_schema = end;
  response_schema = end;
  pagination = record {
    type = page;
    cursor_path = none;
    cursor_param = none;
    page_param = some "page";
    size_param = none;
    page_size = none;
    rel = "next";
    max_pages = 5;
    allowed_next_paths = [];
  };
  extract = record { path = "rows"; shape = records };
  static_params = end;
}

paged_HasParams : HasParams paged.pagination
paged_HasParams = record {
  cursor_named = λ e. cc;
  page_named = λ e. ("page", refl);
  some_pages = omega arith;
}
