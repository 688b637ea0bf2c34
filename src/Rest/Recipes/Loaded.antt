-- ===== src/Rest/Recipes/Loaded.antt =====
-- drivers/rest/recipes.py: what a book that `parse_book` accepts satisfies.
use mathlib.Core.Path.{subst}
use r64_db_engine.Base.{◌≡◌, [], ◌∷◌, string_eq}
use r64_db_engine.Base.Results.{ok, >>=-eq-ok, >>-eq-ok, ok-injective}
use r64_db_engine.Base.Json.{Json, null, bool, num, text, arr, obj, Fields, get}
use r64_db_engine.Rest.Recipes.{RecipeBook}
use r64_db_engine.Rest.Recipes.Parse.{reject_unknown, require, as_text}
use r64_db_engine.Rest.Recipes.Book.{parse_recipes, by_name}
use r64_db_engine.Rest.Recipes.Threading.{parse_steps}
use r64_db_engine.Rest.Recipes.Load.{
  raw_threading, parse_limits, parse_output, recipe_list, last_of, book_of, parse_book,
}
use r64_db_engine.Rest.Security.{Urls}
use r64_db_engine.Rest.Recipes.Pinned.{parse_recipes-All}
use r64_db_engine.Rest.Recipes.Named.{HasDistinctNames, AllRecipes, by_name-distinct}
use r64_db_engine.Rest.Recipes.Ordered.{IsOrdered, parse_steps-IsOrdered}

pub record IsLoaded (urls : Urls) (book : RecipeBook) : Type 0 where
  pub distinct : HasDistinctNames book.recipes
  pub recipes : AllRecipes urls book.recipes
  pub ordered : IsOrdered book.recipes [] book.threading

book_of-IsLoaded :
    (urls : Urls) (doc : Fields) (book : RecipeBook)
    → book_of urls doc ≡ ok book
    → IsLoaded urls book
unfolding book_of
book_of-IsLoaded urls doc book h =
    let (_, h1) =
      >>-eq-ok
        (reject_unknown doc ("dataset" ∷ "recipes" ∷ "threading" ∷ "output" ∷ "limits" ∷ [])
          "recipe book")
        _ h in
    let (listed, _, h2) = >>=-eq-ok (require doc "recipes" "recipe book") _ h1 in
    let (raw_recipes, _, h3) = >>=-eq-ok (recipe_list listed) _ h2 in
    let (parsed, loaded, h4) = >>=-eq-ok (parse_recipes urls raw_recipes) _ h3 in
    let (recipes, named, h5) = >>=-eq-ok (by_name [] parsed) _ h4 in
    let (raw_steps, _, h6) =
      >>=-eq-ok (raw_threading (last_of parsed) (get "threading" doc)) _ h5 in
    let (threading, stepped, h7) = >>=-eq-ok (parse_steps recipes [] raw_steps) _ h6 in
    let (_, _, h8) = >>=-eq-ok (parse_limits (get "limits" doc)) _ h7 in
    let (dataset, _, h9) = >>=-eq-ok (require doc "dataset" "recipe book") _ h8 in
    let (_, _, h10) = >>=-eq-ok (as_text "dataset" dataset) _ h9 in
    let (shown, _, h11) = >>=-eq-ok (require doc "output" "recipe book") _ h10 in
    let (_, _, last) = >>=-eq-ok (parse_output shown) _ h11 in
    let (distinct, all_loaded) =
      by_name-distinct urls [] parsed recipes named tt tt
        (parse_recipes-All urls raw_recipes parsed loaded) in
    subst (IsLoaded urls) (ok-injective _ _ last) (record {
      distinct = distinct;
      recipes = all_loaded;
      ordered = parse_steps-IsOrdered recipes [] raw_steps threading stepped;
    })

-- In a book that is accepted no recipe name stands twice; each recipe is https, pinned to its own host
-- without a placeholder, and its pagination names its parameter and allows a page; each step of the
-- threading names one of the recipes, gives it declared inputs only, and reads only recipes that ran before.
pub parse_book-IsLoaded :
    (urls : Urls) (doc : Json) (book : RecipeBook)
    → parse_book urls doc ≡ ok book
    → IsLoaded urls book
unfolding parse_book
parse_book-IsLoaded urls (obj doc) book h = book_of-IsLoaded urls doc book h
parse_book-IsLoaded urls null book h = cc
parse_book-IsLoaded urls (bool b) book h = cc
parse_book-IsLoaded urls (num n) book h = cc
parse_book-IsLoaded urls (text s) book h = cc
parse_book-IsLoaded urls (arr vs) book h = cc
