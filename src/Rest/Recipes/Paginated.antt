-- ===== src/Rest/Recipes/Paginated.antt =====
-- drivers/rest/recipes.py: what a pagination that `parse_pagination` accepts satisfies.
use mathlib.Core.Path.{subst}
use r64_db_engine.Base.{
  ℕ, zero, suc, ◌≤◌, String, ◌≡◌, sym, true, not, ◌&&◌, Option, none, some, string_eq, arith,
}
use r64_db_engine.Base.Results.{ok, guard, >>=-eq-ok, >>-eq-ok, guard-eq-ok, ok-injective}
use r64_db_engine.Base.Decimal.{ℤ, pos, negsuc}
use r64_db_engine.Base.Json.{Json, null, bool, num, text, arr, obj, Fields, get}
use r64_db_engine.Rest.Recipes.{PaginationType, single, cursor, page, link_header, Pagination}
use r64_db_engine.Rest.Recipes.Parse.{
  not_permitted, required, reject_unknown, as_text, optional_text, present, or_else, to_int,
  at_least_one, check_keys, pagination_type, is_link_header, next_paths, optional_int,
  pagination_keys, pagination_of, no_pagination, parse_pagination,
}

-- The parameter that a type of pagination sends is named.
pub record HasParams (p : Pagination) : Type 0 where
  pub cursor_named : p.type ≡ cursor → (param : String) × (p.cursor_param ≡ some param)
  pub page_named : p.type ≡ page → (param : String) × (p.page_param ≡ some param)
  pub some_pages : 1 ≤ p.max_pages

is_text :
    (place : String) (o : Option Json) (x : Option String)
    → present o ≡ true
    → optional_text place o ≡ ok x
    → (s : String) × (x ≡ some s)
is_text place none x h k = cc
is_text place (some null) x h k = cc
is_text place (some (text s)) x h k = (s, sym (ok-injective _ _ k))
is_text place (some (bool b)) x h k = cc
is_text place (some (num n)) x h k = cc
is_text place (some (arr vs)) x h k = cc
is_text place (some (obj fs)) x h k = cc

cursor_present :
    (type : PaginationType) (doc : Fields)
    → type ≡ cursor
    → check_keys type doc ≡ ok tt
    → present (get "cursor_param" doc) ≡ true
unfolding check_keys
cursor_present single doc e h = cc
cursor_present cursor doc e h =
    let (_, second) =
      >>-eq-ok (guard (present (get "cursor_path" doc)) (required "pagination.cursor_path")) _ h in
    guard-eq-ok _ _ second
cursor_present page doc e h = cc
cursor_present link_header doc e h = cc

page_present :
    (type : PaginationType) (doc : Fields)
    → type ≡ page
    → check_keys type doc ≡ ok tt
    → present (get "page_param" doc) ≡ true
unfolding check_keys
page_present single doc e h = cc
page_present cursor doc e h = cc
page_present page doc e h = guard-eq-ok _ _ h
page_present link_header doc e h = cc

at_least_one-le : (place : String) (z : ℤ) (n : ℕ) → at_least_one place z ≡ ok n → 1 ≤ n
unfolding at_least_one
at_least_one-le place (pos zero) n h = cc
at_least_one-le place (pos (suc m)) n h = subst (λ x. 1 ≤ x) (ok-injective _ _ h) (omega arith)
at_least_one-le place (negsuc m) n h = cc

pagination_of-HasParams : (doc : Fields) (p : Pagination) → pagination_of doc ≡ ok p → HasParams p
unfolding pagination_of
pagination_of-HasParams doc p h =
    let (_, h1) = >>-eq-ok (reject_unknown doc pagination_keys "pagination") _ h in
    let (type, _, h2) = >>=-eq-ok (pagination_type (or_else (get "type" doc) (text "none"))) _ h1 in
    let (checked, h3) = >>-eq-ok (check_keys type doc) _ h2 in
    let (_, h4) =
      >>-eq-ok
        (guard (not (present (get "allowed_next_paths" doc) && not (is_link_header type)))
          (not_permitted "pagination.allowed_next_paths"))
        _ h3 in
    let (paths, _, h5) = >>=-eq-ok (next_paths (get "allowed_next_paths" doc)) _ h4 in
    let (asked, _, h6) =
      >>=-eq-ok (to_int "pagination.max_pages" (or_else (get "max_pages" doc) (num (pos 100)))) _
        h5 in
    let (max_pages, bounded, h7) = >>=-eq-ok (at_least_one "pagination.max_pages" asked) _ h6 in
    let (_, _, h8) =
      >>=-eq-ok (optional_text "pagination.cursor_path" (get "cursor_path" doc)) _ h7 in
    let (cursor_param, read_cursor, h9) =
      >>=-eq-ok (optional_text "pagination.cursor_param" (get "cursor_param" doc)) _ h8 in
    let (page_param, read_page, h10) =
      >>=-eq-ok (optional_text "pagination.page_param" (get "page_param" doc)) _ h9 in
    let (_, _, h11) =
      >>=-eq-ok (optional_text "pagination.size_param" (get "size_param" doc)) _ h10 in
    let (_, _, h12) = >>=-eq-ok (optional_int "pagination.page_size" (get "page_size" doc)) _ h11 in
    let (_, _, h13) =
      >>=-eq-ok (as_text "pagination.rel" (or_else (get "rel" doc) (text "next"))) _ h12 in
    subst HasParams (ok-injective _ _ h13) (record {
      cursor_named = λ e.
          is_text "pagination.cursor_param" (get "cursor_param" doc) cursor_param
            (cursor_present type doc e checked) read_cursor;
      page_named = λ e.
          is_text "pagination.page_param" (get "page_param" doc) page_param
            (page_present type doc e checked) read_page;
      some_pages = at_least_one-le "pagination.max_pages" asked max_pages bounded;
    })

single-HasParams : HasParams no_pagination
single-HasParams = record { cursor_named = λ e. cc; page_named = λ e. cc; some_pages = omega arith }

-- A pagination that is accepted allows at least one page, and names the parameter that its type sends.
pub parse_pagination-HasParams :
    (o : Option Json) (p : Pagination) → parse_pagination o ≡ ok p → HasParams p
unfolding parse_pagination
parse_pagination-HasParams none p h = subst HasParams (ok-injective _ _ h) single-HasParams
parse_pagination-HasParams (some null) p h = subst HasParams (ok-injective _ _ h) single-HasParams
parse_pagination-HasParams (some (obj doc)) p h = pagination_of-HasParams doc p h
parse_pagination-HasParams (some (bool b)) p h = cc
parse_pagination-HasParams (some (num n)) p h = cc
parse_pagination-HasParams (some (text s)) p h = cc
parse_pagination-HasParams (some (arr vs)) p h = cc
