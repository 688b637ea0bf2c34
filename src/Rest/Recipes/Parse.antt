-- ===== src/Rest/Recipes/Parse.antt =====
-- drivers/rest/recipes.py: the parts of a recipe. The document's keys are texts; a value of a type
-- that a dataclass does not declare is an error of the model's own, `untyped`, where the source
-- keeps the value.
use r64_db_engine.Base.{
  ℕ, suc, String, Bool, true, false, not, ◌&&◌, Option, none, some, List, [], ◌∷◌, filter, contains,
  starts_with_code, if◌then◌else◌, ◌==◌, string_eq, nat_eq,
}
use r64_db_engine.Base.Results.{Result, ok, err, ◌>>=◌, ◌>>◌, guard}
use r64_db_engine.Base.Decimal.{ℤ, pos, int}
use r64_db_engine.Base.Json.{
  Json, null, bool, num, text, arr, obj, Fields, get, field_names, items, truthy,
}
use r64_db_engine.Rest.{RestError}
use r64_db_engine.Rest.Recipes.{
  AuthType, none_auth, header, query, PaginationType, single, cursor, page, link_header, Shape,
  records, columnar, Auth, Pagination, Extract,
}

-- `RecipeBookError`, with the place that its message names; `fence` is a `RecipeSecurityError`.
pub data BookError : Type 0 where
  missing_key : String → String → BookError
  unknown : String → List String → BookError
  not_a_mapping : String → BookError
  not_permitted : String → BookError
  required : String → BookError
  out_of_range : String → BookError
  duplicate : String → BookError
  not_defined : String → BookError
  not_declared : List String → BookError
  not_run : String → BookError
  placeholder : BookError
  fence : RestError → BookError
  untyped : String → BookError

unfoldable pub require : Fields → String → String → Result BookError Json
require doc key place = elim (get key doc) [ none ↦ err (missing_key place key) | some v ↦ ok v ]

abbrev pub none_unknown : String → List String → Result BookError (Unit {0})
none_unknown place [] = ok tt
none_unknown place (k ∷ ks) = err (unknown place (k ∷ ks))

unfoldable pub reject_unknown : Fields → List String → String → Result BookError (Unit {0})
reject_unknown doc permitted place =
    none_unknown place (filter (λ k. not (contains permitted k)) (field_names doc))

abbrev pub as_mapping : String → Json → Result BookError Fields
as_mapping place (obj fs) = ok fs
as_mapping place _ = err (not_a_mapping place)

abbrev pub as_text : String → Json → Result BookError String
as_text place (text s) = ok s
as_text place _ = err (untyped place)

abbrev pub optional_text : String → Option Json → Result BookError (Option String)
optional_text place none = ok none
optional_text place (some null) = ok none
optional_text place (some (text s)) = ok (some s)
optional_text place (some _) = err (untyped place)

-- `bool(doc.get(key))`
abbrev pub present : Option Json → Bool
present none = false
present (some v) = truthy v

-- `int(v)`
abbrev pub to_int : String → Json → Result BookError ℤ
to_int place (num n) = ok n
to_int place (bool b) = ok (if b then pos 1 else pos 0)
to_int place (text s) = elim (int s) [ none ↦ err (untyped place) | some n ↦ ok n ]
to_int place _ = err (untyped place)

abbrev pub or_else : Option Json → Json → Json
or_else none v = v
or_else (some w) v = w

auth_type : Json → Result BookError AuthType
unfolding string_eq
auth_type (text s) =
    if s == "none"
    then ok none_auth
    else if s == "header"
    then ok header
    else if s == "query"
    then ok query
    else err (not_permitted "auth.type")
auth_type _ = err (not_permitted "auth.type")

abbrev needs_secret : AuthType → Bool
needs_secret none_auth = false
needs_secret _ = true

auth_of : Fields → Result BookError Auth
unfolding auth_type reject_unknown
auth_of doc = do
  reject_unknown doc ("type" ∷ "env_file" ∷ "key_name" ∷ []) "auth"
  type ← auth_type (or_else (get "type" doc) (text "none"))
  guard (not (needs_secret type && not (present (get "env_file" doc)))) (required "auth.env_file")
  guard (not (needs_secret type && not (present (get "key_name" doc)))) (required "auth.key_name")
  env_file ← optional_text "auth.env_file" (get "env_file" doc)
  key_name ← optional_text "auth.key_name" (get "key_name" doc)
  ok (record { type = type; env_file = env_file; key_name = key_name })

unfoldable pub parse_auth : Option Json → Result BookError Auth
unfolding auth_of
parse_auth none = ok (record { type = none_auth; env_file = none; key_name = none })
parse_auth (some null) = ok (record { type = none_auth; env_file = none; key_name = none })
parse_auth (some (obj doc)) = auth_of doc
parse_auth (some _) = err (not_a_mapping "auth")

pub pagination_type : Json → Result BookError PaginationType
unfolding string_eq
pagination_type (text s) =
    if s == "none"
    then ok single
    else if s == "cursor"
    then ok cursor
    else if s == "page"
    then ok page
    else if s == "link-header"
    then ok link_header
    else err (not_permitted "pagination.type")
pagination_type _ = err (not_permitted "pagination.type")

-- The checks on the keys that a type of pagination needs.
unfoldable pub check_keys : PaginationType → Fields → Result BookError (Unit {0})
check_keys cursor doc = do
  guard (present (get "cursor_path" doc)) (required "pagination.cursor_path")
  guard (present (get "cursor_param" doc)) (required "pagination.cursor_param")
check_keys page doc = guard (present (get "page_param" doc)) (required "pagination.page_param")
check_keys _ doc = ok tt

abbrev pub is_link_header : PaginationType → Bool
is_link_header link_header = true
is_link_header _ = false

-- The entries of `allowed_next_paths`, each of which must begin with "/".
absolute_paths : List Json → Result BookError (List String)
unfolding nat_eq
absolute_paths [] = ok []
absolute_paths (v ∷ vs) = do
  path ← as_text "pagination.allowed_next_paths" v
  guard (starts_with_code path b'/') (not_permitted "pagination.allowed_next_paths")
  paths ← absolute_paths vs
  ok (path ∷ paths)

pub next_paths : Option Json → Result BookError (List String)
unfolding absolute_paths
next_paths (some (arr vs)) = absolute_paths (items vs)
next_paths (some v) = if truthy v then err (untyped "pagination.allowed_next_paths") else ok []
next_paths none = ok []

abbrev pub optional_int : String → Option Json → Result BookError (Option ℤ)
optional_int place (some (num n)) = ok (some n)
optional_int place (some null) = ok none
optional_int place none = ok none
optional_int place (some _) = err (untyped place)

-- `max_pages`, which is at least 1
unfoldable pub at_least_one : String → ℤ → Result BookError ℕ
at_least_one place (pos (suc n)) = ok (suc n)
at_least_one place _ = err (out_of_range place)

abbrev pub pagination_keys : List String
pagination_keys =
    "type" ∷ "cursor_path" ∷ "cursor_param" ∷ "page_param" ∷ "size_param" ∷ "page_size" ∷ "rel"
    ∷ "max_pages" ∷ "allowed_next_paths" ∷ []

unfoldable pub pagination_of : Fields → Result BookError Pagination
unfolding pagination_type next_paths reject_unknown int
pagination_of doc = do
  reject_unknown doc pagination_keys "pagination"
  type ← pagination_type (or_else (get "type" doc) (text "none"))
  check_keys type doc
  guard (not (present (get "allowed_next_paths" doc) && not (is_link_header type)))
      (not_permitted "pagination.allowed_next_paths")
  paths ← next_paths (get "allowed_next_paths" doc)
  asked ← to_int "pagination.max_pages" (or_else (get "max_pages" doc) (num (pos 100)))
  max_pages ← at_least_one "pagination.max_pages" asked
  cursor_path ← optional_text "pagination.cursor_path" (get "cursor_path" doc)
  cursor_param ← optional_text "pagination.cursor_param" (get "cursor_param" doc)
  page_param ← optional_text "pagination.page_param" (get "page_param" doc)
  size_param ← optional_text "pagination.size_param" (get "size_param" doc)
  page_size ← optional_int "pagination.page_size" (get "page_size" doc)
  rel ← as_text "pagination.rel" (or_else (get "rel" doc) (text "next"))
  ok (record {
    type = type;
    cursor_path = cursor_path;
    cursor_param = cursor_param;
    page_param = page_param;
    size_param = size_param;
    page_size = page_size;
    rel = rel;
    max_pages = max_pages;
    allowed_next_paths = paths;
  })

abbrev pub no_pagination : Pagination
no_pagination = record {
  type = single;
  cursor_path = none;
  cursor_param = none;
  page_param = none;
  size_param = none;
  page_size = none;
  rel = "next";
  max_pages = 100;
  allowed_next_paths = [];
}

unfoldable pub parse_pagination : Option Json → Result BookError Pagination
unfolding pagination_of
parse_pagination none = ok no_pagination
parse_pagination (some null) = ok no_pagination
parse_pagination (some (obj doc)) = pagination_of doc
parse_pagination (some _) = err (not_a_mapping "pagination")

shape_of : Json → Result BookError Shape
unfolding string_eq
shape_of (text s) =
    if s == "records"
    then ok records
    else if s == "columnar"
    then ok columnar
    else err (not_permitted "extract.shape")
shape_of _ = err (not_permitted "extract.shape")

unfoldable pub parse_extract : Json → Result BookError Extract
unfolding shape_of require reject_unknown
parse_extract (text path) = ok (record { path = path; shape = records })
parse_extract (obj doc) = do
  reject_unknown doc ("path" ∷ "shape" ∷ []) "extract"
  shape ← shape_of (or_else (get "shape" doc) (text "records"))
  found ← require doc "path" "extract"
  path ← as_text "extract.path" found
  ok (record { path = path; shape = shape })
parse_extract _ = err (not_a_mapping "extract")
