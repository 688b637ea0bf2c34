-- ===== src/Rest/Engine.antt =====
-- drivers/rest/engine.py: what is read out of one response.
pub mod Request
pub mod Run
pub mod Columns
pub mod Sound
use r64_db_engine.Base.{
  ℕ, zero, suc, ◌+◌, ◌-◌, String, Bool, true, false, ◌&&◌, ◌||◌, not, Option, none, some, List, [],
  ◌∷◌, ◌++◌, map, all, get_elem?, length, leb, ltb, is_empty, is_space, if◌then◌else◌, ◌==◌, nat_eq,
  string_eq,
}
use r64_db_engine.Base.Results.{Result, ok, err, ◌>>=◌, ◌>>◌, guard}
use r64_db_engine.Base.Decimal.{ℤ, pos, negsuc, int}
use r64_db_engine.Base.Dict.{Dict}
use r64_db_engine.Base.Json.{
  Json, null, num, text, arr, obj, Items, nil, cons, Fields, end, field, get, field_names, items,
  truthy,
}
use r64_db_engine.Rest.{
  Mismatch, absent, not_a_list, not_an_object, no_arrays, lengths_differ, RestError, validation,
  invariant,
}
use r64_db_engine.Rest.Texts.{lower, strip, lstrip, partition, split_on}
use r64_db_engine.Rest.Recipes.{
  PaginationType, single, cursor, page, link_header, Pagination, Shape, records, columnar, Extract,
  Recipe,
}
use r64_db_engine.Rest.Security.{text_of}

-- `current[index]` under the test `-len(current) <= index < len(current)`
unfoldable pub at_index : ℤ → List Json → Option Json
at_index (pos n) vs = get_elem? vs n
at_index (negsuc n) vs = if leb (suc n) (length vs) then get_elem? vs (length vs - suc n) else none

abbrev pub or_null : Option Json → Json
or_null none = null
or_null (some v) = v

index_into : Option ℤ → Json → Json
unfolding at_index
index_into (some i) (arr vs) = or_null (at_index i (items vs))
index_into _ _ = null

-- The `index_text` of each turn of the inner loop: the texts between the closing brackets, the
-- later ones without their opening brackets. An empty rest ends the loop.
unfoldable pub later_indices : List String → List String
unfolding lstrip nat_eq
later_indices [] = []
later_indices (part ∷ []) =
    let t = lstrip (λ c. c == b'[') part in if is_empty t then [] else t ∷ []
later_indices (part ∷ next ∷ parts) = lstrip (λ c. c == b'[') part ∷ later_indices (next ∷ parts)

unfoldable pub index_texts : List String → List String
unfolding later_indices
index_texts [] = []
index_texts (part ∷ []) = if is_empty part then [] else part ∷ []
index_texts (part ∷ next ∷ parts) = part ∷ later_indices (next ∷ parts)

unfoldable pub walk_indices : List String → Json → Json
unfolding index_into int
walk_indices [] current = current
walk_indices (t ∷ ts) current = walk_indices ts (index_into (int t) current)

abbrev field_of : String → Json → Json
field_of k (obj fs) = or_null (get k fs)
field_of k _ = null

-- One turn of the loop on the segments.
unfoldable pub walk_segment : String → Json → Json
unfolding walk_indices index_texts partition split_on
walk_segment raw_segment current =
    let (segment, rest) = partition b'[' raw_segment in
    walk_indices (index_texts (split_on b']' rest))
      (if is_empty segment then current else field_of segment current)

unfoldable pub walk : List String → Json → Json
unfolding walk_segment
walk [] current = current
walk (s ∷ ss) current = walk ss (walk_segment s current)

-- `None` is the document's null.
unfoldable pub dotted_get : Json → String → Json
unfolding walk split_on
dotted_get doc path = walk (split_on b'.' path) doc

unfoldable pub objects : List Json → List Fields
objects [] = []
objects (obj fs ∷ vs) = fs ∷ objects vs
objects (_ ∷ vs) = objects vs

-- The members that are lists.
unfoldable pub array_columns : Fields → Dict String (List Json)
array_columns end = []
array_columns (field k (arr vs) fs) = (k, items vs) ∷ array_columns fs
array_columns (field k _ fs) = array_columns fs

-- `{k: arrays[k][i] for k in arrays}`
unfoldable pub row_at : Dict String (List Json) → ℕ → Fields
row_at [] i = end
row_at ((k, vs) ∷ cs) i = field k (or_null (get_elem? vs i)) (row_at cs i)

-- `range(start, start + n)`
abbrev pub rows_from : Dict String (List Json) → ℕ → ℕ → List Fields
rows_from cs start zero = []
rows_from cs start (suc n) = row_at cs start ∷ rows_from cs (suc start) n

unfoldable pub zip_columns : String → Dict String (List Json) → Result RestError (List Fields)
unfolding row_at nat_eq
zip_columns path [] = err (validation (no_arrays path))
zip_columns path ((k, vs) ∷ cs) =
    if all (λ c. length c.1 == length vs) cs
    then ok (rows_from ((k, vs) ∷ cs) 0 (length vs))
    else err (validation (lengths_differ (map (λ c. length c.1) ((k, vs) ∷ cs))))

pub extract_node : Shape → String → Json → Result RestError (List Fields)
unfolding objects array_columns zip_columns
extract_node _ path null = err (validation (absent path))
extract_node records path (arr vs) = ok (objects (items vs))
extract_node records path _ = err (validation (not_a_list path))
extract_node columnar path (obj fs) = zip_columns path (array_columns fs)
extract_node columnar path _ = err (validation (not_an_object path))

-- `_extract`
unfoldable pub extract : Recipe → Json → Result RestError (List Fields)
unfolding extract_node dotted_get
extract recipe payload =
    extract_node recipe.extract.shape recipe.extract.path (dotted_get payload recipe.extract.path)

abbrev pub is_quote : ℕ → Bool
unfolding nat_eq
is_quote c = c == b'"'

abbrev pub is_angle : ℕ → Bool
unfolding nat_eq
is_angle c = c == b'<' || c == b'>'

-- Whether one of the attributes is `rel`, with the value wanted.
unfoldable pub has_rel : String → List String → Bool
unfolding strip partition lower string_eq
has_rel rel [] = false
has_rel rel (attribute ∷ attributes) =
    let (key, raw) = partition b'=' (strip is_space attribute) in
    (lower (strip is_space key) == "rel" && strip is_quote (strip is_space raw) == rel)
    || has_rel rel attributes

pub link_part : String → List String → Option String
unfolding has_rel strip
link_part rel (target ∷ attribute ∷ attributes) =
    if has_rel rel (attribute ∷ attributes)
    then some (strip is_angle (strip is_space target))
    else none
link_part rel _ = none

first_link : String → List String → Option String
unfolding link_part split_on
first_link rel [] = none
first_link rel (part ∷ parts) = elim (link_part rel (split_on b';' part)) [
  | some url ↦ some url
  | none ↦ first_link rel parts
]

-- `_parse_link_header`
unfoldable pub parse_link_header : String → String → Option String
unfolding first_link split_on
parse_link_header value rel = first_link rel (split_on b',' value)

-- `d[k] = v`, and `{**d, **e}`
unfoldable pub put : String → Json → Fields → Fields
put k v end = field k v end
put k v (field j w fs) = if k == j then field k v fs else field j w (put k v fs)

unfoldable pub merge : Fields → Fields → Fields
unfolding put
merge d end = d
merge d (field k v fs) = merge (put k v d) fs

abbrev pub is_zero : ℤ → Bool
is_zero (pos zero) = true
is_zero _ = false

abbrev pub with_size : Option String → Option ℤ → Fields → Fields
unfolding put
with_size (some p) (some n) fs = if is_empty p || is_zero n then fs else put p (num n) fs
with_size _ _ fs = fs

abbrev pub link_value : Option String → Json
link_value none = null
link_value (some url) = text url

abbrev pub cursor_params : Option String → Json → Result RestError (Option Fields)
cursor_params none value = err (invariant "cursor_param")
cursor_params (some param) value = ok (if truthy value then some (field param value end) else none)

abbrev pub page_params :
    Option String → Option String → Option ℤ → ℕ → Result RestError (Option Fields)
page_params none size_param page_size n = err (invariant "page_param")
page_params (some param) size_param page_size n =
    ok (some (with_size size_param page_size (field param (num (pos (n + 1))) end)))

pub params_by : PaginationType → Pagination → Json → String → ℕ → Result RestError (Option Fields)
unfolding dotted_get parse_link_header put
params_by single p payload link n = ok none
params_by cursor p payload link n =
    cursor_params p.cursor_param (dotted_get payload (text_of p.cursor_path))
params_by page p payload link n = page_params p.page_param p.size_param p.page_size n
params_by link_header p payload link n =
    ok (some (field "__link__" (link_value (parse_link_header link p.rel)) end))

-- `_next_page_params`; `link` is the response's header, or "".
unfoldable pub next_page_params : Recipe → Json → String → ℕ → Result RestError (Option Fields)
unfolding params_by
next_page_params recipe payload link n =
    params_by recipe.pagination.type recipe.pagination payload link n
