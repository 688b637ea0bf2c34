-- ===== src/Drivers/Postgres/Pulled.antt =====
-- drivers/postgres/driver.py: one bounded pull of a table with an integer cursor and key.
use r64_db_engine.Base.{
  ℕ, suc, String, ◌≡◌, refl, sym, ap, ◌∙◌, true, false, Option, none, some, List, [], ◌∷◌, ◌++◌,
  ◌==◌, string_eq, starts_with_code, contains, filter, take, append-nil,
}
use mathlib.Core.Path.{ap₂, fun_ext, subst}
use r64_db_engine.Base.Results.{ok}
use r64_db_engine.Base.Decimal.{ℤ}
use r64_db_engine.Base.Dict.{keys}
use r64_db_engine.Base.Json.{Json, get}
use r64_db_engine.State.{Watermark}
use r64_db_engine.Config.{incremental}
use r64_db_engine.Drivers.Order.{Value, int}
use r64_db_engine.Drivers.Postgres.{
  JsonText, Condition, row_greater, Query, Database, PullConfig, is_inline_sql, split_qualified,
  quote_ident, fetch_single_primary_key, decode_cursor, cast_watermark,
}
use r64_db_engine.Drivers.Postgres.Pull.{tie_breaker_for, pull}
use r64_db_engine.Drivers.Postgres.BuildQuery.{build_query}
use r64_db_engine.Drivers.Postgres.NewWatermark.{
  cursor_fields, is_float_row, max_value, compute_new_watermark, last_sorted,
}
use r64_db_engine.Drivers.Postgres.Ascending.{
  IsAscending, cursor_cells, last, lt_cursor, last_sorted_ascending, bigger_ascending,
  filter-before, take-IsAscending, append-IsAscending,
}

-- An incremental table with an integer cursor, at most `suc m` rows to a pull.
abbrev pub bounded_table : String → String → ℕ → PullConfig
bounded_table source key m = record {
  source = source;
  mode = incremental;
  incremental_key = some key;
  incremental_type = "int";
  max_rows = some (suc m);
}

-- `SELECT * FROM source [WHERE …] ORDER BY key, tie ASC LIMIT …`
abbrev pub bounded_query : String → String → String → ℕ → Option Condition → Query
bounded_query source key tie m condition = record {
  source = quote_ident source;
  condition = condition;
  order_by = key ∷ tie ∷ [];
  limit = some (suc m);
}

-- A server on which the table holds `rows`, in the order of its cursor and its primary key, which
-- are integers and never null, and whose columns are not all numbers with a float among them, since
-- then the driver would read the key as a float; it answers the two queries as SQL has it. And
-- Python's `json`.
pub record Serves (json : JsonText) (db : Database) (source key tie : String) (m : ℕ)
    (k t : db.Row → ℤ) (rows : List db.Row) : Type 0 where
  pub dumps-brace :
      (a b : ℤ)
      → starts_with_code (json.dumps (cursor_fields (Watermark.number a) (Json.num b))) b'{' ≡ true
  pub loads-dumps :
      (a b : ℤ)
      → let fs = cursor_fields (Watermark.number a) (Json.num b) in
        json.loads (json.dumps fs) ≡ some (Json.obj fs)
  pub plain : is_inline_sql source ≡ false
  pub keyed : fetch_single_primary_key db (split_qualified source) ≡ some tie
  pub named : (key == "") ≡ false
  pub has_key : contains (keys (db.columns (quote_ident source))) key ≡ true
  pub exact : is_float_row (db.columns (quote_ident source)) ≡ false
  pub key_cell : (r : db.Row) → db.cell key r ≡ int (k r)
  pub tie_cell : (r : db.Row) → db.cell tie r ≡ int (t r)
  pub ascending : IsAscending k t rows
  pub select_first : db.select (bounded_query source key tie m none) ≡ take (suc m) rows
  pub select_after :
      (a b : ℤ)
      → db.select
          (bounded_query source key tie m (some (row_greater key tie (Json.num a) (Json.num b))))
        ≡ take (suc m) (filter (λ r. lt_cursor a b (k r) (t r)) rows)

module _ (json : JsonText) (isoformat : ℕ → String) (db : Database) (source key tie : String)
    (m : ℕ) (k t : db.Row → ℤ) {rows : List db.Row}
    (s : Serves json db source key tie m k t rows) where
  abbrev cfg : PullConfig
  cfg = bounded_table source key m

  -- The cursor of a row, and of the rows that were delivered.
  abbrev pub row_cursor : db.Row → Watermark
  row_cursor r =
      Watermark.text (json.dumps (cursor_fields (Watermark.number (k r)) (Json.num (t r))))

  abbrev pub cursor_after : List db.Row → Option Watermark
  cursor_after [] = none
  cursor_after (r ∷ rs) = some (row_cursor (last r rs))

  tie_breaker_found : tie_breaker_for json isoformat db cfg ≡ ok (some tie)
  unfolding tie_breaker_for
  tie_breaker_found = rw (s.plain, s.keyed)

  decode_cursor-row_cursor :
      (r : db.Row)
      → decode_cursor json (row_cursor r) "int" ≡ ok (some (Json.num (k r), Json.num (t r)))
  unfolding decode_cursor cast_watermark get string_eq
  decode_cursor-row_cursor r = rw (s.dumps-brace (k r) (t r), s.loads-dumps (k r) (t r))

  first_query : build_query json cfg none (some tie) ≡ ok (bounded_query source key tie m none)
  unfolding build_query
  first_query = rw (s.named, s.plain)

  next_query :
      (r : db.Row)
      → build_query json cfg (some (row_cursor r)) (some tie)
        ≡ ok (
            bounded_query source key tie m
              (some (row_greater key tie (Json.num (k r)) (Json.num (t r)))))
  unfolding build_query
  next_query r = rw (s.named, decode_cursor-row_cursor r, s.plain)

  max_value-last :
      (r : db.Row) (rs : List db.Row)
      → IsAscending k t (r ∷ rs)
      → max_value json isoformat db key (r ∷ rs) ≡ int (k (last r rs))
  max_value-last r [] h = rw (s.key_cell r)
  max_value-last r (q ∷ rs) h =
      rw (max_value-last q rs h.1, s.key_cell r) (bigger_ascending k t r q rs h)

  cells :
      ◌≡◌ {A = db.Row → Value × Value}
        (λ row. (db.cell key row, db.cell tie row))
        (cursor_cells k t)
  cells = fun_ext (λ r. ap₂ (λ (a b : Value). (a, b)) (s.key_cell r) (s.tie_cell r))

  last-row :
      (r : db.Row) (rs : List db.Row)
      → IsAscending k t (r ∷ rs)
      → db.cell tie (last_sorted (λ row. (db.cell key row, db.cell tie row)) r rs)
        ≡ int (t (last r rs))
  last-row r rs h =
      ap (λ (by : db.Row → Value × Value). db.cell tie (last_sorted by r rs)) cells
      ∙ ap (λ (q : db.Row). db.cell tie q) (last_sorted_ascending k t r rs h)
      ∙ s.tie_cell (last r rs)

  -- A batch in the order of the query leaves the cursor of its last row.
  compute_batch :
      (previous : Option Watermark) (r : db.Row) (rs : List db.Row)
      → IsAscending k t (r ∷ rs)
      → compute_new_watermark json isoformat db cfg
          (db.columns (quote_ident source))
          (r ∷ rs)
          previous
          (some tie)
        ≡ ok (some (row_cursor (last r rs)))
  unfolding compute_new_watermark string_eq
  compute_batch previous r rs h =
      rw (s.named, s.has_key, max_value-last r rs h, s.exact, last-row r rs h)

  compute_empty :
      (previous : Option Watermark)
      → compute_new_watermark json isoformat db cfg
          (db.columns (quote_ident source))
          []
          previous
          (some tie)
        ≡ ok previous
  unfolding compute_new_watermark
  compute_empty previous = rw s.named

  compute_after :
      (done batch : List db.Row)
      → IsAscending k t batch
      → compute_new_watermark json isoformat db cfg
          (db.columns (quote_ident source))
          batch
          (cursor_after done)
          (some tie)
        ≡ ok (cursor_after (done ++ batch))
  compute_after done (r ∷ rs) h =
      compute_batch (cursor_after done) r rs h ∙ ap (λ (w : Option Watermark). ok w) (at done r)
    where
      last_append : (x : db.Row) (xs : List db.Row) (y : db.Row) → last x (xs ++ y ∷ rs) ≡ last y rs
      last_append x [] y = refl
      last_append x (z ∷ xs) y = last_append z xs y

      at :
          (ds : List db.Row) (y : db.Row)
          → some (row_cursor (last y rs)) ≡ cursor_after (ds ++ y ∷ rs)
      at [] y = refl
      at (x ∷ ds) y = ap (λ (q : db.Row). some (row_cursor q)) (sym (last_append x ds y))
  compute_after done [] h = rw append-nil (compute_empty (cursor_after done))

  -- What a pull does whose query and batch are known.
  pull_of :
      (previous : Option Watermark) (c : Option Condition) (batch : List db.Row)
      (w : Option Watermark)
      → build_query json cfg previous (some tie) ≡ ok (bounded_query source key tie m c)
      → db.select (bounded_query source key tie m c) ≡ batch
      → compute_new_watermark json isoformat db cfg
          (db.columns (quote_ident source))
          batch
          previous
          (some tie)
        ≡ ok w
      → pull json isoformat db cfg previous ≡ ok (batch, w)
  unfolding pull
  pull_of previous c batch w query selected computed =
      rw (tie_breaker_found, query, selected, computed)

  abbrev front : db.Row → List db.Row → List db.Row
  front r [] = []
  front r (q ∷ rs) = r ∷ front q rs

  front-last :
      (r : db.Row) (rs rest : List db.Row) → (r ∷ rs) ++ rest ≡ front r rs ++ last r rs ∷ rest
  front-last r [] rest = refl
  front-last r (q ∷ rs) rest = ap (λ (xs : List db.Row). r ∷ xs) (front-last q rs rest)

  selected_after :
      (r : db.Row) (done rest : List db.Row)
      → rows ≡ (r ∷ done) ++ rest
      → let l = last r done in filter (λ q. lt_cursor (k l) (t l) (k q) (t q)) rows ≡ rest
  selected_after r done rest h =
      let l = last r done in
      let split = h ∙ front-last r done rest in
      ap (λ (xs : List db.Row). filter (λ q. lt_cursor (k l) (t l) (k q) (t q)) xs) split
      ∙ filter-before k t (front r done) l rest (subst (IsAscending k t) split s.ascending)

  -- The next pull, when the rows of `done` are delivered and those of `rest` are not.
  pub pull_next :
      (done rest : List db.Row)
      → rows ≡ done ++ rest
      → pull json isoformat db cfg (cursor_after done)
        ≡ ok (take (suc m) rest, cursor_after (done ++ take (suc m) rest))
  pull_next done rest h = go done h
    where
      batch : List db.Row
      batch = take (suc m) rest

      sorted : (ds : List db.Row) → rows ≡ ds ++ rest → IsAscending k t batch
      sorted ds e =
          take-IsAscending k t (suc m) rest
            (append-IsAscending k t ds rest (subst (IsAscending k t) e s.ascending))

      go :
          (ds : List db.Row)
          → rows ≡ ds ++ rest
          → pull json isoformat db cfg (cursor_after ds) ≡ ok (batch, cursor_after (ds ++ batch))
      go [] e =
          pull_of none none batch (cursor_after batch) first_query
            (s.select_first ∙ ap (λ (xs : List db.Row). take (suc m) xs) e)
            (compute_after [] batch (sorted [] e))
      go (r ∷ ds) e =
          let l = last r ds in
          pull_of (some (row_cursor l))
            (some (row_greater key tie (Json.num (k l)) (Json.num (t l)))) batch
            (cursor_after ((r ∷ ds) ++ batch)) (next_query l)
            (s.select_after (k l) (t l)
              ∙ ap (λ (xs : List db.Row). take (suc m) xs) (selected_after r ds rest e))
            (compute_after (r ∷ ds) batch (sorted (r ∷ ds) e))
