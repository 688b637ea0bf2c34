-- ===== src/Drivers/ClickHouse.antt =====
-- drivers/clickhouse/driver.py: the text of a pull's query and the watermark that the pull leaves.
-- clickhouse_connect and the server are the parameter `Database`; the rows stand with the cells of the
-- coerced frame, a time stamp prints by `isoformat`. What `pandas_dtype_for` refuses is a parameter.
pub mod Quoted
pub mod Ascend
pub mod Validate
pub mod Validated
use Prim.Native.Char.{code}
use r64_db_engine.Base.{
  ℕ, suc, String, ◌<>◌, Bool, true, false, not, ◌&&◌, ◌||◌, ◌==◌, Option, none, some, List, [], ◌∷◌,
  if◌then◌else◌, string_eq, nat_eq, starts_with, starts_with_code, contains_text, contains,
  is_space, is_empty, map, filter,
}
use r64_db_engine.Base.Results.{Result, ok, err, guard, ◌>>=◌, ◌>>◌}
use r64_db_engine.Base.Decimal.{ℤ, str}
use r64_db_engine.Base.Dict
use r64_db_engine.Base.Dict.{Dict, keys}
use r64_db_engine.Rest.Texts.{lower, strip, split_on, partition, ends_with}
use r64_db_engine.State.{Watermark}
use r64_db_engine.Config.{Mode, incremental, full_refresh}
use r64_db_engine.Drivers.Order.{Value, lt_value}
use r64_db_engine.Drivers.Postgres.BuildQuery.{key_of, limit_clause}
use r64_db_engine.Drivers.Postgres.NewWatermark.{bigger}

-- `ValueError` of an unqualified table, `UnsupportedClickHouseType`
pub data ClickHouseError : Type 0 where
  unqualified : ClickHouseError
  unsupported_type : String → String → ClickHouseError

-- ---- names

-- `identifier.replace("`", "``")`
unfoldable pub double_ticks : String → String
unfolding nat_eq
double_ticks String.[] = ""
double_ticks (String.◌∷◌ c s) =
    let rest = double_ticks s in
    if code c == b'`' then String.◌∷◌ c (String.◌∷◌ c rest) else String.◌∷◌ c rest

unfoldable pub quote_ident : String → String
quote_ident identifier = "`" <> (double_ticks identifier <> "`")

unfoldable pub is_inline_sql : String → Bool
is_inline_sql source =
    let stripped = strip is_space source in
    starts_with (lower stripped) "select " || contains_text "\n" stripped

unfoldable pub is_nullable : String → Bool
is_nullable source_type = starts_with (lower (strip is_space source_type)) "nullable("

abbrev in_database : Option String → String → String
in_database none source = quote_ident source
in_database (some database) source =
    if is_empty database
    then quote_ident source
    else quote_ident database <> ("." <> quote_ident source)

unfoldable pub quote_qualified : String → Option String → String
quote_qualified source default_database =
    let (database, table) = partition b'.' source in
    if contains_text "." source
    then quote_ident database <> ("." <> quote_ident table)
    else in_database default_database source

abbrev configured : Option String → String → Result ClickHouseError (String × String)
configured none source = err unqualified
configured (some database) source =
    if is_empty database then err unqualified else ok (database, source)

unfoldable pub split_qualified : Option String → String → Result ClickHouseError (String × String)
split_qualified database source =
    if contains_text "." source then ok (partition b'.' source) else configured database source

-- The names between the commas of a sorting key, without blanks and backticks around them.
key_columns : List String → List String
key_columns [] = []
key_columns (part ∷ parts) =
    let rest = key_columns parts in
    let name = strip (λ c. c == b'`') (strip is_space part) in
    if is_empty (strip is_space part) then rest else name ∷ rest

abbrev tail_of : String → String
tail_of String.[] = ""
tail_of (String.◌∷◌ c s) = s

init_of : String → String
init_of String.[] = ""
init_of (String.◌∷◌ c String.[]) = ""
init_of (String.◌∷◌ c (String.◌∷◌ d s)) = String.◌∷◌ c (init_of (String.◌∷◌ d s))

-- `_extract_sorting_key_columns`, whose set is a list here
unfoldable pub extract_sorting_key_columns : String → List String
unfolding key_columns init_of
extract_sorting_key_columns sorting_key =
    let cleaned = strip is_space sorting_key in
    key_columns (
      split_on b',' (
        if starts_with cleaned "(" && ends_with cleaned ")"
        then init_of (tail_of cleaned)
        else cleaned))

-- ---- the query

-- The SQL text, and its parameters `watermark` and `max_rows`.
pub record Query : Type 0 where
  pub sql : String
  pub watermark : Option Watermark
  pub max_rows : Option ℕ

pub record PullConfig : Type 0 where
  pub source : String
  pub columns : List String
  pub mode : Mode
  pub incremental_key : Option String
  pub max_rows : Option ℕ

-- `", ".join(...)`
abbrev join_comma : List String → String
join_comma [] = ""
join_comma (c ∷ []) = c
join_comma (c ∷ d ∷ cs) = c <> (", " <> join_comma (d ∷ cs))

abbrev selected : List String → String
selected [] = "*"
selected (c ∷ cs) = join_comma (map quote_ident (c ∷ cs))

abbrev base : Option String → String → String
base database source =
    if is_inline_sql source then "(" <> (source <> ") AS sub") else quote_qualified source database

-- `mode == "incremental" and previous_watermark is not None and incr_key`
abbrev where_clause : Mode → Option String → Option Watermark → String × Option Watermark
where_clause incremental (some key) (some previous) = (
  " WHERE " <> (quote_ident key <> (" > %(watermark)s ORDER BY " <> (quote_ident key <> " ASC"))),
  some previous,
)
where_clause _ _ _ = ("", none)

abbrev limit_text : Option ℕ → String
limit_text none = ""
limit_text (some n) = " LIMIT %(max_rows)s"

-- `_build_query`, of the columns that are selected
unfoldable pub build_query : Option String → PullConfig → List String → Option Watermark → Query
build_query database cfg columns previous =
    let (condition, watermark) = where_clause cfg.mode (key_of cfg.incremental_key) previous in
    record {
      sql =
          "SELECT "
          <> (selected columns
              <> (" FROM "
                  <> (base database cfg.source
                      <> (condition <> limit_text (limit_clause cfg.max_rows)))));
      watermark = watermark;
      max_rows = limit_clause cfg.max_rows;
    }

-- ---- the pull

-- `system.columns` or `DESCRIBE` of the source, the dtype of a type, and a query's rows.
pub record Database : Type 1 where
  pub Row : Type 0
  pub cell : String → Row → Value
  pub column_types : String → Dict String String
  pub pandas_dtype_for : String → Option String
  pub select : Query → List Row

-- `max_val.isoformat()`, an integer as it is, `str` of anything else
abbrev pub watermark_of : (ℕ → String) → Value → Option Watermark → Option Watermark
watermark_of isoformat Value.null previous = previous
watermark_of isoformat (Value.stamp n) previous = some (Watermark.text (isoformat n))
watermark_of isoformat (Value.int z) previous = some (Watermark.number z)
watermark_of isoformat (Value.text s) previous = some (Watermark.text s)

module _ (isoformat : ℕ → String) (db : Database) (database : Option String) where
  abbrev pub max_value : String → List db.Row → Value
  max_value key [] = Value.null
  max_value key (r ∷ rows) = bigger (db.cell key r) (max_value key rows)

  -- `df.empty or incr_key not in df.columns`, and the maximum
  abbrev pub of_rows : String → Option Watermark → List String → List db.Row → Option Watermark
  of_rows key previous columns [] = previous
  of_rows key previous columns (r ∷ rows) =
      if contains columns key
      then watermark_of isoformat (max_value key (r ∷ rows)) previous
      else previous

  abbrev pub new_watermark :
      Mode → Option String → Option Watermark → List String → List db.Row → Option Watermark
  new_watermark incremental (some key) previous columns rows = of_rows key previous columns rows
  new_watermark _ _ previous columns rows = none

  unfoldable pub compute_new_watermark :
      PullConfig → List String → List db.Row → Option Watermark → Option Watermark
  compute_new_watermark cfg columns rows previous =
      new_watermark cfg.mode (key_of cfg.incremental_key) previous columns rows

  -- `table_config.get("columns") or list(col_types)`
  abbrev pub selected_columns : List String → Dict String String → List String
  selected_columns [] types = keys types
  selected_columns (c ∷ cs) types = c ∷ cs

  abbrev pub supported : String → Option String → Result ClickHouseError (Unit {0})
  supported col none = ok tt
  supported col (some type) = elim (db.pandas_dtype_for type) [
    | none ↦ err (unsupported_type col type)
    | some _ ↦ ok tt
  ]

  -- The loop over the selected columns.
  unfoldable pub check_types : Dict String String → List String → Result ClickHouseError (Unit {0})
  check_types types [] = ok tt
  check_types types (col ∷ cols) = supported col (Dict.lookup col types) >> check_types types cols

  -- `_column_types_for_source`, which splits the name of a table
  unfoldable pub column_types_for_source : String → Result ClickHouseError (Dict String String)
  column_types_for_source source =
      if is_inline_sql source
      then ok (db.column_types source)
      else (split_qualified database source >>= λ _. ok (db.column_types source))

  -- The rows, and the watermark to be stored. The frame has the columns that were selected.
  unfoldable pub pull :
      PullConfig → Option Watermark → Result ClickHouseError (List db.Row × Option Watermark)
  pull cfg previous = do
    types ← column_types_for_source cfg.source
    let columns = selected_columns cfg.columns types
    _ ← check_types types columns
    let rows = db.select (build_query database cfg columns previous)
    ok (rows, compute_new_watermark cfg columns rows previous)
