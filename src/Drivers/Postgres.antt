-- ===== src/Drivers/Postgres.antt =====
-- drivers/postgres/driver.py: what a pull asks of the database and the cursor that it leaves.
-- psycopg and the server are the parameter `Database`: the rows that it selects stand with the cells
-- of the coerced frame, a time stamp prints by `isoformat`. A query is kept in its parts, a parameter
-- as the JSON value that it is. The text of `json.dumps` is the parameter `JsonText`.
pub mod BuildQuery
pub mod NewWatermark
pub mod Pull
pub mod Ascending
pub mod Pulled
pub mod Drained
pub mod Guards
pub mod Connect
pub mod Conninfo
use r64_db_engine.Base.{
  ℕ, zero, suc, String, Bool, true, false, not, ◌&&◌, ◌||◌, ◌==◌, Option, none, some, List, [], ◌∷◌,
  if◌then◌else◌, string_eq, starts_with, starts_with_code, contains_text, contains, is_space,
  is_none,
}
use r64_db_engine.Base.Results.{Result, ok, err, guard, ◌>>=◌, ◌>>◌}
use r64_db_engine.Base.Decimal
use r64_db_engine.Base.Decimal.{ℤ, pos, str}
use r64_db_engine.Base.Dict.{Dict}
use r64_db_engine.Base.Json.{Json, Fields, end, field, get}
use r64_db_engine.Rest.Texts.{lower, strip, split_on, partition}
use r64_db_engine.State.{Watermark}
use r64_db_engine.Config.{Mode, incremental, full_refresh}
use r64_db_engine.Drivers.Order.{Value, lt_value, lt_pair}

-- `ValueError` and `TypeError`
pub data PgError : Type 0 where
  value_error : String → PgError
  type_error : PgError

-- `json.dumps` of a flat object and `json.loads`, `none` for a `JSONDecodeError`
pub record JsonText : Type 0 where
  pub dumps : Fields → String
  pub loads : String → Option Json

-- `WHERE (key, tie) > (%s, %s)` and `WHERE key > %s`
pub data Condition : Type 0 where
  row_greater : String → String → Json → Json → Condition
  greater : String → Json → Condition

-- `({}) sub` and the quoted parts of a qualified name
pub data Source : Type 0 where
  sub : String → Source
  identifiers : List String → Source

pub record Query : Type 0 where
  pub source : Source
  pub condition : Option Condition
  pub order_by : List String
  pub limit : Option ℕ

-- The dtype of a column of the coerced frame, as far as the common dtype of a row depends on it.
pub data Dtype : Type 0 where
  integer float boolean other : Dtype

-- What the driver asks of the server for one table: the columns of its primary key, a `SELECT`, and
-- the columns that come back, with their dtypes. `as_float` is what `float` makes of an integer.
pub record Database : Type 1 where
  pub Row : Type 0
  pub cell : String → Row → Value
  pub primary_key : String → String → List String
  pub select : Query → List Row
  pub columns : Source → Dict String Dtype
  pub as_float : ℤ → Json

-- What `pull` reads of the table's configuration.
pub record PullConfig : Type 0 where
  pub source : String
  pub mode : Mode
  pub incremental_key : Option String
  pub incremental_type : String
  pub max_rows : Option ℕ

unfoldable pub is_inline_sql : String → Bool
is_inline_sql source =
    starts_with (lower (strip is_space source)) "select "
    || contains_text "\n" (strip is_space source)

unfoldable pub split_qualified : String → String × String
split_qualified source =
    if contains_text "." source then partition b'.' source else ("public", source)

-- `sql.Identifier(p) for p in qualified.split(".")`
unfoldable pub quote_ident : String → Source
quote_ident qualified = identifiers (split_on b'.' qualified)

abbrev only : List String → Option String
only (name ∷ []) = some name
only _ = none

unfoldable pub fetch_single_primary_key : Database → String × String → Option String
fetch_single_primary_key db (schema, name) = only (db.primary_key schema name)

-- ---- cursors

abbrev pub watermark_json : Watermark → Json
watermark_json (Watermark.text s) = Json.text s
watermark_json (Watermark.number z) = Json.num z

abbrev cast_int : String → Option ℤ → Result PgError Json
cast_int s none = err (value_error s)
cast_int s (some z) = ok (Json.num z)

-- `int(value)`
abbrev pub to_int : Json → Result PgError Json
to_int (Json.num z) = ok (Json.num z)
to_int (Json.text s) = cast_int s (Decimal.int s)
to_int (Json.bool b) = ok (Json.num (pos (if b then 1 else 0)))
to_int _ = err type_error

unfoldable pub cast_watermark : Json → String → Result PgError Json
cast_watermark value incr_type = if incr_type == "int" then to_int value else ok value

-- The cursor of an object with both keys.
abbrev cast_cursor : Option Json → Option Json → String → Result PgError (Option (Json × Json))
cast_cursor (some watermark) (some tie) incr_type = do
  w ← cast_watermark watermark incr_type
  ok (some (w, tie))
cast_cursor _ _ incr_type = ok none

abbrev cursor_of_json : Option Json → String → Result PgError (Option (Json × Json))
cursor_of_json (some (Json.obj cursor)) incr_type =
    cast_cursor (get "watermark" cursor) (get "tie_breaker" cursor) incr_type
cursor_of_json _ incr_type = ok none

abbrev decode_text : JsonText → String → String → Result PgError (Option (Json × Json))
decode_text json value incr_type =
    let read = cursor_of_json (json.loads value) incr_type in
    if starts_with_code value b'{' then read else ok none

unfoldable pub decode_cursor : JsonText → Watermark → String → Result PgError (Option (Json × Json))
decode_cursor json (Watermark.number z) incr_type = ok none
decode_cursor json (Watermark.text value) incr_type = decode_text json value incr_type
