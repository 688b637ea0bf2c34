-- ===== src/Drivers/Postgres/NewWatermark.antt =====
-- drivers/postgres/driver.py: the watermark that a pull leaves.
use r64_db_engine.Base.{
  ℕ, String, Bool, true, false, ◌&&◌, ◌||◌, ◌==◌, Option, none, some, List, [], ◌∷◌, if◌then◌else◌,
  string_eq, contains,
}
use r64_db_engine.Base.Results.{Result, ok, err, ◌>>=◌}
use r64_db_engine.Base.Decimal
use r64_db_engine.Base.Decimal.{ℤ, pos, str}
use r64_db_engine.Base.Dict.{Dict, keys}
use r64_db_engine.Base.Json.{Json, Fields, end, field}
use r64_db_engine.State.{Watermark}
use r64_db_engine.Config.{Mode, incremental}
use r64_db_engine.Drivers.Order.{Value, lt_value, lt_pair}
use r64_db_engine.Drivers.Postgres.{
  PgError, value_error, type_error, JsonText, Database, PullConfig, watermark_json, Dtype, float,
  other,
}
use r64_db_engine.Drivers.Postgres.BuildQuery.{key_of}

-- ---- the new watermark

-- `max()`, which skips nulls
abbrev pub bigger : Value → Value → Value
bigger Value.null w = w
bigger v Value.null = v
bigger v w = if lt_value v w then w else v

-- The row that `sort_values([key, tie])` puts last.
abbrev pub later : {Row : Type 0} → (Row → Value × Value) → Row → Row → Row
later by r s = if lt_pair (by s) (by r) then r else s

abbrev pub last_sorted : {Row : Type 0} → (Row → Value × Value) → Row → List Row → Row
last_sorted by r [] = r
last_sorted by r (s ∷ rows) = last_sorted by (later by r s) rows

abbrev int_of : String → Option ℤ → Result PgError Watermark
int_of s none = err (value_error s)
int_of s (some z) = ok (Watermark.number z)

-- `int(max_val)`
abbrev pub int_watermark : Value → Result PgError Watermark
int_watermark (Value.int z) = ok (Watermark.number z)
int_watermark (Value.text s) = int_of s (Decimal.int s)
int_watermark _ = err type_error

-- `max_val.isoformat()` of a time stamp, `str(max_val)` of anything else
abbrev pub text_watermark : (ℕ → String) → Value → Watermark
text_watermark isoformat (Value.stamp n) = Watermark.text (isoformat n)
text_watermark isoformat (Value.int z) = Watermark.text (str z)
text_watermark isoformat (Value.text s) = Watermark.text s
text_watermark isoformat Value.null = Watermark.text "None"

-- What `json.dumps` makes of a cell: it takes no time stamp and no `pd.NA`.
abbrev pub tie_json : Value → Result PgError Json
tie_json (Value.int z) = ok (Json.num z)
tie_json (Value.text s) = ok (Json.text s)
tie_json _ = err type_error

-- Every column is a number or a Boolean, and one at least is a float: then the common dtype of a row
-- is a float.
abbrev is_number : Dtype → Bool
is_number other = false
is_number _ = true

abbrev is_float : Dtype → Bool
is_float float = true
is_float _ = false

abbrev pub numbers : Dict String Dtype → Bool
numbers [] = true
numbers ((_, d) ∷ columns) = is_number d && numbers columns

abbrev pub some_float : Dict String Dtype → Bool
some_float [] = false
some_float ((_, d) ∷ columns) = is_float d || some_float columns

abbrev pub is_float_row : Dict String Dtype → Bool
is_float_row columns = numbers columns && some_float columns

abbrev pub cursor_fields : Watermark → Json → Fields
cursor_fields w tie = field "watermark" (watermark_json w) (field "tie_breaker" tie end)

module _ (json : JsonText) (isoformat : ℕ → String) (db : Database) where
  abbrev pub max_value : String → List db.Row → Value
  max_value key [] = Value.null
  max_value key (r ∷ rows) = bigger (db.cell key r) (max_value key rows)

  abbrev pub value_watermark : String → Value → Result PgError Watermark
  value_watermark incr_type v =
      if incr_type == "int" then int_watermark v else ok (text_watermark isoformat v)

  -- The cell as it stands in `df.iloc[-1]`, all of whose cells have the common dtype.
  abbrev pub row_json : Bool → Value → Result PgError Json
  row_json true (Value.int z) = ok (db.as_float z)
  row_json _ v = tie_json v

  abbrev pub with_tie :
      String
      → Option String
      → Watermark
      → Dict String Dtype
      → db.Row
      → List db.Row
      → Result PgError (Option Watermark)
  with_tie key none w columns r rows = ok (some w)
  with_tie key (some tie) w columns r rows = do
    t ←
        row_json (is_float_row columns)
          (db.cell tie (last_sorted (λ row. (db.cell key row, db.cell tie row)) r rows))
    ok (some (Watermark.text (json.dumps (cursor_fields w t))))

  abbrev pub of_max :
      String
      → Option String
      → String
      → Option Watermark
      → Dict String Dtype
      → db.Row
      → List db.Row
      → Value
      → Result PgError (Option Watermark)
  of_max key tie incr_type previous columns r rows Value.null = ok previous
  of_max key tie incr_type previous columns r rows v = do
    w ← value_watermark incr_type v
    with_tie key tie w columns r rows

  abbrev pub of_rows :
      String
      → Option String
      → String
      → Option Watermark
      → Dict String Dtype
      → List db.Row
      → Result PgError (Option Watermark)
  of_rows key tie incr_type previous columns [] = ok previous
  of_rows key tie incr_type previous columns (r ∷ rows) =
      let found = of_max key tie incr_type previous columns r rows (max_value key (r ∷ rows)) in
      if contains (keys columns) key then found else ok previous

  abbrev pub new_watermark :
      Mode
      → Option String
      → Option String
      → String
      → Option Watermark
      → Dict String Dtype
      → List db.Row
      → Result PgError (Option Watermark)
  new_watermark incremental (some key) tie incr_type previous columns rows =
      of_rows key tie incr_type previous columns rows
  new_watermark _ _ tie incr_type previous columns rows = ok none

  unfoldable pub compute_new_watermark :
      PullConfig
      → Dict String Dtype
      → List db.Row
      → Option Watermark
      → Option String
      → Result PgError (Option Watermark)
  compute_new_watermark cfg columns rows previous tie_breaker =
      new_watermark cfg.mode (key_of cfg.incremental_key) tie_breaker cfg.incremental_type previous
        columns rows
