-- ===== src/Tests/Tables.antt =====
-- drivers/clickhouse/driver.py: a table that validates, and tables that do not.
use r64_db_engine.Base.{
  String, ◌≡◌, refl, true, false, Option, none, some, List, [], ◌∷◌, if◌then◌else◌, ◌==◌, string_eq,
  nat_eq, contains_text, starts_with,
}
use r64_db_engine.Base.Results.{Result, ok, err}
use r64_db_engine.Base.Decimal.{ℤ, pos}
use r64_db_engine.Base.Dict
use r64_db_engine.State.{Watermark}
use r64_db_engine.Config.{incremental}
use r64_db_engine.Rest.Texts.{lower, strip, partition, split_on, ends_with}
use r64_db_engine.Drivers.Order.{Value}
use r64_db_engine.Drivers.ClickHouse
use r64_db_engine.Drivers.ClickHouse.{
  PullConfig, Database, pull, is_inline_sql, split_qualified, extract_sorting_key_columns,
}
use r64_db_engine.Drivers.ClickHouse.Validate.{
  Catalog, ValidationResult, validate_table, missing_errors, unsupported_errors, missing_column,
  unsupported_column, non_orderable, unsorted_key, missing_table,
}
use r64_db_engine.Drivers.ClickHouse.Validated.{HasOrderableKey, pull-validate_table}

abbrev dtype : String → Option String
dtype type = if type == "Map" then none else some "int64"

abbrev server : Database
server = record {
  Row = ℤ;
  cell = λ column z. Value.int z;
  column_types = λ source. ("id", "Int64") ∷ ("tags", "Map") ∷ [];
  pandas_dtype_for = dtype;
  select = λ query. pos 3 ∷ [];
}

abbrev catalog : Catalog
catalog = record {
  table_exists = λ database name. name == "events";
  sorting_key = λ database name. some "day";
  is_orderable_type = λ type. type == "Int64";
  query_fails = λ source. none;
}

abbrev table : String → List String → String → PullConfig
table source columns key = record {
  source = source;
  columns = columns;
  mode = incremental;
  incremental_key = some key;
  max_rows = none;
}

abbrev checked : PullConfig → Result ClickHouse.ClickHouseError ValidationResult
checked cfg = validate_table (λ n. "") server catalog none cfg

abbrev accepted : ValidationResult
accepted = record { valid = true; errors = []; warnings = unsorted_key "id" "day" ∷ [] }

id_accepted : checked (table "db.events" ("id" ∷ []) "id") ≡ ok accepted
unfolding validate_table missing_errors unsupported_errors Dict.lookup split_qualified is_inline_sql
    extract_sorting_key_columns string_eq nat_eq contains_text starts_with lower strip partition
    split_on ends_with
id_accepted = refl

refusals :
    (checked (table "db.events" [] "id")
      ≡ ok (record {
        valid = false;
        errors = unsupported_column "tags" "Map" ∷ [];
        warnings = unsorted_key "id" "day" ∷ [];
      }))
    × (checked (table "db.events" ("ids" ∷ []) "tags")
        ≡ ok (record {
          valid = false;
          errors = missing_column "ids" ∷ non_orderable "tags" "Map" ∷ [];
          warnings = unsorted_key "tags" "day" ∷ [];
        }))
    × (checked (table "db.other" [] "id")
        ≡ ok (record { valid = false; errors = missing_table "db" "other" ∷ []; warnings = [] }))
    × (checked (table "events" [] "id") ≡ err ClickHouse.unqualified)
unfolding validate_table missing_errors unsupported_errors Dict.lookup split_qualified is_inline_sql
    extract_sorting_key_columns string_eq nat_eq contains_text starts_with lower strip partition
    split_on ends_with
refusals = (refl, refl, refl, refl)

pull-validate_table_example :
    ((batch : List ℤ × Option Watermark) × (pull
          (λ n. "")
          server
          none
          (table "db.events" ("id" ∷ []) "id")
          none
        ≡ ok batch))
    × (◌≡◌ incremental incremental
        → HasOrderableKey (λ n. "") server catalog none (table "db.events" ("id" ∷ []) "id"))
unfolding is_inline_sql string_eq nat_eq contains_text starts_with lower strip
pull-validate_table_example =
    pull-validate_table (λ n. "") server catalog none (table "db.events" ("id" ∷ []) "id") none
      accepted refl id_accepted refl
