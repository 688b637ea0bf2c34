-- ===== src/Drivers/ClickHouse/Validate.antt =====
-- drivers/clickhouse/driver.py: `validate_table`. What the catalog of the server says and which types can be
-- ordered are the parameter `Catalog`; an `incremental_key` that is empty is none.
use r64_db_engine.Base.{
  ℕ, String, Bool, true, false, Option, none, some, List, [], ◌∷◌, ◌++◌, if◌then◌else◌, string_eq,
  is_empty, contains,
}
use r64_db_engine.Base.Results.{Result, ok, ◌>>=◌}
use r64_db_engine.Base.Dict
use r64_db_engine.Base.Dict.{Dict}
use r64_db_engine.Config.{Mode, incremental, full_refresh}
use r64_db_engine.Drivers.Postgres.BuildQuery.{key_of}
use r64_db_engine.Drivers.ClickHouse.{
  ClickHouseError, PullConfig, Database, is_inline_sql, split_qualified, selected_columns,
  extract_sorting_key_columns,
}

-- The entries of `errors`.
pub data TableError : Type 0 where
  source_required : TableError
  inline_failed : String → TableError
  missing_table : String → String → TableError
  missing_column : String → TableError
  unsupported_column : String → String → TableError
  key_required : TableError
  missing_key : String → TableError
  non_orderable : String → String → TableError

-- The one entry of `warnings`: the key and the sorting key.
pub data TableWarning : Type 0 where
  unsorted_key : String → String → TableWarning

-- `valid` is the source's `ok`.
pub record ValidationResult : Type 0 where
  pub valid : Bool
  pub errors : List TableError
  pub warnings : List TableWarning

-- `system.tables` on a database and a table, `is_orderable_type`, and the failure of a query.
pub record Catalog : Type 0 where
  pub table_exists : String → String → Bool
  pub sorting_key : String → String → Option String
  pub is_orderable_type : String → Bool
  pub query_fails : String → Option String

abbrev pub is_nil {ℓ} : {A : Type ℓ} → List A → Bool
is_nil [] = true
is_nil (_ ∷ _) = false

abbrev only_error : TableError → ValidationResult
only_error error = record { valid = false; errors = error ∷ []; warnings = [] }

abbrev of_inline : Option String → ValidationResult
of_inline none = record { valid = true; errors = []; warnings = [] }
of_inline (some exc) = only_error (inline_failed exc)

abbrev unless_found : String → Option String → List TableError → List TableError
unless_found col none errors = missing_column col ∷ errors
unless_found col (some type) errors = errors

unfoldable pub missing_errors : Dict String String → List String → List TableError
missing_errors types [] = []
missing_errors types (col ∷ cols) =
    unless_found col (Dict.lookup col types) (missing_errors types cols)

abbrev sorting_warnings : String → Option String → List TableWarning
sorting_warnings key none = []
sorting_warnings key (some sorting) =
    if contains (extract_sorting_key_columns sorting) key then [] else unsorted_key key sorting ∷ []

module _ (isoformat : ℕ → String) (db : Database) (catalog : Catalog)
    (database : Option String) where
  abbrev pub of_dtype : String → String → Option String → List TableError → List TableError
  of_dtype col type none errors = unsupported_column col type ∷ errors
  of_dtype col type (some _) errors = errors

  abbrev pub unless_supported : String → Option String → List TableError → List TableError
  unless_supported col none errors = errors
  unless_supported col (some type) errors = of_dtype col type (db.pandas_dtype_for type) errors

  unfoldable pub unsupported_errors : Dict String String → List String → List TableError
  unsupported_errors types [] = []
  unsupported_errors types (col ∷ cols) =
      unless_supported col (Dict.lookup col types) (unsupported_errors types cols)

  abbrev key_found : String × String → String → Option String → List TableError × List TableWarning
  key_found table key none = (missing_key key ∷ [], [])
  key_found (schema, name) key (some type) = (
    if catalog.is_orderable_type type then [] else non_orderable key type ∷ [],
    sorting_warnings key (catalog.sorting_key schema name),
  )

  -- `if table_config.get("mode") == "incremental"`
  abbrev pub key_checks :
      Mode
      → Option String
      → Dict String String
      → String × String
      → List TableError × List TableWarning
  key_checks incremental none types table = (key_required ∷ [], [])
  key_checks incremental (some key) types table = key_found table key (Dict.lookup key types)
  key_checks full_refresh _ types table = ([], [])

  -- A table that exists.
  abbrev pub table_result : PullConfig → String × String → Dict String String → ValidationResult
  table_result cfg table types =
      let keyed = key_checks cfg.mode (key_of cfg.incremental_key) types table in
      let errors =
        (missing_errors types cfg.columns
          ++ unsupported_errors types (selected_columns isoformat db database cfg.columns types))
        ++ keyed.0 in
      record { valid = is_nil errors; errors = errors; warnings = keyed.1 }

  abbrev pub of_table : PullConfig → String × String → ValidationResult
  of_table cfg (schema, name) =
      if catalog.table_exists schema name
      then table_result cfg (schema, name) (db.column_types cfg.source)
      else only_error (missing_table schema name)

  unfoldable pub validate_table : PullConfig → Result ClickHouseError ValidationResult
  validate_table cfg =
      let of_reference = split_qualified database cfg.source >>= λ table. ok (of_table cfg table) in
      if is_empty cfg.source
      then ok (only_error source_required)
      else if is_inline_sql cfg.source
      then ok (of_inline (catalog.query_fails cfg.source))
      else of_reference
