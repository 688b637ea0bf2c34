-- ===== src/Drivers/ClickHouse/Validated.antt =====
-- drivers/clickhouse/driver.py: what a validated table guarantees to its pulls.
use r64_db_engine.Base.{
  ℕ, String, ◌≡◌, refl, sym, inl, inr, true, false, Option, none, some, List, [], ◌∷◌, ◌++◌,
  string_eq, is_empty, Bool-cases, Option-cases,
}
use mathlib.Core.Path.{subst}
use r64_db_engine.Base.Results.{ok, ◌>>◌, >>=-eq-ok, ok-injective}
use r64_db_engine.Base.Dict
use r64_db_engine.Base.Dict.{Dict}
use r64_db_engine.State.{Watermark}
use r64_db_engine.Config.{incremental}
use r64_db_engine.Drivers.Postgres.BuildQuery.{key_of}
use r64_db_engine.Drivers.ClickHouse.{
  PullConfig, Database, is_inline_sql, split_qualified, selected_columns, check_types,
  column_types_for_source, pull, supported, build_query, compute_new_watermark,
}
use r64_db_engine.Drivers.ClickHouse.Validate.{
  ValidationResult, Catalog, is_nil, missing_errors, unsupported_errors, key_checks, validate_table,
  of_table, of_dtype, unless_supported,
}

is_nil-append :
    {A : Type 0} (xs ys : List A)
    → is_nil (xs ++ ys) ≡ true
    → (is_nil xs ≡ true) × (is_nil ys ≡ true)
is_nil-append [] ys h = (refl, h)
is_nil-append (x ∷ xs) ys h = cc

module _ (isoformat : ℕ → String) (db : Database) (catalog : Catalog)
    (database : Option String) where
  unsupported-check :
      (types : Dict String String) (cols : List String)
      → is_nil (unsupported_errors isoformat db catalog database types cols) ≡ true
      → check_types isoformat db database types cols ≡ ok tt
  unfolding unsupported_errors check_types
  unsupported-check types [] h = refl
  unsupported-check types (col ∷ cols) h =
      one (Dict.lookup col types) h (unsupported-check types cols)
    where
      one :
          (found : Option String)
          → is_nil (
              unless_supported isoformat db catalog database col found
                (unsupported_errors isoformat db catalog database types cols))
            ≡ true
          → (is_nil (unsupported_errors isoformat db catalog database types cols) ≡ true
              → check_types isoformat db database types cols ≡ ok tt)
          → (supported isoformat db database col found
              >> check_types isoformat db database types cols)
            ≡ ok tt
      one none h next = next h
      one (some type) h next = elim (Option-cases (db.pandas_dtype_for type)) [
        | inl f ↦ let bad = rw (unless_supported, of_dtype, f) at h in cc
        | inr (dtype, f) ↦ rw (supported, f) (next (rw (unless_supported, of_dtype, f) at h))
      ]

  -- The key of an incremental table is a column whose type can be ordered.
  abbrev pub HasOrderableKey : PullConfig → Type 0
  HasOrderableKey cfg =
      (key : String) × (type : String) × (key_of cfg.incremental_key ≡ some key)
      × (Dict.lookup key (db.column_types cfg.source) ≡ some type)
      × (catalog.is_orderable_type type ≡ true)

  keyed :
      (cfg : PullConfig) (table : String × String)
      → is_nil
          (key_checks isoformat db catalog database cfg.mode
            (key_of cfg.incremental_key)
            (db.column_types cfg.source)
            table).0
        ≡ true
      → cfg.mode ≡ incremental
      → HasOrderableKey cfg
  keyed cfg table h m = elim (Option-cases (key_of cfg.incremental_key)) [
    | inl e ↦ let bad = rw (m, e) at h in cc
    | inr (key, e) ↦ elim (Option-cases (Dict.lookup key (db.column_types cfg.source))) [
      | inl f ↦ let bad = rw (m, e, f) at h in cc
      | inr (type, f) ↦ elim (Bool-cases (catalog.is_orderable_type type)) [
        | inl g ↦ (key, type, e, f, g)
        | inr g ↦ let bad = rw (m, e, f, g) at h in cc
      ]
    ]
  ]

  valid_table :
      (cfg : PullConfig) (schema name : String)
      → (of_table isoformat db catalog database cfg (schema, name)).valid ≡ true
      → (check_types isoformat db database
            (db.column_types cfg.source)
            (selected_columns isoformat db database cfg.columns (db.column_types cfg.source))
          ≡ ok tt)
        × (cfg.mode ≡ incremental → HasOrderableKey cfg)
  valid_table cfg schema name valid = elim (Bool-cases (catalog.table_exists schema name)) [
    | inr e ↦ let bad = rw (of_table, e) at valid in cc
    | inl e ↦
        let (columns_ok, key_ok) = is_nil-append _ _ (rw (of_table, e) at valid) in
        let (found, types_ok) =
          is_nil-append (missing_errors (db.column_types cfg.source) cfg.columns) _ columns_ok in
        (unsupported-check (db.column_types cfg.source) _ types_ok, keyed cfg (schema, name) key_ok)
  ]

  pull-ok :
      (cfg : PullConfig) (previous : Option Watermark) (table : String × String)
      → is_inline_sql cfg.source ≡ false
      → split_qualified database cfg.source ≡ ok table
      → check_types isoformat db database
          (db.column_types cfg.source)
          (selected_columns isoformat db database cfg.columns (db.column_types cfg.source))
        ≡ ok tt
      → (batch : List db.Row × Option Watermark) × (pull isoformat db database cfg previous
          ≡ ok batch)
  unfolding pull column_types_for_source
  pull-ok cfg previous table inline split types_ok =
      let columns =
        selected_columns isoformat db database cfg.columns (db.column_types cfg.source) in
      let rows = db.select (build_query database cfg columns previous) in
      (
        (rows, compute_new_watermark isoformat db database cfg columns rows previous),
        rw (inline, split, types_ok) refl,
      )

  -- A table that is no inline SQL and validates is pulled without an error of its types or its name, from
  -- whichever watermark; if it is incremental, its key is a column of it whose type can be ordered.
  pub pull-validate_table :
      (cfg : PullConfig) (previous : Option Watermark) (r : ValidationResult)
      → is_inline_sql cfg.source ≡ false
      → validate_table isoformat db catalog database cfg ≡ ok r
      → r.valid ≡ true
      → ((batch : List db.Row × Option Watermark) × (pull isoformat db database cfg previous
            ≡ ok batch))
        × (cfg.mode ≡ incremental → HasOrderableKey cfg)
  unfolding validate_table
  pull-validate_table cfg previous r inline h valid = elim (Bool-cases (is_empty cfg.source)) [
    | inl e ↦
        let same = rw e at h in
        let bad =
          subst (λ (x : ValidationResult). x.valid ≡ true) (sym (ok-injective _ r same)) valid in
        cc
    | inr e ↦
        let ((schema, name), split, same) =
          >>=-eq-ok (split_qualified database cfg.source) _ (rw (e, inline) at h) in
        let here =
          subst (λ (x : ValidationResult). x.valid ≡ true) (sym (ok-injective _ r same)) valid in
        let (types_ok, key_ok) = valid_table cfg schema name here in
        (pull-ok cfg previous (schema, name) inline split types_ok, key_ok)
  ]
