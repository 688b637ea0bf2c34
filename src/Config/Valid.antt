-- ===== src/Config/Valid.antt =====
-- core/config.py: what the validators guarantee of a configuration.
use r64_db_engine.Base.{
  String, ◌≡◌, ◌↔◌, refl, ap, ◌∙◌, true, false, not, Option, none, some, List, [], ◌∷◌, filter,
  contains, string_eq, arith, All, Bool-cases, inl, inr,
}
use r64_db_engine.Base.Results.{ok, ◌>>=◌, guard, >>=-eq-ok}
use r64_db_engine.Base.Json.{Fields, field_names}
use r64_db_engine.Config.{
  Config, TableConfig, DefaultsConfig, ResolvedTable, incremental, lacks, check_incremental,
  unique_targets, check_tables, reject_unknown_top_level_keys, check_driver_config, source_block,
  require_block, validate, resolve_table, none_unknown,
}

abbrev pub targets : List TableConfig → List String
targets [] = []
targets (t ∷ ts) = t.target ∷ targets ts

-- No two tables have one target, and none has a target of `seen`.
abbrev pub HasFreshTargets : List String → List TableConfig → Type 0
HasFreshTargets seen [] = Unit
HasFreshTargets seen (t ∷ ts) =
    (contains seen t.target ≡ false) × HasFreshTargets (t.target ∷ seen) ts

unique_targets-ok :
    (seen : List String) (ts : List TableConfig)
    → (unique_targets seen ts ≡ ok tt) ↔ HasFreshTargets seen ts
unfolding unique_targets
unique_targets-ok seen [] = (λ h. tt, λ h. refl)
unique_targets-ok seen (t ∷ ts) = elim (Bool-cases (contains seen t.target)) [
  | inl e ↦ rw e ((λ h. cc), (λ h. cc))
  | inr e ↦ rw e (
      (
        λ h. (refl, (unique_targets-ok (t.target ∷ seen) ts).0 h),
        λ h. (unique_targets-ok (t.target ∷ seen) ts).1 h.1,
      ))
]

-- A table whose own mode is incremental names its key.
abbrev pub HasKey : TableConfig → Type 0
HasKey t = t.mode ≡ some incremental → lacks t.incremental_key ≡ false

check_tables-ok : (ts : List TableConfig) → check_tables ts ≡ ok tt → All HasKey ts
unfolding check_tables check_incremental
check_tables-ok [] h = tt
check_tables-ok (t ∷ ts) h = (λ m. ground arith, check_tables-ok ts (ground arith))

All-known :
    (registered ks : List String)
    → filter (λ k. not (contains registered k)) ks ≡ []
    → All (λ k. contains registered k ≡ true) ks
All-known registered [] h = tt
All-known registered (k ∷ ks) h = (ground arith, All-known registered ks (ground arith))

-- What a validated configuration satisfies.
pub record IsValidConfig (registered : List String) (c : Config) : Type 0 where
  pub unique : HasFreshTargets [] c.tables
  pub keyed : All HasKey c.tables
  pub dialect_known : contains registered c.dialect ≡ true
  pub extra_known : All (λ k. contains registered k ≡ true) (field_names c.extra)
  pub block : (fs : Fields) × (source_block c ≡ ok (some fs))

none_unknown-ok : (ks : List String) → none_unknown ks ≡ ok tt → ks ≡ []
none_unknown-ok [] h = refl
none_unknown-ok (k ∷ ks) h = cc

required :
    (dialect : String) (found : Option Fields)
    → (require_block dialect found >>= λ _. ok tt) ≡ ok (tt {0})
    → (fs : Fields) × (found ≡ some fs)
unfolding require_block
required dialect none h = cc
required dialect (some fs) h = (fs, refl)

found_block :
    (c : Config) → check_driver_config c ≡ ok tt → (fs : Fields) × (source_block c ≡ ok (some fs))
unfolding check_driver_config
found_block c h =
    let (found, e, k) = >>=-eq-ok (source_block c) _ h in
    let (fs, same) = required c.dialect found k in (fs, e ∙ ap (λ (x : Option Fields). ok x) same)

-- A configuration that passes validation has distinct targets, a key for each table whose own mode
-- is incremental, a registered dialect, no extra key that is not a registered dialect, and a block
-- for its dialect.
pub validate-IsValidConfig :
    (registered : List String) (c : Config)
    → validate registered c ≡ ok tt
    → IsValidConfig registered c
unfolding validate reject_unknown_top_level_keys
validate-IsValidConfig registered c h =
    let (_, tables, h1) = >>=-eq-ok (check_tables c.tables) _ h in
    let (_, targets_ok, h2) = >>=-eq-ok (unique_targets [] c.tables) _ h1 in
    let (_, keys, h3) = >>=-eq-ok (reject_unknown_top_level_keys registered c) _ h2 in
    let (_, known, h4) = >>=-eq-ok (guard (contains registered c.dialect) _) _ keys in
    record {
      unique = (unique_targets-ok [] c.tables).0 targets_ok;
      keyed = check_tables-ok c.tables tables;
      dialect_known = ground arith;
      extra_known = All-known registered (field_names c.extra) (none_unknown-ok _ h4);
      block = found_block c h3;
    }

-- A table with no mode of its own and no key passes `_check_incremental`, and under a default mode
-- of incremental it resolves, if its cadence parses, to an incremental table with no key.
resolve_table-keyless :
    (d : DefaultsConfig) (t : TableConfig)
    → t.mode ≡ none
    → lacks t.incremental_key ≡ true
    → d.mode ≡ incremental
    → (check_incremental t ≡ ok tt)
      × ((r : ResolvedTable)
          → resolve_table d t ≡ ok r
          → (r.mode ≡ incremental) × (lacks r.incremental_key ≡ true))
unfolding check_incremental resolve_table
resolve_table-keyless d t m k i = (rw m refl, λ r h. ground arith)
