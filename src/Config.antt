-- ===== src/Config.antt =====
-- core/config.py: table and top-level configuration after pydantic's typing, its validators,
-- the resolution of a table's defaults, and the block that a driver is given.
pub mod Cadence
pub mod Env
pub mod Valid
use r64_db_engine.Base.{
  ℕ, String, Bool, true, false, not, Option, none, some, List, [], ◌∷◌, ◌++◌, filter, contains, any,
  if◌then◌else◌, ◌==◌, string_eq, is_empty,
}
use r64_db_engine.Base.Results.{Result, ok, err, ◌>>=◌, ◌>>◌, guard}
use r64_db_engine.Base.Decimal.{ℤ}
use r64_db_engine.Base.Json.{Json, Fields, get, field_names, obj}
use Cadence.{CadenceError, parse_cadence}

pub data Mode : Type 0 where
  full_refresh incremental : Mode

pub data IncrementalType : Type 0 where
  timestamp int : IncrementalType

pub record DefaultsConfig : Type 0 where
  pub cadence : String
  pub mode : Mode
  pub max_rows : Option ℤ
  pub ascii_sanitize : Bool

pub record TableConfig : Type 0 where
  pub source : String
  pub target : String
  pub mode : Option Mode
  pub incremental_key : Option String
  pub incremental_type : IncrementalType
  pub cadence : Option String
  pub max_rows : Option ℤ
  pub ascii_sanitize : Option Bool

pub record RuntimeConfig : Type 0 where
  pub worker_pool_size : ℕ
  pub shutdown_grace_seconds : ℕ

-- `postgres` and `clickhouse` are the dumped typed blocks, `extra` is `model_extra`.
pub record Config : Type 0 where
  pub dialect : String
  pub postgres : Option Fields
  pub clickhouse : Option Fields
  pub profile : Option String
  pub extra : Fields
  pub defaults : DefaultsConfig
  pub tables : List TableConfig
  pub runtime : RuntimeConfig

pub data ConfigError : Type 0 where
  incremental_key_required : String → ConfigError
  duplicate_target : String → ConfigError
  unknown_dialect : String → ConfigError
  unknown_keys : List String → ConfigError
  block_required : String → ConfigError
  not_a_mapping : String → ConfigError
  unknown_profile : String → ConfigError
  profile_dialect : String → ConfigError
  profile_refused : String → ConfigError
  bad_cadence : CadenceError → ConfigError

-- `not key`: absent or empty
abbrev pub lacks : Option String → Bool
lacks none = true
lacks (some s) = is_empty s

-- `TableConfig._check_incremental`
unfoldable pub check_incremental : TableConfig → Result ConfigError (Unit {0})
check_incremental t = elim t.mode [
  | some incremental ↦ guard (not (lacks t.incremental_key)) (incremental_key_required t.target)
  | _ ↦ ok tt
]

-- The loop of `Config._unique_targets`, over the targets seen so far.
unfoldable pub unique_targets : List String → List TableConfig → Result ConfigError (Unit {0})
unique_targets seen [] = ok tt
unique_targets seen (t ∷ ts) =
    let rest = unique_targets (t.target ∷ seen) ts in
    if contains seen t.target then err (duplicate_target t.target) else rest

check_tables : List TableConfig → Result ConfigError (Unit {0})
unfolding check_incremental
check_tables [] = ok tt
check_tables (t ∷ ts) = let rest = check_tables ts in check_incremental t >> rest

abbrev none_unknown : List String → Result ConfigError (Unit {0})
none_unknown [] = ok tt
none_unknown (k ∷ ks) = err (unknown_keys (k ∷ ks))

-- `Config._reject_unknown_top_level_keys`, over the registered dialects
unfoldable pub reject_unknown_top_level_keys : List String → Config → Result ConfigError (Unit {0})
reject_unknown_top_level_keys registered c = do
  guard (contains registered c.dialect) (unknown_dialect c.dialect)
  none_unknown (filter (λ k. not (contains registered k)) (field_names c.extra))

abbrev opaque_block : String → Option Json → Result ConfigError (Option Fields)
opaque_block dialect none = ok none
opaque_block dialect (some Json.null) = ok none
opaque_block dialect (some (obj fs)) = ok (some fs)
opaque_block dialect (some _) = err (not_a_mapping dialect)

-- `Config._source_block`
unfoldable pub source_block : Config → Result ConfigError (Option Fields)
source_block c =
    if c.dialect == "postgres"
    then ok c.postgres
    else if c.dialect == "clickhouse"
    then ok c.clickhouse
    else opaque_block c.dialect (get c.dialect c.extra)

require_block : String → Option Fields → Result ConfigError Fields
require_block dialect none = err (block_required dialect)
require_block dialect (some fs) = ok fs

-- `Config._check_driver_config`
unfoldable pub check_driver_config : Config → Result ConfigError (Unit {0})
unfolding require_block
check_driver_config c = do block ← source_block c; _ ← require_block c.dialect block; ok tt

-- The validators in pydantic's order; the first failure is the result.
unfoldable pub validate : List String → Config → Result ConfigError (Unit {0})
unfolding check_tables
validate registered c = do
  check_tables c.tables
  unique_targets [] c.tables
  reject_unknown_top_level_keys registered c
  check_driver_config c

pub record ResolvedTable : Type 0 where
  pub source : String
  pub target : String
  pub mode : Mode
  pub incremental_key : Option String
  pub incremental_type : IncrementalType
  pub cadence : String
  pub cadence_seconds : ℕ
  pub max_rows : Option ℤ
  pub ascii_sanitize : Bool

abbrev pub or_default {ℓ} : {A : Type ℓ} → Option A → A → A
or_default none d = d
or_default (some a) d = a

-- `t.cadence or self.defaults.cadence`
abbrev pub text_or_default : Option String → String → String
text_or_default none d = d
text_or_default (some s) d = if is_empty s then d else s

-- `resolve_table`
unfoldable pub resolve_table : DefaultsConfig → TableConfig → Result ConfigError ResolvedTable
resolve_table d t =
    let cadence = text_or_default t.cadence d.cadence in
    elim (parse_cadence cadence) [
      | err e ↦ err (bad_cadence e)
      | ok seconds ↦ ok (record {
        source = t.source;
        target = t.target;
        mode = or_default t.mode d.mode;
        incremental_key = t.incremental_key;
        incremental_type = t.incremental_type;
        cadence = cadence;
        cadence_seconds = seconds;
        max_rows = elim t.max_rows [ none ↦ d.max_rows | some n ↦ some n ];
        ascii_sanitize = or_default t.ascii_sanitize d.ascii_sanitize;
      })
    ]

-- `core/profile.py`: a named deployment shape, which may refuse a block.
pub record Profile : Type 0 where
  pub dialect : String
  pub apply : Fields → Result ConfigError Fields

-- `Config._apply_profile`, over the registry of profiles
unfoldable pub apply_profile :
    (String → Option Profile) → Config → Fields → Result ConfigError Fields
apply_profile profiles c block = elim c.profile [
  | none ↦ ok block
  | some name ↦ elim (profiles name) [
    | none ↦ err (unknown_profile name)
    | some p ↦ if p.dialect == c.dialect then p.apply block else err (profile_dialect name)
  ]
]

-- `Config.driver_config`
unfoldable pub driver_config : (String → Option Profile) → Config → Result ConfigError Fields
unfolding require_block
driver_config profiles c = do
  found ← source_block c
  block ← require_block c.dialect found
  apply_profile profiles c block
