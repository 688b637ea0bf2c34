-- ===== src/Tests/Configs.antt =====
-- core/config.py at concrete inputs.
use r64_db_engine.Base.{
  ◌*◌, String, ◌<>◌, ◌≡◌, refl, true, Option, none, some, List, [], ◌∷◌, ◌==◌, ltb, if◌then◌else◌,
  string_eq, nat_eq,
}
use r64_db_engine.Base.Results.{ok, err}
use r64_db_engine.Base.Decimal.{print_nat}
use r64_db_engine.Base.Json.{Json, end, field, get}
use r64_db_engine.Config.{
  Config, TableConfig, DefaultsConfig, RuntimeConfig, ResolvedTable, Mode, incremental,
  full_refresh, timestamp, validate, source_block, driver_config, apply_profile, check_incremental,
  resolve_table, lacks, unique_targets, reject_unknown_top_level_keys, check_driver_config, Profile,
}
use r64_db_engine.Config.Cadence.{parse_cadence, min_cadence_seconds, below_minimum, invalid_syntax}
use r64_db_engine.Config.Cadence.Printed.{parse_cadence-print, minutes, symbol, factor}
use r64_db_engine.Config.Env.{substitute_env, literal, variable, Piece}
use r64_db_engine.Config.Env.Rendered.{substitute_env-render, render, IsSubstituted}
use r64_db_engine.Config.Valid.{validate-IsValidConfig, IsValidConfig}

cadence_texts :
    (parse_cadence " 15 M " ≡ ok 900)
    × (parse_cadence "4s" ≡ err (below_minimum "4s"))
    × (parse_cadence "5 x" ≡ err (invalid_syntax "5 x"))
    × (parse_cadence "m" ≡ err (invalid_syntax "m"))
unfolding parse_cadence
cadence_texts = (refl, refl, refl, refl)

parse_cadence-print_example : parse_cadence (print_nat 15 <> symbol minutes) ≡ (
    if ltb (15 * factor minutes) min_cadence_seconds
    then err (below_minimum (print_nat 15 <> symbol minutes))
    else ok (15 * factor minutes))
parse_cadence-print_example = parse_cadence-print 15 minutes

abbrev host_env : String → Option String
host_env n = if n == "HOST" then some "${PORT}" else none

abbrev template : List Piece
template = literal "host: " ∷ variable "HOST" ∷ literal "!" ∷ []

substitute_env-render_example :
    IsSubstituted host_env template (substitute_env (render template) host_env)
unfolding nat_eq
substitute_env-render_example = substitute_env-render template host_env (refl, (refl, (refl, tt)))

env_texts :
    (substitute_env "host: ${HOST}!" host_env ≡ ok "host: ${PORT}!")
    × (substitute_env "${B} ${A} ${B} ${HOST" host_env ≡ err ("A" ∷ "B" ∷ []))
    × (substitute_env "$${HOST} ${host} $" host_env ≡ ok "$${PORT} ${host} $")
unfolding substitute_env string_eq nat_eq r64_db_engine.Config.Env.sorted_set
env_texts = (refl, refl, refl)

abbrev orders : Option Mode → Option String → TableConfig
orders mode key = record {
  source = "public.orders";
  target = "Orders";
  mode = mode;
  incremental_key = key;
  incremental_type = timestamp;
  cadence = none;
  max_rows = none;
  ascii_sanitize = none;
}

abbrev defaults : Mode → DefaultsConfig
defaults mode = record { cadence = "60s"; mode = mode; max_rows = none; ascii_sanitize = true }

abbrev sample : Config
sample = record {
  dialect = "dynamodb";
  postgres = none;
  clickhouse = none;
  profile = none;
  extra = field "dynamodb" (Json.obj end) end;
  defaults = defaults full_refresh;
  tables = orders (some incremental) (some "updated_at") ∷ [];
  runtime = record { worker_pool_size = 4; shutdown_grace_seconds = 30 };
}

abbrev dialects : List String
dialects = "postgres" ∷ "dynamodb" ∷ []

sample_validates : validate dialects sample ≡ ok tt
unfolding validate check_incremental unique_targets reject_unknown_top_level_keys
    check_driver_config source_block get string_eq
sample_validates = refl

validate-IsValidConfig_example : IsValidConfig dialects sample
validate-IsValidConfig_example = validate-IsValidConfig dialects sample sample_validates
