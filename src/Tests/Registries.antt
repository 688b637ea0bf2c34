-- ===== src/Tests/Registries.antt =====
-- drivers/__init__.py at a concrete overlay, whose classes are numbers.
use r64_db_engine.Base.{ℕ, String, ◌≡◌, refl, true, none, [], ◌∷◌, string_eq, if◌then◌else◌, ◌==◌}
use r64_db_engine.Base.Results.{Result, ok, err}
use r64_db_engine.Base.Dict.{Dict, lookup, insert, erase}
use r64_db_engine.Base.Json.{Json, end, field, get}
use r64_db_engine.Config.{
  Config, validate, full_refresh, check_incremental, unique_targets, reject_unknown_top_level_keys,
  check_driver_config, source_block,
}
use r64_db_engine.Config.Env.{sorted_set, insert_sorted}
use r64_db_engine.Registry.{
  Modules, RegistryError, shipped, unknown_dialect, import_error, Overlay, iter, set_item, del_item,
  resolve, descriptors, descriptors_of,
}
use r64_db_engine.Registry.Resolved.{IsRegistered, resolve-validate}

-- psycopg is not installed.
abbrev import_driver : String → Result RegistryError ℕ
import_driver name = if name == "PostgresDriver" then err (import_error "psycopg") else ok 1

abbrev installed : Modules
installed = record {
  Driver = ℕ;
  Metadata = String;
  driver_of = λ entry. import_driver entry.driver_class;
  descriptor_of = λ entry. ok entry.descriptor_attr;
  declared = λ n. "FAKE";
}

abbrev one_fake : Overlay installed
one_fake = set_item installed [] "fake" 7

registered_names :
    (iter installed one_fake ≡ "clickhouse" ∷ "fake" ∷ "postgres" ∷ "rest" ∷ [])
    × (resolve installed one_fake "fake" ≡ ok 7)
    × (resolve installed [] "fake"
        ≡ err (unknown_dialect "fake" ("clickhouse" ∷ "postgres" ∷ "rest" ∷ [])))
    × (resolve installed one_fake "postgres" ≡ err (import_error "psycopg"))
    × (del_item installed one_fake "rest" ≡ err (shipped "rest"))
    × (del_item installed one_fake "fake" ≡ ok [])
unfolding iter resolve sorted_set insert_sorted insert lookup string_eq erase
registered_names = (refl, refl, refl, refl, refl, refl)

abbrev fake_config : Config
fake_config = record {
  dialect = "fake";
  postgres = none;
  clickhouse = none;
  profile = none;
  extra = field "fake" (Json.obj end) end;
  defaults = record {
    cadence = "60s";
    mode = full_refresh;
    max_rows = none;
    ascii_sanitize = true;
  };
  tables = [];
  runtime = record { worker_pool_size = 4; shutdown_grace_seconds = 30 };
}

fake_config_validates : validate (iter installed one_fake) fake_config ≡ ok tt
unfolding validate check_incremental unique_targets reject_unknown_top_level_keys
    check_driver_config source_block get string_eq iter sorted_set insert_sorted insert
fake_config_validates = refl

abbrev sweep : Dict String String
sweep =
    ("clickhouse", "CLICKHOUSE")
    ∷ ("fake", "FAKE")
    ∷ ("postgres", "POSTGRES")
    ∷ ("rest", "REST")
    ∷ []

swept : descriptors installed one_fake ≡ ok sweep
unfolding descriptors descriptors_of iter sorted_set insert_sorted insert lookup string_eq
swept = refl

resolve-validate_example : IsRegistered installed one_fake "fake"
resolve-validate_example = resolve-validate installed one_fake fake_config fake_config_validates
