-- ===== src/Tests/Descriptors.antt =====
-- core/descriptor.py at concrete descriptors.
use r64_db_engine.Base.{
  String, ◌≡◌, ◌↔◌, refl, Bool, true, false, none, List, [], ◌∷◌, string_eq, nat_eq,
}
use r64_db_engine.Base.Results.{ok, err}
use r64_db_engine.Rest.Texts.{lower, strip}
use r64_db_engine.Descriptor.{
  descriptor_error, DriverMetadata, TypeMap, ErrorMap, password, native, coerced, declare, validate,
  check_type_map, check_error_map, check_type_maps, check_error_maps, reject_repeated, interpolates,
  validate_env_key_names, env_tail,
}
use r64_db_engine.Descriptor.Valid.{IsValidDescriptor, declare-IsValidDescriptor}

abbrev any_regex : String → Bool
any_regex pattern = true

abbrev bigint_map : TypeMap
bigint_map = record { source_type = "bigint"; arrow_type = "int64"; verdict = native; note = "" }

abbrev numeric_map : String → TypeMap
numeric_map note = record {
  source_type = "numeric";
  arrow_type = "float64";
  verdict = coerced;
  note = note;
}

abbrev refused_login : String → ErrorMap
refused_login message = record {
  pattern = "password authentication failed";
  reason_code = "auth_failed";
  operator_message = message;
}

abbrev warehouse : List String → List TypeMap → List ErrorMap → DriverMetadata
warehouse keys types errors = record {
  dialect = "warehouse";
  engine_name = "Warehouse";
  auth_mode = password;
  required_env_keys = keys;
  config_profile = "warehouse";
  doc_summary = "Pulls a table.";
  capabilities = record {
    supports_arrow = false;
    supports_streaming = false;
    supports_incremental = true;
    supports_catalog = false;
    stable_scan_order = true;
    tz_sensitive = false;
  };
  type_mappings = types;
  custom_errors = errors;
  extras_package = none;
  notes = [];
}

abbrev declared : DriverMetadata
declared =
    warehouse ("WH_HOST" ∷ "WH_2" ∷ []) (bigint_map ∷ numeric_map "Exact to 15 digits." ∷ [])
      (refused_login "Check the user and the password." ∷ [])

declarations :
    (declare any_regex declared ≡ ok declared)
    × (declare any_regex (warehouse ("WH=1" ∷ []) [] [])
        ≡ err (descriptor_error "entry is value-shaped"))
    × (declare any_regex (warehouse ("wh" ∷ []) [] [])
        ≡ err (descriptor_error "entry is not a well-formed env-var name"))
    × (declare any_regex (warehouse [] (bigint_map ∷ bigint_map ∷ []) [])
        ≡ err (descriptor_error "declared twice"))
    × (declare any_regex (warehouse [] (numeric_map " " ∷ []) [])
        ≡ err (descriptor_error "must carry a note saying what was traded"))
    × (declare any_regex (warehouse [] [] (refused_login "Host {host} refused." ∷ []))
        ≡ err (descriptor_error "operator_message contains an interpolation placeholder"))
unfolding declare check_type_maps check_type_map strip check_error_maps check_error_map interpolates
    nat_eq validate string_eq lower validate_env_key_names env_tail reject_repeated
declarations = (refl, refl, refl, refl, refl, refl)

placeholders :
    (interpolates "a {b" ≡ false)
    × (interpolates "100 % sure" ≡ true)
    × (interpolates "50 %." ≡ false)
    × (interpolates "costs $5" ≡ true)
    × (interpolates "%(name" ≡ false)
    × (interpolates "\\1" ≡ true)
unfolding interpolates nat_eq
placeholders = (refl, refl, refl, refl, refl, refl)

declare-IsValidDescriptor_example :
    (declare any_regex declared ≡ ok declared) ↔ IsValidDescriptor any_regex declared
declare-IsValidDescriptor_example = declare-IsValidDescriptor any_regex declared
