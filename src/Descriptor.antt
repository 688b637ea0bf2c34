-- ===== src/Descriptor.antt =====
-- core/descriptor.py: what a driver declares of itself, and the contract that a declaration satisfies.
-- The checks on the classes of the attributes (`isinstance`) are the types of the fields. `re.compile` is a
-- parameter: whether a pattern is a regular expression. Messages are shortened.
pub mod Names
pub mod Placeholders
pub mod Filled
pub mod Maps
pub mod Valid
use Prim.Native.Char.{code}
use r64_db_engine.Base.{
  ℕ, String, Bool, true, false, not, ◌&&◌, ◌||◌, ◌==◌, Option, none, some, List, [], ◌∷◌,
  if◌then◌else◌, nat_eq, string_eq, is_empty, is_space, is_digit, contains, any, leb,
}
use r64_db_engine.Base.Results.{Result, ok, guard, ◌>>=◌, ◌>>◌}
use r64_db_engine.Rest.Texts.{lower, strip}

pub data DescriptorError : Type 0 where
  descriptor_error : String → DescriptorError

-- `NONE` is `no_auth`.
pub data AuthMode : Type 0 where
  no_auth password keypair iam : AuthMode

pub data Representability : Type 0 where
  native coerced string_fallback refused : Representability

pub record TypeMap : Type 0 where
  pub source_type : String
  pub arrow_type : String
  pub verdict : Representability
  pub note : String

pub record ErrorMap : Type 0 where
  pub pattern : String
  pub reason_code : String
  pub operator_message : String

pub record Capabilities : Type 0 where
  pub supports_arrow : Bool
  pub supports_streaming : Bool
  pub supports_incremental : Bool
  pub supports_catalog : Bool
  pub stable_scan_order : Bool
  pub tz_sensitive : Bool

pub record DriverMetadata : Type 0 where
  pub dialect : String
  pub engine_name : String
  pub auth_mode : AuthMode
  pub required_env_keys : List String
  pub config_profile : String
  pub doc_summary : String
  pub capabilities : Capabilities
  pub type_mappings : List TypeMap
  pub custom_errors : List ErrorMap
  pub extras_package : Option String
  pub notes : List String

-- `not s.strip()`
abbrev pub is_blank : String → Bool
is_blank s = is_empty (strip is_space s)

abbrev pub is_native : Representability → Bool
is_native native = true
is_native _ = false

-- `TypeMap.__post_init__`
unfoldable pub check_type_map : TypeMap → Result DescriptorError (Unit {0})
check_type_map tm =
    guard (not (is_blank tm.source_type))
      (descriptor_error "source_type must be a non-empty type name")
    >> guard (not (is_blank tm.arrow_type))
        (descriptor_error "must name the arrow type it lands as")
    >> guard (is_native tm.verdict || not (is_blank tm.note))
        (descriptor_error "must carry a note saying what was traded")

-- ---- what could interpolate a value into a message

-- `[^k]*k` behind here
abbrev pub has_code : ℕ → String → Bool
has_code k String.[] = false
has_code k (String.◌∷◌ c s) = code c == k || has_code k s

-- `[-#0-9.+ ]`
abbrev pub is_flag : ℕ → Bool
is_flag c = (c == b'-' || c == b'#') || (is_digit c || (c == b'.' || (c == b'+' || c == b' ')))

-- `[sdrfgexo%]`
abbrev pub is_conversion : ℕ → Bool
is_conversion c =
    ((c == b's' || c == b'd') || (c == b'r' || c == b'f'))
    || ((c == b'g' || c == b'e') || (c == b'x' || (c == b'o' || c == b'%')))

-- `[-#0-9.+ ]*[sdrfgexo%]`; no flag is a conversion
abbrev pub has_conversion : String → Bool
has_conversion String.[] = false
has_conversion (String.◌∷◌ c s) =
    let more = has_conversion s in if is_flag (code c) then more else is_conversion (code c)

-- The ASCII part of `\w`
abbrev pub is_word : ℕ → Bool
is_word c = (is_digit c || c == b'_') || ((leb b'A' c && leb c b'Z') || (leb b'a' c && leb c b'z'))

abbrev pub starts_with_class : (ℕ → Bool) → String → Bool
starts_with_class holds String.[] = false
starts_with_class holds (String.◌∷◌ c s) = holds (code c)

-- `\([^)]*\)`
abbrev pub has_group : String → Bool
has_group String.[] = false
has_group (String.◌∷◌ c s) = code c == b'(' && has_code b')' s

-- `\{?\w+`
abbrev pub has_name : String → Bool
has_name String.[] = false
has_name (String.◌∷◌ c s) = is_word (code c) || (code c == b'{' && starts_with_class is_word s)

-- The five alternatives, at one place.
abbrev pub opens_value : ℕ → String → Bool
opens_value c s =
    ((c == b'{' && has_code b'}' s) || (c == b'%' && has_conversion s))
    || ((c == b'%' && has_group s)
        || ((c == b'$' && has_name s) || (c == b'\\' && starts_with_class is_digit s)))

-- `_INTERPOLATION.search(s) is not None`
unfoldable pub interpolates : String → Bool
interpolates String.[] = false
interpolates (String.◌∷◌ c s) = opens_value (code c) s || interpolates s

-- `ErrorMap.__post_init__`
unfoldable pub check_error_map : (String → Bool) → ErrorMap → Result DescriptorError (Unit {0})
check_error_map compiles em =
    guard (not (is_blank em.pattern)) (descriptor_error "pattern must be a non-empty regex")
    >> guard (compiles em.pattern) (descriptor_error "pattern is not a valid regex")
    >> guard (not (is_blank em.reason_code)) (descriptor_error "must name a reason code")
    >> guard (not (is_blank em.operator_message))
        (descriptor_error "must carry an operator message")
    >> guard (not (interpolates em.operator_message))
        (descriptor_error "operator_message contains an interpolation placeholder")

-- ---- the contract of a descriptor

-- `_VALUE_SHAPED`
abbrev pub is_value_shaped : ℕ → Bool
is_value_shaped c =
    ((c == b'=' || c == b' ') || (c == 9 || c == 10)) || (c == b':' || (c == b'/' || c == b'@'))

abbrev pub any_code : (ℕ → Bool) → String → Bool
any_code holds String.[] = false
any_code holds (String.◌∷◌ c s) = holds (code c) || any_code holds s

abbrev pub is_upper : ℕ → Bool
is_upper c = leb b'A' c && leb c b'Z'

-- `[A-Z0-9_]`
abbrev pub is_env_code : ℕ → Bool
is_env_code c = is_upper c || (is_digit c || c == b'_')

-- `[A-Z0-9_]*$`, where `$` also stands before a line feed at the end
unfoldable pub env_tail : String → Bool
env_tail String.[] = true
env_tail (String.◌∷◌ c s) =
    let more = env_tail s in if is_env_code (code c) then more else code c == 10 && is_empty s

-- `_ENV_KEY_NAME.match(key)`
abbrev pub env_key_name : String → Bool
env_key_name String.[] = false
env_key_name (String.◌∷◌ c s) = is_upper (code c) && env_tail s

-- `_validate_env_key_names`
unfoldable pub validate_env_key_names : List String → Result DescriptorError (Unit {0})
validate_env_key_names [] = ok tt
validate_env_key_names (key ∷ keys) =
    let rest = validate_env_key_names keys in
    guard (not (any_code is_value_shaped key)) (descriptor_error "entry is value-shaped")
    >> guard (env_key_name key) (descriptor_error "entry is not a well-formed env-var name")
    >> rest

-- The loops over `seen` and `codes`.
unfoldable pub reject_repeated : List String → List String → Result DescriptorError (Unit {0})
reject_repeated seen [] = ok tt
reject_repeated seen (name ∷ names) =
    let rest = reject_repeated (name ∷ seen) names in
    guard (not (contains seen name)) (descriptor_error "declared twice") >> rest

abbrev pub source_types : List TypeMap → List String
source_types [] = []
source_types (tm ∷ tms) = tm.source_type ∷ source_types tms

abbrev pub reason_codes : List ErrorMap → List String
reason_codes [] = []
reason_codes (em ∷ ems) = em.reason_code ∷ reason_codes ems

-- `extras_package is not None and not extras_package.strip()`
abbrev pub blank_extra : Option String → Bool
blank_extra none = false
blank_extra (some name) = is_blank name

-- `DriverMetadata.validate`
unfoldable pub validate : DriverMetadata → Result DescriptorError (Unit {0})
validate d =
    guard (not (is_blank d.dialect)) (descriptor_error "dialect must be a non-empty registry key")
    >> guard (d.dialect == lower (strip is_space d.dialect))
        (descriptor_error "dialect must be lowercase and unpadded")
    >> guard (not (is_blank d.engine_name)) (descriptor_error "must carry a human engine_name")
    >> guard (not (is_blank d.config_profile)) (descriptor_error "must name a config_profile")
    >> guard (not (is_blank d.doc_summary)) (descriptor_error "must carry a doc_summary")
    >> validate_env_key_names d.required_env_keys
    >> guard (not (blank_extra d.extras_package))
        (descriptor_error "extras_package must be a name or None")
    >> reject_repeated [] (source_types d.type_mappings)
    >> reject_repeated [] (reason_codes d.custom_errors)

unfoldable pub check_type_maps : List TypeMap → Result DescriptorError (Unit {0})
check_type_maps [] = ok tt
check_type_maps (tm ∷ tms) = let rest = check_type_maps tms in check_type_map tm >> rest

unfoldable pub check_error_maps :
    (String → Bool) → List ErrorMap → Result DescriptorError (Unit {0})
check_error_maps compiles [] = ok tt
check_error_maps compiles (em ∷ ems) =
    let rest = check_error_maps compiles ems in check_error_map compiles em >> rest

-- A module that declares a descriptor: the maps are constructed before the descriptor that holds them.
unfoldable pub declare : (String → Bool) → DriverMetadata → Result DescriptorError DriverMetadata
declare compiles d = do
  check_type_maps d.type_mappings
  check_error_maps compiles d.custom_errors
  validate d
  ok d
