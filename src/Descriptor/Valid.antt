-- ===== src/Descriptor/Valid.antt =====
-- core/descriptor.py: the contract of a descriptor.
use r64_db_engine.Base.{
  String, ◌≡◌, ◌↔◌, refl, Bool, true, not, ◌==◌, Option, none, some, string_eq, is_space, All,
  eq_of_==, ==-refl,
}
use r64_db_engine.Base.Results.{ok, >>=-eq-ok, guard-eq-ok}
use r64_db_engine.Rest.Texts.{lower, strip}
use r64_db_engine.Descriptor.{
  DriverMetadata, check_type_maps, check_error_maps, source_types, reason_codes, blank_extra,
  validate, declare,
}
use r64_db_engine.Descriptor.Names.{IsEnvName, validate_env_key_names-ok}
use r64_db_engine.Descriptor.Filled.{IsFilled, IsFilled-ok, Distinct, Distinct-ok}
use r64_db_engine.Descriptor.Maps.{
  IsValidTypeMap, IsValidErrorMap, check_type_maps-ok, check_error_maps-ok, last_guard, last_check,
}

abbrev pub IsFilledExtra : Option String → Type 0
IsFilledExtra none = Unit
IsFilledExtra (some name) = IsFilled name

IsFilledExtra-ok : (o : Option String) → (not (blank_extra o) ≡ true) ↔ IsFilledExtra o
IsFilledExtra-ok none = ((λ h. tt), (λ h. refl))
IsFilledExtra-ok (some name) = IsFilled-ok name

-- The contract of `DriverMetadata` and of the maps that it holds.
pub record IsValidDescriptor (compiles : String → Bool) (d : DriverMetadata) : Type 0 where
  pub types_valid : All IsValidTypeMap d.type_mappings
  pub errors_valid : All (IsValidErrorMap compiles) d.custom_errors
  pub dialect_filled : IsFilled d.dialect
  pub dialect_canonical : d.dialect ≡ lower (strip is_space d.dialect)
  pub engine_filled : IsFilled d.engine_name
  pub profile_filled : IsFilled d.config_profile
  pub summary_filled : IsFilled d.doc_summary
  pub env_names : All IsEnvName d.required_env_keys
  pub extra_filled : IsFilledExtra d.extras_package
  pub types_distinct : Distinct (source_types d.type_mappings)
  pub codes_distinct : Distinct (reason_codes d.custom_errors)

==-ok : (a b : String) → a ≡ b → (a == b) ≡ true
==-ok a b h = rw h (==-refl b)

declare_of_valid :
    (compiles : String → Bool) (d : DriverMetadata)
    → IsValidDescriptor compiles d
    → declare compiles d ≡ ok d
unfolding declare validate
declare_of_valid compiles d v =
    rw
      (
        (check_type_maps-ok d.type_mappings).1 v.types_valid,
        (check_error_maps-ok compiles d.custom_errors).1 v.errors_valid,
        (IsFilled-ok d.dialect).1 v.dialect_filled,
        ==-ok d.dialect _ v.dialect_canonical,
        (IsFilled-ok d.engine_name).1 v.engine_filled,
        (IsFilled-ok d.config_profile).1 v.profile_filled,
        (IsFilled-ok d.doc_summary).1 v.summary_filled,
        (validate_env_key_names-ok d.required_env_keys).1 v.env_names,
        (IsFilledExtra-ok d.extras_package).1 v.extra_filled,
        (Distinct-ok (source_types d.type_mappings)).1 v.types_distinct,
        (Distinct-ok (reason_codes d.custom_errors)).1 v.codes_distinct,
      )
      refl

valid_of_declare :
    (compiles : String → Bool) (d : DriverMetadata)
    → declare compiles d ≡ ok d
    → IsValidDescriptor compiles d
unfolding declare validate
valid_of_declare compiles d h =
    let (_, types, k1) = >>=-eq-ok (check_type_maps d.type_mappings) _ h in
    let (_, errors, k2) = >>=-eq-ok (check_error_maps compiles d.custom_errors) _ k1 in
    let (_, own, k3) = >>=-eq-ok (validate d) _ k2 in
    let (h1, codes) = last_check _ _ own in
    let (h2, sources) = last_check _ _ h1 in
    let (h3, extra) = last_guard _ _ _ h2 in
    let (h4, env) = last_check _ _ h3 in
    let (h5, summary) = last_guard _ _ _ h4 in
    let (h6, profile) = last_guard _ _ _ h5 in
    let (h7, engine) = last_guard _ _ _ h6 in
    let (h8, canonical) = last_guard _ _ _ h7 in
    record {
      types_valid = (check_type_maps-ok d.type_mappings).0 types;
      errors_valid = (check_error_maps-ok compiles d.custom_errors).0 errors;
      dialect_filled = (IsFilled-ok d.dialect).0 (guard-eq-ok _ _ h8);
      dialect_canonical = eq_of_== d.dialect _ canonical;
      engine_filled = (IsFilled-ok d.engine_name).0 engine;
      profile_filled = (IsFilled-ok d.config_profile).0 profile;
      summary_filled = (IsFilled-ok d.doc_summary).0 summary;
      env_names = (validate_env_key_names-ok d.required_env_keys).0 env;
      extra_filled = (IsFilledExtra-ok d.extras_package).0 extra;
      types_distinct = (Distinct-ok (source_types d.type_mappings)).0 sources;
      codes_distinct = (Distinct-ok (reason_codes d.custom_errors)).0 codes;
    }

-- A descriptor can be declared exactly when it satisfies the contract: filled names, environment keys of
-- capital letters, digits and underscores only, no source type or reason code twice, a note on each type
-- that is not carried as it is, and operator messages in which no placeholder stands.
pub declare-IsValidDescriptor :
    (compiles : String → Bool) (d : DriverMetadata)
    → (declare compiles d ≡ ok d) ↔ IsValidDescriptor compiles d
declare-IsValidDescriptor compiles d = (valid_of_declare compiles d, declare_of_valid compiles d)
