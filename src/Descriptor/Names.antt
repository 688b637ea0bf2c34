-- ===== src/Descriptor/Names.antt =====
-- core/descriptor.py: the names of environment variables that the checks let through.
use Prim.Native.Char.{code}
use r64_db_engine.Base.{
  ℕ, String, ◌≡◌, ◌↔◌, refl, Bool, true, false, ◌&&◌, List, [], ◌∷◌, nat_eq, All, arith,
}
use r64_db_engine.Base.Results.{ok}
use r64_db_engine.Descriptor.{
  is_value_shaped, any_code, is_upper, is_env_code, env_tail, env_key_name, validate_env_key_names,
  starts_with_class,
}

abbrev pub all_code : (ℕ → Bool) → String → Bool
all_code holds String.[] = true
all_code holds (String.◌∷◌ c s) = holds (code c) && all_code holds s

-- Capital letters, digits and underscores, a capital letter first.
abbrev pub IsEnvName : String → Type 0
IsEnvName key = (starts_with_class is_upper key ≡ true) × (all_code is_env_code key ≡ true)

env_code-plain : (c : ℕ) → is_env_code c ≡ true → is_value_shaped c ≡ false
env_code-plain c h = ground arith

env_tail-all :
    (s : String) → any_code is_value_shaped s ≡ false → env_tail s ≡ all_code is_env_code s
unfolding env_tail
env_tail-all String.[] h = refl
env_tail-all (String.◌∷◌ c s) h = ground (arith, env_tail-all s)

plain : (s : String) → all_code is_env_code s ≡ true → any_code is_value_shaped s ≡ false
plain String.[] h = refl
plain (String.◌∷◌ c s) h = ground (arith, env_code-plain (code c), plain s)

-- The `$` of `_ENV_KEY_NAME` stands before a line feed too, but a key with one is value-shaped.
env_key_name-ok :
    (key : String)
    → ((any_code is_value_shaped key ≡ false) × (env_key_name key ≡ true)) ↔ IsEnvName key
env_key_name-ok String.[] = ((λ h. cc), (λ h. cc))
env_key_name-ok (String.◌∷◌ c s) = (
  λ h. (ground arith, ground (arith, env_tail-all s)),
  λ h. (plain (String.◌∷◌ c s) h.1, ground (arith, env_tail-all s, plain s)),
)

pub validate_env_key_names-ok :
    (keys : List String) → (validate_env_key_names keys ≡ ok tt) ↔ All IsEnvName keys
unfolding validate_env_key_names
validate_env_key_names-ok [] = (λ h. tt, λ h. refl)
validate_env_key_names-ok (key ∷ keys) = (
  λ h. ((env_key_name-ok key).0 (ground arith), (validate_env_key_names-ok keys).0 (ground arith)),
  λ h.
      let (shaped, named) = (env_key_name-ok key).1 h.0 in
      rw (shaped, named) ((validate_env_key_names-ok keys).1 h.1),
)
