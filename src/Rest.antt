-- ===== src/Rest.antt =====
-- drivers/rest: the exceptions that its modules share, each with what its message shows.
pub mod Texts
pub mod Security
pub mod Recipes
pub mod Engine
pub mod Drift
use r64_db_engine.Base.{ℕ, String, Option, List}
use r64_db_engine.Base.Json.{Json}

-- `RecipeSecurityError`
pub data Refusal : Type 0 where
  not_https : String → Refusal
  no_hostname : Refusal
  host_not_allowed : String → Refusal
  dns_error : Refusal
  no_addresses : Refusal
  unparseable_address : String → Refusal
  address_category : String → String → Refusal
  not_routable : String → Refusal
  next_malformed : Refusal
  next_not_https : Refusal
  next_userinfo : Refusal
  next_no_host : Refusal
  next_host : String → Refusal
  next_port : Option ℕ → Refusal
  next_path : List String → Refusal
  peer_unknown : ℕ → Refusal
  peer_not_vetted : String → List String → Refusal
  redirect : ℕ → ℕ → Refusal
  undeclared : List String → List String → Refusal

-- `RecipeExecutionError`; `wrapped` is what `scrub_boundary` makes of a foreign exception.
pub data Failure : Type 0 where
  no_env_file : String → Failure
  open_env_file : String → ℕ → Failure
  empty_env_file : String → Failure
  transport : ℕ → String → Failure
  http_status : ℕ → ℕ → Failure
  too_large : ℕ → ℕ → Failure
  page_cap : ℕ → Failure
  unbound : String → String → Failure
  wrapped : ℕ → String → Failure

-- `ResponseValidationError`
pub data Mismatch : Type 0 where
  schema : ℕ → String → Mismatch
  absent : String → Mismatch
  not_a_list : String → Mismatch
  not_an_object : String → Mismatch
  no_arrays : String → Mismatch
  lengths_differ : List ℕ → Mismatch
  not_json : String → Mismatch

-- What the package raises; `invariant` is `EngineInvariantError`, `foreign` any other exception.
pub data RestError : Type 0 where
  security : Refusal → RestError
  execution : Failure → RestError
  validation : Mismatch → RestError
  invariant : String → RestError
  foreign : String → RestError
