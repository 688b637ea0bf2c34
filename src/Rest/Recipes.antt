-- ===== src/Rest/Recipes.antt =====
-- drivers/rest/recipes.py: the recipe book as the loader builds it. A closed set of names is a
-- data type.
pub mod Parse
pub mod Book
pub mod Threading
pub mod Load
pub mod Paginated
pub mod Pinned
pub mod Named
pub mod Ordered
pub mod Loaded
use r64_db_engine.Base.{ℕ, String, Option, some, List, []}
use r64_db_engine.Base.Decimal.{ℤ}
use r64_db_engine.Base.Dict.{Dict}
use r64_db_engine.Base.Json.{Json, obj, Fields, get, field_names}

pub data AuthType : Type 0 where
  none_auth header query : AuthType

pub data PaginationType : Type 0 where
  single cursor page link_header : PaginationType

pub data Shape : Type 0 where
  records columnar : Shape

pub data Method : Type 0 where
  get_method post_method : Method

pub record Auth : Type 0 where
  pub type : AuthType
  pub env_file : Option String
  pub key_name : Option String

pub record Pagination : Type 0 where
  pub type : PaginationType
  pub cursor_path : Option String
  pub cursor_param : Option String
  pub page_param : Option String
  pub size_param : Option String
  pub page_size : Option ℤ
  pub rel : String
  pub max_pages : ℕ
  pub allowed_next_paths : List String

pub record Extract : Type 0 where
  pub path : String
  pub shape : Shape

pub record Recipe : Type 0 where
  pub name : String
  pub method : Method
  pub url : String
  pub allowed_host : String
  pub auth : Auth
  pub params_schema : Fields
  pub response_schema : Fields
  pub pagination : Pagination
  pub extract : Extract
  pub static_params : Fields

pub record ThreadStep : Type 0 where
  pub recipe : String
  pub bind : Dict String String
  pub params : Fields

pub record Limits : Type 0 where
  pub max_response_bytes : ℕ
  pub timeout_s : ℕ

pub data OutputType : Type 0 where
  int64 double string bool_type timestamp_us : OutputType

pub record OutputColumn : Type 0 where
  pub name : String
  pub source : String
  pub type : OutputType
  pub tz : Option String

pub record RecipeBook : Type 0 where
  pub dataset : String
  pub recipes : Dict String Recipe
  pub threading : List ThreadStep
  pub output : List OutputColumn
  pub limits : Limits

names_of : Option Json → List String
names_of (some (obj fs)) = field_names fs
names_of _ = []

-- `Recipe.declared_params`, of `properties` that is a mapping or absent.
unfoldable pub declared_params : Recipe → List String
unfolding names_of
declared_params recipe = names_of (get "properties" recipe.params_schema)
