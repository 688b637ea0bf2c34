-- ===== src/Rest/Engine/Request.antt =====
-- drivers/rest/engine.py: `read_secret`, the peer check and `_request`. Files, names, the client's
-- answers and `json.loads` are parameters.
use r64_db_engine.Base.{
  ℕ, ◌/◌, ◌%◌, String, Bool, true, ◌&&◌, ◌||◌, not, Option, none, some, List, is_space, is_empty,
  contains, leb, ltb, ◌==◌, nat_eq, string_eq,
}
use r64_db_engine.Base.Results.{Result, ok, err, ◌>>=◌, ◌>>◌, guard}
use r64_db_engine.Base.Json.{Json, text, Fields, end, field}
use r64_db_engine.Rest.{
  no_env_file, open_env_file, empty_env_file, transport, http_status, too_large, peer_unknown,
  peer_not_vetted, redirect, not_json, RestError, security, execution, validation, foreign,
}
use r64_db_engine.Rest.Texts.{strip}
use r64_db_engine.Rest.Recipes.{
  AuthType, none_auth, header, query, Method, get_method, post_method, Auth, Recipe, RecipeBook,
}
use r64_db_engine.Rest.Security.{
  Urls, Network, text_of, blank, assert_public_address, assert_destination,
}
use r64_db_engine.Rest.Engine.{put}

-- A file of secrets: the permission bits of its mode, and its text.
pub record EnvFile : Type 0 where
  pub mode : ℕ
  pub content : String

pub record Request : Type 0 where
  pub method : Method
  pub url : String
  pub params : Option Fields
  pub json : Option Fields
  pub headers : Fields

-- What `json.loads` raises: a `JSONDecodeError`, or an exception that is none.
pub data LoadError : Type 0 where
  decode_error other_error : String → LoadError

-- `peer`: the address that the connection's stream reports. `length`: that of the body, if it can be
-- read. `content`: what `json.loads` makes of the body.
pub record Response : Type 0 where
  pub peer : Option String
  pub status_code : ℕ
  pub link : String
  pub length : Result String ℕ
  pub content : Result LoadError Json

-- `mode & (S_IRGRP | S_IROTH | S_IWGRP | S_IWOTH)`
abbrev pub is_shared : ℕ → Bool
unfolding nat_eq
is_shared mode =
    mode / 32 % 2 == 1 || (mode / 16 % 2 == 1 || (mode / 4 % 2 == 1 || mode / 2 % 2 == 1))

abbrev pub secret_of : String → Option EnvFile → Result RestError String
unfolding strip
secret_of env_file none = err (execution (no_env_file env_file))
secret_of env_file (some f) = do
  guard (not (is_shared f.mode)) (execution (open_env_file env_file f.mode))
  guard (not (is_empty (strip is_space f.content))) (execution (empty_env_file env_file))
  ok (strip is_space f.content)

unfoldable pub read_secret : (String → Option EnvFile) → String → Result RestError String
unfolding strip
read_secret files env_file = secret_of env_file (files env_file)

unfoldable pub authorise_by :
    AuthType → (String → Option EnvFile) → Auth → Fields → Result RestError (Fields × Fields)
unfolding read_secret put
authorise_by none_auth files auth params = ok (params, end)
authorise_by header files auth params = do
  secret ← read_secret files (text_of auth.env_file)
  ok (params, field (text_of auth.key_name) (text secret) end)
authorise_by query files auth params = do
  secret ← read_secret files (text_of auth.env_file)
  ok (put (text_of auth.key_name) (text secret) params, end)

-- The query and the headers of a request, with the secret where the recipe puts it.
unfoldable pub authorise :
    (String → Option EnvFile) → Auth → Fields → Result RestError (Fields × Fields)
unfolding authorise_by
authorise files auth params = authorise_by auth.type files auth params

unfoldable pub build_request : Method → String → Fields → Fields → Request
build_request get_method url asked headers = record {
  method = get_method;
  url = url;
  params = some asked;
  json = none;
  headers = headers;
}
build_request post_method url asked headers = record {
  method = post_method;
  url = url;
  params = none;
  json = some asked;
  headers = headers;
}

-- `_assert_connected_peer_was_vetted`
unfoldable pub assert_connected_peer_was_vetted :
    Network → Option String → List String → ℕ → Result RestError (Unit {0})
assert_connected_peer_was_vetted net peer vetted page = do
  guard (not (blank peer)) (security (peer_unknown page))
  assert_public_address net (text_of peer)
  guard (contains vetted (text_of peer)) (security (peer_not_vetted (text_of peer) vetted))

abbrev pub loads : Result LoadError Json → Result RestError Json
loads (ok payload) = ok payload
loads (err (decode_error message)) = err (validation (not_json message))
loads (err (other_error message)) = err (foreign message)

-- `response.read()`
abbrev pub read_body : Result String ℕ → Result RestError ℕ
read_body (ok length) = ok length
read_body (err message) = err (foreign message)

abbrev pub sent : ℕ → Result String Response → Result RestError Response
sent page (ok response) = ok response
sent page (err message) = err (execution (transport page message))

-- The checks on a response before its body is read, and the reading.
unfoldable pub receive : Network → List String → ℕ → ℕ → Response → Result RestError Json
receive net vetted page max_response_bytes response = do
  assert_connected_peer_was_vetted net response.peer vetted page
  guard (not (leb 300 response.status_code && ltb response.status_code 400))
      (security (redirect page response.status_code))
  guard (ltb response.status_code 400) (execution (http_status page response.status_code))
  length ← read_body response.length
  guard (leb length max_response_bytes) (execution (too_large length max_response_bytes))
  loads response.content

-- What the requests of one recipe meet, page by page: the names' resolution may change between two.
pub record World : Type 0 where
  pub urls : Urls
  pub files : String → Option EnvFile
  pub net : ℕ → Network
  pub client : ℕ → Request → Result String Response
  -- `jsonschema.validate`, with the violation that it raises
  pub violation : Fields → Json → Option String

-- `_request` up to the sending: the addresses that were vetted, and the request.
unfoldable pub prepare :
    World → Recipe → String → Fields → ℕ → Result RestError (List String × Request)
unfolding authorise build_request assert_destination
prepare world recipe url params page = do
  addresses ← assert_destination (world.net page) world.urls url recipe.allowed_host true
  parts ← authorise world.files recipe.auth params
  ok (addresses, build_request recipe.method url parts.0 parts.1)

-- `_request` from the sending on.
unfoldable pub exchange :
    World → RecipeBook → ℕ → List String × Request → Result RestError (Json × Response)
unfolding receive
exchange world book page (addresses, request) = do
  response ← sent page (world.client page request)
  payload ← receive (world.net page) addresses page book.limits.max_response_bytes response
  ok (payload, response)
