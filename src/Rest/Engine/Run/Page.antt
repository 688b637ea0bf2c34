-- ===== src/Rest/Engine/Run/Page.antt =====
-- drivers/rest/engine.py: the errors of one request and the reading of its page.
use r64_db_engine.Base.{
  ℕ, String, ◌≡◌, refl, sym, ap, ◌∙◌, Bool, true, false, not, ◌&&◌, Option, none, some, List, [],
  ◌∷◌, contains, is_empty, is_space, leb, ltb, if◌then◌else◌, string_eq, nat_eq, arith,
}
use r64_db_engine.Base.Results.{Result, ok, err, ◌>>=◌, guard}
use r64_db_engine.Base.Dict.{Dict}
use r64_db_engine.Base.Json.{
  Json, null, bool, num, text, arr, obj, Fields, get, field_names, truthy,
}
use r64_db_engine.Rest.{
  RestError, security, execution, foreign, open_env_file, empty_env_file, peer_unknown, redirect,
  http_status, too_large,
}
use r64_db_engine.Rest.Texts.{strip}
use r64_db_engine.Rest.Recipes.{
  AuthType, none_auth, header, query, PaginationType, single, cursor, page, link_header, Shape,
  records, columnar, Auth, Pagination, Recipe, RecipeBook,
}
use r64_db_engine.Rest.Recipes.Paginated.{HasParams}
use r64_db_engine.Rest.Security.{
  Network, text_of, blank, assert_public_address, assert_destination, confine_next_url,
}
use r64_db_engine.Rest.Engine.{
  zip_columns, array_columns, extract_node, extract, dotted_get, cursor_params, page_params,
  params_by, next_page_params,
}
use r64_db_engine.Rest.Engine.Sound.{
  sound, IsSound, ok-IsSound, err-IsSound, guard-IsSound, >>=-IsSound,
  assert_public_address-IsSound, assert_destination-IsSound, confine_next_url-IsSound,
}
use r64_db_engine.Rest.Engine.Request.{
  EnvFile, Request, Response, World, is_shared, secret_of, read_secret, authorise_by, authorise,
  assert_connected_peer_was_vetted, LoadError, decode_error, other_error, loads, read_body, sent,
  receive, prepare, exchange,
}
use r64_db_engine.Rest.Engine.Run.{
  Next, exhausted, turn, follow_link, next_of, validate_response, read_page,
}

total_by :
    (type : PaginationType) (p : Pagination) (payload : Json) (link : String) (n : ℕ)
    → (type ≡ cursor → (param : String) × (p.cursor_param ≡ some param))
    → (type ≡ page → (param : String) × (p.page_param ≡ some param))
    → (nxt : Option Fields) × (params_by type p payload link n ≡ ok nxt)
unfolding params_by
total_by single p payload link n c g = (none, refl)
total_by cursor p payload link n c g =
    let (param, e) = c refl in
    (_, ap (λ o. cursor_params o (dotted_get payload (text_of p.cursor_path))) e)
total_by page p payload link n c g =
    let (param, e) = g refl in (_, ap (λ o. page_params o p.size_param p.page_size n) e)
total_by link_header p payload link n c g = (_, refl)

-- Under a pagination that names its parameter, the parameters of the next page are found without an
-- `EngineInvariantError`, whatever the response and the page.
next_page_params-total :
    (recipe : Recipe) (payload : Json) (link : String) (n : ℕ)
    → HasParams recipe.pagination
    → (nxt : Option Fields) × (next_page_params recipe payload link n ≡ ok nxt)
unfolding next_page_params
next_page_params-total recipe payload link n has =
    total_by recipe.pagination.type recipe.pagination payload link n has.cursor_named has.page_named

next_page_params-IsSound :
    (recipe : Recipe) (payload : Json) (link : String) (n : ℕ)
    → HasParams recipe.pagination
    → IsSound (next_page_params recipe payload link n)
next_page_params-IsSound recipe payload link n has e h =
    let (nxt, found) = next_page_params-total recipe payload link n has in
    ok-IsSound nxt e (sym found ∙ h)

read_secret-IsSound :
    (files : String → Option EnvFile) (env_file : String) → IsSound (read_secret files env_file)
unfolding read_secret
read_secret-IsSound files env_file = of (files env_file)
  where
    of : (o : Option EnvFile) → IsSound (secret_of env_file o)
    of none = err-IsSound _ refl
    of (some f) =
        >>=-IsSound (guard (not (is_shared f.mode)) (execution (open_env_file env_file f.mode))) _
          (guard-IsSound _ _ refl)
          (λ _.
            >>=-IsSound
              (guard (not (is_empty (strip is_space f.content)))
                (execution (empty_env_file env_file)))
              _ (guard-IsSound _ _ refl) (λ _. ok-IsSound _))

authorise_by-IsSound :
    (t : AuthType) (files : String → Option EnvFile) (auth : Auth) (params : Fields)
    → IsSound (authorise_by t files auth params)
unfolding authorise_by
authorise_by-IsSound none_auth files auth params = ok-IsSound _
authorise_by-IsSound header files auth params =
    >>=-IsSound (read_secret files (text_of auth.env_file)) _
      (read_secret-IsSound files (text_of auth.env_file)) (λ _. ok-IsSound _)
authorise_by-IsSound query files auth params =
    >>=-IsSound (read_secret files (text_of auth.env_file)) _
      (read_secret-IsSound files (text_of auth.env_file)) (λ _. ok-IsSound _)

peer-IsSound :
    (net : Network) (peer : Option String) (vetted : List String) (n : ℕ)
    → IsSound (assert_connected_peer_was_vetted net peer vetted n)
unfolding assert_connected_peer_was_vetted
peer-IsSound net peer vetted n =
    >>=-IsSound (guard (not (blank peer)) (security (peer_unknown n))) _ (guard-IsSound _ _ refl)
      (λ _.
        >>=-IsSound (assert_public_address net (text_of peer)) _
          (assert_public_address-IsSound net (text_of peer)) (λ _. guard-IsSound _ _ refl))

loads-IsSound : (r : Result LoadError Json) → IsSound (loads r)
loads-IsSound (ok payload) = ok-IsSound payload
loads-IsSound (err (decode_error message)) = err-IsSound _ refl
loads-IsSound (err (other_error message)) = err-IsSound _ refl

read_body-IsSound : (r : Result String ℕ) → IsSound (read_body r)
read_body-IsSound (ok length) = ok-IsSound length
read_body-IsSound (err message) = err-IsSound _ refl

sent-IsSound : (n : ℕ) (r : Result String Response) → IsSound (sent n r)
sent-IsSound n (ok response) = ok-IsSound response
sent-IsSound n (err message) = err-IsSound _ refl

receive-IsSound :
    (net : Network) (vetted : List String) (n cap : ℕ) (response : Response)
    → IsSound (receive net vetted n cap response)
unfolding receive
receive-IsSound net vetted n cap response =
    >>=-IsSound (assert_connected_peer_was_vetted net response.peer vetted n) _
      (peer-IsSound net response.peer vetted n)
      (λ _.
        >>=-IsSound
          (guard (not (leb 300 response.status_code && ltb response.status_code 400))
            (security (redirect n response.status_code)))
          _ (guard-IsSound _ _ refl)
          (λ _.
            >>=-IsSound
              (guard (ltb response.status_code 400)
                (execution (http_status n response.status_code)))
              _ (guard-IsSound _ _ refl)
              (λ _.
                >>=-IsSound (read_body response.length) _ (read_body-IsSound response.length)
                  (λ length.
                    >>=-IsSound (guard (leb length cap) (execution (too_large length cap))) _
                      (guard-IsSound _ _ refl) (λ _. loads-IsSound response.content)))))

zip-IsSound :
    (b : Bool) (rows : List Fields) (d : RestError)
    → sound d ≡ true
    → IsSound (if b then ok rows else err d)
zip-IsSound true rows d s = ok-IsSound rows
zip-IsSound false rows d s = err-IsSound d s

zip_columns-IsSound :
    (path : String) (columns : Dict String (List Json)) → IsSound (zip_columns path columns)
unfolding zip_columns
zip_columns-IsSound path [] = err-IsSound _ refl
zip_columns-IsSound path ((k, vs) ∷ columns) = zip-IsSound _ _ _ refl

extract_node-IsSound :
    (shape : Shape) (path : String) (node : Json) → IsSound (extract_node shape path node)
unfolding extract_node
extract_node-IsSound shape path null = err-IsSound _ refl
extract_node-IsSound records path (bool b) = err-IsSound _ refl
extract_node-IsSound records path (num n) = err-IsSound _ refl
extract_node-IsSound records path (text s) = err-IsSound _ refl
extract_node-IsSound records path (arr vs) = ok-IsSound _
extract_node-IsSound records path (obj fs) = err-IsSound _ refl
extract_node-IsSound columnar path (bool b) = err-IsSound _ refl
extract_node-IsSound columnar path (num n) = err-IsSound _ refl
extract_node-IsSound columnar path (text s) = err-IsSound _ refl
extract_node-IsSound columnar path (arr vs) = err-IsSound _ refl
extract_node-IsSound columnar path (obj fs) = zip_columns-IsSound path (array_columns fs)

module _ (world : World) (recipe : Recipe) where
  validate_response-IsSound :
      (payload : Json) (n : ℕ) → IsSound (validate_response world recipe payload n)
  unfolding validate_response
  validate_response-IsSound payload n e h = ground arith

  link-IsSound :
      (b : Bool) (link : String) (params : Fields)
      → IsSound (
          if b then ok exhausted else (do
            url ← confine_next_url world.urls link recipe.url recipe.pagination.allowed_next_paths
            ok (turn url params)))
  link-IsSound true link params = ok-IsSound exhausted
  link-IsSound false link params =
      >>=-IsSound (confine_next_url world.urls link recipe.url recipe.pagination.allowed_next_paths)
        _ (confine_next_url-IsSound world.urls link recipe.url recipe.pagination.allowed_next_paths)
        (λ url. ok-IsSound _)

  odd-IsSound :
      (b : Bool) → IsSound {A = Next} (if b then err (foreign "not a URL") else ok exhausted)
  odd-IsSound true = err-IsSound _ refl
  odd-IsSound false = ok-IsSound exhausted

  follow_link-IsSound :
      (params : Fields) (o : Option Json) → IsSound (follow_link world recipe params o)
  follow_link-IsSound params none = ok-IsSound exhausted
  follow_link-IsSound params (some (text link)) = link-IsSound (is_empty link) link params
  follow_link-IsSound params (some null) = ok-IsSound exhausted
  follow_link-IsSound params (some (bool b)) = odd-IsSound b
  follow_link-IsSound params (some (num n)) = odd-IsSound (truthy (num n))
  follow_link-IsSound params (some (arr vs)) = odd-IsSound (truthy (arr vs))
  follow_link-IsSound params (some (obj fs)) = odd-IsSound (truthy (obj fs))

  either-IsSound :
      (b : Bool) (m n : Result RestError Next)
      → IsSound m
      → IsSound n
      → IsSound (if b then m else n)
  either-IsSound true m n h k = h
  either-IsSound false m n h k = k

  next_of-IsSound :
      (url : String) (params : Fields) (nxt : Option Fields)
      → IsSound (next_of world recipe url params nxt)
  unfolding next_of
  next_of-IsSound url params none = ok-IsSound exhausted
  next_of-IsSound url params (some nxt) =
      either-IsSound (contains (field_names nxt) "__link__") _ _
        (follow_link-IsSound params (get "__link__" nxt)) (ok-IsSound _)

  pub prepare-IsSound :
      (url : String) (params : Fields) (n : ℕ) → IsSound (prepare world recipe url params n)
  unfolding prepare authorise
  prepare-IsSound url params n =
      >>=-IsSound (assert_destination (world.net n) world.urls url recipe.allowed_host true) _
        (assert_destination-IsSound (world.net n) world.urls url recipe.allowed_host)
        (λ addresses.
          >>=-IsSound (authorise world.files recipe.auth params) _
            (authorise_by-IsSound recipe.auth.type world.files recipe.auth params)
            (λ parts. ok-IsSound _))

  exchange-IsSound :
      (book : RecipeBook) (n : ℕ) (prepared : List String × Request)
      → IsSound (exchange world book n prepared)
  unfolding exchange
  exchange-IsSound book n (addresses, request) =
      >>=-IsSound (sent n (world.client n request)) _ (sent-IsSound n (world.client n request))
        (λ response.
          >>=-IsSound (receive (world.net n) addresses n book.limits.max_response_bytes response) _
            (receive-IsSound (world.net n) addresses n book.limits.max_response_bytes response)
            (λ payload. ok-IsSound _))

  pub read_page-IsSound :
      (book : RecipeBook) (n : ℕ) (url : String) (params : Fields)
      (prepared : List String × Request)
      → HasParams recipe.pagination
      → IsSound (read_page world recipe book n url params prepared)
  unfolding read_page extract
  read_page-IsSound book n url params prepared has =
      >>=-IsSound (exchange world book n prepared) _ (exchange-IsSound book n prepared) (λ answer.
        >>=-IsSound (validate_response world recipe answer.0 n) _
          (validate_response-IsSound answer.0 n)
          (λ _.
            >>=-IsSound (extract recipe answer.0) _
              (extract_node-IsSound recipe.extract.shape recipe.extract.path _)
              (λ rows.
                >>=-IsSound (next_page_params recipe answer.0 answer.1.link n) _
                  (next_page_params-IsSound recipe answer.0 answer.1.link n has)
                  (λ nxt.
                    >>=-IsSound (next_of world recipe url params nxt) _
                      (next_of-IsSound url params nxt) (λ after. ok-IsSound _)))))
