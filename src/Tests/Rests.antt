-- ===== src/Tests/Rests.antt =====
-- drivers/rest at concrete inputs: a provider with two pages behind one host.
use r64_db_engine.Base.{
  ℕ, zero, suc, ◌≤◌, String, ◌<>◌, ◌≡◌, ◌≢◌, refl, ◌⊎◌, inl, inr, Bool, true, false, Option, none,
  some, List, [], ◌∷◌, length, All, ◌==◌, if◌then◌else◌, string_eq, nat_eq, filter, contains,
}
use r64_db_engine.Base.Results.{Result, ok, err}
use r64_db_engine.Base.Dict
use r64_db_engine.Base.Dict.{Dict}
use r64_db_engine.Base.Decimal.{pos}
use r64_db_engine.Base.Json.{Json, null, num, text, arr, obj, Items, nil, cons, Fields, end, field}
use r64_db_engine.Rest.{RestError, security, foreign, next_host}
use r64_db_engine.Rest.Texts.{lower, canonical}
use r64_db_engine.Rest.Recipes.{
  none_auth, link_header, single, columnar, records, get_method, Recipe, RecipeBook,
}
use r64_db_engine.Rest.Security.{
  Port, Url, Urls, Address, Network, text_of, assert_destination, confine_next_url,
}
use r64_db_engine.Rest.Security.Destination.{
  IsHostOrSubdomain, ResolvesPublicly, assert_destination-public,
}
use r64_db_engine.Rest.Security.Confined.{
  IsAuthored, IsConfined, confine_next_url-IsConfined, confine_next_url-IsAuthored,
}
use r64_db_engine.Rest.Engine.{dotted_get, array_columns, parse_link_header, extract, merge}
use r64_db_engine.Rest.Engine.Columns.{Transposes, extract-columnar}
use r64_db_engine.Rest.Engine.Request.{Request, Response, World}
use r64_db_engine.Rest.Engine.Run.{run_recipe}
use r64_db_engine.Rest.Engine.Run.Sent.{AreFenced, run_recipe-IsFenced}
use r64_db_engine.Rest.Engine.Run.Complete.{Pages, run_recipe_complete}

abbrev pub items_url : String
items_url = "https://api.x.io/items"

abbrev pub second_url : String
second_url = "https://api.x.io/items?page=2"

abbrev pub evil_url : String
evil_url = "https://evil-api.x.io/items?page=2"

abbrev pub odd_port_url : String
odd_port_url = "https://api.x.io:k3y/items"

abbrev pub at_host : String → Port → String → Url
at_host host port query = record {
  scheme = "https";
  netloc = host;
  username = none;
  password = none;
  hostname = some host;
  port = port;
  path = "/items";
  query = query;
}

-- `urlsplit` on the URLs of this file.
abbrev pub split_urls : Dict String Url
split_urls =
    (items_url, at_host "api.x.io" Port.default "")
    ∷ (second_url, at_host "api.x.io" Port.default "page=2")
    ∷ (evil_url, at_host "evil-api.x.io" Port.default "page=2")
    ∷ (odd_port_url, at_host "api.x.io" (Port.malformed "k3y") "")
    ∷ []

unfoldable pub urls : Urls
unfolding Dict.lookup string_eq
urls = record {
  split = λ url. Dict.lookup url split_urls;
  unsplit = λ scheme netloc path query. scheme <> ("://" <> (netloc <> (path <> ("?" <> query))));
}

abbrev pub public_address : Address
public_address = record {
  is_loopback = false;
  is_link_local = false;
  is_unspecified = false;
  is_multicast = false;
  is_reserved = false;
  is_private = false;
  is_global = true;
}

abbrev pub net : Network
net = record {
  getaddrinfo = λ host. some ("93.184.216.34" ∷ []);
  ip_address = λ a. some public_address;
}

admitted : assert_destination net urls items_url "api.x.io" true ≡ ok ("93.184.216.34" ∷ [])
unfolding assert_destination urls string_eq nat_eq r64_db_engine.Rest.Security.assert_https lower
    r64_db_engine.Rest.Security.assert_host_allowed r64_db_engine.Rest.Security.host_of canonical
    r64_db_engine.Rest.Security.assert_public_host r64_db_engine.Rest.Security.resolve_addresses
    r64_db_engine.Config.Env.sorted_set r64_db_engine.Rest.Security.assert_public_addresses
    r64_db_engine.Rest.Security.assert_public_address r64_db_engine.Rest.Security.category
admitted = refl

assert_destination-public_example :
    (u : Url) × (urls.split items_url ≡ some u)
    × (lower u.scheme ≡ "https")
    × IsHostOrSubdomain (canonical (text_of u.hostname)) (canonical "api.x.io")
    × ResolvesPublicly net (canonical (text_of u.hostname)) ("93.184.216.34" ∷ [])
assert_destination-public_example =
    assert_destination-public net urls items_url "api.x.io" ("93.184.216.34" ∷ []) admitted

followed : confine_next_url urls second_url items_url [] ≡ ok second_url
unfolding confine_next_url urls string_eq nat_eq r64_db_engine.Rest.Security.confine_parts lower
    canonical
followed = refl

confine_next_url-IsConfined_example :
    (candidate : Url) × (pinned : Url) × (urls.split second_url ≡ some candidate)
    × (urls.split items_url ≡ some pinned)
    × IsConfined candidate pinned []
    × (second_url ≡ urls.unsplit pinned.scheme pinned.netloc candidate.path candidate.query)
confine_next_url-IsConfined_example =
    confine_next_url-IsConfined urls second_url items_url second_url [] followed

-- The provider's port stands in the error.
odd_port : confine_next_url urls odd_port_url items_url [] ≡ err (foreign "k3y")
unfolding confine_next_url urls string_eq nat_eq r64_db_engine.Rest.Security.confine_parts lower
    canonical
odd_port = refl

refused : confine_next_url urls evil_url items_url [] ≡ err (security (next_host "api.x.io"))
unfolding confine_next_url urls string_eq nat_eq r64_db_engine.Rest.Security.confine_parts lower
    canonical
refused = refl

items_split : urls.split items_url ≡ some (at_host "api.x.io" Port.default "")
unfolding urls string_eq
items_split = refl

confine_next_url-IsAuthored_example :
    IsAuthored (at_host "api.x.io" Port.default "") [] (security (next_host "api.x.io"))
    ⊎ ((candidate : Url) × (t : String) × (urls.split evil_url ≡ some candidate)
        × (candidate.port ≡ Port.malformed t)
        × (security (next_host "api.x.io") ≡ foreign t))
confine_next_url-IsAuthored_example =
    confine_next_url-IsAuthored urls evil_url items_url [] (at_host "api.x.io" Port.default "")
      (security (next_host "api.x.io")) items_split refused

abbrev pub row : ℕ → Fields
row n = field "id" (num (pos n)) end

abbrev pub page_with : String → ℕ → Response
page_with link n = record {
  peer = some "93.184.216.34";
  status_code = 200;
  link = link;
  length = ok 9;
  content = ok (obj (field "rows" (arr (cons (obj (row n)) nil)) end));
}

-- The first page links to the second one, which links nowhere.
abbrev pub provider : ℕ → Request → Result String Response
provider (suc zero) request = ok (page_with "<https://api.x.io/items?page=2>; rel=\"next\"" 1)
provider _ request = ok (page_with "" 2)

abbrev pub world : World
world = record {
  urls = urls;
  files = λ f. none;
  net = λ page. net;
  client = provider;
  violation = λ schema payload. none;
}

abbrev linked : Recipe
linked = record {
  name = "items";
  method = get_method;
  url = items_url;
  allowed_host = "api.x.io";
  auth = record { type = none_auth; env_file = none; key_name = none };
  params_schema = end;
  response_schema = end;
  pagination = record {
    type = link_header;
    cursor_path = none;
    cursor_param = none;
    page_param = none;
    size_param = none;
    page_size = none;
    rel = "next";
    max_pages = 5;
    allowed_next_paths = [];
  };
  extract = record { path = "rows"; shape = records };
  static_params = end;
}

abbrev book : RecipeBook
book = record {
  dataset = "items";
  recipes = ("items", linked) ∷ [];
  threading = record { recipe = "items"; bind = []; params = end } ∷ [];
  output = [];
  limits = record { max_response_bytes = 1000; timeout_s = 30 };
}

run_recipe-IsFenced_example :
    AreFenced world linked book 1 (run_recipe world linked book end).sent
    × (length (run_recipe world linked book end).sent ≤ 5)
run_recipe-IsFenced_example = run_recipe-IsFenced world linked book end

two_pages :
    (payload : Json) × ((run_recipe world linked book end).outcome
      ≡ ok (row 1 ∷ row 2 ∷ [], payload))
    × (length (run_recipe world linked book end).sent ≡ 2)
unfolding run_recipe assert_destination urls string_eq nat_eq
    r64_db_engine.Rest.Security.assert_https lower r64_db_engine.Rest.Security.assert_host_allowed
    r64_db_engine.Rest.Security.host_of canonical r64_db_engine.Rest.Security.assert_public_host
    r64_db_engine.Rest.Security.resolve_addresses r64_db_engine.Config.Env.sorted_set
    r64_db_engine.Rest.Security.assert_public_addresses
    r64_db_engine.Rest.Security.assert_public_address r64_db_engine.Rest.Security.category
    r64_db_engine.Rest.Security.confine_parts confine_next_url
    r64_db_engine.Rest.Engine.Request.prepare
    r64_db_engine.Rest.Engine.Request.assert_connected_peer_was_vetted extract
    r64_db_engine.Base.Json.get r64_db_engine.Rest.Engine.next_page_params
    r64_db_engine.Rest.Engine.Request.authorise r64_db_engine.Rest.Engine.Request.build_request
    r64_db_engine.Rest.Engine.Request.exchange r64_db_engine.Rest.Engine.Request.receive
    r64_db_engine.Rest.Engine.Run.next_of r64_db_engine.Rest.Engine.Run.read_page
    r64_db_engine.Rest.Engine.Run.run_pages r64_db_engine.Rest.Engine.Run.validate_response
    dotted_get r64_db_engine.Rest.Engine.has_rel parse_link_header merge
    r64_db_engine.Rest.Recipes.declared_params
two_pages = (_, refl, refl)

run_recipe_complete_example :
    Pages world linked book 1 items_url (merge end end) (row 1 ∷ row 2 ∷ [])
run_recipe_complete_example =
    run_recipe_complete world linked book end (row 1 ∷ row 2 ∷ []) two_pages.0 two_pages.1

abbrev column : ℕ → ℕ → Json
column a b = arr (cons (num (pos a)) (cons (num (pos b)) nil))

abbrev hourly : Json
hourly =
    obj (field "hourly" (obj (field "time" (column 1 2) (field "temp" (column 20 21) end))) end)

abbrev weather : Recipe
weather = record {
  name = "weather";
  method = get_method;
  url = items_url;
  allowed_host = "api.x.io";
  auth = record { type = none_auth; env_file = none; key_name = none };
  params_schema = end;
  response_schema = end;
  pagination = record {
    type = single;
    cursor_path = none;
    cursor_param = none;
    page_param = none;
    size_param = none;
    page_size = none;
    rel = "next";
    max_pages = 1;
    allowed_next_paths = [];
  };
  extract = record { path = "hourly"; shape = columnar };
  static_params = end;
}

transposed : (rows : List Fields) × (extract weather hourly ≡ ok rows) × (length rows ≡ 2)
unfolding extract string_eq nat_eq r64_db_engine.Base.Json.get
transposed = (_, refl, refl)

extract-columnar_example :
    (fs : Fields) × (dotted_get hourly "hourly" ≡ obj fs)
    × Transposes (array_columns fs) transposed.0
extract-columnar_example = extract-columnar weather hourly transposed.0 refl transposed.1

paths :
    (dotted_get (obj (field "r" (arr (cons (num (pos 7)) (cons (num (pos 8)) nil))) end)) "r[-1]"
      ≡ num (pos 8))
    × (dotted_get (obj (field "r" (arr (cons (num (pos 7)) nil)) end)) "r[1]" ≡ null)
    × (dotted_get (obj (field "r" (arr (cons (arr (cons (num (pos 7)) nil)) nil)) end)) "r[0][0]"
        ≡ num (pos 7))
    × (dotted_get (num (pos 1)) "r" ≡ null)
unfolding dotted_get string_eq nat_eq r64_db_engine.Base.Json.get
paths = (refl, refl, refl, refl)
