-- ===== src/Drivers/Postgres/Connect.antt =====
-- drivers/postgres/driver.py: `connect`, the connection string and what each connection is opened with.
-- `str(value)` of a configuration value is the parameter `py_str`.
use r64_db_engine.Base.{String, ◌<>◌, Option, none, some, List, [], ◌∷◌, ◌++◌, if◌then◌else◌}
use r64_db_engine.Base.Results.{Result, ok, err, ◌>>=◌}
use r64_db_engine.Base.Decimal.{pos}
use r64_db_engine.Base.Json.{Json, Fields, get, truthy}
use r64_db_engine.Drivers.Postgres.{PgError, value_error, to_int}

-- `config.get(key) or default`
abbrev pub or_else : Option Json → Json → Json
or_else none default = default
or_else (some v) default = if truthy v then v else default

-- `config.get(key, default)`
abbrev pub get_or : Option Json → Json → Json
get_or none default = default
get_or (some v) default = v

-- What the connection string says, and the attributes that `_open` passes beside it.
pub record Connection : Type 0 where
  pub host : Json
  pub port : Json
  pub dbname : Json
  pub sslmode : Json
  pub connect_timeout : Json
  pub application_name : Json
  pub user : Option Json
  pub password : Option Json
  -- in seconds
  pub statement_timeout : Json
  -- `None`: never prepare
  pub prepare_threshold : Json

abbrev pub need_database : Option Json → Result PgError Json
need_database none = err (value_error "postgres.database is required")
need_database (some v) =
    if truthy v then ok v else err (value_error "postgres.database is required")

-- `if user:`
abbrev if_truthy : Option Json → Option Json
if_truthy none = none
if_truthy (some v) = if truthy v then some v else none

-- `connect`, up to the connection that it opens and closes
unfoldable pub connect : Fields → Result PgError Connection
connect config = do
  port ← to_int (or_else (get "port" config) (Json.num (pos 5432)))
  database ← need_database (get "database" config)
  connect_timeout ← to_int (or_else (get "connect_timeout" config) (Json.num (pos 10)))
  statement_timeout ← to_int (or_else (get "statement_timeout" config) (Json.num (pos 300)))
  ok (record {
    host = or_else (get "host" config) (Json.text "localhost");
    port = port;
    dbname = database;
    sslmode = get_or (get "sslmode" config) (Json.text "prefer");
    connect_timeout = connect_timeout;
    application_name = or_else (get "application_name" config) (Json.text "r64-db-engine");
    user = if_truthy (get "user" config);
    password = if_truthy (get "password" config);
    statement_timeout = statement_timeout;
    prepare_threshold = get_or (get "prepare_threshold" config) (Json.num (pos 5));
  })

-- ---- the connection string

abbrev pub with_part : (Json → String) → String → Option Json → List String
with_part py_str name none = []
with_part py_str name (some v) = (name <> py_str v) ∷ []

-- `" ".join(parts)`
abbrev pub join_words : List String → String
join_words [] = ""
join_words (p ∷ []) = p
join_words (p ∷ q ∷ ps) = p <> (" " <> join_words (q ∷ ps))

unfoldable pub conninfo : (Json → String) → Connection → String
conninfo py_str c = join_words (
    ("host=" <> py_str c.host)
    ∷ ("port=" <> py_str c.port)
    ∷ ("dbname=" <> py_str c.dbname)
    ∷ ("sslmode=" <> py_str c.sslmode)
    ∷ ("connect_timeout=" <> py_str c.connect_timeout)
    ∷ ("application_name=" <> py_str c.application_name)
    ∷ (with_part py_str "user=" c.user ++ with_part py_str "password=" c.password))
