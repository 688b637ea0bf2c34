-- ===== src/Profiles/Supabase.antt =====
-- profiles/supabase.py: Supabase over the Postgres driver. `ipaddress.ip_address(host).is_loopback` is
-- the parameter `address_loopback`, `none` for its `ValueError`; `str(value)` is `py_str`.
pub mod Guarded
use r64_db_engine.Base.{
  String, Bool, true, false, not, Option, none, some, List, [], ◌∷◌, ◌==◌, if◌then◌else◌, string_eq,
  nat_eq, contains, contains_text, is_empty,
}
use r64_db_engine.Base.Results.{Result, ok, err, guard, ◌>>=◌, ◌>>◌}
use r64_db_engine.Base.Decimal
use r64_db_engine.Base.Decimal.{ℤ, pos, negsuc}
use r64_db_engine.Base.Json.{Json, Fields, get, set_field, truthy}
use r64_db_engine.Rest.Texts.{lower}
use r64_db_engine.Drivers.Postgres.{PgError, to_int}
use r64_db_engine.Drivers.Postgres.Connect.{or_else}

-- `ProfileError`, and what `int` raises
pub data ProfileError : Type 0 where
  transaction_pooler : ProfileError
  plaintext : String → ProfileError
  bad_port : PgError → ProfileError

abbrev address_answer : Option Bool → Bool
address_answer none = false
address_answer (some b) = b

unfoldable pub is_loopback : (String → Option Bool) → String → Bool
is_loopback address_loopback host =
    if is_empty host
    then false
    else if host == "localhost"
    then true
    else address_answer (address_loopback host)

-- `POOLER_HOST_MARKER in host.lower()`
unfoldable pub is_pooled : String → Bool
is_pooled host = contains_text "pooler.supabase.com" (lower host)

-- `_UNENCRYPTED_SSLMODES`
abbrev pub unencrypted : List String
unencrypted = "allow" ∷ "prefer" ∷ []

-- `port == TRANSACTION_POOLER_PORT`
abbrev pub is_transaction_port : Json → Bool
is_transaction_port (Json.num (pos n)) = n == 6543
is_transaction_port _ = false

abbrev pub to_port : Result PgError Json → Result ProfileError Json
to_port (ok port) = ok port
to_port (err e) = err (bad_port e)

-- `str(out.get("host") or "")`
abbrev pub profile_host : (Json → String) → Fields → String
profile_host py_str config = py_str (or_else (get "host" config) (Json.text ""))

-- What the connection of a host that is not loopback is set to, or refused for.
unfoldable pub transport : String → Fields → Result ProfileError Fields
transport sslmode out =
    if sslmode == "disable"
    then err (plaintext sslmode)
    else if contains unencrypted sslmode
    then ok (set_field "sslmode" (Json.text "require") out)
    else ok out

unfoldable pub never_prepare : Bool → Fields → Fields
never_prepare pooled out = if pooled then set_field "prepare_threshold" Json.null out else out

unfoldable pub apply :
    (String → Option Bool) → (Json → String) → Fields → Result ProfileError Fields
apply address_loopback py_str config = do
  port ← to_port (to_int (or_else (get "port" config) (Json.num (pos 5432))))
  guard (not (is_transaction_port port)) transaction_pooler
  let host = profile_host py_str config
  let out = never_prepare (is_pooled host) config
  if is_loopback address_loopback host
      then ok out
      else transport (py_str (or_else (get "sslmode" out) (Json.text "prefer"))) out
