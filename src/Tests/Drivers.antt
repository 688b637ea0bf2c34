-- ===== src/Tests/Drivers.antt =====
-- The database drivers on a table of three rows, and the Supabase profile on a pooler's address.
use r64_db_engine.Base.{
  ℕ, suc, ◌+◌, ◌*◌, ◌≤◌, String, ◌<>◌, ◌≡◌, ◌⊎◌, refl, inl, inr, Bool, true, false, not, Option,
  none, some, List, [], ◌∷◌, ◌&&◌, ◌==◌, if◌then◌else◌, string_eq, nat_eq, arith, contains_text,
  contains, starts_with, starts_with_code, filter, take, All, Bool-cases,
}
use r64_db_engine.Base.Results.{ok, err}
use r64_db_engine.Base.Decimal.{ℤ, pos, negsuc, str}
use r64_db_engine.Base.Json.{Json, Fields, end, field, get, set_field}
use r64_db_engine.State.{Watermark, text, number}
use r64_db_engine.Config.{incremental}
use r64_db_engine.Rest.Texts.{lower, strip, lstrip, rstrip, split_on, partition}
use r64_db_engine.Drivers.Order.{Value, int, lt_int}
use r64_db_engine.Drivers.Postgres
use r64_db_engine.Drivers.Postgres.Pull.{pull}
use r64_db_engine.Drivers.Postgres.{
  Condition, Dtype, row_greater, greater, PgError, is_inline_sql, split_qualified,
  fetch_single_primary_key,
}
use r64_db_engine.Drivers.Postgres.Ascending.{lt_cursor}
use r64_db_engine.Drivers.Postgres.Pulled
use r64_db_engine.Drivers.Postgres.Pulled.{bounded_table, cursor_after}
use r64_db_engine.Drivers.Postgres.Drained
use r64_db_engine.Drivers.Postgres.Drained.{pulls_drain}
use r64_db_engine.Drivers.Postgres.Guards.{pull_cursor_fails}
use r64_db_engine.Drivers.Postgres.Connect.{Connection, connect, conninfo}
use r64_db_engine.Drivers.Postgres.Conninfo.{read_setting, setting}
use r64_db_engine.Drivers.ClickHouse
use r64_db_engine.Drivers.ClickHouse.{double_ticks}
use r64_db_engine.Drivers.ClickHouse.Quoted.{read_name, read_name-quote_ident}
use r64_db_engine.Drivers.ClickHouse.Ascend
use r64_db_engine.Drivers.ClickHouse.Ascend.{IsGreatest, AllAbove, pulls_above}
use r64_db_engine.Profiles.Supabase.{
  apply, is_loopback, is_pooled, is_transaction_port, profile_host, never_prepare, transport,
}
use r64_db_engine.Profiles.Supabase.Guarded.{is_null, plain_modes, connect-apply}
use r64_db_engine.Tests.CursorJson.{cursor_json, dumps-brace, loads-dumps}

-- ---- Postgres

-- A row is its cursor and its primary key.
abbrev Pair : Type 0
Pair = ℤ × ℤ

abbrev rows : List Pair
rows = (negsuc 0, pos 7) ∷ (pos 5, pos 1) ∷ (pos 5, pos 2) ∷ []

cell : String → Pair → Value
cell name (k, t) = if name == "k" then int k else int t

matching : Option Condition → List Pair
matching none = rows
matching (some (row_greater _ _ (Json.num a) (Json.num b))) =
    filter (λ r. lt_cursor a b r.0 r.1) rows
matching (some _) = []

limited : Option ℕ → List Pair → List Pair
limited none found = found
limited (some n) found = take n found

abbrev server : Postgres.Database
server = record {
  Row = Pair;
  cell = cell;
  primary_key = λ schema name. "id" ∷ [];
  select = λ q. limited q.limit (matching q.condition);
  columns = λ source. ("k", Dtype.integer) ∷ ("id", Dtype.integer) ∷ [];
  as_float = Json.num;
}

serves : Pulled.Serves cursor_json server "t" "k" "id" 1 (λ r. r.0) (λ r. r.1) rows
unfolding is_inline_sql split_qualified fetch_single_primary_key string_eq nat_eq cell matching
    limited contains_text starts_with lower strip lstrip rstrip
serves = record {
  dumps-brace = dumps-brace;
  loads-dumps = loads-dumps;
  plain = refl;
  keyed = refl;
  named = refl;
  has_key = refl;
  exact = refl;
  key_cell = λ r. refl;
  tie_cell = λ r. refl;
  ascending = ((refl, (refl, tt)), ((refl, tt), (tt, tt)));
  select_first = refl;
  select_after = λ a b. refl;
}

pulls_drain_example :
    Drained.pulls cursor_json (λ n. "") server (bounded_table "t" "k" 1) (2 + 1) none
    ≡ ok (
      rows,
      cursor_after cursor_json (λ n. "") server "t" "k" "id" 1 (λ r. r.0) (λ r. r.1) serves rows,
    )
pulls_drain_example =
    pulls_drain cursor_json (λ n. "") server "t" "k" "id" 1 (λ r. r.0) (λ r. r.1) serves 2 1
      (omega arith)

abbrev unbounded : Postgres.PullConfig
unbounded = record {
  source = "t";
  mode = incremental;
  incremental_key = some "k";
  incremental_type = "int";
  max_rows = none;
}

pull_cursor_fails_example :
    (e : PgError) × (pull cursor_json
        (λ n. "")
        server
        unbounded
        (some (text "{\"watermark\":5,\"tie_breaker\":2}"))
      ≡ err e)
unfolding string_eq nat_eq
pull_cursor_fails_example =
    pull_cursor_fails cursor_json (λ n. "") server unbounded "k"
      "{\"watermark\":5,\"tie_breaker\":2}" refl refl refl refl refl

-- ---- Supabase

abbrev block : Fields
block =
    field "host" (Json.text "x.pooler.supabase.com")
      (field "database" (Json.text "postgres") (field "sslmode" (Json.text "allow") end))

py_str : Json → String
py_str (Json.text s) = s
py_str (Json.num z) = str z
py_str _ = "None"

abbrev passed : Fields
passed = field "host" (Json.text "x.pooler.supabase.com") (
    field "database" (Json.text "postgres")
      (field "sslmode" (Json.text "require") (field "prepare_threshold" Json.null end)))

abbrev pooler : Connection
pooler = record {
  host = Json.text "x.pooler.supabase.com";
  port = Json.num (pos 5432);
  dbname = Json.text "postgres";
  sslmode = Json.text "require";
  connect_timeout = Json.num (pos 10);
  application_name = Json.text "r64-db-engine";
  user = none;
  password = none;
  statement_timeout = Json.num (pos 300);
  prepare_threshold = Json.null;
}

connect-apply_example :
    let host = profile_host py_str block in
    (is_transaction_port pooler.port ≡ false)
    × ((is_pooled host && not (is_null pooler.prepare_threshold)) ≡ false)
    × ((mode : String) × (read_setting "sslmode" (conninfo py_str pooler) ≡ some mode)
        × ((not (is_loopback (λ h. none) host) && contains plain_modes mode) ≡ false))
unfolding apply is_loopback is_pooled never_prepare transport connect py_str get set_field string_eq
    nat_eq contains_text starts_with lower str
connect-apply_example =
    connect-apply py_str (λ s. refl) (λ h. none) block passed pooler refl refl
      (refl, (refl, (refl, (refl, (refl, (refl, tt))))))

pooler_text :
    conninfo py_str pooler
    ≡ "host=x.pooler.supabase.com port=5432 dbname=postgres sslmode=require connect_timeout=10 application_name=r64-db-engine"
unfolding conninfo py_str str
pooler_text = refl

-- A blank in the password brings in another sslmode, which libpq then takes.
plaintext_password :
    read_setting "sslmode"
      (conninfo py_str (record pooler { password = some (Json.text "a sslmode=disable") }))
    ≡ some "disable"
unfolding conninfo py_str str setting split_on partition string_eq nat_eq
plaintext_password = refl

-- ---- ClickHouse

read_name-quote_ident_example :
    (ClickHouse.quote_ident "a`b" <> " FROM t"
      ≡ String.◌∷◌ "`" (double_ticks "a`b" <> ("`" <> " FROM t")))
    × (read_name (double_ticks "a`b" <> ("`" <> " FROM t")) ≡ some ("a`b", " FROM t"))
unfolding nat_eq
read_name-quote_ident_example = read_name-quote_ident "a`b" " FROM t" refl refl

above : Option Watermark → List ℤ
above (some (number w)) = filter (λ k. lt_int w k) (pos 3 ∷ pos 9 ∷ pos 4 ∷ [])
above _ = []

abbrev column_server : ClickHouse.Database
column_server = record {
  Row = ℤ;
  cell = λ name k. int k;
  column_types = λ source. ("k", "Int64") ∷ [];
  pandas_dtype_for = λ type. some "Int64";
  select = λ q. above q.watermark;
}

abbrev by_k : ClickHouse.PullConfig
by_k = record {
  source = "db.t";
  columns = [];
  mode = incremental;
  incremental_key = some "k";
  max_rows = none;
}

above-All : (w : ℤ) (ks : List ℤ) → All (λ k. lt_int w k ≡ true) (filter (λ k. lt_int w k) ks)
above-All w [] = tt
above-All w (k ∷ ks) = elim (Bool-cases (lt_int w k)) [
  | inl e ↦ rw e (e, above-All w ks)
  | inr e ↦ rw e (above-All w ks)
]

column_serves : Ascend.Serves (λ n. "") column_server none by_k "k" (λ k. k)
unfolding above string_eq
column_serves = record {
  named = λ r. refl;
  has_key = refl;
  select_greater = λ columns w limit. above-All w (pos 3 ∷ pos 9 ∷ pos 4 ∷ []);
}

pulls_above_example :
    AllAbove (λ k. k) (pos 3) (pos 9 ∷ pos 4 ∷ [])
    × ((v : ℤ) × (some (number (pos 9)) ≡ some (number v))
        × IsGreatest (λ k. k) (pos 3) (pos 9 ∷ pos 4 ∷ []) v)
unfolding Ascend.pulls ClickHouse.pull ClickHouse.compute_new_watermark ClickHouse.build_query
    ClickHouse.column_types_for_source ClickHouse.split_qualified ClickHouse.is_inline_sql
    ClickHouse.check_types r64_db_engine.Base.Dict.lookup above string_eq nat_eq contains_text
    starts_with lower strip lstrip rstrip partition
pulls_above_example =
    pulls_above (λ n. "") column_server none by_k "k" (λ k. k) column_serves refl 2 (pos 3)
      (pos 9 ∷ pos 4 ∷ []) (some (number (pos 9))) refl refl

select_text :
    (ClickHouse.build_query none by_k ("k" ∷ "a`b" ∷ []) (some (number (pos 3)))).sql
    ≡ "SELECT `k`, `a``b` FROM `db`.`t` WHERE `k` > %(watermark)s ORDER BY `k` ASC"
unfolding ClickHouse.build_query ClickHouse.quote_ident ClickHouse.double_ticks
    ClickHouse.quote_qualified ClickHouse.is_inline_sql string_eq nat_eq contains_text starts_with
    lower strip lstrip rstrip partition
select_text = refl

sorting_key : ClickHouse.extract_sorting_key_columns " (`k`, b )" ≡ "k" ∷ "b" ∷ []
unfolding ClickHouse.extract_sorting_key_columns string_eq nat_eq contains_text starts_with strip
    lstrip rstrip split_on r64_db_engine.Rest.Texts.ends_with
sorting_key = refl
