-- ===== src/Drivers/Postgres/BuildQuery.antt =====
-- drivers/postgres/driver.py: the query of a pull, in its parts.
use r64_db_engine.Base.{
  ℕ, suc, String, ◌==◌, Option, none, some, List, [], ◌∷◌, if◌then◌else◌, string_eq,
}
use r64_db_engine.Base.Results.{Result, ok, ◌>>=◌}
use r64_db_engine.Base.Json.{Json}
use r64_db_engine.State.{Watermark}
use r64_db_engine.Config.{Mode, incremental}
use r64_db_engine.Drivers.Postgres.{
  PgError, JsonText, Condition, row_greater, greater, sub, Query, PullConfig, is_inline_sql,
  quote_ident, watermark_json, cast_watermark, decode_cursor,
}

-- ---- the query

abbrev condition_of :
    String
    → Option String
    → Option (Json × Json)
    → Watermark
    → String
    → Result PgError (Option Condition)
condition_of key (some tie) (some (w, t)) previous incr_type = ok (some (row_greater key tie w t))
condition_of key _ _ previous incr_type = do
  w ← cast_watermark (watermark_json previous) incr_type
  ok (some (greater key w))

-- `mode == "incremental" and previous_watermark is not None and incr_key`
abbrev where_clause :
    JsonText
    → Mode
    → Option String
    → String
    → Option Watermark
    → Option String
    → Result PgError (Option Condition)
where_clause json incremental (some key) incr_type (some previous) tie_breaker = do
  cursor ← decode_cursor json previous incr_type
  condition_of key tie_breaker cursor previous incr_type
where_clause json _ _ incr_type _ tie_breaker = ok none

abbrev order_clause : Mode → Option String → Option Watermark → Option String → List String
order_clause incremental (some key) previous (some tie) = key ∷ tie ∷ []
order_clause incremental (some key) (some previous) none = key ∷ []
order_clause _ _ _ _ = []

-- `if max_rows`
abbrev pub limit_clause : Option ℕ → Option ℕ
limit_clause (some (suc n)) = some (suc n)
limit_clause _ = none

-- `incr_key`, a text that is not empty
abbrev pub key_of : Option String → Option String
key_of none = none
key_of (some key) = if key == "" then none else some key

unfoldable pub build_query :
    JsonText → PullConfig → Option Watermark → Option String → Result PgError Query
build_query json cfg previous tie_breaker = do
  condition ←
      where_clause json cfg.mode (key_of cfg.incremental_key) cfg.incremental_type previous
        tie_breaker
  ok (record {
    source = if is_inline_sql cfg.source then sub cfg.source else quote_ident cfg.source;
    condition = condition;
    order_by = order_clause cfg.mode (key_of cfg.incremental_key) previous tie_breaker;
    limit = limit_clause cfg.max_rows;
  })
