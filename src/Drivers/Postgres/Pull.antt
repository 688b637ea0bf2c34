-- ===== src/Drivers/Postgres/Pull.antt =====
-- drivers/postgres/driver.py: the pull and its refusals.
use r64_db_engine.Base.{
  ℕ, suc, String, Bool, true, false, not, Option, none, some, List, if◌then◌else◌, string_eq,
}
use r64_db_engine.Base.Results.{Result, ok, err, guard, ◌>>=◌, ◌>>◌}
use r64_db_engine.State.{Watermark}
use r64_db_engine.Config.{Mode, incremental}
use r64_db_engine.Drivers.Postgres.{
  PgError, value_error, JsonText, Database, PullConfig, is_inline_sql, split_qualified,
  fetch_single_primary_key,
}
use r64_db_engine.Drivers.Postgres.BuildQuery.{build_query}
use r64_db_engine.Drivers.Postgres.NewWatermark.{compute_new_watermark}

-- `mode == "incremental" and max_rows`
abbrev pub is_bounded : Mode → Option ℕ → Bool
is_bounded incremental (some (suc n)) = true
is_bounded _ _ = false

abbrev need_key : Option String → Result PgError (Option String)
need_key none = err (value_error "bounded incremental pulls require a single-column primary key")
need_key (some key) = ok (some key)

module _ (json : JsonText) (isoformat : ℕ → String) (db : Database) where
  -- The two refusals, and the tie-breaker of a bounded pull.
  unfoldable pub tie_breaker_for : PullConfig → Result PgError (Option String)
  tie_breaker_for cfg =
      let bounded = (do
        guard (not (is_inline_sql cfg.source))
            (value_error "bounded incremental pulls require a table source")
        need_key (fetch_single_primary_key db (split_qualified cfg.source))) in
      if is_bounded cfg.mode cfg.max_rows then bounded else ok none

  -- The rows, and the watermark to be stored.
  unfoldable pub pull :
      PullConfig → Option Watermark → Result PgError (List db.Row × Option Watermark)
  pull cfg previous = do
    tie_breaker ← tie_breaker_for cfg
    query ← build_query json cfg previous tie_breaker
    let rows = db.select query
    w ←
        compute_new_watermark json isoformat db cfg (db.columns query.source) rows previous
          tie_breaker
    ok (rows, w)
