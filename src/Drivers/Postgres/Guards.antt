-- ===== src/Drivers/Postgres/Guards.antt =====
-- drivers/postgres/driver.py: the pulls that are refused, and the cursor that no pull can read.
use r64_db_engine.Base.{
  ℕ, String, ◌≡◌, ap, ◌∙◌, true, false, some, string_eq, starts_with_code, inl, inr,
}
use r64_db_engine.Base.Results.{err, Result-cases}
use r64_db_engine.Base.Decimal.{int_brace}
use r64_db_engine.Base.Json.{Json}
use r64_db_engine.State.{Watermark}
use r64_db_engine.Config.{incremental}
use r64_db_engine.Drivers.Postgres.{
  PgError, value_error, JsonText, Database, PullConfig, decode_cursor, cast_watermark,
}
use r64_db_engine.Drivers.Postgres.Pull.{tie_breaker_for, pull, is_bounded}
use r64_db_engine.Drivers.Postgres.BuildQuery.{build_query, key_of}

module _ (json : JsonText) (isoformat : ℕ → String) (db : Database) where
  cast_fails :
      (value : String)
      → starts_with_code value b'{' ≡ true
      → cast_watermark (Json.text value) "int" ≡ err (value_error value)
  unfolding cast_watermark string_eq
  cast_fails value h = rw (int_brace value h)

  -- An incremental table whose cursor is "int" and whose pulls are no longer bounded, but whose stored
  -- watermark is the composite cursor (a text with a brace in front) that bounded pulls left: every
  -- pull of it raises, so no pull replaces the watermark.
  pub pull_cursor_fails :
      (cfg : PullConfig) (key value : String)
      → cfg.mode ≡ incremental
      → key_of cfg.incremental_key ≡ some key
      → cfg.incremental_type ≡ "int"
      → is_bounded cfg.mode cfg.max_rows ≡ false
      → starts_with_code value b'{' ≡ true
      → (e : PgError) × (pull json isoformat db cfg (some (Watermark.text value)) ≡ err e)
  unfolding pull tie_breaker_for build_query
  pull_cursor_fails cfg key value mode keyed typed bounded brace =
      elim (Result-cases (decode_cursor json (Watermark.text value) cfg.incremental_type)) [
        | inl (c, e) ↦ (
          value_error value,
          let failing =
                ap (λ (x : String). cast_watermark (Json.text value) x) typed
                ∙ cast_fails value brace in
              rw (bounded, mode, keyed, e, failing),
        )
        | inr (x, e) ↦ (x, rw (bounded, mode, keyed, e))
      ]
