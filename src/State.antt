-- ===== src/State.antt =====
-- core/state.py: the SQLite store of watermarks, pull history and schema baselines.
-- A table with a text primary key is a `Dict`; `pull_history` is the list of its rows, oldest id
-- first. A time stamp (`_iso_now`, a text of fixed width) is its number of microseconds, whose order
-- is the order of the texts. What `json.dumps` wrote and `json.loads` reads back is kept as the list.
pub mod Watermarks
pub mod History
pub mod Failures
pub mod Rows
use r64_db_engine.Base.{
  ℕ, zero, suc, ◌+◌, ◌≤◌, String, ◌≡◌, Bool, true, false, not, ◌&&◌, Option, none, some, List, [],
  ◌∷◌, ◌++◌, filter, take, map, All, contains, any, if◌then◌else◌, ◌==◌, string_eq, nat_eq,
  starts_with_code,
}
use r64_db_engine.Base.Results.{Result, ok, err, ◌>>=◌}
use r64_db_engine.Base.Dict
use r64_db_engine.Base.Dict.{Dict}
use r64_db_engine.Base.Decimal.{ℤ, int, str}
use mathlib.Core.List.{Perm}

-- `str | int`, the two forms of a watermark
pub data Watermark : Type 0 where
  text : String → Watermark
  number : ℤ → Watermark

-- `str(value)`
abbrev pub watermark_text : Watermark → String
watermark_text (text s) = s
watermark_text (number z) = str z

pub record WatermarkRow : Type 0 where
  pub watermark_value : String
  pub watermark_type : String
  pub last_success_at : ℕ
  pub rows_pulled : ℕ
  pub last_pull_duration_ms : ℕ

pub record PullRow : Type 0 where
  pub id : ℕ
  pub target : String
  pub started_at : ℕ
  pub finished_at : Option ℕ
  pub status : String
  pub rows_pulled : Option ℕ
  pub error_message : Option String

pub record Column : Type 0 where
  pub name : String
  pub source_type : String
  pub pandas_dtype : String

pub record StateStore : Type 0 where
  pub watermarks : Dict String WatermarkRow
  pub pull_history : List PullRow
  pub next_id : ℕ
  pub schemas : Dict String (List Column × ℕ)

abbrev pub history_retention_per_target : ℕ
history_retention_per_target = 100

-- `_SCHEMA`: a fresh database.
abbrev pub empty_store : StateStore
empty_store = record { watermarks = []; pull_history = []; next_id = 1; schemas = [] }

-- A `ValueError` of `int(value)`.
pub data StoreError : Type 0 where
  value_error : String → StoreError

-- ---- watermarks

read_int : String → Result StoreError Watermark
read_int s = elim (int s) [ none ↦ err (value_error s) | some z ↦ ok (number z) ]

read_watermark : WatermarkRow → Result StoreError Watermark
unfolding read_int
read_watermark row =
    if row.watermark_type == "int" && not (starts_with_code row.watermark_value b'{')
    then read_int row.watermark_value
    else ok (text row.watermark_value)

-- `(None, None)` is `none`.
unfoldable pub get_watermark : StateStore → String → Result StoreError (Option (Watermark × String))
unfolding read_watermark
get_watermark s target = elim (Dict.lookup target s.watermarks) [
  | none ↦ ok none
  | some row ↦ do value ← read_watermark row; ok (some (value, row.watermark_type))
]

-- The `VALUES` of the statement below.
abbrev pub watermark_row : Watermark → String → ℕ → ℕ → ℕ → WatermarkRow
watermark_row value wm_type rows_pulled duration_ms now = record {
  watermark_value = watermark_text value;
  watermark_type = wm_type;
  last_success_at = now;
  rows_pulled = rows_pulled;
  last_pull_duration_ms = duration_ms;
}

-- `INSERT ... ON CONFLICT(target) DO UPDATE`
unfoldable pub set_watermark : StateStore → String → Watermark → String → ℕ → ℕ → ℕ → StateStore
set_watermark s target value wm_type rows_pulled duration_ms now = record s {
  watermarks =
      Dict.insert target (watermark_row value wm_type rows_pulled duration_ms now) s.watermarks;
}

unfoldable pub get_watermark_summary : StateStore → String → Option WatermarkRow
get_watermark_summary s target = Dict.lookup target s.watermarks

-- ---- pull history

abbrev pub of_target : String → PullRow → Bool
of_target target r = r.target == target

-- Rows by falling `started_at`.
abbrev pub IsDescending : List PullRow → Type 0
IsDescending [] = Unit
IsDescending (r ∷ rs) = All (λ q. q.started_at ≤ r.started_at) rs × IsDescending rs

-- `ORDER BY started_at DESC` of the SQL engine, which promises no order among equal keys.
pub record OrderBy : Type 0 where
  pub desc : List PullRow → List PullRow
  pub desc-perm : (rs : List PullRow) → Perm (desc rs) rs
  pub desc-IsDescending : (rs : List PullRow) → IsDescending (desc rs)

abbrev pub ids : List PullRow → List ℕ
ids [] = []
ids (r ∷ rs) = r.id ∷ ids rs

-- The `INSERT` statement of `record_pull`.
unfoldable pub insert_pull :
    StateStore → String → ℕ → Option ℕ → String → Option ℕ → Option String → StateStore
insert_pull s target started_at finished_at status rows_pulled error_message = record s {
  pull_history =
      s.pull_history
      ++ (record {
        id = s.next_id;
        target = target;
        started_at = started_at;
        finished_at = finished_at;
        status = status;
        rows_pulled = rows_pulled;
        error_message = error_message;
      })
        ∷ [];
  next_id = s.next_id + 1;
}

-- The loop over the newest rows.
count_failures : List PullRow → ℕ → ℕ
count_failures [] n = n
count_failures (r ∷ rs) n =
    let more = count_failures rs (n + 1) in
    let skip = count_failures rs n in
    if r.status == "error" then more else if r.status == "success" then n else skip

module _ (sql : OrderBy) where
  -- `SELECT ... WHERE target = ? ORDER BY started_at DESC LIMIT ?`
  unfoldable pub newest : StateStore → String → ℕ → List PullRow
  newest s target limit = take limit (sql.desc (filter (of_target target) s.pull_history))

  -- The `DELETE` statement of `record_pull`.
  unfoldable pub prune : StateStore → String → StateStore
  unfolding newest
  prune s target =
      let kept = ids (newest s target history_retention_per_target) in
      record s {
        pull_history =
            filter (λ r. not (of_target target r && not (contains kept r.id))) s.pull_history;
      }

  unfoldable pub record_pull :
      StateStore → String → ℕ → Option ℕ → String → Option ℕ → Option String → StateStore
  unfolding prune insert_pull
  record_pull s target started_at finished_at status rows_pulled error_message =
      prune (insert_pull s target started_at finished_at status rows_pulled error_message) target

  unfoldable pub recent_history : StateStore → String → ℕ → List PullRow
  unfolding newest
  recent_history s target limit = newest s target limit

  unfoldable pub consecutive_failures : StateStore → String → ℕ
  unfolding newest count_failures
  consecutive_failures s target = count_failures (newest s target 20) 0

-- ---- schema baseline

unfoldable pub get_schema : StateStore → String → Option (List Column)
get_schema s target = elim (Dict.lookup target s.schemas) [ none ↦ none | some (cs, _) ↦ some cs ]

unfoldable pub set_schema : StateStore → String → List Column → ℕ → StateStore
set_schema s target columns now = record s { schemas = Dict.insert target (columns, now) s.schemas }
