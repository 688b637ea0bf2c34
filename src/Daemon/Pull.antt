-- ===== src/Daemon/Pull.antt =====
-- core/daemon.py: one pull of a table, from `_pull_once` down. `start_pull` is the part before the
-- first `await`, `finish_pull` the part behind it. The times that the code reads are arguments.
pub mod Baseline
pub mod Flags
pub mod Merge
pub mod Stuck
use mathlib.Core.Option
use r64_db_engine.Base.{
  ℕ, ◌+◌, String, ◌<>◌, Bool, true, false, not, ◌&&◌, ◌||◌, Option, none, some, List, [], ◌∷◌, map,
  if◌then◌else◌, ◌==◌, string_eq, leb,
}
use r64_db_engine.Base.Results.{Result, ok, err}
use r64_db_engine.Base.Dict
use r64_db_engine.Base.Dict.{Dict}
use r64_db_engine.State.{
  StateStore, Watermark, Column, OrderBy, StoreError, record_pull, get_watermark, set_watermark,
  get_schema, set_schema, consecutive_failures,
}
use r64_db_engine.Coercion.{compare_schemas, has_drift}
use r64_db_engine.Config.{
  Config, Mode, incremental, full_refresh, IncrementalType, timestamp, int, ResolvedTable,
  TableConfig, ConfigError, resolve_table,
}
use r64_db_engine.Daemon.{Frames, DriverError, PullResult, Sink, Status, TableRuntimeState, Daemon}
use r64_db_engine.Daemon.Retry.{Raised, permanent, failed, Retried, run_with_retries}

-- The clock readings of one pull.
pub record Times : Type 0 where
  pub monotonic : ℕ
  pub started : ℕ
  pub stored : ℕ
  pub finished : ℕ

-- What leaves `_pull_once` as an exception.
pub data Escape : Type 0 where
  key_error : String → Escape
  store_error : StoreError → Escape
  config_error : ConfigError → Escape

abbrev pub type_text : IncrementalType → String
type_text timestamp = "timestamp"
type_text int = "int"

-- `_find_table_config`
unfoldable pub find_table_config :
    Config → List TableConfig → String → Option (Result ConfigError ResolvedTable)
find_table_config c [] target = none
find_table_config c (t ∷ ts) target =
    let rest = find_table_config c ts target in
    if t.target == target then some (resolve_table c.defaults t) else rest

-- What the pull holds while it waits: the configuration of its table, the watermark and the schema
-- that it read.
pub record Pending : Type 0 where
  pub target : String
  pub tcfg : ResolvedTable
  pub prev_value : Option Watermark
  pub prev_schema : Option (List Column)

pub data Started : Type 0 where
  skipped unconfigured : Started
  waiting : Pending → Started

abbrev pub is_none : Option Watermark → Bool
is_none none = true
is_none (some _) = false

module _ (sql : OrderBy) (frames : Frames) (sink : Sink frames.Frame) where
  -- `_merge_incremental`: a load that raises is logged, and the new rows are used alone.
  unfoldable pub merge_incremental : sink.Files → frames.Frame → String → frames.Frame
  merge_incremental files df target =
      if sink.exists files target
      then (elim (sink.load files target) [ none ↦ df | some existing ↦ frames.concat existing df ])
      else df

  -- `current_schema`
  abbrev pub schema_of : frames.Frame → List Column
  schema_of df =
      map (λ (name, dtype). record { name = name; source_type = ""; pandas_dtype = dtype })
        (frames.dtypes df)

  store_watermark : StateStore → String → ResolvedTable → PullResult frames.Frame → ℕ → StateStore
  store_watermark s target tcfg result now = elim result.new_watermark [
    | none ↦ s
    | some w ↦
        set_watermark s target w (type_text tcfg.incremental_type) result.rows_pulled
          result.duration_ms now
  ]

  -- The store behind the write: watermark, schema baseline, history.
  stored :
      StateStore
      → String
      → ResolvedTable
      → PullResult frames.Frame
      → frames.Frame
      → Times
      → StateStore
  unfolding store_watermark
  stored s target tcfg result df at =
      let s1 = store_watermark s target tcfg result at.stored in
      let s2 = set_schema s1 target (schema_of df) at.stored in
      record_pull sql s2 target at.started (some at.finished) "success" (some result.rows_pulled)
        none

  succeeded :
      TableRuntimeState
      → PullResult frames.Frame
      → Option (List Column)
      → frames.Frame
      → Times
      → TableRuntimeState
  succeeded rt result prev_schema df at = record rt {
    status = Status.ok;
    last_success_at = some at.finished;
    rows_pulled_last = result.rows_pulled;
    rows_pulled_total = rt.rows_pulled_total + result.rows_pulled;
    watermark = elim result.new_watermark [ none ↦ rt.watermark | some w ↦ some w ];
    consecutive_failures = 0;
    schema_drift_detected =
        rt.schema_drift_detected || has_drift (compare_schemas prev_schema (schema_of df));
  }

  abbrev pub set_runtime : Daemon sink.Files → String → TableRuntimeState → Daemon sink.Files
  set_runtime d target rt = record d { tables = Dict.insert target rt d.tables }

  -- The frame that `_handle_success` writes.
  unfoldable pub frame_to_write :
      sink.Files → String → ResolvedTable → PullResult frames.Frame → Bool → frames.Frame
  unfolding merge_incremental
  frame_to_write files target tcfg result reset_incremental = elim tcfg.mode [
    | incremental ↦
        if reset_incremental
        then result.dataframe
        else merge_incremental files result.dataframe target
    | full_refresh ↦ result.dataframe
  ]

  -- The rest of `_handle_success`, for what `write` gave.
  abbrev after_write :
      Daemon sink.Files
      → String
      → TableRuntimeState
      → ResolvedTable
      → PullResult frames.Frame
      → Option (List Column)
      → Times
      → frames.Frame
      → Result String (Unit {0})
      → sink.Files
      → Result String (Unit {0}) × Daemon sink.Files
  unfolding stored succeeded
  after_write d target rt tcfg result prev_schema at df (err message) files =
      (err message, record d { files = files })
  after_write d target rt tcfg result prev_schema at df (ok _) files = (
    ok tt,
    set_runtime (record d { files = files; state = stored d.state target tcfg result df at }) target
        (succeeded rt result prev_schema df at),
  )

  -- `_handle_success`; the error is the text of what `write` raised.
  unfoldable pub handle_success :
      Daemon sink.Files
      → String
      → TableRuntimeState
      → ResolvedTable
      → PullResult frames.Frame
      → Option (List Column)
      → Times
      → Bool
      → Result String (Unit {0}) × Daemon sink.Files
  unfolding stored succeeded
  handle_success d target rt tcfg result prev_schema at reset_incremental =
      let df = frame_to_write d.files target tcfg result reset_incremental in
      let (written, files) = sink.write d.files df target in
      after_write d target rt tcfg result prev_schema at df written files

  -- `_handle_failure`
  unfoldable pub handle_failure :
      Daemon sink.Files → String → TableRuntimeState → String → Times → Bool → Daemon sink.Files
  handle_failure d target rt msg at is_permanent =
      let state =
        record_pull sql d.state target at.started (some at.finished) "error" none (some msg) in
      let failures = consecutive_failures sql state target in
      set_runtime (record d { state = state }) target
        (record rt {
          consecutive_failures = failures;
          last_error = some msg;
          last_error_at = some at.finished;
          status = if leb 3 failures || is_permanent then Status.error else Status.degraded;
        })

  read_previous : Daemon sink.Files → String → ResolvedTable → Result Escape Started
  read_previous d target tcfg = elim (get_watermark d.state target) [
    | err e ↦ err (store_error e)
    | ok previous ↦ ok (
        waiting (record {
          target = target;
          tcfg = tcfg;
          prev_value = Option.map (λ (value, _). value) previous;
          prev_schema = get_schema d.state target;
        }))
  ]

  claim :
      Config
      → Daemon sink.Files
      → String
      → TableRuntimeState
      → Times
      → Result Escape Started × Daemon sink.Files
  unfolding read_previous
  claim config d target rt at =
      let claimed = record rt { in_flight = true; last_started = at.monotonic } in
      let d' = set_runtime d target claimed in
      elim (find_table_config config config.tables target) [
        | none ↦ (ok unconfigured, set_runtime d target (record claimed { in_flight = false }))
        | some found ↦ elim found [
          | err e ↦ (err (config_error e), d')
          | ok tcfg ↦ (read_previous d' target tcfg, d')
        ]
      ]

  -- `_pull_once` before its first `await`.
  unfoldable pub start_pull :
      Config → Daemon sink.Files → String → Times → Result Escape Started × Daemon sink.Files
  unfolding claim
  start_pull config d target at = elim (Dict.lookup target d.tables) [
    | none ↦ (err (key_error target), d)
    | some rt ↦
        if rt.in_flight
        then (
          ok skipped,
          record d {
            state =
                record_pull sql d.state target at.started (some at.finished) "skipped_overlap" none
                  none;
          },
        )
        else claim config d target rt at
  ]

  -- `rt.in_flight = False`
  release : Daemon sink.Files → String → Daemon sink.Files
  release d target = elim (Dict.lookup target d.tables) [
    | none ↦ d
    | some rt ↦ set_runtime d target (record rt { in_flight = false })
  ]

  -- The `try` block, with its two handlers.
  settle :
      Daemon sink.Files
      → Pending
      → TableRuntimeState
      → Result Raised (PullResult frames.Frame)
      → Times
      → Daemon sink.Files
  settle d p rt outcome at = elim outcome [
    | ok result ↦
        let (written, d') =
          handle_success d p.target rt p.tcfg result p.prev_schema at (is_none p.prev_value) in
        elim written [ ok _ ↦ d' | err message ↦ handle_failure d' p.target rt message at false ]
    | err raised ↦ elim raised [
      | permanent message ↦ handle_failure d p.target rt message at true
      | failed e ↦ handle_failure d p.target rt e.message at false
    ]
  ]

  -- `_pull_once` behind its first `await`, for the driver's answers to the attempts.
  unfoldable pub finish_pull :
      Daemon sink.Files
      → Pending
      → (ℕ → Result DriverError (PullResult frames.Frame))
      → Times
      → Daemon sink.Files
  unfolding release settle
  finish_pull d p answers at = elim (Dict.lookup p.target d.tables) [
    | none ↦ d
    | some rt ↦
        let retried = run_with_retries answers d.connected in
        let d' = record d { connected = retried.connected } in
        release (settle d' p rt retried.outcome at) p.target
  ]

  -- `_pull_once`, with no other table's pull in between.
  unfoldable pub pull_once :
      Config
      → Daemon sink.Files
      → String
      → (ℕ → Result DriverError (PullResult frames.Frame))
      → Times
      → Result Escape Started × Daemon sink.Files
  unfolding start_pull finish_pull
  pull_once config d target answers at =
      let (started, d') = start_pull config d target at in
      elim started [
        | err e ↦ (err e, d')
        | ok (waiting p) ↦ (ok (waiting p), finish_pull d' p answers at)
        | ok other ↦ (ok other, d')
      ]
