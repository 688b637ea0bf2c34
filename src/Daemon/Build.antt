-- ===== src/Daemon/Build.antt =====
-- core/daemon.py: `Daemon.__init__` with `_reject_incremental_on_nonappendable_sink`.
pub mod FullRefresh
use r64_db_engine.Base.{
  String, Bool, true, false, not, Option, none, some, List, [], ◌∷◌, if◌then◌else◌, string_eq,
}
use r64_db_engine.Base.Results.{Result, ok, err, ◌>>=◌, ◌>>◌}
use r64_db_engine.Base.Dict
use r64_db_engine.Base.Dict.{Dict}
use r64_db_engine.State.{StateStore}
use r64_db_engine.Config.{
  Config, DefaultsConfig, TableConfig, ConfigError, ResolvedTable, Mode, incremental, full_refresh,
  resolve_table,
}
use r64_db_engine.Daemon.{Frames, Sink, Status, TableRuntimeState, Daemon}

-- An exception of the constructor: a table that cannot be resolved, or the `SinkError`, with the
-- sink's name and the tables that ask for incremental mode.
pub data BuildError : Type 0 where
  config_error : ConfigError → BuildError
  sink_error : String → List String → BuildError

abbrev pub lift_config {ℓ} : {A : Type ℓ} → Result ConfigError A → Result BuildError A
lift_config (ok a) = ok a
lift_config (err e) = err (config_error e)

abbrev add_offender : String → Mode → List String → List String
add_offender target incremental ts = target ∷ ts
add_offender target full_refresh ts = ts

-- The targets whose resolved mode is incremental.
unfoldable pub offenders : DefaultsConfig → List TableConfig → Result BuildError (List String)
offenders d [] = ok []
offenders d (t ∷ ts) =
    let rest = offenders d ts in
    do r ← lift_config (resolve_table d t); more ← rest; ok (add_offender t.target r.mode more)

abbrev refuse : String → List String → Result BuildError (Unit {0})
refuse name [] = ok tt
refuse name (t ∷ ts) = err (sink_error name (t ∷ ts))

initial_runtime : String → ResolvedTable → TableRuntimeState
initial_runtime target r = record {
  target = target;
  status = Status.pending;
  mode = r.mode;
  last_success_at = none;
  last_error = none;
  last_error_at = none;
  rows_pulled_last = 0;
  rows_pulled_total = 0;
  watermark = none;
  consecutive_failures = 0;
  schema_drift_detected = false;
  cadence_seconds = r.cadence_seconds;
  in_flight = false;
  last_started = 0;
}

-- The loop of the constructor.
initial_tables :
    DefaultsConfig
    → List TableConfig
    → Dict String TableRuntimeState
    → Result BuildError (Dict String TableRuntimeState)
unfolding initial_runtime
initial_tables d [] tables = ok tables
initial_tables d (t ∷ ts) tables = elim (resolve_table d t) [
  | err e ↦ err (config_error e)
  | ok r ↦ initial_tables d ts (Dict.insert t.target (initial_runtime t.target r) tables)
]

module _ {Frame : Type 0} (sink : Sink Frame) where
  unfoldable pub reject_incremental_on_nonappendable_sink : Config → Result BuildError (Unit {0})
  reject_incremental_on_nonappendable_sink c =
      if sink.supports_incremental
      then ok tt
      else do found ← offenders c.defaults c.tables; refuse sink.sink_name found

  unfoldable pub init : Config → StateStore → sink.Files → Result BuildError (Daemon sink.Files)
  unfolding initial_tables
  init c state files = do
    reject_incremental_on_nonappendable_sink c
    tables ← initial_tables c.defaults c.tables []
    ok (record { started_at = 0; connected = false; tables = tables; state = state; files = files })
