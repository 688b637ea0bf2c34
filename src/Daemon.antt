-- ===== src/Daemon.antt =====
-- core/daemon.py, core/driver.py and core/sink.py: the daemon's state, and the driver, the sink and
-- the data frames that it works with. Frames are pandas', a sink is any implementation of `Sink`.
pub mod Errors
pub mod Retry
pub mod Connect
pub mod Pull
pub mod Snapshot
pub mod Build
use r64_db_engine.Base.{ℕ, String, Bool, true, false, Option, none, some, List, [], ◌∷◌}
use r64_db_engine.Base.Results.{Result}
use r64_db_engine.Base.Dict.{Dict}
use r64_db_engine.State.{StateStore, Watermark}
use r64_db_engine.Config.{Mode}

-- What the daemon reads of a `pd.DataFrame`: the columns with their dtypes, and `pd.concat`.
pub record Frames : Type 1 where
  pub Frame : Type 0
  pub dtypes : Frame → List (String × String)
  pub concat : Frame → Frame → Frame

-- An exception of the driver: its text, `exc.sqlstate` and `exc.diag.sqlstate`.
pub record DriverError : Type 0 where
  pub message : String
  pub sqlstate : Option String
  pub diag_sqlstate : Option String

-- `PullResult`
pub record PullResult (Frame : Type 0) : Type 0 where
  pub dataframe : Frame
  pub new_watermark : Option Watermark
  pub rows_pulled : ℕ
  pub duration_ms : ℕ

-- `Sink`, over the state of the place it writes to. `load` is `load_to_df`, which may raise;
-- `write` may raise, with a message, and leave that place changed.
pub record Sink (Frame : Type 0) : Type 1 where
  pub Files : Type 0
  pub sink_name : String
  pub supports_incremental : Bool
  pub exists : Files → String → Bool
  pub load : Files → String → Option Frame
  pub write : Files → Frame → String → Result String (Unit {0}) × Files

pub data Status : Type 0 where
  pending ok error degraded : Status

pub record TableRuntimeState : Type 0 where
  pub target : String
  pub status : Status
  pub mode : Mode
  pub last_success_at : Option ℕ
  pub last_error : Option String
  pub last_error_at : Option ℕ
  pub rows_pulled_last : ℕ
  pub rows_pulled_total : ℕ
  pub watermark : Option Watermark
  pub consecutive_failures : ℕ
  pub schema_drift_detected : Bool
  pub cadence_seconds : ℕ
  pub in_flight : Bool
  pub last_started : ℕ

-- The attributes of `Daemon` that change, and the files of its sink.
pub record Daemon (Files : Type 0) : Type 0 where
  pub started_at : ℕ
  pub connected : Bool
  pub tables : Dict String TableRuntimeState
  pub state : StateStore
  pub files : Files
