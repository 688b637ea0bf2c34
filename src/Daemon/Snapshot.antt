-- ===== src/Daemon/Snapshot.antt =====
-- core/daemon.py: `status_snapshot` and `_table_status`; core/health.py: the HTTP answer.
pub mod Health
pub mod Disconnected
use r64_db_engine.Base.{
  ℕ, ◌-◌, String, Bool, true, false, not, ◌||◌, Option, none, some, List, [], ◌∷◌, if◌then◌else◌,
  any, ◌==◌, nat_eq,
}
use r64_db_engine.Base.Dict.{Dict}
use r64_db_engine.State.{Watermark}
use r64_db_engine.Base.Results.{Result, ◌>>=◌}
use r64_db_engine.Base.Results
use r64_db_engine.Base.Json.{Json, Fields, get}
use r64_db_engine.Config.{Mode, Config, ConfigError, Profile, driver_config}
use r64_db_engine.Daemon.{Status, TableRuntimeState, Daemon}

pub data Overall : Type 0 where
  ok degraded error : Overall

-- `_table_status`: the error block is present once an error was recorded.
pub record TableStatus : Type 0 where
  pub target : String
  pub status : Status
  pub mode : Mode
  pub last_success_at : Option ℕ
  pub rows_pulled_last : ℕ
  pub rows_pulled_total : ℕ
  pub watermark : Option Watermark
  pub schema_drift_detected : Bool
  pub last_error : Option (String × Option ℕ × ℕ)

-- The "postgres" block, which the configuration of the other dialects leaves empty.
pub record PostgresStatus : Type 0 where
  pub connected : Bool
  pub host : Option Json
  pub database : Option Json

-- The "source" block.
pub record SourceStatus : Type 0 where
  pub dialect : String
  pub connected : Bool
  pub host : Option Json
  pub database : Option Json

pub record StatusSnapshot : Type 0 where
  pub status : Overall
  pub uptime_seconds : ℕ
  pub version : String
  pub postgres : PostgresStatus
  pub source : SourceStatus
  pub tables : List TableStatus

abbrev pub is_error : Status → Bool
is_error Status.error = true
is_error _ = false

abbrev pub is_degraded : Status → Bool
is_degraded Status.degraded = true
is_degraded _ = false

abbrev shown : Status → Status
shown Status.pending = Status.ok
shown s = s

unfoldable pub table_status : TableRuntimeState → TableStatus
table_status t = record {
  target = t.target;
  status = shown t.status;
  mode = t.mode;
  last_success_at = t.last_success_at;
  rows_pulled_last = t.rows_pulled_last;
  rows_pulled_total = t.rows_pulled_total;
  watermark = t.watermark;
  schema_drift_detected = t.schema_drift_detected;
  last_error = elim t.last_error [
    | none ↦ none
    | some e ↦ some (e, t.last_error_at, t.consecutive_failures)
  ];
}

abbrev pub values : Dict String TableRuntimeState → List TableRuntimeState
values [] = []
values ((_, t) ∷ ts) = t ∷ values ts

abbrev pub all_status : List TableRuntimeState → List TableStatus
all_status [] = []
all_status (t ∷ ts) = table_status t ∷ all_status ts

unfoldable pub overall : List TableRuntimeState → Bool → Overall
overall ts connected =
    if any (λ t. is_error t.status) ts || not connected
    then Overall.error
    else if any (λ t. is_degraded t.status) ts || any (λ t. t.schema_drift_detected) ts
    then Overall.degraded
    else Overall.ok

-- `block.x if block else None`
abbrev field_of : String → Option Fields → Option Json
field_of name none = none
field_of name (some block) = get name block

module _ {Files : Type 0} (profiles : String → Option Profile) (version : String)
    (config : Config) where
  abbrev pub snapshot_of : Daemon Files → ℕ → Fields → StatusSnapshot
  snapshot_of d now block = record {
    status = overall (values d.tables) d.connected;
    uptime_seconds = if d.started_at == 0 then 0 else now - d.started_at;
    version = version;
    postgres = record {
      connected = d.connected;
      host = field_of "host" config.postgres;
      database = field_of "database" config.postgres;
    };
    source = record {
      dialect = config.dialect;
      connected = d.connected;
      host = get "host" block;
      database = get "database" block;
    };
    tables = all_status (values d.tables);
  }

  -- `driver_config` raises when the profile refuses the block.
  unfoldable pub status_snapshot : Daemon Files → ℕ → Result ConfigError StatusSnapshot
  unfolding table_status overall
  status_snapshot d now = do
    block ← driver_config profiles config
    Results.ok (snapshot_of d now block)
