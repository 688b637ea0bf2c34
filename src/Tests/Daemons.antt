-- ===== src/Tests/Daemons.antt =====
-- core/daemon.py and core/health.py at concrete inputs.
use r64_db_engine.Base.{
  ℕ, zero, suc, ◌+◌, ◌≤◌, ◌<◌, String, ◌≡◌, refl, ◌⊎◌, inl, inr, Bool, true, false, Option, none,
  some, List, [], ◌∷◌, ◌++◌, take, ◌==◌, if◌then◌else◌, string_eq, nat_eq, arith, ==-refl,
}
use r64_db_engine.Base.Results.{Result, ok, err}
use r64_db_engine.Base.Dict
use r64_db_engine.Base.Decimal.{pos}
use r64_db_engine.State.{empty_store, number, get_watermark}
use r64_db_engine.Config.{
  Config, ConfigError, Mode, incremental, full_refresh, IncrementalType, ResolvedTable,
  resolve_table,
}
use r64_db_engine.Daemon.{DriverError, PullResult, Sink, Status, TableRuntimeState, Daemon}
use r64_db_engine.Daemon.Errors.{is_permanent, is_disconnection}
use r64_db_engine.Daemon.Retry.{permanent, failed, run_with_retries, retry_delays}
use r64_db_engine.Daemon.Retry.Attempts.{run_with_retries-decided, Ends, IsTransient}
use r64_db_engine.Daemon.Connect.{connect_loop, connected, raised}
use r64_db_engine.Daemon.Connect.Backoff.{connect_loop-decided, pauses}
use r64_db_engine.Daemon.Pull.{
  Times, Pending, frame_to_write, finish_pull, handle_success, find_table_config,
}
use r64_db_engine.Daemon.Pull.{store_error, skipped, start_pull}
use r64_db_engine.Daemon.Pull.Stuck.{start_pull-stuck}
use r64_db_engine.State.{StateStore, StoreError, set_watermark}
use r64_db_engine.State.{text}
use r64_db_engine.Daemon.Pull.Baseline.{SameBaseline, Wrote, finish_pull-baseline}
use r64_db_engine.Daemon.Pull.Flags.{finish_pull-in_flight}
use r64_db_engine.Daemon.Snapshot.{Overall, StatusSnapshot, status_snapshot}
use r64_db_engine.Daemon.Snapshot.Health.{handle}
use r64_db_engine.Daemon.Snapshot.Disconnected.{Reach, Step, Reach-disconnected, IsDown}
use r64_db_engine.Daemon.Build.{init}
use r64_db_engine.Daemon.Build.FullRefresh.{init-full_refresh}
use r64_db_engine.Tests.Values.{insertion_order, row_frames, memory_sink}

-- `08006`, a lost connection; and `42P01`, a missing table.
abbrev lost : DriverError
lost = record {
  message = "server closed the connection";
  sqlstate = some "08006";
  diag_sqlstate = none;
}

abbrev no_table : DriverError
no_table = record { message = "no such table"; sqlstate = none; diag_sqlstate = some "42P01" }

abbrev pulled : PullResult (List ℕ)
pulled = record {
  dataframe = 3 ∷ 4 ∷ [];
  new_watermark = some (number (pos 4));
  rows_pulled = 2;
  duration_ms = 10;
}

-- The first attempt loses the connection, the second returns.
abbrev recovers : ℕ → Result DriverError (PullResult (List ℕ))
recovers zero = err lost
recovers (suc n) = ok pulled

lost_is_transient :
    (is_permanent lost ≡ false) × (is_disconnection lost ≡ true) × (is_permanent no_table ≡ true)
unfolding is_permanent is_disconnection string_eq nat_eq r64_db_engine.Base.starts_with
lost_is_transient = (refl, refl, refl)

recovers_first : (i : ℕ) → i < 1 → IsTransient recovers i
recovers_first zero h = (lost, refl, lost_is_transient.0)
recovers_first (suc i) h = absurd (omega arith)

run_with_retries-decided_example :
    ((r : PullResult (List ℕ))
      → ◌≡◌ {A = Result DriverError (PullResult (List ℕ))} (ok pulled) (ok r)
      → Ends recovers (run_with_retries recovers true) (ok r) (1 ∷ []))
    × ((e : DriverError)
        → ◌≡◌ {A = Result DriverError (PullResult (List ℕ))} (ok pulled) (err e)
        → is_permanent e ≡ true
        → Ends recovers (run_with_retries recovers true) (err (permanent e.message)) (1 ∷ []))
    × ((e : DriverError)
        → ◌≡◌ {A = ℕ} 1 3
        → ◌≡◌ {A = Result DriverError (PullResult (List ℕ))} (ok pulled) (err e)
        → is_permanent e ≡ false
        → Ends recovers (run_with_retries recovers true) (err (failed e)) retry_delays)
run_with_retries-decided_example =
    run_with_retries-decided recovers true 1 (omega arith) recovers_first

abbrev no_shutdown : ℕ → Bool
no_shutdown n = false

abbrev comes_up : ℕ → Result DriverError (Unit {0})
comes_up zero = err lost
comes_up (suc zero) = err lost
comes_up (suc (suc n)) = ok tt

comes_up_retried :
    (m : ℕ)
    → m < 2
    → (e : DriverError) × (comes_up m ≡ err e) × (is_permanent e ≡ false) × (no_shutdown m ≡ false)
comes_up_retried zero h = (lost, refl, lost_is_transient.0, refl)
comes_up_retried (suc zero) h = (lost, refl, lost_is_transient.0, refl)
comes_up_retried (suc (suc m)) h = absurd (omega arith)

connect_loop-decided_example :
    (comes_up 2 ≡ ok tt → connect_loop comes_up no_shutdown (2 + 1) ≡ connected (pauses 0 2))
    × ((e : DriverError)
        → comes_up 2 ≡ err e
        → is_permanent e ≡ true
        → connect_loop comes_up no_shutdown (2 + 1) ≡ raised e)
connect_loop-decided_example = connect_loop-decided comes_up no_shutdown 2 0 comes_up_retried

first_pauses : pauses 0 6 ≡ 5 ∷ 10 ∷ 20 ∷ 40 ∷ 60 ∷ 60 ∷ []
first_pauses = refl

abbrev pub orders : ResolvedTable
orders = record {
  source = "public.orders";
  target = "Orders";
  mode = incremental;
  incremental_key = some "id";
  incremental_type = IncrementalType.int;
  cadence = "60s";
  cadence_seconds = 60;
  max_rows = none;
  ascii_sanitize = true;
}

abbrev pub runtime : TableRuntimeState
runtime = record {
  target = "Orders";
  status = Status.pending;
  mode = incremental;
  last_success_at = none;
  last_error = none;
  last_error_at = none;
  rows_pulled_last = 0;
  rows_pulled_total = 0;
  watermark = none;
  consecutive_failures = 0;
  schema_drift_detected = false;
  cadence_seconds = 60;
  in_flight = true;
  last_started = 0;
}

abbrev appendable : Sink (List ℕ)
appendable = memory_sink true

-- A daemon that waits for a pull of `Orders`, whose file holds two rows.
abbrev running : Daemon appendable.Files
running = record {
  started_at = 1;
  connected = true;
  tables = ("Orders", runtime) ∷ [];
  state = empty_store;
  files = ("Orders", 1 ∷ 2 ∷ []) ∷ [];
}

abbrev pub at : Times
at = record { monotonic = 100; started = 100; stored = 101; finished = 102 }

abbrev waiting_orders : Pending
waiting_orders = record {
  target = "Orders";
  tcfg = orders;
  prev_value = some (number (pos 2));
  prev_schema = none;
}

abbrev after : Daemon appendable.Files
after = finish_pull insertion_order row_frames appendable running waiting_orders recovers at

finish_pull-baseline_example :
    SameBaseline insertion_order row_frames appendable after running
    ⊎ Wrote insertion_order row_frames appendable running waiting_orders
        (run_with_retries recovers true).outcome
finish_pull-baseline_example =
    finish_pull-baseline insertion_order row_frames appendable running waiting_orders recovers at

-- The pull whose first attempt lost the connection succeeds, and the flag stays down.
after_lookup :
    (rt : TableRuntimeState) × (Dict.lookup "Orders" after.tables ≡ some rt)
    × (rt.status ≡ Status.ok)
    × (after.connected ≡ false)
    × (Dict.lookup "Orders" after.files ≡ some (1 ∷ 2 ∷ 3 ∷ 4 ∷ []))
unfolding finish_pull is_permanent is_disconnection string_eq nat_eq insertion_order Dict.lookup
    run_with_retries handle_success Dict.insert r64_db_engine.Base.starts_with frame_to_write
after_lookup = (_, refl, refl, refl, refl)

finish_pull-in_flight_example : after_lookup.0.in_flight ≡ false
finish_pull-in_flight_example =
    finish_pull-in_flight insertion_order row_frames appendable running waiting_orders recovers at
      after_lookup.1

abbrev plain_config : Config
plain_config = record {
  dialect = "postgres";
  postgres = some r64_db_engine.Base.Json.end;
  clickhouse = none;
  profile = none;
  extra = r64_db_engine.Base.Json.end;
  defaults = record {
    cadence = "60s";
    mode = full_refresh;
    max_rows = none;
    ascii_sanitize = true;
  };
  tables =
      record {
        source = "public.orders";
        target = "Orders";
        mode = none;
        incremental_key = none;
        incremental_type = IncrementalType.int;
        cadence = none;
        max_rows = none;
        ascii_sanitize = none;
      }
      ∷ [];
  runtime = record { worker_pool_size = 4; shutdown_grace_seconds = 30 };
}

-- The daemon after a pull that lost the connection, at a health check.
abbrev checked_snapshot : Result ConfigError StatusSnapshot
checked_snapshot =
    status_snapshot (λ _. none) "1.0" plain_config
      (finish_pull insertion_order row_frames appendable after waiting_orders (λ _. ok pulled) at)
      200

Reach-disconnected_example :
    IsDown insertion_order row_frames appendable plain_config (λ _. none) checked_snapshot
Reach-disconnected_example =
    Reach-disconnected insertion_order row_frames appendable plain_config
      (Reach.next Reach.here (Step.finish after waiting_orders (λ _. ok pulled) at)) after_lookup.3
      (λ _. none) "1.0" 200

abbrev rigid : Sink (List ℕ)
rigid = memory_sink false

built : (d : Daemon rigid.Files) × (init rigid plain_config empty_store [] ≡ ok d)
unfolding init resolve_table r64_db_engine.Daemon.Build.offenders
    r64_db_engine.Daemon.Build.reject_incremental_on_nonappendable_sink
    r64_db_engine.Config.Cadence.parse_cadence
built = (_, refl)

found :
    (t : ResolvedTable) × (find_table_config plain_config plain_config.tables "Orders"
      ≡ some (ok t))
unfolding find_table_config resolve_table r64_db_engine.Config.Cadence.parse_cadence string_eq
found = (_, refl)

init-full_refresh_example :
    frame_to_write insertion_order row_frames rigid
      (("Orders", 1 ∷ []) ∷ [])
      "Orders"
      found.0
      pulled
      false
    ≡ pulled.dataframe
init-full_refresh_example =
    init-full_refresh insertion_order row_frames rigid plain_config empty_store [] built.0 refl
      built.1 "Orders" found.0 found.1 (("Orders", 1 ∷ []) ∷ []) pulled false

abbrev running_snapshot : Result ConfigError StatusSnapshot
running_snapshot = status_snapshot (λ _. none) "1.0" plain_config running 5

-- The profile of this configuration is not registered.
abbrev refused_config : Config
refused_config = record plain_config { profile = some "supabase" }

health_codes :
    (handle "GET /health HTTP/1.1" running_snapshot ≡ some 200)
    × (handle "get /healthz HTTP/1.1" running_snapshot ≡ some 200)
    × (handle "POST /health HTTP/1.1" running_snapshot ≡ some 405)
    × (handle "GET /metrics HTTP/1.1" running_snapshot ≡ some 404)
    × (handle "GET /health" running_snapshot ≡ some 400)
    × (handle "GET /health HTTP/1.1" (status_snapshot (λ _. none) "1.0" refused_config running 5)
        ≡ some 500)
unfolding handle status_snapshot nat_eq string_eq r64_db_engine.Base.starts_with
    r64_db_engine.Config.driver_config r64_db_engine.Config.source_block
    r64_db_engine.Config.apply_profile r64_db_engine.Daemon.Snapshot.Health.split_request
health_codes = (refl, refl, refl, refl, refl, refl)

-- A cursor that was stored as "int" though it is no integer.
abbrev odd_store : StateStore
odd_store = set_watermark empty_store "Orders" (text "12.5") "int" 2 10 50

abbrev idle : TableRuntimeState
idle = record runtime { in_flight = false }

abbrev with_odd_store : Daemon appendable.Files
with_odd_store = record running { tables = ("Orders", idle) ∷ []; state = odd_store }

idle_found : Dict.lookup "Orders" with_odd_store.tables ≡ some idle
unfolding Dict.lookup string_eq
idle_found = refl

odd_watermark : (e : StoreError) × (get_watermark odd_store "Orders" ≡ err e)
unfolding get_watermark set_watermark string_eq nat_eq Dict.lookup Dict.insert
    r64_db_engine.Base.Decimal.int
odd_watermark = (_, refl)

start_pull-stuck_example :
    ((start_pull insertion_order row_frames appendable plain_config with_odd_store "Orders" at).0
      ≡ err (store_error odd_watermark.0))
    × ((later : Times)
        → (start_pull insertion_order row_frames appendable plain_config
            (start_pull insertion_order row_frames appendable plain_config with_odd_store "Orders"
              at).1
            "Orders"
            later).0
          ≡ ok skipped)
start_pull-stuck_example =
    start_pull-stuck insertion_order row_frames appendable plain_config with_odd_store "Orders" idle
      found.0 odd_watermark.0 at idle_found refl found.1 odd_watermark.1
