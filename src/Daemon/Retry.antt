-- ===== src/Daemon/Retry.antt =====
-- core/daemon.py: `_run_with_retries`. The driver's answers are a function of the attempt.
pub mod Attempts
use r64_db_engine.Base.{
  ℕ, ◌+◌, String, Bool, true, false, not, ◌&&◌, List, [], ◌∷◌, ◌++◌, if◌then◌else◌,
}
use r64_db_engine.Base.Results.{Result, ok, err}
use r64_db_engine.Daemon.{DriverError, PullResult}
use r64_db_engine.Daemon.Errors.{is_permanent, is_disconnection}

abbrev pub retry_delays : List ℕ
retry_delays = 1 ∷ 4 ∷ 16 ∷ []

-- `_PermanentError(str(exc))`, or the last exception itself.
pub data Raised : Type 0 where
  permanent : String → Raised
  failed : DriverError → Raised

pub record Retried (Frame : Type 0) : Type 0 where
  pub outcome : Result Raised (PullResult Frame)
  pub connected : Bool
  pub slept : List ℕ

module _ {Frame : Type 0} (pull : ℕ → Result DriverError (PullResult Frame)) where
  -- One attempt, and those that follow: `delays` are the pauses that are left.
  unfoldable pub attempt_from : List ℕ → ℕ → Bool → List ℕ → Retried Frame
  attempt_from [] attempt connected slept = elim (pull attempt) [
    | ok r ↦ record { outcome = ok r; connected = connected; slept = slept }
    | err e ↦
        if is_permanent e
        then record { outcome = err (permanent e.message); connected = connected; slept = slept }
        else record {
          outcome = err (failed e);
          connected = connected && not (is_disconnection e);
          slept = slept;
        }
  ]
  attempt_from (delay ∷ delays) attempt connected slept = elim (pull attempt) [
    | ok r ↦ record { outcome = ok r; connected = connected; slept = slept }
    | err e ↦
        let next =
          attempt_from delays (attempt + 1) (connected && not (is_disconnection e))
            (slept ++ delay ∷ []) in
        if is_permanent e
        then record { outcome = err (permanent e.message); connected = connected; slept = slept }
        else next
  ]

  unfoldable pub run_with_retries : Bool → Retried Frame
  unfolding attempt_from
  run_with_retries connected = attempt_from retry_delays 0 connected []
