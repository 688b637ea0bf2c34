-- ===== src/Daemon/Connect.antt =====
-- core/daemon.py: `_connect_loop`. `answers` and `shutdown` give the driver's answer and the
-- shutdown flag in each round; the loop may run for ever, so it takes fuel.
pub mod Backoff
use r64_db_engine.Base.{
  ℕ, zero, suc, ◌+◌, ◌*◌, min, Bool, true, false, List, [], ◌∷◌, ◌++◌, if◌then◌else◌,
}
use r64_db_engine.Base.Results.{Result, ok, err}
use r64_db_engine.Daemon.{DriverError}
use r64_db_engine.Daemon.Errors.{is_permanent}

abbrev pub reconnect_initial : ℕ
reconnect_initial = 5

abbrev pub reconnect_max : ℕ
reconnect_max = 60

pub data Connected : Type 0 where
  out_of_fuel : Connected
  raised : DriverError → Connected
  gave_up : List ℕ → Connected
  connected : List ℕ → Connected

-- The list is what the loop has slept.
module _ (answers : ℕ → Result DriverError (Unit {0})) (shutdown : ℕ → Bool) where
  unfoldable pub connect_from : ℕ → ℕ → ℕ → List ℕ → Connected
  connect_from zero round delay slept = out_of_fuel
  connect_from (suc fuel) round delay slept =
      let again =
        connect_from fuel (round + 1) (min (delay * 2) reconnect_max) (slept ++ delay ∷ []) in
      elim (answers round) [
        | ok _ ↦ connected slept
        | err e ↦
            if is_permanent e then raised e else if shutdown round then gave_up slept else again
      ]

  unfoldable pub connect_loop : ℕ → Connected
  unfolding connect_from
  connect_loop fuel = connect_from fuel 0 reconnect_initial []
