-- ===== src/Daemon/Snapshot/Disconnected.antt =====
-- core/daemon.py: the overall status, and what happens to it after a lost connection.
use r64_db_engine.Base.{
  ℕ, String, ◌≡◌, inl, inr, true, false, arith, Bool-cases, ◌⊎◌, Option, refl, ap,
}
use r64_db_engine.Base.Results.{Result, ok, err, Result-cases}
use r64_db_engine.Base.Json.{Fields}
use r64_db_engine.State.{OrderBy}
use r64_db_engine.Config.{Config, ConfigError, Profile, driver_config}
use r64_db_engine.Daemon.{Frames, DriverError, PullResult, Sink, Daemon}
use r64_db_engine.Daemon.Pull.{Times, Pending, start_pull, finish_pull}
use r64_db_engine.Daemon.Pull.Flags.{finish_pull-connected, start_pull-connected}
use r64_db_engine.Daemon.Snapshot.{Overall, StatusSnapshot, overall, values, status_snapshot}
use r64_db_engine.Daemon.Snapshot.Health.{health_code, health_answer}

module _ (sql : OrderBy) (frames : Frames) (sink : Sink frames.Frame) (config : Config) where
  -- The pulls of all tables, interleaved at their `await`.
  pub data Step : Daemon sink.Files → Daemon sink.Files → Type 0 where
    start :
        (d : Daemon sink.Files) (target : String) (at : Times)
        → Step d (start_pull sql frames sink config d target at).1
    finish :
        (d : Daemon sink.Files) (p : Pending)
        (answers : ℕ → Result DriverError (PullResult frames.Frame)) (at : Times)
        → Step d (finish_pull sql frames sink d p answers at)

  pub data Reach (d : Daemon sink.Files) : Daemon sink.Files → Type 0 where
    here : Reach d d
    next : {e f : Daemon sink.Files} → Reach d e → Step e f → Reach d f

  Step-connected : {d e : Daemon sink.Files} → Step d e → e.connected ≡ true → d.connected ≡ true
  Step-connected (start d target at) h =
      ground (arith, start_pull-connected sql frames sink config d target at)
  Step-connected (finish d p answers at) h = finish_pull-connected sql frames sink d p answers at h

  Reach-connected : {d e : Daemon sink.Files} → Reach d e → e.connected ≡ true → d.connected ≡ true
  Reach-connected here h = h
  Reach-connected (next r s) h = Reach-connected r (Step-connected s h)

  erroneous :
      (e : Daemon sink.Files)
      → e.connected ≡ false
      → overall (values e.tables) e.connected ≡ Overall.error
  unfolding overall
  erroneous e c = ground arith

  -- What a health check finds while the connection flag is down: an error with the answer 503; or, when the
  -- configuration's block is refused, no snapshot and the answer 500.
  abbrev pub IsDown : (String → Option Profile) → Result ConfigError StatusSnapshot → Type 0
  IsDown profiles snapshot =
      ((block : Fields) × (found : StatusSnapshot) × (driver_config profiles config ≡ ok block)
        × (snapshot ≡ ok found)
        × (found.status ≡ Overall.error)
        × (health_answer snapshot ≡ 503))
      ⊎ ((e : ConfigError) × (driver_config profiles config ≡ err e)
          × (snapshot ≡ err e)
          × (health_answer snapshot ≡ 500))

  -- Once the connection flag is down, as a lost connection leaves it, every health check finds that
  -- after any further pulls of any tables in any interleaving, successful ones too: the status is "error"
  -- and the answer 503, or, if the profile refuses the configuration's block, the answer is 500.
  pub Reach-disconnected :
      {d e : Daemon sink.Files}
      → Reach d e
      → d.connected ≡ false
      → (profiles : String → Option Profile) (version : String) (now : ℕ)
      → IsDown profiles (status_snapshot profiles version config e now)
  unfolding status_snapshot
  Reach-disconnected {d} {e} r h profiles version now = elim (Bool-cases e.connected) [
    | inl c ↦ cc (h, Reach-connected r c)
    | inr c ↦ elim (Result-cases (driver_config profiles config)) [
      | inl (block, f) ↦
          rw f (inl (block, _, refl, refl, erroneous e c, ap (λ s. health_code s) (erroneous e c)))
      | inr (reason, f) ↦ rw f (inr (reason, refl, refl, refl))
    ]
  ]
