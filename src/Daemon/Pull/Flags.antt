-- ===== src/Daemon/Pull/Flags.antt =====
-- core/daemon.py: the connection flag, the in-flight flag and the status after a pull.
use r64_db_engine.Base.{
  ℕ, ◌+◌, String, ◌≡◌, refl, sym, ◌∙◌, inl, inr, Bool, true, false, not, ◌&&◌, some, List, [], ◌∷◌,
  ◌++◌, string_eq, arith, Option-cases,
}
use r64_db_engine.Base.Results.{Result, ok, err, Result-cases}
use r64_db_engine.Base.Dict
use r64_db_engine.Base.Dict.{Dict, lookup-insert}
use r64_db_engine.State.{OrderBy}
use r64_db_engine.Config.{Config}
use r64_db_engine.Daemon.{Frames, DriverError, PullResult, Sink, TableRuntimeState, Daemon}
use r64_db_engine.Daemon.Retry.{
  Raised, permanent, failed, attempt_from, run_with_retries, retry_delays,
}
use r64_db_engine.Daemon.Errors.{is_disconnection}
use r64_db_engine.Daemon.Pull.{
  Times, Pending, handle_success, handle_failure, settle, release, finish_pull, start_pull, claim,
}

and_left : (a b : Bool) → a && b ≡ true → a ≡ true
and_left a b h = ground arith

module _ {Frame : Type 0} (pull : ℕ → Result DriverError (PullResult Frame)) where
  attempt_from-connected :
      (delays : List ℕ) (a : ℕ) (c : Bool) (slept : List ℕ)
      → (attempt_from pull delays a c slept).connected ≡ true
      → c ≡ true
  unfolding attempt_from
  attempt_from-connected [] a c slept h = ground arith
  attempt_from-connected (d ∷ delays) a c slept h = elim (Result-cases (pull a)) [
    | inl (r, e) ↦ rw (e, attempt_from) at h
    | inr (x, e) ↦ ground (
      arith,
      attempt_from-connected delays (a + 1) (c && not (is_disconnection x)) (slept ++ d ∷ []),
    )
  ]

  pub run_with_retries-connected :
      (c : Bool) → (run_with_retries pull c).connected ≡ true → c ≡ true
  unfolding run_with_retries
  run_with_retries-connected c h = attempt_from-connected retry_delays 0 c [] h

module _ (sql : OrderBy) (frames : Frames) (sink : Sink frames.Frame) where
  settle-connected :
      (d : Daemon sink.Files) (p : Pending) (rt : TableRuntimeState)
      (outcome : Result Raised (PullResult frames.Frame)) (at : Times)
      → (settle sql frames sink d p rt outcome at).connected ≡ d.connected
  unfolding settle handle_success handle_failure
  settle-connected d p rt (err (permanent m)) at = refl
  settle-connected d p rt (err (failed e)) at = refl
  settle-connected d p rt (ok r) at = ground arith

  release-connected :
      (d : Daemon sink.Files) (target : String)
      → (release sql frames sink d target).connected ≡ d.connected
  unfolding release
  release-connected d target = ground arith

  pub finish_pull-connected :
      (d : Daemon sink.Files) (p : Pending)
      (answers : ℕ → Result DriverError (PullResult frames.Frame)) (at : Times)
      → (finish_pull sql frames sink d p answers at).connected ≡ true
      → d.connected ≡ true
  unfolding finish_pull
  finish_pull-connected d p answers at h = elim (Option-cases (Dict.lookup p.target d.tables)) [
    | inl e ↦ rw (e, finish_pull) at h
    | inr (rt, e) ↦ run_with_retries-connected answers d.connected (
        sym (settle-connected _ p rt (run_with_retries answers d.connected).outcome at)
        ∙ sym (release-connected _ p.target)
        ∙ (rw (e, finish_pull) at h))
  ]

  pub start_pull-connected :
      (config : Config) (d : Daemon sink.Files) (target : String) (at : Times)
      → (start_pull sql frames sink config d target at).1.connected ≡ d.connected
  unfolding start_pull claim
  start_pull-connected config d target at = ground arith

  release-in_flight :
      (d : Daemon sink.Files) (target : String) {rt : TableRuntimeState}
      → Dict.lookup target (release sql frames sink d target).tables ≡ some rt
      → rt.in_flight ≡ false
  unfolding release
  release-in_flight d target {rt} h = elim (Option-cases (Dict.lookup target d.tables)) [
    | inl e ↦ cc (e, rw (e, release) at h)
    | inr (old, e) ↦
        let h' : Dict.lookup target (Dict.insert target (record old { in_flight = false }) d.tables)
            ≡ some rt =
          (rw (e, release) at h) in
        ground (arith, lookup-insert target target (record old { in_flight = false }) d.tables)
  ]

  -- After a pull that was started has run to its end, whatever the driver and the sink did, its
  -- table is not in flight.
  pub finish_pull-in_flight :
      (d : Daemon sink.Files) (p : Pending)
      (answers : ℕ → Result DriverError (PullResult frames.Frame)) (at : Times)
      {rt : TableRuntimeState}
      → Dict.lookup p.target (finish_pull sql frames sink d p answers at).tables ≡ some rt
      → rt.in_flight ≡ false
  unfolding finish_pull
  finish_pull-in_flight d p answers at {rt} h =
      elim (Option-cases (Dict.lookup p.target d.tables)) [
        | inl e ↦ cc (e, rw (e, finish_pull) at h)
        | inr (old, e) ↦ release-in_flight _ p.target (rw (e, finish_pull) at h)
      ]
