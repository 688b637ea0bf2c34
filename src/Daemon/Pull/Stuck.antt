-- ===== src/Daemon/Pull/Stuck.antt =====
-- core/daemon.py: a stored watermark that cannot be read.
use r64_db_engine.Base.{String, ◌≡◌, refl, ap, ◌∙◌, true, false, some, string_eq, ==-refl}
use r64_db_engine.Base.Results.{Result, ok, err}
use r64_db_engine.Base.Dict
use r64_db_engine.Base.Dict.{lookup-insert}
use r64_db_engine.State.{OrderBy, StoreError, get_watermark}
use r64_db_engine.Config.{Config, ResolvedTable}
use r64_db_engine.Daemon.{Frames, Sink, TableRuntimeState, Daemon}
use r64_db_engine.Daemon.Pull.{
  Times, Escape, store_error, Started, skipped, find_table_config, set_runtime, read_previous,
  claim, start_pull,
}

module _ (sql : OrderBy) (frames : Frames) (sink : Sink frames.Frame) (config : Config) where
  -- A table that is in flight is skipped.
  start_pull-skips :
      (d : Daemon sink.Files) (target : String) (rt : TableRuntimeState) (at : Times)
      → Dict.lookup target d.tables ≡ some rt
      → rt.in_flight ≡ true
      → (start_pull sql frames sink config d target at).0 ≡ ok skipped
  unfolding start_pull
  start_pull-skips d target rt at found flag = rw (found, start_pull) (rw flag refl)

  abbrev claimed : TableRuntimeState → Times → TableRuntimeState
  claimed rt at = record rt { in_flight = true; last_started = at.monotonic }

  claim-unread :
      (d : Daemon sink.Files) (target : String) (rt : TableRuntimeState) (tcfg : ResolvedTable)
      (e : StoreError) (at : Times)
      → find_table_config config config.tables target ≡ some (ok tcfg)
      → get_watermark d.state target ≡ err e
      → claim sql frames sink config d target rt at
        ≡ (err (store_error e), set_runtime sql frames sink d target (claimed rt at))
  unfolding claim read_previous
  claim-unread d target rt tcfg e at configured unread =
      rw (configured, claim) (rw (unread, read_previous) refl)

  start_pull-unread :
      (d : Daemon sink.Files) (target : String) (rt : TableRuntimeState) (tcfg : ResolvedTable)
      (e : StoreError) (at : Times)
      → Dict.lookup target d.tables ≡ some rt
      → rt.in_flight ≡ false
      → find_table_config config config.tables target ≡ some (ok tcfg)
      → get_watermark d.state target ≡ err e
      → start_pull sql frames sink config d target at
        ≡ (err (store_error e), set_runtime sql frames sink d target (claimed rt at))
  unfolding start_pull
  start_pull-unread d target rt tcfg e at found flag configured unread =
      rw (found, start_pull) (rw flag (claim-unread d target rt tcfg e at configured unread))

  -- If the stored watermark of a table that is not in flight cannot be read, then the pull ends with the
  -- store's exception, and the table stays in flight: the next pull of it, whenever it starts, is skipped.
  pub start_pull-stuck :
      (d : Daemon sink.Files) (target : String) (rt : TableRuntimeState) (tcfg : ResolvedTable)
      (e : StoreError) (at : Times)
      → Dict.lookup target d.tables ≡ some rt
      → rt.in_flight ≡ false
      → find_table_config config config.tables target ≡ some (ok tcfg)
      → get_watermark d.state target ≡ err e
      → ((start_pull sql frames sink config d target at).0 ≡ err (store_error e))
        × ((later : Times)
            → (start_pull sql frames sink config
                (start_pull sql frames sink config d target at).1
                target
                later).0
              ≡ ok skipped)
  start_pull-stuck d target rt tcfg e at found flag configured unread =
      let run = start_pull-unread d target rt tcfg e at found flag configured unread in
      (
        ap (λ (x : Result Escape Started × Daemon sink.Files). x.0) run,
        λ later.
            ap
              (λ (x : Result Escape Started × Daemon sink.Files).
                (start_pull sql frames sink config x.1 target later).0)
              run
            ∙ start_pull-skips (set_runtime sql frames sink d target (claimed rt at)) target
                (claimed rt at) later
                (lookup-insert target target (claimed rt at) d.tables ∙ rw ==-refl refl) refl,
      )
