-- ===== src/Daemon/Pull/Baseline.antt =====
-- core/daemon.py: what a pull that fails leaves behind, and what every pull does.
use r64_db_engine.Base.{
  ℕ, String, ◌≡◌, refl, ap, ◌∙◌, ◌⊎◌, inl, inr, Bool, true, false, none, some, string_eq, arith,
  Option-cases,
}
use r64_db_engine.Base.Results.{Result, ok, err, Result-cases}
use r64_db_engine.Base.Dict
use r64_db_engine.Base.Dict.{Dict, lookup-insert}
use r64_db_engine.State.{OrderBy}
use r64_db_engine.State.History.{record_pull_frame}
use r64_db_engine.Daemon.{Frames, DriverError, PullResult, Sink, TableRuntimeState, Daemon}
use r64_db_engine.Daemon.Retry.{Raised, permanent, failed, run_with_retries}
use r64_db_engine.Daemon.Pull.{
  Times, Pending, is_none, frame_to_write, handle_success, handle_failure, settle, release,
  finish_pull,
}

-- A failure's message and whether it is permanent, as the handlers of `_pull_once` see it.
abbrev pub raised_text : Raised → String
raised_text (permanent m) = m
raised_text (failed e) = e.message

abbrev pub raised_permanent : Raised → Bool
raised_permanent (permanent _) = true
raised_permanent (failed _) = false

module _ (sql : OrderBy) (frames : Frames) (sink : Sink frames.Frame) where
  -- The parts of the daemon that a failed pull must not move.
  pub record SameBaseline (a b : Daemon sink.Files) : Type 0 where
    pub watermarks : a.state.watermarks ≡ b.state.watermarks
    pub schemas : a.state.schemas ≡ b.state.schemas

  handle_failure-SameBaseline :
      (d : Daemon sink.Files) (target : String) (rt : TableRuntimeState) (msg : String) (at : Times)
      (p : Bool)
      → SameBaseline (handle_failure sql frames sink d target rt msg at p) d
  unfolding handle_failure
  handle_failure-SameBaseline d target rt msg at p =
      let (w, s) =
        record_pull_frame sql d.state target at.started (some at.finished) "error" none
          (some msg) in
      record { watermarks = w; schemas = s }

  release-SameBaseline :
      (d : Daemon sink.Files) (target : String) → SameBaseline (release sql frames sink d target) d
  unfolding release
  release-SameBaseline d target = ground arith

  -- The frame of a successful run of the driver was written.
  abbrev pub Wrote : Daemon sink.Files → Pending → Result Raised (PullResult frames.Frame) → Type 0
  Wrote d p outcome =
      (r : PullResult frames.Frame) × (outcome ≡ ok r)
      × ((sink.write d.files
            (frame_to_write sql frames sink d.files p.target p.tcfg r (is_none p.prev_value))
            p.target).0
          ≡ ok tt)

  settle-SameBaseline :
      (d : Daemon sink.Files) (p : Pending) (rt : TableRuntimeState)
      (outcome : Result Raised (PullResult frames.Frame)) (at : Times)
      → SameBaseline (settle sql frames sink d p rt outcome at) d ⊎ Wrote d p outcome
  unfolding settle handle_success
  settle-SameBaseline d p rt (err (permanent m)) at =
      inl (handle_failure-SameBaseline d p.target rt m at true)
  settle-SameBaseline d p rt (err (failed e)) at =
      inl (handle_failure-SameBaseline d p.target rt e.message at false)
  settle-SameBaseline d p rt (ok r) at =
      let (x, files) =
        sink.write d.files
          (frame_to_write sql frames sink d.files p.target p.tcfg r (is_none p.prev_value))
          p.target in
      elim (Result-cases x) [
        | inl (_, e) ↦ inr (r, refl, e)
        | inr (m, e) ↦
            let same =
              handle_failure-SameBaseline (record d { files = files }) p.target rt m at false in
            inl (record {
              watermarks = ground (arith, same.watermarks, e);
              schemas = ground (arith, same.schemas, e);
            })
      ]

  -- A pull either leaves every stored watermark and every schema baseline as it was, or the driver
  -- returned a result whose frame the sink has written without an error: no watermark moves ahead
  -- of the data.
  pub finish_pull-baseline :
      (d : Daemon sink.Files) (p : Pending)
      (answers : ℕ → Result DriverError (PullResult frames.Frame)) (at : Times)
      → SameBaseline (finish_pull sql frames sink d p answers at) d
        ⊎ Wrote d p (run_with_retries answers d.connected).outcome
  unfolding finish_pull
  finish_pull-baseline d p answers at = elim (Option-cases (Dict.lookup p.target d.tables)) [
    | inl e ↦ inl (record {
      watermarks = ap (λ (x : Daemon sink.Files). x.state.watermarks) (absent e);
      schemas = ap (λ (x : Daemon sink.Files). x.state.schemas) (absent e);
    })
    | inr (rt, e) ↦
        let retried = run_with_retries answers d.connected in
        let d' : Daemon sink.Files = record d { connected = retried.connected } in
        elim (settle-SameBaseline d' p rt retried.outcome at) [
          | inl same ↦
              let r =
                release-SameBaseline (settle sql frames sink d' p rt retried.outcome at) p.target in
              inl (record {
                watermarks =
                    ap (λ (x : Daemon sink.Files). x.state.watermarks) (present rt e)
                    ∙ r.watermarks
                    ∙ same.watermarks;
                schemas =
                    ap (λ (x : Daemon sink.Files). x.state.schemas) (present rt e)
                    ∙ r.schemas
                    ∙ same.schemas;
              })
          | inr wrote ↦ inr wrote
        ]
  ]
    where
      absent : Dict.lookup p.target d.tables ≡ none → finish_pull sql frames sink d p answers at ≡ d
      absent e = rw (e, finish_pull)

      present :
          (rt : TableRuntimeState)
          → Dict.lookup p.target d.tables ≡ some rt
          → finish_pull sql frames sink d p answers at
            ≡ release sql frames sink
                (settle sql frames sink
                  (record d { connected = (run_with_retries answers d.connected).connected })
                  p
                  rt
                  (run_with_retries answers d.connected).outcome
                  at)
                p.target
      present rt e = rw (e, finish_pull)
