-- ===== src/Daemon/Pull/Merge.antt =====
-- core/daemon.py: what an incremental pull leaves in the sink's file and in the store.
use r64_db_engine.Base.{
  String, ◌≡◌, ap, ◌∙◌, Bool, true, false, Option, none, some, List, string_eq, arith, ==-refl,
}
use r64_db_engine.Base.Results.{Result, ok}
use r64_db_engine.Base.Dict.{Dict}
use r64_db_engine.State.{
  WatermarkRow, StateStore, OrderBy, Watermark, Column, get_watermark, set_watermark, set_schema,
}
use r64_db_engine.State.Watermarks.{IsStorable, get-set_watermark}
use r64_db_engine.State.History.{record_pull_frame}
use r64_db_engine.Config.{ResolvedTable, incremental}
use r64_db_engine.Daemon.{Frames, PullResult, Sink, TableRuntimeState, Daemon}
use r64_db_engine.Daemon.Pull.{
  Times, type_text, frame_to_write, handle_success, stored, store_watermark, schema_of, after_write,
  set_runtime, succeeded,
}

-- The promise of `Sink.write` and `load_to_df` for a target: what it loads after a write that returned
-- is the frame that was written, in the form in which the sink stores frames. `RamdbSink` stores it
-- null-filled, and its integers and texts in other dtypes.
pub record StoresAs {Frame : Type 0} (sink : Sink Frame) (target : String)
    (stored_as : Frame → Frame) : Type 0 where
  pub load-write :
      (files : sink.Files) (df : Frame)
      → (sink.write files df target).0 ≡ ok tt
      → sink.load (sink.write files df target).1 target ≡ some (stored_as df)

module _ (sql : OrderBy) (frames : Frames) (sink : Sink frames.Frame) where
  -- The rows that were there, if they load, with the new ones behind them.
  abbrev pub joined : Option frames.Frame → frames.Frame → frames.Frame
  joined none df = df
  joined (some old) df = frames.concat old df

  get_watermark-frame :
      (s t : StateStore) (target : String)
      → s.watermarks ≡ t.watermarks
      → get_watermark s target ≡ get_watermark t target
  unfolding get_watermark
  get_watermark-frame s t target h =
      ap (λ (ws : Dict String WatermarkRow). get_watermark (record s { watermarks = ws }) target) h

  get_watermark-stored :
      (s : StateStore) (target : String) (tcfg : ResolvedTable) (r : PullResult frames.Frame)
      (df : frames.Frame) (at : Times) (w : Watermark)
      → r.new_watermark ≡ some w
      → IsStorable w (type_text tcfg.incremental_type)
      → get_watermark (stored sql frames sink s target tcfg r df at) target
        ≡ ok (some (w, type_text tcfg.incremental_type))
  unfolding stored set_schema
  get_watermark-stored s target tcfg r df at w new storable =
      let s1 = store_watermark sql frames sink s target tcfg r at.stored in
      let s2 = set_schema s1 target (schema_of sql frames sink df) at.stored in
      let after =
        record_pull_frame sql s2 target at.started (some at.finished) "success" (some r.rows_pulled)
          none in
      let wrote : s1
          ≡ set_watermark s target w (type_text tcfg.incremental_type) r.rows_pulled r.duration_ms
              at.stored =
        rw (new, store_watermark) in
      get_watermark-frame _ s1 target after.0
      ∙ ap (λ (x : StateStore). get_watermark x target) wrote
      ∙ (get-set_watermark s target target w (type_text tcfg.incremental_type) r.rows_pulled
            r.duration_ms at.stored storable
          ∙ rw ==-refl)

  frame_merged :
      (files : sink.Files) (target : String) (tcfg : ResolvedTable) (r : PullResult frames.Frame)
      → tcfg.mode ≡ incremental
      → sink.exists files target ≡ true
      → frame_to_write sql frames sink files target tcfg r false
        ≡ joined (sink.load files target) r.dataframe
  unfolding frame_to_write
  frame_merged files target tcfg r mode found = ground arith

  handle_success-ok :
      (d : Daemon sink.Files) (target : String) (rt : TableRuntimeState) (tcfg : ResolvedTable)
      (r : PullResult frames.Frame) (prev : Option (List Column)) (at : Times) (reset : Bool)
      (df : frames.Frame)
      → frame_to_write sql frames sink d.files target tcfg r reset ≡ df
      → (sink.write d.files df target).0 ≡ ok tt
      → handle_success sql frames sink d target rt tcfg r prev at reset ≡ (
        ok tt,
        set_runtime sql frames sink
            (record d {
              files = (sink.write d.files df target).1;
              state = stored sql frames sink d.state target tcfg r df at;
            })
            target
            (succeeded sql frames sink rt r prev df at),
      )
  unfolding handle_success
  handle_success-ok d target rt tcfg r prev at reset df frame written =
      ap
        (λ (x : frames.Frame).
          after_write sql frames sink d target rt tcfg r prev at x (sink.write d.files x target).0
            (sink.write d.files x target).1)
        frame
      ∙ ap
          (λ (x : Result String (Unit {0})).
            after_write sql frames sink d target rt tcfg r prev at df x
              (sink.write d.files df target).1)
          written

  -- When an incremental pull that is not a reset finds an earlier file and its write succeeds, on a
  -- sink that keeps its promise for the target, the target then loads, in the form in which the sink
  -- stores frames, as the frame that it loaded as before with the new rows behind it, and as the new
  -- rows alone if the earlier file could not be loaded; either way the stored watermark is the new one.
  pub handle_success-merged :
      (d : Daemon sink.Files) (target : String) (rt : TableRuntimeState) (tcfg : ResolvedTable)
      (r : PullResult frames.Frame) (prev : Option (List Column)) (at : Times) (w : Watermark)
      (stored_as : frames.Frame → frames.Frame)
      → StoresAs sink target stored_as
      → tcfg.mode ≡ incremental
      → sink.exists d.files target ≡ true
      → r.new_watermark ≡ some w
      → IsStorable w (type_text tcfg.incremental_type)
      → let df = joined (sink.load d.files target) r.dataframe in
        (sink.write d.files df target).0 ≡ ok tt
        → let (result, d') = handle_success sql frames sink d target rt tcfg r prev at false in
          (result ≡ ok tt)
          × (sink.load d'.files target ≡ some (stored_as df))
          × (get_watermark d'.state target ≡ ok (some (w, type_text tcfg.incremental_type)))
  unfolding handle_success
  handle_success-merged d target rt tcfg r prev at w stored_as keeps mode found new storable
        written =
      let df = joined (sink.load d.files target) r.dataframe in
      let done =
        handle_success-ok d target rt tcfg r prev at false df
          (frame_merged d.files target tcfg r mode found) written in
      (
        ap (λ (x : Result String (Unit {0}) × Daemon sink.Files). x.0) done,
        ap (λ (x : Result String (Unit {0}) × Daemon sink.Files). sink.load x.1.files target) done
            ∙ keeps.load-write d.files df written,
        ap (λ (x : Result String (Unit {0}) × Daemon sink.Files). get_watermark x.1.state target)
              done
            ∙ get_watermark-stored d.state target tcfg r df at w new storable,
      )
