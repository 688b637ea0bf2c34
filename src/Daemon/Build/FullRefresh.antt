-- ===== src/Daemon/Build/FullRefresh.antt =====
-- core/daemon.py: a daemon over a sink that cannot append never merges.
use r64_db_engine.Base.{
  String, ◌≡◌, refl, ap, sym, ◌∙◌, Bool, false, some, List, [], ◌∷◌, ◌==◌, string_eq, arith,
  Bool-cases, inl, inr,
}
use r64_db_engine.Base.Results.{Result, ok, err, >>=-eq-ok}
use r64_db_engine.State.{StateStore, OrderBy}
use r64_db_engine.Config.{
  Config, TableConfig, ResolvedTable, Mode, incremental, full_refresh, resolve_table, ConfigError,
}
use r64_db_engine.Daemon.{Frames, Sink, Daemon, PullResult}
use r64_db_engine.Daemon.Build.{
  lift_config, offenders, add_offender, refuse, reject_incremental_on_nonappendable_sink, init,
}
use r64_db_engine.Daemon.Pull.{find_table_config, frame_to_write}

refuse-ok : (name : String) (ts : List String) → refuse name ts ≡ ok tt → ts ≡ []
refuse-ok name [] h = refl
refuse-ok name (t ∷ ts) h = cc

no_offender :
    (target : String) (m : Mode) (ts : List String)
    → add_offender target m ts ≡ []
    → (m ≡ full_refresh) × (ts ≡ [])
no_offender target incremental ts h = cc
no_offender target full_refresh ts h = (refl, h)

lifted :
    (x : Result ConfigError ResolvedTable) (r t : ResolvedTable)
    → lift_config x ≡ ok r
    → some x ≡ some (ok t)
    → r ≡ t
lifted (ok a) r t h k = cc
lifted (err e) r t h k = cc

module _ (c : Config) where
  found_full :
      (ts : List TableConfig) (target : String) (tcfg : ResolvedTable)
      → offenders c.defaults ts ≡ ok []
      → find_table_config c ts target ≡ some (ok tcfg)
      → tcfg.mode ≡ full_refresh
  unfolding offenders find_table_config
  found_full [] target tcfg h f = cc
  found_full (t ∷ ts) target tcfg h f =
      let (r, er, h1) = >>=-eq-ok (lift_config (resolve_table c.defaults t)) _ h in
      let (more, em, h2) = >>=-eq-ok (offenders c.defaults ts) _ h1 in
      let none_left = no_offender t.target r.mode more (ground arith) in
      elim (Bool-cases (t.target == target)) [
        | inl e ↦
            let same = lifted (resolve_table c.defaults t) r tcfg er (rw e at f) in
            ap (λ (x : ResolvedTable). x.mode) (sym same) ∙ none_left.0
        | inr e ↦
            found_full ts target tcfg (em ∙ ap (λ (x : List String). ok x) none_left.1) (rw e at f)
      ]

module _ (sql : OrderBy) (frames : Frames) (sink : Sink frames.Frame) where
  -- If the sink cannot take incremental batches and the daemon was constructed over it, then no pull
  -- of any table merges: the frame that is written is the one that the driver returned.
  pub init-full_refresh :
      (c : Config) (state : StateStore) (files : sink.Files) (d : Daemon sink.Files)
      → sink.supports_incremental ≡ false
      → init sink c state files ≡ ok d
      → (target : String) (tcfg : ResolvedTable)
      → find_table_config c c.tables target ≡ some (ok tcfg)
      → (now : sink.Files) (r : PullResult frames.Frame) (reset : Bool)
      → frame_to_write sql frames sink now target tcfg r reset ≡ r.dataframe
  unfolding init reject_incremental_on_nonappendable_sink frame_to_write
  init-full_refresh c state files d rigid built target tcfg found now r reset =
      let (_, accepted, _) = >>=-eq-ok (reject_incremental_on_nonappendable_sink sink c) _ built in
      let (ts, eo, er) =
        >>=-eq-ok (offenders c.defaults c.tables) _
          (rw (rigid, reject_incremental_on_nonappendable_sink) at accepted) in
      let full =
        found_full c c.tables target tcfg
          (eo ∙ ap (λ (x : List String). ok x) (refuse-ok sink.sink_name ts er)) found in
      rw (full, frame_to_write)
