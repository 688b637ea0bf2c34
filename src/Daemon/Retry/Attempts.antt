-- ===== src/Daemon/Retry/Attempts.antt =====
-- core/daemon.py: which attempt of `_run_with_retries` decides, and what was slept before it.
use r64_db_engine.Base.{
  ℕ, zero, suc, ◌+◌, ◌<◌, ◌≤◌, ◌≡◌, Bool, true, false, not, ◌&&◌, List, [], ◌∷◌, ◌++◌, take, drop,
  arith, length, append-nil, append_assoc, sym, ◌∙◌, ap,
}
use r64_db_engine.Base.Results.{Result, ok, err}
use r64_db_engine.Daemon.{DriverError, PullResult}
use r64_db_engine.Daemon.Errors.{is_permanent, is_disconnection}
use r64_db_engine.Daemon.Retry.{
  Raised, permanent, failed, Retried, attempt_from, run_with_retries, retry_delays,
}

module _ {Frame : Type 0} (pull : ℕ → Result DriverError (PullResult Frame)) where
  -- The attempt failed, and may be repeated.
  abbrev pub IsTransient : ℕ → Type 0
  IsTransient k = (e : DriverError) × (pull k ≡ err e) × (is_permanent e ≡ false)

  -- The result `x` came out of a run that slept exactly `slept`.
  abbrev pub Ends : Retried Frame → Result Raised (PullResult Frame) → List ℕ → Type 0
  Ends t x slept = (t.outcome ≡ x) × (t.slept ≡ slept)

  attempt_ok :
      (delays : List ℕ) (a : ℕ) (c : Bool) (slept : List ℕ) (r : PullResult Frame)
      → pull a ≡ ok r
      → attempt_from pull delays a c slept ≡ record { outcome = ok r; connected = c; slept = slept }
  unfolding attempt_from
  attempt_ok [] a c slept r h = rw (h, attempt_from)
  attempt_ok (d ∷ delays) a c slept r h = rw (h, attempt_from)

  attempt_permanent :
      (delays : List ℕ) (a : ℕ) (c : Bool) (slept : List ℕ) (e : DriverError)
      → pull a ≡ err e
      → is_permanent e ≡ true
      → attempt_from pull delays a c slept
        ≡ record { outcome = err (permanent e.message); connected = c; slept = slept }
  unfolding attempt_from
  attempt_permanent [] a c slept e h p = rw (h, attempt_from) (rw p)
  attempt_permanent (d ∷ delays) a c slept e h p = rw (h, attempt_from) (rw p)

  attempt_again :
      (d : ℕ) (delays : List ℕ) (a : ℕ) (c : Bool) (slept : List ℕ) (e : DriverError)
      → pull a ≡ err e
      → is_permanent e ≡ false
      → attempt_from pull (d ∷ delays) a c slept
        ≡ attempt_from pull delays (a + 1) (c && not (is_disconnection e)) (slept ++ d ∷ [])
  unfolding attempt_from
  attempt_again d delays a c slept e h p = rw (h, attempt_from) (rw p)

  attempt_last :
      (a : ℕ) (c : Bool) (slept : List ℕ) (e : DriverError)
      → pull a ≡ err e
      → is_permanent e ≡ false
      → attempt_from pull [] a c slept ≡ record {
        outcome = err (failed e);
        connected = c && not (is_disconnection e);
        slept = slept;
      }
  unfolding attempt_from
  attempt_last a c slept e h p = rw (h, attempt_from) (rw p)

  -- After `k` attempts that may be repeated the loop stands at attempt `a + k`.
  attempt_skip :
      (delays : List ℕ) (k a j : ℕ) (c : Bool) (slept : List ℕ)
      → k ≤ length delays
      → j ≡ a + k
      → ((i : ℕ) → i < k → IsTransient (a + i))
      → (c' : Bool) × (attempt_from pull delays a c slept
          ≡ attempt_from pull (drop k delays) j c' (slept ++ take k delays))
  attempt_skip delays zero a j c slept le q t =
      (c, rw append-nil (ap (λ (x : ℕ). attempt_from pull delays x c slept) (omega arith)))
  attempt_skip [] (suc k) a j c slept le q t = absurd (omega arith)
  attempt_skip (d ∷ delays) (suc k) a j c slept le q t =
      let (e, h, p) = t 0 (omega arith) in
      let h' : pull a ≡ err e = ap pull (omega arith) ∙ h in
      let (c', rest) =
        attempt_skip delays k (a + 1) j (c && not (is_disconnection e)) (slept ++ d ∷ [])
          (omega arith) (omega arith)
          (λ i lt.
            let same : a + suc i ≡ a + 1 + i = omega arith in
            rw (sym same) (t (suc i) (omega arith))) in
      (
        c',
        attempt_again d delays a c slept e h' p
            ∙ rest
            ∙ ap (λ (x : List ℕ). attempt_from pull (drop k delays) j c' x)
                (append_assoc slept (d ∷ []) (take k delays)),
      )

  -- If the first `k` of the four attempts fail without being permanent, then the run sleeps the
  -- first `k` of the pauses 1, 4, 16 and: if attempt `k` succeeds, returns its result; if it fails
  -- permanently, raises that at once; if it is the last and fails otherwise, raises its exception.
  pub run_with_retries-decided :
      (c : Bool) (k : ℕ)
      → k ≤ 3
      → ((i : ℕ) → i < k → IsTransient i)
      → ((r : PullResult Frame)
          → pull k ≡ ok r
          → Ends (run_with_retries pull c) (ok r) (take k retry_delays))
        × ((e : DriverError)
            → pull k ≡ err e
            → is_permanent e ≡ true
            → Ends (run_with_retries pull c) (err (permanent e.message)) (take k retry_delays))
        × ((e : DriverError)
            → k ≡ 3
            → pull k ≡ err e
            → is_permanent e ≡ false
            → Ends (run_with_retries pull c) (err (failed e)) retry_delays)
  unfolding run_with_retries
  run_with_retries-decided c k le t =
      let (c', skip) =
        attempt_skip retry_delays k 0 k c [] le (omega arith)
          (λ i lt. let same : 0 + i ≡ i = omega arith in rw same (t i lt)) in
      (
        λ r h.
            let e = skip ∙ attempt_ok (drop k retry_delays) k c' (take k retry_delays) r h in
            (ap (λ (x : Retried Frame). x.outcome) e, ap (λ (x : Retried Frame). x.slept) e),
        λ x h p.
            let e =
              skip ∙ attempt_permanent (drop k retry_delays) k c' (take k retry_delays) x h p in
            (ap (λ (x : Retried Frame). x.outcome) e, ap (λ (x : Retried Frame). x.slept) e),
        λ x last h p.
            let e =
              skip
              ∙ ap (λ (m : ℕ). attempt_from pull (drop m retry_delays) k c' (take m retry_delays))
                  last
              ∙ attempt_last k c' retry_delays x h p in
            (ap (λ (x : Retried Frame). x.outcome) e, ap (λ (x : Retried Frame). x.slept) e),
      )
