-- ===== src/Daemon/Connect/Backoff.antt =====
-- core/daemon.py: `_connect_loop` ends as soon as a round decides, and how long it pauses.
use mathlib.Core.Path.{ap₂}
use native.Mathlib.Nat.{pow-suc}
use native.Mathlib.Numerals.{towards_suc}
use r64_db_engine.Base.{
  ℕ, zero, suc, ◌+◌, ◌*◌, ◌^◌, ◌<◌, ◌≡◌, sym, ap, ◌∙◌, min, Bool, true, false, List, [], ◌∷◌, ◌++◌,
  arith, append_assoc, append-nil,
}
use r64_db_engine.Base.Results.{Result, ok, err}
use r64_db_engine.Daemon.{DriverError}
use r64_db_engine.Daemon.Errors.{is_permanent}
use r64_db_engine.Daemon.Connect.{raised, connected, connect_from, connect_loop, reconnect_max}

-- The pauses of the rounds from `i` on: 5 seconds doubled in each round, at most 60.
abbrev pub pauses : ℕ → ℕ → List ℕ
pauses i zero = []
pauses i (suc k) = min (5 * 2 ^ i) reconnect_max ∷ pauses (i + 1) k

next_pause : (i : ℕ) → min (min (5 * 2 ^ i) 60 * 2) 60 ≡ min (5 * 2 ^ (i + 1)) 60
next_pause i =
    let p : 2 ^ (i + 1) ≡ 2 * 2 ^ i = simp towards_suc (rw (pow-suc 2 i) (omega arith)) in
    omega arith

module _ (answers : ℕ → Result DriverError (Unit {0})) (shutdown : ℕ → Bool) where
  -- The round failed, not permanently, and no shutdown was asked for.
  abbrev pub IsRetried : ℕ → Type 0
  IsRetried k =
      (e : DriverError) × (answers k ≡ err e) × (is_permanent e ≡ false) × (shutdown k ≡ false)

  step_again :
      (fuel i delay : ℕ) (slept : List ℕ)
      → IsRetried i
      → connect_from answers shutdown (suc fuel) i delay slept
        ≡ connect_from answers shutdown fuel
            (i + 1)
            (min (delay * 2) reconnect_max)
            (slept ++ delay ∷ [])
  unfolding connect_from
  step_again fuel i delay slept (e, h, p, s) = rw (h, connect_from) (rw p (rw s))

  -- `k` rounds that are repeated, from round `i`.
  skip_rounds :
      (k i j fuel : ℕ) (slept : List ℕ)
      → j ≡ i + k
      → ((m : ℕ) → m < k → IsRetried (i + m))
      → connect_from answers shutdown (k + fuel) i (min (5 * 2 ^ i) reconnect_max) slept
        ≡ connect_from answers shutdown fuel j (min (5 * 2 ^ j) reconnect_max) (slept ++ pauses i k)
  skip_rounds zero i j fuel slept q h =
      ap₂ (λ f r. connect_from answers shutdown f r (min (5 * 2 ^ r) reconnect_max) slept)
        (omega arith) (omega arith)
      ∙ ap (connect_from answers shutdown fuel j (min (5 * 2 ^ j) reconnect_max))
          (sym (append-nil slept))
  skip_rounds (suc k) i j fuel slept q h =
      let here : i + 0 ≡ i = omega arith in
      let more : suc k + fuel ≡ suc (k + fuel) = omega arith in
      rw more (
        step_again (k + fuel) i (min (5 * 2 ^ i) reconnect_max) slept
          (rw here at (h 0 (omega arith)))
        ∙ (ap
              (λ (d : ℕ).
                connect_from answers shutdown (k + fuel) (i + 1) d
                  (slept ++ min (5 * 2 ^ i) reconnect_max ∷ []))
              (next_pause i)
            ∙ (skip_rounds k (i + 1) j fuel (slept ++ min (5 * 2 ^ i) reconnect_max ∷ [])
                  (omega arith)
                  (λ m lt.
                    let same : i + suc m ≡ i + 1 + m = omega arith in
                    rw (sym same) (h (suc m) (omega arith)))
                ∙ ap (connect_from answers shutdown fuel j (min (5 * 2 ^ j) reconnect_max))
                    (append_assoc slept (min (5 * 2 ^ i) reconnect_max ∷ []) (pauses (i + 1) k)))))

  decide_ok :
      (fuel j delay : ℕ) (slept : List ℕ)
      → answers j ≡ ok tt
      → connect_from answers shutdown (suc fuel) j delay slept ≡ connected slept
  unfolding connect_from
  decide_ok fuel j delay slept h = rw (h, connect_from)

  decide_permanent :
      (fuel j delay : ℕ) (slept : List ℕ) (e : DriverError)
      → answers j ≡ err e
      → is_permanent e ≡ true
      → connect_from answers shutdown (suc fuel) j delay slept ≡ raised e
  unfolding connect_from
  decide_permanent fuel j delay slept e h p = rw (h, connect_from) (rw p)

  -- If the first `k` rounds are repeated and the next one succeeds, then with more than `k` rounds
  -- of fuel the loop ends connected, after pauses of 5, 10, 20, 40 and then always 60 seconds; if
  -- the next one fails permanently its exception is raised.
  pub connect_loop-decided :
      (k fuel : ℕ)
      → ((m : ℕ) → m < k → IsRetried m)
      → (answers k ≡ ok tt → connect_loop answers shutdown (k + suc fuel) ≡ connected (pauses 0 k))
        × ((e : DriverError)
            → answers k ≡ err e
            → is_permanent e ≡ true
            → connect_loop answers shutdown (k + suc fuel) ≡ raised e)
  unfolding connect_loop
  connect_loop-decided k fuel h =
      let skip =
        skip_rounds k 0 k (suc fuel) [] (omega arith)
          (λ m lt. let same : 0 + m ≡ m = omega arith in rw same (h m lt)) in
      (
        λ q. skip ∙ decide_ok fuel k (min (5 * 2 ^ k) reconnect_max) (pauses 0 k) q,
        λ e q p. skip ∙ decide_permanent fuel k (min (5 * 2 ^ k) reconnect_max) (pauses 0 k) e q p,
      )
