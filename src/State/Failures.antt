-- ===== src/State/Failures.antt =====
-- core/state.py: a pull that is newer than the others of its target stands first in the history,
-- and what `consecutive_failures` then counts.
use mathlib.Core.Logic.{∥∥₁_elim}
use mathlib.Core.List.{Memᴰ, Mem}
use mathlib.Core.List.Perm
use mathlib.Core.List.Memᴰ
use mathlib.Core.HLevel.{⊥_prop}
use native.Mathlib.Bridge.{le_prop}
use r64_db_engine.Base.{
  ℕ, suc, ◌+◌, ◌≤◌, ◌<◌, String, ◌≡◌, refl, ap, not, ◌&&◌, Option, List, [], ◌∷◌, ◌++◌, arith,
  length, filter, take, All, contains, nat_eq, string_eq, inl, inr, length-take-le, String-set,
}
use r64_db_engine.Base.Members.{All-Memᴰ, Memᴰ-filter, Memᴰ-of_filter}
use r64_db_engine.State.{
  StateStore, PullRow, IsDescending, OrderBy, ids, of_target, newest, prune, insert_pull,
  record_pull, recent_history, consecutive_failures, count_failures,
}
use r64_db_engine.State.History.{new_row, own_target, keeps_listed}
use r64_db_engine.State.Rows.{contains-ids}

PullRow-set : IsSet PullRow
PullRow-set = hlevel String-set

-- A row that no other row of a falling list reaches stands first.
newest_first :
    {r : PullRow} (rs : List PullRow)
    → IsDescending rs
    → Mem r rs
    → ((q : PullRow) → Mem q rs → r.started_at ≤ q.started_at → q ≡ r)
    → (rest : List PullRow) × (rs ≡ r ∷ rest)
newest_first [] d m h = absurd (∥∥₁_elim m ⊥_prop (λ k. elim k [ ]))
newest_first {r} (x ∷ xs) d m h =
    (xs, ap (λ y. y ∷ xs) (h x ∣ Memᴰ.head refl ∣₁ (∥∥₁_elim m le_prop at_most)))
  where
    at_most : Memᴰ r (x ∷ xs) → r.started_at ≤ x.started_at
    at_most (Memᴰ.head e) = rw e (omega arith)
    at_most (Memᴰ.tail k) = All-Memᴰ (λ q. q.started_at ≤ x.started_at) xs d.0 k

count_failures_bounds :
    (rs : List PullRow) (n : ℕ) → (n ≤ count_failures rs n) × (count_failures rs n ≤ n + length rs)
unfolding count_failures
count_failures_bounds [] n = omega arith
count_failures_bounds (r ∷ rs) n =
    ground (arith, count_failures_bounds rs (n + 1), count_failures_bounds rs n)

count_failures_head :
    (r : PullRow) (rest : List PullRow)
    → let n = count_failures (r ∷ take 19 rest) 0 in
      (r.status ≡ "success" → n ≡ 0) × (r.status ≡ "error" → (1 ≤ n) × (n ≤ 20))
unfolding count_failures
count_failures_head r rest = (
  λ s. rw s (unfold string_eq in refl),
  λ s. rw s (
      unfold string_eq in
      let more = count_failures_bounds (take 19 rest) 1 in
      let short = length-take-le 19 rest in (omega arith, omega arith)),
)

module _ (sql : OrderBy) where
  module _ (s : StateStore) (target : String) (started_at : ℕ) (finished_at : Option ℕ)
      (status : String) (rows_pulled : Option ℕ) (error_message : Option String)
      (later : All (λ q. q.target ≡ target → q.started_at < started_at) s.pull_history) where
    abbrev row : PullRow
    row = new_row s target started_at finished_at status rows_pulled error_message

    abbrev recorded : StateStore
    recorded = record_pull sql s target started_at finished_at status rows_pulled error_message

    abbrev rows : List PullRow
    rows = s.pull_history ++ row ∷ []

    only_row : (q : PullRow) → Memᴰ q rows → q.target ≡ target → started_at ≤ q.started_at → q ≡ row
    only_row q m t le = elim (Memᴰ.append_cases s.pull_history m) [
      | inl old ↦ absurd (
          omega (
            arith,
            All-Memᴰ (λ p. p.target ≡ target → p.started_at < started_at) s.pull_history later old
                t,
          ))
      | inr new ↦ Memᴰ.eq_of_singleton new
    ]

    -- The rows of the target, of any part of the table that holds the new row, begin with it.
    first_of_own :
        (part : List PullRow)
        → Memᴰ row part
        → ((q : PullRow) → Memᴰ q part → Memᴰ q rows)
        → (rest : List PullRow) × (sql.desc (filter (of_target target) part) ≡ row ∷ rest)
    first_of_own part m sub =
        newest_first (sql.desc (filter (of_target target) part)) (sql.desc-IsDescending _)
          ((Perm.mem_iff (sql.desc-perm _)).1
            ∣ Memᴰ-filter (of_target target) part m (own_target row refl) ∣₁)
          (λ q mq le. ∥∥₁_elim ((Perm.mem_iff (sql.desc-perm _)).0 mq) (PullRow-set q row) (λ own.
            let (k, t) = Memᴰ-of_filter (of_target target) part own in
            only_row q (sub q k) (ground arith) le))

    pruned :
        (part : List PullRow) × (recorded.pull_history ≡ part)
        × Memᴰ row part
        × ((q : PullRow) → Memᴰ q part → Memᴰ q rows)
    unfolding record_pull prune insert_pull newest
    pruned =
        let (rest, first) =
          first_of_own rows (Memᴰ.append_right s.pull_history (Memᴰ.head refl)) (λ q m. m) in
        let top = take 100 (sql.desc (filter (of_target target) rows)) in
        let keeps = λ (r : PullRow). not (of_target target r && not (contains (ids top) r.id)) in
        let in_top : Memᴰ row top = rw first (Memᴰ.head refl) in
        (
          filter keeps rows,
          refl,
          Memᴰ-filter keeps rows (Memᴰ.append_right s.pull_history (Memᴰ.head refl))
              (keeps_listed _ _ (contains-ids top in_top)),
          λ q m. (Memᴰ-of_filter keeps rows m).0,
        )

    -- A recorded pull that started after all others of its target leads `recent_history`.
    recent_history-record_pull :
        (limit : ℕ)
        → (rest : List PullRow) × (recent_history sql recorded target (suc limit)
            ≡ row ∷ take limit rest)
    unfolding recent_history
    recent_history-record_pull limit =
        let (part, e, m, sub) = pruned in
        let (rest, first) = first_of_own part m sub in (rest, rw (e, first))

    counted :
        (rest : List PullRow)
        → recent_history sql recorded target 20 ≡ row ∷ take 19 rest
        → consecutive_failures sql recorded target ≡ count_failures (row ∷ take 19 rest) 0
    unfolding consecutive_failures recent_history
    counted rest e = ap (λ l. count_failures l 0) e

    -- After such a pull the failure count is 0 if the pull succeeded, and from 1 to 20 if it failed.
    pub consecutive_failures-record_pull :
        (status ≡ "success" → consecutive_failures sql recorded target ≡ 0)
        × (status ≡ "error"
            → (1 ≤ consecutive_failures sql recorded target)
              × (consecutive_failures sql recorded target ≤ 20))
    consecutive_failures-record_pull =
        let (rest, e) = recent_history-record_pull 19 in
        rw (counted rest e) (count_failures_head row rest)
