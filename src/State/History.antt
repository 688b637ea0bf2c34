-- ===== src/State/History.antt =====
-- core/state.py: what `record_pull` keeps, and what the history then says.
use mathlib.Core.Path.{subst}
use mathlib.Core.Logic.{∥∥₁_elim}
use mathlib.Core.List.{Memᴰ}
use mathlib.Core.List.Perm
use native.Mathlib.Bridge.{le_prop}
use r64_db_engine.Base.{
  ℕ, ◌+◌, ◌≤◌, ◌<◌, String, ◌≡◌, refl, Bool, true, not, ◌&&◌, Option, List, [], ◌∷◌, arith, count,
  filter, take, All, contains, nat_eq, string_eq, length-take-le, All-append,
}
use r64_db_engine.Base.Members.{Memᴰ-of_take, All-filter, Memᴰ-filter, Memᴰ-of_filter}
use r64_db_engine.State.{
  StateStore, PullRow, OrderBy, ids, of_target, newest, prune, insert_pull, record_pull,
  history_retention_per_target,
}
use r64_db_engine.State.Rows.{
  HasDistinctIds, count-contains-le, count-filter_unless, length-ids, filter-HasDistinctIds,
  append-HasDistinctIds, eq_of_id, row_of_id, contains-ids, take-newest,
}

-- Ids are distinct and below the next one (`AUTOINCREMENT`).
pub record IsValid (s : StateStore) : Type 0 where
  pub fresh : All (λ r. r.id < s.next_id) s.pull_history
  pub distinct : HasDistinctIds s.pull_history

-- The row that `record_pull` inserts.
abbrev pub new_row :
    StateStore → String → ℕ → Option ℕ → String → Option ℕ → Option String → PullRow
new_row s target started_at finished_at status rows_pulled error_message = record {
  id = s.next_id;
  target = target;
  started_at = started_at;
  finished_at = finished_at;
  status = status;
  rows_pulled = rows_pulled;
  error_message = error_message;
}

All-suc : (n : ℕ) (rs : List PullRow) → All (λ r. r.id < n) rs → All (λ r. r.id < n + 1) rs
All-suc n [] h = tt
All-suc n (r ∷ rs) h = (omega arith, All-suc n rs h.1)

kept_own : (own listed : Bool) → not (own && not listed) ≡ true → own ≡ true → listed ≡ true
kept_own own listed h k = ground arith

pub keeps_listed : (own listed : Bool) → listed ≡ true → not (own && not listed) ≡ true
keeps_listed own listed h = ground arith

pub own_target : (r : PullRow) {target : String} → r.target ≡ target → of_target target r ≡ true
own_target r h = ground arith

module _ (sql : OrderBy) where
  prune-IsValid : (s : StateStore) (target : String) → IsValid s → IsValid (prune sql s target)
  unfolding prune
  prune-IsValid s target v = record {
    fresh = All-filter (λ r. r.id < s.next_id) _ s.pull_history v.fresh;
    distinct = filter-HasDistinctIds _ s.pull_history v.distinct;
  }

  module _ (s : StateStore) (target : String) (started_at : ℕ) (finished_at : Option ℕ)
      (status : String) (rows_pulled : Option ℕ) (error_message : Option String) where
    abbrev row : PullRow
    row = new_row s target started_at finished_at status rows_pulled error_message

    abbrev inserted : StateStore
    inserted = insert_pull s target started_at finished_at status rows_pulled error_message

    abbrev recorded : StateStore
    recorded = record_pull sql s target started_at finished_at status rows_pulled error_message

    insert_pull-IsValid : IsValid s → IsValid inserted
    unfolding insert_pull
    insert_pull-IsValid v = record {
      fresh =
          All-append (λ r. r.id < s.next_id + 1) s.pull_history (row ∷ [])
            (All-suc s.next_id s.pull_history v.fresh) (omega arith, tt);
      distinct = append-HasDistinctIds s.pull_history row v.fresh v.distinct;
    }

    -- Recording a pull keeps the ids of the history distinct and below the next id.
    record_pull-IsValid : IsValid s → IsValid recorded
    unfolding record_pull
    record_pull-IsValid v = prune-IsValid inserted target (insert_pull-IsValid v)

    -- After a pull is recorded, its target has at most 100 history rows.
    pub record_pull-retention :
        IsValid s → count (of_target target) recorded.pull_history ≤ history_retention_per_target
    unfolding record_pull prune newest
    record_pull-retention v =
        let top = take 100 (sql.desc (filter (of_target target) inserted.pull_history)) in
        omega (
          arith,
          count-filter_unless (of_target target) (λ r. contains (ids top) r.id)
              inserted.pull_history,
          count-contains-le (ids top) inserted.pull_history (insert_pull-IsValid v).distinct,
          length-ids top,
          length-take-le 100 (sql.desc (filter (of_target target) inserted.pull_history)),
        )

  -- If the deletion leaves one row of the target and removes another, the removed one is not newer.
  prune-newest :
      (s : StateStore) (target : String) {a b : PullRow}
      → IsValid s
      → Memᴰ a s.pull_history
      → Memᴰ b s.pull_history
      → a.target ≡ target
      → b.target ≡ target
      → Memᴰ a (prune sql s target).pull_history
      → ¬ Memᴰ b (prune sql s target).pull_history
      → b.started_at ≤ a.started_at
  unfolding prune newest
  prune-newest s target {a} {b} v ma mb ta tb kept gone =
      let own = filter (of_target target) s.pull_history in
      let top = take 100 (sql.desc own) in
      let keeps = λ (r : PullRow). not (of_target target r && not (contains (ids top) r.id)) in
      let a_kept = kept_own _ _ (Memᴰ-of_filter keeps s.pull_history kept).1 (own_target a ta) in
      let (a', ma', same) = row_of_id a.id top a_kept in
      ∥∥₁_elim ((Perm.mem_iff (sql.desc-perm own)).0 ∣ Memᴰ-of_take 100 (sql.desc own) ma' ∣₁)
        le_prop
        (λ (ma'' : Memᴰ a' own).
          let eq =
            eq_of_id s.pull_history v.distinct
              (Memᴰ-of_filter (of_target target) s.pull_history ma'').0 ma same in
          ∥∥₁_elim
            ((Perm.mem_iff (sql.desc-perm own)).1
              ∣ Memᴰ-filter (of_target target) s.pull_history mb (own_target b tb) ∣₁)
            le_prop
            (λ (mb' : Memᴰ b (sql.desc own)).
              subst (λ (r : PullRow). b.started_at ≤ r.started_at) eq
                (take-newest 100 (sql.desc own) (sql.desc-IsDescending own) ma' mb' (λ m.
                  gone (
                    Memᴰ-filter keeps s.pull_history mb (keeps_listed _ _ (contains-ids top m)))))))

  -- Recording a pull touches neither watermarks nor schemas.
  pub record_pull_frame :
      (s : StateStore) (target : String) (started_at : ℕ) (finished_at : Option ℕ) (status : String)
      (rows_pulled : Option ℕ) (error_message : Option String)
      → let t = record_pull sql s target started_at finished_at status rows_pulled error_message in
        (t.watermarks ≡ s.watermarks) × (t.schemas ≡ s.schemas)
  unfolding record_pull
  record_pull_frame s target started_at finished_at status rows_pulled error_message = (refl, refl)
