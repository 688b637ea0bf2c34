-- ===== src/Tests/States.antt =====
-- core/state.py and core/coercion.py at concrete inputs.
use mathlib.Core.List.{Memᴰ}
use r64_db_engine.Base.{
  ℕ, zero, suc, String, ◌≡◌, ◌≢◌, refl, none, some, Option, Bool, true, false, not, ◌&&◌, contains,
  [], ◌∷◌, arith, count, ◌+◌, ◌≤◌, ◌<◌, string_eq, nat_eq, if◌then◌else◌, ◌==◌, List, take, ◌↔◌,
  All,
}
use r64_db_engine.Base.Results.{ok}
use r64_db_engine.Base.Dict
use r64_db_engine.Base.Decimal.{negsuc, ℤ}
use r64_db_engine.Base.Members.{Memᴰ-of_filter}
use r64_db_engine.State.{
  StateStore, PullRow, Column, number, text, empty_store, get_watermark, set_watermark, record_pull,
  prune, consecutive_failures, of_target, newest, ids, history_retention_per_target,
}
use r64_db_engine.State.Watermarks.{get-set_watermark, IsStorable}
use r64_db_engine.State.History.{IsValid, record_pull-retention}
use r64_db_engine.State.Failures.{consecutive_failures-record_pull}
use r64_db_engine.Coercion.{compare_schemas, has_drift, column_map}
use r64_db_engine.Coercion.Drift.{types_of, compare_schemas-no_drift}
use r64_db_engine.State.Rows.{HasDistinctIds}
use mathlib.Core.Bool.{false≢true}
use r64_db_engine.Tests.Values.{insertion_order}

get-set_watermark_example :
    get_watermark (set_watermark empty_store "Orders" (number (negsuc 41)) "int" 3 120 7) "Orders"
    ≡ (if ◌==◌ {A = String} "Orders" "Orders"
        then ok (some (number (negsuc 41), "int"))
        else get_watermark empty_store "Orders")
get-set_watermark_example =
    get-set_watermark empty_store "Orders" "Orders" (number (negsuc 41)) "int" 3 120 7
      (IsStorable.integer (negsuc 41))

-- An integer watermark that was stored under another type comes back as a text.
number_as_timestamp :
    get_watermark
      (set_watermark empty_store "Orders" (number (negsuc 41)) "timestamp" 3 120 7)
      "Orders"
    ≡ ok (some (text "-42", "timestamp"))
unfolding get_watermark set_watermark Dict.insert Dict.lookup string_eq nat_eq
    r64_db_engine.Base.Decimal.str
number_as_timestamp = refl

abbrev history_row : ℕ → ℕ → String → PullRow
history_row id started_at status = record {
  id = id;
  target = "Orders";
  started_at = started_at;
  finished_at = some (started_at + 1);
  status = status;
  rows_pulled = none;
  error_message = none;
}

abbrev two_errors : StateStore
two_errors = record empty_store {
  pull_history = history_row 1 10 "error" ∷ history_row 2 20 "error" ∷ [];
  next_id = 3;
}

two_errors-IsValid : IsValid two_errors
two_errors-IsValid = record { fresh = omega arith; distinct = omega arith }

record_pull-retention_example :
    count
      (of_target "Orders")
      (record_pull insertion_order two_errors "Orders" 30
        (some 31)
        "error"
        none
        (some "boom")).pull_history
    ≤ history_retention_per_target
record_pull-retention_example =
    record_pull-retention insertion_order two_errors "Orders" 30 (some 31) "error" none
      (some "boom") two_errors-IsValid

consecutive_failures-record_pull_example :
    let s =
      record_pull insertion_order two_errors "Orders" 30 (some 31) "error" none (some "boom") in
    (◌≡◌ {A = String} "error" "success" → consecutive_failures insertion_order s "Orders" ≡ 0)
    × (◌≡◌ {A = String} "error" "error"
        → (1 ≤ consecutive_failures insertion_order s "Orders")
          × (consecutive_failures insertion_order s "Orders" ≤ 20))
consecutive_failures-record_pull_example =
    consecutive_failures-record_pull insertion_order two_errors "Orders" 30 (some 31) "error" none
      (some "boom") ((λ _. omega arith), ((λ _. omega arith), tt))

-- The failures of three failed pulls, and of a success behind them.
three_errors :
    consecutive_failures insertion_order
      (record_pull insertion_order two_errors "Orders" 30 (some 31) "error" none (some "boom"))
      "Orders"
    ≡ 3
unfolding record_pull consecutive_failures insertion_order string_eq nat_eq
three_errors = refl

-- `n` rows of one target with ids and times `n` down to 1.
abbrev rows_down : ℕ → List PullRow
rows_down zero = []
rows_down (suc n) = history_row (suc n) (suc n) "success" ∷ rows_down n

abbrev full_history : StateStore
full_history = record empty_store { pull_history = rows_down 101; next_id = 102 }

rows_down-fresh : (n m : ℕ) → n < m → All (λ r. r.id < m) (rows_down n)
rows_down-fresh zero m h = tt
rows_down-fresh (suc n) m h = (omega arith, rows_down-fresh n m (omega arith))

rows_down-absent : (n k : ℕ) → n < k → All (λ r. r.id ≢ k) (rows_down n)
rows_down-absent zero k h = tt
rows_down-absent (suc n) k h = (omega arith, rows_down-absent n k (omega arith))

rows_down-distinct : (n : ℕ) → HasDistinctIds (rows_down n)
rows_down-distinct zero = tt
rows_down-distinct (suc n) = (rows_down-absent n (suc n) (omega arith), rows_down-distinct n)

full_history-IsValid : IsValid full_history
full_history-IsValid = record {
  fresh = rows_down-fresh 101 102 (omega arith);
  distinct = rows_down-distinct 101;
}

oldest_of : (n : ℕ) → Memᴰ (history_row 1 1 "success") (rows_down (suc n))
oldest_of zero = Memᴰ.head refl
oldest_of (suc n) = Memᴰ.tail (oldest_of n)

newest_kept :
    Memᴰ (history_row 101 101 "success") (prune insertion_order full_history "Orders").pull_history
unfolding prune insertion_order string_eq nat_eq
newest_kept = Memᴰ.head refl

oldest_gone :
    ¬ Memᴰ (history_row 1 1 "success") (prune insertion_order full_history "Orders").pull_history
unfolding prune insertion_order string_eq nat_eq
oldest_gone m =
    false≢true
      (Memᴰ-of_filter
        (λ r. not (
          of_target "Orders" r
          && not (contains (ids (newest insertion_order full_history "Orders" 100)) r.id)))
        (rows_down 101) m).1

compare_schemas-no_drift_example :
    let columns : List Column =
      record { name = "id"; source_type = ""; pandas_dtype = "Int64" } ∷ [] in
    (has_drift (compare_schemas (some columns) columns) ≡ false) ↔ (
      (n : String)
      → types_of (Dict.lookup n (column_map columns))
        ≡ types_of (Dict.lookup n (column_map columns)))
compare_schemas-no_drift_example =
    let columns : List Column =
      record { name = "id"; source_type = ""; pandas_dtype = "Int64" } ∷ [] in
    compare_schemas-no_drift columns columns
