-- ===== src/Drivers/Postgres/Ascending.antt =====
-- drivers/postgres/driver.py: rows in the order of an integer cursor and an integer tie-breaker.
use r64_db_engine.Base.{
  ℕ, zero, suc, ◌≡◌, refl, ap, Bool, true, false, not, ◌&&◌, ◌||◌, List, [], ◌∷◌, ◌++◌, filter,
  take, All, All-take, Bool-cases, inl, inr,
}
use r64_db_engine.Base.Decimal.{ℤ}
use r64_db_engine.Drivers.Order.{Value, int, lt_int, lt_int_irrefl, lt_int_asym, eq_of_not_lt_int}
use r64_db_engine.Drivers.Postgres.NewWatermark.{bigger, last_sorted}

abbrev pub lt_cursor : ℤ → ℤ → ℤ → ℤ → Bool
lt_cursor a b c d = lt_int a c || (not (lt_int c a) && lt_int b d)

lt_cursor_irrefl : (a b : ℤ) → lt_cursor a b a b ≡ false
lt_cursor_irrefl a b = rw (lt_int_irrefl a, lt_int_irrefl b)

lt_cursor_asym : (a b c d : ℤ) → lt_cursor a b c d ≡ true → lt_cursor c d a b ≡ false
lt_cursor_asym a b c d h = elim (Bool-cases (lt_int a c)) [
  | inl e ↦ rw (lt_int_asym a c e, e)
  | inr e ↦ elim (Bool-cases (lt_int c a)) [
    | inl f ↦ let bad = rw (e, f) at h in cc
    | inr f ↦ rw (e, f) (lt_int_asym b d (rw (e, f) at h))
  ]
]

key_of_le : (a b c d : ℤ) → lt_cursor a b c d ≡ true → lt_int a c ≡ false → a ≡ c
key_of_le a b c d h e = elim (Bool-cases (lt_int c a)) [
  | inl f ↦ let bad = rw (e, f) at h in cc
  | inr f ↦ eq_of_not_lt_int a c e f
]

abbrev pub last {ℓ} : {A : Type ℓ} → A → List A → A
last r [] = r
last r (s ∷ rows) = last s rows

module _ {Row : Type 0} (k t : Row → ℤ) where
  abbrev pub before : Row → Row → Bool
  before r s = lt_cursor (k r) (t r) (k s) (t s)

  abbrev pub IsAscending : List Row → Type 0
  IsAscending [] = Unit
  IsAscending (r ∷ rows) = All (λ s. before r s ≡ true) rows × IsAscending rows

  abbrev pub cursor_cells : Row → Value × Value
  cursor_cells r = (int (k r), int (t r))

  filter-All :
      (r : Row) (rows : List Row)
      → All (λ s. before r s ≡ true) rows
      → filter (before r) rows ≡ rows
  filter-All r [] h = refl
  filter-All r (s ∷ rows) h = rw h.0 (ap (λ xs. s ∷ xs) (filter-All r rows h.1))

  -- The rows behind one of an ascending list are those greater than it.
  pub filter-before :
      (done : List Row) (r : Row) (rest : List Row)
      → IsAscending (done ++ r ∷ rest)
      → filter (before r) (done ++ r ∷ rest) ≡ rest
  filter-before [] r rest h = rw (lt_cursor_irrefl (k r) (t r)) (filter-All r rest h.0)
  filter-before (x ∷ done) r rest h =
      rw (lt_cursor_asym (k x) (t x) (k r) (t r) (behind done h.0)) (filter-before done r rest h.1)
    where
      behind : (xs : List Row) → All (λ s. before x s ≡ true) (xs ++ r ∷ rest) → before x r ≡ true
      behind [] a = a.0
      behind (y ∷ xs) a = behind xs a.1

  All-last {κ} : (P : Row → Type κ) (r : Row) (rows : List Row) → All P (r ∷ rows) → P (last r rows)
  All-last P r [] h = h.0
  All-last P r (s ∷ rows) h = All-last P s rows h.1

  pub last_sorted_ascending :
      (r : Row) (rows : List Row)
      → IsAscending (r ∷ rows)
      → last_sorted cursor_cells r rows ≡ last r rows
  last_sorted_ascending r [] h = refl
  last_sorted_ascending r (s ∷ rows) h =
      rw (lt_cursor_asym (k r) (t r) (k s) (t s) h.0.0) (last_sorted_ascending s rows h.1)

  -- The greater of a cell and the greatest of the rows behind it.
  pub bigger_ascending :
      (r s : Row) (rows : List Row)
      → IsAscending (r ∷ s ∷ rows)
      → bigger (int (k r)) (int (k (last s rows))) ≡ int (k (last s rows))
  bigger_ascending r s rows h =
      let l = last s rows in
      let below = All-last (λ x. before r x ≡ true) s rows h.0 in
      elim (Bool-cases (lt_int (k r) (k l))) [
        | inl e ↦ rw e
        | inr e ↦ rw e (ap int (key_of_le (k r) (t r) (k l) (t l) below e))
      ]

  pub take-IsAscending : (n : ℕ) (rows : List Row) → IsAscending rows → IsAscending (take n rows)
  take-IsAscending zero rows h = tt
  take-IsAscending (suc n) [] h = tt
  take-IsAscending (suc n) (r ∷ rows) h =
      (All-take (λ s. before r s ≡ true) n rows h.0, take-IsAscending n rows h.1)

  pub append-IsAscending : (done rest : List Row) → IsAscending (done ++ rest) → IsAscending rest
  append-IsAscending [] rest h = h
  append-IsAscending (x ∷ done) rest h = append-IsAscending done rest h.1
