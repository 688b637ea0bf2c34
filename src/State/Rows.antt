-- ===== src/State/Rows.antt =====
-- Lists of history rows: rows with distinct ids, and rows by falling `started_at`.
use mathlib.Core.Path.{subst}
use mathlib.Core.List.{Memᴰ}
use r64_db_engine.Base.{
  ℕ, zero, suc, ◌+◌, ◌≤◌, ◌<◌, ◌≡◌, ◌≢◌, refl, sym, ap, ◌∙◌, Bool, true, false, not, ◌&&◌, ◌||◌,
  List, [], ◌∷◌, ◌++◌, arith, length, count, filter, take, All, contains, ◌==◌, nat_eq, string_eq,
  inl, inr, Bool-cases,
}
use r64_db_engine.Base.Members.{All-Memᴰ, All-filter}
use r64_db_engine.State.{PullRow, IsDescending, ids}

-- No two rows have one id.
abbrev pub HasDistinctIds : List PullRow → Type 0
HasDistinctIds [] = Unit
HasDistinctIds (r ∷ rs) = All (λ q. q.id ≢ r.id) rs × HasDistinctIds rs

count-absent : (k : ℕ) (rs : List PullRow) → All (λ q. q.id ≢ k) rs → count (λ r. r.id == k) rs ≡ 0
count-absent k [] h = refl
count-absent k (r ∷ rs) h = ground (arith, count-absent k rs h.1)

count-id : (k : ℕ) (rs : List PullRow) → HasDistinctIds rs → count (λ r. r.id == k) rs ≤ 1
count-id k [] h = omega arith
count-id k (r ∷ rs) h = elim (Bool-cases (r.id == k)) [
  | inl e ↦ rw e (
      let same : r.id ≡ k = ground arith in
      let none_left = count-absent k rs (subst (λ j. All (λ q. q.id ≢ j) rs) same h.0) in
      omega arith)
  | inr e ↦ rw e (omega (arith, count-id k rs h.1))
]

count-or :
    (p q : PullRow → Bool) (rs : List PullRow)
    → count (λ r. p r || q r) rs ≤ count p rs + count q rs
count-or p q [] = omega arith
count-or p q (r ∷ rs) = ground (arith, count-or p q rs)

count-none : (rs : List PullRow) → count (λ r. false) rs ≡ 0
count-none [] = refl
count-none (r ∷ rs) = omega (arith, count-none rs)

-- A list of ids picks at most as many rows as it is long.
pub count-contains-le :
    (ks : List ℕ) (rs : List PullRow)
    → HasDistinctIds rs
    → count (λ r. contains ks r.id) rs ≤ length ks
count-contains-le [] rs h = rw count-none (omega arith)
count-contains-le (k ∷ ks) rs h = omega (
  arith,
  count-or (λ r. r.id == k) (λ r. contains ks r.id) rs,
  count-id k rs h,
  count-contains-le ks rs h,
)

-- What a deletion leaves of the rows that it looks at are those it keeps.
pub count-filter_unless :
    (p c : PullRow → Bool) (rs : List PullRow)
    → count p (filter (λ r. not (p r && not (c r))) rs) ≤ count c rs
count-filter_unless p c [] = omega arith
count-filter_unless p c (r ∷ rs) = ground (arith, count-filter_unless p c rs)

pub length-ids : (rs : List PullRow) → length (ids rs) ≡ length rs
length-ids [] = refl
length-ids (r ∷ rs) = ap suc (length-ids rs)

pub filter-HasDistinctIds :
    (p : PullRow → Bool) (rs : List PullRow) → HasDistinctIds rs → HasDistinctIds (filter p rs)
filter-HasDistinctIds p [] h = tt
filter-HasDistinctIds p (r ∷ rs) h = elim (Bool-cases (p r)) [
  | inl e ↦ rw e (All-filter (λ q. q.id ≢ r.id) p rs h.0, filter-HasDistinctIds p rs h.1)
  | inr e ↦ rw e (filter-HasDistinctIds p rs h.1)
]

-- A new row with a fresh id may be put at the end.
pub append-HasDistinctIds :
    (rs : List PullRow) (r : PullRow)
    → All (λ q. q.id < r.id) rs
    → HasDistinctIds rs
    → HasDistinctIds (rs ++ r ∷ [])
append-HasDistinctIds [] r below h = (tt, tt)
append-HasDistinctIds (q ∷ rs) r below h =
    (append-ne rs h.0, append-HasDistinctIds rs r below.1 h.1)
  where
    append-ne :
        (qs : List PullRow) → All (λ p. p.id ≢ q.id) qs → All (λ p. p.id ≢ q.id) (qs ++ r ∷ [])
    append-ne [] n = (omega arith, tt)
    append-ne (p ∷ qs) n = (n.0, append-ne qs n.1)

-- Two rows of the list with one id are one row.
pub eq_of_id :
    {a b : PullRow} (rs : List PullRow)
    → HasDistinctIds rs
    → Memᴰ a rs
    → Memᴰ b rs
    → a.id ≡ b.id
    → a ≡ b
eq_of_id [] h m n e = elim m [ ]
eq_of_id (r ∷ rs) h (Memᴰ.head p) (Memᴰ.head q) e = p ∙ sym q
eq_of_id (r ∷ rs) h (Memᴰ.head p) (Memᴰ.tail n) e =
    absurd (All-Memᴰ (λ x. x.id ≢ r.id) rs h.0 n (sym e ∙ ap (λ (x : PullRow). x.id) p))
eq_of_id (r ∷ rs) h (Memᴰ.tail m) (Memᴰ.head q) e =
    absurd (All-Memᴰ (λ x. x.id ≢ r.id) rs h.0 m (e ∙ ap (λ (x : PullRow). x.id) q))
eq_of_id (r ∷ rs) h (Memᴰ.tail m) (Memᴰ.tail n) e = eq_of_id rs h.1 m n e

-- An id of the list belongs to a row of it.
pub row_of_id :
    (k : ℕ) (rs : List PullRow)
    → contains (ids rs) k ≡ true
    → (r : PullRow) × Memᴰ r rs × (r.id ≡ k)
row_of_id k [] h = cc
row_of_id k (r ∷ rs) h = elim (Bool-cases (k == r.id)) [
  | inl e ↦ (r, Memᴰ.head refl, ground arith)
  | inr e ↦ let (q, m, p) = row_of_id k rs (ground arith) in (q, Memᴰ.tail m, p)
]

pub contains-ids : {r : PullRow} (rs : List PullRow) → Memᴰ r rs → contains (ids rs) r.id ≡ true
contains-ids [] m = elim m [ ]
contains-ids {r} (q ∷ rs) (Memᴰ.head e) =
    let same : r.id ≡ q.id = ap (λ (x : PullRow). x.id) e in ground arith
contains-ids {r} (q ∷ rs) (Memᴰ.tail m) = ground (arith, contains-ids rs m)

-- In a falling list no row behind the cut is newer than one before it.
pub take-newest :
    {a b : PullRow} (n : ℕ) (rs : List PullRow)
    → IsDescending rs
    → Memᴰ a (take n rs)
    → Memᴰ b rs
    → ¬ Memᴰ b (take n rs)
    → b.started_at ≤ a.started_at
take-newest zero rs d m k out = elim m [ ]
take-newest (suc n) [] d m k out = elim k [ ]
take-newest (suc n) (r ∷ rs) d m (Memᴰ.head q) out = absurd (out (Memᴰ.head q))
take-newest {a} {b} (suc n) (r ∷ rs) d (Memᴰ.head p) (Memᴰ.tail k) out =
    rw p (All-Memᴰ (λ x. x.started_at ≤ r.started_at) rs d.0 k)
take-newest (suc n) (r ∷ rs) d (Memᴰ.tail m) (Memᴰ.tail k) out =
    take-newest n rs d.1 m k (λ x. out (Memᴰ.tail x))
