-- ===== src/Drivers/ClickHouse/Ascend.antt =====
-- drivers/clickhouse/driver.py: what later pulls can deliver, on a table with an integer key.
use r64_db_engine.Base.{
  ℕ, zero, suc, String, ◌<>◌, ◌≡◌, refl, sym, ap, ◌∙◌, true, false, Option, none, some, List, [],
  ◌∷◌, ◌++◌, ◌⊎◌, contains, string_eq, All, All-append, inl, inr, Bool-cases,
}
use mathlib.Core.Path.{subst}
use r64_db_engine.Base.Results.{Result, ok, ◌>>=◌, >>=-eq-ok, ok-injective}
use r64_db_engine.Base.Dict.{Dict}
use r64_db_engine.Base.Decimal.{ℤ}
use r64_db_engine.State.{Watermark, number}
use r64_db_engine.Config.{incremental}
use r64_db_engine.Drivers.Order.{int, lt_int, lt_int_trans, eq_of_not_lt_int}
use r64_db_engine.Drivers.Postgres.BuildQuery.{key_of, limit_clause}
use r64_db_engine.Drivers.ClickHouse.{
  ClickHouseError, Query, PullConfig, Database, double_ticks, quote_ident, selected, base,
  limit_text, is_inline_sql, split_qualified, build_query, max_value, of_rows,
  compute_new_watermark, selected_columns, column_types_for_source, check_types, pull,
}

abbrev limited : Option ℕ → String
limited none = ""
limited (some n) = " LIMIT %(max_rows)s"

-- `SELECT … FROM … WHERE key > w ORDER BY key ASC`, and `LIMIT n` if there is a bound: the query
-- that asks for the rows whose key is greater than `w`.
abbrev pub greater_query : String → String → String → ℤ → Option ℕ → Query
greater_query columns source key w limit =
    let name = "`" <> (double_ticks key <> "`") in
    record {
      sql =
          "SELECT "
          <> (columns
              <> (" FROM "
                  <> (source
                      <> ((" WHERE "
                            <> (name <> (" > %(watermark)s ORDER BY " <> (name <> " ASC"))))
                          <> limited limit))));
      watermark = some (number w);
      max_rows = limit;
    }

-- A server on whose table the key is an integer, and that answers the query for the rows with a
-- greater key by rows with a greater key. The key is among the columns that are selected.
pub record Serves (isoformat : ℕ → String) (db : Database) (database : Option String)
    (cfg : PullConfig) (key : String) (k : db.Row → ℤ) : Type 0 where
  pub named : (r : db.Row) → db.cell key r ≡ int (k r)
  pub has_key :
      contains (selected_columns isoformat db database cfg.columns (db.column_types cfg.source)) key
      ≡ true
  pub select_greater :
      (columns : List String) (w : ℤ) (limit : Option ℕ)
      → All
          (λ r. lt_int w (k r) ≡ true)
          (db.select (greater_query (selected columns) (base database cfg.source) key w limit))

module _ (isoformat : ℕ → String) (db : Database) (database : Option String) where
  -- Pulls one after the other, each with the watermark that the one before it left.
  unfoldable pub pulls :
      PullConfig → ℕ → Option Watermark → Result ClickHouseError (List db.Row × Option Watermark)
  pulls cfg zero w = ok ([], w)
  pulls cfg (suc n) w = do
    (batch, w1) ← pull isoformat db database cfg w
    (rest, w2) ← pulls cfg n w1
    ok (batch ++ rest, w2)

-- `v` is `w` or greater.
abbrev pub AtLeast : ℤ → ℤ → Type 0
AtLeast w v = (v ≡ w) ⊎ (lt_int w v ≡ true)

AtLeast-trans : (w v u : ℤ) → AtLeast w v → AtLeast v u → AtLeast w u
AtLeast-trans w v u h (inl e) = subst (AtLeast w) (sym e) h
AtLeast-trans w v u (inl e) (inr j) = inr (subst (λ (x : ℤ). lt_int x u ≡ true) e j)
AtLeast-trans w v u (inr e) (inr j) = inr (lt_int_trans w v u e j)

module _ {A : Type 0} (k : A → ℤ) where
  abbrev pub AllAbove : ℤ → List A → Type 0
  AllAbove w rows = All (λ r. lt_int w (k r) ≡ true) rows

  abbrev pub AllAtMost : ℤ → List A → Type 0
  AllAtMost v rows = All (λ r. AtLeast (k r) v) rows

  -- `v` is the key of one of the rows.
  abbrev pub IsKeyOf : ℤ → List A → Type 0
  IsKeyOf v [] = ⊥
  IsKeyOf v (r ∷ rows) = (v ≡ k r) ⊎ IsKeyOf v rows

  -- `v` is the greatest key of the rows, or `w` if there is none.
  abbrev pub IsGreatest : ℤ → List A → ℤ → Type 0
  IsGreatest w [] v = v ≡ w
  IsGreatest w (r ∷ rows) v = AllAtMost v (r ∷ rows) × IsKeyOf v (r ∷ rows)

  AllAbove-weaken : (w v : ℤ) (rows : List A) → AtLeast w v → AllAbove v rows → AllAbove w rows
  AllAbove-weaken w v [] h a = tt
  AllAbove-weaken w v (r ∷ rows) h a = (step h, AllAbove-weaken w v rows h a.1)
    where
      step : AtLeast w v → lt_int w (k r) ≡ true
      step (inl e) = subst (λ (x : ℤ). lt_int x (k r) ≡ true) e a.0
      step (inr e) = lt_int_trans w v (k r) e a.0

  AllAtMost-weaken : (v u : ℤ) (rows : List A) → AtLeast v u → AllAtMost v rows → AllAtMost u rows
  AllAtMost-weaken v u [] h a = tt
  AllAtMost-weaken v u (r ∷ rows) h a =
      (AtLeast-trans (k r) v u a.0 h, AllAtMost-weaken v u rows h a.1)

  above_of_key : (w v : ℤ) (rows : List A) → AllAbove w rows → IsKeyOf v rows → lt_int w v ≡ true
  above_of_key w v [] a h = absurd h
  above_of_key w v (r ∷ rows) a (inl e) = subst (λ (x : ℤ). lt_int w x ≡ true) (sym e) a.0
  above_of_key w v (r ∷ rows) a (inr h) = above_of_key w v rows a.1 h

  IsKeyOf-left : (v : ℤ) (xs ys : List A) → IsKeyOf v xs → IsKeyOf v (xs ++ ys)
  IsKeyOf-left v [] ys h = absurd h
  IsKeyOf-left v (x ∷ xs) ys (inl e) = inl e
  IsKeyOf-left v (x ∷ xs) ys (inr h) = inr (IsKeyOf-left v xs ys h)

  IsKeyOf-right : (v : ℤ) (xs ys : List A) → IsKeyOf v ys → IsKeyOf v (xs ++ ys)
  IsKeyOf-right v [] ys h = h
  IsKeyOf-right v (x ∷ xs) ys h = inr (IsKeyOf-right v xs ys h)

  AtLeast-greatest : (w v : ℤ) (rows : List A) → AllAbove w rows → IsGreatest w rows v → AtLeast w v
  AtLeast-greatest w v [] a h = inl h
  AtLeast-greatest w v (r ∷ rows) a h = inr (above_of_key w v (r ∷ rows) a h.1)

  AllAtMost-append :
      (v : ℤ) (xs ys : List A) → AllAtMost v xs → AllAtMost v ys → AllAtMost v (xs ++ ys)
  AllAtMost-append v xs ys = All-append (λ r. AtLeast (k r) v) xs ys

  -- The greatest of two batches, the second of which is above the first.
  IsGreatest-append :
      (w v u : ℤ) (xs ys : List A)
      → AllAbove v ys
      → IsGreatest w xs v
      → IsGreatest v ys u
      → IsGreatest w (xs ++ ys) u
  IsGreatest-append w v u [] ys a h g = subst (λ (x : ℤ). IsGreatest x ys u) h g
  IsGreatest-append w v u (x ∷ xs) [] a h g = (
    AllAtMost-append u (x ∷ xs) [] (AllAtMost-weaken v u (x ∷ xs) (inl g) h.0) tt,
    IsKeyOf-left u (x ∷ xs) [] (subst (λ (z : ℤ). IsKeyOf z (x ∷ xs)) (sym g) h.1),
  )
  IsGreatest-append w v u (x ∷ xs) (y ∷ ys) a h g = (
    AllAtMost-append u (x ∷ xs) (y ∷ ys)
        (AllAtMost-weaken v u (x ∷ xs) (AtLeast-greatest v u (y ∷ ys) a g) h.0) g.0,
    IsKeyOf-right u (x ∷ xs) (y ∷ ys) g.1,
  )

module _ (isoformat : ℕ → String) (db : Database) (database : Option String) (cfg : PullConfig)
    (key : String) (k : db.Row → ℤ) (s : Serves isoformat db database cfg key k)
    (keyed : key_of cfg.incremental_key ≡ some key) where
  same_limit : (limit : Option ℕ) → limit_text limit ≡ limited limit
  same_limit none = refl
  same_limit (some n) = refl

  same_query :
      (columns : List String) (w : ℤ)
      → cfg.mode ≡ incremental
      → build_query database cfg columns (some (number w))
        ≡ greater_query
            (selected columns)
            (base database cfg.source)
            key
            w
            (limit_clause cfg.max_rows)
  unfolding build_query quote_ident
  same_query columns w mode = rw (mode, keyed, same_limit (limit_clause cfg.max_rows)) refl

  max_greatest :
      (r : db.Row) (rows : List db.Row)
      → (m : ℤ) × (max_value isoformat db database key (r ∷ rows) ≡ int m)
        × (AllAtMost k m (r ∷ rows) × IsKeyOf k m (r ∷ rows))
  max_greatest r [] = (k r, rw (s.named r), ((inl refl, tt), inl refl))
  max_greatest r (q ∷ rows) =
      let (m, e, (most, among)) = max_greatest q rows in
      elim (Bool-cases (lt_int (k r) m)) [
        | inl f ↦ (m, rw (e, s.named r, f), ((inr f, most), inr among))
        | inr f ↦ (
          k r,
          rw (e, s.named r, f),
          ((inl refl, AllAtMost-weaken k m (k r) (q ∷ rows) (below m f) most), inl refl),
        )
      ]
    where
      below : (m : ℤ) → lt_int (k r) m ≡ false → AtLeast m (k r)
      below m f = elim (Bool-cases (lt_int m (k r))) [
        | inl g ↦ inr g
        | inr g ↦ inl (eq_of_not_lt_int (k r) m f g)
      ]

  of_rows-IsGreatest :
      (w : ℤ) (columns : List String) (rows : List db.Row)
      → contains columns key ≡ true
      → (v : ℤ) × (of_rows isoformat db database key (some (number w)) columns rows
          ≡ some (number v))
        × IsGreatest k w rows v
  of_rows-IsGreatest w columns [] h = (w, refl, refl)
  of_rows-IsGreatest w columns (r ∷ rows) h =
      let (m, f, greatest) = max_greatest r rows in (m, rw (h, f), greatest)

  compute_new_watermark-IsGreatest :
      (w : ℤ) (columns : List String) (rows : List db.Row)
      → cfg.mode ≡ incremental
      → contains columns key ≡ true
      → (v : ℤ) × (compute_new_watermark isoformat db database cfg columns rows (some (number w))
          ≡ some (number v))
        × IsGreatest k w rows v
  unfolding compute_new_watermark
  compute_new_watermark-IsGreatest w columns rows mode h =
      let (v, e, greatest) = of_rows-IsGreatest w columns rows h in
      (v, rw (mode, keyed) e, greatest)

  types_known :
      (types : Dict String String)
      → column_types_for_source isoformat db database cfg.source ≡ ok types
      → db.column_types cfg.source ≡ types
  unfolding column_types_for_source
  types_known types h = elim (Bool-cases (is_inline_sql cfg.source)) [
    | inl e ↦ ok-injective _ types (rw e at h)
    | inr e ↦
        let (_, _, done) = >>=-eq-ok (split_qualified database cfg.source) _ (rw e at h) in
        ok-injective _ types done
  ]

  pull_above :
      (w : ℤ) (batch : List db.Row) (w1 : Option Watermark)
      → cfg.mode ≡ incremental
      → pull isoformat db database cfg (some (number w)) ≡ ok (batch, w1)
      → AllAbove k w batch × ((v : ℤ) × (w1 ≡ some (number v)) × IsGreatest k w batch v)
  unfolding pull
  pull_above w batch w1 mode h =
      let (types, e1, h1) =
        >>=-eq-ok (column_types_for_source isoformat db database cfg.source) _ h in
      let columns = selected_columns isoformat db database cfg.columns types in
      let (_, e2, h2) = >>=-eq-ok (check_types isoformat db database types columns) _ h1 in
      let rows = db.select (build_query database cfg columns (some (number w))) in
      let same = ok-injective _ (batch, w1) h2 in
      let above =
        subst (λ (q : Query). AllAbove k w (db.select q)) (sym (same_query columns w mode))
          (s.select_greater columns w (limit_clause cfg.max_rows)) in
      let found =
        subst
          (λ (x : Dict String String).
            contains (selected_columns isoformat db database cfg.columns x) key ≡ true)
          (types_known types e1) s.has_key in
      let (v, e3, greatest) = compute_new_watermark-IsGreatest w columns rows mode found in
      let frame = ap (λ (x : List db.Row × Option Watermark). x.0) same in
      (
        subst (AllAbove k w) frame above,
        (
          v,
          sym (ap (λ (x : List db.Row × Option Watermark). x.1) same) ∙ e3,
          subst (λ (x : List db.Row). IsGreatest k w x v) frame greatest,
        ),
      )

  -- Of an incremental table whose key is an integer and among the selected columns, on a server that
  -- answers the query for greater keys by rows with greater keys: pulls one after the other from a
  -- watermark deliver only rows whose key is greater than it, and leave the greatest key delivered as
  -- the watermark, or the old watermark if nothing was delivered. So no row at or below a watermark is
  -- ever delivered again, nor delivered at all if it was not yet.
  pub pulls_above :
      (n : ℕ) (w : ℤ) (rows : List db.Row) (w1 : Option Watermark)
      → cfg.mode ≡ incremental
      → pulls isoformat db database cfg n (some (number w)) ≡ ok (rows, w1)
      → AllAbove k w rows × ((v : ℤ) × (w1 ≡ some (number v)) × IsGreatest k w rows v)
  unfolding pulls
  pulls_above zero w rows w1 mode h =
      let same = ok-injective ([], some (number w)) (rows, w1) h in
      let frame = ap (λ (x : List db.Row × Option Watermark). x.0) same in
      (
        subst (AllAbove k w) frame tt,
        (
          w,
          sym (ap (λ (x : List db.Row × Option Watermark). x.1) same),
          subst (λ (x : List db.Row). IsGreatest k w x w) frame refl,
        ),
      )
  pulls_above (suc n) w rows w1 mode h =
      let ((batch, w2), e1, h1) =
        >>=-eq-ok (pull isoformat db database cfg (some (number w))) _ h in
      let ((rest, w3), e2, h2) = >>=-eq-ok (pulls isoformat db database cfg n w2) _ h1 in
      let (above, (v, ev, first)) = pull_above w batch w2 mode e1 in
      let (more, (u, eu, second)) = pulls_above n v rest w3 mode (
        subst (λ (x : Option Watermark). pulls isoformat db database cfg n x ≡ ok (rest, w3)) ev
          e2) in
      let same = ok-injective (batch ++ rest, w3) (rows, w1) h2 in
      let frame = ap (λ (x : List db.Row × Option Watermark). x.0) same in
      let least = AtLeast-greatest k w v batch above first in
      (
        subst (AllAbove k w) frame (
            All-append (λ r. lt_int w (k r) ≡ true) batch rest above
              (AllAbove-weaken k w v rest least more)),
        (
          u,
          sym (ap (λ (x : List db.Row × Option Watermark). x.1) same) ∙ eu,
          subst (λ (x : List db.Row). IsGreatest k w x u) frame
              (IsGreatest-append k w v u batch rest more first second),
        ),
      )
