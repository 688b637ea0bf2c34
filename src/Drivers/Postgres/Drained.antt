-- ===== src/Drivers/Postgres/Drained.antt =====
-- drivers/postgres/driver.py: bounded pulls, one after the other, deliver the table.
use r64_db_engine.Base.{
  ℕ, zero, suc, ◌+◌, ◌*◌, ◌≤◌, String, ◌≡◌, refl, sym, ap, ◌∙◌, Option, none, List, [], ◌∷◌, ◌++◌,
  take, drop, length, append-nil, append_assoc, arith,
}
use r64_db_engine.Base.Results.{Result, ok, ◌>>=◌}
use r64_db_engine.Base.Decimal.{ℤ}
use r64_db_engine.State.{Watermark}
use r64_db_engine.Drivers.Postgres.{PgError, JsonText, Database, PullConfig}
use r64_db_engine.Drivers.Postgres.Pull.{pull}
use r64_db_engine.Drivers.Postgres.Pulled.{Serves, bounded_table, cursor_after, pull_next}

-- Pulls one after the other, each with the watermark that the one before it left: all the rows that
-- they deliver, and the last watermark.
unfoldable pub pulls :
    (json : JsonText) (isoformat : ℕ → String) (db : Database)
    → PullConfig
    → ℕ
    → Option Watermark
    → Result PgError (List db.Row × Option Watermark)
pulls json isoformat db cfg zero w = ok ([], w)
pulls json isoformat db cfg (suc n) w = do
  (batch, w1) ← pull json isoformat db cfg w
  (rest, w2) ← pulls json isoformat db cfg n w1
  ok (batch ++ rest, w2)

module _ {ℓ} {A : Type ℓ} where
  take-drop : (n : ℕ) (xs : List A) → take n xs ++ drop n xs ≡ xs
  take-drop zero xs = refl
  take-drop (suc n) [] = refl
  take-drop (suc n) (x ∷ xs) = ap (λ (ys : List A). x ∷ ys) (take-drop n xs)

  abbrev nothing : List A
  nothing = []

  take-nil : (n : ℕ) → take n nothing ≡ nothing
  take-nil zero = refl
  take-nil (suc n) = refl

  take-add : (m n : ℕ) (xs : List A) → take m xs ++ take n (drop m xs) ≡ take (m + n) xs
  take-add zero n xs = ap (λ k. take k xs) (omega arith)
  take-add (suc m) n [] = take-nil n ∙ sym (take-nil (suc m + n))
  take-add (suc m) n (x ∷ xs) =
      ap (λ (ys : List A). x ∷ ys) (take-add m n xs)
      ∙ ap (λ k. take k (x ∷ xs)) (let e : suc (m + n) ≡ suc m + n = omega arith in e)

  take_all : (n : ℕ) (xs : List A) → length xs ≤ n → take n xs ≡ xs
  take_all zero [] h = refl
  take_all zero (x ∷ xs) h = absurd (omega arith)
  take_all (suc n) [] h = refl
  take_all (suc n) (x ∷ xs) h = ap (λ (ys : List A). x ∷ ys) (take_all n xs (omega arith))

module _ (json : JsonText) (isoformat : ℕ → String) (db : Database) (source key tie : String)
    (m : ℕ) (k t : db.Row → ℤ) {rows : List db.Row}
    (s : Serves json db source key tie m k t rows) where
  abbrev cfg : PullConfig
  cfg = bounded_table source key m

  abbrev after : List db.Row → Option Watermark
  after = cursor_after json isoformat db source key tie m k t s

  pulls_from :
      (n : ℕ) (done rest : List db.Row)
      → rows ≡ done ++ rest
      → pulls json isoformat db cfg n (after done)
        ≡ ok (take (n * suc m) rest, after (done ++ take (n * suc m) rest))
  unfolding pulls
  pulls_from zero done rest h = let z : 0 * suc m ≡ 0 = omega arith in rw (z, append-nil)
  pulls_from (suc n) done rest h =
      let batch = take (suc m) rest in
      let later = drop (suc m) rest in
      let split : rows ≡ (done ++ batch) ++ later =
        h
        ∙ ap (λ (xs : List db.Row). done ++ xs) (sym (take-drop (suc m) rest))
        ∙ sym (append_assoc done batch later) in
      let rounds : suc m + n * suc m ≡ suc n * suc m = grind arith in
      let whole : batch ++ take (n * suc m) later ≡ take (suc n * suc m) rest =
        take-add (suc m) (n * suc m) rest ∙ ap (λ j. take j rest) rounds in
      rw (
        pull_next json isoformat db source key tie m k t s done rest h,
        pulls_from n (done ++ batch) later split,
        append_assoc done batch (take (n * suc m) later),
        whole,
      )

  -- On a table with an integer cursor and an integer key, and some column that is no number or none
  -- that is a float, whose server answers the queries as SQL has it, `n` bounded pulls from the start, each with the watermark of the one before, succeed and
  -- deliver the first `n` batches of the table in its order, every row once, and leave the cursor of
  -- the last row delivered.
  pub pulls_deliver :
      (n : ℕ)
      → let delivered = take (n * suc m) rows in
        pulls json isoformat db cfg n none ≡ ok (delivered, after delivered)
  pulls_deliver n = pulls_from n [] rows refl

  -- On such a table (an integer cursor and an integer key, and some column that is no number or none
  -- that is a float; the server answers the queries as SQL has it), as soon as the pulls are enough for
  -- the table, all its rows are delivered, each once and in order, and further pulls deliver nothing and
  -- keep the cursor.
  pub pulls_drain :
      (n extra : ℕ)
      → length rows ≤ n * suc m
      → pulls json isoformat db cfg (n + extra) none ≡ ok (rows, after rows)
  pulls_drain n extra enough =
      let all =
        take_all ((n + extra) * suc m) rows
          (let more : n * suc m ≤ (n + extra) * suc m = grind arith in omega arith) in
      rw (pulls_deliver (n + extra), all)
