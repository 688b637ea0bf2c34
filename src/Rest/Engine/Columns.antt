-- ===== src/Rest/Engine/Columns.antt =====
-- drivers/rest/engine.py: `_extract` of a columnar response, whose arrays become rows.
use r64_db_engine.Base.{
  ℕ, zero, suc, ◌+◌, ◌<◌, String, ◌≡◌, refl, sym, ap, ◌∙◌, Bool, true, false, Option, none, some,
  List, [], ◌∷◌, all, All, length, get_elem?, if◌then◌else◌, ◌==◌, nat_eq, string_eq, Bool-cases,
  inl, inr, arith,
}
use mathlib.Core.Path.{subst}
use r64_db_engine.Base.Results.{ok, err, ok-injective}
use r64_db_engine.Base.Dict
use r64_db_engine.Base.Dict.{Dict}
use r64_db_engine.Base.Json.{Json, null, bool, num, text, arr, obj, Fields, get}
use r64_db_engine.Rest.{RestError}
use r64_db_engine.Rest.Recipes.{Shape, records, columnar, Recipe}
use r64_db_engine.Rest.Engine.{
  or_null, dotted_get, array_columns, row_at, rows_from, zip_columns, extract_node, extract,
}

-- What a column holds for a row.
abbrev pub cell : ℕ → Option (List Json) → Option Json
cell i none = none
cell i (some vs) = some (or_null (get_elem? vs i))

-- The rows that stand for columns: as many as each column is long, each with the columns' cells.
pub record Transposes (columns : Dict String (List Json)) (rows : List Fields) : Type 0 where
  pub heights : All (λ c. length c.1 ≡ length rows) columns
  pub cells :
      (i : ℕ)
      → i < length rows
      → (row : Fields) × (get_elem? rows i ≡ some row)
        × ((k : String) → get k row ≡ cell i (Dict.lookup k columns))

get-row_at :
    (columns : Dict String (List Json)) (i : ℕ) (k : String)
    → get k (row_at columns i) ≡ cell i (Dict.lookup k columns)
unfolding row_at get Dict.lookup
get-row_at [] i k = refl
get-row_at ((j, vs) ∷ columns) i k = elim (Bool-cases (k == j)) [
  | inl e ↦ rw e refl
  | inr e ↦ rw e (get-row_at columns i k)
]

length-rows_from :
    (columns : Dict String (List Json)) (start n : ℕ) → length (rows_from columns start n) ≡ n
length-rows_from columns start zero = refl
length-rows_from columns start (suc n) =
    ap (λ (x : ℕ). suc x) (length-rows_from columns (suc start) n)

get_elem?-rows_from :
    (columns : Dict String (List Json)) (start n i : ℕ)
    → i < n
    → get_elem? (rows_from columns start n) i ≡ some (row_at columns (start + i))
get_elem?-rows_from columns start zero i h = absurd (omega arith)
get_elem?-rows_from columns start (suc n) zero h =
    ap (λ (x : ℕ). some (row_at columns x)) (omega arith)
get_elem?-rows_from columns start (suc n) (suc i) h =
    get_elem?-rows_from columns (suc start) n i (omega arith)
    ∙ ap (λ (x : ℕ). some (row_at columns x)) (omega arith)

same_heights :
    (n : ℕ) (columns : Dict String (List Json))
    → all (λ c. length c.1 == n) columns ≡ true
    → All (λ c. length c.1 ≡ n) columns
unfolding nat_eq
same_heights n [] h = tt
same_heights n (c ∷ cs) h = (ground arith, same_heights n cs (ground arith))

zipped :
    (b : Bool) (columns : Dict String (List Json)) (n : ℕ) (e : RestError) (rows : List Fields)
    → (if b then ok (rows_from columns 0 n) else err e) ≡ ok rows
    → (b ≡ true) × (rows_from columns 0 n ≡ rows)
zipped true columns n e rows h = (refl, ok-injective _ _ h)
zipped false columns n e rows h = cc

zip_columns-Transposes :
    (path : String) (columns : Dict String (List Json)) (rows : List Fields)
    → zip_columns path columns ≡ ok rows
    → Transposes columns rows
unfolding zip_columns
zip_columns-Transposes path [] rows h = cc
zip_columns-Transposes path ((k, vs) ∷ cs) rows h =
    let (same, built) =
      zipped (all (λ c. length c.1 == length vs) cs) ((k, vs) ∷ cs) (length vs) _ rows h in
    let tall = length-rows_from ((k, vs) ∷ cs) 0 (length vs) in
    subst (Transposes ((k, vs) ∷ cs)) built (record {
      heights =
          subst (λ n. All (λ c. length c.1 ≡ n) ((k, vs) ∷ cs)) (sym tall)
            (refl, same_heights (length vs) cs same);
      cells = λ i below. (
        row_at ((k, vs) ∷ cs) i,
        get_elem?-rows_from ((k, vs) ∷ cs) 0 (length vs) i (subst (λ n. i < n) tall below)
            ∙ ap (λ (x : ℕ). some (row_at ((k, vs) ∷ cs) x)) (omega arith),
        get-row_at ((k, vs) ∷ cs) i,
      );
    })

columnar_node :
    (shape : Shape) (path : String) (node : Json) (rows : List Fields)
    → shape ≡ columnar
    → extract_node shape path node ≡ ok rows
    → (fs : Fields) × (node ≡ obj fs) × (zip_columns path (array_columns fs) ≡ ok rows)
unfolding extract_node
columnar_node records path node rows e h = cc
columnar_node columnar path null rows e h = cc
columnar_node columnar path (bool b) rows e h = cc
columnar_node columnar path (num n) rows e h = cc
columnar_node columnar path (text t) rows e h = cc
columnar_node columnar path (arr vs) rows e h = cc
columnar_node columnar path (obj fs) rows e h = (fs, refl, h)

-- A columnar response that is extracted is an object whose arrays all have the same length, which is
-- the number of rows, and each row holds the arrays' values at its place: nothing is cut off.
pub extract-columnar :
    (recipe : Recipe) (payload : Json) (rows : List Fields)
    → recipe.extract.shape ≡ columnar
    → extract recipe payload ≡ ok rows
    → (fs : Fields) × (dotted_get payload recipe.extract.path ≡ obj fs)
      × Transposes (array_columns fs) rows
unfolding extract
extract-columnar recipe payload rows shape h =
    let (fs, found, built) =
      columnar_node recipe.extract.shape recipe.extract.path
        (dotted_get payload recipe.extract.path) rows shape h in
    (fs, found, zip_columns-Transposes recipe.extract.path (array_columns fs) rows built)
