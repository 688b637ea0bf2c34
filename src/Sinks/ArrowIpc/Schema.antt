-- ===== src/Sinks/ArrowIpc/Schema.antt =====
-- sinks/arrow_ipc.py: the schema of the written table follows from the frame's and the
-- configuration, whatever the cells hold.
use r64_db_engine.Base.{
  String, ◌≡◌, ◌≢◌, refl, sym, ap, ◌∙◌, Option, none, some, List, [], ◌∷◌, ◌==◌, if◌then◌else◌,
  string_eq, contains, All, arith, inl, inr, Bool-cases, eq_of_==,
}
use mathlib.Core.Path.{subst}
use r64_db_engine.Base.Results.{ok, >>=-eq-ok, ok-injective}
use r64_db_engine.Sinks.ArrowIpc.Table.{
  ArrowType, string, large_string, timestamp, dictionary, other, ArrowColumn, PyArrow, Table,
  cast_column, cast_timestamps, encoded, encode_column, encode_columns, normalized, to_arrow_table,
  cast_to,
}

abbrev pub Schema : Type 0
Schema = List (String × ArrowType)

-- No two columns have one name.
abbrev pub HasDistinctColumns : Schema → Type 0
HasDistinctColumns [] = Unit
HasDistinctColumns ((n, _) ∷ s) = All (λ q. q.0 ≢ n) s × HasDistinctColumns s

-- The type in the unit that is configured.
abbrev pub in_unit : Option String → ArrowType → ArrowType
in_unit (some unit) (timestamp u tz) = timestamp unit tz
in_unit _ type = type

-- The schema that the configuration asks for.
abbrev pub expected_schema : List String → Option String → Schema → Schema
expected_schema columns unit [] = []
expected_schema columns unit ((name, type) ∷ s) =
    (name, (if contains columns name then dictionary else in_unit unit type))
    ∷ expected_schema columns unit s

abbrev mark : String → Schema → Schema
mark name [] = []
mark name ((n, type) ∷ s) = (n, (if n == name then dictionary else type)) ∷ mark name s

mark-absent : (name : String) (s : Schema) → All (λ q. q.0 ≢ name) s → mark name s ≡ s
mark-absent name [] h = refl
mark-absent name ((n, type) ∷ s) h = ground (arith, mark-absent name s h.1)

All-mark : (k name : String) (s : Schema) → All (λ q. q.0 ≢ k) s → All (λ q. q.0 ≢ k) (mark name s)
All-mark k name [] h = tt
All-mark k name ((n, type) ∷ s) h = (h.0, All-mark k name s h.1)

mark-HasDistinctColumns :
    (name : String) (s : Schema) → HasDistinctColumns s → HasDistinctColumns (mark name s)
mark-HasDistinctColumns name [] h = tt
mark-HasDistinctColumns name ((n, type) ∷ s) h =
    (All-mark n name s h.0, mark-HasDistinctColumns name s h.1)

expected-mark :
    (name : String) (names : List String) (s : Schema)
    → expected_schema names none (mark name s) ≡ expected_schema (name ∷ names) none s
expected-mark name names [] = refl
expected-mark name names ((n, type) ∷ s) = ground (arith, expected-mark name names s)

All-expected :
    (k : String) (names : List String) (unit : Option String) (s : Schema)
    → All (λ q. q.0 ≢ k) s
    → All (λ q. q.0 ≢ k) (expected_schema names unit s)
All-expected k names unit [] h = tt
All-expected k names unit ((n, type) ∷ s) h = (h.0, All-expected k names unit s h.1)

expected_schema-HasDistinctColumns :
    (names : List String) (unit : Option String) (s : Schema)
    → HasDistinctColumns s
    → HasDistinctColumns (expected_schema names unit s)
expected_schema-HasDistinctColumns names unit [] h = tt
expected_schema-HasDistinctColumns names unit ((n, type) ∷ s) h =
    (All-expected n names unit s h.0, expected_schema-HasDistinctColumns names unit s h.1)

expected_after_units :
    (names : List String) (unit : Option String) (s : Schema)
    → expected_schema names none (expected_schema [] unit s) ≡ expected_schema names unit s
expected_after_units names unit [] = refl
expected_after_units names unit ((n, type) ∷ s) =
    ap (λ (r : Schema). (n, (if contains names n then dictionary else in_unit unit type)) ∷ r)
      (expected_after_units names unit s)

unmarked : (s : Schema) → expected_schema [] none s ≡ s
unmarked [] = refl
unmarked ((n, type) ∷ s) = ap (λ (r : Schema). (n, type) ∷ r) (unmarked s)

module _ {Frame Bytes : Type 0} (pa : PyArrow Frame Bytes) where
  abbrev pub schema : Table pa → Schema
  schema [] = []
  schema (c ∷ table) = (c.name, c.type) ∷ schema table

  encoded-schema :
      (c : ArrowColumn pa.Cells) (type : ArrowType) {c' : ArrowColumn pa.Cells}
      → encoded pa c type ≡ ok c'
      → (c'.name ≡ c.name) × (c'.type ≡ dictionary)
  encoded-schema c string h = (cc, cc)
  encoded-schema c large_string h = (cc, cc)
  encoded-schema c (timestamp u tz) h = cc
  encoded-schema c dictionary h = cc
  encoded-schema c (other t) h = cc

  encode_column-schema :
      (name : String) (table : Table pa) {t : Table pa}
      → HasDistinctColumns (schema table)
      → encode_column pa name table ≡ ok t
      → schema t ≡ mark name (schema table)
  unfolding encode_column
  encode_column-schema name [] u h = cc
  encode_column-schema name (c ∷ table) {t} u h = elim (Bool-cases (c.name == name)) [
    | inl e ↦
        let (c', ec, et) = >>=-eq-ok (encoded pa c c.type) _ (rw e at h) in
        let (en, ety) = encoded-schema c c.type ec in
        let same : c.name ≡ name = eq_of_== c.name name e in
        let absent = mark-absent name (schema table) (rw same at u.0) in
        rw (← ok-injective (c' ∷ table) t et, e, absent, en, ety)
    | inr e ↦
        let (rest, er, et) = >>=-eq-ok (encode_column pa name table) _ (rw e at h) in
        let ih = encode_column-schema name table u.1 er in
        rw (← ok-injective (c ∷ rest) t et, e, ih)
  ]

  encode_columns-schema :
      (names : List String) (table : Table pa) {t : Table pa}
      → HasDistinctColumns (schema table)
      → encode_columns pa names table ≡ ok t
      → schema t ≡ expected_schema names none (schema table)
  unfolding encode_columns
  encode_columns-schema [] table u h = rw (← ok-injective _ _ h) (sym (unmarked (schema table)))
  encode_columns-schema (name ∷ names) table {t} u h =
      let (t1, e1, e2) = >>=-eq-ok (encode_column pa name table) _ h in
      let s1 = encode_column-schema name table u e1 in
      encode_columns-schema names t1
        (subst HasDistinctColumns (sym s1) (mark-HasDistinctColumns name (schema table) u)) e2
      ∙ ap (λ (s : Schema). expected_schema names none s) s1
      ∙ expected-mark name names (schema table)

  cast_to-schema :
      (unit : String) (c : ArrowColumn pa.Cells) (cells : Option pa.Cells)
      {c' : ArrowColumn pa.Cells}
      → cast_to pa unit c cells ≡ ok c'
      → (c'.name ≡ c.name) × (c'.type ≡ c.type)
  cast_to-schema unit c none h = cc
  cast_to-schema unit c (some cells) h = (cc, cc)

  cast_column-schema :
      (unit : String) (c : ArrowColumn pa.Cells) (type : ArrowType) {c' : ArrowColumn pa.Cells}
      → c.type ≡ type
      → cast_column pa unit c type ≡ ok c'
      → (c'.name ≡ c.name) × (c'.type ≡ in_unit (some unit) type)
  cast_column-schema unit c string q h = (cc, cc)
  cast_column-schema unit c large_string q h = (cc, cc)
  cast_column-schema unit c dictionary q h = (cc, cc)
  cast_column-schema unit c (other t) q h = (cc, cc)
  cast_column-schema unit c (timestamp u tz) q h = elim (Bool-cases (u == unit)) [
    | inl e ↦
        let same = ok-injective c _ (rw e at h) in
        (
          ap (λ (x : ArrowColumn pa.Cells). x.name) (sym same),
          ap (λ (x : ArrowColumn pa.Cells). x.type) (sym same)
              ∙ q
              ∙ ap (λ (x : String). timestamp x tz) (eq_of_== u unit e),
        )
    | inr e ↦
        cast_to-schema unit (record c { type = timestamp unit tz }) (pa.cast_timestamp unit c.cells)
          (rw e at h)
  ]

  cast_timestamps-schema :
      (unit : String) (table : Table pa) {t : Table pa}
      → cast_timestamps pa unit table ≡ ok t
      → schema t ≡ expected_schema [] (some unit) (schema table)
  unfolding cast_timestamps
  cast_timestamps-schema unit [] h = rw (← ok-injective _ _ h)
  cast_timestamps-schema unit (c ∷ table) {t} h =
      let (c', ec, h1) = >>=-eq-ok (cast_column pa unit c c.type) _ h in
      let (rest, er, et) = >>=-eq-ok (cast_timestamps pa unit table) _ h1 in
      let (en, ety) = cast_column-schema unit c c.type refl ec in
      rw (← ok-injective (c' ∷ rest) t et, en, ety, cast_timestamps-schema unit table er)

  normalized-schema :
      (unit : Option String) (table : Table pa) {t : Table pa}
      → normalized pa unit table ≡ ok t
      → schema t ≡ expected_schema [] unit (schema table)
  normalized-schema none table h =
      ap schema (sym (ok-injective table _ h)) ∙ sym (unmarked (schema table))
  normalized-schema (some unit) table h = cast_timestamps-schema unit table h

  -- If the table of a frame has distinct column names and its conversion does not raise, then the
  -- converted table has the same columns in the same order, each of the configured dictionary columns
  -- is dictionary-encoded, every other column of time stamps is in the configured unit, and all other
  -- types are as they were: the schema depends on the configuration and the frame's schema alone,
  -- never on the cells.
  pub to_arrow_table-schema :
      (df : Frame) (names : List String) (unit : Option String) (t : Table pa)
      → HasDistinctColumns (schema (pa.from_pandas df))
      → to_arrow_table pa df names unit ≡ ok t
      → schema t ≡ expected_schema names unit (schema (pa.from_pandas df))
  unfolding to_arrow_table
  to_arrow_table-schema df names unit t u h =
      let s0 = schema (pa.from_pandas df) in
      let (table, e1, e2) = >>=-eq-ok (normalized pa unit (pa.from_pandas df)) _ h in
      let s1 = normalized-schema unit (pa.from_pandas df) e1 in
      encode_columns-schema names table
        (subst HasDistinctColumns (sym s1) (expected_schema-HasDistinctColumns [] unit s0 u)) e2
      ∙ ap (λ (s : Schema). expected_schema names none s) s1
      ∙ expected_after_units names unit s0
