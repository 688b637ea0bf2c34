-- ===== src/Coercion.antt =====
-- core/coercion.py: `compare_schemas`, which tells the daemon of schema drift.
pub mod Drift
use r64_db_engine.Base.{
  String, Bool, true, false, not, ◌&&◌, ◌||◌, Option, none, some, List, [], ◌∷◌, filter, ◌==◌,
  string_eq,
}
use r64_db_engine.Base.Dict
use r64_db_engine.Base.Dict.{Dict, keys}
use r64_db_engine.State.{Column}

pub record SchemaDiff : Type 0 where
  pub added : List String
  pub removed : List String
  pub type_changed : List String

-- `{c["name"]: c for c in columns}`: the last column of a name wins.
insert_columns : List Column → Dict String Column → Dict String Column
insert_columns [] d = d
insert_columns (c ∷ cs) d = insert_columns cs (Dict.insert c.name c d)

unfoldable pub column_map : List Column → Dict String Column
unfolding insert_columns
column_map cs = insert_columns cs []

-- `n in d`
abbrev pub has : Dict String Column → String → Bool
has d n = elim (Dict.lookup n d) [ none ↦ false | some _ ↦ true ]

-- The test of `type_changed`.
types_differ : Option Column → Option Column → Bool
types_differ (some c) (some p) =
    not (c.source_type == p.source_type) || not (c.pandas_dtype == p.pandas_dtype)
types_differ _ _ = false

diff_maps : Dict String Column → Dict String Column → SchemaDiff
unfolding types_differ
diff_maps prev cur = record {
  added = filter (λ n. not (has prev n)) (keys cur);
  removed = filter (λ n. not (has cur n)) (keys prev);
  type_changed = filter (λ n. types_differ (Dict.lookup n cur) (Dict.lookup n prev)) (keys cur);
}

unfoldable pub compare_schemas : Option (List Column) → List Column → SchemaDiff
unfolding diff_maps column_map
compare_schemas none current = record { added = []; removed = []; type_changed = [] }
compare_schemas (some previous) current = diff_maps (column_map previous) (column_map current)

abbrev nonempty : List String → Bool
nonempty [] = false
nonempty (_ ∷ _) = true

-- `any(diff.values())`
abbrev pub has_drift : SchemaDiff → Bool
has_drift d = nonempty d.added || nonempty d.removed || nonempty d.type_changed
