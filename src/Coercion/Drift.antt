-- ===== src/Coercion/Drift.antt =====
-- core/coercion.py: drift is reported exactly when two schemas give some name different types.
use mathlib.Core.List.{Memᴰ}
use r64_db_engine.Base.{
  is_some, String, ◌≡◌, refl, ◌↔◌, inl, inr, Bool, true, false, not, ◌||◌, Option, none, some, List,
  [], ◌∷◌, filter, ◌==◌, string_eq, All, arith, Option-cases, Bool-cases, eq_of_==,
}
use r64_db_engine.Base.Members.{All-Memᴰ, All-of_Memᴰ}
use r64_db_engine.Base.Dict
use r64_db_engine.Base.Dict.{Dict, keys}
use r64_db_engine.State.{Column}
use r64_db_engine.Coercion.{column_map, has, types_differ, compare_schemas, has_drift, nonempty}

-- What a schema says of a name: the source type and the pandas type, if the name is there.
abbrev pub types_of : Option Column → Option (String × String)
types_of none = none
types_of (some c) = some (c.source_type, c.pandas_dtype)

nonempty-filter :
    (p : String → Bool) (xs : List String)
    → (nonempty (filter p xs) ≡ false) ↔ All (λ x. p x ≡ false) xs
nonempty-filter p [] = (λ h. tt, λ h. refl)
nonempty-filter p (x ∷ xs) = elim (Bool-cases (p x)) [
  | inl e ↦ (λ h. cc (rw e at h), λ h. cc (e, h.0))
  | inr e ↦ rw e ((λ h. (refl, (nonempty-filter p xs).0 h)), λ h. (nonempty-filter p xs).1 h.1)
]

Memᴰ-keys_of_lookup :
    (n : String) (c : Column) (d : Dict String Column) → Dict.lookup n d ≡ some c → Memᴰ n (keys d)
unfolding Dict.lookup
Memᴰ-keys_of_lookup n c [] h = cc
Memᴰ-keys_of_lookup n c ((k, v) ∷ d) h = elim (Bool-cases (n == k)) [
  | inl e ↦ Memᴰ.head (eq_of_== n k e)
  | inr e ↦ Memᴰ.tail (Memᴰ-keys_of_lookup n c d (rw e at h))
]

has_of_Memᴰ-keys : {n : String} (d : Dict String Column) → Memᴰ n (keys d) → has d n ≡ true
unfolding Dict.lookup
has_of_Memᴰ-keys [] m = elim m [ ]
has_of_Memᴰ-keys {n} ((k, v) ∷ d) (Memᴰ.head e) = ground arith
has_of_Memᴰ-keys {n} ((k, v) ∷ d) (Memᴰ.tail m) = ground (arith, has_of_Memᴰ-keys d m)

-- A test that fails at every key of a map fails at every name that the map has.
All-keys :
    (p : String → Bool) (d : Dict String Column)
    → (All (λ n. p n ≡ false) (keys d))
      ↔ ((n : String) (c : Column) → Dict.lookup n d ≡ some c → p n ≡ false)
All-keys p d = (
  λ h n c e. All-Memᴰ (λ n. p n ≡ false) (keys d) h (Memᴰ-keys_of_lookup n c d e),
  λ h.
      All-of_Memᴰ (λ n. p n ≡ false) (keys d)
        (λ n m. elim (Option-cases (Dict.lookup n d)) [
          | inl e ↦ let k = has_of_Memᴰ-keys d m in ground arith
          | inr (c, e) ↦ h n c e
        ]),
)

same_types :
    (c p : Column)
    → (types_differ (some c) (some p) ≡ false) ↔ (types_of (some p) ≡ types_of (some c))
unfolding types_differ
same_types c p = (λ h. ground arith, λ h. ground arith)

or3 : (a b c : Bool) → (a || b || c ≡ false) ↔ ((a ≡ false) × (b ≡ false) × (c ≡ false))
or3 a b c = (λ h. ground arith, λ h. ground arith)

agree→eq :
    (p c : Option Column)
    → ((x : Column) → c ≡ some x → not (is_some p) ≡ false)
    → ((x : Column) → p ≡ some x → not (is_some c) ≡ false)
    → ((x : Column) → c ≡ some x → types_differ c p ≡ false)
    → types_of p ≡ types_of c
agree→eq none none a r t = refl
agree→eq none (some c) a r t = cc (a c refl)
agree→eq (some p) none a r t = cc (r p refl)
agree→eq (some p) (some c) a r t = (same_types c p).0 (t c refl)

eq→agree :
    (p c : Option Column)
    → types_of p ≡ types_of c
    → ((x : Column) → c ≡ some x → not (is_some p) ≡ false)
      × ((x : Column) → p ≡ some x → not (is_some c) ≡ false)
      × ((x : Column) → c ≡ some x → types_differ c p ≡ false)
eq→agree none none e = (λ x h. cc, λ x h. cc, λ x h. cc)
eq→agree none (some c) e = cc
eq→agree (some p) none e = cc
eq→agree (some p) (some c) e = (λ x h. refl, λ x h. refl, λ x h. (same_types c p).1 e)

-- No drift is reported between two schemas exactly when each name has the same source type and
-- pandas type in both, or is in neither (the last column of a name counts).
pub compare_schemas-no_drift :
    (previous current : List Column)
    → (has_drift (compare_schemas (some previous) current) ≡ false) ↔ (
        (n : String)
        → types_of (Dict.lookup n (column_map previous))
          ≡ types_of (Dict.lookup n (column_map current)))
unfolding compare_schemas
compare_schemas-no_drift previous current =
    let prev = column_map previous in
    let cur = column_map current in
    let added = λ (n : String). not (has prev n) in
    let removed = λ (n : String). not (has cur n) in
    let changed = λ (n : String). types_differ (Dict.lookup n cur) (Dict.lookup n prev) in
    (
      λ h n.
          let (a, r, t) = (or3 _ _ _).0 h in
          agree→eq (Dict.lookup n prev) (Dict.lookup n cur)
            (λ x e. (All-keys added cur).0 ((nonempty-filter added (keys cur)).0 a) n x e)
            (λ x e. (All-keys removed prev).0 ((nonempty-filter removed (keys prev)).0 r) n x e)
            (λ x e. (All-keys changed cur).0 ((nonempty-filter changed (keys cur)).0 t) n x e),
      λ h. (or3 _ _ _).1 (
        (nonempty-filter added (keys cur)).1
            ((All-keys added cur).1 (λ n x e. (eq→agree _ _ (h n)).0 x e)),
        (nonempty-filter removed (keys prev)).1
            ((All-keys removed prev).1 (λ n x e. (eq→agree _ _ (h n)).1 x e)),
        (nonempty-filter changed (keys cur)).1
            ((All-keys changed cur).1 (λ n x e. (eq→agree _ _ (h n)).2 x e)),
      ),
    )
