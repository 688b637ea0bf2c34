-- ===== src/Config/Env/Sorted.antt =====
-- core/config.py, drivers/__init__.py, drivers/rest/security.py: `sorted(set(…))` of texts.
use Prim.Native.Nat.{Ordering, compare as compare_ℕ}
use Prim.Native.Char.{code}
use Prim.Native.String.{compare, then as then_compare}
use Prim.Native.String.compare as clauses
use text.Mathlib.TextEquality.{path_by_compare}
use mathlib.Core.Path.{subst}
use r64_db_engine.Base.{
  All, or-split, or_right, eq_of_==, ==-refl, sym, is_some, ◌⊎◌, inl, inr, ap, ◌++◌, Bool-cases, ℕ,
  String, ◌≡◌, refl, ◌∙◌, Bool, true, false, ◌||◌, ◌==◌, List, [], ◌∷◌, contains, string_eq, arith,
}
use r64_db_engine.Base.Dict.{Dict, keys, lookup}
use r64_db_engine.Config.Env.{sorted_set, insert_sorted}

-- Each name before the next one, by code points; so no name stands twice.
abbrev pub IsAscending : List String → Type 0
IsAscending [] = Unit
IsAscending (a ∷ []) = Unit
IsAscending (a ∷ b ∷ names) = (compare a b ≡ Ordering.lt) × IsAscending (b ∷ names)

flip_then :
    (a a' b b' : Ordering)
    → (a ≡ Ordering.gt → a' ≡ Ordering.lt)
    → (a ≡ Ordering.eq → a' ≡ Ordering.eq)
    → (b ≡ Ordering.gt → b' ≡ Ordering.lt)
    → then_compare a b ≡ Ordering.gt
    → then_compare a' b' ≡ Ordering.lt
flip_then Ordering.lt a' b b' f g k h = cc
flip_then Ordering.eq a' b b' f g k h = rw (g refl) (k h)
flip_then Ordering.gt a' b b' f g k h = rw (f refl) refl

flip_gt : (m n : ℕ) → compare_ℕ m n ≡ Ordering.gt → compare_ℕ n m ≡ Ordering.lt
flip_gt m n h = ground arith

flip_eq : (m n : ℕ) → compare_ℕ m n ≡ Ordering.eq → compare_ℕ n m ≡ Ordering.eq
flip_eq m n h = ground arith

flip : (s t : String) → compare s t ≡ Ordering.gt → compare t s ≡ Ordering.lt
flip String.[] String.[] h = cc
flip String.[] (String.◌∷◌ d t) h = let bad = rw (clauses.nil-cons d t) at h in cc
flip (String.◌∷◌ c s) String.[] h = clauses.nil-cons c s
flip (String.◌∷◌ c s) (String.◌∷◌ d t) h = rw (clauses.cons-cons d c t s) (
    flip_then (compare_ℕ (code c) (code d)) _ (compare s t) _ (flip_gt (code c) (code d))
      (flip_eq (code c) (code d)) (flip s t) (rw (clauses.cons-cons c d s t) at h))

Ordering-cases : (o : Ordering) → (o ≡ Ordering.lt) ⊎ ((o ≡ Ordering.eq) ⊎ (o ≡ Ordering.gt))
Ordering-cases Ordering.lt = inl refl
Ordering-cases Ordering.eq = inr (inl refl)
Ordering-cases Ordering.gt = inr (inr refl)

-- Where a name goes, before the first of the names or behind it.
insert-lt :
    (a b : String) (names : List String)
    → compare a b ≡ Ordering.lt
    → insert_sorted a (b ∷ names) ≡ a ∷ b ∷ names
unfolding insert_sorted
insert-lt a b names e = rw (insert_sorted, e) refl

insert-eq :
    (a b : String) (names : List String)
    → compare a b ≡ Ordering.eq
    → insert_sorted a (b ∷ names) ≡ b ∷ names
unfolding insert_sorted
insert-eq a b names e = rw (insert_sorted, e) refl

insert-gt :
    (a b : String) (names : List String)
    → compare a b ≡ Ordering.gt
    → insert_sorted a (b ∷ names) ≡ b ∷ insert_sorted a names
unfolding insert_sorted
insert-gt a b names e = rw (insert_sorted, e) refl

insert_sorted-behind :
    (a b : String) (names : List String)
    → compare b a ≡ Ordering.lt
    → IsAscending (b ∷ names)
    → IsAscending (b ∷ insert_sorted a names)
unfolding insert_sorted
insert_sorted-behind a b [] below h = (below, tt)
insert_sorted-behind a b (c ∷ names) below h = elim (Ordering-cases (compare a c)) [
  | inl e ↦ rw (insert-lt a c names e) (below, (e, h.1))
  | inr (inl e) ↦ rw (insert-eq a c names e) h
  | inr (inr e) ↦ rw (insert-gt a c names e) (h.0, insert_sorted-behind a c names (flip a c e) h.1)
]

insert_sorted-IsAscending :
    (a : String) (names : List String) → IsAscending names → IsAscending (insert_sorted a names)
unfolding insert_sorted
insert_sorted-IsAscending a [] h = tt
insert_sorted-IsAscending a (b ∷ names) h = elim (Ordering-cases (compare a b)) [
  | inl e ↦ rw (insert-lt a b names e) (e, h)
  | inr (inl e) ↦ rw (insert-eq a b names e) h
  | inr (inr e) ↦ rw (insert-gt a b names e) (insert_sorted-behind a b names (flip a b e) h)
]

pub sorted_set-IsAscending : (names : List String) → IsAscending (sorted_set names)
unfolding sorted_set
sorted_set-IsAscending [] = tt
sorted_set-IsAscending (a ∷ names) =
    insert_sorted-IsAscending a (sorted_set names) (sorted_set-IsAscending names)

or_twice : (a b : Bool) → (a || b) ≡ (a || (a || b))
or_twice true b = refl
or_twice false b = refl

or_swap : (a b c : Bool) → (a || (b || c)) ≡ (b || (a || c))
or_swap true true c = refl
or_swap true false c = refl
or_swap false b c = refl

contains-insert_sorted :
    (x a : String) (names : List String)
    → contains (insert_sorted a names) x ≡ ((x == a) || contains names x)
unfolding insert_sorted
contains-insert_sorted x a [] = refl
contains-insert_sorted x a (b ∷ names) = elim (Ordering-cases (compare a b)) [
  | inl e ↦ rw (insert-lt a b names e) refl
  | inr (inl e) ↦
      rw (insert-eq a b names e, path_by_compare a b e) (or_twice (x == b) (contains names x))
  | inr (inr e) ↦
      rw (insert-gt a b names e, contains-insert_sorted x a names)
        (or_swap (x == b) (x == a) (contains names x))
]

pub contains-sorted_set :
    (x : String) (names : List String) → contains (sorted_set names) x ≡ contains names x
unfolding sorted_set
contains-sorted_set x [] = refl
contains-sorted_set x (a ∷ names) =
    contains-insert_sorted x a (sorted_set names)
    ∙ ap (λ r. (x == a) || r) (contains-sorted_set x names)

or_assoc : (a b c : Bool) → (a || (b || c)) ≡ ((a || b) || c)
or_assoc true b c = refl
or_assoc false b c = refl

pub contains-append :
    (x : String) (xs ys : List String) → contains (xs ++ ys) x ≡ (contains xs x || contains ys x)
contains-append x [] ys = refl
contains-append x (a ∷ xs) ys =
    ap (λ r. (x == a) || r) (contains-append x xs ys)
    ∙ or_assoc (x == a) (contains xs x) (contains ys x)

pub contains-keys :
    {V : Type 0} (x : String) (d : Dict String V) → contains (keys d) x ≡ is_some (lookup x d)
unfolding lookup
contains-keys x [] = refl
contains-keys x ((k, v) ∷ d) = elim (Bool-cases (x == k)) [
  | inl e ↦ rw e refl
  | inr e ↦ rw e (contains-keys x d)
]

-- What holds of every text of the sorted set holds of every one that was sorted.
pub All-of_sorted_set {ℓ} :
    (P : String → Type ℓ) (names : List String) → All P (sorted_set names) → All P names
All-of_sorted_set P names h =
    each names (λ x e. All-contains (sorted_set names) h x (contains-sorted_set x names ∙ e))
  where
    All-contains : (xs : List String) → All P xs → (x : String) → contains xs x ≡ true → P x
    All-contains [] a x e = cc
    All-contains (y ∷ xs) a x e = elim (or-split (x == y) (contains xs x) e) [
      | inl f ↦ subst P (sym (eq_of_== x y f)) a.0
      | inr f ↦ All-contains xs a.1 x f
    ]

    each : (xs : List String) → ((x : String) → contains xs x ≡ true → P x) → All P xs
    each [] k = tt
    each (y ∷ xs) k =
        (k y (rw (==-refl y) refl), each xs (λ x e. k x (or_right (x == y) (contains xs x) e)))
