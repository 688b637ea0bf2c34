-- ===== src/Rest/Recipes/Named.antt =====
-- drivers/rest/recipes.py: the recipes by their names.
use mathlib.Core.Path.{subst}
use r64_db_engine.Base.{
  String, ◌≡◌, refl, Bool, true, false, not, ◌||◌, List, [], ◌∷◌, ◌++◌, contains, All, All-append,
  ◌==◌, string_eq, arith,
}
use r64_db_engine.Base.Results.{ok, guard, >>-eq-ok, guard-eq-ok, ok-injective}
use r64_db_engine.Base.Dict.{Dict, keys}
use r64_db_engine.Rest.Recipes.{Recipe}
use r64_db_engine.Rest.Recipes.Parse.{duplicate}
use r64_db_engine.Rest.Recipes.Book.{by_name}
use r64_db_engine.Rest.Security.{Urls}
use r64_db_engine.Rest.Recipes.Pinned.{IsLoadedRecipe, negated}

-- No name stands twice, and a recipe stands under its name.
abbrev pub HasDistinctNames : Dict String Recipe → Type 0
HasDistinctNames [] = Unit
HasDistinctNames ((name, r) ∷ d) =
    (contains (keys d) name ≡ false) × (name ≡ r.name) × HasDistinctNames d

neither : (a b : Bool) → (a || b) ≡ false → (a ≡ false) × (b ≡ false)
neither false b h = (refl, h)
neither true b h = cc

contains-snoc :
    (d : Dict String Recipe) (r : Recipe) (name : String)
    → contains (keys d) name ≡ false
    → (r.name == name) ≡ false
    → contains (keys (d ++ (r.name, r) ∷ [])) name ≡ false
contains-snoc [] r name h k = ground arith
contains-snoc ((j, q) ∷ d) r name h k = ground (arith, contains-snoc d r name)

HasDistinctNames-snoc :
    (d : Dict String Recipe) (r : Recipe)
    → HasDistinctNames d
    → contains (keys d) r.name ≡ false
    → HasDistinctNames (d ++ (r.name, r) ∷ [])
HasDistinctNames-snoc [] r h k = (refl, refl, tt)
HasDistinctNames-snoc ((j, q) ∷ d) r h k =
    let (differ, absent) = neither (r.name == j) (contains (keys d) r.name) k in
    (contains-snoc d r j h.0 differ, h.1, HasDistinctNames-snoc d r h.2 absent)

-- The names of the recipes with a property of each.
abbrev pub AllRecipes : Urls → Dict String Recipe → Type 0
AllRecipes urls d = All (λ e. IsLoadedRecipe urls e.1) d

pub by_name-distinct :
    (urls : Urls) (known : Dict String Recipe) (rs : List Recipe) (d : Dict String Recipe)
    → by_name known rs ≡ ok d
    → HasDistinctNames known
    → AllRecipes urls known
    → All (IsLoadedRecipe urls) rs
    → HasDistinctNames d × AllRecipes urls d
unfolding by_name
by_name-distinct urls known [] d h distinct loaded rest =
    subst (λ x. HasDistinctNames x × AllRecipes urls x) (ok-injective _ _ h) (distinct, loaded)
by_name-distinct urls known (r ∷ rs) d h distinct loaded rest =
    let (fresh, h1) =
      >>-eq-ok (guard (not (contains (keys known) r.name)) (duplicate r.name)) _ h in
    by_name-distinct urls (known ++ (r.name, r) ∷ []) rs d h1
      (HasDistinctNames-snoc known r distinct (negated _ (guard-eq-ok _ _ fresh)))
      (All-append (λ e. IsLoadedRecipe urls e.1) known ((r.name, r) ∷ []) loaded (rest.0, tt))
      rest.1
