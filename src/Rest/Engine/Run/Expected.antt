-- ===== src/Rest/Engine/Run/Expected.antt =====
-- drivers/rest/engine.py: the errors of `run_book` over a book that the loader accepted.
use mathlib.Core.Path.{subst}
use mathlib.Core.Option.{some-injective}
use r64_db_engine.Base.{
  ℕ, zero, suc, String, ◌≡◌, refl, sym, ap, ◌∙◌, inl, inr, Bool, true, false, not, Option, none,
  some, List, [], ◌∷◌, ◌++◌, filter, contains, All, ◌==◌, string_eq, Bool-cases, arith,
}
use r64_db_engine.Base.Results.{
  Result, ok, err, ◌>>=◌, >>=-eq-ok, >>=-eq-err, ok-injective, err-injective,
}
use r64_db_engine.Base.Dict
use r64_db_engine.Base.Dict.{Dict, keys}
use r64_db_engine.Base.Json.{Json, null, Fields, end, field, field_names}
use r64_db_engine.Rest.{RestError, security, execution, validation, invariant, foreign}
use r64_db_engine.Rest.Recipes.{Recipe, RecipeBook, ThreadStep, declared_params}
use r64_db_engine.Rest.Recipes.Paginated.{HasParams}
use r64_db_engine.Rest.Recipes.Pinned.{IsLoadedRecipe}
use r64_db_engine.Rest.Recipes.Named.{AllRecipes}
use r64_db_engine.Rest.Recipes.Ordered.{IsOrdered}
use r64_db_engine.Rest.Recipes.Loaded.{IsLoaded}
use r64_db_engine.Rest.Security.{Urls}
use r64_db_engine.Rest.Engine.{put}
use r64_db_engine.Rest.Engine.Sound.{sound, IsSound}
use r64_db_engine.Rest.Engine.Request.{Request, World, prepare}
use r64_db_engine.Rest.Engine.Run.{
  scrub_boundary, Next, exhausted, turn, Run, after_page, after_prepare, given, run_pages,
  run_recipe, recipe_of, bind_one, bind_params, bound_value, run_steps, run_book,
}
use r64_db_engine.Rest.Engine.Run.Page.{prepare-IsSound, read_page-IsSound}

-- The package's own errors, less `EngineInvariantError` and the refusal of undeclared inputs.
abbrev pub expected : RestError → Bool
expected (foreign _) = false
expected e = sound e

abbrev pub IsExpected {ℓ} : {A : Type ℓ} → Result RestError A → Type ℓ
IsExpected m = (e : RestError) → m ≡ err e → expected e ≡ true

scrubbed {ℓ} :
    {A : Type ℓ} (n : ℕ) (m : Result RestError A) → IsSound m → IsExpected (scrub_boundary n m)
scrubbed n (ok a) s e h = cc
scrubbed n (err (security r)) s e h = ap expected (sym (err-injective _ _ h)) ∙ s (security r) refl
scrubbed n (err (execution f)) s e h = ap expected (sym (err-injective _ _ h))
scrubbed n (err (validation m)) s e h = ap expected (sym (err-injective _ _ h))
scrubbed n (err (invariant t)) s e h =
    ap expected (sym (err-injective _ _ h)) ∙ s (invariant t) refl
scrubbed n (err (foreign t)) s e h = ap expected (sym (err-injective _ _ h))

after_page-IsExpected :
    (rows : List Fields) (first : Json) (again : String → Fields → List Fields → Json → Run)
    (r : Result RestError (Json × List Fields × Next))
    → ((url : String) (params : Fields) (more : List Fields) (got : Json)
        → IsExpected (again url params more got).outcome)
    → IsExpected r
    → IsExpected (after_page rows first again r).outcome
after_page-IsExpected rows first again (err d) next read =
    λ e h. read e (ap (λ (x : RestError). err x) (err-injective _ _ h))
after_page-IsExpected rows first again (ok (payload, got, exhausted)) next read = λ e h. cc
after_page-IsExpected rows first again (ok (payload, got, turn url params)) next read =
    next url params _ _

after_prepare-IsExpected :
    (n : ℕ) (r : Result RestError (List String × Request)) (after : List String × Request → Run)
    → IsSound r
    → ((prepared : List String × Request) → IsExpected (after prepared).outcome)
    → IsExpected (after_prepare n r after).outcome
after_prepare-IsExpected n (err d) after s next =
    scrubbed {A = List Fields × Json} n (err d) (λ e h. s e (ap (λ x. err x) (err-injective _ _ h)))
after_prepare-IsExpected n (ok prepared) after s next = next prepared

module _ (world : World) (recipe : Recipe) (book : RecipeBook)
    (has : HasParams recipe.pagination) where
  run_pages-IsExpected :
      (left page : ℕ) (url : String) (params : Fields) (rows : List Fields) (first : Json)
      → IsExpected (run_pages world recipe book left page url params rows first).outcome
  unfolding run_pages
  run_pages-IsExpected zero page url params rows first =
      λ e h. ap expected (sym (err-injective _ _ h))
  run_pages-IsExpected (suc left) page url params rows first =
      after_prepare-IsExpected page (prepare world recipe url params page) _
        (prepare-IsSound world recipe url params page)
        (λ prepared.
          after_page-IsExpected rows first (run_pages world recipe book left (suc page)) _
            (λ next_url next_params more got.
              run_pages-IsExpected left (suc page) next_url next_params more got)
            (scrubbed page _ (read_page-IsSound world recipe book page url params prepared has)))

  run_recipe-IsExpected :
      (params : Fields)
      → filter (λ k. not (contains (declared_params recipe) k)) (field_names params) ≡ []
      → IsExpected (run_recipe world recipe book params).outcome
  unfolding run_recipe
  run_recipe-IsExpected params none_left =
      subst (λ ks. IsExpected (given world recipe book ks params).outcome) (sym none_left)
        (run_pages-IsExpected recipe.pagination.max_pages 1 recipe.url _ [] null)

-- Every name is declared.
declared_each :
    (declared ks : List String)
    → filter (λ k. not (contains declared k)) ks ≡ []
    → All (λ k. contains declared k ≡ true) ks
declared_each declared [] h = tt
declared_each declared (k ∷ ks) h = (ground arith, declared_each declared ks (ground arith))

none_left :
    (declared ks : List String)
    → All (λ k. contains declared k ≡ true) ks
    → filter (λ k. not (contains declared k)) ks ≡ []
none_left declared [] h = refl
none_left declared (k ∷ ks) h = rw h.0 (none_left declared ks h.1)

All-split {ℓ κ} :
    {A : Type ℓ} (P : A → Type κ) (xs ys : List A) → All P (xs ++ ys) → All P xs × All P ys
All-split P [] ys h = (tt, h)
All-split P (x ∷ xs) ys h = let (front, back) = All-split P xs ys h.1 in ((h.0, front), back)

field_names-put :
    (declared : List String) (k : String) (v : Json) (fs : Fields)
    → contains declared k ≡ true
    → All (λ j. contains declared j ≡ true) (field_names fs)
    → All (λ j. contains declared j ≡ true) (field_names (put k v fs))
unfolding put
field_names-put declared k v end h all = (h, tt)
field_names-put declared k v (field j w fs) h all = elim (Bool-cases (k == j)) [
  | inl e ↦ rw e (h, all.1)
  | inr e ↦ rw e (all.0, field_names-put declared k v fs h all.1)
]

bind_one-names :
    (declared : List String) (target expression : String) (v : Json) (params bound : Fields)
    → bind_one target expression v params ≡ ok bound
    → contains declared target ≡ true
    → All (λ j. contains declared j ≡ true) (field_names params)
    → All (λ j. contains declared j ≡ true) (field_names bound)
bind_one-names declared target expression null params bound h t all = cc
bind_one-names declared target expression v params bound h t all =
    subst (λ x. All (λ j. contains declared j ≡ true) (field_names x)) (ok-injective _ _ h)
      (field_names-put declared target v params t all)

bind_params-names :
    (declared : List String) (payloads : Dict String Json) (bind : Dict String String)
    (params bound : Fields)
    → bind_params payloads bind params ≡ ok bound
    → All (λ j. contains declared j ≡ true) (keys bind)
    → All (λ j. contains declared j ≡ true) (field_names params)
    → All (λ j. contains declared j ≡ true) (field_names bound)
unfolding bind_params
bind_params-names declared payloads [] params bound h t all =
    subst (λ x. All (λ j. contains declared j ≡ true) (field_names x)) (ok-injective _ _ h) all
bind_params-names declared payloads ((target, expression) ∷ bind) params bound h t all =
    let (next, first, rest) =
      >>=-eq-ok (bind_one target expression (bound_value payloads expression) params) _ h in
    bind_params-names declared payloads bind next bound rest t.1 (
      bind_one-names declared target expression (bound_value payloads expression) params next first
        t.0 all)

>>=-IsExpected {ℓ κ} :
    {A : Type ℓ} {B : Type κ} (m : Result RestError A) (f : A → Result RestError B)
    → IsExpected m
    → ((a : A) → m ≡ ok a → IsExpected (f a))
    → IsExpected (m >>= f)
>>=-IsExpected m f first next e h = elim (>>=-eq-err m f h) [
  | inl raised ↦ first e raised
  | inr (a, got, later) ↦ next a got e later
]

bind_one-IsExpected :
    (target expression : String) (v : Json) (params : Fields)
    → IsExpected (bind_one target expression v params)
bind_one-IsExpected target expression null params e h = ap expected (sym (err-injective _ _ h))
bind_one-IsExpected target expression v params e h = cc

bind_params-IsExpected :
    (payloads : Dict String Json) (bind : Dict String String) (params : Fields)
    → IsExpected (bind_params payloads bind params)
unfolding bind_params
bind_params-IsExpected payloads [] params = λ e h. cc
bind_params-IsExpected payloads ((target, expression) ∷ bind) params =
    >>=-IsExpected (bind_one target expression (bound_value payloads expression) params) _
      (bind_one-IsExpected target expression (bound_value payloads expression) params)
      (λ bound _. bind_params-IsExpected payloads bind bound)

lookup-IsLoadedRecipe :
    (urls : Urls) (name : String) (recipes : Dict String Recipe) (recipe : Recipe)
    → AllRecipes urls recipes
    → Dict.lookup name recipes ≡ some recipe
    → IsLoadedRecipe urls recipe
unfolding Dict.lookup
lookup-IsLoadedRecipe urls name [] recipe all h = cc
lookup-IsLoadedRecipe urls name ((j, r) ∷ recipes) recipe all h = elim (Bool-cases (name == j)) [
  | inl e ↦ subst (IsLoadedRecipe urls) (some-injective r recipe (rw e at h)) all.0
  | inr e ↦ lookup-IsLoadedRecipe urls name recipes recipe all.1 (rw e at h)
]

found_recipe : (o : Option Recipe) (r : Recipe) → recipe_of o ≡ ok r → o ≡ some r
found_recipe none r h = cc
found_recipe (some q) r h = ap (λ (x : Recipe). some x) (ok-injective _ _ h)

module _ (urls : Urls) (worlds : ℕ → World) (book : RecipeBook)
    (all : AllRecipes urls book.recipes) where
  run_steps-IsExpected :
      (i : ℕ) (seen : List String) (steps : List ThreadStep) (payloads : Dict String Json)
      (rows : List Fields)
      → IsOrdered book.recipes seen steps
      → IsExpected (run_steps worlds book i steps payloads rows)
  unfolding run_steps
  run_steps-IsExpected i seen [] payloads rows ordered = λ e h. cc
  run_steps-IsExpected i seen (step ∷ steps) payloads rows (ready, ordered) =
      >>=-IsExpected (recipe_of (Dict.lookup step.recipe book.recipes)) _
        (λ e h. let there = ap recipe_of ready.found in cc)
        (λ recipe got.
          let found = found_recipe (Dict.lookup step.recipe book.recipes) recipe got in
          let loaded = lookup-IsLoadedRecipe urls step.recipe book.recipes recipe all found in
          let same : ready.recipe ≡ recipe =
            some-injective ready.recipe recipe (sym ready.found ∙ found) in
          let (bound, given_params) =
            All-split (λ k. contains (declared_params recipe) k ≡ true) (keys step.bind)
              (field_names step.params)
              (declared_each (declared_params recipe) _ (
                subst
                  (λ r.
                    filter (λ k. not (contains (declared_params r) k))
                      (keys step.bind ++ field_names step.params)
                    ≡ [])
                  same ready.declared)) in
          >>=-IsExpected (bind_params payloads step.bind step.params) _
            (bind_params-IsExpected payloads step.bind step.params)
            (λ params made.
              >>=-IsExpected (run_recipe (worlds i) recipe book params).outcome _
                (run_recipe-IsExpected (worlds i) recipe book loaded.followed params (
                  none_left (declared_params recipe) (field_names params) (
                    bind_params-names (declared_params recipe) payloads step.bind step.params params
                      made bound given_params)))
                (λ result _.
                  run_steps-IsExpected (suc i) (step.recipe ∷ seen) steps _ result.0 ordered)))

-- Over a book that the loader accepted, `run_book`, when it raises, raises the package's own errors only, whatever the
-- world answers: never an `EngineInvariantError`, an undeclared input, a missing recipe or a foreign exception.
pub run_book-expected :
    (urls : Urls) (worlds : ℕ → World) (book : RecipeBook) (e : RestError)
    → IsLoaded urls book
    → run_book worlds book ≡ err e
    → expected e ≡ true
unfolding run_book
run_book-expected urls worlds book e loaded =
    run_steps-IsExpected urls worlds book loaded.recipes 0 [] book.threading [] [] loaded.ordered e
