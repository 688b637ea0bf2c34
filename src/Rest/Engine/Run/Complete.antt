-- ===== src/Rest/Engine/Run/Complete.antt =====
-- drivers/rest/engine.py: a recipe that returns has read every page of the provider's sequence.
use r64_db_engine.Base.{
  ℕ, zero, suc, String, ◌≡◌, refl, sym, ap, ◌∙◌, not, List, [], ◌∷◌, ◌++◌, append_assoc, filter,
  contains, string_eq,
}
use mathlib.Core.Path.{subst}
use r64_db_engine.Base.Results.{Result, ok, err, ok-injective}
use r64_db_engine.Base.Json.{Json, null, Fields, field_names}
use r64_db_engine.Rest.{RestError}
use r64_db_engine.Rest.Recipes.{Recipe, RecipeBook, declared_params}
use r64_db_engine.Rest.Engine.{merge}
use r64_db_engine.Rest.Engine.Request.{Request, World, prepare}
use r64_db_engine.Rest.Engine.Run.{
  Next, exhausted, turn, first_of, read_page, Run, after_page, after_prepare, given, run_pages,
  run_recipe,
}
use r64_db_engine.Rest.Engine.Run.Sent.{unscrubbed}

module _ (world : World) (recipe : Recipe) (book : RecipeBook) where
  -- The records of the pages from one on, up to the page at which the provider signals the end.
  pub data Pages : ℕ → String → Fields → List Fields → Type 0 where
    last :
        {page : ℕ} {url : String} {params : Fields} {prepared : List String × Request}
        {payload : Json} {rows : List Fields}
        → prepare world recipe url params page ≡ ok prepared
        → read_page world recipe book page url params prepared ≡ ok (payload, rows, exhausted)
        → Pages page url params rows
    more :
        {page : ℕ} {url next_url : String} {params next_params : Fields}
        {prepared : List String × Request} {payload : Json} {rows rest : List Fields}
        → prepare world recipe url params page ≡ ok prepared
        → read_page world recipe book page url params prepared
          ≡ ok (payload, rows, turn next_url next_params)
        → Pages (suc page) next_url next_params rest
        → Pages page url params (rows ++ rest)

  -- The records that stand behind those read before.
  abbrev Continues : ℕ → String → Fields → List Fields → List Fields → Type 0
  Continues page url params before records =
      (rest : List Fields) × (records ≡ before ++ rest) × Pages page url params rest

  after_page-Continues :
      (page : ℕ) (url : String) (params : Fields) (before : List Fields) (first : Json)
      (again : String → Fields → List Fields → Json → Run) (prepared : List String × Request)
      (r : Result RestError (Json × List Fields × Next)) (records : List Fields) (payload : Json)
      → prepare world recipe url params page ≡ ok prepared
      → ((a : Json × List Fields × Next)
          → r ≡ ok a
          → read_page world recipe book page url params prepared ≡ ok a)
      → ((next_url : String) (next_params : Fields) (so_far : List Fields) (got : Json)
          → (again next_url next_params so_far got).outcome ≡ ok (records, payload)
          → Continues (suc page) next_url next_params so_far records)
      → (after_page before first again r).outcome ≡ ok (records, payload)
      → Continues page url params before records
  after_page-Continues page url params before first again prepared (err e) records payload ready
        read next h =
      cc
  after_page-Continues page url params before first again prepared (ok (p, rows, exhausted)) records
        payload ready read next h =
      (
        rows,
        sym (ap (λ (x : List Fields × Json). x.0) (ok-injective _ _ h)),
        Pages.last ready (read _ refl),
      )
  after_page-Continues page url params before first again prepared (ok (p, rows, turn u q)) records
        payload ready read next h =
      let (rest, same, pages) = next u q (before ++ rows) (first_of first p) h in
      (rows ++ rest, same ∙ append_assoc before rows rest, Pages.more ready (read _ refl) pages)

  after_prepare-Continues :
      (page : ℕ) (url : String) (params : Fields) (before records : List Fields) (payload : Json)
      (r : Result RestError (List String × Request)) (after : List String × Request → Run)
      → ((prepared : List String × Request)
          → r ≡ ok prepared
          → (after prepared).outcome ≡ ok (records, payload)
          → Continues page url params before records)
      → (after_prepare page r after).outcome ≡ ok (records, payload)
      → Continues page url params before records
  after_prepare-Continues page url params before records payload (err e) after next h =
      let impossible = unscrubbed page (err e) (records, payload) h in cc
  after_prepare-Continues page url params before records payload (ok prepared) after next h =
      next prepared refl h

  run_pages-Continues :
      (left page : ℕ) (url : String) (params : Fields) (before records : List Fields)
      (first payload : Json)
      → (run_pages world recipe book left page url params before first).outcome
        ≡ ok (records, payload)
      → Continues page url params before records
  unfolding run_pages
  run_pages-Continues zero page url params before records first payload h = cc
  run_pages-Continues (suc left) page url params before records first payload h =
      after_prepare-Continues page url params before records payload
        (prepare world recipe url params page) _
        (λ prepared ready.
          after_page-Continues page url params before first
            (run_pages world recipe book left (suc page)) prepared _ records payload ready
            (λ a. unscrubbed page _ a)
            (λ u q so_far got. run_pages-Continues left (suc page) u q so_far records got payload))
        h

  -- The records that a recipe returns are those of every page from the first one to the page at which
  -- the provider signalled the end, in order: a pull that returns is never cut short.
  pub run_recipe_complete :
      (params : Fields) (records : List Fields) (payload : Json)
      → (run_recipe world recipe book params).outcome ≡ ok (records, payload)
      → Pages 1 recipe.url (merge recipe.static_params params) records
  unfolding run_recipe
  run_recipe_complete params records payload =
      complete (filter (λ k. not (contains (declared_params recipe) k)) (field_names params))
    where
      complete :
          (ks : List String)
          → (given world recipe book ks params).outcome ≡ ok (records, payload)
          → Pages 1 recipe.url (merge recipe.static_params params) records
      complete [] h =
          let (rest, same, pages) =
            run_pages-Continues recipe.pagination.max_pages 1 recipe.url _ [] records null payload
              h in
          subst (Pages 1 recipe.url (merge recipe.static_params params)) (sym same) pages
      complete (k ∷ ks) h = cc
