-- ===== src/Config/Env/Rendered.antt =====
-- core/config.py: `substitute_env` on a text that is rendered from literals and references.
use Prim.Native.Char.{code}
use Prim.Native.String.append
use r64_db_engine.Base.{
  ℕ, String, ◌<>◌, ◌≡◌, refl, sym, ap, ◌∙◌, Bool, true, false, not, ◌&&◌, Option, some, List, [],
  ◌∷◌, contains, is_none, string_eq, inl, inr, Bool-cases, Option-cases, eq_of_==, ==-refl, ◌==◌,
  nat_eq, arith, append_text_assoc, append_text_nil,
}
use r64_db_engine.Base.Results.{Result, ok, err}
use r64_db_engine.Config.Env.Sorted.{IsAscending, sorted_set-IsAscending, contains-sorted_set}
use r64_db_engine.Config.Env.{
  sorted_set, Piece, literal, variable, plain, name, is_name_start, is_name_part, pieces,
  value_or_empty, expand, missing, add_missing, outcome, substitute_env,
}

abbrev all_codes : (ℕ → Bool) → String → Bool
all_codes p String.[] = true
all_codes p (String.◌∷◌ c s) = p (code c) && all_codes p s

-- `[A-Z_][A-Z0-9_]*`
abbrev pub is_name : String → Bool
is_name String.[] = false
is_name (String.◌∷◌ c s) = is_name_start (code c) && all_codes is_name_part s

-- A text without "$".
abbrev pub is_literal : String → Bool
is_literal s = all_codes (λ c. not (c == b'$')) s

abbrev pub render : List Piece → String
render [] = ""
render (literal s ∷ ps) = s <> render ps
render (variable n ∷ ps) = "$" <> ("{" <> (n <> ("}" <> render ps)))

abbrev pub IsTemplate : List Piece → Type 0
IsTemplate [] = Unit
IsTemplate (literal s ∷ ps) = (is_literal s ≡ true) × IsTemplate ps
IsTemplate (variable n ∷ ps) = (is_name n ≡ true) × IsTemplate ps

pieces-name :
    (n s t : String)
    → all_codes is_name_part s ≡ true
    → pieces (name n) (s <> ("}" <> t)) ≡ variable (n <> s) ∷ pieces plain t
unfolding pieces
pieces-name n String.[] t h =
    rw (append_text_nil n, append.nil ("}" <> t), append.cons "}" "" t, append.nil t)
      (unfold nat_eq in refl)
pieces-name n (String.◌∷◌ c s) t h = rw (append.cons c s ("}" <> t)) (
    let part : is_name_part (code c) ≡ true = ground arith in
    rw part (
      pieces-name (n <> String.◌∷◌ c String.[]) s t (ground arith)
      ∙ ap (λ (x : String). variable x ∷ pieces plain t)
          (append_text_assoc n (String.◌∷◌ c String.[]) s
            ∙ ap (λ (x : String). n <> x)
                (append.cons c "" s ∙ ap (λ (x : String). String.◌∷◌ c x) (append.nil s)))))

-- A reference is found, and the scan goes on behind it.
pieces-reference :
    (n t : String)
    → is_name n ≡ true
    → pieces plain ("$" <> ("{" <> (n <> ("}" <> t)))) ≡ variable n ∷ pieces plain t
unfolding pieces
pieces-reference String.[] t h = cc
pieces-reference (String.◌∷◌ c s) t h =
    rw
      (
        append.cons "$" "" ("{" <> (String.◌∷◌ c s <> ("}" <> t))),
        append.nil ("{" <> (String.◌∷◌ c s <> ("}" <> t))),
        append.cons "{" "" (String.◌∷◌ c s <> ("}" <> t)),
        append.nil (String.◌∷◌ c s <> ("}" <> t)),
        append.cons c s ("}" <> t),
      )
      (unfold nat_eq in
        let start : is_name_start (code c) ≡ true = ground arith in
        rw start (
          pieces-name (String.◌∷◌ c String.[]) s t (ground arith)
          ∙ ap (λ (x : String). variable x ∷ pieces plain t)
              (append.cons c "" s ∙ ap (λ (x : String). String.◌∷◌ c x) (append.nil s))))

module _ (env : String → Option String) where
  expand-literal :
      (s t : String)
      → is_literal s ≡ true
      → (expand env (pieces plain (s <> t)) ≡ s <> expand env (pieces plain t))
        × (missing env (pieces plain (s <> t)) ≡ missing env (pieces plain t))
  unfolding pieces expand missing
  expand-literal String.[] t h =
      rw (append.nil t, append.nil (expand env (pieces plain t))) (refl, refl)
  expand-literal (String.◌∷◌ c s) t h =
      let other : (code c == b'$') ≡ false = ground arith in
      let (e, m) = expand-literal s t (ground arith) in
      rw (append.cons c s t, other)
        (
          rw e (
              append.cons c "" _
              ∙ ap (λ (x : String). String.◌∷◌ c x) (append.nil _)
              ∙ sym (append.cons c s _)),
          m,
        )

  expand-render :
      (ps : List Piece)
      → IsTemplate ps
      → (expand env (pieces plain (render ps)) ≡ expand env ps)
        × (missing env (pieces plain (render ps)) ≡ missing env ps)
  unfolding expand missing
  expand-render [] h = unfold pieces in (refl, refl)
  expand-render (literal s ∷ ps) h =
      let (e, m) = expand-literal s (render ps) h.0 in
      let (e', m') = expand-render ps h.1 in (e ∙ ap (λ (x : String). s <> x) e', m ∙ m')
  expand-render (variable n ∷ ps) h =
      let (e', m') = expand-render ps h.1 in
      rw (pieces-reference n (render ps) h.0)
        (ap (λ (x : String). value_or_empty (env n) <> x) e', ap (add_missing (env n) n) m')

-- The text of a template all of whose variables are set: each stands with its value.
pub data IsReplaced (env : String → Option String) : List Piece → String → Type 0 where
  done : IsReplaced env [] ""
  keep :
      (s : String) {ps : List Piece} {t : String}
      → IsReplaced env ps t
      → IsReplaced env (literal s ∷ ps) (s <> t)
  fill :
      (n v : String) {ps : List Piece} {t : String}
      → env n ≡ some v
      → IsReplaced env ps t
      → IsReplaced env (variable n ∷ ps) (v <> t)

-- The names that a template refers to.
abbrev pub references : List Piece → List String
references [] = []
references (literal s ∷ ps) = references ps
references (variable n ∷ ps) = n ∷ references ps

-- What becomes of a template: its text, or the names that are not set, in order and each once.
abbrev pub IsSubstituted :
    (String → Option String) → List Piece → Result (List String) String → Type 0
IsSubstituted env ps (ok text) = IsReplaced env ps text
IsSubstituted env ps (err []) = ⊥
IsSubstituted env ps (err (m ∷ names)) =
    IsAscending (m ∷ names)
    × ((n : String) → contains (m ∷ names) n ≡ (contains (references ps) n && is_none (env n)))

module _ (env : String → Option String) where
  expand-IsReplaced : (ps : List Piece) → missing env ps ≡ [] → IsReplaced env ps (expand env ps)
  unfolding expand missing
  expand-IsReplaced [] h = IsReplaced.done
  expand-IsReplaced (literal s ∷ ps) h = IsReplaced.keep s (expand-IsReplaced ps h)
  expand-IsReplaced (variable n ∷ ps) h = elim (Option-cases (env n)) [
    | inl e ↦ let bad = rw e at h in cc
    | inr (v, e) ↦ rw (value_or_empty, e) (IsReplaced.fill n v e (expand-IsReplaced ps (rw e at h)))
  ]

  and_false : (b : Bool) → (b && false) ≡ false
  and_false true = refl
  and_false false = refl

  contains-missing :
      (n : String) (ps : List Piece)
      → contains (missing env ps) n ≡ (contains (references ps) n && is_none (env n))
  unfolding missing
  contains-missing n [] = refl
  contains-missing n (literal s ∷ ps) = contains-missing n ps
  contains-missing n (variable m ∷ ps) = elim (Bool-cases (n == m)) [
    | inl e ↦
        let same = eq_of_== n m e in
        elim (Option-cases (env m)) [
          | inl f ↦ rw (f, e, same, f) refl
          | inr (v, f) ↦
              rw (f, e, contains-missing n ps, same, f) (and_false (contains (references ps) m))
        ]
    | inr e ↦ elim (Option-cases (env m)) [
      | inl f ↦ rw (f, e) (contains-missing n ps)
      | inr (v, f) ↦ rw (f, e) (contains-missing n ps)
    ]
  ]

  outcome-IsSubstituted :
      (ps : List Piece) → IsSubstituted env ps (outcome (expand env ps) (missing env ps))
  outcome-IsSubstituted ps = at (missing env ps) refl
    where
      names_of :
          (found names : List String)
          → ((n : String) → contains names n ≡ contains found n)
          → IsAscending names
          → (m : String) → contains found m ≡ true
          → ((n : String) → contains found n ≡ (contains (references ps) n && is_none (env n)))
          → IsSubstituted env ps (err names)
      names_of found [] same ordered m there each = let bad = same m ∙ there in cc
      names_of found (a ∷ names) same ordered m there each = (ordered, λ n. same n ∙ each n)

      at :
          (found : List String)
          → missing env ps ≡ found
          → IsSubstituted env ps (outcome (expand env ps) found)
      at [] h = expand-IsReplaced ps h
      at (m ∷ found) h =
          names_of (m ∷ found) (sorted_set (m ∷ found)) (λ n. contains-sorted_set n (m ∷ found))
            (sorted_set-IsAscending (m ∷ found)) m (rw (==-refl m) refl)
            (λ n. ap (λ (xs : List String). contains xs n) (sym h) ∙ contains-missing n ps)

-- Of a text that is rendered from literals without "$" and references with valid names, the result
-- is the text in which each reference is the variable's value, as it stands and not scanned again,
-- if every variable is set, and otherwise the error with exactly the names that the text refers to
-- and that are not set, in ascending order and each once.
pub substitute_env-render :
    (ps : List Piece) (env : String → Option String)
    → IsTemplate ps
    → IsSubstituted env ps (substitute_env (render ps) env)
unfolding substitute_env
substitute_env-render ps env h =
    let (e, m) = expand-render env ps h in rw (e, m) (outcome-IsSubstituted env ps)
