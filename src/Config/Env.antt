-- ===== src/Config/Env.antt =====
-- core/config.py: `substitute_env`. The matches of `\$\{([A-Z_][A-Z0-9_]*)\}` are found by one pass
-- over the text; a run of characters that turns out to be no reference is kept as it stands.
pub mod Rendered
pub mod Sorted
use Prim.Native.Char.{code}
use Prim.Native.Nat.{Ordering}
use Prim.Native.String.{compare}
use r64_db_engine.Base.{
  ℕ, String, ◌<>◌, ◌≡◌, Bool, true, false, ◌&&◌, ◌||◌, Option, none, some, List, [], ◌∷◌, is_digit,
  leb, if◌then◌else◌, ◌==◌, nat_eq,
}
use r64_db_engine.Base.Results.{Result, ok, err}

-- A part of the text: kept, or a reference to a variable.
pub data Piece : Type 0 where
  literal : String → Piece
  variable : String → Piece

-- What has been read: nothing, "$", "${", or "${" and the beginning of a name.
pub data ScanMode : Type 0 where
  plain dollar brace : ScanMode
  name : String → ScanMode

abbrev pub is_name_start : ℕ → Bool
is_name_start c = (leb b'A' c && leb c b'Z') || c == b'_'

abbrev pub is_name_part : ℕ → Bool
is_name_part c = is_name_start c || is_digit c

unfoldable pub pieces : ScanMode → String → List Piece
pieces plain String.[] = []
pieces plain (String.◌∷◌ c s) =
    let reference = pieces dollar s in
    let kept = literal (String.◌∷◌ c String.[]) ∷ pieces plain s in
    if code c == b'$' then reference else kept
pieces dollar String.[] = literal "$" ∷ []
pieces dollar (String.◌∷◌ c s) =
    let opened = pieces brace s in
    let again = literal "$" ∷ pieces dollar s in
    let kept = literal "$" ∷ literal (String.◌∷◌ c String.[]) ∷ pieces plain s in
    if code c == b'{' then opened else if code c == b'$' then again else kept
pieces brace String.[] = literal "${" ∷ []
pieces brace (String.◌∷◌ c s) =
    let named = pieces (name (String.◌∷◌ c String.[])) s in
    let again = literal "${" ∷ pieces dollar s in
    let kept = literal "${" ∷ literal (String.◌∷◌ c String.[]) ∷ pieces plain s in
    if is_name_start (code c) then named else if code c == b'$' then again else kept
pieces (name n) String.[] = literal "${" ∷ literal n ∷ []
pieces (name n) (String.◌∷◌ c s) =
    let named = pieces (name (n <> String.◌∷◌ c String.[])) s in
    let closed = variable n ∷ pieces plain s in
    let again = literal "${" ∷ literal n ∷ pieces dollar s in
    let kept = literal "${" ∷ literal n ∷ literal (String.◌∷◌ c String.[]) ∷ pieces plain s in
    if is_name_part (code c)
    then named
    else if code c == b'}'
    then closed
    else if code c == b'$'
    then again
    else kept

abbrev pub value_or_empty : Option String → String
value_or_empty none = ""
value_or_empty (some v) = v

-- The result of `_ENV_PATTERN.sub(repl, text)`: a missing variable gives "".
unfoldable pub expand : (String → Option String) → List Piece → String
expand env [] = ""
expand env (literal s ∷ ps) = s <> expand env ps
expand env (variable n ∷ ps) = value_or_empty (env n) <> expand env ps

abbrev pub add_missing : Option String → String → List String → List String
add_missing none n ns = n ∷ ns
add_missing (some _) n ns = ns

-- The names that `repl` appends to `missing`.
unfoldable pub missing : (String → Option String) → List Piece → List String
missing env [] = []
missing env (literal s ∷ ps) = missing env ps
missing env (variable n ∷ ps) = add_missing (env n) n (missing env ps)

unfoldable pub insert_sorted : String → List String → List String
insert_sorted a [] = a ∷ []
insert_sorted a (b ∷ bs) =
    let rest = insert_sorted a bs in
    elim (compare a b) [ Ordering.lt ↦ a ∷ b ∷ bs | Ordering.eq ↦ b ∷ bs | Ordering.gt ↦ b ∷ rest ]

-- `sorted(set(names))`
unfoldable pub sorted_set : List String → List String
unfolding insert_sorted
sorted_set [] = []
sorted_set (a ∷ as') = insert_sorted a (sorted_set as')

abbrev pub outcome : String → List String → Result (List String) String
outcome text [] = ok text
outcome text (n ∷ ns) = err (sorted_set (n ∷ ns))

-- The error is the list of names in the message.
unfoldable pub substitute_env : String → (String → Option String) → Result (List String) String
unfolding pieces expand missing
substitute_env text env = let ps = pieces plain text in outcome (expand env ps) (missing env ps)
