-- ===== src/Drivers/Postgres/Conninfo.antt =====
-- drivers/postgres/driver.py: what libpq reads in the connection string of `connect`, whose values
-- stand without quotes.
use Prim.Native.Char.{code}
use Prim.Native.String.append
use r64_db_engine.Base.{
  ℕ, String, ◌<>◌, ◌≡◌, refl, ap, ◌∙◌, Bool, true, false, not, ◌&&◌, ◌||◌, ◌==◌, Option, none, some,
  List, [], ◌∷◌, ◌++◌, All, if◌then◌else◌, string_eq, nat_eq, is_space, is_empty, arith,
  append_text_assoc,
}
use r64_db_engine.Base.Json.{Json}
use r64_db_engine.Rest.Texts.{split_on, partition}
use r64_db_engine.Drivers.Postgres.Connect.{Connection, with_part, join_words, conninfo}

-- A later setting of a name counts, and else this one if it is of that name.
abbrev pub later_or : Option String → Bool → String → Option String
later_or (some w) same v = some w
later_or none same v = if same then some v else none

unfoldable pub setting : String → List String → Option String
setting name [] = none
setting name (part ∷ parts) =
    let (n, v) = partition b'=' part in later_or (setting name parts) (n == name) v

-- The value that a connection string gives to a name: `name=value`, set apart by blanks.
abbrev pub read_setting : String → String → Option String
read_setting name text = setting name (split_on b' ' text)

abbrev all_codes : (ℕ → Bool) → String → Bool
all_codes p String.[] = true
all_codes p (String.◌∷◌ c s) = p (code c) && all_codes p s

-- A value that libpq takes as it stands: not empty, without blanks, quotes and backslashes.
abbrev pub is_plain : String → Bool
is_plain v = not (is_empty v) && all_codes (λ c. not (is_space c || (c == 39 || c == b'\\'))) v

-- The values that stand in the connection string.
abbrev optional : Option Json → List Json
optional none = []
optional (some v) = v ∷ []

abbrev pub values : Connection → List Json
values c =
    c.host
    ∷ c.port
    ∷ c.dbname
    ∷ c.sslmode
    ∷ c.connect_timeout
    ∷ c.application_name
    ∷ (optional c.user ++ optional c.password)

abbrev is_one_word : String → Bool
is_one_word s = all_codes (λ c. not (c == b' ')) s

one_word-append :
    (s t : String) → is_one_word s ≡ true → is_one_word t ≡ true → is_one_word (s <> t) ≡ true
one_word-append String.[] t h k = rw (append.nil t) k
one_word-append (String.◌∷◌ c s) t h k =
    let e : (code c == b' ') ≡ false = ground arith in
    rw (append.cons c s t, e) (one_word-append s t (ground arith) k)

one_word-plain :
    (v : String)
    → all_codes (λ c. not (is_space c || (c == 39 || c == b'\\'))) v ≡ true
    → is_one_word v ≡ true
one_word-plain String.[] h = refl
one_word-plain (String.◌∷◌ c v) h = rw (one_word-plain v (ground arith)) (ground arith)

split_on-one : (s : String) → is_one_word s ≡ true → split_on b' ' s ≡ s ∷ []
unfolding split_on
split_on-one String.[] h = refl
split_on-one (String.◌∷◌ c s) h =
    let e : (code c == b' ') ≡ false = ground arith in rw (e, split_on-one s (ground arith))

split_on-append :
    (s t : String) → is_one_word s ≡ true → split_on b' ' (s <> (" " <> t)) ≡ s ∷ split_on b' ' t
unfolding split_on nat_eq
split_on-append String.[] t h = rw (append.nil (" " <> t), append.cons " " "" t, append.nil t) refl
split_on-append (String.◌∷◌ c s) t h =
    let e : (code c == b' ') ≡ false = ground arith in
    rw (append.cons c s (" " <> t), e, split_on-append s t (ground arith))

split_on-join_words :
    (p : String) (ps : List String)
    → All (λ s. is_one_word s ≡ true) (p ∷ ps)
    → split_on b' ' (join_words (p ∷ ps)) ≡ p ∷ ps
split_on-join_words p [] h = split_on-one p h.0
split_on-join_words p (q ∷ ps) h =
    rw (split_on-append p (join_words (q ∷ ps)) h.0, split_on-join_words q ps h.1)

partition-name :
    (name v : String)
    → all_codes (λ c. not (c == b'=')) name ≡ true
    → partition b'=' (name <> ("=" <> v)) ≡ (name, v)
unfolding partition nat_eq
partition-name String.[] v h = rw (append.nil ("=" <> v), append.cons "=" "" v, append.nil v) refl
partition-name (String.◌∷◌ c name) v h =
    let e : (code c == b'=') ≡ false = ground arith in
    rw (append.cons c name ("=" <> v), e, partition-name name v (ground arith))

module _ (wanted name v : String) (parts : List String)
    (h : all_codes (λ c. not (c == b'=')) name ≡ true) where
  setting-other :
      (name == wanted) ≡ false
      → setting wanted (((name <> "=") <> v) ∷ parts) ≡ setting wanted parts
  unfolding setting
  setting-other e =
      rw (append_text_assoc name "=" v, partition-name name v h, e) (keep (setting wanted parts))
    where
      keep : (o : Option String) → later_or o false v ≡ o
      keep none = refl
      keep (some w) = refl

  setting-here :
      (name == wanted) ≡ true
      → setting wanted parts ≡ none
      → setting wanted (((name <> "=") <> v) ∷ parts) ≡ some v
  unfolding setting
  setting-here e last = rw (append_text_assoc name "=" v, partition-name name v h, e, last)

module _ (py_str : Json → String) where
  abbrev pub ArePlain : List Json → Type 0
  ArePlain vs = All (λ v. is_plain (py_str v) ≡ true) vs

  word :
      (name : String) (v : Json)
      → is_one_word name ≡ true
      → is_plain (py_str v) ≡ true
      → is_one_word (name <> py_str v) ≡ true
  word name v h plain = one_word-append name (py_str v) h (one_word-plain (py_str v) (ground arith))

  words-optional :
      (name : String) (o : Option Json)
      → is_one_word name ≡ true
      → ArePlain (optional o)
      → All (λ s. is_one_word s ≡ true) (with_part py_str name o)
  words-optional name none h plain = tt
  words-optional name (some v) h plain = (word name v h plain.0, tt)

  words-credentials :
      (user password : Option Json)
      → ArePlain (optional user ++ optional password)
      → All
          (λ s. is_one_word s ≡ true)
          (with_part py_str "user=" user ++ with_part py_str "password=" password)
  unfolding nat_eq
  words-credentials none password plain = words-optional "password=" password refl plain
  words-credentials (some u) password plain =
      (word "user=" u refl plain.0, words-optional "password=" password refl plain.1)

  setting-optional :
      (wanted name : String) (o : Option Json) (parts : List String)
      → all_codes (λ c. not (c == b'=')) name ≡ true
      → (name == wanted) ≡ false
      → setting wanted (with_part py_str (name <> "=") o ++ parts) ≡ setting wanted parts
  setting-optional wanted name none parts h e = refl
  setting-optional wanted name (some v) parts h e = setting-other wanted name (py_str v) parts h e

  -- The value of `sslmode` that libpq reads is the one of the connection.
  pub read_setting-conninfo :
      (c : Connection)
      → ArePlain (values c)
      → read_setting "sslmode" (conninfo py_str c) ≡ some (py_str c.sslmode)
  unfolding conninfo setting string_eq nat_eq
  read_setting-conninfo c
        (host, (port, (dbname, (sslmode, (timeout, (application, credentials)))))) =
      let at = λ (name : String) (v : Json) (parts : List String). (name <> py_str v) ∷ parts in
      let secret = with_part py_str "password=" c.password in
      let tail = with_part py_str "user=" c.user ++ secret in
      let application_on = at "application_name=" c.application_name tail in
      let late = at "connect_timeout=" c.connect_timeout application_on in
      let mode_on = at "sslmode=" c.sslmode late in
      let dbname_on = at "dbname=" c.dbname mode_on in
      let early = at "port=" c.port dbname_on in
      let parts = split_on-join_words ("host=" <> py_str c.host) early (
        word "host=" c.host refl host,
        (
          word "port=" c.port refl port,
          (
            word "dbname=" c.dbname refl dbname,
            (
              word "sslmode=" c.sslmode refl sslmode,
              (
                word "connect_timeout=" c.connect_timeout refl timeout,
                (
                  word "application_name=" c.application_name refl application,
                  words-credentials c.user c.password credentials,
                ),
              ),
            ),
          ),
        ),
      ) in
      let none_later : setting "sslmode" late ≡ none =
        setting-other "sslmode" "connect_timeout" (py_str c.connect_timeout) application_on refl
          refl
        ∙ setting-other "sslmode" "application_name" (py_str c.application_name) tail refl refl
        ∙ setting-optional "sslmode" "user" c.user secret refl refl
        ∙ ends c.password in
      ap (λ (ps : List String). setting "sslmode" ps) parts
      ∙ setting-other "sslmode" "host" (py_str c.host) early refl refl
      ∙ setting-other "sslmode" "port" (py_str c.port) dbname_on refl refl
      ∙ setting-other "sslmode" "dbname" (py_str c.dbname) mode_on refl refl
      ∙ setting-here "sslmode" "sslmode" (py_str c.sslmode) late refl refl none_later
    where
      ends : (o : Option Json) → setting "sslmode" (with_part py_str "password=" o) ≡ none
      ends none = refl
      ends (some v) = setting-other "sslmode" "password" (py_str v) [] refl refl
