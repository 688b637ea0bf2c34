-- ===== src/Drivers/ClickHouse/Quoted.antt =====
-- drivers/clickhouse/driver.py: a quoted identifier is read back as the identifier.
use Prim.Native.Char.{Char, code}
use Prim.Native.String.append
use r64_db_engine.Base.{
  String, ◌<>◌, ◌≡◌, refl, ap, ◌∙◌, Bool, true, false, not, ◌&&◌, ◌==◌, Option, none, some,
  if◌then◌else◌, nat_eq, starts_with_code, append_text_assoc, Bool-cases, inl, inr,
}
use r64_db_engine.Drivers.ClickHouse.{double_ticks, quote_ident}

abbrev push : String → Option (String × String) → Option (String × String)
push c none = none
push c (some (name, rest)) = some (c <> name, rest)

-- The lexer behind the opening backtick: two backticks are one of the name, a backslash escapes and is
-- not read here, and a backtick alone ends the name. The rest of the query stands behind it.
unfoldable pub read_name : String → Option (String × String)
unfolding nat_eq
read_name String.[] = none
read_name (String.◌∷◌ c String.[]) = if code c == b'`' then some ("", "") else none
read_name (String.◌∷◌ c (String.◌∷◌ d s)) =
    let doubled = push (String.◌∷◌ c "") (read_name s) in
    let one = push (String.◌∷◌ c "") (read_name (String.◌∷◌ d s)) in
    if code c == b'`'
    then (if code d == b'`' then doubled else some ("", String.◌∷◌ d s))
    else if code c == b'\\'
    then none
    else one

abbrev pub no_backslash : String → Bool
no_backslash String.[] = true
no_backslash (String.◌∷◌ c s) = not (code c == b'\\') && no_backslash s

one_char : (c : Char) (s : String) → String.◌∷◌ c "" <> s ≡ String.◌∷◌ c s
one_char c s = append.cons c "" s ∙ ap (λ (x : String). String.◌∷◌ c x) (append.nil s)

read_end :
    (r : String) → starts_with_code r b'`' ≡ false → read_name (String.◌∷◌ "`" r) ≡ some ("", r)
unfolding read_name
read_end String.[] h = refl
read_end (String.◌∷◌ d r) h = rw h

read_plain :
    (c : Char) (s : String)
    → (code c == b'`') ≡ false
    → (code c == b'\\') ≡ false
    → read_name (String.◌∷◌ c s) ≡ push (String.◌∷◌ c "") (read_name s)
unfolding read_name
read_plain c String.[] h k = rw h
read_plain c (String.◌∷◌ d s) h k = rw (h, k)

read_tick :
    (c : Char) (s : String)
    → (code c == b'`') ≡ true
    → read_name (String.◌∷◌ c (String.◌∷◌ c s)) ≡ push (String.◌∷◌ c "") (read_name s)
unfolding read_name
read_tick c s h = rw h

and_not : (a b : Bool) → (not a && b) ≡ true → (a ≡ false) × (b ≡ true)
and_not true b h = cc
and_not false b h = (refl, h)

-- A quoted identifier without a backslash, before anything that does not begin with a backtick, is
-- read as that identifier and leaves what stands behind it: no character of an identifier ends the
-- quotation.
pub read_name-quote_ident :
    (identifier rest : String)
    → no_backslash identifier ≡ true
    → starts_with_code rest b'`' ≡ false
    → (quote_ident identifier <> rest ≡ String.◌∷◌ "`" (double_ticks identifier <> ("`" <> rest)))
      × (read_name (double_ticks identifier <> ("`" <> rest)) ≡ some (identifier, rest))
unfolding quote_ident double_ticks
read_name-quote_ident identifier rest plain ends = (opened, read identifier plain)
  where
    opened :
        ("`" <> (double_ticks identifier <> "`")) <> rest
        ≡ String.◌∷◌ "`" (double_ticks identifier <> ("`" <> rest))
    opened =
        append_text_assoc "`" (double_ticks identifier <> "`") rest
        ∙ ap (λ (x : String). "`" <> x) (append_text_assoc (double_ticks identifier) "`" rest)
        ∙ one_char "`" (double_ticks identifier <> ("`" <> rest))

    read :
        (s : String)
        → no_backslash s ≡ true
        → read_name (double_ticks s <> ("`" <> rest)) ≡ some (s, rest)
    read String.[] h =
        ap read_name (append.nil ("`" <> rest) ∙ one_char "`" rest) ∙ read_end rest ends
    read (String.◌∷◌ c s) h =
        let (k, h1) = and_not (code c == b'\\') (no_backslash s) h in
        let more = double_ticks s <> ("`" <> rest) in
        elim (Bool-cases (code c == b'`')) [
          | inl e ↦ rw e (
              ap read_name (
                append.cons c (String.◌∷◌ c (double_ticks s)) ("`" <> rest)
                ∙ ap (λ (x : String). String.◌∷◌ c x)
                    (append.cons c (double_ticks s) ("`" <> rest)))
              ∙ read_tick c more e
              ∙ ap (push (String.◌∷◌ c "")) (read s h1)
              ∙ ap (λ (x : String). some (x, rest)) (one_char c s))
          | inr e ↦ rw e (
              ap read_name (append.cons c (double_ticks s) ("`" <> rest))
              ∙ read_plain c more e k
              ∙ ap (push (String.◌∷◌ c "")) (read s h1)
              ∙ ap (λ (x : String). some (x, rest)) (one_char c s))
        ]
