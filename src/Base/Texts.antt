-- ===== src/Base/Texts.antt =====
-- Python's text operations on native strings, by recursion on the characters.
use Prim.Native.Nat.{ℕ, ◌+◌}
use Prim.Native.Char.{code}
use Prim.Native.String.append
use Prim.Native.String.{String, ◌++◌ as ◌<>◌}
use mathlib.Core.Path.{◌≡◌, refl, ap, sym, ◌∙◌}
use mathlib.Core.Bool.{Bool, true, false, ◌&&◌, ◌||◌}
use mathlib.Core.List.{List, [], ◌∷◌, ◌++◌}
use r64_db_engine.Base.Tests.{leb, if◌then◌else◌, nat_eq, ◌==◌, ==-refl}

-- The code points of a text.
abbrev pub codes : String → List ℕ
codes String.[] = []
codes (String.◌∷◌ c s) = code c ∷ codes s

-- `"0" <= c <= "9"`, the ASCII part of `\d`
abbrev pub is_digit : ℕ → Bool
is_digit c = leb b'0' c && leb c b'9'

-- The ASCII part of `str.isspace`: tab to carriage return, the separators 28 to 31, and space.
abbrev pub is_space : ℕ → Bool
is_space c = (leb 9 c && leb c 13) || (leb 28 c && leb c 32)

abbrev pub to_lower : ℕ → ℕ
to_lower c = if leb b'A' c && leb c b'Z' then c + 32 else c

-- `s == ""`
abbrev pub is_empty : String → Bool
is_empty String.[] = true
is_empty (String.◌∷◌ _ _) = false

-- `s.startswith(c)` for one character
abbrev pub starts_with_code : String → ℕ → Bool
starts_with_code String.[] k = false
starts_with_code (String.◌∷◌ c _) k = code c == k

-- The code points of a concatenation.
pub codes-append : (s t : String) → codes (s <> t) ≡ codes s ++ codes t
codes-append String.[] t = rw append.nil
codes-append (String.◌∷◌ c s) t = rw append.cons (ap (λ cs. code c ∷ cs) (codes-append s t))

pub append_text_nil : (s : String) → s <> "" ≡ s
append_text_nil String.[] = append.nil ""
append_text_nil (String.◌∷◌ c s) =
    append.cons c s "" ∙ ap (λ (t : String). String.◌∷◌ c t) (append_text_nil s)

pub append_text_assoc : (s t u : String) → (s <> t) <> u ≡ s <> (t <> u)
append_text_assoc String.[] t u = rw (append.nil t) (sym (append.nil (t <> u)))
append_text_assoc (String.◌∷◌ c s) t u =
    rw (append.cons c s t, append.cons c (s <> t) u, append.cons c s (t <> u))
      (ap (λ (x : String). String.◌∷◌ c x) (append_text_assoc s t u))

-- `s.startswith(prefix)`
unfoldable pub starts_with : String → String → Bool
starts_with s String.[] = true
starts_with String.[] (String.◌∷◌ k p) = false
starts_with (String.◌∷◌ c s) (String.◌∷◌ k p) = code c == code k && starts_with s p

-- `needle in s`
unfoldable pub contains_text : String → String → Bool
unfolding starts_with
contains_text needle String.[] = starts_with "" needle
contains_text needle (String.◌∷◌ c s) =
    let rest = contains_text needle s in starts_with (String.◌∷◌ c s) needle || rest

pub starts_with-append : (p s : String) → starts_with (p <> s) p ≡ true
unfolding starts_with
starts_with-append String.[] s = refl
starts_with-append (String.◌∷◌ c p) s =
    rw (append.cons c p s, starts_with, ==-refl (code c)) (starts_with-append p s)

pub contains_text_of_starts_with :
    (needle s : String) → starts_with s needle ≡ true → contains_text needle s ≡ true
unfolding contains_text
contains_text_of_starts_with needle String.[] h = h
contains_text_of_starts_with needle (String.◌∷◌ c s) h = rw h

-- What stands between two texts is in their concatenation.
pub contains_text-append : (a needle b : String) → contains_text needle (a <> (needle <> b)) ≡ true
unfolding contains_text
contains_text-append String.[] needle b =
    rw (append.nil (needle <> b))
      (contains_text_of_starts_with needle (needle <> b) (starts_with-append needle b))
contains_text-append (String.◌∷◌ c a) needle b =
    rw (append.cons c a (needle <> b), contains_text, contains_text-append a needle b)
      (or_true (starts_with (String.◌∷◌ c (a <> (needle <> b))) needle))
  where
    or_true : (x : Bool) → (x || true) ≡ true
    or_true true = refl
    or_true false = refl
