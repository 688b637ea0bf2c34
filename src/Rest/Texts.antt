-- ===== src/Rest/Texts.antt =====
-- The text operations of drivers/rest: `lower`, `rstrip`, `strip`, `endswith`, `split`, `partition`.
use Prim.Native.Char.{Char, code}
use Prim.Native.String.append
use r64_db_engine.Base.{
  ℕ, zero, suc, ◌-◌, String, ◌<>◌, ◌≡◌, ap, sym, ◌∙◌, inl, inr, Bool, true, ◌&&◌, ◌||◌, List, [],
  ◌∷◌, leb, if◌then◌else◌, ◌==◌, nat_eq, string_eq, eq_of_==, Bool-cases,
}

nth_char : ℕ → String → Char → Char
nth_char i String.[] d = d
nth_char zero (String.◌∷◌ c s) d = c
nth_char (suc i) (String.◌∷◌ c s) d = nth_char i s d

-- The ASCII part of `str.lower`
unfoldable pub lower : String → String
unfolding nth_char
lower String.[] = ""
lower (String.◌∷◌ c s) =
    String.◌∷◌
      (if leb b'A' (code c) && leb (code c) b'Z'
        then nth_char (code c - b'A') "abcdefghijklmnopqrstuvwxyz" c
        else c)
      (lower s)

abbrev pub keep_end : (ℕ → Bool) → Char → String → String
keep_end drops c String.[] = if drops (code c) then "" else String.◌∷◌ c ""
keep_end drops c (String.◌∷◌ d s) = String.◌∷◌ c (String.◌∷◌ d s)

-- `s.rstrip(chars)` and `s.lstrip(chars)`, of the characters that pass a test
unfoldable pub rstrip : (ℕ → Bool) → String → String
rstrip drops String.[] = ""
rstrip drops (String.◌∷◌ c s) = keep_end drops c (rstrip drops s)

unfoldable pub lstrip : (ℕ → Bool) → String → String
lstrip drops String.[] = ""
lstrip drops (String.◌∷◌ c s) =
    let rest = lstrip drops s in if drops (code c) then rest else String.◌∷◌ c s

unfoldable pub strip : (ℕ → Bool) → String → String
unfolding rstrip lstrip
strip drops s = rstrip drops (lstrip drops s)

-- `host.lower().rstrip(".")`
unfoldable pub canonical : String → String
unfolding lower rstrip nat_eq
canonical host = rstrip (λ c. c == b'.') (lower host)

-- `s.endswith(suffix)`
unfoldable pub ends_with : String → String → Bool
ends_with String.[] t = "" == t
ends_with (String.◌∷◌ c s) t = let rest = ends_with s t in String.◌∷◌ c s == t || rest

-- `s.partition(sep)` without the separator: what stands before it and after it
unfoldable pub partition : ℕ → String → String × String
partition sep String.[] = ("", "")
partition sep (String.◌∷◌ c s) =
    let (before, after) = partition sep s in
    if code c == sep then ("", s) else (String.◌∷◌ c before, after)

abbrev onto_first : Char → List String → List String
onto_first c [] = String.◌∷◌ c "" ∷ []
onto_first c (part ∷ parts) = String.◌∷◌ c part ∷ parts

-- `s.split(sep)`
unfoldable pub split_on : ℕ → String → List String
split_on sep String.[] = "" ∷ []
split_on sep (String.◌∷◌ c s) =
    let parts = split_on sep s in if code c == sep then "" ∷ parts else onto_first c parts

-- A text that ends with a suffix is something before that suffix.
pub ends_with-split : (s t : String) → ends_with s t ≡ true → (before : String) × (s ≡ before <> t)
unfolding ends_with
ends_with-split String.[] t h = ("", eq_of_== "" t h ∙ sym (append.nil t))
ends_with-split (String.◌∷◌ c s) t h = elim (Bool-cases (String.◌∷◌ c s == t)) [
  | inl e ↦ ("", eq_of_== (String.◌∷◌ c s) t e ∙ sym (append.nil t))
  | inr e ↦
      let (before, q) = ends_with-split s t (sym (ap (λ b. b || ends_with s t) e) ∙ h) in
      (String.◌∷◌ c before, ap (λ (x : String). String.◌∷◌ c x) q ∙ sym (append.cons c before t))
]
