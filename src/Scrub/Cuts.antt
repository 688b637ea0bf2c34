-- ===== src/Scrub/Cuts.antt =====
-- core/scrub.py: texts in which the marker stands for parts that were left out.
use Prim.Native.Char.{Char, code}
use Prim.Native.String.append
use r64_db_engine.Base.{
  and-split, or_right, ℕ, zero, suc, String, ◌<>◌, ◌≡◌, ◌⊎◌, inl, inr, refl, sym, ap, ◌∙◌, Bool,
  true, false, not, ◌&&◌, ◌||◌, ◌==◌, nat_eq, starts_with, contains_text,
  contains_text_of_starts_with, is_empty, or-split, append_text_assoc, arith,
}
use r64_db_engine.Scrub.{redacted}

abbrev pub drop_text : ℕ → String → String
drop_text zero s = s
drop_text (suc n) String.[] = ""
drop_text (suc n) (String.◌∷◌ c s) = drop_text n s

-- The second text is the first with the marker for some of its parts.
pub data Cut : String → String → Type 0 where
  finish : Cut "" ""
  copy : (c : Char) {s r : String} → Cut s r → Cut (String.◌∷◌ c s) (String.◌∷◌ c r)
  mark : (n : ℕ) (s : String) {r : String} → Cut (drop_text n s) r → Cut s (redacted <> r)

-- No character of the marker's ends.
abbrev pub lacks_marks : String → Bool
lacks_marks String.[] = true
lacks_marks (String.◌∷◌ c s) = not (code c == 171 || code c == 187) && lacks_marks s

first_mark :
    (c : Char) (s : String)
    → lacks_marks (String.◌∷◌ c s) ≡ true
    → ((171 == code c) ≡ false) × ((187 == code c) ≡ false) × (lacks_marks s ≡ true)
first_mark c s h = (ground arith, ground arith, ground arith)

marker : (r : String) → redacted <> r ≡ String.◌∷◌ "«" ("redacted»" <> r)
marker r = append.cons "«" "redacted»" r

closing : (r : String) → "redacted»" <> r ≡ "redacted" <> String.◌∷◌ "»" r
closing r =
    append_text_assoc "redacted" "»" r
    ∙ ap (λ (x : String). "redacted" <> x)
        (append.cons "»" "" r ∙ ap (λ (x : String). String.◌∷◌ "»" x) (append.nil r))

pub starts-Cut :
    {s r : String} (t : String)
    → lacks_marks t ≡ true
    → Cut s r
    → starts_with r t ≡ true
    → starts_with s t ≡ true
unfolding starts_with
starts-Cut t h finish e = e
starts-Cut String.[] h (copy c q) e = refl
starts-Cut (String.◌∷◌ k t) h (copy c q) e =
    let (same, rest) = and-split (code c == code k) _ e in
    rw same (starts-Cut t (first_mark k t h).2 q rest)
starts-Cut String.[] h (mark n s q) e = refl
starts-Cut (String.◌∷◌ k t) h (mark n s {r} q) e =
    let bad = rw (marker r, starts_with, (first_mark k t h).0) at e in cc

-- What fits in front of a closing mark fits in the text before it.
starts_before_mark :
    (u r t : String)
    → lacks_marks t ≡ true
    → starts_with (u <> String.◌∷◌ "»" r) t ≡ true
    → starts_with u t ≡ true
unfolding starts_with
starts_before_mark u r String.[] h e = starts_nil u
  where
    starts_nil : (x : String) → starts_with x "" ≡ true
    starts_nil x = refl
starts_before_mark String.[] r (String.◌∷◌ k t) h e =
    let bad = rw (append.nil (String.◌∷◌ "»" r), starts_with, (first_mark k t h).1) at e in cc
starts_before_mark (String.◌∷◌ c u) r (String.◌∷◌ k t) h e =
    let (same, rest) =
      and-split (code c == code k) _ (rw (append.cons c u (String.◌∷◌ "»" r), starts_with) at e) in
    rw same (starts_before_mark u r t (first_mark k t h).2 rest)

-- An occurrence in a text with a closing mark stands before it or behind it.
contains_at_mark :
    (u r t : String)
    → lacks_marks t ≡ true
    → is_empty t ≡ false
    → contains_text t (u <> String.◌∷◌ "»" r) ≡ true
    → (contains_text t u ≡ true) ⊎ (contains_text t r ≡ true)
unfolding contains_text
contains_at_mark u r String.[] h n e = cc
contains_at_mark String.[] r (String.◌∷◌ k t) h n e =
    inr (rw (append.nil (String.◌∷◌ "»" r), contains_text, starts_with, (first_mark k t h).1) at e)
contains_at_mark (String.◌∷◌ c u) r (String.◌∷◌ k t) h n e =
    split (λ b. contains_at_mark u r (String.◌∷◌ k t) h n b)
      (or-split (starts_with (String.◌∷◌ c (u <> String.◌∷◌ "»" r)) (String.◌∷◌ k t)) _
        (rw (append.cons c u (String.◌∷◌ "»" r), contains_text) at e))
  where
    behind :
        (contains_text (String.◌∷◌ k t) u ≡ true) ⊎ (contains_text (String.◌∷◌ k t) r ≡ true)
        → (contains_text (String.◌∷◌ k t) (String.◌∷◌ c u) ≡ true)
          ⊎ (contains_text (String.◌∷◌ k t) r ≡ true)
    behind (inl x) = inl (or_right (starts_with (String.◌∷◌ c u) (String.◌∷◌ k t)) _ x)
    behind (inr y) = inr y

    split :
        (contains_text (String.◌∷◌ k t) (u <> String.◌∷◌ "»" r) ≡ true
          → (contains_text (String.◌∷◌ k t) u ≡ true) ⊎ (contains_text (String.◌∷◌ k t) r ≡ true))
        → (starts_with (String.◌∷◌ c (u <> String.◌∷◌ "»" r)) (String.◌∷◌ k t) ≡ true)
          ⊎ (contains_text (String.◌∷◌ k t) (u <> String.◌∷◌ "»" r) ≡ true)
        → (contains_text (String.◌∷◌ k t) (String.◌∷◌ c u) ≡ true)
          ⊎ (contains_text (String.◌∷◌ k t) r ≡ true)
    split rest (inl a) = inl (
        contains_text_of_starts_with (String.◌∷◌ k t) (String.◌∷◌ c u) (
          starts_before_mark (String.◌∷◌ c u) r (String.◌∷◌ k t) h
            (rw (append.cons c u (String.◌∷◌ "»" r)) a)))
    split rest (inr b) = behind (rest b)

contains_drop :
    (t : String) (n : ℕ) (s : String)
    → contains_text t (drop_text n s) ≡ true
    → contains_text t s ≡ true
unfolding contains_text
contains_drop t zero s h = h
contains_drop t (suc n) String.[] h = h
contains_drop t (suc n) (String.◌∷◌ c s) h =
    or_right (starts_with (String.◌∷◌ c s) t) _ (contains_drop t n s h)

-- A secret without a mark, and that is no part of the word between the marks.
pub record IsClean (t : String) : Type 0 where
  pub nonempty : is_empty t ≡ false
  pub unmarked : lacks_marks t ≡ true
  pub apart : contains_text t "redacted" ≡ false

pub contains_marker :
    (t r : String) → IsClean t → contains_text t (redacted <> r) ≡ true → contains_text t r ≡ true
unfolding contains_text
contains_marker String.[] r clean e = absurd_empty clean.nonempty
  where
    absurd_empty : is_empty "" ≡ false → contains_text "" r ≡ true
    absurd_empty h = cc
contains_marker (String.◌∷◌ k t) r clean e =
    let whole = String.◌∷◌ k t in
    let inside =
      rw (marker r, contains_text, starts_with, (first_mark k t clean.unmarked).0) at e in
    behind (
      contains_at_mark "redacted" r whole clean.unmarked refl
        (sym (ap (λ (x : String). contains_text whole x) (closing r)) ∙ inside))
  where
    behind :
        (contains_text (String.◌∷◌ k t) "redacted" ≡ true)
          ⊎ (contains_text (String.◌∷◌ k t) r ≡ true)
        → contains_text (String.◌∷◌ k t) r ≡ true
    behind (inl x) = let no = clean.apart in cc
    behind (inr y) = y

-- What a cut leaves holds no clean text that was not there.
pub contains-Cut :
    {s r : String} (t : String)
    → IsClean t
    → Cut s r
    → contains_text t r ≡ true
    → contains_text t s ≡ true
unfolding contains_text
contains-Cut t clean finish e = e
contains-Cut t clean (copy c {s} {r} q) e =
    either (starts-Cut t clean.unmarked (copy c q)) (contains-Cut t clean q)
      (or-split (starts_with (String.◌∷◌ c r) t) _ e)
  where
    either :
        (starts_with (String.◌∷◌ c r) t ≡ true → starts_with (String.◌∷◌ c s) t ≡ true)
        → (contains_text t r ≡ true → contains_text t s ≡ true)
        → (starts_with (String.◌∷◌ c r) t ≡ true) ⊎ (contains_text t r ≡ true)
        → (starts_with (String.◌∷◌ c s) t || contains_text t s) ≡ true
    either f g (inl a) = rw (f a)
    either f g (inr b) = or_right (starts_with (String.◌∷◌ c s) t) _ (g b)
contains-Cut t clean (mark n s {r} q) e =
    contains_drop t n s (contains-Cut t clean q (contains_marker t r clean e))
