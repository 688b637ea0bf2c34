-- ===== src/Descriptor/Placeholders.antt =====
-- core/descriptor.py: the search of `_INTERPOLATION` and the places that it describes.
use Prim.Native.Char.{Char, code}
use Prim.Native.String.append
use r64_db_engine.Base.{
  ℕ, String, ◌<>◌, ◌≡◌, ◌↔◌, refl, sym, ap, ◌∙◌, inl, inr, Bool, true, false, ◌&&◌, ◌==◌, nat_eq,
  is_digit, Bool-cases, or-split, or_right, eq_of_==, ==-refl, arith,
}
use r64_db_engine.Descriptor.{
  has_code, is_flag, is_conversion, has_conversion, is_word, starts_with_class, has_group, has_name,
  opens_value, interpolates,
}
use r64_db_engine.Descriptor.Names.{all_code}

-- A text that begins with a placeholder: `{…}`, `%` with flags and a conversion, `%(…)`, `$` with a name or an
-- opened name, a backslash with a digit.
pub data Placeholder : String → Type 0 where
  braces :
      (o k : Char) (b c : String)
      → code o ≡ b'{'
      → code k ≡ b'}'
      → Placeholder (String.◌∷◌ o (b <> String.◌∷◌ k c))
  conversion :
      (o k : Char) (flags c : String)
      → code o ≡ b'%'
      → all_code is_flag flags ≡ true
      → is_conversion (code k) ≡ true
      → Placeholder (String.◌∷◌ o (flags <> String.◌∷◌ k c))
  group :
      (o p k : Char) (b c : String)
      → code o ≡ b'%'
      → code p ≡ b'('
      → code k ≡ b')'
      → Placeholder (String.◌∷◌ o (String.◌∷◌ p (b <> String.◌∷◌ k c)))
  name :
      (o k : Char) (c : String)
      → code o ≡ b'$'
      → is_word (code k) ≡ true
      → Placeholder (String.◌∷◌ o (String.◌∷◌ k c))
  opened_name :
      (o p k : Char) (c : String)
      → code o ≡ b'$'
      → code p ≡ b'{'
      → is_word (code k) ≡ true
      → Placeholder (String.◌∷◌ o (String.◌∷◌ p (String.◌∷◌ k c)))
  backreference :
      (o k : Char) (c : String)
      → code o ≡ b'\\'
      → is_digit (code k) ≡ true
      → Placeholder (String.◌∷◌ o (String.◌∷◌ k c))

has_code-append :
    (k : Char) (n : ℕ) (b c : String) → code k ≡ n → has_code n (b <> String.◌∷◌ k c) ≡ true
has_code-append k n String.[] c h = rw (append.nil (String.◌∷◌ k c), h, ==-refl n) refl
has_code-append k n (String.◌∷◌ j b) c h =
    rw (append.cons j b (String.◌∷◌ k c), has_code-append k n b c h) (ground arith)

has_code-split :
    (n : ℕ) (s : String)
    → has_code n s ≡ true
    → (k : Char) × (b : String) × (c : String) × (code k ≡ n) × (s ≡ b <> String.◌∷◌ k c)
has_code-split n String.[] h = cc
has_code-split n (String.◌∷◌ j s) h = elim (Bool-cases (code j == n)) [
  | inl e ↦ (j, "", s, eq_of_== (code j) n e, sym (append.nil (String.◌∷◌ j s)))
  | inr e ↦
      let (k, b, c, same, split) = has_code-split n s (rw e at h) in
      (
        k,
        String.◌∷◌ j b,
        c,
        same,
        ap (λ (x : String). String.◌∷◌ j x) split ∙ sym (append.cons j b (String.◌∷◌ k c)),
      )
]

conversion_no_flag : (n : ℕ) → is_conversion n ≡ true → is_flag n ≡ false
conversion_no_flag n h = ground arith

has_conversion-append :
    (k : Char) (flags c : String)
    → all_code is_flag flags ≡ true
    → is_conversion (code k) ≡ true
    → has_conversion (flags <> String.◌∷◌ k c) ≡ true
has_conversion-append k String.[] c f h =
    rw (append.nil (String.◌∷◌ k c), conversion_no_flag (code k) h, h) refl
has_conversion-append k (String.◌∷◌ j flags) c f h =
    let one : is_flag (code j) ≡ true = ground arith in
    rw (append.cons j flags (String.◌∷◌ k c), one)
      (has_conversion-append k flags c (ground arith) h)

has_conversion-split :
    (s : String)
    → has_conversion s ≡ true
    → (k : Char) × (flags : String) × (c : String) × (all_code is_flag flags ≡ true)
      × (is_conversion (code k) ≡ true)
      × (s ≡ flags <> String.◌∷◌ k c)
has_conversion-split String.[] h = cc
has_conversion-split (String.◌∷◌ j s) h = elim (Bool-cases (is_flag (code j))) [
  | inl e ↦
      let (k, flags, c, all, conv, split) = has_conversion-split s (rw e at h) in
      (
        k,
        String.◌∷◌ j flags,
        c,
        rw e all,
        conv,
        ap (λ (x : String). String.◌∷◌ j x) split ∙ sym (append.cons j flags (String.◌∷◌ k c)),
      )
  | inr e ↦ (j, "", s, refl, rw e at h, sym (append.nil (String.◌∷◌ j s)))
]

abbrev opens_text : String → Bool
opens_text String.[] = false
opens_text (String.◌∷◌ c s) = opens_value (code c) s

opens_text-Placeholder : (s : String) → Placeholder s → opens_text s ≡ true
unfolding nat_eq
opens_text-Placeholder _ (braces o k b c eo ek) = rw (eo, has_code-append k b'}' b c ek) refl
opens_text-Placeholder _ (conversion o k flags c eo all conv) =
    rw (eo, has_conversion-append k flags c all conv) refl
opens_text-Placeholder _ (group o p k b c eo ep ek) =
    rw (eo, ep, has_code-append k b')' b c ek) (ground arith)
opens_text-Placeholder _ (name o k c eo w) = rw (eo, w) refl
opens_text-Placeholder _ (opened_name o p k c eo ep w) = rw (eo, ep, w) refl
opens_text-Placeholder _ (backreference o k c eo d) = rw (eo, d) refl

is_code : (c : Char) (n : ℕ) (b : Bool) → ((code c == n) && b) ≡ true → (code c ≡ n) × (b ≡ true)
is_code c n b h = (ground arith, ground arith)

-- The texts behind the first character of each alternative.
group-split :
    (o : Char) (s : String) → code o ≡ b'%' → has_group s ≡ true → Placeholder (String.◌∷◌ o s)
group-split o String.[] eo h = cc
group-split o (String.◌∷◌ p s) eo h =
    let (ep, rest) = is_code p b'(' _ h in
    let (k, b, c, ek, split) = has_code-split b')' s rest in rw split (group o p k b c eo ep ek)

name-split :
    (o : Char) (s : String) → code o ≡ b'$' → has_name s ≡ true → Placeholder (String.◌∷◌ o s)
name-split o String.[] eo h = cc
name-split o (String.◌∷◌ p s) eo h = elim (or-split (is_word (code p)) _ h) [
  | inl w ↦ name o p s eo w
  | inr t ↦ let (ep, rest) = is_code p b'{' _ t in opened o p s eo ep rest
]
  where
    opened :
        (o p : Char) (s : String)
        → code o ≡ b'$'
        → code p ≡ b'{'
        → starts_with_class is_word s ≡ true
        → Placeholder (String.◌∷◌ o (String.◌∷◌ p s))
    opened o p String.[] eo ep h = cc
    opened o p (String.◌∷◌ k c) eo ep h = opened_name o p k c eo ep h

backreference-split :
    (o : Char) (s : String)
    → code o ≡ b'\\'
    → starts_with_class is_digit s ≡ true
    → Placeholder (String.◌∷◌ o s)
backreference-split o String.[] eo h = cc
backreference-split o (String.◌∷◌ k c) eo h = backreference o k c eo h

opens_value-split :
    (o : Char) (s : String) → opens_value (code o) s ≡ true → Placeholder (String.◌∷◌ o s)
opens_value-split o s h = elim (or-split _ _ h) [
  | inl h1 ↦ elim (or-split _ _ h1) [
    | inl h2 ↦
        let (eo, rest) = is_code o b'{' _ h2 in
        let (k, b, c, ek, split) = has_code-split b'}' s rest in rw split (braces o k b c eo ek)
    | inr h2 ↦
        let (eo, rest) = is_code o b'%' _ h2 in
        let (k, flags, c, all, conv, split) = has_conversion-split s rest in
        rw split (conversion o k flags c eo all conv)
  ]
  | inr h1 ↦ elim (or-split _ _ h1) [
    | inl h2 ↦ let (eo, rest) = is_code o b'%' _ h2 in group-split o s eo rest
    | inr h2 ↦ elim (or-split _ _ h2) [
      | inl h3 ↦ let (eo, rest) = is_code o b'$' _ h3 in name-split o s eo rest
      | inr h3 ↦ let (eo, rest) = is_code o b'\\' _ h3 in backreference-split o s eo rest
    ]
  ]
]

-- A placeholder stands somewhere in a text.
abbrev pub HasPlaceholder : String → Type 0
HasPlaceholder s = (a : String) × (x : String) × (s ≡ a <> x) × Placeholder x

found : (a x : String) → opens_text x ≡ true → interpolates (a <> x) ≡ true
unfolding interpolates
found String.[] String.[] h = cc
found String.[] (String.◌∷◌ c x) h = rw (append.nil (String.◌∷◌ c x), interpolates, h) refl
found (String.◌∷◌ c a) x h =
    rw (append.cons c a x, interpolates, found a x h)
      (or_right (opens_value (code c) (a <> x)) true refl)

-- The search finds something exactly in the texts that hold a placeholder.
pub interpolates-HasPlaceholder : (s : String) → (interpolates s ≡ true) ↔ HasPlaceholder s
unfolding interpolates
interpolates-HasPlaceholder s =
    (split s, λ (a, x, e, p). rw e (found a x (opens_text-Placeholder x p)))
  where
    split : (s : String) → interpolates s ≡ true → HasPlaceholder s
    split String.[] h = cc
    split (String.◌∷◌ c s) h = elim (or-split (opens_value (code c) s) _ h) [
      | inl here ↦
          ("", String.◌∷◌ c s, sym (append.nil (String.◌∷◌ c s)), opens_value-split c s here)
      | inr later ↦
          let (a, x, e, p) = split s later in
          (String.◌∷◌ c a, x, ap (λ (t : String). String.◌∷◌ c t) e ∙ sym (append.cons c a x), p)
    ]
