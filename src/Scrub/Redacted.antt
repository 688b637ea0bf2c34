-- ===== src/Scrub/Redacted.antt =====
-- core/scrub.py: no registered secret is left in a text that was scrubbed.
use Prim.Native.Char.{Char, code}
use r64_db_engine.Base.{
  ℕ, zero, suc, ◌+◌, ◌-◌, String, ◌<>◌, ◌≡◌, inl, inr, refl, true, false, ◌==◌, List, [], ◌∷◌,
  if◌then◌else◌, nat_eq, string_eq, starts_with, contains_text, is_empty, Bool-cases, contains,
  eq_of_==,
}
use mathlib.Core.Path.{subst}
use r64_db_engine.Scrub.{
  Scrubber, redacted, len, replace, replace_form, ends_value, Place, between, before_value,
  in_value, opens, redact_key, replace_secrets, redact_keys, scrub,
}
use r64_db_engine.Scrub.Cuts.{
  drop_text, Cut, finish, copy, mark, IsClean, contains-Cut, starts-Cut, contains_marker,
}

drop_nil : (n : ℕ) → drop_text n "" ≡ ""
drop_nil zero = refl
drop_nil (suc n) = refl

-- The replacement of a form is a cut.
replace-Cut : (skip : ℕ) (form s : String) → Cut (drop_text skip s) (replace skip form s)
unfolding replace
replace-Cut zero form String.[] = finish
replace-Cut (suc skip) form String.[] = finish
replace-Cut (suc skip) form (String.◌∷◌ c s) = replace-Cut skip form s
replace-Cut zero form (String.◌∷◌ c s) = elim (Bool-cases (starts_with (String.◌∷◌ c s) form)) [
  | inl e ↦ rw e (mark (suc (len form - 1)) (String.◌∷◌ c s) (replace-Cut (len form - 1) form s))
  | inr e ↦ rw e (copy c (replace-Cut zero form s))
]

-- What is behind a value that is left out, and the text before the value.
scanned-Cut :
    (key : String) (c : Char) {s r1 r2 : String}
    → Cut s r1
    → Cut s r2
    → Cut (String.◌∷◌ c s) (String.◌∷◌ c (if opens key (code c) s then r1 else r2))
scanned-Cut key c {s} a b = elim (Bool-cases (opens key (code c) s)) [
  | inl e ↦ rw e (copy c a)
  | inr e ↦ rw e (copy c b)
]

abbrev Cuts : String → Place → String → Type 0
Cuts key in_value s = (n : ℕ) × Cut (drop_text n s) (redact_key key in_value s)
Cuts key p s = Cut s (redact_key key p s)

-- The redaction of a parameter is a cut.
redact_key-Cut : (key : String) (p : Place) (s : String) → Cuts key p s
unfolding redact_key
redact_key-Cut key between String.[] = finish
redact_key-Cut key (before_value zero) String.[] = mark zero "" finish
redact_key-Cut key (before_value (suc n)) String.[] = finish
redact_key-Cut key in_value String.[] = (0, finish)
redact_key-Cut key between (String.◌∷◌ c s) =
    scanned-Cut key c (redact_key-Cut key (before_value (len key + 1)) s)
      (redact_key-Cut key between s)
redact_key-Cut key (before_value (suc n)) (String.◌∷◌ c s) =
    copy c (redact_key-Cut key (before_value n) s)
redact_key-Cut key (before_value zero) (String.◌∷◌ c s) =
    let (n, eaten) = redact_key-Cut key in_value s in
    elim (Bool-cases (ends_value (code c))) [
      | inl e ↦ rw e (
          mark zero (String.◌∷◌ c s) (
            scanned-Cut key c (redact_key-Cut key (before_value (len key + 1)) s)
              (redact_key-Cut key between s)))
      | inr e ↦ rw e (mark (suc n) (String.◌∷◌ c s) eaten)
    ]
redact_key-Cut key in_value (String.◌∷◌ c s) =
    let (n, eaten) = redact_key-Cut key in_value s in
    elim (Bool-cases (ends_value (code c))) [
      | inl e ↦ rw e (
        zero,
        scanned-Cut key c (redact_key-Cut key (before_value (len key + 1)) s)
            (redact_key-Cut key between s),
      )
      | inr e ↦ rw e (suc n, eaten)
    ]

module _ (t : String) (clean : IsClean t) where
  abbrev Lacks : String → Type 0
  Lacks s = contains_text t s ≡ false

  Lacks-Cut : {s r : String} → Cut s r → Lacks s → Lacks r
  Lacks-Cut {s} {r} q h = elim (Bool-cases (contains_text t r)) [
    | inl e ↦ let found = contains-Cut t clean q e in cc
    | inr e ↦ e
  ]

  not_empty : (x : String) → is_empty x ≡ false → contains_text x "" ≡ false
  unfolding contains_text starts_with
  not_empty String.[] h = cc
  not_empty (String.◌∷◌ c x) h = refl

  behind_marker : (r : String) → Lacks r → Lacks (redacted <> r)
  behind_marker r h = elim (Bool-cases (contains_text t (redacted <> r))) [
    | inl e ↦ let found = contains_marker t r clean e in cc
    | inr e ↦ e
  ]

  no_start :
      (c : Char) {s r : String}
      → starts_with (String.◌∷◌ c s) t ≡ false
      → Cut s r
      → Lacks r
      → Lacks (String.◌∷◌ c r)
  unfolding contains_text
  no_start c {s} {r} e q h = elim (Bool-cases (starts_with (String.◌∷◌ c r) t)) [
    | inl f ↦ let found = starts-Cut t clean.unmarked (copy c q) f in cc
    | inr f ↦ rw f h
  ]

  -- No occurrence is left of a form that was replaced.
  replace-Lacks : (skip : ℕ) (s : String) → Lacks (replace skip t s)
  unfolding replace contains_text
  replace-Lacks zero String.[] = not_empty t clean.nonempty
  replace-Lacks (suc skip) String.[] = not_empty t clean.nonempty
  replace-Lacks (suc skip) (String.◌∷◌ c s) = replace-Lacks skip s
  replace-Lacks zero (String.◌∷◌ c s) = elim (Bool-cases (starts_with (String.◌∷◌ c s) t)) [
    | inl e ↦ rw e (behind_marker (replace (len t - 1) t s) (replace-Lacks (len t - 1) s))
    | inr e ↦ rw e (no_start c e (replace-Cut zero t s) (replace-Lacks zero s))
  ]

  replace_form-keeps : (form s : String) → Lacks s → Lacks (replace_form form s)
  unfolding replace_form
  replace_form-keeps form s h = elim (Bool-cases (is_empty form)) [
    | inl e ↦ rw e h
    | inr e ↦ rw e (Lacks-Cut (replace-Cut zero form s) h)
  ]

  replace_form-removes : (s : String) → Lacks (replace_form t s)
  unfolding replace_form
  replace_form-removes s = rw clean.nonempty (replace-Lacks zero s)

  module _ (quote quote_plus : String → String) where
    replace_secrets-keeps :
        (secrets : List String) (s : String)
        → Lacks s
        → Lacks (replace_secrets quote quote_plus secrets s)
    unfolding replace_secrets
    replace_secrets-keeps [] s h = h
    replace_secrets-keeps (secret ∷ secrets) s h = replace_secrets-keeps secrets _ (
        replace_form-keeps (quote_plus secret) _
          (replace_form-keeps (quote secret) _ (replace_form-keeps secret s h)))

    replace_secrets-removes :
        (secrets : List String) (s : String)
        → contains secrets t ≡ true
        → Lacks (replace_secrets quote quote_plus secrets s)
    unfolding replace_secrets
    replace_secrets-removes [] s h = cc
    replace_secrets-removes (secret ∷ secrets) s h = elim (Bool-cases (t == secret)) [
      | inl e ↦
          let same = eq_of_== t secret e in
          replace_secrets-keeps secrets _ (
            replace_form-keeps (quote_plus secret) _ (
              replace_form-keeps (quote secret) _
                (subst (λ (x : String). Lacks (replace_form x s)) same (replace_form-removes s))))
      | inr e ↦ replace_secrets-removes secrets _ (rw e at h)
    ]

    redact_keys-keeps :
        (keys : List String) (s : String) → Lacks s → Lacks (redact_keys quote quote_plus keys s)
    unfolding redact_keys
    redact_keys-keeps [] s h = h
    redact_keys-keeps (key ∷ keys) s h =
        redact_keys-keeps keys _ (Lacks-Cut (redact_key-Cut key between s) h)

    -- A registered secret that has neither end of the marker in it, and is no part of the word
    -- between them, does not occur in a text that was scrubbed, whatever else was registered, in
    -- whichever order, and whatever the two encodings do.
    pub contains-scrub :
        (s : Scrubber) (text : String)
        → contains s.secrets t ≡ true
        → contains_text t (scrub quote quote_plus s text) ≡ false
    unfolding scrub
    contains-scrub s text registered =
        redact_keys-keeps s.auth_keys _ (replace_secrets-removes s.secrets text registered)
