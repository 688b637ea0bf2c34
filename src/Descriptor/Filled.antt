-- ===== src/Descriptor/Filled.antt =====
-- core/descriptor.py: texts that are not blank and names that are not repeated.
use Prim.Native.Char.{Char, code}
use r64_db_engine.Base.{
  String, ◌≡◌, ◌≢◌, ◌↔◌, refl, inl, inr, true, false, not, ◌||◌, ◌==◌, List, [], ◌∷◌, string_eq,
  is_empty, is_space, contains, Bool-cases, All, arith,
}
use r64_db_engine.Base.Results.{ok, >>-eq-ok, guard-eq-ok}
use r64_db_engine.Rest.Texts.{strip, rstrip, lstrip, keep_end}
use r64_db_engine.Descriptor.{is_blank, reject_repeated}
use r64_db_engine.Descriptor.Names.{all_code}

-- Something other than white space.
abbrev pub IsFilled : String → Type 0
IsFilled s = all_code is_space s ≡ false

keep_end-filled :
    (c : Char) (s : String) → is_space (code c) ≡ false → is_empty (keep_end is_space c s) ≡ false
keep_end-filled c String.[] h = rw h refl
keep_end-filled c (String.◌∷◌ d s) h = refl

is_blank-all : (s : String) → is_blank s ≡ all_code is_space s
unfolding strip rstrip lstrip
is_blank-all String.[] = refl
is_blank-all (String.◌∷◌ c s) = elim (Bool-cases (is_space (code c))) [
  | inl e ↦ rw e (is_blank-all s)
  | inr e ↦ rw e (keep_end-filled c (rstrip is_space s) e)
]

pub IsFilled-ok : (s : String) → (not (is_blank s) ≡ true) ↔ IsFilled s
IsFilled-ok s = rw (is_blank-all s) ((λ h. ground arith), (λ h. ground arith))

-- ---- names that are not repeated

abbrev pub Distinct : List String → Type 0
Distinct [] = Unit
Distinct (n ∷ ns) = All (λ m. m ≢ n) ns × Distinct ns

abbrev Fresh : List String → List String → Type 0
Fresh seen ns = All (λ m. contains seen m ≡ false) ns

Fresh-cons :
    (n : String) (seen ns : List String)
    → Fresh (n ∷ seen) ns ↔ (All (λ m. m ≢ n) ns × Fresh seen ns)
Fresh-cons n seen [] = ((λ h. (tt, tt)), (λ h. tt))
Fresh-cons n seen (m ∷ ns) = (
  λ h.
      let (others, old) = (Fresh-cons n seen ns).0 h.1 in
      ((not_here.0 h.0, others), (not_here.1 h.0, old)),
  λ h. (together h.0.0 h.1.0, (Fresh-cons n seen ns).1 (h.0.1, h.1.1)),
)
  where
    not_here :
        (((m == n) || contains seen m) ≡ false → m ≢ n)
        × (((m == n) || contains seen m) ≡ false → contains seen m ≡ false)
    not_here = ((λ h. ground arith), (λ h. ground arith))

    together : m ≢ n → contains seen m ≡ false → ((m == n) || contains seen m) ≡ false
    together d h = ground arith

reject_repeated-ok :
    (seen ns : List String) → (reject_repeated seen ns ≡ ok tt) ↔ (Fresh seen ns × Distinct ns)
unfolding reject_repeated
reject_repeated-ok seen [] = ((λ h. (tt, tt)), (λ h. refl))
reject_repeated-ok seen (n ∷ ns) = (
  λ h.
      let (free, rest) = >>-eq-ok _ _ h in
      let (fresh, distinct) = (reject_repeated-ok (n ∷ seen) ns).0 rest in
      let (others, old) = (Fresh-cons n seen ns).0 fresh in
      let free_test = guard-eq-ok _ _ free in ((ground arith, old), (others, distinct)),
  λ h.
      let new : contains seen n ≡ false = h.0.0 in
      rw new
        ((reject_repeated-ok (n ∷ seen) ns).1 ((Fresh-cons n seen ns).1 (h.1.0, h.0.1), h.1.1)),
)

Fresh-none : (ns : List String) → Fresh [] ns
Fresh-none [] = tt
Fresh-none (n ∷ ns) = (refl, Fresh-none ns)

pub Distinct-ok : (ns : List String) → (reject_repeated [] ns ≡ ok tt) ↔ Distinct ns
Distinct-ok ns = (
  (λ h. ((reject_repeated-ok [] ns).0 h).1),
  (λ h. (reject_repeated-ok [] ns).1 (Fresh-none ns, h)),
)
