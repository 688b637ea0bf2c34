-- ===== src/Descriptor/Maps.antt =====
-- core/descriptor.py: the maps of types and of errors.
use Prim.Native.Char.{code}
use r64_db_engine.Base.{
  String, ◌≡◌, ◌≢◌, ◌↔◌, refl, inl, inr, Bool, true, not, ◌||◌, List, [], ◌∷◌, string_eq,
  Bool-cases, All, arith,
}
use r64_db_engine.Base.Results.{Result, ok, guard, ◌>>◌, >>-eq-ok, guard-eq-ok}
use r64_db_engine.Descriptor.{
  TypeMap, ErrorMap, Representability, native, coerced, string_fallback, refused, is_native,
  is_blank, check_type_map, check_error_map, check_type_maps, check_error_maps, interpolates,
}
use r64_db_engine.Descriptor.Placeholders.{HasPlaceholder, interpolates-HasPlaceholder}
use r64_db_engine.Descriptor.Filled.{IsFilled, IsFilled-ok}

abbrev pub IsValidTypeMap : TypeMap → Type 0
IsValidTypeMap tm =
    IsFilled tm.source_type × IsFilled tm.arrow_type × (tm.verdict ≢ native → IsFilled tm.note)

abbrev pub IsValidErrorMap : (String → Bool) → ErrorMap → Type 0
IsValidErrorMap compiles em =
    IsFilled em.pattern
    × (compiles em.pattern ≡ true)
    × IsFilled em.reason_code
    × IsFilled em.operator_message
    × (¬ HasPlaceholder em.operator_message)

-- A type that is carried as it is needs no note.
note-ok :
    (v : Representability) (note : String)
    → ((is_native v || not (is_blank note)) ≡ true) ↔ (v ≢ native → IsFilled note)
note-ok native note = ((λ h d. elim (d refl) [ ]), (λ h. refl))
note-ok coerced note = ((λ h d. (IsFilled-ok note).0 h), (λ h. (IsFilled-ok note).1 (h (λ p. cc))))
note-ok string_fallback note =
    ((λ h d. (IsFilled-ok note).0 h), (λ h. (IsFilled-ok note).1 (h (λ p. cc))))
note-ok refused note = ((λ h d. (IsFilled-ok note).0 h), (λ h. (IsFilled-ok note).1 (h (λ p. cc))))

-- A test behind other checks.
pub last_guard :
    {E : Type 0} (k : Result E (Unit {0})) (b : Bool) (e : E)
    → (k >> guard b e) ≡ ok tt
    → (k ≡ ok tt) × (b ≡ true)
last_guard k b e h = let (first, last) = >>-eq-ok k _ h in (first, guard-eq-ok b e last)

-- A check behind other checks.
pub last_check :
    {E : Type 0} (k m : Result E (Unit {0})) → (k >> m) ≡ ok tt → (k ≡ ok tt) × (m ≡ ok tt)
last_check k m h = >>-eq-ok k m h

check_type_map-ok : (tm : TypeMap) → (check_type_map tm ≡ ok tt) ↔ IsValidTypeMap tm
unfolding check_type_map
check_type_map-ok tm = (
  λ h.
      let (h1, note) = last_guard _ _ _ h in
      let (h2, arrow) = last_guard _ _ _ h1 in
      (
        (IsFilled-ok tm.source_type).0 (guard-eq-ok _ _ h2),
        (IsFilled-ok tm.arrow_type).0 arrow,
        (note-ok tm.verdict tm.note).0 note,
      ),
  λ (source, arrow, note).
      rw
        (
          (IsFilled-ok tm.source_type).1 source,
          (IsFilled-ok tm.arrow_type).1 arrow,
          (note-ok tm.verdict tm.note).1 note,
        )
        refl,
)

value_free : (s : String) → (not (interpolates s) ≡ true) ↔ (¬ HasPlaceholder s)
value_free s = (
  λ h p. let bad = (interpolates-HasPlaceholder s).1 p in ground arith,
  λ h. elim (Bool-cases (interpolates s)) [
    | inl e ↦ elim (h ((interpolates-HasPlaceholder s).0 e)) [ ]
    | inr e ↦ rw e refl
  ],
)

check_error_map-ok :
    (compiles : String → Bool) (em : ErrorMap)
    → (check_error_map compiles em ≡ ok tt) ↔ IsValidErrorMap compiles em
unfolding check_error_map
check_error_map-ok compiles em = (
  λ h.
      let (h1, free) = last_guard _ _ _ h in
      let (h2, message) = last_guard _ _ _ h1 in
      let (h3, code) = last_guard _ _ _ h2 in
      let (h4, regex) = last_guard _ _ _ h3 in
      (
        (IsFilled-ok em.pattern).0 (guard-eq-ok _ _ h4),
        regex,
        (IsFilled-ok em.reason_code).0 code,
        (IsFilled-ok em.operator_message).0 message,
        (value_free em.operator_message).0 free,
      ),
  λ (pattern, regex, code, message, free).
      rw
        (
          (IsFilled-ok em.pattern).1 pattern,
          regex,
          (IsFilled-ok em.reason_code).1 code,
          (IsFilled-ok em.operator_message).1 message,
          (value_free em.operator_message).1 free,
        )
        refl,
)

pub check_type_maps-ok :
    (tms : List TypeMap) → (check_type_maps tms ≡ ok tt) ↔ All IsValidTypeMap tms
unfolding check_type_maps
check_type_maps-ok [] = ((λ h. tt), (λ h. refl))
check_type_maps-ok (tm ∷ tms) = (
  λ h.
      let (one, rest) = last_check _ _ h in
      ((check_type_map-ok tm).0 one, (check_type_maps-ok tms).0 rest),
  λ h. rw ((check_type_map-ok tm).1 h.0) ((check_type_maps-ok tms).1 h.1),
)

pub check_error_maps-ok :
    (compiles : String → Bool) (ems : List ErrorMap)
    → (check_error_maps compiles ems ≡ ok tt) ↔ All (IsValidErrorMap compiles) ems
unfolding check_error_maps
check_error_maps-ok compiles [] = ((λ h. tt), (λ h. refl))
check_error_maps-ok compiles (em ∷ ems) = (
  λ h.
      let (one, rest) = last_check _ _ h in
      ((check_error_map-ok compiles em).0 one, (check_error_maps-ok compiles ems).0 rest),
  λ h. rw ((check_error_map-ok compiles em).1 h.0) ((check_error_maps-ok compiles ems).1 h.1),
)
