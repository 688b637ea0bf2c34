-- ===== src/Registry/Resolved.antt =====
-- drivers/__init__.py: which dialects are listed, resolved and described.
use r64_db_engine.Base.{
  ◌≢◌, is_some, String, ◌≡◌, refl, sym, ap, ◌∙◌, ◌⊎◌, inl, inr, Bool, true, false, ◌||◌, none, some,
  List, [], ◌∷◌, ◌++◌, length, contains, string_eq, Option-cases,
}
use mathlib.Core.Path.{subst}
use r64_db_engine.Base.Results.{Result, ok, err, >>=-eq-ok, ok-injective}
use r64_db_engine.Base.Dict.{Dict, keys, lookup}
use r64_db_engine.Config.{Config, validate}
use r64_db_engine.Config.Valid.{validate-IsValidConfig}
use r64_db_engine.Registry.{
  Entry, manifest, RegistryError, key_error, shipped, unknown_dialect, import_error, Modules,
  Overlay, has_dialect, iter, len, resolve, unless_known, descriptor, descriptors, descriptors_of,
}
use r64_db_engine.Config.Env.Sorted.{
  IsAscending, sorted_set-IsAscending, contains-sorted_set, contains-append, contains-keys,
}

or_comm : (a b : Bool) → (a || b) ≡ (b || a)
or_comm true true = refl
or_comm true false = refl
or_comm false true = refl
or_comm false false = refl

module _ (modules : Modules) where
  contains-iter :
      (overlay : Overlay modules) (key : String)
      → contains (iter modules overlay) key ≡ has_dialect modules overlay key
  unfolding iter
  contains-iter overlay key =
      contains-sorted_set key (keys manifest ++ keys overlay)
      ∙ contains-append key (keys manifest) (keys overlay)
      ∙ ap (λ r. contains (keys manifest) key || r) (contains-keys key overlay)
      ∙ ap (λ r. r || is_some (lookup key overlay)) (contains-keys key manifest)
      ∙ or_comm (is_some (lookup key manifest)) (is_some (lookup key overlay))

  -- The iteration is by code points and names no dialect twice, `in` holds of exactly the names that it
  -- lists, `len` is their number.
  iter-IsAscending :
      (overlay : Overlay modules)
      → IsAscending (iter modules overlay)
        × ((key : String) → contains (iter modules overlay) key ≡ has_dialect modules overlay key)
        × (length (iter modules overlay) ≡ len modules overlay)
  unfolding iter
  iter-IsAscending overlay =
      (sorted_set-IsAscending (keys manifest ++ keys overlay), contains-iter overlay, refl)

  -- What resolves when a module is imported: the class that the import yields; the exception that it
  -- raises; or, when that is a `KeyError`, the error of an unknown dialect with the listed names.
  abbrev pub IsImported : Overlay modules → String → Entry → Type 0
  IsImported overlay dialect entry =
      ((driver : modules.Driver) × (modules.driver_of entry ≡ ok driver)
        × (resolve modules overlay dialect ≡ ok driver))
      ⊎ (((e : RegistryError) × (modules.driver_of entry ≡ err e)
            × ((key : String) → e ≢ key_error key)
            × (resolve modules overlay dialect ≡ err e))
          ⊎ ((key : String) × (modules.driver_of entry ≡ err (key_error key))
              × (resolve modules overlay dialect
                  ≡ err (unknown_dialect dialect (iter modules overlay)))))

  -- What a registered dialect resolves to: the class of the overlay, or else what the import of its
  -- manifest entry makes of it.
  abbrev pub IsRegistered : Overlay modules → String → Type 0
  IsRegistered overlay dialect =
      ((driver : modules.Driver) × (lookup dialect overlay ≡ some driver)
        × (resolve modules overlay dialect ≡ ok driver))
      ⊎ ((entry : Entry) × (lookup dialect overlay ≡ none)
          × (lookup dialect manifest ≡ some entry)
          × IsImported overlay dialect entry)

  resolve_entry :
      (overlay : Overlay modules) (dialect : String) (entry : Entry)
      (r : Result RegistryError modules.Driver)
      → modules.driver_of entry ≡ r
      → resolve modules overlay dialect ≡ unless_known modules overlay dialect r
      → IsImported overlay dialect entry
  resolve_entry overlay dialect entry (ok driver) e h = inl (driver, e, h)
  resolve_entry overlay dialect entry (err (key_error key)) e h = inr (inr (key, e, h))
  resolve_entry overlay dialect entry (err (shipped key)) e h =
      inr (inl (shipped key, e, (λ k p. cc), h))
  resolve_entry overlay dialect entry (err (unknown_dialect d names)) e h =
      inr (inl (unknown_dialect d names, e, (λ k p. cc), h))
  resolve_entry overlay dialect entry (err (import_error message)) e h =
      inr (inl (import_error message, e, (λ k p. cc), h))

  registered :
      (overlay : Overlay modules) (dialect : String)
      → has_dialect modules overlay dialect ≡ true
      → IsRegistered overlay dialect
  unfolding resolve
  registered overlay dialect h = elim (Option-cases (lookup dialect overlay)) [
    | inl e ↦ elim (Option-cases (lookup dialect manifest)) [
      | inl f ↦ let bad = rw (e, f) at h in cc
      | inr (entry, f) ↦ inr (
        entry,
        e,
        f,
        resolve_entry overlay dialect entry (modules.driver_of entry) refl (rw (e, f) refl),
      )
    ]
    | inr (driver, e) ↦ inl (driver, e, rw e refl)
  ]

  -- The dialect of a configuration that was validated against the registered names resolves to the class of
  -- the overlay, or else to the class that the import of its manifest entry yields; an exception of the
  -- import passes, but a `KeyError` becomes the error of an unknown dialect.
  pub resolve-validate :
      (overlay : Overlay modules) (c : Config)
      → validate (iter modules overlay) c ≡ ok tt
      → IsRegistered overlay c.dialect
  resolve-validate overlay c h = registered overlay c.dialect (
      sym (contains-iter overlay c.dialect)
      ∙ (validate-IsValidConfig (iter modules overlay) c h).dialect_known)

  -- Entries are the descriptors of their names.
  abbrev pub AreDescriptors : Overlay modules → Dict String modules.Metadata → Type 0
  AreDescriptors overlay [] = Unit
  AreDescriptors overlay ((dialect, one) ∷ found) =
      (descriptor modules overlay dialect ≡ ok one) × AreDescriptors overlay found

  descriptors_of-keys :
      (overlay : Overlay modules) (dialects : List String) (found : Dict String modules.Metadata)
      → descriptors_of modules overlay dialects ≡ ok found
      → (keys found ≡ dialects) × AreDescriptors overlay found
  unfolding descriptors_of
  descriptors_of-keys overlay [] found h =
      subst (λ x. (keys x ≡ []) × AreDescriptors overlay x) (ok-injective [] found h) (refl, tt)
  descriptors_of-keys overlay (d ∷ ds) found h =
      let (one, this, h1) = >>=-eq-ok (descriptor modules overlay d) _ h in
      let (others, those, h2) = >>=-eq-ok (descriptors_of modules overlay ds) _ h1 in
      let (names, all) = descriptors_of-keys overlay ds others those in
      subst (λ x. (keys x ≡ d ∷ ds) × AreDescriptors overlay x)
        (ok-injective ((d, one) ∷ others) found h2)
        (ap (λ (ns : List String). d ∷ ns) names, (this, all))

  -- The descriptors that a sweep returns are those of the listed dialects, one for each in the listed order,
  -- which is ascending and depends on the names alone.
  descriptors-keys :
      (overlay : Overlay modules) (found : Dict String modules.Metadata)
      → descriptors modules overlay ≡ ok found
      → (keys found ≡ iter modules overlay)
        × IsAscending (keys found)
        × AreDescriptors overlay found
  unfolding descriptors
  descriptors-keys overlay found h =
      let (names, all) = descriptors_of-keys overlay (iter modules overlay) found h in
      (names, subst IsAscending (sym names) ((iter-IsAscending overlay).0), all)
