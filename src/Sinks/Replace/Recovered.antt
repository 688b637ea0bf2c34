-- ===== src/Sinks/Replace/Recovered.antt =====
-- core/ramdb_writer.py and sinks/arrow_ipc.py: what a reader finds, whenever a write is cut short.
use r64_db_engine.Base.{
  String, ◌≡◌, ◌≢◌, ◌⊎◌, inl, inr, refl, ap, ◌∙◌, Bool, true, false, [], ◌∷◌, none, some,
  if◌then◌else◌, ◌==◌, string_eq, nat_eq, eq_of_==, arith, Bool-cases,
}
use r64_db_engine.Base.Dict
use r64_db_engine.Base.Dict.{Dict, lookup-insert, lookup-erase}
use r64_db_engine.Sinks.Replace.{
  Disk, target_path, temp_path, is_orphan, safe_unlink, unlink_orphans, cleanup_orphan_tempfiles,
}
use r64_db_engine.Sinks.Replace.Lookups.{
  String-cases, temp_path-orphan, ne_of_orphan, lookup-unlink, lookup-rename_other,
  lookup-rename_final,
}
use r64_db_engine.Sinks.Replace.Steps.{
  Phase, saving, saved, cleaning, returned, dead, Step, save_some, save_all, save_raises, renames,
  rename_raises, unlinks, terminates, killed, Reach, here, next,
}

module _ {Bytes : Type 0} where
  module _ (tmp final : String) (content : Bytes) (d₀ : Dict String Bytes) where
    -- The other files are as they were.
    abbrev OthersKept : Dict String Bytes → Type 0
    OthersKept d =
        (name : String) → name ≢ tmp → name ≢ final → Dict.lookup name d ≡ Dict.lookup name d₀

    -- The file is the old one or the whole new one.
    abbrev OldOrNew : Dict String Bytes → Type 0
    OldOrNew d = (Dict.lookup final d ≡ Dict.lookup final d₀) ⊎ (Dict.lookup final d ≡ some content)

    abbrev IsSafe : Phase → Dict String Bytes → Type 0
    IsSafe saving d = OthersKept d × (Dict.lookup final d ≡ Dict.lookup final d₀)
    IsSafe saved d =
        OthersKept d
        × (Dict.lookup final d ≡ Dict.lookup final d₀)
        × (Dict.lookup tmp d ≡ some content)
    IsSafe _ d = OthersKept d × OldOrNew d

    weaken : (p : Phase) (d : Dict String Bytes) → IsSafe p d → OthersKept d × OldOrNew d
    weaken saving d h = (h.0, inl h.1)
    weaken saved d h = (h.0, inl h.1)
    weaken cleaning d h = h
    weaken returned d h = h
    weaken dead d h = h

    module _ (apart : final ≢ tmp) where
      unlink-safe :
          (stuck : String → Bool) (d : Dict String Bytes)
          → OthersKept d × OldOrNew d
          → OthersKept (safe_unlink stuck tmp d) × OldOrNew (safe_unlink stuck tmp d)
      unlink-safe stuck d (kept, file) =
          (λ name n1 n2. lookup-unlink tmp stuck name d n1 ∙ kept name n1 n2, moved file)
        where
          moved : OldOrNew d → OldOrNew (safe_unlink stuck tmp d)
          moved (inl e) = inl (lookup-unlink tmp stuck final d apart ∙ e)
          moved (inr e) = inr (lookup-unlink tmp stuck final d apart ∙ e)

      insert-tmp :
          (b : Bytes) (name : String) (d : Dict String Bytes)
          → name ≢ tmp
          → Dict.lookup name (Dict.insert tmp b d) ≡ Dict.lookup name d
      insert-tmp b name d ne = ground (arith, lookup-insert name tmp b d)

      Step-IsSafe :
          {p q : Phase} {d e : Dict String Bytes}
          → Step tmp final content p d q e
          → IsSafe p d
          → IsSafe q e
      Step-IsSafe (save_some d b) (kept, old) =
          (λ name n1 n2. insert-tmp b name d n1 ∙ kept name n1 n2, insert-tmp b final d apart ∙ old)
      Step-IsSafe (save_all d) (kept, old) = (
        λ name n1 n2. insert-tmp content name d n1 ∙ kept name n1 n2,
        insert-tmp content final d apart ∙ old,
        ground (arith, lookup-insert tmp tmp content d),
      )
      Step-IsSafe (save_raises d) (kept, old) = (kept, inl old)
      Step-IsSafe (renames d) (kept, old, whole) = (
        λ name n1 n2. lookup-rename_other tmp final name d n1 n2 ∙ kept name n1 n2,
        inr (lookup-rename_final tmp final content d whole),
      )
      Step-IsSafe (rename_raises d) (kept, old, whole) = (kept, inl old)
      Step-IsSafe (unlinks d stuck) h = unlink-safe stuck d h
      Step-IsSafe (terminates p d stuck) h = unlink-safe stuck d (weaken p d h)
      Step-IsSafe (killed p d) h = weaken p d h

      pub Reach-IsSafe :
          {p : Phase} {d : Dict String Bytes} → Reach tmp final content d₀ p d → IsSafe p d
      Reach-IsSafe here = (λ name n1 n2. refl, refl)
      Reach-IsSafe (next r s) = Step-IsSafe s (Reach-IsSafe r)

  -- ---- the clean-up of the next start

  kept_by_cleanup :
      (ext name : String) (names d : Dict String Bytes)
      → is_orphan ext name ≡ false
      → Dict.lookup name (unlink_orphans (λ _. false) ext names d).1 ≡ Dict.lookup name d
  unfolding unlink_orphans safe_unlink
  kept_by_cleanup ext name [] d h = refl
  kept_by_cleanup ext name ((j, _) ∷ names) d h = elim (Bool-cases (is_orphan ext j)) [
    | inl o ↦
        rw o
          (kept_by_cleanup ext name names (Dict.erase j d) h ∙ lookup-erase name j d ∙ ground arith)
    | inr o ↦ rw o (kept_by_cleanup ext name names d h)
  ]

  removed_by_cleanup :
      (ext name : String) (names d : Dict String Bytes)
      → is_orphan ext name ≡ true
      → (Dict.lookup name names ≡ none → Dict.lookup name d ≡ none)
      → Dict.lookup name (unlink_orphans (λ _. false) ext names d).1 ≡ none
  unfolding unlink_orphans safe_unlink Dict.lookup
  removed_by_cleanup ext name [] d h listed = listed refl
  removed_by_cleanup ext name ((j, b) ∷ names) d h listed = elim (Bool-cases (name == j)) [
    | inl e ↦
        let o : is_orphan ext j ≡ true = rw (eq_of_== name j e) at h in
        rw o
          (removed_by_cleanup ext name names (Dict.erase j d) h (λ _. lookup-erase name j d ∙ rw e))
    | inr e ↦ elim (Bool-cases (is_orphan ext j)) [
      | inl o ↦ rw o (
          removed_by_cleanup ext name names (Dict.erase j d) h
            (λ q. lookup-erase name j d ∙ rw e (listed (rw e q))))
      | inr o ↦ rw o (removed_by_cleanup ext name names d h (λ q. listed (rw e q)))
    ]
  ]

  cleaned :
      (ext : String) (disk : Disk Bytes)
      → disk.dir_exists ≡ true
      → (cleanup_orphan_tempfiles (λ _. false) ext disk).1.entries
        ≡ (unlink_orphans (λ _. false) ext disk.entries disk.entries).1
  unfolding cleanup_orphan_tempfiles
  cleaned ext disk there = ground arith

  -- A write that reached any phase, in particular one that a signal, a crash or a failing call cut
  -- short, followed by the clean-up of the next start (whose unlinking does not fail), leaves every
  -- name of the directory as it was before the write, less the temporary files: except that the
  -- target's file may be the whole new one. So no reader finds a part of a file there, and nothing of
  -- the write is left over. The target's file name must not itself be that of a temporary file.
  pub crash_recovery :
      (ext target hex : String) (content : Bytes) (disk : Disk Bytes) {p : Phase}
      {d : Dict String Bytes} (name : String)
      → disk.dir_exists ≡ true
      → is_orphan ext (target_path ext target) ≡ false
      → Reach (temp_path ext target hex) (target_path ext target) content disk.entries p d
      → let left = (cleanup_orphan_tempfiles (λ _. false) ext (record disk { entries = d })).1 in
        (Dict.lookup name left.entries
          ≡ (if is_orphan ext name then none else Dict.lookup name disk.entries))
        ⊎ ((name ≡ target_path ext target) × (Dict.lookup name left.entries ≡ some content))
  crash_recovery ext target hex content disk {p} {d} name there plain r =
      let tmp = temp_path ext target hex in
      let final = target_path ext target in
      let apart = ne_of_orphan ext tmp final (temp_path-orphan ext target hex) plain in
      let (kept, file) =
        weaken tmp final content disk.entries p d
          (Reach-IsSafe tmp final content disk.entries apart r) in
      let swept = cleaned ext (record disk { entries = d }) there in
      let look = ap (λ (e : Dict String Bytes). Dict.lookup name e) swept in
      elim (Bool-cases (is_orphan ext name)) [
        | inl o ↦ rw o (inl (look ∙ removed_by_cleanup ext name d d o (λ q. q)))
        | inr o ↦
            let same = look ∙ kept_by_cleanup ext name d d o in
            elim (String-cases name final) [
              | inl e ↦ elim file [
                | inl old ↦ rw o (inl (same ∙ rw e old))
                | inr new ↦ inr (e, same ∙ rw e new)
              ]
              | inr ne ↦ rw o (
                  inl (
                    same
                    ∙ kept name
                        (λ q. ne_of_orphan ext tmp name (temp_path-orphan ext target hex) o q) ne))
            ]
      ]
