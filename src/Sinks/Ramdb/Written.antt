-- ===== src/Sinks/Ramdb/Written.antt =====
-- core/ramdb_writer.py: what a write leaves in the directory, whatever its calls do.
use r64_db_engine.Base.{
  String, ◌≡◌, ◌≢◌, refl, ◌∙◌, Bool, true, false, Option, none, some, [], ◌∷◌, ◌&&◌, if◌then◌else◌,
  ◌==◌, string_eq, arith, inl, inr, Bool-cases, Option-cases, is_none,
}
use r64_db_engine.Base.Results.{Result, ok, err, is_ok}
use r64_db_engine.Base.Dict
use r64_db_engine.Base.Dict.{Dict, lookup-insert, lookup-erase}
use r64_db_engine.Sinks.Replace.{
  Disk, WriteError, Saving, complete, cut_short, Calls, target_path, temp_path, ensure_dirs,
}
use r64_db_engine.Sinks.Replace.Lookups.{
  String-cases, lookup-unlink, lookup-rename_other, lookup-rename_final,
}
use r64_db_engine.Sinks.Ramdb.{
  Frame, apply_ramdb_null_fill, series_unsafe, raise_on_codec_unsafe_int64, Codec, save, after_save,
  replace_file, write_checked, write,
}

-- No integer of the frame is outside the 32 bits of the codec.
unfoldable pub is_safe : Frame → Bool
is_safe [] = true
is_safe ((_, series) ∷ df) = is_none (series_unsafe series) && is_safe df

-- The codec finishes and the renaming does not raise.
abbrev pub goes_well : {Bytes : Type 0} → Saving Bytes → Option String → Bool
goes_well complete rename_error = is_none rename_error
goes_well (cut_short _ _) rename_error = false

is_ok-raise_on_codec_unsafe_int64 :
    (df : Frame) → is_ok (raise_on_codec_unsafe_int64 df) ≡ is_safe df
unfolding raise_on_codec_unsafe_int64 is_safe
is_ok-raise_on_codec_unsafe_int64 [] = refl
is_ok-raise_on_codec_unsafe_int64 ((c, s) ∷ df) =
    ground (arith, is_ok-raise_on_codec_unsafe_int64 df)

module _ {Bytes : Type 0} (calls : Calls Bytes) (tmp final : String) (content : Bytes) where
  -- The writing of the file: whether it returns, and what stands under each name but the temporary one.
  abbrev Replaced :
      Option String
      → Saving Bytes
      → Result WriteError String × Dict String Bytes
      → String
      → Option Bytes
      → Type 0
  Replaced rename_error saving (result, left) name before =
      (is_ok result ≡ goes_well saving rename_error)
      × (Dict.lookup name left
          ≡ (if goes_well saving rename_error && name == final then some content else before))

  replaced :
      (saving : Saving Bytes) (rename_error : Option String) (name : String) (d : Dict String Bytes)
      → name ≢ tmp
      → let (raised, d1) = save saving tmp content d in
        Replaced rename_error saving
          (after_save raised rename_error tmp final d1)
          name
          (Dict.lookup name d)
  unfolding save
  replaced complete none name d ne = elim (String-cases name final) [
    | inl e ↦ (
      refl,
      ground (
        arith,
        lookup-rename_final tmp final content (Dict.insert tmp content d)
            (ground (arith, lookup-insert tmp tmp content d)),
      ),
    )
    | inr n ↦ (
      refl,
      ground (
        arith,
        lookup-rename_other tmp final name (Dict.insert tmp content d) ne n,
        lookup-insert name tmp content d,
      ),
    )
  ]
  replaced complete (some e) name d ne = (refl, ground (arith, lookup-insert name tmp content d))
  replaced (cut_short e none) r name d ne = (refl, refl)
  replaced (cut_short e (some b)) r name d ne = (refl, ground (arith, lookup-insert name tmp b d))

  pub replace_file-outcome :
      (name : String) (d : Dict String Bytes)
      → name ≢ tmp
      → Replaced calls.rename_error calls.saving
          (replace_file calls tmp final content d)
          name
          (Dict.lookup name d)
  unfolding replace_file
  replace_file-outcome name d ne =
      let (raised, d1) = save calls.saving tmp content d in
      let (done, look) = replaced calls.saving calls.rename_error name d ne in
      (
        done,
        lookup-unlink tmp calls.stuck name (after_save raised calls.rename_error tmp final d1).1 ne
            ∙ look,
      )

module _ {Bytes : Type 0} (codec : Codec Bytes) (calls : Calls Bytes) where
  checked :
      (hex : String) (filled : Frame) (target : String) (disk : Disk Bytes) (name : String)
      (r : Result WriteError (Unit {0})) (safe : Bool)
      → name ≢ temp_path ".ramdb" target hex
      → is_ok r ≡ safe
      → let good = safe && goes_well calls.saving calls.rename_error in
        let (result, left) = write_checked codec calls hex filled target disk r in
        (is_ok result ≡ good)
        × (Dict.lookup name left.entries ≡ (
            if good && name == target_path ".ramdb" target
            then some (codec.encode filled)
            else Dict.lookup name disk.entries))
  checked hex filled target disk name (ok _) true ne h =
      replace_file-outcome calls (temp_path ".ramdb" target hex) (target_path ".ramdb" target)
        (codec.encode filled) name disk.entries ne
  checked hex filled target disk name (ok _) false ne h = cc
  checked hex filled target disk name (err e) true ne h = cc
  checked hex filled target disk name (err e) false ne h = (refl, refl)

  -- A write returns exactly when the root of the sink exists, its directory can be made, no integer of the null-filled
  -- frame is outside 32 bits, the codec finishes and the renaming does not raise. Under every name but
  -- the temporary file's, the directory then holds what it held before, except that the target's file
  -- is the encoding of the null-filled frame if the write returned: a write that raises leaves every
  -- file as it was.
  pub write_outcome :
      (hex : String) (df : Frame) (target : String) (disk : Disk Bytes) (name : String)
      → name ≢ temp_path ".ramdb" target hex
      → let filled = apply_ramdb_null_fill df in
        let good =
          disk.root_exists
          && (is_none calls.mkdir_error
              && (is_safe filled && goes_well calls.saving calls.rename_error)) in
        let (result, left) = write codec calls hex df target disk in
        (is_ok result ≡ good)
        × (Dict.lookup name left.entries ≡ (
            if good && name == target_path ".ramdb" target
            then some (codec.encode filled)
            else Dict.lookup name disk.entries))
  unfolding write ensure_dirs replace_file
  write_outcome hex df target disk name ne = elim (Bool-cases disk.root_exists) [
    | inl there ↦ elim (Option-cases calls.mkdir_error) [
      | inl made ↦
          let filled = apply_ramdb_null_fill df in
          rw (there, made)
            (checked hex filled target (record disk { root_exists = true; dir_exists = true }) name
              (raise_on_codec_unsafe_int64 filled) (is_safe filled) ne
              (is_ok-raise_on_codec_unsafe_int64 filled))
      | inr (e, raised) ↦ rw (there, raised) (refl, refl)
    ]
    | inr missing ↦ rw missing (refl, refl)
  ]
