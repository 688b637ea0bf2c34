-- ===== src/Sinks/ArrowIpc/Written.antt =====
-- sinks/arrow_ipc.py: what a write leaves in the directory, whatever its calls do.
use r64_db_engine.Base.{
  String, ◌≡◌, ◌≢◌, refl, ◌∙◌, Bool, false, Option, none, some, ◌&&◌, if◌then◌else◌, ◌==◌,
  string_eq, arith, inl, inr, Bool-cases, Option-cases, is_none,
}
use r64_db_engine.Base.Results.{Result, ok, err, is_ok}
use r64_db_engine.Base.Dict
use r64_db_engine.Base.Dict.{Dict, lookup-insert}
use r64_db_engine.Sinks.Replace.{
  Disk, WriteError, Saving, complete, cut_short, target_path, temp_path, ensure_dirs, safe_unlink,
  rename,
}
use r64_db_engine.Sinks.Replace.Lookups.{
  String-cases, lookup-unlink, lookup-rename_other, lookup-rename_final,
}
use r64_db_engine.Sinks.ArrowIpc.{Opened}
use r64_db_engine.Sinks.ArrowIpc.Table.{PyArrow, Table, to_arrow_table}
use r64_db_engine.Sinks.ArrowIpc.Write.{
  ArrowCalls, columns_for, saved_file, after_ipc_file, write_table, write_converted, write,
}

-- The file is written, synchronized and renamed; the synchronization of the directory is later.
abbrev pub is_renamed : {Bytes : Type 0} → Saving Bytes → Option String → Option String → Bool
is_renamed complete fsync_error rename_error = is_none fsync_error && is_none rename_error
is_renamed (cut_short _ _) fsync_error rename_error = false

module _ {Bytes : Type 0} (tmp final : String) (content : Bytes) where
  abbrev Replaced :
      Bool
      → Option String
      → Result WriteError String × Dict String Bytes
      → String
      → Option Bytes
      → Type 0
  Replaced renamed dir_error (result, left) name before =
      (is_ok result ≡ (renamed && is_none dir_error))
      × (Dict.lookup name left ≡ (if renamed && name == final then some content else before))

  renamed_file :
      (name : String) (d : Dict String Bytes)
      → name ≢ tmp
      → Dict.lookup name (rename tmp final (Dict.insert tmp content d))
        ≡ (if name == final then some content else Dict.lookup name d)
  renamed_file name d ne = elim (String-cases name final) [
    | inl e ↦ ground (
      arith,
      lookup-rename_final tmp final content (Dict.insert tmp content d)
          (ground (arith, lookup-insert tmp tmp content d)),
    )
    | inr n ↦ ground (
      arith,
      lookup-rename_other tmp final name (Dict.insert tmp content d) ne n,
      lookup-insert name tmp content d,
    )
  ]

  replaced :
      (sv : Saving Bytes) (fsync rename_error fsync_dir : Option String) (name : String)
      (d : Dict String Bytes)
      → name ≢ tmp
      → let (raised, d1) = saved_file tmp final sv content d in
        Replaced
          (is_renamed sv fsync rename_error)
          fsync_dir
          (after_ipc_file tmp final raised fsync rename_error fsync_dir d1)
          name
          (Dict.lookup name d)
  replaced complete none none none name d ne = (refl, renamed_file name d ne)
  replaced complete none none (some e) name d ne = (refl, renamed_file name d ne)
  replaced complete none (some e) f name d ne =
      (refl, ground (arith, lookup-insert name tmp content d))
  replaced complete (some e) r f name d ne =
      (refl, ground (arith, lookup-insert name tmp content d))
  replaced (cut_short e none) r s f name d ne = (refl, refl)
  replaced (cut_short e (some b)) r s f name d ne =
      (refl, ground (arith, lookup-insert name tmp b d))

module _ {Frame Bytes : Type 0} (pa : PyArrow Frame Bytes) (calls : ArrowCalls Bytes) where
  -- The file of a table that was converted.
  abbrev pub new_file : Result WriteError (Table pa) → Option Bytes
  new_file (ok table) = some (pa.ipc_file table)
  new_file (err e) = none

  converted :
      (tmp final : String) (name : String) (d : Dict String Bytes)
      (table : Result WriteError (Table pa))
      → name ≢ tmp
      → let renamed = is_ok table && is_renamed calls.saving calls.fsync_error calls.rename_error in
        let (result, left) = write_converted pa calls tmp final d table in
        (is_ok result ≡ (renamed && is_none calls.fsync_dir_error))
        × (Dict.lookup name (safe_unlink calls.stuck tmp left)
            ≡ (if renamed && name == final then new_file table else Dict.lookup name d))
  unfolding write_table
  converted tmp final name d (err e) ne = (refl, lookup-unlink tmp calls.stuck name d ne)
  converted tmp final name d (ok table) ne =
      let (done, look) =
        replaced tmp final (pa.ipc_file table) calls.saving calls.fsync_error calls.rename_error
          calls.fsync_dir_error name d ne in
      (done, lookup-unlink tmp calls.stuck name _ ne ∙ look)

  -- The target's file is replaced exactly when the root of the sink exists, its directory can be made, the conversion does
  -- not raise, the file is written and synchronized, and the renaming does not raise; the write
  -- returns exactly when, moreover, the synchronization of the directory does not raise. Under every
  -- name but the temporary file's, the directory then holds what it held before, except that a
  -- replaced file is the whole new one.
  pub write_replaces :
      (s : Opened) (hex : String) (df : Frame) (target : String) (disk : Disk Bytes) (name : String)
      → name ≢ temp_path ".arrow" target hex
      → let table =
          to_arrow_table pa df
            (columns_for pa (Dict.lookup target s.dictionary_columns))
            s.timestamp_unit in
        let renamed =
          disk.root_exists
          && (is_none calls.mkdir_error
              && (is_ok table && is_renamed calls.saving calls.fsync_error calls.rename_error)) in
        let (result, left) = write pa s calls hex df target disk in
        (is_ok result ≡ (renamed && is_none calls.fsync_dir_error))
        × (Dict.lookup name left.entries ≡ (
            if renamed && name == target_path ".arrow" target
            then new_file table
            else Dict.lookup name disk.entries))
  unfolding write ensure_dirs write_table
  write_replaces s hex df target disk name ne = elim (Bool-cases disk.root_exists) [
    | inl there ↦ elim (Option-cases calls.mkdir_error) [
      | inl made ↦
          rw (there, made)
            (converted (temp_path ".arrow" target hex) (target_path ".arrow" target) name
              disk.entries
              (to_arrow_table pa df (columns_for pa (Dict.lookup target s.dictionary_columns))
                s.timestamp_unit)
              ne)
      | inr (e, raised) ↦ rw (there, raised) (refl, refl)
    ]
    | inr missing ↦ rw missing (refl, refl)
  ]
