-- ===== src/Sinks/Ramdb/Refines.antt =====
-- core/ramdb_writer.py: a write of the ramdb sink is a run of the steps of Sinks/Replace/Steps.antt.
use r64_db_engine.Base.{String, ◌≡◌, true, Option, none, some, inl, inr, Option-cases}
use r64_db_engine.Base.Results.{ok}
use r64_db_engine.Base.Dict.{Dict}
use r64_db_engine.Sinks.Replace.{
  Disk, Saving, complete, cut_short, Calls, target_path, temp_path, ensure_dirs, safe_unlink,
}
use r64_db_engine.Sinks.Replace.Steps.{
  cleaning, returned, save_some, save_all, save_raises, renames, rename_raises, unlinks, Reach,
  here, next,
}
use r64_db_engine.Sinks.Ramdb.{
  Frame, apply_ramdb_null_fill, raise_on_codec_unsafe_int64, Codec, save, after_save, replace_file,
  write,
}

module _ {Bytes : Type 0} (tmp final : String) (content : Bytes) (d : Dict String Bytes) where
  reaches_cleaning :
      (saving : Saving Bytes) (rename_error : Option String)
      → let (raised, d1) = save saving tmp content d in
        Reach tmp final content d cleaning (after_save raised rename_error tmp final d1).1
  unfolding save
  reaches_cleaning complete none = next (next here (save_all d)) (renames _)
  reaches_cleaning complete (some e) = next (next here (save_all d)) (rename_raises _)
  reaches_cleaning (cut_short e none) r = next here (save_raises d)
  reaches_cleaning (cut_short e (some b)) r = next (next here (save_some d b)) (save_raises _)

  reaches_returned :
      (calls : Calls Bytes)
      → Reach tmp final content d returned (replace_file calls tmp final content d).1
  unfolding replace_file
  reaches_returned calls =
      next (reaches_cleaning calls.saving calls.rename_error) (unlinks _ calls.stuck)

module _ {Bytes : Type 0} (codec : Codec Bytes) (calls : Calls Bytes) where
  -- If the directory of the sink exists and the guard lets the null-filled frame pass, then a write,
  -- whatever its calls do, is a run of the steps from the saving to the return: its disk is one that
  -- the step relation reaches, with the encoding of the null-filled frame as the content.
  pub write-Reach :
      (hex : String) (df : Frame) (target : String) (disk : Disk Bytes)
      → disk.root_exists ≡ true
      → raise_on_codec_unsafe_int64 (apply_ramdb_null_fill df) ≡ ok tt
      → Reach
          (temp_path ".ramdb" target hex)
          (target_path ".ramdb" target)
          (codec.encode (apply_ramdb_null_fill df))
          disk.entries
          returned
          (write codec calls hex df target disk).1.entries
  unfolding write ensure_dirs safe_unlink replace_file
  write-Reach hex df target disk there safe = elim (Option-cases calls.mkdir_error) [
    | inl made ↦
        rw (there, made, safe)
          (reaches_returned (temp_path ".ramdb" target hex) (target_path ".ramdb" target)
            (codec.encode (apply_ramdb_null_fill df)) disk.entries calls)
    -- nothing is touched, as by a save that raises at once and a temporary file that is stuck
    | inr (e, raised) ↦
        rw (there, raised)
          (next (next here (save_raises disk.entries)) (unlinks disk.entries (λ _. true)))
  ]
