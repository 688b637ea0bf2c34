-- ===== src/Sinks/ArrowIpc/Write.antt =====
-- sinks/arrow_ipc.py: the write of a table over the file of its target.
use r64_db_engine.Base.{String, Bool, Option, none, some, List, [], string_eq}
use r64_db_engine.Base.Results.{Result, ok, err}
use r64_db_engine.Base.Dict
use r64_db_engine.Base.Dict.{Dict}
use r64_db_engine.Sinks.Replace.{
  Disk, WriteError, call_failed, Saving, complete, cut_short, target_path, temp_path, ensure_dirs,
  safe_unlink, rename,
}
use r64_db_engine.Sinks.ArrowIpc.{Opened}
use r64_db_engine.Sinks.ArrowIpc.Table.{PyArrow, Table, to_arrow_table}

-- ---- the write

-- What the calls of one write do: those of the ramdb sink, and the two `fsync`s.
pub record ArrowCalls (Bytes : Type 0) : Type 0 where
  pub mkdir_error : Option String
  pub saving : Saving Bytes
  pub fsync_error : Option String
  pub rename_error : Option String
  pub fsync_dir_error : Option String
  pub stuck : String → Bool

module _ {Bytes : Type 0} (tmp final : String) where
  -- `_write_ipc_file`
  abbrev pub saved_file :
      Saving Bytes → Bytes → Dict String Bytes → Option String × Dict String Bytes
  saved_file complete content d = (none, Dict.insert tmp content d)
  saved_file (cut_short e none) content d = (some e, d)
  saved_file (cut_short e (some bytes)) content d = (some e, Dict.insert tmp bytes d)

  -- `_fsync_dir` and `return final`, after the renaming
  abbrev pub after_rename :
      Option String → Dict String Bytes → Result WriteError String × Dict String Bytes
  after_rename none d = (ok final, d)
  after_rename (some e) d = (err (call_failed e), d)

  -- `_fsync_path` and `os.rename`, each raising or not
  abbrev pub after_ipc_file :
      Option String
      → Option String
      → Option String
      → Option String
      → Dict String Bytes
      → Result WriteError String × Dict String Bytes
  after_ipc_file none none none fsync_dir_error d =
      after_rename fsync_dir_error (rename tmp final d)
  after_ipc_file none none (some e) fsync_dir_error d = (err (call_failed e), d)
  after_ipc_file none (some e) _ fsync_dir_error d = (err (call_failed e), d)
  after_ipc_file (some e) _ _ fsync_dir_error d = (err (call_failed e), d)

  unfoldable pub write_table :
      ArrowCalls Bytes → Bytes → Dict String Bytes → Result WriteError String × Dict String Bytes
  write_table calls content d =
      let (raised, d1) = saved_file calls.saving content d in
      after_ipc_file raised calls.fsync_error calls.rename_error calls.fsync_dir_error d1

module _ {Frame Bytes : Type 0} (pa : PyArrow Frame Bytes) where
  -- `self._dictionary_columns.get(target, [])`
  abbrev pub columns_for : Option (List String) → List String
  columns_for none = []
  columns_for (some columns) = columns

  abbrev pub write_converted :
      ArrowCalls Bytes
      → String
      → String
      → Dict String Bytes
      → Result WriteError (Table pa)
      → Result WriteError String × Dict String Bytes
  write_converted calls tmp final d (err e) = (err e, d)
  write_converted calls tmp final d (ok table) = write_table tmp final calls (pa.ipc_file table) d

  abbrev pub write_ready :
      Opened
      → ArrowCalls Bytes
      → String
      → Frame
      → String
      → Disk Bytes
      → Result WriteError (Disk Bytes)
      → Result WriteError String × Disk Bytes
  write_ready s calls hex df target disk (err e) = (err e, disk)
  write_ready s calls hex df target disk (ok ready) =
      let tmp = temp_path ".arrow" target hex in
      let (result, left) = write_converted calls tmp (target_path ".arrow" target) ready.entries (
        to_arrow_table pa df (columns_for (Dict.lookup target s.dictionary_columns))
          s.timestamp_unit) in
      (result, record ready { entries = safe_unlink calls.stuck tmp left })

  unfoldable pub write :
      Opened
      → ArrowCalls Bytes
      → String
      → Frame
      → String
      → Disk Bytes
      → Result WriteError String × Disk Bytes
  write s calls hex df target disk =
      write_ready s calls hex df target disk (ensure_dirs calls.mkdir_error disk)
