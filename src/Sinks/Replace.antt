-- ===== src/Sinks/Replace.antt =====
-- core/ramdb_writer.py and sinks/arrow_ipc.py: the directory of the targets, the names in it, and how
-- a file is replaced: by a run of calls that may raise, and as steps that a signal may cut short.
-- The bytes that a codec writes are a parameter; a signal that is handled unlinks the temporary file.
pub mod Lookups
pub mod Steps
pub mod Recovered
use r64_db_engine.Base.{
  ℕ, ◌+◌, String, ◌<>◌, List, [], ◌∷◌, Bool, true, false, Option, none, some, if◌then◌else◌, ◌&&◌,
  string_eq, starts_with_code, contains_text,
}
use r64_db_engine.Base.Results.{Result, ok, err}
use r64_db_engine.Base.Dict
use r64_db_engine.Base.Dict.{Dict}

-- `loading_dir` or `output_dir`, and the files of the directory of the group below it.
pub record Disk (Bytes : Type 0) : Type 0 where
  pub root_exists : Bool
  pub dir_exists : Bool
  pub entries : Dict String Bytes

-- What a write raises: a missing root, a frame that is refused, a failing call.
pub data WriteError : Type 0 where
  root_missing : WriteError
  overflow : String → String → WriteError
  sink_error : String → WriteError
  call_failed : String → WriteError

-- `target_path` and the temporary file, as names in the directory, of a sink with this extension
unfoldable pub target_path : String → String → String
target_path ext target = target <> ext

unfoldable pub temp_path : String → String → String → String
temp_path ext target hex = "." <> (target <> ((ext <> ".tmp.") <> hex))

-- `name.startswith(".") and ".ramdb.tmp." in name`
unfoldable pub is_orphan : String → String → Bool
is_orphan ext name = starts_with_code name b'.' && contains_text (ext <> ".tmp.") name

module _ {Bytes : Type 0} where
  -- `mkdir(parents=True, exist_ok=True)`, which may raise
  abbrev pub mkdir : Option String → Disk Bytes → Result WriteError (Disk Bytes)
  mkdir none d = ok (record d { dir_exists = true })
  mkdir (some e) d = err (call_failed e)

  -- The directory below a root that has to exist.
  unfoldable pub ensure_dirs : Option String → Disk Bytes → Result WriteError (Disk Bytes)
  ensure_dirs mkdir_error d = if d.root_exists then mkdir mkdir_error d else err root_missing

  -- `_safe_unlink`: it fails on the names for which `stuck` holds, and that is swallowed.
  unfoldable pub safe_unlink : (String → Bool) → String → Dict String Bytes → Dict String Bytes
  safe_unlink stuck name d = if stuck name then d else Dict.erase name d

  -- `os.rename`: what the source holds replaces the destination.
  unfoldable pub rename : String → String → Dict String Bytes → Dict String Bytes
  rename from to d = elim (Dict.lookup from d) [
    | none ↦ d
    | some bytes ↦ Dict.insert to bytes (Dict.erase from d)
  ]

  -- The loop of `cleanup_orphan_tempfiles` over the names of the directory.
  unfoldable pub unlink_orphans :
      (String → Bool) → String → Dict String Bytes → Dict String Bytes → ℕ × Dict String Bytes
  unlink_orphans stuck ext [] d = (0, d)
  unlink_orphans stuck ext ((name, _) ∷ names) d =
      let more = unlink_orphans stuck ext names in
      if is_orphan ext name
      then (let (n, d') = more (safe_unlink stuck name d) in (n + 1, d'))
      else more d

  unfoldable pub cleanup_orphan_tempfiles : (String → Bool) → String → Disk Bytes → ℕ × Disk Bytes
  cleanup_orphan_tempfiles stuck ext d =
      if d.dir_exists
      then (let (n, left) = unlink_orphans stuck ext d.entries d.entries in
          (n, record d { entries = left }))
      else (0, d)

-- What the calls of one write do: the directory is made or `mkdir` raises; the codec finishes or raises, having left what it has written (no
-- file, or some bytes); the renaming raises or not; and the unlinking fails on some names.
pub data Saving (Bytes : Type 0) : Type 0 where
  complete : Saving Bytes
  cut_short : String → Option Bytes → Saving Bytes

pub record Calls (Bytes : Type 0) : Type 0 where
  pub mkdir_error : Option String
  pub saving : Saving Bytes
  pub rename_error : Option String
  pub stuck : String → Bool
