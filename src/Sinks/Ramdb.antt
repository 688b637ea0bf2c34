-- ===== src/Sinks/Ramdb.antt =====
-- core/ramdb_writer.py and sinks/ramdb.py: the writer of `.ramdb` files and the sink over it.
-- A frame is its columns; the cells of a column that is neither of integers, booleans nor texts
-- (floats, time stamps) are left alone by the writer, and stand as pandas prints them. row64tools is
-- the parameter `Codec`.
pub mod Written
pub mod Loaded
pub mod Refines
use r64_db_engine.Base.{
  ℕ, suc, ◌+◌, ◌^◌, String, ◌<>◌, Bool, true, false, not, Option, none, some, List, [], ◌∷◌, ◌||◌,
  if◌then◌else◌, ltb, leb, string_eq,
}
use r64_db_engine.Base.Results.{Result, ok, err, ◌>>=◌, ◌>>◌}
use r64_db_engine.Base.Decimal.{ℤ, pos, negsuc, str}
use r64_db_engine.Base.Dict
use r64_db_engine.Base.Dict.{Dict}
use r64_db_engine.Daemon.{Sink}
use r64_db_engine.Sinks.Replace.{
  Disk, WriteError, root_missing, overflow, sink_error, call_failed, Saving, complete, cut_short,
  Calls, target_path, temp_path, ensure_dirs, safe_unlink, rename, cleanup_orphan_tempfiles,
}

-- A column: its dtype and its cells, `none` for a null.
pub data Series : Type 0 where
  -- `is_integer_dtype`: int64, Int64, int32, …
  integers : String → List (Option ℤ) → Series
  -- boolean, bool
  booleans : String → List (Option Bool) → Series
  -- string, object
  strings : String → List (Option String) → Series
  others : String → List String → Series

abbrev pub Frame : Type 0
Frame = List (String × Series)

-- ---- the null fill

-- `series.fillna(value)`
abbrev pub fillna {ℓ} : {A : Type ℓ} → A → List (Option A) → List (Option A)
fillna value [] = []
fillna value (none ∷ cells) = some value ∷ fillna value cells
fillna value (some cell ∷ cells) = some cell ∷ fillna value cells

abbrev pub fill_series : Series → Series
fill_series (integers dtype cells) = integers "int64" (fillna (pos 0) cells)
fill_series (booleans dtype cells) = booleans "bool" (fillna false cells)
fill_series (strings dtype cells) = strings dtype (fillna "" cells)
fill_series (others dtype cells) = others dtype cells

unfoldable pub apply_ramdb_null_fill : Frame → Frame
apply_ramdb_null_fill [] = []
apply_ramdb_null_fill ((name, series) ∷ df) = (name, fill_series series) ∷ apply_ramdb_null_fill df

-- ---- the guard against the codec's narrowing

-- `value < -(2**31) or value > 2**31 - 1`
abbrev pub is_unsafe : ℤ → Bool
is_unsafe (pos n) = leb (2 ^ 31) n
is_unsafe (negsuc n) = leb (2 ^ 31) n

-- `unsafe.iloc[0]`, if `unsafe` is not empty
unfoldable pub first_unsafe : List (Option ℤ) → Option ℤ
first_unsafe [] = none
first_unsafe (none ∷ cells) = first_unsafe cells
first_unsafe (some z ∷ cells) =
    let rest = first_unsafe cells in if is_unsafe z then some z else rest

abbrev pub series_unsafe : Series → Option ℤ
series_unsafe (integers dtype cells) = first_unsafe cells
series_unsafe _ = none

abbrev raise_overflow : String → Option ℤ → Result WriteError (Unit {0})
raise_overflow column none = ok tt
raise_overflow column (some z) = err (overflow column (str z))

unfoldable pub raise_on_codec_unsafe_int64 : Frame → Result WriteError (Unit {0})
raise_on_codec_unsafe_int64 [] = ok tt
raise_on_codec_unsafe_int64 ((column, series) ∷ df) =
    raise_overflow column (series_unsafe series) >> raise_on_codec_unsafe_int64 df

-- ---- the write

-- `save_from_df` and `load_to_df` of row64tools
pub record Codec (Bytes : Type 0) : Type 0 where
  pub encode : Frame → Bytes
  pub decode : Bytes → Option Frame

module _ {Bytes : Type 0} where
  -- `_save_ramdb`
  unfoldable pub save :
      Saving Bytes → String → Bytes → Dict String Bytes → Option String × Dict String Bytes
  save complete tmp content d = (none, Dict.insert tmp content d)
  save (cut_short e none) tmp content d = (some e, d)
  save (cut_short e (some bytes)) tmp content d = (some e, Dict.insert tmp bytes d)

  -- `os.rename(tmp, final)` and `return final`
  abbrev pub rename_and_return :
      Option String
      → String
      → String
      → Dict String Bytes
      → Result WriteError String × Dict String Bytes
  rename_and_return none tmp final d = (ok final, rename tmp final d)
  rename_and_return (some e) tmp final d = (err (call_failed e), d)

  abbrev pub after_save :
      Option String
      → Option String
      → String
      → String
      → Dict String Bytes
      → Result WriteError String × Dict String Bytes
  after_save none rename_error tmp final d = rename_and_return rename_error tmp final d
  after_save (some e) rename_error tmp final d = (err (call_failed e), d)

  -- The `try` statement: whatever is raised, `finally` unlinks the temporary file.
  unfoldable pub replace_file :
      Calls Bytes
      → String
      → String
      → Bytes
      → Dict String Bytes
      → Result WriteError String × Dict String Bytes
  replace_file calls tmp final content d =
      let (raised, d1) = save calls.saving tmp content d in
      let (result, d2) = after_save raised calls.rename_error tmp final d1 in
      (result, safe_unlink calls.stuck tmp d2)

  -- What follows `ensure_dirs`, and the check of the filled frame.
  abbrev pub write_checked :
      Codec Bytes
      → Calls Bytes
      → String
      → Frame
      → String
      → Disk Bytes
      → Result WriteError (Unit {0})
      → Result WriteError String × Disk Bytes
  write_checked codec calls hex df target disk (err e) = (err e, disk)
  write_checked codec calls hex df target disk (ok _) =
      let (result, left) =
        replace_file calls (temp_path ".ramdb" target hex) (target_path ".ramdb" target)
          (codec.encode df) disk.entries in
      (result, record disk { entries = left })

  abbrev pub write_ready :
      Codec Bytes
      → Calls Bytes
      → String
      → Frame
      → String
      → Disk Bytes
      → Result WriteError (Disk Bytes)
      → Result WriteError String × Disk Bytes
  write_ready codec calls hex df target disk (err e) = (err e, disk)
  write_ready codec calls hex df target disk (ok ready) =
      let filled = apply_ramdb_null_fill df in
      write_checked codec calls hex filled target ready (raise_on_codec_unsafe_int64 filled)

  -- `hex` is what `uuid4` gives.
  unfoldable pub write :
      Codec Bytes
      → Calls Bytes
      → String
      → Frame
      → String
      → Disk Bytes
      → Result WriteError String × Disk Bytes
  write codec calls hex df target disk =
      write_ready codec calls hex df target disk (ensure_dirs calls.mkdir_error disk)

-- ---- the sink

-- `str(exc)`, the text that the daemon keeps
abbrev pub message : WriteError → String
message root_missing = "loading_dir does not exist"
message (overflow column value) =
    "row64 codec cannot safely store int64 column " <> (column <> (": value " <> value))
message (sink_error why) = why
message (call_failed why) = why

abbrev pub to_sink_result {ℓ} : {A : Type ℓ} → Result WriteError A → Result String (Unit {0})
to_sink_result (ok _) = ok tt
to_sink_result (err e) = err (message e)

module _ {Bytes : Type 0} where
  abbrev pub load_bytes : Codec Bytes → Option Bytes → Option Frame
  load_bytes codec none = none
  load_bytes codec (some bytes) = codec.decode bytes

  abbrev pub is_there : Option Bytes → Bool
  is_there none = false
  is_there (some _) = true

-- `RamdbSink`, which the daemon writes to and loads from. What the calls of a write do, and the name
-- of its temporary file, may depend on all that the directory holds.
abbrev pub ramdb_sink :
    {Bytes : Type 0} (codec : Codec Bytes) (calls : Disk Bytes → Calls Bytes)
    (uuid : Disk Bytes → String)
    → Sink Frame
ramdb_sink {Bytes} codec calls uuid = record {
  Files = Disk Bytes;
  sink_name = "ramdb";
  supports_incremental = true;
  exists = λ disk target. is_there (Dict.lookup (target_path ".ramdb" target) disk.entries);
  load = λ disk target. load_bytes codec (Dict.lookup (target_path ".ramdb" target) disk.entries);
  write = λ disk df target.
      let done = write codec (calls disk) (uuid disk) df target disk in
      (to_sink_result done.0, done.1);
}
