-- ===== src/Tests/Merged.antt =====
-- An incremental pull of the daemon into the ramdb sink, whose codec narrows as row64tools does.
use r64_db_engine.Base.{
  ◌≡◌, refl, true, false, none, some, [], ◌∷◌, ◌++◌, string_eq, nat_eq, contains_text, starts_with,
}
use r64_db_engine.Base.Results.{ok}
use r64_db_engine.Base.Dict
use r64_db_engine.Base.Decimal.{pos}
use r64_db_engine.State.{empty_store, number, get_watermark}
use r64_db_engine.State.Watermarks.{IsStorable}
use r64_db_engine.Daemon.{Frames, PullResult, Sink, Daemon}
use r64_db_engine.Daemon.Pull.{handle_success}
use r64_db_engine.Daemon.Pull.Merge.{StoresAs, handle_success-merged, joined}
use r64_db_engine.Sinks.Replace.{Disk, ensure_dirs, is_orphan, target_path}
use r64_db_engine.Sinks.Ramdb.{
  Frame, integers, apply_ramdb_null_fill, first_unsafe, raise_on_codec_unsafe_int64, save,
  replace_file, write, ramdb_sink,
}
use r64_db_engine.Sinks.Ramdb.Loaded.{loaded_frame, load-ramdb_sink}
use r64_db_engine.Tests.Daemons.{orders, runtime, at}
use r64_db_engine.Tests.Sinks.{row64, fine}
use r64_db_engine.Tests.Values.{insertion_order}

-- `pd.concat` of frames with the same integer columns.
stack : Frame → Frame → Frame
stack ((name, integers dtype xs) ∷ old) ((_, integers _ ys) ∷ new) =
    (name, integers dtype (xs ++ ys)) ∷ stack old new
stack old new = old

abbrev columns : Frames
columns = record { Frame = Frame; dtypes = λ df. []; concat = stack }

abbrev sink : Sink Frame
sink = ramdb_sink row64 (λ _. fine) (λ _. "ab")

abbrev two_rows : Frame
two_rows = ("id", integers "int32" (some (pos 1) ∷ some (pos 2) ∷ [])) ∷ []

-- A daemon whose directory holds the file of an earlier pull.
abbrev running : Daemon (Disk Frame)
running = record {
  started_at = 1;
  connected = true;
  tables = ("Orders", runtime) ∷ [];
  state = empty_store;
  files = record {
    root_exists = true;
    dir_exists = true;
    entries = ("Orders.ramdb", two_rows) ∷ [];
  };
}

abbrev pulled : PullResult Frame
pulled = record {
  dataframe = ("id", integers "Int64" (some (pos 4) ∷ none ∷ [])) ∷ [];
  new_watermark = some (number (pos 4));
  rows_pulled = 2;
  duration_ms = 10;
}

-- `RamdbSink` keeps the promise, in the form of null-filled frames with the loaded dtypes.
ramdb_stores : StoresAs sink "Orders" (λ df. loaded_frame (λ z. z) (apply_ramdb_null_fill df))
unfolding is_orphan target_path contains_text starts_with nat_eq
ramdb_stores = record {
  load-write = λ files df written.
      load-ramdb_sink row64 (λ _. fine) (λ _. "ab") files df "Orders" (λ f. refl) refl written;
}

handle_success-merged_example :
    let (result, d') =
      handle_success insertion_order columns sink running "Orders" runtime orders pulled none at
        false in
    (result ≡ ok tt)
    × (sink.load d'.files "Orders"
        ≡ some (
            loaded_frame
              (λ z. z)
              (apply_ramdb_null_fill (
                joined insertion_order columns sink
                  (sink.load running.files "Orders")
                  pulled.dataframe))))
    × (get_watermark d'.state "Orders" ≡ ok (some (number (pos 4), "int")))
unfolding write ensure_dirs raise_on_codec_unsafe_int64 apply_ramdb_null_fill first_unsafe
    replace_file save is_orphan target_path contains_text starts_with nat_eq string_eq Dict.lookup
    stack
handle_success-merged_example =
    handle_success-merged insertion_order columns sink running "Orders" runtime orders pulled none
      at (number (pos 4)) (λ df. loaded_frame (λ z. z) (apply_ramdb_null_fill df)) ramdb_stores refl
      refl refl (IsStorable.integer (pos 4)) refl

-- The rows that the target then loads: two old ones, and two new ones with the null filled.
merged_rows :
    loaded_frame
      (λ z. z)
      (apply_ramdb_null_fill
        (joined insertion_order columns sink (sink.load running.files "Orders") pulled.dataframe))
    ≡ ("id", integers "int32" (some (pos 1) ∷ some (pos 2) ∷ some (pos 4) ∷ some (pos 0) ∷ [])) ∷ []
unfolding apply_ramdb_null_fill loaded_frame target_path string_eq Dict.lookup stack
merged_rows = refl
