-- ===== src/Tests/Sinks.antt =====
-- The file sinks on a directory of one target, with a codec that narrows as row64tools does.
use r64_db_engine.Base.{
  ℕ, suc, ◌^◌, ◌+◌, String, ◌≡◌, ◌⊎◌, ◌≢◌, refl, Bool, true, false, Option, none, some, List, [],
  ◌∷◌, ◌&&◌, ◌==◌, if◌then◌else◌, string_eq, nat_eq, arith, contains_text, starts_with,
}
use r64_db_engine.Base.Results.{err, is_ok}
use r64_db_engine.Base.Decimal.{ℤ, pos, negsuc}
use r64_db_engine.Base.Dict
use r64_db_engine.Base.Dict.{Dict}
use r64_db_engine.Sinks.Replace.{
  Disk, Calls, complete, target_path, temp_path, is_orphan, ensure_dirs, safe_unlink,
  unlink_orphans, cleanup_orphan_tempfiles, overflow,
}
use r64_db_engine.Sinks.Replace.Steps.{dead, returned, save_some, killed, Reach, here, next, saving}
use r64_db_engine.Sinks.Replace.Recovered.{crash_recovery}
use r64_db_engine.Sinks.Ramdb.{
  Frame, integers, strings, Codec, apply_ramdb_null_fill, first_unsafe, raise_on_codec_unsafe_int64,
  save, replace_file, write, ramdb_sink,
}
use r64_db_engine.Sinks.Ramdb.Written.{is_safe, write_outcome}
use r64_db_engine.Sinks.Ramdb.Loaded.{signed_int32, loaded_frame, load-ramdb_sink}
use r64_db_engine.Sinks.Ramdb.Refines.{write-Reach}
use r64_db_engine.Sinks.ArrowIpc.Table.{
  string, timestamp, dictionary, ArrowColumn, PyArrow, cast_timestamps, encode_column,
  encode_columns, to_arrow_table,
}
use r64_db_engine.Sinks.ArrowIpc.Schema.{schema, expected_schema, to_arrow_table-schema}

-- ---- the step relation

abbrev old_disk : Disk ℕ
old_disk = record { root_exists = true; dir_exists = true; entries = ("t.ramdb", 1) ∷ [] }

-- A process that is killed while the codec writes: its temporary file is left.
abbrev cut_entries : Dict String ℕ
cut_entries = Dict.insert (temp_path ".ramdb" "t" "ab") 7 old_disk.entries

cut :
    Reach
      (temp_path ".ramdb" "t" "ab")
      (target_path ".ramdb" "t")
      2
      old_disk.entries
      dead
      cut_entries
cut = next (next here (save_some old_disk.entries 7)) (killed saving cut_entries)

crash_recovery_example :
    let left =
      (cleanup_orphan_tempfiles
        (λ _. false)
        ".ramdb"
        (record old_disk { entries = cut_entries })).1 in
    (Dict.lookup "t.ramdb" left.entries
      ≡ (if is_orphan ".ramdb" "t.ramdb" then none else Dict.lookup "t.ramdb" old_disk.entries))
    ⊎ (("t.ramdb" ≡ target_path ".ramdb" "t") × (Dict.lookup "t.ramdb" left.entries ≡ some 2))
unfolding is_orphan target_path contains_text starts_with nat_eq
crash_recovery_example =
    crash_recovery ".ramdb" "t" "ab" 2 old_disk {p = dead} {d = cut_entries} "t.ramdb" refl refl cut

cut_swept :
    (cleanup_orphan_tempfiles (λ _. false) ".ramdb" (record old_disk { entries = cut_entries }))
    ≡ (1, old_disk)
unfolding cleanup_orphan_tempfiles unlink_orphans safe_unlink is_orphan temp_path contains_text
    starts_with nat_eq string_eq Dict.insert Dict.erase
cut_swept = refl

-- ---- the ramdb sink

-- row64tools, whose bytes are the frame as it loads
abbrev pub row64 : Codec Frame
row64 = record { encode = loaded_frame signed_int32; decode = λ bytes. some bytes }

abbrev frame : Frame
frame =
    ("id", integers "Int64" (some (negsuc 4) ∷ none ∷ some (pos 2147483647) ∷ []))
    ∷ ("name", strings "string" (some "a" ∷ none ∷ some "c" ∷ []))
    ∷ []

abbrev big_frame : Frame
big_frame = ("id", integers "int64" (some (pos 2147483648) ∷ [])) ∷ []

abbrev empty_dir : Disk Frame
empty_dir = record { root_exists = true; dir_exists = false; entries = [] }

abbrev pub fine : Calls Frame
fine = record { mkdir_error = none; saving = complete; rename_error = none; stuck = λ _. false }

apart : "t.ramdb" ≢ temp_path ".ramdb" "t" "ab"
unfolding temp_path string_eq
apart e = cc

write_outcome_example :
    let filled = apply_ramdb_null_fill frame in
    let good = true && (true && (is_safe filled && true)) in
    let (result, left) = write row64 fine "ab" frame "t" empty_dir in
    (is_ok result ≡ good)
    × (Dict.lookup "t.ramdb" left.entries ≡ (
        if good && "t.ramdb" == target_path ".ramdb" "t" then some (row64.encode filled) else none))
unfolding Dict.lookup
write_outcome_example = write_outcome row64 fine "ab" frame "t" empty_dir "t.ramdb" apart

load-ramdb_sink_example :
    let sink = ramdb_sink row64 (λ _. fine) (λ _. "ab") in
    sink.load (sink.write empty_dir frame "t").1 "t"
    ≡ some (loaded_frame (λ z. z) (apply_ramdb_null_fill frame))
unfolding write ensure_dirs raise_on_codec_unsafe_int64 apply_ramdb_null_fill first_unsafe
    replace_file save is_orphan target_path contains_text starts_with nat_eq
load-ramdb_sink_example =
    load-ramdb_sink row64 (λ _. fine) (λ _. "ab") empty_dir frame "t" (λ f. refl) refl refl

write-Reach_example :
    Reach
      (temp_path ".ramdb" "t" "ab")
      (target_path ".ramdb" "t")
      (row64.encode (apply_ramdb_null_fill frame))
      empty_dir.entries
      returned
      (write row64 fine "ab" frame "t" empty_dir).1.entries
unfolding raise_on_codec_unsafe_int64 apply_ramdb_null_fill first_unsafe
write-Reach_example = write-Reach row64 fine "ab" frame "t" empty_dir refl refl

big_refused : (write row64 fine "ab" big_frame "t" empty_dir).0 ≡ err (overflow "id" "2147483648")
unfolding write ensure_dirs raise_on_codec_unsafe_int64 apply_ramdb_null_fill first_unsafe
    r64_db_engine.Base.Decimal.str
big_refused = refl

-- ---- the Arrow IPC sink

abbrev arrow : PyArrow ℕ (List String)
arrow = record {
  Cells = ℕ;
  from_pandas = λ n.
      record { name = "at"; type = timestamp "ns" none; cells = n }
      ∷ record { name = "kind"; type = string; cells = n }
      ∷ [];
  cast_timestamp = λ unit n. some (n + 1);
  cast_dictionary = λ n. n + 2;
  ipc_file = λ table. [];
}

abbrev arrow_table : List (ArrowColumn ℕ)
arrow_table =
    record { name = "at"; type = timestamp "us" none; cells = 6 }
    ∷ record { name = "kind"; type = dictionary; cells = 7 }
    ∷ []

kind-ne-at : ◌≢◌ {A = String} "kind" "at"
kind-ne-at e = cc

to_arrow_table-schema_example :
    schema arrow arrow_table
    ≡ expected_schema ("kind" ∷ []) (some "us") (schema arrow (arrow.from_pandas 5))
unfolding to_arrow_table cast_timestamps encode_columns encode_column string_eq
to_arrow_table-schema_example =
    to_arrow_table-schema arrow 5 ("kind" ∷ []) (some "us") arrow_table ((kind-ne-at, tt), (tt, tt))
      refl
