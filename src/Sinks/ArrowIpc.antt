-- ===== src/Sinks/ArrowIpc.antt =====
-- sinks/arrow_ipc.py: the sink of Arrow IPC files. pyarrow is the parameter `PyArrow`: the table of a
-- frame, the safe cast of a column of time stamps, the cast to a dictionary, and the file's bytes.
-- `str(value)` of a configuration value is the parameter `py_str`. Messages are shortened.
pub mod Table
pub mod Write
pub mod Schema
pub mod Written
use r64_db_engine.Base.{
  String, ◌<>◌, Bool, true, false, not, Option, none, some, List, [], ◌∷◌, ◌&&◌, ◌||◌, ◌==◌,
  if◌then◌else◌, string_eq, contains, map,
}
use r64_db_engine.Base.Results.{Result, ok, err, guard, ◌>>=◌, ◌>>◌}
use r64_db_engine.Base.Dict
use r64_db_engine.Base.Dict.{Dict}
use r64_db_engine.Base.Json.{Json, text, Fields, end, field, get, items, truthy, as_obj, as_arr}
use r64_db_engine.Sinks.Replace.{
  Disk, WriteError, root_missing, sink_error, call_failed, Saving, complete, cut_short, target_path,
  temp_path, ensure_dirs, safe_unlink, rename,
}

-- The attributes of `ArrowIpcSink` after `open`.
pub record Opened : Type 0 where
  pub output_dir : Json
  pub group : String
  pub dictionary_columns : Dict String (List String)
  pub timestamp_unit : Option String

abbrev units : List String
units = "s" ∷ "ms" ∷ "us" ∷ "ns" ∷ []

-- `unit in ("s", "ms", "us", "ns")`, and `str(unit)` then
abbrev known_unit : Json → Result WriteError (Option String)
known_unit (text unit) =
    if contains units unit
    then ok (some unit)
    else err (sink_error "'timestamp_unit' must be one of s/ms/us/ns")
known_unit _ = err (sink_error "'timestamp_unit' must be one of s/ms/us/ns")

-- `None`, or a key that is missing
abbrev read_unit : Option Json → Result WriteError (Option String)
read_unit none = ok none
read_unit (some Json.null) = ok none
read_unit (some unit) = known_unit unit

abbrev with_name : String → Option (List String) → Option (List String)
with_name c none = none
with_name c (some names) = some (c ∷ names)

-- `isinstance(columns, list) and all(isinstance(c, str) for c in columns)`
column_names : List Json → Option (List String)
column_names [] = some []
column_names (text c ∷ cs) = with_name c (column_names cs)
column_names (_ ∷ cs) = none

abbrev column_list : Json → Option (List String)
column_list (Json.arr vs) = column_names (items vs)
column_list _ = none

abbrev listed : String → Option (List String) → Result WriteError (List String)
listed target none = err (sink_error ("'dictionary_columns' must be a list: " <> target))
listed target (some columns) = ok columns

-- The loop over `raw.items()`.
read_columns : Fields → Result WriteError (Dict String (List String))
unfolding column_names
read_columns end = ok []
read_columns (field target columns raw) = do
  names ← listed target (column_list columns)
  more ← read_columns raw
  ok ((target, names) ∷ more)

abbrev is_obj : Json → Result WriteError Fields
is_obj (Json.obj raw) = ok raw
is_obj _ = err (sink_error "'dictionary_columns' must be a mapping")

-- `config.get("dictionary_columns") or {}`
abbrev dictionary_block : Option Json → Result WriteError Fields
dictionary_block none = ok end
dictionary_block (some raw) = if truthy raw then is_obj raw else ok end

-- `str(config.get("group", "") or "")`
abbrev group_text : (Json → String) → Option Json → String
group_text py_str none = ""
group_text py_str (some group) = if truthy group then py_str group else ""

abbrev has_key : Option Json → Bool
has_key none = false
has_key (some _) = true

abbrev output_dir_of : Option Json → Result WriteError Json
output_dir_of none = err (sink_error "arrow_ipc sink requires 'output_dir'")
output_dir_of (some dir) =
    if truthy dir then ok dir else err (sink_error "arrow_ipc sink requires 'output_dir'")

-- `open`
unfoldable pub open_sink : (Json → String) → Fields → Result WriteError Opened
unfolding read_columns
open_sink py_str config = do
  output_dir ← output_dir_of (get "output_dir" config)
  guard (not (has_key (get "compression" config)))
      (sink_error "arrow_ipc sink does not support 'compression'")
  unit ← read_unit (get "timestamp_unit" config)
  raw ← dictionary_block (get "dictionary_columns" config)
  columns ← read_columns raw
  ok (record {
    output_dir = output_dir;
    group = group_text py_str (get "group" config);
    dictionary_columns = columns;
    timestamp_unit = unit;
  })
