-- ===== src/Sinks/ArrowIpc/Table.antt =====
-- sinks/arrow_ipc.py: the table of a frame, its time stamps and its dictionary columns.
use r64_db_engine.Base.{
  String, ◌<>◌, Option, none, some, List, [], ◌∷◌, ◌==◌, if◌then◌else◌, string_eq,
}
use r64_db_engine.Base.Results.{Result, ok, err, ◌>>=◌}
use r64_db_engine.Sinks.Replace.{WriteError, sink_error}

-- ---- the table

-- What the sink asks of a type: `is_string`, `is_large_string`, `is_timestamp` with its unit and zone.
pub data ArrowType : Type 0 where
  string large_string : ArrowType
  timestamp : String → Option String → ArrowType
  dictionary : ArrowType
  other : String → ArrowType

-- A column of a table, over pyarrow's cells.
pub record ArrowColumn (Cells : Type 0) : Type 0 where
  pub name : String
  pub type : ArrowType
  pub cells : Cells

pub record PyArrow (Frame : Type 0) (Bytes : Type 0) : Type 1 where
  pub Cells : Type 0
  pub from_pandas : Frame → List (ArrowColumn Cells)
  -- a safe cast, which raises `ArrowInvalid` where it would lose precision
  pub cast_timestamp : String → Cells → Option Cells
  pub cast_dictionary : Cells → Cells
  -- `pa.ipc.new_file`, and the record batches of at most 65,536 rows
  pub ipc_file : List (ArrowColumn Cells) → Bytes

module _ {Frame Bytes : Type 0} (pa : PyArrow Frame Bytes) where
  abbrev pub Table : Type 0
  Table = List (ArrowColumn pa.Cells)

  -- A column of time stamps whose unit is not `unit`.
  abbrev pub cast_to :
      String → ArrowColumn pa.Cells → Option pa.Cells → Result WriteError (ArrowColumn pa.Cells)
  cast_to unit c none =
      err (sink_error ("'timestamp_unit' would lose precision on column " <> c.name))
  cast_to unit c (some cells) = ok (record c { cells = cells })

  abbrev retyped : ArrowType → ArrowColumn pa.Cells → ArrowColumn pa.Cells
  retyped type c = record c { type = type }

  abbrev pub cast_column :
      String → ArrowColumn pa.Cells → ArrowType → Result WriteError (ArrowColumn pa.Cells)
  cast_column unit c (timestamp u tz) =
      if u == unit
      then ok c
      else cast_to unit (retyped (timestamp unit tz) c) (pa.cast_timestamp unit c.cells)
  cast_column unit c _ = ok c

  unfoldable pub cast_timestamps : String → Table → Result WriteError Table
  cast_timestamps unit [] = ok []
  cast_timestamps unit (c ∷ table) = do
    c' ← cast_column unit c c.type
    rest ← cast_timestamps unit table
    ok (c' ∷ rest)

  -- The column at `get_field_index(name)`, the only one with that name, is encoded.
  abbrev pub encoded : ArrowColumn pa.Cells → ArrowType → Result WriteError (ArrowColumn pa.Cells)
  encoded c string = ok (record c { type = dictionary; cells = pa.cast_dictionary c.cells })
  encoded c large_string = ok (record c { type = dictionary; cells = pa.cast_dictionary c.cells })
  encoded c _ = err (sink_error ("only string columns can be dictionary-encoded: " <> c.name))

  unfoldable pub encode_column : String → Table → Result WriteError Table
  encode_column name [] = err (sink_error (name <> " is not in the pulled columns"))
  encode_column name (c ∷ table) =
      let here = (do c' ← encoded c c.type; ok (c' ∷ table)) in
      let later = (do rest ← encode_column name table; ok (c ∷ rest)) in
      if c.name == name then here else later

  unfoldable pub encode_columns : List String → Table → Result WriteError Table
  encode_columns [] table = ok table
  encode_columns (name ∷ names) table = do t ← encode_column name table; encode_columns names t

  abbrev pub normalized : Option String → Table → Result WriteError Table
  normalized none table = ok table
  normalized (some unit) table = cast_timestamps unit table

  unfoldable pub to_arrow_table : Frame → List String → Option String → Result WriteError Table
  to_arrow_table df dictionary_columns timestamp_unit = do
    table ← normalized timestamp_unit (pa.from_pandas df)
    encode_columns dictionary_columns table
