-- ===== src/Sinks/Ramdb/Loaded.antt =====
-- core/ramdb_writer.py and sinks/ramdb.py: what row64tools, which narrows every integer to 32 bits
-- (conformance/contract.py: `_assert_roundtrip_value`), loads of a file that was written.
use r64_db_engine.Base.{
  ◌-◌, ◌%◌, ◌^◌, String, ◌≡◌, refl, sym, ap, ◌∙◌, Bool, true, false, Option, none, some, List, [],
  ◌∷◌, ◌&&◌, if◌then◌else◌, ltb, string_eq, arith, inl, inr, is_none, Bool-cases, ==-refl,
}
use r64_db_engine.Base.Results.{Result, ok, err, is_ok}
use r64_db_engine.Base.Decimal.{ℤ, pos, negsuc}
use r64_db_engine.Sinks.Replace.{Disk, WriteError, Calls, target_path, temp_path, is_orphan}
use r64_db_engine.Sinks.Replace.Lookups.{temp_path-orphan, ne_of_orphan}
use r64_db_engine.Sinks.Ramdb.{
  Series, integers, booleans, strings, others, Frame, apply_ramdb_null_fill, is_unsafe,
  first_unsafe, Codec, write, ramdb_sink, to_sink_result, load_bytes,
}
use r64_db_engine.Sinks.Ramdb.Written.{is_safe, goes_well, write_outcome}

-- The integer that stands for the lowest 32 bits, in two's complement.
abbrev pub signed_int32 : ℤ → ℤ
signed_int32 (pos n) =
    let w = n % 2 ^ 32 in if ltb w (2 ^ 31) then pos w else negsuc (2 ^ 32 - 1 - w)
signed_int32 (negsuc n) =
    let w = n % 2 ^ 32 in if ltb w (2 ^ 31) then negsuc w else pos (2 ^ 32 - 1 - w)

abbrev pub map_cells {ℓ κ} : {A : Type ℓ} {B : Type κ} → (A → B) → List (Option A) → List (Option B)
map_cells f [] = []
map_cells f (none ∷ cells) = none ∷ map_cells f cells
map_cells f (some z ∷ cells) = some (f z) ∷ map_cells f cells

abbrev bit : Bool → ℤ
bit true = pos 1
bit false = pos 0

-- A column as row64tools loads it: integers and booleans as int32, texts as objects.
abbrev loaded_series : (ℤ → ℤ) → Series → Series
loaded_series stored (integers dtype cells) = integers "int32" (map_cells stored cells)
loaded_series stored (booleans dtype cells) = integers "int32" (map_cells bit cells)
loaded_series stored (strings dtype cells) = strings "object" cells
loaded_series stored (others dtype cells) = others dtype cells

-- What is loaded of a frame, if its integers are kept as `stored` says.
unfoldable pub loaded_frame : (ℤ → ℤ) → Frame → Frame
loaded_frame stored [] = []
loaded_frame stored ((name, series) ∷ df) =
    (name, loaded_series stored series) ∷ loaded_frame stored df

narrow_safe : (z : ℤ) → is_unsafe z ≡ false → signed_int32 z ≡ z
narrow_safe (pos n) h = ground arith
narrow_safe (negsuc n) h = ground arith

narrow_cells_safe :
    (cells : List (Option ℤ))
    → first_unsafe cells ≡ none
    → map_cells signed_int32 cells ≡ map_cells (λ z. z) cells
unfolding first_unsafe
narrow_cells_safe [] h = refl
narrow_cells_safe (none ∷ cells) h = ap (λ cs. none ∷ cs) (narrow_cells_safe cells h)
narrow_cells_safe (some z ∷ cells) h = elim (Bool-cases (is_unsafe z)) [
  | inl e ↦ let bad = rw e at h in cc
  | inr e ↦ rw (narrow_safe z e) (ap (λ cs. some z ∷ cs) (narrow_cells_safe cells (rw e at h)))
]

narrow_frame_safe :
    (df : Frame) → is_safe df ≡ true → loaded_frame signed_int32 df ≡ loaded_frame (λ z. z) df
unfolding loaded_frame is_safe
narrow_frame_safe [] h = refl
narrow_frame_safe ((name, integers dtype cells) ∷ df) h =
    ground (arith, narrow_cells_safe cells, narrow_frame_safe df)
narrow_frame_safe ((name, booleans dtype cells) ∷ df) h =
    ap (λ (f : Frame). (name, integers "int32" (map_cells bit cells)) ∷ f) (narrow_frame_safe df h)
narrow_frame_safe ((name, strings dtype cells) ∷ df) h =
    ap (λ (f : Frame). (name, strings "object" cells) ∷ f) (narrow_frame_safe df h)
narrow_frame_safe ((name, others dtype cells) ∷ df) h =
    ap (λ (f : Frame). (name, others dtype cells) ∷ f) (narrow_frame_safe df h)

is_ok_of_sink : (r : Result WriteError String) → to_sink_result r ≡ ok tt → is_ok r ≡ true
is_ok_of_sink (ok _) h = refl
is_ok_of_sink (err e) h = cc

and_parts : (a b c d : Bool) → (a && (b && (c && d))) ≡ true → c ≡ true
and_parts a b c d h = ground arith

module _ {Bytes : Type 0} (codec : Codec Bytes) (calls : Disk Bytes → Calls Bytes)
    (uuid : Disk Bytes → String) where
  -- If row64tools keeps only the lowest 32 bits of an integer, without a word, and loads integers and
  -- booleans as int32 and texts as objects, then a target that the ramdb sink has written, without
  -- raising, loads as the null-filled frame in those dtypes, with every integer as it was. The target's
  -- file name must not be that of a temporary file.
  pub load-ramdb_sink :
      (disk : Disk Bytes) (df : Frame) (target : String)
      → let sink = ramdb_sink codec calls uuid in
        ((f : Frame) → codec.decode (codec.encode f) ≡ some (loaded_frame signed_int32 f))
        → is_orphan ".ramdb" (target_path ".ramdb" target) ≡ false
        → (sink.write disk df target).0 ≡ ok tt
        → sink.load (sink.write disk df target).1 target
          ≡ some (loaded_frame (λ z. z) (apply_ramdb_null_fill df))
  load-ramdb_sink disk df target faithful plain done =
      let filled = apply_ramdb_null_fill df in
      let final = target_path ".ramdb" target in
      let tmp = temp_path ".ramdb" target (uuid disk) in
      let apart =
        ne_of_orphan ".ramdb" tmp final (temp_path-orphan ".ramdb" target (uuid disk)) plain in
      let (returned, look) =
        write_outcome codec (calls disk) (uuid disk) df target disk final apart in
      let good =
        sym returned ∙ is_ok_of_sink (write codec (calls disk) (uuid disk) df target disk).0 done in
      let safe =
        and_parts disk.root_exists (is_none (calls disk).mkdir_error) (is_safe filled)
          (goes_well (calls disk).saving (calls disk).rename_error) good in
      ap (λ (o : Option Bytes). load_bytes codec o) (rw (good, ==-refl final) at look)
      ∙ faithful filled
      ∙ ap (λ (f : Frame). some f) (narrow_frame_safe filled safe)
