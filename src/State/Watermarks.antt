-- ===== src/State/Watermarks.antt =====
-- core/state.py: what `get_watermark` returns after `set_watermark`.
use r64_db_engine.Base.{
  ℕ, String, ◌≡◌, ◌≢◌, true, some, arith, if◌then◌else◌, ◌==◌, string_eq, nat_eq, starts_with_code,
}
use r64_db_engine.Base.Results.{ok}
use r64_db_engine.Base.Dict.{lookup-insert}
use r64_db_engine.Base.Decimal.{ℤ, int-str, str_plain}
use r64_db_engine.State.{
  StateStore, Watermark, text, number, set_watermark, get_watermark, watermark_row, read_watermark,
}

-- The forms that drivers store: an integer as "int", a text under another type, a composite
-- cursor under any type.
pub data IsStorable : Watermark → String → Type 0 where
  integer : (z : ℤ) → IsStorable (number z) "int"
  plain : (s wm_type : String) → wm_type ≢ "int" → IsStorable (text s) wm_type
  cursor : (s wm_type : String) → starts_with_code s b'{' ≡ true → IsStorable (text s) wm_type

read-storable :
    {value : Watermark} {wm_type : String} (n d now : ℕ)
    → IsStorable value wm_type
    → read_watermark (watermark_row value wm_type n d now) ≡ ok value
unfolding read_watermark
read-storable n d now (integer z) = ground (arith, int-str z, str_plain z)
read-storable n d now (plain s wm_type h) = ground arith
read-storable n d now (cursor s wm_type h) = ground arith

-- Reading a target after a write returns the value and the type that were written, if the value is
-- an integer stored as "int", a text stored under another type, or a text that begins with "{";
-- every other target reads as before.
pub get-set_watermark :
    (s : StateStore) (target j : String) (value : Watermark) (wm_type : String)
    (rows_pulled duration_ms now : ℕ)
    → IsStorable value wm_type
    → get_watermark (set_watermark s target value wm_type rows_pulled duration_ms now) j
      ≡ (if j == target then ok (some (value, wm_type)) else get_watermark s j)
unfolding get_watermark set_watermark
get-set_watermark s target j value wm_type n d now h = ground (
  arith,
  lookup-insert j target (watermark_row value wm_type n d now) s.watermarks,
  read-storable n d now h,
)
