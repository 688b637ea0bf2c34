-- ===== src/Tests/CursorJson.antt =====
-- The JSON text of an integer cursor, written and read as Python's `json` does it.
use Prim.Native.Char.{Char, code}
use Prim.Native.String.append
use r64_db_engine.Base.{
  ℕ, suc, String, ◌<>◌, ◌≡◌, refl, true, false, Option, none, some, List, [], ◌∷◌, ◌==◌, nat_eq,
  string_eq, All, codes, is_digit, starts_with_code, arith, ==-refl,
}
use r64_db_engine.Base.Decimal
use r64_db_engine.Base.Decimal.{ℤ, pos, negsuc, str, print_nat, int-str, All-digit-print_nat}
use r64_db_engine.Base.Json.{Json, Fields, get}
use r64_db_engine.Rest.Texts.{partition}
use r64_db_engine.State.{number}
use r64_db_engine.Drivers.Postgres.{JsonText}
use r64_db_engine.Drivers.Postgres.NewWatermark.{cursor_fields}

drop_prefix : String → String → String
drop_prefix String.[] s = s
drop_prefix (String.◌∷◌ k p) String.[] = ""
drop_prefix (String.◌∷◌ k p) (String.◌∷◌ c s) = drop_prefix p s

drop_prefix-append : (p s : String) → drop_prefix p (p <> s) ≡ s
unfolding drop_prefix
drop_prefix-append String.[] s = append.nil s
drop_prefix-append (String.◌∷◌ c p) s = rw (append.cons c p s) (drop_prefix-append p s)

partition-append :
    (sep : Char) (s t : String)
    → All (λ c. (c == code sep) ≡ false) (codes s)
    → partition (code sep) (s <> String.◌∷◌ sep t) ≡ (s, t)
unfolding partition
partition-append sep String.[] t h =
    rw (append.nil (String.◌∷◌ sep t), partition, ==-refl (code sep))
partition-append sep (String.◌∷◌ c s) t h =
    rw (append.cons c s (String.◌∷◌ sep t), partition, h.0, partition-append sep s t h.1)

digits_apart :
    (k : ℕ) (cs : List ℕ)
    → is_digit k ≡ false
    → All (λ c. is_digit c ≡ true) cs
    → All (λ c. (c == k) ≡ false) cs
digits_apart k [] h a = tt
digits_apart k (c ∷ cs) h a = (ground (arith, a.0), digits_apart k cs h a.1)

str_apart :
    (k : ℕ) (z : ℤ)
    → is_digit k ≡ false
    → (b'-' == k) ≡ false
    → All (λ c. (c == k) ≡ false) (codes (str z))
unfolding str
str_apart k (pos n) h m = digits_apart k (codes (print_nat n)) h (All-digit-print_nat n)
str_apart k (negsuc n) h m =
    (m, digits_apart k (codes (print_nat (suc n))) h (All-digit-print_nat (suc n)))

-- `json.dumps` of two integers under their keys, and of nothing else.
dump_two : Option Json → Option Json → String
dump_two (some (Json.num a)) (some (Json.num b)) =
    "{\"watermark\":" <> (str a <> String.◌∷◌ "," ("\"tie_breaker\":" <> (str b <> "}")))
dump_two _ _ = ""

dumps : Fields → String
unfolding dump_two
dumps fs = dump_two (get "watermark" fs) (get "tie_breaker" fs)

two_numbers : Option ℤ → Option ℤ → Option Json
two_numbers (some a) (some b) = some (Json.obj (cursor_fields (number a) (Json.num b)))
two_numbers _ _ = none

loads : String → Option Json
unfolding two_numbers drop_prefix
loads s =
    let (a, rest) = partition b',' (drop_prefix "{\"watermark\":" s) in
    two_numbers (Decimal.int a)
      (Decimal.int (partition b'}' (drop_prefix "\"tie_breaker\":" rest)).0)

unfoldable pub cursor_json : JsonText
unfolding dumps loads
cursor_json = record { dumps = dumps; loads = loads }

pub dumps-brace :
    (a b : ℤ)
    → starts_with_code (cursor_json.dumps (cursor_fields (number a) (Json.num b))) b'{' ≡ true
unfolding cursor_json get string_eq nat_eq
dumps-brace a b = rw (
    append.cons "{" "\"watermark\":"
      (str a <> String.◌∷◌ "," ("\"tie_breaker\":" <> (str b <> "}"))))

pub loads-dumps :
    (a b : ℤ)
    → let fs = cursor_fields (number a) (Json.num b) in
      cursor_json.loads (cursor_json.dumps fs) ≡ some (Json.obj fs)
unfolding cursor_json get string_eq nat_eq
loads-dumps a b =
    let behind = "\"tie_breaker\":" <> (str b <> "}") in
    rw (
      drop_prefix-append "{\"watermark\":" (str a <> String.◌∷◌ "," behind),
      partition-append "," (str a) behind (str_apart b',' a refl refl),
      drop_prefix-append "\"tie_breaker\":" (str b <> "}"),
      partition-append "}" (str b) "" (str_apart b'}' b refl refl),
      int-str a,
      int-str b,
    )
