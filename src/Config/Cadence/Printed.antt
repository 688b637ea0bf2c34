-- ===== src/Config/Cadence/Printed.antt =====
-- core/config.py: `parse_cadence` on the texts that a number and a unit make, and its bound.
use mathlib.Core.Path.{ap₂}
use r64_db_engine.Base.{
  ℕ, ◌+◌, ◌-◌, ◌*◌, ◌≤◌, String, ◌<>◌, ◌≡◌, refl, ap, ◌∙◌, Bool, true, false, some, List, [], ◌∷◌,
  ◌++◌, map, codes, is_digit, is_space, to_lower, ltb, if◌then◌else◌, nat_eq, arith, All,
  codes-append,
}
use r64_db_engine.Base.Results.{ok, err}
use r64_db_engine.Base.Decimal.{print_nat, read-print_nat, All-digit-print_nat}
use r64_db_engine.Config.Cadence.{
  parse_cadence, match_duration, after_digits, strip_left, strip_right, keep_right, unit_factor,
  below_minimum, min_cadence_seconds, check_minimum,
}

-- `parse_cadence` returns at least 5 seconds.
pub parse_cadence-bound : (s : String) (n : ℕ) → parse_cadence s ≡ ok n → min_cadence_seconds ≤ n
unfolding parse_cadence
parse_cadence-bound s n h = ground arith

pub data Unit' : Type 0 where
  seconds minutes hours : Unit'

abbrev pub symbol : Unit' → String
symbol seconds = "s"
symbol minutes = "m"
symbol hours = "h"

abbrev pub factor : Unit' → ℕ
factor seconds = 1
factor minutes = 60
factor hours = 3600

-- Neither white space nor an upper-case letter.
abbrev IsPlain : ℕ → Type 0
IsPlain c = (is_space c ≡ false) × (to_lower c ≡ c)

IsPlain-of_digit : (c : ℕ) → is_digit c ≡ true → IsPlain c
IsPlain-of_digit c h = (ground arith, ground arith)

All-IsPlain :
    (cs ds : List ℕ) → All (λ c. is_digit c ≡ true) cs → All IsPlain ds → All IsPlain (cs ++ ds)
All-IsPlain [] ds h k = k
All-IsPlain (c ∷ cs) ds h k = (IsPlain-of_digit c h.0, All-IsPlain cs ds h.1 k)

strip_left_plain : (cs : List ℕ) → All IsPlain cs → strip_left cs ≡ cs
unfolding strip_left
strip_left_plain [] h = refl
strip_left_plain (c ∷ cs) h = rw h.0.0

keep_right_plain : (c : ℕ) (cs : List ℕ) → is_space c ≡ false → keep_right c cs ≡ c ∷ cs
keep_right_plain c [] h = rw h
keep_right_plain c (d ∷ ds) h = refl

strip_right_plain : (cs : List ℕ) → All IsPlain cs → strip_right cs ≡ cs
unfolding strip_right
strip_right_plain [] h = refl
strip_right_plain (c ∷ cs) h = rw (strip_right_plain cs h.1) (keep_right_plain c cs h.0.0)

map_lower_plain : (cs : List ℕ) → All IsPlain cs → map to_lower cs ≡ cs
map_lower_plain [] h = refl
map_lower_plain (c ∷ cs) h = ap₂ (λ d ds. d ∷ ds) h.0.1 (map_lower_plain cs h.1)

match_duration-digit :
    (n : ℕ) (seen : Bool) (c : ℕ) (cs : List ℕ)
    → is_digit c ≡ true
    → match_duration n seen (c ∷ cs) ≡ match_duration (n * 10 + (c - 48)) true cs
unfolding match_duration
match_duration-digit n seen c cs h = rw h

match_duration-unit :
    (n : ℕ) (u : Unit') → match_duration n true (codes (symbol u)) ≡ some (n * factor u)
unfolding match_duration after_digits unit_factor nat_eq
match_duration-unit n seconds = refl
match_duration-unit n minutes = refl
match_duration-unit n hours = refl

symbol-IsPlain : (u : Unit') → All IsPlain (codes (symbol u))
symbol-IsPlain seconds = ((refl, refl), tt)
symbol-IsPlain minutes = ((refl, refl), tt)
symbol-IsPlain hours = ((refl, refl), tt)

-- A number printed in front of its unit is parsed as that many units, and refused as below the
-- minimum exactly when that is less than 5 seconds.
pub parse_cadence-print :
    (n : ℕ) (u : Unit')
    → let s = print_nat n <> symbol u in
      parse_cadence s ≡ (
        if ltb (n * factor u) min_cadence_seconds then err (below_minimum s) else ok (n * factor u))
unfolding parse_cadence
parse_cadence-print n u =
    let cs = codes (print_nat n) ++ codes (symbol u) in
    let p =
      All-IsPlain (codes (print_nat n)) (codes (symbol u)) (All-digit-print_nat n)
        (symbol-IsPlain u) in
    let read : match_duration 0 false (map to_lower (strip_right (strip_left cs)))
        ≡ some (n * factor u) =
      rw (strip_left_plain cs p, strip_right_plain cs p, map_lower_plain cs p)
        (read-print_nat match_duration match_duration-digit n (codes (symbol u))
          ∙ match_duration-unit n u) in
    ap
      (λ ds.
        check_minimum (print_nat n <> symbol u)
          (match_duration 0 false (map to_lower (strip_right (strip_left ds)))))
      (codes-append (print_nat n) (symbol u))
    ∙ ap (check_minimum (print_nat n <> symbol u)) read
