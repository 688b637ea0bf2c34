-- ===== src/Config/Cadence.antt =====
-- core/config.py: `parse_cadence`. The ASCII part of `\d` and `\s` is modelled.
pub mod Printed
use r64_db_engine.Base.{
  ℕ, ◌+◌, ◌-◌, ◌*◌, ◌≤◌, String, ◌<>◌, ◌≡◌, refl, ap, ◌∙◌, Bool, true, false, ◌&&◌, not, Option,
  none, some, List, [], ◌∷◌, map, codes, is_digit, is_space, to_lower, ltb, if◌then◌else◌, ◌==◌,
  nat_eq, arith,
}
use r64_db_engine.Base.Results.{Result, ok, err}

pub data CadenceError : Type 0 where
  invalid_syntax : String → CadenceError
  below_minimum : String → CadenceError

abbrev pub min_cadence_seconds : ℕ
min_cadence_seconds = 5

pub strip_left : List ℕ → List ℕ
strip_left [] = []
strip_left (c ∷ cs) = let rest = strip_left cs in if is_space c then rest else c ∷ cs

abbrev keep_right : ℕ → List ℕ → List ℕ
keep_right c [] = if is_space c then [] else c ∷ []
keep_right c (d ∷ ds) = c ∷ d ∷ ds

pub strip_right : List ℕ → List ℕ
strip_right [] = []
strip_right (c ∷ cs) = keep_right c (strip_right cs)

-- The group `(s|m|h)` and `$`, with the factor that it stands for.
unit_factor : ℕ → List ℕ → Option ℕ
unit_factor c [] =
    if c == b's'
    then some 1
    else if c == b'm'
    then some 60
    else if c == b'h'
    then some 3600
    else none
unit_factor c (_ ∷ _) = none

-- `\s*(s|m|h)$`
pub after_digits : List ℕ → Option ℕ
after_digits [] = none
after_digits (c ∷ cs) = let rest = after_digits cs in if is_space c then rest else unit_factor c cs

abbrev times : ℕ → Option ℕ → Option ℕ
times n none = none
times n (some k) = some (n * k)

-- `^(\d+)\s*(s|m|h)$`, and the product of the two groups; `seen`: a digit was read.
pub match_duration : ℕ → Bool → List ℕ → Option ℕ
match_duration n seen [] = none
match_duration n seen (c ∷ cs) =
    let more = match_duration (n * 10 + (c - 48)) true cs in
    if is_digit c then more else if seen then times n (after_digits (c ∷ cs)) else none

abbrev pub check_minimum : String → Option ℕ → Result CadenceError ℕ
check_minimum s none = err (invalid_syntax s)
check_minimum s (some seconds) =
    if ltb seconds min_cadence_seconds then err (below_minimum s) else ok seconds

unfoldable pub parse_cadence : String → Result CadenceError ℕ
unfolding strip_left strip_right unit_factor after_digits match_duration nat_eq
parse_cadence s =
    check_minimum s (match_duration 0 false (map to_lower (strip_right (strip_left (codes s)))))
