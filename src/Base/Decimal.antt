-- ===== src/Base/Decimal.antt =====
-- Python's integers, `str` of an integer and `int` of a text (its ASCII syntax).
use Prim.Native.Char.{Char, code}
use mathlib.Core.Logic.{inl, inr}
use r64_db_engine.Base.Tests.{if◌then◌else◌, nat_eq, ◌==◌, Bool-cases}
use mathlib.Core.List.{List, ◌∷◌, ◌++◌}
use r64_db_engine.Base.Lists.{All}
use r64_db_engine.Base.Texts.{codes, is_digit, is_space, starts_with_code}
use Prim.Native.Nat.{ℕ, zero, suc, ◌+◌, ◌-◌, ◌*◌, ◌/◌, ◌%◌, ◌<◌}
use Prim.Native.String.{String}
use mathlib.Core.Path.{◌≡◌, refl, ap, ◌∙◌}
use mathlib.Core.Bool.{Bool, true, false, ◌&&◌}
use mathlib.Core.Option.{Option, none, some}
use native.Mathlib.Omega.{arith}

-- `negsuc n` is -(n + 1).
pub data ℤ : Type 0 where
  pos : ℕ → ℤ
  negsuc : ℕ → ℤ

abbrev digit : ℕ → Char
digit zero = "0"
digit (suc zero) = "1"
digit (suc (suc zero)) = "2"
digit (suc (suc (suc zero))) = "3"
digit (suc (suc (suc (suc zero)))) = "4"
digit (suc (suc (suc (suc (suc zero))))) = "5"
digit (suc (suc (suc (suc (suc (suc zero)))))) = "6"
digit (suc (suc (suc (suc (suc (suc (suc zero))))))) = "7"
digit (suc (suc (suc (suc (suc (suc (suc (suc zero)))))))) = "8"
digit _ = "9"

-- The digits of `n` in front of `rest`, on fuel above `n`.
print_fuel : ℕ → ℕ → String → String
print_fuel zero n rest = rest
print_fuel (suc f) n rest =
    let more = print_fuel f (n / 10) (String.◌∷◌ (digit (n % 10)) rest) in
    if n / 10 == 0 then String.◌∷◌ (digit (n % 10)) rest else more

unfoldable pub print_nat : ℕ → String
unfolding print_fuel nat_eq
print_nat n = print_fuel (suc n) n String.[]

unfoldable pub str : ℤ → String
unfolding print_nat
str (pos n) = print_nat n
str (negsuc n) = String.◌∷◌ "-" (print_nat (suc n))

abbrev all_space : String → Bool
all_space String.[] = true
all_space (String.◌∷◌ c s) = is_space (code c) && all_space s

-- Digits, single underscores between digits, then white space. `seen`: the last one was a digit.
digits : ℕ → Bool → String → Option ℕ
digits n seen String.[] = if seen then some n else none
digits n seen (String.◌∷◌ c s) =
    let more = digits (n * 10 + (code c - 48)) true s in
    let after = digits n false s in
    if is_digit (code c)
    then more
    else if seen && code c == b'_'
    then after
    else if seen && is_space (code c) && all_space s
    then some n
    else none

abbrev to_pos : Option ℕ → Option ℤ
to_pos none = none
to_pos (some n) = some (pos n)

abbrev to_neg : Option ℕ → Option ℤ
to_neg none = none
to_neg (some zero) = some (pos 0)
to_neg (some (suc n)) = some (negsuc n)

signed : String → Option ℤ
signed String.[] = none
signed (String.◌∷◌ c s) =
    if code c == b'-'
    then to_neg (digits 0 false s)
    else if code c == b'+'
    then to_pos (digits 0 false s)
    else to_pos (digits 0 false (String.◌∷◌ c s))

strip_left : String → String
strip_left String.[] = String.[]
strip_left (String.◌∷◌ c s) =
    let rest = strip_left s in if is_space (code c) then rest else String.◌∷◌ c s

-- `int(text)`; `none` is a `ValueError`.
unfoldable pub int : String → Option ℤ
unfolding digits signed strip_left nat_eq
int text = signed (strip_left text)

code-digit : (d : ℕ) → d < 10 → code (digit d) ≡ 48 + d
code-digit zero h = refl
code-digit (suc zero) h = refl
code-digit (suc (suc zero)) h = refl
code-digit (suc (suc (suc zero))) h = refl
code-digit (suc (suc (suc (suc zero)))) h = refl
code-digit (suc (suc (suc (suc (suc zero))))) h = refl
code-digit (suc (suc (suc (suc (suc (suc zero)))))) h = refl
code-digit (suc (suc (suc (suc (suc (suc (suc zero))))))) h = refl
code-digit (suc (suc (suc (suc (suc (suc (suc (suc zero)))))))) h = refl
code-digit (suc (suc (suc (suc (suc (suc (suc (suc (suc zero))))))))) h = refl
code-digit (suc (suc (suc (suc (suc (suc (suc (suc (suc (suc d)))))))))) h = absurd (omega arith)

digits-digit :
    (d n : ℕ) (seen : Bool) (s : String)
    → d < 10
    → digits n seen (String.◌∷◌ (digit d) s) ≡ digits (n * 10 + d) true s
unfolding digits
digits-digit d n seen s h = ground (arith, code-digit d h)

-- Reading back what was printed in front of a text reads on from the number.
digits-print_fuel :
    (f n : ℕ) (seen : Bool) (rest : String)
    → n < f
    → digits 0 seen (print_fuel f n rest) ≡ digits n true rest
unfolding print_fuel
digits-print_fuel zero n seen rest h = elim h [ ]
digits-print_fuel (suc f) n seen rest h = elim (Bool-cases (n / 10 == 0)) [
  | inl last ↦ rw last (
      digits-digit (n % 10) 0 seen rest (omega arith) ∙ ap (λ k. digits k true rest) (ground arith))
  | inr more ↦ rw more (
      digits-print_fuel f (n / 10) seen (String.◌∷◌ (digit (n % 10)) rest) (ground arith)
      ∙ (digits-digit (n % 10) (n / 10) true rest (omega arith)
          ∙ ap (λ k. digits k true rest) (omega arith)))
]

-- A text that begins with a digit.
record StartsWithDigit (s : String) : Type 0 where
  value : ℕ
  small : value < 10
  tail : String
  split : s ≡ String.◌∷◌ (digit value) tail

print_fuel-StartsWithDigit :
    (f n : ℕ) (rest : String) → n < f → StartsWithDigit (print_fuel f n rest)
unfolding print_fuel
print_fuel-StartsWithDigit zero n rest h = elim h [ ]
print_fuel-StartsWithDigit (suc f) n rest h = elim (Bool-cases (n / 10 == 0)) [
  | inl last ↦ record { value = n % 10; small = omega arith; tail = rest; split = rw last }
  | inr more ↦
      rw more
        (print_fuel-StartsWithDigit f (n / 10) (String.◌∷◌ (digit (n % 10)) rest) (ground arith))
]

-- A text that begins with a digit has neither a sign nor white space in front.
int-digit : (s : String) → StartsWithDigit s → int s ≡ to_pos (digits 0 false s)
unfolding int
int-digit s w = rw w.split (ground (arith, code-digit w.value w.small))

-- The digits of a number stand before `rest`, and are read back.
digits-print_nat : (n : ℕ) → digits 0 false (print_nat n) ≡ some n
unfolding print_nat
digits-print_nat n =
    digits-print_fuel (suc n) n false String.[] (omega arith) ∙ unfold digits in refl

-- `int(str(z)) == z`
pub int-str : (z : ℤ) → int (str z) ≡ some z
unfolding str int
int-str (pos n) =
    int-digit (print_nat n) (print_fuel-StartsWithDigit (suc n) n String.[] (omega arith))
    ∙ rw digits-print_nat
int-str (negsuc n) = rw digits-print_nat

-- `str(z)` does not begin with "{".
pub str_plain : (z : ℤ) → starts_with_code (str z) b'{' ≡ false
unfolding str nat_eq
str_plain (pos n) =
    let w = print_fuel-StartsWithDigit (suc n) n String.[] (omega arith) in
    rw w.split (ground (arith, code-digit w.value w.small))
str_plain (negsuc n) = refl

is_digit-digit : (d : ℕ) → d < 10 → is_digit (code (digit d)) ≡ true
is_digit-digit d h = ground (arith, code-digit d h)

-- A loop that reads digits into a number reads a printed number as that number.
module _ {ℓ} {X : Type ℓ} (reader : ℕ → Bool → List ℕ → X)
    (step : (n : ℕ) (seen : Bool) (c : ℕ) (cs : List ℕ)
      → is_digit c ≡ true
      → reader n seen (c ∷ cs) ≡ reader (n * 10 + (c - 48)) true cs) where
  read-digit :
      (d n : ℕ) (seen : Bool) (cs : List ℕ)
      → d < 10
      → reader n seen (code (digit d) ∷ cs) ≡ reader (n * 10 + d) true cs
  read-digit d n seen cs h =
      step n seen (code (digit d)) cs (is_digit-digit d h)
      ∙ ap (λ k. reader k true cs) (omega (arith, code-digit d h))

  read-print_fuel :
      (f n : ℕ) (seen : Bool) (rest : String) (cs : List ℕ)
      → n < f
      → reader 0 seen (codes (print_fuel f n rest) ++ cs) ≡ reader n true (codes rest ++ cs)
  unfolding print_fuel
  read-print_fuel zero n seen rest cs h = elim h [ ]
  read-print_fuel (suc f) n seen rest cs h = elim (Bool-cases (n / 10 == 0)) [
    | inl last ↦ rw last (
        read-digit (n % 10) 0 seen (codes rest ++ cs) (omega arith)
        ∙ ap (λ k. reader k true (codes rest ++ cs)) (ground arith))
    | inr more ↦ rw more (
        read-print_fuel f (n / 10) seen (String.◌∷◌ (digit (n % 10)) rest) cs (ground arith)
        ∙ (read-digit (n % 10) (n / 10) true (codes rest ++ cs) (omega arith)
            ∙ ap (λ k. reader k true (codes rest ++ cs)) (omega arith)))
  ]

  pub read-print_nat :
      (n : ℕ) (cs : List ℕ) → reader 0 false (codes (print_nat n) ++ cs) ≡ reader n true cs
  unfolding print_nat
  read-print_nat n cs = read-print_fuel (suc n) n false String.[] cs (omega arith)

All-digit-print_fuel :
    (f n : ℕ) (rest : String)
    → All (λ c. is_digit c ≡ true) (codes rest)
    → All (λ c. is_digit c ≡ true) (codes (print_fuel f n rest))
unfolding print_fuel
All-digit-print_fuel zero n rest h = h
All-digit-print_fuel (suc f) n rest h = elim (Bool-cases (n / 10 == 0)) [
  | inl last ↦ rw last (is_digit-digit (n % 10) (omega arith), h)
  | inr more ↦ rw more (
      All-digit-print_fuel f (n / 10) (String.◌∷◌ (digit (n % 10)) rest)
        (is_digit-digit (n % 10) (omega arith), h))
]

-- A printed number is made of digits.
pub All-digit-print_nat : (n : ℕ) → All (λ c. is_digit c ≡ true) (codes (print_nat n))
unfolding print_nat
All-digit-print_nat n = All-digit-print_fuel (suc n) n String.[] tt

-- No integer is written with a brace in front.
pub int_brace : (s : String) → starts_with_code s b'{' ≡ true → int s ≡ none
unfolding int nat_eq
int_brace String.[] h = cc
int_brace (String.◌∷◌ c s) h =
    let brace : code c ≡ b'{' = ground arith in rw (brace, signed, brace, digits)
