-- ===== src/Drivers/Order.antt =====
-- drivers/: the cells of a pulled frame and the order of pandas on them and on rows.
use Prim.Native.Char.{code}
use r64_db_engine.Base.{ℕ, String, ◌≡◌, refl, Bool, true, false, not, ◌&&◌, ◌||◌, ltb, arith}
use r64_db_engine.Base.Decimal.{ℤ, pos, negsuc}

-- `a < b`
abbrev pub lt_int : ℤ → ℤ → Bool
lt_int (pos m) (pos n) = ltb m n
lt_int (pos m) (negsuc n) = false
lt_int (negsuc m) (pos n) = true
lt_int (negsuc m) (negsuc n) = ltb n m

-- Texts, by their code points.
abbrev pub lt_text : String → String → Bool
lt_text s String.[] = false
lt_text String.[] (String.◌∷◌ d t) = true
lt_text (String.◌∷◌ c s) (String.◌∷◌ d t) =
    ltb (code c) (code d) || (not (ltb (code d) (code c)) && lt_text s t)

-- A cell of the coerced frame; a time stamp is its number of microseconds.
pub data Value : Type 0 where
  null : Value
  int : ℤ → Value
  text : String → Value
  stamp : ℕ → Value

-- The order of `sort_values`, a null last.
abbrev pub lt_value : Value → Value → Bool
lt_value null v = false
lt_value (int a) null = true
lt_value (int a) (int b) = lt_int a b
lt_value (int a) _ = false
lt_value (text s) null = true
lt_value (text s) (text t) = lt_text s t
lt_value (text s) _ = false
lt_value (stamp a) null = true
lt_value (stamp a) (stamp b) = ltb a b
lt_value (stamp a) _ = false

-- Two columns, the second where the first does not decide.
abbrev pub lt_pair : Value × Value → Value × Value → Bool
lt_pair (a, b) (c, d) = lt_value a c || (not (lt_value c a) && lt_value b d)

pub lt_int_irrefl : (a : ℤ) → lt_int a a ≡ false
lt_int_irrefl (pos m) = ground arith
lt_int_irrefl (negsuc m) = ground arith

pub lt_int_trans : (a b c : ℤ) → lt_int a b ≡ true → lt_int b c ≡ true → lt_int a c ≡ true
lt_int_trans (pos a) (pos b) (pos c) h k = ground arith
lt_int_trans (pos a) (pos b) (negsuc c) h k = cc
lt_int_trans (pos a) (negsuc b) c h k = cc
lt_int_trans (negsuc a) (pos b) (pos c) h k = refl
lt_int_trans (negsuc a) (pos b) (negsuc c) h k = cc
lt_int_trans (negsuc a) (negsuc b) (pos c) h k = refl
lt_int_trans (negsuc a) (negsuc b) (negsuc c) h k = ground arith

pub eq_of_not_lt_int : (a b : ℤ) → lt_int a b ≡ false → lt_int b a ≡ false → a ≡ b
eq_of_not_lt_int (pos a) (pos b) h k = ground arith
eq_of_not_lt_int (pos a) (negsuc b) h k = cc
eq_of_not_lt_int (negsuc a) (pos b) h k = cc
eq_of_not_lt_int (negsuc a) (negsuc b) h k = ground arith

pub lt_int_asym : (a b : ℤ) → lt_int a b ≡ true → lt_int b a ≡ false
lt_int_asym (pos a) (pos b) h = ground arith
lt_int_asym (pos a) (negsuc b) h = cc
lt_int_asym (negsuc a) (pos b) h = refl
lt_int_asym (negsuc a) (negsuc b) h = ground arith
