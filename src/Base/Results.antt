-- ===== src/Base/Results.antt =====
-- A computation that may raise, and its sequencing.
use mathlib.Core.Path.{◌≡◌, refl}
use mathlib.Core.Logic.{◌⊎◌, inl, inr}
use mathlib.Core.Bool.{Bool, true, false}

pub data Result {ℓ κ} (E : Type ℓ) (A : Type κ) : Type (ℓ ⊔ κ) where
  ok : A → Result E A
  err : E → Result E A

-- `if not test: raise reason`
abbrev pub guard {ℓ} : {E : Type ℓ} → Bool → E → Result E (Unit {0})
guard false reason = err reason
guard true reason = ok tt

infixl 5 ◌>>=◌ ◌>>◌
-- What follows runs on the value; what was raised passes.
abbrev pub ◌>>=◌ {ℓ κ μ} :
    {E : Type ℓ} {A : Type κ} {B : Type μ} → Result E A → (A → Result E B) → Result E B
err raised >>= continue = err raised
ok value >>= continue = continue value

abbrev pub ◌>>◌ {ℓ κ} : {E : Type ℓ} {B : Type κ} → Result E (Unit {0}) → Result E B → Result E B
check >> after = check >>= λ _. after

pub >>=-eq-ok {ℓ κ μ} :
    {E : Type ℓ} {A : Type κ} {B : Type μ} (m : Result E A) (f : A → Result E B) {b : B}
    → (m >>= f) ≡ ok b
    → (a : A) × (m ≡ ok a) × (f a ≡ ok b)
>>=-eq-ok (err raised) continue h = cc
>>=-eq-ok (ok value) continue h = (value, refl, h)

pub >>-eq-ok {ℓ κ} :
    {E : Type ℓ} {B : Type κ} (m : Result E (Unit {0})) (k : Result E B) {b : B}
    → (m >> k) ≡ ok b
    → (m ≡ ok tt) × (k ≡ ok b)
>>-eq-ok (ok tt) k h = (refl, h)
>>-eq-ok (err e) k h = cc

-- What raised, in a check before a computation and in a sequence.
pub guard->>-eq-err {ℓ κ} :
    {E : Type ℓ} {B : Type κ} (b : Bool) (e : E) (k : Result E B) {d : E}
    → (guard b e >> k) ≡ err d
    → (d ≡ e) ⊎ (k ≡ err d)
guard->>-eq-err true e k h = inr h
guard->>-eq-err false e k h = inl cc

pub >>=-eq-err {ℓ κ μ} :
    {E : Type ℓ} {A : Type κ} {B : Type μ} (m : Result E A) (f : A → Result E B) {d : E}
    → (m >>= f) ≡ err d
    → (m ≡ err d) ⊎ ((a : A) × (m ≡ ok a) × (f a ≡ err d))
>>=-eq-err (ok a) f h = inr (a, refl, h)
>>=-eq-err (err e) f h = inl cc

pub err-injective {ℓ κ} :
    {E : Type ℓ} {A : Type κ} (d e : E) → ◌≡◌ {A = Result E A} (err d) (err e) → d ≡ e
err-injective d e h = cc

pub ok-injective {ℓ κ} :
    {E : Type ℓ} {A : Type κ} (a b : A) → ◌≡◌ {A = Result E A} (ok a) (ok b) → a ≡ b
ok-injective a b h = cc

pub guard-eq-ok {ℓ} : {E : Type ℓ} (b : Bool) (e : E) {u : Unit {0}} → guard b e ≡ ok u → b ≡ true
guard-eq-ok true e h = refl
guard-eq-ok false e h = cc

pub Result-cases {ℓ κ} :
    {E : Type ℓ} {A : Type κ} (r : Result E A) → ((a : A) × (r ≡ ok a)) ⊎ ((e : E) × (r ≡ err e))
Result-cases (ok a) = inl (a, refl)
Result-cases (err e) = inr (e, refl)

abbrev pub is_ok {ℓ κ} : {E : Type ℓ} {A : Type κ} → Result E A → Bool
is_ok (ok _) = true
is_ok (err _) = false
