-- ===== src/Base/Members.antt =====
-- Membership in lists, filtered by Boolean tests and cut at a length.
use Prim.Native.Nat.{ℕ, zero, suc}
use mathlib.Core.Path.{◌≡◌, refl, sym, subst}
use mathlib.Core.Bool.{Bool, true, false}
use mathlib.Core.Logic.{inl, inr}
use mathlib.Core.List.{List, [], ◌∷◌, Memᴰ}
use r64_db_engine.Base.Tests.{if◌then◌else◌, Bool-cases}
use r64_db_engine.Base.Lists.{filter, take, All}

module _ {ℓ} {A : Type ℓ} where
  pub All-Memᴰ {κ} : (P : A → Type κ) {a : A} (xs : List A) → All P xs → Memᴰ a xs → P a
  All-Memᴰ P [] h m = elim m [ ]
  All-Memᴰ P (x ∷ xs) h (Memᴰ.head e) = subst P (sym e) h.0
  All-Memᴰ P (x ∷ xs) h (Memᴰ.tail m) = All-Memᴰ P xs h.1 m

  pub Memᴰ-filter :
      (p : A → Bool) {a : A} (xs : List A) → Memᴰ a xs → p a ≡ true → Memᴰ a (filter p xs)
  Memᴰ-filter p [] m h = elim m [ ]
  Memᴰ-filter p (x ∷ xs) (Memᴰ.head e) h = let px : p x ≡ true = rw e at h in rw px (Memᴰ.head e)
  Memᴰ-filter p (x ∷ xs) (Memᴰ.tail m) h = elim (Bool-cases (p x)) [
    | inl t ↦ rw t (Memᴰ.tail (Memᴰ-filter p xs m h))
    | inr f ↦ rw f (Memᴰ-filter p xs m h)
  ]

  pub Memᴰ-of_filter :
      (p : A → Bool) {a : A} (xs : List A) → Memᴰ a (filter p xs) → Memᴰ a xs × (p a ≡ true)
  Memᴰ-of_filter p [] m = elim m [ ]
  Memᴰ-of_filter p (x ∷ xs) m = split (p x) refl m (Memᴰ-of_filter p xs)
    where
      split :
          {a : A} (b : Bool)
          → p x ≡ b
          → Memᴰ a (if b then x ∷ filter p xs else filter p xs)
          → (Memᴰ a (filter p xs) → Memᴰ a xs × (p a ≡ true))
          → Memᴰ a (x ∷ xs) × (p a ≡ true)
      split true e (Memᴰ.head q) rest = (Memᴰ.head q, rw q e)
      split true e (Memᴰ.tail q) rest = (Memᴰ.tail (rest q).0, (rest q).1)
      split false e q rest = (Memᴰ.tail (rest q).0, (rest q).1)

  pub Memᴰ-of_take : {a : A} (n : ℕ) (xs : List A) → Memᴰ a (take n xs) → Memᴰ a xs
  Memᴰ-of_take zero xs m = elim m [ ]
  Memᴰ-of_take (suc n) [] m = elim m [ ]
  Memᴰ-of_take (suc n) (x ∷ xs) (Memᴰ.head e) = Memᴰ.head e
  Memᴰ-of_take (suc n) (x ∷ xs) (Memᴰ.tail m) = Memᴰ.tail (Memᴰ-of_take n xs m)

  pub All-of_Memᴰ {κ} : (P : A → Type κ) (xs : List A) → ((a : A) → Memᴰ a xs → P a) → All P xs
  All-of_Memᴰ P [] h = tt
  All-of_Memᴰ P (x ∷ xs) h = (h x (Memᴰ.head refl), All-of_Memᴰ P xs (λ a m. h a (Memᴰ.tail m)))

  pub All-filter {κ} :
      (P : A → Type κ) (p : A → Bool) (xs : List A) → All P xs → All P (filter p xs)
  All-filter P p xs h =
      All-of_Memᴰ P (filter p xs) (λ a m. All-Memᴰ P xs h (Memᴰ-of_filter p xs m).0)
