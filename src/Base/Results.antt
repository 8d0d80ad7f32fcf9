-- ===== src/Base/Results.antt =====
-- What a function that may throw gives back: the error thrown, or its value. `do` stops at an error.
use mathlib.Core.Path.{◌≡◌, refl}
use mathlib.Core.Logic.{◌⊎◌, inl, inr}
use mathlib.Core.Bool.{Bool, true, false}

pub data Result {ℓ κ} (E : Type κ) (A : Type ℓ) : Type (ℓ ⊔ κ) where
  err : E → Result E A
  ok : A → Result E A

-- `if (test) throw e`
abbrev pub throw_if {μ} : {E : Type μ} → Bool → E → Result E (Unit {0})
throw_if test e = elim test [ true ↦ err e | false ↦ ok tt ]

module _ {ℓ κ μ} {E : Type μ} {A : Type ℓ} {B : Type κ} where
  infixl 5 ◌>>=◌
  abbrev pub ◌>>=◌ : Result E A → (A → Result E B) → Result E B
  r >>= next = elim r [ err thrown ↦ err thrown | ok value ↦ next value ]

  -- A chain that did not throw got a value from its first call.
  pub >>=-ok :
      (r : Result E A) (next : A → Result E B) {out : B}
      → (r >>= next) ≡ ok out
      → (value : A) × (r ≡ ok value) × (next value ≡ ok out)
  >>=-ok (err thrown) next h = cc
  >>=-ok (ok value) next h = (value, refl, h)

module _ {ℓ μ} {E : Type μ} {B : Type ℓ} where
  infixl 5 ◌>>◌
  abbrev pub ◌>>◌ : Result E (Unit {0}) → Result E B → Result E B
  check >> rest = elim check [ err thrown ↦ err thrown | ok _ ↦ rest ]

  pub Result-cases : (r : Result E B) → ((b : B) × (r ≡ ok b)) ⊎ ((e : E) × (r ≡ err e))
  Result-cases (err thrown) = inr (thrown, refl)
  Result-cases (ok value) = inl (value, refl)

  -- A guard that was passed.
  pub throw_if-ok :
      (test : Bool) (e : E) (rest : Result E B) {out : B}
      → (throw_if test e >> rest) ≡ ok out
      → (test ≡ false) × (rest ≡ ok out)
  throw_if-ok true e rest h = cc
  throw_if-ok false e rest h = (refl, h)
