-- ===== src/Prelude/Result.antt =====
-- A Go result with an error: a value, or an error of the component's own type.
use mathlib.Core.Path.{◌≡◌, refl}
use mathlib.Core.Logic.{◌⊎◌, inl, inr}
use mathlib.Core.Bool.{Bool, true, false}
use mathlib.Core.Option.{Option, none, some}

pub data Result (E : Type 0) (A : Type 0) : Type 0 where
  ok : A → Result E A
  err : E → Result E A

infixl 5 ◌>>=◌ ◌>>◌
abbrev pub ◌>>=◌ : {E A B : Type 0} → Result E A → (A → Result E B) → Result E B
err why >>= next = err why
ok a >>= next = next a

module _ {E A B : Type 0} where
  -- A bind that succeeds, taken apart.
  pub >>=-eq-ok :
      (m : Result E A) (next : A → Result E B) {b : B}
      → (m >>= next) ≡ ok b
      → (a : A) × (m ≡ ok a) × (next a ≡ ok b)
  >>=-eq-ok (err why) next h = cc
  >>=-eq-ok (ok a) next h = (a, refl, h)

-- `if !c { return err }`, before what follows it.
abbrev pub guard : {E : Type 0} → Bool → E → Result E (Unit {0})
guard false why = err why
guard true why = ok tt

abbrev pub ◌>>◌ : {E B : Type 0} → Result E (Unit {0}) → Result E B → Result E B
checked >> next = checked >>= (λ _. next)

module _ {E B : Type 0} where
  pub guard-eq-ok :
      (c : Bool) (why : E) (next : Result E B) {b : B}
      → (guard c why >> next) ≡ ok b
      → (c ≡ true) × (next ≡ ok b)
  guard-eq-ok false why next h = cc
  guard-eq-ok true why next h = (refl, h)

abbrev pub or_err : {E A : Type 0} → Option A → E → Result E A
or_err none why = err why
or_err (some a) why = ok a

module _ {E A B : Type 0} where
  pub or_err-eq-ok :
      (o : Option A) (why : E) (next : A → Result E B) {b : B}
      → (or_err o why >>= next) ≡ ok b
      → (a : A) × (o ≡ some a) × (next a ≡ ok b)
  or_err-eq-ok (some a) why next h = (a, refl, h)
  or_err-eq-ok none why next h = cc

pub ok_inj : {E A : Type 0} {a c : A} → ◌≡◌ {A = Result E A} (ok a) (ok c) → a ≡ c
ok_inj h = cc h

pub Result-cases :
    {E A : Type 0} (r : Result E A) → ((a : A) × (r ≡ ok a)) ⊎ ((e : E) × (r ≡ err e))
Result-cases (ok a) = inl (a, refl)
Result-cases (err e) = inr (e, refl)
