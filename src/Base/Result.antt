-- ===== src/Base/Result.antt =====
-- A Go result `(A, error)`.
use mathlib.Core.Path.{◌≡◌, refl}
use mathlib.Core.Logic.{◌⊎◌, inl, inr}
use mathlib.Core.Bool.{Bool, true, false}
use mathlib.Core.Option.{Option, none, some}
use tortureu.Base.Tests.{if◌then◌else◌}

-- the error comes first in the type, the value first among the constructors
pub data Result {ℓ} (E A : Type ℓ) : Type ℓ where
  ok : A → Result E A
  err : E → Result E A

-- which of the two it is
pub Result-cases {ℓ} :
    {E A : Type ℓ} (m : Result E A) → ((a : A) × (m ≡ ok a)) ⊎ ((e : E) × (m ≡ err e))
Result-cases (ok a) = inl (a, refl)
Result-cases (err e) = inr (e, refl)

-- if bad { return err }
abbrev pub reject_if : {E : Type 0} → Bool → E → Result E (Unit {0})
reject_if bad e = elim bad [ false ↦ ok tt | true ↦ err e ]

-- if err := ...; err != nil { return err }
abbrev pub reject_some : {E : Type 0} → Option E → Result E (Unit {0})
reject_some none = ok tt
reject_some (some e) = err e

infixl 5 ◌>>=◌ ◌>>◌
abbrev pub ◌>>=◌ {ℓ} : {E A B : Type ℓ} → Result E A → (A → Result E B) → Result E B
m >>= next = elim m [ err e ↦ err e | ok a ↦ next a ]

abbrev pub ◌>>◌ : {E B : Type 0} → Result E (Unit {0}) → Result E B → Result E B
m >> next = m >>= (λ done. next)

-- where a chain succeeds, its first part does
pub >>=-eq-ok {ℓ} :
    {E A B : Type ℓ} (m : Result E A) (next : A → Result E B) {b : B}
    → (m >>= next) ≡ ok b
    → (a : A) × (m ≡ ok a) × (next a ≡ ok b)
>>=-eq-ok (err e) next h = cc
>>=-eq-ok (ok a) next h = (a, refl, h)

pub reject_if-eq-ok :
    {E B : Type 0} (bad : Bool) (e : E) (next : Result E B) {x : B}
    → (reject_if bad e >> next) ≡ ok x
    → (bad ≡ false) × (next ≡ ok x)
reject_if-eq-ok false e next h = (refl, h)
reject_if-eq-ok true e next h = cc

pub reject_some-eq-ok :
    {E B : Type 0} (o : Option E) (next : Result E B) {x : B}
    → (reject_some o >> next) ≡ ok x
    → (o ≡ none) × (next ≡ ok x)
reject_some-eq-ok (some e) next h = cc
reject_some-eq-ok none next h = (refl, h)

-- where a chain of checks fails, one of them does
pub reject_some-eq-err :
    {E B : Type 0} (o : Option E) (next : Result E B) {x : E}
    → (reject_some o >> next) ≡ err x
    → (o ≡ some x) ⊎ (next ≡ err x)
reject_some-eq-err (some e) next h = inl cc
reject_some-eq-err none next h = inr h

pub reject_if-eq-err :
    {E B : Type 0} (bad : Bool) (e : E) (next : Result E B) {x : E}
    → (reject_if bad e >> next) ≡ err x
    → ((bad ≡ true) × (x ≡ e)) ⊎ (next ≡ err x)
reject_if-eq-err true e next h = inl (refl, cc)
reject_if-eq-err false e next h = inr h

-- if bad { return err }, written as a conditional
pub if_err-eq-ok :
    {E A : Type 0} (bad : Bool) (e : E) (next : Result E A) {x : A}
    → (if bad then err e else next) ≡ ok x
    → (bad ≡ false) × (next ≡ ok x)
if_err-eq-ok false e next h = (refl, h)
if_err-eq-ok true e next h = cc
