-- ===== src/Common/Results.antt =====
-- A function that returns a value and an error: errors are values of a type of the component's own.
use mathlib.Core.Path.{◌≡◌, refl}
use mathlib.Core.Logic.{◌⊎◌, inl, inr}
use mathlib.Core.Bool.{Bool, true, false}
use mathlib.Core.Option.{Option, none, some}

pub data Result {ℓ κ} (Failure : Type ℓ) (Value : Type κ) : Type (ℓ ⊔ κ) where
  err : Failure → Result Failure Value
  ok : Value → Result Failure Value

module _ {ℓ κ} {Failure : Type ℓ} {Value : Type κ} where
  infixl 5 ◌>>=◌
  abbrev pub ◌>>=◌ {μ} :
      {Next : Type μ} → Result Failure Value → (Value → Result Failure Next) → Result Failure Next
  err why >>= next = err why
  ok value >>= next = next value

module _ {ℓ κ} {Failure : Type ℓ} {Value : Type κ} where
  infixl 5 ◌>>◌
  abbrev pub ◌>>◌ : Result Failure (Unit {0}) → Result Failure Value → Result Failure Value
  check >> rest = check >>= λ done. rest

-- `if !test { return e }`.
abbrev pub require {ℓ} : {E : Type ℓ} → Bool → E → Result E (Unit {0})
require true e = ok tt
require false e = err e

abbrev pub from_option {ℓ κ} : {E : Type ℓ} {A : Type κ} → Option A → E → Result E A
from_option none e = err e
from_option (some a) e = ok a

-- Inversion of a chain of fallible steps that succeeds.
module _ {ℓ κ} {E : Type ℓ} {A : Type κ} where
  pub >>=-eq-ok {μ} :
      {Next : Type μ} (first : Result E A) (next : A → Result E Next) {last : Next}
      → (first >>= next) ≡ ok last
      → (value : A) × (first ≡ ok value) × (next value ≡ ok last)
  >>=-eq-ok (err why) next chain = cc
  >>=-eq-ok (ok value) next chain = (value, refl, chain)

  pub from_option-eq-ok : (o : Option A) (e : E) {a : A} → from_option o e ≡ ok a → o ≡ some a
  from_option-eq-ok none e h = cc
  from_option-eq-ok (some b) e h = cc

pub require-eq-ok {ℓ} :
    {E : Type ℓ} (b : Bool) (e : E) {u : Unit {0}} → require b e ≡ ok u → b ≡ true
require-eq-ok true e h = refl
require-eq-ok false e h = cc

pub require-then {ℓ κ} :
    {E : Type ℓ} {B : Type κ} (b : Bool) (e : E) (k : Result E B) {x : B}
    → (require b e >> k) ≡ ok x
    → (b ≡ true) × (k ≡ ok x)
require-then true e k h = (refl, h)
require-then false e k h = cc

-- `fmt.Errorf` with the error of a call.
abbrev pub wrap {ℓ κ μ} : {E : Type ℓ} {F : Type κ} {A : Type μ} → (E → F) → Result E A → Result F A
wrap f (err e) = err (f e)
wrap f (ok a) = ok a

pub wrap-eq-ok {ℓ κ μ} :
    {E : Type ℓ} {F : Type κ} {A : Type μ} (f : E → F) (r : Result E A) {a : A}
    → wrap f r ≡ ok a
    → r ≡ ok a
wrap-eq-ok f (err e) h = cc
wrap-eq-ok f (ok b) h = cc

-- The errors of a step are of a kind.
module _ {ℓ} {E : Type ℓ} (p : E → Bool) where
  abbrev pub FailsAs {κ} : {A : Type κ} → Result E A → Type 0
  FailsAs (err e) = p e ≡ true
  FailsAs (ok a) = Unit {0}

  pub FailsAs->>= {κ μ} :
      {A : Type κ} {B : Type μ} (first : Result E A) (next : A → Result E B)
      → FailsAs first
      → ((a : A) → first ≡ ok a → FailsAs (next a))
      → FailsAs (first >>= next)
  FailsAs->>= (err e) next h k = h
  FailsAs->>= (ok a) next h k = k a refl

  pub FailsAs-require : (b : Bool) (e : E) → p e ≡ true → FailsAs (require b e)
  FailsAs-require true e h = tt
  FailsAs-require false e h = h

  pub FailsAs-from_option {κ} :
      {A : Type κ} (o : Option A) (e : E) → p e ≡ true → FailsAs (from_option o e)
  FailsAs-from_option none e h = h
  FailsAs-from_option (some a) e h = tt

pub FailsAs-wrap {ℓ κ μ} :
    {E : Type ℓ} {F : Type κ} {A : Type μ} (p : F → Bool) (f : E → F) (r : Result E A)
    → FailsAs (λ e. p (f e)) r
    → FailsAs p (wrap f r)
FailsAs-wrap p f (err e) h = h
FailsAs-wrap p f (ok a) h = tt

pub Result-cases {ℓ κ} :
    {E : Type ℓ} {A : Type κ} (r : Result E A) → ((e : E) × (r ≡ err e)) ⊎ ((a : A) × (r ≡ ok a))
Result-cases (err e) = inl (e, refl)
Result-cases (ok a) = inr (a, refl)
