-- ===== src/Base/Results.antt =====
-- Calls that may throw.
use mathlib.Core.Path.{◌≡◌, refl}
use mathlib.Core.Logic.{◌⊎◌, inl, inr}
use mathlib.Core.Bool.{Bool, true, false}

pub data Outcome {ℓ} (E A : Type ℓ) : Type ℓ where
  ok : A → Outcome E A
  throws : E → Outcome E A

module _ {ℓ} {E A : Type ℓ} where
  pub Outcome-cases :
      (call : Outcome E A) → ((a : A) × (call ≡ ok a)) ⊎ ((e : E) × (call ≡ throws e))
  Outcome-cases (ok a) = inl (a, refl)
  Outcome-cases (throws e) = inr (e, refl)

infixl 5 ◌>>=◌ ◌>>◌
abbrev pub ◌>>=◌ {ℓ} : {E A B : Type ℓ} → Outcome E A → (A → Outcome E B) → Outcome E B
throws e >>= next = throws e
ok a >>= next = next a

abbrev pub ◌>>◌ {ℓ} : {E A B : Type ℓ} → Outcome E A → Outcome E B → Outcome E B
call >> next = call >>= λ _. next

-- `if (!test) throw e`
abbrev pub require : {E : Type 0} → Bool → E → Outcome E (Unit {0})
require true e = ok tt
require false e = throws e

-- inversion of a call that goes on
pub >>=-eq-ok {ℓ} :
    {E A B : Type ℓ} (call : Outcome E A) (next : A → Outcome E B) {b : B}
    → (call >>= next) ≡ ok b
    → (a : A) × (call ≡ ok a) × (next a ≡ ok b)
>>=-eq-ok (throws e) next thrown = cc
>>=-eq-ok (ok a) next done = (a, refl, done)
