-- ===== src/Common/Failure.antt =====
-- Results of code that may stop: `abort` is a call of ns_abort, `fault` an access of host memory
-- out of bounds or another operation that C++ leaves undefined.
use mathlib.Core.Path.{◌≡◌, refl}
use mathlib.Core.Logic.{◌⊎◌, inl, inr}

pub data Outcome {ℓ} (A : Type ℓ) : Type ℓ where
  ok : A → Outcome A
  abort fault : Outcome A

infixl 5 ◌>>=◌
abbrev pub ◌>>=◌ {ℓ κ} : {A : Type ℓ} {B : Type κ} → Outcome A → (A → Outcome B) → Outcome B
ok a >>= f = f a
abort >>= f = abort
fault >>= f = fault

pub Outcome-cases {ℓ} :
    {A : Type ℓ} (o : Outcome A) → ((a : A) × (o ≡ ok a)) ⊎ ((o ≡ abort) ⊎ (o ≡ fault))
Outcome-cases (ok a) = inl (a, refl)
Outcome-cases abort = inr (inl refl)
Outcome-cases fault = inr (inr refl)

pub ok-injective {ℓ} : {A : Type ℓ} {a b : A} → ok a ≡ ok b → a ≡ b
ok-injective h = cc

pub >>=-ok {ℓ} : {A : Type ℓ} (o : Outcome A) → (o >>= λ a. ok a) ≡ o
>>=-ok (ok a) = refl
>>=-ok abort = refl
>>=-ok fault = refl

-- A chain that succeeds went through both of its parts.
pub >>=-split {ℓ κ} :
    {A : Type ℓ} {B : Type κ} (o : Outcome A) (k : A → Outcome B) {b : B}
    → (o >>= k) ≡ ok b
    → (a : A) × (o ≡ ok a) × (k a ≡ ok b)
>>=-split (ok a) k h = (a, refl, h)
>>=-split abort k h = absurd (cc)
>>=-split fault k h = absurd (cc)
