-- ===== src/Base/Outcome.antt =====
-- What a call of kernel code ends in: a result, the `BUG_ON(-1)` of the macro LSE_BUG
-- (lse_main.h), an integer division by zero, or an access through a
-- null pointer or past the end of an array.
use mathlib.Core.Bool.{Bool}
use mathlib.Core.Path.{◌≡◌, refl}
use lunarkernel_sched_extent.Base.Booleans.{if◌then◌else◌}

pub data Outcome {ℓ} (A : Type ℓ) : Type ℓ where
  done : A → Outcome A
  bug : Outcome A
  div_zero : Outcome A
  fault : Outcome A

infixl 5 ◌>>=◌ ◌>>◌
abbrev pub ◌>>=◌ {ℓ κ} : {A : Type ℓ} {B : Type κ} → Outcome A → (A → Outcome B) → Outcome B
done a >>= f = f a
bug >>= f = bug
div_zero >>= f = div_zero
fault >>= f = fault

abbrev pub ◌>>◌ {ℓ} : {B : Type ℓ} → Outcome (Unit {0}) → Outcome B → Outcome B
m >> k = m >>= λ _. k

-- LSE_BUG: it always prints, and stops the kernel if `dump_info & LSE_DEBUG_PANIC`.
abbrev pub lse_bug : Bool → Outcome (Unit {0})
lse_bug panic = if panic then bug else done tt

-- Inversion of a successful bind.
pub >>=-eq-done {ℓ κ} :
    {A : Type ℓ} {B : Type κ} (m : Outcome A) (f : A → Outcome B) {b : B}
    → (m >>= f) ≡ done b
    → (a : A) × (m ≡ done a) × (f a ≡ done b)
>>=-eq-done (done a) f h = (a, refl, h)
>>=-eq-done bug f h = cc
>>=-eq-done div_zero f h = cc
>>=-eq-done fault f h = cc

pub done-injective {ℓ} : {A : Type ℓ} (a b : A) → Outcome.done a ≡ done b → a ≡ b
done-injective a b h = cc
