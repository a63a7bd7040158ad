-- ===== src/Prelude/Result.antt =====
-- A Python function that may raise: its value, or the exception.
use mathlib.Core.Path.{◌≡◌, refl}
use mathlib.Core.Bool.{Bool, true, false}
use seat_surface_aoi.Prelude.Tests.{if◌then◌else◌}

pub data Result {ℓ κ} (E : Type ℓ) (A : Type κ) : Type (ℓ ⊔ κ) where
  done : A → Result E A
  raised : E → Result E A

infixl 5 ◌>>=◌
abbrev pub ◌>>=◌ {ℓ κ μ} :
    {E : Type ℓ} {A : Type κ} {B : Type μ} → Result E A → (A → Result E B) → Result E B
done a >>= f = f a
raised e >>= f = raised e

-- The parts of a block that did not raise.
pub >>=-eq-done {ℓ κ μ} :
    {E : Type ℓ} {A : Type κ} {B : Type μ} (m : Result E A) (f : A → Result E B) {b : B}
    → (m >>= f) ≡ done b
    → (a : A) × (m ≡ done a) × (f a ≡ done b)
>>=-eq-done (done a) f h = (a, refl, h)
>>=-eq-done (raised e) f h = cc

-- A check that did not raise: its condition is false, or true where the error is the other branch.
pub guard-eq-done {ℓ κ} :
    {E : Type ℓ} {A : Type κ} (b : Bool) (e : E) (x : Result E A) {a : A}
    → (if b then raised e else x) ≡ done a
    → (b ≡ false) × (x ≡ done a)
guard-eq-done true e x h = cc
guard-eq-done false e x h = (refl, h)

pub require-eq-done {ℓ κ} :
    {E : Type ℓ} {A : Type κ} (b : Bool) (e : E) (x : Result E A) {a : A}
    → (if b then x else raised e) ≡ done a
    → (b ≡ true) × (x ≡ done a)
require-eq-done true e x h = (refl, h)
require-eq-done false e x h = cc

pub done-inj {ℓ κ} :
    {E : Type ℓ} {A : Type κ} {a b : A} → ◌≡◌ {A = Result E A} (done a) (done b) → a ≡ b
done-inj h = cc
