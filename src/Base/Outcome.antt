-- ===== src/Base/Outcome.antt =====
-- How a call of the server ends: it returns, or the goroutine panics.
use mathlib.Core.Path.{◌≡◌, refl, subst}
use mathlib.Core.Bool.{Bool, true, false}
use minixfs_old.Base.Tests.{if◌then◌else◌}
use mathlib.Core.Option.{Option, none, some}

pub data Run {ℓ} (A : Type ℓ) : Type ℓ where
  done : A → Run A
  panic : Run A

infixl 5 ◌>>=◌
abbrev pub ◌>>=◌ {ℓ κ} : {A : Type ℓ} {B : Type κ} → Run A → (A → Run B) → Run B
done a >>= f = f a
panic >>= f = panic

-- A slice access or a type assertion that panics when it fails.
abbrev pub or_panic {ℓ} : {A : Type ℓ} → Option A → Run A
or_panic (some a) = done a
or_panic none = panic

pub >>=-eq-done {ℓ κ} :
    {A : Type ℓ} {B : Type κ} (m : Run A) (f : A → Run B) {b : B}
    → (m >>= f) ≡ done b
    → (a : A) × (m ≡ done a) × (f a ≡ done b)
>>=-eq-done (done a) f h = (a, refl, h)
>>=-eq-done panic f h = cc

pub done-injective {ℓ} : {A : Type ℓ} {a b : A} → done a ≡ done b → a ≡ b
done-injective e = cc

-- Whatever a run returns satisfies a predicate.
abbrev pub IfDone {ℓ} : {A : Type ℓ} → (A → Type 0) → Run A → Type 0
IfDone P (done a) = P a
IfDone P panic = Unit

pub IfDone-bind {ℓ κ} :
    {A : Type ℓ} {B : Type κ} (P : A → Type 0) (Q : B → Type 0) (m : Run A) (f : A → Run B)
    → IfDone P m
    → ((a : A) → P a → IfDone Q (f a))
    → IfDone Q (m >>= f)
IfDone-bind P Q (done a) f p q = q a p
IfDone-bind P Q panic f p q = tt

pub IfDone-any {ℓ} : {A : Type ℓ} (m : Run A) → IfDone (λ a. Unit) m
IfDone-any (done a) = tt
IfDone-any panic = tt

pub IfDone-if {ℓ} :
    {A : Type ℓ} (Q : A → Type 0) (b : Bool) (m n : Run A)
    → IfDone Q m
    → IfDone Q n
    → IfDone Q (if b then m else n)
IfDone-if Q true m n p q = p
IfDone-if Q false m n p q = q

pub IfDone-returned {ℓ} :
    {A : Type ℓ} (P : A → Type 0) (m : Run A) {a : A} → IfDone P m → m ≡ done a → P a
IfDone-returned P (done b) p e = subst P (done-injective e) p
IfDone-returned P panic p e = cc

pub IfDone-then {ℓ κ} :
    {A : Type ℓ} {B : Type κ} (Q : B → Type 0) (m : Run A) (f : A → Run B)
    → ((a : A) → IfDone Q (f a))
    → IfDone Q (m >>= f)
IfDone-then Q (done a) f q = q a
IfDone-then Q panic f q = tt
