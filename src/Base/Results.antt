-- ===== src/Base/Results.antt =====
-- A computation that gives a value or an error, as `(T, error)` in Go.
use mathlib.Core.Path.{◌≡◌, refl, subst}
use mathlib.Core.Option.{Option, none, some}
use mathlib.Core.Bool.{Bool, true, false}

pub data Result {ℓ κ} (E : Type κ) (A : Type ℓ) : Type (ℓ ⊔ κ) where
  ok : A → Result E A
  err : E → Result E A

infixl 5 ◌>>=◌ ◌>>◌
abbrev pub ◌>>=◌ {ℓ κ μ} :
    {E : Type κ} {A : Type ℓ} {B : Type μ} → Result E A → (A → Result E B) → Result E B
ok a >>= f = f a
err e >>= f = err e

abbrev pub ◌>>◌ {ℓ κ} : {E : Type κ} {B : Type ℓ} → Result E (Unit {0}) → Result E B → Result E B
ok u >> next = next
err e >> next = err e

-- `if test { return err }`
abbrev pub fail_if {κ} : {E : Type κ} → Bool → E → Result E (Unit {0})
fail_if true e = err e
fail_if false e = ok tt

-- `if x == nil { return err }`
abbrev pub or_fail {ℓ κ} : {E : Type κ} {A : Type ℓ} → Option A → E → Result E A
or_fail none e = err e
or_fail (some a) e = ok a

-- What holds of the value, when there is one.
abbrev pub OnSuccess {ℓ κ μ} : {E : Type κ} {A : Type ℓ} → (A → Type μ) → Result E A → Type μ
OnSuccess P (ok a) = P a
OnSuccess P (err e) = Unit

module _ {ℓ κ μ} {E : Type κ} {A : Type ℓ} (P : A → Type μ) where
  pub OnSuccess-bind {ν ρ} :
      {B : Type ρ} (Q : B → Type ν) (m : Result E B) (f : B → Result E A)
      → OnSuccess Q m
      → ((b : B) → Q b → OnSuccess P (f b))
      → OnSuccess P (m >>= f)
  OnSuccess-bind Q (ok b) f h k = k b h
  OnSuccess-bind Q (err e) f h k = tt

  -- Behind a guard the test is false.
  pub OnSuccess-guard :
      (b : Bool) (e : E) (k : Result E A)
      → (b ≡ false → OnSuccess P k)
      → OnSuccess P (fail_if b e >> k)
  OnSuccess-guard true e k h = tt
  OnSuccess-guard false e k h = h refl

  pub OnSuccess-then :
      (m : Result E (Unit {0})) (k : Result E A)
      → (m ≡ ok tt → OnSuccess P k)
      → OnSuccess P (m >> k)
  OnSuccess-then (ok u) k h = h refl
  OnSuccess-then (err e) k h = tt

  pub OnSuccess-or_fail {ρ} :
      {B : Type ρ} (o : Option B) (e : E) (f : B → Result E A)
      → ((b : B) → o ≡ some b → OnSuccess P (f b))
      → OnSuccess P (or_fail o e >>= f)
  OnSuccess-or_fail none e f h = tt
  OnSuccess-or_fail (some b) e f h = h b refl

  pub OnSuccess-map {ν} :
      (Q : A → Type ν) (m : Result E A) → ((a : A) → Q a → P a) → OnSuccess Q m → OnSuccess P m
  OnSuccess-map Q (ok a) f h = f a h
  OnSuccess-map Q (err e) f h = tt

  -- The value of a success.
  pub OnSuccess-ok : {m : Result E A} (a : A) → m ≡ ok a → OnSuccess P m → P a
  OnSuccess-ok {m} a e h = subst (OnSuccess P) e h

-- What an `ok` behind a guard or a bind says.
pub guard-ok {ℓ κ} :
    {E : Type κ} {A : Type ℓ} (b : Bool) (e : E) (k : Result E A) {a : A}
    → (fail_if b e >> k) ≡ ok a
    → (b ≡ false) × (k ≡ ok a)
guard-ok true e k h = cc
guard-ok false e k h = (refl, h)

pub bind-ok {ℓ κ μ} :
    {E : Type κ} {A : Type ℓ} {B : Type μ} (m : Result E B) (f : B → Result E A) {a : A}
    → (m >>= f) ≡ ok a
    → (b : B) × (m ≡ ok b) × (f b ≡ ok a)
bind-ok (ok b) f h = (b, refl, h)
bind-ok (err e) f h = cc

pub ok_inj {ℓ κ} : {E : Type κ} {A : Type ℓ} {a b : A} → Path (Result E A) (ok a) (ok b) → a ≡ b
ok_inj h = cc

pub then-ok {ℓ κ} :
    {E : Type κ} {A : Type ℓ} (m : Result E (Unit {0})) (k : Result E A) {a : A}
    → (m >> k) ≡ ok a
    → (m ≡ ok tt) × (k ≡ ok a)
then-ok (ok u) k h = (refl, h)
then-ok (err e) k h = cc

pub or_fail-ok {ℓ κ} :
    {E : Type κ} {A : Type ℓ} (o : Option A) (e : E) {a : A} → or_fail o e ≡ ok a → o ≡ some a
or_fail-ok none e h = cc
or_fail-ok (some b) e h = cc
