-- ===== src/Base/Results.antt =====
-- What a Go function returns that may fail: a value, or an error; `error` alone is an `Option`.
use mathlib.Core.Path.{◌≡◌, refl, subst}
use mathlib.Core.Bool.{Bool, true, false}
use shielder.Base.Tests.{if◌then◌else◌}
use mathlib.Core.Logic.{◌⊎◌, inl, inr}
use mathlib.Core.Option.{Option, none, some}

pub data Result {ℓ κ} (E : Type ℓ) (A : Type κ) : Type (ℓ ⊔ κ) where
  ok : A → Result E A
  err : E → Result E A

infixl 5 ◌>>=◌ ◌>>◌
abbrev pub ◌>>=◌ {ℓ κ μ} :
    {E : Type ℓ} {A : Type κ} {B : Type μ} → Result E A → (A → Result E B) → Result E B
ok a >>= f = f a
err e >>= f = err e

-- `if err := ...; err != nil { return err }`
abbrev pub ◌>>◌ {ℓ κ} : {E : Type ℓ} {B : Type κ} → Option E → Result E B → Result E B
none >> k = k
some e >> k = err e

-- A function of another component, or of a library, that fails without saying more.
abbrev pub or_err {ℓ κ} : {E : Type ℓ} {A : Type κ} → Option A → E → Result E A
or_err none e = err e
or_err (some a) e = ok a

pub Result-cases {ℓ κ} :
    {E : Type ℓ} {A : Type κ} (r : Result E A) → ((a : A) × (r ≡ ok a)) ⊎ ((e : E) × (r ≡ err e))
Result-cases (ok a) = inl (a, refl)
Result-cases (err e) = inr (e, refl)

pub ok_injective {ℓ κ} :
    {E : Type ℓ} {A : Type κ} {a b : A} → ◌≡◌ {A = Result E A} (ok a) (ok b) → a ≡ b
ok_injective h = cc

-- What holds of the value, if there is one.
abbrev pub Returns {ℓ κ μ} : {E : Type ℓ} {A : Type κ} → (A → Type μ) → Result E A → Type μ
Returns P (ok a) = P a
Returns P (err e) = Unit

module _ {ℓ κ} {E : Type ℓ} {A : Type κ} where
  pub Returns-self : (m : Result E A) → Returns (λ a. m ≡ ok a) m
  Returns-self (ok a) = refl
  Returns-self (err e) = tt

  pub Returns-eq {μ} : (P : A → Type μ) (m : Result E A) (a : A) → Returns P m → m ≡ ok a → P a
  Returns-eq P m a h e = subst (Returns P) e h

  pub Returns-bind {ι μ ν} :
      {B : Type ι} (P : A → Type μ) (Q : B → Type ν) (m : Result E A) (f : A → Result E B)
      → Returns P m
      → ((a : A) → P a → Returns Q (f a))
      → Returns Q (m >>= f)
  Returns-bind P Q (ok a) f h k = k a h
  Returns-bind P Q (err e) f h k = tt

  pub Returns-if {μ} :
      (P : A → Type μ) (b : Bool) (m n : Result E A)
      → Returns P m
      → Returns P n
      → Returns P (if b then m else n)
  Returns-if P true m n h k = h
  Returns-if P false m n h k = k

  pub Returns-map {μ ν} :
      {P : A → Type μ} {Q : A → Type ν}
      → ((a : A) → P a → Q a)
      → (m : Result E A) → Returns P m
      → Returns Q m
  Returns-map f (ok a) h = f a h
  Returns-map f (err e) h = tt
