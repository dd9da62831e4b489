-- ===== src/Prelude/Results.antt =====
-- What a call returns: a value, or an error of the type `E`.
use mathlib.Core.Path.{◌≡◌, refl}
use mathlib.Core.Option.{Option, some}

pub data Result {ℓ} (E : Type 0) (A : Type ℓ) : Type ℓ where
  err : E → Result E A
  ok : A → Result E A

-- The first error of a chain is its result.
infixl 5 ◌>>=◌
abbrev pub ◌>>=◌ {ℓ κ} :
    {E : Type 0} {A : Type ℓ} {B : Type κ} → Result E A → (A → Result E B) → Result E B
call >>= next = elim call [ err e ↦ err e | ok a ↦ next a ]

-- A success of a bind: both its parts succeeded.
pub >>=-eq-ok {ℓ κ} :
    {E : Type 0} {A : Type ℓ} {B : Type κ} (call : Result E A) (next : A → Result E B) {last : B}
    → (call >>= next) ≡ ok last
    → (first : A) × (call ≡ ok first) × (next first ≡ ok last)
>>=-eq-ok (err x) next h = cc
>>=-eq-ok (ok first) next h = (first, refl, h)

-- A call does not both fail and succeed.
pub err_and_ok {ℓ κ} :
    {E : Type 0} {A : Type ℓ} {P : Type κ} {x : E} {a : A} → ◌≡◌ {A = Result E A} (err x) (ok a) → P
err_and_ok e = cc

pub ok_inj {ℓ} : {E : Type 0} {A : Type ℓ} {a b : A} → ◌≡◌ {A = Result E A} (ok a) (ok b) → a ≡ b
ok_inj e = cc

pub some_inj {ℓ} : {A : Type ℓ} {a b : A} → ◌≡◌ {A = Option A} (some a) (some b) → a ≡ b
some_inj e = cc
