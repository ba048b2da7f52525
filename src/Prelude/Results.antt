-- ===== src/Prelude/Results.antt =====
-- `Result<A, E>` and the `?` operator.
use mathlib.Core.Path.{◌≡◌, refl}
use mathlib.Core.Option.{Option, none, some}

pub data Result {ℓ} (E : Type 0) (A : Type ℓ) : Type ℓ where
  ok : A → Result E A
  err : E → Result E A

-- `option.ok_or(error)`
abbrev pub ok_or {ℓ} : {E : Type 0} {A : Type ℓ} → Option A → E → Result E A
ok_or (some a) e = ok a
ok_or none e = err e

abbrev pub and_then {ℓ κ} :
    {E : Type 0} {A : Type ℓ} {B : Type κ} → Result E A → (A → Result E B) → Result E B
and_then (ok a) f = f a
and_then (err e) f = err e

-- The operators of a `do` block, for `?`.
infixl 10 ◌>>=◌
abbrev pub ◌>>=◌ {ℓ κ} :
    {E : Type 0} {A : Type ℓ} {B : Type κ} → Result E A → (A → Result E B) → Result E B
r >>= f = and_then r f

infixl 10 ◌>>◌
abbrev pub ◌>>◌ {ℓ κ} :
    {E : Type 0} {A : Type ℓ} {B : Type κ} → Result E A → Result E B → Result E B
r >> s = and_then r (λ _. s)

-- What a chain that succeeds went through.
pub and_then-ok {ℓ κ} :
    {E : Type 0} {A : Type ℓ} {B : Type κ} (x : Result E A) (f : A → Result E B) (b : B)
    → and_then x f ≡ ok b
    → (a : A) × (x ≡ ok a) × (f a ≡ ok b)
and_then-ok (ok a) f b h = (a, refl, h)
and_then-ok (err e) f b h = absurd (cc h)

pub ok_injective {ℓ} :
    {E : Type 0} {A : Type ℓ} (a b : A) → ◌≡◌ {A = Result E A} (ok a) (ok b) → a ≡ b
ok_injective a b h = cc h
