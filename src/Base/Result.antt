-- ===== src/Base/Result.antt =====
-- What a Go call can come to: a value, a returned error, or a panic.
use mathlib.Core.Path.{◌≡◌, refl}
use native.Mathlib.Omega.{arith}

pub data Result {ℓ κ} (E : Type ℓ) (A : Type κ) : Type (ℓ ⊔ κ) where
  ok : A → Result E A
  err : E → Result E A
  panic : Result E A

infixl 5 ◌>>=◌ ◌>>◌
abbrev pub ◌>>=◌ {ℓ κ μ} :
    {E : Type ℓ} {A : Type κ} {B : Type μ} → Result E A → (A → Result E B) → Result E B
ok a >>= f = f a
err e >>= f = err e
panic >>= f = panic

abbrev pub ◌>>◌ {ℓ κ} : {E : Type ℓ} {B : Type κ} → Result E (Unit {0}) → Result E B → Result E B
m >> k = m >>= λ _. k

pub >>=-eq-ok {ℓ κ μ} :
    {E : Type ℓ} {A : Type κ} {B : Type μ} {b : B} (call : Result E A) (rest : A → Result E B)
    → (call >>= rest) ≡ ok b
    → (x : A) × (call ≡ ok x) × (rest x ≡ ok b)
>>=-eq-ok panic rest same = absurd (ground arith)
>>=-eq-ok (err e) rest same = absurd (ground arith)
>>=-eq-ok (ok x) rest same = (x, refl, same)
