-- ===== src/Prelude/Results.antt =====
-- What a chain of checks that succeeds has gone through.
use mathlib.Core.Path.{◌≡◌, refl}
use mathlib.Core.Bool.{Bool, true, false}
use kubio.Prelude.Tests.{Result, ok, err, ◌>>=◌, ◌>>◌, reject_if}

module _ {ℓ} {E : Type ℓ} where
  pub checked {κ} :
      {A : Type κ} (b : Bool) (e : E) (rest : Result E A) (a : A)
      → (reject_if b e >> rest) ≡ ok a
      → (b ≡ false) × (rest ≡ ok a)
  checked true e rest a h = absurd cc
  checked false e rest a h = (refl, h)

  pub bound {κ μ} :
      {A : Type κ} {B : Type μ} (m : Result E A) (k : A → Result E B) (b : B)
      → (m >>= k) ≡ ok b
      → (a : A) × (m ≡ ok a) × (k a ≡ ok b)
  bound (ok a) k b h = (a, refl, h)
  bound (err e) k b h = absurd cc

  pub ok-injective {κ} : {A : Type κ} (a b : A) → ◌≡◌ {A = Result E A} (ok a) (ok b) → a ≡ b
  ok-injective a b h = cc
