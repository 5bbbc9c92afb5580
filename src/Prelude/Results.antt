-- ===== src/Prelude/Results.antt =====
-- Rust's `Result<A, E>` with `?` as bind, and computations that also thread a state.
use mathlib.Core.Path.{◌≡◌, refl}

pub data Result {ℓ κ} (E : Type ℓ) (A : Type κ) : Type (ℓ ⊔ κ) where
  ok : A → Result E A
  err : E → Result E A

infixl 5 ◌>>=◌
abbrev pub ◌>>=◌ {ℓ κ μ} :
    {E : Type ℓ} {A : Type κ} {B : Type μ} → Result E A → (A → Result E B) → Result E B
ok a >>= f = f a
err e >>= f = err e

-- `Result::map` and `Result::map_err`.
abbrev pub map_ok {ℓ κ μ} :
    {E : Type ℓ} {A : Type κ} {B : Type μ} → (A → B) → Result E A → Result E B
map_ok f (ok a) = ok (f a)
map_ok f (err e) = err e

abbrev pub map_err {ℓ κ μ} :
    {E : Type ℓ} {F : Type κ} {A : Type μ} → (E → F) → Result E A → Result F A
map_err f (ok a) = ok a
map_err f (err e) = err (f e)

module _ {ℓ κ μ} {E : Type ℓ} {A : Type κ} {B : Type μ} where
  -- Inversion of a successful bind.
  pub >>=-eq-ok :
      (f : A → Result E B) (m : Result E A) {b : B}
      → (m >>= f) ≡ ok b
      → (a : A) × (f a ≡ ok b) × (m ≡ ok a)
  >>=-eq-ok f (err e) returned = cc
  >>=-eq-ok f (ok a) returned = (a, returned, refl)

  -- The same step followed by equal continuations.
  pub >>=_congr :
      (m : Result E A) (f g : A → Result E B) → ((a : A) → f a ≡ g a) → (m >>= f) ≡ (m >>= g)
  >>=_congr (ok a) f g h = h a
  >>=_congr (err e) f g h = refl
