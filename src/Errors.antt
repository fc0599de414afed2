-- ===== src/Errors.antt =====
-- The exceptions that cositos raises or lets through, and results of calls that may raise.
use cositos.Base.{String, ◌≡◌, refl}
use cositos.Value.{Address}

-- `too_deep` and `cyclic` are the two ValueErrors of `_separate`, `count_mismatch` that of
-- `zip(strict=True)`; `value_error` is any other, by its message; `runtime_error` is what the
-- shell raises for an error effect. `no_fuel` is no exception: it marks a loop of the model that
-- was given too little fuel.
pub data Error : Type 0 where
  too_deep cyclic : Address → Error
  no_fuel count_mismatch key_error index_error type_error : Error
  value_error runtime_error import_error : String → Error

pub data Result {ℓ} (A : Type ℓ) : Type ℓ where
  ok : A → Result A
  err : Error → Result A

infixl 5 ◌>>=◌
abbrev pub ◌>>=◌ {ℓ κ} : {A : Type ℓ} {B : Type κ} → Result A → (A → Result B) → Result B
ok a >>= f = f a
err e >>= f = err e

module _ {ℓ κ μ} {A : Type ℓ} {B : Type κ} {C : Type μ} where
  pub >>=_assoc :
      (r : Result A) (f : A → Result B) (g : B → Result C)
      → ((r >>= f) >>= g) ≡ (r >>= λ a. f a >>= g)
  >>=_assoc (ok a) f g = refl
  >>=_assoc (err e) f g = refl

module _ {ℓ κ} {A : Type ℓ} {B : Type κ} where
  pub >>=_congr :
      (r : Result A) (f g : A → Result B) → ((a : A) → f a ≡ g a) → (r >>= f) ≡ (r >>= g)
  >>=_congr (ok a) f g h = h a
  >>=_congr (err e) f g h = refl
