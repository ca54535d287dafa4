-- ===== src/Base/Results.antt =====
-- Results of code that may throw: a value, or what the exception carries.
use mathlib.Core.Path.{◌≡◌, refl}

pub data Result {ℓ κ} (E : Type ℓ) (A : Type κ) : Type (ℓ ⊔ κ) where
  ok : A → Result E A
  err : E → Result E A

module _ {ℓ κ η} {E : Type ℓ} {A : Type κ} {B : Type η} where
  infixl 5 ◌>>=◌
  abbrev pub ◌>>=◌ : Result E A → (A → Result E B) → Result E B
  ok a >>= f = f a
  err e >>= f = err e

  -- `try { f(m) } catch (...) { d }`
  abbrev pub catch : Result E A → (A → B) → B → B
  catch (ok a) f d = f a
  catch (err e) f d = d

  pub >>=-eq-ok :
      (m : Result E A) (f : A → Result E B) {b : B}
      → m >>= f ≡ ok b
      → (a : A) × (m ≡ ok a) × (f a ≡ ok b)
  >>=-eq-ok (err thrown) f h = cc
  >>=-eq-ok (ok value) f h = (value, refl, h)

pub ok-injective {ℓ κ} :
    {E : Type ℓ} {A : Type κ} {a b : A} → ◌≡◌ {A = Result E A} (ok a) (ok b) → a ≡ b
ok-injective h = cc
