-- ===== src/Common/Outcome/Panic.antt =====
-- A computation that may panic: `none` is the panic of an `expect`.
use mathlib.Core.Option.{Option, none, some}
use mathlib.Core.Path.{◌≡◌, refl}

module _ {ℓ κ} {A : Type ℓ} {B : Type κ} where
  infixl 5 ◌>>=◌
  abbrev pub ◌>>=◌ : Option A → (A → Option B) → Option B
  some a >>= f = f a
  none >>= f = none

pub bind-some {ℓ} :
    {A B : Type ℓ} (o : Option A) (next : A → Option B) (b : B)
    → (o >>= next) ≡ some b
    → (a : A) × (o ≡ some a) × (next a ≡ some b)
bind-some none next b e = absurd (cc (e))
bind-some (some a) next b e = (a, refl, e)
