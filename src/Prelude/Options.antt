-- ===== src/Prelude/Options.antt =====
-- The chaining of steps that may give nothing, for `do` blocks.
use mathlib.Core.Path.{◌≡◌, refl}
use mathlib.Core.Option.{Option, none, some}

infixl 5 ◌>>=◌
abbrev pub ◌>>=◌ {ℓ κ} : {A : Type ℓ} {B : Type κ} → Option A → (A → Option B) → Option B
none >>= next = none
some x >>= next = next x

-- What a chain that gave something has handed to its second step.
pub chain-some {ℓ κ} :
    {A : Type ℓ} {B : Type κ} (before : Option A) (next : A → Option B) {last : B}
    → (before >>= next) ≡ some last
    → (between : A) × (before ≡ some between) × (next between ≡ some last)
chain-some none next stopped = cc
chain-some (some between) next went_on = (between, refl, went_on)
