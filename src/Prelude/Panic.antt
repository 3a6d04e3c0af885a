-- ===== src/Prelude/Panic.antt =====
-- Steps that may panic, as `Option`: `none` is a panic. The operators of a `do` block.
use mathlib.Core.Option.{Option, none, some}

infixl 5 ◌>>=◌
abbrev pub ◌>>=◌ {ℓ κ} : {A : Type ℓ} {B : Type κ} → Option A → (A → Option B) → Option B
none >>= f = none
some a >>= f = f a
