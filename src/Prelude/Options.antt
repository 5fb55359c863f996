-- ===== src/Prelude/Options.antt =====
-- Chains of optional results, and alternatives between them.
use mathlib.Core.Option.{Option, none, some}

-- The `?` of Rust on an `Option`.
infixl 5 ◌>>=◌
abbrev pub ◌>>=◌ {ℓ κ} : {A : Type ℓ} {B : Type κ} → Option A → (A → Option B) → Option B
none >>= next = none
some a >>= next = next a

-- `or` of an `Option`.
abbrev pub or_else {ℓ} : {A : Type ℓ} → Option A → Option A → Option A
or_else none other = other
or_else (some a) other = some a
