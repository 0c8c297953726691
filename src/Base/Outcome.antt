-- ===== src/Base/Outcome.antt =====
-- Chains of optional results, and the outcome of a search loop that may return a pointer.
use mathlib.Core.Option.{Option, none, some}

infixl 5 ◌>>=◌
abbrev pub ◌>>=◌ {ℓ κ} : {A : Type ℓ} {B : Type κ} → Option A → (A → Option B) → Option B
none >>= f = none
some a >>= f = f a

-- `found p`, `nullptr` (or `std::nullopt`), or a loop that has not ended within its fuel.
pub data Search (A : Type 0) : Type 0 where
  found : A → Search A
  nullptr : Search A
  out_of_fuel : Search A
