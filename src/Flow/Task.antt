-- ===== src/Flow/Task.antt =====
-- An action on the chain with errors of any type: the actions of the orchestrator and of its
-- service. `W` is the type of worlds.
use testnet_testsuite.Prelude.{Result, ok, err}

abbrev pub Task : Type 0 → Type 0 → Type 0 → Type 0
Task E W A = W → Result E A × W

infixl 5 ◌>>=◌ ◌>>◌
unfoldable pub ◌>>=◌ : {E W A B : Type 0} → Task E W A → (A → Task E W B) → Task E W B
◌>>=◌ m f w = let (r, w') = m w in elim r [ ok a ↦ f a w' | err e ↦ (err e, w') ]

abbrev pub ◌>>◌ : {E W B : Type 0} → Task E W (Unit {0}) → Task E W B → Task E W B
m >> k = m >>= λ _. k

unfoldable pub lift : {E W A : Type 0} → Result E A → Task E W A
lift r w = (r, w)

unfoldable pub pure : {E W A : Type 0} → A → Task E W A
pure a w = (ok a, w)

-- `map_err`, and the conversion that `?` makes.
unfoldable pub map_err : {E F W A : Type 0} → (E → F) → Task E W A → Task F W A
map_err f m w = let (r, w') = m w in elim r [ ok a ↦ (ok a, w') | err e ↦ (err (f e), w') ]
