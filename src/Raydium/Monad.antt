-- ===== src/Raydium/Monad.antt =====
-- An action of the client: it reads and changes the world, the chain behind the RPC, and ends with
-- a result or a fault. `W` is the type of worlds.
use testnet_testsuite.Prelude.{ℕ, String, List, Option, none, some, Result, ok, err, get_elem?}
use testnet_testsuite.Raydium.Types.{
  Pubkey, Account, Instruction, Fault, panics, TransactionOutcome,
}
use testnet_testsuite.Raydium.External.{Clmm}
use testnet_testsuite.Raydium.Programs.{Programs}

abbrev pub M : Type 0 → Type 0 → Type 0
M W A = W → Result Fault A × W

infixl 5 ◌>>=◌ ◌>>◌
unfoldable pub ◌>>=◌ : {W A B : Type 0} → M W A → (A → M W B) → M W B
◌>>=◌ m f w = let (r, w') = m w in elim r [ ok a ↦ f a w' | err e ↦ (err e, w') ]

abbrev pub ◌>>◌ : {W B : Type 0} → M W (Unit {0}) → M W B → M W B
m >> k = m >>= λ _. k

unfoldable pub lift : {W A : Type 0} → Result Fault A → M W A
lift r w = (r, w)

unfoldable pub pure : {W A : Type 0} → A → M W A
pure a w = (ok a, w)

unfoldable pub throw : {W A : Type 0} → Fault → M W A
throw e w = (err e, w)

-- `v[i]`: out of range is a panic.
abbrev pub at : {A : Type 0} → List A → ℕ → Result Fault A
at xs i = elim (get_elem? xs i) [ some x ↦ ok x | none ↦ err panics ]

-- The calls that reach the chain. `submit` is `ChainClient::submit` with the client's settings and
-- its errors already turned into the client's.
pub record ChainApi (W : Type 0) : Type 0 where
  pub get_multiple_accounts : List Pubkey → W → Result String (List (Option Account)) × W
  pub get_epoch : W → Result String ℕ × W
  pub new_keypair : W → Pubkey × W
  -- instructions, additional signers
  pub submit : List Instruction → List Pubkey → M W TransactionOutcome

-- `RaydiumClmmClient`, with what it calls.
pub record Client (P C B T K W : Type 0) : Type 0 where
  pub clmm : Clmm P C B T K
  pub programs : Programs P C B T
  pub chain : ChainApi W
  pub program_id : Pubkey
  pub payer : Pubkey
  pub slippage_bps : ℕ
