-- ===== src/Chain/Instructions.antt =====
-- crates/mtm-chain/src/tx.rs: `ChainClient::send_instructions`. The RPC node and the signatures are a
-- parameter: `Tx` is the type of signed transactions, `W` that of worlds.
use testnet_testsuite.Prelude.{
  ℕ, zero, suc, String, List, [], ◌∷◌, ◌++◌, Option, none, some, Result, ok, err,
}
use testnet_testsuite.Raydium.Types.{Pubkey, Instruction}
use testnet_testsuite.Chain.Submit.{at_least_one}

pub record TxOptions : Type 0 where
  pub cu_limit : Option ℕ
  pub cu_price_micro_lamports : Option ℕ
  pub max_attempts : ℕ

abbrev pub default_options : TxOptions
default_options = record { cu_limit = none; cu_price_micro_lamports = none; max_attempts = 3 }

-- How a sending ends without a signature: no blockhash; the attempts that the message names, and the
-- last error; or the panic of `new_signed_with_payer` where a signer is missing.
pub data SendError : Type 0 where
  no_blockhash : String → SendError
  failed_after : ℕ → String → SendError
  panicked : SendError

-- What `send_instructions` calls.
pub record Sender (Tx W : Type 0) : Type 0 where
  pub set_compute_unit_limit : ℕ → Instruction
  pub set_compute_unit_price : ℕ → Instruction
  pub get_latest_blockhash : W → Result String ℕ × W
  -- instructions, payer, signers, blockhash
  pub new_signed_with_payer : List Instruction → Pubkey → List Pubkey → ℕ → Option Tx
  pub send_and_confirm_transaction : Tx → W → Result String ℕ × W

abbrev pushed : (ℕ → Instruction) → Option ℕ → List Instruction
pushed f none = []
pushed f (some n) = f n ∷ []

-- `last_err.map_or_else(|| "unknown".to_string(), |e| e.to_string())`.
abbrev last_text : Option String → String
last_text none = "unknown"
last_text (some e) = e

module _ {Tx W : Type 0} (rpc : Sender Tx W) where
  -- The compute-budget instructions, and those given.
  unfoldable pub with_budget : TxOptions → List Instruction → List Instruction
  with_budget opts instructions =
      pushed rpc.set_compute_unit_limit opts.cu_limit
      ++ pushed rpc.set_compute_unit_price opts.cu_price_micro_lamports
      ++ instructions

  -- `for attempt in 1..=opts.max_attempts.max(1)`, with the attempts left and the last error.
  unfoldable pub attempts :
      (left max_attempts : ℕ)
      → List Instruction
      → Pubkey
      → List Pubkey
      → Option String
      → W
      → Result SendError ℕ × W
  attempts zero max_attempts ixs payer signers last_err w =
      (err (SendError.failed_after max_attempts (last_text last_err)), w)
  attempts (suc left) max_attempts ixs payer signers last_err w =
      let (b, w1) = rpc.get_latest_blockhash w in
      elim b [
        | err e ↦ (err (SendError.no_blockhash e), w1)
        | ok hash ↦ elim (rpc.new_signed_with_payer ixs payer signers hash) [
          | none ↦ (err SendError.panicked, w1)
          | some tx ↦
              let (r, w2) = rpc.send_and_confirm_transaction tx w1 in
              elim r [
                | ok signature ↦ (ok signature, w2)
                | err e ↦ attempts left max_attempts ixs payer signers (some e) w2
              ]
        ]
      ]

  unfoldable pub send_instructions :
      List Instruction → Pubkey → List Pubkey → TxOptions → W → Result SendError ℕ × W
  unfolding with_budget attempts
  send_instructions instructions payer extra_signers opts w =
      attempts (at_least_one opts.max_attempts) opts.max_attempts (with_budget opts instructions)
        payer (payer ∷ extra_signers) none w
