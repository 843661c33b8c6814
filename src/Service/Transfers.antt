-- ===== src/Service/Transfers.antt =====
-- services/raydium-clmm-orchestrator/src/main.rs: instructions, and the balance of a token account.
use testnet_testsuite.Prelude.{ℕ, [], ◌∷◌, ◌++◌, true, false, Result, ok, err, none, some}
use testnet_testsuite.Raydium.Types.{Pubkey, Bytes, words, address, Instruction}
use testnet_testsuite.Flow.Bytes.{to_le_bytes, from_le_bytes, slice}
use testnet_testsuite.Flow.Mints.{meta, meta_readonly}
use testnet_testsuite.Service.Types.{ServiceError, ServiceFault, quits}

-- `Pubkey::default()` is 0.
unfoldable pub system_transfer_instruction : (source destination : Pubkey) → ℕ → Instruction
system_transfer_instruction source destination lamports = record {
  program_id = 0;
  accounts = meta source true ∷ meta destination false ∷ [];
  content = to_le_bytes 4 2 ++ to_le_bytes 8 lamports;
}

unfoldable pub transfer_checked_instruction :
    (source mint destination authority token_program : Pubkey) → (amount decimals : ℕ) → Instruction
transfer_checked_instruction source mint destination authority token_program amount decimals =
    record {
      program_id = token_program;
      accounts =
          meta source false
          ∷ meta_readonly mint false
          ∷ meta destination false
          ∷ meta_readonly authority true
          ∷ [];
      content = 12 ∷ to_le_bytes 8 amount ++ decimals ∷ [];
    }

unfoldable pub close_token_account_instruction :
    (account destination authority token_program : Pubkey) → Instruction
close_token_account_instruction account destination authority token_program = record {
  program_id = token_program;
  accounts = meta account false ∷ meta destination false ∷ meta_readonly authority true ∷ [];
  content = 9 ∷ [];
}

-- `TOKEN_AMOUNT` is 64..72.
unfoldable pub token_account_amount : Bytes → Pubkey → Result ServiceFault ℕ
unfolding slice from_le_bytes
token_account_amount bytes key = elim (slice 64 72 bytes) [
  | none ↦ err (
      quits (
        ServiceError.bails
          (words "token account " ∷ address key ∷ words " is too short to contain a balance" ∷ [])))
  | some amount ↦ ok (from_le_bytes amount)
]
