-- ===== src/Flow/Mints.antt =====
-- crates/raydium-clmm-orchestrator/src/lib.rs: the mints of a flow and the instructions that fund a
-- user. The addresses of the token programs are parses of constants; `Programs` holds them.
use testnet_testsuite.Prelude.{
  ℕ, [], ◌∷◌, ◌++◌, Option, Bool, true, false, not, Result, ok, ◌>>=◌, ◌>>◌, ok_or, fail_if, ltb,
  ◌==◌, ◌&&◌, length, get_elem?,
}
use testnet_testsuite.Raydium.Types.{
  Pubkey, text, words, number, address, Account, AccountMeta, Instruction,
}
use testnet_testsuite.Raydium.Programs.{Programs, of_key}
use testnet_testsuite.Flow.Bytes.{to_le_bytes, from_le_bytes, from_be_bytes, slice}
use testnet_testsuite.Flow.Types.{OrchestrationError, FlowFault, stops, crashes, MintInfo}

-- `AccountMeta::new` and `AccountMeta::new_readonly`.
abbrev pub meta : Pubkey → Bool → AccountMeta
meta key signer = record { pubkey = key; is_signer = signer; is_writable = true }

abbrev pub meta_readonly : Pubkey → Bool → AccountMeta
meta_readonly key signer = record { pubkey = key; is_signer = signer; is_writable = false }

unfoldable pub mint_to_checked_instruction :
    (mint destination authority token_program : Pubkey) → (amount decimals : ℕ) → Instruction
mint_to_checked_instruction mint destination authority token_program amount decimals = record {
  program_id = token_program;
  accounts = meta mint false ∷ meta destination false ∷ meta_readonly authority true ∷ [];
  content = 14 ∷ to_le_bytes 8 amount ++ decimals ∷ [];
}

module _ {P C B T : Type 0} (programs : Programs P C B T) where
  unfoldable pub decode_mint : Pubkey → Option Account → Pubkey → Result FlowFault MintInfo
  unfolding slice from_le_bytes from_be_bytes
  decode_mint key found expected_authority = do
    account ← ok_or found (stops (OrchestrationError.missing_mint key))
    fail_if
        (not (account.owner == programs.token_program_id)
          && not (account.owner == programs.token_2022_program_id))
        (stops (
          OrchestrationError.unsupported_mint key
            (words "unsupported token program " ∷ address account.owner ∷ [])))
    fail_if (ltb (length account.content) 82) (
        stops (
          OrchestrationError.malformed_mint key
            (words "mint data is only " ∷ number (length account.content) ∷ words " bytes" ∷ [])))
    tag ← ok_or (slice 0 4 account.content) crashes
    fail_if (not (from_le_bytes tag == 1))
        (stops (OrchestrationError.unsupported_mint key (text "mint has no mint authority")))
    authority ← ok_or (slice 4 36 account.content) crashes
    fail_if (not (from_be_bytes 0 authority == expected_authority)) (
        stops (
          OrchestrationError.unsupported_mint key (
            words "mint authority is "
            ∷ address (from_be_bytes 0 authority)
            ∷ words ", but injected signer is "
            ∷ address expected_authority
            ∷ [])))
    decimals ← ok_or (get_elem? account.content 44) crashes
    ok (record { token_program = account.owner; decimals = decimals })

  unfoldable pub associated_token_address : (owner mint token_program : Pubkey) → Pubkey
  associated_token_address owner mint token_program =
      programs.pda (of_key owner ∷ of_key token_program ∷ of_key mint ∷ [])
        programs.associated_program_id

  -- `Pubkey::default()` is 0.
  unfoldable pub create_ata_instruction :
      (payer owner mint token_program ata : Pubkey) → Instruction
  create_ata_instruction payer owner mint token_program ata = record {
    program_id = programs.associated_program_id;
    accounts =
        meta payer true
        ∷ meta ata false
        ∷ meta_readonly owner false
        ∷ meta_readonly mint false
        ∷ meta_readonly 0 false
        ∷ meta_readonly token_program false
        ∷ [];
    content = 1 ∷ [];
  }
