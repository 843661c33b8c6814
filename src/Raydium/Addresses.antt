-- ===== src/Raydium/Addresses.antt =====
-- crates/raydium-clmm-client/src/lib.rs: the program addresses of a pool and of a position.
use testnet_testsuite.Prelude.{ℕ, [], ◌∷◌, Result, ok, err, if◌then◌else◌, ltb}
use testnet_testsuite.Prelude.Int.{ℤ}
use testnet_testsuite.Raydium.Types.{
  Pubkey, text, RaydiumClmmError, Fault, fails, PoolAccounts, PositionAccounts,
}
use testnet_testsuite.Raydium.Programs.{Programs, Seed, of_key, be_u16, be_i32}
use testnet_testsuite.Raydium.Monad.{Client}

-- Two keys in ascending order, or the error for equal ones; `A` tells what is made of them.
unfoldable pub order_mints : {A : Type 0} → Pubkey → Pubkey → (Pubkey → Pubkey → A) → Result Fault A
order_mints mint_a mint_b f =
    if ltb mint_a mint_b
    then ok (f mint_a mint_b)
    else if ltb mint_b mint_a
    then ok (f mint_b mint_a)
    else err (fails (RaydiumClmmError.invalid_input (text "pool mints must be different")))

module _ {P C B T : Type 0} (programs : Programs P C B T) where
  unfoldable pub pool_address_for : Pubkey → Pubkey → Pubkey → Pubkey → Pubkey
  pool_address_for program_id config mint_0 mint_1 =
      programs.pda (Seed.pool_seed ∷ of_key config ∷ of_key mint_0 ∷ of_key mint_1 ∷ []) program_id

  unfoldable pub derive_pool_address : Pubkey → Pubkey → Pubkey → Pubkey → Result Fault Pubkey
  unfolding order_mints
  derive_pool_address program_id amm_config mint_a mint_b =
      order_mints mint_a mint_b (pool_address_for program_id amm_config)

module _ {P C B T K W : Type 0} (self : Client P C B T K W) where
  unfoldable pub pool_address : Pubkey → Pubkey → Pubkey → Pubkey
  unfolding pool_address_for
  pool_address = pool_address_for self.programs self.program_id

  unfoldable pub amm_config_address : ℕ → Pubkey
  amm_config_address index =
      self.programs.pda (Seed.amm_config_seed ∷ be_u16 index ∷ []) self.program_id

  unfoldable pub tick_array_bitmap_address : Pubkey → Pubkey
  tick_array_bitmap_address pool =
      self.programs.pda (Seed.bitmap_seed ∷ of_key pool ∷ []) self.program_id

  unfoldable pub tick_array_address : Pubkey → ℤ → Pubkey
  tick_array_address pool start =
      self.programs.pda (Seed.tick_array_seed ∷ of_key pool ∷ be_i32 start ∷ []) self.program_id

  unfoldable pub personal_position_address : Pubkey → Pubkey
  personal_position_address mint =
      self.programs.pda (Seed.position_seed ∷ of_key mint ∷ []) self.program_id

  unfoldable pub derive_pool_addresses : Pubkey → Pubkey → Pubkey → PoolAccounts
  derive_pool_addresses pool mint_0 mint_1 =
      let vault = λ (mint : Pubkey).
        self.programs.pda (Seed.pool_vault_seed ∷ of_key pool ∷ of_key mint ∷ []) self.program_id in
      record {
        pool = pool;
        token_vault_0 = vault mint_0;
        token_vault_1 = vault mint_1;
        observation = self.programs.pda (Seed.observation_seed ∷ of_key pool ∷ []) self.program_id;
        tick_array_bitmap = tick_array_bitmap_address pool;
      }

  unfoldable pub position_addresses : Pubkey → Pubkey → ℤ → ℤ → ℕ → PositionAccounts
  position_addresses pool mint lower upper spacing =
      let lower_start = self.clmm.get_array_start_index lower spacing in
      let upper_start = self.clmm.get_array_start_index upper spacing in
      record {
        pool = pool;
        position_nft_mint = mint;
        position_nft_account =
            self.programs.associated_token_address self.payer mint
              self.programs.token_2022_program_id;
        personal_position = personal_position_address mint;
        protocol_position =
            self.programs.pda (Seed.position_seed ∷ of_key pool ∷ be_i32 lower ∷ be_i32 upper ∷ [])
              self.program_id;
        tick_array_lower = tick_array_address pool lower_start;
        tick_array_upper = tick_array_address pool upper_start;
        tick_array_lower_start = lower_start;
        tick_array_upper_start = upper_start;
      }
