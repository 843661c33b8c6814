-- ===== src/Raydium/Actions.antt =====
-- crates/raydium-clmm-client/src/lib.rs: the actions on a position. `run`, which only logs and
-- counts, is left out of them.
use testnet_testsuite.Prelude.{
  ℕ, List, [], ◌∷◌, ◌++◌, Option, none, some, Bool, true, false, not, Result, ok, err, fail_if,
  ◌==◌, ◌||◌, ltb,
}
use testnet_testsuite.Decimal.{Decimal}
use testnet_testsuite.Raydium.Types.{
  Pubkey, text, Fault, AccountMeta, Instruction, PositionAccounts, PositionView, LiquidityQuote,
  TokenAmount, OpenPositionParams, IncreaseLiquidityParams, DecreaseLiquidityParams,
  PositionOutcome, CollectOutcome, ClosePositionOutcome,
}
use testnet_testsuite.Raydium.Programs.{RaydiumCall}
use testnet_testsuite.Raydium.Monad.{M, ◌>>=◌, ◌>>◌, lift, pure, Client}
use testnet_testsuite.Raydium.Accounts.{fetch_keypair, raydium_instruction}
use testnet_testsuite.Raydium.Addresses.{position_addresses}
use testnet_testsuite.Raydium.Amounts.{invalid}
use testnet_testsuite.Raydium.Load.{PoolBundle, load_pool}
use testnet_testsuite.Raydium.Liquidity.{
  ensure_position_balances, decrease_quote, position_quote, position_quote_for_ticks,
}
use testnet_testsuite.Raydium.Position.{
  writable, load_position, validate_position_tick_arrays, position_ata_instructions,
  reward_accounts,
}

-- `rewards_owed.iter().any(|amount| *amount != 0)`.
abbrev pub any_owed : List ℕ → Bool
any_owed [] = false
any_owed (n ∷ ns) = not (n == 0) || any_owed ns

module _ {P C B T K W : Type 0} (self : Client P C B T K W) where
  unfoldable pub decrease_instruction :
      PoolBundle P B
      → PositionView
      → PositionAccounts
      → LiquidityQuote
      → List AccountMeta
      → Instruction
  decrease_instruction bundle position accounts quote remaining =
      raydium_instruction self
        (RaydiumCall.decrease_liquidity_v2
          (self.payer ∷ position.nft_account ∷ position.address ∷ position.pool
            ∷ accounts.protocol_position ∷ bundle.token_vault_0 ∷ bundle.token_vault_1
            ∷ accounts.tick_array_lower ∷ accounts.tick_array_upper ∷ bundle.user_token_0
            ∷ bundle.user_token_1 ∷ self.programs.token_program_id
            ∷ self.programs.token_2022_program_id ∷ self.programs.memo_program_id
            ∷ bundle.mint_0.key ∷ bundle.mint_1.key ∷ [])
          quote.liquidity quote.amount_0_min quote.amount_1_min)
        remaining

  -- The addresses of an existing position.
  abbrev accounts_of : PoolBundle P B → PositionView → Pubkey → PositionAccounts
  accounts_of bundle position mint =
      position_addresses self position.pool mint position.tick_lower position.tick_upper
        bundle.tick_spacing

  unfoldable pub collect_position : Pubkey → M W CollectOutcome
  collect_position position_mint = do
    position ← load_position self position_mint
    bundle ← load_pool self position.pool
    let accounts = accounts_of bundle position position_mint
    validate_position_tick_arrays self accounts true
    quote ← lift (decrease_quote self bundle position 0)
    (reward_instructions, remaining) ← reward_accounts self bundle
    transaction ←
        self.chain.submit
          (position_ata_instructions self bundle
            ++ reward_instructions
            ++ decrease_instruction bundle position accounts quote remaining ∷ [])
          []
    pure (record { transaction = transaction; position = accounts })

  unfoldable pub close_position : Pubkey → M W ClosePositionOutcome
  close_position position_mint = do
    position ← load_position self position_mint
    lift (
        fail_if
          (not (position.liquidity == 0)
            || not (position.fees_owed_0 == 0)
            || not (position.fees_owed_1 == 0)
            || any_owed position.rewards_owed)
          (invalid (text "position must have zero liquidity, fees, and rewards before close")))
    _ ← load_pool self position.pool
    transaction ←
        self.chain.submit
          (raydium_instruction self
              (RaydiumCall.close_position (
                self.payer ∷ position_mint ∷ position.nft_account ∷ position.address
                ∷ self.programs.system_program_id ∷ position.nft_token_program ∷ []))
              (writable position.pool ∷ [])
            ∷ [])
          []
    pure (record {
      transaction = transaction;
      closed_position = position.address;
      closed_nft_mint = position_mint;
      closed_nft_account = position.nft_account;
      pool = position.pool;
    })

  module _ {D : Type 0} ⦃d : Decimal D⦄ where
    -- The liquidity that a decrease is asked for: what an amount comes to, or all of it.
    unfoldable pub liquidity_asked :
        PoolBundle P B → PositionView → Option (TokenAmount D) → Result Fault ℕ
    liquidity_asked bundle position none = ok position.liquidity
    liquidity_asked bundle position (some amount) =
        elim (position_quote_for_ticks self bundle position amount) [
          | err e ↦ err e
          | ok quote ↦ ok quote.liquidity
        ]

    unfoldable pub decrease_liquidity : DecreaseLiquidityParams D → M W PositionOutcome
    unfolding liquidity_asked
    decrease_liquidity params = do
      position ← load_position self params.position_mint
      bundle ← load_pool self position.pool
      liquidity ← lift (liquidity_asked bundle position params.amount)
      lift (
          fail_if (liquidity == 0 || ltb position.liquidity liquidity) (
            invalid (
              text
                "decrease amount must resolve to non-zero liquidity no greater than the position")))
      quote ← lift (decrease_quote self bundle position liquidity)
      let accounts = accounts_of bundle position params.position_mint
      validate_position_tick_arrays self accounts true
      (reward_instructions, remaining) ← reward_accounts self bundle
      transaction ←
          self.chain.submit
            (position_ata_instructions self bundle
              ++ reward_instructions
              ++ decrease_instruction bundle position accounts quote remaining ∷ [])
            []
      pure (record { transaction = transaction; quote = quote; accounts = accounts })

    unfoldable pub increase_liquidity : IncreaseLiquidityParams D → M W PositionOutcome
    increase_liquidity params = do
      position ← load_position self params.position_mint
      bundle ← load_pool self position.pool
      quote ← lift (position_quote_for_ticks self bundle position params.input)
      lift (ensure_position_balances self bundle quote)
      let accounts = accounts_of bundle position params.position_mint
      validate_position_tick_arrays self accounts true
      transaction ←
          self.chain.submit
            (position_ata_instructions self bundle
              ++ raydium_instruction self
                  (RaydiumCall.increase_liquidity_v2
                    (self.payer ∷ position.nft_account ∷ position.pool ∷ accounts.protocol_position
                      ∷ position.address ∷ accounts.tick_array_lower ∷ accounts.tick_array_upper
                      ∷ bundle.user_token_0 ∷ bundle.user_token_1 ∷ bundle.token_vault_0
                      ∷ bundle.token_vault_1 ∷ self.programs.token_program_id
                      ∷ self.programs.token_2022_program_id ∷ bundle.mint_0.key ∷ bundle.mint_1.key
                      ∷ [])
                    quote.liquidity quote.amount_0_max quote.amount_1_max)
                  (writable bundle.tick_array_bitmap ∷ [])
                ∷ [])
            []
      pure (record { transaction = transaction; quote = quote; accounts = accounts })

    unfoldable pub open_position : OpenPositionParams D → M W PositionOutcome
    open_position params = do
      bundle ← load_pool self params.pool
      quote ← lift (position_quote self bundle params.lower_price params.upper_price params.input)
      lift (ensure_position_balances self bundle quote)
      nft_mint ← fetch_keypair self
      let accounts =
          position_addresses self params.pool nft_mint quote.tick_lower quote.tick_upper
            bundle.tick_spacing
      validate_position_tick_arrays self accounts false
      transaction ←
          self.chain.submit
            (position_ata_instructions self bundle
              ++ raydium_instruction self
                  (RaydiumCall.open_position_with_token22_nft
                    (self.payer ∷ self.payer ∷ nft_mint ∷ accounts.position_nft_account
                      ∷ params.pool ∷ accounts.protocol_position ∷ accounts.tick_array_lower
                      ∷ accounts.tick_array_upper ∷ accounts.personal_position ∷ bundle.user_token_0
                      ∷ bundle.user_token_1 ∷ bundle.token_vault_0 ∷ bundle.token_vault_1
                      ∷ self.programs.rent_id ∷ self.programs.system_program_id
                      ∷ self.programs.token_program_id ∷ self.programs.associated_program_id
                      ∷ self.programs.token_2022_program_id ∷ bundle.mint_0.key ∷ bundle.mint_1.key
                      ∷ [])
                    quote.liquidity quote.amount_0_max quote.amount_1_max quote.tick_lower
                    quote.tick_upper accounts.tick_array_lower_start accounts.tick_array_upper_start
                    params.with_metadata)
                  (writable bundle.tick_array_bitmap ∷ [])
                ∷ [])
            (nft_mint ∷ [])
      pure (record { transaction = transaction; quote = quote; accounts = accounts })
