-- ===== src/Raydium/Pools.antt =====
-- crates/raydium-clmm-client/src/lib.rs: the AMM config and the creation of a pool.
use testnet_testsuite.Prelude.{
  ℕ, List, [], ◌∷◌, ◌++◌, Option, none, some, Bool, true, false, not, Result, ok, err, fail_if,
  ok_or, if◌then◌else◌, ◌==◌, ◌||◌, ltb, is_some,
}
use testnet_testsuite.Decimal.{Decimal}
use testnet_testsuite.Raydium.Types.{
  Pubkey, text, words, address, Fault, Account, AccountMeta, EnsureAmmConfigParams,
  EnsureAmmConfigOutcome, MintInfo, CreatePoolParams, CreatePoolOutcome,
}
use testnet_testsuite.Raydium.Programs.{RaydiumCall, ConfigView}
use testnet_testsuite.Raydium.Monad.{M, ◌>>=◌, ◌>>◌, lift, pure, at, Client}
use testnet_testsuite.Raydium.Accounts.{
  malformed, or_quote, require_account, fetch_optional, decode_program_account, decode_mint,
  support_mint_address, validate_supported_mint, raydium_instruction,
}
use testnet_testsuite.Raydium.Addresses.{pool_address, amm_config_address, derive_pool_addresses}
use testnet_testsuite.Raydium.Amounts.{
  invalid, quote_failed, ensure_positive, price_to_sqrt_x64, validate_amm_config_params,
}
use testnet_testsuite.Raydium.Position.{readonly}

-- A meta for a support account that exists.
abbrev support_meta : Option Account → Pubkey → List AccountMeta
support_meta none key = []
support_meta (some _) key = readonly key ∷ []

-- The mints in ascending order, with the price of the first in terms of the second.
unfoldable pub normalize :
    {D : Type 0} ⦃d : Decimal D⦄ → CreatePoolParams D → Result Fault (Pubkey × Pubkey × D)
normalize ⦃d⦄ params =
    let inverted =
      ok_or (d.checked_div d.unit params.initial_price) (quote_failed "price inversion failed") in
    if ltb params.mint_a params.mint_b
    then ok (params.mint_a, params.mint_b, params.initial_price)
    else if ltb params.mint_b params.mint_a
    then elim inverted [ err e ↦ err e | ok price ↦ ok (params.mint_b, params.mint_a, price) ]
    else err (invalid (text "pool mints must be different"))

module _ {P C B T K W : Type 0} (self : Client P C B T K W) where
  -- Whether a config is the one asked for, with the payer as its owner.
  abbrev pub is_requested : ConfigView → EnsureAmmConfigParams → Bool
  is_requested config params = not (
      not (config.index == params.index)
      || not (config.tick_spacing == params.tick_spacing)
      || not (config.trade_fee_rate == params.trade_fee_rate)
      || not (config.protocol_fee_rate == params.protocol_fee_rate)
      || not (config.fund_fee_rate == params.fund_fee_rate)
      || not (config.owner == self.payer)
      || not (config.fund_owner == self.payer))

  unfoldable pub confirm_config :
      EnsureAmmConfigParams → Pubkey → Option Account → M W EnsureAmmConfigOutcome
  confirm_config params config_address (some account) = do
    config ← lift (decode_program_account self self.programs.decode_config config_address account)
    let view = self.programs.config_view config
    lift (
        fail_if (not (is_requested view params)) (
          invalid (
            words "existing AMM config "
            ∷ address config_address
            ∷ words " does not match the requested admin or fee settings"
            ∷ [])))
    pure (record {
      transaction = none;
      created = false;
      amm_config = config_address;
      admin = view.owner;
      params = params;
    })
  confirm_config params config_address none = do
    transaction ←
        self.chain.submit
          (raydium_instruction self
              (RaydiumCall.create_amm_config self.payer config_address params.index
                params.tick_spacing params.trade_fee_rate params.protocol_fee_rate
                params.fund_fee_rate)
              []
            ∷ [])
          []
    pure (record {
      transaction = some transaction;
      created = true;
      amm_config = config_address;
      admin = self.payer;
      params = params;
    })

  unfoldable pub ensure_amm_config : EnsureAmmConfigParams → M W EnsureAmmConfigOutcome
  unfolding confirm_config
  ensure_amm_config params = do
    let config_address = amm_config_address self params.index
    lift (
        validate_amm_config_params self.programs.max_tick_spacing self.programs.fee_rate_denominator
          params)
    let keys = self.program_id ∷ config_address ∷ []
    accounts ← fetch_optional self keys
    program ← lift (require_account keys accounts 0 "Raydium program")
    lift (
        fail_if (not program.executable)
          (malformed self.program_id (text "Raydium program account is not executable")))
    existing ← lift (at accounts 1)
    confirm_config params config_address existing

  module _ {D : Type 0} ⦃d : Decimal D⦄ where
    -- The last part of the creation of a pool: its price, and the transaction.
    unfoldable pub send_pool :
        CreatePoolParams D
        → (mint_0 mint_1 : Pubkey) → D
        → (info_0 info_1 : MintInfo) → (account_0 account_1 : Option Account)
        → M W (CreatePoolOutcome D)
    send_pool params mint_0 mint_1 price info_0 info_1 account_0 account_1 = do
      let open_time : ℕ = elim params.open_time [ none ↦ 0 | some t ↦ t ]
      let pool = pool_address self params.amm_config mint_0 mint_1
      let support_0 = support_mint_address self mint_0
      let support_1 = support_mint_address self mint_1
      sqrt_price ← lift (price_to_sqrt_x64 price info_0.decimals info_1.decimals)
      _ ← lift (or_quote (self.clmm.get_tick_at_sqrt_price sqrt_price))
      let addresses = derive_pool_addresses self pool mint_0 mint_1
      transaction ←
          self.chain.submit
            (raydium_instruction self
                (RaydiumCall.create_pool
                  (self.payer ∷ params.amm_config ∷ pool ∷ mint_0 ∷ mint_1 ∷ addresses.token_vault_0
                    ∷ addresses.token_vault_1 ∷ addresses.observation ∷ addresses.tick_array_bitmap
                    ∷ info_0.token_program ∷ info_1.token_program ∷ self.programs.system_program_id
                    ∷ self.programs.rent_id ∷ [])
                  sqrt_price open_time)
                (support_meta account_0 support_0 ++ support_meta account_1 support_1)
              ∷ [])
            []
      pure (record {
        transaction = transaction;
        quote = record {
          mint_0 = mint_0;
          mint_1 = mint_1;
          normalized_initial_price = price;
          sqrt_price_x64 = sqrt_price;
          open_time = open_time;
        };
        accounts = addresses;
      })

    unfoldable pub create_pool : CreatePoolParams D → M W (CreatePoolOutcome D)
    create_pool params = do
      lift (ensure_positive params.initial_price "initial_price")
      (mint_0, mint_1, price) ← lift (normalize params)
      let pool = pool_address self params.amm_config mint_0 mint_1
      let support_0 = support_mint_address self mint_0
      let support_1 = support_mint_address self mint_1
      let keys = params.amm_config ∷ mint_0 ∷ mint_1 ∷ pool ∷ support_0 ∷ support_1 ∷ []
      accounts ← fetch_optional self keys
      config_account ← lift (require_account keys accounts 0 "amm config")
      config ←
          lift (
            decode_program_account self self.programs.decode_config params.amm_config
              config_account)
      lift (
          fail_if
            (not (
              amm_config_address self ((self.programs.config_view config).index)
              == params.amm_config))
            (malformed params.amm_config (text "AMM config is not its canonical PDA")))
      mint_account_0 ← lift (require_account keys accounts 1 "mint 0")
      info_0 ← lift (decode_mint self mint_0 mint_account_0)
      mint_account_1 ← lift (require_account keys accounts 2 "mint 1")
      info_1 ← lift (decode_mint self mint_1 mint_account_1)
      existing ← lift (at accounts 3)
      lift (
          fail_if (is_some existing)
            (invalid (words "pool " ∷ address pool ∷ words " is already initialized" ∷ [])))
      account_0 ← lift (at accounts 4)
      lift (validate_supported_mint self info_0 account_0)
      account_1 ← lift (at accounts 5)
      lift (validate_supported_mint self info_1 account_1)
      send_pool params mint_0 mint_1 price info_0 info_1 account_0 account_1
