-- ===== src/Raydium/Load.antt =====
-- crates/raydium-clmm-client/src/lib.rs: what an action reads of the chain before it acts.
use testnet_testsuite.Prelude.{ℕ, [], ◌∷◌, false, not, fail_if, ◌==◌, ◌||◌, leb}
use testnet_testsuite.Raydium.Types.{
  Pubkey, text, RaydiumClmmError, Fault, fails, Account, MintInfo,
}
use testnet_testsuite.Raydium.Monad.{M, ◌>>=◌, ◌>>◌, lift, pure, at, Client}
use testnet_testsuite.Raydium.Accounts.{
  malformed, require_account, fetch_optional, fetch_epoch, decode_program_account, decode_mint,
  validate_vault, validate_token_account,
}
use testnet_testsuite.Raydium.Addresses.{
  pool_address, amm_config_address, tick_array_bitmap_address,
}

pub record PoolBundle (P B : Type 0) : Type 0 where
  pub pool : P
  pub config_account : Account
  pub amm_config : Pubkey
  pub mint_0 : MintInfo
  pub mint_1 : MintInfo
  pub token_vault_0 : Pubkey
  pub token_vault_1 : Pubkey
  pub observation : Pubkey
  pub tick_array_bitmap : Pubkey
  pub bitmap : B
  pub tick_spacing : ℕ
  pub user_token_0 : Pubkey
  pub user_token_1 : Pubkey
  pub balance_0 : ℕ
  pub balance_1 : ℕ
  pub epoch : ℕ
  pub key : Pubkey

abbrev pub insufficient : Pubkey → ℕ → ℕ → Fault
insufficient mint required available =
    fails (RaydiumClmmError.insufficient_balance mint required available)

module _ {P C B T K W : Type 0} (self : Client P C B T K W) where
  unfoldable pub load_pool : Pubkey → M W (PoolBundle P B)
  load_pool key = do
    first ← fetch_optional self (key ∷ [])
    account ← lift (require_account (key ∷ []) first 0 "pool")
    pool ← lift (decode_program_account self self.programs.decode_pool key account)
    let view = self.programs.pool_view pool
    let bitmap_key = tick_array_bitmap_address self key
    let keys =
        view.amm_config ∷ view.token_mint_0 ∷ view.token_mint_1 ∷ bitmap_key ∷ view.token_vault_0
        ∷ view.token_vault_1 ∷ view.observation_key ∷ []
    accounts ← fetch_optional self keys
    config_account ← lift (require_account keys accounts 0 "amm config")
    config ←
        lift
          (decode_program_account self self.programs.decode_config view.amm_config config_account)
    let config_view = self.programs.config_view config
    lift (
        fail_if (not (amm_config_address self config_view.index == view.amm_config))
          (malformed view.amm_config (text "AMM config is not its canonical PDA")))
    lift (
        fail_if (not (config_view.tick_spacing == view.tick_spacing))
          (malformed key (text "pool tick spacing does not match its config")))
    mint_account_0 ← lift (require_account keys accounts 1 "mint 0")
    mint_0 ← lift (decode_mint self view.token_mint_0 mint_account_0)
    mint_account_1 ← lift (require_account keys accounts 2 "mint 1")
    mint_1 ← lift (decode_mint self view.token_mint_1 mint_account_1)
    lift (
        fail_if
          (leb view.token_mint_1 view.token_mint_0
            || not (pool_address self view.amm_config view.token_mint_0 view.token_mint_1 == key))
          (malformed key (text "pool mint order or canonical PDA is invalid")))
    lift (
        fail_if
          (not (view.mint_decimals_0 == mint_0.decimals)
            || not (view.mint_decimals_1 == mint_1.decimals))
          (malformed key (text "pool mint decimals do not match mint accounts")))
    bitmap_account ← lift (require_account keys accounts 3 "tick-array bitmap")
    bitmap ←
        lift (decode_program_account self self.programs.decode_bitmap bitmap_key bitmap_account)
    vault_account_0 ← lift (require_account keys accounts 4 "vault 0")
    lift (validate_vault self key view.token_vault_0 vault_account_0 mint_0)
    vault_account_1 ← lift (require_account keys accounts 5 "vault 1")
    lift (validate_vault self key view.token_vault_1 vault_account_1 mint_1)
    observation_account ← lift (require_account keys accounts 6 "observation")
    lift (
        fail_if (not (observation_account.owner == self.program_id))
          (malformed view.observation_key (text "observation account has the wrong owner")))
    epoch ← fetch_epoch self
    let user_0 = self.programs.associated_token_address self.payer mint_0.key mint_0.token_program
    let user_1 = self.programs.associated_token_address self.payer mint_1.key mint_1.token_program
    users ← fetch_optional self (user_0 ∷ user_1 ∷ [])
    user_account_0 ← lift (at users 0)
    balance_0 ← lift (validate_token_account self user_0 user_account_0 mint_0 false)
    user_account_1 ← lift (at users 1)
    balance_1 ← lift (validate_token_account self user_1 user_account_1 mint_1 false)
    pure (record {
      pool = pool;
      config_account = config_account;
      amm_config = view.amm_config;
      mint_0 = mint_0;
      mint_1 = mint_1;
      token_vault_0 = view.token_vault_0;
      token_vault_1 = view.token_vault_1;
      observation = view.observation_key;
      tick_array_bitmap = bitmap_key;
      bitmap = bitmap;
      tick_spacing = view.tick_spacing;
      user_token_0 = user_0;
      user_token_1 = user_1;
      balance_0 = balance_0;
      balance_1 = balance_1;
      epoch = epoch;
      key = key;
    })
