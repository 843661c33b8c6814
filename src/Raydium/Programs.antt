-- ===== src/Raydium/Programs.antt =====
-- What the client calls of the account types of `raydium_clmm_interface`, of `anchor_lang` and of
-- the SPL token crates, none of which is in the repository: a parameter of the model. An error is
-- its text.
use testnet_testsuite.Prelude.{ℕ, String, List, Option, Bool, Result}
use testnet_testsuite.Prelude.Int.{ℤ}
use testnet_testsuite.Raydium.Types.{Pubkey, Bytes, AccountMeta, Instruction}

-- A seed of a program address: one of the labels of `states`, a key, or a number in big-endian
-- bytes.
pub data Seed : Type 0 where
  amm_config_seed pool_seed pool_vault_seed observation_seed tick_array_seed bitmap_seed
        position_seed support_mint_seed :
      Seed
  of_key : Pubkey → Seed
  be_u16 : ℕ → Seed
  be_i32 : ℤ → Seed

pub data ExtensionType : Type 0 where
  transfer_fee_config metadata_pointer token_metadata interest_bearing_config scaled_ui_amount :
      ExtensionType
  unlisted : String → ExtensionType

-- `StateWithExtensions<Mint>`: an epoch fee is a function of the epoch and the amount.
pub record MintState : Type 0 where
  pub decimals : ℕ
  pub supply : ℕ
  pub extension_types : Result String (List ExtensionType)
  pub epoch_fee : Option (ℕ → ℕ → Option ℕ)
  pub inverse_epoch_fee : Option (ℕ → ℕ → Option ℕ)

pub record TokenState : Type 0 where
  pub mint : Pubkey
  pub owner : Pubkey
  pub amount : ℕ
  pub is_frozen : Bool

pub record PersonalPosition : Type 0 where
  pub nft_mint : Pubkey
  pub pool_id : Pubkey
  pub tick_lower_index : ℤ
  pub tick_upper_index : ℤ
  pub liquidity : ℕ
  pub token_fees_owed_0 : ℕ
  pub token_fees_owed_1 : ℕ
  pub rewards_owed : List ℕ

pub record RewardInfo : Type 0 where
  pub token_mint : Pubkey
  pub token_vault : Pubkey

pub record ConfigView : Type 0 where
  pub index : ℕ
  pub tick_spacing : ℕ
  pub trade_fee_rate : ℕ
  pub protocol_fee_rate : ℕ
  pub fund_fee_rate : ℕ
  pub owner : Pubkey
  pub fund_owner : Pubkey

pub record PoolView : Type 0 where
  pub amm_config : Pubkey
  pub token_mint_0 : Pubkey
  pub token_mint_1 : Pubkey
  pub token_vault_0 : Pubkey
  pub token_vault_1 : Pubkey
  pub observation_key : Pubkey
  pub tick_spacing : ℕ
  pub mint_decimals_0 : ℕ
  pub mint_decimals_1 : ℕ
  pub reward_infos : List RewardInfo
  pub has_dynamic_fee : Bool

-- The instructions that the client sends, with their account lists in the order of the fields.
pub data RaydiumCall : Type 0 where
  -- owner, amm_config; index, tick_spacing, trade_fee_rate, protocol_fee_rate, fund_fee_rate
  create_amm_config : Pubkey → Pubkey → ℕ → ℕ → ℕ → ℕ → ℕ → RaydiumCall
  -- accounts; sqrt_price_x64, open_time
  create_pool : List Pubkey → ℕ → ℕ → RaydiumCall
  -- accounts; liquidity, amount_0_max, amount_1_max, ticks, array starts, with_metadata
  open_position_with_token22_nft : List Pubkey → ℕ → ℕ → ℕ → ℤ → ℤ → ℤ → ℤ → Bool → RaydiumCall
  -- accounts; liquidity, amount_0_max, amount_1_max
  increase_liquidity_v2 : List Pubkey → ℕ → ℕ → ℕ → RaydiumCall
  -- accounts; liquidity, amount_0_min, amount_1_min
  decrease_liquidity_v2 : List Pubkey → ℕ → ℕ → ℕ → RaydiumCall
  close_position : List Pubkey → RaydiumCall
  -- accounts; amount, other_amount_threshold, sqrt_price_limit_x64, is_base_input
  swap_v2 : List Pubkey → ℕ → ℕ → ℕ → Bool → RaydiumCall

pub record Programs (P C B T : Type 0) : Type 0 where
  pub max_tick_spacing : ℕ
  pub fee_rate_denominator : ℕ
  pub decode_config : Bytes → Result String C
  pub decode_pool : Bytes → Result String P
  pub decode_bitmap : Bytes → Result String B
  pub decode_tick_array : Bytes → Result String T
  pub decode_personal : Bytes → Result String PersonalPosition
  -- The mint that a support account names.
  pub decode_support : Bytes → Result String Pubkey
  pub unpack_mint : Bytes → Result String MintState
  pub unpack_token : Bytes → Result String TokenState
  pub config_view : C → ConfigView
  pub pool_view : P → PoolView
  pub array_pool_id : T → Pubkey
  -- `find_program_address`.
  pub pda : List Seed → Pubkey → Pubkey
  -- owner, mint, token program
  pub associated_token_address : Pubkey → Pubkey → Pubkey → Pubkey
  -- payer, mint, token program
  pub ata_instruction : Pubkey → Pubkey → Pubkey → Instruction
  pub to_account_metas : RaydiumCall → List AccountMeta
  pub encode : RaydiumCall → Bytes
  pub token_program_id : Pubkey
  pub token_2022_program_id : Pubkey
  pub memo_program_id : Pubkey
  pub associated_program_id : Pubkey
  pub system_program_id : Pubkey
  pub rent_id : Pubkey
