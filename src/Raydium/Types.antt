-- ===== src/Raydium/Types.antt =====
-- crates/raydium-clmm-client/src/lib.rs: errors, parameters and outcomes. A `Pubkey` is the number
-- that its 32 bytes spell, most significant first, so that keys are ordered as numbers are; a
-- `u16`, `u32`, `u64` or `u128` is a natural number.
use testnet_testsuite.Prelude.{ℕ, String, List, [], ◌∷◌, Option, Bool}
use testnet_testsuite.Prelude.Int.{ℤ}

abbrev pub Pubkey : Type 0
Pubkey = ℕ

abbrev pub Bytes : Type 0
Bytes = List ℕ

-- A message: its fixed text, and what is formatted into it.
pub data Piece : Type 0 where
  words : String → Piece
  number : ℕ → Piece
  address : Pubkey → Piece

abbrev pub Message : Type 0
Message = List Piece

abbrev pub text : String → Message
text s = words s ∷ []

pub data RaydiumClmmError : Type 0 where
  invalid_input : Message → RaydiumClmmError
  unsupported_token : Pubkey → Message → RaydiumClmmError
  malformed_account : Pubkey → Message → RaydiumClmmError
  quote_error : Message → RaydiumClmmError
  -- mint, required, available
  insufficient_balance : Pubkey → ℕ → ℕ → RaydiumClmmError
  rpc : Message → RaydiumClmmError
  simulation_failure : Message → List String → RaydiumClmmError
  submission_failure : Message → RaydiumClmmError
  ambiguous_confirmation : ℕ → Message → RaydiumClmmError

-- How a call can end without a result: `Err`, or a panic.
pub data Fault : Type 0 where
  fails : RaydiumClmmError → Fault
  panics : Fault

pub record Account : Type 0 where
  pub owner : Pubkey
  pub executable : Bool
  pub content : Bytes

pub record AccountMeta : Type 0 where
  pub pubkey : Pubkey
  pub is_signer : Bool
  pub is_writable : Bool

pub record Instruction : Type 0 where
  pub program_id : Pubkey
  pub accounts : List AccountMeta
  pub content : Bytes

pub record TransactionOutcome : Type 0 where
  pub signature : ℕ
  pub confirmation_slot : ℕ
  pub simulated_compute_units : ℕ

pub record EnsureAmmConfigParams : Type 0 where
  pub index : ℕ
  pub tick_spacing : ℕ
  pub trade_fee_rate : ℕ
  pub protocol_fee_rate : ℕ
  pub fund_fee_rate : ℕ

pub record EnsureAmmConfigOutcome : Type 0 where
  pub transaction : Option TransactionOutcome
  pub created : Bool
  pub amm_config : Pubkey
  pub admin : Pubkey
  pub params : EnsureAmmConfigParams

pub record TokenAmount (D : Type 0) : Type 0 where
  pub mint : Pubkey
  pub amount : D

pub record CreatePoolParams (D : Type 0) : Type 0 where
  pub amm_config : Pubkey
  pub mint_a : Pubkey
  pub mint_b : Pubkey
  pub initial_price : D
  pub open_time : Option ℕ

pub record OpenPositionParams (D : Type 0) : Type 0 where
  pub pool : Pubkey
  pub lower_price : D
  pub upper_price : D
  pub input : TokenAmount D
  pub with_metadata : Bool

pub record IncreaseLiquidityParams (D : Type 0) : Type 0 where
  pub position_mint : Pubkey
  pub input : TokenAmount D

pub record DecreaseLiquidityParams (D : Type 0) : Type 0 where
  pub position_mint : Pubkey
  pub amount : Option (TokenAmount D)

pub record PoolAccounts : Type 0 where
  pub pool : Pubkey
  pub token_vault_0 : Pubkey
  pub token_vault_1 : Pubkey
  pub observation : Pubkey
  pub tick_array_bitmap : Pubkey

pub record PoolCreationQuote (D : Type 0) : Type 0 where
  pub mint_0 : Pubkey
  pub mint_1 : Pubkey
  pub normalized_initial_price : D
  pub sqrt_price_x64 : ℕ
  pub open_time : ℕ

pub record CreatePoolOutcome (D : Type 0) : Type 0 where
  pub transaction : TransactionOutcome
  pub quote : PoolCreationQuote D
  pub accounts : PoolAccounts

pub record LiquidityQuote : Type 0 where
  pub liquidity : ℕ
  pub tick_lower : ℤ
  pub tick_upper : ℤ
  pub input_mint : Pubkey
  pub input_amount_raw : ℕ
  pub amount_0_raw : ℕ
  pub amount_1_raw : ℕ
  pub amount_0_max : ℕ
  pub amount_1_max : ℕ
  pub amount_0_min : ℕ
  pub amount_1_min : ℕ

pub record PositionAccounts : Type 0 where
  pub pool : Pubkey
  pub position_nft_mint : Pubkey
  pub position_nft_account : Pubkey
  pub personal_position : Pubkey
  pub protocol_position : Pubkey
  pub tick_array_lower : Pubkey
  pub tick_array_upper : Pubkey
  pub tick_array_lower_start : ℤ
  pub tick_array_upper_start : ℤ

pub record PositionOutcome : Type 0 where
  pub transaction : TransactionOutcome
  pub quote : LiquidityQuote
  pub accounts : PositionAccounts

pub record CollectOutcome : Type 0 where
  pub transaction : TransactionOutcome
  pub position : PositionAccounts

pub record ClosePositionOutcome : Type 0 where
  pub transaction : TransactionOutcome
  pub closed_position : Pubkey
  pub closed_nft_mint : Pubkey
  pub closed_nft_account : Pubkey
  pub pool : Pubkey

pub record MintInfo : Type 0 where
  pub key : Pubkey
  pub token_program : Pubkey
  pub decimals : ℕ
  pub content : Bytes

-- `rewards_owed` holds three amounts.
pub record PositionView : Type 0 where
  pub address : Pubkey
  pub pool : Pubkey
  pub nft_account : Pubkey
  pub nft_token_program : Pubkey
  pub tick_lower : ℤ
  pub tick_upper : ℤ
  pub liquidity : ℕ
  pub fees_owed_0 : ℕ
  pub fees_owed_1 : ℕ
  pub rewards_owed : List ℕ

pub record SwapQuote : Type 0 where
  pub exact_in : Bool
  pub input_mint : Pubkey
  pub output_mint : Pubkey
  pub expected_input_raw : ℕ
  pub expected_output_raw : ℕ
  pub other_amount_threshold : ℕ
  pub tick_arrays : List Pubkey

pub record SwapAccounts : Type 0 where
  pub pool : Pubkey
  pub input_token_account : Pubkey
  pub output_token_account : Pubkey
  pub input_vault : Pubkey
  pub output_vault : Pubkey
  pub observation : Pubkey
  pub tick_array_bitmap : Pubkey
  pub tick_arrays : List Pubkey

pub record SwapOutcome : Type 0 where
  pub transaction : TransactionOutcome
  pub quote : SwapQuote
  pub accounts : SwapAccounts
