-- ===== src/Flow/Types.antt =====
-- crates/raydium-clmm-orchestrator/src/lib.rs: errors, parameters and outcomes. How a flow can end
-- without a result is one of the errors, or a panic.
use testnet_testsuite.Prelude.{ℕ, String, Option, Bool}
use testnet_testsuite.Chain.Submit.{SubmissionError, SubmissionConfig}
use testnet_testsuite.Raydium.Types.{
  Pubkey, Message, Fault, fails, panics, RaydiumClmmError, TransactionOutcome, CreatePoolOutcome,
  PositionOutcome, SwapOutcome, CollectOutcome, ClosePositionOutcome,
}
use testnet_testsuite.Raydium.Monad.{Client}
use testnet_testsuite.Raydium.Setup.{Node, confirmed}

pub data OrchestrationError : Type 0 where
  invalid_input : Message → OrchestrationError
  missing_program : Pubkey → OrchestrationError
  invalid_program : Pubkey → OrchestrationError
  missing_amm_config : Pubkey → OrchestrationError
  -- config, expected owner, actual owner
  malformed_amm_config : Pubkey → Pubkey → Pubkey → OrchestrationError
  missing_mint : Pubkey → OrchestrationError
  malformed_mint : Pubkey → Message → OrchestrationError
  unsupported_mint : Pubkey → Message → OrchestrationError
  rpc : String → OrchestrationError
  funding_submission : SubmissionError → OrchestrationError
  raydium : RaydiumClmmError → OrchestrationError

pub data FlowFault : Type 0 where
  stops : OrchestrationError → FlowFault
  crashes : FlowFault

abbrev pub invalid : Message → FlowFault
invalid m = stops (OrchestrationError.invalid_input m)

-- `#[from] RaydiumClmmError`.
abbrev pub of_client : Fault → FlowFault
of_client (fails e) = stops (OrchestrationError.raydium e)
of_client panics = crashes

pub record OrchestrationConfig : Type 0 where
  pub slippage_bps : ℕ
  pub compute_unit_limit : ℕ
  pub priority_fee_micro_lamports : ℕ
  pub confirmation_commitment : ℕ

abbrev pub default_config : OrchestrationConfig
default_config = record {
  slippage_bps = 50;
  compute_unit_limit = 1_400_000;
  priority_fee_micro_lamports = 0;
  confirmation_commitment = confirmed;
}

pub record PoolCreationParams (D : Type 0) : Type 0 where
  pub amm_config : Pubkey
  pub mint_a : Pubkey
  pub mint_b : Pubkey
  pub initial_price : D
  pub open_time : Option ℕ

pub record UserFlowParams (D : Type 0) : Type 0 where
  pub amm_config : Pubkey
  pub pool : Pubkey
  pub mint_a : Pubkey
  pub mint_b : Pubkey
  pub funding_a : D
  pub funding_b : D
  pub lower_price : D
  pub upper_price : D
  pub open_amount : D
  pub increase_amount : D
  pub exact_in_amount : D
  pub exact_out_amount : D
  pub with_metadata : Bool

pub record FundingOutcome : Type 0 where
  pub transaction : TransactionOutcome
  pub token_account_a : Pubkey
  pub token_account_b : Pubkey
  pub amount_a_raw : ℕ
  pub amount_b_raw : ℕ

pub record PoolCreationOutcome (D : Type 0) : Type 0 where
  pub create_pool : CreatePoolOutcome D

pub record UserFlowOutcome : Type 0 where
  pub funding : FundingOutcome
  pub open_position : PositionOutcome
  pub increase_liquidity : PositionOutcome
  pub swap_exact_in : SwapOutcome
  pub swap_exact_out : SwapOutcome
  pub decrease_liquidity : PositionOutcome
  pub collect_position : CollectOutcome
  pub close_position : ClosePositionOutcome

pub record MintInfo : Type 0 where
  pub token_program : Pubkey
  pub decimals : ℕ

-- `RaydiumClmmOrchestrator`: its payer is the client's.
pub record Orchestrator (P C B T K W : Type 0) : Type 0 where
  pub node : Node W
  pub client : Client P C B T K W
  pub program_id : Pubkey
  pub payer : Pubkey
  pub mint_authority : Pubkey
  pub funding_submission : SubmissionConfig

-- `RaydiumClmmAdminOrchestrator`.
pub record AdminOrchestrator (P C B T K W : Type 0) : Type 0 where
  pub client : Client P C B T K W
  pub program_id : Pubkey
  pub admin : Pubkey
