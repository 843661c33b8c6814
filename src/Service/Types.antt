-- ===== src/Service/Types.antt =====
-- services/raydium-clmm-orchestrator/src/main.rs: arguments, outcomes and errors, and what the service
-- calls beside the libraries of the repository. A keypair is its public key.
use testnet_testsuite.Prelude.{ℕ, String, List, Option, Bool, Result, ok, err}
use testnet_testsuite.Chain.Submit.{SubmissionError, SubmissionConfig}
use testnet_testsuite.Raydium.Types.{Pubkey, Bytes, Message, Account, TransactionOutcome}
use testnet_testsuite.Raydium.External.{Clmm}
use testnet_testsuite.Raydium.Programs.{Programs}
use testnet_testsuite.Raydium.Setup.{Node, processed, confirmed, finalized, with_defaults}
use testnet_testsuite.Flow.Types.{
  OrchestrationError, FlowFault, stops, crashes, OrchestrationConfig, UserFlowOutcome,
}
use testnet_testsuite.Flow.Task.{Task}

-- `anyhow::Error`: an error and what was being done.
pub data ServiceError : Type 0 where
  bails : Message → ServiceError
  reported : String → ServiceError
  submission : SubmissionError → ServiceError
  orchestration : OrchestrationError → ServiceError
  while_doing : Message → ServiceError → ServiceError

-- How a command can end without a result.
pub data ServiceFault : Type 0 where
  quits : ServiceError → ServiceFault
  panicked : ServiceFault

abbrev pub of_flow : FlowFault → ServiceFault
of_flow (stops e) = quits (ServiceError.orchestration e)
of_flow crashes = panicked

-- `.context(..)`.
abbrev pub in_context : Message → ServiceFault → ServiceFault
in_context m (quits e) = quits (ServiceError.while_doing m e)
in_context m panicked = panicked

pub data Commitment : Type 0 where
  processed_blocks confirmed_blocks finalized_blocks : Commitment

-- `Commitment::config` and `Commitment::name`.
unfoldable pub commitment_config : Commitment → ℕ
commitment_config Commitment.processed_blocks = processed
commitment_config Commitment.confirmed_blocks = confirmed
commitment_config Commitment.finalized_blocks = finalized

unfoldable pub commitment_name : Commitment → String
commitment_name Commitment.processed_blocks = "processed"
commitment_name Commitment.confirmed_blocks = "confirmed"
commitment_name Commitment.finalized_blocks = "finalized"

pub record TransactionArgs : Type 0 where
  pub slippage_bps : ℕ
  pub compute_unit_limit : ℕ
  pub priority_fee_micro_lamports : ℕ
  pub commitment : Commitment

pub record CreatePoolsArgs (D : Type 0) : Type 0 where
  pub rpc_url : String
  pub program_id : Option Pubkey
  pub program_keypair_env : String
  pub amm_config : Pubkey
  pub mints : List Pubkey
  pub payer_keypair_env : String
  pub initial_price : D
  pub open_time : Option ℕ
  pub transaction : TransactionArgs

pub record UserFlowArgs (D : Type 0) : Type 0 where
  pub rpc_url : String
  pub program_id : Option Pubkey
  pub program_keypair_env : String
  pub amm_config : Pubkey
  pub mints : List Pubkey
  pub faucet_keypair_env : String
  pub mint_authority_keypair_env : String
  pub user_lamports : ℕ
  pub funding_a : D
  pub funding_b : D
  pub lower_price : D
  pub upper_price : D
  pub open_amount : D
  pub increase_amount : D
  pub exact_in_amount : D
  pub exact_out_amount : D
  pub with_metadata : Bool
  pub transaction : TransactionArgs

pub record AdminArgs : Type 0 where
  pub rpc_url : String
  pub program_id : Option Pubkey
  pub program_keypair_env : String
  pub admin_keypair_env : String
  pub config_index : ℕ
  pub tick_spacing : ℕ
  pub trade_fee_rate : ℕ
  pub protocol_fee_rate : ℕ
  pub fund_fee_rate : ℕ
  pub compute_unit_limit : ℕ
  pub priority_fee_micro_lamports : ℕ
  pub commitment : Commitment

pub record UserPool : Type 0 where
  pub pool : Pubkey
  pub mint_a : Pubkey
  pub mint_b : Pubkey

-- What a recovery has returned: token transactions, lamports and their transaction.
abbrev pub Recovery : Type 0
Recovery = List TransactionOutcome × ℕ × Option TransactionOutcome

pub record UserFlowRun : Type 0 where
  pub pool : UserPool
  pub user : Pubkey
  pub startup_funding : TransactionOutcome
  pub outcome : UserFlowOutcome
  pub token_returns : List TransactionOutcome
  pub lamports_returned : ℕ
  pub lamport_return : Option TransactionOutcome

unfoldable pub orchestration_config : TransactionArgs → OrchestrationConfig
unfolding commitment_config
orchestration_config args = record {
  slippage_bps = args.slippage_bps;
  compute_unit_limit = args.compute_unit_limit;
  priority_fee_micro_lamports = args.priority_fee_micro_lamports;
  confirmation_commitment = commitment_config args.commitment;
}

unfoldable pub submission_config : TransactionArgs → SubmissionConfig
unfolding commitment_config
submission_config args =
    with_defaults args.compute_unit_limit args.priority_fee_micro_lamports
      (commitment_config args.commitment)

-- The chain, the environment and the files, and the libraries that the orchestrator calls.
pub record Host (P C B T K W : Type 0) : Type 0 where
  pub node : Node W
  pub clmm : Clmm P C B T K
  pub programs : Programs P C B T
  pub get_slot : W → Result String ℕ × W
  pub get_account : Pubkey → W → Result String Account × W
  pub get_account_with_commitment : Pubkey → ℕ → W → Result String (Option Account) × W
  pub get_balance : Pubkey → W → Result String ℕ × W
  -- The directory of the recovery files is made and restricted; the file of a user is written, and
  -- removed.
  pub make_recovery_dir : W → Result String (Unit {0}) × W
  pub save_recovery : Pubkey → W → Result String (Unit {0}) × W
  pub remove_recovery : Pubkey → W → Result String (Unit {0}) × W
  pub env_var : String → Result String String
  -- `serde_json::from_str` of a list of bytes, and `Keypair::try_from`.
  pub parse_bytes : String → Result String Bytes
  pub keypair_of : Bytes → Result String Pubkey

-- A call that reports its error as a text.
unfoldable pub calling :
    {W A : Type 0} → Message → (W → Result String A × W) → Task ServiceFault W A
calling m f w =
    let (r, w') = f w in
    elim r [
      | ok a ↦ (ok a, w')
      | err e ↦ (err (quits (ServiceError.while_doing m (ServiceError.reported e))), w')
    ]

-- The result of a step as a value; a panic is none.
unfoldable pub attempt :
    {W A : Type 0} → Task ServiceFault W A → Task ServiceFault W (Result ServiceError A)
attempt m w =
    let (r, w') = m w in
    elim r [
      | ok a ↦ (ok (ok a), w')
      | err f ↦ elim f [ quits e ↦ (ok (err e), w') | panicked ↦ (err panicked, w') ]
    ]

-- `?` on a result that was kept, with what was being done.
abbrev pub kept : {A : Type 0} → Message → Result ServiceError A → Result ServiceFault A
kept m (ok a) = ok a
kept m (err e) = err (quits (ServiceError.while_doing m e))
