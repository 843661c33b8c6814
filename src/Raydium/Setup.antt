-- ===== src/Raydium/Setup.antt =====
-- crates/raydium-clmm-client/src/lib.rs: the construction of a client and its submission, and the
-- default settings of crates/mtm-chain/src/lib.rs. The chain client is a parameter, `Node`.
use testnet_testsuite.Prelude.{
  ℕ, String, List, [], ◌∷◌, Option, Result, ok, err, ◌>>◌, fail_if, ltb, ◌==◌,
}
use testnet_testsuite.Chain.Submit.{SubmissionConfig, SubmissionOutcome, SubmissionError}
use testnet_testsuite.Raydium.Types.{
  Pubkey, Message, text, words, number, RaydiumClmmError, Fault, fails, Account, Instruction,
  TransactionOutcome,
}
use testnet_testsuite.Raydium.External.{Clmm}
use testnet_testsuite.Raydium.Programs.{Programs}
use testnet_testsuite.Raydium.Amounts.{invalid}
use testnet_testsuite.Raydium.Monad.{M, ChainApi, Client}

-- `ChainClient`, as its callers see it.
pub record Node (W : Type 0) : Type 0 where
  pub get_multiple_accounts : List Pubkey → W → Result String (List (Option Account)) × W
  pub get_epoch : W → Result String ℕ × W
  pub new_keypair : W → Pubkey × W
  -- instructions, payer, additional signers
  pub submit :
      List Instruction
      → Pubkey
      → List Pubkey
      → SubmissionConfig
      → W
      → Result SubmissionError SubmissionOutcome × W

-- `CommitmentConfig`, as a number.
abbrev pub processed : ℕ
processed = 0

abbrev pub confirmed : ℕ
confirmed = 1

abbrev pub finalized : ℕ
finalized = 2

-- Times are in milliseconds.
abbrev pub default_submission : SubmissionConfig
default_submission = record {
  compute_unit_limit = 1_400_000;
  compute_unit_price_micro_lamports = 0;
  commitment = confirmed;
  max_send_attempts = 3;
  confirmation_timeout = 45_000;
  poll_interval = 500;
}

-- The settings asked for, and the default attempts and times.
abbrev pub with_defaults : (unit_limit fee commitment : ℕ) → SubmissionConfig
with_defaults unit_limit fee commitment = record {
  compute_unit_limit = unit_limit;
  compute_unit_price_micro_lamports = fee;
  commitment = commitment;
  max_send_attempts = default_submission.max_send_attempts;
  confirmation_timeout = default_submission.confirmation_timeout;
  poll_interval = default_submission.poll_interval;
}

-- `to_string` of an error.
unfoldable pub error_text : SubmissionError → Message
error_text (SubmissionError.blockhash e) =
    words "failed to obtain a recent blockhash: " ∷ words e ∷ []
error_text (SubmissionError.signing e) = words "failed to sign transaction: " ∷ words e ∷ []
error_text (SubmissionError.simulation_rpc e) =
    words "transaction simulation RPC failed: " ∷ words e ∷ []
error_text (SubmissionError.simulation e logs) =
    words "transaction simulation failed: " ∷ words e ∷ []
error_text (SubmissionError.submission e) = words "transaction submission failed: " ∷ words e ∷ []
error_text (SubmissionError.execution signature slot e) =
    words "transaction "
    ∷ number signature
    ∷ words " failed in slot "
    ∷ number slot
    ∷ words ": "
    ∷ words e
    ∷ []
error_text (SubmissionError.ambiguous_confirmation signature reason) =
    words "transaction confirmation is ambiguous for "
    ∷ number signature
    ∷ words ": "
    ∷ words reason
    ∷ []

unfoldable pub classify : SubmissionError → RaydiumClmmError
unfolding error_text
classify (SubmissionError.simulation e logs) = RaydiumClmmError.simulation_failure (text e) logs
classify (SubmissionError.simulation_rpc e) = RaydiumClmmError.simulation_failure (text e) []
classify (SubmissionError.ambiguous_confirmation signature reason) =
    RaydiumClmmError.ambiguous_confirmation signature (text reason)
classify e = RaydiumClmmError.submission_failure (error_text e)

abbrev pub transaction_outcome : SubmissionOutcome → TransactionOutcome
transaction_outcome outcome = record {
  signature = outcome.signature;
  confirmation_slot = outcome.confirmation_slot;
  simulated_compute_units = outcome.simulated_compute_units;
}

module _ {W : Type 0} (node : Node W) where
  unfoldable pub submit :
      Pubkey → SubmissionConfig → List Instruction → List Pubkey → M W TransactionOutcome
  submit payer submission instructions additional_signers w =
      let (r, w') = node.submit instructions payer additional_signers submission w in
      elim r [
        | ok outcome ↦ (ok (transaction_outcome outcome), w')
        | err e ↦ (err (fails (classify e)), w')
      ]

  abbrev pub api : Pubkey → SubmissionConfig → ChainApi W
  api payer submission = record {
    get_multiple_accounts = node.get_multiple_accounts;
    get_epoch = node.get_epoch;
    new_keypair = node.new_keypair;
    submit = submit payer submission;
  }

  -- The client that `new` makes.
  abbrev pub client_of :
      {P C B T K : Type 0}
      → Clmm P C B T K
      → Programs P C B T
      → (program_id payer : Pubkey) → (slippage_bps unit_limit fee commitment : ℕ)
      → Client P C B T K W
  client_of clmm programs program_id payer slippage_bps unit_limit fee commitment = record {
    clmm = clmm;
    programs = programs;
    chain = api payer (with_defaults unit_limit fee commitment);
    program_id = program_id;
    payer = payer;
    slippage_bps = slippage_bps;
  }

  -- `RaydiumClmmClient::new`.
  unfoldable pub new_client :
      {P C B T K : Type 0}
      → Clmm P C B T K
      → Programs P C B T
      → (program_id payer : Pubkey) → (slippage_bps unit_limit fee commitment : ℕ)
      → Result Fault (Client P C B T K W)
  new_client clmm programs program_id payer slippage_bps unit_limit fee commitment = do
    fail_if (ltb 10_000 slippage_bps) (invalid (text "slippage_bps cannot exceed 10,000"))
    fail_if (unit_limit == 0) (invalid (text "compute_unit_limit must be greater than zero"))
    ok (client_of clmm programs program_id payer slippage_bps unit_limit fee commitment)
