-- ===== src/Service/Reclaim.antt =====
-- services/raydium-clmm-orchestrator/src/main.rs: the transfers to and from the users.
use testnet_testsuite.Prelude.{
  ℕ, List, [], ◌∷◌, ◌++◌, Option, none, some, ok, err, ok_or, fail_if, if◌then◌else◌, ltb, ◌==◌,
  get_elem?,
}
use testnet_testsuite.Chain.Submit.{SubmissionConfig}
use testnet_testsuite.Raydium.Types.{
  Pubkey, text, words, address, Account, Instruction, TransactionOutcome,
}
use testnet_testsuite.Raydium.Setup.{transaction_outcome}
use testnet_testsuite.Flow.Mints.{associated_token_address, create_ata_instruction}
use testnet_testsuite.Flow.Task.{Task, ◌>>=◌, ◌>>◌, lift, pure}
use testnet_testsuite.Service.Types.{ServiceError, ServiceFault, quits, Host, Recovery, calling}
use testnet_testsuite.Service.Transfers.{
  system_transfer_instruction, transfer_checked_instruction, close_token_account_instruction,
  token_account_amount,
}

module _ {P C B T K W : Type 0} (host : Host P C B T K W) where
  -- `chain.submit(..)` with its outcome as a `TransactionOutcome`.
  unfoldable pub send :
      List Instruction
      → (fee_payer : Pubkey) → (signers : List Pubkey) → SubmissionConfig
      → Task ServiceFault W TransactionOutcome
  send instructions fee_payer signers submission w =
      let (r, w') = host.node.submit instructions fee_payer signers submission w in
      elim r [
        | ok outcome ↦ (ok (transaction_outcome outcome), w')
        | err e ↦ (err (quits (ServiceError.submission e)), w')
      ]

  unfoldable pub transfer_lamports :
      (fee_payer source destination : Pubkey)
      → ℕ
      → SubmissionConfig
      → Task ServiceFault W TransactionOutcome
  transfer_lamports fee_payer source destination lamports submission = do
    lift (
        fail_if (lamports == 0)
          (quits (ServiceError.bails (text "lamport transfer amount must be greater than zero"))))
    send (system_transfer_instruction source destination lamports ∷ []) fee_payer (source ∷ [])
        submission

  -- What returns a balance: the faucet's account, the transfer of all that is there, the closing.
  unfoldable pub return_instructions :
      (faucet user mint token_program source : Pubkey) → (amount decimals : ℕ) → List Instruction
  return_instructions faucet user mint token_program source amount decimals =
      let destination = associated_token_address host.programs faucet mint token_program in
      create_ata_instruction host.programs faucet faucet mint token_program destination
        ∷ (if ltb 0 amount
            then transfer_checked_instruction source mint destination user token_program amount
                decimals
              ∷ []
            else [])
      ++ close_token_account_instruction source faucet user token_program ∷ []

  -- With the account of the user's tokens.
  unfoldable pub return_found :
      (faucet user mint : Pubkey)
      → (mint_account : Account) → Option Account
      → SubmissionConfig
      → Task ServiceFault W (Option TransactionOutcome)
  return_found faucet user mint mint_account none submission = pure none
  return_found faucet user mint mint_account (some source_account) submission = do
    let source = associated_token_address host.programs user mint mint_account.owner
    amount ← lift (token_account_amount source_account.content source)
    decimals ← lift (
        ok_or (get_elem? mint_account.content 44) (
          quits (
            ServiceError.bails
              (words "mint " ∷ address mint ∷ words " is too short to contain decimals" ∷ []))))
    outcome ←
        send (return_instructions faucet user mint mint_account.owner source amount decimals) faucet
          (user ∷ []) submission
    pure (some outcome)

  unfoldable pub return_token_balance :
      (faucet user mint : Pubkey)
      → SubmissionConfig
      → Task ServiceFault W (Option TransactionOutcome)
  return_token_balance faucet user mint submission = do
    mint_account ←
        calling (words "read mint " ∷ address mint ∷ words " for recovery" ∷ [])
          (host.get_account mint)
    let source = associated_token_address host.programs user mint mint_account.owner
    found ←
        calling (text "read ephemeral user token balance")
          (host.get_account_with_commitment source submission.commitment)
    return_found faucet user mint mint_account found submission

  abbrev pushed : List TransactionOutcome → Option TransactionOutcome → List TransactionOutcome
  pushed ts none = ts
  pushed ts (some t) = ts ++ t ∷ []

  -- The loop over the mints, with the transactions so far.
  unfoldable pub return_tokens :
      (faucet user : Pubkey)
      → List Pubkey
      → SubmissionConfig
      → List TransactionOutcome
      → Task ServiceFault W (List TransactionOutcome)
  return_tokens faucet user [] submission returned = pure returned
  return_tokens faucet user (mint ∷ mints) submission returned = do
    transaction ← return_token_balance faucet user mint submission
    return_tokens faucet user mints submission (pushed returned transaction)

  -- The lamports that are left, if any.
  unfoldable pub return_lamports :
      (faucet user : Pubkey)
      → ℕ
      → SubmissionConfig
      → Task ServiceFault W (Option TransactionOutcome)
  return_lamports faucet user lamports submission =
      if lamports == 0
      then pure none
      else (transfer_lamports faucet user faucet lamports submission >>= λ t. pure (some t))

  unfoldable pub reclaim_user_funds :
      (faucet user : Pubkey)
      → (mints : List Pubkey) → SubmissionConfig
      → Task ServiceFault W Recovery
  reclaim_user_funds faucet user mints submission = do
    token_returns ← return_tokens faucet user mints submission []
    lamports ← calling (text "read ephemeral user balance before recovery") (host.get_balance user)
    transaction ← return_lamports faucet user lamports submission
    pure (token_returns, lamports, transaction)
