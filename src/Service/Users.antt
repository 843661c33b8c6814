-- ===== src/Service/Users.antt =====
-- services/raydium-clmm-orchestrator/src/main.rs: the users of `execute_user_flows`, funded one after
-- the other and then run one after the other. The second loop of the source names the recovery file
-- of the first, which is not in scope there; the model removes the file of the user at hand.
use testnet_testsuite.Prelude.{ℕ, List, [], ◌∷◌, ◌++◌, Result, ok, err}
use testnet_testsuite.Decimal.{Decimal}
use testnet_testsuite.Chain.Submit.{SubmissionConfig}
use testnet_testsuite.Raydium.Types.{Pubkey, text, TransactionOutcome}
use testnet_testsuite.Flow.Types.{FlowFault, UserFlowParams}
use testnet_testsuite.Flow.Steps.{new_orchestrator, run_user_flow}
use testnet_testsuite.Flow.Task.{Task, ◌>>=◌, ◌>>◌, lift, pure, map_err}
use testnet_testsuite.Service.Types.{
  ServiceError, ServiceFault, quits, of_flow, Host, UserFlowArgs, UserPool, UserFlowRun, calling,
  attempt, kept, orchestration_config, submission_config,
}
use testnet_testsuite.Service.Reclaim.{transfer_lamports, reclaim_user_funds}

-- A pool, its user, and the transaction that gave the user its lamports.
abbrev pub FundedUser : Type 0
FundedUser = UserPool × Pubkey × TransactionOutcome

-- `RaydiumClmmOrchestrator::new(..)?`.
abbrev pub flow_result : {A : Type 0} → Result FlowFault A → Result ServiceFault A
flow_result (ok a) = ok a
flow_result (err e) = err (of_flow e)

-- What a user is asked to do over its pool.
abbrev pub flow_params : {D : Type 0} → UserFlowArgs D → UserPool → UserFlowParams D
flow_params args pool = record {
  amm_config = args.amm_config;
  pool = pool.pool;
  mint_a = pool.mint_a;
  mint_b = pool.mint_b;
  funding_a = args.funding_a;
  funding_b = args.funding_b;
  lower_price = args.lower_price;
  upper_price = args.upper_price;
  open_amount = args.open_amount;
  increase_amount = args.increase_amount;
  exact_in_amount = args.exact_in_amount;
  exact_out_amount = args.exact_out_amount;
  with_metadata = args.with_metadata;
}

module _ {P C B T K W : Type 0} (host : Host P C B T K W) where
  -- `Keypair::new()`.
  unfoldable pub fresh_key : Task ServiceFault W Pubkey
  fresh_key w = let (key, w') = host.node.new_keypair w in (ok key, w')

  -- `(pool, Arc::new(Keypair::new()))` for each pool.
  unfoldable pub new_users : List UserPool → Task ServiceFault W (List (UserPool × Pubkey))
  unfolding fresh_key
  new_users [] = pure []
  new_users (pool ∷ pools) = do
    user ← fresh_key
    users ← new_users pools
    pure ((pool, user) ∷ users)

  -- `let _ = reclaim_user_funds(..).await` for each user.
  unfoldable pub reclaim_each :
      (faucet : Pubkey) → SubmissionConfig → List FundedUser → Task ServiceFault W (Unit {0})
  reclaim_each faucet submission [] = pure tt
  reclaim_each faucet submission ((pool, user, _) ∷ users) = do
    _ ← attempt (reclaim_user_funds host faucet user (pool.mint_a ∷ pool.mint_b ∷ []) submission)
    reclaim_each faucet submission users

  -- The first loop. A user that cannot be funded ends it, after the funds of those before are
  -- reclaimed.
  unfoldable pub fund_users :
      (faucet : Pubkey)
      → ℕ
      → SubmissionConfig
      → List (UserPool × Pubkey)
      → List FundedUser
      → Task ServiceFault W (List FundedUser)
  fund_users faucet lamports submission [] funded = pure funded
  fund_users faucet lamports submission ((pool, user) ∷ users) funded = do
    calling (text "save recovery keypair") (host.save_recovery user)
    startup_funding ← attempt (transfer_lamports host faucet faucet user lamports submission)
    elim startup_funding [
      | ok outcome ↦
          fund_users faucet lamports submission users (funded ++ (pool, user, outcome) ∷ [])
      | err e ↦
          reclaim_each faucet submission funded
          >> lift (
              err (
                quits
                  (ServiceError.while_doing (text "fund ephemeral user from KEYPAIR_FAUCET") e)))
    ]

  module _ {D : Type 0} ⦃d : Decimal D⦄ where
    -- One round of the second loop.
    unfoldable pub run_user :
        (program_id faucet mint_authority : Pubkey)
        → UserFlowArgs D
        → FundedUser
        → Task ServiceFault W UserFlowRun
    unfolding orchestration_config submission_config
    run_user program_id faucet mint_authority args (pool, user, startup_funding) = do
      orchestrator ← lift (
          flow_result (
            new_orchestrator host.node host.clmm host.programs program_id user mint_authority
              (orchestration_config args.transaction)))
      flow ← attempt (map_err of_flow (run_user_flow orchestrator (flow_params args pool)))
      recovery ← attempt (
          reclaim_user_funds host faucet user (pool.mint_a ∷ pool.mint_b ∷ [])
            (submission_config args.transaction))
      outcome ← lift (kept (text "run Raydium CLMM user flow") flow)
      (token_returns, lamports_returned, lamport_return) ←
          lift (kept (text "return ephemeral user funds to KEYPAIR_FAUCET") recovery)
      calling (text "remove recovered keypair") (host.remove_recovery user)
      pure (record {
        pool = pool;
        user = user;
        startup_funding = startup_funding;
        outcome = outcome;
        token_returns = token_returns;
        lamports_returned = lamports_returned;
        lamport_return = lamport_return;
      })

    -- The second loop.
    unfoldable pub run_users :
        (program_id faucet mint_authority : Pubkey)
        → UserFlowArgs D
        → List FundedUser
        → Task ServiceFault W (List UserFlowRun)
    run_users program_id faucet mint_authority args [] = pure []
    run_users program_id faucet mint_authority args (user ∷ users) = do
      run ← run_user program_id faucet mint_authority args user
      runs ← run_users program_id faucet mint_authority args users
      pure (run ∷ runs)
