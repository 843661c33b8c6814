-- ===== src/Service/Counts.antt =====
-- services/raydium-clmm-orchestrator/src/main.rs: how many transactions a command sends.
use mathlib.Core.Path.{subst}
use testnet_testsuite.Prelude.{
  ℕ, ◌+◌, ◌*◌, List, [], ◌∷◌, ◌++◌, Result, ok, err, ◌≡◌, inl, inr, refl, ap, Result-cases,
  ok-injective, arith, length, length-append,
}
use testnet_testsuite.Decimal.{Decimal}
use testnet_testsuite.Chain.Submit.{SubmissionConfig}
use testnet_testsuite.Raydium.Types.{Pubkey, Instruction}
use testnet_testsuite.Raydium.Failures.{IsNodeLogged, new_client-IsLogged}
use testnet_testsuite.Raydium.Once.{IsLogged}
use testnet_testsuite.Flow.Types.{FlowFault, OrchestrationConfig, Orchestrator}
use testnet_testsuite.Flow.Steps.{new_orchestrator}
use testnet_testsuite.Flow.Sent.{run_user_flow-IsSending}
use testnet_testsuite.Flow.Counting.{
  IsSending, IsPosting, >>=-IsPosting, IsSending-IsPosting, IsPosting-IsSending, >>=-IsSending,
  IsPosting-weaken, pure-IsPosting, lift-IsPosting, lift_err-IsPosting, err->>=-IsPosting,
  pure-IsSending, map_err-IsSending, stepping,
}
use testnet_testsuite.Service.Types.{ServiceFault, Host, UserPool, UserFlowArgs}
use testnet_testsuite.Service.Returns.{
  IsHostLogged, calling-IsSending, attempt-IsSending, attempt-IsPosting,
  transfer_lamports-IsSending, reclaim_user_funds-IsSending,
}
use testnet_testsuite.Service.Users.{
  FundedUser, flow_result, flow_params, reclaim_each, fund_users, run_user, run_users,
}

flow_result-eq-ok : {A : Type 0} (r : Result FlowFault A) {a : A} → flow_result r ≡ ok a → r ≡ ok a
flow_result-eq-ok (ok b) h = ap ok (ok-injective h)
flow_result-eq-ok (err e) h = cc

module _ {P C B T K W : Type 0} (host : Host P C B T K W) (sent : W → List (List Instruction))
    (l : IsHostLogged host sent) where
  reclaim_each-IsSending :
      (faucet : Pubkey) (c : SubmissionConfig) (users : List FundedUser)
      → IsSending sent 0 (3 * length users) (reclaim_each host faucet c users)
  unfolding reclaim_each
  reclaim_each-IsSending faucet c [] = search stepping
  reclaim_each-IsSending faucet c ((pool, user, t) ∷ users) =
      >>=-IsSending sent _ _ 0 3 0 (3 * length users) 0 _ (omega arith) (omega arith) (omega arith)
        (attempt-IsSending host sent _ 0 3
          (reclaim_user_funds-IsSending host sent l faucet user (pool.mint_a ∷ pool.mint_b ∷ []) c))
        (λ r. reclaim_each-IsSending faucet c users)

  -- The first loop sends one transaction for each user, or stops and reclaims.
  pub fund_users-IsPosting :
      (faucet : Pubkey) (lamports : ℕ) (c : SubmissionConfig) (users : List (UserPool × Pubkey))
      (funded : List FundedUser)
      → IsPosting sent
          (4 * length users + 3 * length funded)
          (λ all k. (length all ≡ length funded + length users) × (k ≡ length users))
          (fund_users host faucet lamports c users funded)
  unfolding fund_users
  fund_users-IsPosting faucet lamports c [] funded =
      pure-IsPosting sent ServiceFault funded _ _ (omega arith, refl)
  fund_users-IsPosting faucet lamports c ((pool, user) ∷ users) funded =
      >>=-IsPosting sent _ _ 0 _ _ _ (omega arith)
        (IsSending-IsPosting sent _ 0 0 (calling-IsSending host sent _ _ (l.saves user)))
        (λ a j g h. (
          4 * length ((pool, user) ∷ users) + 3 * length funded,
          omega arith,
          >>=-IsPosting sent _ _ 1 _ _ _ (omega arith)
              (attempt-IsPosting host sent _ 1 _ (
                IsSending-IsPosting sent _ 1 1
                  (transfer_lamports-IsSending host sent l faucet faucet user lamports c)))
              (λ r i post one. elim (Result-cases r) [
                | inl (t, e) ↦
                    let sent_one = post t e in
                    rw e (
                      4 * length users + 3 * length (funded ++ (pool, user, t) ∷ []),
                      omega (arith, length-append funded ((pool, user, t) ∷ [])),
                      IsPosting-weaken sent _ _ _ _ _ (omega arith)
                          (fund_users-IsPosting faucet lamports c users
                            (funded ++ (pool, user, t) ∷ []))
                          (λ all k both.
                            let (lengths, count) = both in
                            (
                              omega (arith, length-append funded ((pool, user, t) ∷ [])),
                              omega arith,
                            )),
                    )
                | inr (x, e) ↦ rw e (
                  3 * length funded,
                  omega arith,
                  >>=-IsPosting sent _ _ (3 * length funded) _ _ _ (omega arith)
                      (IsSending-IsPosting sent _ 0 _ (reclaim_each-IsSending faucet c funded))
                      (λ b k post le.
                        (0, omega arith, lift_err-IsPosting sent (List FundedUser) _ _)),
                )
              ]),
        ))

  -- An orchestrator that is made sees a chain where only a submission is logged.
  pub new_orchestrator-IsLogged :
      (program_id payer authority : Pubkey) (config : OrchestrationConfig)
      (o : Orchestrator P C B T K W)
      → flow_result
          (new_orchestrator host.node host.clmm host.programs program_id payer authority config)
        ≡ ok o
      → IsLogged o.client.chain sent × IsNodeLogged o.node sent
  unfolding new_orchestrator
  new_orchestrator-IsLogged program_id payer authority config o h =
      let h' = flow_result-eq-ok _ h in
      elim (new_client-IsLogged host.node sent host.clmm host.programs program_id payer
        config.slippage_bps config.compute_unit_limit config.priority_fee_micro_lamports
        config.confirmation_commitment l.node) [
          | inl (bad, (x, e)) ↦ absurd (cc (rw (e, new_orchestrator) at h'))
          | inr (narrow, some_left, (client, e, s1, s2, s3, logged)) ↦
              let made = ok-injective (rw (e, new_orchestrator) at h') in
              subst
                (λ (o : Orchestrator P C B T K W).
                  IsLogged o.client.chain sent × IsNodeLogged o.node sent)
                made (logged, l.node)
        ]

  module _ {D : Type 0} ⦃d : Decimal D⦄ where
    -- One user sends at most eleven transactions, and at least eight if it succeeds.
    run_user-IsSending :
        (program_id faucet mint_authority : Pubkey) (args : UserFlowArgs D) (user : FundedUser)
        → IsSending sent 8 11 (run_user host program_id faucet mint_authority args user)
    unfolding run_user
    run_user-IsSending program_id faucet mint_authority args (pool, user, t) =
        IsPosting-IsSending sent _ 8 11 (
          >>=-IsPosting sent _ _ 0 11 _ _ (omega arith)
            (lift-IsPosting sent _
              (λ (o : Orchestrator P C B T K W) k.
                IsLogged o.client.chain sent × IsNodeLogged o.node sent)
              (new_orchestrator-IsLogged program_id user mint_authority _))
            (λ o j logged zero. (
              11,
              omega arith,
              >>=-IsPosting sent _ _ 8 11 _ _ (omega arith)
                  (attempt-IsPosting host sent _ 8 _ (
                    IsSending-IsPosting sent _ 8 8 (
                      map_err-IsSending sent _ _ 8 8 (
                        run_user_flow-IsSending o sent logged.0 logged.1 (flow_params args pool)))))
                  (λ flow i post le. (
                    3,
                    omega arith,
                    elim (Result-cases flow) [
                      | inl (outcome, e) ↦
                          let eight = post outcome e in
                          rw e (
                            IsPosting-weaken sent _ 3 3 _ _ (omega arith)
                              (IsSending-IsPosting sent _ 0 3 (
                                >>=-IsSending sent _ _ 0 3 0 0 0 3 (omega arith) (omega arith)
                                  (omega arith)
                                  (attempt-IsSending host sent _ 0 3 (
                                    reclaim_user_funds-IsSending host sent l faucet user
                                      (pool.mint_a ∷ pool.mint_b ∷ []) _))
                                  (λ r.
                                    search (stepping, calling-IsSending host sent, l.removals) depth
                                      20 fits 2000)))
                              (λ b k any. omega arith))
                      | inr (x, e) ↦ rw e (
                          >>=-IsPosting sent _ _ 3 3 _ _ (omega arith)
                            (IsSending-IsPosting sent _ 0 3 (
                              attempt-IsSending host sent _ 0 3 (
                                reclaim_user_funds-IsSending host sent l faucet user
                                  (pool.mint_a ∷ pool.mint_b ∷ []) _)))
                            (λ r k any le. (0, omega arith, err->>=-IsPosting sent _ _ _)))
                    ],
                  )),
            )))

    pub run_users-IsSending :
        (program_id faucet mint_authority : Pubkey) (args : UserFlowArgs D)
        (users : List FundedUser)
        → IsSending sent
            (8 * length users)
            (11 * length users)
            (run_users host program_id faucet mint_authority args users)
    unfolding run_users
    run_users-IsSending program_id faucet mint_authority args [] = search stepping
    run_users-IsSending program_id faucet mint_authority args (user ∷ users) =
        >>=-IsSending sent _ _ 8 11 (8 * length users) (11 * length users) _ _ (omega arith)
          (omega arith) (omega arith)
          (run_user-IsSending program_id faucet mint_authority args user)
          (λ run.
            >>=-IsSending sent _ _ (8 * length users) (11 * length users) 0 0 _ _ (omega arith)
              (omega arith) (omega arith)
              (run_users-IsSending program_id faucet mint_authority args users)
              (λ runs. pure-IsSending sent ServiceFault _))
