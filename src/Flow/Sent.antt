-- ===== src/Flow/Sent.antt =====
-- crates/raydium-clmm-orchestrator/src/lib.rs: what each operation sends.
use testnet_testsuite.Prelude.{List, [], ◌∷◌, append-nil, inl, inr, sym, ◌∙◌, arith, Result-cases}
use testnet_testsuite.Decimal.{Decimal}
use testnet_testsuite.Raydium.Types.{Pubkey, Instruction}
use testnet_testsuite.Raydium.Monad.{M}
use testnet_testsuite.Raydium.Once.{IsLogged, IsOnce}
use testnet_testsuite.Raydium.Failures.{IsNodeLogged}
use testnet_testsuite.Raydium.Sent.{
  swap-IsOnce, open_position-IsOnce, increase_liquidity-IsOnce, decrease_liquidity-IsOnce,
  collect_position-IsOnce, close_position-IsOnce, create_pool-IsOnce,
}
use testnet_testsuite.Flow.Types.{Orchestrator, UserFlowParams, PoolCreationParams}
use testnet_testsuite.Flow.Steps.{
  client_call, fetch, validate_prerequisites, submit_funding, fund_payer, create_pool_flow,
  run_user_flow,
}
use testnet_testsuite.Flow.Counting.{IsSending, stepping}

module _ {P C B T K W : Type 0} (self : Orchestrator P C B T K W)
    (sent : W → List (List Instruction)) (l : IsLogged self.client.chain sent)
    (n : IsNodeLogged self.node sent) where
  client_call-IsSending :
      {A : Type 0} (m : M W A) → IsOnce sent m → IsSending sent 1 1 (client_call m)
  unfolding IsSending IsOnce client_call
  client_call-IsSending m h w = elim (Result-cases (m w).0) [
    | inl (a, e) ↦ elim (h w) [
      | inl ((x, f), s) ↦ cc
      | inr (ixs, s) ↦ rw (e, client_call) (ixs ∷ [], s, omega arith, λ b q. omega arith)
    ]
    | inr (x, e) ↦ elim (h w) [
      | inl (f, s) ↦ rw (e, client_call) ([], s ∙ sym (append-nil (sent w)), omega arith, λ b q. cc)
      | inr (ixs, s) ↦ rw (e, client_call) (ixs ∷ [], s, omega arith, λ b q. omega arith)
    ]
  ]

  fetch-IsSending : (keys : List Pubkey) → IsSending sent 0 0 (fetch self.node keys)
  unfolding IsSending fetch
  fetch-IsSending keys w = elim (Result-cases (self.node.get_multiple_accounts keys w).0) [
    | inl (a, e) ↦
        rw (e, fetch)
          ([], n.reads keys w ∙ sym (append-nil (sent w)), omega arith, λ b q. omega arith)
    | inr (x, e) ↦
        rw (e, fetch)
          ([], n.reads keys w ∙ sym (append-nil (sent w)), omega arith, λ b q. omega arith)
  ]

  submit_funding-IsSending :
      (instructions : List Instruction) → IsSending sent 1 1 (submit_funding self instructions)
  unfolding IsSending submit_funding
  submit_funding-IsSending instructions w =
      let r =
        self.node.submit instructions self.payer (self.mint_authority ∷ []) self.funding_submission
          w in
      let h =
        n.submits instructions self.payer (self.mint_authority ∷ []) self.funding_submission w in
      elim (Result-cases r.0) [
        | inl (a, e) ↦ elim h [
          | inl ((x, f), s) ↦ cc
          | inr s ↦ rw (e, submit_funding) (instructions ∷ [], s, omega arith, λ b q. omega arith)
        ]
        | inr (x, e) ↦ elim h [
          | inl (f, s) ↦
              rw (e, submit_funding) ([], s ∙ sym (append-nil (sent w)), omega arith, λ b q. cc)
          | inr s ↦ rw (e, submit_funding) (instructions ∷ [], s, omega arith, λ b q. omega arith)
        ]
      ]

  validate_prerequisites-IsSending :
      (amm_config : Pubkey) → IsSending sent 0 0 (validate_prerequisites self amm_config)
  unfolding validate_prerequisites
  validate_prerequisites-IsSending amm_config =
      search (stepping, fetch-IsSending) depth 30 fits 2000

  module _ {D : Type 0} ⦃d : Decimal D⦄ where
    fund_payer-IsSending :
        (mint_a : Pubkey) (amount_a : D) (mint_b : Pubkey) (amount_b : D)
        → IsSending sent 1 1 (fund_payer self mint_a amount_a mint_b amount_b)
    unfolding fund_payer
    fund_payer-IsSending mint_a amount_a mint_b amount_b =
        search (stepping, fetch-IsSending, submit_funding-IsSending) depth 40 fits 4000

    -- Creating a pool sends at most one transaction, and exactly one if it succeeds, on a chain where
    -- only a submission sends.
    pub create_pool_flow-IsSending :
        (params : PoolCreationParams D) → IsSending sent 1 1 (create_pool_flow self params)
    unfolding create_pool_flow
    create_pool_flow-IsSending params =
        search
          (
            stepping,
            client_call-IsSending,
            create_pool-IsOnce self.client sent l,
            validate_prerequisites-IsSending,
          )
          depth 40 fits 4000

    -- The flow of a user sends at most eight transactions, and exactly eight if it succeeds, on a
    -- chain where only a submission sends.
    pub run_user_flow-IsSending :
        (params : UserFlowParams D) → IsSending sent 8 8 (run_user_flow self params)
    unfolding run_user_flow
    run_user_flow-IsSending params =
        search
          (
            stepping,
            client_call-IsSending,
            fund_payer-IsSending,
            validate_prerequisites-IsSending,
            open_position-IsOnce self.client sent l,
            increase_liquidity-IsOnce self.client sent l,
            swap-IsOnce self.client sent l,
            decrease_liquidity-IsOnce self.client sent l,
            collect_position-IsOnce self.client sent l,
            close_position-IsOnce self.client sent l,
          )
          depth 80 fits 6000
