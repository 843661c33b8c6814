-- ===== src/Service/Totals.antt =====
-- services/raydium-clmm-orchestrator/src/main.rs: how many transactions a command sends in all.
use testnet_testsuite.Prelude.{
  String, suc, ◌+◌, ◌*◌, List, [], ◌∷◌, ◌≡◌, refl, ap, arith, length, sym, ◌∙◌, append-nil,
}
use testnet_testsuite.Decimal.{Decimal}
use testnet_testsuite.Raydium.Types.{Pubkey, Instruction}
use testnet_testsuite.Raydium.Failures.{IsNodeLogged}
use testnet_testsuite.Raydium.Once.{IsLogged}
use testnet_testsuite.Flow.Types.{Orchestrator}
use testnet_testsuite.Flow.Sent.{create_pool_flow-IsSending}
use testnet_testsuite.Flow.Counting.{
  IsSending, IsPosting, >>=-IsPosting, IsSending-IsPosting, IsPosting-IsSending, >>=-IsSending,
  IsPosting-weaken, pure-IsPosting, pure-IsSending, still_then, map_err-IsSending, stepping,
}
use testnet_testsuite.Service.Types.{
  ServiceFault, Host, UserPool, UserFlowArgs, CreatePoolsArgs, Commitment, submission_config,
}
use testnet_testsuite.Service.Returns.{IsHostLogged, calling-IsSending}
use testnet_testsuite.Service.Users.{fresh_key, new_users}
use testnet_testsuite.Service.Counts.{fund_users-IsPosting, run_users-IsSending}
use testnet_testsuite.Service.Commands.{connected_chain, create_each, execute_on}

module _ {P C B T K W : Type 0} (host : Host P C B T K W) (sent : W → List (List Instruction))
    (l : IsHostLogged host sent) where
  fresh_key-IsPosting : IsPosting sent 0 (λ key k. k ≡ 0) (fresh_key host)
  unfolding IsPosting fresh_key
  fresh_key-IsPosting w = ([], l.node.keys w ∙ sym (append-nil (sent w)), omega arith, λ b e. refl)

  pub connected_chain-IsSending :
      (rpc_url : String) (commitment : Commitment)
      → IsSending sent 0 0 (connected_chain host rpc_url commitment)
  unfolding connected_chain
  connected_chain-IsSending rpc_url commitment =
      search (stepping, calling-IsSending host sent, l.slots) depth 20 fits 2000

  new_users-IsPosting :
      (pools : List UserPool)
      → IsPosting sent 0 (λ users k. length users ≡ length pools) (new_users host pools)
  unfolding new_users
  new_users-IsPosting [] = pure-IsPosting sent ServiceFault [] 0 _ refl
  new_users-IsPosting (pool ∷ pools) =
      >>=-IsPosting sent _ _ 0 0 _ _ (omega arith) fresh_key-IsPosting (λ user j zero le. (
        0,
        omega arith,
        >>=-IsPosting sent _ _ 0 0 _ _ (omega arith) (new_users-IsPosting pools)
            (λ users k same le2.
              (0, omega arith, pure-IsPosting sent ServiceFault _ 0 _ (ap suc same))),
      ))

  module _ {D : Type 0} ⦃d : Decimal D⦄ where
    -- Running a user over each of some pools sends at most twelve transactions for each pool, and at
    -- least nine for each if it succeeds, on a host where only a submission is logged.
    pub execute_on-IsSending :
        (program_id faucet mint_authority : Pubkey) (args : UserFlowArgs D) (pools : List UserPool)
        → IsSending sent
            (9 * length pools)
            (12 * length pools)
            (execute_on host program_id faucet mint_authority args pools)
    unfolding execute_on
    execute_on-IsSending program_id faucet mint_authority args pools =
        still_then sent _ _ _ _ (connected_chain-IsSending args.rpc_url args.transaction.commitment)
          (λ u. still_then sent _ _ _ _ (calling-IsSending host sent _ _ l.directories) (λ v.
            IsPosting-IsSending sent _ (9 * length pools) (12 * length pools) (
              >>=-IsPosting sent _ _ 0 _ _ _ (omega arith) (new_users-IsPosting pools)
                (λ users j same le. (
                  12 * length pools,
                  omega arith,
                  >>=-IsPosting sent _ _ (4 * length users + 3 * 0) _ _ _ (omega (arith, same))
                      (fund_users-IsPosting host sent l faucet args.user_lamports
                        (submission_config args.transaction) users [])
                      (λ funded i both le2.
                        let (lengths, count) = both in
                        (
                          11 * length funded,
                          omega (arith, same),
                          IsPosting-weaken sent _ _ _ _ _ (omega arith)
                              (IsSending-IsPosting sent _ (8 * length funded) _ (
                                run_users-IsSending host sent l program_id faucet mint_authority
                                  args funded))
                              (λ b k least. omega (arith, same)),
                        )),
                )))))

    -- Creating the pools of some pairs sends at most one transaction for each pair, and exactly one
    -- for each if it succeeds, on a host where only a submission is logged.
    pub create_each-IsSending :
        (o : Orchestrator P C B T K W) (args : CreatePoolsArgs D) (pairs : List (Pubkey × Pubkey))
        → IsLogged o.client.chain sent
        → IsNodeLogged o.node sent
        → IsSending sent (length pairs) (length pairs) (create_each host o args pairs)
    unfolding create_each
    create_each-IsSending o args [] g n = search stepping
    create_each-IsSending o args ((mint_a, mint_b) ∷ pairs) g n =
        >>=-IsSending sent _ _ 1 1 (length pairs) (length pairs) _ _ (omega arith) (omega arith)
          (omega arith) (map_err-IsSending sent _ _ 1 1 (create_pool_flow-IsSending o sent g n _))
          (λ outcome.
            >>=-IsSending sent _ _ (length pairs) (length pairs) 0 0 _ _ (omega arith) (omega arith)
              (omega arith) (create_each-IsSending o args pairs g n)
              (λ outcomes. pure-IsSending sent ServiceFault _))
