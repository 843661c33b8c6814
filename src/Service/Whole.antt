-- ===== src/Service/Whole.antt =====
-- services/raydium-clmm-orchestrator/src/main.rs: how many transactions the commands send, from the
-- mints that they are given.
use testnet_testsuite.Prelude.{
  suc, ◌*◌, String, List, [], ◌∷◌, ◌≡◌, ap, arith, length, ok, inl, inr, Bool-cases, Result-cases,
  ltb, ok-injective, >>=-eq-ok, sym, ◌∙◌,
}
use testnet_testsuite.Decimal.{Decimal}
use testnet_testsuite.Raydium.Types.{Pubkey, Instruction}
use testnet_testsuite.Raydium.Programs.{Programs}
use testnet_testsuite.Flow.Steps.{derive_pool_address}
use testnet_testsuite.Flow.Counting.{IsSending, IsSending-weaken, still_then, lift_then}
use testnet_testsuite.Service.Types.{Host, UserPool, UserFlowArgs, CreatePoolsArgs}
use testnet_testsuite.Service.Mints.{to_set, unique_mints, unordered_pairs, user_pools}
use testnet_testsuite.Service.Returns.{IsHostLogged}
use testnet_testsuite.Service.Counts.{new_orchestrator-IsLogged}
use testnet_testsuite.Service.Totals.{
  connected_chain-IsSending, execute_on-IsSending, create_each-IsSending,
}
use testnet_testsuite.Service.Commands.{execute_user_flows, create_all_pools}

unique_mints-to_set :
    (mints keys : List Pubkey) (source : String)
    → unique_mints mints source ≡ ok keys
    → keys ≡ to_set mints
unfolding unique_mints
unique_mints-to_set mints keys source h = elim (Bool-cases (ltb (length (to_set mints)) 2)) [
  | inl e ↦ absurd (cc (rw (e, unique_mints) at h))
  | inr e ↦ sym (ok-injective (rw (e, unique_mints) at h))
]

length-user_pools :
    {P C B T : Type 0} (programs : Programs P C B T) (program_id amm_config : Pubkey)
    (pairs : List (Pubkey × Pubkey)) (pools : List UserPool)
    → user_pools programs program_id amm_config pairs ≡ ok pools
    → length pools ≡ length pairs
unfolding user_pools
length-user_pools programs program_id amm_config [] pools h = ap length (sym (ok-injective h))
length-user_pools programs program_id amm_config ((a, b) ∷ pairs) pools h =
    elim (Result-cases (derive_pool_address programs program_id amm_config a b)) [
      | inr (x, e) ↦ absurd (cc (rw (e, user_pools) at h))
      | inl (pool, e) ↦
          let (rest, f, g) =
            >>=-eq-ok (user_pools programs program_id amm_config pairs) _
              (rw (e, user_pools) at h) in
          ap length (sym (ok-injective g))
          ∙ ap suc (length-user_pools programs program_id amm_config pairs rest f)
    ]

module _ {P C B T K W : Type 0} (host : Host P C B T K W) (sent : W → List (List Instruction))
    (l : IsHostLogged host sent) {D : Type 0} ⦃d : Decimal D⦄ where
  -- The command that runs the users sends at most twelve transactions for each pair of different
  -- mints among those given, and at least nine for each if it succeeds, on a host where only a
  -- submission is logged.
  pub execute_user_flows-IsSending :
      (args : UserFlowArgs D)
      → let pairs = length (unordered_pairs (to_set args.mints)) in
        IsSending sent (9 * pairs) (12 * pairs) (execute_user_flows host args)
  unfolding execute_user_flows
  execute_user_flows-IsSending args =
      let pairs = length (unordered_pairs (to_set args.mints)) in
      lift_then sent _ _ _ _ (λ faucet e1. lift_then sent _ _ _ _ (λ authority e2.
        lift_then sent _ _ _ _ (λ program_id e3. lift_then sent _ _ _ _ (λ keys e4.
          lift_then sent _ _ _ _ (λ pools e5.
            let count =
              length-user_pools host.programs program_id args.amm_config _ pools e5
              ∙ ap (λ x. length (unordered_pairs x))
                  (unique_mints-to_set args.mints keys "--mint" e4) in
            IsSending-weaken sent _ (9 * length pools) (12 * length pools) _ _ (omega arith)
              (omega arith)
              (execute_on-IsSending host sent l program_id faucet authority args pools))))))

  -- The command that creates the pools sends at most one transaction for each pair of different mints
  -- among those given, and exactly one for each if it succeeds, on a host where only a submission
  -- is logged.
  pub create_all_pools-IsSending :
      (args : CreatePoolsArgs D)
      → let pairs = length (unordered_pairs (to_set args.mints)) in
        IsSending sent pairs pairs (create_all_pools host args)
  unfolding create_all_pools
  create_all_pools-IsSending args = lift_then sent _ _ _ _ (λ payer e1.
      lift_then sent _ _ _ _ (λ program_id e2. lift_then sent _ _ _ _ (λ keys e3.
        still_then sent _ _ _ _
          (connected_chain-IsSending host sent l args.rpc_url args.transaction.commitment)
          (λ u. lift_then sent _ _ _ _ (λ orchestrator e4.
            let (client_logged, node_logged) =
              new_orchestrator-IsLogged host sent l program_id payer payer _ orchestrator e4 in
            let count =
              ap (λ x. length (unordered_pairs x))
                (unique_mints-to_set args.mints keys "--mint" e3) in
            let pairs = length (unordered_pairs keys) in
            IsSending-weaken sent _ pairs pairs _ _ (omega arith) (omega arith) (
              create_each-IsSending host sent l orchestrator args (unordered_pairs keys)
                client_logged node_logged))))))
