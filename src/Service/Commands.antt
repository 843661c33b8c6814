-- ===== src/Service/Commands.antt =====
-- services/raydium-clmm-orchestrator/src/main.rs: the three commands. What they print is returned.
use testnet_testsuite.Prelude.{
  ℕ, String, List, [], ◌∷◌, Option, none, some, Result, ok, err, not, length, ◌==◌, string_eq,
  if◌then◌else◌,
}
use testnet_testsuite.Decimal.{Decimal}
use testnet_testsuite.Raydium.Types.{Pubkey, Message, text, words, EnsureAmmConfigOutcome}
use testnet_testsuite.Raydium.Setup.{processed, confirmed, finalized}
use testnet_testsuite.Flow.Types.{Orchestrator, PoolCreationOutcome}
use testnet_testsuite.Flow.Steps.{
  new_orchestrator, new_admin, create_pool_flow, admin_ensure_amm_config,
}
use testnet_testsuite.Flow.Task.{Task, ◌>>=◌, ◌>>◌, lift, pure, map_err}
use testnet_testsuite.Service.Types.{
  ServiceError, ServiceFault, quits, of_flow, in_context, Commitment, commitment_config,
  commitment_name, CreatePoolsArgs, UserFlowArgs, AdminArgs, UserPool, UserFlowRun, Host, calling,
  orchestration_config, submission_config,
}
use testnet_testsuite.Service.Mints.{unique_mints, unordered_pairs, user_pools}
use testnet_testsuite.Service.Users.{flow_result, new_users, fund_users, run_users}

-- `parse_commitment` of crates/mtm-chain/src/lib.rs.
unfoldable pub parse_commitment : String → Result ServiceFault ℕ
parse_commitment s =
    if string_eq.beq s "processed"
    then ok processed
    else if string_eq.beq s "confirmed"
    then ok confirmed
    else if string_eq.beq s "finalized"
    then ok finalized
    else err (quits (ServiceError.bails (words "unknown commitment level: " ∷ words s ∷ [])))

abbrev or_reported : {A : Type 0} → Message → Result String A → Result ServiceFault A
or_reported m (ok a) = ok a
or_reported m (err e) = err (quits (ServiceError.while_doing m (ServiceError.reported e)))

abbrev wrapped : {A : Type 0} → Message → Result ServiceFault A → Result ServiceFault A
wrapped m (ok a) = ok a
wrapped m (err e) = err (in_context m e)

module _ {P C B T K W : Type 0} (host : Host P C B T K W) where
  unfoldable pub keypair_from_encoded : String → Result ServiceFault Pubkey
  keypair_from_encoded encoded =
      elim (or_reported (text "keypair must be a JSON-encoded byte array")
        (host.parse_bytes encoded)) [
          | err e ↦ err e
          | ok bytes ↦
              if not (length bytes == 64)
              then err
                  (quits (ServiceError.bails (text "keypair must contain exactly 64 byte values")))
              else or_reported (text "invalid keypair bytes") (host.keypair_of bytes)
        ]

  unfoldable pub keypair_from_environment : String → Result ServiceFault Pubkey
  unfolding keypair_from_encoded
  keypair_from_environment name =
      elim (or_reported (words "environment variable " ∷ words name ∷ words " is unset" ∷ [])
        (host.env_var name)) [
          | err e ↦ err e
          | ok encoded ↦
              wrapped (words name ∷ words " is not a valid keypair" ∷ [])
                (keypair_from_encoded encoded)
        ]

  unfoldable pub resolve_pubkey : Option Pubkey → String → String → Result ServiceFault Pubkey
  unfolding keypair_from_environment
  resolve_pubkey (some key) keypair_env label = ok key
  resolve_pubkey none keypair_env label =
      wrapped (words "derive " ∷ words label ∷ words " address from " ∷ words keypair_env ∷ [])
        (keypair_from_environment keypair_env)

  unfoldable pub connected_chain : String → Commitment → Task ServiceFault W (Unit {0})
  unfolding parse_commitment commitment_name
  connected_chain rpc_url commitment = do
    _ ← lift (parse_commitment (commitment_name commitment))
    _ ← calling (words "connect to " ∷ words rpc_url ∷ []) host.get_slot
    pure tt

  unfoldable pub run_admin : AdminArgs → Task ServiceFault W EnsureAmmConfigOutcome
  unfolding commitment_config
  run_admin args = do
    program_id ← lift (resolve_pubkey args.program_id args.program_keypair_env "Raydium program")
    admin ← lift (keypair_from_environment args.admin_keypair_env)
    connected_chain args.rpc_url args.commitment
    orchestrator ← lift (
        flow_result (
          new_admin host.node host.clmm host.programs program_id admin args.compute_unit_limit
            args.priority_fee_micro_lamports (commitment_config args.commitment)))
    map_err of_flow (
        admin_ensure_amm_config orchestrator (record {
          index = args.config_index;
          tick_spacing = args.tick_spacing;
          trade_fee_rate = args.trade_fee_rate;
          protocol_fee_rate = args.protocol_fee_rate;
          fund_fee_rate = args.fund_fee_rate;
        }))

  module _ {D : Type 0} ⦃d : Decimal D⦄ where
    -- The loop over the pairs.
    unfoldable pub create_each :
        Orchestrator P C B T K W
        → CreatePoolsArgs D
        → List (Pubkey × Pubkey)
        → Task ServiceFault W (List (PoolCreationOutcome D))
    create_each orchestrator args [] = pure []
    create_each orchestrator args ((mint_a, mint_b) ∷ pairs) = do
      outcome ← map_err of_flow (
          create_pool_flow orchestrator (record {
            amm_config = args.amm_config;
            mint_a = mint_a;
            mint_b = mint_b;
            initial_price = args.initial_price;
            open_time = args.open_time;
          }))
      outcomes ← create_each orchestrator args pairs
      pure (outcome ∷ outcomes)

    unfoldable pub create_all_pools :
        CreatePoolsArgs D → Task ServiceFault W (List (PoolCreationOutcome D))
    create_all_pools args = do
      payer ← lift (keypair_from_environment args.payer_keypair_env)
      program_id ← lift (resolve_pubkey args.program_id args.program_keypair_env "Raydium program")
      mints ← lift (unique_mints args.mints "--mint")
      connected_chain args.rpc_url args.transaction.commitment
      orchestrator ← lift (
          flow_result (
            new_orchestrator host.node host.clmm host.programs program_id payer payer
              (orchestration_config args.transaction)))
      create_each orchestrator args (unordered_pairs mints)

    -- The part of `execute_user_flows` that reaches the chain, with its pools.
    unfoldable pub execute_on :
        (program_id faucet mint_authority : Pubkey)
        → UserFlowArgs D
        → List UserPool
        → Task ServiceFault W (List UserFlowRun)
    execute_on program_id faucet mint_authority args pools = do
      connected_chain args.rpc_url args.transaction.commitment
      calling (text "create recovery directory") host.make_recovery_dir
      users ← new_users host pools
      funded_users ←
          fund_users host faucet args.user_lamports (submission_config args.transaction) users []
      run_users host program_id faucet mint_authority args funded_users

    unfoldable pub execute_user_flows : UserFlowArgs D → Task ServiceFault W (List UserFlowRun)
    execute_user_flows args = do
      faucet ← lift (keypair_from_environment args.faucet_keypair_env)
      mint_authority ← lift (keypair_from_environment args.mint_authority_keypair_env)
      program_id ← lift (resolve_pubkey args.program_id args.program_keypair_env "Raydium program")
      mints ← lift (unique_mints args.mints "--mint")
      pools ← lift (user_pools host.programs program_id args.amm_config (unordered_pairs mints))
      execute_on program_id faucet mint_authority args pools
