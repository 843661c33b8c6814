-- ===== src/Flow/Steps.antt =====
-- crates/raydium-clmm-orchestrator/src/lib.rs: the orchestrator's operations. Each `.await?` is a step
-- of the do block; the spans and the log lines are left out.
use testnet_testsuite.Prelude.{
  ℕ, List, [], ◌∷◌, Option, none, true, false, not, Result, ok, err, fail_if, ok_or, and_then, ◌==◌,
  get_elem?,
}
use testnet_testsuite.Decimal.{Decimal}
use testnet_testsuite.Raydium.Types.{
  Pubkey, text, Fault, Account, Instruction, TransactionOutcome, EnsureAmmConfigParams,
  EnsureAmmConfigOutcome,
}
use testnet_testsuite.Raydium.External.{Clmm}
use testnet_testsuite.Raydium.Programs.{Programs}
use testnet_testsuite.Raydium.Addresses.{derive_pool_address as client_pool_address}
use testnet_testsuite.Raydium.Monad.{M}
use testnet_testsuite.Raydium.Setup.{Node, new_client, with_defaults, transaction_outcome}
use testnet_testsuite.Raydium.Actions.{
  collect_position, close_position, decrease_liquidity, increase_liquidity, open_position,
}
use testnet_testsuite.Raydium.Pools.{create_pool, ensure_amm_config}
use testnet_testsuite.Raydium.Swap.{swap}
use testnet_testsuite.Flow.Task.{Task, ◌>>=◌, ◌>>◌, lift, pure}
use testnet_testsuite.Flow.Types.{
  OrchestrationError, FlowFault, stops, invalid, of_client, OrchestrationConfig, PoolCreationParams,
  UserFlowParams, FundingOutcome, PoolCreationOutcome, UserFlowOutcome, MintInfo, Orchestrator,
  AdminOrchestrator,
}
use testnet_testsuite.Flow.Checks.{
  ensure_positive, ui_to_raw, normalized_range, validate_pool_creation_params,
  validate_user_flow_params,
}
use testnet_testsuite.Flow.Mints.{
  mint_to_checked_instruction, decode_mint, associated_token_address, create_ata_instruction,
}

abbrev of_result : {A : Type 0} → Result Fault A → Result FlowFault A
of_result (ok a) = ok a
of_result (err e) = err (of_client e)

unfoldable pub derive_pool_address :
    {P C B T : Type 0}
    → Programs P C B T
    → (program_id amm_config mint_a mint_b : Pubkey) → Result FlowFault Pubkey
derive_pool_address programs program_id amm_config mint_a mint_b =
    of_result (client_pool_address programs program_id amm_config mint_a mint_b)

-- `accounts.get(i).and_then(Option::as_ref)`.
abbrev pub account_at : List (Option Account) → ℕ → Option Account
account_at accounts i = and_then (get_elem? accounts i) (λ a. a)

-- A call of the client, with its error as one of the orchestrator's.
unfoldable pub client_call : {W A : Type 0} → M W A → Task FlowFault W A
client_call m w =
    let (r, w') = m w in elim r [ ok a ↦ (ok a, w') | err e ↦ (err (of_client e), w') ]

module _ {W : Type 0} (node : Node W) where
  -- `chain.rpc().get_multiple_accounts(..)` with its error as one of the orchestrator's.
  unfoldable pub fetch : List Pubkey → Task FlowFault W (List (Option Account))
  fetch keys w =
      let (r, w') = node.get_multiple_accounts keys w in
      elim r [ ok a ↦ (ok a, w') | err e ↦ (err (stops (OrchestrationError.rpc e)), w') ]

  -- `RaydiumClmmOrchestrator::new`.
  unfoldable pub new_orchestrator :
      {P C B T K : Type 0}
      → Clmm P C B T K
      → Programs P C B T
      → (program_id payer mint_authority : Pubkey) → OrchestrationConfig
      → Result FlowFault (Orchestrator P C B T K W)
  new_orchestrator clmm programs program_id payer mint_authority config =
      elim (new_client node clmm programs program_id payer config.slippage_bps
        config.compute_unit_limit config.priority_fee_micro_lamports
        config.confirmation_commitment) [
          | err e ↦ err (of_client e)
          | ok client ↦ ok (record {
            node = node;
            client = client;
            program_id = program_id;
            payer = payer;
            mint_authority = mint_authority;
            funding_submission =
                with_defaults config.compute_unit_limit config.priority_fee_micro_lamports
                  config.confirmation_commitment;
          })
        ]

  -- `RaydiumClmmAdminOrchestrator::new`.
  unfoldable pub new_admin :
      {P C B T K : Type 0}
      → Clmm P C B T K
      → Programs P C B T
      → (program_id admin : Pubkey) → (unit_limit fee commitment : ℕ)
      → Result FlowFault (AdminOrchestrator P C B T K W)
  new_admin clmm programs program_id admin unit_limit fee commitment =
      elim (new_client node clmm programs program_id admin 0 unit_limit fee commitment) [
        | err e ↦ err (of_client e)
        | ok client ↦ ok (record { client = client; program_id = program_id; admin = admin })
      ]

-- `RaydiumClmmAdminOrchestrator::ensure_amm_config`.
unfoldable pub admin_ensure_amm_config :
    {P C B T K W : Type 0}
    → AdminOrchestrator P C B T K W
    → EnsureAmmConfigParams
    → Task FlowFault W EnsureAmmConfigOutcome
admin_ensure_amm_config self params = client_call (ensure_amm_config self.client params)

module _ {P C B T K W : Type 0} (self : Orchestrator P C B T K W) where
  unfoldable pub validate_prerequisites : Pubkey → Task FlowFault W (Unit {0})
  validate_prerequisites amm_config = do
    accounts ← fetch self.node (self.program_id ∷ amm_config ∷ [])
    program ←
        lift (
          ok_or (account_at accounts 0)
            (stops (OrchestrationError.missing_program self.program_id)))
    lift (
        fail_if (not program.executable)
          (stops (OrchestrationError.invalid_program self.program_id)))
    config ←
        lift
          (ok_or (account_at accounts 1) (stops (OrchestrationError.missing_amm_config amm_config)))
    lift (
        fail_if (not (config.owner == self.program_id))
          (stops (OrchestrationError.malformed_amm_config amm_config self.program_id config.owner)))

  -- The instructions that give the payer its tokens.
  unfoldable pub funding_instructions :
      (mint_a mint_b : Pubkey) → (info_a info_b : MintInfo) → (raw_a raw_b : ℕ) → List Instruction
  funding_instructions mint_a mint_b info_a info_b raw_a raw_b =
      let ata = λ (mint : Pubkey) (info : MintInfo).
        associated_token_address self.client.programs self.payer mint info.token_program in
      let create = λ (mint : Pubkey) (info : MintInfo).
        create_ata_instruction self.client.programs self.payer self.payer mint info.token_program
          (ata mint info) in
      let mint_to = λ (mint : Pubkey) (info : MintInfo) (raw : ℕ).
        mint_to_checked_instruction mint (ata mint info) self.mint_authority info.token_program raw
          info.decimals in
      create mint_a info_a
      ∷ mint_to mint_a info_a raw_a
      ∷ create mint_b info_b
      ∷ mint_to mint_b info_b raw_b
      ∷ []

  -- `chain.submit(..)` for the funding, signed by the mint authority as well.
  unfoldable pub submit_funding : List Instruction → Task FlowFault W TransactionOutcome
  submit_funding instructions w =
      let (r, w') =
        self.node.submit instructions self.payer (self.mint_authority ∷ []) self.funding_submission
          w in
      elim r [
        | ok outcome ↦ (ok (transaction_outcome outcome), w')
        | err e ↦ (err (stops (OrchestrationError.funding_submission e)), w')
      ]

  module _ {D : Type 0} ⦃d : Decimal D⦄ where
    unfoldable pub fund_payer :
        (mint_a : Pubkey)
        → (amount_a : D) → (mint_b : Pubkey) → (amount_b : D) → Task FlowFault W FundingOutcome
    fund_payer mint_a amount_a mint_b amount_b = do
      lift (ensure_positive amount_a "funding_a")
      lift (ensure_positive amount_b "funding_b")
      lift (fail_if (mint_a == mint_b) (invalid (text "funding mints must be different")))
      accounts ← fetch self.node (mint_a ∷ mint_b ∷ [])
      info_a ←
          lift (decode_mint self.client.programs mint_a (account_at accounts 0) self.mint_authority)
      info_b ←
          lift (decode_mint self.client.programs mint_b (account_at accounts 1) self.mint_authority)
      raw_a ← lift (ui_to_raw amount_a info_a.decimals)
      raw_b ← lift (ui_to_raw amount_b info_b.decimals)
      transaction ← submit_funding (funding_instructions mint_a mint_b info_a info_b raw_a raw_b)
      pure (record {
        transaction = transaction;
        token_account_a =
            associated_token_address self.client.programs self.payer mint_a info_a.token_program;
        token_account_b =
            associated_token_address self.client.programs self.payer mint_b info_b.token_program;
        amount_a_raw = raw_a;
        amount_b_raw = raw_b;
      })

    unfoldable pub create_pool_flow :
        PoolCreationParams D → Task FlowFault W (PoolCreationOutcome D)
    create_pool_flow params = do
      lift (validate_pool_creation_params params)
      validate_prerequisites params.amm_config
      created ← client_call (
          create_pool self.client (record {
            amm_config = params.amm_config;
            mint_a = params.mint_a;
            mint_b = params.mint_b;
            initial_price = params.initial_price;
            open_time = params.open_time;
          }))
      pure (record { create_pool = created })

    unfoldable pub run_user_flow : UserFlowParams D → Task FlowFault W UserFlowOutcome
    run_user_flow params = do
      lift (validate_user_flow_params params)
      validate_prerequisites params.amm_config
      funding ← fund_payer params.mint_a params.funding_a params.mint_b params.funding_b
      (lower_price, upper_price) ←
          lift (normalized_range params.mint_a params.mint_b params.lower_price params.upper_price)
      opened ← client_call (
          open_position self.client (record {
            pool = params.pool;
            lower_price = lower_price;
            upper_price = upper_price;
            input = record { mint = params.mint_a; amount = params.open_amount };
            with_metadata = params.with_metadata;
          }))
      let position_mint = opened.accounts.position_nft_mint
      increased ← client_call (
          increase_liquidity self.client (record {
            position_mint = position_mint;
            input = record { mint = params.mint_a; amount = params.increase_amount };
          }))
      swapped_in ←
          client_call
            (swap self.client params.pool params.mint_a params.mint_b params.exact_in_amount true)
      swapped_out ←
          client_call
            (swap self.client params.pool params.mint_b params.mint_a params.exact_out_amount false)
      decreased ← client_call (
          decrease_liquidity self.client {D = D}
            (record { position_mint = position_mint; amount = none }))
      collected ← client_call (collect_position self.client position_mint)
      closed ← client_call (close_position self.client position_mint)
      pure (record {
        funding = funding;
        open_position = opened;
        increase_liquidity = increased;
        swap_exact_in = swapped_in;
        swap_exact_out = swapped_out;
        decrease_liquidity = decreased;
        collect_position = collected;
        close_position = closed;
      })
