-- ===== src/Tests/Commands.antt =====
-- services/raydium-clmm-orchestrator over the small pool.
use testnet_testsuite.Prelude.{
  ℕ, ◌+◌, ◌*◌, ◌≤◌, ◌<◌, [], ◌∷◌, ◌++◌, none, some, false, ok, err, ◌≡◌, ◌⊎◌, ◌&&◌, refl, length,
  ltb, replicate, arith, All-replicate,
}
use testnet_testsuite.Prelude.Int.{ℤ, pos}
use testnet_testsuite.Raydium.Swap.{contains}
use testnet_testsuite.Flow.Bytes.{take, drop}
use testnet_testsuite.Flow.Counting.{IsSending}
use testnet_testsuite.Service.Types.{
  ServiceFault, Commitment, CreatePoolsArgs, UserFlowArgs, TransactionArgs,
}
use testnet_testsuite.Service.Mints.{insert_key, to_set, unique_mints, unordered_pairs}
use testnet_testsuite.Service.Transfers.{transfer_checked_instruction, token_account_amount}
use testnet_testsuite.Service.Balances.{token_account_amount_carried}
use testnet_testsuite.Service.Pairs.{has_pair, unordered_pairs-unique_mints}
use testnet_testsuite.Service.Commands.{execute_user_flows, create_all_pools}
use testnet_testsuite.Service.Whole.{execute_user_flows-IsSending, create_all_pools-IsSending}
use testnet_testsuite.Tests.Samples.{whole, log}
use testnet_testsuite.Tests.Ledger.{host, host_logged}

-- Three mints, one of them twice.
pairs_run : unordered_pairs (to_set (23 ∷ 21 ∷ 23 ∷ 22 ∷ [])) ≡ (21, 22) ∷ (21, 23) ∷ (22, 23) ∷ []
unfolding unordered_pairs to_set insert_key
pairs_run = refl

unordered_pairs-unique_mints_example :
    (has_pair 21 22 (unordered_pairs (21 ∷ 22 ∷ []))
      ≡ (contains 21 (22 ∷ 21 ∷ 22 ∷ []) && contains 22 (22 ∷ 21 ∷ 22 ∷ []) && ltb 21 22))
    × (2 * length (unordered_pairs (21 ∷ 22 ∷ [])) + 2 ≡ 2 * 2)
    × (2 ≤ 2)
unfolding unique_mints to_set insert_key
unordered_pairs-unique_mints_example =
    unordered_pairs-unique_mints (22 ∷ 21 ∷ 22 ∷ []) (21 ∷ 22 ∷ []) "--mint" 21 22 refl

abbrev settings : TransactionArgs
settings = record {
  slippage_bps = 50;
  compute_unit_limit = 1_400_000;
  priority_fee_micro_lamports = 0;
  commitment = Commitment.confirmed_blocks;
}

abbrev creation : CreatePoolsArgs ℤ
creation = record {
  rpc_url = "http://localhost:8899";
  program_id = some 1;
  program_keypair_env = "KEYPAIR_RAYDIUM_CLMM";
  amm_config = 11;
  mints = 21 ∷ 22 ∷ [];
  payer_keypair_env = "KEYPAIR_FAUCET";
  initial_price = pos 1;
  open_time = none;
  transaction = settings;
}

create_all_pools-IsSending_example :
    let pairs = length (unordered_pairs (to_set (21 ∷ 22 ∷ []))) in
    IsSending log pairs pairs (create_all_pools host {D = ℤ} ⦃d = whole⦄ creation)
create_all_pools-IsSending_example =
    create_all_pools-IsSending host log host_logged {D = ℤ} ⦃d = whole⦄ creation

abbrev users : UserFlowArgs ℤ
users = record {
  rpc_url = "http://localhost:8899";
  program_id = some 1;
  program_keypair_env = "KEYPAIR_RAYDIUM_CLMM";
  amm_config = 11;
  mints = 21 ∷ 22 ∷ [];
  faucet_keypair_env = "KEYPAIR_FAUCET";
  mint_authority_keypair_env = "KEYPAIR_TOKEN_MINT_AUTHORITY";
  user_lamports = 1_000;
  funding_a = pos 10_000;
  funding_b = pos 10_000;
  lower_price = pos 1;
  upper_price = pos 100;
  open_amount = pos 1;
  increase_amount = pos 1;
  exact_in_amount = pos 1;
  exact_out_amount = pos 1;
  with_metadata = false;
  transaction = settings;
}

execute_user_flows-IsSending_example :
    let pairs = length (unordered_pairs (to_set (21 ∷ 22 ∷ []))) in
    IsSending log (9 * pairs) (12 * pairs) (execute_user_flows host {D = ℤ} ⦃d = whole⦄ users)
execute_user_flows-IsSending_example =
    execute_user_flows-IsSending host log host_logged {D = ℤ} ⦃d = whole⦄ users

token_account_amount_carried_example :
    let bytes = replicate {A = ℕ} 72 5 in
    ((length bytes < 72) × ((e : ServiceFault) × (token_account_amount bytes 121 ≡ err e)))
    ⊎ ((72 ≤ length bytes)
        × ((amount : ℕ) × (token_account_amount bytes 121 ≡ ok amount)
            × ((transfer_checked_instruction 121 21 122 9 1 amount 6).content
                ≡ 12 ∷ take 8 (drop 64 bytes) ++ 6 ∷ [])))
token_account_amount_carried_example =
    token_account_amount_carried (replicate 72 5) 121 121 21 122 9 1 6
      (All-replicate (λ b. b < 256) 72 5 (omega arith))
