-- ===== src/Tests/Orchestrator.antt =====
-- crates/raydium-clmm-orchestrator over the small pool.
use testnet_testsuite.Prelude.{
  List, Option, some, ℕ, ◌≤◌, ◌<◌, [], ◌∷◌, ◌++◌, some, false, ok, err, ◌≡◌, ◌≢◌, ◌⊎◌, refl, arith,
  length, get_elem?,
}
use testnet_testsuite.Prelude.Int.{ℤ, pos, ◌*ℤ◌}
use testnet_testsuite.Raydium.Types.{Account, Fault}
use testnet_testsuite.Raydium.Monad.{Client}
use testnet_testsuite.Raydium.Once.{IsLogged}
use testnet_testsuite.Raydium.Setup.{new_client}
use testnet_testsuite.Raydium.Failures.{new_client-IsLogged}
use testnet_testsuite.Flow.Task.{◌>>=◌, lift, pure}
use testnet_testsuite.Flow.Bytes.{from_le_bytes, from_be_bytes, slice, take, drop}
use testnet_testsuite.Flow.Types.{
  OrchestrationError, stops, MintInfo, UserFlowParams, FundingOutcome,
}
use testnet_testsuite.Flow.Checks.{ui_to_raw, ensure_positive}
use testnet_testsuite.Flow.Mints.{
  decode_mint, mint_to_checked_instruction, associated_token_address,
}
use testnet_testsuite.Flow.Steps.{
  account_at, fetch, submit_funding, fund_payer, funding_instructions, run_user_flow,
}
use testnet_testsuite.Flow.Minting.{
  IsMintable, decode_mint-IsMintable, mint_to_checked_instruction_amount,
}
use testnet_testsuite.Flow.Validity.{IsValid, run_user_flow-IsValid}
use testnet_testsuite.Flow.Funding.{fund_payer_sent}
use testnet_testsuite.Flow.Counting.{IsSending}
use testnet_testsuite.Flow.Sent.{run_user_flow-IsSending}
use testnet_testsuite.Tests.Samples.{whole, one_tick, programs, Log, log}
use testnet_testsuite.Tests.Ledger.{mint_bytes, ledger, ledger_logged, user_logged, orchestrator}

abbrev flow_of : ℤ → UserFlowParams ℤ
flow_of funding = record {
  amm_config = 11;
  pool = 12;
  mint_a = 21;
  mint_b = 22;
  funding_a = funding;
  funding_b = pos 10_000;
  lower_price = pos 1;
  upper_price = pos 100;
  open_amount = pos 1;
  increase_amount = pos 1;
  exact_in_amount = pos 1;
  exact_out_amount = pos 1;
  with_metadata = false;
}

run_user_flow-IsSending_example :
    IsSending log 8 8 (run_user_flow orchestrator {D = ℤ} ⦃d = whole⦄ (flow_of (pos 10_000)))
run_user_flow-IsSending_example =
    run_user_flow-IsSending orchestrator log user_logged ledger_logged {D = ℤ} ⦃d = whole⦄
      (flow_of (pos 10_000))

run_user_flow-IsValid_example :
    IsValid {D = ℤ} ⦃d = whole⦄ (flow_of (pos 0))
    ⊎ ((e : OrchestrationError) × (run_user_flow orchestrator {D = ℤ} ⦃d = whole⦄
            (flow_of (pos 0))
            []
          ≡ (err (stops e), [])))
run_user_flow-IsValid_example =
    run_user_flow-IsValid {D = ℤ} ⦃d = whole⦄ orchestrator (flow_of (pos 0)) []

abbrev mint_account : Account
mint_account = record { owner = 1; executable = false; content = mint_bytes }

decode_mint-IsMintable_example :
    ((e : OrchestrationError) × (decode_mint programs 21 (some mint_account) 8 ≡ err (stops e)))
    ⊎ ((account : Account) × (info : MintInfo) × (some mint_account ≡ some account)
        × (decode_mint programs 21 (some mint_account) 8 ≡ ok info)
        × IsMintable programs 8 account info)
decode_mint-IsMintable_example = decode_mint-IsMintable programs 21 (some mint_account) 8

mint_to_checked_instruction_amount_example :
    let content = (mint_to_checked_instruction 21 121 8 1 1_000 6).content in
    (length content ≡ 10)
    × (get_elem? content 0 ≡ some 14)
    × (from_le_bytes (take 8 (drop 1 content)) ≡ 1_000)
    × (get_elem? content 9 ≡ some 6)
mint_to_checked_instruction_amount_example =
    mint_to_checked_instruction_amount 21 121 8 1 1_000 6 (omega arith)

abbrev funded : FundingOutcome
funded = record {
  transaction = record { signature = 1; confirmation_slot = 2; simulated_compute_units = 3 };
  token_account_a = 16;
  token_account_b = 16;
  amount_a_raw = 2_000_000;
  amount_b_raw = 3_000_000;
}

fund_payer_sent_example :
    (accounts : List (Option Account)) × (account_a : Account) × (account_b : Account)
    × (info_a : MintInfo) × (info_b : MintInfo) × ((ledger.get_multiple_accounts
          (21 ∷ 22 ∷ [])
          []).0
        ≡ ok accounts)
    × (account_at accounts 0 ≡ some account_a)
    × (account_at accounts 1 ≡ some account_b)
    × IsMintable programs 8 account_a info_a
    × IsMintable programs 8 account_b info_b
    × (◌≢◌ {A = ℕ} 21 22)
    × (ui_to_raw {D = ℤ} ⦃d = whole⦄ (pos 2) info_a.decimals ≡ ok 2_000_000)
    × (ui_to_raw {D = ℤ} ⦃d = whole⦄ (pos 3) info_b.decimals ≡ ok 3_000_000)
    × (log (fund_payer orchestrator {D = ℤ} ⦃d = whole⦄ 21 (pos 2) 22 (pos 3) []).1
        ≡ log [] ++ funding_instructions orchestrator 21 22 info_a info_b 2_000_000 3_000_000 ∷ [])
unfolding fund_payer ◌>>=◌ lift pure ensure_positive fetch decode_mint slice from_le_bytes
    from_be_bytes ui_to_raw submit_funding associated_token_address ◌*ℤ◌
fund_payer_sent_example =
    fund_payer_sent orchestrator log ledger_logged {D = ℤ} ⦃d = whole⦄ 21 (pos 2) 22 (pos 3) []
      funded refl

new_client-IsLogged_example :
    (((10_000 < 10_001) ⊎ (◌≡◌ {A = ℕ} 5 0))
      × ((e : Fault) × (new_client ledger one_tick programs 1 9 10_001 5 0 1 ≡ err e)))
    ⊎ ((10_001 ≤ 10_000)
        × (0 < 5)
        × ((client : Client (Unit {0}) (Unit {0}) (Unit {0}) ℤ ℤ Log) × (new_client ledger one_tick
                programs 1 9 10_001 5 0 1
              ≡ ok client)
            × (client.program_id ≡ 1)
            × (client.payer ≡ 9)
            × (client.slippage_bps ≡ 10_001)
            × IsLogged client.chain log))
new_client-IsLogged_example =
    new_client-IsLogged ledger log one_tick programs 1 9 10_001 5 0 1 ledger_logged
