-- ===== src/Tests/Position.antt =====
-- crates/raydium-clmm-client at positions of a small pool.
use testnet_testsuite.Prelude.{[], ◌∷◌, true, false, ok, ◌≡◌, refl}
use testnet_testsuite.Prelude.Int.{ℤ, pos, negsuc}
use testnet_testsuite.Raydium.Types.{
  EnsureAmmConfigParams, ClosePositionOutcome, MintInfo, TokenAmount, PositionView, LiquidityQuote,
}
use testnet_testsuite.Raydium.Addresses.{
  pool_address, pool_address_for, amm_config_address, tick_array_bitmap_address,
  personal_position_address,
}
use testnet_testsuite.Raydium.Load.{PoolBundle}
use testnet_testsuite.Raydium.Actions.{any_owed, close_position}
use testnet_testsuite.Raydium.Pools.{ensure_amm_config}
use testnet_testsuite.Raydium.Outcomes.{IsHonest, ensure_amm_config-IsHonest, close_position_empty}
use testnet_testsuite.Raydium.Position.{load_position, nft_of}
use testnet_testsuite.Raydium.Load.{load_pool}
use testnet_testsuite.Raydium.Accounts.{
  fetch_optional, fetch_epoch, require_account, decode_program_account, decode_mint, validate_vault,
  validate_token_account,
}
use testnet_testsuite.Raydium.Monad.{◌>>=◌, lift, pure, throw}
use testnet_testsuite.Tests.Samples.{client, log, chain_logged}

abbrev mint_a : MintInfo
mint_a = record { key = 21; token_program = 1; decimals = 6; content = 21 ∷ [] }

abbrev mint_b : MintInfo
mint_b = record { key = 22; token_program = 2; decimals = 6; content = 22 ∷ [] }

abbrev bundle : PoolBundle (Unit {0}) (Unit {0})
bundle = record {
  pool = tt;
  config_account = record { owner = 1; executable = true; content = 11 ∷ [] };
  amm_config = 11;
  mint_0 = mint_a;
  mint_1 = mint_b;
  token_vault_0 = 31;
  token_vault_1 = 32;
  observation = 16;
  tick_array_bitmap = 13;
  bitmap = tt;
  tick_spacing = 10;
  user_token_0 = 121;
  user_token_1 = 122;
  balance_0 = 50;
  balance_1 = 50;
  epoch = 7;
  key = 12;
}

abbrev held : PositionView
held = record {
  address = 1_041;
  pool = 12;
  nft_account = 141;
  nft_token_program = 1;
  tick_lower = negsuc 9;
  tick_upper = pos 10;
  liquidity = 500;
  fees_owed_0 = 0;
  fees_owed_1 = 0;
  rewards_owed = 0 ∷ 0 ∷ 0 ∷ [];
}

abbrev owed : LiquidityQuote
owed = record {
  liquidity = 500;
  tick_lower = negsuc 9;
  tick_upper = pos 10;
  input_mint = 0;
  input_amount_raw = 0;
  amount_0_raw = 500;
  amount_1_raw = 500;
  amount_0_max = 0;
  amount_1_max = 0;
  amount_0_min = 495;
  amount_1_min = 495;
}

abbrev fees : EnsureAmmConfigParams
fees = record {
  index = 0;
  tick_spacing = 10;
  trade_fee_rate = 0;
  protocol_fee_rate = 0;
  fund_fee_rate = 0;
}

ensure_amm_config-IsHonest_example :
    IsHonest client log chain_logged (ensure_amm_config client fees)
ensure_amm_config-IsHonest_example = ensure_amm_config-IsHonest client log chain_logged fees

abbrev closed : ClosePositionOutcome
closed = record {
  transaction = record { signature = 1; confirmation_slot = 2; simulated_compute_units = 3 };
  closed_position = 1_040;
  closed_nft_mint = 40;
  closed_nft_account = 140;
  pool = 12;
}

close_position_empty_example :
    (p : PositionView) × ((load_position client 40 []).0 ≡ ok p)
    × (p.liquidity ≡ 0)
    × (p.fees_owed_0 ≡ 0)
    × (p.fees_owed_1 ≡ 0)
    × (any_owed p.rewards_owed ≡ false)
unfolding close_position load_position load_pool nft_of fetch_optional fetch_epoch require_account
    decode_program_account decode_mint validate_vault validate_token_account pool_address
    pool_address_for amm_config_address tick_array_bitmap_address personal_position_address ◌>>=◌
    lift pure throw
close_position_empty_example = close_position_empty client 40 [] closed refl

abbrev deposit : TokenAmount ℤ
deposit = record { mint = 21; amount = pos 1 }

abbrev taken : LiquidityQuote
taken = record {
  liquidity = 1_000_000;
  tick_lower = negsuc 9;
  tick_upper = pos 10;
  input_mint = 21;
  input_amount_raw = 1_000_000;
  amount_0_raw = 1_000_000;
  amount_1_raw = 1_000_000;
  amount_0_max = 1_010_000;
  amount_1_max = 1_010_000;
  amount_0_min = 0;
  amount_1_min = 0;
}
