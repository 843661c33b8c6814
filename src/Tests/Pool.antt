-- ===== src/Tests/Pool.antt =====
-- crates/raydium-clmm-client at a small pool.
use testnet_testsuite.Prelude.{
  ℕ, ok, [], ◌∷◌, none, true, false, ◌≡◌, ◌≤◌, ◌<◌, ◌+◌, ◌-◌, ◌*◌, refl,
}
use testnet_testsuite.Prelude.Int.{ℤ, pos}
use testnet_testsuite.Raydium.Types.{
  MintInfo, OpenPositionParams, IncreaseLiquidityParams, DecreaseLiquidityParams, CreatePoolParams,
}
use testnet_testsuite.Raydium.Amounts.{apply_slippage}
use testnet_testsuite.Raydium.Quote.{
  Request, quote_swap, is_done, Walk, start_walk, walk, round, find_tick, next_array, swap_to,
  settle, arrive, pop_front,
}
use testnet_testsuite.Raydium.Walk.{IsTraversal, IsWithin, IsReached, quote_swap_walks}
use testnet_testsuite.Raydium.Liquidity.{transfer_fee, inverse_transfer_fee}
use testnet_testsuite.Raydium.Limits.{swap_bounds_exact_in, swap_bounds_exact_out}
use testnet_testsuite.Raydium.Swap.{SwapBounds, swap_bounds, swap}
use testnet_testsuite.Raydium.Actions.{open_position}
use testnet_testsuite.Raydium.Once.{IsOnce}
use testnet_testsuite.Raydium.Sent.{swap-IsOnce, open_position-IsOnce}
use testnet_testsuite.Tests.Samples.{whole, one_tick, client, log, chain_logged}

abbrev request : Request (Unit {0}) (Unit {0}) (Unit {0})
request = record { zero_for_one = false; exact_in = true; config = tt; pool = tt; bitmap = tt }

quote_swap_walks_example :
    (0 < 40)
    × ((start : Walk ℤ) × (w : Walk ℤ) × (rounds : ℕ) × (start_walk one_tick request 40 (pos 0 ∷ [])
          ≡ ok start)
        × (start.state ≡ record {
          remaining = 40;
          calculated = 0;
          sqrt_price_x64 = one_tick.pool_sqrt_price_x64 request.pool;
          tick = one_tick.pool_tick_current request.pool;
          liquidity = one_tick.pool_liquidity request.pool;
        })
        × (rounds < 64)
        × IsReached one_tick request rounds start w
        × (is_done one_tick false w.state ≡ true)
        × (w.state.calculated ≡ 20)
        × (w.used ≡ pos 0 ∷ [])
        × IsTraversal one_tick (pos 0 ∷ []) w
        × IsWithin 40 w.state)
unfolding quote_swap start_walk walk round find_tick next_array swap_to settle arrive pop_front
quote_swap_walks_example = quote_swap_walks one_tick request 40 (pos 0 ∷ []) 20 (pos 0 ∷ []) refl

abbrev mint_a : MintInfo
mint_a = record { key = 21; token_program = 1; decimals = 6; content = 21 ∷ [] }

abbrev mint_b : MintInfo
mint_b = record { key = 22; token_program = 2; decimals = 6; content = 22 ∷ [] }

abbrev inward : SwapBounds
inward = record { threshold = 990; expected_input = 2_000; expected_output = 1_000 }

swap_bounds_exact_in_example :
    (990 * 10_000 ≤ 1_000 * (10_000 - 100))
    × (1_000 * (10_000 - 100) < (990 + 1) * 10_000)
    × (inward.expected_input ≡ 2_000)
    × ((fee : ℕ) × (transfer_fee client mint_b 7 1_000 ≡ ok fee)
        × (inward.expected_output + fee ≡ 1_000))
unfolding swap_bounds apply_slippage transfer_fee
swap_bounds_exact_in_example = swap_bounds_exact_in client mint_a mint_b 7 2_000 1_000 inward refl

abbrev outward : SwapBounds
outward = record { threshold = 1_010; expected_input = 1_000; expected_output = 2_000 }

swap_bounds_exact_out_example :
    (1_000 * (10_000 + 100) ≤ 1_010 * 10_000)
    × (1_000 ≤ outward.expected_input)
    × (outward.expected_output ≡ 2_000)
unfolding swap_bounds apply_slippage inverse_transfer_fee
swap_bounds_exact_out_example =
    swap_bounds_exact_out client mint_a mint_b 7 2_000 1_000 outward refl

swap-IsOnce_example : IsOnce log (swap client {D = ℤ} ⦃d = whole⦄ 12 21 22 (pos 1) true)
swap-IsOnce_example = swap-IsOnce client log chain_logged {D = ℤ} ⦃d = whole⦄ 12 21 22 (pos 1) true

abbrev opening : OpenPositionParams ℤ
opening = record {
  pool = 12;
  lower_price = pos 1;
  upper_price = pos 100;
  input = record { mint = 21; amount = pos 1 };
  with_metadata = false;
}

open_position-IsOnce_example : IsOnce log (open_position client {D = ℤ} ⦃d = whole⦄ opening)
open_position-IsOnce_example =
    open_position-IsOnce client log chain_logged {D = ℤ} ⦃d = whole⦄ opening

abbrev adding : IncreaseLiquidityParams ℤ
adding = record { position_mint = 41; input = record { mint = 21; amount = pos 1 } }

abbrev taking : DecreaseLiquidityParams ℤ
taking = record { position_mint = 41; amount = none }

abbrev creating : CreatePoolParams ℤ
creating = record {
  amm_config = 11;
  mint_a = 24;
  mint_b = 23;
  initial_price = pos 1;
  open_time = none;
}
