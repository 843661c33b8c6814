-- ===== src/Raydium/External.antt =====
-- What the client calls of `raydium_clmm_interface`, which is not in the repository: a parameter of
-- the model. `P` is `PoolState`, `C` is `AmmConfig`, `B` is `TickArrayBitmapExtension`, `T` is
-- `TickArrayState` and `K` is `TickState`; an error is its text.
use testnet_testsuite.Prelude.{ℕ, String, Option, Bool, Result}
use testnet_testsuite.Prelude.Int.{ℤ}

pub record SwapStep : Type 0 where
  pub amount_in : ℕ
  pub amount_out : ℕ
  pub fee_amount : ℕ
  pub sqrt_price_next_x64 : ℕ

pub record Clmm (P C B T K : Type 0) : Type 0 where
  pub min_sqrt_price_x64 : ℕ
  pub max_sqrt_price_x64 : ℕ
  pub min_tick : ℤ
  pub max_tick : ℤ
  pub pool_sqrt_price_x64 : P → ℕ
  pub pool_tick_current : P → ℤ
  pub pool_liquidity : P → ℕ
  pub pool_tick_spacing : P → ℕ
  pub get_first_initialized_tick_array : P → B → Bool → Result String (Bool × ℤ)
  pub next_initialized_tick_array_start_index : P → B → ℤ → Bool → Result String (Option ℤ)
  pub is_fee_on_input : P → Bool → Bool
  pub trade_fee_rate : C → ℕ
  pub start_tick_index : T → ℤ
  pub next_initialized_tick : T → ℤ → ℕ → Bool → Result String (Option K)
  pub first_initialized_tick : T → Bool → Result String K
  pub default_tick : K
  pub is_initialized : K → Bool
  pub has_limit_orders : K → Bool
  pub tick_index : K → ℤ
  pub liquidity_net : K → ℤ
  pub get_sqrt_price_at_tick : ℤ → Result String ℕ
  pub get_tick_at_sqrt_price : ℕ → Result String ℤ
  -- current, target, liquidity, remaining, fee rate, exact in, zero for one, fee on input
  pub compute_swap : ℕ → ℕ → ℕ → ℕ → ℕ → Bool → Bool → Bool → Result String SwapStep
  pub add_delta : ℕ → ℤ → Result String ℕ
  pub get_liquidity_from_single_amount_0 : ℕ → ℕ → ℕ → ℕ → Result String ℕ
  pub get_liquidity_from_single_amount_1 : ℕ → ℕ → ℕ → ℕ → Result String ℕ
  -- current tick, current price, lower, upper, liquidity
  pub get_delta_amounts_signed : ℤ → ℕ → ℤ → ℤ → ℤ → Result String (ℕ × ℕ)
  pub get_array_start_index : ℤ → ℕ → ℤ
