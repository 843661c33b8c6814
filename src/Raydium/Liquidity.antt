-- ===== src/Raydium/Liquidity.antt =====
-- crates/raydium-clmm-client/src/lib.rs: the transfer fees of a mint, the tick range of a position
-- and its quotes.
use testnet_testsuite.Prelude.{
  ℕ, ◌+◌, ◌/◌, String, Option, none, some, true, false, Result, ok, err, ◌>>=◌, ◌>>◌, ok_or,
  fail_if, if◌then◌else◌, ltb, ◌==◌, replicate,
}
use testnet_testsuite.Prelude.Int.{
  ℤ, pos, negsuc, ◌+ℤ◌, ◌*ℤ◌, negate, leb_ℤ, eqb_ℤ, narrow, narrow_ℕ, checked_sub, half_i32,
  half_i128, max_u64,
}
use testnet_testsuite.Decimal.{Decimal}
use testnet_testsuite.Raydium.Types.{
  Pubkey, text, Fault, panics, MintInfo, TokenAmount, PositionView, LiquidityQuote,
}
use testnet_testsuite.Raydium.Monad.{Client}
use testnet_testsuite.Raydium.Accounts.{or_malformed, or_quote}
use testnet_testsuite.Raydium.Amounts.{
  apply_slippage, ensure_positive, ui_to_raw, price_to_sqrt_x64, invalid, quote_failed,
}
use testnet_testsuite.Raydium.Load.{PoolBundle, insufficient}

-- `div_euclid` by a positive number.
abbrev pub div_euclid : ℤ → ℕ → ℤ
div_euclid (pos n) k = pos (n / k)
div_euclid (negsuc n) k = negsuc (n / k)

-- The multiple of the spacing at or below a tick, and the one at or above it. Division by a spacing
-- of 0 and a product out of range are panics.
unfoldable pub round_down : ℤ → ℕ → Result Fault ℤ
round_down raw spacing = do
  fail_if (spacing == 0) panics
  ok_or (narrow half_i32 (div_euclid raw spacing *ℤ pos spacing)) panics

unfoldable pub round_up : ℤ → ℕ → Result Fault ℤ
round_up raw spacing = do
  fail_if (spacing == 0) panics
  if eqb_ℤ (div_euclid raw spacing *ℤ pos spacing) raw
      then ok raw
      else (ok_or (narrow half_i32 ((div_euclid raw spacing +ℤ pos 1) *ℤ pos spacing))
          (quote_failed "upper tick overflow"))

-- A fee on the sum that the last function gives, if the mint has fees.
abbrev fee_of : Option (ℕ → ℕ → Option ℕ) → ℕ → ℕ → String → Result Fault ℕ
fee_of none epoch amount overflow = ok 0
fee_of (some fee) epoch amount overflow = ok_or (fee epoch amount) (quote_failed overflow)

-- `checked_add` of two `u64`.
abbrev pub add_u64 : ℕ → ℕ → String → Result Fault ℕ
add_u64 a b overflow = ok_or (narrow_ℕ max_u64 (a + b)) (quote_failed overflow)

module _ {P C B T K W : Type 0} (self : Client P C B T K W) where
  unfoldable pub transfer_fee : MintInfo → ℕ → ℕ → Result Fault ℕ
  transfer_fee mint epoch amount =
      if mint.token_program == self.programs.token_program_id
      then ok 0
      else (or_malformed mint.key (self.programs.unpack_mint mint.content) >>= λ state.
          fee_of state.epoch_fee epoch amount "transfer fee calculation overflow")

  unfoldable pub inverse_transfer_fee : MintInfo → ℕ → ℕ → Result Fault ℕ
  inverse_transfer_fee mint epoch amount =
      if mint.token_program == self.programs.token_program_id
      then ok 0
      else (or_malformed mint.key (self.programs.unpack_mint mint.content) >>= λ state.
          fee_of state.inverse_epoch_fee epoch amount "inverse transfer fee calculation overflow")

  unfoldable pub ensure_position_balances :
      PoolBundle P B → LiquidityQuote → Result Fault (Unit {0})
  ensure_position_balances bundle quote = do
    fail_if (ltb bundle.balance_0 quote.amount_0_max)
        (insufficient bundle.mint_0.key quote.amount_0_max bundle.balance_0)
    fail_if (ltb bundle.balance_1 quote.amount_1_max)
        (insufficient bundle.mint_1.key quote.amount_1_max bundle.balance_1)

  -- What a deposit of an amount may take at most, and what a withdrawal must give at least, the
  -- mint's transfer fee included.
  unfoldable pub most : MintInfo → ℕ → ℕ → String → Result Fault ℕ
  unfolding inverse_transfer_fee
  most mint epoch slipped overflow = do
    fee ← inverse_transfer_fee mint epoch slipped
    add_u64 slipped fee overflow

  unfoldable pub least : MintInfo → ℕ → ℕ → String → Result Fault ℕ
  unfolding transfer_fee
  least mint epoch slipped underflow = do
    fee ← transfer_fee mint epoch slipped
    ok_or (checked_sub slipped fee) (quote_failed underflow)

  unfoldable pub decrease_quote : PoolBundle P B → PositionView → ℕ → Result Fault LiquidityQuote
  unfolding apply_slippage least
  decrease_quote bundle position liquidity = do
    signed ← ok_or (narrow half_i128 (pos liquidity)) (quote_failed "liquidity exceeds i128")
    (amount_0, amount_1) ← or_quote (
        self.clmm.get_delta_amounts_signed (self.clmm.pool_tick_current bundle.pool)
          (self.clmm.pool_sqrt_price_x64 bundle.pool) position.tick_lower position.tick_upper
          (negate signed))
    before_0 ← apply_slippage amount_0 self.slippage_bps false
    before_1 ← apply_slippage amount_1 self.slippage_bps false
    amount_0_min ← least bundle.mint_0 bundle.epoch before_0 "token 0 minimum underflow"
    amount_1_min ← least bundle.mint_1 bundle.epoch before_1 "token 1 minimum underflow"
    ok (record {
      liquidity = liquidity;
      tick_lower = position.tick_lower;
      tick_upper = position.tick_upper;
      input_mint = 0;
      input_amount_raw = 0;
      amount_0_raw = amount_0;
      amount_1_raw = amount_1;
      amount_0_max = 0;
      amount_1_max = 0;
      amount_0_min = amount_0_min;
      amount_1_min = amount_1_min;
    })

  -- The last part of a deposit's quote: the amounts that the liquidity takes.
  unfoldable pub deposit_quote :
      PoolBundle P B → PositionView → Pubkey → ℕ → ℕ → Result Fault LiquidityQuote
  unfolding apply_slippage most
  deposit_quote bundle position input_mint raw liquidity = do
    signed ← ok_or (narrow half_i128 (pos liquidity)) (quote_failed "liquidity exceeds i128")
    (amount_0, amount_1) ← or_quote (
        self.clmm.get_delta_amounts_signed (self.clmm.pool_tick_current bundle.pool)
          (self.clmm.pool_sqrt_price_x64 bundle.pool) position.tick_lower position.tick_upper
          signed)
    slipped_0 ← apply_slippage amount_0 self.slippage_bps true
    slipped_1 ← apply_slippage amount_1 self.slippage_bps true
    amount_0_max ← most bundle.mint_0 bundle.epoch slipped_0 "token 0 maximum overflow"
    amount_1_max ← most bundle.mint_1 bundle.epoch slipped_1 "token 1 maximum overflow"
    ok (record {
      liquidity = liquidity;
      tick_lower = position.tick_lower;
      tick_upper = position.tick_upper;
      input_mint = input_mint;
      input_amount_raw = raw;
      amount_0_raw = amount_0;
      amount_1_raw = amount_1;
      amount_0_max = amount_0_max;
      amount_1_max = amount_1_max;
      amount_0_min = 0;
      amount_1_min = 0;
    })

  module _ {D : Type 0} ⦃d : Decimal D⦄ where
    unfoldable pub position_quote_for_ticks :
        PoolBundle P B → PositionView → TokenAmount D → Result Fault LiquidityQuote
    unfolding ensure_positive ui_to_raw deposit_quote
    position_quote_for_ticks bundle position input = do
      ensure_positive input.amount "token amount"
      input_mint ←
          if input.mint == bundle.mint_0.key
          then ok bundle.mint_0
          else if input.mint == bundle.mint_1.key
          then ok bundle.mint_1
          else err (invalid (text "input mint does not belong to the pool"))
      raw ← ui_to_raw input.amount input_mint.decimals
      lower_sqrt ← or_quote (self.clmm.get_sqrt_price_at_tick position.tick_lower)
      upper_sqrt ← or_quote (self.clmm.get_sqrt_price_at_tick position.tick_upper)
      let current_sqrt = self.clmm.pool_sqrt_price_x64 bundle.pool
      liquidity ← or_quote (
          if input.mint == bundle.mint_0.key
          then self.clmm.get_liquidity_from_single_amount_0 current_sqrt lower_sqrt upper_sqrt raw
          else self.clmm.get_liquidity_from_single_amount_1 current_sqrt lower_sqrt upper_sqrt raw)
      fail_if (liquidity == 0) (quote_failed "token amount resolves to zero liquidity")
      deposit_quote bundle position input.mint raw liquidity

    unfoldable pub position_quote :
        PoolBundle P B → D → D → TokenAmount D → Result Fault LiquidityQuote
    unfolding ensure_positive price_to_sqrt_x64 round_down round_up position_quote_for_ticks
    position_quote bundle lower_price upper_price input = do
      ensure_positive lower_price "lower_price"
      ensure_positive upper_price "upper_price"
      fail_if (d.le upper_price lower_price)
          (invalid (text "lower_price must be less than upper_price"))
      lower_sqrt ← price_to_sqrt_x64 lower_price bundle.mint_0.decimals bundle.mint_1.decimals
      upper_sqrt ← price_to_sqrt_x64 upper_price bundle.mint_0.decimals bundle.mint_1.decimals
      lower_raw ← or_quote (self.clmm.get_tick_at_sqrt_price lower_sqrt)
      upper_raw ← or_quote (self.clmm.get_tick_at_sqrt_price upper_sqrt)
      tick_lower ← round_down lower_raw bundle.tick_spacing
      tick_upper ← round_up upper_raw bundle.tick_spacing
      fail_if (leb_ℤ tick_upper tick_lower)
          (invalid (text "price range is narrower than one tick spacing"))
      position_quote_for_ticks bundle
          (record {
            address = 0;
            pool = 0;
            nft_account = 0;
            nft_token_program = 0;
            tick_lower = tick_lower;
            tick_upper = tick_upper;
            liquidity = 0;
            fees_owed_0 = 0;
            fees_owed_1 = 0;
            rewards_owed = replicate 3 0;
          })
          input
