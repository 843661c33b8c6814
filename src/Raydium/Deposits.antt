-- ===== src/Raydium/Deposits.antt =====
-- crates/raydium-clmm-client/src/lib.rs: the limits of a deposit.
use testnet_testsuite.Prelude.{◌+◌, ◌*◌, ◌≤◌, ◌<◌, ◌≡◌}
use testnet_testsuite.Decimal.{Decimal}
use testnet_testsuite.Raydium.Types.{Pubkey, PositionView, LiquidityQuote}
use testnet_testsuite.Raydium.Monad.{Client}

module _ {P C B T K W : Type 0} (self : Client P C B T K W) where
  -- What a quote says of a deposit of a mint at the ticks of a position.
  pub record IsDeposit (position : PositionView) (mint : Pubkey) (q : LiquidityQuote) : Type 0 where
    pub some_liquidity : 0 < q.liquidity
    pub same_lower : q.tick_lower ≡ position.tick_lower
    pub same_upper : q.tick_upper ≡ position.tick_upper
    pub same_mint : q.input_mint ≡ mint
    pub covers_0 : q.amount_0_raw * (10_000 + self.slippage_bps) ≤ q.amount_0_max * 10_000
    pub covers_1 : q.amount_1_raw * (10_000 + self.slippage_bps) ≤ q.amount_1_max * 10_000
