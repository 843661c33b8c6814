-- ===== src/Raydium/Sent.antt =====
-- crates/raydium-clmm-client/src/lib.rs: each action sends at most one transaction.
use testnet_testsuite.Prelude.{List, Option, Bool, ℕ}
use testnet_testsuite.Decimal.{Decimal}
use testnet_testsuite.Raydium.Types.{
  Pubkey, MintInfo, Instruction, Account, CreatePoolParams, OpenPositionParams,
  IncreaseLiquidityParams, DecreaseLiquidityParams,
}
use testnet_testsuite.Raydium.Monad.{Client}
use testnet_testsuite.Raydium.Actions.{
  collect_position, close_position, decrease_liquidity, increase_liquidity, open_position,
}
use testnet_testsuite.Raydium.Pools.{send_pool, create_pool}
use testnet_testsuite.Raydium.Swap.{SwapBounds, send_swap, swap}
use testnet_testsuite.Raydium.Load.{PoolBundle}
use testnet_testsuite.Raydium.Once.{IsLogged, IsOnce}
use testnet_testsuite.Raydium.Reading.{reading}

module _ {P C B T K W : Type 0} (self : Client P C B T K W) (sent : W → List (List Instruction))
    (l : IsLogged self.chain sent) where
  -- Collecting the fees of a position either fails and sends nothing, or sends one transaction, on a
  -- chain where only a submission sends.
  pub collect_position-IsOnce : (mint : Pubkey) → IsOnce sent (collect_position self mint)
  unfolding collect_position
  collect_position-IsOnce mint = search reading depth 30 fits 4000

  -- Closing a position either fails and sends nothing, or sends one transaction, on a
  -- chain where only a submission sends.
  pub close_position-IsOnce : (mint : Pubkey) → IsOnce sent (close_position self mint)
  unfolding close_position
  close_position-IsOnce mint = search reading depth 30 fits 4000

  send_swap-IsOnce :
      (pool_key input_mint output_mint : Pubkey) (exact_in zero_for_one : Bool)
      (bundle : PoolBundle P B) (requested : ℕ) (used_keys : List Pubkey) (bounds : SwapBounds)
      → IsOnce sent (
          send_swap self pool_key input_mint output_mint exact_in zero_for_one bundle requested
            used_keys bounds)
  unfolding send_swap
  send_swap-IsOnce pool_key input_mint output_mint exact_in zero_for_one bundle requested used_keys
        bounds =
      search reading depth 40 fits 4000

  module _ {D : Type 0} ⦃d : Decimal D⦄ where
    -- A swap either fails and sends nothing, or sends one transaction, on a
    -- chain where only a submission sends.
    pub swap-IsOnce :
        (pool_key input_mint output_mint : Pubkey) (amount : D) (exact_in : Bool)
        → IsOnce sent (swap self pool_key input_mint output_mint amount exact_in)
    unfolding swap
    swap-IsOnce pool_key input_mint output_mint amount exact_in =
        search (reading, send_swap-IsOnce) depth 60 fits 4000

    -- Opening a position either fails and sends nothing, or sends one transaction, on a
    -- chain where only a submission sends.
    pub open_position-IsOnce : (p : OpenPositionParams D) → IsOnce sent (open_position self p)
    unfolding open_position
    open_position-IsOnce p = search reading depth 40 fits 4000

    -- Taking liquidity out of a position either fails and sends nothing, or sends one transaction, on a
    -- chain where only a submission sends.
    pub decrease_liquidity-IsOnce :
        (p : DecreaseLiquidityParams D) → IsOnce sent (decrease_liquidity self p)
    unfolding decrease_liquidity
    decrease_liquidity-IsOnce p = search reading depth 40 fits 4000

    -- Adding liquidity to a position either fails and sends nothing, or sends one transaction, on a
    -- chain where only a submission sends.
    pub increase_liquidity-IsOnce :
        (p : IncreaseLiquidityParams D) → IsOnce sent (increase_liquidity self p)
    unfolding increase_liquidity
    increase_liquidity-IsOnce p = search reading depth 40 fits 4000

    send_pool-IsOnce :
        (params : CreatePoolParams D) (mint_0 mint_1 : Pubkey) (price : D)
        (info_0 info_1 : MintInfo) (account_0 account_1 : Option Account)
        → IsOnce sent (send_pool self params mint_0 mint_1 price info_0 info_1 account_0 account_1)
    unfolding send_pool
    send_pool-IsOnce params mint_0 mint_1 price info_0 info_1 account_0 account_1 =
        search reading depth 20 fits 2000

    -- The creation of a pool either fails and sends nothing, or sends one transaction, on a
    -- chain where only a submission sends.
    pub create_pool-IsOnce : (p : CreatePoolParams D) → IsOnce sent (create_pool self p)
    unfolding create_pool
    create_pool-IsOnce p = search (reading, send_pool-IsOnce) depth 60 fits 4000
