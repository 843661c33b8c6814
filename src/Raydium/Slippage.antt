-- ===== src/Raydium/Slippage.antt =====
-- crates/raydium-clmm-client/src/lib.rs: the bounds that `apply_slippage` computes.
use testnet_testsuite.Prelude.{ℕ, ◌+◌, ◌-◌, ◌*◌, ◌/◌, ◌≤◌, ◌<◌, true, false, ok, ◌≡◌, arith}
use testnet_testsuite.Prelude.Int.{max_u64}
use testnet_testsuite.Raydium.Amounts.{apply_slippage}

-- An upper limit that fits is the least amount that is not below amount·(10,000 + bps)/10,000, so
-- it is at least the amount.
pub apply_slippage_up :
    (amount bps r : ℕ)
    → apply_slippage amount bps true ≡ ok r
    → (amount * (10_000 + bps) ≤ r * 10_000)
      × (r * 10_000 < amount * (10_000 + bps) + 10_000)
      × (amount ≤ r)
      × (r ≤ max_u64)
unfolding apply_slippage
apply_slippage_up amount bps r h = grind arith

-- A lower limit never fails for a `u64` and a tolerance of at most 100%: it is the greatest amount
-- that is not above amount·(10,000 - bps)/10,000, so it is at most the amount.
apply_slippage_down :
    (amount bps : ℕ)
    → amount ≤ max_u64
    → bps ≤ 10_000
    → (r : ℕ) × (apply_slippage amount bps false ≡ ok r)
      × (r * 10_000 ≤ amount * (10_000 - bps))
      × (amount * (10_000 - bps) < (r + 1) * 10_000)
      × (r ≤ amount)
unfolding apply_slippage
apply_slippage_down amount bps a b =
    let scaled : amount * (10_000 - bps) ≤ max_u64 * 10_000 = grind arith in
    let less : amount * (10_000 - bps) ≤ amount * 10_000 = grind arith in
    ((amount * (10_000 - bps)) / 10_000, ground arith, omega arith, omega arith, omega arith)
