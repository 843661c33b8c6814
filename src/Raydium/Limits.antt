-- ===== src/Raydium/Limits.antt =====
-- crates/raydium-clmm-client/src/lib.rs: the limits that a quote or a swap sends.
use testnet_testsuite.Prelude.{
  ℕ, ◌+◌, ◌-◌, ◌*◌, ◌≤◌, ◌<◌, inl, inr, Result-cases, true, false, String, ok, ◌≡◌, arith,
}
use testnet_testsuite.Raydium.Types.{MintInfo}
use testnet_testsuite.Raydium.Monad.{Client}
use testnet_testsuite.Raydium.Amounts.{apply_slippage}
use testnet_testsuite.Raydium.Slippage.{apply_slippage_up}
use testnet_testsuite.Raydium.Liquidity.{transfer_fee, add_u64}
use testnet_testsuite.Raydium.Swap.{SwapBounds, swap_bounds}

apply_slippage-le :
    (amount bps r : ℕ)
    → apply_slippage amount bps false ≡ ok r
    → r * 10_000 ≤ amount * (10_000 - bps)
unfolding apply_slippage
apply_slippage-le amount bps r h = grind arith

-- A lower limit is the greatest amount that is not above the tolerance.
apply_slippage-greatest :
    (amount bps r : ℕ)
    → apply_slippage amount bps false ≡ ok r
    → amount * (10_000 - bps) < (r + 1) * 10_000
unfolding apply_slippage
apply_slippage-greatest amount bps r h = grind arith

add_u64-le : (a b r : ℕ) (s : String) → add_u64 a b s ≡ ok r → a ≤ r
add_u64-le a b r s h = ground arith

module _ {P C B T K W : Type 0} (self : Client P C B T K W) where
  -- If it has bounds, a swap of an exact input sends as threshold for its output the greatest amount
  -- that is not above the quote less the tolerance; it expects to pay what was asked for, and to get
  -- the quote less the transfer fee of the output's mint.
  pub swap_bounds_exact_in :
      (input output : MintInfo) (epoch requested calculated : ℕ) (b : SwapBounds)
      → swap_bounds self true input output epoch requested calculated ≡ ok b
      → (b.threshold * 10_000 ≤ calculated * (10_000 - self.slippage_bps))
        × (calculated * (10_000 - self.slippage_bps) < (b.threshold + 1) * 10_000)
        × (b.expected_input ≡ requested)
        × ((fee : ℕ) × (transfer_fee self output epoch calculated ≡ ok fee)
            × (b.expected_output + fee ≡ calculated))
  unfolding swap_bounds
  swap_bounds_exact_in input output epoch requested calculated b h =
      elim (Result-cases (transfer_fee self output epoch calculated)) [
        | inr (x, e) ↦ absurd (cc (rw (e, swap_bounds) at h))
        | inl (fee, e) ↦ elim (Result-cases (apply_slippage calculated self.slippage_bps false)) [
          | inr (x, e2) ↦ absurd (cc (rw (e, e2, swap_bounds) at h))
          | inl (t, e2) ↦
              let below = apply_slippage-le calculated self.slippage_bps t e2 in
              let above = apply_slippage-greatest calculated self.slippage_bps t e2 in
              let h' = rw (e, e2, swap_bounds) at h in
              (ground arith, ground arith, ground arith, (fee, e, ground arith))
        ]
      ]

  -- If it has bounds, a swap of an exact output sends a threshold for its input that covers the quote with the
  -- tolerance, and expects to pay at least the quote and to get what was asked for.
  pub swap_bounds_exact_out :
      (input output : MintInfo) (epoch requested calculated : ℕ) (b : SwapBounds)
      → swap_bounds self false input output epoch requested calculated ≡ ok b
      → (calculated * (10_000 + self.slippage_bps) ≤ b.threshold * 10_000)
        × (calculated ≤ b.expected_input)
        × (b.expected_output ≡ requested)
  unfolding swap_bounds
  swap_bounds_exact_out input output epoch requested calculated b h =
      ground (arith, apply_slippage_up calculated self.slippage_bps)
