-- ===== src/Raydium/Amounts.antt =====
-- crates/raydium-clmm-client/src/lib.rs: the checks and conversions of amounts. Overflow checks are
-- on in every profile, so `10_u128.pow` panics out of range.
use testnet_testsuite.Prelude.{
  ℕ, ◌+◌, ◌*◌, ◌/◌, ◌^◌, String, [], ◌∷◌, Bool, not, Result, ok, ◌>>=◌, ◌>>◌, ok_or, fail_if,
  and_then, if◌then◌else◌, leb, ltb, ◌==◌, ◌||◌,
}
use testnet_testsuite.Prelude.Int.{max_u32, max_u64, max_u128, narrow_ℕ, checked_sub}
use testnet_testsuite.Decimal.{Decimal}
use testnet_testsuite.Raydium.Types.{
  Message, text, words, number, RaydiumClmmError, Fault, fails, panics, EnsureAmmConfigParams,
}

abbrev pub invalid : Message → Fault
invalid m = fails (RaydiumClmmError.invalid_input m)

abbrev pub quote_failed : String → Fault
quote_failed s = fails (RaydiumClmmError.quote_error (text s))

-- `states::MAX_TICK_SPACING` and `states::FEE_RATE_DENOMINATOR_VALUE` are constants of the
-- interface crate.
unfoldable pub validate_amm_config_params :
    (max_tick_spacing fee_denominator : ℕ) → EnsureAmmConfigParams → Result Fault (Unit {0})
validate_amm_config_params max_tick_spacing fee_denominator params = do
  fail_if (params.tick_spacing == 0 || ltb max_tick_spacing params.tick_spacing)
      (invalid (words "tick_spacing must be between 1 and " ∷ number max_tick_spacing ∷ []))
  fail_if (leb fee_denominator params.trade_fee_rate)
      (invalid (words "trade_fee_rate must be less than " ∷ number fee_denominator ∷ []))
  owner_fee_rate ←
      ok_or (narrow_ℕ max_u32 (params.protocol_fee_rate + params.fund_fee_rate))
        (invalid (text "owner fee rate overflow"))
  fail_if (ltb fee_denominator owner_fee_rate) (
      invalid
        (words "protocol_fee_rate plus fund_fee_rate cannot exceed " ∷ number fee_denominator ∷ []))

-- Amounts with a tolerance in basis points: rounded up when they may grow, down when they may
-- shrink.
unfoldable pub apply_slippage : ℕ → ℕ → Bool → Result Fault ℕ
apply_slippage amount bps increase = do
  numerator ←
      if increase
      then ok (10_000 + bps)
      else ok_or (checked_sub 10_000 bps) (quote_failed "slippage underflow")
  product ←
      ok_or (narrow_ℕ max_u128 (amount * numerator))
        (quote_failed "slippage multiplication overflow")
  adjusted ←
      if increase
      then (ok_or (narrow_ℕ max_u128 (product + 9_999)) (quote_failed "slippage rounding overflow")
          >>= λ sum. ok (sum / 10_000))
      else ok (product / 10_000)
  ok_or (narrow_ℕ max_u64 adjusted) (quote_failed "slippage result exceeds u64")

-- `10_u128.pow(u32::from(decimals))`.
unfoldable pub pow10_u128 : ℕ → Result Fault ℕ
pow10_u128 decimals = ok_or (narrow_ℕ max_u128 (10 ^ decimals)) panics

module _ {D : Type 0} ⦃d : Decimal D⦄ where
  unfoldable pub ensure_positive : D → String → Result Fault (Unit {0})
  ensure_positive value label =
      fail_if (d.le value d.nought)
        (invalid (words label ∷ words " must be greater than zero" ∷ []))

  unfoldable pub ui_to_raw : D → ℕ → Result Fault ℕ
  unfolding ensure_positive pow10_u128
  ui_to_raw amount decimals = do
    ensure_positive amount "token amount"
    scale ← pow10_u128 decimals
    multiplier ← ok_or (d.from_u128 scale) (quote_failed "decimal multiplier overflow")
    raw ← ok_or (d.checked_mul amount multiplier) (quote_failed "token amount overflow")
    fail_if (not (d.eq (d.fract raw) d.nought)) (
        invalid
          (words "token amount has more than " ∷ number decimals ∷ words " decimal places" ∷ []))
    ok_or (d.to_u64 raw) (quote_failed "token amount does not fit u64")

  -- The square root of a price in Q64.64; `fixed_point_64::Q64` is 2^64.
  unfoldable pub price_to_sqrt_x64 : D → ℕ → ℕ → Result Fault ℕ
  unfolding ensure_positive pow10_u128
  price_to_sqrt_x64 price decimals_0 decimals_1 = do
    ensure_positive price "price"
    pow_0 ← pow10_u128 decimals_0
    scale_0 ← ok_or (d.from_u128 pow_0) (quote_failed "mint 0 decimal scale overflow")
    pow_1 ← pow10_u128 decimals_1
    scale_1 ← ok_or (d.from_u128 pow_1) (quote_failed "mint 1 decimal scale overflow")
    raw_price ←
        ok_or (and_then (d.checked_mul price scale_1) (λ v. d.checked_div v scale_0))
          (quote_failed "price decimal normalization failed")
    root ← ok_or (d.sqrt raw_price) (quote_failed "price square root failed")
    q64 ← ok_or (d.from_u128 (2 ^ 64)) (quote_failed "Q64 conversion failed")
    ok_or (and_then (d.checked_mul root q64) (λ v. d.to_u128 (d.floor v)))
        (quote_failed "sqrt price does not fit u128")
