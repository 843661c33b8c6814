-- ===== src/Flow/Checks.antt =====
-- crates/raydium-clmm-orchestrator/src/lib.rs: the checks of parameters and the conversion of amounts
-- and prices.
use testnet_testsuite.Prelude.{
  ℕ, ◌^◌, String, List, [], ◌∷◌, not, Result, ok, ◌>>=◌, ◌>>◌, ok_or, fail_if, if◌then◌else◌, ltb,
  ◌==◌,
}
use testnet_testsuite.Prelude.Int.{max_u64, narrow_ℕ}
use testnet_testsuite.Decimal.{Decimal}
use testnet_testsuite.Raydium.Types.{Pubkey, text, words, number}
use testnet_testsuite.Flow.Types.{FlowFault, invalid, PoolCreationParams, UserFlowParams}

module _ {D : Type 0} ⦃d : Decimal D⦄ where
  unfoldable pub ensure_positive : D → String → Result FlowFault (Unit {0})
  ensure_positive value name =
      fail_if (d.le value d.nought) (invalid (words name ∷ words " must be greater than zero" ∷ []))

  unfoldable pub ui_to_raw : D → ℕ → Result FlowFault ℕ
  ui_to_raw amount decimals = do
    factor_raw ← ok_or (narrow_ℕ max_u64 (10 ^ decimals)) (
        invalid (
          words "mint decimals "
          ∷ number decimals
          ∷ words " cannot be represented as a u64 scale"
          ∷ []))
    scaled ←
        ok_or (d.checked_mul amount (d.from_u64 factor_raw))
          (invalid (text "token amount overflow"))
    fail_if (not (d.eq (d.fract scaled) d.nought)) (
        invalid
          (words "token amount has more than " ∷ number decimals ∷ words " decimal places" ∷ []))
    ok_or (d.to_u64 scaled) (invalid (text "token amount exceeds u64"))

  -- A range in prices of the first mint of the pool, whichever mint comes first.
  unfoldable pub normalized_range :
      (mint_a mint_b : Pubkey) → (lower upper : D) → Result FlowFault (D × D)
  normalized_range mint_a mint_b lower upper =
      let inverted : Result FlowFault (D × D) =
        (ok_or (d.checked_div d.unit upper) (invalid (text "upper price inversion failed"))
          >>= λ low.
              ok_or (d.checked_div d.unit lower) (invalid (text "lower price inversion failed"))
              >>= λ high. ok (low, high)) in
      if ltb mint_a mint_b then ok (lower, upper) else inverted

  unfoldable pub validate_pool_creation_params : PoolCreationParams D → Result FlowFault (Unit {0})
  validate_pool_creation_params params = do
    fail_if (params.mint_a == params.mint_b) (invalid (text "mint_a and mint_b must differ"))
    ensure_positive params.initial_price "initial_price"

  -- The loop over the named values.
  unfoldable pub ensure_all_positive : List (String × D) → Result FlowFault (Unit {0})
  ensure_all_positive [] = ok tt
  ensure_all_positive ((name, value) ∷ rest) =
      ensure_positive value name >> ensure_all_positive rest

  -- The values that have to be positive.
  abbrev pub named_values : UserFlowParams D → List (String × D)
  named_values params =
      ("funding_a", params.funding_a)
      ∷ ("funding_b", params.funding_b)
      ∷ ("lower_price", params.lower_price)
      ∷ ("upper_price", params.upper_price)
      ∷ ("open_amount", params.open_amount)
      ∷ ("increase_amount", params.increase_amount)
      ∷ ("exact_in_amount", params.exact_in_amount)
      ∷ ("exact_out_amount", params.exact_out_amount)
      ∷ []

  unfoldable pub validate_user_flow_params : UserFlowParams D → Result FlowFault (Unit {0})
  validate_user_flow_params params = do
    fail_if (params.mint_a == params.mint_b) (invalid (text "mint_a and mint_b must differ"))
    ensure_all_positive (named_values params)
    fail_if (d.le params.upper_price params.lower_price)
        (invalid (text "lower_price must be less than upper_price"))
