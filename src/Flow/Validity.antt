-- ===== src/Flow/Validity.antt =====
-- crates/raydium-clmm-orchestrator/src/lib.rs: which parameters a flow accepts, and what a funding
-- sends.
use testnet_testsuite.Prelude.{
  List, [], ◌∷◌, false, ok, err, ◌≡◌, ◌≢◌, ◌⊎◌, inl, inr, refl, Bool-cases, ◌==◌, arith, String,
  All,
}
use testnet_testsuite.Decimal.{Decimal}
use testnet_testsuite.Flow.Task.{◌>>=◌, lift}
use testnet_testsuite.Flow.Types.{stops, OrchestrationError, UserFlowParams, Orchestrator}
use testnet_testsuite.Flow.Checks.{
  ensure_positive, ensure_all_positive, named_values, validate_user_flow_params,
}
use testnet_testsuite.Flow.Steps.{run_user_flow}

module _ {D : Type 0} ⦃d : Decimal D⦄ where
  -- Two different mints, eight positive values, and a range that is not empty.
  pub record IsValid (params : UserFlowParams D) : Type 0 where
    pub mints : params.mint_a ≢ params.mint_b
    pub values : All (λ v. d.le v.1 d.nought ≡ false) (named_values params)
    pub range : d.le params.upper_price params.lower_price ≡ false

  ensure_all_positive-All :
      (values : List (String × D))
      → ((ensure_all_positive values ≡ ok tt) × All (λ v. d.le v.1 d.nought ≡ false) values)
        ⊎ ((e : OrchestrationError) × (ensure_all_positive values ≡ err (stops e)))
  unfolding ensure_all_positive ensure_positive
  ensure_all_positive-All [] = inl (refl, tt)
  ensure_all_positive-All ((name, value) ∷ rest) = elim (Bool-cases (d.le value d.nought)) [
    | inl low ↦ inr (rw low (_, refl))
    | inr high ↦ elim (ensure_all_positive-All rest) [
      | inl (e, all) ↦ inl (rw high e, (high, all))
      | inr (x, e) ↦ inr (x, rw high e)
    ]
  ]

  validate_user_flow_params-IsValid :
      (params : UserFlowParams D)
      → ((validate_user_flow_params params ≡ ok tt) × IsValid params)
        ⊎ ((e : OrchestrationError) × (validate_user_flow_params params ≡ err (stops e)))
  unfolding validate_user_flow_params
  validate_user_flow_params-IsValid params = elim (Bool-cases (params.mint_a == params.mint_b)) [
    | inl same ↦ inr (rw same (_, refl))
    | inr differ ↦ elim (ensure_all_positive-All (named_values params)) [
      | inr (x, e) ↦ inr (x, rw (differ, e) refl)
      | inl (e, all) ↦ elim (Bool-cases (d.le params.upper_price params.lower_price)) [
        | inl empty ↦ inr (rw (differ, e, empty) (_, refl))
        | inr wide ↦
            inl (
              rw (differ, e, wide) refl,
              record { mints = ground arith; values = all; range = wide },
            )
      ]
    ]
  ]

  -- A flow whose parameters are not valid fails with an error before it reads or sends anything; so a
  -- flow that succeeds had two different mints, eight positive values and a range that is not empty.
  pub run_user_flow-IsValid :
      {P C B T K W : Type 0} (self : Orchestrator P C B T K W) (params : UserFlowParams D) (w : W)
      → IsValid params
        ⊎ ((e : OrchestrationError) × (run_user_flow self params w ≡ (err (stops e), w)))
  unfolding run_user_flow ◌>>=◌ lift
  run_user_flow-IsValid self params w = elim (validate_user_flow_params-IsValid params) [
    | inl (e, valid) ↦ inl valid
    | inr (x, e) ↦ inr (x, rw e refl)
  ]
