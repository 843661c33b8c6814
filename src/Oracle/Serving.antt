-- ===== src/Oracle/Serving.antt =====
-- services/oracle/src/lib.rs and pricing/mod.rs: the service from its configuration on.
use testnet_testsuite.Prelude.{List, none, some, ok, ◌≡◌, All, ok_or, ap, ◌∙◌}
use testnet_testsuite.Decimal.{Decimal}
use testnet_testsuite.Oracle.Types.{Symbol, PricePoint}
use testnet_testsuite.Oracle.Floats.{Floats}
use testnet_testsuite.Oracle.Spec.{InstrumentConfig}
use testnet_testsuite.Oracle.Config.{UnderlyingConfig, PartitionedFeeds}
use testnet_testsuite.Oracle.Store.{AppState, StatusCode, one_price, last_of, update_all}
use testnet_testsuite.Oracle.Pricing.State.{Engine}
use testnet_testsuite.Oracle.Run.{Event, IsTimely, IsPublishing, run, run-IsIndexed}
use testnet_testsuite.Oracle.Startup.{start, start-IsIndexed}

module _ {D F R : Type 0} ⦃d : Decimal D⦄ ⦃f : Floats D F R⦄ where
  -- A service that starts never panics, whatever its feeds observe, while the observations come at
  -- times that fit an `i64` and the ticks at times whose next turns fit one; and the state that is left
  -- is the first one with all the points that the engine returned, in their order, so that the price of
  -- a symbol is the last of those points for it, and is not found if there was none.
  pub run-start :
      (underlyings : List UnderlyingConfig) (instruments : List (InstrumentConfig F))
      (r : Engine D F R × AppState × PartitionedFeeds) (events : List Event)
      → start underlyings instruments ≡ ok r
      → All (IsTimely r.0.instruments) events
      → (q : Engine D F R × AppState) × (run r.0 r.1 events ≡ some q)
        × ((published : List PricePoint) × IsPublishing r.0 events published q.0
            × (q.1 ≡ update_all r.1 published)
            × ((s : Symbol)
                → one_price q.1 (some s) none
                  ≡ ok_or (last_of s published none) StatusCode.not_found))
  run-start underlyings instruments r events h timely =
      let (indexed, same, unknown, all) = start-IsIndexed underlyings instruments r h in
      let (q, e, v, shape, (published, made, state, prices)) =
        run-IsIndexed r.0 r.1 events indexed timely in
      (
        q,
        e,
        (
          published,
          made,
          state,
          λ s. prices s ∙ ap (λ o. ok_or (last_of s published o) StatusCode.not_found) (unknown s),
        ),
      )
