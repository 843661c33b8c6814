-- ===== src/Oracle/Pricing/Underlying.antt =====
-- services/oracle/src/pricing/mod.rs: `eval` keeps the shape of an instrument, and `on_underlying`
-- the indices of an engine.
use testnet_testsuite.Prelude.{
  ℕ, ◌<◌, List, [], ◌∷◌, Option, none, some, Option-cases, inl, inr, ◌≡◌, refl, length,
  get_elem?-some, set, All, All-map, All-get, All-set, and_then, arith,
}
use testnet_testsuite.Prelude.Int.{ℤ, pos, half_i64}
use testnet_testsuite.Prelude.Dict.{Dict, lookup, insert}
use testnet_testsuite.Prelude.{string_eq}
use testnet_testsuite.Decimal.{Decimal}
use testnet_testsuite.Oracle.Types.{Symbol, PricePoint}
use testnet_testsuite.Oracle.Floats.{Floats}
use testnet_testsuite.Oracle.Pricing.State.{
  Snapshot, BaseState, TransformState, InstrumentRuntime, Engine, feeds_of, is_clock_driven,
}
use testnet_testsuite.Oracle.Pricing.Eval.{eval_base, eval, to_point}
use testnet_testsuite.Oracle.Pricing.Engine.{snapshot_of, eval_all, on_underlying, reduce}
use testnet_testsuite.Oracle.Pricing.Times.{KeepsTime, run_transforms-KeepsTimes}
use testnet_testsuite.Oracle.Pricing.Registry.{listeners, IsIndexed, listeners-bound}
use testnet_testsuite.Oracle.Pricing.Build.{listed}
use testnet_testsuite.Oracle.Pricing.Shape.{
  wait_us, IsSame, SameShape, SameShape-refl, SameShape-trans, SameShape-set, SameShape-length,
  SameShape-IsIndexed,
}

module _ {D F R : Type 0} ⦃d : Decimal D⦄ ⦃f : Floats D F R⦄ where
  eval_base_same :
      (b : BaseState D F R) (latest : Dict Symbol (Snapshot D)) (now : ℤ)
      → let b' = (eval_base b latest now).0 in
        (feeds_of b' ≡ feeds_of b)
        × (is_clock_driven b' ≡ is_clock_driven b)
        × (wait_us b' ≡ wait_us b)
  unfolding eval_base
  eval_base_same (BaseState.basket legs rebase factor) latest now = ground arith
  eval_base_same _ latest now = (refl, refl, refl)

  same_lem :
      (x : InstrumentRuntime D F R) (b : BaseState D F R) (ts : List (TransformState D F R))
      → feeds_of b ≡ feeds_of x.base
      → is_clock_driven b ≡ is_clock_driven x.base
      → wait_us b ≡ wait_us x.base
      → IsSame x (record x { base = b; transforms = ts })
  same_lem x b ts feeds clock wait = record {
    feeds_same = feeds;
    clock_same = clock;
    wait_same = wait;
    symbol_same = refl;
    expo_same = refl;
  }

  -- An evaluation at a time of the clock makes no panic; it changes the evaluation state alone, and its
  -- transforms keep times again.
  pub eval-IsSame :
      (x : InstrumentRuntime D F R) (latest : Dict Symbol (Snapshot D)) (now : ℕ)
      → now < half_i64
      → All KeepsTime x.transforms
      → (r : InstrumentRuntime D F R × Option PricePoint) × (eval x latest (pos now) ≡ some r)
        × IsSame x r.0
        × (r.0.next_due_us ≡ x.next_due_us)
        × All KeepsTime r.0.transforms
  unfolding eval
  eval-IsSame x latest now h k =
      let (feeds, clock, wait) = eval_base_same x.base latest (pos now) in
      let b = (eval_base x.base latest (pos now)).0 in
      elim (Option-cases (eval_base x.base latest (pos now)).1) [
        | inl e ↦ (
          (record x { base = b }, none),
          rw (e, eval) refl,
          same_lem x b x.transforms feeds clock wait,
          refl,
          k,
        )
        | inr (ctx, e) ↦
            let (r, e', k') = run_transforms-KeepsTimes x.transforms ctx now h k in
            (
              (
                record x { base = b; transforms = r.0 },
                and_then r.1 (λ c. to_point x.symbol x.expo c (pos now)),
              ),
              rw (e, e', eval) refl,
              same_lem x b r.0 feeds clock wait,
              refl,
              k',
            )
      ]

  -- Indices in range make no panic.
  eval_all_lem :
      (is : List ℕ) (xs : List (InstrumentRuntime D F R)) (latest : Dict Symbol (Snapshot D))
      (now : ℕ)
      → now < half_i64
      → All (λ x. All KeepsTime x.transforms) xs
      → All (λ i. i < length xs) is
      → (r : List (InstrumentRuntime D F R) × List PricePoint) × (eval_all is xs latest (pos now)
          ≡ some r)
        × SameShape xs r.0
        × All (λ x. All KeepsTime x.transforms) r.0
  unfolding eval_all
  eval_all_lem [] xs latest now b k h = ((xs, []), refl, SameShape-refl xs, k)
  eval_all_lem (i ∷ is) xs latest now b k h =
      let (x, e) = get_elem?-some xs i h.0 in
      let (y, e2, same, _, times) =
        eval-IsSame x latest now b (All-get (λ z. All KeepsTime z.transforms) xs i x k e) in
      let step = SameShape-set xs i x y.0 e same in
      let (r, e', p, k') =
        eval_all_lem is (set xs i y.0) latest now b
          (All-set (λ z. All KeepsTime z.transforms) xs i y.0 k times)
          (All-map _ _ is (λ j k. omega (arith, SameShape-length xs (set xs i y.0) step)) h.1) in
      (
        (r.0, elim y.1 [ some q ↦ q ∷ r.1 | none ↦ r.1 ]),
        rw (e, e2, e'),
        SameShape-trans xs (set xs i y.0) r.0 step p,
        k',
      )

  pub on_underlying-IsIndexed :
      (eng : Engine D F R) (point : PricePoint) (now : ℕ)
      → now < half_i64
      → IsIndexed eng
      → (r : Engine D F R × List PricePoint) × (on_underlying eng point (pos now) ≡ some r)
        × IsIndexed r.0
        × SameShape eng.instruments r.0.instruments
  unfolding on_underlying
  on_underlying-IsIndexed eng point now b v = elim (Option-cases (reduce {D = D} point.body)) [
    | inl e ↦ ((eng, []), rw (e, on_underlying), v, SameShape-refl eng.instruments)
    | inr ((value, ratio), e) ↦
        let latest' = insert point.symbol (snapshot_of point value ratio) eng.latest in
        elim (Option-cases (lookup point.symbol eng.by_feed)) [
          | inl e2 ↦ (
            (record eng { latest = latest' }, []),
            rw (e, e2, on_underlying),
            record {
              feeds_indexed = v.feeds_indexed;
              clock_indexed = v.clock_indexed;
              times_fit = v.times_fit;
            },
            SameShape-refl eng.instruments,
          )
          | inr (is, e2) ↦
              let listed_is : is ≡ listeners point.symbol 0 eng.instruments =
                rw (e2, listed) at (v.feeds_indexed point.symbol) in
              let (r, e3, p, times) = eval_all_lem is eng.instruments latest' now b v.times_fit (
                rw listed_is (
                  All-map _ _ _ (λ i h. omega arith)
                    (listeners-bound point.symbol 0 eng.instruments))) in
              let eng' = record eng { latest = latest'; instruments = r.0 } in
              (
                (eng', r.1),
                rw (e, e2, e3, on_underlying),
                SameShape-IsIndexed eng eng' v refl refl p times,
                p,
              )
        ]
  ]
