-- ===== src/Oracle/Pricing/Clock.antt =====
-- services/oracle/src/pricing/mod.rs: `on_tick`, the turns of the instruments that the clock drives.
use native.Mathlib.Decide.{ℕ_discrete}
use testnet_testsuite.Prelude.{
  ℕ, ◌+◌, ◌<◌, List, [], ◌∷◌, none, some, Bool-cases, inl, inr, true, ◌≡◌, refl, ◌∙◌, length,
  get_elem?, get_elem?-some, get_elem?-lt, get_elem?-set_self, get_elem?-set_ne, set, All, All-map,
  All-get, All-set, and_then, arith,
}
use testnet_testsuite.Prelude.Int.{ℤ, pos, half_i64, ltb_ℤ, narrow, ◌+ℤ◌, ◌*ℤ◌}
use testnet_testsuite.Prelude.Dict.{Dict}
use testnet_testsuite.Decimal.{Decimal}
use testnet_testsuite.Oracle.Types.{Symbol, PricePoint}
use testnet_testsuite.Oracle.Floats.{Floats}
use testnet_testsuite.Oracle.Pricing.State.{Snapshot, InstrumentRuntime, Engine}
use testnet_testsuite.Oracle.Pricing.Engine.{interval_us, tick_all, on_tick}
use testnet_testsuite.Oracle.Pricing.Registry.{IsIndexed, clocked-bound}
use testnet_testsuite.Oracle.Pricing.Shape.{
  wait_us, SameShape, SameShape-refl, SameShape-trans, SameShape-set, SameShape-length,
  SameShape-IsIndexed,
}
use testnet_testsuite.Oracle.Pricing.Underlying.{eval-IsSame}
use testnet_testsuite.Oracle.Pricing.Times.{KeepsTime}

module _ {D F R : Type 0} where
  -- A turn at `now` sets a time that lies ahead and fits an `i64`.
  abbrev pub MayTurn : ℕ → InstrumentRuntime D F R → Type 0
  MayTurn now x = (0 < wait_us x.base) × (now + wait_us x.base < half_i64)

  -- The next turn of the instrument at an index lies after `now`.
  abbrev pub IsWaiting : ℤ → List (InstrumentRuntime D F R) → ℕ → Type 0
  IsWaiting now xs i =
      (x : InstrumentRuntime D F R) × (get_elem? xs i ≡ some x) × (ltb_ℤ now x.next_due_us ≡ true)

  pub SameShape-MayTurn :
      (now : ℕ) (xs ys : List (InstrumentRuntime D F R))
      → SameShape xs ys
      → All (MayTurn now) xs
      → All (MayTurn now) ys
  SameShape-MayTurn now [] [] p h = tt
  SameShape-MayTurn now [] (y ∷ ys) p h = absurd p
  SameShape-MayTurn now (x ∷ xs) [] p h = absurd p
  SameShape-MayTurn now (x ∷ xs) (y ∷ ys) p h =
      (rw p.0.wait_same h.0, SameShape-MayTurn now xs ys p.1 h.1)

  set-IsWaiting :
      (now : ℤ) (xs : List (InstrumentRuntime D F R)) (i j : ℕ) (y : InstrumentRuntime D F R)
      → ltb_ℤ now y.next_due_us ≡ true
      → IsWaiting now xs i
      → IsWaiting now (set xs j y) i
  set-IsWaiting now xs i j y h w = elim (ℕ_discrete j i) [
    | yes e ↦ (y, rw e (get_elem?-set_self xs i y (get_elem?-lt xs i w.0 w.1)), h)
    | no ne ↦ (w.0, get_elem?-set_ne xs j i y ne ∙ w.1, w.2)
  ]

  next_due :
      (now : ℕ) (x : InstrumentRuntime D F R)
      → MayTurn now x
      → and_then (interval_us x.base) (λ w. narrow half_i64 (pos now +ℤ w))
        ≡ some (pos (now + wait_us x.base))
  unfolding interval_us ◌+ℤ◌ ◌*ℤ◌
  next_due now x h = ground arith

module _ {D F R : Type 0} ⦃d : Decimal D⦄ ⦃f : Floats D F R⦄ where
  -- Indices in range make no panic while the next turns fit.
  tick_all_lem :
      (is : List ℕ) (xs : List (InstrumentRuntime D F R)) (latest : Dict Symbol (Snapshot D))
      (now : ℕ)
      → All (λ i. i < length xs) is
      → All (MayTurn now) xs
      → All (λ x. All KeepsTime x.transforms) xs
      → (r : List (InstrumentRuntime D F R) × List PricePoint) × (tick_all is xs latest (pos now)
          ≡ some r)
        × SameShape xs r.0
        × ((i : ℕ) → IsWaiting (pos now) xs i → IsWaiting (pos now) r.0 i)
        × All (IsWaiting (pos now) r.0) is
        × All (λ x. All KeepsTime x.transforms) r.0
  unfolding tick_all
  tick_all_lem [] xs latest now h m k = ((xs, []), refl, SameShape-refl xs, (λ i w. w), tt, k)
  tick_all_lem (i ∷ is) xs latest now h m k =
      let (x, e) = get_elem?-some xs i h.0 in
      elim (Bool-cases (ltb_ℤ (pos now) x.next_due_us)) [
        | inl early ↦
            let (r, e', p, keep, all, k') = tick_all_lem is xs latest now h.1 m k in
            (r, rw (e, early) e', p, keep, (keep i (x, e, early), all), k')
        | inr due ↦
            let x' = record x { next_due_us = pos (now + wait_us x.base) } in
            let may = All-get (MayTurn now) xs i x m e in
            let (o, e2, same, next, times) =
              eval-IsSame x' latest now (omega (arith, may.1))
                (All-get (λ z. All KeepsTime z.transforms) xs i x k e) in
            let y = o.0 in
            let waits : ltb_ℤ (pos now) y.next_due_us ≡ true = rw next (ground arith) in
            let step : SameShape xs (set xs i y) = SameShape-set xs i x y e (record {
              feeds_same = same.feeds_same;
              clock_same = same.clock_same;
              wait_same = same.wait_same;
              symbol_same = same.symbol_same;
              expo_same = same.expo_same;
            }) in
            let (r, e', p, keep, all, k') =
              tick_all_lem is (set xs i y) latest now
                (All-map _ _ is (λ j k. omega (arith, SameShape-length xs (set xs i y) step)) h.1)
                (SameShape-MayTurn now xs (set xs i y) step m)
                (All-set (λ z. All KeepsTime z.transforms) xs i y k times) in
            (
              (r.0, elim o.1 [ some q ↦ q ∷ r.1 | none ↦ r.1 ]),
              rw (e, due, next_due now x may, e2, e'),
              SameShape-trans xs (set xs i y) r.0 step p,
              (λ j w. keep j (set-IsWaiting (pos now) xs j i y waits w)),
              (keep i (y, get_elem?-set_self xs i y h.0, waits), all),
              k',
            )
      ]

  tick_all_waiting :
      (is : List ℕ) (xs : List (InstrumentRuntime D F R)) (latest : Dict Symbol (Snapshot D))
      (now : ℤ)
      → All (IsWaiting now xs) is
      → tick_all is xs latest now ≡ some (xs, [])
  unfolding tick_all
  tick_all_waiting [] xs latest now h = refl
  tick_all_waiting (i ∷ is) xs latest now h =
      rw (h.0.1, h.0.2) (tick_all_waiting is xs latest now h.1)

  pub on_tick-SameShape :
      (eng : Engine D F R) (now : ℕ)
      → IsIndexed eng
      → All (MayTurn now) eng.instruments
      → (r : Engine D F R × List PricePoint) × (on_tick eng (pos now) ≡ some r)
        × IsIndexed r.0
        × SameShape eng.instruments r.0.instruments
  unfolding on_tick
  on_tick-SameShape eng now v m =
      let (r, e, p, _, all, times) =
        tick_all_lem eng.timed eng.instruments eng.latest now
          (rw v.clock_indexed
            (All-map _ _ _ (λ i h. omega arith) (clocked-bound 0 eng.instruments)))
          m v.times_fit in
      let eng' = record eng { instruments = r.0 } in
      ((eng', r.1), rw e, SameShape-IsIndexed eng eng' v refl refl p times, p)

  -- On an engine whose indices are those of its instruments, and whose transforms keep times that are
  -- not negative and fit an `i64`, a tick makes no panic while the next turns fit an `i64`; the new
  -- engine is again such an engine; and a second
  -- tick at the same time changes nothing and publishes nothing, since every instrument that the
  -- clock drives now waits for a later turn.
  pub on_tick-IsIndexed :
      (eng : Engine D F R) (now : ℕ)
      → IsIndexed eng
      → All (MayTurn now) eng.instruments
      → (r : Engine D F R × List PricePoint) × (on_tick eng (pos now) ≡ some r)
        × IsIndexed r.0
        × (on_tick r.0 (pos now) ≡ some (r.0, []))
  unfolding on_tick
  on_tick-IsIndexed eng now v m =
      let (r, e, p, _, all, times) =
        tick_all_lem eng.timed eng.instruments eng.latest now
          (rw v.clock_indexed
            (All-map _ _ _ (λ i h. omega arith) (clocked-bound 0 eng.instruments)))
          m v.times_fit in
      let eng' = record eng { instruments = r.0 } in
      (
        (eng', r.1),
        rw e,
        SameShape-IsIndexed eng eng' v refl refl p times,
        rw (tick_all_waiting eng.timed r.0 eng.latest (pos now) all),
      )
