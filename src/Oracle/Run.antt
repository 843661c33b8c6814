-- ===== src/Oracle/Run.antt =====
-- services/oracle/src/pricing/mod.rs: the task of the engine, as a fold over the events that its
-- `select` takes in turn, an observation or a tick of the clock, each with the time that is read for
-- it. `none` is a panic. The end of the list is the closing of the channel.
use testnet_testsuite.Prelude.{
  ℕ, ◌<◌, List, [], ◌∷◌, ◌++◌, Option, none, some, and_then, ◌≡◌, refl, sym, ap, ◌∙◌, All, ok_or,
}
use testnet_testsuite.Prelude.Int.{pos, half_i64}
use testnet_testsuite.Decimal.{Decimal}
use testnet_testsuite.Oracle.Types.{Symbol, PricePoint}
use testnet_testsuite.Oracle.Floats.{Floats}
use testnet_testsuite.Oracle.Store.{
  AppState, update, update_all, get, one_price, last_of, StatusCode, one_price-update_all,
}
use testnet_testsuite.Oracle.Pricing.State.{InstrumentRuntime, Engine}
use testnet_testsuite.Oracle.Pricing.Engine.{on_underlying, on_tick}
use testnet_testsuite.Oracle.Pricing.Registry.{IsIndexed}
use testnet_testsuite.Oracle.Pricing.Shape.{SameShape, SameShape-refl, SameShape-trans}
use testnet_testsuite.Oracle.Pricing.Underlying.{on_underlying-IsIndexed}
use testnet_testsuite.Oracle.Pricing.Clock.{MayTurn, SameShape-MayTurn, on_tick-SameShape}

pub data Event : Type 0 where
  -- A price point of a feed, and the time at which it is taken.
  observed : PricePoint → ℕ → Event
  ticked : ℕ → Event

update_all-append :
    (state : AppState) (ps qs : List PricePoint)
    → update_all state (ps ++ qs) ≡ update_all (update_all state ps) qs
unfolding update_all
update_all-append state [] qs = refl
update_all-append state (p ∷ ps) qs = update_all-append (update state p) ps qs

module _ {D F R : Type 0} where
  -- An observation comes at a time that fits an `i64`; a tick comes while the next turns fit one.
  abbrev pub IsTimely : List (InstrumentRuntime D F R) → Event → Type 0
  IsTimely xs (observed point now) = now < half_i64
  IsTimely xs (ticked now) = All (MayTurn now) xs

  SameShape-IsTimely :
      (xs ys : List (InstrumentRuntime D F R)) (events : List Event)
      → SameShape xs ys
      → All (IsTimely xs) events
      → All (IsTimely ys) events
  SameShape-IsTimely xs ys [] p h = tt
  SameShape-IsTimely xs ys (observed point now ∷ events) p h =
      (h.0, SameShape-IsTimely xs ys events p h.1)
  SameShape-IsTimely xs ys (ticked now ∷ events) p h =
      (SameShape-MayTurn now xs ys p h.0, SameShape-IsTimely xs ys events p h.1)

module _ {D F R : Type 0} ⦃d : Decimal D⦄ ⦃f : Floats D F R⦄ where
  unfoldable pub handle : Engine D F R → Event → Option (Engine D F R × List PricePoint)
  handle eng (observed point now) = on_underlying eng point (pos now)
  handle eng (ticked now) = on_tick eng (pos now)

  unfoldable pub run : Engine D F R → AppState → List Event → Option (Engine D F R × AppState)
  unfolding handle
  run eng state [] = some (eng, state)
  run eng state (event ∷ events) =
      and_then (handle eng event) λ r. run r.0 (update_all state r.1) events

  handle-IsIndexed :
      (eng : Engine D F R) (event : Event)
      → IsIndexed eng
      → IsTimely eng.instruments event
      → (r : Engine D F R × List PricePoint) × (handle eng event ≡ some r)
        × IsIndexed r.0
        × SameShape eng.instruments r.0.instruments
  unfolding handle
  handle-IsIndexed eng (observed point now) v h = on_underlying-IsIndexed eng point now h v
  handle-IsIndexed eng (ticked now) v h = on_tick-SameShape eng now v h

  -- What the engine alone makes of the events: the points that its handlers return, in the order of
  -- the events, and the engine that is left.
  abbrev pub IsPublishing : Engine D F R → List Event → List PricePoint → Engine D F R → Type 0
  IsPublishing eng [] published last = (published ≡ []) × (last ≡ eng)
  IsPublishing eng (event ∷ events) published last =
      (next : Engine D F R) × (outs rest : List PricePoint) × (handle eng event ≡ some (next, outs))
      × (published ≡ outs ++ rest)
      × IsPublishing next events rest last

  pub run-IsIndexed :
      (eng : Engine D F R) (state : AppState) (events : List Event)
      → IsIndexed eng
      → All (IsTimely eng.instruments) events
      → (r : Engine D F R × AppState) × (run eng state events ≡ some r)
        × IsIndexed r.0
        × SameShape eng.instruments r.0.instruments
        × ((published : List PricePoint) × IsPublishing eng events published r.0
            × (r.1 ≡ update_all state published)
            × ((s : Symbol)
                → one_price r.1 (some s) none
                  ≡ ok_or (last_of s published (get state s)) StatusCode.not_found))
  unfolding run update_all
  run-IsIndexed eng state [] v h = (
    (eng, state),
    refl,
    v,
    SameShape-refl eng.instruments,
    ([], (refl, refl), refl, λ s. (one_price-update_all state [] s).0),
  )
  run-IsIndexed eng state (event ∷ events) v h =
      let (r, e, v', p) = handle-IsIndexed eng event v h.0 in
      let (r', e', v2, p', (published, made, same, prices)) =
        run-IsIndexed r.0 (update_all state r.1) events v'
          (SameShape-IsTimely eng.instruments r.0.instruments events p h.1) in
      let whole = same ∙ sym (update_all-append state r.1 published) in
      (
        r',
        rw (e, run) e',
        v2,
        SameShape-trans eng.instruments r.0.instruments r'.0.instruments p p',
        (
          r.1 ++ published,
          (r.0, r.1, published, e, refl, made),
          whole,
          λ s.
              ap (λ x. one_price x (some s) none) whole
              ∙ (one_price-update_all state (r.1 ++ published) s).0,
        ),
      )
