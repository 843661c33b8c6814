-- ===== src/Oracle/Pricing/State.antt =====
-- services/oracle/src/pricing/mod.rs: the engine's state. `D` is `Decimal`, `F` is `f64` and `R` the
-- random number generator.
use testnet_testsuite.Prelude.{ℕ, List, Option, Bool, true, false, [], ◌∷◌, map}
use testnet_testsuite.Prelude.Int.{ℤ}
use testnet_testsuite.Prelude.Dict.{Dict}
use testnet_testsuite.Oracle.Types.{Symbol, PriceSource}

abbrev pub engine_tick_ms : ℕ
engine_tick_ms = 250

pub record Snapshot (D : Type 0) : Type 0 where
  pub value : D
  pub conf_ratio : Option D
  pub publish_time_us : Option ℤ
  pub slot : Option ℕ
  pub source : PriceSource

pub record EvalCtx (D : Type 0) : Type 0 where
  pub value : D
  pub conf_ratio : Option D
  pub publish_time_us : Option ℤ
  pub slot : Option ℕ
  pub source : PriceSource
  pub is_derived : Bool

pub data BaseState (D F R : Type 0) : Type 0 where
  underlying : Symbol → BaseState D F R
  -- base, quote
  cross : Symbol → Symbol → BaseState D F R
  -- legs, rebase, factor
  basket : List (Symbol × D) → Option D → Option D → BaseState D F R
  -- target
  peg : D → BaseState D F R
  -- price, sigma_daily, drift_daily, tick_ms, rng
  gbm : F → F → F → ℕ → R → BaseState D F R

pub record LagSample (D : Type 0) : Type 0 where
  pub at_us : ℤ
  pub ctx : EvalCtx D

pub data TransformState (D F R : Type 0) : Type 0 where
  -- factor, offset
  scale : D → D → TransformState D F R
  invert : TransformState D F R
  -- beta, anchor, initial
  beta : F → F → F → TransformState D F R
  -- us, buf
  lag : ℤ → List (LagSample D) → TransformState D F R
  -- sigma, halflife_us, x, last_us, rng
  noise : F → F → F → Option ℤ → R → TransformState D F R

pub record InstrumentRuntime (D F R : Type 0) : Type 0 where
  pub symbol : Symbol
  pub expo : ℤ
  pub base : BaseState D F R
  pub transforms : List (TransformState D F R)
  pub next_due_us : ℤ

pub record Engine (D F R : Type 0) : Type 0 where
  pub instruments : List (InstrumentRuntime D F R)
  pub by_feed : Dict Symbol (List ℕ)
  pub timed : List ℕ
  pub latest : Dict Symbol (Snapshot D)

module _ {D F R : Type 0} where
  -- The feeds that a base reads, as often as it reads them.
  abbrev pub feeds_of : BaseState D F R → List Symbol
  feeds_of (BaseState.underlying feed) = feed ∷ []
  feeds_of (BaseState.cross base quote) = base ∷ quote ∷ []
  feeds_of (BaseState.basket legs _ _) = map (λ leg. leg.0) legs
  feeds_of (BaseState.peg _) = []
  feeds_of (BaseState.gbm _ _ _ _ _) = []

  -- `matches!(base, Gbm | Peg)`.
  abbrev pub is_clock_driven : BaseState D F R → Bool
  is_clock_driven (BaseState.peg _) = true
  is_clock_driven (BaseState.gbm _ _ _ _ _) = true
  is_clock_driven _ = false
