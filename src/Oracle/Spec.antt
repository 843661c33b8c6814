-- ===== src/Oracle/Spec.antt =====
-- services/oracle/src/pricing/spec.rs: the instrument registry as it is configured. `F` is the type
-- of the `f64` values.
use testnet_testsuite.Prelude.{ℕ, String, List, Option, none, some}
use testnet_testsuite.Prelude.Int.{ℤ}
use testnet_testsuite.Oracle.Types.{Symbol}

pub record BasketLeg : Type 0 where
  pub feed : Symbol
  pub weight : String

pub data BaseSourceConfig : Type 0 where
  underlying : Symbol → BaseSourceConfig
  -- base, quote
  cross : Symbol → Symbol → BaseSourceConfig
  -- legs, rebase
  basket : List BasketLeg → Option String → BaseSourceConfig
  -- target
  peg : String → BaseSourceConfig
  -- initial, daily_vol_bps, daily_drift_bps, seed, tick_ms
  gbm : String → ℕ → ℤ → ℕ → ℕ → BaseSourceConfig

pub data TransformConfig (F : Type 0) : Type 0 where
  -- factor, offset
  scale : String → Option String → TransformConfig F
  invert : TransformConfig F
  -- beta, anchor, initial
  beta : F → String → String → TransformConfig F
  -- ms
  lag : ℕ → TransformConfig F
  -- sigma_bps, halflife_s, seed
  noise : ℕ → ℕ → ℕ → TransformConfig F

pub record InstrumentConfig (F : Type 0) : Type 0 where
  pub symbol : Option Symbol
  pub mint : Option String
  pub expo : ℤ
  pub base : BaseSourceConfig
  pub transforms : List (TransformConfig F)

-- The symbol, or else the mint.
unfoldable pub resolved_symbol : {F : Type 0} → InstrumentConfig F → Option Symbol
resolved_symbol cfg = elim cfg.symbol [ some s ↦ some s | none ↦ cfg.mint ]

unfoldable pub base_kind_name : BaseSourceConfig → String
base_kind_name (BaseSourceConfig.underlying _) = "underlying"
base_kind_name (BaseSourceConfig.cross _ _) = "cross"
base_kind_name (BaseSourceConfig.basket _ _) = "basket"
base_kind_name (BaseSourceConfig.peg _) = "peg"
base_kind_name (BaseSourceConfig.gbm _ _ _ _ _) = "gbm"

unfoldable pub transform_kind_name : {F : Type 0} → TransformConfig F → String
transform_kind_name (TransformConfig.scale _ _) = "scale"
transform_kind_name TransformConfig.invert = "invert"
transform_kind_name (TransformConfig.beta _ _ _) = "beta"
transform_kind_name (TransformConfig.lag _) = "lag"
transform_kind_name (TransformConfig.noise _ _ _) = "noise"
