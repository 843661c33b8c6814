-- ===== src/Oracle/Pricing/Build.antt =====
-- services/oracle/src/pricing/mod.rs: `Engine::from_config`. An `anyhow` error is one of the
-- messages below with its arguments.
use testnet_testsuite.Prelude.{
  ℕ, String, List, [], map, ◌∷◌, ◌++◌, Option, none, some, Bool, false, Result, ok, ◌>>=◌, ◌>>◌,
  ok_or, fail_if, and_then, max, not, ◌||◌, string_eq,
}
use testnet_testsuite.Prelude.Int.{ℤ, pos, narrow, half_i64, ◌*ℤ◌}
use testnet_testsuite.Prelude.Dict.{Dict, lookup, insert}
use testnet_testsuite.Decimal.{Decimal}
use testnet_testsuite.Oracle.Types.{Symbol}
use testnet_testsuite.Oracle.Spec.{BasketLeg, BaseSourceConfig, TransformConfig}
use testnet_testsuite.Oracle.Floats.{Floats}
use testnet_testsuite.Oracle.Pricing.State.{engine_tick_ms, BaseState, TransformState}

pub data BuildError : Type 0 where
  unknown_feed : Symbol → BuildError
  needs_symbol : ℕ → BuildError
  duplicate_symbol : Symbol → BuildError
  -- the text, and what it is for
  invalid_decimal : String → String → BuildError
  out_of_f64_range : String → BuildError
  lag_too_large : BuildError

-- `feeds_used`: what an instrument asks to be registered for.
unfoldable pub feeds_used : BaseSourceConfig → List Symbol
feeds_used (BaseSourceConfig.underlying feed) = feed ∷ []
feeds_used (BaseSourceConfig.cross base quote) = base ∷ quote ∷ []
feeds_used (BaseSourceConfig.basket legs _) = map (λ leg. leg.feed) legs
feeds_used (BaseSourceConfig.peg _) = []
feeds_used (BaseSourceConfig.gbm _ _ _ _ _) = []

-- `HashSet::contains`.
abbrev pub contains : Symbol → List Symbol → Bool
contains s [] = false
contains s (t ∷ ts) = string_eq.beq t s || contains s ts

unfoldable pub check_feed : List Symbol → Symbol → Result BuildError (Unit {0})
check_feed known feed = fail_if (not (contains feed known)) (BuildError.unknown_feed feed)

-- `by_feed.entry(feed).or_default()`.
abbrev pub listed : Symbol → Dict Symbol (List ℕ) → List ℕ
listed feed d = elim (lookup feed d) [ some is ↦ is | none ↦ [] ]

-- `for feed in feeds_used { by_feed.entry(feed).or_default().push(idx) }`.
unfoldable pub push_feeds : List Symbol → ℕ → Dict Symbol (List ℕ) → Dict Symbol (List ℕ)
push_feeds [] idx d = d
push_feeds (feed ∷ feeds) idx d = push_feeds feeds idx (insert feed (listed feed d ++ idx ∷ []) d)

module _ {D : Type 0} ⦃d : Decimal D⦄ where
  unfoldable pub parse_decimal : String → String → Result BuildError D
  parse_decimal s what = ok_or (d.parse s) (BuildError.invalid_decimal s what)

  -- `opt.as_deref().map(parse).transpose()`.
  unfoldable pub parse_optional : Option String → String → Result BuildError (Option D)
  unfolding parse_decimal
  parse_optional none what = ok none
  parse_optional (some s) what = parse_decimal s what >>= λ x. ok (some x)

  unfoldable pub build_legs : List Symbol → List BasketLeg → Result BuildError (List (Symbol × D))
  unfolding parse_decimal check_feed
  build_legs known [] = ok []
  build_legs known (leg ∷ legs) = do
    check_feed known leg.feed
    weight ← parse_decimal leg.weight "weight"
    rest ← build_legs known legs
    ok ((leg.feed, weight) ∷ rest)

module _ {D F R : Type 0} ⦃d : Decimal D⦄ ⦃f : Floats D F R⦄ where
  -- `f64::from(bps) / 10_000.0`.
  abbrev of_bps : Floats D F R → ℤ → F
  of_bps g n = g.div (g.of_int n) (g.of_int (pos 10_000))

  unfoldable pub parse_f64 : Floats D F R → String → String → Result BuildError F
  unfolding parse_decimal
  parse_f64 g s what = do
    x ← parse_decimal s what
    ok_or (g.to_f64 x) (BuildError.out_of_f64_range what)

  unfoldable pub build_base : List Symbol → BaseSourceConfig → Result BuildError (BaseState D F R)
  unfolding check_feed build_legs parse_optional parse_decimal parse_f64
  build_base known (BaseSourceConfig.underlying feed) = do
    check_feed known feed
    ok (BaseState.underlying feed)
  build_base known (BaseSourceConfig.cross base quote) = do
    check_feed known base
    check_feed known quote
    ok (BaseState.cross base quote)
  build_base known (BaseSourceConfig.basket legs rebase) = do
    parsed ← build_legs known legs
    target ← parse_optional rebase "rebase"
    ok (BaseState.basket parsed target none)
  build_base known (BaseSourceConfig.peg target) = do
    value ← parse_decimal target "peg target"
    ok (BaseState.peg value)
  build_base known (BaseSourceConfig.gbm initial vol drift seed tick_ms) = do
    price ← parse_f64 f initial "gbm initial"
    ok (
        BaseState.gbm price (of_bps f (pos vol)) (of_bps f drift) (max tick_ms engine_tick_ms)
          (f.seed_from_u64 seed))

  unfoldable pub build_transform : TransformConfig F → Result BuildError (TransformState D F R)
  unfolding parse_optional parse_decimal parse_f64 ◌*ℤ◌
  build_transform (TransformConfig.scale factor offset) = do
    factor' ← parse_decimal factor "scale factor"
    offset' ← parse_optional offset "scale offset"
    ok (TransformState.scale factor' (elim offset' [ none ↦ d.nought | some o ↦ o ]))
  build_transform TransformConfig.invert = ok TransformState.invert
  build_transform (TransformConfig.beta beta anchor initial) = do
    anchor' ← parse_f64 f anchor "beta anchor"
    initial' ← parse_f64 f initial "beta initial"
    ok (TransformState.beta beta anchor' initial')
  build_transform (TransformConfig.lag ms) = do
    us ←
        ok_or (and_then (narrow half_i64 (pos ms)) (λ m. narrow half_i64 (m *ℤ pos 1000)))
          BuildError.lag_too_large
    ok (TransformState.lag us [])
  build_transform (TransformConfig.noise sigma_bps halflife_s seed) = ok (
      TransformState.noise (of_bps f (pos sigma_bps))
        (f.mul (f.of_int (pos halflife_s)) (f.of_int (pos 1_000_000))) (f.of_int (pos 0)) none
        (f.seed_from_u64 seed))

  unfoldable pub build_transforms :
      List (TransformConfig F) → Result BuildError (List (TransformState D F R))
  unfolding build_transform
  build_transforms [] = ok []
  build_transforms (t ∷ ts) = do t' ← build_transform t; ts' ← build_transforms ts; ok (t' ∷ ts')
