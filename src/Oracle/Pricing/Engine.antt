-- ===== src/Oracle/Pricing/Engine.antt =====
-- services/oracle/src/pricing/mod.rs: the engine's constructor and its two handlers. `none` from a
-- handler is a panic: an index out of range, or an overflow of an `i64`.
use testnet_testsuite.Prelude.{
  ℕ, ◌+◌, ◌*◌, ◌^◌, ◌%◌, List, [], ◌∷◌, ◌++◌, Option, none, some, Result, ok, ◌>>=◌, ◌>>◌, ok_or,
  fail_if, and_then, map_option, string_eq, length, get_elem?, set, if◌then◌else◌, ltb,
}
use testnet_testsuite.Prelude.Int.{ℤ, pos, sub_ℕ, narrow, half_i64, ◌*ℤ◌, ◌+ℤ◌, ltb_ℤ}
use testnet_testsuite.Prelude.Dict.{Dict, lookup, insert}
use testnet_testsuite.Decimal.{Decimal}
use testnet_testsuite.Math.Price.{to_decimal}
use testnet_testsuite.Oracle.Types.{Symbol, PriceData, PricePoint}
use testnet_testsuite.Oracle.Spec.{InstrumentConfig, resolved_symbol}
use testnet_testsuite.Oracle.Floats.{Floats}
use testnet_testsuite.Oracle.Pricing.State.{
  engine_tick_ms, Snapshot, BaseState, InstrumentRuntime, Engine, is_clock_driven,
}
use testnet_testsuite.Oracle.Pricing.Eval.{eval}
use testnet_testsuite.Oracle.Pricing.Build.{
  BuildError, contains, feeds_used, push_feeds, build_base, build_transforms,
}

-- The variables of the loop of `from_config`.
pub record Building (D F R : Type 0) : Type 0 where
  pub runtimes : List (InstrumentRuntime D F R)
  pub by_feed : Dict Symbol (List ℕ)
  pub timed : List ℕ
  pub seen : List Symbol

-- `tick_ms as i64`, which wraps.
abbrev as_i64 : ℕ → ℤ
as_i64 n = let m = n % 2 ^ 64 in if ltb m half_i64 then pos m else sub_ℕ m (2 ^ 64)

module _ {D : Type 0} ⦃d : Decimal D⦄ where
  -- `a.checked_add(b)?.checked_div(TWO)?`, and the half spread over it.
  mid_price : D → D → Option (D × Option D)
  mid_price b a = and_then (and_then (d.checked_add b a) (λ s. d.checked_div s d.two)) λ mid.
      map_option (λ half_spread. (mid, d.checked_div half_spread mid))
        (and_then (d.checked_sub a b) (λ s. d.checked_div (d.abs s) d.two))

  -- What an observation reduces to: a value and the ratio of its confidence.
  unfoldable pub reduce : PriceData → Option (D × Option D)
  unfolding mid_price
  reduce (PriceData.aggregate price conf ema) =
      map_option
        (λ value. (value, and_then (and_then conf to_decimal) (λ c. d.checked_div c value)))
        (to_decimal price)
  reduce (PriceData.top_of_book bid _ ask _) =
      and_then (to_decimal bid) (λ b. and_then (to_decimal ask) (mid_price b))
  reduce (PriceData.trade price _) = map_option (λ value. (value, none)) (to_decimal price)

-- What is kept of an observation.
abbrev pub snapshot_of : {D : Type 0} → PricePoint → D → Option D → Snapshot D
snapshot_of point value conf_ratio = record {
  value = value;
  conf_ratio = conf_ratio;
  publish_time_us = point.publish_time_us;
  slot = point.slot;
  source = point.source;
}

module _ {D F R : Type 0} where
  -- The end of one round: the instrument is pushed, and registered for its clock and its feeds.
  unfoldable pub register : Building D F R → InstrumentRuntime D F R → List Symbol → Building D F R
  register b inst feeds =
      let idx = length b.runtimes in
      record {
        runtimes = b.runtimes ++ inst ∷ [];
        by_feed = push_feeds feeds idx b.by_feed;
        timed = if is_clock_driven inst.base then b.timed ++ idx ∷ [] else b.timed;
        seen = inst.symbol ∷ b.seen;
      }

  -- How long an instrument waits for its next turn; pegs are published again after a second.
  unfoldable pub interval_us : BaseState D F R → Option ℤ
  interval_us (BaseState.gbm _ _ _ tick_ms _) = narrow half_i64 (as_i64 tick_ms *ℤ pos 1000)
  interval_us _ = narrow half_i64 (pos (engine_tick_ms * 1000 * 4))

module _ {D F R : Type 0} ⦃d : Decimal D⦄ ⦃f : Floats D F R⦄ where
  -- One round of the loop, for the instrument at `idx`.
  unfoldable pub build_instrument :
      List Symbol → ℕ → InstrumentConfig F → Building D F R → Result BuildError (Building D F R)
  build_instrument known idx cfg b = do
    symbol ← ok_or (resolved_symbol cfg) (BuildError.needs_symbol idx)
    fail_if (contains symbol b.seen) (BuildError.duplicate_symbol symbol)
    base ← build_base known cfg.base
    transforms ← build_transforms cfg.transforms
    ok (
        register b
          (record {
            symbol = symbol;
            expo = cfg.expo;
            base = base;
            transforms = transforms;
            next_due_us = pos 0;
          })
          (feeds_used cfg.base))

  unfoldable pub build_all :
      List Symbol
      → ℕ
      → List (InstrumentConfig F)
      → Building D F R
      → Result BuildError (Building D F R)
  build_all known idx [] b = ok b
  build_all known idx (cfg ∷ cfgs) b =
      build_instrument known idx cfg b >>= build_all known (idx + 1) cfgs

  unfoldable pub from_config :
      List (InstrumentConfig F) → List Symbol → Result BuildError (Engine D F R)
  from_config cfgs underlyings = do
    b ← build_all underlyings 0 cfgs (record { runtimes = []; by_feed = []; timed = []; seen = [] })
    ok (record { instruments = b.runtimes; by_feed = b.by_feed; timed = b.timed; latest = [] })

  -- `indices.filter_map(|idx| eval(&mut self.instruments[idx], ..))`.
  unfoldable pub eval_all :
      List ℕ
      → List (InstrumentRuntime D F R)
      → Dict Symbol (Snapshot D)
      → ℤ
      → Option (List (InstrumentRuntime D F R) × List PricePoint)
  eval_all [] insts latest now = some (insts, [])
  eval_all (idx ∷ is) insts latest now = and_then (get_elem? insts idx) λ inst.
      and_then (eval inst latest now) λ e.
        map_option (λ r. (r.0, elim e.1 [ some p ↦ p ∷ r.1 | none ↦ r.1 ]))
          (eval_all is (set insts idx e.0) latest now)

  unfoldable pub on_underlying :
      Engine D F R → PricePoint → ℤ → Option (Engine D F R × List PricePoint)
  unfolding reduce
  on_underlying eng point now = elim (reduce {D = D} point.body) [
    | none ↦ some (eng, [])
    | some (value, conf_ratio) ↦
        let latest' =
          insert point.symbol
            (record {
              value = value;
              conf_ratio = conf_ratio;
              publish_time_us = point.publish_time_us;
              slot = point.slot;
              source = point.source;
            })
            eng.latest in
        elim (lookup point.symbol eng.by_feed) [
          | none ↦ some (record eng { latest = latest' }, [])
          | some indices ↦
              map_option (λ r. (record eng { latest = latest'; instruments = r.0 }, r.1))
                (eval_all indices eng.instruments latest' now)
        ]
  ]

  -- The loop of `on_tick` over the instruments that the clock drives.
  unfoldable pub tick_all :
      List ℕ
      → List (InstrumentRuntime D F R)
      → Dict Symbol (Snapshot D)
      → ℤ
      → Option (List (InstrumentRuntime D F R) × List PricePoint)
  tick_all [] insts latest now = some (insts, [])
  tick_all (idx ∷ is) insts latest now = and_then (get_elem? insts idx) λ inst.
      let skip = tick_all is insts latest now in
      let turn =
        and_then (and_then (interval_us inst.base) (λ w. narrow half_i64 (now +ℤ w))) λ due.
          and_then (eval (record inst { next_due_us = due }) latest now) λ e.
            map_option (λ r. (r.0, elim e.1 [ some p ↦ p ∷ r.1 | none ↦ r.1 ]))
              (tick_all is (set insts idx e.0) latest now) in
      if ltb_ℤ now inst.next_due_us then skip else turn

  unfoldable pub on_tick : Engine D F R → ℤ → Option (Engine D F R × List PricePoint)
  on_tick eng now =
      map_option (λ r. (record eng { instruments = r.0 }, r.1))
        (tick_all eng.timed eng.instruments eng.latest now)
