-- ===== src/Tests/Engine.antt =====
-- services/oracle/src/pricing at small engines.
use testnet_testsuite.Prelude.{
  and_then, ℕ, List, [], ◌∷◌, ◌++◌, none, some, true, false, ◌≡◌, ◌⊎◌, refl, arith, All, map,
  map_option, ok_or, string_eq,
}
use testnet_testsuite.Prelude.Int.{ℤ, pos, ◌-ℤ◌, ◌≤ℤ◌, ◌<ℤ◌}
use testnet_testsuite.Prelude.Dict.{Dict}
use testnet_testsuite.Math.Price.{price}
use testnet_testsuite.Oracle.Types.{Symbol, PricePoint, trade, binance}
use testnet_testsuite.Oracle.Spec.{BaseSourceConfig, InstrumentConfig, resolved_symbol}
use testnet_testsuite.Oracle.Pricing.State.{
  Snapshot, EvalCtx, BaseState, LagSample, TransformState, InstrumentRuntime, Engine, feeds_of,
}
use testnet_testsuite.Oracle.Pricing.Build.{
  build_base, build_transforms, check_feed, parse_decimal, push_feeds, feeds_used,
}
use testnet_testsuite.Oracle.Pricing.Engine.{
  build_all, build_instrument, register, from_config, on_tick,
}
use testnet_testsuite.Oracle.Pricing.Eval.{eval_base, apply_transform}
use testnet_testsuite.Oracle.Pricing.Registry.{IsIndexed}
use testnet_testsuite.Oracle.Pricing.Construction.{from_config-IsIndexed, IsKnown, Distinct}
use testnet_testsuite.Oracle.Pricing.Clock.{on_tick-IsIndexed}
use testnet_testsuite.Oracle.Pricing.Window.{
  lag_window, basket_anchor, eval_base_reads, last_or, weighted_sum, first_factor,
}
use testnet_testsuite.Oracle.Store.{
  AppState, StatusCode, fresh_state, update_all, get, one_price, last_of,
}
use testnet_testsuite.Oracle.Config.{
  UnderlyingConfig, PartitionedFeeds, partition_underlyings, place_all, place, named,
}
use testnet_testsuite.Oracle.Startup.{registry_of, start, start-IsIndexed}
use testnet_testsuite.Oracle.Serving.{run-start}
use testnet_testsuite.Oracle.Run.{observed, ticked, run, IsPublishing}
use testnet_testsuite.Tests.Samples.{whole, integral}

-- A copy of a feed and a peg.
abbrev configs : List (InstrumentConfig ℤ)
configs =
    record {
      symbol = some "COPY";
      mint = none;
      expo = pos 0;
      base = BaseSourceConfig.underlying "SOL";
      transforms = [];
    }
    ∷ record {
      symbol = some "USD";
      mint = none;
      expo = pos 0;
      base = BaseSourceConfig.peg "1";
      transforms = [];
    }
    ∷ []

abbrev copy : InstrumentRuntime ℤ ℤ ℕ
copy = record {
  symbol = "COPY";
  expo = pos 0;
  base = BaseState.underlying "SOL";
  transforms = [];
  next_due_us = pos 0;
}

abbrev usd : InstrumentRuntime ℤ ℤ ℕ
usd = record {
  symbol = "USD";
  expo = pos 0;
  base = BaseState.peg (pos 1);
  transforms = [];
  next_due_us = pos 0;
}

abbrev small : Engine ℤ ℤ ℕ
small = record {
  instruments = copy ∷ usd ∷ [];
  by_feed = ("SOL", 0 ∷ []) ∷ [];
  timed = 1 ∷ [];
  latest = [];
}

abbrev small_indexed : IsIndexed small
unfolding from_config build_all build_instrument build_base build_transforms check_feed
    parse_decimal resolved_symbol register push_feeds feeds_used
small_indexed = (from_config-IsIndexed ⦃d = whole⦄ ⦃f = integral⦄ configs ("SOL" ∷ []) small refl).0

from_config-IsIndexed_example :
    IsIndexed small
    × All (λ x. All (IsKnown ("SOL" ∷ [])) (feeds_of x.base)) small.instruments
    × Distinct ⦃d = whole⦄ ⦃f = integral⦄ small.instruments
unfolding from_config build_all build_instrument build_base build_transforms check_feed
    parse_decimal resolved_symbol register push_feeds feeds_used
from_config-IsIndexed_example =
    from_config-IsIndexed ⦃d = whole⦄ ⦃f = integral⦄ configs ("SOL" ∷ []) small refl

abbrev sol : PricePoint
sol = record {
  symbol = "SOL";
  body = trade (price (pos 140) (pos 0)) (price (pos 1) (pos 0));
  publish_time_us = none;
  received_at_us = pos 5;
  slot = none;
  source = binance;
}

on_tick-IsIndexed_example :
    (r : Engine ℤ ℤ ℕ × List PricePoint) × (on_tick ⦃d = whole⦄ ⦃f = integral⦄ small (pos 5)
      ≡ some r)
    × IsIndexed r.0
    × (on_tick ⦃d = whole⦄ ⦃f = integral⦄ r.0 (pos 5) ≡ some (r.0, []))
on_tick-IsIndexed_example =
    on_tick-IsIndexed ⦃d = whole⦄ ⦃f = integral⦄ small 5 small_indexed
      ((omega arith, omega arith), ((omega arith, omega arith), tt))

abbrev seen_at : ℤ → ℤ → LagSample ℤ
seen_at time value = record {
  at_us = time;
  ctx = record {
    value = value;
    conf_ratio = none;
    publish_time_us = none;
    slot = none;
    source = binance;
    is_derived = false;
  };
}

abbrev buffer : List (LagSample ℤ)
buffer = seen_at (pos 1) (pos 10) ∷ seen_at (pos 4) (pos 11) ∷ []

abbrev newest : EvalCtx ℤ
newest = (seen_at (pos 9) (pos 12)).ctx

lag_window_example :
    (taken : List (LagSample ℤ)) × (kept : List (LagSample ℤ)) × (buffer
        ++ (record { at_us = pos 9; ctx = newest }) ∷ []
      ≡ taken ++ kept)
    × All (λ s. s.at_us ≤ℤ (pos 9 -ℤ pos 5)) taken
    × All (λ s. (pos 9 -ℤ pos 5) <ℤ s.at_us) kept
    × (apply_transform ⦃d = whole⦄ ⦃f = integral⦄ (TransformState.lag (pos 5) buffer) newest (pos 9)
        ≡ some (
          TransformState.lag (pos 5) kept,
          map_option (λ s. record (s.ctx) { is_derived = true }) (last_or ⦃d = whole⦄ none taken),
        ))
unfolding ◌-ℤ◌
lag_window_example =
    lag_window ⦃d = whole⦄ ⦃f = integral⦄ (pos 5) buffer newest (pos 9)
      ((omega arith, tt), (tt, tt)) (omega arith, (omega arith, tt)) (omega arith)

abbrev snap : ℤ → Snapshot ℤ
snap value = record {
  value = value;
  conf_ratio = none;
  publish_time_us = none;
  slot = none;
  source = binance;
}

abbrev latest : Dict Symbol (Snapshot ℤ)
latest = ("SOL", snap (pos 140)) ∷ ("BTC", snap (pos 7)) ∷ []

basket_anchor_example :
    let r =
      eval_base ⦃d = whole⦄ ⦃f = integral⦄
        (BaseState.basket (("SOL", pos 2) ∷ []) (some (pos 560)) none)
        latest
        (pos 5) in
    ((and_then
          (weighted_sum ⦃d = whole⦄ latest (("SOL", pos 2) ∷ []) whole.nought)
          (first_factor ⦃d = whole⦄ (some (pos 560)))
        ≡ none)
      × (r.0 ≡ BaseState.basket (("SOL", pos 2) ∷ []) (some (pos 560)) none)
      × (r.1 ≡ none))
    ⊎ ((sum : ℤ) × (k : ℤ) × (weighted_sum ⦃d = whole⦄ latest (("SOL", pos 2) ∷ []) whole.nought
          ≡ some sum)
        × (first_factor ⦃d = whole⦄ (some (pos 560)) sum ≡ some k)
        × (r.0 ≡ BaseState.basket (("SOL", pos 2) ∷ []) (some (pos 560)) (some k))
        × (map_option (λ c. c.value) r.1 ≡ whole.checked_mul sum k)
        × ((later : Dict Symbol (Snapshot ℤ)) (then_us : ℤ)
            → (eval_base ⦃d = whole⦄ ⦃f = integral⦄ r.0 later then_us).0 ≡ r.0))
basket_anchor_example =
    basket_anchor ⦃d = whole⦄ ⦃f = integral⦄ (("SOL", pos 2) ∷ []) (some (pos 560)) latest (pos 5)

eval_base_reads_example :
    eval_base ⦃d = whole⦄ ⦃f = integral⦄ (BaseState.underlying "SOL") latest (pos 5)
    ≡ eval_base ⦃d = whole⦄ ⦃f = integral⦄
        (BaseState.underlying "SOL")
        (("SOL", snap (pos 140)) ∷ [])
        (pos 5)
eval_base_reads_example =
    eval_base_reads ⦃d = whole⦄ ⦃f = integral⦄ (BaseState.underlying "SOL") latest
      (("SOL", snap (pos 140)) ∷ []) (pos 5) (refl, tt)

abbrev underlyings : List UnderlyingConfig
underlyings =
    record {
      symbol = "SOL";
      pyth_feed_id = some "ef0d";
      coingecko_id = none;
      binance_symbol = none;
    }
    ∷ []

abbrev started : Engine ℤ ℤ ℕ × AppState × PartitionedFeeds
started = (
  small,
  fresh_state (registry_of configs),
  record { pyth = ("SOL", "ef0d") ∷ []; coingecko = []; binance = [] },
)

start-IsIndexed_example :
    IsIndexed small
    × (map (λ i. i.symbol) started.1.instruments ≡ map (λ x. x.symbol) small.instruments)
    × ((s : Symbol) → get started.1 s ≡ none)
    × All (λ u. named u ≡ 1) underlyings
unfolding start from_config build_all build_instrument build_base build_transforms check_feed
    parse_decimal resolved_symbol register push_feeds feeds_used partition_underlyings place_all
    place
start-IsIndexed_example =
    start-IsIndexed ⦃d = whole⦄ ⦃f = integral⦄ underlyings configs started refl

run-start_example :
    (q : Engine ℤ ℤ ℕ × AppState) × (run ⦃d = whole⦄ ⦃f = integral⦄ small started.1
        (observed sol 5 ∷ ticked 5 ∷ [])
      ≡ some q)
    × ((published : List PricePoint) × IsPublishing ⦃d = whole⦄ ⦃f = integral⦄ small
          (observed sol 5 ∷ ticked 5 ∷ [])
          published
          q.0
        × (q.1 ≡ update_all started.1 published)
        × ((s : Symbol)
            → one_price q.1 (some s) none ≡ ok_or (last_of s published none) StatusCode.not_found))
unfolding start from_config build_all build_instrument build_base build_transforms check_feed
    parse_decimal resolved_symbol register push_feeds feeds_used partition_underlyings place_all
    place
run-start_example =
    run-start ⦃d = whole⦄ ⦃f = integral⦄ underlyings configs started
      (observed sol 5 ∷ ticked 5 ∷ []) refl
      (omega arith, (((omega arith, omega arith), ((omega arith, omega arith), tt)), tt))
