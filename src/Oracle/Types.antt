-- ===== src/Oracle/Types.antt =====
-- crates/oracle-client/src/types.rs and `Symbol` of crates/mtm-common/src/types.rs: what the
-- service publishes. Times are microseconds in an `i64`, slots are a `u64`.
use testnet_testsuite.Prelude.{ℕ, String, List, Option}
use testnet_testsuite.Prelude.Int.{ℤ}
use testnet_testsuite.Math.Price.{Price}

-- A symbol is its text: it is compared as it stands, and never normalised.
abbrev pub Symbol : Type 0
Symbol = String

pub data PriceData : Type 0 where
  -- price, conf, ema
  aggregate : Price → Option Price → Option Price → PriceData
  -- bid, bid_qty, ask, ask_qty
  top_of_book : Price → Price → Price → Price → PriceData
  -- price, qty
  trade : Price → Price → PriceData

pub data PriceSource : Type 0 where
  pyth_hermes pyth_lazer binance coinbase kraken okx coin_gecko derived : PriceSource

pub record PricePoint : Type 0 where
  pub symbol : Symbol
  pub body : PriceData
  pub publish_time_us : Option ℤ
  pub received_at_us : ℤ
  pub slot : Option ℕ
  pub source : PriceSource

pub record InstrumentInfo : Type 0 where
  pub symbol : Symbol
  pub mint : Option String
  pub base : String
  pub transforms : List String
