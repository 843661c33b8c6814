-- ===== src/Oracle/Binance.antt =====
-- services/oracle/src/binance.rs: the best bid and offer of each symbol, at most one point for a
-- symbol at each flush. A connection is the list of what its `select` takes, with the time that is
-- read for a message; parsing an envelope is serde's. `to_lowercase` is the standard library's.
-- The points of a flush go out in the order of the book; in a `HashMap` that order is any.
use Prim.Native.String.{◌++◌ as concat}
use testnet_testsuite.Prelude.{
  ℕ, zero, suc, String, List, [], map, ◌∷◌, ◌++◌, Option, none, some, Bool, true, false,
  if◌then◌else◌, string_eq, and_then, map_option, to_option,
}
use testnet_testsuite.Prelude.Int.{pos}
use testnet_testsuite.Prelude.Dict.{Dict, lookup, insert}
use testnet_testsuite.Math.Price.{Price}
use testnet_testsuite.Math.Text.{Text, from_str}
use testnet_testsuite.Oracle.Types.{Symbol, PriceData, PricePoint, PriceSource}
use testnet_testsuite.Oracle.Config.{ProviderFeeds}

pub record BookTicker : Type 0 where
  pub update_id : ℕ
  pub bid : Text
  pub bid_qty : Text
  pub ask : Text
  pub ask_qty : Text

pub record StreamMessage : Type 0 where
  pub stream : String
  pub body : BookTicker

-- `parse::<Price>().ok()`.
abbrev parse_price : Text → Option Price
parse_price s = to_option (from_str s)

unfoldable pub to_price_data : BookTicker → Option PriceData
to_price_data t = and_then (parse_price t.bid) λ bid. and_then (parse_price t.bid_qty) λ bid_qty.
    and_then (parse_price t.ask) λ ask.
      and_then (parse_price t.ask_qty)
        λ ask_qty. some (PriceData.top_of_book bid bid_qty ask ask_qty)

-- `collect` into the map of the streams: a later feed replaces an earlier one of the same stream.
unfoldable pub symbol_by_stream :
    (String → String) → ProviderFeeds → Dict String Symbol → Dict String Symbol
symbol_by_stream to_lowercase [] d = d
symbol_by_stream to_lowercase ((symbol, b) ∷ feeds) d =
    symbol_by_stream to_lowercase feeds (insert (concat (to_lowercase b) "@bookTicker") symbol d)

-- What the `select` takes. A text that is no envelope is `none`; a ping says whether the pong was
-- sent; a flush says how many points the engine takes before it is gone.
pub data Received : Type 0 where
  text : Option StreamMessage → ℕ → Received
  ping : Bool → Received
  other failed closed : Received
  flush : ℕ → Received

pub data Ending : Type 0 where
  -- `break`, `return`, and where the list stops
  reconnects engine_gone goes_on : Ending

-- The point that a message makes, if it makes one.
unfoldable pub point_of : Dict String Symbol → Option StreamMessage → ℕ → Option PricePoint
unfolding to_price_data
point_of streams none now = none
point_of streams (some envelope) now = and_then (lookup envelope.stream streams) λ symbol.
    map_option
      (λ body. record {
        symbol = symbol;
        body = body;
        publish_time_us = none;
        received_at_us = pos now;
        slot = none;
        source = PriceSource.binance;
      })
      (to_price_data envelope.body)

-- `latest.insert(..)` of the point, or `continue`.
unfoldable pub keep : Option PricePoint → Dict Symbol PricePoint → Dict Symbol PricePoint
keep none latest = latest
keep (some p) latest = insert p.symbol p latest

abbrev pub values : Dict Symbol PricePoint → List PricePoint
values latest = map (λ e. e.1) latest

-- `send` of each drained point, until one fails: what was sent, and whether none failed.
unfoldable pub send_each : ℕ → List PricePoint → List PricePoint × Bool
send_each room [] = ([], true)
send_each zero (p ∷ ps) = ([], false)
send_each (suc room) (p ∷ ps) = let rest = send_each room ps in (p ∷ rest.0, rest.1)

-- The inner loop: what is sent, how it ends, and the book that is left.
unfoldable pub session :
    Dict String Symbol
    → Dict Symbol PricePoint
    → List Received
    → List PricePoint × Ending × Dict Symbol PricePoint
unfolding point_of keep send_each
session streams latest [] = ([], Ending.goes_on, latest)
session streams latest (text message now ∷ events) =
    session streams (keep (point_of streams message now) latest) events
session streams latest (ping ponged ∷ events) =
    let rest = session streams latest events in
    if ponged then rest else ([], Ending.reconnects, latest)
session streams latest (other ∷ events) = session streams latest events
session streams latest (failed ∷ events) = ([], Ending.reconnects, latest)
session streams latest (closed ∷ events) = ([], Ending.reconnects, latest)
session streams latest (flush room ∷ events) =
    let rest = session streams [] events in
    let (sent, all) = send_each room (values latest) in
    if all then (sent ++ rest.0, rest.1, rest.2) else (sent, Ending.engine_gone, [])

-- The outer loop, over the connections in turn; `none` is one that could not be made.
unfoldable pub run_connections :
    Dict String Symbol → List (Option (List Received)) → List PricePoint × Bool
unfolding session
run_connections streams [] = ([], true)
run_connections streams (none ∷ connections) = run_connections streams connections
run_connections streams (some events ∷ connections) =
    let rest = run_connections streams connections in
    let (sent, ending, _) = session streams [] events in
    elim ending [
      | Ending.reconnects ↦ (sent ++ rest.0, rest.1)
      | Ending.engine_gone ↦ (sent, false)
      | Ending.goes_on ↦ (sent, true)
    ]
