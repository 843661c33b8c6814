-- ===== src/Tests/Feeds.antt =====
-- services/oracle/src/config.rs, lib.rs, binance.rs and feed_task.rs at small configurations.
use testnet_testsuite.Prelude.{
  ℕ, take, String, List, [], Option, ◌∷◌, none, some, true, ok, err, ◌≡◌, ◌⊎◌, All,
}
use testnet_testsuite.Prelude.Int.{pos, negsuc}
use testnet_testsuite.Prelude.Dict.{Dict}
use testnet_testsuite.Oracle.Types.{Symbol}
use testnet_testsuite.Oracle.Config.{
  UnderlyingConfig, partition_underlyings, named, feeds_by, IsFirstBad,
  partition_underlyings-feeds_by,
}
use testnet_testsuite.Oracle.Binance.{StreamMessage, text, ping, flush, failed, Received, session}
use testnet_testsuite.Oracle.Hermes.{HermesPrice, ParsedPriceUpdate, poll_all}
use testnet_testsuite.Oracle.Polling.{points, received, poll_all-take}
use testnet_testsuite.Oracle.Coalescing.{batches, ending_of, IsSent, session_coalesces}

abbrev underlyings : List UnderlyingConfig
underlyings =
    record {
      symbol = "SOL";
      pyth_feed_id = some "ef0d";
      coingecko_id = none;
      binance_symbol = none;
    }
    ∷ record {
      symbol = "BTC";
      pyth_feed_id = none;
      coingecko_id = none;
      binance_symbol = some "BTCUSDT";
    }
    ∷ []

partition_underlyings-feeds_by_example :
    (All (λ u. named u ≡ 1) underlyings
      × (partition_underlyings underlyings
          ≡ ok (record {
            pyth = feeds_by (λ u. u.pyth_feed_id) underlyings;
            coingecko = feeds_by (λ u. u.coingecko_id) underlyings;
            binance = feeds_by (λ u. u.binance_symbol) underlyings;
          })))
    ⊎ ((bad : UnderlyingConfig) × IsFirstBad bad underlyings
        × (partition_underlyings underlyings ≡ err bad.symbol))
partition_underlyings-feeds_by_example = partition_underlyings-feeds_by underlyings

-- "1.5" and "2".
abbrev message : StreamMessage
message = record {
  stream = "btcusdt@bookTicker";
  body = record {
    update_id = 1;
    bid = 49 ∷ 46 ∷ 53 ∷ [];
    bid_qty = 50 ∷ [];
    ask = 50 ∷ [];
    ask_qty = 50 ∷ [];
  };
}

abbrev streams : Dict String Symbol
streams = ("btcusdt@bookTicker", "BTC") ∷ []

abbrev connection : List Received
connection = text (some message) 1 ∷ text (some message) 2 ∷ flush 5 ∷ ping true ∷ failed ∷ []

session_coalesces_example :
    IsSent
      (batches streams [] connection)
      (ending_of connection)
      (session streams [] connection).0
      (session streams [] connection).1
session_coalesces_example = session_coalesces streams connection

-- "15" and "2", and a mantissa that is no number.
abbrev hermes : HermesPrice
hermes = record {
  mantissa = 49 ∷ 53 ∷ [];
  conf = 50 ∷ [];
  expo = negsuc 0;
  publish_time = pos 1_700_000_000;
}

abbrev update : ParsedPriceUpdate
update = record { id = "0xef0d"; price = hermes; ema_price = hermes; metadata = some (some 7) }

abbrev broken : ParsedPriceUpdate
broken = record update { price = record hermes { mantissa = 120 ∷ [] } }

abbrev polls : List (Option (List (ParsedPriceUpdate × ℕ)))
polls = none ∷ some ((broken, 1) ∷ (update, 2) ∷ []) ∷ some ((update, 3) ∷ []) ∷ []

abbrev feeds : Dict String Symbol
feeds = ("ef0d", "SOL") ∷ []

poll_all-take_example :
    poll_all (λ s. s) feeds 2 polls ≡ take 2 (points (λ s. s) feeds (received polls))
poll_all-take_example = poll_all-take (λ s. s) feeds 2 polls
