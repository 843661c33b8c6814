-- ===== src/Tests/Service.antt =====
-- services/oracle/src/state.rs and api.rs at one instrument.
use testnet_testsuite.Prelude.{String, List, [], ◌∷◌, some, none, err, ◌≡◌, ok_or}
use testnet_testsuite.Prelude.Int.{pos}
use testnet_testsuite.Math.Price.{price}
use testnet_testsuite.Oracle.Types.{PricePoint, InstrumentInfo, trade, binance}
use testnet_testsuite.Oracle.Store.{
  fresh_state, update_all, get, symbol_for_mint, one_price, last_with, last_of, not_found,
  one_price-update_all, one_price_fresh,
}

abbrev registry : List InstrumentInfo
registry = record { symbol = "SOL"; mint = some "M1"; base = "underlying"; transforms = [] } ∷ []

abbrev sol : PricePoint
sol = record {
  symbol = "SOL";
  body = trade (price (pos 140) (pos 0)) (price (pos 1) (pos 0));
  publish_time_us = none;
  received_at_us = pos 5;
  slot = none;
  source = binance;
}

one_price-update_all_example :
    (one_price (update_all (fresh_state registry) (sol ∷ [])) (some "SOL") none
      ≡ ok_or (last_of "SOL" (sol ∷ []) (get (fresh_state registry) "SOL")) not_found)
    × ((update_all (fresh_state registry) (sol ∷ [])).instruments
        ≡ (fresh_state registry).instruments)
    × ((mint : String)
        → symbol_for_mint (update_all (fresh_state registry) (sol ∷ [])) mint
          ≡ symbol_for_mint (fresh_state registry) mint)
one_price-update_all_example = one_price-update_all (fresh_state registry) (sol ∷ []) "SOL"

one_price_fresh_example :
    (symbol_for_mint (fresh_state registry) "M1" ≡ last_with "M1" registry none)
    × (one_price (fresh_state registry) none (some "M1") ≡ err not_found)
one_price_fresh_example = one_price_fresh registry "M1"
