-- ===== src/Oracle/Hermes.antt =====
-- services/oracle/src/hermes.rs and feed_task.rs: what a poll of the Pyth price service becomes. The
-- mantissas are texts; HTTP and JSON are not modelled. `to_lowercase` is the standard library's.
use Prim.Native.String.{len, slice}
use text.Mathlib.Text.{starts_with}
use testnet_testsuite.Prelude.{
  ℕ, zero, suc, ◌-◌, ◌++◌, String, List, [], ◌∷◌, string_eq, Option, none, some, Result, ok_or,
  ◌>>=◌, ok, and_then, map_option, to_option, if◌then◌else◌,
}
use testnet_testsuite.Prelude.Int.{ℤ, pos, negsuc, narrow, half_i64, ◌*ℤ◌}
use testnet_testsuite.Prelude.Dict.{Dict, lookup, insert}
use testnet_testsuite.Math.Price.{Price, price, from_pyth}
use testnet_testsuite.Math.Text.{Text, parse_int, parse_u64}
use testnet_testsuite.Oracle.Types.{Symbol, PriceData, PricePoint, PriceSource}
use testnet_testsuite.Oracle.Config.{ProviderFeeds}

-- The text of a `BadMantissa`.
abbrev pub HermesError : Type 0
HermesError = Text

pub record HermesPrice : Type 0 where
  pub mantissa : Text
  pub conf : Text
  pub expo : ℤ
  pub publish_time : ℤ

-- `metadata` keeps the slot alone, which is all that is read of it.
pub record ParsedPriceUpdate : Type 0 where
  pub id : String
  pub price : HermesPrice
  pub ema_price : HermesPrice
  pub metadata : Option (Option ℕ)

unfoldable pub hermes_price : HermesPrice → Result HermesError Price
hermes_price p = ok_or (parse_int half_i64 p.mantissa) p.mantissa >>= λ m. ok (from_pyth m p.expo)

unfoldable pub hermes_conf : HermesPrice → Result HermesError Price
hermes_conf p = ok_or (parse_u64 p.conf) p.conf >>= λ m. ok (price (pos m) p.expo)

-- `saturating_mul` of an `i64`.
unfoldable pub saturating_mul : ℤ → ℤ → ℤ
unfolding ◌*ℤ◌
saturating_mul a b = elim (narrow half_i64 (a *ℤ b)) [
  | some c ↦ c
  | none ↦ elim (a *ℤ b) [ pos _ ↦ pos (half_i64 - 1) | negsuc _ ↦ negsuc (half_i64 - 1) ]
]

unfoldable pub publish_time_us : HermesPrice → ℤ
publish_time_us p = saturating_mul p.publish_time (pos 1_000_000)

-- `trim_start_matches("0x")`, on fuel as long as the text.
unfoldable pub trim_prefix : ℕ → String → String
trim_prefix zero s = s
trim_prefix (suc fuel) s =
    let rest = trim_prefix fuel (slice s 2 (len s)) in if starts_with s "0x" then rest else s

unfoldable pub normalize_feed_id : (String → String) → String → String
unfolding trim_prefix
normalize_feed_id to_lowercase id = to_lowercase (trim_prefix (len id) id)

unfoldable pub symbol_by_id :
    (String → String) → ProviderFeeds → Dict String Symbol → Dict String Symbol
unfolding normalize_feed_id
symbol_by_id to_lowercase [] d = d
symbol_by_id to_lowercase ((symbol, id) ∷ feeds) d =
    symbol_by_id to_lowercase feeds (insert (normalize_feed_id to_lowercase id) symbol d)

-- The point that an update makes at a time, if its feed is known and its price can be read.
unfoldable pub hermes_point :
    (String → String) → Dict String Symbol → ParsedPriceUpdate → ℕ → Option PricePoint
hermes_point to_lowercase feeds update now =
    and_then (lookup (normalize_feed_id to_lowercase update.id) feeds) λ symbol.
      map_option
        (λ value. record {
          symbol = symbol;
          body =
              PriceData.aggregate value (to_option (hermes_conf update.price))
                (to_option (hermes_price update.ema_price));
          publish_time_us = some (publish_time_us update.price);
          received_at_us = pos now;
          slot = and_then update.metadata (λ slot. slot);
          source = PriceSource.pyth_hermes;
        })
        (to_option (hermes_price update.price))

-- The updates of a poll, each with the time that is read for it, are sent until a send fails: `room` is
-- how many points the engine takes before it is gone, and `none` says that the task has returned.
unfoldable pub forward :
    (String → String)
    → Dict String Symbol
    → ℕ
    → List (ParsedPriceUpdate × ℕ)
    → List PricePoint × Option ℕ
unfolding hermes_point
forward to_lowercase feeds room [] = ([], some room)
forward to_lowercase feeds room ((update, now) ∷ updates) =
    elim (hermes_point to_lowercase feeds update now) [
      | none ↦ forward to_lowercase feeds room updates
      | some p ↦ elim room [
        | zero ↦ ([], none)
        | suc left ↦ let rest = forward to_lowercase feeds left updates in (p ∷ rest.0, rest.1)
      ]
    ]

-- The loop over the polls; `none` is one that failed.
unfoldable pub poll_all :
    (String → String)
    → Dict String Symbol
    → ℕ
    → List (Option (List (ParsedPriceUpdate × ℕ)))
    → List PricePoint
unfolding forward
poll_all to_lowercase feeds room [] = []
poll_all to_lowercase feeds room (none ∷ polls) = poll_all to_lowercase feeds room polls
poll_all to_lowercase feeds room (some updates ∷ polls) =
    let (sent, left) = forward to_lowercase feeds room updates in
    elim left [ none ↦ sent | some more ↦ sent ++ poll_all to_lowercase feeds more polls ]
