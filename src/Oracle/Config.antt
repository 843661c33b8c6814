-- ===== src/Oracle/Config.antt =====
-- services/oracle/src/config.rs: the underlyings, and how they are shared out among the providers of
-- their prices. The only `anyhow` error is that of an underlying, whose symbol stands for it.
use testnet_testsuite.Prelude.{
  ℕ, String, List, [], ◌∷◌, ◌++◌, ◌+◌, Option, none, some, inl, inr, Result, ok, err, ◌>>=◌, ◌≡◌,
  ◌≢◌, ◌⊎◌, refl, ap, ◌∙◌, All, append_assoc, append-nil, arith,
}
use testnet_testsuite.Oracle.Types.{Symbol}

pub record UnderlyingConfig : Type 0 where
  pub symbol : Symbol
  pub pyth_feed_id : Option String
  pub coingecko_id : Option String
  pub binance_symbol : Option String

abbrev pub ProviderFeeds : Type 0
ProviderFeeds = List (Symbol × String)

pub record PartitionedFeeds : Type 0 where
  pub pyth : ProviderFeeds
  pub coingecko : ProviderFeeds
  pub binance : ProviderFeeds

-- One round of the loop.
unfoldable pub place :
    PartitionedFeeds
    → Symbol
    → Option String
    → Option String
    → Option String
    → Result Symbol PartitionedFeeds
place out symbol (some id) none none = ok (record out { pyth = out.pyth ++ (symbol, id) ∷ [] })
place out symbol none (some id) none =
    ok (record out { coingecko = out.coingecko ++ (symbol, id) ∷ [] })
place out symbol none none (some id) =
    ok (record out { binance = out.binance ++ (symbol, id) ∷ [] })
place out symbol _ _ _ = err symbol

unfoldable pub place_all : PartitionedFeeds → List UnderlyingConfig → Result Symbol PartitionedFeeds
unfolding place
place_all out [] = ok out
place_all out (u ∷ us) =
    place out u.symbol u.pyth_feed_id u.coingecko_id u.binance_symbol >>= λ next. place_all next us

unfoldable pub partition_underlyings : List UnderlyingConfig → Result Symbol PartitionedFeeds
unfolding place_all
partition_underlyings us = place_all (record { pyth = []; coingecko = []; binance = [] }) us

-- What an independent reading of the configuration says: how many providers an underlying names,
-- and the feeds of one provider.
abbrev pub given : Option String → ℕ
given none = 0
given (some _) = 1

abbrev pub named : UnderlyingConfig → ℕ
named u = given u.pyth_feed_id + given u.coingecko_id + given u.binance_symbol

abbrev pub feed_of : Symbol → Option String → ProviderFeeds
feed_of symbol none = []
feed_of symbol (some id) = (symbol, id) ∷ []

abbrev pub feeds_by : (UnderlyingConfig → Option String) → List UnderlyingConfig → ProviderFeeds
feeds_by id_of [] = []
feeds_by id_of (u ∷ us) = feed_of u.symbol (id_of u) ++ feeds_by id_of us

-- The feeds that were already there, and then those of a list.
abbrev pub extended : PartitionedFeeds → List UnderlyingConfig → PartitionedFeeds
extended out us = record {
  pyth = out.pyth ++ feeds_by (λ u. u.pyth_feed_id) us;
  coingecko = out.coingecko ++ feeds_by (λ u. u.coingecko_id) us;
  binance = out.binance ++ feeds_by (λ u. u.binance_symbol) us;
}

abbrev placed :
    PartitionedFeeds → Symbol → Option String → Option String → Option String → PartitionedFeeds
placed out s a b c = record {
  pyth = out.pyth ++ feed_of s a;
  coingecko = out.coingecko ++ feed_of s b;
  binance = out.binance ++ feed_of s c;
}

place_lem :
    (out : PartitionedFeeds) (s : Symbol) (a b c : Option String)
    → ((given a + given b + given c ≡ 1) × (place out s a b c ≡ ok (placed out s a b c)))
      ⊎ ((given a + given b + given c ≢ 1) × (place out s a b c ≡ err s))
unfolding place
place_lem out s (some id) none none = inl (refl, simp append-nil)
place_lem out s none (some id) none = inl (refl, simp append-nil)
place_lem out s none none (some id) = inl (refl, simp append-nil)
place_lem out s none none none = inr (omega arith, refl)
place_lem out s (some x) (some y) none = inr (omega arith, refl)
place_lem out s (some x) none (some y) = inr (omega arith, refl)
place_lem out s none (some x) (some y) = inr (omega arith, refl)
place_lem out s (some x) (some y) (some z) = inr (omega arith, refl)

-- The first underlying that does not name exactly one provider.
abbrev pub IsFirstBad : UnderlyingConfig → List UnderlyingConfig → Type 0
IsFirstBad bad us =
    (before : List UnderlyingConfig) × (after : List UnderlyingConfig) × (us
      ≡ before ++ bad ∷ after)
    × All (λ u. named u ≡ 1) before
    × (named bad ≢ 1)

place_all_lem :
    (out : PartitionedFeeds) (us : List UnderlyingConfig)
    → (All (λ u. named u ≡ 1) us × (place_all out us ≡ ok (extended out us)))
      ⊎ ((bad : UnderlyingConfig) × IsFirstBad bad us × (place_all out us ≡ err bad.symbol))
unfolding place_all
place_all_lem out [] = inl (tt, simp append-nil)
place_all_lem out (u ∷ us) =
    let next = placed out u.symbol u.pyth_feed_id u.coingecko_id u.binance_symbol in
    elim (place_lem out u.symbol u.pyth_feed_id u.coingecko_id u.binance_symbol) [
      | inr (bad, e) ↦ inr (u, ([], us, refl, tt, bad), rw e)
      | inl (one, e) ↦ elim (place_all_lem next us) [
        | inl (all, f) ↦ inl ((one, all), rw e (f ∙ simp append_assoc))
        | inr (bad, (before, after, split, all, not_one), f) ↦
            inr (bad, (u ∷ before, after, ap (◌∷◌ u) split, (one, all), not_one), rw e f)
      ]
    ]

-- The partition succeeds just where every underlying names exactly one provider; then each provider
-- gets its own underlyings, all of them and in their order. Otherwise it fails with the symbol of
-- the first underlying that names none or several.
pub partition_underlyings-feeds_by :
    (us : List UnderlyingConfig)
    → (All (λ u. named u ≡ 1) us
        × (partition_underlyings us
            ≡ ok (record {
              pyth = feeds_by (λ u. u.pyth_feed_id) us;
              coingecko = feeds_by (λ u. u.coingecko_id) us;
              binance = feeds_by (λ u. u.binance_symbol) us;
            })))
      ⊎ ((bad : UnderlyingConfig) × IsFirstBad bad us × (partition_underlyings us ≡ err bad.symbol))
unfolding partition_underlyings
partition_underlyings-feeds_by us =
    place_all_lem (record { pyth = []; coingecko = []; binance = [] }) us
