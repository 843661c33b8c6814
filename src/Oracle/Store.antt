-- ===== src/Oracle/Store.antt =====
-- services/oracle/src/state.rs and api.rs: the latest prices, and the look-up of one of them by its
-- symbol or its mint. The log of what was broadcast stands for the subscribers.
use testnet_testsuite.Prelude.{
  String, List, [], ◌∷◌, ◌++◌, Option, none, some, Option-cases, sym, inl, inr, Result, err, ok_or,
  ◌>>=◌, if◌then◌else◌, ◌≡◌, refl, string_eq,
}
use testnet_testsuite.Prelude.Dict.{Dict, lookup, insert, lookup-insert}
use testnet_testsuite.Oracle.Types.{Symbol, PricePoint, InstrumentInfo}

pub record AppState : Type 0 where
  pub prices : Dict Symbol PricePoint
  pub tx : List PricePoint
  pub instruments : List InstrumentInfo
  pub mint_to_symbol : Dict String Symbol

-- `collect` into the map: a later instrument replaces an earlier one of the same mint.
unfoldable pub collect_mints : List InstrumentInfo → Dict String Symbol → Dict String Symbol
collect_mints [] d = d
collect_mints (i ∷ is) d =
    collect_mints is (elim i.mint [ none ↦ d | some m ↦ insert m i.symbol d ])

unfoldable pub fresh_state : List InstrumentInfo → AppState
fresh_state instruments = record {
  prices = [];
  tx = [];
  instruments = instruments;
  mint_to_symbol = collect_mints instruments [];
}

unfoldable pub update : AppState → PricePoint → AppState
update state point = record state {
  prices = insert point.symbol point state.prices;
  tx = state.tx ++ point ∷ [];
}

-- `for out in outs { state.update(out) }`.
unfoldable pub update_all : AppState → List PricePoint → AppState
unfolding update
update_all state [] = state
update_all state (p ∷ ps) = update_all (update state p) ps

unfoldable pub get : AppState → Symbol → Option PricePoint
get state symbol = lookup symbol state.prices

unfoldable pub symbol_for_mint : AppState → String → Option Symbol
symbol_for_mint state mint = lookup mint state.mint_to_symbol

-- The two that the look-up can answer with.
pub data StatusCode : Type 0 where
  bad_request not_found : StatusCode

unfoldable pub one_price : AppState → Option Symbol → Option String → Result StatusCode PricePoint
unfolding get symbol_for_mint
one_price state (some symbol) none = ok_or (get state symbol) StatusCode.not_found
one_price state none (some mint) =
    ok_or (symbol_for_mint state mint) StatusCode.not_found >>= λ symbol.
    ok_or (get state symbol) StatusCode.not_found
one_price state _ _ = err StatusCode.bad_request

-- The symbol of the last instrument of a mint, or else the one given.
abbrev pub last_with : String → List InstrumentInfo → Option Symbol → Option Symbol
last_with mint [] found = found
last_with mint (i ∷ is) found =
    last_with mint is (elim i.mint [
      | none ↦ found
      | some m ↦ if string_eq.beq m mint then some i.symbol else found
    ])

collect_mints_lem :
    (mint : String) (is : List InstrumentInfo) (d : Dict String Symbol)
    → lookup mint (collect_mints is d) ≡ last_with mint is (lookup mint d)
unfolding collect_mints
collect_mints_lem mint [] d = refl
collect_mints_lem mint (i ∷ is) d = elim (Option-cases i.mint) [
  | inl e ↦ rw e (collect_mints_lem mint is d)
  | inr (m, e) ↦
      rw e (
        rw (sym (lookup-insert m mint i.symbol d))
          (collect_mints_lem mint is (insert m i.symbol d)))
]

-- The last of the points that have a symbol, or else the one given.
abbrev pub last_of : Symbol → List PricePoint → Option PricePoint → Option PricePoint
last_of s [] found = found
last_of s (p ∷ ps) found = last_of s ps (if string_eq.beq p.symbol s then some p else found)

-- After a list of updates, the price of a symbol is the last one with that symbol, or the price
-- that it had before if there is none, or else it is not found; what a mint stands for and the
-- registry stay as they were.
pub one_price-update_all :
    (state : AppState) (ps : List PricePoint) (s : Symbol)
    → (one_price (update_all state ps) (some s) none
        ≡ ok_or (last_of s ps (get state s)) StatusCode.not_found)
      × ((update_all state ps).instruments ≡ state.instruments)
      × ((mint : String) → symbol_for_mint (update_all state ps) mint ≡ symbol_for_mint state mint)
unfolding update_all update one_price get symbol_for_mint
one_price-update_all state [] s = (refl, refl, λ mint. refl)
one_price-update_all state (p ∷ ps) s =
    let (a, b, c) = one_price-update_all (update state p) ps s in
    (rw (lookup-insert p.symbol s p state.prices) at a, b, c)

none_found :
    (o : Option Symbol)
    → (ok_or o StatusCode.not_found >>= λ s.
        ok_or (lookup {V = PricePoint} s []) StatusCode.not_found)
      ≡ err StatusCode.not_found
none_found none = refl
none_found (some s) = refl

-- In a fresh state a mint is looked up as the last instrument that has it, and no price is known.
pub one_price_fresh :
    (is : List InstrumentInfo) (mint : String)
    → (symbol_for_mint (fresh_state is) mint ≡ last_with mint is none)
      × (one_price (fresh_state is) none (some mint) ≡ err StatusCode.not_found)
unfolding fresh_state symbol_for_mint one_price get
one_price_fresh is mint =
    (collect_mints_lem mint is [], none_found (symbol_for_mint (fresh_state is) mint))
