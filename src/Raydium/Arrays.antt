-- ===== src/Raydium/Arrays.antt =====
-- crates/raydium-clmm-client/src/lib.rs: the tick arrays that a swap discovers.
-- `TICK_ARRAY_DISCOVERY_LIMIT` is 24.
use testnet_testsuite.Prelude.{
  ℕ, zero, suc, List, [], ◌∷◌, map, Option, none, some, Bool, not, Result, ok, err, if◌then◌else◌,
  ◌==◌, ◌||◌,
}
use testnet_testsuite.Prelude.Int.{ℤ, eqb_ℤ}
use testnet_testsuite.Raydium.Types.{Pubkey, text, Fault, Account}
use testnet_testsuite.Raydium.Monad.{M, ◌>>=◌, lift, pure, Client}
use testnet_testsuite.Raydium.Accounts.{
  malformed, or_quote, require_account, fetch_optional, decode_program_account,
}
use testnet_testsuite.Raydium.Addresses.{tick_array_address}
use testnet_testsuite.Raydium.Load.{PoolBundle}

module _ {P C B T K W : Type 0} (self : Client P C B T K W) where
  -- The arrays after one, at most so many.
  unfoldable pub next_starts : ℕ → P → B → Bool → ℤ → Result Fault (List ℤ)
  next_starts zero pool bitmap zero_for_one start = ok []
  next_starts (suc n) pool bitmap zero_for_one start =
      elim (or_quote
        (self.clmm.next_initialized_tick_array_start_index pool bitmap start zero_for_one)) [
          | err e ↦ err e
          | ok none ↦ ok []
          | ok (some next) ↦ elim (next_starts n pool bitmap zero_for_one next) [
            | err e ↦ err e
            | ok rest ↦ ok (next ∷ rest)
          ]
        ]

  -- The loop over the keys of the arrays, from the array at `index` on.
  unfoldable pub decode_arrays :
      Pubkey → List Pubkey → List (Option Account) → ℕ → List ℤ → Result Fault (List T)
  decode_arrays pool keys accounts index [] = ok []
  decode_arrays pool keys accounts index (start ∷ starts) =
      let key = tick_array_address self pool start in
      elim (require_account keys accounts index "tick array") [
        | err e ↦ err e
        | ok account ↦
            elim (decode_program_account self self.programs.decode_tick_array key account) [
              | err e ↦ err e
              | ok array ↦
                  if not (self.programs.array_pool_id array == pool)
                    || not (eqb_ℤ (self.clmm.start_tick_index array) start)
                  then err (malformed key (text "tick array pool or start index mismatch"))
                  else elim (decode_arrays pool keys accounts (suc index) starts) [
                    | err e ↦ err e
                    | ok rest ↦ ok (array ∷ rest)
                  ]
            ]
      ]

  unfoldable pub load_swap_tick_arrays : PoolBundle P B → Bool → M W (List T × List Pubkey)
  unfolding next_starts decode_arrays
  load_swap_tick_arrays bundle zero_for_one = do
    (_, start) ← lift (
        or_quote
          (self.clmm.get_first_initialized_tick_array bundle.pool bundle.bitmap zero_for_one))
    rest ← lift (next_starts 23 bundle.pool bundle.bitmap zero_for_one start)
    let keys = map (tick_array_address self bundle.key) (start ∷ rest)
    accounts ← fetch_optional self keys
    arrays ← lift (decode_arrays bundle.key keys accounts 0 (start ∷ rest))
    pure (arrays, keys)
