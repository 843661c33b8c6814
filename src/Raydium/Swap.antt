-- ===== src/Raydium/Swap.antt =====
-- crates/raydium-clmm-client/src/lib.rs: the swap and its bounds. `MAX_SWAP_TICK_ARRAYS` is 6.
use testnet_testsuite.Prelude.{
  ℕ, List, [], ◌∷◌, map, none, some, Bool, true, false, not, Result, ok, err, fail_if, ok_or,
  if◌then◌else◌, ◌==◌, ◌&&◌, ◌||◌, leb, ltb, length,
}
use testnet_testsuite.Prelude.Int.{checked_sub}
use testnet_testsuite.Decimal.{Decimal}
use testnet_testsuite.Raydium.Types.{
  Pubkey, text, words, number, RaydiumClmmError, Fault, fails, MintInfo, SwapOutcome,
}
use testnet_testsuite.Raydium.Programs.{RaydiumCall}
use testnet_testsuite.Raydium.Monad.{M, ◌>>=◌, ◌>>◌, lift, pure, at, Client}
use testnet_testsuite.Raydium.Accounts.{
  malformed, or_quote, fetch_optional, fetch_epoch, decode_program_account, validate_token_account,
  raydium_instruction,
}
use testnet_testsuite.Raydium.Addresses.{tick_array_address}
use testnet_testsuite.Raydium.Amounts.{
  invalid, quote_failed, ensure_positive, ui_to_raw, apply_slippage,
}
use testnet_testsuite.Raydium.Arrays.{load_swap_tick_arrays}
use testnet_testsuite.Raydium.Quote.{quote_swap}
use testnet_testsuite.Raydium.Load.{PoolBundle, load_pool, insufficient}
use testnet_testsuite.Raydium.Liquidity.{transfer_fee, inverse_transfer_fee, add_u64}
use testnet_testsuite.Raydium.Position.{writable, readonly, ata_instruction}

abbrev pub contains : Pubkey → List Pubkey → Bool
contains k [] = false
contains k (x ∷ xs) = x == k || contains k xs

abbrev all_in : List Pubkey → List Pubkey → Bool
all_in [] xs = true
all_in (k ∷ ks) xs = contains k xs && all_in ks xs

abbrev max : ℕ → ℕ → ℕ
max a b = if leb a b then b else a

-- `other_amount_threshold`, `expected_input_raw` and `expected_output_raw`.
pub record SwapBounds : Type 0 where
  pub threshold : ℕ
  pub expected_input : ℕ
  pub expected_output : ℕ

module _ {P C B T K W : Type 0} (self : Client P C B T K W) where
  unfoldable pub swap_direction : PoolBundle P B → Pubkey → Pubkey → Result Fault Bool
  swap_direction bundle input_mint output_mint =
      if input_mint == bundle.mint_0.key && output_mint == bundle.mint_1.key
      then ok true
      else if input_mint == bundle.mint_1.key && output_mint == bundle.mint_0.key
      then ok false
      else err (invalid (text "swap mints do not match the pool"))

  -- The amount that is quoted for the amount asked for: what is left of an input after its transfer
  -- fee, or what an output needs before it.
  unfoldable pub quote_amount : Bool → MintInfo → MintInfo → ℕ → ℕ → Result Fault ℕ
  quote_amount true input output epoch requested = elim (transfer_fee self input epoch requested) [
    | err e ↦ err e
    | ok fee ↦ ok_or (checked_sub requested fee) (quote_failed "input transfer fee exceeds amount")
  ]
  quote_amount false input output epoch requested =
      elim (inverse_transfer_fee self output epoch requested) [
        | err e ↦ err e
        | ok fee ↦ add_u64 requested fee "output transfer fee overflow"
      ]

  unfoldable pub swap_bounds : Bool → MintInfo → MintInfo → ℕ → ℕ → ℕ → Result Fault SwapBounds
  unfolding apply_slippage transfer_fee inverse_transfer_fee
  swap_bounds exact_in input output epoch requested calculated =
      let exact : Result Fault SwapBounds = (elim (transfer_fee self output epoch calculated) [
        | err e ↦ err e
        | ok fee ↦ elim (apply_slippage calculated self.slippage_bps false) [
          | err e ↦ err e
          | ok threshold ↦ elim (checked_sub calculated fee) [
            | none ↦ err (quote_failed "output transfer fee exceeds quote")
            | some received ↦ ok (record {
              threshold = threshold;
              expected_input = requested;
              expected_output = received;
            })
          ]
        ]
      ]) in
      let gross : Result Fault SwapBounds =
        (elim (apply_slippage calculated self.slippage_bps true) [
          | err e ↦ err e
          | ok slipped ↦ elim (inverse_transfer_fee self input epoch slipped) [
            | err e ↦ err e
            | ok slipped_fee ↦ elim (inverse_transfer_fee self input epoch calculated) [
              | err e ↦ err e
              | ok fee ↦ elim (add_u64 slipped slipped_fee "maximum input overflow") [
                | err e ↦ err e
                | ok threshold ↦ elim (add_u64 calculated fee "expected input overflow") [
                  | err e ↦ err e
                  | ok paid ↦ ok (record {
                    threshold = threshold;
                    expected_input = paid;
                    expected_output = requested;
                  })
                ]
              ]
            ]
          ]
        ]) in
      if exact_in then exact else gross

  -- The last part of a swap: the balance, and the transaction.
  unfoldable pub send_swap :
      (pool_key input_mint output_mint : Pubkey) (exact_in zero_for_one : Bool)
      → PoolBundle P B
      → ℕ
      → List Pubkey
      → SwapBounds
      → M W SwapOutcome
  send_swap pool_key input_mint output_mint exact_in zero_for_one bundle requested used_keys
        bounds =
      do
        let input = if zero_for_one then bundle.mint_0 else bundle.mint_1
        let output = if zero_for_one then bundle.mint_1 else bundle.mint_0
        let ata = λ (m : MintInfo).
            self.programs.associated_token_address self.payer m.key m.token_program
        users ← fetch_optional self (ata input ∷ ata output ∷ [])
        input_account ← lift (at users 0)
        balance ← lift (validate_token_account self (ata input) input_account input true)
        let needed = max bounds.threshold requested
        lift (fail_if (ltb balance needed) (insufficient input.key needed balance))
        output_account ← lift (at users 1)
        _ ← lift (validate_token_account self (ata output) output_account output false)
        lift (fail_if (length used_keys == 0) (quote_failed "swap quote used no tick arrays"))
        let input_vault = if zero_for_one then bundle.token_vault_0 else bundle.token_vault_1
        let output_vault = if zero_for_one then bundle.token_vault_1 else bundle.token_vault_0
        transaction ←
            self.chain.submit
              (ata_instruction self input
                ∷ ata_instruction self output
                ∷ raydium_instruction self
                    (RaydiumCall.swap_v2
                      (self.payer
                        ∷ bundle.amm_config
                        ∷ pool_key
                        ∷ ata input
                        ∷ ata output
                        ∷ input_vault
                        ∷ output_vault
                        ∷ bundle.observation
                        ∷ self.programs.token_program_id
                        ∷ self.programs.token_2022_program_id
                        ∷ self.programs.memo_program_id
                        ∷ input.key
                        ∷ output.key
                        ∷ [])
                      requested bounds.threshold 0 exact_in)
                    (readonly bundle.tick_array_bitmap ∷ map writable used_keys)
                ∷ [])
              []
        pure (record {
          transaction = transaction;
          quote = record {
            exact_in = exact_in;
            input_mint = input_mint;
            output_mint = output_mint;
            expected_input_raw = bounds.expected_input;
            expected_output_raw = bounds.expected_output;
            other_amount_threshold = bounds.threshold;
            tick_arrays = used_keys;
          };
          accounts = record {
            pool = pool_key;
            input_token_account = ata input;
            output_token_account = ata output;
            input_vault = input_vault;
            output_vault = output_vault;
            observation = bundle.observation;
            tick_array_bitmap = bundle.tick_array_bitmap;
            tick_arrays = used_keys;
          };
        })

  module _ {D : Type 0} ⦃d : Decimal D⦄ where
    unfoldable pub swap : Pubkey → Pubkey → Pubkey → D → Bool → M W SwapOutcome
    swap pool_key input_mint output_mint amount exact_in = do
      lift (ensure_positive amount "swap amount")
      bundle ← load_pool self pool_key
      zero_for_one ← lift (swap_direction bundle input_mint output_mint)
      let input = if zero_for_one then bundle.mint_0 else bundle.mint_1
      let output = if zero_for_one then bundle.mint_1 else bundle.mint_0
      epoch ← fetch_epoch self
      requested ← lift (ui_to_raw amount (if exact_in then input.decimals else output.decimals))
      quoted ← lift (quote_amount exact_in input output epoch requested)
      config ← lift (
          decode_program_account self self.programs.decode_config bundle.amm_config
            bundle.config_account)
      lift (
          fail_if ((self.programs.pool_view bundle.pool).has_dynamic_fee)
            (quote_failed "dynamic-fee pools are outside this single-pool quote implementation"))
      (arrays, array_keys) ← load_swap_tick_arrays self bundle zero_for_one
      (calculated, used_starts) ← lift (
          or_quote (
            quote_swap self.clmm
              (record {
                zero_for_one = zero_for_one;
                exact_in = exact_in;
                config = config;
                pool = bundle.pool;
                bitmap = bundle.bitmap;
              })
              quoted arrays))
      lift (
          fail_if (ltb 6 (length used_starts)) (
            fails (
              RaydiumClmmError.quote_error (
                words "swap requires "
                ∷ number (length used_starts)
                ∷ words " tick arrays; the single-pool transaction limit is "
                ∷ number 6
                ∷ []))))
      let used_keys = map (tick_array_address self pool_key) used_starts
      lift (
          fail_if (not (all_in used_keys array_keys))
            (malformed pool_key (text "quote selected an unfetched tick array")))
      bounds ← lift (swap_bounds exact_in input output epoch requested calculated)
      send_swap pool_key input_mint output_mint exact_in zero_for_one bundle requested used_keys
          bounds
