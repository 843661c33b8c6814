-- ===== src/Raydium/Position.antt =====
-- crates/raydium-clmm-client/src/lib.rs: what an action reads of a position, its tick arrays and the
-- rewards of its pool.
use testnet_testsuite.Prelude.{
  ℕ, suc, ◌+◌, ◌*◌, List, [], ◌∷◌, Option, none, some, Bool, true, false, not, Result, ok, err,
  fail_if, ok_or, if◌then◌else◌, ◌==◌, ◌&&◌, ◌||◌,
}
use testnet_testsuite.Prelude.Int.{ℤ, eqb_ℤ}
use testnet_testsuite.Raydium.Types.{
  Pubkey, text, Fault, Account, AccountMeta, Instruction, MintInfo, PositionAccounts, PositionView,
}
use testnet_testsuite.Raydium.Programs.{RewardInfo}
use testnet_testsuite.Raydium.Monad.{M, ◌>>=◌, ◌>>◌, lift, pure, throw, at, Client}
use testnet_testsuite.Raydium.Accounts.{
  malformed, or_malformed, require_account, fetch_optional, decode_program_account, decode_mint,
  validate_vault,
}
use testnet_testsuite.Raydium.Addresses.{personal_position_address}
use testnet_testsuite.Raydium.Load.{PoolBundle, insufficient}

-- `AccountMeta::new` and `AccountMeta::new_readonly`.
abbrev pub writable : Pubkey → AccountMeta
writable key = record { pubkey = key; is_signer = false; is_writable = true }

abbrev pub readonly : Pubkey → AccountMeta
readonly key = record { pubkey = key; is_signer = false; is_writable = false }

-- The rewards that are set up: those with a mint and a vault.
unfoldable pub live_rewards : List RewardInfo → List (Pubkey × Pubkey)
live_rewards [] = []
live_rewards (r ∷ rs) =
    let rest = live_rewards rs in
    if not (r.token_mint == 0) && not (r.token_vault == 0)
    then (r.token_mint, r.token_vault) ∷ rest
    else rest

abbrev pub reward_keys : List (Pubkey × Pubkey) → List Pubkey
reward_keys [] = []
reward_keys ((mint, vault) ∷ rs) = mint ∷ vault ∷ reward_keys rs

module _ {P C B T K W : Type 0} (self : Client P C B T K W) where
  -- The token account of the NFT, and what was fetched of it, by the token program of its mint.
  unfoldable pub nft_of :
      Pubkey → List (Option Account) → Pubkey → Pubkey → Pubkey → M W (Pubkey × Option Account)
  nft_of mint accounts owner nft_token_2022 nft_classic =
      if owner == self.programs.token_2022_program_id
      then (lift (at accounts 2) >>= λ (a : Option Account). pure (nft_token_2022, a))
      else if owner == self.programs.token_program_id
      then (lift (at accounts 3) >>= λ (a : Option Account). pure (nft_classic, a))
      else throw (malformed mint (text "position NFT uses an unsupported token program"))

  unfoldable pub load_position : Pubkey → M W PositionView
  unfolding nft_of
  load_position mint = do
    let address = personal_position_address self mint
    let token_2022 = self.programs.token_2022_program_id
    let classic = self.programs.token_program_id
    let nft_token_2022 = self.programs.associated_token_address self.payer mint token_2022
    let nft_classic = self.programs.associated_token_address self.payer mint classic
    let keys = address ∷ mint ∷ nft_token_2022 ∷ nft_classic ∷ []
    accounts ← fetch_optional self keys
    account ← lift (require_account keys accounts 0 "personal position")
    state ← lift (decode_program_account self self.programs.decode_personal address account)
    lift (
        fail_if (not (state.nft_mint == mint))
          (malformed address (text "personal position contains a different NFT mint")))
    mint_account ← lift (require_account keys accounts 1 "position NFT mint")
    nft_mint ← lift (or_malformed mint (self.programs.unpack_mint mint_account.content))
    lift (
        fail_if (not (nft_mint.decimals == 0) || not (nft_mint.supply == 1))
          (malformed mint (text "position NFT mint must have decimals 0 and supply 1")))
    (nft_account, nft_option) ← nft_of mint accounts mint_account.owner nft_token_2022 nft_classic
    nft_data ← lift (ok_or nft_option (insufficient mint 1 0))
    lift (
        fail_if (not (nft_data.owner == mint_account.owner))
          (malformed nft_account (text "position NFT account owner is invalid")))
    nft ← lift (or_malformed nft_account (self.programs.unpack_token nft_data.content))
    lift (
        fail_if (not (nft.amount == 1) || not (nft.mint == mint) || not (nft.owner == self.payer))
          (insufficient mint 1 nft.amount))
    pure (record {
      address = address;
      pool = state.pool_id;
      nft_account = nft_account;
      nft_token_program = mint_account.owner;
      tick_lower = state.tick_lower_index;
      tick_upper = state.tick_upper_index;
      liquidity = state.liquidity;
      fees_owed_0 = state.token_fees_owed_0;
      fees_owed_1 = state.token_fees_owed_1;
      rewards_owed = state.rewards_owed;
    })

  -- One round of the loop over the two tick arrays.
  unfoldable pub check_tick_array :
      Pubkey → Bool → Pubkey → ℤ → Option Account → Result Fault (Unit {0})
  check_tick_array pool required key start none =
      fail_if required (malformed key (text "position tick array is missing"))
  check_tick_array pool required key start (some account) =
      elim (decode_program_account self self.programs.decode_tick_array key account) [
        | err e ↦ err e
        | ok array ↦
            fail_if
              (not (self.programs.array_pool_id array == pool)
                || not (eqb_ℤ (self.clmm.start_tick_index array) start))
              (malformed key (text "position tick array pool or start index mismatch"))
      ]

  unfoldable pub validate_position_tick_arrays : PositionAccounts → Bool → M W (Unit {0})
  unfolding check_tick_array
  validate_position_tick_arrays p required = do
    accounts ← fetch_optional self (p.tick_array_lower ∷ p.tick_array_upper ∷ [])
    lower ← lift (at accounts 0)
    lift (check_tick_array p.pool required p.tick_array_lower p.tick_array_lower_start lower)
    upper ← lift (at accounts 1)
    lift (check_tick_array p.pool required p.tick_array_upper p.tick_array_upper_start upper)

  unfoldable pub ata_instruction : MintInfo → Instruction
  ata_instruction mint = self.programs.ata_instruction self.payer mint.key mint.token_program

  unfoldable pub position_ata_instructions : PoolBundle P B → List Instruction
  unfolding ata_instruction
  position_ata_instructions bundle =
      ata_instruction bundle.mint_0 ∷ ata_instruction bundle.mint_1 ∷ []

  -- The loop of `reward_accounts` from the reward at `index` on.
  unfoldable pub reward_metas :
      Pubkey
      → List Pubkey
      → List (Option Account)
      → ℕ
      → List (Pubkey × Pubkey)
      → M W (List Instruction × List AccountMeta)
  unfolding ata_instruction
  reward_metas pool keys accounts index [] = pure ([], [])
  reward_metas pool keys accounts index ((mint, vault) ∷ rs) = do
    mint_account ← lift (require_account keys accounts (index * 2) "reward mint")
    info ← lift (decode_mint self mint mint_account)
    vault_account ← lift (require_account keys accounts (index * 2 + 1) "reward vault")
    lift (validate_vault self pool vault vault_account info)
    (instructions, metas) ← reward_metas pool keys accounts (suc index) rs
    pure (
      ata_instruction info ∷ instructions,
      writable vault
          ∷ writable (self.programs.associated_token_address self.payer mint info.token_program)
          ∷ readonly mint
          ∷ metas,
    )

  unfoldable pub fetch_rewards :
      PoolBundle P B → List (Pubkey × Pubkey) → M W (List Instruction × List AccountMeta)
  unfolding reward_metas
  fetch_rewards bundle [] = pure ([], writable bundle.tick_array_bitmap ∷ [])
  fetch_rewards bundle (r ∷ rs) = do
    let keys = reward_keys (r ∷ rs)
    accounts ← fetch_optional self keys
    (instructions, metas) ← reward_metas bundle.key keys accounts 0 (r ∷ rs)
    pure (instructions, writable bundle.tick_array_bitmap ∷ metas)

  unfoldable pub reward_accounts : PoolBundle P B → M W (List Instruction × List AccountMeta)
  unfolding live_rewards fetch_rewards
  reward_accounts bundle =
      fetch_rewards bundle (live_rewards ((self.programs.pool_view bundle.pool).reward_infos))
