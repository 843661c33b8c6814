-- ===== src/Raydium/Accounts.antt =====
-- crates/raydium-clmm-client/src/lib.rs: fetching, decoding and validating accounts, and the
-- addresses that are derived from them.
use testnet_testsuite.Prelude.{
  ℕ, String, List, [], ◌∷◌, ◌++◌, Option, none, some, Bool, not, Result, ok, err, fail_if, ok_or,
  and_then, if◌then◌else◌, ◌==◌, ◌&&◌, ◌||◌, get_elem?,
}
use testnet_testsuite.Raydium.Types.{
  Pubkey, Bytes, Message, words, text, address, RaydiumClmmError, Fault, fails, Account,
  AccountMeta, Instruction, MintInfo,
}
use testnet_testsuite.Raydium.Programs.{Seed, of_key, ExtensionType, RaydiumCall}
use testnet_testsuite.Raydium.Monad.{M, Client}

abbrev pub malformed : Pubkey → Message → Fault
malformed key m = fails (RaydiumClmmError.malformed_account key m)

-- `.map_err(|e| MalformedAccount { address, reason: e.to_string() })`.
abbrev pub or_malformed : {A : Type 0} → Pubkey → Result String A → Result Fault A
or_malformed key (ok a) = ok a
or_malformed key (err e) = err (malformed key (text e))

abbrev pub or_quote : {A : Type 0} → Result String A → Result Fault A
or_quote (ok a) = ok a
or_quote (err e) = err (fails (RaydiumClmmError.quote_error (text e)))

abbrev pub or_rpc : {A : Type 0} → Result String A → Result Fault A
or_rpc (ok a) = ok a
or_rpc (err e) = err (fails (RaydiumClmmError.rpc (text e)))

-- An account that is missing, or beyond the end, is malformed; a key beyond the end is the default.
unfoldable pub require_account :
    List Pubkey → List (Option Account) → ℕ → String → Result Fault Account
require_account keys accounts index name = ok_or (and_then (get_elem? accounts index) (λ a. a)) (
    malformed (elim (get_elem? keys index) [ some k ↦ k | none ↦ 0 ])
      (words "missing " ∷ words name ∷ []))

abbrev pub unlisted_names : List ExtensionType → List String
unlisted_names [] = []
unlisted_names (ExtensionType.unlisted s ∷ es) = s ∷ unlisted_names es
unlisted_names (_ ∷ es) = unlisted_names es

-- `join(", ")`.
abbrev pub joined : List String → Message
joined [] = []
joined (s ∷ []) = words s ∷ []
joined (s ∷ t ∷ ts) = words s ∷ words ", " ∷ joined (t ∷ ts)

abbrev pub check_extensions : Pubkey → List String → Result Fault (Unit {0})
check_extensions mint [] = ok tt
check_extensions mint (s ∷ ss) = err (
    fails (
      RaydiumClmmError.unsupported_token mint
        (words "unsupported Token-2022 extensions: " ∷ joined (s ∷ ss))))

module _ {P C B T K W : Type 0} (self : Client P C B T K W) where
  unfoldable pub fetch_optional : List Pubkey → M W (List (Option Account))
  fetch_optional keys w = let (r, w') = self.chain.get_multiple_accounts keys w in (or_rpc r, w')

  unfoldable pub fetch_epoch : M W ℕ
  fetch_epoch w = let (r, w') = self.chain.get_epoch w in (or_rpc r, w')

  -- `Keypair::new().pubkey()`.
  unfoldable pub fetch_keypair : M W Pubkey
  fetch_keypair w = let (key, w') = self.chain.new_keypair w in (ok key, w')

  unfoldable pub decode_program_account :
      {A : Type 0} → (Bytes → Result String A) → Pubkey → Account → Result Fault A
  decode_program_account decode key account =
      if account.owner == self.program_id
      then or_malformed key (decode account.content)
      else err (
          malformed key (
            words "expected owner "
            ∷ address self.program_id
            ∷ words ", got "
            ∷ address account.owner
            ∷ []))

  unfoldable pub decode_mint : Pubkey → Account → Result Fault MintInfo
  decode_mint key account =
      if not (account.owner == self.programs.token_program_id)
        && not (account.owner == self.programs.token_2022_program_id)
      then err (
          fails (
            RaydiumClmmError.unsupported_token key
              (words "unsupported token program " ∷ address account.owner ∷ [])))
      else elim (or_malformed key (self.programs.unpack_mint account.content)) [
        | err e ↦ err e
        | ok state ↦ ok (record {
          key = key;
          token_program = account.owner;
          decimals = state.decimals;
          content = account.content;
        })
      ]

  unfoldable pub support_mint_address : Pubkey → Pubkey
  support_mint_address mint =
      self.programs.pda (Seed.support_mint_seed ∷ of_key mint ∷ []) self.program_id

  -- A classic mint, a mint that the program supports by name, or one with listed extensions only.
  unfoldable pub validate_supported_mint : MintInfo → Option Account → Result Fault (Unit {0})
  unfolding decode_program_account
  validate_supported_mint mint support =
      if mint.token_program == self.programs.token_program_id then ok tt else elim support [
        | some account ↦
            let key = support_mint_address mint.key in
            elim (decode_program_account self.programs.decode_support key account) [
              | err e ↦ err e
              | ok named ↦
                  fail_if (not (named == mint.key))
                    (malformed key (text "support-mint PDA contains a different mint"))
            ]
        | none ↦ elim (or_malformed mint.key (self.programs.unpack_mint mint.content)) [
          | err e ↦ err e
          | ok state ↦ elim (or_malformed mint.key state.extension_types) [
            | err e ↦ err e
            | ok extensions ↦ check_extensions mint.key (unlisted_names extensions)
          ]
        ]
      ]

  unfoldable pub validate_vault : Pubkey → Pubkey → Account → MintInfo → Result Fault (Unit {0})
  validate_vault pool key account mint =
      if not (account.owner == mint.token_program)
      then err (malformed key (text "vault is owned by the wrong token program"))
      else elim (or_malformed key (self.programs.unpack_token account.content)) [
        | err e ↦ err e
        | ok state ↦
            fail_if (not (state.mint == mint.key) || not (state.owner == pool))
              (malformed key (text "vault mint or authority does not match the pool"))
      ]

  -- The balance of the payer's token account; a missing one counts as empty unless it is required.
  unfoldable pub validate_token_account : Pubkey → Option Account → MintInfo → Bool → Result Fault ℕ
  validate_token_account key none mint required =
      if required then err (fails (RaydiumClmmError.insufficient_balance mint.key 1 0)) else ok 0
  validate_token_account key (some account) mint required =
      if not (account.owner == mint.token_program)
      then err (malformed key (text "token account is owned by the wrong token program"))
      else elim (or_malformed key (self.programs.unpack_token account.content)) [
        | err e ↦ err e
        | ok state ↦
            if not (state.mint == mint.key) || not (state.owner == self.payer)
            then err (malformed key (text "token account mint or authority is invalid"))
            else if state.is_frozen
            then err (malformed key (text "fungible token account is frozen"))
            else ok state.amount
      ]

  unfoldable pub raydium_instruction : RaydiumCall → List AccountMeta → Instruction
  raydium_instruction call remaining = record {
    program_id = self.program_id;
    accounts = self.programs.to_account_metas call ++ remaining;
    content = self.programs.encode call;
  }
