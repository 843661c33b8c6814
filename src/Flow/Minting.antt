-- ===== src/Flow/Minting.antt =====
-- crates/raydium-clmm-orchestrator/src/lib.rs: which mints a flow accepts, and what the instruction
-- that mints tokens carries.
use mathlib.Core.Path.{subst}
use testnet_testsuite.Prelude.{
  ok-injective, sym, ◌∙◌, ℕ, ◌≤◌, ◌<◌, ◌^◌, Option, none, some, true, not, ok, err, ◌≡◌, ◌⊎◌, inl,
  inr, refl, Bool-cases, ltb, leb, ◌==◌, ◌&&◌, length, get_elem?, get_elem?-some, arith,
}
use testnet_testsuite.Raydium.Types.{Pubkey, Bytes, Account}
use testnet_testsuite.Raydium.Programs.{Programs}
use testnet_testsuite.Flow.Bytes.{
  to_le_bytes, from_le_bytes, from_be_bytes, slice, take, drop, from_le_bytes-to_le_bytes,
}
use testnet_testsuite.Flow.Types.{stops, OrchestrationError, MintInfo}
use testnet_testsuite.Flow.Mints.{decode_mint, mint_to_checked_instruction}

-- A slice in range is there.
slice-some :
    (start stop : ℕ) (bytes : Bytes)
    → start ≤ stop
    → stop ≤ length bytes
    → (part : Bytes) × (slice start stop bytes ≡ some part)
unfolding slice
slice-some start stop bytes h k =
    let a : leb start stop ≡ true = ground arith in
    let b : leb stop (length bytes) ≡ true = ground arith in rw (a, b) (_, refl)

-- The account of a mint of one of the two token programs, with the expected authority.
pub record IsMintable {P C B T : Type 0} (programs : Programs P C B T) (authority : Pubkey)
    (account : Account) (info : MintInfo) : Type 0 where
  pub program :
      (account.owner ≡ programs.token_program_id) ⊎ (account.owner ≡ programs.token_2022_program_id)
  pub long_enough : 82 ≤ length account.content
  pub tag : (bytes : Bytes) × (slice 0 4 account.content ≡ some bytes) × (from_le_bytes bytes ≡ 1)
  pub key :
      (bytes : Bytes) × (slice 4 36 account.content ≡ some bytes)
      × (from_be_bytes 0 bytes ≡ authority)
  pub info_program : info.token_program ≡ account.owner
  pub info_decimals : get_elem? account.content 44 ≡ some info.decimals

module _ {P C B T : Type 0} (programs : Programs P C B T) where
  -- Decoding a mint never panics: it ends with one of the errors, or the account is there and is that
  -- of a mint of one of the two token programs, of at least 82 bytes, whose authority is the
  -- expected one and whose decimals and program are those returned.
  pub decode_mint-IsMintable :
      (key : Pubkey) (found : Option Account) (authority : Pubkey)
      → ((e : OrchestrationError) × (decode_mint programs key found authority ≡ err (stops e)))
        ⊎ ((account : Account) × (info : MintInfo) × (found ≡ some account)
            × (decode_mint programs key found authority ≡ ok info)
            × IsMintable programs authority account info)
  unfolding decode_mint
  decode_mint-IsMintable key none authority = inl (OrchestrationError.missing_mint key, refl)
  decode_mint-IsMintable key (some account) authority =
      elim (Bool-cases (
        not (account.owner == programs.token_program_id)
        && not (account.owner == programs.token_2022_program_id))) [
          | inl foreign ↦ inl (rw foreign (_, refl))
          | inr known ↦ elim (Bool-cases (ltb (length account.content) 82)) [
            | inl short ↦ inl (rw (known, short) (_, refl))
            | inr long ↦
                let (tag, tag_read) = slice-some 0 4 account.content (omega arith) (ground arith) in
                let (own, own_read) =
                  slice-some 4 36 account.content (omega arith) (ground arith) in
                let (decimals, decimals_read) = get_elem?-some account.content 44 (ground arith) in
                elim (Bool-cases (not (from_le_bytes tag == 1))) [
                  | inl untagged ↦ inl (rw (known, long, tag_read, untagged) (_, refl))
                  | inr tagged ↦ elim (Bool-cases (not (from_be_bytes 0 own == authority))) [
                    | inl other ↦
                        inl (rw (known, long, tag_read, tagged, own_read, other) (_, refl))
                    | inr same ↦ inr (
                      account,
                      record { token_program = account.owner; decimals = decimals },
                      refl,
                      rw (known, long, tag_read, tagged, own_read, same, decimals_read) refl,
                      record {
                        program = ground arith;
                        long_enough = ground arith;
                        tag = (tag, tag_read, ground arith);
                        key = (own, own_read, ground arith);
                        info_program = refl;
                        info_decimals = decimals_read;
                      },
                    )
                  ]
                ]
          ]
        ]

  pub decode_mint_ok :
      (key : Pubkey) (found : Option Account) (authority : Pubkey) (info : MintInfo)
      → decode_mint programs key found authority ≡ ok info
      → (account : Account) × (found ≡ some account) × IsMintable programs authority account info
  decode_mint_ok key found authority info h = elim (decode_mint-IsMintable key found authority) [
    | inl (x, e) ↦ cc
    | inr (account, other, there, e, mintable) ↦ (
      account,
      there,
      subst (IsMintable programs authority account) (ok-injective (sym e ∙ h)) mintable,
    )
  ]

-- The instruction that mints carries ten bytes: its tag, an amount below 2^64 that is read back from
-- the eight bytes that follow, and the decimals.
pub mint_to_checked_instruction_amount :
    (mint destination authority token_program amount decimals : ℕ)
    → amount < 2 ^ 64
    → let content =
        (mint_to_checked_instruction mint destination authority token_program amount
          decimals).content in
      (length content ≡ 10)
      × (get_elem? content 0 ≡ some 14)
      × (from_le_bytes (take 8 (drop 1 content)) ≡ amount)
      × (get_elem? content 9 ≡ some decimals)
unfolding mint_to_checked_instruction to_le_bytes
mint_to_checked_instruction_amount mint destination authority token_program amount decimals h =
    (refl, refl, from_le_bytes-to_le_bytes 8 amount (omega arith), refl)
