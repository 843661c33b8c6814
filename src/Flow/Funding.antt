-- ===== src/Flow/Funding.antt =====
-- crates/raydium-clmm-orchestrator/src/lib.rs: what a funding that succeeds has sent.
use testnet_testsuite.Prelude.{
  List, [], ◌∷◌, ◌++◌, Option, some, Result, ok, ◌≡◌, ◌≢◌, inl, inr, refl, Result-cases,
  ok-injective, fail_if-eq-ok, arith, ap, ◌∙◌,
}
use testnet_testsuite.Decimal.{Decimal}
use testnet_testsuite.Raydium.Types.{Pubkey, Instruction, TransactionOutcome, Account}
use testnet_testsuite.Raydium.Failures.{IsNodeLogged}
use testnet_testsuite.Flow.Task.{Task, ◌>>=◌, lift, pure}
use testnet_testsuite.Flow.Types.{MintInfo, FundingOutcome, Orchestrator}
use testnet_testsuite.Flow.Checks.{ui_to_raw}
use testnet_testsuite.Flow.Minting.{IsMintable, decode_mint_ok}
use testnet_testsuite.Flow.Steps.{
  account_at, fetch, funding_instructions, submit_funding, fund_payer,
}

>>=-eq-ok_task :
    {E W A B : Type 0} (m : Task E W A) (f : A → Task E W B) (w : W) (b : B)
    → ((m >>= f) w).0 ≡ ok b
    → (a : A) × ((m w).0 ≡ ok a) × ((m >>= f) w ≡ f a (m w).1) × ((f a (m w).1).0 ≡ ok b)
unfolding ◌>>=◌
>>=-eq-ok_task m f w b h = elim (Result-cases (m w).0) [
  | inl (a, e) ↦ (a, e, rw (e, ◌>>=◌) refl, rw (e, ◌>>=◌) at h)
  | inr (x, e) ↦ let h' = rw (e, ◌>>=◌) at h in cc
]

lift-eq-ok :
    {E W A B : Type 0} (r : Result E A) (f : A → Task E W B) (w : W) (b : B)
    → ((lift r >>= f) w).0 ≡ ok b
    → (a : A) × (r ≡ ok a) × ((lift r >>= f) w ≡ f a w) × ((f a w).0 ≡ ok b)
unfolding lift
lift-eq-ok r f w b h = >>=-eq-ok_task (lift r) f w b h

module _ {P C B T K W : Type 0} (self : Orchestrator P C B T K W)
    (sent : W → List (List Instruction)) (n : IsNodeLogged self.node sent) where
  fetch_quiet : (keys : List Pubkey) (w : W) → sent (fetch self.node keys w).1 ≡ sent w
  unfolding fetch
  fetch_quiet keys w = elim (Result-cases (self.node.get_multiple_accounts keys w).0) [
    | inl (a, e) ↦ rw (e, fetch) (n.reads keys w)
    | inr (x, e) ↦ rw (e, fetch) (n.reads keys w)
  ]

  fetch-eq-ok :
      (keys : List Pubkey) (w : W) {accounts : List (Option Account)}
      → (fetch self.node keys w).0 ≡ ok accounts
      → (self.node.get_multiple_accounts keys w).0 ≡ ok accounts
  unfolding fetch
  fetch-eq-ok keys w h = elim (Result-cases (self.node.get_multiple_accounts keys w).0) [
    | inl (a, e) ↦ e ∙ ap (λ l. ok l) (ok-injective (rw (e, fetch) at h))
    | inr (x, e) ↦ absurd (cc (rw (e, fetch) at h))
  ]

  submit_funding_sent :
      (instructions : List Instruction) (w : W) {t : TransactionOutcome}
      → (submit_funding self instructions w).0 ≡ ok t
      → sent (submit_funding self instructions w).1 ≡ sent w ++ instructions ∷ []
  unfolding submit_funding
  submit_funding_sent instructions w h =
      let signers = self.mint_authority ∷ [] in
      let r = self.node.submit instructions self.payer signers self.funding_submission w in
      elim (Result-cases r.0) [
        | inr (x, e) ↦ absurd (cc (rw (e, submit_funding) at h))
        | inl (a, e) ↦ elim (n.submits instructions self.payer signers self.funding_submission w) [
          | inl ((x, f), s) ↦ cc
          | inr s ↦ rw (e, submit_funding) s
        ]
      ]

  module _ {D : Type 0} ⦃d : Decimal D⦄ where
    -- A funding that succeeds has sent one transaction, the four instructions that make the two token
    -- accounts and mint the two amounts to them; the mints are different, each was decoded from the
    -- account that was read for it, and the amounts are those asked for in the units of each mint.
    pub fund_payer_sent :
        (mint_a : Pubkey) (amount_a : D) (mint_b : Pubkey) (amount_b : D) (w : W)
        (outcome : FundingOutcome)
        → (fund_payer self mint_a amount_a mint_b amount_b w).0 ≡ ok outcome
        → (accounts : List (Option Account)) × (account_a : Account) × (account_b : Account)
          × (info_a : MintInfo) × (info_b : MintInfo) × ((self.node.get_multiple_accounts
                (mint_a ∷ mint_b ∷ [])
                w).0
              ≡ ok accounts)
          × (account_at accounts 0 ≡ some account_a)
          × (account_at accounts 1 ≡ some account_b)
          × IsMintable self.client.programs self.mint_authority account_a info_a
          × IsMintable self.client.programs self.mint_authority account_b info_b
          × (mint_a ≢ mint_b)
          × (ui_to_raw amount_a info_a.decimals ≡ ok outcome.amount_a_raw)
          × (ui_to_raw amount_b info_b.decimals ≡ ok outcome.amount_b_raw)
          × (sent (fund_payer self mint_a amount_a mint_b amount_b w).1
              ≡ sent w
                ++ funding_instructions self mint_a mint_b info_a info_b outcome.amount_a_raw
                    outcome.amount_b_raw
                  ∷ [])
    unfolding fund_payer pure
    fund_payer_sent mint_a amount_a mint_b amount_b w outcome h =
        let (u1, e1, s1, h1) = lift-eq-ok _ _ w outcome h in
        let (u2, e2, s2, h2) = lift-eq-ok _ _ w outcome h1 in
        let (u3, e3, s3, h3) = lift-eq-ok _ _ w outcome h2 in
        let keys = mint_a ∷ mint_b ∷ [] in
        let w4 = (fetch self.node keys w).1 in
        let (accounts, e4, s4, h4) = >>=-eq-ok_task (fetch self.node keys) _ w outcome h3 in
        let (info_a, e5, s5, h5) = lift-eq-ok _ _ w4 outcome h4 in
        let (info_b, e6, s6, h6) = lift-eq-ok _ _ w4 outcome h5 in
        let (raw_a, e7, s7, h7) = lift-eq-ok _ _ w4 outcome h6 in
        let (raw_b, e8, s8, h8) = lift-eq-ok _ _ w4 outcome h7 in
        let instructions = funding_instructions self mint_a mint_b info_a info_b in
        let (t, e9, s9, h9) =
          >>=-eq-ok_task (submit_funding self (instructions raw_a raw_b)) _ w4 outcome h8 in
        let made = ok-injective h9 in
        let (account_a, there_a, mintable_a) = decode_mint_ok _ mint_a _ _ info_a e5 in
        let (account_b, there_b, mintable_b) = decode_mint_ok _ mint_b _ _ info_b e6 in
        let differ = fail_if-eq-ok _ _ e3 in
        (
          accounts,
          account_a,
          account_b,
          info_a,
          info_b,
          fetch-eq-ok keys w e4,
          there_a,
          there_b,
          mintable_a,
          mintable_b,
          ground arith,
          e7 ∙ ap (λ (o : FundingOutcome). ok o.amount_a_raw) made,
          e8 ∙ ap (λ (o : FundingOutcome). ok o.amount_b_raw) made,
          ap (λ x. sent x.1) (s1 ∙ s2 ∙ s3 ∙ s4 ∙ s5 ∙ s6 ∙ s7 ∙ s8 ∙ s9)
              ∙ submit_funding_sent (instructions raw_a raw_b) w4 e9
              ∙ ap (λ l. l ++ instructions raw_a raw_b ∷ []) (fetch_quiet keys w)
              ∙ ap
                  (λ (o : FundingOutcome).
                    sent w ++ instructions o.amount_a_raw o.amount_b_raw ∷ [])
                  made,
        )
