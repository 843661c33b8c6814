-- ===== src/Raydium/Outcomes.antt =====
-- crates/raydium-clmm-client/src/lib.rs: what it means that an action returns a result.
use mathlib.Core.Path.{subst}
use testnet_testsuite.Prelude.{
  List, [], ◌∷◌, ◌++◌, Option, none, some, true, false, not, ◌==◌, ◌||◌, ok, fail_if, fail_if-eq-ok,
  ◌≡◌, ◌⊎◌, inl, inr, refl, sym, ◌∙◌, Result-cases, ok-injective, arith,
}
use testnet_testsuite.Raydium.Types.{
  Pubkey, text, words, address, Account, Instruction, PositionView, EnsureAmmConfigParams,
  EnsureAmmConfigOutcome, ClosePositionOutcome,
}
use testnet_testsuite.Raydium.Monad.{M, ◌>>=◌, lift, pure, Client}
use testnet_testsuite.Raydium.Accounts.{decode_program_account}
use testnet_testsuite.Raydium.Amounts.{invalid}
use testnet_testsuite.Raydium.Actions.{any_owed, close_position}
use testnet_testsuite.Raydium.Position.{load_position}
use testnet_testsuite.Raydium.Pools.{is_requested, confirm_config, ensure_amm_config}
use testnet_testsuite.Raydium.Once.{IsLogged, IsQuiet, IsOnce}
use testnet_testsuite.Raydium.Reading.{reading}

-- A sequence that returns a result has got one from its first part.
>>=-eq-ok_M :
    {W A B : Type 0} (m : M W A) (f : A → M W B) (w : W) (b : B)
    → ((m >>= f) w).0 ≡ ok b
    → (a : A) × ((m w).0 ≡ ok a) × ((f a (m w).1).0 ≡ ok b)
unfolding ◌>>=◌
>>=-eq-ok_M m f w b h = elim (Result-cases (m w).0) [
  | inl (a, e) ↦ (a, e, rw (e, ◌>>=◌) at h)
  | inr (x, e) ↦ absurd (cc (rw (e, ◌>>=◌) at h))
]

module _ {P C B T K W : Type 0} (self : Client P C B T K W) where
  -- If closing a position returns a result, the position that it has read held no liquidity and was
  -- owed no fees and no rewards.
  pub close_position_empty :
      (mint : Pubkey) (w : W) (r : ClosePositionOutcome)
      → (close_position self mint w).0 ≡ ok r
      → (p : PositionView) × ((load_position self mint w).0 ≡ ok p)
        × (p.liquidity ≡ 0)
        × (p.fees_owed_0 ≡ 0)
        × (p.fees_owed_1 ≡ 0)
        × (any_owed p.rewards_owed ≡ false)
  unfolding close_position lift
  close_position_empty mint w r h =
      let (p, e, h1) = >>=-eq-ok_M (load_position self mint) _ w r h in
      let (u, e2, h2) =
        >>=-eq-ok_M
          (lift (
            fail_if
              (not (p.liquidity == 0)
                || not (p.fees_owed_0 == 0)
                || not (p.fees_owed_1 == 0)
                || any_owed p.rewards_owed)
              (invalid (text "position must have zero liquidity, fees, and rewards before close"))))
          _ _ r h1 in
      let free = fail_if-eq-ok _ _ e2 in
      (p, e, ground arith, ground arith, ground arith, ground arith)

  module _ (sent : W → List (List Instruction)) (l : IsLogged self.chain sent) where
    -- A config that is said to be there already was not sent, and one that is said to be created was
    -- sent in one transaction.
    pub IsHonest : M W EnsureAmmConfigOutcome → Type 0
    IsHonest m =
        (w : W) (r : EnsureAmmConfigOutcome)
        → (m w).0 ≡ ok r
        → ((r.created ≡ false) × (r.transaction ≡ none) × (sent (m w).1 ≡ sent w))
          ⊎ ((r.created ≡ true) × ((ixs : List Instruction) × (sent (m w).1 ≡ sent w ++ ixs ∷ [])))

    >>=-IsHonest :
        {A : Type 0} (m : M W A) (f : A → M W EnsureAmmConfigOutcome)
        → IsQuiet sent m
        → ((a : A) → IsHonest (f a))
        → IsHonest (m >>= f)
    unfolding IsHonest IsQuiet ◌>>=◌
    >>=-IsHonest m f q k w r h =
        let (a, e, h1) = >>=-eq-ok_M m f w r h in rw (e, ◌>>=◌) (rw (sym (q w)) (k a (m w).1 r h1))

    confirm_existing-IsQuiet :
        (params : EnsureAmmConfigParams) (config_address : Pubkey) (account : Account)
        → IsQuiet sent (confirm_config self params config_address (some account))
    unfolding confirm_config
    confirm_existing-IsQuiet params config_address account = search reading depth 20 fits 2000

    confirm_existing_lem :
        (params : EnsureAmmConfigParams) (config_address : Pubkey) (account : Account) (w : W)
        (r : EnsureAmmConfigOutcome)
        → (confirm_config self params config_address (some account) w).0 ≡ ok r
        → (r.created ≡ false) × (r.transaction ≡ none)
    unfolding confirm_config lift pure
    confirm_existing_lem params config_address account w r h =
        let (config, e, h1) =
          >>=-eq-ok_M
            (lift (decode_program_account self self.programs.decode_config config_address account))
            _ w r h in
        let (u, e2, h2) =
          >>=-eq-ok_M
            (lift (
              fail_if (not (is_requested self (self.programs.config_view config) params)) (
                invalid (
                  words "existing AMM config "
                  ∷ address config_address
                  ∷ words " does not match the requested admin or fee settings"
                  ∷ []))))
            _ _ r h1 in
        subst (λ (x : EnsureAmmConfigOutcome). (x.created ≡ false) × (x.transaction ≡ none))
          (ok-injective h2) (refl, refl)

    confirm_new-IsOnce :
        (params : EnsureAmmConfigParams) (config_address : Pubkey)
        → IsOnce sent (confirm_config self params config_address none)
    unfolding confirm_config
    confirm_new-IsOnce params config_address = search reading depth 20 fits 2000

    confirm_new_lem :
        (params : EnsureAmmConfigParams) (config_address : Pubkey) (w : W)
        (r : EnsureAmmConfigOutcome)
        → (confirm_config self params config_address none w).0 ≡ ok r
        → r.created ≡ true
    unfolding confirm_config pure
    confirm_new_lem params config_address w r h =
        let (t, e, h1) = >>=-eq-ok_M (self.chain.submit _ []) _ w r h in
        subst (λ (x : EnsureAmmConfigOutcome). x.created ≡ true) (ok-injective h1) refl

    confirm_config-IsHonest :
        (params : EnsureAmmConfigParams) (config_address : Pubkey) (existing : Option Account)
        → IsHonest (confirm_config self params config_address existing)
    unfolding IsHonest IsQuiet IsOnce
    confirm_config-IsHonest params config_address (some account) w r h =
        let (a, b) = confirm_existing_lem params config_address account w r h in
        inl (a, b, confirm_existing-IsQuiet params config_address account w)
    confirm_config-IsHonest params config_address none w r h =
        elim (confirm_new-IsOnce params config_address w) [
          | inl ((x, e), s) ↦ absurd (cc (sym e ∙ h))
          | inr sent_one ↦ inr (confirm_new_lem params config_address w r h, sent_one)
        ]

    -- If the AMM config is ensured, on a chain where only a submission sends: either the result says
    -- that it was there already, and nothing was sent; or the result says that it was created, and
    -- one transaction was sent.
    pub ensure_amm_config-IsHonest :
        (params : EnsureAmmConfigParams) → IsHonest (ensure_amm_config self params)
    unfolding ensure_amm_config
    ensure_amm_config-IsHonest params =
        search (reading, >>=-IsHonest, confirm_config-IsHonest) depth 20 fits 2000
