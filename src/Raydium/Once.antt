-- ===== src/Raydium/Once.antt =====
-- crates/raydium-clmm-client/src/lib.rs: what an action submits. The chain is a parameter: `sent` is
-- the log of the transactions that reached it.
use testnet_testsuite.Prelude.{
  List, [], ◌∷◌, ◌++◌, Result, ok, err, ◌≡◌, ◌⊎◌, inl, inr, refl, Result-cases, sym, ◌∙◌,
}
use testnet_testsuite.Raydium.Types.{Pubkey, Fault, Instruction, TransactionOutcome}
use testnet_testsuite.Raydium.Monad.{M, ◌>>=◌, lift, pure, throw, ChainApi}

-- Reading the chain and making a key send nothing; a submission sends its transaction, or fails
-- before it is sent.
pub record IsLogged {W : Type 0} (chain : ChainApi W) (sent : W → List (List Instruction))
    : Type 0 where
  pub reads : (keys : List Pubkey) (w : W) → sent (chain.get_multiple_accounts keys w).1 ≡ sent w
  pub epochs : (w : W) → sent (chain.get_epoch w).1 ≡ sent w
  pub keys : (w : W) → sent (chain.new_keypair w).1 ≡ sent w
  pub submits :
      (ixs : List Instruction) (signers : List Pubkey) (w : W)
      → (((e : Fault) × ((chain.submit ixs signers w).0 ≡ err e))
          × (sent (chain.submit ixs signers w).1 ≡ sent w))
        ⊎ (sent (chain.submit ixs signers w).1 ≡ sent w ++ ixs ∷ [])

module _ {W : Type 0} (sent : W → List (List Instruction)) where
  -- Sends nothing.
  unfoldable pub IsQuiet : {A : Type 0} → M W A → Type 0
  IsQuiet m = (w : W) → sent (m w).1 ≡ sent w

  -- Sends nothing and fails, or sends one transaction.
  unfoldable pub IsOnce : {A : Type 0} → M W A → Type 0
  IsOnce m =
      (w : W)
      → (((e : Fault) × ((m w).0 ≡ err e)) × (sent (m w).1 ≡ sent w))
        ⊎ ((ixs : List Instruction) × (sent (m w).1 ≡ sent w ++ ixs ∷ []))

  pub lift-IsQuiet : {A : Type 0} (r : Result Fault A) → IsQuiet (lift r)
  unfolding IsQuiet lift
  lift-IsQuiet r w = refl

  pub pure-IsQuiet : {A : Type 0} (a : A) → IsQuiet (pure a)
  unfolding IsQuiet pure
  pure-IsQuiet a w = refl

  pub >>=-IsQuiet :
      {A B : Type 0} (m : M W A) (f : A → M W B)
      → IsQuiet m
      → ((a : A) → IsQuiet (f a))
      → IsQuiet (m >>= f)
  unfolding IsQuiet ◌>>=◌
  >>=-IsQuiet m f h k w = elim (Result-cases (m w).0) [
    | inl (a, e) ↦ rw (e, ◌>>=◌) (k a (m w).1 ∙ h w)
    | inr (x, e) ↦ rw (e, ◌>>=◌) (h w)
  ]

  pub >>=-IsOnce :
      {A B : Type 0} (m : M W A) (f : A → M W B)
      → IsQuiet m
      → ((a : A) → IsOnce (f a))
      → IsOnce (m >>= f)
  unfolding IsQuiet IsOnce ◌>>=◌
  >>=-IsOnce m f h k w = elim (Result-cases (m w).0) [
    | inl (a, e) ↦ rw (e, ◌>>=◌) (rw (sym (h w)) (k a (m w).1))
    | inr (x, e) ↦ rw (e, ◌>>=◌) (inl ((x, refl), h w))
  ]

  pub IsOnce->>= :
      {A B : Type 0} (m : M W A) (f : A → M W B)
      → IsOnce m
      → ((a : A) (w : W) → (b : B) × (f a w ≡ (ok b, w)))
      → IsOnce (m >>= f)
  unfolding IsOnce ◌>>=◌
  IsOnce->>= m f h k w = elim (Result-cases (m w).0) [
    | inl (a, e) ↦
        let (b, fe) = k a (m w).1 in
        elim (h w) [
          | inl ((x, fails_x), s) ↦ cc
          | inr (ixs, s) ↦ inr (ixs, rw (e, ◌>>=◌) (rw fe s))
        ]
    | inr (x, e) ↦ elim (h w) [
      | inl (failed, s) ↦ inl ((x, rw (e, ◌>>=◌) refl), rw (e, ◌>>=◌) s)
      | inr (ixs, s) ↦ inr (ixs, rw (e, ◌>>=◌) s)
    ]
  ]

  pub throw-IsQuiet : (A : Type 0) (e : Fault) → IsQuiet (throw {A = A} e)
  unfolding IsQuiet throw
  throw-IsQuiet A e w = refl

  -- A submission and its result.
  pub submit-IsOnce :
      {A : Type 0} (chain : ChainApi W) (ixs : List Instruction) (signers : List Pubkey)
      (f : TransactionOutcome → A)
      → IsLogged chain sent
      → IsOnce (chain.submit ixs signers >>= λ t. pure (f t))
  unfolding IsOnce pure
  submit-IsOnce chain ixs signers f l =
      IsOnce->>= (chain.submit ixs signers) (λ t. pure (f t))
        (λ w. elim (l.submits ixs signers w) [ inl failed ↦ inl failed | inr s ↦ inr (ixs, s) ])
        (λ t w. (f t, refl))

  pub ruleset sending =
      (lift-IsQuiet, pure-IsQuiet, throw-IsQuiet, >>=-IsQuiet, >>=-IsOnce, submit-IsOnce)
