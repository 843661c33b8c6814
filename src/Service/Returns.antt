-- ===== src/Service/Returns.antt =====
-- services/raydium-clmm-orchestrator/src/main.rs: how many transactions a recovery sends.
use testnet_testsuite.Prelude.{
  ℕ, ◌+◌, String, List, [], ◌∷◌, append-nil, Option, none, some, Result, ok, ◌≡◌, inl, inr, sym, ap,
  ◌∙◌, Bool-cases, Result-cases, ok-injective, arith, length, ◌==◌,
}
use testnet_testsuite.Chain.Submit.{SubmissionConfig}
use testnet_testsuite.Raydium.Types.{Pubkey, Message, Account, Instruction, TransactionOutcome}
use testnet_testsuite.Raydium.Failures.{IsNodeLogged}
use testnet_testsuite.Flow.Task.{Task}
use testnet_testsuite.Flow.Counting.{
  IsSending, IsPosting, >>=-IsSending, IsSending-weaken, still_then, stepping,
}
use testnet_testsuite.Service.Types.{ServiceFault, quits, panicked, Host, calling, attempt}
use testnet_testsuite.Service.Reclaim.{
  send, transfer_lamports, return_found, return_token_balance, return_tokens, return_lamports,
  reclaim_user_funds,
}

module _ {P C B T K W : Type 0} (host : Host P C B T K W) (sent : W → List (List Instruction)) where
  -- Only a submission of the node is logged.
  pub record IsHostLogged : Type 0 where
    pub node : IsNodeLogged host.node sent
    pub slots : (w : W) → sent (host.get_slot w).1 ≡ sent w
    pub accounts : (key : Pubkey) (w : W) → sent (host.get_account key w).1 ≡ sent w
    pub found :
        (key : Pubkey) (c : ℕ) (w : W) → sent (host.get_account_with_commitment key c w).1 ≡ sent w
    pub balances : (key : Pubkey) (w : W) → sent (host.get_balance key w).1 ≡ sent w
    pub directories : (w : W) → sent (host.make_recovery_dir w).1 ≡ sent w
    pub saves : (key : Pubkey) (w : W) → sent (host.save_recovery key w).1 ≡ sent w
    pub removals : (key : Pubkey) (w : W) → sent (host.remove_recovery key w).1 ≡ sent w

  pub calling-IsSending :
      {A : Type 0} (m : Message) (f : W → Result String A × W)
      → ((w : W) → sent (f w).1 ≡ sent w)
      → IsSending sent 0 0 (calling m f)
  unfolding IsSending calling
  calling-IsSending m f h w = elim (Result-cases (f w).0) [
    | inl (a, e) ↦
        rw (e, calling) ([], h w ∙ sym (append-nil (sent w)), omega arith, λ b q. omega arith)
    | inr (x, e) ↦
        rw (e, calling) ([], h w ∙ sym (append-nil (sent w)), omega arith, λ b q. omega arith)
  ]

  -- A step whose failure is kept sends no more than the step.
  pub attempt-IsSending :
      {A : Type 0} (m : Task ServiceFault W A) (l n : ℕ)
      → IsSending sent l n m
      → IsSending sent 0 n (attempt m)
  unfolding IsSending attempt
  attempt-IsSending m l n h w =
      let (new, s, le, count) = h w in
      elim (Result-cases (m w).0) [
        | inl (a, e) ↦ rw (e, attempt) (new, s, le, λ b q. omega arith)
        | inr (quits x, e) ↦ rw (e, attempt) (new, s, le, λ b q. omega arith)
        | inr (panicked, e) ↦ rw (e, attempt) (new, s, le, λ b q. omega arith)
      ]

  -- What holds of a result holds of the result that is kept.
  pub attempt-IsPosting :
      {A : Type 0} (m : Task ServiceFault W A) (n : ℕ) (Q : A → ℕ → Type 0)
      → IsPosting sent n Q m
      → IsPosting sent n (λ r k. (a : A) → r ≡ ok a → Q a k) (attempt m)
  unfolding IsPosting attempt
  attempt-IsPosting m n Q h w =
      let (new, s, le, post) = h w in
      elim (Result-cases (m w).0) [
        | inl (a, e) ↦
            rw (e, attempt)
              (new, s, le, λ b q x g. post x (e ∙ ap ok (ok-injective (ok-injective q ∙ g))))
        | inr (quits x, e) ↦ rw (e, attempt) (new, s, le, λ b q t g. cc)
        | inr (panicked, e) ↦ rw (e, attempt) (new, s, le, λ b q t g. cc)
      ]

  module _ (l : IsHostLogged) where
    pub send-IsSending :
        (instructions : List Instruction) (payer : Pubkey) (signers : List Pubkey)
        (c : SubmissionConfig)
        → IsSending sent 1 1 (send host instructions payer signers c)
    unfolding IsSending send
    send-IsSending instructions payer signers c w =
        let h = l.node.submits instructions payer signers c w in
        elim (Result-cases (host.node.submit instructions payer signers c w).0) [
          | inl (a, e) ↦ elim h [
            | inl ((x, f), s) ↦ cc
            | inr s ↦ rw (e, send) (instructions ∷ [], s, omega arith, λ b q. omega arith)
          ]
          | inr (x, e) ↦ elim h [
            | inl (f, s) ↦ rw (e, send) ([], s ∙ sym (append-nil (sent w)), omega arith, λ b q. cc)
            | inr s ↦ rw (e, send) (instructions ∷ [], s, omega arith, λ b q. omega arith)
          ]
        ]

    pub transfer_lamports-IsSending :
        (payer source destination : Pubkey) (lamports : ℕ) (c : SubmissionConfig)
        → IsSending sent 1 1 (transfer_lamports host payer source destination lamports c)
    unfolding transfer_lamports
    transfer_lamports-IsSending payer source destination lamports c =
        search (stepping, send-IsSending) depth 20 fits 2000

    return_found-IsSending :
        (faucet user mint : Pubkey) (account : Account) (found : Option Account)
        (c : SubmissionConfig)
        → IsSending sent 0 1 (return_found host faucet user mint account found c)
    unfolding return_found
    return_found-IsSending faucet user mint account none c =
        IsSending-weaken sent _ 0 0 0 1 (omega arith) (omega arith) (search stepping)
    return_found-IsSending faucet user mint account (some source) c =
        IsSending-weaken sent _ 1 1 0 1 (omega arith) (omega arith)
          (search (stepping, send-IsSending) depth 20 fits 2000)

    -- Returning the balance of a mint sends at most one transaction.
    pub return_token_balance-IsSending :
        (faucet user mint : Pubkey) (c : SubmissionConfig)
        → IsSending sent 0 1 (return_token_balance host faucet user mint c)
    unfolding return_token_balance
    return_token_balance-IsSending faucet user mint c =
        search (still_then, calling-IsSending, l.accounts, l.found, return_found-IsSending) depth 20
          fits 2000

    return_tokens-IsSending :
        (faucet user : Pubkey) (mints : List Pubkey) (c : SubmissionConfig)
        (returned : List TransactionOutcome)
        → IsSending sent 0 (length mints) (return_tokens host faucet user mints c returned)
    unfolding return_tokens
    return_tokens-IsSending faucet user [] c returned = search stepping
    return_tokens-IsSending faucet user (mint ∷ mints) c returned =
        >>=-IsSending sent _ _ 0 1 0 (length mints) 0 _ (omega arith) (omega arith) (omega arith)
          (return_token_balance-IsSending faucet user mint c)
          (λ t. return_tokens-IsSending faucet user mints c _)

    return_lamports-IsSending :
        (faucet user : Pubkey) (lamports : ℕ) (c : SubmissionConfig)
        → IsSending sent 0 1 (return_lamports host faucet user lamports c)
    unfolding return_lamports
    return_lamports-IsSending faucet user lamports c = elim (Bool-cases (lamports == 0)) [
      | inl e ↦ rw e (IsSending-weaken sent _ 0 0 0 1 (omega arith) (omega arith) (search stepping))
      | inr e ↦ rw e (
          IsSending-weaken sent _ 1 1 0 1 (omega arith) (omega arith)
            (search (stepping, transfer_lamports-IsSending) depth 20 fits 2000))
    ]

    -- Reclaiming the funds of a user sends at most one transaction for each mint and one more, on a
    -- host where only a submission is logged.
    pub reclaim_user_funds-IsSending :
        (faucet user : Pubkey) (mints : List Pubkey) (c : SubmissionConfig)
        → IsSending sent 0 (length mints + 1) (reclaim_user_funds host faucet user mints c)
    unfolding reclaim_user_funds
    reclaim_user_funds-IsSending faucet user mints c =
        >>=-IsSending sent _ _ 0 (length mints) 0 1 0 _ (omega arith) (omega arith) (omega arith)
          (return_tokens-IsSending faucet user mints c [])
          (λ returns. still_then sent _ _ 0 1 (calling-IsSending _ _ (l.balances user)) (λ lamports.
            >>=-IsSending sent _ _ 0 1 0 0 0 1 (omega arith) (omega arith) (omega arith)
              (return_lamports-IsSending faucet user lamports c) (λ t. search stepping)))
