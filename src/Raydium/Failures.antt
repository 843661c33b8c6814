-- ===== src/Raydium/Failures.antt =====
-- crates/raydium-clmm-client/src/lib.rs: what the construction of a client and the errors of its
-- submission promise.
use testnet_testsuite.Prelude.{
  ℕ, ◌≤◌, ◌<◌, List, [], ◌∷◌, ◌++◌, ok, err, ◌≡◌, ◌⊎◌, inl, inr, refl, Result-cases, arith, ltb,
  ◌==◌, Bool-cases,
}
use testnet_testsuite.Chain.Submit.{SubmissionConfig, SubmissionError}
use testnet_testsuite.Raydium.Types.{Pubkey, text, Fault, fails, Instruction}
use testnet_testsuite.Raydium.External.{Clmm}
use testnet_testsuite.Raydium.Programs.{Programs}
use testnet_testsuite.Raydium.Monad.{Client}
use testnet_testsuite.Raydium.Once.{IsLogged}
use testnet_testsuite.Raydium.Setup.{
  Node, classify, submit, api, client_of, with_defaults, new_client,
}
use testnet_testsuite.Raydium.Amounts.{invalid}

module _ {W : Type 0} (node : Node W) (sent : W → List (List Instruction)) where
  -- Only a submission is logged, and it is logged unless it fails before it is sent.
  pub record IsNodeLogged : Type 0 where
    pub reads : (keys : List Pubkey) (w : W) → sent (node.get_multiple_accounts keys w).1 ≡ sent w
    pub epochs : (w : W) → sent (node.get_epoch w).1 ≡ sent w
    pub keys : (w : W) → sent (node.new_keypair w).1 ≡ sent w
    pub submits :
        (ixs : List Instruction) (payer : Pubkey) (signers : List Pubkey) (c : SubmissionConfig)
        (w : W)
        → (((e : SubmissionError) × ((node.submit ixs payer signers c w).0 ≡ err e))
            × (sent (node.submit ixs payer signers c w).1 ≡ sent w))
          ⊎ (sent (node.submit ixs payer signers c w).1 ≡ sent w ++ ixs ∷ [])

  pub api-IsLogged :
      (payer : Pubkey) (c : SubmissionConfig) → IsNodeLogged → IsLogged (api node payer c) sent
  unfolding submit
  api-IsLogged payer c l = record {
    reads = l.reads;
    epochs = l.epochs;
    keys = l.keys;
    submits = λ ixs signers w. elim (Result-cases (node.submit ixs payer signers c w).0) [
      | inl (a, e) ↦ elim (l.submits ixs payer signers c w) [
        | inl ((x, f), s) ↦ cc
        | inr s ↦ inr (rw (e, submit) s)
      ]
      | inr (x, e) ↦ elim (l.submits ixs payer signers c w) [
        | inl (f, s) ↦ inl ((fails (classify x), rw (e, submit) refl), rw (e, submit) s)
        | inr s ↦ inr (rw (e, submit) s)
      ]
    ];
  }

  -- A client is made exactly if its tolerance is at most 10,000 basis points and its compute limit is
  -- not zero; it then has the program, the payer and the tolerance that were given, and over a chain
  -- where only a submission is logged, its actions see such a chain.
  pub new_client-IsLogged :
      {P C B T K : Type 0} (clmm : Clmm P C B T K) (programs : Programs P C B T)
      (program_id payer : Pubkey) (slippage_bps unit_limit fee commitment : ℕ)
      → IsNodeLogged
      → (((10_000 < slippage_bps) ⊎ (unit_limit ≡ 0))
          × ((e : Fault) × (new_client node clmm programs program_id payer slippage_bps unit_limit
                  fee commitment
                ≡ err e)))
        ⊎ ((slippage_bps ≤ 10_000)
            × (0 < unit_limit)
            × ((client : Client P C B T K W) × (new_client node clmm programs program_id payer
                    slippage_bps unit_limit fee commitment
                  ≡ ok client)
                × (client.program_id ≡ program_id)
                × (client.payer ≡ payer)
                × (client.slippage_bps ≡ slippage_bps)
                × IsLogged client.chain sent))
  unfolding new_client
  new_client-IsLogged clmm programs program_id payer slippage_bps unit_limit fee commitment l =
      elim (Bool-cases (ltb 10_000 slippage_bps)) [
        | inl wide ↦
            inl (
              inl (ground arith),
              (invalid (text "slippage_bps cannot exceed 10,000"), rw wide refl),
            )
        | inr narrow ↦ elim (Bool-cases (unit_limit == 0)) [
          | inl none_left ↦ inl (
            inr (ground arith),
            (
              invalid (text "compute_unit_limit must be greater than zero"),
              rw (narrow, none_left) refl,
            ),
          )
          | inr some_left ↦ inr (
            ground arith,
            ground arith,
            (
              client_of node clmm programs program_id payer slippage_bps unit_limit fee commitment,
              rw (narrow, some_left) refl,
              refl,
              refl,
              refl,
              api-IsLogged payer (with_defaults unit_limit fee commitment) l,
            ),
          )
        ]
      ]
