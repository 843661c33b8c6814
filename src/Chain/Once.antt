-- ===== src/Chain/Once.antt =====
-- crates/mtm-chain/src/lib.rs: a whole submission sends copies of one transaction.
use testnet_testsuite.Prelude.{
  ℕ, zero, suc, ◌≤◌, ◌<◌, List, [], ◌∷◌, ◌++◌, some, Bool-cases, Option-cases, err, ◌≡◌, refl, ap,
  ◌∙◌, ◌⊎◌, inl, inr, Result-cases, replicate, arith, ltb, leb, ◌-◌,
}
use testnet_testsuite.Raydium.Types.{Pubkey, Instruction}
use testnet_testsuite.Chain.Submit.{
  SubmissionConfig, SubmissionError, Rpc, add_signers, send_attempts, decide, confirm,
  send_and_confirm, submit, at_least_one,
}
use testnet_testsuite.Chain.Sending.{IsLogged, send_attempts_same}

module _ {Tx W : Type 0} (rpc : Rpc Tx W) (sent : W → List Tx) where
  -- Only a send is logged.
  pub record IsSendOnly : Type 0 where
    pub logged : IsLogged rpc sent
    pub blockhashes : (c : ℕ) (w : W) → sent (rpc.get_latest_blockhash c w).1 ≡ sent w
    pub simulations : (tx : Tx) (w : W) → sent (rpc.simulate_transaction tx w).1 ≡ sent w
    pub statuses : (s : ℕ) (w : W) → sent (rpc.get_signature_statuses s w).1 ≡ sent w
    pub heights : (w : W) → sent (rpc.get_block_height w).1 ≡ sent w

  confirm_quiet :
      (n : ℕ) (config : SubmissionConfig) (signature units last_valid started : ℕ) (w : W)
      → IsSendOnly
      → sent (confirm rpc n config signature units last_valid started w).1 ≡ sent w
  unfolding confirm
  confirm_quiet zero config signature units last_valid started w l = refl
  confirm_quiet (suc n) config signature units last_valid started w l =
      let w1 = (rpc.get_signature_statuses signature w).1 in
      let w2 = (rpc.get_block_height w1).1 in
      let quiet_1 = l.statuses signature w in
      let quiet_2 = l.heights w1 ∙ quiet_1 in
      elim (Result-cases (rpc.get_signature_statuses signature w).0) [
        | inr (x, e) ↦ rw (e, confirm) quiet_1
        | inl (response, e) ↦ elim (Option-cases (decide rpc config signature units response)) [
          | inr (done, d) ↦ rw (e, confirm) (rw d quiet_1)
          | inl d ↦ elim (Result-cases (rpc.get_block_height w1).0) [
            | inr (x, f) ↦ rw (e, confirm) (rw (d, f) quiet_2)
            | inl (height, f) ↦ elim (Bool-cases (ltb last_valid height)) [
              | inl b ↦ rw (e, confirm) (rw (d, f, b) quiet_2)
              | inr b ↦
                  elim (Bool-cases (leb config.confirmation_timeout (rpc.clock w2 - started))) [
                    | inl c ↦ rw (e, confirm) (rw (d, f, b, c) quiet_2)
                    | inr c ↦
                        rw (e, confirm)
                          (rw (d, f, b, c)
                            (confirm_quiet n config signature units last_valid started
                                (rpc.sleep config.poll_interval w2) l
                              ∙ l.logged.sleeps config.poll_interval w2
                              ∙ quiet_2))
                  ]
            ]
          ]
        ]
      ]

  send_and_confirm_copies :
      (fuel : ℕ) (config : SubmissionConfig) (tx : Tx) (units last_valid : ℕ) (w : W)
      → IsSendOnly
      → (n : ℕ) × (0 < n)
        × (n ≤ at_least_one config.max_send_attempts)
        × (sent (send_and_confirm rpc fuel config tx units last_valid w).1
            ≡ sent w ++ replicate n tx)
  unfolding send_and_confirm
  send_and_confirm_copies fuel config tx units last_valid w l =
      let sending = send_attempts rpc (at_least_one config.max_send_attempts) 1 tx w in
      let (n, p, q, r) =
        send_attempts_same rpc sent (at_least_one config.max_send_attempts) 1 tx w l.logged
          (ground arith) in
      (
        n,
        p,
        q,
        elim (Result-cases sending.0) [
          | inr (x, e) ↦ rw (e, send_and_confirm) r
          | inl (u, e) ↦
              rw (e, send_and_confirm)
                (confirm_quiet fuel config (rpc.signature tx) units last_valid (rpc.clock sending.1)
                    sending.1 l
                  ∙ r)
        ],
      )

  -- Where only a send is logged, a submission either fails and sends nothing, or sends one signed
  -- transaction, at least once and at most as often as there are attempts, and nothing else.
  pub submit_copies :
      (fuel : ℕ) (instructions : List Instruction) (payer : Pubkey) (more : List Pubkey)
      (config : SubmissionConfig) (w : W)
      → IsSendOnly
      → let r = submit rpc fuel instructions payer more config w in
        (((e : SubmissionError) × (r.0 ≡ some (err e))) × (sent r.1 ≡ sent w))
        ⊎ ((tx : Tx) × (n : ℕ) × (0 < n)
            × (n ≤ at_least_one config.max_send_attempts)
            × (sent r.1 ≡ sent w ++ replicate n tx))
  unfolding submit
  submit_copies fuel instructions payer more config w l =
      let budget =
        rpc.set_compute_unit_limit config.compute_unit_limit
        ∷ rpc.set_compute_unit_price config.compute_unit_price_micro_lamports
        ∷ instructions in
      let signers = add_signers payer (payer ∷ []) more in
      let w1 = (rpc.get_latest_blockhash config.commitment w).1 in
      let quiet_1 = l.blockhashes config.commitment w in
      elim (Result-cases (rpc.get_latest_blockhash config.commitment w).0) [
        | inr (x, e) ↦ rw (e, submit) (inl ((_, refl), quiet_1))
        | inl ((hash, last_valid), e) ↦
            elim (Result-cases (rpc.try_sign budget payer signers hash)) [
              | inr (x, f) ↦ rw (e, submit) (rw f (inl ((_, refl), quiet_1)))
              | inl (tx, f) ↦
                  let quiet_2 = l.simulations tx w1 ∙ quiet_1 in
                  elim (Result-cases (rpc.simulate_transaction tx w1).0) [
                    | inr (x, g) ↦ rw (e, submit) (rw (f, g) (inl ((_, refl), quiet_2)))
                    | inl (sim, g) ↦ elim (Option-cases sim.error) [
                      | inr (x, k) ↦ rw (e, submit) (rw (f, g, k) (inl ((_, refl), quiet_2)))
                      | inl k ↦
                          let w2 = (rpc.simulate_transaction tx w1).1 in
                          let (n, p, q, r) =
                            send_and_confirm_copies fuel config tx _ last_valid w2 l in
                          rw (e, submit)
                            (rw (f, g, k)
                              (inr (tx, n, p, q, r ∙ ap (λ x. x ++ replicate n tx) quiet_2)))
                    ]
                  ]
            ]
      ]
