-- ===== src/Chain/Attempts.antt =====
-- crates/mtm-chain/src/tx.rs: what the attempts of a sending have sent when it ends.
use testnet_testsuite.Prelude.{
  ℕ, zero, suc, ◌≤◌, ◌<◌, String, List, [], ◌∷◌, ◌++◌, append_assoc, append-nil, Option, some,
  Result, ok, err, ◌≡◌, refl, sym, ap, ◌∙◌, inl, inr, Option-cases, Result-cases, length, All,
  arith,
}
use testnet_testsuite.Raydium.Types.{Pubkey, Instruction}
use testnet_testsuite.Chain.Submit.{at_least_one}
use testnet_testsuite.Chain.Instructions.{
  TxOptions, SendError, Sender, with_budget, attempts, send_instructions,
}

-- How many attempts were made where a sending ended as it did.
abbrev pub Made : (most made : ℕ) → Result SendError ℕ → Type 0
Made most made (ok signature) = (0 < made) × (made ≤ most)
Made most made (err (SendError.no_blockhash e)) = made < most
Made most made (err (SendError.failed_after n e)) = made ≡ most
Made most made (err SendError.panicked) = made < most

Made-suc :
    (most made : ℕ) (r : Result SendError ℕ) → Made most made r → Made (suc most) (suc made) r
Made-suc most made (ok s) h = (omega arith, omega (arith, h.1))
Made-suc most made (err (SendError.no_blockhash e)) h = omega arith
Made-suc most made (err (SendError.failed_after n e)) h = omega arith
Made-suc most made (err SendError.panicked) h = omega arith

module _ {Tx W : Type 0} (rpc : Sender Tx W) (sent : W → List Tx) where
  -- Each send is in the log, whether it is confirmed or not; asking for a blockhash sends nothing.
  pub record IsLogged : Type 0 where
    pub sends :
        (tx : Tx) (w : W) → sent (rpc.send_and_confirm_transaction tx w).1 ≡ sent w ++ tx ∷ []
    pub blockhashes : (w : W) → sent (rpc.get_latest_blockhash w).1 ≡ sent w

  -- A transaction of the given instructions, signed over some blockhash.
  abbrev pub IsSigned : List Instruction → Pubkey → List Pubkey → Tx → Type 0
  IsSigned ixs payer signers tx =
      (hash : ℕ) × (rpc.new_signed_with_payer ixs payer signers hash ≡ some tx)

  attempts-Made :
      (left max_attempts : ℕ) (ixs : List Instruction) (payer : Pubkey) (signers : List Pubkey)
      (last_err : Option String) (w : W)
      → IsLogged
      → let r = attempts rpc left max_attempts ixs payer signers last_err w in
        (new : List Tx) × (sent r.1 ≡ sent w ++ new)
        × All (IsSigned ixs payer signers) new
        × Made left (length new) r.0
  unfolding attempts
  attempts-Made zero max_attempts ixs payer signers last_err w l =
      ([], sym (append-nil (sent w)), tt, refl)
  attempts-Made (suc left) max_attempts ixs payer signers last_err w l =
      let w1 = (rpc.get_latest_blockhash w).1 in
      let quiet = l.blockhashes w ∙ sym (append-nil (sent w)) in
      elim (Result-cases (rpc.get_latest_blockhash w).0) [
        | inr (x, e) ↦ rw (e, attempts) ([], quiet, tt, omega arith)
        | inl (hash, e) ↦ elim (Option-cases (rpc.new_signed_with_payer ixs payer signers hash)) [
          | inl f ↦ rw (e, attempts) (rw f ([], quiet, tt, omega arith))
          | inr (tx, f) ↦
              let logged = l.sends tx w1 ∙ ap (λ s. s ++ tx ∷ []) (l.blockhashes w) in
              elim (Result-cases (rpc.send_and_confirm_transaction tx w1).0) [
                | inl (s, g) ↦
                    rw (e, attempts)
                      (rw (f, g) (tx ∷ [], logged, ((hash, f), tt), (omega arith, omega arith)))
                | inr (x, g) ↦
                    let w2 = (rpc.send_and_confirm_transaction tx w1).1 in
                    let (new, same, all, made) =
                      attempts-Made left max_attempts ixs payer signers (some x) w2 l in
                    rw (e, attempts)
                      (rw (f, g)
                        (
                          tx ∷ new,
                          same ∙ ap (λ s. s ++ new) logged ∙ append_assoc (sent w) (tx ∷ []) new,
                          ((hash, f), all),
                          Made-suc left (length new) _ made,
                        ))
              ]
        ]
      ]

  -- Every transaction that a sending sends is one of the given instructions after those of the compute
  -- budget, signed by the payer and the extra signers over some blockhash. A sending that returns a
  -- signature has sent at least one and at most as many as there are attempts, which are one if none
  -- are asked for; one that fails after its attempts has made all of them; and one that stops for
  -- want of a blockhash or of a signer has made fewer.
  pub send_instructions-Made :
      (instructions : List Instruction) (payer : Pubkey) (extra_signers : List Pubkey)
      (opts : TxOptions) (w : W)
      → IsLogged
      → let r = send_instructions rpc instructions payer extra_signers opts w in
        (new : List Tx) × (sent r.1 ≡ sent w ++ new)
        × All (IsSigned (with_budget rpc opts instructions) payer (payer ∷ extra_signers)) new
        × Made (at_least_one opts.max_attempts) (length new) r.0
  unfolding send_instructions
  send_instructions-Made instructions payer extra_signers opts w l =
      attempts-Made (at_least_one opts.max_attempts) opts.max_attempts
        (with_budget rpc opts instructions) payer (payer ∷ extra_signers) _ w l
