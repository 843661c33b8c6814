-- ===== src/Chain/Sending.antt =====
-- crates/mtm-chain/src/lib.rs: what a submission sends, that it ends, and who signs.
use testnet_testsuite.Prelude.{
  ℕ, zero, suc, ◌+◌, ◌-◌, ◌*◌, ◌≤◌, ◌<◌, String, List, [], ◌∷◌, ◌++◌, append_assoc, append-nil,
  some, false, true, Bool, not, ◌==◌, ==_iff, ◌&&◌, ◌||◌, Result, err, ◌≡◌, refl, sym, ap, ◌∙◌, ◌⊎◌,
  inl, inr, Bool-cases, Option-cases, Result-cases, replicate, leb, ltb, arith,
}
use testnet_testsuite.Raydium.Types.{Pubkey}
use testnet_testsuite.Chain.Submit.{
  SubmissionConfig, SubmissionOutcome, SubmissionError, Rpc, is_transport_error, is_known,
  add_signers, send_attempts, decide, confirm,
}

-- No key twice.
abbrev pub IsDistinct : List Pubkey → Type 0
IsDistinct [] = Unit
IsDistinct (k ∷ ks) = (is_known k ks ≡ false) × IsDistinct ks

is_known-append :
    (s t : Pubkey) (ks : List Pubkey)
    → is_known s ks ≡ false
    → (t == s) ≡ false
    → is_known s (ks ++ t ∷ []) ≡ false
is_known-append s t [] h d = ground arith
is_known-append s t (k ∷ ks) h d = ground (arith, is_known-append s t ks)

IsDistinct-append :
    (s : Pubkey) (ks : List Pubkey)
    → IsDistinct ks
    → is_known s ks ≡ false
    → IsDistinct (ks ++ s ∷ [])
IsDistinct-append s [] v h = (refl, tt)
IsDistinct-append s (k ∷ ks) v h =
    (is_known-append k s ks v.0 (ground arith), IsDistinct-append s ks v.1 (ground arith))

is_known_last :
    (k s : Pubkey) (signers : List Pubkey)
    → is_known k (signers ++ s ∷ []) ≡ (is_known k signers || s == k)
is_known_last k s [] = ground arith
is_known_last k s (t ∷ signers) = ground (arith, is_known_last k s signers)

fresh_lem :
    (payer s k : Pubkey) (signers ss : List Pubkey)
    → (not (s == payer) && not (is_known s signers)) ≡ true
    → (is_known k (signers ++ s ∷ []) || (is_known k ss && not (k == payer)))
      ≡ (is_known k signers || (is_known k (s ∷ ss) && not (k == payer)))
fresh_lem payer s k signers ss h = ground (arith, is_known_last k s signers)

absorb_lem : (p q r : Bool) → (not p && not q) ≡ false → (q || (r && not p)) ≡ (q || not p)
absorb_lem true true r h = ground arith
absorb_lem true false r h = ground arith
absorb_lem false true r h = ground arith
absorb_lem false false r h = cc

stale_lem :
    (payer s k : Pubkey) (signers ss : List Pubkey)
    → (not (s == payer) && not (is_known s signers)) ≡ false
    → (is_known k signers || (is_known k ss && not (k == payer)))
      ≡ (is_known k signers || (is_known k (s ∷ ss) && not (k == payer)))
stale_lem payer s k signers ss h = elim (Bool-cases (s == k)) [
  | inl e ↦
      let same = (==_iff s k).0 e in
      rw e (absorb_lem (k == payer) (is_known k signers) (is_known k ss) (rw same at h))
  | inr e ↦ rw e refl
]

-- The keys that sign are those given so far, in order, and then new ones, none of them twice; and a key
-- signs just if it is one of those given so far or an additional signer other than the payer.
pub add_signers-IsDistinct :
    (payer : Pubkey) (signers more : List Pubkey)
    → IsDistinct signers
    → IsDistinct (add_signers payer signers more)
      × ((new : List Pubkey) × (add_signers payer signers more ≡ signers ++ new))
      × ((k : Pubkey)
          → is_known k (add_signers payer signers more)
            ≡ (is_known k signers || (is_known k more && not (k == payer))))
unfolding add_signers
add_signers-IsDistinct payer signers [] v = (v, ([], sym (append-nil signers)), λ k. ground arith)
add_signers-IsDistinct payer signers (s ∷ ss) v =
    elim (Bool-cases (not (s == payer) && not (is_known s signers))) [
      | inl fresh ↦
          let (d, (new, e), known) =
            add_signers-IsDistinct payer (signers ++ s ∷ []) ss
              (IsDistinct-append s signers v (ground arith)) in
          rw fresh (
            d,
            (s ∷ new, e ∙ append_assoc signers (s ∷ []) new),
            λ k. known k ∙ fresh_lem payer s k signers ss fresh,
          )
      | inr stale ↦
          let (d, new, known) = add_signers-IsDistinct payer signers ss v in
          rw stale (d, new, λ k. known k ∙ stale_lem payer s k signers ss stale)
    ]

module _ {Tx W : Type 0} (rpc : Rpc Tx W) (sent : W → List Tx) where
  -- A send is in the log, whether it is answered or not; a sleep sends nothing.
  pub record IsLogged : Type 0 where
    pub sends : (tx : Tx) (w : W) → sent (rpc.send_transaction tx w).1 ≡ sent w ++ tx ∷ []
    pub sleeps : (t : ℕ) (w : W) → sent (rpc.sleep t w) ≡ sent w

  -- Where each send is logged, sending with at least one attempt sends the one signed transaction, at
  -- least once and at most as often as there are attempts, and nothing else.
  pub send_attempts_same :
      (attempts attempt : ℕ) (tx : Tx) (w : W)
      → IsLogged
      → 0 < attempts
      → (n : ℕ) × (0 < n)
        × (n ≤ attempts)
        × (sent (send_attempts rpc attempts attempt tx w).1 ≡ sent w ++ replicate n tx)
  unfolding send_attempts
  send_attempts_same zero attempt tx w l h = absurd (omega arith)
  send_attempts_same (suc left) attempt tx w l h =
      elim (Result-cases (rpc.send_transaction tx w).0) [
        | inl (returned, e) ↦ elim (Bool-cases (returned == rpc.signature tx)) [
          | inl b ↦ (1, omega arith, omega arith, rw (e, send_attempts) (rw b (l.sends tx w)))
          | inr b ↦ (1, omega arith, omega arith, rw (e, send_attempts) (rw b (l.sends tx w)))
        ]
        | inr (x, e) ↦ elim (Bool-cases (is_transport_error x.kind)) [
          | inr b ↦ (1, omega arith, omega arith, rw (e, send_attempts) (rw b (l.sends tx w)))
          | inl b ↦ elim (Bool-cases (left == 0)) [
            | inl z ↦
                (1, omega arith, omega arith, rw (e, send_attempts) (rw (b, z) (l.sends tx w)))
            | inr z ↦
                let w' = rpc.sleep (200 * attempt) (rpc.send_transaction tx w).1 in
                let (n, p, q, r) = send_attempts_same left (attempt + 1) tx w' l (ground arith) in
                (
                  suc n,
                  omega arith,
                  omega arith,
                  rw (e, send_attempts)
                      (rw (b, z)
                        (r
                          ∙ ap (λ x. x ++ replicate n tx) (l.sleeps _ _ ∙ l.sends tx w)
                          ∙ append_assoc (sent w) (tx ∷ []) (replicate n tx))),
                )
          ]
        ]
      ]

-- A clock that no call turns back and that a sleep moves on.
pub record IsClocked {Tx W : Type 0} (rpc : Rpc Tx W) : Type 0 where
  pub statuses : (s : ℕ) (w : W) → rpc.clock w ≤ rpc.clock (rpc.get_signature_statuses s w).1
  pub heights : (w : W) → rpc.clock w ≤ rpc.clock (rpc.get_block_height w).1
  pub sleeps : (t : ℕ) (w : W) → rpc.clock w + t ≤ rpc.clock (rpc.sleep t w)

module _ {Tx W : Type 0} (rpc : Rpc Tx W) where
  -- A round ends, or is before the timeout and goes on after a pause.
  confirm_round :
      (n : ℕ) (config : SubmissionConfig) (signature units last_valid started : ℕ) (w : W)
      → let w2 = (rpc.get_block_height (rpc.get_signature_statuses signature w).1).1 in
        ((r : Result SubmissionError SubmissionOutcome) × ((confirm rpc
              (suc n)
              config
              signature
              units
              last_valid
              started
              w).0
            ≡ some r))
        ⊎ ((leb config.confirmation_timeout (rpc.clock w2 - started) ≡ false)
            × (confirm rpc (suc n) config signature units last_valid started w
                ≡ confirm rpc n config signature units last_valid started
                    (rpc.sleep config.poll_interval w2)))
  unfolding confirm
  confirm_round n config signature units last_valid started w =
      let ambiguous : String → Result SubmissionError SubmissionOutcome =
        λ reason. err (SubmissionError.ambiguous_confirmation signature reason) in
      let w1 = (rpc.get_signature_statuses signature w).1 in
      let w2 = (rpc.get_block_height w1).1 in
      elim (Result-cases (rpc.get_signature_statuses signature w).0) [
        | inr (x, e) ↦ inl (ambiguous x, rw (e, confirm) refl)
        | inl (response, e) ↦ elim (Option-cases (decide rpc config signature units response)) [
          | inr (done, d) ↦ inl (done, rw (e, confirm) (rw d refl))
          | inl d ↦ elim (Result-cases (rpc.get_block_height w1).0) [
            | inr (x, f) ↦ inl (ambiguous x, rw (e, confirm) (rw (d, f) refl))
            | inl (height, f) ↦ elim (Bool-cases (ltb last_valid height)) [
              | inl b ↦ inl (
                ambiguous "blockhash expired without an observed status",
                rw (e, confirm) (rw (d, f, b) refl),
              )
              | inr b ↦
                  elim (Bool-cases (leb config.confirmation_timeout (rpc.clock w2 - started))) [
                    | inl c ↦ inl (
                      ambiguous "confirmation deadline elapsed",
                      rw (e, confirm) (rw (d, f, b, c) refl),
                    )
                    | inr c ↦ inr (c, rw (e, confirm) (rw (d, f, b, c) refl))
                  ]
            ]
          ]
        ]
      ]

  -- With a clock that a sleep moves on, the confirmation ends with a result after at most one round
  -- more than it takes its pauses to add up to the timeout.
  pub confirm_ends :
      (n : ℕ) (config : SubmissionConfig) (signature units last_valid started : ℕ) (w : W)
      → IsClocked rpc
      → started + config.confirmation_timeout ≤ rpc.clock w + n * config.poll_interval
      → (r : Result SubmissionError SubmissionOutcome) × ((confirm rpc
            (suc n)
            config
            signature
            units
            last_valid
            started
            w).0
          ≡ some r)
  confirm_ends zero config signature units last_valid started w l h =
      let w1 = (rpc.get_signature_statuses signature w).1 in
      let w2 = (rpc.get_block_height w1).1 in
      let a = l.statuses signature w in
      let b = l.heights w1 in
      elim (confirm_round zero config signature units last_valid started w) [
        | inl done ↦ done
        | inr (early, e) ↦ absurd (ground arith)
      ]
  confirm_ends (suc n) config signature units last_valid started w l h =
      let w1 = (rpc.get_signature_statuses signature w).1 in
      let w2 = (rpc.get_block_height w1).1 in
      let a = l.statuses signature w in
      let b = l.heights w1 in
      elim (confirm_round (suc n) config signature units last_valid started w) [
        | inl done ↦ done
        | inr (early, e) ↦
            let c = l.sleeps config.poll_interval w2 in
            rw e (
              confirm_ends n config signature units last_valid started
                (rpc.sleep config.poll_interval w2) l (grind arith))
      ]
