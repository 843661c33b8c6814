-- ===== src/Chain/Submit.antt =====
-- crates/mtm-chain/src/lib.rs: `ChainClient::submit`. The RPC node, the clock and the signatures are a
-- parameter: `Tx` is the type of signed transactions, `W` that of worlds. The loop of the
-- confirmation runs on fuel, and gives `none` where it is used up.
use testnet_testsuite.Prelude.{
  ℕ, zero, suc, ◌+◌, ◌-◌, ◌*◌, String, List, [], ◌∷◌, ◌++◌, Option, none, some, Bool, true, false,
  not, Result, ok, err, if◌then◌else◌, ◌==◌, ◌&&◌, ◌||◌, leb, ltb,
}
use testnet_testsuite.Raydium.Types.{Pubkey, Instruction}

pub record SubmissionConfig : Type 0 where
  pub compute_unit_limit : ℕ
  pub compute_unit_price_micro_lamports : ℕ
  pub commitment : ℕ
  pub max_send_attempts : ℕ
  pub confirmation_timeout : ℕ
  pub poll_interval : ℕ

pub record SubmissionOutcome : Type 0 where
  pub signature : ℕ
  pub confirmation_slot : ℕ
  pub simulated_compute_units : ℕ

pub data SubmissionError : Type 0 where
  blockhash : String → SubmissionError
  signing : String → SubmissionError
  simulation_rpc : String → SubmissionError
  -- error, logs
  simulation : String → List String → SubmissionError
  submission : String → SubmissionError
  -- signature, slot, error
  execution : ℕ → ℕ → String → SubmissionError
  -- signature, reason
  ambiguous_confirmation : ℕ → String → SubmissionError

-- The kinds of `RpcErrorKind` that the code tells apart.
pub data RpcErrorKind : Type 0 where
  io reqwest middleware serde_json other : RpcErrorKind

unfoldable pub is_transport_error : RpcErrorKind → Bool
is_transport_error RpcErrorKind.other = false
is_transport_error _ = true

pub record RpcError : Type 0 where
  pub kind : RpcErrorKind
  pub message : String

pub record Simulation : Type 0 where
  pub units_consumed : Option ℕ
  pub error : Option String
  pub logs : Option (List String)

pub record SignatureStatus : Type 0 where
  pub slot : ℕ
  pub error : Option String
  pub confirmations : Option ℕ

-- What `submit` calls.
pub record Rpc (Tx W : Type 0) : Type 0 where
  pub set_compute_unit_limit : ℕ → Instruction
  pub set_compute_unit_price : ℕ → Instruction
  -- The hash, and the last block height at which it is valid.
  pub get_latest_blockhash : ℕ → W → Result String (ℕ × ℕ) × W
  -- instructions, payer, signers, blockhash
  pub try_sign : List Instruction → Pubkey → List Pubkey → ℕ → Result String Tx
  pub signature : Tx → ℕ
  pub simulate_transaction : Tx → W → Result String Simulation × W
  pub send_transaction : Tx → W → Result RpcError ℕ × W
  pub get_signature_statuses : ℕ → W → Result String (List (Option SignatureStatus)) × W
  pub satisfies_commitment : SignatureStatus → ℕ → Bool
  pub get_block_height : W → Result String ℕ × W
  pub sleep : ℕ → W → W
  pub clock : W → ℕ

-- `known.pubkey() == signer.pubkey()` for one of those known.
abbrev pub is_known : Pubkey → List Pubkey → Bool
is_known s [] = false
is_known s (k ∷ ks) = k == s || is_known s ks

-- The loop over the additional signers.
unfoldable pub add_signers : Pubkey → List Pubkey → List Pubkey → List Pubkey
add_signers payer signers [] = signers
add_signers payer signers (s ∷ ss) =
    add_signers payer
      (if not (s == payer) && not (is_known s signers) then signers ++ s ∷ [] else signers) ss

-- `unwrap_or_default`, twice, and `max(1)`.
abbrev or_zero : Option ℕ → ℕ
or_zero none = 0
or_zero (some n) = n

abbrev or_empty : Option (List String) → List String
or_empty none = []
or_empty (some l) = l

abbrev pub at_least_one : ℕ → ℕ
at_least_one zero = 1
at_least_one (suc n) = suc n

module _ {Tx W : Type 0} (rpc : Rpc Tx W) where
  -- `for attempt in 1..=attempts`, with the attempts left.
  unfoldable pub send_attempts : ℕ → ℕ → Tx → W → Result SubmissionError (Unit {0}) × W
  unfolding is_transport_error
  send_attempts zero attempt tx w = (ok tt, w)
  send_attempts (suc left) attempt tx w =
      let (r, w') = rpc.send_transaction tx w in
      let again = send_attempts left (attempt + 1) tx (rpc.sleep (200 * attempt) w') in
      elim r [
        | ok returned ↦ if returned == rpc.signature tx then (ok tt, w') else (
          err (
              SubmissionError.ambiguous_confirmation (rpc.signature tx)
                "RPC returned a different signature"),
          w',
        )
        | err e ↦
            if is_transport_error e.kind
            then (if left == 0 then (ok tt, w') else again)
            else (err (SubmissionError.submission e.message), w')
      ]

  -- What a status decides, if it decides: `response.value.into_iter().next().flatten()`.
  unfoldable pub decide :
      SubmissionConfig
      → ℕ
      → ℕ
      → List (Option SignatureStatus)
      → Option (Result SubmissionError SubmissionOutcome)
  decide config signature units (some status ∷ _) = elim status.error [
    | some e ↦ some (err (SubmissionError.execution signature status.slot e))
    | none ↦
        if rpc.satisfies_commitment status config.commitment
        then some (
            ok (record {
              signature = signature;
              confirmation_slot = status.slot;
              simulated_compute_units = units;
            }))
        else none
  ]
  decide config signature units _ = none

  abbrev ambiguous : ℕ → String → Option (Result SubmissionError SubmissionOutcome)
  ambiguous signature reason = some (err (SubmissionError.ambiguous_confirmation signature reason))

  -- The loop of the confirmation, with the rounds left.
  unfoldable pub confirm :
      ℕ
      → SubmissionConfig
      → ℕ
      → ℕ
      → ℕ
      → ℕ
      → W
      → Option (Result SubmissionError SubmissionOutcome) × W
  unfolding decide
  confirm zero config signature units last_valid started w = (none, w)
  confirm (suc n) config signature units last_valid started w =
      let (r, w1) = rpc.get_signature_statuses signature w in
      elim r [
        | err e ↦ (ambiguous signature e, w1)
        | ok response ↦ elim (decide config signature units response) [
          | some done ↦ (some done, w1)
          | none ↦
              let (h, w2) = rpc.get_block_height w1 in
              let next =
                confirm n config signature units last_valid started
                  (rpc.sleep config.poll_interval w2) in
              elim h [
                | err e ↦ (ambiguous signature e, w2)
                | ok height ↦
                    if ltb last_valid height
                    then (ambiguous signature "blockhash expired without an observed status", w2)
                    else if leb config.confirmation_timeout (rpc.clock w2 - started)
                    then (ambiguous signature "confirmation deadline elapsed", w2)
                    else next
              ]
        ]
      ]

  -- Sending and confirming, once the transaction is signed and simulated.
  unfoldable pub send_and_confirm :
      ℕ → SubmissionConfig → Tx → ℕ → ℕ → W → Option (Result SubmissionError SubmissionOutcome) × W
  unfolding send_attempts confirm
  send_and_confirm fuel config tx units last_valid w =
      let (r, w') = send_attempts (at_least_one config.max_send_attempts) 1 tx w in
      elim r [
        | err e ↦ (some (err e), w')
        | ok _ ↦ confirm fuel config (rpc.signature tx) units last_valid (rpc.clock w') w'
      ]

  unfoldable pub submit :
      ℕ
      → List Instruction
      → Pubkey
      → List Pubkey
      → SubmissionConfig
      → W
      → Option (Result SubmissionError SubmissionOutcome) × W
  unfolding add_signers send_and_confirm
  submit fuel instructions payer additional_signers config w =
      let budget =
        rpc.set_compute_unit_limit config.compute_unit_limit
        ∷ rpc.set_compute_unit_price config.compute_unit_price_micro_lamports
        ∷ instructions in
      let (b, w1) = rpc.get_latest_blockhash config.commitment w in
      elim b [
        | err e ↦ (some (err (SubmissionError.blockhash e)), w1)
        | ok (hash, last_valid) ↦
            elim (rpc.try_sign budget payer (add_signers payer (payer ∷ []) additional_signers)
              hash) [
                | err e ↦ (some (err (SubmissionError.signing e)), w1)
                | ok tx ↦
                    let (s, w2) = rpc.simulate_transaction tx w1 in
                    elim s [
                      | err e ↦ (some (err (SubmissionError.simulation_rpc e)), w2)
                      | ok sim ↦ elim sim.error [
                        | some e ↦
                            (some (err (SubmissionError.simulation e (or_empty sim.logs))), w2)
                        | none ↦
                            send_and_confirm fuel config tx (or_zero sim.units_consumed) last_valid
                              w2
                      ]
                    ]
              ]
      ]
