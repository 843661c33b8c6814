-- ===== src/Tests/Node.antt =====
-- crates/mtm-chain/src/lib.rs against a node whose first answers are lost.
use testnet_testsuite.Prelude.{
  ◌||◌, ◌&&◌, not, ◌==◌, ℕ, ◌+◌, ◌≤◌, ◌<◌, List, [], ◌∷◌, ◌++◌, none, some, true, Result, ok, err,
  ◌≡◌, refl, if◌then◌else◌, ltb, length, replicate, All, ◌⊎◌, arith,
}
use testnet_testsuite.Raydium.Types.{Pubkey, Instruction}
use testnet_testsuite.Chain.Submit.{
  SubmissionConfig, SubmissionOutcome, SubmissionError, RpcErrorKind, Rpc, add_signers, is_known,
  send_attempts, decide, confirm, submit, is_transport_error, send_and_confirm, at_least_one,
}
use testnet_testsuite.Chain.Once.{IsSendOnly, submit_copies}
use testnet_testsuite.Chain.Sending.{
  IsDistinct, IsLogged, IsClocked, add_signers-IsDistinct, send_attempts_same, confirm_ends,
}
use testnet_testsuite.Chain.Instructions.{
  TxOptions, Sender, with_budget, send_instructions, attempts,
}
use testnet_testsuite.Chain.Attempts.{Made, IsSigned, send_instructions-Made}

-- The time, and the transactions sent; a transaction is its signature.
abbrev World : Type 0
World = ℕ × List ℕ

abbrev budget : ℕ → Instruction
budget n = record { program_id = n; accounts = []; content = [] }

-- The second send is answered, and a status is there from the time 1,000 on.
abbrev node : Rpc ℕ World
node = record {
  set_compute_unit_limit = budget;
  set_compute_unit_price = budget;
  get_latest_blockhash = λ c w. (ok (7, 100), w);
  try_sign = λ ixs payer signers hash. ok 42;
  signature = λ tx. tx;
  simulate_transaction =
      λ tx w. (ok (record { units_consumed = some 5; error = none; logs = none }), w);
  send_transaction = λ tx w. (
    if ltb (length w.1) 1 then err (record { kind = RpcErrorKind.io; message = "lost" }) else ok tx,
    (w.0, w.1 ++ tx ∷ []),
  );
  get_signature_statuses = λ s w. (
    ok (
        if ltb w.0 1_000
        then none ∷ []
        else some (record { slot = 9; error = none; confirmations = none }) ∷ []),
    w,
  );
  satisfies_commitment = λ s c. true;
  get_block_height = λ w. (ok 50, w);
  sleep = λ t w. (w.0 + t, w.1);
  clock = λ w. w.0;
}

abbrev settings : SubmissionConfig
settings = record {
  compute_unit_limit = 1_400_000;
  compute_unit_price_micro_lamports = 0;
  commitment = 1;
  max_send_attempts = 3;
  confirmation_timeout = 45_000;
  poll_interval = 500;
}

-- The client's default settings: two sends and a few polls.
submit_run : submit node 92 [] 9 (8 ∷ 9 ∷ 8 ∷ []) settings (0, []) ≡ (
  some (ok (record { signature = 42; confirmation_slot = 9; simulated_compute_units = 5 })),
  (1_200, 42 ∷ 42 ∷ []),
)
unfolding submit add_signers send_and_confirm send_attempts is_transport_error confirm decide
submit_run = refl

abbrev node_logged : IsLogged node (λ w. w.1)
node_logged = record { sends = λ tx w. refl; sleeps = λ t w. refl }

send_attempts_same_example :
    (n : ℕ) × (0 < n) × (n ≤ 3) × ((send_attempts node 3 1 42 (0, [])).1.1 ≡ [] ++ replicate n 42)
send_attempts_same_example =
    send_attempts_same node (λ w. w.1) 3 1 42 (0, []) node_logged (omega arith)

abbrev node_clocked : IsClocked node
node_clocked = record {
  statuses = λ s w. omega arith;
  heights = λ w. omega arith;
  sleeps = λ t w. omega arith;
}

confirm_ends_example :
    (r : Result SubmissionError SubmissionOutcome) × ((confirm node 91 settings 42 5 100 0
        (0, [])).0
      ≡ some r)
confirm_ends_example = confirm_ends node 90 settings 42 5 100 0 (0, []) node_clocked (omega arith)

add_signers-IsDistinct_example :
    IsDistinct (add_signers 9 (9 ∷ []) (8 ∷ 9 ∷ 8 ∷ []))
    × ((new : List Pubkey) × (add_signers 9 (9 ∷ []) (8 ∷ 9 ∷ 8 ∷ []) ≡ (9 ∷ []) ++ new))
    × ((k : Pubkey)
        → is_known k (add_signers 9 (9 ∷ []) (8 ∷ 9 ∷ 8 ∷ []))
          ≡ (is_known k (9 ∷ []) || (is_known k (8 ∷ 9 ∷ 8 ∷ []) && not (k == 9))))
add_signers-IsDistinct_example = add_signers-IsDistinct 9 (9 ∷ []) (8 ∷ 9 ∷ 8 ∷ []) (refl, tt)

abbrev node_send_only : IsSendOnly node (λ w. w.1)
node_send_only = record {
  logged = node_logged;
  blockhashes = λ c w. refl;
  simulations = λ tx w. refl;
  statuses = λ s w. refl;
  heights = λ w. refl;
}

submit_copies_example :
    let r = submit node 92 [] 9 (8 ∷ []) settings (0, []) in
    (((e : SubmissionError) × (r.0 ≡ some (err e))) × (r.1.1 ≡ []))
    ⊎ ((tx : ℕ) × (n : ℕ) × (0 < n) × (n ≤ at_least_one 3) × (r.1.1 ≡ [] ++ replicate n tx))
submit_copies_example =
    submit_copies node (λ w. w.1) 92 [] 9 (8 ∷ []) settings (0, []) node_send_only

-- The first two sends are lost.
abbrev sender : Sender ℕ World
sender = record {
  set_compute_unit_limit = budget;
  set_compute_unit_price = budget;
  get_latest_blockhash = λ w. (ok (length w.1), w);
  new_signed_with_payer = λ ixs payer signers hash. some hash;
  send_and_confirm_transaction =
      λ tx w. (if ltb (length w.1) 2 then err "lost" else ok 42, (w.0, w.1 ++ tx ∷ []));
}

abbrev three : TxOptions
three = record { cu_limit = some 5; cu_price_micro_lamports = none; max_attempts = 3 }

send_run : send_instructions sender [] 9 [] three (0, []) ≡ (ok 42, (0, 0 ∷ 1 ∷ 2 ∷ []))
unfolding send_instructions attempts with_budget
send_run = refl

send_instructions-Made_example :
    let r = send_instructions sender [] 9 [] three (0, []) in
    (new : List ℕ) × (r.1.1 ≡ [] ++ new)
    × All (IsSigned sender (λ w. w.1) (with_budget sender three []) 9 (9 ∷ [])) new
    × Made 3 (length new) r.0
send_instructions-Made_example =
    send_instructions-Made sender (λ w. w.1) [] 9 [] three (0, [])
      (record { sends = λ tx w. refl; blockhashes = λ w. refl })
