-- ===== src/Tests/Ledger.antt =====
-- A node and a host over the small pool, with the data of two mints.
use testnet_testsuite.Prelude.{
  [], ◌∷◌, ◌++◌, map, Option, some, false, ok, err, if◌then◌else◌, ◌==◌, ◌||◌, ◌&&◌, leb, length,
  refl, inr, replicate,
}
use testnet_testsuite.Prelude.Int.{ℤ}
use testnet_testsuite.Raydium.Types.{Pubkey, Bytes, Account}
use testnet_testsuite.Raydium.Setup.{Node, api, default_submission}
use testnet_testsuite.Raydium.Monad.{Client}
use testnet_testsuite.Raydium.Once.{IsLogged}
use testnet_testsuite.Raydium.Failures.{IsNodeLogged, api-IsLogged}
use testnet_testsuite.Flow.Types.{Orchestrator}
use testnet_testsuite.Service.Types.{Host}
use testnet_testsuite.Service.Returns.{IsHostLogged}
use testnet_testsuite.Tests.Samples.{Log, log, one_tick, programs, account_of}

-- The authority is 8, and there are six decimals.
abbrev pub mint_bytes : Bytes
mint_bytes = 1 ∷ 0 ∷ 0 ∷ 0 ∷ replicate 31 0 ++ 8 ∷ replicate 8 0 ++ 6 ∷ replicate 37 0

-- The position 41 holds liquidity until six transactions are sent.
abbrev pub stored : Log → Pubkey → Option Account
stored w key =
    if key == 1_041 && leb 6 (length w)
    then some (record { owner = 1; executable = false; content = 2_041 ∷ [] })
    else if key == 21 || key == 22
    then some (record { owner = 1; executable = false; content = mint_bytes })
    else account_of key

abbrev pub ledger : Node Log
ledger = record {
  get_multiple_accounts = λ keys w. (ok (map (stored w) keys), w);
  get_epoch = λ w. (ok 7, w);
  new_keypair = λ w. (41, w);
  submit = λ ixs payer signers c w. (
    ok (record { signature = 1; confirmation_slot = 2; simulated_compute_units = 3 }),
    w ++ ixs ∷ [],
  );
}

abbrev pub ledger_logged : IsNodeLogged ledger log
ledger_logged = record {
  reads = λ keys w. refl;
  epochs = λ w. refl;
  keys = λ w. refl;
  submits = λ ixs payer signers c w. inr refl;
}

abbrev pub user_client : Client (Unit {0}) (Unit {0}) (Unit {0}) ℤ ℤ Log
user_client = record {
  clmm = one_tick;
  programs = programs;
  chain = api ledger 9 default_submission;
  program_id = 1;
  payer = 9;
  slippage_bps = 100;
}

abbrev pub user_logged : IsLogged user_client.chain log
user_logged = api-IsLogged ledger log 9 default_submission ledger_logged

abbrev pub orchestrator : Orchestrator (Unit {0}) (Unit {0}) (Unit {0}) ℤ ℤ Log
orchestrator = record {
  node = ledger;
  client = user_client;
  program_id = 1;
  payer = 9;
  mint_authority = 8;
  funding_submission = default_submission;
}

-- A keypair of the environment is 64 bytes that start with the key.
abbrev pub host : Host (Unit {0}) (Unit {0}) (Unit {0}) ℤ ℤ Log
host = record {
  node = ledger;
  clmm = one_tick;
  programs = programs;
  get_slot = λ w. (ok 1, w);
  get_account = λ key w. (ok (record { owner = 1; executable = false; content = mint_bytes }), w);
  get_account_with_commitment = λ key c w. (
    ok (
        some (record {
          owner = 1;
          executable = false;
          content = replicate 64 0 ++ 5 ∷ replicate 7 0;
        })),
    w,
  );
  get_balance = λ key w. (ok 1_000, w);
  make_recovery_dir = λ w. (ok tt, w);
  save_recovery = λ key w. (ok tt, w);
  remove_recovery = λ key w. (ok tt, w);
  env_var = λ name. ok name;
  parse_bytes = λ s. ok (9 ∷ replicate 63 0);
  keypair_of = λ bs. elim bs [ b ∷ _ ↦ ok b | [] ↦ err "empty" ];
}

abbrev pub host_logged : IsHostLogged host log
host_logged = record {
  node = ledger_logged;
  slots = λ w. refl;
  accounts = λ key w. refl;
  found = λ key c w. refl;
  balances = λ key w. refl;
  directories = λ w. refl;
  saves = λ key w. refl;
  removals = λ key w. refl;
}
