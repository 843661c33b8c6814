-- ===== src/Tests/Samples.antt =====
-- Small concrete instances of the parameters of the model: whole numbers for `Decimal` and `f64`,
-- one pool with one tick array, and a chain whose accounts hold their own key.
use testnet_testsuite.Prelude.{
  ℕ, zero, suc, ◌+◌, ◌-◌, ◌/◌, ◌%◌, ◌^◌, String, List, [], ◌∷◌, ◌++◌, map, Option, none, some, true,
  false, not, Result, ok, err, if◌then◌else◌, ◌==◌, ◌||◌, refl, inr, string_eq,
}
use testnet_testsuite.Prelude.Int.{ℤ, pos, negsuc, ◌+ℤ◌, ◌-ℤ◌, ◌*ℤ◌, ◌/ℤ◌, leb_ℤ, eqb_ℤ, abs_ℕ}
use testnet_testsuite.Prelude.Dict.{lookup}
use testnet_testsuite.Decimal.{Decimal}
use testnet_testsuite.Oracle.Floats.{Floats}
use testnet_testsuite.Raydium.Types.{Pubkey, Bytes, Account, AccountMeta, Instruction}
use testnet_testsuite.Raydium.External.{Clmm}
use testnet_testsuite.Raydium.Programs.{
  Programs, Seed, amm_config_seed, pool_seed, bitmap_seed, position_seed, tick_array_seed, of_key,
  MintState, TokenState, PersonalPosition,
}
use testnet_testsuite.Raydium.Monad.{ChainApi, Client}
use testnet_testsuite.Raydium.Once.{IsLogged}

abbrev natural : ℤ → Option ℕ
natural (pos n) = some n
natural (negsuc n) = none

abbrev quotient : ℤ → ℤ → Option ℤ
quotient a (pos zero) = none
quotient a (pos (suc n)) = some (a /ℤ suc n)
quotient a (negsuc n) = none

abbrev pub whole : Decimal ℤ
whole = record {
  nought = pos 0;
  unit = pos 1;
  two = pos 2;
  ten = pos 10;
  try_from_i128_with_scale = λ m scale. some (m /ℤ 10 ^ scale);
  from_u128 = λ n. some (pos n);
  from_u64 = λ n. pos n;
  parse = λ s. lookup s (("1", pos 1) ∷ ("100", pos 100) ∷ []);
  checked_add = λ a b. some (a +ℤ b);
  checked_sub = λ a b. some (a -ℤ b);
  checked_mul = λ a b. some (a *ℤ b);
  checked_div = quotient;
  abs = λ a. pos (abs_ℕ a);
  round = λ a. a;
  floor = λ a. a;
  fract = λ a. pos 0;
  sqrt = λ a. some a;
  to_i128 = λ a. some a;
  to_u64 = natural;
  to_u128 = natural;
  le = leb_ℤ;
  eq = eqb_ℤ;
}

abbrev pub integral : Floats ℤ ℤ ℕ
integral = record {
  to_f64 = λ a. some a;
  from_f64 = λ a. some a;
  of_int = λ a. a;
  half = pos 0;
  ln_2 = pos 0;
  add = ◌+ℤ◌;
  sub = ◌-ℤ◌;
  mul = ◌*ℤ◌;
  div = λ a b. a /ℤ (abs_ℕ b);
  exp = λ a. pos 1;
  sqrt = λ a. a;
  powf = λ a b. pos 1;
  le = leb_ℤ;
  seed_from_u64 = λ n. n;
  sample = λ r. (pos 0, suc r);
}

-- One initialized tick, at 10; a step swaps all that remains, two for one.
abbrev pub one_tick : Clmm (Unit {0}) (Unit {0}) (Unit {0}) ℤ ℤ
one_tick = record {
  min_sqrt_price_x64 = 1;
  max_sqrt_price_x64 = 1_000_000;
  min_tick = negsuc 999;
  max_tick = pos 1_000;
  pool_sqrt_price_x64 = λ p. 100;
  pool_tick_current = λ p. pos 0;
  pool_liquidity = λ p. 500;
  pool_tick_spacing = λ p. 10;
  get_first_initialized_tick_array = λ p b z. ok (true, pos 0);
  next_initialized_tick_array_start_index = λ p b s z. ok none;
  is_fee_on_input = λ p z. true;
  trade_fee_rate = λ c. 0;
  start_tick_index = λ t. t;
  next_initialized_tick = λ t i s z. ok (some (pos 10));
  first_initialized_tick = λ t z. ok (pos 10);
  default_tick = pos 0;
  is_initialized = λ k. not (eqb_ℤ k (pos 0));
  has_limit_orders = λ k. false;
  tick_index = λ k. k;
  liquidity_net = λ k. pos 0;
  get_sqrt_price_at_tick = λ t. ok (100 + abs_ℕ t);
  get_tick_at_sqrt_price = λ n. ok (pos (n / 2 ^ 64));
  compute_swap = λ cur target liq remaining rate exact z fee. ok (record {
    amount_in = remaining;
    amount_out = if exact then remaining / 2 else remaining;
    fee_amount = 0;
    sqrt_price_next_x64 = target;
  });
  add_delta = λ l delta. ok l;
  get_liquidity_from_single_amount_0 = λ a b c n. ok n;
  get_liquidity_from_single_amount_1 = λ a b c n. ok n;
  get_delta_amounts_signed = λ t p lo hi l. ok (abs_ℕ l, abs_ℕ l);
  get_array_start_index = λ t s. pos 0;
}

abbrev instruction_of : Bytes → List AccountMeta → Instruction
instruction_of bytes metas = record { program_id = 1; accounts = metas; content = bytes }

abbrev token_state : Bytes → Result String TokenState
token_state (k ∷ []) =
    if k == 31
    then ok (record { mint = 21; owner = 12; amount = 0; is_frozen = false })
    else if k == 32
    then ok (record { mint = 22; owner = 12; amount = 0; is_frozen = false })
    else ok (record {
      mint = k - 100;
      owner = 9;
      amount = if k == 140 || k == 141 then 1 else 50_000_000;
      is_frozen = false;
    })
token_state _ = err "empty"

abbrev position_state : Bytes → Result String PersonalPosition
position_state (k ∷ []) = ok (record {
  nft_mint = k % 1_000;
  pool_id = 12;
  tick_lower_index = negsuc 9;
  tick_upper_index = pos 10;
  liquidity = if k == 1_040 || k == 2_041 then 0 else 500;
  token_fees_owed_0 = 0;
  token_fees_owed_1 = 0;
  rewards_owed = 0 ∷ 0 ∷ 0 ∷ [];
})
position_state _ = err "empty"

abbrev mint_state : Bytes → Result String MintState
mint_state content = ok (record {
  decimals = elim content [ k ∷ _ ↦ if k == 40 || k == 41 then 0 else 6 | [] ↦ 0 ];
  supply = 1;
  extension_types = ok [];
  epoch_fee = none;
  inverse_epoch_fee = none;
})

abbrev address_of : List Seed → Pubkey → Pubkey
address_of (amm_config_seed ∷ _) p = 11
address_of (pool_seed ∷ _ ∷ of_key m ∷ _) p = if m == 21 then 12 else 19
address_of (bitmap_seed ∷ _) p = 13
address_of (position_seed ∷ of_key m ∷ []) p = 1_000 + m
address_of (tick_array_seed ∷ _) p = 15
address_of _ p = 16

abbrev pub programs : Programs (Unit {0}) (Unit {0}) (Unit {0}) ℤ
programs = record {
  max_tick_spacing = 100;
  fee_rate_denominator = 1_000_000;
  decode_config = λ b. ok tt;
  decode_pool = λ b. ok tt;
  decode_bitmap = λ b. ok tt;
  decode_tick_array = λ b. ok (pos 0);
  decode_personal = position_state;
  decode_support = λ b. err "no support";
  unpack_mint = mint_state;
  unpack_token = token_state;
  config_view = λ c. record {
    index = 0;
    tick_spacing = 10;
    trade_fee_rate = 0;
    protocol_fee_rate = 0;
    fund_fee_rate = 0;
    owner = 9;
    fund_owner = 9;
  };
  pool_view = λ p. record {
    amm_config = 11;
    token_mint_0 = 21;
    token_mint_1 = 22;
    token_vault_0 = 31;
    token_vault_1 = 32;
    observation_key = 16;
    tick_spacing = 10;
    mint_decimals_0 = 6;
    mint_decimals_1 = 6;
    reward_infos = [];
    has_dynamic_fee = false;
  };
  array_pool_id = λ t. 12;
  pda = address_of;
  associated_token_address = λ owner mint program. 100 + mint;
  ata_instruction = λ payer mint program. instruction_of (mint ∷ []) [];
  to_account_metas = λ c. [];
  encode = λ c. [];
  token_program_id = 1;
  token_2022_program_id = 2;
  memo_program_id = 3;
  associated_program_id = 4;
  system_program_id = 5;
  rent_id = 6;
}

-- Every account but that of a pool to create is there.
abbrev pub account_of : Pubkey → Option Account
account_of key =
    if key == 19 then none else some (record { owner = 1; executable = true; content = key ∷ [] })

abbrev pub Log : Type 0
Log = List (List Instruction)

abbrev pub chain : ChainApi Log
chain = record {
  get_multiple_accounts = λ keys w. (ok (map account_of keys), w);
  get_epoch = λ w. (ok 7, w);
  new_keypair = λ w. (50, w);
  submit = λ ixs signers w. (
    ok (record { signature = 1; confirmation_slot = 2; simulated_compute_units = 3 }),
    w ++ ixs ∷ [],
  );
}

abbrev pub log : Log → Log
log w = w

abbrev pub chain_logged : IsLogged chain log
chain_logged = record {
  reads = λ keys w. refl;
  epochs = λ w. refl;
  keys = λ w. refl;
  submits = λ ixs signers w. inr refl;
}

abbrev pub client : Client (Unit {0}) (Unit {0}) (Unit {0}) ℤ ℤ Log
client = record {
  clmm = one_tick;
  programs = programs;
  chain = chain;
  program_id = 1;
  payer = 9;
  slippage_bps = 100;
}
