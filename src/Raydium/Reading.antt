-- ===== src/Raydium/Reading.antt =====
-- crates/raydium-clmm-client/src/lib.rs: loading sends nothing.
use testnet_testsuite.Prelude.{ℕ, suc, List, [], ◌∷◌, Option, Bool, ◌==◌, inl, inr, Bool-cases}
use testnet_testsuite.Raydium.Types.{Pubkey, Instruction, Account, PositionAccounts}
use testnet_testsuite.Raydium.Monad.{Client}
use testnet_testsuite.Raydium.Accounts.{fetch_optional, fetch_epoch, fetch_keypair}
use testnet_testsuite.Raydium.Load.{PoolBundle, load_pool}
use testnet_testsuite.Raydium.Position.{
  nft_of, load_position, validate_position_tick_arrays, reward_metas, fetch_rewards,
  reward_accounts,
}
use testnet_testsuite.Raydium.Arrays.{load_swap_tick_arrays}
use testnet_testsuite.Raydium.Once.{IsLogged, IsQuiet, sending}

module _ {P C B T K W : Type 0} (self : Client P C B T K W) (sent : W → List (List Instruction))
    (l : IsLogged self.chain sent) where
  pub fetch_optional-IsQuiet : (keys : List Pubkey) → IsQuiet sent (fetch_optional self keys)
  unfolding fetch_optional IsQuiet
  fetch_optional-IsQuiet keys w = l.reads keys w

  pub fetch_epoch-IsQuiet : IsQuiet sent (fetch_epoch self)
  unfolding fetch_epoch IsQuiet
  fetch_epoch-IsQuiet w = l.epochs w

  pub fetch_keypair-IsQuiet : IsQuiet sent (fetch_keypair self)
  unfolding fetch_keypair IsQuiet
  fetch_keypair-IsQuiet w = l.keys w

  pub load_pool-IsQuiet : (key : Pubkey) → IsQuiet sent (load_pool self key)
  unfolding load_pool
  load_pool-IsQuiet key =
      search (sending, fetch_optional-IsQuiet, fetch_epoch-IsQuiet) depth 80 fits 4000

  nft_of-IsQuiet :
      (mint : Pubkey) (accounts : List (Option Account)) (owner a b : Pubkey)
      → IsQuiet sent (nft_of self mint accounts owner a b)
  unfolding nft_of
  nft_of-IsQuiet mint accounts owner a b =
      elim (Bool-cases (owner == self.programs.token_2022_program_id)) [
        | inl e ↦ rw e (search sending depth 10)
        | inr e ↦ elim (Bool-cases (owner == self.programs.token_program_id)) [
          | inl e2 ↦ rw (e, e2) (search sending depth 10)
          | inr e2 ↦ rw (e, e2) (search sending depth 10)
        ]
      ]

  pub load_position-IsQuiet : (mint : Pubkey) → IsQuiet sent (load_position self mint)
  unfolding load_position
  load_position-IsQuiet mint =
      search (sending, fetch_optional-IsQuiet, nft_of-IsQuiet) depth 80 fits 4000

  pub validate_position_tick_arrays-IsQuiet :
      (p : PositionAccounts) (required : Bool)
      → IsQuiet sent (validate_position_tick_arrays self p required)
  unfolding validate_position_tick_arrays
  validate_position_tick_arrays-IsQuiet p required =
      search (sending, fetch_optional-IsQuiet) depth 40 fits 2000

  reward_metas-IsQuiet :
      (pool : Pubkey) (keys : List Pubkey) (accounts : List (Option Account)) (index : ℕ)
      (rewards : List (Pubkey × Pubkey))
      → IsQuiet sent (reward_metas self pool keys accounts index rewards)
  unfolding reward_metas
  reward_metas-IsQuiet pool keys accounts index [] = search sending
  reward_metas-IsQuiet pool keys accounts index ((mint, vault) ∷ rs) =
      search (sending, reward_metas-IsQuiet pool keys accounts (suc index) rs) depth 40 fits 2000

  fetch_rewards-IsQuiet :
      (bundle : PoolBundle P B) (rewards : List (Pubkey × Pubkey))
      → IsQuiet sent (fetch_rewards self bundle rewards)
  unfolding fetch_rewards
  fetch_rewards-IsQuiet bundle [] = search sending
  fetch_rewards-IsQuiet bundle (r ∷ rs) =
      search (sending, fetch_optional-IsQuiet, reward_metas-IsQuiet) depth 20 fits 2000

  pub reward_accounts-IsQuiet :
      (bundle : PoolBundle P B) → IsQuiet sent (reward_accounts self bundle)
  unfolding reward_accounts
  reward_accounts-IsQuiet bundle = fetch_rewards-IsQuiet bundle _

  pub load_swap_tick_arrays-IsQuiet :
      (bundle : PoolBundle P B) (zero_for_one : Bool)
      → IsQuiet sent (load_swap_tick_arrays self bundle zero_for_one)
  unfolding load_swap_tick_arrays
  load_swap_tick_arrays-IsQuiet bundle zero_for_one =
      search (sending, fetch_optional-IsQuiet) depth 40 fits 2000

  pub ruleset reading = (
    sending, fetch_optional-IsQuiet, fetch_epoch-IsQuiet, fetch_keypair-IsQuiet, load_pool-IsQuiet,
    load_position-IsQuiet, validate_position_tick_arrays-IsQuiet, reward_accounts-IsQuiet,
    load_swap_tick_arrays-IsQuiet,
  )
