-- ===== src/Service/Mints.antt =====
-- services/raydium-clmm-orchestrator/src/main.rs: the mints of a command and their pairs. A
-- `BTreeSet` of keys is an ascending list without repetitions.
use testnet_testsuite.Prelude.{
  String, List, [], ◌∷◌, ◌++◌, map, Result, ok, err, if◌then◌else◌, ltb, length, ◌>>=◌,
}
use testnet_testsuite.Raydium.Types.{Pubkey, words}
use testnet_testsuite.Raydium.Programs.{Programs}
use testnet_testsuite.Flow.Steps.{derive_pool_address}
use testnet_testsuite.Service.Types.{ServiceError, ServiceFault, quits, of_flow, UserPool}

unfoldable pub insert_key : Pubkey → List Pubkey → List Pubkey
insert_key k [] = k ∷ []
insert_key k (x ∷ xs) =
    let rest = insert_key k xs in
    if ltb k x then k ∷ x ∷ xs else if ltb x k then x ∷ rest else x ∷ xs

-- `into_iter().collect::<BTreeSet<_>>()`.
unfoldable pub to_set : List Pubkey → List Pubkey
unfolding insert_key
to_set [] = []
to_set (x ∷ xs) = insert_key x (to_set xs)

unfoldable pub unique_mints : List Pubkey → String → Result ServiceFault (List Pubkey)
unfolding to_set
unique_mints mints source =
    if ltb (length (to_set mints)) 2
    then err (
        quits (
          ServiceError.bails
            (words source ∷ words " must provide at least two distinct mints" ∷ [])))
    else ok (to_set mints)

unfoldable pub unordered_pairs : List Pubkey → List (Pubkey × Pubkey)
unordered_pairs [] = []
unordered_pairs (mint_a ∷ rest) = map (λ mint_b. (mint_a, mint_b)) rest ++ unordered_pairs rest

-- The pools of the pairs, with the first error among them.
unfoldable pub user_pools :
    {P C B T : Type 0}
    → Programs P C B T
    → (program_id amm_config : Pubkey) → List (Pubkey × Pubkey)
    → Result ServiceFault (List UserPool)
user_pools programs program_id amm_config [] = ok []
user_pools programs program_id amm_config ((mint_a, mint_b) ∷ pairs) =
    elim (derive_pool_address programs program_id amm_config mint_a mint_b) [
      | err e ↦ err (of_flow e)
      | ok pool ↦ user_pools programs program_id amm_config pairs >>= λ pools.
          ok (record { pool = pool; mint_a = mint_a; mint_b = mint_b } ∷ pools)
    ]
