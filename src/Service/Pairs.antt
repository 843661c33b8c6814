-- ===== src/Service/Pairs.antt =====
-- services/raydium-clmm-orchestrator/src/main.rs: the pairs of mints that the commands work on.
use testnet_testsuite.Prelude.{
  suc, ◌+◌, ◌*◌, ◌≤◌, ◌<◌, String, List, [], ◌∷◌, ◌++◌, map, Bool, true, false, ok, ◌==◌, ltb, ◌&&◌,
  ◌||◌, ◌≡◌, inl, inr, refl, sym, ap, ◌∙◌, Bool-cases, arith, length, length-append, All,
  ok-injective,
}
use testnet_testsuite.Raydium.Types.{Pubkey}
use testnet_testsuite.Raydium.Swap.{contains}
use testnet_testsuite.Service.Mints.{insert_key, to_set, unique_mints, unordered_pairs}

-- Each key is less than those after it.
abbrev pub IsAscending : List Pubkey → Type 0
IsAscending [] = Unit
IsAscending (x ∷ xs) = All (λ y. x < y) xs × IsAscending xs

abbrev pub has_pair : (a b : Pubkey) → List (Pubkey × Pubkey) → Bool
has_pair a b [] = false
has_pair a b ((x, y) ∷ ps) = (x == a && y == b) || has_pair a b ps

insert_key-All :
    (z k : Pubkey) (xs : List Pubkey)
    → z < k
    → All (λ y. z < y) xs
    → All (λ y. z < y) (insert_key k xs)
unfolding insert_key
insert_key-All z k [] h all = (h, tt)
insert_key-All z k (x ∷ xs) h all = elim (Bool-cases (ltb k x)) [
  | inl e ↦ rw e (h, all)
  | inr e ↦ elim (Bool-cases (ltb x k)) [
    | inl f ↦ rw (e, f) (all.0, insert_key-All z k xs h all.1)
    | inr f ↦ rw (e, f) all
  ]
]

All-lt_trans : (k x : Pubkey) (xs : List Pubkey) → k < x → All (λ y. x < y) xs → All (λ y. k < y) xs
All-lt_trans k x [] h all = tt
All-lt_trans k x (y ∷ ys) h all = (omega (arith, all.0), All-lt_trans k x ys h all.1)

insert_key-IsAscending :
    (k : Pubkey) (xs : List Pubkey) → IsAscending xs → IsAscending (insert_key k xs)
unfolding insert_key
insert_key-IsAscending k [] h = (tt, tt)
insert_key-IsAscending k (x ∷ xs) h = elim (Bool-cases (ltb k x)) [
  | inl e ↦ let lt : k < x = ground arith in rw e ((lt, All-lt_trans k x xs lt h.0), h)
  | inr e ↦ elim (Bool-cases (ltb x k)) [
    | inl f ↦
        let lt : x < k = ground arith in
        rw (e, f) (insert_key-All x k xs lt h.0, insert_key-IsAscending k xs h.1)
    | inr f ↦ rw (e, f) h
  ]
]

to_set-IsAscending : (xs : List Pubkey) → IsAscending (to_set xs)
unfolding to_set
to_set-IsAscending [] = tt
to_set-IsAscending (x ∷ xs) = insert_key-IsAscending x (to_set xs) (to_set-IsAscending xs)

contains-insert_key :
    (k x : Pubkey) (xs : List Pubkey) → contains k (insert_key x xs) ≡ (x == k || contains k xs)
unfolding insert_key
contains-insert_key k x [] = refl
contains-insert_key k x (y ∷ ys) = ground (arith, contains-insert_key k x ys)

contains-to_set : (k : Pubkey) (xs : List Pubkey) → contains k (to_set xs) ≡ contains k xs
unfolding to_set
contains-to_set k [] = refl
contains-to_set k (x ∷ xs) =
    contains-insert_key k x (to_set xs) ∙ ap (λ b. x == k || b) (contains-to_set k xs)

has_pair-append :
    (a b : Pubkey) (ps qs : List (Pubkey × Pubkey))
    → has_pair a b (ps ++ qs) ≡ (has_pair a b ps || has_pair a b qs)
has_pair-append a b [] qs = refl
has_pair-append a b ((x, y) ∷ ps) qs = ground (arith, has_pair-append a b ps qs)

has_pair-map :
    (a b x : Pubkey) (ys : List Pubkey)
    → has_pair a b (map (λ y. (x, y)) ys) ≡ (x == a && contains b ys)
has_pair-map a b x [] = ground arith
has_pair-map a b x (y ∷ ys) = ground (arith, has_pair-map a b x ys)

All-contains :
    (x k : Pubkey) (xs : List Pubkey) → All (λ y. x < y) xs → contains k xs ≡ true → x < k
All-contains x k [] all h = cc
All-contains x k (y ∷ ys) all h = elim (Bool-cases (y == k)) [
  | inl e ↦ let lt = all.0 in ground arith
  | inr e ↦ All-contains x k ys all.1 (ground arith)
]

has_pair-unordered_pairs :
    (a b : Pubkey) (keys : List Pubkey)
    → IsAscending keys
    → has_pair a b (unordered_pairs keys) ≡ (contains a keys && contains b keys && ltb a b)
unfolding unordered_pairs
has_pair-unordered_pairs a b [] h = refl
has_pair-unordered_pairs a b (x ∷ xs) h =
    let both =
      has_pair-append a b (map (λ y. (x, y)) xs) (unordered_pairs xs)
      ∙ ap (λ p. p || has_pair a b (unordered_pairs xs)) (has_pair-map a b x xs)
      ∙ ap (λ p. x == a && contains b xs || p) (has_pair-unordered_pairs a b xs h.1) in
    both ∙ elim (Bool-cases (contains a xs)) [
      | inl in_a ↦
          let lt_a = All-contains x a xs h.0 in_a in
          elim (Bool-cases (contains b xs)) [
            | inl in_b ↦ let lt_b = All-contains x b xs h.0 in_b in ground arith
            | inr out_b ↦ ground arith
          ]
      | inr out_a ↦ elim (Bool-cases (contains b xs)) [
        | inl in_b ↦ let lt_b = All-contains x b xs h.0 in_b in ground arith
        | inr out_b ↦ ground arith
      ]
    ]

length-map : {A B : Type 0} (f : A → B) (xs : List A) → length (map f xs) ≡ length xs
length-map f [] = refl
length-map f (x ∷ xs) = ap suc (length-map f xs)

length-unordered_pairs :
    (keys : List Pubkey)
    → 2 * length (unordered_pairs keys) + length keys ≡ length keys * length keys
unfolding unordered_pairs
length-unordered_pairs [] = refl
length-unordered_pairs (x ∷ xs) =
    let rest = length-unordered_pairs xs in
    let split = length-append (map (λ y. (x, y)) xs) (unordered_pairs xs) in
    let with_x : Pubkey → Pubkey × Pubkey = λ y. (x, y) in
    let row = length-map with_x xs in grind arith

-- The pairs that a command works on are the pairs of two keys among the mints given, the lesser key
-- first, and no others; with n different mints there are n(n-1)/2, so that none is there twice.
pub unordered_pairs-unique_mints :
    (mints keys : List Pubkey) (source : String) (a b : Pubkey)
    → unique_mints mints source ≡ ok keys
    → (has_pair a b (unordered_pairs keys) ≡ (contains a mints && contains b mints && ltb a b))
      × (2 * length (unordered_pairs keys) + length keys ≡ length keys * length keys)
      × (2 ≤ length keys)
unfolding unique_mints
unordered_pairs-unique_mints mints keys source a b h =
    elim (Bool-cases (ltb (length (to_set mints)) 2)) [
      | inl e ↦ absurd (cc (rw (e, unique_mints) at h))
      | inr e ↦
          let made = ok-injective (rw (e, unique_mints) at h) in
          rw (sym made) (
            has_pair-unordered_pairs a b (to_set mints) (to_set-IsAscending mints)
                ∙ ap (λ p. p && contains b (to_set mints) && ltb a b) (contains-to_set a mints)
                ∙ ap (λ p. contains a mints && p && ltb a b) (contains-to_set b mints),
            length-unordered_pairs (to_set mints),
            ground arith,
          )
    ]
