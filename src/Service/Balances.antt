-- ===== src/Service/Balances.antt =====
-- services/raydium-clmm-orchestrator/src/main.rs: the amounts that instructions carry.
use testnet_testsuite.Prelude.{
  ℕ, suc, ◌+◌, ◌*◌, ◌/◌, ◌%◌, ◌≤◌, ◌<◌, ◌^◌, List, [], ◌∷◌, ◌++◌, ok, ◌≡◌, ◌⊎◌, inl, inr, refl, ap,
  arith, length, All, err, Bool-cases, leb→le, leb, ◌-◌, false, zero,
}
use mathlib.Core.Path.{subst}
use testnet_testsuite.Raydium.Types.{Bytes}
use testnet_testsuite.Flow.Bytes.{
  to_le_bytes, from_le_bytes, slice, take, drop, from_le_bytes-to_le_bytes,
}
use testnet_testsuite.Service.Types.{ServiceFault}
use testnet_testsuite.Service.Transfers.{
  system_transfer_instruction, transfer_checked_instruction, token_account_amount,
}

to_le_bytes-from_le_bytes :
    (bs : Bytes) → All (λ b. b < 256) bs → to_le_bytes (length bs) (from_le_bytes bs) ≡ bs
unfolding to_le_bytes from_le_bytes
to_le_bytes-from_le_bytes [] h = refl
to_le_bytes-from_le_bytes (b ∷ bs) h =
    let small = h.0 in
    let low : (b + 256 * from_le_bytes bs) % 256 ≡ b = omega arith in
    let high : (b + 256 * from_le_bytes bs) / 256 ≡ from_le_bytes bs = omega arith in
    rw (low, high) (ap (λ l. b ∷ l) (to_le_bytes-from_le_bytes bs h.1))

length-take : {A : Type 0} (n : ℕ) (xs : List A) → n ≤ length xs → length (take n xs) ≡ n
length-take zero xs h = refl
length-take (suc n) [] h = absurd (omega arith)
length-take (suc n) (x ∷ xs) h = ap suc (length-take n xs (omega arith))

length-drop : {A : Type 0} (n : ℕ) (xs : List A) → length (drop n xs) ≡ length xs - n
length-drop zero xs = omega arith
length-drop (suc n) [] = omega arith
length-drop (suc n) (x ∷ xs) = omega (arith, length-drop n xs)

All-take : (P : ℕ → Type 0) (n : ℕ) (xs : Bytes) → All P xs → All P (take n xs)
All-take P zero xs h = tt
All-take P (suc n) [] h = tt
All-take P (suc n) (x ∷ xs) h = (h.0, All-take P n xs h.1)

All-drop : (P : ℕ → Type 0) (n : ℕ) (xs : Bytes) → All P xs → All P (drop n xs)
All-drop P zero xs h = h
All-drop P (suc n) [] h = tt
All-drop P (suc n) (x ∷ xs) h = All-drop P n xs h.1

short_lt : (n : ℕ) → leb 72 n ≡ false → n < 72
short_lt n h = ground arith

-- The balance of a token account is there exactly if the account has at least 72 bytes, and the
-- transfer of that balance carries, after its tag, the eight bytes that the account holds at 64,
-- and then the decimals.
pub token_account_amount_carried :
    (bytes : Bytes) (key source mint destination authority token_program decimals : ℕ)
    → All (λ b. b < 256) bytes
    → ((length bytes < 72) × ((e : ServiceFault) × (token_account_amount bytes key ≡ err e)))
      ⊎ ((72 ≤ length bytes)
          × ((amount : ℕ) × (token_account_amount bytes key ≡ ok amount)
              × ((transfer_checked_instruction source mint destination authority token_program
                    amount decimals).content
                  ≡ 12 ∷ take 8 (drop 64 bytes) ++ decimals ∷ [])))
unfolding token_account_amount transfer_checked_instruction slice
token_account_amount_carried bytes key source mint destination authority token_program decimals h =
    elim (Bool-cases (leb 72 (length bytes))) [
      | inr short ↦ inl (short_lt (length bytes) short, rw (short, token_account_amount) (_, refl))
      | inl long ↦
          let part = take 8 (drop 64 bytes) in
          let bound : 72 ≤ length bytes = leb→le 72 (length bytes) long in
          let width : length part ≡ 8 =
            length-take 8 (drop 64 bytes) (omega (arith, bound, length-drop 64 bytes)) in
          let same =
            to_le_bytes-from_le_bytes part (All-take _ 8 (drop 64 bytes) (All-drop _ 64 bytes h)) in
          inr (
            bound,
            (
              from_le_bytes part,
              rw (long, token_account_amount) refl,
              ap (λ l. 12 ∷ l ++ decimals ∷ [])
                  (subst (λ n. to_le_bytes n (from_le_bytes part) ≡ part) width same),
            ),
          )
    ]

-- The transfer of lamports carries twelve bytes: the index 2 of the system program's instruction in
-- four, and an amount below 2^64 that is read back from the other eight.
pub system_transfer_instruction_amount :
    (source destination lamports : ℕ)
    → lamports < 2 ^ 64
    → let content = (system_transfer_instruction source destination lamports).content in
      (length content ≡ 12)
      × (from_le_bytes (take 4 content) ≡ 2)
      × (from_le_bytes (drop 4 content) ≡ lamports)
unfolding system_transfer_instruction to_le_bytes
system_transfer_instruction_amount source destination lamports h = (
  refl,
  from_le_bytes-to_le_bytes 4 2 (omega arith),
  from_le_bytes-to_le_bytes 8 lamports (omega arith),
)
