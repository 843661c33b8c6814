-- ===== src/Raydium/Bounds.antt =====
-- crates/raydium-clmm-client/src/lib.rs: the tick range of a position, and the limits that a quote or
-- a swap sends.
use testnet_testsuite.Prelude.{
  ℕ, ◌+◌, ◌*◌, ◌/◌, ◌<◌, true, false, Bool, ok, ◌≡◌, refl, arith, inl, inr, ◌⊎◌, if◌then◌else◌,
  ok-injective, ok_or, zero, suc, >>=-eq-ok, fail_if, fail_if-eq-ok, ◌==◌,
}
use testnet_testsuite.Prelude.Int.{
  ℤ, pos, negsuc, ◌+ℤ◌, ◌*ℤ◌, ◌≤ℤ◌, ◌<ℤ◌, +ℤ_parts, neg_ℕ-neg_part, neg_ℕ, eq_of_parts, eqb_ℤ,
  narrow, half_i32, pos_part, neg_part,
}
use mathlib.Core.Path.{subst}
use native.Mathlib.Nat.{zero-mul}
use testnet_testsuite.Raydium.Types.{Fault, panics, Pubkey}
use testnet_testsuite.Raydium.Programs.{Programs}
use testnet_testsuite.Raydium.Addresses.{order_mints, derive_pool_address}
use testnet_testsuite.Raydium.Amounts.{quote_failed}
use testnet_testsuite.Raydium.Liquidity.{div_euclid, round_down, round_up}

-- A pool's address does not depend on the order in which its two mints are given.
pub derive_pool_address_comm :
    {P C B T : Type 0} (programs : Programs P C B T) (program_id config a b : Pubkey)
    → derive_pool_address programs program_id config a b
      ≡ derive_pool_address programs program_id config b a
unfolding derive_pool_address order_mints
derive_pool_address_comm programs program_id config a b = ground arith

-- A multiple of the spacing, as what it adds to the parts.
neg_ℕ-mul : (n k : ℕ) → (neg_ℕ n *ℤ pos k) ≡ neg_ℕ (n * k)
unfolding ◌*ℤ◌
neg_ℕ-mul zero k = rw (zero-mul k) refl
neg_ℕ-mul (suc n) k = refl

pos-suc : (n : ℕ) → (pos n +ℤ pos 1) ≡ pos (n + 1)
unfolding ◌+ℤ◌
pos-suc n = ground arith

div_euclid_range :
    (z : ℤ) (k : ℕ)
    → 0 < k
    → let low = div_euclid z k *ℤ pos k in
      (low ≤ℤ z) × (pos_part z + neg_part low < pos_part low + neg_part z + k)
unfolding ◌*ℤ◌
div_euclid_range (pos n) k h = grind arith
div_euclid_range (negsuc n) k h =
    let (p, q) = neg_ℕ-neg_part (suc (n / k) * k) in rw (p, q) (grind arith)

negsuc-suc : (n : ℕ) → (negsuc n +ℤ pos 1) ≡ neg_ℕ n
unfolding ◌+ℤ◌
negsuc-suc zero = refl
negsuc-suc (suc n) = ground arith

next_multiple :
    (z : ℤ) (k : ℕ)
    → pos_part ((z +ℤ pos 1) *ℤ pos k) + neg_part (z *ℤ pos k)
      ≡ neg_part ((z +ℤ pos 1) *ℤ pos k) + pos_part (z *ℤ pos k) + k
unfolding ◌*ℤ◌
next_multiple (pos n) k = rw (pos-suc n) (grind arith)
next_multiple (negsuc n) k =
    let (p, q) = neg_ℕ-neg_part (suc n * k) in
    let (r, s) = neg_ℕ-neg_part (n * k) in
    rw (negsuc-suc n, neg_ℕ-mul n k, p, q, r, s) (grind arith)

kept : (z : ℤ) (e : Fault) (t : ℤ) → ok_or (narrow half_i32 z) e ≡ ok t → z ≡ t
kept z e t h = ground arith

-- The lower tick of a range, if it is in range, is the greatest multiple of the spacing that is not
-- above the tick of its price.
round_down_nearest :
    (raw : ℤ) (spacing : ℕ) (tick : ℤ)
    → round_down raw spacing ≡ ok tick
    → (tick ≤ℤ raw) × (raw <ℤ (tick +ℤ pos spacing)) × ((k : ℤ) × (tick ≡ k *ℤ pos spacing))
unfolding round_down
round_down_nearest raw spacing tick h =
    let (_, e1, h1) = >>=-eq-ok (fail_if (spacing == 0) panics) _ h in
    let zero_free = fail_if-eq-ok (spacing == 0) panics e1 in
    let low = div_euclid raw spacing *ℤ pos spacing in
    let (a, b) = div_euclid_range raw spacing (ground arith) in
    subst (λ (t : ℤ). (t ≤ℤ raw) × (raw <ℤ (t +ℤ pos spacing)) × ((k : ℤ) × (t ≡ k *ℤ pos spacing)))
      (kept low panics tick h1)
      (a, omega (arith, +ℤ_parts low (pos spacing)), (div_euclid raw spacing, refl))

branch :
    (c : Bool) (raw next : ℤ) (e : Fault) (t : ℤ)
    → (if c then ok raw else ok_or (narrow half_i32 next) e) ≡ ok t
    → ((c ≡ true) × (raw ≡ t)) ⊎ ((c ≡ false) × (next ≡ t))
branch true raw next e t h = inl (refl, ok-injective h)
branch false raw next e t h = inr (refl, kept next e t h)

-- The upper tick of a range, if it is in range, is the least multiple of the spacing that is not
-- below the tick of its price.
pub round_up_nearest :
    (raw : ℤ) (spacing : ℕ) (tick : ℤ)
    → round_up raw spacing ≡ ok tick
    → (raw ≤ℤ tick) × (tick <ℤ (raw +ℤ pos spacing)) × ((k : ℤ) × (tick ≡ k *ℤ pos spacing))
unfolding round_up
round_up_nearest raw spacing tick h =
    let (_, e1, h1) = >>=-eq-ok (fail_if (spacing == 0) panics) _ h in
    let zero_free = fail_if-eq-ok (spacing == 0) panics e1 in
    let f = div_euclid raw spacing in
    let low = f *ℤ pos spacing in
    let (a, b) = div_euclid_range raw spacing (ground arith) in
    let next = (f +ℤ pos 1) *ℤ pos spacing in
    let Nearest : ℤ → Type 0 =
      λ t. (raw ≤ℤ t) × (t <ℤ (raw +ℤ pos spacing)) × ((k : ℤ) × (t ≡ k *ℤ pos spacing)) in
    let added = +ℤ_parts raw (pos spacing) in
    elim (branch (eqb_ℤ low raw) raw next (quote_failed "upper tick overflow") tick h1) [
      | inl (exact, e) ↦
          subst Nearest e
            (omega arith, omega (arith, added), (f, eq_of_parts raw low (ground arith)))
      | inr (short, e) ↦
          let above : pos_part low + neg_part raw < pos_part raw + neg_part low = ground arith in
          let step = next_multiple f spacing in
          subst Nearest e (omega (arith, step), omega (arith, step, added), (f +ℤ pos 1, refl))
    ]
