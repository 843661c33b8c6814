-- ===== src/Math/Scale.antt =====
-- crates/mtm-math/src/lib.rs: what rescaling and basis points do to a price.
use native.Mathlib.Nat.{pow-suc, div-le_self}
use testnet_testsuite.Prelude.{ℕ, zero, suc, ◌+◌, ◌*◌, ◌^◌, ◌<◌, ◌≤◌, ◌≡◌, some, ok, arith}
use testnet_testsuite.Prelude.Int.{
  ℤ, pos, negsuc, ◌-ℤ◌, ◌+ℤ◌, ◌*ℤ◌, ◌/ℤ◌, ◌≤ℤ◌, ◌<ℤ◌, half_i32, half_i128, abs_ℕ, magnitude,
  -ℤ_parts, mul-div_self, eq_of_parts, abs_ℕ-neg_ℕ, magnitude-neg_ℕ, magnitude-le-abs_ℕ, abs_ℕ-mul,
}
use testnet_testsuite.Math.Price.{Price, IsPrice, checked_scale, apply_bps}

div_abs :
    (z : ℤ) (k : ℕ) → 0 < k → (abs_ℕ (z /ℤ k) * k ≤ abs_ℕ z) × (abs_ℕ z < (abs_ℕ (z /ℤ k) + 1) * k)
unfolding ◌/ℤ◌
div_abs (pos n) k h = grind arith
div_abs (negsuc n) k h = rw abs_ℕ-neg_ℕ (grind arith)

div_magnitude : (z : ℤ) (k : ℕ) → 0 < k → magnitude (z /ℤ k) ≤ magnitude z
unfolding ◌/ℤ◌
div_magnitude (pos n) k h = div-le_self n k
div_magnitude (negsuc n) k h = rw magnitude-neg_ℕ (omega (arith, div-le_self (suc n) k))

pub pow10-pos : (e : ℕ) → 0 < 10 ^ e
pow10-pos zero = omega arith
pow10-pos (suc e) = rw pow-suc (grind (arith, pow10-pos e))

-- If a price in the ranges of its types is rescaled to an exponent in range, the result lies in
-- those ranges and has the exponent that was asked for.
checked_scale-IsPrice :
    (p : Price) (e : ℤ) (q : Price)
    → IsPrice p
    → magnitude e < half_i32
    → checked_scale p e ≡ some (ok q)
    → IsPrice q × (q.expo ≡ e)
unfolding checked_scale
checked_scale-IsPrice p e q v h c = ground (
  arith,
  div_magnitude p.mantissa (10 ^ abs_ℕ (p.expo -ℤ e)) (pow10-pos _),
  -ℤ_parts p.expo e,
  eq_of_parts p.expo e,
)

-- If basis points apply to a price without an error, the result is its product with 10,000 + bps
-- over 10,000, rounded towards zero, at the same exponent.
apply_bps_exact :
    (p : Price) (bps : ℤ) (q : Price)
    → apply_bps p bps ≡ ok q
    → let product = abs_ℕ (p.mantissa *ℤ (pos 10_000 +ℤ bps)) in
      (q.expo ≡ p.expo)
      × (abs_ℕ q.mantissa * 10_000 ≤ product)
      × (product < (abs_ℕ q.mantissa + 1) * 10_000)
unfolding apply_bps
apply_bps_exact p bps q c =
    ground (arith, div_abs (p.mantissa *ℤ (pos 10_000 +ℤ bps)) 10_000 (omega arith))

-- No basis points leave a price as it is, if 10,000 times its mantissa stays below 2^127.
pub apply_bps_zero :
    (p : Price) → abs_ℕ p.mantissa * 10_000 < half_i128 → apply_bps p (pos 0) ≡ ok p
unfolding apply_bps ◌+ℤ◌
apply_bps_zero p h = ground (
  arith,
  abs_ℕ-mul p.mantissa 10_000,
  magnitude-le-abs_ℕ (p.mantissa *ℤ pos 10_000),
  mul-div_self p.mantissa 10_000 (omega arith),
)

-- A price in the ranges of its types that is rescaled without an error to its own or a finer
-- exponent, and back, is the price again.
pub checked_scale_finer_back :
    (p : Price) (e : ℤ) (q : Price)
    → IsPrice p
    → e ≤ℤ p.expo
    → checked_scale p e ≡ some (ok q)
    → checked_scale q p.expo ≡ some (ok p)
unfolding checked_scale ◌-ℤ◌
checked_scale_finer_back p e q v h c =
    ground (arith, mul-div_self p.mantissa (10 ^ abs_ℕ (p.expo -ℤ e)) (pow10-pos _))

-- A price that is rescaled to a coarser exponent has that exponent, and its mantissa is the old one
-- over the power of ten between the two, rounded towards zero.
pub checked_scale_coarser :
    (p : Price) (e : ℤ) (q : Price)
    → p.expo <ℤ e
    → checked_scale p e ≡ some (ok q)
    → let unit = 10 ^ abs_ℕ (p.expo -ℤ e) in
      (q.expo ≡ e)
      × (abs_ℕ q.mantissa * unit ≤ abs_ℕ p.mantissa)
      × (abs_ℕ p.mantissa < (abs_ℕ q.mantissa + 1) * unit)
unfolding checked_scale
checked_scale_coarser p e q h c =
    ground (arith, div_abs p.mantissa (10 ^ abs_ℕ (p.expo -ℤ e)) (pow10-pos _), -ℤ_parts p.expo e)
