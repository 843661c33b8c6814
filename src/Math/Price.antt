-- ===== src/Math/Price.antt =====
-- crates/mtm-math/src/lib.rs: `Price`, its conversions and its arithmetic. The mantissa is an
-- `i128` and the exponent an `i32`; an integer is plain, and each operation carries its range check.
use testnet_testsuite.Prelude.{
  ℕ, zero, suc, List, ◌^◌, ◌<◌, Option, none, some, Result, ok, ◌>>=◌, ok_or, and_then, map_option,
  if◌then◌else◌, ltb,
}
use testnet_testsuite.Prelude.Int.{
  ℤ, pos, ◌-ℤ◌, ◌+ℤ◌, ◌*ℤ◌, ◌/ℤ◌, leb_ℤ, ltb_ℤ, eqb_ℤ, abs_ℕ, magnitude, narrow, narrow_ℕ, half_i32,
  half_i64, half_i128, max_u32,
}
use testnet_testsuite.Decimal.{Decimal}

-- The payload of `Parse` is the text that was refused.
pub data MathError : Type 0 where
  overflow : MathError
  parse_error : List ℕ → MathError

-- `mantissa * 10^expo`.
pub record Price : Type 0 where
  pub mantissa : ℤ
  pub expo : ℤ

-- Both fields lie in the ranges of their Rust types.
pub record IsPrice (p : Price) : Type 0 where
  pub mantissa_fits : magnitude p.mantissa < half_i128
  pub expo_fits : magnitude p.expo < half_i32

abbrev pub price : ℤ → ℤ → Price
price m e = record { mantissa = m; expo = e }

-- `Price::from_pyth`: widening an `i64`.
unfoldable pub from_pyth : ℤ → ℤ → Price
from_pyth m e = price m e

unfoldable pub to_pyth : Price → Option (ℤ × ℤ)
to_pyth p = map_option (λ m. (m, p.expo)) (narrow half_i64 p.mantissa)

-- `10i128.checked_pow(exp)`.
unfoldable pub pow10 : ℕ → Option ℕ
pow10 e = if ltb (10 ^ e) half_i128 then some (10 ^ e) else none

-- The two ways to apply the factor: to a finer exponent by a checked product, to a coarser one by
-- a division that truncates.
unfoldable pub scale_by : Price → ℤ → ℤ → ℕ → Result MathError Price
scale_by p new_expo diff factor =
    if ltb_ℤ (pos 0) diff
    then ok_or (map_option (λ m. price m new_expo) (narrow half_i128 (p.mantissa *ℤ pos factor)))
        overflow
    else ok (price (p.mantissa /ℤ factor) new_expo)

-- `none` is the panic of the subtraction of the exponents, which overflow checks guard.
unfoldable pub checked_scale : Price → ℤ → Option (Result MathError Price)
unfolding pow10 scale_by
checked_scale p new_expo = and_then (narrow half_i32 (p.expo -ℤ new_expo)) λ diff. some (
    if eqb_ℤ diff (pos 0)
    then ok p
    else (ok_or (pow10 (abs_ℕ diff)) overflow >>= scale_by p new_expo diff))

unfoldable pub apply_bps : Price → ℤ → Result MathError Price
apply_bps p bps = do
  factor ← ok_or (narrow half_i128 (pos 10_000 +ℤ bps)) overflow
  scaled ← ok_or (narrow half_i128 (p.mantissa *ℤ factor)) overflow
  ok (price (scaled /ℤ 10_000) p.expo)

module _ {D : Type 0} ⦃d : Decimal D⦄ where
  -- The loop of `to_decimal`: it multiplies by ten until the exponent is used up.
  unfoldable pub times_ten : ℕ → D → Option D
  times_ten zero x = some x
  times_ten (suc n) x = and_then (d.checked_mul x d.ten) (times_ten n)

  unfoldable pub to_decimal : Price → Option D
  unfolding times_ten
  to_decimal p =
      if leb_ℤ p.expo (pos 0)
      then and_then (narrow_ℕ max_u32 (abs_ℕ p.expo)) (d.try_from_i128_with_scale p.mantissa)
      else and_then (d.try_from_i128_with_scale p.mantissa 0) (times_ten (abs_ℕ p.expo))

  unfoldable pub from_decimal : D → ℤ → Result MathError Price
  unfolding pow10
  from_decimal value expo = do
    factor ←
        ok_or (and_then (pow10 (abs_ℕ expo)) (λ f. d.try_from_i128_with_scale (pos f) 0)) overflow
    shifted ←
        ok_or
          (if leb_ℤ expo (pos 0) then d.checked_mul value factor else d.checked_div value factor)
          overflow
    mantissa ← ok_or (d.to_i128 (d.round shifted)) overflow
    ok (price mantissa expo)
