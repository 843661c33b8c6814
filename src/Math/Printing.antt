-- ===== src/Math/Printing.antt =====
-- crates/mtm-math/src/lib.rs: a price that is printed is parsed back.
use native.Mathlib.Nat.{pow-le-pow_right, mod-lt, mul_comm, div-add-mod}
use testnet_testsuite.Prelude.{
  ℕ, suc, ◌+◌, ◌*◌, ◌/◌, ◌%◌, ◌^◌, ◌<◌, [], ◌∷◌, ◌++◌, some, ok, and_then, map_option, ◌≡◌, refl,
  ap, ◌∙◌, ◌==◌, false, true, ltb, lt→ltb, length, length-append, arith, All-append, All-replicate,
}
use testnet_testsuite.Prelude.Int.{ℤ, pos, negsuc, neg_ℕ, magnitude, narrow, half_i32, half_i128}
use testnet_testsuite.Math.Price.{price, pow10}
use testnet_testsuite.Math.Scale.{pow10-pos}
use testnet_testsuite.Math.Text.{
  Text, show_ℕ, padded, pointed, display, parse_digits, parse_some, parse_int, split_point,
  from_str,
}
use testnet_testsuite.Math.Digits.{
  parse_digits-append, parse_digits-digits, parse_digits-padded, length-padded, IsDigits,
  digits-IsDigits, split_point-digits,
}

-- The digits before the point and those after it spell the whole.
parse_digits-both :
    (e n : ℕ)
    → let scale = 10 ^ suc e in
      parse_digits 0 (show_ℕ (n / scale) ++ padded (suc e) (n % scale)) ≡ some n
parse_digits-both e n =
    let scale = 10 ^ suc e in
    let positive = pow10-pos (suc e) in
    let small : n % scale < scale = mod-lt n positive in
    let whole : (0 * 10 ^ length (show_ℕ (n / scale)) + n / scale) * scale + n % scale ≡ n =
      ap (λ k. k + n % scale) (ap (λ k. k * scale) (omega arith) ∙ mul_comm (n / scale) scale)
      ∙ div-add-mod n scale in
    parse_digits-append 0 (show_ℕ (n / scale)) (padded (suc e) (n % scale))
    ∙ rw (parse_digits-digits (suc (n / scale)) 0 (n / scale) (omega arith))
        (parse_digits-padded e _ (n % scale) small ∙ ap some whole)

parse_some-nonempty : (s : Text) → 0 < length s → parse_some s ≡ parse_digits 0 s
parse_some-nonempty [] h = absurd (omega arith)
parse_some-nonempty (c ∷ cs) h = refl

-- A text of digits has no sign.
parse_int-digits :
    (s : Text) (n : ℕ)
    → IsDigits s
    → parse_some s ≡ some n
    → parse_int half_i128 s ≡ narrow half_i128 (pos n)
unfolding parse_int
parse_int-digits [] n h e = cc
parse_int-digits (c ∷ cs) n h e =
    let digit = h.0 in
    let no_minus : (c == 45) ≡ false = ground arith in
    let no_plus : (c == 43) ≡ false = ground arith in
    rw (no_minus, no_plus) (ap (λ r. and_then (map_option pos r) (narrow half_i128)) e)

padded-IsDigits : (width n : ℕ) → IsDigits (padded width n)
unfolding padded
padded-IsDigits width n =
    All-append _ _ (show_ℕ n) (All-replicate _ _ 48 refl) (digits-IsDigits (suc n) n)

fits : (z : ℤ) → magnitude z < half_i128 → narrow half_i128 z ≡ some z
fits z h = ground arith

pow10-some : (e : ℕ) → e < 38 → pow10 (suc e) ≡ some (10 ^ suc e)
unfolding pow10
pow10-some e h =
    let bound = pow-le-pow_right {n = 10} (omega arith) {i = suc e} {j = 38} (omega arith) in
    let fit : ltb (10 ^ suc e) half_i128 ≡ true = lt→ltb _ _ (omega (arith, bound)) in rw fit refl

narrow_expo : (e : ℕ) → e < 38 → narrow half_i32 (pos (suc e)) ≡ some (pos (suc e))
narrow_expo e h = ground arith

parse_int-minus :
    (s : Text) (n : ℕ)
    → parse_some s ≡ some n
    → parse_int half_i128 (45 ∷ s) ≡ narrow half_i128 (neg_ℕ n)
unfolding parse_int
parse_int-minus s n e = rw e refl

split_point-minus :
    (xs ys : Text) → IsDigits xs → split_point (45 ∷ xs ++ 46 ∷ ys) ≡ some (45 ∷ xs, ys)
unfolding split_point
split_point-minus xs ys h = rw (split_point-digits xs ys h) refl

-- A price with one to 38 decimals in the range of its mantissa is parsed back from its print.
pub from_str-display :
    (mantissa : ℤ) (e : ℕ)
    → e < 38
    → magnitude mantissa < half_i128
    → from_str (display (price mantissa (negsuc e))) ≡ ok (price mantissa (negsuc e))
unfolding from_str display pointed
from_str-display (pos n) e h m =
    let scale = 10 ^ suc e in
    let whole = show_ℕ (n / scale) in
    let part = padded (suc e) (n % scale) in
    let small = mod-lt n (pow10-pos (suc e)) in
    let split = split_point-digits whole part (digits-IsDigits (suc (n / scale)) (n / scale)) in
    let width = length-padded e (n % scale) small in
    let read =
      parse_int-digits (whole ++ part) n
        (All-append _ whole part (digits-IsDigits (suc (n / scale)) (n / scale))
          (padded-IsDigits (suc e) (n % scale)))
        (parse_some-nonempty (whole ++ part) (omega (arith, width, length-append whole part))
          ∙ parse_digits-both e n)
      ∙ fits (pos n) m in
    rw (pow10-some e h) (rw split (rw read (rw width (rw (narrow_expo e h) refl))))
from_str-display (negsuc n) e h m =
    let scale = 10 ^ suc e in
    let whole = show_ℕ (suc n / scale) in
    let part = padded (suc e) (suc n % scale) in
    let small = mod-lt (suc n) (pow10-pos (suc e)) in
    let split =
      split_point-minus whole part (digits-IsDigits (suc (suc n / scale)) (suc n / scale)) in
    let width = length-padded e (suc n % scale) small in
    let read =
      parse_int-minus (whole ++ part) (suc n) (
        parse_some-nonempty (whole ++ part) (omega (arith, width, length-append whole part))
        ∙ parse_digits-both e (suc n))
      ∙ fits (negsuc n) m in
    rw (pow10-some e h) (rw split (rw read (rw width (rw (narrow_expo e h) refl))))
