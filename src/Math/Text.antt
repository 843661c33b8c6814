-- ===== src/Math/Text.antt =====
-- crates/mtm-math/src/lib.rs: `Display` and `FromStr` of a price. A text is the list of its code
-- points: '0' is 48, '-' 45, '+' 43, '.' 46, 'e' 101. How Rust prints and parses integers is
-- written out.
use testnet_testsuite.Prelude.{
  ℕ, zero, suc, ◌+◌, ◌-◌, ◌*◌, ◌/◌, ◌%◌, List, [], ◌∷◌, ◌++◌, Option, none, some, Bool, Result, ok,
  ok_or, and_then, map_option, if◌then◌else◌, ltb, leb, ◌==◌, ◌&&◌, ◌>>=◌, length, replicate,
}
use testnet_testsuite.Prelude.Int.{
  ℤ, pos, negsuc, ◌*ℤ◌, abs_ℕ, neg_ℕ, negate, narrow, half_i32, half_i128, narrow_ℕ, max_u64,
}
use testnet_testsuite.Math.Price.{MathError, parse_error, Price, price, pow10}

abbrev pub Text : Type 0
Text = List ℕ

-- The decimal digits of a number, on fuel above it.
unfoldable pub digits : ℕ → ℕ → Text
digits zero n = []
digits (suc fuel) n =
    let rest = digits fuel (n / 10) in
    if ltb n 10 then (48 + n) ∷ [] else rest ++ (48 + n % 10) ∷ []

abbrev pub show_ℕ : ℕ → Text
show_ℕ n = digits (suc n) n

unfoldable pub show_ℤ : ℤ → Text
unfolding digits
show_ℤ (pos n) = show_ℕ n
show_ℤ (negsuc n) = 45 ∷ show_ℕ (suc n)

-- `{:0width$}`.
unfoldable pub padded : ℕ → ℕ → Text
unfolding digits
padded width n = replicate (width - length (show_ℕ n)) 48 ++ show_ℕ n

-- `write!(f, "{}e{}", mantissa, expo)`.
unfoldable pub scientific : Price → Text
unfolding show_ℤ
scientific p = show_ℤ p.mantissa ++ 101 ∷ show_ℤ p.expo

-- With a point before the last `width` digits, where the scale fits.
unfoldable pub pointed : Price → ℕ → ℕ → Text
unfolding padded
pointed p width scale =
    (elim p.mantissa [ pos n ↦ [] | negsuc n ↦ 45 ∷ [] ])
    ++ show_ℕ (abs_ℕ p.mantissa / scale)
    ++ 46 ∷ padded width (abs_ℕ p.mantissa % scale)

unfoldable pub display : Price → Text
unfolding pow10 scientific pointed
display p = elim p.expo [
  | pos e ↦ elim (and_then (pow10 e) (λ s. narrow half_i128 (p.mantissa *ℤ pos s))) [
    | some v ↦ show_ℤ v
    | none ↦ scientific p
  ]
  | negsuc e ↦ elim (pow10 (suc e)) [ none ↦ scientific p | some scale ↦ pointed p (suc e) scale ]
]

abbrev pub is_digit : ℕ → Bool
is_digit c = leb 48 c && leb c 57

unfoldable pub parse_digits : ℕ → Text → Option ℕ
parse_digits n [] = some n
parse_digits n (c ∷ cs) =
    let rest = parse_digits (n * 10 + (c - 48)) cs in if is_digit c then rest else none

abbrev pub parse_some : Text → Option ℕ
parse_some [] = none
parse_some (c ∷ cs) = parse_digits 0 (c ∷ cs)

-- `parse` into a signed integer type whose range is `-half .. half - 1`.
unfoldable pub parse_int : ℕ → Text → Option ℤ
unfolding parse_digits
parse_int half [] = none
parse_int half (c ∷ cs) =
    let signed =
      if c == 45
      then map_option neg_ℕ (parse_some cs)
      else if c == 43
      then map_option pos (parse_some cs)
      else map_option pos (parse_some (c ∷ cs)) in
    and_then signed (narrow half)

-- `parse::<u64>()`: a minus is no digit.
unfoldable pub parse_u64 : Text → Option ℕ
unfolding parse_digits
parse_u64 [] = none
parse_u64 (c ∷ cs) =
    let digits = if c == 43 then parse_some cs else parse_some (c ∷ cs) in
    and_then digits (narrow_ℕ max_u64)

-- `split_once('.')`.
unfoldable pub split_point : Text → Option (Text × Text)
split_point [] = none
split_point (c ∷ cs) =
    let rest = split_point cs in
    if c == 46 then some ([], cs) else map_option (λ r. (c ∷ r.0, r.1)) rest

unfoldable pub from_str : Text → Result MathError Price
unfolding parse_int split_point
from_str s =
    let parts : Text × Text = (elim (split_point s) [ some parts ↦ parts | none ↦ (s, []) ]) in
    ok_or (parse_int half_i128 (parts.0 ++ parts.1)) (parse_error s) >>= λ mantissa.
    ok_or (narrow half_i32 (pos (length (parts.1)))) (parse_error s) >>= λ expo.
    ok (price mantissa (negate expo))
