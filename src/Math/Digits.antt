-- ===== src/Math/Digits.antt =====
-- crates/mtm-math/src/lib.rs: the digits of a number are read back.
use native.Mathlib.Nat.{pow-suc, mul_assoc}
use testnet_testsuite.Prelude.{
  ℕ, zero, suc, ◌+◌, ◌-◌, ◌*◌, ◌/◌, ◌%◌, ◌^◌, ◌≤◌, ◌<◌, [], ◌∷◌, ◌++◌, some, and_then, ◌≡◌, refl,
  sym, ap, ◌∙◌, inl, inr, true, Bool-cases, ltb, length, length-append, replicate, All, All-append,
  arith,
}
use testnet_testsuite.Math.Text.{Text, digits, show_ℕ, padded, is_digit, parse_digits, split_point}

pub parse_digits-append :
    (n : ℕ) (xs ys : Text)
    → parse_digits n (xs ++ ys) ≡ and_then (parse_digits n xs) (λ m. parse_digits m ys)
unfolding parse_digits
parse_digits-append n [] ys = refl
parse_digits-append n (x ∷ xs) ys = elim (Bool-cases (is_digit x)) [
  | inl e ↦ rw e (parse_digits-append (n * 10 + (x - 48)) xs ys)
  | inr e ↦ rw e refl
]

parse_digits-one : (n d : ℕ) → d < 10 → parse_digits n ((48 + d) ∷ []) ≡ some (n * 10 + d)
unfolding parse_digits
parse_digits-one n d h =
    let e : is_digit (48 + d) ≡ true = ground arith in rw e (ap some (omega arith))

pow_more : (m l : ℕ) → m * 10 ^ (l + 1) ≡ m * 10 ^ l * 10
pow_more m l =
    let step : 10 ^ (l + 1) ≡ 10 ^ l * 10 = ap (λ k. 10 ^ k) (omega arith) ∙ pow-suc 10 l in
    rw step (sym (mul_assoc m (10 ^ l) 10))

pow_split : (m a b : ℕ) → m * 10 ^ (a + b) ≡ m * 10 ^ a * 10 ^ b
pow_split m a zero = let same : a + 0 ≡ a = omega arith in ap (λ k. m * 10 ^ k) same ∙ omega arith
pow_split m a (suc b) =
    let step : a + suc b ≡ a + b + 1 = omega arith in
    let more : b + 1 ≡ suc b = omega arith in
    ap (λ k. m * 10 ^ k) step
    ∙ pow_more m (a + b)
    ∙ ap (λ k. k * 10) (pow_split m a b)
    ∙ sym (pow_more (m * 10 ^ a) b)
    ∙ ap (λ k. m * 10 ^ a * 10 ^ k) more

digit_added : (m l n : ℕ) → (m * 10 ^ l + n / 10) * 10 + n % 10 ≡ m * 10 ^ (l + 1) + n
digit_added m l n = omega (arith, pow_more m l)

pub parse_digits-digits :
    (fuel m n : ℕ)
    → n < fuel
    → parse_digits m (digits fuel n) ≡ some (m * 10 ^ length (digits fuel n) + n)
unfolding digits
parse_digits-digits zero m n h = absurd (omega arith)
parse_digits-digits (suc fuel) m n h = elim (Bool-cases (ltb n 10)) [
  | inl e ↦ rw e (parse_digits-one m n (ground arith))
  | inr e ↦
      let big : 10 ≤ n = ground arith in
      let rest = digits fuel (n / 10) in
      let ih = parse_digits-digits fuel m (n / 10) (omega arith) in
      let width = length-append rest ((48 + n % 10) ∷ []) in
      rw (e, width)
        (parse_digits-append m rest ((48 + n % 10) ∷ [])
          ∙ rw ih
              (parse_digits-one _ (n % 10) (omega arith) ∙ ap some (digit_added m (length rest) n)))
]

-- Fewer digits than the power of ten that bounds the number.
length-digits : (fuel width n : ℕ) → n < 10 ^ suc width → length (digits fuel n) ≤ suc width
unfolding digits
length-digits zero width n h = omega arith
length-digits (suc fuel) zero n h =
    let one : ltb n 10 ≡ true = ground (arith, pow-suc 10 zero) in rw one (omega arith)
length-digits (suc fuel) (suc width) n h = elim (Bool-cases (ltb n 10)) [
  | inl e ↦ rw e (omega arith)
  | inr e ↦
      let less : n / 10 < 10 ^ suc width = omega (arith, pow-suc 10 (suc width)) in
      let shorter = length-digits fuel width (n / 10) less in
      rw e (omega (arith, shorter, length-append (digits fuel (n / 10)) ((48 + n % 10) ∷ [])))
]

parse_digits-replicate : (m n : ℕ) → parse_digits n (replicate m 48) ≡ some (n * 10 ^ m)
unfolding parse_digits
parse_digits-replicate zero n = ap some (omega arith)
parse_digits-replicate (suc m) n =
    let first : n * 10 + 0 ≡ n * 10 ^ 1 = omega arith in
    let more : 1 + m ≡ suc m = omega arith in
    parse_digits-replicate m (n * 10 + 0)
    ∙ ap some (ap (λ k. k * 10 ^ m) first ∙ sym (pow_split n 1 m) ∙ ap (λ k. n * 10 ^ k) more)

-- A padded number adds as many digits as its width.
pub parse_digits-padded :
    (width m n : ℕ)
    → n < 10 ^ suc width
    → parse_digits m (padded (suc width) n) ≡ some (m * 10 ^ suc width + n)
unfolding padded
parse_digits-padded width m n h =
    let shown = show_ℕ n in
    let short = length-digits (suc n) width n h in
    let zeros = suc width - length shown in
    parse_digits-append m (replicate zeros 48) shown
    ∙ rw (parse_digits-replicate zeros m) (
        parse_digits-digits (suc n) (m * 10 ^ zeros) n (omega arith)
        ∙ ap (λ k. some (k + n)) (sym (pow_split m zeros (length shown)))
        ∙ ap (λ k. some (m * 10 ^ k + n)) (omega (arith, short)))

length-replicate : (m : ℕ) → length (replicate {A = ℕ} m 48) ≡ m
length-replicate zero = refl
length-replicate (suc m) = ap suc (length-replicate m)

pub length-padded : (width n : ℕ) → n < 10 ^ suc width → length (padded (suc width) n) ≡ suc width
unfolding padded
length-padded width n h =
    let short = length-digits (suc n) width n h in
    length-append (replicate (suc width - length (show_ℕ n)) 48) (show_ℕ n)
    ∙ omega (arith, short, length-replicate (suc width - length (show_ℕ n)))

abbrev pub IsDigits : Text → Type 0
IsDigits s = All (λ c. is_digit c ≡ true) s

pub digits-IsDigits : (fuel n : ℕ) → IsDigits (digits fuel n)
unfolding digits
digits-IsDigits zero n = tt
digits-IsDigits (suc fuel) n = elim (Bool-cases (ltb n 10)) [
  | inl e ↦ rw e (ground arith, tt)
  | inr e ↦
      rw e
        (All-append _ (digits fuel (n / 10)) _ (digits-IsDigits fuel (n / 10)) (ground arith, tt))
]

-- A text before the first point is split off.
pub split_point-digits : (xs ys : Text) → IsDigits xs → split_point (xs ++ 46 ∷ ys) ≡ some (xs, ys)
unfolding split_point
split_point-digits [] ys h = refl
split_point-digits (x ∷ xs) ys h = rw (split_point-digits xs ys h.1) (ground (arith, h.0))
