-- ===== src/Prelude/Int.antt =====
-- Signed integers over the native numbers, and the machine ranges of Rust's `iN` and `uN`.
use Prim.Native.Nat.{ℕ, zero, suc, ◌+◌, ◌-◌, ◌*◌, ◌/◌, ◌^◌, ◌≤◌, ◌<◌}
use mathlib.Core.Path.{◌≡◌, refl}
use mathlib.Core.Bool.{Bool}
use mathlib.Core.Option.{Option, none, some}
use native.Mathlib.Omega.{arith}
use native.Mathlib.Nat.{mul-div_cancel, zero-div}
use testnet_testsuite.Prelude.Tests.{ltb, leb, ◌==◌, if◌then◌else◌}

-- `negsuc n` is -(n + 1).
pub data ℤ : Type 0 where
  pos : ℕ → ℤ
  negsuc : ℕ → ℤ

abbrev pub pos_part : ℤ → ℕ
pos_part (pos n) = n
pos_part (negsuc n) = 0

abbrev pub neg_part : ℤ → ℕ
neg_part (pos n) = 0
neg_part (negsuc n) = suc n

-- a - b, as an integer.
abbrev pub sub_ℕ : ℕ → ℕ → ℤ
sub_ℕ a b = if leb b a then pos (a - b) else negsuc (b - a - 1)

-- -n.
abbrev pub neg_ℕ : ℕ → ℤ
neg_ℕ zero = pos 0
neg_ℕ (suc n) = negsuc n

infixl 65 ◌+ℤ◌ ◌-ℤ◌
infixl 70 ◌*ℤ◌ ◌/ℤ◌
infix 50 ◌≤ℤ◌ ◌<ℤ◌
unfoldable pub ◌+ℤ◌ : ℤ → ℤ → ℤ
a +ℤ b = sub_ℕ (pos_part a + pos_part b) (neg_part a + neg_part b)

unfoldable pub ◌-ℤ◌ : ℤ → ℤ → ℤ
a -ℤ b = sub_ℕ (pos_part a + neg_part b) (neg_part a + pos_part b)

unfoldable pub ◌*ℤ◌ : ℤ → ℤ → ℤ
pos a *ℤ pos b = pos (a * b)
pos a *ℤ negsuc b = neg_ℕ (a * suc b)
negsuc a *ℤ pos b = neg_ℕ (suc a * b)
negsuc a *ℤ negsuc b = pos (suc a * suc b)

-- Rust's `/` by a positive number: it rounds towards zero.
unfoldable pub ◌/ℤ◌ : ℤ → ℕ → ℤ
pos a /ℤ k = pos (a / k)
negsuc a /ℤ k = neg_ℕ (suc a / k)

abbrev pub negate : ℤ → ℤ
negate (pos n) = neg_ℕ n
negate (negsuc n) = pos (suc n)

abbrev pub ◌≤ℤ◌ : ℤ → ℤ → Type 0
a ≤ℤ b = pos_part a + neg_part b ≤ pos_part b + neg_part a

abbrev pub ◌<ℤ◌ : ℤ → ℤ → Type 0
a <ℤ b = pos_part a + neg_part b < pos_part b + neg_part a

abbrev pub ltb_ℤ : ℤ → ℤ → Bool
ltb_ℤ a b = ltb (pos_part a + neg_part b) (pos_part b + neg_part a)

abbrev pub leb_ℤ : ℤ → ℤ → Bool
leb_ℤ a b = leb (pos_part a + neg_part b) (pos_part b + neg_part a)

abbrev pub eqb_ℤ : ℤ → ℤ → Bool
eqb_ℤ a b = pos_part a + neg_part b == pos_part b + neg_part a

abbrev pub min_ℤ : ℤ → ℤ → ℤ
min_ℤ a b = if leb_ℤ a b then a else b

abbrev pub max_ℤ : ℤ → ℤ → ℤ
max_ℤ a b = if leb_ℤ a b then b else a

-- `unsigned_abs`.
abbrev pub abs_ℕ : ℤ → ℕ
abs_ℕ (pos n) = n
abs_ℕ (negsuc n) = suc n

-- Where the magnitude bits of a two's complement integer lie: `n` or `-(n + 1)` with `n < half`.
abbrev pub magnitude : ℤ → ℕ
magnitude (pos n) = n
magnitude (negsuc n) = n

abbrev pub half_i32 : ℕ
half_i32 = 2 ^ 31

abbrev pub half_i64 : ℕ
half_i64 = 2 ^ 63

abbrev pub half_i128 : ℕ
half_i128 = 2 ^ 127

abbrev pub max_u32 : ℕ
max_u32 = 2 ^ 32 - 1

abbrev pub max_u64 : ℕ
max_u64 = 2 ^ 64 - 1

abbrev pub max_u128 : ℕ
max_u128 = 2 ^ 128 - 1

-- The checked conversion into a signed type whose range is `-half .. half - 1`.
abbrev pub narrow : ℕ → ℤ → Option ℤ
narrow half z = if ltb (magnitude z) half then some z else none

-- The checked conversion into an unsigned type.
abbrev pub narrow_ℕ : ℕ → ℕ → Option ℕ
narrow_ℕ top n = if leb n top then some n else none

abbrev pub checked_sub : ℕ → ℕ → Option ℕ
checked_sub a b = if leb b a then some (a - b) else none

-- With these `omega` works over the operations shut.
pub +ℤ_parts :
    (a b : ℤ)
    → pos_part (a +ℤ b) + neg_part a + neg_part b ≡ neg_part (a +ℤ b) + pos_part a + pos_part b
unfolding ◌+ℤ◌
+ℤ_parts a b = ground arith

pub -ℤ_parts :
    (a b : ℤ)
    → pos_part (a -ℤ b) + neg_part a + pos_part b ≡ neg_part (a -ℤ b) + pos_part a + neg_part b
unfolding ◌-ℤ◌
-ℤ_parts a b = ground arith

pub eq_of_parts : (a b : ℤ) → pos_part a + neg_part b ≡ pos_part b + neg_part a → a ≡ b
eq_of_parts a b h = ground arith

pub ruleset int_laws = (arith, +ℤ_parts, -ℤ_parts, eq_of_parts)

pub neg_ℕ-neg_part : (n : ℕ) → (pos_part (neg_ℕ n) ≡ 0) × (neg_part (neg_ℕ n) ≡ n)
neg_ℕ-neg_part zero = (refl, refl)
neg_ℕ-neg_part (suc n) = (refl, refl)

pub abs_ℕ-neg_ℕ : (n : ℕ) → abs_ℕ (neg_ℕ n) ≡ n
abs_ℕ-neg_ℕ zero = refl
abs_ℕ-neg_ℕ (suc n) = refl

pub magnitude-neg_ℕ : (n : ℕ) → magnitude (neg_ℕ n) ≡ n - 1
magnitude-neg_ℕ zero = refl
magnitude-neg_ℕ (suc n) = omega arith

pub magnitude-le-abs_ℕ : (z : ℤ) → magnitude z ≤ abs_ℕ z
magnitude-le-abs_ℕ z = ground arith

pub abs_ℕ-mul : (z : ℤ) (k : ℕ) → abs_ℕ (z *ℤ pos k) ≡ abs_ℕ z * k
unfolding ◌*ℤ◌
abs_ℕ-mul (pos n) k = refl
abs_ℕ-mul (negsuc n) k = abs_ℕ-neg_ℕ (suc n * k)

neg_ℕ-div : (n k : ℕ) → neg_ℕ n /ℤ k ≡ neg_ℕ (n / k)
unfolding ◌/ℤ◌
neg_ℕ-div zero k = rw (zero-div k)
neg_ℕ-div (suc n) k = refl

-- Division takes back an exact multiplication.
pub mul-div_self : (z : ℤ) (k : ℕ) → 0 < k → (z *ℤ pos k) /ℤ k ≡ z
unfolding ◌*ℤ◌ ◌/ℤ◌
mul-div_self (pos n) k h = rw (mul-div_cancel n h)
mul-div_self (negsuc n) k h = rw (neg_ℕ-div (suc n * k) k) (rw (mul-div_cancel (suc n) h))
