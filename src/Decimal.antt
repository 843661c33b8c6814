-- ===== src/Decimal.antt =====
-- `rust_decimal::Decimal`, a crate that the sources only call: a type and the operations that they
-- use of it, as a parameter of the model. An operation that can fail returns an `Option`, as the
-- crate's `checked_` operations and conversions do.
use testnet_testsuite.Prelude.{ℕ, String, Bool, Option}
use testnet_testsuite.Prelude.Int.{ℤ}

pub record Decimal (D : Type 0) : Type 0 where
  -- `ZERO`, `ONE`, `TWO` and `TEN`.
  pub nought : D
  pub unit : D
  pub two : D
  pub ten : D
  pub try_from_i128_with_scale : ℤ → ℕ → Option D
  pub from_u128 : ℕ → Option D
  pub from_u64 : ℕ → D
  pub parse : String → Option D
  pub checked_add : D → D → Option D
  pub checked_sub : D → D → Option D
  pub checked_mul : D → D → Option D
  pub checked_div : D → D → Option D
  pub abs : D → D
  pub round : D → D
  pub floor : D → D
  pub fract : D → D
  pub sqrt : D → Option D
  pub to_i128 : D → Option ℤ
  pub to_u64 : D → Option ℕ
  pub to_u128 : D → Option ℕ
  pub le : D → D → Bool
  pub eq : D → D → Bool
