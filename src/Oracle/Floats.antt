-- ===== src/Oracle/Floats.antt =====
-- What the generators use of `f64`, of the conversions between `f64` and `Decimal`, and of the
-- seeded random numbers (`ChaCha8Rng` with `StandardNormal`): a parameter of the model.
use testnet_testsuite.Prelude.{ℕ, Option, Bool}
use testnet_testsuite.Prelude.Int.{ℤ}

pub record Floats (D F R : Type 0) : Type 0 where
  pub to_f64 : D → Option F
  pub from_f64 : F → Option D
  -- `as f64` and `f64::from`.
  pub of_int : ℤ → F
  pub half : F
  pub ln_2 : F
  pub add : F → F → F
  pub sub : F → F → F
  pub mul : F → F → F
  pub div : F → F → F
  pub exp : F → F
  pub sqrt : F → F
  pub powf : F → F → F
  pub le : F → F → Bool
  pub seed_from_u64 : ℕ → R
  pub sample : R → F × R
