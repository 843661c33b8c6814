-- ===== src/Oracle/Pricing/Times.antt =====
-- services/oracle/src/pricing/mod.rs: the times that the transforms keep. `now_us` is a time of the
-- system's clock, in microseconds from 1970 on: neither it nor a lag is negative.
use testnet_testsuite.Prelude.{
  ℕ, ◌<◌, List, [], ◌∷◌, Option, none, some, ◌≡◌, refl, ap, All, map_option, arith,
}
use testnet_testsuite.Prelude.Int.{ℤ, pos, negsuc, ◌-ℤ◌, half_i64}
use testnet_testsuite.Decimal.{Decimal}
use testnet_testsuite.Oracle.Floats.{Floats}
use testnet_testsuite.Oracle.Pricing.State.{EvalCtx, TransformState}
use testnet_testsuite.Oracle.Pricing.Eval.{time_since, elapsed, apply_transform, run_transforms}

-- A time or a span that is not negative and fits an `i64`.
abbrev pub IsTime : ℤ → Type 0
IsTime (pos n) = n < half_i64
IsTime (negsuc n) = ⊥

abbrev pub IsLastTime : Option ℤ → Type 0
IsLastTime none = Unit
IsLastTime (some t) = IsTime t

time_since-IsTime :
    (now : ℕ) (t : ℤ) → now < half_i64 → IsTime t → time_since (pos now) t ≡ some (pos now -ℤ t)
unfolding time_since ◌-ℤ◌
time_since-IsTime now (pos t) h k = ground arith
time_since-IsTime now (negsuc t) h k = absurd k

elapsed-IsTime :
    (last : Option ℤ) (now : ℕ)
    → now < half_i64
    → IsLastTime last
    → (since : Option ℤ) × (elapsed last (pos now) ≡ some since)
unfolding elapsed
elapsed-IsTime none now h k = (none, refl)
elapsed-IsTime (some t) now h k = (some (pos now -ℤ t), rw (time_since-IsTime now t h k) refl)

module _ {D F R : Type 0} where
  -- The span of a lag, and the last turn of a noise.
  abbrev pub KeepsTime : TransformState D F R → Type 0
  KeepsTime (TransformState.lag us buf) = IsTime us
  KeepsTime (TransformState.noise sigma halflife x last rng) = IsLastTime last
  KeepsTime _ = Unit

module _ {D F R : Type 0} ⦃d : Decimal D⦄ ⦃f : Floats D F R⦄ where
  apply_transform-KeepsTime :
      (t : TransformState D F R) (ctx : EvalCtx D) (now : ℕ)
      → now < half_i64
      → KeepsTime t
      → (s : TransformState D F R × Option (EvalCtx D)) × (apply_transform t ctx (pos now) ≡ some s)
        × KeepsTime s.0
  unfolding apply_transform
  apply_transform-KeepsTime (TransformState.scale factor offset) ctx now h k = (_, refl, tt)
  apply_transform-KeepsTime TransformState.invert ctx now h k = (_, refl, tt)
  apply_transform-KeepsTime (TransformState.beta b anchor initial) ctx now h k = (_, refl, tt)
  apply_transform-KeepsTime (TransformState.lag us buf) ctx now h k =
      (_, ap (map_option _) (time_since-IsTime now us h k), k)
  apply_transform-KeepsTime (TransformState.noise sigma halflife x last rng) ctx now h k =
      let (since, e) = elapsed-IsTime last now h k in (_, ap (map_option _) e, h)

  -- The transforms make no panic, and keep times again.
  abbrev pub KeepsTimes : List (TransformState D F R) → EvalCtx D → ℕ → Type 0
  KeepsTimes ts ctx now =
      (r : List (TransformState D F R) × Option (EvalCtx D)) × (run_transforms ts ctx (pos now)
        ≡ some r)
      × All KeepsTime r.0

  cons-KeepsTimes :
      (t t' : TransformState D F R) (ts : List (TransformState D F R)) (ctx : EvalCtx D) (now : ℕ)
      (out : Option (EvalCtx D))
      → apply_transform t ctx (pos now) ≡ some (t', out)
      → KeepsTime t'
      → All KeepsTime ts
      → ((c : EvalCtx D) → KeepsTimes ts c now)
      → KeepsTimes (t ∷ ts) ctx now
  unfolding run_transforms
  cons-KeepsTimes t t' ts ctx now none e k rest more = ((t' ∷ ts, none), rw e refl, (k, rest))
  cons-KeepsTimes t t' ts ctx now (some c) e k rest more =
      let (r, e', k') = more c in ((t' ∷ r.0, r.1), rw (e, e') refl, (k, k'))

  pub run_transforms-KeepsTimes :
      (ts : List (TransformState D F R)) (ctx : EvalCtx D) (now : ℕ)
      → now < half_i64
      → All KeepsTime ts
      → KeepsTimes ts ctx now
  unfolding run_transforms
  run_transforms-KeepsTimes [] ctx now h k = (([], some ctx), refl, tt)
  run_transforms-KeepsTimes (t ∷ ts) ctx now h k =
      let (s, e, k') = apply_transform-KeepsTime t ctx now h k.0 in
      cons-KeepsTimes t s.0 ts ctx now s.1 e k' k.1 (λ c. run_transforms-KeepsTimes ts c now h k.1)
