-- ===== src/Oracle/Pricing/Shape.antt =====
-- services/oracle/src/pricing/mod.rs: an evaluation changes the generators and buffers of an
-- instrument, and not what it is registered under.
use mathlib.Core.Path.{subst}
use mathlib.Core.Option.{some-injective}
use testnet_testsuite.Prelude.{
  ℕ, zero, suc, ◌*◌, List, [], ◌∷◌, some, ◌≡◌, refl, sym, ap, ◌∙◌, length, get_elem?, set, All,
}
use testnet_testsuite.Oracle.Types.{Symbol}
use testnet_testsuite.Oracle.Pricing.State.{
  BaseState, InstrumentRuntime, Engine, feeds_of, is_clock_driven,
}
use testnet_testsuite.Oracle.Pricing.Times.{KeepsTime}
use testnet_testsuite.Oracle.Pricing.Registry.{listeners, clocked, IsIndexed}

module _ {D F R : Type 0} where
  -- The microseconds between two turns of an instrument that the clock drives.
  abbrev pub wait_us : BaseState D F R → ℕ
  wait_us (BaseState.gbm _ _ _ tick_ms _) = tick_ms * 1000
  wait_us _ = 1_000_000

  pub record IsSame (x y : InstrumentRuntime D F R) : Type 0 where
    pub feeds_same : feeds_of y.base ≡ feeds_of x.base
    pub clock_same : is_clock_driven y.base ≡ is_clock_driven x.base
    pub wait_same : wait_us y.base ≡ wait_us x.base
    pub symbol_same : y.symbol ≡ x.symbol
    pub expo_same : y.expo ≡ x.expo

  -- Two lists of instruments that agree, place by place, on all but their evaluation state.
  abbrev pub SameShape : List (InstrumentRuntime D F R) → List (InstrumentRuntime D F R) → Type 0
  SameShape [] [] = Unit
  SameShape (x ∷ xs) (y ∷ ys) = IsSame x y × SameShape xs ys
  SameShape _ _ = ⊥

  pub SameShape-refl : (xs : List (InstrumentRuntime D F R)) → SameShape xs xs
  SameShape-refl [] = tt
  SameShape-refl (x ∷ xs) = (
    record {
      feeds_same = refl;
      clock_same = refl;
      wait_same = refl;
      symbol_same = refl;
      expo_same = refl;
    },
    SameShape-refl xs,
  )

  IsSame-trans : (x y z : InstrumentRuntime D F R) → IsSame x y → IsSame y z → IsSame x z
  IsSame-trans x y z p q = record {
    feeds_same = q.feeds_same ∙ p.feeds_same;
    clock_same = q.clock_same ∙ p.clock_same;
    wait_same = q.wait_same ∙ p.wait_same;
    symbol_same = q.symbol_same ∙ p.symbol_same;
    expo_same = q.expo_same ∙ p.expo_same;
  }

  pub SameShape-trans :
      (xs ys zs : List (InstrumentRuntime D F R))
      → SameShape xs ys
      → SameShape ys zs
      → SameShape xs zs
  SameShape-trans [] [] [] p q = tt
  SameShape-trans [] (y ∷ ys) zs p q = absurd p
  SameShape-trans [] [] (z ∷ zs) p q = absurd q
  SameShape-trans (x ∷ xs) [] zs p q = absurd p
  SameShape-trans (x ∷ xs) (y ∷ ys) [] p q = absurd q
  SameShape-trans (x ∷ xs) (y ∷ ys) (z ∷ zs) p q =
      (IsSame-trans x y z p.0 q.0, SameShape-trans xs ys zs p.1 q.1)

  pub SameShape-set :
      (xs : List (InstrumentRuntime D F R)) (i : ℕ) (x y : InstrumentRuntime D F R)
      → get_elem? xs i ≡ some x
      → IsSame x y
      → SameShape xs (set xs i y)
  SameShape-set [] i x y e s = tt
  SameShape-set (z ∷ xs) zero x y e s =
      (subst (λ w. IsSame w y) (sym (some-injective _ _ e)) s, SameShape-refl xs)
  SameShape-set (z ∷ xs) (suc i) x y e s = ((SameShape-refl (z ∷ [])).0, SameShape-set xs i x y e s)

  pub SameShape-length :
      (xs ys : List (InstrumentRuntime D F R)) → SameShape xs ys → length ys ≡ length xs
  SameShape-length [] [] p = refl
  SameShape-length [] (y ∷ ys) p = absurd p
  SameShape-length (x ∷ xs) [] p = absurd p
  SameShape-length (x ∷ xs) (y ∷ ys) p = ap suc (SameShape-length xs ys p.1)

  SameShape-listeners :
      (s : Symbol) (start : ℕ) (xs ys : List (InstrumentRuntime D F R))
      → SameShape xs ys
      → listeners s start ys ≡ listeners s start xs
  SameShape-listeners s start [] [] p = refl
  SameShape-listeners s start [] (y ∷ ys) p = absurd p
  SameShape-listeners s start (x ∷ xs) [] p = absurd p
  SameShape-listeners s start (x ∷ xs) (y ∷ ys) p =
      rw (p.0.feeds_same, SameShape-listeners s (suc start) xs ys p.1)

  SameShape-clocked :
      (start : ℕ) (xs ys : List (InstrumentRuntime D F R))
      → SameShape xs ys
      → clocked start ys ≡ clocked start xs
  SameShape-clocked start [] [] p = refl
  SameShape-clocked start [] (y ∷ ys) p = absurd p
  SameShape-clocked start (x ∷ xs) [] p = absurd p
  SameShape-clocked start (x ∷ xs) (y ∷ ys) p =
      rw (p.0.clock_same, SameShape-clocked (suc start) xs ys p.1)

  pub SameShape-IsIndexed :
      (eng eng' : Engine D F R)
      → IsIndexed eng
      → eng'.by_feed ≡ eng.by_feed
      → eng'.timed ≡ eng.timed
      → SameShape eng.instruments eng'.instruments
      → All (λ x. All KeepsTime x.transforms) eng'.instruments
      → IsIndexed eng'
  SameShape-IsIndexed eng eng' v f t p times = record {
    feeds_indexed =
        λ s. rw (f, v.feeds_indexed s, SameShape-listeners s 0 eng.instruments eng'.instruments p);
    clock_indexed = rw (t, v.clock_indexed, SameShape-clocked 0 eng.instruments eng'.instruments p);
    times_fit = times;
  }
