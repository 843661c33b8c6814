-- ===== src/Oracle/Pricing/Construction.antt =====
-- services/oracle/src/pricing/mod.rs: what `Engine::from_config` guarantees of the engine it builds.
use native.Mathlib.Nat.{zero-add}
use mathlib.Core.Path.{subst}
use testnet_testsuite.Prelude.{
  ℕ, ◌+◌, List, [], ◌∷◌, ◌++◌, inl, inr, true, false, ◌≡◌, ◌≢◌, refl, sym, ap, ◌∙◌, string_eq,
  length, All, All-append, All-map, arith, ok, >>=-eq-ok, ok-injective, Result-cases, ok_or,
  fail_if, fail_if-eq-ok, map,
}
use testnet_testsuite.Prelude.Int.{pos, ◌*ℤ◌}
use testnet_testsuite.Decimal.{Decimal}
use testnet_testsuite.Oracle.Types.{Symbol}
use testnet_testsuite.Oracle.Floats.{Floats}
use testnet_testsuite.Oracle.Spec.{
  BasketLeg, BaseSourceConfig, TransformConfig, InstrumentConfig, resolved_symbol,
}
use testnet_testsuite.Oracle.Pricing.State.{
  BaseState, TransformState, InstrumentRuntime, Engine, feeds_of,
}
use testnet_testsuite.Oracle.Pricing.Build.{
  BuildError, contains, check_feed, listed, feeds_used, build_legs, build_base, build_transform,
  build_transforms,
}
use testnet_testsuite.Oracle.Pricing.Engine.{
  Building, register, build_instrument, build_all, from_config,
}
use testnet_testsuite.Oracle.Pricing.Times.{KeepsTime}
use testnet_testsuite.Oracle.Pricing.Registry.{
  listeners, clocked, IsIndexed, listeners-append, clocked-append, listed-push_feeds,
}

abbrev pub IsKnown : List Symbol → Symbol → Type 0
IsKnown known s = contains s known ≡ true

check_feed-IsKnown :
    (known : List Symbol) (s : Symbol) {u : Unit {0}} → check_feed known s ≡ ok u → IsKnown known s
unfolding check_feed
check_feed-IsKnown known s h = ground arith

module _ {D : Type 0} ⦃d : Decimal D⦄ where
  build_legs_lem :
      (known : List Symbol) (legs : List BasketLeg) (ps : List (Symbol × D))
      → build_legs known legs ≡ ok ps
      → (map (λ p. p.0) ps ≡ map (λ l. l.feed) legs) × All (IsKnown known) (map (λ p. p.0) ps)
  unfolding build_legs
  build_legs_lem known [] ps h = ground arith
  build_legs_lem known (leg ∷ legs) ps h = elim (Result-cases (build_legs {D = D} known legs)) [
    | inl (rest, e) ↦ ground (arith, build_legs_lem known legs rest e)
    | inr (x, e) ↦ ground arith
  ]

module _ {D F R : Type 0} ⦃d : Decimal D⦄ ⦃f : Floats D F R⦄ where
  build_base_lem :
      (known : List Symbol) (cfg : BaseSourceConfig) (b : BaseState D F R)
      → build_base known cfg ≡ ok b
      → (feeds_of b ≡ feeds_used cfg) × All (IsKnown known) (feeds_of b)
  unfolding build_base feeds_used
  build_base_lem known (BaseSourceConfig.underlying feed) b h = ground arith
  build_base_lem known (BaseSourceConfig.cross base quote) b h = ground arith
  build_base_lem known (BaseSourceConfig.basket legs rebase) b h =
      elim (Result-cases (build_legs {D = D} known legs)) [
        | inl (ps, e) ↦ ground (arith, build_legs_lem known legs ps e)
        | inr (x, e) ↦ ground arith
      ]
  build_base_lem known (BaseSourceConfig.peg target) b h = ground arith
  build_base_lem known (BaseSourceConfig.gbm i v dr s t) b h = ground arith

  build_transform-KeepsTime :
      (cfg : TransformConfig F) (t : TransformState D F R)
      → build_transform cfg ≡ ok t
      → KeepsTime t
  unfolding build_transform ◌*ℤ◌
  build_transform-KeepsTime (TransformConfig.scale factor offset) t h = ground arith
  build_transform-KeepsTime TransformConfig.invert t h = ground arith
  build_transform-KeepsTime (TransformConfig.beta beta anchor initial) t h = ground arith
  build_transform-KeepsTime (TransformConfig.lag ms) t h = ground arith
  build_transform-KeepsTime (TransformConfig.noise s l seed) t h = ground arith

  build_transforms-KeepsTime :
      (cfgs : List (TransformConfig F)) (ts : List (TransformState D F R))
      → build_transforms cfgs ≡ ok ts
      → All KeepsTime ts
  unfolding build_transforms
  build_transforms-KeepsTime [] ts h = subst (All KeepsTime) (ok-injective h) tt
  build_transforms-KeepsTime (cfg ∷ cfgs) ts h =
      let (t, e, h1) = >>=-eq-ok (build_transform {D = D} {F = F} {R = R} cfg) _ h in
      let (rest, e2, h2) = >>=-eq-ok (build_transforms {D = D} {F = F} {R = R} cfgs) _ h1 in
      subst (All KeepsTime) (ok-injective h2)
        (build_transform-KeepsTime cfg t e, build_transforms-KeepsTime cfgs rest e2)

  -- The symbols of the instruments differ pairwise.
  abbrev pub Distinct : List (InstrumentRuntime D F R) → Type 0
  Distinct [] = Unit
  Distinct (x ∷ xs) = All (λ y. y.symbol ≢ x.symbol) xs × Distinct xs

  Distinct-append :
      (xs : List (InstrumentRuntime D F R)) (x : InstrumentRuntime D F R)
      → Distinct xs
      → All (λ y. y.symbol ≢ x.symbol) xs
      → Distinct (xs ++ x ∷ [])
  Distinct-append [] x h k = (tt, tt)
  Distinct-append (y ∷ xs) x h k =
      (All-append _ xs (x ∷ []) h.0 (λ e. k.0 (sym e), tt), Distinct-append xs x h.1 k.1)

  -- What holds in every round of the loop of `from_config`.
  record IsBuilding (known : List Symbol) (b : Building D F R) : Type 0 where
    feeds_indexed : (s : Symbol) → listed s b.by_feed ≡ listeners s 0 b.runtimes
    clock_indexed : b.timed ≡ clocked 0 b.runtimes
    known_feeds : All (λ x. All (IsKnown known) (feeds_of x.base)) b.runtimes
    all_seen : All (λ x. contains x.symbol b.seen ≡ true) b.runtimes
    distinct : Distinct b.runtimes
    times_fit : All (λ x. All KeepsTime x.transforms) b.runtimes

  contains_ne :
      (s : Symbol) (seen : List Symbol) (xs : List (InstrumentRuntime D F R))
      → contains s seen ≡ false
      → All (λ x. contains x.symbol seen ≡ true) xs
      → All (λ x. x.symbol ≢ s) xs
  contains_ne s seen xs h k = All-map _ _ xs (λ x c e. cc (ap (λ t. contains t seen) e)) k

  register-IsBuilding :
      (known : List Symbol) (b : Building D F R) (x : InstrumentRuntime D F R)
      → IsBuilding known b
      → contains x.symbol b.seen ≡ false
      → All (IsKnown known) (feeds_of x.base)
      → All KeepsTime x.transforms
      → IsBuilding known (register b x (feeds_of x.base))
  unfolding register
  register-IsBuilding known b x v new k times = record {
    feeds_indexed = λ s.
        rw
          (
            listed-push_feeds s (feeds_of x.base) (length b.runtimes) b.by_feed,
            v.feeds_indexed s,
            listeners-append s 0 b.runtimes x,
          )
          (rw zero-add);
    clock_indexed =
        ground
          (arith, clocked-append 0 b.runtimes x, zero-add (length b.runtimes), v.clock_indexed);
    known_feeds = All-append _ b.runtimes (x ∷ []) v.known_feeds (k, tt);
    all_seen =
        All-append _ b.runtimes (x ∷ []) (All-map _ _ b.runtimes (λ y h. ground arith) v.all_seen)
          (ground (arith, string_eq.beq_iff x.symbol x.symbol), tt);
    distinct =
        Distinct-append b.runtimes x v.distinct
          (contains_ne x.symbol b.seen b.runtimes new v.all_seen);
    times_fit = All-append _ b.runtimes (x ∷ []) v.times_fit (times, tt);
  }

  build_instrument-IsBuilding :
      (known : List Symbol) (idx : ℕ) (cfg : InstrumentConfig F) (b b' : Building D F R)
      → IsBuilding known b
      → build_instrument known idx cfg b ≡ ok b'
      → IsBuilding known b'
  unfolding build_instrument
  build_instrument-IsBuilding known idx cfg b b' v h =
      let (s, e1, h1) = >>=-eq-ok (ok_or (resolved_symbol cfg) (BuildError.needs_symbol idx)) _ h in
      let (u, e2, h2) =
        >>=-eq-ok (fail_if (contains s b.seen) (BuildError.duplicate_symbol s)) _ h1 in
      let (base, e3, h3) = >>=-eq-ok (build_base {D = D} {F = F} {R = R} known cfg.base) _ h2 in
      let (ts, e4, h4) = >>=-eq-ok (build_transforms {D = D} {F = F} {R = R} cfg.transforms) _ h3 in
      let (same, fit) = build_base_lem known cfg.base base e3 in
      let x : InstrumentRuntime D F R = record {
        symbol = s;
        expo = cfg.expo;
        base = base;
        transforms = ts;
        next_due_us = pos 0;
      } in
      let times = build_transforms-KeepsTime cfg.transforms ts e4 in
      let done = register-IsBuilding known b x v (fail_if-eq-ok _ _ e2) fit times in
      subst (IsBuilding known) (ap (register b x) same ∙ ok-injective h4) done

  build_all-IsBuilding :
      (known : List Symbol) (idx : ℕ) (cfgs : List (InstrumentConfig F)) (b b' : Building D F R)
      → IsBuilding known b
      → build_all known idx cfgs b ≡ ok b'
      → IsBuilding known b'
  unfolding build_all
  build_all-IsBuilding known idx [] b b' v h = subst (IsBuilding known) (ok-injective h) v
  build_all-IsBuilding known idx (cfg ∷ cfgs) b b' v h =
      let (c, e, k) = >>=-eq-ok (build_instrument known idx cfg b) _ h in
      build_all-IsBuilding known (idx + 1) cfgs c b'
        (build_instrument-IsBuilding known idx cfg b c v e) k

  -- If `from_config` builds an engine, then: under each feed `by_feed` lists exactly the
  -- instruments whose base reads it, in order and as often as it is read; `timed` lists exactly the
  -- instruments that the clock drives, in order; every feed that is read is a configured
  -- underlying; no two instruments share a symbol; the span of each lag fits an `i64` and is not
  -- negative.
  pub from_config-IsIndexed :
      (cfgs : List (InstrumentConfig F)) (known : List Symbol) (eng : Engine D F R)
      → from_config cfgs known ≡ ok eng
      → IsIndexed eng
        × All (λ x. All (IsKnown known) (feeds_of x.base)) eng.instruments
        × Distinct eng.instruments
  unfolding from_config
  from_config-IsIndexed cfgs known eng h =
      let (b, e, k) =
        >>=-eq-ok
          (build_all {D = D} {F = F} {R = R} known 0 cfgs
            (record { runtimes = []; by_feed = []; timed = []; seen = [] }))
          _ h in
      let v =
        build_all-IsBuilding known 0 cfgs _ b
          (record {
            feeds_indexed = λ s. refl;
            clock_indexed = refl;
            known_feeds = tt;
            all_seen = tt;
            distinct = tt;
            times_fit = tt;
          })
          e in
      subst
        (λ (g : Engine D F R).
          IsIndexed g
          × All (λ x. All (IsKnown known) (feeds_of x.base)) g.instruments
          × Distinct g.instruments)
        (ok-injective k)
        (
          record {
            feeds_indexed = v.feeds_indexed;
            clock_indexed = v.clock_indexed;
            times_fit = v.times_fit;
          },
          v.known_feeds,
          v.distinct,
        )
