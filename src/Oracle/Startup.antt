-- ===== src/Oracle/Startup.antt =====
-- services/oracle/src/lib.rs: what the service makes of its configuration before it serves. The tasks
-- that it spawns are named by the feeds they are given. An `anyhow` error of the engine is kept apart
-- from that of the partition.
use mathlib.Core.Path.{subst}
use testnet_testsuite.Prelude.{
  ℕ, ◌+◌, List, [], map, ◌∷◌, ◌++◌, append_assoc, append-nil, map-append, none, some, inl, inr,
  Result, ok, err, ◌>>=◌, >>=-eq-ok, ok-injective, ok_or, fail_if, ◌≡◌, refl, sym, ap, ◌∙◌, All,
  arith,
}
use testnet_testsuite.Decimal.{Decimal}
use testnet_testsuite.Oracle.Types.{Symbol, InstrumentInfo}
use testnet_testsuite.Oracle.Floats.{Floats}
use testnet_testsuite.Oracle.Spec.{
  InstrumentConfig, resolved_symbol, base_kind_name, transform_kind_name,
}
use testnet_testsuite.Oracle.Config.{
  UnderlyingConfig, PartitionedFeeds, partition_underlyings, named, partition_underlyings-feeds_by,
}
use testnet_testsuite.Oracle.Store.{AppState, fresh_state, get}
use testnet_testsuite.Oracle.Pricing.State.{InstrumentRuntime, Engine}
use testnet_testsuite.Oracle.Pricing.Build.{BuildError, contains, build_base, build_transforms}
use testnet_testsuite.Oracle.Pricing.Engine.{
  Building, register, build_instrument, build_all, from_config,
}
use testnet_testsuite.Oracle.Pricing.Registry.{IsIndexed}
use testnet_testsuite.Oracle.Pricing.Construction.{from_config-IsIndexed}

pub data StartError : Type 0 where
  engine_error : BuildError → StartError
  -- the symbol of an underlying that names no provider or several
  feeds_error : Symbol → StartError

-- `map_err`, for the `?` of either kind.
abbrev into {ℓ} : {E : Type 0} {A : Type ℓ} → (E → StartError) → Result E A → Result StartError A
into f (ok a) = ok a
into f (err e) = err (f e)

into-eq-ok {ℓ} :
    {E : Type 0} {A : Type ℓ} (g : E → StartError) (r : Result E A) {a : A}
    → into g r ≡ ok a
    → r ≡ ok a
into-eq-ok g (ok a) h = ap (λ a. ok a) (ok-injective h)
into-eq-ok g (err e) h = cc

module _ {F : Type 0} where
  -- What the API shows of one instrument.
  unfoldable pub info_of : InstrumentConfig F → Symbol → InstrumentInfo
  info_of i symbol = record {
    symbol = symbol;
    mint = i.mint;
    base = base_kind_name i.base;
    transforms = map transform_kind_name i.transforms;
  }

  -- The `filter_map` over the instruments.
  unfoldable pub registry_of : List (InstrumentConfig F) → List InstrumentInfo
  unfolding info_of
  registry_of [] = []
  registry_of (i ∷ is) = elim (resolved_symbol i) [
    | none ↦ registry_of is
    | some symbol ↦ info_of i symbol ∷ registry_of is
  ]

  registry_of_lem :
      (i : InstrumentConfig F) (is : List (InstrumentConfig F)) (s : Symbol)
      → resolved_symbol i ≡ some s
      → map (λ j. j.symbol) (registry_of (i ∷ is)) ≡ s ∷ map (λ j. j.symbol) (registry_of is)
  unfolding registry_of info_of
  registry_of_lem i is s h = ground arith

module _ {D F R : Type 0} ⦃d : Decimal D⦄ ⦃f : Floats D F R⦄ where
  -- `run`, up to the spawning of its tasks: the engine, the shared state, and the feeds of the tasks.
  unfoldable pub start :
      List UnderlyingConfig
      → List (InstrumentConfig F)
      → Result StartError (Engine D F R × AppState × PartitionedFeeds)
  start underlyings instruments =
      into StartError.engine_error (from_config instruments (map (λ u. u.symbol) underlyings))
      >>= λ engine.
          let state = fresh_state (registry_of instruments) in
          into StartError.feeds_error (partition_underlyings underlyings) >>= λ feeds.
          ok (engine, state, feeds)

  abbrev pub symbols : List (InstrumentRuntime D F R) → List Symbol
  symbols xs = map (λ x. x.symbol) xs

  build_instrument-symbols :
      (known : List Symbol) (idx : ℕ) (cfg : InstrumentConfig F) (b b' : Building D F R)
      → build_instrument known idx cfg b ≡ ok b'
      → (s : Symbol) × (resolved_symbol cfg ≡ some s)
        × (symbols b'.runtimes ≡ symbols b.runtimes ++ s ∷ [])
  unfolding build_instrument register
  build_instrument-symbols known idx cfg b b' h =
      let (s, e1, h1) = >>=-eq-ok (ok_or (resolved_symbol cfg) (BuildError.needs_symbol idx)) _ h in
      let (u, e2, h2) =
        >>=-eq-ok (fail_if (contains s b.seen) (BuildError.duplicate_symbol s)) _ h1 in
      let (base, e3, h3) = >>=-eq-ok (build_base {D = D} {F = F} {R = R} known cfg.base) _ h2 in
      let (ts, e4, h4) = >>=-eq-ok (build_transforms {D = D} {F = F} {R = R} cfg.transforms) _ h3 in
      (
        s,
        ground arith,
        sym (ap (λ (c : Building D F R). symbols c.runtimes) (ok-injective h4))
            ∙ map-append (λ x. x.symbol) b.runtimes _,
      )

  build_all-symbols :
      (known : List Symbol) (idx : ℕ) (cfgs : List (InstrumentConfig F)) (b b' : Building D F R)
      → build_all known idx cfgs b ≡ ok b'
      → symbols b'.runtimes ≡ symbols b.runtimes ++ map (λ i. i.symbol) (registry_of cfgs)
  unfolding build_all registry_of
  build_all-symbols known idx [] b b' h =
      sym (ap (λ (c : Building D F R). symbols c.runtimes) (ok-injective h))
      ∙ sym (append-nil (symbols b.runtimes))
  build_all-symbols known idx (cfg ∷ cfgs) b b' h =
      let (c, e, k) = >>=-eq-ok (build_instrument known idx cfg b) _ h in
      let (s, named, more) = build_instrument-symbols known idx cfg b c e in
      rw (build_all-symbols known (idx + 1) cfgs c b' k, more, registry_of_lem cfg cfgs s named)
        (append_assoc (symbols b.runtimes) (s ∷ []) _)

  from_config-symbols :
      (cfgs : List (InstrumentConfig F)) (known : List Symbol) (eng : Engine D F R)
      → from_config cfgs known ≡ ok eng
      → symbols eng.instruments ≡ map (λ i. i.symbol) (registry_of cfgs)
  unfolding from_config
  from_config-symbols cfgs known eng h =
      let (b, e, k) =
        >>=-eq-ok
          (build_all {D = D} {F = F} {R = R} known 0 cfgs
            (record { runtimes = []; by_feed = []; timed = []; seen = [] }))
          _ h in
      sym (ap (λ (g : Engine D F R). symbols g.instruments) (ok-injective k))
      ∙ build_all-symbols known 0 cfgs _ b e

  -- If the service starts, then its engine is one whose indices are those of its instruments and
  -- whose transforms keep times that are not negative and fit an `i64`, the API's registry lists the symbols of the engine's instruments, all of them and in their order, no
  -- price is known yet, and every underlying names exactly one provider.
  pub start-IsIndexed :
      (underlyings : List UnderlyingConfig) (instruments : List (InstrumentConfig F))
      (r : Engine D F R × AppState × PartitionedFeeds)
      → start underlyings instruments ≡ ok r
      → IsIndexed r.0
        × (map (λ i. i.symbol) r.1.instruments ≡ symbols r.0.instruments)
        × ((s : Symbol) → get r.1 s ≡ none)
        × All (λ u. named u ≡ 1) underlyings
  unfolding start fresh_state get
  start-IsIndexed underlyings instruments r h =
      let known = map (λ u. u.symbol) underlyings in
      let (eng, e1, h1) =
        >>=-eq-ok
          (into StartError.engine_error (from_config {D = D} {F = F} {R = R} instruments known)) _
          h in
      let (feeds, e2, h2) =
        >>=-eq-ok (into StartError.feeds_error (partition_underlyings underlyings)) _ h1 in
      subst
        (λ (q : Engine D F R × AppState × PartitionedFeeds).
          IsIndexed q.0
          × (map (λ i. i.symbol) q.1.instruments ≡ symbols q.0.instruments)
          × ((s : Symbol) → get q.1 s ≡ none)
          × All (λ u. named u ≡ 1) underlyings)
        (ok-injective h2)
        (
          (from_config-IsIndexed instruments known eng (into-eq-ok _ _ e1)).0,
          sym (from_config-symbols instruments known eng (into-eq-ok _ _ e1)),
          λ s. refl,
          elim (partition_underlyings-feeds_by underlyings) [
            | inl (all, e) ↦ all
            | inr (bad, first, e) ↦ cc
          ],
        )
