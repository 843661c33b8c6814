-- ===== src/Oracle/Pricing/Eval.antt =====
-- services/oracle/src/pricing/mod.rs: `eval` and what it calls. A function returns the state that it
-- has written together with its result, since a write stays when a later step returns `None`.
-- `none` is the panic of a difference of two times that does not fit an `i64`.
use testnet_testsuite.Prelude.{
  List, [], ◌∷◌, ◌++◌, Option, none, some, true, false, and_then, to_option, if◌then◌else◌,
  map_option, string_eq,
}
use testnet_testsuite.Prelude.Int.{ℤ, pos, ◌-ℤ◌, leb_ℤ, min_ℤ, max_ℤ, narrow, half_i64}
use testnet_testsuite.Prelude.Dict.{Dict, lookup}
use testnet_testsuite.Decimal.{Decimal}
use testnet_testsuite.Math.Price.{from_decimal}
use testnet_testsuite.Oracle.Types.{Symbol, PriceData, PriceSource, PricePoint}
use testnet_testsuite.Oracle.Floats.{Floats}
use testnet_testsuite.Oracle.Pricing.State.{
  Snapshot, EvalCtx, BaseState, LagSample, TransformState, InstrumentRuntime,
}

unfoldable pub older : Option ℤ → Option ℤ → Option ℤ
older (some a) (some b) = some (min_ℤ a b)
older x none = x
older none x = x

module _ {D : Type 0} ⦃d : Decimal D⦄ where
  -- `Iterator::max` keeps the later of two equal values.
  abbrev pub larger : D → D → D
  larger a b = if d.le a b then b else a

  max_from : D → List (Option D) → D
  max_from best [] = best
  max_from best (none ∷ rs) = max_from best rs
  max_from best (some r ∷ rs) = max_from (larger best r) rs

  unfoldable pub max_conf_ratio : List (Option D) → Option D
  unfolding max_from
  max_conf_ratio [] = none
  max_conf_ratio (none ∷ rs) = max_conf_ratio rs
  max_conf_ratio (some r ∷ rs) = some (max_from r rs)

  -- The loop over the legs of a basket: the weighted sum, the ratios and the oldest time.
  unfoldable pub sum_legs :
      Dict Symbol (Snapshot D)
      → List (Symbol × D)
      → D
      → List (Option D)
      → Option ℤ
      → Option (D × List (Option D) × Option ℤ)
  sum_legs latest [] sum ratios publish = some (sum, ratios, publish)
  sum_legs latest ((feed, weight) ∷ legs) sum ratios publish = and_then (lookup feed latest) λ snap.
      and_then (and_then (d.checked_mul snap.value weight) (d.checked_add sum)) λ sum'.
        sum_legs latest legs sum' (ratios ++ snap.conf_ratio ∷ [])
          (older publish snap.publish_time_us)

  -- The factor of a basket: the one that is kept, or else the one that the first sum gives.
  unfoldable pub basket_factor : Option D → Option D → D → Option D
  basket_factor rebase (some f) sum = some f
  basket_factor (some target) none sum = d.checked_div target sum
  basket_factor none none sum = some d.unit

  -- The loop of a lag: it drops the samples up to the cutoff, and keeps the last of them.
  unfoldable pub take_due :
      ℤ → List (LagSample D) → Option (LagSample D) → Option (LagSample D) × List (LagSample D)
  take_due cutoff [] chosen = (chosen, [])
  take_due cutoff (s ∷ buf) chosen =
      let rest = take_due cutoff buf (some s) in
      if leb_ℤ s.at_us cutoff then rest else (chosen, s ∷ buf)

  abbrev synthetic : D → Option D → Option ℤ → EvalCtx D
  synthetic v c t = record {
    value = v;
    conf_ratio = c;
    publish_time_us = t;
    slot = none;
    source = PriceSource.derived;
    is_derived = true;
  }

  -- `EvalCtx { value, derived: true, ..ctx }`.
  abbrev revalued : EvalCtx D → D → EvalCtx D
  revalued ctx v = record ctx { value = v; is_derived = true }

  -- The point that a context becomes: quantised at the instrument's exponent.
  unfoldable pub to_point : Symbol → ℤ → EvalCtx D → ℤ → Option PricePoint
  to_point symbol expo ctx now =
      map_option
        (λ price. record {
          symbol = symbol;
          body =
              PriceData.aggregate price
                (and_then (and_then ctx.conf_ratio (d.checked_mul ctx.value))
                  (λ c. to_option (from_decimal c expo)))
                none;
          publish_time_us = ctx.publish_time_us;
          received_at_us = now;
          slot = ctx.slot;
          source = if ctx.is_derived then PriceSource.derived else ctx.source;
        })
        (to_option (from_decimal ctx.value expo))

-- `now_us - t`, which is checked.
unfoldable pub time_since : ℤ → ℤ → Option ℤ
unfolding ◌-ℤ◌
time_since now t = narrow half_i64 (now -ℤ t)

-- The time since the last turn, if there was one.
unfoldable pub elapsed : Option ℤ → ℤ → Option (Option ℤ)
unfolding time_since
elapsed none now = some none
elapsed (some last) now = map_option (λ dt. some dt) (time_since now last)

-- The new deviation of a noise transform, from the time that has elapsed and a normal sample.
deviation : {D F R : Type 0} → Floats D F R → F → F → F → Option ℤ → F → F
deviation f sigma halflife x none z = f.mul sigma z
deviation f sigma halflife x (some since) z =
    let dt = f.of_int (max_ℤ since (pos 0)) in
    let tau = f.div halflife f.ln_2 in
    let a = f.exp (f.div (f.sub (f.of_int (pos 0)) dt) tau) in
    f.add (f.mul x a) (f.mul (f.mul sigma (f.sqrt (f.sub (f.of_int (pos 1)) (f.mul a a)))) z)

module _ {D F R : Type 0} ⦃d : Decimal D⦄ ⦃f : Floats D F R⦄ where
  unfoldable pub eval_base :
      BaseState D F R → Dict Symbol (Snapshot D) → ℤ → BaseState D F R × Option (EvalCtx D)
  unfolding sum_legs basket_factor older max_conf_ratio
  eval_base (BaseState.underlying feed) latest now = (
    BaseState.underlying feed,
    map_option
        (λ snap. record {
          value = snap.value;
          conf_ratio = snap.conf_ratio;
          publish_time_us = snap.publish_time_us;
          slot = snap.slot;
          source = snap.source;
          is_derived = false;
        })
        (lookup feed latest),
  )
  eval_base (BaseState.cross base quote) latest now = (
    BaseState.cross base quote,
    and_then (lookup base latest) λ b. and_then (lookup quote latest) λ q.
        map_option
          (λ v. record {
            value = v;
            conf_ratio = max_conf_ratio (b.conf_ratio ∷ q.conf_ratio ∷ []);
            publish_time_us = older b.publish_time_us q.publish_time_us;
            slot = none;
            source = b.source;
            is_derived = true;
          })
          (d.checked_div b.value q.value),
  )
  eval_base (BaseState.basket legs rebase factor) latest now =
      elim (sum_legs latest legs d.nought [] none) [
        | none ↦ (BaseState.basket legs rebase factor, none)
        | some (sum, ratios, publish) ↦ elim (basket_factor rebase factor sum) [
          | none ↦ (BaseState.basket legs rebase factor, none)
          | some k ↦ (
            BaseState.basket legs rebase (some k),
            map_option (λ v. synthetic v (max_conf_ratio ratios) publish) (d.checked_mul sum k),
          )
        ]
      ]
  eval_base (BaseState.peg target) latest now =
      (BaseState.peg target, some (synthetic target none (some now)))
  eval_base (BaseState.gbm price sigma drift tick_ms rng) latest now =
      let dt_days = f.div (f.of_int (pos tick_ms)) (f.of_int (pos 86_400_000)) in
      let (z, rng') = f.sample rng in
      let step = f.exp (
        f.add (f.mul (f.sub drift (f.mul (f.mul f.half sigma) sigma)) dt_days)
          (f.mul (f.mul sigma (f.sqrt dt_days)) z)) in
      let price' = f.mul price step in
      (
        BaseState.gbm price' sigma drift tick_ms rng',
        and_then (f.from_f64 price') λ value.
            map_option (λ conf. synthetic value (some conf) (some now))
              (f.from_f64 (f.mul sigma (f.sqrt dt_days))),
      )

  unfoldable pub apply_transform :
      TransformState D F R → EvalCtx D → ℤ → Option (TransformState D F R × Option (EvalCtx D))
  unfolding take_due deviation time_since elapsed
  apply_transform (TransformState.scale factor offset) ctx now = some (
    TransformState.scale factor offset,
    map_option (revalued ctx)
        (and_then (d.checked_mul ctx.value factor) (λ v. d.checked_add v offset)),
  )
  apply_transform TransformState.invert ctx now =
      some (TransformState.invert, map_option (revalued ctx) (d.checked_div d.unit ctx.value))
  apply_transform (TransformState.beta b anchor initial) ctx now = some (
    TransformState.beta b anchor initial,
    and_then (f.to_f64 ctx.value) λ v.
        let ratio = f.div v anchor in
        if f.le ratio (f.of_int (pos 0))
        then none
        else map_option (revalued ctx) (f.from_f64 (f.mul initial (f.powf ratio b))),
  )
  apply_transform (TransformState.lag us buf) ctx now =
      let sample : LagSample D = record { at_us = now; ctx = ctx } in
      map_option
        (λ cutoff.
          let (chosen, buf') = take_due cutoff (buf ++ sample ∷ []) none in
          (
            TransformState.lag us buf',
            map_option (λ s. record (s.ctx) { is_derived = true }) chosen,
          ))
        (time_since now us)
  apply_transform (TransformState.noise sigma halflife x last rng) ctx now =
      let (z, rng') = f.sample rng in
      map_option
        (λ since.
          let x' = deviation f sigma halflife x since z in
          (
            TransformState.noise sigma halflife x' (some now) rng',
            map_option (revalued ctx) (and_then (f.from_f64 (f.exp x')) (d.checked_mul ctx.value)),
          ))
        (elapsed last now)

  -- The loop over the transforms: it stops at the first that gives nothing.
  unfoldable pub run_transforms :
      List (TransformState D F R)
      → EvalCtx D
      → ℤ
      → Option (List (TransformState D F R) × Option (EvalCtx D))
  run_transforms [] ctx now = some ([], some ctx)
  run_transforms (t ∷ ts) ctx now = and_then (apply_transform t ctx now) λ s. elim s.1 [
    | none ↦ some (s.0 ∷ ts, none)
    | some c ↦ map_option (λ r. (s.0 ∷ r.0, r.1)) (run_transforms ts c now)
  ]

  unfoldable pub eval :
      InstrumentRuntime D F R
      → Dict Symbol (Snapshot D)
      → ℤ
      → Option (InstrumentRuntime D F R × Option PricePoint)
  unfolding to_point
  eval inst latest now =
      let (base', r) = eval_base inst.base latest now in
      elim r [
        | none ↦ some (record inst { base = base' }, none)
        | some ctx ↦
            map_option
              (λ t. (
                record inst { base = base'; transforms = t.0 },
                and_then t.1 (λ c. to_point inst.symbol inst.expo c now),
              ))
              (run_transforms inst.transforms ctx now)
      ]
