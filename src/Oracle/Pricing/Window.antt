-- ===== src/Oracle/Pricing/Window.antt =====
-- services/oracle/src/pricing/mod.rs: the window of a lag, the anchor of a basket, and what a base
-- reads.
use mathlib.Core.Path.{fun_ext}
use testnet_testsuite.Prelude.{
  List, [], ◌∷◌, ◌++◌, Option, none, some, Option-cases, Bool-cases, inl, inr, true, ◌≡◌, ◌⊎◌, refl,
  sym, ◌∙◌, ◌<◌, lt→ltb, ap, All, All-map, All-append, and_then, map_option, map, arith, string_eq,
}
use testnet_testsuite.Prelude.Int.{ℤ, ◌-ℤ◌, ◌≤ℤ◌, ◌<ℤ◌, leb_ℤ, magnitude, half_i64}
use testnet_testsuite.Prelude.Dict.{Dict, lookup}
use testnet_testsuite.Decimal.{Decimal}
use testnet_testsuite.Oracle.Types.{Symbol, PriceSource}
use testnet_testsuite.Oracle.Floats.{Floats}
use testnet_testsuite.Oracle.Pricing.State.{
  Snapshot, EvalCtx, BaseState, LagSample, TransformState, feeds_of,
}
use testnet_testsuite.Oracle.Pricing.Eval.{
  eval_base, sum_legs, basket_factor, take_due, apply_transform, older, time_since,
}

module _ {D : Type 0} ⦃d : Decimal D⦄ where
  -- Samples in the order of their times.
  abbrev pub IsAscending : List (LagSample D) → Type 0
  IsAscending [] = Unit
  IsAscending (s ∷ buf) = All (λ t. s.at_us ≤ℤ t.at_us) buf × IsAscending buf

  -- The last sample, or else the one given.
  abbrev pub last_or : Option (LagSample D) → List (LagSample D) → Option (LagSample D)
  last_or chosen [] = chosen
  last_or chosen (s ∷ buf) = last_or (some s) buf

  take_due_lem :
      (cutoff : ℤ) (buf : List (LagSample D)) (chosen : Option (LagSample D))
      → IsAscending buf
      → (taken : List (LagSample D)) × (kept : List (LagSample D)) × (buf ≡ taken ++ kept)
        × All (λ s. s.at_us ≤ℤ cutoff) taken
        × All (λ s. cutoff <ℤ s.at_us) kept
        × (take_due cutoff buf chosen ≡ (last_or chosen taken, kept))
  unfolding take_due
  take_due_lem cutoff [] chosen h = ([], [], refl, tt, tt, refl)
  take_due_lem cutoff (s ∷ buf) chosen h = elim (Bool-cases (leb_ℤ s.at_us cutoff)) [
    | inl due ↦
        let (taken, kept, e, early, late, r) = take_due_lem cutoff buf (some s) h.1 in
        (s ∷ taken, kept, ap (◌∷◌ s) e, (ground arith, early), late, rw due r)
    | inr later ↦
        ([], s ∷ buf, refl, tt, (ground arith, All-map _ _ buf (λ t k. ground arith) h.0), rw later)
  ]

  sum_legs_reads :
      (legs : List (Symbol × D)) (l m : Dict Symbol (Snapshot D)) (sum : D)
      (ratios : List (Option D)) (publish : Option ℤ)
      → All (λ s. lookup s l ≡ lookup s m) (map (λ leg. leg.0) legs)
      → sum_legs l legs sum ratios publish ≡ sum_legs m legs sum ratios publish
  unfolding sum_legs
  sum_legs_reads [] l m sum ratios publish h = refl
  sum_legs_reads ((feed, w) ∷ legs) l m sum ratios publish h = rw h.0 (
      ap (and_then (lookup feed m)) (
        fun_ext λ snap. ap (and_then (and_then (d.checked_mul snap.value w) (d.checked_add sum))) (
          fun_ext λ total.
            sum_legs_reads legs l m total (ratios ++ snap.conf_ratio ∷ [])
              (older publish snap.publish_time_us) h.1)))

  IsAscending-append :
      (buf : List (LagSample D)) (s : LagSample D)
      → IsAscending buf
      → All (λ t. t.at_us ≤ℤ s.at_us) buf
      → IsAscending (buf ++ s ∷ [])
  IsAscending-append [] s h k = (tt, tt)
  IsAscending-append (t ∷ buf) s h k =
      (All-append _ buf (s ∷ []) h.0 (k.0, tt), IsAscending-append buf s h.1 k.1)

time_since_fits : (now t : ℤ) → magnitude (now -ℤ t) < half_i64 → time_since now t ≡ some (now -ℤ t)
unfolding time_since
time_since_fits now t h = rw (lt→ltb _ _ h) refl

module _ {D : Type 0} ⦃d : Decimal D⦄ where
  -- The sum of the weighted values of the legs, where each has a price and nothing overflows.
  abbrev pub weighted_sum : Dict Symbol (Snapshot D) → List (Symbol × D) → D → Option D
  weighted_sum latest [] sum = some sum
  weighted_sum latest ((feed, weight) ∷ legs) sum = and_then (lookup feed latest) λ snap.
      and_then (and_then (d.checked_mul snap.value weight) (d.checked_add sum))
        (weighted_sum latest legs)

  sum_legs_lem :
      (latest : Dict Symbol (Snapshot D)) (legs : List (Symbol × D)) (sum : D)
      (ratios : List (Option D)) (publish : Option ℤ)
      → map_option (λ t. t.0) (sum_legs latest legs sum ratios publish)
        ≡ weighted_sum latest legs sum
  unfolding sum_legs
  sum_legs_lem latest [] sum ratios publish = refl
  sum_legs_lem latest ((feed, weight) ∷ legs) sum ratios publish =
      elim (Option-cases (lookup feed latest)) [
        | inl e ↦ rw e refl
        | inr (snap, e) ↦
            elim (Option-cases (and_then (d.checked_mul snap.value weight) (d.checked_add sum))) [
              | inl e2 ↦ rw (e, e2) refl
              | inr (total, e2) ↦
                  rw (e, e2)
                    (sum_legs_lem latest legs total (ratios ++ snap.conf_ratio ∷ [])
                      (older publish snap.publish_time_us))
            ]
      ]

  value_lem :
      (o : Option D) (ratio : Option D) (publish : Option ℤ)
      → map_option
          (λ (c : EvalCtx D). c.value)
          (map_option
            (λ v. record {
              value = v;
              conf_ratio = ratio;
              publish_time_us = publish;
              slot = none;
              source = PriceSource.derived;
              is_derived = true;
            })
            o)
        ≡ o
  value_lem none ratio publish = refl
  value_lem (some v) ratio publish = refl

  -- What scales the first sum to the target, if there is one.
  abbrev pub first_factor : Option D → D → Option D
  first_factor none sum = some d.unit
  first_factor (some target) sum = d.checked_div target sum

  basket_factor_lem :
      (rebase : Option D) (sum : D) → basket_factor rebase none sum ≡ first_factor rebase sum
  unfolding basket_factor
  basket_factor_lem none sum = refl
  basket_factor_lem (some target) sum = refl

module _ {D F R : Type 0} ⦃d : Decimal D⦄ ⦃f : Floats D F R⦄ where
  -- While `now - us` fits an `i64`, a lag whose samples are in order and not from the future splits
  -- them, the new one included, at `now - us`: it answers with the last of those up to that time, marked as derived, or with
  -- nothing if there is none, and keeps exactly the later ones, in order.
  pub lag_window :
      (us : ℤ) (buf : List (LagSample D)) (ctx : EvalCtx D) (now : ℤ)
      → IsAscending buf
      → All (λ s. s.at_us ≤ℤ now) buf
      → magnitude (now -ℤ us) < half_i64
      → (taken : List (LagSample D)) × (kept : List (LagSample D)) × (buf
            ++ (record { at_us = now; ctx = ctx }) ∷ []
          ≡ taken ++ kept)
        × All (λ s. s.at_us ≤ℤ (now -ℤ us)) taken
        × All (λ s. (now -ℤ us) <ℤ s.at_us) kept
        × (apply_transform {D = D} {F = F} {R = R} (TransformState.lag us buf) ctx now
            ≡ some (
              TransformState.lag us kept,
              map_option (λ s. record (s.ctx) { is_derived = true }) (last_or none taken),
            ))
  unfolding apply_transform
  lag_window us buf ctx now h k fits =
      let sample : LagSample D = record { at_us = now; ctx = ctx } in
      let (taken, kept, e, early, late, r) =
        take_due_lem (now -ℤ us) (buf ++ sample ∷ []) none (IsAscending-append buf sample h k) in
      (taken, kept, e, early, late, rw (time_since_fits now us fits, r) refl)

  basket_kept :
      (legs : List (Symbol × D)) (rebase : Option D) (k : D) (latest : Dict Symbol (Snapshot D))
      (now : ℤ)
      → (eval_base {D = D} {F = F} {R = R} (BaseState.basket legs rebase (some k)) latest now).0
        ≡ BaseState.basket legs rebase (some k)
  unfolding eval_base
  basket_kept legs rebase k latest now =
      elim (Option-cases (sum_legs latest legs d.nought [] none)) [
        | inl e ↦ rw (e, eval_base)
        | inr (s, e) ↦ rw (e, eval_base)
      ]

  -- The factor of a basket is fixed by its first sum. While a leg has no price, or the sum or the factor
  -- cannot be computed, the state stays as it is and there is no value. Otherwise the factor is the one
  -- that scales the sum to the target of the rebase, or one if there is none; the value is the sum
  -- times that factor; and from then on no evaluation changes the state.
  pub basket_anchor :
      (legs : List (Symbol × D)) (rebase : Option D) (latest : Dict Symbol (Snapshot D)) (now : ℤ)
      → let r = eval_base {D = D} {F = F} {R = R} (BaseState.basket legs rebase none) latest now in
        ((and_then (weighted_sum latest legs d.nought) (first_factor rebase) ≡ none)
          × (r.0 ≡ BaseState.basket legs rebase none)
          × (r.1 ≡ none))
        ⊎ ((sum : D) × (k : D) × (weighted_sum latest legs d.nought ≡ some sum)
            × (first_factor rebase sum ≡ some k)
            × (r.0 ≡ BaseState.basket legs rebase (some k))
            × (map_option (λ c. c.value) r.1 ≡ d.checked_mul sum k)
            × ((later : Dict Symbol (Snapshot D)) (then_us : ℤ)
                → (eval_base r.0 later then_us).0 ≡ r.0))
  unfolding eval_base
  basket_anchor legs rebase latest now =
      let summed = sum_legs_lem latest legs d.nought [] none in
      elim (Option-cases (sum_legs latest legs d.nought [] none)) [
        | inl e ↦ rw (e, eval_base) (inl (rw (← summed, e) refl, refl, refl))
        | inr ((sum, ratios, publish), e) ↦
            let weighted : weighted_sum latest legs d.nought ≡ some sum =
              sym summed ∙ ap (map_option (λ t. t.0)) e in
            elim (Option-cases (first_factor rebase sum)) [
              | inl e2 ↦
                  rw (e, basket_factor_lem rebase sum, e2, eval_base)
                    (inl (rw weighted e2, refl, refl))
              | inr (k, e2) ↦
                  rw (e, basket_factor_lem rebase sum, e2, eval_base)
                    (inr (
                      sum,
                      k,
                      weighted,
                      e2,
                      refl,
                      value_lem _ _ _,
                      λ later then_us. basket_kept legs rebase k later then_us,
                    ))
            ]
      ]

  -- An evaluation of a base reads no feed but those it is registered under.
  pub eval_base_reads :
      (b : BaseState D F R) (l m : Dict Symbol (Snapshot D)) (now : ℤ)
      → All (λ s. lookup s l ≡ lookup s m) (feeds_of b)
      → eval_base b l now ≡ eval_base b m now
  unfolding eval_base
  eval_base_reads (BaseState.underlying feed) l m now h = rw h.0
  eval_base_reads (BaseState.cross base quote) l m now h = rw (h.0, h.1.0)
  eval_base_reads (BaseState.basket legs rebase factor) l m now h =
      rw (sum_legs_reads legs l m d.nought [] none h, eval_base)
  eval_base_reads (BaseState.peg target) l m now h = refl
  eval_base_reads (BaseState.gbm p s dr t r) l m now h = refl
