-- ===== src/Raydium/Walk.antt =====
-- crates/raydium-clmm-client/src/quote.rs: what a quote that succeeds has done.
use mathlib.Core.Path.{subst}
use testnet_testsuite.Prelude.{
  ℕ, zero, suc, ◌≤◌, ◌<◌, String, List, [], ◌∷◌, ◌++◌, append_assoc, map, Bool, true, false,
  Bool-cases, inl, inr, ◌≡◌, refl, sym, ap, ◌∙◌, ok, >>=-eq-ok, ok-injective, fail_if,
  fail_if-eq-ok, not, ◌==◌, ok_or, length, length-append, if◌then◌else◌, arith,
}
use testnet_testsuite.Prelude.Int.{ℤ, max_u64, eqb_ℤ}
use testnet_testsuite.Raydium.External.{SwapStep, Clmm}
use testnet_testsuite.Raydium.Quote.{
  SwapState, Walk, Request, pop_front, settle, is_done, find_tick, next_array, arrive, swap_to,
  round, walk, start_walk, quote_swap,
}

-- The amounts of a state that began with `amount`, after the steps so far: nothing more is left
-- than there was, and what is calculated fits a `u64`.
pub record IsWithin (amount : ℕ) (s : SwapState) : Type 0 where
  pub remaining_le : s.remaining ≤ amount
  pub calculated_fits : s.calculated ≤ max_u64

settle-IsWithin :
    (amount : ℕ) (exact_in : Bool) (step : SwapStep) (s : SwapState) (r : ℕ × ℕ)
    → IsWithin amount s
    → settle exact_in step s ≡ ok r
    → (r.0 ≤ amount) × (r.1 ≤ max_u64)
unfolding settle
settle-IsWithin amount exact_in step s r v h = ground arith

pop_front_lem :
    {T : Type 0} (ts : List T) (e : String) (r : T × List T)
    → pop_front ts e ≡ ok r
    → ts ≡ r.0 ∷ r.1
unfolding pop_front
pop_front_lem [] e r h = cc
pop_front_lem (t ∷ ts) e r h = ground arith

eqb-eq : (a b : ℤ) → not (eqb_ℤ a b) ≡ false → a ≡ b
eqb-eq a b h = ground arith

module _ {P C B T K : Type 0} (c : Clmm P C B T K) where
  arrive_amounts :
      (q : Request P C B) (next : K) (tick : ℤ) (sp prior : ℕ) (s s' : SwapState)
      → arrive c q next tick sp prior s ≡ ok s'
      → (s'.remaining ≡ s.remaining) × (s'.calculated ≡ s.calculated)
  unfolding arrive
  arrive_amounts q next tick sp prior s s' h = ground arith

  swap_to-IsWithin :
      (amount : ℕ) (q : Request P C B) (next : K) (s s' : SwapState)
      → IsWithin amount s
      → swap_to c q next s ≡ ok s'
      → IsWithin amount s'
  unfolding swap_to
  swap_to-IsWithin amount q next s s' v h =
      let (u, e1, h1) = >>=-eq-ok (fail_if (c.has_limit_orders next) _) _ h in
      let (sp, e2, h2) = >>=-eq-ok (c.get_sqrt_price_at_tick _) _ h1 in
      let (step, e3, h3) = >>=-eq-ok (c.compute_swap _ _ _ _ _ _ _ _) _ h2 in
      let (r, e4, h4) = >>=-eq-ok (settle q.exact_in step s) _ h3 in
      let (left, calculated) = settle-IsWithin amount q.exact_in step s r v e4 in
      let (same_left, same_calculated) = arrive_amounts q next _ sp _ _ s' h4 in
      record { remaining_le = rw same_left left; calculated_fits = rw same_calculated calculated }

  -- The starts of the arrays that were supplied: those that are used, and then those that are left.
  abbrev pub IsTraversal : List T → Walk T → Type 0
  IsTraversal supplied w =
      (w.used ++ map c.start_tick_index w.arrays ≡ map c.start_tick_index supplied)
      × (0 < length w.used)

  next_array_lem :
      (supplied : List T) (q : Request P C B) (w : Walk T) (r : Walk T × K)
      → IsTraversal supplied w
      → next_array c q w ≡ ok r
      → IsTraversal supplied r.0 × (r.0.state ≡ w.state)
  unfolding next_array pop_front
  next_array_lem supplied q w r t h =
      let (found, e1, h1) = >>=-eq-ok (c.next_initialized_tick_array_start_index _ _ _ _) _ h in
      let (next, e2, h2) = >>=-eq-ok (ok_or found _) _ h1 in
      let (taken, e3, h3) = >>=-eq-ok (pop_front w.arrays _) _ h2 in
      let (u, e4, h4) =
        >>=-eq-ok (fail_if (not (eqb_ℤ (c.start_tick_index taken.0) next)) _) _ h3 in
      let (first, e5, h5) = >>=-eq-ok (c.first_initialized_tick _ _) _ h4 in
      let (u', e6, h6) = >>=-eq-ok (fail_if (not (c.is_initialized first)) _) _ h5 in
      let w' = record w {
        current_start = next;
        current_array = taken.0;
        arrays = taken.1;
        used = w.used ++ next ∷ [];
      } in
      let kept : w'.used ++ map c.start_tick_index w'.arrays ≡ map c.start_tick_index supplied =
        append_assoc w.used (next ∷ []) (map c.start_tick_index taken.1)
        ∙ ap (λ z. w.used ++ z ∷ map c.start_tick_index taken.1)
            (sym (eqb-eq (c.start_tick_index taken.0) next (fail_if-eq-ok _ _ e4)))
        ∙ ap (λ l. w.used ++ map c.start_tick_index l) (sym (pop_front_lem w.arrays _ taken e3))
        ∙ t.0 in
      subst (λ (x : Walk T × K). IsTraversal supplied x.0 × (x.0.state ≡ w.state)) (ok-injective h6)
        ((kept, omega (arith, length-append w.used (next ∷ []))), refl)

  moved_lem :
      (supplied : List T) (q : Request P C B) (w : Walk T) (k : K) (m : Walk T × K)
      → IsTraversal supplied w
      → (if c.is_initialized k then ok (w, k) else next_array c q w) ≡ ok m
      → IsTraversal supplied m.0 × (m.0.state ≡ w.state)
  moved_lem supplied q w k m t h = elim (Bool-cases (c.is_initialized k)) [
    | inl e ↦
        subst (λ (x : Walk T × K). IsTraversal supplied x.0 × (x.0.state ≡ w.state))
          (ok-injective (rw e at h)) (t, refl)
    | inr e ↦ next_array_lem supplied q w m t (rw e at h)
  ]

  round_lem :
      (supplied : List T) (amount : ℕ) (q : Request P C B) (w w' : Walk T)
      → IsTraversal supplied w
      → IsWithin amount w.state
      → round c q w ≡ ok w'
      → IsTraversal supplied w' × IsWithin amount w'.state
  unfolding round
  round_lem supplied amount q w w' t v h =
      let (r, e1, h1) = >>=-eq-ok (find_tick c q w) _ h in
      let found : Walk T = record w { matches_current = r.0 } in
      let (m, e2, h2) =
        >>=-eq-ok (if c.is_initialized r.1 then ok (found, r.1) else next_array c q found) _ h1 in
      let (state, e3, h3) = >>=-eq-ok (swap_to c q m.1 m.0.state) _ h2 in
      let (t', same) = moved_lem supplied q found r.1 m t e2 in
      let v' = swap_to-IsWithin amount q m.1 m.0.state state (rw same v) e3 in
      subst (λ x. IsTraversal supplied x × IsWithin amount x.state) (ok-injective h3) (t', v')

  start_walk_lem :
      (q : Request P C B) (amount : ℕ) (supplied : List T) (w : Walk T)
      → start_walk c q amount supplied ≡ ok w
      → IsTraversal supplied w × IsWithin amount w.state
  unfolding start_walk
  start_walk_lem q amount supplied w h =
      let (m, e1, h1) = >>=-eq-ok (c.get_first_initialized_tick_array _ _ _) _ h in
      let (taken, e2, h2) = >>=-eq-ok (pop_front supplied _) _ h1 in
      let (u, e3, h3) = >>=-eq-ok (fail_if (not (eqb_ℤ (c.start_tick_index taken.0) m.1)) _) _ h2 in
      let kept : m.1 ∷ map c.start_tick_index taken.1 ≡ map c.start_tick_index supplied =
        ap (λ z. z ∷ map c.start_tick_index taken.1)
          (sym (eqb-eq (c.start_tick_index taken.0) m.1 (fail_if-eq-ok _ _ e3)))
        ∙ ap (map c.start_tick_index) (sym (pop_front_lem supplied _ taken e2)) in
      subst (λ x. IsTraversal supplied x × IsWithin amount x.state) (ok-injective h3)
        ((kept, omega arith), record { remaining_le = omega arith; calculated_fits = omega arith })

  start_state :
      (q : Request P C B) (amount : ℕ) (supplied : List T) (w : Walk T)
      → start_walk c q amount supplied ≡ ok w
      → w.state ≡ record {
        remaining = amount;
        calculated = 0;
        sqrt_price_x64 = c.pool_sqrt_price_x64 q.pool;
        tick = c.pool_tick_current q.pool;
        liquidity = c.pool_liquidity q.pool;
      }
  unfolding start_walk
  start_state q amount supplied w h =
      let (m, e1, h1) = >>=-eq-ok (c.get_first_initialized_tick_array _ _ _) _ h in
      let (taken, e2, h2) = >>=-eq-ok (pop_front supplied _) _ h1 in
      let (u, e3, h3) = >>=-eq-ok (fail_if (not (eqb_ℤ (c.start_tick_index taken.0) m.1)) _) _ h2 in
      sym (ap (λ (x : Walk T). x.state) (ok-injective h3))

  -- A number of rounds of the loop from one walk to another, each begun before the walk was done.
  abbrev pub IsReached : Request P C B → ℕ → Walk T → Walk T → Type 0
  IsReached q zero w last = w ≡ last
  IsReached q (suc n) w last =
      (is_done c q.zero_for_one w.state ≡ false)
      × ((next : Walk T) × (round c q w ≡ ok next) × IsReached q n next last)

  walk_lem :
      (n : ℕ) (supplied : List T) (amount : ℕ) (q : Request P C B) (w w' : Walk T)
      → IsTraversal supplied w
      → IsWithin amount w.state
      → walk c n q w ≡ ok w'
      → IsTraversal supplied w'
        × IsWithin amount w'.state
        × ((k : ℕ) × (k < n) × IsReached q k w w')
        × (is_done c q.zero_for_one w'.state ≡ true)
  unfolding walk
  walk_lem zero supplied amount q w w' t v h = cc
  walk_lem (suc n) supplied amount q w w' t v h =
      elim (Bool-cases (is_done c q.zero_for_one w.state)) [
        | inl done ↦
            let same = ok-injective (rw (done, walk) at h) in
            subst
              (λ x.
                IsTraversal supplied x
                × IsWithin amount x.state
                × ((k : ℕ) × (k < suc n) × IsReached q k w x)
                × (is_done c q.zero_for_one x.state ≡ true))
              same (t, v, (0, omega arith, refl), done)
        | inr more ↦
            let (x, e, k) = >>=-eq-ok (round c q w) _ (rw (more, walk) at h) in
            let (t', v') = round_lem supplied amount q w x t v e in
            let (t2, v2, (rounds, few, reached), stop) =
              walk_lem n supplied amount q x w' t' v' k in
            (t2, v2, (suc rounds, omega arith, (more, (x, e, reached))), stop)
      ]

  -- A quote that succeeds has asked for an amount that is not zero. It is that of the walk which
  -- starts at the pool's own state with the whole amount, and takes fewer than 64 rounds, each begun
  -- before the walk was done, to one that is done: nothing is left of the amount, or the price limit
  -- or the last tick is reached. What is left is at most what was asked for, and what is calculated
  -- fits a `u64`; the tick arrays that it used are the first of those that were supplied, in that
  -- order, and there is at least one.
  pub quote_swap_walks :
      (q : Request P C B) (amount : ℕ) (supplied : List T) (calculated : ℕ) (used : List ℤ)
      → quote_swap c q amount supplied ≡ ok (calculated, used)
      → (0 < amount)
        × ((start : Walk T) × (w : Walk T) × (rounds : ℕ) × (start_walk c q amount supplied
              ≡ ok start)
            × (start.state ≡ record {
              remaining = amount;
              calculated = 0;
              sqrt_price_x64 = c.pool_sqrt_price_x64 q.pool;
              tick = c.pool_tick_current q.pool;
              liquidity = c.pool_liquidity q.pool;
            })
            × (rounds < 64)
            × IsReached q rounds start w
            × (is_done c q.zero_for_one w.state ≡ true)
            × (w.state.calculated ≡ calculated)
            × (w.used ≡ used)
            × IsTraversal supplied w
            × IsWithin amount w.state)
  unfolding quote_swap
  quote_swap_walks q amount supplied calculated used h =
      let (u, e1, h1) = >>=-eq-ok (fail_if (amount == 0) _) _ h in
      let (w, e2, h2) = >>=-eq-ok (start_walk c q amount supplied) _ h1 in
      let (x, e3, h3) = >>=-eq-ok (walk c 64 q w) _ h2 in
      let (t, v) = start_walk_lem q amount supplied w e2 in
      let (t', v', (rounds, few, reached), stop) = walk_lem 64 supplied amount q w x t v e3 in
      (
        ground (arith, fail_if-eq-ok _ _ e1),
        (
          w,
          x,
          rounds,
          e2,
          start_state q amount supplied w e2,
          few,
          reached,
          stop,
          ground arith,
          ground arith,
          t',
          v',
        ),
      )
