-- ===== src/Raydium/Quote.antt =====
-- crates/raydium-clmm-client/src/quote.rs: the walk over the tick arrays that prices a swap. An
-- error is its text.
use testnet_testsuite.Prelude.{
  ℕ, zero, suc, ◌+◌, ◌-◌, String, List, [], ◌∷◌, ◌++◌, Option, none, some, Bool, true, false, not,
  Result, ok, err, ◌>>=◌, ◌>>◌, ok_or, fail_if, if◌then◌else◌, ltb, ◌==◌, ◌&&◌, ◌||◌,
}
use testnet_testsuite.Prelude.Int.{
  ℤ, pos, ◌-ℤ◌, negate, narrow, narrow_ℕ, checked_sub, half_i32, half_i128, max_u64, leb_ℤ, eqb_ℤ,
  min_ℤ, max_ℤ,
}
use testnet_testsuite.Raydium.External.{SwapStep, Clmm}

pub record SwapState : Type 0 where
  pub remaining : ℕ
  pub calculated : ℕ
  pub sqrt_price_x64 : ℕ
  pub tick : ℤ
  pub liquidity : ℕ

-- The variables of the loop: the arrays that are not yet taken, and those of the walk.
pub record Walk (T : Type 0) : Type 0 where
  pub matches_current : Bool
  pub current_start : ℤ
  pub current_array : T
  pub arrays : List T
  pub used : List ℤ
  pub state : SwapState

-- What does not change during a quote.
pub record Request (P C B : Type 0) : Type 0 where
  pub zero_for_one : Bool
  pub exact_in : Bool
  pub config : C
  pub pool : P
  pub bitmap : B

abbrev out_of_order : String
out_of_order = "tick arrays were not supplied in traversal order"

-- `VecDeque::pop_front`, with the error for an empty queue.
unfoldable pub pop_front : {T : Type 0} → List T → String → Result String (T × List T)
pop_front [] e = err e
pop_front (t ∷ ts) e = ok (t, ts)

-- The amounts of one step, added to the state: `step_total_in` and `amount_out` change places with
-- the kind of the swap.
unfoldable pub settle : Bool → SwapStep → SwapState → Result String (ℕ × ℕ)
settle exact_in step s = do
  total_in ← ok_or (narrow_ℕ max_u64 (step.amount_in + step.fee_amount)) "swap input overflow"
  remaining ←
      ok_or (checked_sub s.remaining (if exact_in then total_in else step.amount_out))
        (if exact_in then "swap input underflow" else "swap output underflow")
  calculated ←
      ok_or (narrow_ℕ max_u64 (s.calculated + (if exact_in then step.amount_out else total_in)))
        (if exact_in then "swap output overflow" else "swap input overflow")
  ok (remaining, calculated)

module _ {P C B T K : Type 0} (c : Clmm P C B T K) where
  abbrev pub price_limit : Bool → ℕ
  price_limit zero_for_one =
      if zero_for_one then c.min_sqrt_price_x64 + 1 else c.max_sqrt_price_x64 - 1

  abbrev or_default : Option K → K
  or_default none = c.default_tick
  or_default (some k) = k

  -- The test at the head of the loop.
  abbrev pub is_done : Bool → SwapState → Bool
  is_done zero_for_one s =
      s.remaining == 0
      || s.sqrt_price_x64 == price_limit zero_for_one
      || leb_ℤ c.max_tick s.tick
      || leb_ℤ s.tick c.min_tick

  -- The first array's own first tick is tried once, when the array is not the current one.
  unfoldable pub find_tick : Request P C B → Walk T → Result String (Bool × K)
  find_tick q w = do
    found ←
        c.next_initialized_tick w.current_array w.state.tick (c.pool_tick_spacing q.pool)
          q.zero_for_one
    let next = or_default found
    if not (c.is_initialized next) && not w.matches_current
        then (c.first_initialized_tick w.current_array q.zero_for_one >>= λ first. ok (true, first))
        else ok (w.matches_current, next)

  -- The step into the next array, when the current one holds no further tick.
  unfoldable pub next_array : Request P C B → Walk T → Result String (Walk T × K)
  next_array q w = do
    found ← c.next_initialized_tick_array_start_index q.pool q.bitmap w.current_start q.zero_for_one
    next_start ← ok_or found "swap exhausts initialized tick arrays"
    (array, arrays) ← pop_front w.arrays "quote requires another tick array"
    fail_if (not (eqb_ℤ (c.start_tick_index array) next_start)) out_of_order
    first ← c.first_initialized_tick array q.zero_for_one
    fail_if (not (c.is_initialized first)) "initialized tick array contains no initialized tick"
    ok (
      record w {
        current_start = next_start;
        current_array = array;
        arrays = arrays;
        used = w.used ++ next_start ∷ [];
      },
      first,
    )

  -- Where the pool stands after a step: at the tick it reached, with the liquidity that the tick
  -- changes, or inside the range, at the tick of its price.
  unfoldable pub arrive : Request P C B → K → ℤ → ℕ → ℕ → SwapState → Result String SwapState
  arrive q next tick_next sqrt_price_next prior s =
      if s.sqrt_price_x64 == sqrt_price_next
      then (do
        liquidity ←
            if c.is_initialized next
            then (ok_or
                  (if q.zero_for_one
                    then narrow half_i128 (negate (c.liquidity_net next))
                    else some (c.liquidity_net next))
                  "liquidity delta overflow"
                >>= c.add_delta s.liquidity)
            else ok s.liquidity
        tick ←
            if q.zero_for_one
            then ok_or (narrow half_i32 (tick_next -ℤ pos 1)) "tick underflow"
            else ok tick_next
        ok (record s { liquidity = liquidity; tick = tick }))
      else if s.sqrt_price_x64 == prior
      then ok s
      else (c.get_tick_at_sqrt_price s.sqrt_price_x64 >>= λ tick. ok (record s { tick = tick }))

  -- The second half of a round: the swap up to the next tick.
  unfoldable pub swap_to : Request P C B → K → SwapState → Result String SwapState
  unfolding settle arrive
  swap_to q next s = do
    fail_if (c.has_limit_orders next)
        "limit-order liquidity is outside this single-pool quote implementation"
    let tick_next = min_ℤ (max_ℤ (c.tick_index next) c.min_tick) c.max_tick
    sqrt_price_next ← c.get_sqrt_price_at_tick tick_next
    let limit = price_limit q.zero_for_one
    let target =
        if (q.zero_for_one && ltb sqrt_price_next limit)
          || (not q.zero_for_one && ltb limit sqrt_price_next)
        then limit
        else sqrt_price_next
    step ←
        c.compute_swap s.sqrt_price_x64 target s.liquidity s.remaining (c.trade_fee_rate q.config)
          q.exact_in q.zero_for_one (c.is_fee_on_input q.pool q.zero_for_one)
    (remaining, calculated) ← settle q.exact_in step s
    arrive q next tick_next sqrt_price_next s.sqrt_price_x64 (record s {
      remaining = remaining;
      calculated = calculated;
      sqrt_price_x64 = step.sqrt_price_next_x64;
    })

  -- One round of the loop.
  unfoldable pub round : Request P C B → Walk T → Result String (Walk T)
  unfolding find_tick next_array
  round q w = do
    (matches, next) ← find_tick q w
    let w' = record w { matches_current = matches }
    (moved, tick) ← if c.is_initialized next then ok (w', next) else next_array q w'
    state ← swap_to q tick moved.state
    ok (record moved { state = state })

  -- `for _ in 0..64`, with the rounds left.
  unfoldable pub walk : ℕ → Request P C B → Walk T → Result String (Walk T)
  walk zero q w = err "swap quote exceeded the traversal limit"
  walk (suc n) q w = elim (is_done q.zero_for_one w.state) [
    | true ↦ ok w
    | false ↦ round q w >>= walk n q
  ]

  -- The first walk: at the pool's own state, in the first array.
  unfoldable pub start_walk : Request P C B → ℕ → List T → Result String (Walk T)
  start_walk q amount tick_arrays = do
    (matches, start) ← c.get_first_initialized_tick_array q.pool q.bitmap q.zero_for_one
    (array, arrays) ← pop_front tick_arrays "no initialized tick array is available"
    fail_if (not (eqb_ℤ (c.start_tick_index array) start)) out_of_order
    ok (record {
      matches_current = matches;
      current_start = start;
      current_array = array;
      arrays = arrays;
      used = start ∷ [];
      state = record {
        remaining = amount;
        calculated = 0;
        sqrt_price_x64 = c.pool_sqrt_price_x64 q.pool;
        tick = c.pool_tick_current q.pool;
        liquidity = c.pool_liquidity q.pool;
      };
    })

  unfoldable pub quote_swap : Request P C B → ℕ → List T → Result String (ℕ × List ℤ)
  unfolding start_walk walk
  quote_swap q amount tick_arrays = do
    fail_if (amount == 0) "swap amount must be greater than zero"
    w ← start_walk q amount tick_arrays
    done ← walk 64 q w
    ok (done.state.calculated, done.used)
