-- ===== src/Oracle/Pricing/Registry.antt =====
-- services/oracle/src/pricing/mod.rs: what the two indices of an engine, `by_feed` and `timed`, are
-- to be: computed from the instruments themselves.
use testnet_testsuite.Prelude.{
  ℕ, suc, ◌+◌, ◌<◌, List, [], ◌∷◌, ◌++◌, append_assoc, append-nil, Bool-cases, inl, inr, ◌≡◌, sym,
  ap, string_eq, length, replicate, All, All-append, All-map, All-replicate, if◌then◌else◌, arith,
}
use testnet_testsuite.Prelude.Dict.{Dict, insert, lookup-insert}
use testnet_testsuite.Oracle.Types.{Symbol}
use testnet_testsuite.Oracle.Pricing.State.{InstrumentRuntime, Engine, feeds_of, is_clock_driven}
use testnet_testsuite.Oracle.Pricing.Build.{listed, push_feeds}
use testnet_testsuite.Oracle.Pricing.Times.{KeepsTime}

-- How often a symbol occurs.
abbrev pub count : Symbol → List Symbol → ℕ
count s [] = 0
count s (t ∷ ts) = if string_eq.beq t s then suc (count s ts) else count s ts

module _ {D F R : Type 0} where
  -- The indices from `start` on of the instruments that read a feed, as often as they read it.
  abbrev pub listeners : Symbol → ℕ → List (InstrumentRuntime D F R) → List ℕ
  listeners s start [] = []
  listeners s start (inst ∷ insts) =
      replicate (count s (feeds_of inst.base)) start ++ listeners s (suc start) insts

  -- The indices from `start` on of the instruments that the clock drives.
  abbrev pub clocked : ℕ → List (InstrumentRuntime D F R) → List ℕ
  clocked start [] = []
  clocked start (inst ∷ insts) =
      if is_clock_driven inst.base
      then start ∷ clocked (suc start) insts
      else clocked (suc start) insts

  -- An engine whose indices are those of its instruments, and whose transforms keep times that are not
  -- negative and fit an `i64`.
  pub record IsIndexed (eng : Engine D F R) : Type 0 where
    pub feeds_indexed : (s : Symbol) → listed s eng.by_feed ≡ listeners s 0 eng.instruments
    pub clock_indexed : eng.timed ≡ clocked 0 eng.instruments
    pub times_fit : All (λ x. All KeepsTime x.transforms) eng.instruments

  pub listeners-append :
      (s : Symbol) (start : ℕ) (xs : List (InstrumentRuntime D F R)) (x : InstrumentRuntime D F R)
      → listeners s start (xs ++ x ∷ [])
        ≡ listeners s start xs ++ replicate (count s (feeds_of x.base)) (start + length xs)
  listeners-append s start [] x =
      rw append-nil (ap (replicate (count s (feeds_of x.base))) (omega arith))
  listeners-append s start (y ∷ xs) x =
      rw (listeners-append s (suc start) xs x, append_assoc)
        (ap
          (λ n.
            replicate (count s (feeds_of y.base)) start
            ++ (listeners s (suc start) xs ++ replicate (count s (feeds_of x.base)) n))
          (omega arith))

  pub clocked-append :
      (start : ℕ) (xs : List (InstrumentRuntime D F R)) (x : InstrumentRuntime D F R)
      → clocked start (xs ++ x ∷ []) ≡ (
          if is_clock_driven x.base
          then clocked start xs ++ (start + length xs) ∷ []
          else clocked start xs)
  clocked-append start [] x = ground arith
  clocked-append start (y ∷ xs) x = ground (arith, clocked-append (suc start) xs x)

  -- What `get_elem?` finds at a listed index is an instrument.
  pub listeners-bound :
      (s : Symbol) (start : ℕ) (xs : List (InstrumentRuntime D F R))
      → All (λ i. i < start + length xs) (listeners s start xs)
  listeners-bound s start [] = tt
  listeners-bound s start (x ∷ xs) =
      All-append _ _ _ (All-replicate _ (count s (feeds_of x.base)) start (omega arith))
        (All-map _ _ _ (λ i h. omega arith) (listeners-bound s (suc start) xs))

  pub clocked-bound :
      (start : ℕ) (xs : List (InstrumentRuntime D F R))
      → All (λ i. i < start + length xs) (clocked start xs)
  clocked-bound start [] = tt
  clocked-bound start (x ∷ xs) =
      let later : All (λ i. i < start + suc (length xs)) (clocked (suc start) xs) =
        All-map _ _ _ (λ i h. omega arith) (clocked-bound (suc start) xs) in
      elim (Bool-cases (is_clock_driven x.base)) [
        | inl e ↦ rw e (omega arith, later)
        | inr e ↦ rw e later
      ]

listed-insert :
    (s k : Symbol) (v : List ℕ) (d : Dict Symbol (List ℕ))
    → listed s (insert k v d) ≡ (if string_eq.beq k s then v else listed s d)
listed-insert s k v d = rw (lookup-insert k s v d, listed) (ground arith)

pub listed-push_feeds :
    (s : Symbol) (feeds : List Symbol) (idx : ℕ) (d : Dict Symbol (List ℕ))
    → listed s (push_feeds feeds idx d) ≡ listed s d ++ replicate (count s feeds) idx
unfolding push_feeds
listed-push_feeds s [] idx d = sym (append-nil _)
listed-push_feeds s (k ∷ feeds) idx d = ground (
  arith,
  listed-push_feeds s feeds idx (insert k (listed k d ++ idx ∷ []) d),
  listed-insert s k (listed k d ++ idx ∷ []) d,
  string_eq.beq_iff k s,
  append_assoc (listed s d) (idx ∷ []) (replicate (count s feeds) idx),
)
