-- ===== src/Flow/Counting.antt =====
-- crates/raydium-clmm-orchestrator/src/lib.rs: how many transactions a sequence of steps sends. `sent`
-- is the log of the transactions that reached the chain.
use mathlib.Core.Path.{subst}
use testnet_testsuite.Prelude.{
  ℕ, suc, ◌+◌, ◌≤◌, List, [], ◌++◌, append_assoc, append-nil, Result, ok, err, ◌≡◌, inl, inr, refl,
  sym, ap, ◌∙◌, Result-cases, ok-injective, arith, length, length-append,
}
use testnet_testsuite.Raydium.Types.{Instruction}
use testnet_testsuite.Flow.Task.{Task, ◌>>=◌, lift, pure, map_err}

module _ {W : Type 0} (sent : W → List (List Instruction)) where
  -- Adds at most `most` transactions to the log, and at least `least` where it succeeds.
  unfoldable pub IsSending : {E A : Type 0} → (least most : ℕ) → Task E W A → Type 0
  IsSending {A = A} least most m =
      (w : W)
      → (new : List (List Instruction)) × (sent (m w).1 ≡ sent w ++ new)
        × (length new ≤ most)
        × ((a : A) → (m w).0 ≡ ok a → least ≤ length new)

  -- The same, with a condition on the result and the number of the transactions where it succeeds.
  unfoldable pub IsPosting : {E A : Type 0} → (most : ℕ) → (A → ℕ → Type 0) → Task E W A → Type 0
  IsPosting {A = A} most Q m =
      (w : W)
      → (new : List (List Instruction)) × (sent (m w).1 ≡ sent w ++ new)
        × (length new ≤ most)
        × ((a : A) → (m w).0 ≡ ok a → Q a (length new))

  pub >>=-IsPosting :
      {E A B : Type 0} (m : Task E W A) (f : A → Task E W B) (n q : ℕ) (Q : A → ℕ → Type 0)
      (R : B → ℕ → Type 0)
      → n ≤ q
      → IsPosting n Q m
      → ((a : A) (j : ℕ)
          → Q a j
          → j ≤ n
          → (x : ℕ) × (j + x ≤ q) × IsPosting x (λ b k. R b (j + k)) (f a))
      → IsPosting q R (m >>= f)
  unfolding IsPosting ◌>>=◌
  >>=-IsPosting m f n q Q R over h g w =
      let (new, s, le, post) = h w in
      elim (Result-cases (m w).0) [
        | inr (x, e) ↦ rw (e, ◌>>=◌) (new, s, omega arith, λ b c. cc)
        | inl (a, e) ↦
            let (x, le', p) = g a (length new) (post a e) le in
            let (more, t, le2, post') = p (m w).1 in
            rw (e, ◌>>=◌)
              (
                new ++ more,
                t ∙ ap (λ l. l ++ more) s ∙ append_assoc (sent w) new more,
                omega (arith, length-append new more),
                λ b c. subst (R b) (sym (length-append new more)) (post' b c),
              )
      ]

  pub IsSending-IsPosting :
      {E A : Type 0} (m : Task E W A) (least most : ℕ)
      → IsSending least most m
      → IsPosting most (λ a k. least ≤ k) m
  unfolding IsSending IsPosting
  IsSending-IsPosting m least most h = h

  pub IsPosting-IsSending :
      {E A : Type 0} (m : Task E W A) (least most : ℕ)
      → IsPosting most (λ a k. least ≤ k) m
      → IsSending least most m
  unfolding IsSending IsPosting
  IsPosting-IsSending m least most h = h

  pub IsPosting-weaken :
      {E A : Type 0} (m : Task E W A) (n q : ℕ) (Q R : A → ℕ → Type 0)
      → n ≤ q
      → IsPosting n Q m
      → ((a : A) (k : ℕ) → Q a k → R a k)
      → IsPosting q R m
  unfolding IsPosting
  IsPosting-weaken m n q Q R h p f w =
      let (new, s, le, post) = p w in (new, s, omega arith, λ a e. f a (length new) (post a e))

  pub pure-IsPosting :
      (E : Type 0) {A : Type 0} (a : A) (n : ℕ) (Q : A → ℕ → Type 0)
      → Q a 0
      → IsPosting {E = E} n Q (pure a)
  unfolding IsPosting pure
  pure-IsPosting E a n Q h w =
      ([], sym (append-nil (sent w)), omega arith, λ b e. subst (λ x. Q x 0) (ok-injective e) h)

  pub lift-IsPosting :
      {E A : Type 0} (r : Result E A) (Q : A → ℕ → Type 0)
      → ((a : A) → r ≡ ok a → Q a 0)
      → IsPosting 0 Q (lift r)
  unfolding IsPosting lift
  lift-IsPosting r Q h w = ([], sym (append-nil (sent w)), omega arith, λ b e. h b e)

  pub lift_err-IsPosting :
      {E : Type 0} (A : Type 0) (x : E) (Q : A → ℕ → Type 0) → IsPosting 0 Q (lift (err x))
  unfolding IsPosting lift
  lift_err-IsPosting A x Q w = ([], sym (append-nil (sent w)), omega arith, λ b e. cc)

  -- What follows an error is not reached.
  pub err->>=-IsPosting :
      {E A B : Type 0} (x : E) (f : A → Task E W B) (R : B → ℕ → Type 0)
      → IsPosting 0 R (lift (err x) >>= f)
  unfolding IsPosting ◌>>=◌ lift
  err->>=-IsPosting x f R w = ([], sym (append-nil (sent w)), omega arith, λ b e. cc)

  -- Weaker bounds.
  pub IsSending-weaken :
      {E A : Type 0} (m : Task E W A) (l n k j : ℕ)
      → k ≤ l
      → n ≤ j
      → IsSending l n m
      → IsSending k j m
  unfolding IsSending
  IsSending-weaken m l n k j low high h w =
      let (new, s, le, count) = h w in
      (new, s, omega arith, λ a e. let c = count a e in omega arith)

  pub map_err-IsSending :
      {E F A : Type 0} (f : E → F) (m : Task E W A) (l n : ℕ)
      → IsSending l n m
      → IsSending l n (map_err f m)
  unfolding IsSending map_err
  map_err-IsSending f m l n h w =
      let (new, s, le, count) = h w in
      elim (Result-cases (m w).0) [
        | inl (a, e) ↦ rw (e, map_err) (new, s, le, λ b q. count a e)
        | inr (x, e) ↦ rw (e, map_err) (new, s, le, λ b q. cc)
      ]

  pub lift-IsSending : {E A : Type 0} (r : Result E A) → IsSending 0 0 (lift r)
  unfolding IsSending lift
  lift-IsSending r w = ([], sym (append-nil (sent w)), omega arith, λ a e. omega arith)

  pub pure-IsSending : (E : Type 0) {A : Type 0} (a : A) → IsSending {E = E} 0 0 (pure a)
  unfolding IsSending pure
  pure-IsSending E a w = ([], sym (append-nil (sent w)), omega arith, λ b e. omega arith)

  -- Steps in sequence add up.
  pub >>=-IsSending :
      {E A B : Type 0} (m : Task E W A) (f : A → Task E W B) (l n k j p q : ℕ)
      → p ≤ l + k
      → n + j ≤ q
      → n ≤ q
      → IsSending l n m
      → ((a : A) → IsSending k j (f a))
      → IsSending p q (m >>= f)
  unfolding IsSending ◌>>=◌
  >>=-IsSending m f l n k j p q low high over h g w =
      let (new, s, le, count) = h w in
      elim (Result-cases (m w).0) [
        | inr (x, e) ↦ rw (e, ◌>>=◌) (new, s, omega arith, λ b c. cc)
        | inl (a, e) ↦
            let (more, t, le', count') = g a (m w).1 in
            let c = count a e in
            rw (e, ◌>>=◌)
              (
                new ++ more,
                t ∙ ap (λ l. l ++ more) s ∙ append_assoc (sent w) new more,
                omega (arith, length-append new more),
                λ b q. let c' = count' b q in omega (arith, length-append new more),
              )
      ]

  -- A step that sends nothing, and one that sends one.
  pub still_then :
      {E A B : Type 0} (m : Task E W A) (f : A → Task E W B) (k j : ℕ)
      → IsSending 0 0 m
      → ((a : A) → IsSending k j (f a))
      → IsSending k j (m >>= f)
  still_then m f k j h g =
      >>=-IsSending m f 0 0 k j k j (omega arith) (omega arith) (omega arith) h g

  -- What follows a computed result may use where it comes from.
  pub lift_then :
      {E A B : Type 0} (r : Result E A) (f : A → Task E W B) (k j : ℕ)
      → ((a : A) → r ≡ ok a → IsSending k j (f a))
      → IsSending k j (lift r >>= f)
  unfolding IsSending ◌>>=◌ lift
  lift_then (ok a) f k j g w = g a refl w
  lift_then (err e) f k j g w = ([], sym (append-nil (sent w)), omega arith, λ b q. cc)

  pub once_then :
      {E A B : Type 0} (m : Task E W A) (f : A → Task E W B) (k j : ℕ)
      → IsSending 1 1 m
      → ((a : A) → IsSending k j (f a))
      → IsSending (suc k) (suc j) (m >>= f)
  once_then m f k j h g =
      >>=-IsSending m f 1 1 k j (suc k) (suc j) (omega arith) (omega arith) (omega arith) h g

  pub ruleset stepping = (lift-IsSending, pure-IsSending, still_then, once_then)
