-- ===== src/Oracle/Polling.antt =====
-- services/oracle/src/feed_task.rs: what the polling sends, compared with the points of its updates.
use testnet_testsuite.Prelude.{
  ℕ, zero, suc, take, String, List, [], ◌∷◌, ◌++◌, Option, none, some, ◌≡◌, refl, ap, ◌∙◌,
}
use testnet_testsuite.Prelude.Dict.{Dict}
use testnet_testsuite.Oracle.Types.{Symbol, PricePoint}
use testnet_testsuite.Oracle.Hermes.{ParsedPriceUpdate, hermes_point, forward, poll_all}

-- The updates of the polls that did not fail.
abbrev pub received : List (Option (List (ParsedPriceUpdate × ℕ))) → List (ParsedPriceUpdate × ℕ)
received [] = []
received (none ∷ polls) = received polls
received (some updates ∷ polls) = updates ++ received polls

module _ (to_lowercase : String → String) (feeds : Dict String Symbol) where
  -- The points of the updates, those left out that make none.
  abbrev pub points : List (ParsedPriceUpdate × ℕ) → List PricePoint
  points [] = []
  points ((update, now) ∷ updates) = elim (hermes_point to_lowercase feeds update now) [
    | none ↦ points updates
    | some p ↦ p ∷ points updates
  ]

  -- What is sent after the updates of one poll.
  abbrev after : List PricePoint × Option ℕ → (ℕ → List PricePoint) → List PricePoint
  after (sent, none) rest = sent
  after (sent, some left) rest = sent ++ rest left

  after-cons :
      (p : PricePoint) (r : List PricePoint × Option ℕ) (rest : ℕ → List PricePoint)
      → after (p ∷ r.0, r.1) rest ≡ p ∷ after r rest
  after-cons p (sent, none) rest = refl
  after-cons p (sent, some left) rest = refl

  -- Sending the updates of one poll, and of later ones what there is still room for, is sending the
  -- first points of all.
  abbrev IsTaking : List (ParsedPriceUpdate × ℕ) → List (ParsedPriceUpdate × ℕ) → Type 0
  IsTaking updates later =
      (room : ℕ)
      → after (forward to_lowercase feeds room updates) (λ left. take left (points later))
        ≡ take room (points (updates ++ later))

  step_lem :
      (o : Option PricePoint) (updates later : List (ParsedPriceUpdate × ℕ)) (room : ℕ)
      → IsTaking updates later
      → after
          (elim o [
            | none ↦ forward to_lowercase feeds room updates
            | some p ↦ elim room [
              | zero ↦ ([], none)
              | suc left ↦
                  let rest = forward to_lowercase feeds left updates in (p ∷ rest.0, rest.1)
            ]
          ])
          (λ left. take left (points later))
        ≡ take room
            (elim o [ none ↦ points (updates ++ later) | some p ↦ p ∷ points (updates ++ later) ])
  step_lem none updates later room h = h room
  step_lem (some p) updates later zero h = refl
  step_lem (some p) updates later (suc left) h =
      after-cons p (forward to_lowercase feeds left updates) _ ∙ ap (◌∷◌ p) (h left)

  forward-take : (updates later : List (ParsedPriceUpdate × ℕ)) → IsTaking updates later
  unfolding forward
  forward-take [] later room = refl
  forward-take ((update, now) ∷ updates) later room =
      step_lem (hermes_point to_lowercase feeds update now) updates later room
        (forward-take updates later)

  after_lem :
      (r : List PricePoint × Option ℕ) (f g : ℕ → List PricePoint)
      → ((left : ℕ) → f left ≡ g left)
      → elim r.1 [ none ↦ r.0 | some left ↦ r.0 ++ f left ] ≡ after r g
  after_lem (sent, none) f g h = refl
  after_lem (sent, some left) f g h = ap (λ ps. sent ++ ps) (h left)

  -- The task sends the points of the updates that it has received, in their order and each once, as
  -- many of them as the engine takes: an update of a feed that is not known or whose price cannot be
  -- read, and a poll that fails, hold up none of the others.
  pub poll_all-take :
      (room : ℕ) (polls : List (Option (List (ParsedPriceUpdate × ℕ))))
      → poll_all to_lowercase feeds room polls ≡ take room (points (received polls))
  unfolding poll_all
  poll_all-take room [] = refl
  poll_all-take room (none ∷ polls) = poll_all-take room polls
  poll_all-take room (some updates ∷ polls) =
      after_lem (forward to_lowercase feeds room updates) _ _ (λ left. poll_all-take left polls)
      ∙ forward-take updates (received polls) room
