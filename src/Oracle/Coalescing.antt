-- ===== src/Oracle/Coalescing.antt =====
-- services/oracle/src/binance.rs: what a connection sends, compared with the messages that it takes.
use testnet_testsuite.Prelude.{
  ◌≤◌, ◌<◌, ◌⊎◌, length, take, ℕ, zero, suc, String, List, [], ◌∷◌, ◌++◌, Option, none, some, Bool,
  true, false, if◌then◌else◌, Bool-cases, inl, inr, string_eq, ◌≡◌, refl, ap, ◌∙◌, arith,
}
use testnet_testsuite.Prelude.Dict.{Dict, lookup, insert, lookup-insert}
use testnet_testsuite.Oracle.Types.{Symbol, PricePoint}
use testnet_testsuite.Oracle.Store.{last_of}
use testnet_testsuite.Oracle.Binance.{
  Received, text, ping, other, failed, closed, flush, Ending, point_of, keep, values, send_each,
  session,
}

abbrev with_point : Option PricePoint → List PricePoint → List PricePoint
with_point none batch = batch
with_point (some p) batch = batch ++ p ∷ []

-- For each flush of a connection, until one of the events ends it, the points of the messages since the
-- flush before, one for each message and in their order, and how many points the engine takes. The
-- batch is that of the messages so far.
abbrev pub batches :
    Dict String Symbol → List PricePoint → List Received → List (List PricePoint × ℕ)
batches streams batch [] = []
batches streams batch (text message now ∷ events) =
    batches streams (with_point (point_of streams message now) batch) events
batches streams batch (ping true ∷ events) = batches streams batch events
batches streams batch (ping false ∷ events) = []
batches streams batch (other ∷ events) = batches streams batch events
batches streams batch (failed ∷ events) = []
batches streams batch (closed ∷ events) = []
batches streams batch (flush room ∷ events) = (batch, room) ∷ batches streams [] events

-- How a connection ends while the engine is there.
abbrev pub ending_of : List Received → Ending
ending_of [] = Ending.goes_on
ending_of (ping false ∷ events) = Ending.reconnects
ending_of (failed ∷ events) = Ending.reconnects
ending_of (closed ∷ events) = Ending.reconnects
ending_of (_ ∷ events) = ending_of events

-- No two points have the same symbol.
abbrev pub IsSingle : List PricePoint → Type 0
IsSingle [] = Unit
IsSingle (p ∷ ps) = (last_of p.symbol ps none ≡ none) × IsSingle ps

-- One point for each symbol of a batch, the last one that the batch has for it, and none else.
abbrev pub IsCoalesced : List PricePoint → List PricePoint → Type 0
IsCoalesced batch chunk =
    IsSingle chunk × ((s : Symbol) → last_of s chunk none ≡ last_of s batch none)

-- Each batch is sent as a coalesced one; where the engine takes fewer points than that has, the first of
-- them are sent and it is gone.
abbrev pub IsSent : List (List PricePoint × ℕ) → Ending → List PricePoint → Ending → Type 0
IsSent [] final sent ending = (sent ≡ []) × (ending ≡ final)
IsSent ((batch, room) ∷ bs) final sent ending =
    (chunk : List PricePoint) × IsCoalesced batch chunk
    × (((length chunk ≤ room)
          × ((rest : List PricePoint) × (sent ≡ chunk ++ rest) × IsSent bs final rest ending))
        ⊎ ((room < length chunk) × (sent ≡ take room chunk) × (ending ≡ Ending.engine_gone)))

-- Each point is under its own symbol, and each symbol is there once.
abbrev IsBook : Dict Symbol PricePoint → Type 0
IsBook [] = Unit
IsBook ((s, p) ∷ d) = (p.symbol ≡ s) × (lookup s d ≡ none) × IsBook d

abbrev lookup_or : Symbol → Dict Symbol PricePoint → Option PricePoint → Option PricePoint
lookup_or s d found = elim (lookup s d) [ none ↦ found | some p ↦ some p ]

unique_lem :
    (s t : Symbol) (d : Dict Symbol PricePoint)
    → string_eq.beq s t ≡ true
    → lookup s d ≡ none
    → lookup t d ≡ none
unique_lem s t d e h = ground (arith, string_eq.beq_iff s t)

lookup_or-none :
    (s : Symbol) (d : Dict Symbol PricePoint) (found : Option PricePoint)
    → lookup s d ≡ none
    → lookup_or s d found ≡ found
lookup_or-none s d found h = ground (arith, h)

lookup_or-cons :
    (s t : Symbol) (p : PricePoint) (d : Dict Symbol PricePoint) (found : Option PricePoint)
    → lookup_or s ((t, p) ∷ d) found ≡ (if string_eq.beq t s then some p else lookup_or s d found)
lookup_or-cons s t p d found = ground arith

-- The symbol of a point is the one that it is under.
symbol_lem :
    (u : Symbol) {s t : Symbol} {b : Bool} → s ≡ t → string_eq.beq t u ≡ b → string_eq.beq s u ≡ b
symbol_lem u e f = ap (λ x. string_eq.beq x u) e ∙ f

insert-IsBook :
    (p : PricePoint) (d : Dict Symbol PricePoint) → IsBook d → IsBook (insert p.symbol p d)
insert-IsBook p [] h = (refl, refl, tt)
insert-IsBook p ((s, q) ∷ d) h = elim (Bool-cases (string_eq.beq s p.symbol)) [
  | inl e ↦ rw e (refl, unique_lem s p.symbol d e h.1, h.2)
  | inr e ↦ rw e (
    h.0,
    rw (lookup-insert p.symbol s p d)
        (ground (arith, string_eq.beq_iff s p.symbol, string_eq.beq_iff p.symbol s)),
    insert-IsBook p d h.2,
  )
]

values_last :
    (s : Symbol) (d : Dict Symbol PricePoint) (found : Option PricePoint)
    → IsBook d
    → last_of s (values d) found ≡ lookup_or s d found
values_last s [] found h = refl
values_last s ((t, p) ∷ d) found h =
    values_last s d (if string_eq.beq p.symbol s then some p else found) h.2
    ∙ elim (Bool-cases (string_eq.beq t s)) [
      | inl e ↦
          rw (symbol_lem s h.0 e, lookup_or-cons s t p d found, e)
            (lookup_or-none s d (some p) (unique_lem t s d e h.1))
      | inr e ↦ rw (symbol_lem s h.0 e, lookup_or-cons s t p d found, e) refl
    ]

last_of-append :
    (s : Symbol) (ps qs : List PricePoint) (found : Option PricePoint)
    → last_of s (ps ++ qs) found ≡ last_of s qs (last_of s ps found)
last_of-append s [] qs found = refl
last_of-append s (p ∷ ps) qs found =
    last_of-append s ps qs (if string_eq.beq p.symbol s then some p else found)

send_each_lem :
    (room : ℕ) (ps : List PricePoint)
    → ((length ps ≤ room) × (send_each room ps ≡ (ps, true)))
      ⊎ ((room < length ps) × (send_each room ps ≡ (take room ps, false)))
unfolding send_each
send_each_lem room [] = inl (omega arith, refl)
send_each_lem zero (p ∷ ps) = inr (omega arith, refl)
send_each_lem (suc room) (p ∷ ps) = elim (send_each_lem room ps) [
  | inl (fits, e) ↦ inl (omega arith, rw e refl)
  | inr (over, e) ↦ inr (omega arith, rw e refl)
]

keep-IsBook :
    (o : Option PricePoint) (latest : Dict Symbol PricePoint)
    → IsBook latest
    → IsBook (keep o latest)
unfolding keep
keep-IsBook none latest h = h
keep-IsBook (some p) latest h = insert-IsBook p latest h

-- The book has the last point of the batch for each symbol.
abbrev IsBookOf : List PricePoint → Dict Symbol PricePoint → Type 0
IsBookOf batch latest =
    IsBook latest × ((s : Symbol) → lookup_or s latest none ≡ last_of s batch none)

lookup_or-insert :
    (s : Symbol) (p : PricePoint) (d : Dict Symbol PricePoint)
    → lookup_or s (insert p.symbol p d) none
      ≡ (if string_eq.beq p.symbol s then some p else lookup_or s d none)
lookup_or-insert s p d = ground (arith, lookup-insert p.symbol s p d)

keep-IsBookOf :
    (o : Option PricePoint) (batch : List PricePoint) (latest : Dict Symbol PricePoint)
    → IsBookOf batch latest
    → IsBookOf (with_point o batch) (keep o latest)
unfolding keep
keep-IsBookOf none batch latest h = h
keep-IsBookOf (some p) batch latest h = (
  insert-IsBook p latest h.0,
  λ s. rw (lookup_or-insert s p latest, last_of-append s batch, h.1 s) refl,
)

values-IsSingle : (d : Dict Symbol PricePoint) → IsBook d → IsSingle (values d)
values-IsSingle [] h = tt
values-IsSingle ((s, p) ∷ d) h =
    (rw h.0 (values_last s d none h.2 ∙ lookup_or-none s d none h.1), values-IsSingle d h.2)

values-IsCoalesced :
    (batch : List PricePoint) (latest : Dict Symbol PricePoint)
    → IsBookOf batch latest
    → IsCoalesced batch (values latest)
values-IsCoalesced batch latest h =
    (values-IsSingle latest h.0, λ s. values_last s latest none h.0 ∙ h.1 s)

session-IsSent :
    (streams : Dict String Symbol) (events : List Received) (batch : List PricePoint)
    (latest : Dict Symbol PricePoint)
    → IsBookOf batch latest
    → (let r = session streams latest events in
        IsSent (batches streams batch events) (ending_of events) r.0 r.1)
unfolding session
session-IsSent streams [] batch latest h = (refl, refl)
session-IsSent streams (text message now ∷ events) batch latest h =
    let o = point_of streams message now in
    session-IsSent streams events (with_point o batch) (keep o latest)
      (keep-IsBookOf o batch latest h)
session-IsSent streams (ping true ∷ events) batch latest h =
    session-IsSent streams events batch latest h
session-IsSent streams (ping false ∷ events) batch latest h = (refl, refl)
session-IsSent streams (other ∷ events) batch latest h =
    session-IsSent streams events batch latest h
session-IsSent streams (failed ∷ events) batch latest h = (refl, refl)
session-IsSent streams (closed ∷ events) batch latest h = (refl, refl)
session-IsSent streams (flush room ∷ events) batch latest h =
    let later = session-IsSent streams events [] [] (tt, λ s. refl) in
    elim (send_each_lem room (values latest)) [
      | inl (fits, e) ↦ rw e (
        values latest,
        values-IsCoalesced batch latest h,
        inl (fits, ((session streams [] events).0, refl, later)),
      )
      | inr (over, e) ↦
          rw e (values latest, values-IsCoalesced batch latest h, inr (over, refl, refl))
    ]

-- At each flush a connection sends, for each symbol that the messages since the flush before have a
-- point for, the last of those points, once, and nothing else; where the engine takes fewer points than
-- that, the first of them are sent and the task ends; otherwise the connection ends as its events say,
-- and what its messages brought since the last flush is not sent.
pub session_coalesces :
    (streams : Dict String Symbol) (events : List Received)
    → (let r = session streams [] events in
        IsSent (batches streams [] events) (ending_of events) r.0 r.1)
session_coalesces streams events = session-IsSent streams events [] [] (tt, λ s. refl)
