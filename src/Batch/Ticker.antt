-- ===== src/Batch/Ticker.antt =====
-- shiroclient/batch/batch.go: `Pause`, `Resume`, `TickAsync`, and the loop of `Register`.
use shiroclient_sdk_go.Prelude.{ℕ, ◌+◌, Bool, true, false, List, [], ◌∷◌, ◌≡◌, refl, arith}

-- What happens to a ticker, in order: the timer's channel delivers, `TickAsync` is received, or
-- `Pause` or `Resume` is called.
pub data TickerEvent : Type 0 where
  timer override pause resume : TickerEvent

-- What control a `Ticker` keeps of its own.
pub record TickerState : Type 0 where
  pub enable : Bool

-- `Register`
abbrev pub registered : TickerState
registered = record { enable = true }

-- The new state, and whether a `Tick` is started.
unfoldable pub handle : TickerEvent → TickerState → Bool × TickerState
handle timer s = (s.enable, s)
handle override s = (true, s)
handle pause s = (false, record s { enable = false })
handle resume s = (false, record s { enable = true })

abbrev count : Bool → ℕ
count true = 1
count false = 0

-- How many ticks the events start.
unfoldable pub ticks : List TickerEvent → TickerState → ℕ
unfolding handle
ticks [] s = 0
ticks (e ∷ es) s = let (starts, t) = handle e s in let rest = ticks es t in count starts + rest

-- The last `Pause` or `Resume` of the events, the last event first; enabled if there is none.
abbrev pub enabled_by : List TickerEvent → Bool
enabled_by [] = true
enabled_by (timer ∷ es) = enabled_by es
enabled_by (override ∷ es) = enabled_by es
enabled_by (pause ∷ es) = false
enabled_by (resume ∷ es) = true

-- The ticks that events are owed, the last event first: one for each `TickAsync`, and one for each
-- delivery of the timer that no `Pause` holds back.
abbrev pub owed : List TickerEvent → ℕ
owed [] = 0
owed (timer ∷ es) = count (enabled_by es) + owed es
owed (override ∷ es) = 1 + owed es
owed (pause ∷ es) = owed es
owed (resume ∷ es) = owed es

state_by : List TickerEvent → TickerState
state_by es = record { enable = enabled_by es }

handle-state_by :
    (e : TickerEvent) (es : List TickerEvent) → (handle e (state_by es)).1 ≡ state_by (e ∷ es)
unfolding handle state_by
handle-state_by timer es = refl
handle-state_by override es = refl
handle-state_by pause es = refl
handle-state_by resume es = refl

handle-owed :
    (e : TickerEvent) (es : List TickerEvent)
    → count (handle e (state_by es)).0 + owed es ≡ owed (e ∷ es)
unfolding handle state_by
handle-owed timer es = refl
handle-owed override es = refl
handle-owed pause es = omega arith
handle-owed resume es = omega arith

-- The events of a list, the last one first, before what came before them.
abbrev pub reverse_onto : List TickerEvent → List TickerEvent → List TickerEvent
reverse_onto [] past = past
reverse_onto (e ∷ es) past = reverse_onto es (e ∷ past)

ticks-owed_from :
    (es past : List TickerEvent)
    → ticks es (state_by past) + owed past ≡ owed (reverse_onto es past)
unfolding ticks
ticks-owed_from [] past = omega arith
ticks-owed_from (e ∷ es) past =
    let rest = ticks-owed_from es (e ∷ past) in
    let first = handle-owed e past in rw (handle-state_by e past) (omega (arith, rest, first))

-- The loop of `Register` starts one tick for each `TickAsync`, paused or not, and one for each
-- delivery of the timer for which the last `Pause` or `Resume` before it, if any, was a `Resume`.
pub ticks-owed : (es : List TickerEvent) → ticks es registered ≡ owed (reverse_onto es [])
unfolding state_by
ticks-owed es = omega (arith, ticks-owed_from es [])
