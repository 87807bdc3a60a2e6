-- ===== src/Rooms/Clock.antt =====
-- shared/lobby-clock.ts: the lobby's display clock and the age of a place in the queue. The readings
-- of the two clocks of the browser are arguments; a time is a whole number of milliseconds and not
-- negative, so the test for a number that is not finite has no counterpart.
use pongit.Common.{
  ℕ, ◌+◌, ◌-◌, ◌/◌, ◌≤◌, ◌<◌, ◌≡◌, false, arith, max, ◌==◌, if◌then◌else◌, Option, none, some, [],
  ◌∷◌, Text, text_eq, text_eq_refl,
}

pub record Anchor : Type 0 where
  pub epoch : ℕ
  pub monotonic : ℕ

-- The state of a `LobbyClock`.
abbrev pub LobbyClock : Type 0
LobbyClock = Option Anchor

-- `now()` where `performance.now()` reads `at` and `Date.now()` reads `wall`. `Math.max(0, …)` is
-- the subtraction of natural numbers.
unfoldable pub now : LobbyClock → ℕ → ℕ → ℕ
now none at wall = wall
now (some anchor) at wall = anchor.epoch + (at - anchor.monotonic)

unfoldable pub observe : LobbyClock → ℕ → ℕ → ℕ → LobbyClock
observe clock epoch at wall = if epoch == 0 then clock else some (anchored clock)
  where
    anchored : LobbyClock → Anchor
    anchored none = record { epoch = epoch; monotonic = at }
    anchored (some a) = record { epoch = max epoch (now (some a) at wall); monotonic = at }

-- A clock that has been set never runs back: a reading is at most any later one, also after an
-- observation of a server time, and the wall clock has no effect on it.
pub clock_monotone :
    (anchor : Anchor) (epoch at later wall wall' : ℕ)
    → at ≤ later
    → (now (some anchor) at wall ≤ now (some anchor) later wall')
      × (now (some anchor) at wall ≤ now (observe (some anchor) epoch at wall) later wall')
unfolding now observe
clock_monotone anchor epoch at later wall wall' le = ground arith

-- After an observation of a server time that is not 0 the clock shows at least that time, at every
-- reading of the monotonic clock from then on.
clock_observed :
    (clock : LobbyClock) (epoch at later wall wall' : ℕ)
    → 0 < epoch
    → at ≤ later
    → epoch ≤ now (observe clock epoch at wall) later wall'
unfolding now observe
clock_observed none epoch at later wall wall' p le = ground arith
clock_observed (some anchor) epoch at later wall wall' p le = ground arith

pub record Entry : Type 0 where
  pub key : Text
  pub at : ℕ

-- `sample` of a `QueueElapsed`; the empty text stands for no key.
unfoldable pub sample : Option Entry → Text → ℕ → Option Entry × ℕ
sample entry [] monotonic = (none, 0)
sample none (c ∷ cs) monotonic = (some (record { key = c ∷ cs; at = monotonic }), 0)
sample (some e) (c ∷ cs) monotonic =
    if text_eq e.key (c ∷ cs)
    then (some e, (monotonic - e.at) / 1000)
    else (some (record { key = c ∷ cs; at = monotonic }), 0)

abbrev pub IsNewKey : Option Entry → Text → Type 0
IsNewKey none key = Unit
IsNewKey (some e) key = text_eq e.key key ≡ false

-- The age of a place counts the whole seconds since its key was first sampled, and a sample in
-- between does not change that. The key is not empty, and was not the last one before.
sample_age :
    (entry : Option Entry) (c : ℕ) (cs : Text) (from between to : ℕ)
    → IsNewKey entry (c ∷ cs)
    → let first = (sample entry (c ∷ cs) from).0 in
      (sample (sample first (c ∷ cs) between).0 (c ∷ cs) to).1 ≡ (to - from) / 1000
unfolding sample
sample_age none c cs from between to new = ground (arith, text_eq_refl cs)
sample_age (some e) c cs from between to new = simp new (ground (arith, text_eq_refl cs))
