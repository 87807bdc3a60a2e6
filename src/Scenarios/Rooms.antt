-- ===== src/Scenarios/Rooms.antt =====
-- The rooms' shared rules at concrete inputs.
use pongit.Common.{
  ℕ, ◌≤◌, ◌<◌, ◌≡◌, ◌↔◌, refl, true, false, arith, ok, some, [], ◌∷◌, Text, Option, to_lower_case,
}
use pongit.Rooms.Availability.{
  Node, Delegation, same_app, assert_rooms_engine_available, IsAvailable, assert-IsAvailable_iff,
  clear, unfinished_state, rooms_drain_blocker, drain_blocker_iff,
}
use pongit.Common.Int.{pos}
use pongit.Rooms.TickPilot.{TickPilot, Engine, observe, due, observe_yields, observe_twice}
use pongit.Rooms.Clock.{Anchor, now, observe as observe_time, clock_monotone, Entry}

abbrev app : Text
app = b'0' ∷ b'x' ∷ b'a' ∷ []

abbrev node : Node
node = record { app = b'0' ∷ b'x' ∷ b'A' ∷ []; chain_id = 4242; epoch = 3 }

abbrev delegation : Delegation
delegation = record { status = 1; expires_at = 1000; epoch = 3 }

available : assert_rooms_engine_available app node delegation 900 ≡ ok tt
unfolding assert_rooms_engine_available same_app to_lower_case
available = refl

assert-IsAvailable_iff_example :
    (assert_rooms_engine_available app node delegation 900 ≡ ok tt)
    ↔ IsAvailable app node delegation 900
assert-IsAvailable_iff_example = assert-IsAvailable_iff app node delegation 900

drain_blocker_example :
    ((rooms_drain_blocker true 2 0 true ≡ clear)
      ↔ ((true ≡ true) × (◌≡◌ {A = ℕ} 2 0) × (◌≡◌ {A = ℕ} 0 0)))
    × ((rooms_drain_blocker true 2 0 true ≡ unfinished_state)
        ↔ ((true ≡ true) × (true ≡ true) × (0 < 2)))
drain_blocker_example = drain_blocker_iff true 2 0 true

abbrev anchor : Anchor
anchor = record { epoch = 5000; monotonic = 10 }

clock_monotone_example :
    (now (some anchor) 30 7 ≤ now (some anchor) 40 9)
    × (now (some anchor) 30 7 ≤ now (observe_time (some anchor) 4000 30 7) 40 9)
clock_monotone_example = clock_monotone anchor 4000 30 40 7 9 (omega arith)

abbrev entry : Option Entry
entry = some (record { key = 2 ∷ []; at = 5 })

abbrev waiting : TickPilot
waiting = record { progress = pos 5; at = 1000; last_own = 100; backup = false; writing = false }

abbrev engine : ℕ → Engine
engine t = record { t = t; phase = 2; awaiting_serve = false }

took_over : (due waiting (pos 1) (engine 5) 1900).1 ≡ true
unfolding due
took_over = refl

yielded : (due (observe waiting (engine 6) 1100 false) (pos 1) (engine 6) 2000).1 ≡ true
unfolding due observe
yielded = refl

observe_yields_example : 2000 ≤ 2000
observe_yields_example =
    observe_yields waiting (pos 1) (engine 6) (engine 6) 1100 2000 (ground arith) refl (omega arith)
      (omega arith) yielded

observe_twice_example :
    observe (observe waiting (engine 6) 1100 false) (engine 6) 1200 true
    ≡ observe waiting (engine 6) 1100 false
observe_twice_example = observe_twice waiting (engine 6) 1100 1200 false true
