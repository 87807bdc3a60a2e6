-- ===== src/Physics/RoomsChaos.antt =====
-- shared/physics-rooms-chaos.ts: the Chaos rooms of the pressure release. A point opens an
-- intermission, which `resume` ends with the handicap of the stakes.
pub mod Safety
use pongit.Common.{
  ℕ, ◌+◌, ◌≡◌, Bool, true, false, not, ◌&&◌, ◌||◌, ltb, ◌==◌, if◌then◌else◌, Result, ok, ◌>>=◌,
  ◌>>◌, throw_if, chaos_state, chaos_clock,
}
use pongit.Common.Int.{ℤ, pos, ◌*ℤ◌, ◌/ℤ◌}
use pongit.Common.Loops.{Round, returned, continued, for_loop}
use pongit.Physics.Court.{GameEvent}
use pongit.Physics.V2.{State, next}
use pongit.Physics.V2
use pongit.Physics.Interlude.{returned_ball}

speed : State → State
speed s = record s { vx = s.vx *ℤ pos 3 /ℤ 2; vy = s.vy *ℤ pos 3 /ℤ 2 }

pub initial : ℕ → Result State
initial seed = do s ← V2.initial seed 1; ok (speed s)

pub resume : State → ℕ → ℕ → ℕ → Result State
resume s at paid_a paid_b = do
  throw_if (not (s.mode == 1) || s.finished) chaos_state
  resumed ← V2.resume s at paid_a paid_b
  ok (speed resumed)

-- One round of the loop of `advance`.
round : ℕ → State → Result (Round State (State × Bool))
round target s = if s.finished || s.awaiting_serve then ok (returned (s, true)) else (do
  e ← next s
  if ltb target e.at
      then (do r ← V2.advance s target 1; ok (returned r))
      else (do r ← V2.advance s e.at 1; ok (continued (returned_ball e.kind s.vx r.0))))

settle : ℕ → State → Result (State × Bool)
settle target s =
    if s.finished || s.awaiting_serve
    then ok (s, true)
    else if s.t == target
    then (do e ← next s; ok (s, ltb target e.at))
    else ok (s, false)

pub advance : State → ℕ → ℕ → Result (State × Bool)
advance state target limit = do
  throw_if (not (state.mode == 1) || ltb target state.t) chaos_clock
  for_loop limit (round target) (settle target) state
