-- ===== src/Physics/Interlude.antt =====
-- shared/physics-interlude.ts: the Classic rooms. A serve is half as fast again, and each return of
-- a paddle is a tenth faster.
pub mod Safety
use pongit.Common.{
  ℕ, ◌+◌, ◌≡◌, Bool, true, false, not, ◌&&◌, ◌||◌, ltb, ◌==◌, if◌then◌else◌, Result, ok, ◌>>=◌,
  ◌>>◌, throw_if, classic_clock,
}
use pongit.Common.Int.{ℤ, pos, ◌*ℤ◌, ◌/ℤ◌, negate, ltb_ℤ, eqb_ℤ}
use pongit.Common.Loops.{Round, returned, continued, for_loop}
use pongit.Physics.Court.{GameEvent}
use pongit.Physics.V2.{State, next}
use pongit.Physics.V2

unfoldable pub serve_speed : State → State
serve_speed s = record s { vx = s.vx *ℤ pos 3 /ℤ 2; vy = s.vy *ℤ pos 3 /ℤ 2 }

unfoldable pub initial : ℕ → Result State
initial seed = do s ← V2.initial seed 0; ok (serve_speed s)

unfoldable pub accelerate : State → State
accelerate s =
    let speed = (if ltb_ℤ s.vx (pos 0) then negate s.vx else s.vx) *ℤ pos 110 /ℤ 100 in
    record s {
      vx = if ltb_ℤ s.vx (pos 0) then negate speed else speed;
      vy = if ltb_ℤ s.vy (pos 0) then negate (speed /ℤ 2) else speed /ℤ 2;
    }

-- `if ((event.kind === 3 || event.kind === 4) && s.vx !== incomingVX) s = accelerate(s);`
unfoldable pub returned_ball : ℕ → ℤ → State → State
returned_ball kind incoming s =
    if (kind == 3 || kind == 4) && not (eqb_ℤ s.vx incoming) then accelerate s else s

-- What follows an event: the speeds of a return and of a new rally.
speed_up : GameEvent → State → State → State
speed_up event before s =
    let s1 = returned_ball event.kind before.vx s in
    if not s1.finished && not (s1.score_a + s1.score_b == before.score_a + before.score_b)
    then serve_speed s1
    else s1

-- One round of the loop of `advance`.
round : ℕ → State → Result (Round State (State × Bool))
round target s = if s.finished then ok (returned (s, true)) else (do
  event ← next s
  if ltb target event.at
      then (do r ← V2.advance s target 1; ok (returned r))
      else (do r ← V2.advance s event.at 1; ok (continued (speed_up event s r.0))))

settle : ℕ → State → Result (State × Bool)
settle target s =
    if s.finished
    then ok (s, true)
    else if s.t == target
    then (do e ← next s; ok (s, ltb target e.at))
    else ok (s, false)

pub advance : State → ℕ → ℕ → Result (State × Bool)
advance state target limit = do
  throw_if (not (state.mode == 0) || ltb target state.t) classic_clock
  for_loop limit (round target) (settle target) state
