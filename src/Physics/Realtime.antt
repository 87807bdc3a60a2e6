-- ===== src/Physics/Realtime.antt =====
-- shared/physics-realtime-chaos.ts: the Chaos rooms without intermissions. The stakes of the moment
-- set the paddles at each point; the third component of the result is the point count of the last
-- serve that applied them.
pub mod Safety
use pongit.Common.{
  ℕ, ◌+◌, ◌≡◌, Bool, true, false, not, ◌&&◌, ◌||◌, ltb, ◌==◌, if◌then◌else◌, Result, ok, ◌>>=◌,
  ◌>>◌, throw_if, realtime_clock,
}
use pongit.Common.Int.{ℤ, pos, ◌*ℤ◌, ◌/ℤ◌}
use pongit.Common.Loops.{Round, returned, continued, for_loop}
use pongit.Physics.Court.{GameEvent, clamp}
use pongit.Physics.V2.{State, next, move, serve, handicap}
use pongit.Physics.V2
use pongit.Physics.Interlude.{returned_ball}

-- The next rally with the handicap of the stakes, at three halves of the speed.
pressed_serve : ℕ → ℕ → State → State
pressed_serve paid_a paid_b s =
    let halves = handicap paid_a paid_b in
    let served = serve (record s {
      awaiting_serve = false;
      resume_at = 0;
      half_a = halves.0;
      half_b = halves.1;
      left = clamp s.left halves.0;
      right = clamp s.right halves.1;
    }) in
    record served { vx = served.vx *ℤ pos 3 /ℤ 2; vy = served.vy *ℤ pos 3 /ℤ 2 }

-- What a round makes of the state after an event.
press : ℕ → ℕ → State × ℕ → State × ℕ
press paid_a paid_b (s, applied) =
    if s.awaiting_serve
    then (pressed_serve paid_a paid_b s, s.score_a + s.score_b)
    else (s, applied)

-- One round of the loop of `advance`, over the state and `applied`.
round : ℕ → ℕ → ℕ → State × ℕ → Result (Round (State × ℕ) (State × Bool × ℕ))
round target paid_a paid_b (s, applied) =
    if s.finished then ok (returned (s, true, applied)) else (do
      e ← next s
      if ltb target e.at
          then (do moved ← move s target; ok (returned (moved, true, applied)))
          else (do
            r ← V2.advance s e.at 1
            ok (continued (press paid_a paid_b (returned_ball e.kind s.vx r.0, applied)))))

settle : ℕ → State × ℕ → Result (State × Bool × ℕ)
settle target (s, applied) =
    if s.finished
    then ok (s, true, applied)
    else if s.t == target
    then (do e ← next s; ok (s, ltb target e.at, applied))
    else ok (s, false, applied)

pub advance : State → ℕ → ℕ → ℕ → ℕ → Result (State × Bool × ℕ)
advance state target limit paid_a paid_b = do
  throw_if (not (state.mode == 1) || state.awaiting_serve || ltb target state.t) realtime_clock
  for_loop limit (round target paid_a paid_b) (settle target) (state, 0)
