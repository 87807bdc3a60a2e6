-- ===== src/Scenarios/Physics.antt =====
-- Games of shared/physics-v2.ts and of the engines that rest on it, at concrete inputs.
use pongit.Common.{ℕ, ◌≡◌, refl, true, false, ◌+◌, arith, ok, Returns, map_result}
use pongit.Common.Int.{pos, negsuc, ◌+ℤ◌, ◌-ℤ◌, ◌*ℤ◌, ◌/ℤ◌}
use pongit.Physics.Court.{travel, clamp, drift}
use pongit.Common.Loops.{for_loop}
use pongit.Physics.V1.{initial as initial_v1}
use pongit.Physics.V1
use pongit.Physics.V2.{State, serve, initial, next, move, collide, round, settle, advance}
use pongit.Physics.V2
use pongit.Physics.V2.Validity.{IsValid}
use pongit.Physics.V2.Advance.{IsSettled, advance-IsSettled}
use pongit.Physics.V2.Batches.{advance_resumes, advance_stable}
use pongit.Physics.V2.Rallies.{initial-IsValid}
use pongit.Physics.V1.Embedding.{embed, embed_result, advance-embed}
use pongit.Physics.Interlude
use pongit.Physics.Interlude.Safety.{classic_advance-IsSettled}
use pongit.Physics.RoomsChaos
use pongit.Physics.RoomsChaos.Safety.{chaos_advance-IsSettled}
use pongit.Physics.Realtime
use pongit.Physics.Realtime.Safety.{IsFinished, realtime_advance-IsFinished}

-- The start of a game with the seed 5; both paddles rest.
abbrev start : ℕ → State
start mode = record {
  x = pos 512000000;
  y = pos 288000000;
  vx = pos 128000000;
  vy = negsuc 63999999;
  left = pos 288000000;
  right = pos 288000000;
  left_dir = pos 0;
  right_dir = pos 0;
  t = 0;
  score_a = 0;
  score_b = 0;
  seed = 5;
  finished = false;
  mode = mode;
  half_a = pos 48000000;
  half_b = pos 48000000;
  awaiting_serve = false;
  resume_at = 0;
}

-- The ball has passed the paddle of B.
abbrev passed : State
passed = record (start 0) { x = pos 984000001; y = pos 52000000; t = 3687500 }

-- A has scored, and the next rally is on.
abbrev second_rally : State
second_rally = record (start 0) {
  x = pos 390000000;
  y = pos 349000000;
  vx = negsuc 127999999;
  vy = pos 64000000;
  t = 5000000;
  score_a = 1;
}

initial_5 : initial 5 0 ≡ ok (start 0)
unfolding initial serve
initial_5 = refl

start-IsValid : IsValid (start 0)
unfolding initial serve
start-IsValid = initial-IsValid 5 0 (omega arith)

chaos-IsValid : IsValid (start 1)
unfolding initial serve
chaos-IsValid = initial-IsValid 5 1 (omega arith)

after_one : advance (start 0) 5000000 1 ≡ ok (passed, false)
unfolding advance round settle next move collide serve for_loop travel clamp drift ◌+ℤ◌ ◌-ℤ◌ ◌*ℤ◌
    ◌/ℤ◌
after_one = refl

after_nine : advance (start 0) 5000000 9 ≡ ok (second_rally, true)
unfolding advance round settle next move collide serve for_loop travel clamp drift ◌+ℤ◌ ◌-ℤ◌ ◌*ℤ◌
    ◌/ℤ◌
after_nine = refl

advance-IsSettled_example : Returns (IsSettled (start 0) 5000000) (advance (start 0) 5000000 9)
advance-IsSettled_example = advance-IsSettled (start 0) 5000000 9 start-IsValid (omega arith)

advance_resumes_example : advance (start 0) 5000000 (1 + 8) ≡ advance passed 5000000 8
advance_resumes_example =
    advance_resumes (start 0) passed 5000000 1 8 start-IsValid (omega arith) after_one

advance_stable_example : advance (start 0) 5000000 (9 + 55) ≡ ok (second_rally, true)
advance_stable_example =
    advance_stable (start 0) second_rally 5000000 9 55 start-IsValid (omega arith) after_nine

advance-embed_example :
    V2.advance (embed (initial_v1 5)) 5000000 9
    ≡ map_result embed_result (V1.advance (initial_v1 5) 5000000 9)
advance-embed_example = advance-embed (initial_v1 5) 5000000 9

classic_advance_example :
    Returns (IsSettled (start 0) 5000000) (Interlude.advance (start 0) 5000000 9)
classic_advance_example =
    classic_advance-IsSettled (start 0) 5000000 9 start-IsValid refl (omega arith)

chaos_advance_example :
    Returns (IsSettled (start 1) 5000000) (RoomsChaos.advance (start 1) 5000000 9)
chaos_advance_example = chaos_advance-IsSettled (start 1) 5000000 9 chaos-IsValid refl (omega arith)

realtime_advance_example :
    Returns
      (IsFinished (start 1) 9000000 3000000000000000 1000000000000000)
      (Realtime.advance (start 1) 9000000 9 3000000000000000 1000000000000000)
realtime_advance_example =
    realtime_advance-IsFinished (start 1) 9000000 9 3000000000000000 1000000000000000 chaos-IsValid
      refl refl (omega arith)
