-- ===== src/Scenarios/Rallies.antt =====
-- Starts of rallies of shared/physics-v2.ts and shared/physics-rooms-chaos.ts, at concrete inputs.
use pongit.Common.{◌≡◌, refl, true, false, arith, inr, err, serve_not_ready, Returns}
use pongit.Common.Int.{pos, ◌-ℤ◌, ◌*ℤ◌, ◌/ℤ◌}
use pongit.Physics.V2.{State, handicap, resume}
use pongit.Physics.V2.Validity.{IsValid}
use pongit.Physics.V2.Rallies.{
  IsHandicap, handicap-IsHandicap, IsResumed, resume-IsResumed, resume_refused,
}

-- An intermission after the first point.
abbrev paused : State
paused = record {
  x = pos 512000000;
  y = pos 288000000;
  vx = pos 0;
  vy = pos 0;
  left = pos 288000000;
  right = pos 300000000;
  left_dir = pos 0;
  right_dir = pos 1;
  t = 4000000;
  score_a = 1;
  score_b = 0;
  seed = 5;
  finished = false;
  mode = 1;
  half_a = pos 48000000;
  half_b = pos 48000000;
  awaiting_serve = true;
  resume_at = 7000000;
}

paused-IsValid : IsValid paused
unfolding ◌-ℤ◌
paused-IsValid = ground arith

handicap-IsHandicap_example :
    IsHandicap (handicap 3000000000000000 1000000000000000).0
    × IsHandicap (handicap 3000000000000000 1000000000000000).1
handicap-IsHandicap_example = handicap-IsHandicap 3000000000000000 1000000000000000

-- The favourite with 75% has a paddle with 43.5 units to each side.
handicap_favourite : handicap 3000000000000000 1000000000000000 ≡ (pos 43502400, pos 48000000)
unfolding handicap ◌-ℤ◌ ◌*ℤ◌ ◌/ℤ◌
handicap_favourite = refl

resume-IsResumed_example :
    Returns
      (IsResumed paused 8000000 3000000000000000 1000000000000000)
      (resume paused 8000000 3000000000000000 1000000000000000)
resume-IsResumed_example =
    resume-IsResumed paused 8000000 3000000000000000 1000000000000000 paused-IsValid refl
      (omega arith)

resume_early : resume paused 6999999 0 0 ≡ err serve_not_ready
resume_early = resume_refused paused 6999999 0 0 (inr (omega arith))
