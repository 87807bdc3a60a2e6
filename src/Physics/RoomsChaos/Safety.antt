-- ===== src/Physics/RoomsChaos/Safety.antt =====
-- The operations of shared/physics-rooms-chaos.ts keep the invariant of the physics.
use pongit.Common.{
  ℕ, ◌≤◌, ◌≡◌, Bool, true, false, not, ◌||◌, arith, ltb, ◌==◌, ==_iff, Bool-cases, inl, inr,
  Returns, Returns-bind,
}
use pongit.Common.Loops.{Outcome, for_loop-Returns}
use pongit.Physics.Court.{GameEvent}
use pongit.Physics.V2.{State, next, handicap}
use pongit.Physics.V2
use pongit.Physics.V2.Flight.{IsAhead}
use pongit.Physics.V2.Rallies.{IsResumed, resume-IsResumed}
use pongit.Physics.V2.Validity.{IsValid}
use pongit.Physics.V2.Advance.{
  IsBefore, IsSettled, Keeps, Keeps-refl, Keeps-trans, IsSettled-after, advance-IsSettled,
  next-Returns, play_cases, stop, running, halted,
}
use pongit.Physics.Interlude.{returned_ball, serve_speed}
use pongit.Physics.Interlude.Safety.{
  returned_ball-IsValid, returned_ball-SameButSpeed, Keeps-same, serve_speed-IsValid,
}
use pongit.Physics.RoomsChaos.{round, settle, advance, resume, speed}

returned_ball-IsBefore :
    (from : State) (target : ℕ) (e : GameEvent) (s : State) (r : State × Bool)
    → Keeps from s
    → e.at ≤ target
    → IsSettled s e.at r
    → IsBefore from target (returned_ball e.kind s.vx r.0)
returned_ball-IsBefore from target e s r k le h =
    let same = returned_ball-SameButSpeed e.kind s.vx r.0 in
    record {
      valid = returned_ball-IsValid e.kind s.vx r.0 h.before.valid;
      kept = Keeps-same (Keeps-trans k h.before.kept) same;
      until = omega (arith, h.before.until);
    }

round-keeps :
    (from : State) (target : ℕ) (s : State)
    → IsBefore from target s
    → Returns (Outcome (IsBefore from target) (IsSettled from target)) (round target s)
unfolding round
round-keeps from target s b = elim (play_cases s) [
  | inl done ↦ simp (stop s done) (record { before = b; complete = λ _. halted s done })
  | inr live ↦ simp (running s live) (
      Returns-bind (IsAhead s) (Outcome (IsBefore from target) (IsSettled from target)) (next s) _
        (next-Returns s b.valid live)
        λ e ahead. elim (Bool-cases (ltb target e.at)) [
          | inl far ↦ simp far (
              Returns-bind (IsSettled s target)
                (Outcome (IsBefore from target) (IsSettled from target)) (V2.advance s target 1) _
                (advance-IsSettled s target 1 b.valid b.until) λ r h. IsSettled-after b.kept h)
          | inr near ↦ simp near (
              Returns-bind (IsSettled s e.at)
                (Outcome (IsBefore from target) (IsSettled from target)) (V2.advance s e.at 1) _
                (advance-IsSettled s e.at 1 b.valid ahead.later)
                λ r h. returned_ball-IsBefore from target e s r b.kept (ground arith) h)
        ])
]

settle-IsSettled :
    (from : State) (target : ℕ) (s : State)
    → IsBefore from target s
    → Returns (IsSettled from target) (settle target s)
unfolding settle
settle-IsSettled from target s b = elim (play_cases s) [
  | inl done ↦ simp (stop s done) (record { before = b; complete = λ _. halted s done })
  | inr live ↦ elim (Bool-cases (s.t == target)) [
    | inl there ↦
        simp (running s live, there)
          (Returns-bind (IsAhead s) (IsSettled from target) (next s) _ (next-Returns s b.valid live)
            λ e ahead. record {
              before = b;
              complete = λ _. inr (inr ((==_iff s.t target).0 there));
            })
    | inr away ↦ simp (running s live, away) (record { before = b; complete = λ h. cc })
  ]
]

-- From a valid Chaos state and for a target that is not before its clock, the `advance` of the
-- Chaos rooms never throws: the result is valid, on time and keeps the rules; and if the flag is
-- set, the game has ended, waits for a serve, or has reached the target.
pub chaos_advance-IsSettled :
    (s : State) (target limit : ℕ)
    → IsValid s
    → s.mode ≡ 1
    → s.t ≤ target
    → Returns (IsSettled s target) (advance s target limit)
unfolding advance
chaos_advance-IsSettled s target limit v m le = simp (started s.mode target s.t m le) (
    for_loop-Returns (IsBefore s target) (IsSettled s target) (round target) (settle target)
      (round-keeps s target) (settle-IsSettled s target) limit s
      (record { valid = v; kept = Keeps-refl s; until = le }))
  where
    started :
        (mode target t : ℕ) → mode ≡ 1 → t ≤ target → (not (mode == 1) || ltb target t) ≡ false
    started mode target t m le = ground arith

-- What `resume` makes of an intermission in the rooms.
pub record IsRoomResumed (s : State) (at a b : ℕ) (s' : State) : Type 0 where
  pub valid : IsValid s'
  pub on_time : s'.t ≡ at
  pub plays : s'.awaiting_serve ≡ false
  pub halves : (s'.half_a ≡ (handicap a b).0) × (s'.half_b ≡ (handicap a b).1)
  pub same_score : (s'.score_a ≡ s.score_a) × (s'.score_b ≡ s.score_b)

speed-IsValid : (s : State) → IsValid s → IsValid (speed s)
unfolding speed serve_speed
speed-IsValid s v = serve_speed-IsValid s v

-- A valid state that waits for a serve is resumed by the Chaos rooms at every time from
-- `resume_at` on: the result is valid, has that time, plays, has the half paddles of `handicap`
-- and the same score.
resume-IsRoomResumed :
    (s : State) (at a b : ℕ)
    → IsValid s
    → s.awaiting_serve ≡ true
    → s.resume_at ≤ at
    → Returns (IsRoomResumed s at a b) (resume s at a b)
unfolding resume speed
resume-IsRoomResumed s at a b v w h =
    simp (paused s.mode s.finished (v.game.waits w).0 (v.game.waits w).1) (
      Returns-bind (IsResumed s at a b) (IsRoomResumed s at a b) (V2.resume s at a b) _
        (resume-IsResumed s at a b v w h) λ r i. sped r i)
  where
    paused :
        (mode : ℕ) (finished : Bool)
        → mode ≡ 1
        → finished ≡ false
        → (not (mode == 1) || finished) ≡ false
    paused mode finished m f = ground arith

    sped : (r : State) → IsResumed s at a b r → IsRoomResumed s at a b (speed r)
    sped r i = record {
      valid = speed-IsValid r i.valid;
      on_time = i.on_time;
      plays = i.plays;
      halves = (i.half_a_lem, i.half_b_lem);
      same_score = i.same_score;
    }
