-- ===== src/Physics/Realtime/Safety.antt =====
-- `advance` of shared/physics-realtime-chaos.ts never stops for an intermission.
use pongit.Common.{
  ℕ, ◌≤◌, ◌<◌, ◌≡◌, refl, ◌∙◌, ◌⊎◌, Bool, true, false, not, ◌||◌, arith, ltb, ◌==◌, ==_iff,
  Bool-cases, inl, inr, Returns, Returns-bind,
}
use pongit.Common.Int.{ℤ}
use pongit.Common.Loops.{Outcome, for_loop-Returns}
use pongit.Physics.Court.{GameEvent, clamp, clamp-range}
use pongit.Physics.V2.{State, next, serve, handicap, move, glide}
use pongit.Physics.V2
use pongit.Physics.V2.Flight.{IsAhead}
use pongit.Physics.V2.Rallies.{IsHandicap, handicap-IsHandicap, served-IsValid}
use pongit.Physics.V2.Validity.{IsValid, PaddleFits}
use pongit.Physics.V2.Advance.{
  IsSettled, advance-IsSettled, next-Returns, move_live, glide-IsValid, glide-fields, glide-Keeps,
  Keeps-refl,
}
use pongit.Physics.Interlude.{returned_ball, serve_speed}
use pongit.Physics.Interlude.Safety.{
  returned_ball-IsValid, returned_ball-SameButSpeed, serve_speed-IsValid,
}
use pongit.Physics.Realtime.{pressed_serve, press, round, settle, advance}

clamped-fits : (y half : ℤ) → IsHandicap half → PaddleFits half (clamp y half)
clamped-fits y half h = let (lo, hi) = clamp-range y half (omega arith) in (h.0, h.1, lo, hi)

pressed_serve-IsValid :
    (a b : ℕ) (s : State) → IsValid s → s.finished ≡ false → IsValid (pressed_serve a b s)
unfolding pressed_serve serve_speed
pressed_serve-IsValid a b s v f = serve_speed-IsValid _ (
    served-IsValid _ (record {
      fits_a = clamped-fits s.left _ (handicap-IsHandicap a b).0;
      fits_b = clamped-fits s.right _ (handicap-IsHandicap a b).1;
      known_mode = v.game.known_mode;
      waits = λ e. cc;
      undecided = v.game.undecided;
      decided = v.game.decided;
    }))

abbrev pub Halves : ℤ × ℤ → State → Type 0
Halves h s = (s.half_a ≡ h.0) × (s.half_b ≡ h.1)

-- The game between two events: it plays on, and its paddles are those of the start until a serve
-- has applied the stakes.
pub record IsPlaying (from : State) (target a b : ℕ) (s : State) (applied : ℕ) : Type 0 where
  pub valid : IsValid s
  pub plays : s.awaiting_serve ≡ false
  pub chaos : s.mode ≡ 1
  pub since : from.t ≤ s.t
  pub until : s.t ≤ target
  pub score_a_grows : from.score_a ≤ s.score_a
  pub score_b_grows : from.score_b ≤ s.score_b
  pub pressed : ((applied ≡ 0) × Halves (from.half_a, from.half_b) s) ⊎ Halves (handicap a b) s

-- The flag means that the game ended or that the target was reached.
pub record IsFinished (from : State) (target a b : ℕ) (r : State × Bool × ℕ) : Type 0 where
  pub playing : IsPlaying from target a b r.0 r.2
  pub complete : r.1 ≡ true → (r.0.finished ≡ true) ⊎ (r.0.t ≡ target)

pressed_serve-fields :
    (a b : ℕ) (s : State)
    → let q = pressed_serve a b s in
      (q.awaiting_serve ≡ false)
      × (q.mode ≡ s.mode)
      × (q.t ≡ s.t)
      × (q.score_a ≡ s.score_a)
      × (q.score_b ≡ s.score_b)
      × Halves (handicap a b) q
unfolding pressed_serve serve
pressed_serve-fields a b s = (refl, refl, refl, refl, refl, (refl, refl))

-- The state after an event, which may have opened an intermission.
record IsStruck (from : State) (target a b : ℕ) (s : State) (applied : ℕ) : Type 0 where
  pub valid : IsValid s
  pub chaos : s.mode ≡ 1
  pub since : from.t ≤ s.t
  pub until : s.t ≤ target
  pub score_a_grows : from.score_a ≤ s.score_a
  pub score_b_grows : from.score_b ≤ s.score_b
  pub pressed : ((applied ≡ 0) × Halves (from.half_a, from.half_b) s) ⊎ Halves (handicap a b) s

press-IsPlaying :
    (from : State) (target a b : ℕ) (s : State) (applied : ℕ)
    → IsStruck from target a b s applied
    → let p = press a b (s, applied) in IsPlaying from target a b p.0 p.1
unfolding press
press-IsPlaying from target a b s applied h = elim (Bool-cases s.awaiting_serve) [
  | inl w ↦
      let (plays, mode, t, sa, sb, halves) = pressed_serve-fields a b s in
      simp w (record {
        valid = pressed_serve-IsValid a b s h.valid (h.valid.game.waits w).1;
        plays = plays;
        chaos = mode ∙ h.chaos;
        since = omega (arith, h.since);
        until = omega (arith, h.until);
        score_a_grows = omega (arith, h.score_a_grows);
        score_b_grows = omega (arith, h.score_b_grows);
        pressed = inr halves;
      })
  | inr p ↦ simp p (record {
    valid = h.valid;
    plays = p;
    chaos = h.chaos;
    since = h.since;
    until = h.until;
    score_a_grows = h.score_a_grows;
    score_b_grows = h.score_b_grows;
    pressed = h.pressed;
  })
]

struck :
    (from : State) (target a b : ℕ) (e : GameEvent) (s : State) (applied : ℕ) (r : State × Bool)
    → IsPlaying from target a b s applied
    → e.at ≤ target
    → IsSettled s e.at r
    → IsStruck from target a b (returned_ball e.kind s.vx r.0) applied
struck from target a b e s applied r p le h =
    let same = returned_ball-SameButSpeed e.kind s.vx r.0 in
    let k = h.before.kept in
    record {
      valid = returned_ball-IsValid e.kind s.vx r.0 h.before.valid;
      chaos = same.2 ∙ k.mode_kept ∙ p.chaos;
      since = omega (arith, p.since, k.since);
      until = omega (arith, h.before.until);
      score_a_grows = omega (arith, p.score_a_grows, k.score_a_grows);
      score_b_grows = omega (arith, p.score_b_grows, k.score_b_grows);
      pressed = ground (arith, p.pressed, k.halves_kept);
    }

flown-IsFinished :
    (from : State) (target a b : ℕ) (s : State) (applied : ℕ) (e : GameEvent)
    → s.finished ≡ false
    → IsPlaying from target a b s applied
    → IsAhead s e
    → target < e.at
    → IsFinished from target a b (glide s target, true, applied)
flown-IsFinished from target a b s applied e f h ahead lt =
    let (live, at, court) = glide-fields s target (f, h.plays) in
    let k = glide-Keeps s s target h.until (Keeps-refl s) in
    record {
      playing = record {
        valid = glide-IsValid s target e (f, h.plays) h.valid ahead h.until lt;
        plays = live.1;
        chaos = k.mode_kept ∙ h.chaos;
        since = omega (arith, h.since, k.since);
        until = omega (arith, at);
        score_a_grows = omega (arith, h.score_a_grows, k.score_a_grows);
        score_b_grows = omega (arith, h.score_b_grows, k.score_b_grows);
        pressed = ground (arith, h.pressed, k.halves_kept);
      };
      complete = λ _. inr at;
    }

round-keeps :
    (from : State) (target a b : ℕ) (p : State × ℕ)
    → IsPlaying from target a b p.0 p.1
    → Returns
        (Outcome (λ q. IsPlaying from target a b q.0 q.1) (IsFinished from target a b))
        (round target a b p)
unfolding round
round-keeps from target a b (s, applied) h = elim (Bool-cases s.finished) [
  | inl f ↦ simp f (record { playing = h; complete = λ _. inl f })
  | inr f ↦ simp f (
      Returns-bind (IsAhead s)
        (Outcome (λ q. IsPlaying from target a b q.0 q.1) (IsFinished from target a b)) (next s) _
        (next-Returns s h.valid (f, h.plays))
        λ e ahead. elim (Bool-cases (ltb target e.at)) [
          | inl far ↦
              simp (far, move_live s target (f, h.plays) h.until)
                (flown-IsFinished from target a b s applied e f h ahead (ground arith))
          | inr near ↦ simp near (
              Returns-bind (IsSettled s e.at)
                (Outcome (λ q. IsPlaying from target a b q.0 q.1) (IsFinished from target a b))
                (V2.advance s e.at 1) _ (advance-IsSettled s e.at 1 h.valid ahead.later)
                λ r k.
                  press-IsPlaying from target a b (returned_ball e.kind s.vx r.0) applied
                    (struck from target a b e s applied r h (ground arith) k))
        ])
]

settle-IsFinished :
    (from : State) (target a b : ℕ) (p : State × ℕ)
    → IsPlaying from target a b p.0 p.1
    → Returns (IsFinished from target a b) (settle target p)
unfolding settle
settle-IsFinished from target a b (s, applied) h = elim (Bool-cases s.finished) [
  | inl f ↦ simp f (record { playing = h; complete = λ _. inl f })
  | inr f ↦ elim (Bool-cases (s.t == target)) [
    | inl there ↦
        simp (f, there)
          (Returns-bind (IsAhead s) (IsFinished from target a b) (next s) _
            (next-Returns s h.valid (f, h.plays))
            λ e ahead. record { playing = h; complete = λ _. inr ((==_iff s.t target).0 there) })
    | inr away ↦ simp (f, away) (record { playing = h; complete = λ e. cc })
  ]
]

-- From a valid Chaos state that plays, and for a target that is not before its clock, the realtime
-- `advance` never throws and never leaves the game waiting for a serve: the result is valid, on
-- time, and no score has fallen; its half paddles are those of the start with no point reported as
-- applied, or those of `handicap` for the two stakes; and if the flag is set, the game has ended
-- or has reached the target.
pub realtime_advance-IsFinished :
    (s : State) (target limit a b : ℕ)
    → IsValid s
    → s.mode ≡ 1
    → s.awaiting_serve ≡ false
    → s.t ≤ target
    → Returns (IsFinished s target a b) (advance s target limit a b)
unfolding advance
realtime_advance-IsFinished s target limit a b v m w le =
    simp (started s.mode target s.t s.awaiting_serve m w le) (
      for_loop-Returns (λ q. IsPlaying s target a b q.0 q.1) (IsFinished s target a b)
        (round target a b) (settle target) (round-keeps s target a b)
        (settle-IsFinished s target a b) limit (s, 0)
        (record {
          valid = v;
          plays = w;
          chaos = m;
          since = omega arith;
          until = le;
          score_a_grows = omega arith;
          score_b_grows = omega arith;
          pressed = inl (refl, (refl, refl));
        }))
  where
    started :
        (mode target t : ℕ) (w : Bool)
        → mode ≡ 1
        → w ≡ false
        → t ≤ target
        → (not (mode == 1) || w || ltb target t) ≡ false
    started mode target t w m e le = ground arith
