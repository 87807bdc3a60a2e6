-- ===== src/Physics/Interlude/Safety.antt =====
-- `advance` of shared/physics-interlude.ts keeps the invariant of the physics and never throws.
use pongit.Common.{
  ℕ, ◌+◌, ◌*◌, ◌/◌, ◌≤◌, ◌<◌, ◌≡◌, refl, Bool, true, false, not, ◌&&◌, ◌||◌, arith, ltb, ◌==◌,
  ==_iff, if◌then◌else◌, Bool-cases, inl, inr, Returns, Returns-bind,
}
use native.Mathlib.Nat.{zero-div}
use pongit.Common.Int.{negsuc, ℤ, pos, magnitude, magnitude-negate, ◌*ℤ◌, ◌/ℤ◌, negate, eqb_ℤ}
use pongit.Common.Loops.{Outcome, for_loop-Returns}
use pongit.Physics.Court.{GameEvent}
use pongit.Physics.V2.{State, next}
use pongit.Physics.V2
use pongit.Physics.V2.Flight.{IsAhead}
use pongit.Physics.V2.Validity.{IsValid, faster-IsValid}
use pongit.Physics.V2.Advance.{
  IsBefore, IsSettled, Keeps, next-Returns, Keeps-refl, Keeps-trans, IsSettled-after,
  advance-IsSettled,
}
use pongit.Physics.Interlude.{
  serve_speed, accelerate, returned_ball, speed_up, round, settle, advance,
}

magnitude-product : (v : ℤ) (n : ℕ) → magnitude (v *ℤ pos n) ≡ magnitude v * n
unfolding ◌*ℤ◌
magnitude-product (pos m) n = ground arith
magnitude-product (negsuc m) n = ground arith

magnitude-quotient : (v : ℤ) (d : ℕ) → magnitude (v /ℤ d) ≡ magnitude v / d
unfolding ◌/ℤ◌
magnitude-quotient (pos m) d = ground (arith, zero-div d)
magnitude-quotient (negsuc m) d = ground (arith, zero-div d)

magnitude-signed : (b : Bool) (v : ℤ) → magnitude (if b then negate v else v) ≡ magnitude v
magnitude-signed true v = magnitude-negate v
magnitude-signed false v = refl

ruleset magnitudes = (magnitude-product, magnitude-quotient, magnitude-signed)

-- A return multiplies the horizontal speed by 1.1 and sets the vertical one to half of that, each
-- rounded down; signs are left out.
pub accelerate-speeds :
    (s : State)
    → (magnitude (accelerate s).vx ≡ magnitude s.vx * 110 / 100)
      × (magnitude (accelerate s).vy ≡ magnitude s.vx * 110 / 100 / 2)
unfolding accelerate
accelerate-speeds s = (simp magnitudes, simp magnitudes)

serve_speed-speeds :
    (s : State)
    → (magnitude (serve_speed s).vx ≡ magnitude s.vx * 3 / 2)
      × (magnitude (serve_speed s).vy ≡ magnitude s.vy * 3 / 2)
unfolding serve_speed
serve_speed-speeds s = (simp magnitudes, simp magnitudes)

pub accelerate-IsValid : (s : State) → IsValid s → IsValid (accelerate s)
unfolding accelerate
accelerate-IsValid s v = faster-IsValid s (accelerate s).vx (accelerate s).vy v λ h _. faster h
  where
    faster :
        2 ≤ magnitude s.vx → (2 ≤ magnitude (accelerate s).vx) × (0 < magnitude (accelerate s).vy)
    faster h = rw ((accelerate-speeds s).0, (accelerate-speeds s).1) (omega arith, omega arith)

pub serve_speed-IsValid : (s : State) → IsValid s → IsValid (serve_speed s)
unfolding serve_speed
serve_speed-IsValid s v = faster-IsValid s (serve_speed s).vx (serve_speed s).vy v λ h k. faster h k
  where
    faster :
        2 ≤ magnitude s.vx
        → 0 < magnitude s.vy
        → (2 ≤ magnitude (serve_speed s).vx) × (0 < magnitude (serve_speed s).vy)
    faster h k = rw ((serve_speed-speeds s).0, (serve_speed-speeds s).1) (omega arith, omega arith)

pub returned_ball-IsValid :
    (kind : ℕ) (incoming : ℤ) (s : State) → IsValid s → IsValid (returned_ball kind incoming s)
unfolding returned_ball
returned_ball-IsValid kind incoming s v =
    elim (Bool-cases ((kind == 3 || kind == 4) && not (eqb_ℤ s.vx incoming))) [
      | inl yes' ↦ simp yes' (accelerate-IsValid s v)
      | inr no' ↦ simp no' v
    ]

-- Only the speeds of a ball change.
abbrev pub SameButSpeed : State → State → Type 0
SameButSpeed s s' =
    (s'.t ≡ s.t)
    × (s'.seed ≡ s.seed)
    × (s'.mode ≡ s.mode)
    × (s'.left_dir ≡ s.left_dir)
    × (s'.right_dir ≡ s.right_dir)
    × (s'.half_a ≡ s.half_a)
    × (s'.half_b ≡ s.half_b)
    × (s'.score_a ≡ s.score_a)
    × (s'.score_b ≡ s.score_b)
    × (s'.finished ≡ s.finished)
    × (s'.awaiting_serve ≡ s.awaiting_serve)

pub returned_ball-SameButSpeed :
    (kind : ℕ) (incoming : ℤ) (s : State) → SameButSpeed s (returned_ball kind incoming s)
unfolding returned_ball accelerate
returned_ball-SameButSpeed kind incoming s = ground arith

speed_up-SameButSpeed : (e : GameEvent) (before s : State) → SameButSpeed s (speed_up e before s)
unfolding speed_up serve_speed
speed_up-SameButSpeed e before s = ground (arith, returned_ball-SameButSpeed e.kind before.vx s)

pub Keeps-same : {from s s' : State} → Keeps from s → SameButSpeed s s' → Keeps from s'
Keeps-same k h = ground arith

speed_up-IsValid : (e : GameEvent) (before s : State) → IsValid s → IsValid (speed_up e before s)
unfolding speed_up
speed_up-IsValid e before s v =
    go (returned_ball e.kind before.vx s) (returned_ball-IsValid e.kind before.vx s v)
  where
    go :
        (s1 : State)
        → IsValid s1
        → IsValid (
            if not s1.finished && not (s1.score_a + s1.score_b == before.score_a + before.score_b)
            then serve_speed s1
            else s1)
    go s1 w =
        elim (Bool-cases
          (not s1.finished && not (s1.score_a + s1.score_b == before.score_a + before.score_b))) [
            | inl point ↦ simp point (serve_speed-IsValid s1 w)
            | inr rally ↦ simp rally w
          ]

speed_up-IsBefore :
    (from : State) (target : ℕ) (e : GameEvent) (s : State) (r : State × Bool)
    → Keeps from s
    → e.at ≤ target
    → IsSettled s e.at r
    → IsBefore from target (speed_up e s r.0)
speed_up-IsBefore from target e s r k le h =
    let same = speed_up-SameButSpeed e s r.0 in
    record {
      valid = speed_up-IsValid e s r.0 h.before.valid;
      kept = Keeps-same (Keeps-trans k h.before.kept) same;
      until = omega (arith, h.before.until);
    }

never_awaits :
    (from : State) (target : ℕ) (s : State)
    → from.mode ≡ 0
    → IsBefore from target s
    → s.awaiting_serve ≡ false
never_awaits from target s m b = elim (Bool-cases s.awaiting_serve) [
  | inl w ↦ absurd (omega (arith, (b.valid.game.waits w).0, b.kept.mode_kept, m))
  | inr a ↦ a
]

round-keeps :
    (from : State) (target : ℕ) (s : State)
    → from.mode ≡ 0
    → IsBefore from target s
    → Returns (Outcome (IsBefore from target) (IsSettled from target)) (round target s)
unfolding round
round-keeps from target s m b = elim (Bool-cases s.finished) [
  | inl f ↦ simp f (record { before = b; complete = λ _. inl f })
  | inr f ↦ simp f (
      Returns-bind (IsAhead s) (Outcome (IsBefore from target) (IsSettled from target)) (next s) _
        (next-Returns s b.valid (f, never_awaits from target s m b))
        λ e ahead. elim (Bool-cases (ltb target e.at)) [
          | inl far ↦ simp far (
              Returns-bind (IsSettled s target)
                (Outcome (IsBefore from target) (IsSettled from target)) (V2.advance s target 1) _
                (advance-IsSettled s target 1 b.valid b.until) λ r h. IsSettled-after b.kept h)
          | inr near ↦ simp near (
              Returns-bind (IsSettled s e.at)
                (Outcome (IsBefore from target) (IsSettled from target)) (V2.advance s e.at 1) _
                (advance-IsSettled s e.at 1 b.valid ahead.later)
                λ r h. speed_up-IsBefore from target e s r b.kept (ground arith) h)
        ])
]

settle-IsSettled :
    (from : State) (target : ℕ) (s : State)
    → from.mode ≡ 0
    → IsBefore from target s
    → Returns (IsSettled from target) (settle target s)
unfolding settle
settle-IsSettled from target s m b = elim (Bool-cases s.finished) [
  | inl f ↦ simp f (record { before = b; complete = λ _. inl f })
  | inr f ↦ elim (Bool-cases (s.t == target)) [
    | inl there ↦
        simp (f, there)
          (Returns-bind (IsAhead s) (IsSettled from target) (next s) _
            (next-Returns s b.valid (f, never_awaits from target s m b))
            λ e ahead. record {
              before = b;
              complete = λ _. inr (inr ((==_iff s.t target).0 there));
            })
    | inr away ↦ simp (f, away) (record { before = b; complete = λ h. cc })
  ]
]

-- From a valid Classic state and for a target that is not before its clock, the `advance` of the
-- Classic rooms never throws: the result is valid, on time and keeps the rules; and if the flag is
-- set, the game has ended, waits, or has reached the target.
pub classic_advance-IsSettled :
    (s : State) (target limit : ℕ)
    → IsValid s
    → s.mode ≡ 0
    → s.t ≤ target
    → Returns (IsSettled s target) (advance s target limit)
unfolding advance
classic_advance-IsSettled s target limit v m le = simp (started s.mode target s.t m le) (
    for_loop-Returns (IsBefore s target) (IsSettled s target) (round target) (settle target)
      (λ t. round-keeps s target t m) (λ t. settle-IsSettled s target t m) limit s
      (record { valid = v; kept = Keeps-refl s; until = le }))
  where
    started :
        (mode target t : ℕ) → mode ≡ 0 → t ≤ target → (not (mode == 0) || ltb target t) ≡ false
    started mode target t m le = ground arith
