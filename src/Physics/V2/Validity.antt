-- ===== src/Physics/V2/Validity.antt =====
-- The invariant of a game of shared/physics-v2.ts, and that `advance` keeps it.
use pongit.Common.{ℕ, ◌≤◌, ◌<◌, ◌≡◌, ◌⊎◌, inl, inr, true, false, ◌||◌, arith, ◌==◌, Bool-cases}
use pongit.Common.Int.{ℤ, pos, magnitude, ◌-ℤ◌, ◌≤ℤ◌, magnitude-negate}
use pongit.Physics.Court.{height, half_paddle, InCourt, clamp-range}
use pongit.Physics.V2.{State, serve, glide, bounce, strike, begin_rally, goal, collide}

-- A paddle has between 75% and 100% of its size and is within the court.
abbrev pub PaddleFits : ℤ → ℤ → Type 0
PaddleFits half paddle =
    (pos 36000000 ≤ℤ half)
    × (half ≤ℤ pos half_paddle)
    × (half ≤ℤ paddle)
    × (paddle ≤ℤ pos height -ℤ half)

-- The facts that do not concern the ball.
pub record IsReady (s : State) : Type 0 where
  pub fits_a : PaddleFits s.half_a s.left
  pub fits_b : PaddleFits s.half_b s.right
  pub known_mode : s.mode ≤ 1
  pub waits : s.awaiting_serve ≡ true → (s.mode ≡ 1) × (s.finished ≡ false)
  pub undecided : s.finished ≡ false → (s.score_a < 7) × (s.score_b < 7)
  pub decided :
      s.finished ≡ true → ((s.score_a ≡ 7) × (s.score_b < 7)) ⊎ ((s.score_a < 7) × (s.score_b ≡ 7))

-- The facts that hold also at the instant of an event.
pub record IsGame (s : State) : Type 0 where
  pub ready : IsReady s
  pub open ready use *
  pub moving :
      s.finished ≡ false → s.awaiting_serve ≡ false → (2 ≤ magnitude s.vx) × (0 < magnitude s.vy)

pub record IsValid (s : State) : Type 0 where
  pub game : IsGame s
  pub court : InCourt s.y

-- A change of speed that lets the ball move on keeps a state valid.
pub faster-IsValid :
    (s : State) (vx vy : ℤ)
    → IsValid s
    → (2 ≤ magnitude s.vx → 0 < magnitude s.vy → (2 ≤ magnitude vx) × (0 < magnitude vy))
    → IsValid (record s { vx = vx; vy = vy })
faster-IsValid s vx vy v faster = record {
  game = record {
    ready = record {
      fits_a = v.game.fits_a;
      fits_b = v.game.fits_b;
      known_mode = v.game.known_mode;
      waits = v.game.waits;
      undecided = v.game.undecided;
      decided = v.game.decided;
    };
    moving = λ f a. faster (v.game.moving f a).0 (v.game.moving f a).1;
  };
  court = v.court;
}

abbrev pub IsLive : State → Type 0
IsLive s = (s.finished ≡ false) × (s.awaiting_serve ≡ false)

half_small : (h : ℤ) → h ≤ℤ pos half_paddle → h ≤ℤ pos 288000000
half_small h l = omega arith

pub glide-IsGame : (s : State) (to : ℕ) → IsLive s → IsGame s → IsGame (glide s to)
unfolding glide
glide-IsGame s to l g = record {
  ready = record {
    fits_a = (g.fits_a.0, g.fits_a.1, range_a.0, range_a.1);
    fits_b = (g.fits_b.0, g.fits_b.1, range_b.0, range_b.1);
    known_mode = g.known_mode;
    waits = g.waits;
    undecided = g.undecided;
    decided = g.decided;
  };
  moving = g.moving;
}
  where
    range_a : (s.half_a ≤ℤ (glide s to).left) × ((glide s to).left ≤ℤ pos height -ℤ s.half_a)
    range_a = clamp-range _ s.half_a (half_small s.half_a g.fits_a.1)

    range_b : (s.half_b ≤ℤ (glide s to).right) × ((glide s to).right ≤ℤ pos height -ℤ s.half_b)
    range_b = clamp-range _ s.half_b (half_small s.half_b g.fits_b.1)

bounce-IsValid : (s : State) (kind : ℕ) → IsGame s → IsValid (bounce s kind)
unfolding bounce
bounce-IsValid s kind g = ground (arith, magnitude-negate s.vy)

strike-IsValid : (s : State) (kind : ℕ) → IsValid s → IsValid (strike s kind)
unfolding strike
strike-IsValid s kind v = ground (arith, magnitude-negate s.vx)

goal-IsValid : (s : State) (kind : ℕ) → IsLive s → IsValid s → IsValid (goal s kind)
unfolding goal begin_rally serve
goal-IsValid s kind l v = ground arith

pub collide-IsValid :
    (s : State) (kind : ℕ)
    → IsLive s
    → IsGame s
    → (kind ≤ 2) ⊎ InCourt s.y
    → 1 ≤ kind
    → kind ≤ 6
    → IsValid (collide s kind)
unfolding collide
collide-IsValid s kind l g (inl low) from to =
    simp (is_wall kind from low) (bounce-IsValid s kind g)
  where
    is_wall : (k : ℕ) → 1 ≤ k → k ≤ 2 → (k == 1 || k == 2) ≡ true
    is_wall k lo hi = ground arith
collide-IsValid s kind l g (inr c) from to = elim (Bool-cases (kind == 1 || kind == 2)) [
  | inl wall ↦ simp wall (bounce-IsValid s kind g)
  | inr other ↦ elim (Bool-cases (kind == 3 || kind == 4)) [
    | inl paddle ↦ simp (other, paddle) (strike-IsValid s kind (record { game = g; court = c }))
    | inr line ↦ simp (other, line) (goal-IsValid s kind l (record { game = g; court = c }))
  ]
]

pub collide-t : (s : State) (kind : ℕ) → (collide s kind).t ≡ s.t
unfolding collide bounce strike goal begin_rally serve
collide-t s kind = ground arith
