-- ===== src/Physics/Court.antt =====
-- The constants and the helpers that shared/physics.ts and shared/physics-v2.ts both declare.
use pongit.Common.{
  ℕ, suc, ◌+◌, ◌-◌, ◌*◌, ◌/◌, ◌≤◌, ◌<◌, ◌≡◌, ap, arith, ◌==◌, if◌then◌else◌, Result, ok, err,
  division_by_zero,
}
use pongit.Common.Int.{ℤ, pos, negsuc, magnitude, ◌+ℤ◌, ◌-ℤ◌, ◌*ℤ◌, ◌/ℤ◌, ◌≤ℤ◌, ltb_ℤ, int_laws}

abbrev pub scale : ℕ
scale = 1000000

abbrev pub width : ℕ
width = 1024000000

abbrev pub height : ℕ
height = 576000000

abbrev pub radius : ℕ
radius = 6000000

abbrev pub half_paddle : ℕ
half_paddle = 48000000

abbrev pub plane : ℕ
plane = 40000000

abbrev pub paddle_speed : ℕ
paddle_speed = 180000000

-- An event is a time in microseconds and a kind: 1 and 2 the walls, 3 and 4 the paddles, 5 and 6
-- the goals, 7 the end of an intermission, 0 none.
pub record GameEvent : Type 0 where
  pub at : ℕ
  pub kind : ℕ

-- (|d| * SCALE + |v| - 1) / |v|; a `bigint` division by 0 throws.
unfoldable pub travel : ℤ → ℤ → Result ℕ
travel d v =
    if magnitude v == 0
    then err division_by_zero
    else ok ((magnitude d * scale + magnitude v - 1) / magnitude v)

unfoldable pub clamp : ℤ → ℤ → ℤ
clamp y half =
    if ltb_ℤ y half then half else if ltb_ℤ (pos height -ℤ half) y then pos height -ℤ half else y

-- `position + (velocity * dt) / SCALE`.
unfoldable pub drift : ℤ → ℤ → ℕ → ℤ
drift p v dt = p +ℤ (v *ℤ pos dt) /ℤ scale

-- The ball is between the walls.
abbrev pub InCourt : ℤ → Type 0
InCourt y = (pos radius ≤ℤ y) × (y ≤ℤ pos (height - radius))

pub clamp-range :
    (y half : ℤ)
    → half ≤ℤ pos 288000000
    → (half ≤ℤ clamp y half) × (clamp y half ≤ℤ pos height -ℤ half)
unfolding clamp ◌-ℤ◌
clamp-range y half h = ground arith

-- A ball that has not yet used up its travel time has not reached the boundary.
pub ceil_lt : (d a dt : ℕ) → 0 < a → dt < (d * scale + a - 1) / a → a * dt < d * scale
ceil_lt d a dt h lt = grind arith

drift_pos : (p : ℤ) (a dt : ℕ) → drift p (pos a) dt ≡ p +ℤ pos (a * dt / scale)
unfolding drift ◌*ℤ◌ ◌/ℤ◌
drift_pos p a dt = ap (λ q. p +ℤ q) (ground arith)

drift_neg : (p : ℤ) (k dt : ℕ) → drift p (negsuc k) dt ≡ p -ℤ pos (suc k * dt / scale)
unfolding drift ◌+ℤ◌ ◌-ℤ◌ ◌*ℤ◌ ◌/ℤ◌
drift_neg p k dt = ground arith

-- Going up: the top wall is not passed.
pub drift_up :
    (n k dt : ℕ)
    → radius ≤ n
    → suc k * dt < (n - radius) * scale
    → (pos radius ≤ℤ drift (pos n) (negsuc k) dt) × (drift (pos n) (negsuc k) dt ≤ℤ pos n)
drift_up n k dt h lt = rw drift_neg (omega (int_laws))

pub drift_down :
    (n a dt top : ℕ)
    → n ≤ top
    → a * dt < (top - n) * scale
    → (pos n ≤ℤ drift (pos n) (pos a) dt) × (drift (pos n) (pos a) dt ≤ℤ pos top)
drift_down n a dt top h lt = rw drift_pos (omega (int_laws))

pub drift-zero : (p v : ℤ) → drift p v 0 ≡ p
unfolding drift ◌+ℤ◌ ◌*ℤ◌ ◌/ℤ◌
drift-zero p v = ground arith

pub clamp-id : (y half : ℤ) → half ≤ℤ y → y ≤ℤ pos height -ℤ half → clamp y half ≡ y
unfolding clamp
clamp-id y half lo hi = ground arith
