-- ===== src/Physics/V2.antt =====
-- shared/physics-v2.ts: integer event physics. A position is an integer (`bigint`), a velocity is
-- in units per second, a time is a number of microseconds, which the game keeps in a `uint64`;
-- `seed` is the number that `BigInt(s.seed)` reads. A function that may throw returns a `Result`.
pub mod Flight
pub mod Validity
pub mod Advance
pub mod Rallies
pub mod Batches
use pongit.Common.{
  ℕ, ◌+◌, ◌-◌, ◌*◌, ◌/◌, ◌%◌, ◌^◌, Bool, true, false, not, ◌&&◌, ◌||◌, ltb, leb, ◌==◌,
  if◌then◌else◌, Result, ok, ◌>>=◌, ◌>>◌, throw_if, bad_mode, time_reversal, serve_not_ready,
}
use pongit.Common.Int.{ℤ, pos, negsuc, ◌+ℤ◌, ◌-ℤ◌, ◌*ℤ◌, ◌/ℤ◌, negate, ltb_ℤ, leb_ℤ}
use pongit.Common.Loops.{Round, returned, continued, for_loop}
use pongit.Physics.Court.{
  width, height, radius, half_paddle, plane, paddle_speed, GameEvent, travel, clamp, drift,
}

pub record State : Type 0 where
  pub x : ℤ
  pub y : ℤ
  pub vx : ℤ
  pub vy : ℤ
  pub left : ℤ
  pub right : ℤ
  pub left_dir : ℤ
  pub right_dir : ℤ
  pub t : ℕ
  pub score_a : ℕ
  pub score_b : ℕ
  pub seed : ℕ
  pub finished : Bool
  pub mode : ℕ
  pub half_a : ℤ
  pub half_b : ℤ
  pub awaiting_serve : Bool
  pub resume_at : ℕ

unfoldable pub serve : State → State
serve s =
    let point = s.score_a + s.score_b in
    record s {
      x = pos (width / 2);
      y = pos (height / 2);
      vx = if point % 2 == 0 then pos 128000000 else negsuc 127999999;
      vy = if s.seed / 2 ^ point % 2 == 1 then negsuc 63999999 else pos 64000000;
    }

unfoldable pub initial : ℕ → ℕ → Result State
initial seed mode = do
  throw_if (not (mode == 0) && not (mode == 1)) bad_mode
  ok (
      serve (record {
        x = pos 0;
        y = pos 0;
        vx = pos 0;
        vy = pos 0;
        left = pos (height / 2);
        right = pos (height / 2);
        left_dir = pos 0;
        right_dir = pos 0;
        t = 0;
        score_a = 0;
        score_b = 0;
        seed = seed;
        finished = false;
        mode = mode;
        half_a = pos half_paddle;
        half_b = pos half_paddle;
        awaiting_serve = false;
        resume_at = 0;
      }))

-- The next goal, or the next paddle where the ball has not passed its plane.
horizontal : State → Result GameEvent
horizontal s = do
  d ←
      travel
        (if ltb_ℤ s.vx (pos 0) then negsuc (radius - 1) -ℤ s.x else pos (width + radius) -ℤ s.x)
        s.vx
  let e : GameEvent = record { at = s.t + d; kind = if ltb_ℤ s.vx (pos 0) then 5 else 6 }
  e ←
      if ltb_ℤ s.vx (pos 0) && leb_ℤ (pos plane) s.x
      then (do d ← travel (pos plane -ℤ s.x) s.vx; ok (record { at = s.t + d; kind = 3 }))
      else ok e
  if ltb_ℤ (pos 0) s.vx && leb_ℤ s.x (pos (width - plane))
      then (do d ← travel (pos (width - plane) -ℤ s.x) s.vx; ok (record { at = s.t + d; kind = 4 }))
      else ok e

-- The time until the ball meets the wall that it flies to.
wall_time : State → Result ℕ
wall_time s =
    travel (if ltb_ℤ s.vy (pos 0) then pos radius -ℤ s.y else pos (height - radius) -ℤ s.y) s.vy

unfoldable pub next : State → Result GameEvent
unfolding horizontal wall_time
next s =
    if s.finished
    then ok (record { at = 2 ^ 64 - 1; kind = 0 })
    else if s.awaiting_serve
    then ok (record { at = s.resume_at; kind = 7 })
    else (do
      e ← horizontal s
      d ← wall_time s
      let wall = s.t + d
      ok (
          if leb wall e.at
          then record { at = wall; kind = if ltb_ℤ s.vy (pos 0) then 1 else 2 }
          else e))

-- The flight of ball and paddles for `to - s.t` microseconds.
pub glide : State → ℕ → State
glide s to =
    let dt = to - s.t in
    record s {
      x = drift s.x s.vx dt;
      y = drift s.y s.vy dt;
      left = clamp (drift s.left (s.left_dir *ℤ pos paddle_speed) dt) s.half_a;
      right = clamp (drift s.right (s.right_dir *ℤ pos paddle_speed) dt) s.half_b;
      t = to;
    }

unfoldable pub move : State → ℕ → Result State
unfolding glide
move s to = do
  throw_if (ltb to s.t) time_reversal
  ok (if s.awaiting_serve || s.finished then s else glide s to)

-- At a wall: the ball is put on it and flies back.
bounce : State → ℕ → State
bounce s kind = record s {
  y = if kind == 1 then pos radius else pos (height - radius);
  vy = negate s.vy;
}

-- At the plane of a paddle: the ball returns if it touches the paddle, and passes otherwise.
strike : State → ℕ → State
strike s kind =
    let paddle = if kind == 3 then s.left else s.right in
    let half = if kind == 3 then s.half_a else s.half_b in
    let x = if kind == 3 then pos plane else pos (width - plane) in
    if leb_ℤ (paddle -ℤ half) (s.y +ℤ pos radius) && leb_ℤ (s.y -ℤ pos radius) (paddle +ℤ half)
    then record s { x = x; vx = negate s.vx }
    else record s { x = x +ℤ (if ltb_ℤ s.vx (pos 0) then negsuc 0 else pos 1) }

-- The point is counted, and the game goes on with a serve, after an intermission in mode 1.
begin_rally : State → State
unfolding serve
begin_rally s =
    let served = serve s in
    if s.mode == 1
    then record served { awaiting_serve = true; resume_at = s.t + 3000000; vx = pos 0; vy = pos 0 }
    else served

goal : State → ℕ → State
unfolding begin_rally
goal s kind =
    let a = if kind == 5 then s.score_a else s.score_a + 1 in
    let b = if kind == 5 then s.score_b + 1 else s.score_b in
    let done = a == 7 || b == 7 in
    let scored = record s { score_a = a; score_b = b; finished = done } in
    if done then scored else begin_rally scored

unfoldable pub collide : State → ℕ → State
unfolding bounce strike goal
collide s kind =
    if kind == 1 || kind == 2
    then bounce s kind
    else if kind == 3 || kind == 4
    then strike s kind
    else goal s kind

-- One round of the loop of `advance`.
unfoldable pub round : ℕ → State → Result (Round State (State × Bool))
round target s = if s.finished || s.awaiting_serve then ok (returned (s, true)) else (do
  e ← next s
  if ltb target e.at
      then (do moved ← move s target; ok (returned (moved, true)))
      else (do moved ← move s e.at; ok (continued (collide moved e.kind))))

-- After `limit` rounds: whether nothing was left to do.
unfoldable pub settle : ℕ → State → Result (State × Bool)
settle target s =
    if s.finished || s.awaiting_serve
    then ok (s, true)
    else (do e ← next s; ok (s, ltb target e.at && s.t == target))

unfoldable pub advance : State → ℕ → ℕ → Result (State × Bool)
advance state target limit = do
  throw_if (ltb target state.t) time_reversal
  for_loop limit (round target) (settle target) state

unfoldable pub handicap : ℕ → ℕ → ℤ × ℤ
handicap paid_a paid_b =
    let total = paid_a + paid_b in
    let favorite = if ltb paid_b paid_a then paid_a else paid_b in
    let share_bps = favorite * 10000 / total in
    let reduction = (share_bps - 6000) * 2500 / 4000 in
    let half = pos half_paddle *ℤ (pos 10000 -ℤ pos reduction) /ℤ 10000 in
    if ltb total 2000000000000000
    then (pos half_paddle, pos half_paddle)
    else if leb share_bps 6000
    then (pos half_paddle, pos half_paddle)
    else if ltb paid_b paid_a
    then (half, pos half_paddle)
    else (pos half_paddle, half)

unfoldable pub resume : State → ℕ → ℕ → ℕ → Result State
resume state at paid_a paid_b = do
  throw_if (not state.awaiting_serve || ltb at state.resume_at) serve_not_ready
  let halves = handicap paid_a paid_b
  ok (
      serve (record state {
        half_a = halves.0;
        half_b = halves.1;
        awaiting_serve = false;
        resume_at = 0;
        t = at;
        left = pos (height / 2);
        right = pos (height / 2);
      }))
