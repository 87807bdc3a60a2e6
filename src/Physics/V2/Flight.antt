-- ===== src/Physics/V2/Flight.antt =====
-- The flight of the ball between two events of shared/physics-v2.ts.
use pongit.Common.{
  ℕ, zero, suc, ◌+◌, ◌-◌, ◌*◌, ◌/◌, ◌≤◌, ◌<◌, ◌≡◌, ◌⊎◌, inl, inr, Bool, false, arith, leb,
  if◌then◌else◌, Result, ok, Bool-cases, Returns, Returns-bind,
}
use pongit.Common.Int.{ℤ, pos, negsuc, magnitude, ◌-ℤ◌, ltb_ℤ}
use pongit.Physics.Court.{
  scale, height, radius, GameEvent, travel, drift, InCourt, ceil_lt, drift_up, drift_down,
}
use pongit.Physics.V2.{State, next, horizontal, wall_time}

-- A moving ball has a wall to meet, and stays in the court before it meets it.
abbrev pub WallMet : ℤ → ℤ → Result ℕ → Type 0
WallMet y vy r = (w : ℕ) × (r ≡ ok w) × ((dt : ℕ) → dt < w → InCourt (drift y vy dt))

distance_up : (n : ℕ) → radius ≤ n → magnitude (pos radius -ℤ pos n) ≡ n - radius
unfolding ◌-ℤ◌
distance_up n h = ground arith

distance_down :
    (n : ℕ) → n ≤ height - radius → magnitude (pos (height - radius) -ℤ pos n) ≡ height - radius - n
unfolding ◌-ℤ◌
distance_down n h = ground arith

flight_up :
    (n k dt : ℕ)
    → InCourt (pos n)
    → dt < (magnitude (pos radius -ℤ pos n) * scale + suc k - 1) / suc k
    → InCourt (drift (pos n) (negsuc k) dt)
flight_up n k dt h lt =
    let lt' = rw (distance_up n (omega arith)) at lt in
    let (lo, hi) =
      drift_up n k dt (omega arith) (ceil_lt (n - radius) (suc k) dt (omega arith) lt') in
    (lo, omega arith)

flight_down :
    (n k dt : ℕ)
    → InCourt (pos n)
    → dt < (magnitude (pos (height - radius) -ℤ pos n) * scale + suc k - 1) / suc k
    → InCourt (drift (pos n) (pos (suc k)) dt)
flight_down n k dt h lt =
    let lt' = rw (distance_down n (omega arith)) at lt in
    let (lo, hi) =
      drift_down n (suc k) dt (height - radius) (omega arith)
        (ceil_lt (height - radius - n) (suc k) dt (omega arith) lt') in
    (omega arith, hi)

wall_of :
    (y vy : ℤ)
    → InCourt y
    → 0 < magnitude vy
    → WallMet y vy
        (travel (if ltb_ℤ vy (pos 0) then pos radius -ℤ y else pos (height - radius) -ℤ y) vy)
unfolding travel
wall_of (negsuc n) vy h m = absurd (omega arith)
wall_of (pos n) (pos zero) h m = absurd (omega arith)
wall_of (pos n) (pos (suc k)) h m = (_, ground arith, λ dt lt. flight_down n k dt h lt)
wall_of (pos n) (negsuc k) h m = (_, ground arith, λ dt lt. flight_up n k dt h lt)

abbrev travel_time : ℤ → ℤ → ℕ
travel_time d v = (magnitude d * scale + magnitude v - 1) / magnitude v

travel_ok : (d v : ℤ) → 0 < magnitude v → travel d v ≡ ok (travel_time d v)
unfolding travel
travel_ok d v h = ground arith

abbrev IsHorizontal : State → GameEvent → Type 0
IsHorizontal s e = (s.t ≤ e.at) × (3 ≤ e.kind) × (e.kind ≤ 6)

horizontal-IsHorizontal : (s : State) → 0 < magnitude s.vx → Returns (IsHorizontal s) (horizontal s)
unfolding horizontal
horizontal-IsHorizontal s m = simp (travel_ok _ s.vx m) (ground arith)

-- What `next` announces to a moving ball.
pub record IsAhead (s : State) (e : GameEvent) : Type 0 where
  pub later : s.t ≤ e.at
  pub kind_from : 1 ≤ e.kind
  pub kind_to : e.kind ≤ 6
  pub before : (to : ℕ) → s.t ≤ to → to < e.at → InCourt (drift s.y s.vy (to - s.t))
  pub arrival : (e.kind ≤ 2) ⊎ InCourt (drift s.y s.vy (e.at - s.t))

-- The wall if the ball meets it first, and otherwise the horizontal event.
earlier-IsAhead :
    (s : State) (e : GameEvent) (w : ℕ) (up : Bool)
    → IsHorizontal s e
    → ((dt : ℕ) → dt < w → InCourt (drift s.y s.vy dt))
    → IsAhead s
        (if leb (s.t + w) e.at then record { at = s.t + w; kind = if up then 1 else 2 } else e)
earlier-IsAhead s e w up h keep = elim (Bool-cases (leb (s.t + w) e.at)) [
  | inl first ↦ rw first (record {
    later = omega arith;
    kind_from = ground arith;
    kind_to = ground arith;
    before = λ to from lt. keep (to - s.t) (omega arith);
    arrival = inl (ground arith);
  })
  | inr late ↦
      let far : e.at < s.t + w = ground arith in
      rw late (record {
        later = h.0;
        kind_from = omega arith;
        kind_to = h.2;
        before = λ to from lt. keep (to - s.t) (omega arith);
        arrival = inr (keep (e.at - s.t) (omega arith));
      })
]

pub next-IsAhead :
    (s : State)
    → s.finished ≡ false
    → s.awaiting_serve ≡ false
    → 0 < magnitude s.vx
    → 0 < magnitude s.vy
    → InCourt s.y
    → Returns (IsAhead s) (next s)
unfolding next wall_time
next-IsAhead s f a mx my c =
    let (w, met, keep) = wall_of s.y s.vy c my in
    simp (f, a, met)
      (Returns-bind (IsHorizontal s) (IsAhead s) (horizontal s) _ (horizontal-IsHorizontal s mx)
        λ e h. earlier-IsAhead s e w (ltb_ℤ s.vy (pos 0)) h keep)
