-- ===== src/Physics/V2/Advance.antt =====
-- The loop of `advance` in shared/physics-v2.ts keeps the invariant, and never throws.
use pongit.Common.{
  ℕ, ◌-◌, ◌≤◌, ◌<◌, ◌≡◌, refl, ◌⊎◌, inl, inr, Bool, true, false, ◌||◌, arith, ltb, if◌then◌else◌,
  Bool-cases, ok, Returns, Returns-bind, ◌>>=◌,
}
use pongit.Common.Loops.{returned, continued, Outcome, for_loop-Returns}
use pongit.Physics.Court.{GameEvent, drift}
use pongit.Physics.V2.{
  State, serve, next, glide, move, bounce, strike, begin_rally, goal, collide, round, settle,
  advance,
}
use pongit.Physics.V2.Flight.{IsAhead, next-IsAhead}
use pongit.Physics.V2.Validity.{IsValid, IsLive, glide-IsGame, collide-IsValid, collide-t}

-- The rules of the game stay, and a score only grows.
pub record Keeps (from s : State) : Type 0 where
  pub seed_kept : s.seed ≡ from.seed
  pub mode_kept : s.mode ≡ from.mode
  pub dirs_kept : (s.left_dir ≡ from.left_dir) × (s.right_dir ≡ from.right_dir)
  pub halves_kept : (s.half_a ≡ from.half_a) × (s.half_b ≡ from.half_b)
  pub score_a_grows : from.score_a ≤ s.score_a
  pub score_b_grows : from.score_b ≤ s.score_b
  pub since : from.t ≤ s.t

pub Keeps-refl : (s : State) → Keeps s s
Keeps-refl s = ground arith

pub Keeps-trans : {a b c : State} → Keeps a b → Keeps b c → Keeps a c
Keeps-trans h k = ground arith

pub glide-Keeps : (from s : State) (to : ℕ) → s.t ≤ to → Keeps from s → Keeps from (glide s to)
unfolding glide
glide-Keeps from s to le k = ground arith

collide-Keeps : (from s : State) (kind : ℕ) → Keeps from s → Keeps from (collide s kind)
unfolding collide bounce strike goal begin_rally serve
collide-Keeps from s kind k = ground arith

-- The state is valid, and its clock has not passed the target.
pub record IsBefore (from : State) (target : ℕ) (s : State) : Type 0 where
  pub valid : IsValid s
  pub kept : Keeps from s
  pub until : s.t ≤ target

-- The flag means that the game waits or ended, or that the target was reached.
pub record IsSettled (from : State) (target : ℕ) (result : State × Bool) : Type 0 where
  pub before : IsBefore from target result.0
  pub complete :
      result.1 ≡ true
      → (result.0.finished ≡ true) ⊎ (result.0.awaiting_serve ≡ true) ⊎ (result.0.t ≡ target)

pub move_live : (s : State) (to : ℕ) → IsLive s → s.t ≤ to → move s to ≡ ok (glide s to)
unfolding move
move_live s to l le = ground arith

pub glide-fields :
    (s : State) (to : ℕ)
    → IsLive s
    → IsLive (glide s to) × ((glide s to).t ≡ to) × ((glide s to).y ≡ drift s.y s.vy (to - s.t))
unfolding glide
glide-fields s to l = ((l.0, l.1), refl, refl)

pub glide-IsValid :
    (s : State) (target : ℕ) (e : GameEvent)
    → IsLive s
    → IsValid s
    → IsAhead s e
    → s.t ≤ target
    → target < e.at
    → IsValid (glide s target)
glide-IsValid s target e l v ahead le lt =
    let (live, at, court) = glide-fields s target l in
    record { game = glide-IsGame s target l v.game; court = rw court (ahead.before target le lt) }

fly-IsBefore :
    (from : State) (target : ℕ) (s : State) (e : GameEvent)
    → IsLive s
    → IsBefore from target s
    → IsAhead s e
    → Returns (Outcome (IsBefore from target) (IsSettled from target)) (
        if ltb target e.at
        then (do moved ← move s target; ok (returned (moved, true)))
        else (do moved ← move s e.at; ok (continued (collide moved e.kind))))
fly-IsBefore from target s e l b ahead = elim (Bool-cases (ltb target e.at)) [
  | inl far ↦
      let lt : target < e.at = ground arith in
      let (live, at, court) = glide-fields s target l in
      simp (far, move_live s target l b.until)
        (record {
          before = record {
            valid = glide-IsValid s target e l b.valid ahead b.until lt;
            kept = glide-Keeps from s target b.until b.kept;
            until = rw at (omega arith);
          };
          complete = λ _. inr (inr at);
        })
  | inr near ↦
      let le : e.at ≤ target = ground arith in
      let (live, at, court) = glide-fields s e.at l in
      simp (near, move_live s e.at l ahead.later)
        (record {
          valid =
              collide-IsValid (glide s e.at) e.kind live (glide-IsGame s e.at l b.valid.game)
                (rw court ahead.arrival) ahead.kind_from ahead.kind_to;
          kept =
              collide-Keeps from (glide s e.at) e.kind (glide-Keeps from s e.at ahead.later b.kept);
          until = rw (collide-t (glide s e.at) e.kind) (rw at le);
        })
]

-- The loop returns at once from a game that has ended or waits.
pub stop :
    (s : State)
    → (s.finished ≡ true) ⊎ (s.awaiting_serve ≡ true)
    → (s.finished || s.awaiting_serve) ≡ true
stop s h = ground arith

pub running : (s : State) → IsLive s → (s.finished || s.awaiting_serve) ≡ false
running s l = ground arith

pub halted :
    (s : State)
    → (s.finished ≡ true) ⊎ (s.awaiting_serve ≡ true)
    → {P : Type 0} → (s.finished ≡ true) ⊎ (s.awaiting_serve ≡ true) ⊎ P
halted s (inl h) = inl h
halted s (inr h) = inr (inl h)

pub play_cases : (s : State) → ((s.finished ≡ true) ⊎ (s.awaiting_serve ≡ true)) ⊎ IsLive s
play_cases s = ground arith

pub next-Returns : (s : State) → IsValid s → IsLive s → Returns (IsAhead s) (next s)
next-Returns s v (f, a) =
    let (mx, my) = v.game.moving f a in next-IsAhead s f a (omega arith) my v.court

pub round-keeps :
    (from : State) (target : ℕ) (s : State)
    → IsBefore from target s
    → Returns (Outcome (IsBefore from target) (IsSettled from target)) (round target s)
unfolding round
round-keeps from target s b = elim (play_cases s) [
  | inl done ↦ simp (stop s done) (record { before = b; complete = λ _. halted s done })
  | inr (f, a) ↦ simp (running s (f, a)) (
      Returns-bind (IsAhead s) (Outcome (IsBefore from target) (IsSettled from target)) (next s) _
        (next-Returns s b.valid (f, a)) λ e ahead. fly-IsBefore from target s e (f, a) b ahead)
]

settle-IsSettled :
    (from : State) (target : ℕ) (s : State)
    → IsBefore from target s
    → Returns (IsSettled from target) (settle target s)
unfolding settle
settle-IsSettled from target s b = elim (play_cases s) [
  | inl done ↦ simp (stop s done) (record { before = b; complete = λ _. halted s done })
  | inr (f, a) ↦ simp (running s (f, a)) (
      Returns-bind (IsAhead s) (IsSettled from target) (next s) _ (next-Returns s b.valid (f, a))
        λ e _. record { before = b; complete = λ h. inr (inr (ground arith)) })
]

-- From a valid state and for a target that is not before its clock, `advance` never throws,
-- whatever the limit: the result is valid, its clock is between the state's and the target, seed,
-- mode, paddle sizes and paddle directions are those of the state, and no score has fallen; and if
-- the flag is set, the game has ended, waits for a serve, or has reached the target.
pub advance-IsSettled :
    (s : State) (target limit : ℕ)
    → IsValid s
    → s.t ≤ target
    → Returns (IsSettled s target) (advance s target limit)
unfolding advance
advance-IsSettled s target limit v le = simp in_time (
    for_loop-Returns (IsBefore s target) (IsSettled s target) (round target) (settle target)
      (round-keeps s target) (settle-IsSettled s target) limit s
      (record { valid = v; kept = Keeps-refl s; until = le }))
  where
    in_time : ltb target s.t ≡ false
    in_time = ground arith

-- A stretch of the game after another.
pub IsSettled-after :
    {from s : State} {target : ℕ} {r : State × Bool}
    → Keeps from s
    → IsSettled s target r
    → IsSettled from target r
IsSettled-after k h = record {
  before = record {
    valid = h.before.valid;
    kept = Keeps-trans k h.before.kept;
    until = h.before.until;
  };
  complete = h.complete;
}
