-- ===== src/Physics/V1/Embedding.antt =====
-- shared/physics.ts is the Classic mode of shared/physics-v2.ts.
use pongit.Common.{
  map_result, ℕ, zero, suc, ◌≡◌, refl, ap, Bool, true, false, ◌&&◌, arith, ltb, ◌==◌, if◌then◌else◌,
  Bool-cases, inl, inr, Result, ok, err, ◌>>=◌,
}
use pongit.Common.Int.{pos}
use pongit.Common.Loops.{Round, returned, continued, for_loop, proceed}
use pongit.Physics.Court.{half_paddle, GameEvent}
use pongit.Physics.V1.{State}
use pongit.Physics.V1
use pongit.Physics.V2

-- A state of the first deployment as a Classic state of the second.
unfoldable pub embed : State → V2.State
embed s = record {
  x = s.x;
  y = s.y;
  vx = s.vx;
  vy = s.vy;
  left = s.left;
  right = s.right;
  left_dir = s.left_dir;
  right_dir = s.right_dir;
  t = s.t;
  score_a = s.score_a;
  score_b = s.score_b;
  seed = s.seed;
  finished = s.finished;
  mode = 0;
  half_a = pos half_paddle;
  half_b = pos half_paddle;
  awaiting_serve = false;
  resume_at = 0;
}

next-embed : (s : State) → V2.next (embed s) ≡ V1.next s
unfolding embed V1.next V2.next
next-embed s = refl

glide-embed : (s : State) (to : ℕ) → V2.glide (embed s) to ≡ embed (V1.glide s to)
unfolding embed V1.glide V2.move
glide-embed s to = refl

collide-embed : (s : State) (kind : ℕ) → V2.collide (embed s) kind ≡ embed (V1.collide s kind)
unfolding embed V1.collide V2.collide V1.serve V2.serve
collide-embed s kind = ground arith

embed_round : Round State (State × Bool) → Round V2.State (V2.State × Bool)
embed_round (returned (s, b)) = returned (embed s, b)
embed_round (continued s) = continued (embed s)

abbrev pub embed_result : State × Bool → V2.State × Bool
embed_result (s, b) = (embed s, b)

move-embed :
    (s : State) (to : ℕ)
    → s.finished ≡ false
    → V2.move (embed s) to ≡ map_result embed (V1.move s to)
unfolding embed V1.move V2.move
move-embed s to f = ground arith

embed-fields :
    (s : State)
    → ((embed s).finished ≡ s.finished) × ((embed s).awaiting_serve ≡ false) × ((embed s).t ≡ s.t)
unfolding embed
embed-fields s = (refl, refl, refl)

stopped-embed :
    (m : Result State)
    → (map_result embed m >>= λ moved. ok (returned (moved, true)))
      ≡ map_result embed_round (m >>= λ moved. ok (returned (moved, true)))
unfolding embed_round
stopped-embed (ok s) = refl
stopped-embed (err f) = refl

collided-embed :
    (kind : ℕ) (m : Result State)
    → (map_result embed m >>= λ moved. ok (continued (V2.collide moved kind)))
      ≡ map_result embed_round (m >>= λ moved. ok (continued (V1.collide moved kind)))
unfolding embed_round
collided-embed kind (ok s) = ap (λ u. ok (continued u)) (collide-embed s kind)
collided-embed kind (err f) = refl

round-embed :
    (target : ℕ) (s : State)
    → V2.round target (embed s) ≡ map_result embed_round (V1.round target s)
unfolding V2.round V1.round embed_round
round-embed target s = elim (Bool-cases s.finished) [
  | inl f ↦ simp ((embed-fields s).0, f)
  | inr f ↦ simp ((embed-fields s).0, (embed-fields s).1, f, next-embed s) (fly (V1.next s) f)
]
  where
    fly :
        (m : Result GameEvent)
        → s.finished ≡ false
        → (m >>= λ e.
            if ltb target e.at
            then (V2.move (embed s) target >>= λ moved. ok (returned (moved, true)))
            else (V2.move (embed s) e.at >>= λ moved. ok (continued (V2.collide moved e.kind))))
          ≡ map_result embed_round (
              m >>= λ e.
              if ltb target e.at
              then (V1.move s target >>= λ moved. ok (returned (moved, true)))
              else (V1.move s e.at >>= λ moved. ok (continued (V1.collide moved e.kind))))
    fly (err x) f = refl
    fly (ok e) f = elim (Bool-cases (ltb target e.at)) [
      | inl far ↦ simp (far, move-embed s target f, stopped-embed (V1.move s target))
      | inr near ↦ simp (near, move-embed s e.at f, collided-embed e.kind (V1.move s e.at))
    ]

settle-embed :
    (target : ℕ) (s : State)
    → V2.settle target (embed s) ≡ map_result embed_result (V1.settle target s)
unfolding V2.settle V1.settle
settle-embed target s = elim (Bool-cases s.finished) [
  | inl f ↦ simp ((embed-fields s).0, f)
  | inr f ↦
      simp ((embed-fields s).0, (embed-fields s).1, (embed-fields s).2, f, next-embed s)
        (checked (V1.next s))
]
  where
    checked :
        (m : Result GameEvent)
        → (m >>= λ e. ok (embed s, ltb target e.at && s.t == target))
          ≡ map_result embed_result (m >>= λ e. ok (s, ltb target e.at && s.t == target))
    checked (ok e) = refl
    checked (err f) = refl

loop-embed :
    (target n : ℕ) (s : State)
    → for_loop n (V2.round target) (V2.settle target) (embed s)
      ≡ map_result embed_result (for_loop n (V1.round target) (V1.settle target) s)
unfolding for_loop embed_round
loop-embed target zero s = settle-embed target s
loop-embed target (suc n) s =
    rw (round-embed target s) (go (V1.round target s) (loop-embed target n))
  where
    go :
        (m : Result (Round State (State × Bool)))
        → ((t : State)
            → for_loop n (V2.round target) (V2.settle target) (embed t)
              ≡ map_result embed_result (for_loop n (V1.round target) (V1.settle target) t))
        → (map_result embed_round m >>= λ o.
            proceed o (for_loop n (V2.round target) (V2.settle target)))
          ≡ map_result embed_result
              (m >>= λ o. proceed o (for_loop n (V1.round target) (V1.settle target)))
    go (err x) ih = refl
    go (ok (returned r)) ih = refl
    go (ok (continued t)) ih = ih t

-- From the embedded state `advance` of the second deployment gives the embedded result of the
-- first's, or the same error, for every target and limit.
pub advance-embed :
    (s : State) (target limit : ℕ)
    → V2.advance (embed s) target limit ≡ map_result embed_result (V1.advance s target limit)
unfolding V2.advance V1.advance
advance-embed s target limit = elim (Bool-cases (ltb target s.t)) [
  | inl past ↦ simp ((embed-fields s).2, past)
  | inr in_time ↦ simp ((embed-fields s).2, in_time, loop-embed target limit s)
]

pub initial-embed : (seed : ℕ) → V2.initial seed 0 ≡ ok (embed (V1.initial seed))
unfolding V2.initial V1.initial V2.serve V1.serve embed
initial-embed seed = refl
