-- ===== src/Physics/V2/Rallies.antt =====
-- The start of a game and of a rally in shared/physics-v2.ts: `initial`, `handicap` and `resume`.
use pongit.Common.{
  ℕ, ◌+◌, ◌-◌, ◌*◌, ◌/◌, ◌≤◌, ◌<◌, ◌≡◌, refl, ◌⊎◌, true, false, not, ◌||◌, ◌&&◌, arith, ltb, ◌==◌,
  if◌then◌else◌, err, Returns, bad_mode, serve_not_ready,
}
use native.Mathlib.Nat.{div-le_of_le-mul, add_comm}
use pongit.Common.Int.{ℤ, pos, magnitude, ◌-ℤ◌, ◌*ℤ◌, ◌/ℤ◌, ◌≤ℤ◌}
use pongit.Physics.Court.{height, half_paddle}
use pongit.Physics.V2.{State, serve, initial, handicap, resume}
use pongit.Physics.V2.Validity.{IsValid, IsReady, PaddleFits}

-- The half height of the favourite's paddle for a share of the stakes.
abbrev reduced : ℕ → ℤ
reduced share = pos half_paddle *ℤ (pos 10000 -ℤ pos ((share - 6000) * 2500 / 4000)) /ℤ 10000

share-le : (favorite total : ℕ) → favorite ≤ total → favorite * 10000 / total ≤ 10000
share-le favorite total h = div-le_of_le-mul total (omega arith)

difference : (r : ℕ) → r ≤ 10000 → pos 10000 -ℤ pos r ≡ pos (10000 - r)
unfolding ◌-ℤ◌
difference r h = ground arith

scaled : (m : ℕ) → pos half_paddle *ℤ pos m /ℤ 10000 ≡ pos (half_paddle * m / 10000)
unfolding ◌*ℤ◌ ◌/ℤ◌
scaled m = ground arith

abbrev pub IsHandicap : ℤ → Type 0
IsHandicap half = (pos 36000000 ≤ℤ half) × (half ≤ℤ pos half_paddle)

reduced-IsHandicap : (share : ℕ) → share ≤ 10000 → IsHandicap (reduced share)
reduced-IsHandicap share h =
    let r = (share - 6000) * 2500 / 4000 in
    rw (difference r (omega arith), scaled (10000 - r)) (omega arith, omega arith)

full-IsHandicap : IsHandicap (pos half_paddle)
full-IsHandicap = (omega arith, omega arith)

-- The larger stake's share, as the code computes it.
abbrev share_of : ℕ → ℕ → ℕ
share_of a b = (if ltb b a then a else b) * 10000 / (a + b)

share_of-le : (a b : ℕ) → share_of a b ≤ 10000
share_of-le a b = share-le (if ltb b a then a else b) (a + b) (ground arith)

-- Whatever the two stakes are, both half paddles are between 36 and 48 units: a handicap takes at
-- most a quarter.
pub handicap-IsHandicap : (a b : ℕ) → IsHandicap (handicap a b).0 × IsHandicap (handicap a b).1
unfolding handicap
handicap-IsHandicap a b =
    ground (arith, reduced-IsHandicap (share_of a b) (share_of-le a b), full-IsHandicap)

share_of_tie : (a : ℕ) → share_of a a ≤ 6000
share_of_tie a = div-le_of_le-mul (a + a) (ground arith)

-- Swapping the stakes swaps the two half paddles.
handicap_swap : (a b : ℕ) → handicap b a ≡ ((handicap a b).1, (handicap a b).0)
unfolding handicap
handicap_swap a b = rw (add_comm b a) (ground (arith, share_of_tie a))

served-moving : (s : State) → (2 ≤ magnitude (serve s).vx) × (0 < magnitude (serve s).vy)
unfolding serve
served-moving s = ground arith

pub served-IsValid : (s : State) → IsReady s → IsValid (serve s)
unfolding serve
served-IsValid s r = record {
  game = record {
    ready = record {
      fits_a = r.fits_a;
      fits_b = r.fits_b;
      known_mode = r.known_mode;
      waits = r.waits;
      undecided = r.undecided;
      decided = r.decided;
    };
    moving = λ _ _. served-moving s;
  };
  court = (omega arith, omega arith);
}

centred : (half : ℤ) → IsHandicap half → PaddleFits half (pos (height / 2))
unfolding ◌-ℤ◌
centred half h = ground arith

-- In the two modes 0 and 1 `initial` returns, for every seed, a valid state.
pub initial-IsValid : (seed mode : ℕ) → mode ≤ 1 → Returns IsValid (initial seed mode)
unfolding initial
initial-IsValid seed mode h = simp (known mode h) (
    served-IsValid _ (record {
      fits_a = centred _ full-IsHandicap;
      fits_b = centred _ full-IsHandicap;
      known_mode = h;
      waits = λ a. cc;
      undecided = λ f. (omega arith, omega arith);
      decided = λ f. cc;
    }))
  where
    known : (k : ℕ) → k ≤ 1 → (not (k == 0) && not (k == 1)) ≡ false
    known k le = ground arith

pub initial_refused : (seed mode : ℕ) → 1 < mode → initial seed mode ≡ err bad_mode
unfolding initial
initial_refused seed mode h = ground arith

-- What `resume` makes of an intermission.
pub record IsResumed (s : State) (at a b : ℕ) (s' : State) : Type 0 where
  pub valid : IsValid s'
  pub on_time : s'.t ≡ at
  pub plays : s'.awaiting_serve ≡ false
  pub half_a_lem : s'.half_a ≡ (handicap a b).0
  pub half_b_lem : s'.half_b ≡ (handicap a b).1
  pub same_score : (s'.score_a ≡ s.score_a) × (s'.score_b ≡ s.score_b)

on_time :
    (s : State) (at : ℕ)
    → s.awaiting_serve ≡ true
    → s.resume_at ≤ at
    → (not s.awaiting_serve || ltb at s.resume_at) ≡ false
on_time s at w h = ground arith

pub serve-fields :
    (s : State)
    → ((serve s).t ≡ s.t)
      × ((serve s).awaiting_serve ≡ s.awaiting_serve)
      × ((serve s).half_a ≡ s.half_a)
      × ((serve s).half_b ≡ s.half_b)
      × ((serve s).score_a ≡ s.score_a)
      × ((serve s).score_b ≡ s.score_b)
unfolding serve
serve-fields s = (refl, refl, refl, refl, refl, refl)

-- A valid state that waits for a serve is resumed at every time from `resume_at` on: the result is
-- valid, has that time, plays, has the half paddles of `handicap` and the same score.
pub resume-IsResumed :
    (s : State) (at a b : ℕ)
    → IsValid s
    → s.awaiting_serve ≡ true
    → s.resume_at ≤ at
    → Returns (IsResumed s at a b) (resume s at a b)
unfolding resume
resume-IsResumed s at a b v w h = simp (on_time s at w h) (record {
  valid = served-IsValid _ (record {
    fits_a = centred _ (handicap-IsHandicap a b).0;
    fits_b = centred _ (handicap-IsHandicap a b).1;
    known_mode = v.game.known_mode;
    waits = λ e. cc;
    undecided = v.game.undecided;
    decided = v.game.decided;
  });
  on_time = (serve-fields _).0;
  plays = (serve-fields _).1;
  half_a_lem = (serve-fields _).2;
  half_b_lem = (serve-fields _).3;
  same_score = ((serve-fields _).4, (serve-fields _).5);
})

-- A game that does not wait, or waits until later, is refused.
pub resume_refused :
    (s : State) (at a b : ℕ)
    → (s.awaiting_serve ≡ false) ⊎ (at < s.resume_at)
    → resume s at a b ≡ err serve_not_ready
unfolding resume
resume_refused s at a b h = ground arith
