-- ===== src/Chaos/Rally.antt =====
-- shared/chaos-rally.ts: the score of a Chaos game after the goals of one instant.
use pongit.Common.{
  ℕ, ◌+◌, ◌≤◌, ◌<◌, ◌≡◌, ◌⊎◌, ◌↔◌, Bool, true, false, ◌||◌, arith, min, leb, ltb, ◌==◌,
  if◌then◌else◌, Result, ok, ◌>>◌, throw_if, invalid_goal_state, Returns,
}

pub record ChaosScore : Type 0 where
  pub a : ℕ
  pub b : ℕ
  pub rally : ℕ
  pub finished : Bool
  pub winner : ℕ

-- The score after a goal of the one side or the other.
count_point : ChaosScore → ℕ → Bool → ChaosScore × Bool × Bool
count_point s goals jackpot =
    let delta = if jackpot then 2 else 1 in
    let a = if goals == 1 then min 7 (s.a + delta) else s.a in
    let b = if goals == 1 then s.b else min 7 (s.b + delta) in
    let finished = leb 7 a || leb 7 b in
    let winner = if finished then (if leb 7 a then 1 else 2) else s.winner in
    (
      record { a = a; b = b; rally = s.rally + 1; finished = finished; winner = winner },
      true,
      finished,
    )

-- Bit 0 of `goals` is a goal of the side a, bit 1 one of b.
unfoldable pub resolve_chaos_goals : ChaosScore → ℕ → Bool → Result (ChaosScore × Bool × Bool)
unfolding count_point
resolve_chaos_goals s goals jackpot = do
  throw_if (ltb 7 s.a || ltb 7 s.b || ltb 3 goals) invalid_goal_state
  if s.finished || goals == 0 then ok (s, false, false) else (do
    throw_if (leb 7 s.a || leb 7 s.b || leb 0xffffffff s.rally) invalid_goal_state
    ok (
        if goals == 3
        then (record s { rally = s.rally + 1 }, false, false)
        else count_point s goals jackpot))

-- A running game has no winner yet and both scores under 7; an ended one has one winner with 7.
pub record IsScore (s : ChaosScore) : Type 0 where
  pub running : s.finished ≡ false → (s.winner ≡ 0) × (s.a < 7) × (s.b < 7)
  pub won_a : s.finished ≡ true → s.winner ≡ 1 → (s.a ≡ 7) × (s.b < 7)
  pub won_b : s.finished ≡ true → (s.winner ≡ 1) ⊎ ((s.winner ≡ 2) × (s.a < 7) × (s.b ≡ 7))

-- A point counts 1, with the jackpot 2, and a score stops at 7.
abbrev pub add_point : ℕ → Bool → ℕ
add_point score jackpot = min 7 (score + (if jackpot then 2 else 1))

-- What the goals `goals` make of the score.
pub record IsResolved (s : ChaosScore) (goals : ℕ) (jackpot : Bool) (r : ChaosScore × Bool × Bool)
    : Type 0 where
  pub score : IsScore r.0
  pub goal_of_a :
      goals ≡ 1
      → s.finished ≡ false
      → (r.0.a ≡ add_point s.a jackpot) × (r.0.b ≡ s.b) × (r.1 ≡ true)
  pub goal_of_b :
      goals ≡ 2
      → s.finished ≡ false
      → (r.0.a ≡ s.a) × (r.0.b ≡ add_point s.b jackpot) × (r.1 ≡ true)
  pub no_goal :
      (goals ≡ 0) ⊎ (goals ≡ 3)
      → (r.0.a ≡ s.a)
        × (r.0.b ≡ s.b)
        × (r.0.finished ≡ s.finished)
        × (r.0.winner ≡ s.winner)
        × (r.1 ≡ false)
  pub closed : s.finished ≡ true → (r.0 ≡ s) × (r.1 ≡ false) × (r.2 ≡ false)
  pub ends : (r.2 ≡ true) ↔ ((s.finished ≡ false) × (r.0.finished ≡ true))
  pub rallies : r.0.rally ≡ s.rally + (if s.finished || goals == 0 then 0 else 1)

-- On a sound score whose rally counter is below the limit of 32 bits, the goals of an instant are
-- resolved: the result is sound, so that a running game has no winner and an ended one has the side with
-- 7. In a running game goal 1 adds the point to a alone and goal 2 to b alone, up to 7; no goal, goals of
-- both sides at once and a game that had ended change no score. The rally counter grows by 1 where there
-- was a goal in a running game, and the end is reported exactly by the call that ends the game.
pub resolve_chaos_goals-IsResolved :
    (s : ChaosScore) (goals : ℕ) (jackpot : Bool)
    → IsScore s
    → goals ≤ 3
    → s.rally < 0xffffffff
    → Returns (IsResolved s goals jackpot) (resolve_chaos_goals s goals jackpot)
unfolding resolve_chaos_goals
resolve_chaos_goals-IsResolved s goals jackpot v g r = ground arith
