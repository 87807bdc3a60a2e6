-- ===== src/Physics/V2/Batches.antt =====
-- `advance` of shared/physics-v2.ts in batches: a limit that ran out may be raised or resumed.
use pongit.Common.{
  ℕ, zero, suc, ◌+◌, ◌≤◌, ◌≡◌, ap, subst, sym, ◌∙◌, inl, inr, Bool, true, false, ◌&&◌, ◌==◌, ==_iff,
  arith, ltb, Result-cases, Result, ok, err, ◌>>=◌, Returns, Returns-ok, Ensures, Ensures-ok,
}
use native.Mathlib.Nat.{zero-add, suc-add, add-zero, sub_self}
use pongit.Common.Loops.{Round, returned, continued, Outcome, for_loop, proceed}
use pongit.Physics.Court.{drift-zero, clamp-id}
use pongit.Physics.V2.{State, next, glide, move, round, settle, advance}
use pongit.Physics.V2.Validity.{IsValid, IsLive}
use pongit.Physics.V2.Advance.{
  IsBefore, IsSettled, Keeps-refl, round-keeps, stop, running, play_cases, move_live,
  advance-IsSettled,
}

-- A round that returns has finished the work.
abbrev ReturnsTrue : Round State (State × Bool) → Type 0
ReturnsTrue (returned r) = r.1 ≡ true
ReturnsTrue (continued s) = Unit

round-ReturnsTrue : (target : ℕ) (s : State) → Ensures ReturnsTrue (round target s)
unfolding round
round-ReturnsTrue target s = ground arith

settle-state : (target : ℕ) (s : State) → Ensures (λ r. r.0 ≡ s) (settle target s)
unfolding settle
settle-state target s = ground arith

module _ (target m : ℕ) (u : State) where
  abbrev run : ℕ → State → Result (State × Bool)
  run n s = for_loop n (round target) (settle target) s

  for_loop-resume : (n : ℕ) (s : State) → run n s ≡ ok (u, false) → run (n + m) s ≡ run m u
  unfolding for_loop
  for_loop-resume zero s e =
      rw zero-add (ap (run m) (sym (Ensures-ok _ _ (settle-state target s) e)))
  for_loop-resume (suc n) s e =
      rw suc-add (go (round target s) (round-ReturnsTrue target s) (for_loop-resume n) e)
    where
      go :
          (r : Result (Round State (State × Bool)))
          → Ensures ReturnsTrue r
          → ((t : State) → run n t ≡ ok (u, false) → run (n + m) t ≡ run m u)
          → (r >>= λ o. proceed o (for_loop n (round target) (settle target))) ≡ ok (u, false)
          → (r >>= λ o. proceed o (for_loop (n + m) (round target) (settle target))) ≡ run m u
      go (err f) h ih e = cc
      go (ok (returned (s', b))) h ih e = ground arith
      go (ok (continued t)) h ih e = ih t e

in_time : (target t : ℕ) → t ≤ target → ltb target t ≡ false
in_time target t h = ground arith

-- If `advance` from a valid state, with a target not before its clock, ran out of its limit of `n`
-- rounds at the state `u`, then `m` more rounds from `u` give what a limit of `n + m` gives at
-- once, errors included.
pub advance_resumes :
    (s u : State) (target n m : ℕ)
    → IsValid s
    → s.t ≤ target
    → advance s target n ≡ ok (u, false)
    → advance s target (n + m) ≡ advance u target m
unfolding advance
advance_resumes s u target n m v le e =
    let settled =
      Returns-ok (IsSettled s target) (advance s target n) (advance-IsSettled s target n v le) e in
    simp (in_time target s.t le, in_time target u.t settled.before.until)
      (for_loop-resume target m u n s (simp (in_time target s.t le) at e))

-- A completed result does not depend on how much of the limit was left.
glide_still : (s : State) → IsValid s → glide s s.t ≡ s
unfolding glide
glide_still s v = simp (
  sub_self,
  drift-zero,
  clamp-id _ _ v.game.fits_a.2 v.game.fits_a.3,
  clamp-id _ _ v.game.fits_b.2 v.game.fits_b.3,
)

stay : (s : State) (target : ℕ) → IsValid s → IsLive s → s.t ≡ target → move s target ≡ ok s
stay s target v l at =
    subst (λ k. move s k ≡ ok s) at (move_live s s.t l (omega arith) ∙ ap ok (glide_still s v))

settle-idle :
    (target : ℕ) (s u : State)
    → IsValid s
    → settle target s ≡ ok (u, true)
    → round target s ≡ ok (returned (u, true))
unfolding settle round
settle-idle target s u v h = elim (play_cases s) [
  | inl done ↦ let h' = simp (stop s done) at h in simp (stop s done) (cc h')
  | inr live ↦ elim (Result-cases (next s)) [
    | inl (e, n) ↦
        let h' = simp (running s live, n) at h in
        let (same, far, at) = ended s u (ltb target e.at) (s.t == target) h' in
        simp (running s live, n, far, stay s target v live ((==_iff s.t target).0 at)) (cc same)
    | inr (f, n) ↦ let h' = simp (running s live, n) at h in cc h'
  ]
]
  where
    ended :
        (s u : State) (a b : Bool)
        → ◌≡◌ {A = Result (State × Bool)} (ok (s, a && b)) (ok (u, true))
        → (s ≡ u) × (a ≡ true) × (b ≡ true)
    ended s u a b h = ground arith

module _ (from : State) (target m : ℕ) (u : State) where
  for_loop-stable :
      (n : ℕ) (s : State)
      → IsBefore from target s
      → for_loop n (round target) (settle target) s ≡ ok (u, true)
      → for_loop (n + suc m) (round target) (settle target) s ≡ ok (u, true)
  unfolding for_loop
  for_loop-stable zero s b e = rw zero-add (simp (settle-idle target s u b.valid e))
  for_loop-stable (suc n) s b e =
      rw suc-add (go (round target s) (round-keeps from target s b) (for_loop-stable n) e)
    where
      go :
          (r : Result (Round State (State × Bool)))
          → Returns (Outcome (IsBefore from target) (IsSettled from target)) r
          → ((t : State)
              → IsBefore from target t
              → for_loop n (round target) (settle target) t ≡ ok (u, true)
              → for_loop (n + suc m) (round target) (settle target) t ≡ ok (u, true))
          → (r >>= λ o. proceed o (for_loop n (round target) (settle target))) ≡ ok (u, true)
          → (r >>= λ o. proceed o (for_loop (n + suc m) (round target) (settle target)))
            ≡ ok (u, true)
      go (err f) h ih e = absurd h
      go (ok (returned r)) h ih e = e
      go (ok (continued t)) h ih e = ih t h e

-- A result that `advance` reports as complete, from a valid state and with a target not before its
-- clock, is the result under every larger limit.
pub advance_stable :
    (s u : State) (target n m : ℕ)
    → IsValid s
    → s.t ≤ target
    → advance s target n ≡ ok (u, true)
    → advance s target (n + m) ≡ ok (u, true)
unfolding advance
advance_stable s u target n zero v le e = rw add-zero e
advance_stable s u target n (suc m) v le e = simp (in_time target s.t le) (
    for_loop-stable s target m u n s (record { valid = v; kept = Keeps-refl s; until = le })
      (simp (in_time target s.t le) at e))
