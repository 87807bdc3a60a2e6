-- ===== src/Relayer/Scheduler.antt =====
-- relayer/src/rpc-scheduler.ts: one budget for calls of a provider, with live reads before scans of the
-- history. A call that waits is a number; `timer` is the time of the next tick, where one is set. Times
-- are in milliseconds and not negative.
use pongit.Common.{
  ℕ, zero, suc, ◌+◌, ◌≤◌, ◌<◌, ◌≡◌, refl, sym, subst, ◌⊎◌, inl, inr, Bool, true, false, not, ◌&&◌,
  ◌||◌, arith, ltb, leb, if◌then◌else◌, Bool-cases, List, [], ◌∷◌, ◌++◌, length, Option, none, some,
}

pub record Scheduler : Type 0 where
  pub live : List ℕ
  pub history : List ℕ
  pub next : ℕ
  pub timer : Option ℕ
  pub live_run : ℕ

abbrev pub is_empty : List ℕ → Bool
is_empty [] = true
is_empty (x ∷ xs) = false

-- Whether the history's turn has come.
abbrev pub takes_history : Scheduler → Bool
takes_history s = not (is_empty s.history) && (is_empty s.live || leb 4 s.live_run)

abbrev timer_after : ℕ → Scheduler → Option ℕ
timer_after at s = if is_empty s.live && is_empty s.history then none else some at

-- The first call of a list is released; the other list stays.
abbrev pub release_history : ℕ → ℕ → Scheduler → List ℕ → Scheduler × Option ℕ
release_history spacing now s [] = (s, none)
release_history spacing now s (x ∷ xs) =
    let left = record s { history = xs; live_run = 0; next = now + spacing } in
    (record left { timer = timer_after (now + spacing) left }, some x)

abbrev pub release_live : ℕ → ℕ → Scheduler → List ℕ → Scheduler × Option ℕ
release_live spacing now s [] = (s, none)
release_live spacing now s (x ∷ xs) =
    let left = record s { live = xs; live_run = s.live_run + 1; next = now + spacing } in
    (record left { timer = timer_after (now + spacing) left }, some x)

-- The scheduler after the tick, and the call that it releases.
unfoldable pub tick : ℕ → ℕ → Scheduler → Scheduler × Option ℕ
tick spacing now s =
    if is_empty s.live && is_empty s.history
    then (record s { timer = none }, none)
    else if ltb now s.next
    then (record s { timer = some s.next }, none)
    else if takes_history s
    then release_history spacing now (record s { timer = none }) s.history
    else release_live spacing now (record s { timer = none }) s.live

abbrev has_timer : Option ℕ → Bool
has_timer none = false
has_timer (some at) = true

unfoldable pub acquire : ℕ → ℕ → Bool → ℕ → Scheduler → Scheduler × Option ℕ
acquire spacing now historical call s =
    let queued =
      if historical
      then record s { history = s.history ++ (call ∷ []) }
      else record s { live = s.live ++ (call ∷ []) } in
    if has_timer queued.timer then (queued, none) else tick spacing now queued

unfoldable pub pending : Scheduler → ℕ × ℕ
pending s = (length s.live, length s.history)

-- Live calls that come in before a tick.
abbrev arrive : List ℕ → Scheduler → Scheduler
arrive calls s = record s { live = s.live ++ calls }

-- Ticks at their times, with the live calls that come in before each: what they release.
abbrev pub run : ℕ → List (List ℕ) → Scheduler → List (Option ℕ)
run spacing [] s = []
run spacing (calls ∷ later) s =
    let result = tick spacing s.next (arrive calls s) in result.1 ∷ run spacing later result.0

abbrev pub Releases : ℕ → List (Option ℕ) → Type 0
Releases call [] = ⊥
Releases call (r ∷ rs) = (r ≡ some call) ⊎ Releases call rs

-- One tick: the history's first call is released, or a live one, and the history waits one turn less.
abbrev Turn : ℕ → List ℕ → ℕ → Scheduler × Option ℕ → Type 0
Turn call rest turns result =
    (result.1 ≡ some call)
    ⊎ ((result.0.history ≡ call ∷ rest) × (result.0.live_run ≡ turns + 1) × (turns < 4))

not-before : (n : ℕ) → ltb n n ≡ false
not-before n = ground arith

few : (turns : ℕ) → leb 4 turns ≡ false → turns < 4
few turns h = ground arith

tick-Turn :
    (spacing call : ℕ) (rest live : List ℕ) (next turns : ℕ) (timer : Option ℕ)
    → Turn call rest turns (
        tick spacing next (record {
          live = live;
          history = call ∷ rest;
          next = next;
          timer = timer;
          live_run = turns;
        }))
unfolding tick
tick-Turn spacing call rest [] next turns timer = let due = not-before next in rw due (inl refl)
tick-Turn spacing call rest (x ∷ xs) next turns timer =
    let due = not-before next in
    rw due (elim (Bool-cases (leb 4 turns)) [
      | inl e ↦ rw e (inl refl)
      | inr e ↦ rw e (inr (refl, refl, few turns e))
    ])

-- The first call of the history, or, after one turn less, the same in the ticks that follow.
after-Turn :
    (spacing call : ℕ) (rest : List ℕ) (later : List (List ℕ)) (turns wait : ℕ)
    → 4 ≤ turns + wait
    → wait < suc (length later)
    → (result : Scheduler × Option ℕ) → Turn call rest turns result
    → ((k : ℕ)
        → result.0.history ≡ call ∷ rest
        → 4 ≤ result.0.live_run + k
        → k < length later
        → Releases call (run spacing later result.0))
    → (result.1 ≡ some call) ⊎ Releases call (run spacing later result.0)
after-Turn spacing call rest later turns wait h enough result (inl now) more = inl now
after-Turn spacing call rest later turns zero h enough result (inr (same, count, below)) more =
    absurd (omega arith)
after-Turn spacing call rest later turns (suc wait) h enough result (inr (same, count, below))
      more =
    inr (more wait same (omega arith) (omega arith))

run-Releases :
    (wait spacing call : ℕ) (rest : List ℕ) (batches : List (List ℕ)) (s : Scheduler)
    → s.history ≡ call ∷ rest
    → 4 ≤ s.live_run + wait
    → wait < length batches
    → Releases call (run spacing batches s)
run-Releases wait spacing call rest [] s h turns enough = absurd (omega arith)
run-Releases wait spacing call rest (calls ∷ later) s h turns enough =
    let result = tick spacing s.next (arrive calls s) in
    after-Turn spacing call rest later s.live_run wait turns enough result
      (subst
        (λ hs.
          Turn call rest s.live_run
            (tick spacing s.next (record (arrive calls s) { history = hs })))
        (sym h) (tick-Turn spacing call rest (s.live ++ calls) s.next s.live_run s.timer))
      λ k same more enough'. run-Releases k spacing call rest later result.0 same more enough'

-- The history is not starved: however many live calls come in before each tick, the call that has
-- waited longest in the history is among the next five releases.
pub history_served :
    (spacing call : ℕ) (rest : List ℕ) (batches : List (List ℕ)) (s : Scheduler)
    → s.history ≡ call ∷ rest
    → 5 ≤ length batches
    → Releases call (run spacing batches s)
history_served spacing call rest batches s h enough =
    run-Releases 4 spacing call rest batches s h (omega arith) (omega arith)
