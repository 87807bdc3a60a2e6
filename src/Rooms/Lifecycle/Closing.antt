-- ===== src/Rooms/Lifecycle/Closing.antt =====
-- The closure of an active engine keeps the reasons.
use pongit.Common.{
  ℕ, ◌+◌, ◌-◌, ◌≤◌, ◌≡◌, inl, refl, sym, ap, ◌∙◌, subst, ◌==◌, ltb, leb, Bool, true, false, not,
  if◌then◌else◌, arith, Option, some, Text,
}
use pongit.Rooms.Availability.{
  DrainBlocker, epoch_differs, unfinished_state, active_matches, pending_publication, clear,
  drain_blocker_iff,
}
use pongit.Rooms.Lifecycle.{
  Stage, playing, draining, challenge, close, JobId, Call, HubDelegation, NodeStatus, State,
  Options, Answers, Run, returned, threw, Act, continue, return, throw_when, Trouble,
}
use pongit.Rooms.Lifecycle.Submit.{transition, submit}
use pongit.Rooms.Lifecycle.Cycle.{
  now, submit_close, submit_then, job_id, has_engine_pending, blocker_of, if_blocked_throw,
  close_up, fence_if_clear, drained, drain, same_stage,
}
use pongit.Rooms.Lifecycle.Runs.{After, After-continue, After-if, After-choose, After-await}
use pongit.Rooms.Lifecycle.Reasons.{
  IsSound, IsAt, IsFresh, IsDrained, CreationReason, MoveReason, transaction_of,
}
use pongit.Rooms.Lifecycle.Sending.{submit_lem, transition_lem}

-- The drain check finds nothing exactly where the node is drained.
blocker_of-clear :
    (o : Options) (a : Answers) (d : HubDelegation) (n : NodeStatus) (active : ℕ)
    → blocker_of o a d n active ≡ clear
    → (n.epoch ≡ d.epoch) × (n.pending_diffs ≡ 0) × (active ≡ 0)
blocker_of-clear o a d n active h =
    let found =
      drain_blocker_iff (leb d.expires_at (now o a)) active n.pending_diffs (n.epoch == d.epoch) in
    let (same, idle, published) = found.0.0 h in ground arith

pub same_stage-≡ : (x y : Stage) → same_stage x y ≡ true → x ≡ y
unfolding same_stage
same_stage-≡ x y h = ground arith

not-==-false : (count : ℕ) → not (count == 0) ≡ false → count ≡ 0
not-==-false count h = ground arith

module _ (o : Options) (a : Answers) (s : State) (d : HubDelegation)
    (read : a.delegation ≡ some d) where
  abbrev pub Sound : State → Type 0
  Sound = IsSound o a s

  abbrev pub At : {A : Type 0} → Stage → A → State → Type 0
  At = IsAt o a s

  -- A run that ends in a sound log.
  abbrev pub Keeps : {A : Type 0} → Run A → Type 0
  Keeps = After Sound (λ _. Sound)

  At-Keeps : {A : Type 0} (stage : Stage) (m : Run A) → After Sound (At stage) m → Keeps m
  At-Keeps stage (returned v t) h = h.1
  At-Keeps stage (threw e t) h = h

  pub submit_then_lem :
      (stage next : Stage) (id : JobId) (to_ : Text) (call : Call) (t : State)
      → At stage tt t
      → CreationReason o a s d id.kind
      → MoveReason o a s d stage next
      → id.app ≡ o.app
      → to_ ≡ (transaction_of o a id.kind).0
      → call ≡ (transaction_of o a id.kind).1
      → Keeps (submit_then o a next id to_ call t)
  submit_then_lem stage next id to_ call t h r m app target function =
      After-continue Sound (At stage) (λ _. Sound) (submit o a id to_ call t) _
        (submit_lem o a s stage id to_ call t h ((d, read, r), app, target, function))
        λ done u k.
          After-choose Sound (λ _. Sound) done _ _ u
            (λ _. At-Keeps next _ (transition_lem o a s stage next u k (d, read, m))) (λ _. k.1)

  if_blocked_lem :
      (b : DrainBlocker) (t : State) (rest : Act (Unit {0}))
      → Sound t
      → (b ≡ clear → Keeps (rest t))
      → Keeps (continue (if_blocked_throw o a b t) λ _. rest)
  if_blocked_lem clear t rest h k = k refl
  if_blocked_lem epoch_differs t rest h k = h
  if_blocked_lem unfinished_state t rest h k = h
  if_blocked_lem active_matches t rest h k = h
  if_blocked_lem pending_publication t rest h k = h

  throw_when_lem :
      (b : Bool) (e : Trouble) (t : State) (rest : Act (Unit {0}))
      → Sound t
      → (b ≡ false → Keeps (rest t))
      → Keeps (continue (throw_when b e t) λ _. rest)
  throw_when_lem true e t rest h k = h
  throw_when_lem false e t rest h k = k refl

  -- Moving to the stage it is in is left out.
  pub move_unless :
      (b : Bool) (from to_ : Stage) (t : State)
      → At from tt t
      → (b ≡ true → from ≡ to_)
      → (b ≡ false → MoveReason o a s d from to_)
      → After Sound (At to_) ((if b then return tt else transition o a to_) t)
  move_unless true from to_ t h same r = (h.0 ∙ same refl, h.1)
  move_unless false from to_ t h same r = transition_lem o a s from to_ t h (d, read, r refl)

  IsDrained-intro :
      (seen : Option NodeStatus) (active : Option ℕ) (n : NodeStatus) (k : ℕ)
      → seen ≡ some n
      → active ≡ some k
      → blocker_of o a d n k ≡ clear
      → IsDrained o a d seen active
  IsDrained-intro seen active n k e f h =
      let (same, published, idle) = blocker_of-clear o a d n k h in
      ((n, e, same, published), f ∙ ap some idle)

  submit_close_lem :
      (t : State)
      → IsFresh o a s tt t
      → s.stage ≡ draining
      → (has_engine_pending o.app s.engine_jobs ≡ false → CreationReason o a s d close)
      → d.status ≡ 1
      → Keeps (submit_close o a t)
  submit_close_lem t (at, since, same, sound) stage r open_ =
      After-if Sound (λ _. Sound) (has_engine_pending o.app t.engine_jobs) _ _ (λ _. sound)
        (λ idle.
          submit_then_lem draining challenge (job_id o a t close) o.app _ t (at ∙ stage, sound)
            (r (subst (λ js. has_engine_pending o.app js ≡ false) same idle)) (inl (open_, refl))
            refl refl refl)

  close_up_lem :
      (t : State)
      → IsFresh o a s tt t
      → d.status ≡ 1
      → s.stage ≡ draining
      → s.changed_at + 60000 ≤ a.now_ms
      → IsDrained o a d a.node a.active
      → a.before_close ≡ some tt
      → Keeps (close_up o a d t)
  unfolding close_up
  close_up_lem t h open_ stage waited first told =
      let (at, since, same, sound) = h in
      After-await Sound (λ _. Sound) a.fenced_node t _ sound
        λ n e.
          After-await Sound (λ _. Sound) a.fenced_active t _ sound
            λ k f. if_blocked_lem (blocker_of o a d n k) t _ sound λ is_clear.
              After-await Sound (λ _. Sound) a.active_count t _ sound
                λ count g. throw_when_lem (not (count == 0)) _ t _ sound λ none_active.
                  submit_close_lem t h stage
                    (λ idle. (
                      open_,
                      stage,
                      waited,
                      idle,
                      first,
                      told,
                      IsDrained-intro a.fenced_node a.fenced_active n k e f is_clear,
                      g ∙ ap some (not-==-false count none_active),
                    ))
                    open_

  wait_over :
      (since : ℕ)
      → ltb (a.now_ms - since) 60000 ≡ false
      → since ≡ s.changed_at
      → s.changed_at + 60000 ≤ a.now_ms
  wait_over since long same = ground arith

  fence_if_clear_lem :
      (b : DrainBlocker) (t : State)
      → IsFresh o a s tt t
      → d.status ≡ 1
      → s.stage ≡ draining
      → s.changed_at + 60000 ≤ a.now_ms
      → (b ≡ clear → IsDrained o a d a.node a.active)
      → Keeps (fence_if_clear o a d b t)
  fence_if_clear_lem clear t (at, since, same, sound) open_ stage waited first =
      After-await Sound (λ _. Sound) a.before_close t _ sound
        λ u told.
          close_up_lem _
            (
              at,
              since,
              same,
              (
                ((d, read, (refl, open_, stage, waited, first refl, told ∙ refl)), sound.0),
                sound.1,
              ),
            )
            open_ stage waited (first refl) (told ∙ refl)
  fence_if_clear_lem epoch_differs t (at, since, same, sound) open_ stage waited first = sound
  fence_if_clear_lem unfinished_state t (at, since, same, sound) open_ stage waited first = sound
  fence_if_clear_lem active_matches t (at, since, same, sound) open_ stage waited first = sound
  fence_if_clear_lem pending_publication t (at, since, same, sound) open_ stage waited first = sound

  drained_lem :
      (t : State)
      → IsFresh o a s tt t
      → d.status ≡ 1
      → s.stage ≡ draining
      → s.changed_at + 60000 ≤ a.now_ms
      → Keeps (drained o a d t)
  drained_lem t (at, since, same, sound) open_ stage waited =
      After-await Sound (λ _. Sound) a.node t _ sound
        λ n e.
          After-await Sound (λ _. Sound) a.active t _ sound
            λ k f.
              fence_if_clear_lem (blocker_of o a d n k) _ (at, since, same, sound) open_ stage
                waited (IsDrained-intro a.node a.active n k e f)

  abbrev waiting : Act (Unit {0})
  waiting t = (if ltb (a.now_ms - t.changed_at) 60000 then return tt else drained o a d) t

  -- After the move the stage is zero seconds old.
  wait_after_move :
      (b : Bool) (t : State)
      → same_stage t.stage draining ≡ b
      → IsFresh o a s tt t
      → d.status ≡ 1
      → (s.stage ≡ playing → d.expires_at ≤ now o a + 3600)
      → Keeps (continue ((if b then return tt else transition o a draining) t) λ _. waiting)
  unfolding transition
  wait_after_move true t e (at, since, same, sound) open_ late =
      After-choose Sound (λ _. Sound) (ltb (a.now_ms - t.changed_at) 60000) _ _ t (λ _. sound)
        λ long.
          drained_lem t (at, since, same, sound) open_ (sym at ∙ same_stage-≡ t.stage draining e)
            (wait_over t.changed_at long since)
  wait_after_move false t e (at, since, same, sound) open_ late =
      After-choose Sound (λ _. Sound) (ltb (a.now_ms - a.now_ms) 60000) _ _ _
        (λ _. (((d, read, (open_, λ here. late (sym at ∙ here))), sound.0), sound.1))
        (λ long. absurd (ground arith))

  pub drain_lem :
      (t : State)
      → IsFresh o a s tt t
      → d.status ≡ 1
      → (s.stage ≡ playing → d.expires_at ≤ now o a + 3600)
      → Keeps (drain o a d t)
  unfolding drain
  drain_lem t h open_ late = wait_after_move (same_stage t.stage draining) t refl h open_ late
