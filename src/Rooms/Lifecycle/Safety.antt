-- ===== src/Rooms/Lifecycle/Safety.antt =====
-- What a whole cycle does, and why.
use pongit.Common.{
  ℕ, ◌≡◌, refl, sym, subst, ◌==◌, true, not, ◌&&◌, arith, inl, inr, All, List, [], ◌∷◌, some,
}
use pongit.Rooms.Lifecycle.{
  playing, Job, pending, HubDelegation, State, Options, Answers, Run, returned, threw, threw,
}
use pongit.Rooms.Lifecycle.Submit.{settle}
use pongit.Rooms.Lifecycle.Cycle.{
  retire_quarantined, seen_delegation, cycle, caught, by_status, with_delegation, a_delegation,
  body, same_stage,
}
use pongit.Rooms.Lifecycle.Runs.{choose_state, After, After-continue, After-choose, After-await}
use pongit.Rooms.Lifecycle.Reasons.{InJournal, IsKnown, Reason, IsSound, IsFresh}
use pongit.Rooms.Lifecycle.Closing.{Sound, At, Keeps}
use pongit.Rooms.Lifecycle.Sending.{settle-IsFresh}
use pongit.Rooms.Lifecycle.Justified.{on_active_lem, on_exiting_lem, on_released_lem}

module _ (o : Options) (a : Answers) (s : State) where
  module _ (d : HubDelegation) (read : a.delegation ≡ some d) where
    status_lem : (n : ℕ) → (d.status == n) ≡ true → d.status ≡ n
    status_lem n h = ground arith

    retire-IsFresh :
        (t : State)
        → IsFresh o a s tt t
        → d.status ≡ 1
        → IsFresh o a s tt (retire_quarantined o a d t)
    retire-IsFresh t h e =
        choose_state (IsFresh o a s tt) (d.status == 0 && not (same_stage t.stage playing)) _ t
          (λ k. absurd (ground arith)) (λ _. h)

    retire-At :
        (t : State) → IsFresh o a s tt t → At o a s d read s.stage tt (retire_quarantined o a d t)
    retire-At t (at, since, same, sound) =
        choose_state (At o a s d read s.stage tt)
          (d.status == 0 && not (same_stage t.stage playing)) _ t (λ _. (at, sound))
          (λ _. (at, sound))

    by_status_lem :
        (t : State)
        → At o a s d read s.stage tt t
        → (d.status ≡ 1 → IsFresh o a s tt t)
        → Keeps o a s d read (by_status o a d t)
    by_status_lem t h fresh =
        After-choose (Sound o a s d read) (λ _. Sound o a s d read) (d.status == 3) _ _ t (λ _. h.1)
          λ _.
            After-choose (Sound o a s d read) (λ _. Sound o a s d read) (d.status == 1) _ _ t
              (λ e. on_active_lem o a s d read t (fresh (status_lem 1 e)) (status_lem 1 e))
              λ _.
                After-choose (Sound o a s d read) (λ _. Sound o a s d read) (d.status == 2) _ _ t
                  (λ e. on_exiting_lem o a s d read t h (status_lem 2 e))
                  λ _.
                    After-choose (Sound o a s d read) (λ _. Sound o a s d read) (d.status == 0) _ _
                      t (λ e. on_released_lem o a s d read t h (status_lem 0 e)) λ _. h.1

    with_delegation_lem :
        (t : State) → IsFresh o a s tt t → Keeps o a s d read (with_delegation o a d t)
    with_delegation_lem t h =
        by_status_lem _ (retire-At (seen_delegation o a d t) h)
          (retire-IsFresh (seen_delegation o a d t) h)

  a_delegation_lem :
      (t : State)
      → IsFresh o a s tt t
      → After (IsSound o a s) (λ _. IsSound o a s) (a_delegation o a t)
  a_delegation_lem t h =
      let (at, since, same, sound) = h in
      After-await (IsSound o a s) (λ _. IsSound o a s) a.delegation t _ sound
        λ d read. with_delegation_lem d read t h

  body_lem :
      (t : State) → IsFresh o a s tt t → After (IsSound o a s) (λ _. IsSound o a s) (body o a t)
  unfolding body
  body_lem t h =
      After-continue (IsSound o a s) (IsFresh o a s) (λ _. IsSound o a s) (settle o a t) _
        (settle-IsFresh o a s t h)
        λ go_on u k.
          let (at, since, same, sound) = k in
          After-choose (IsSound o a s) (λ _. IsSound o a s) go_on _ _ u (λ _. a_delegation_lem u k)
            (λ _. sound)

  caught_lem :
      (m : Run (Unit {0}))
      → After (IsSound o a s) (λ _. IsSound o a s) m
      → IsSound o a s (caught o a m)
  caught_lem (returned u t) h = h
  caught_lem (threw e t) h = h

  own_rows :
      (jobs : List Job)
      → ((j : Job) → InJournal j jobs → InJournal j s.jobs)
      → All (λ j. j.status ≡ pending → IsKnown o a s j) jobs
  own_rows [] h = tt
  own_rows (j ∷ js) h = (λ _. inl (h j (inl refl)), own_rows js (λ k at. h k (inr at)))

  -- In a cycle whose log is empty at the start, everything that the log has at the end has its reason
  -- in what the cycle has read. A row is added to the journal only with the signed transaction of its
  -- kind (the closure, the release of the stake, the finalization of the result, the renewal), under the
  -- account's nonce where no transaction is before it, after a simulation. The closure of the engine is
  -- journaled only where the delegation is active, the stage has been `draining` for a minute, no
  -- transaction of the engine is pending, the node was drained before the fence and after it, and the hub
  -- has no active match; the release only after the challenge window; the finalization of a result only
  -- where the epoch is released and the result is not final; the renewal only where every finished Chaos
  -- result is final, or the stage was `renewing` already. A row's transaction is sent only where the row
  -- is pending, was in the journal before or is one of the new ones, and the chain has no receipt for it;
  -- the pending rows of the journal at the end are old or new in this sense, too. The fence is put up
  -- only around a drained node after a minute of `draining`, and the host is asked only where the
  -- delegation is active and no node of its epoch answers. The stage moves along the edges of the
  -- lifecycle, and to `playing` only from `starting`, with a node that serves the delegation and has the
  -- hub's batch. The players are told only where the session lasts more than an hour or the node has
  -- caught up.
  pub cycle-IsSound : s.log ≡ [] → IsSound o a s (cycle o a s)
  unfolding cycle
  cycle-IsSound h =
      let none_yet : IsSound o a s s =
        (subst (λ events. All (Reason o a s) events) (sym h) tt, own_rows s.jobs (λ j at. at)) in
      choose_state (IsSound o a s) s.working s _ (λ _. none_yet)
        λ _.
          choose_state (IsSound o a s) a.locked _ s
            (λ _.
              caught_lem (body o a (record s { working = true }))
                (body_lem _ (refl, refl, refl, none_yet)))
            (λ _. none_yet)
