-- ===== src/Rooms/Lifecycle/Induction.antt =====
-- An induction principle for the journal: what the laws keep holds after every cycle.
use pongit.Common.{
  ℕ, ◌-◌, ◌==◌, ltb, Bool, true, false, not, ◌&&◌, ◌||◌, Result, ok, err, List, [], ◌∷◌, Option,
  none, some,
}
use pongit.Rooms.Availability.{
  DrainBlocker, epoch_differs, unfinished_state, active_matches, pending_publication, clear,
}
use pongit.Rooms.Lifecycle.{
  playing, draining, challenge, finalizing, renewing, starting, close, release, renew, final, Job,
  close_engine, renew_engine, release_stake, finalize_result, HubDelegation, NodeStatus, State,
  Options, Answers, Run, returned, threw, Trouble, match_changed, Act, continue, throw_when,
}
use pongit.Rooms.Lifecycle.Submit.{transition}
use pongit.Rooms.Lifecycle.Cycle.{
  now, same_stage, finished_chaos, has_engine_pending, seen_delegation, job_id, check_result,
  availability, join_node, playing_again, meet_node, start_up, blocker_of, if_blocked_throw,
  submit_close, close_up, fence_if_clear, drain, on_active, on_exiting, finalize_first, renew_now,
  renew_if_final, finalize, on_released, by_status, with_delegation, body, caught, cycle,
}
use pongit.Rooms.Lifecycle.Runs.{choose_state, Keeps, chain, reads, either, After-if}
use pongit.Rooms.Lifecycle.Steady.{
  JournalLaws, settle-Keeps, submit-Keeps, transition-Keeps, move-Keeps, submit_then-Keeps,
}

module _ (o : Options) (a : Answers) (C : List Job → Type 0) (laws : JournalLaws o C) where
  abbrev P : State → Type 0
  P t = C t.jobs

  check-Keeps :
      (r : Result (Unit {0})) (t : State) (rest : Act (Unit {0}))
      → P t
      → Keeps P (rest t)
      → Keeps P (continue (check_result r t) λ _. rest)
  check-Keeps (ok u) t rest h k = k
  check-Keeps (err e) t rest h k = h

  playing_again-Keeps :
      (d : HubDelegation) (n : NodeStatus) (t : State) → P t → Keeps P (playing_again o a d n t)
  playing_again-Keeps d n t h = check-Keeps (availability o a d n) t (join_node o a d n) h (
      reads P a.active t _ h λ _.
        either P (not (n.committed_batches == d.batch_index)) _ _ t h (
          chain P (transition o a playing t) _ (transition-Keeps o a C laws playing t h)
            λ _ v l. l))

  meet_node-Keeps :
      (d : HubDelegation) (seen : Option NodeStatus) (t : State)
      → P t
      → Keeps P (meet_node o a d seen t)
  meet_node-Keeps d none t h = reads P a.hosted_renewal t _ h λ _. h
  meet_node-Keeps d (some n) t h =
      either P (n.epoch == d.epoch) _ _ t (playing_again-Keeps d n t h)
        (reads P a.hosted_renewal t _ h λ _. h)

  start_up-Keeps : (d : HubDelegation) (t : State) → P t → Keeps P (start_up o a d t)
  unfolding start_up
  start_up-Keeps d t h =
      chain P _ _ (move-Keeps o a C laws (same_stage t.stage starting) starting t h)
        λ _ u k. meet_node-Keeps d a.node u k

  submit_close-Keeps : (t : State) → P t → Keeps P (submit_close o a t)
  submit_close-Keeps t h =
      After-if P (λ _. P) (has_engine_pending o.app t.engine_jobs) _ _ (λ _. h)
        (λ _. submit_then-Keeps o a C laws challenge (job_id o a t close) o.app close_engine t h)

  if_blocked-Keeps : (b : DrainBlocker) (t : State) → P t → Keeps P (if_blocked_throw o a b t)
  if_blocked-Keeps clear t h = h
  if_blocked-Keeps epoch_differs t h = h
  if_blocked-Keeps unfinished_state t h = h
  if_blocked-Keeps active_matches t h = h
  if_blocked-Keeps pending_publication t h = h

  throw_when-Keeps : (b : Bool) (e : Trouble) (t : State) → P t → Keeps P (throw_when b e t)
  throw_when-Keeps true e t h = h
  throw_when-Keeps false e t h = h

  close_up-Keeps : (d : HubDelegation) (t : State) → P t → Keeps P (close_up o a d t)
  unfolding close_up
  close_up-Keeps d t h = reads P a.fenced_node t _ h λ n. reads P a.fenced_active t _ h λ k.
      chain P _ _ (if_blocked-Keeps (blocker_of o a d n k) t h) λ _ u hu.
        reads P a.active_count u _ hu λ count.
          chain P _ _ (throw_when-Keeps (not (count == 0)) match_changed u hu)
            λ _ v hv. submit_close-Keeps v hv

  fence-Keeps :
      (d : HubDelegation) (b : DrainBlocker) (t : State) → P t → Keeps P (fence_if_clear o a d b t)
  fence-Keeps d clear t h = reads P a.before_close t _ h λ _. close_up-Keeps d _ h
  fence-Keeps d epoch_differs t h = h
  fence-Keeps d unfinished_state t h = h
  fence-Keeps d active_matches t h = h
  fence-Keeps d pending_publication t h = h

  drain-Keeps : (d : HubDelegation) (t : State) → P t → Keeps P (drain o a d t)
  unfolding drain
  drain-Keeps d t h =
      chain P _ _ (move-Keeps o a C laws (same_stage t.stage draining) draining t h) λ _ u k.
        either P (ltb (a.now_ms - u.changed_at) 60000) _ _ u k (
          reads P a.node u _ k
            λ n. reads P a.active u _ k λ m. fence-Keeps d (blocker_of o a d n m) _ k)

  on_active-Keeps : (d : HubDelegation) (t : State) → P t → Keeps P (on_active o a d t)
  unfolding on_active
  on_active-Keeps d t h =
      After-if P (λ _. P) (same_stage t.stage renewing || same_stage t.stage starting) _ _
        (λ _. start_up-Keeps d t h)
        λ _.
          After-if P (λ _. P) (same_stage t.stage playing && ltb _ d.expires_at) _ _ (λ _. h)
            (λ _. drain-Keeps d t h)

  on_exiting-Keeps : (d : HubDelegation) (t : State) → P t → Keeps P (on_exiting o a d t)
  unfolding on_exiting
  on_exiting-Keeps d t h =
      chain P _ _ (move-Keeps o a C laws (same_stage t.stage challenge) challenge t h) λ _ u k.
        either P (ltb (now o a) d.stake_unlock_at) _ _ u k (
          submit_then-Keeps o a C laws finalizing (job_id o a t release) o.hub (release_stake o.app)
            u k)

  finalize_first-Keeps : (ids : List ℕ) (t : State) → P t → Keeps P (finalize_first o a ids t)
  finalize_first-Keeps [] t h = h
  finalize_first-Keeps (id ∷ ids) t h = reads P (a.final_results id) t _ h λ f.
      either P (f == 0) _ _ t
        (chain P _ _
          (submit-Keeps o a C laws (job_id o a t (final id)) o.adapter (finalize_result id) t h)
          λ _ u k. k)
        (finalize_first-Keeps ids t h)

  renew_now-Keeps : (t : State) → P t → Keeps P (renew_now o a t)
  renew_now-Keeps t h = reads P a.before_renew t _ h λ _.
      chain P _ _ (submit-Keeps o a C laws (job_id o a t renew) o.app renew_engine t h) λ _ u k. k

  renew_if_final-Keeps : (b : Bool) (t : State) → P t → Keeps P (renew_if_final o a b t)
  renew_if_final-Keeps b t h =
      either P (not b || o.hold_renew) _ _ t h
        (chain P _ _ (transition-Keeps o a C laws renewing t h) λ _ u k. renew_now-Keeps u k)

  on_released-Keeps : (t : State) → P t → Keeps P (on_released o a t)
  unfolding on_released finalize
  on_released-Keeps t h =
      After-if P (λ _. P) (same_stage t.stage playing) _ _ (λ _. h)
        λ _.
          After-if P (λ _. P) (same_stage t.stage renewing) _ _ (λ _. renew_now-Keeps t h)
            λ _.
              chain P _ _ (move-Keeps o a C laws (same_stage t.stage finalizing) finalizing t h)
                λ _ u k.
                  chain P _ _ (finalize_first-Keeps (finished_chaos a.results) u k)
                    λ b v l. renew_if_final-Keeps b v l

  by_status-Keeps : (d : HubDelegation) (t : State) → P t → Keeps P (by_status o a d t)
  by_status-Keeps d t h = either P (d.status == 3) _ _ t h (
      either P (d.status == 1) _ _ t (on_active-Keeps d t h) (
        either P (d.status == 2) _ _ t (on_exiting-Keeps d t h)
          (either P (d.status == 0) _ _ t (on_released-Keeps t h) h)))

  with_delegation-Keeps : (d : HubDelegation) (t : State) → P t → Keeps P (with_delegation o a d t)
  with_delegation-Keeps d t h = by_status-Keeps d _ (
      choose_state P (d.status == 0 && not (same_stage t.stage playing)) _ (seen_delegation o a d t)
        (λ _. h) (λ _. h))

  body-Keeps : (t : State) → P t → Keeps P (body o a t)
  unfolding body
  body-Keeps t h = chain P _ _ (settle-Keeps o a C laws t h) λ go_on u k.
      either P go_on _ _ u (reads P a.delegation u _ k λ d. with_delegation-Keeps d u k) k

  caught-Keeps : (m : Run (Unit {0})) → Keeps P m → P (caught o a m)
  caught-Keeps (returned u t) h = h
  caught-Keeps (threw e t) h = h

  pub cycle_keeps : (s : State) → C s.jobs → C (cycle o a s).jobs
  unfolding cycle
  cycle_keeps s h =
      choose_state P s.working s _ (λ _. h)
        λ _.
          choose_state P a.locked _ s
            (λ _. caught-Keeps (body o a (record s { working = true })) (body-Keeps _ h)) (λ _. h)
