-- ===== src/Rooms/Lifecycle/Justified.antt =====
-- Every transaction and every move of a cycle has its reason in what the cycle has read.
use pongit.Common.{
  ℕ, zero, suc, ◌+◌, ◌≤◌, ◌<◌, ◌≡◌, ◌≢◌, ◌⊎◌, inl, inr, refl, sym, ap, subst, ◌∙◌, ◌==◌, ltb, Bool,
  true, false, not, ◌&&◌, ◌||◌, Result, ok, err, arith, All, List, [], ◌∷◌, Option, none, some,
}
use pongit.Rooms.Availability.{assert-IsAvailable_iff}
use pongit.Rooms.Lifecycle.{
  Stage, playing, challenge, finalizing, renewing, starting, release, renew, final, finalize_result,
  renew_engine, HubDelegation, NodeStatus, State, Options, Answers, Run, returned, threw, Act,
  continue, threw,
}
use pongit.Rooms.Lifecycle.Submit.{submit}
use pongit.Rooms.Lifecycle.Cycle.{
  now, job_id, finished_chaos, start_up, meet_node, ask_hosted, playing_again, on_active,
  on_exiting, finalize_first, check_result, renew_now, renew_if_final, finalize, on_released,
  same_stage,
}
use pongit.Rooms.Lifecycle.Runs.{After, After-continue, After-if, After-choose, After-await}
use pongit.Rooms.Lifecycle.Reasons.{IsFresh, IsSynchronised, IsFinal}
use pongit.Rooms.Lifecycle.Closing.{
  same_stage-≡, Sound, At, Keeps, submit_then_lem, move_unless, drain_lem,
}
use pongit.Rooms.Lifecycle.Sending.{submit_lem, transition_lem}

ltb-false : (m n : ℕ) → ltb m n ≡ false → n ≤ m
ltb-false m n h = ground arith

is-zero : (f : ℕ) → (f == 0) ≡ true → f ≡ 0
is-zero f h = ground arith

nonzero-suc : (f : ℕ) → (f == 0) ≡ false → (k : ℕ) × (f ≡ suc k)
nonzero-suc zero h = absurd (ground arith)
nonzero-suc (suc k) h = (k, refl)

unless-same : (m n : ℕ) → not (m == n) ≡ false → m ≡ n
unless-same m n h = ground arith

module _ (o : Options) (a : Answers) (s : State) (d : HubDelegation)
    (read : a.delegation ≡ some d) where
  ask_hosted_lem :
      (t : State)
      → Sound o a s d read t
      → d.status ≡ 1
      → ((n : NodeStatus) → a.node ≡ some n → n.epoch ≢ d.epoch)
      → Keeps o a s d read (ask_hosted o a d t)
  ask_hosted_lem t sound open_ absent =
      After-await (Sound o a s d read) (λ _. Sound o a s d read) a.hosted_renewal t _ sound
        λ _ told. (((d, read, (refl, open_, absent, told)), sound.0), sound.1)

  none≢some : (n : NodeStatus) → ◌≡◌ {A = Option NodeStatus} none (some n) → ⊥
  none≢some n h = cc

  other_epoch :
      (n m : NodeStatus)
      → ◌≡◌ {A = Option NodeStatus} (some n) (some m)
      → (n.epoch == d.epoch) ≡ false
      → m.epoch ≢ d.epoch
  other_epoch n m e h =
      let same : n ≡ m = cc in subst (λ x. x.epoch ≢ d.epoch) same (unequal n.epoch d.epoch h)
    where
      unequal : (x y : ℕ) → (x == y) ≡ false → x ≢ y
      unequal x y h = ground arith

  check_result_lem :
      (r : Result (Unit {0})) (t : State) (rest : Act (Unit {0}))
      → Sound o a s d read t
      → (r ≡ ok tt → Keeps o a s d read (rest t))
      → Keeps o a s d read (continue (check_result r t) λ _. rest)
  check_result_lem (ok u) t rest h k = k refl
  check_result_lem (err e) t rest h k = h

  playing_again_lem :
      (n : NodeStatus) (t : State)
      → At o a s d read starting tt t
      → a.node ≡ some n
      → Keeps o a s d read (playing_again o a d n t)
  playing_again_lem n t h e = check_result_lem _ t _ h.1 λ open_.
      After-await (Sound o a s d read) (λ _. Sound o a s d read) a.active t _ h.1
        λ _ _.
          After-choose (Sound o a s d read) (λ _. Sound o a s d read)
            (not (n.committed_batches == d.batch_index)) _ _ t (λ _. h.1)
            λ same.
              let reason : IsSynchronised o a d = (
                n,
                e,
                (assert-IsAvailable_iff o.app _ _ (now o a)).0 open_,
                unless-same _ _ same,
              ) in
              After-continue (Sound o a s d read) (At o a s d read playing)
                (λ _. Sound o a s d read) _ _
                (transition_lem o a s starting playing t h (d, read, (refl, reason)))
                λ _ u k. (((d, read, (refl, inr reason)), k.1.0), k.1.1)

  meet_node_lem :
      (seen : Option NodeStatus) (t : State)
      → At o a s d read starting tt t
      → a.node ≡ seen
      → d.status ≡ 1
      → Keeps o a s d read (meet_node o a d seen t)
  meet_node_lem none t h e open_ =
      ask_hosted_lem t h.1 open_ (λ n f. absurd (none≢some n (sym e ∙ f)))
  meet_node_lem (some n) t h e open_ =
      After-choose (Sound o a s d read) (λ _. Sound o a s d read) (n.epoch == d.epoch) _ _ t
        (λ _. playing_again_lem n t h e)
        (λ off. ask_hosted_lem t h.1 open_ (λ m f. other_epoch n m (sym e ∙ f) off))

  renewing_of :
      (at : Stage)
      → at ≡ s.stage
      → ((s.stage ≡ renewing) ⊎ (s.stage ≡ starting))
      → same_stage at starting ≡ false
      → s.stage ≡ renewing
  unfolding same_stage
  renewing_of at same why e = ground arith

  not-playing : (at : Stage) → at ≡ s.stage → same_stage at playing ≡ false → s.stage ≢ playing
  unfolding same_stage
  not-playing at same e = ground arith

  starting-or-renewing :
      (at : Stage)
      → at ≡ s.stage
      → (same_stage at renewing || same_stage at starting) ≡ true
      → (s.stage ≡ renewing) ⊎ (s.stage ≡ starting)
  unfolding same_stage
  starting-or-renewing at same e = ground arith

  late :
      (at : Stage)
      → at ≡ s.stage
      → (same_stage at playing && ltb (now o a + 3600) d.expires_at) ≡ false
      → s.stage ≡ playing
      → d.expires_at ≤ now o a + 3600
  unfolding same_stage
  late at same e here = ground arith

  lasting :
      (at : Stage)
      → at ≡ s.stage
      → d.status ≡ 1
      → (same_stage at playing && ltb (now o a + 3600) d.expires_at) ≡ true
      → (s.stage ≡ playing) × (d.status ≡ 1) × (now o a + 3600 < d.expires_at)
  unfolding same_stage
  lasting at same open_ e = ground arith

  start_up_lem :
      (t : State)
      → At o a s d read s.stage tt t
      → d.status ≡ 1
      → ((s.stage ≡ renewing) ⊎ (s.stage ≡ starting))
      → Keeps o a s d read (start_up o a d t)
  unfolding start_up
  start_up_lem t h open_ stage =
      After-continue (Sound o a s d read) (At o a s d read starting) (λ _. Sound o a s d read) _ _
        (move_unless o a s d read (same_stage t.stage starting) s.stage starting t h
          (λ e. sym h.0 ∙ same_stage-≡ t.stage starting e)
          (λ e. (open_, renewing_of t.stage (h.0) stage e)))
        λ _ u k. meet_node_lem a.node u k refl open_

  pub on_exiting_lem :
      (t : State)
      → At o a s d read s.stage tt t
      → d.status ≡ 2
      → Keeps o a s d read (on_exiting o a d t)
  unfolding on_exiting
  on_exiting_lem t h open_ =
      After-continue (Sound o a s d read) (At o a s d read challenge) (λ _. Sound o a s d read) _ _
        (move_unless o a s d read (same_stage t.stage challenge) s.stage challenge t h
          (λ e. sym h.0 ∙ same_stage-≡ t.stage challenge e) (λ e. inr open_))
        λ _ u k.
          After-choose (Sound o a s d read) (λ _. Sound o a s d read)
            (ltb (now o a) d.stake_unlock_at) _ _ u (λ _. k.1)
            (λ late.
              submit_then_lem o a s d read challenge finalizing (job_id o a t release) o.hub _ u k
                (open_, ltb-false _ _ late) (inl (open_, ltb-false _ _ late)) refl refl refl)

  -- What `finalize_first` leaves: on `true` all the results are final.
  abbrev Finalized : List ℕ → Stage → Bool → State → Type 0
  Finalized ids stage b u =
      (u.stage ≡ stage) × (b ≡ true → All (IsFinal o a) ids) × Sound o a s d read u

  finals_more :
      (id : ℕ) (ids : List ℕ) (stage : Stage) (m : Run Bool)
      → IsFinal o a id
      → After (Sound o a s d read) (Finalized ids stage) m
      → After (Sound o a s d read) (Finalized (id ∷ ids) stage) m
  finals_more id ids stage (returned b u) here (at, finals, sound) =
      (at, λ e. (here, finals e), sound)
  finals_more id ids stage (threw e u) here h = h

  finalize_first_lem :
      (ids : List ℕ) (stage : Stage) (t : State)
      → At o a s d read stage tt t
      → d.status ≡ 0
      → s.stage ≢ playing
      → After (Sound o a s d read) (Finalized ids stage) (finalize_first o a ids t)
  finalize_first_lem [] stage t h open_ not_playing = (h.0, λ _. tt, h.1)
  finalize_first_lem (id ∷ ids) stage t h open_ not_playing =
      After-await (Sound o a s d read) (Finalized (id ∷ ids) stage) (a.final_results id) t _ h.1
        λ f e.
          After-choose (Sound o a s d read) (Finalized (id ∷ ids) stage) (f == 0) _ _ t
            (λ zero_.
              After-continue (Sound o a s d read) (At o a s d read stage)
                (Finalized (id ∷ ids) stage)
                (submit o a (job_id o a t (final id)) o.adapter (finalize_result id) t) _
                (submit_lem o a s stage (job_id o a t (final id)) o.adapter _ t h (
                  (d, read, (open_, not_playing, e ∙ ap some (is-zero f zero_))),
                  refl,
                  refl,
                  refl,
                ))
                λ _ u k. (k.0, λ absent. absurd (cc), k.1))
            (λ nonzero.
              let (k, same) = nonzero-suc f nonzero in
              finals_more id ids stage _ (k, e ∙ ap some same)
                (finalize_first_lem ids stage t h open_ not_playing))

  renew_now_lem :
      (t : State)
      → At o a s d read renewing tt t
      → d.status ≡ 0
      → ((s.stage ≡ renewing) ⊎ All (IsFinal o a) (finished_chaos a.results))
      → Keeps o a s d read (renew_now o a t)
  renew_now_lem t h open_ why =
      After-await (Sound o a s d read) (λ _. Sound o a s d read) a.before_renew t _ h.1
        λ _ told.
          After-continue (Sound o a s d read) (At o a s d read renewing) (λ _. Sound o a s d read)
            (submit o a (job_id o a t renew) o.app renew_engine t) _
            (submit_lem o a s renewing (job_id o a t renew) o.app _ t h
              ((d, read, (open_, why, told)), refl, refl, refl))
            λ _ u k. k.1

  renew_if_final_lem :
      (b : Bool) (t : State)
      → At o a s d read finalizing tt t
      → d.status ≡ 0
      → (b ≡ true → All (IsFinal o a) (finished_chaos a.results))
      → Keeps o a s d read (renew_if_final o a b t)
  renew_if_final_lem false t h open_ finals = h.1
  renew_if_final_lem true t h open_ finals =
      After-choose (Sound o a s d read) (λ _. Sound o a s d read) o.hold_renew _ _ t (λ _. h.1)
        λ free.
          After-continue (Sound o a s d read) (At o a s d read renewing) (λ _. Sound o a s d read) _
            _
            (transition_lem o a s finalizing renewing t h
              (d, read, (open_, refl, finals refl, free)))
            λ _ u k. renew_now_lem u k open_ (inr (finals refl))

  finalize_lem :
      (t : State)
      → At o a s d read s.stage tt t
      → d.status ≡ 0
      → s.stage ≢ playing
      → Keeps o a s d read (finalize o a t)
  unfolding finalize
  finalize_lem t h open_ not_playing =
      After-continue (Sound o a s d read) (At o a s d read finalizing) (λ _. Sound o a s d read) _ _
        (move_unless o a s d read (same_stage t.stage finalizing) s.stage finalizing t h
          (λ e. sym h.0 ∙ same_stage-≡ t.stage finalizing e) (λ e. inr (open_, not_playing)))
        λ _ u k.
          After-continue (Sound o a s d read) (Finalized (finished_chaos a.results) finalizing)
            (λ _. Sound o a s d read) (finalize_first o a (finished_chaos a.results) u) _
            (finalize_first_lem (finished_chaos a.results) finalizing u k open_ not_playing)
            λ b v (at, finals, sound). renew_if_final_lem b v (at, sound) open_ finals

  pub on_released_lem :
      (t : State)
      → At o a s d read s.stage tt t
      → d.status ≡ 0
      → Keeps o a s d read (on_released o a t)
  unfolding on_released
  on_released_lem t h open_ =
      After-if (Sound o a s d read) (λ _. Sound o a s d read) (same_stage t.stage playing) _ _
        (λ _. h.1)
        λ not_playing.
          After-if (Sound o a s d read) (λ _. Sound o a s d read) (same_stage t.stage renewing) _ _
            (λ e.
              let at = same_stage-≡ t.stage renewing e in
              renew_now_lem t (at, h.1) open_ (inl (sym h.0 ∙ at)))
            (λ _. finalize_lem t h open_ (not-playing t.stage h.0 not_playing))

  pub on_active_lem :
      (t : State) → IsFresh o a s tt t → d.status ≡ 1 → Keeps o a s d read (on_active o a d t)
  unfolding on_active
  on_active_lem t h open_ =
      let (at, since, same, sound) = h in
      After-if (Sound o a s d read) (λ _. Sound o a s d read)
        (same_stage t.stage renewing || same_stage t.stage starting) _ _
        (λ e. start_up_lem t (at, sound) open_ (starting-or-renewing t.stage at e))
        λ _.
          After-if (Sound o a s d read) (λ _. Sound o a s d read)
            (same_stage t.stage playing && ltb (now o a + 3600) d.expires_at) _ _
            (λ e. (((d, read, (refl, inl (lasting t.stage at open_ e))), sound.0), sound.1))
            (λ e. drain_lem o a s d read t h open_ (late t.stage at e))
