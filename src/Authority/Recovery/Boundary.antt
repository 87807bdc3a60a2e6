-- ===== src/Authority/Recovery/Boundary.antt =====
-- What shared/authority-recovery.ts allows: when a room leaves the engine, and when it admits play.
use pongit.Common.{
  ◌≡◌, refl, ◌↔◌, inl, inr, Bool, true, false, not, ◌&&◌, arith, ok, none, some,
  invalid_observation, throw_if, ◌>>=◌, subst, sym, Text, text_eq,
}
use pongit.Common.Int.{pos, eqb_ℤ, ltb_ℤ}
use pongit.Authority.Observation.{
  recovery, monad, returning, no_hub, exiting, challenged, healthy, ExecutionObservation, exec_eq,
  phase_eq, is_sustained, is_silent,
}
use pongit.Authority.Recovery.{
  Action, RecoveryDecision, result, result_retry, result_open, with_delegation, delegated, decide,
  invalid, invalid_closure, decide_recovery,
}
use pongit.Authority.Recovery.Justified.{
  HubIsFresh, MayPlay, MayAct, IsJustified, result-IsJustified, result_retry-IsJustified,
  result_open-IsJustified, if-IsJustified, exec_eq_sound, phase_eq_sound, in_recovery-IsJustified,
  is_delegated, delegated-IsJustified,
}

module _ (is_address : Text → Bool) (normal_closure : Text) where
  abbrev decision : ExecutionObservation → RecoveryDecision
  decision = decide is_address normal_closure

  decide-IsJustified : (o : ExecutionObservation) → IsJustified o (decision o)
  unfolding decide
  decide-IsJustified o =
      if-IsJustified o (phase_eq o.hub.phase challenged) (λ _. result-IsJustified o _)
        λ c.
          if-IsJustified o (exec_eq o.execution monad)
            (λ m.
              if-IsJustified o (not (phase_eq o.hub.phase no_hub)) (λ _. result-IsJustified o _)
                λ p. result_open-IsJustified o _ (
                  inl (
                    exec_eq_sound o.execution monad m,
                    phase_eq_sound o.hub.phase no_hub (ground arith),
                  )))
            λ m.
              if-IsJustified o (exec_eq o.execution recovery)
                (λ e. in_recovery-IsJustified o (exec_eq_sound o.execution recovery e))
                λ e.
                  if-IsJustified o
                    (exec_eq o.execution returning && text_eq o.transition_reason normal_closure)
                    (λ _.
                      if-IsJustified o
                        (phase_eq o.hub.phase exiting && ltb_ℤ o.timestamp o.hub.stake_unlock_at)
                        (λ _. result_retry-IsJustified o _ _) λ _. result-IsJustified o _)
                    λ _. delegated-IsJustified o (is_delegated o.execution m e) c

  with_delegation-open :
      (o : ExecutionObservation)
      → o.health.kind ≡ healthy
      → o.closure.draining_epoch ≡ pos 0
      → (with_delegation o).admissions ≡ true
  unfolding with_delegation result_open
  with_delegation-open o k c = simp (k, c)

  fresh_tests :
      (o : ExecutionObservation)
      → invalid_closure o.closure ≡ false
      → HubIsFresh o
      → ((eqb_ℤ o.closure.sealed_epoch o.hub.epoch && not (eqb_ℤ o.hub.epoch (pos 0))) ≡ false)
        × (ltb_ℤ o.hub.expires_at o.timestamp ≡ false)
        × ((is_sustained o && is_silent o) ≡ false)
  unfolding invalid_closure is_sustained
  fresh_tests o v (p, k, t, c) = ground arith

  MayPlay-decide :
      (o : ExecutionObservation)
      → invalid_closure o.closure ≡ false
      → MayPlay o
      → (decision o).admissions ≡ true
  unfolding decide result_open delegated
  MayPlay-decide o v (inl (e, p)) = simp (e, p)
  MayPlay-decide o v (inr (e, fresh)) =
      let (sealed, expired, stopped) = fresh_tests o v fresh in
      simp (e, fresh.0, sealed, expired, stopped) (with_delegation-open o fresh.1 fresh.3)

  valid_closure :
      (o : ExecutionObservation)
      → invalid is_address normal_closure o ≡ false
      → invalid_closure o.closure ≡ false
  unfolding invalid
  valid_closure o h = ground arith

  -- What comes back is the decision on a valid observation.
  decided :
      (o : ExecutionObservation) {d : RecoveryDecision}
      → decide_recovery is_address normal_closure o ≡ ok d
      → (invalid is_address normal_closure o ≡ false) × (d ≡ decision o)
  decided o {d} h = go (invalid is_address normal_closure o) refl (unfold decide_recovery in h)
    where
      go :
          (b : Bool)
          → invalid is_address normal_closure o ≡ b
          → (throw_if b invalid_observation >>= λ _. ok (decision o)) ≡ ok d
          → (invalid is_address normal_closure o ≡ false) × (d ≡ decision o)
      go true e h = cc
      go false e h = (e, cc)

  -- Where a decision is returned, play is admitted exactly on Monad without a delegation, or on a
  -- healthy engine whose delegation is active, not expired and not draining.
  pub admissions_iff :
      (o : ExecutionObservation) {d : RecoveryDecision}
      → decide_recovery is_address normal_closure o ≡ ok d
      → (d.admissions ≡ true) ↔ MayPlay o
  admissions_iff o {d} h =
      let (v, same) = decided o h in
      rw same ((decide-IsJustified o).plays, λ m. MayPlay-decide o (valid_closure o v) m)

  -- Where a decision is returned: a room begins to leave the engine only when the hub or the clock
  -- has ended its delegation, or when a sustained failure that is no rate limit outlasts the hub's
  -- silence window; it completes the recovery only when the hub has let it go, and closes a
  -- session only when it is sealed; and no action comes with admissions or with a time to retry
  -- at.
  pub action_needs :
      (o : ExecutionObservation) (a : Action) {d : RecoveryDecision}
      → decide_recovery is_address normal_closure o ≡ ok d
      → d.action ≡ some a
      → MayAct o a × (d.admissions ≡ false) × (d.retry_at ≡ none)
  action_needs o a {d} h act =
      let (v, same) = decided o h in
      subst (λ c. c.action ≡ some a → MayAct o a × (c.admissions ≡ false) × (c.retry_at ≡ none))
        (sym same) ((decide-IsJustified o).acts a) act

  decide_planned :
      (o : ExecutionObservation)
      → o.execution ≡ returning
      → text_eq o.transition_reason normal_closure ≡ true
      → ((decision o).admissions ≡ false) × ((decision o).action ≡ none)
  unfolding decide result result_retry
  decide_planned o e t = simp (e, t) (ground arith)

  -- A planned close of a session is not taken for an outage: a valid observation of it leads to no
  -- action and no play, whatever the hub and the health say.
  planned_close :
      (o : ExecutionObservation) {d : RecoveryDecision}
      → decide_recovery is_address normal_closure o ≡ ok d
      → o.execution ≡ returning
      → text_eq o.transition_reason normal_closure ≡ true
      → (d.admissions ≡ false) × (d.action ≡ none)
  planned_close o h e t =
      let (v, same) = decided o h in
      let (closed, idle) = decide_planned o e t in (rw same closed, rw same idle)
