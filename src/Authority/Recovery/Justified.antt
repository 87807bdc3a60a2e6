-- ===== src/Authority/Recovery/Justified.antt =====
-- Decisions of shared/authority-recovery.ts that an observation bears out, branch by branch.
use pongit.Common.{
  ◌≡◌, refl, ◌⊎◌, inl, inr, Bool, true, false, not, ◌&&◌, ◌||◌, arith, if◌then◌else◌, none, some,
  subst,
}
use pongit.Common.Int.{ℤ, pos, ◌≤ℤ◌, ◌<ℤ◌, eqb_ℤ, ltb_ℤ}
use pongit.Authority.Observation.{
  ExecutionMode, interlude, recovery, monad, returning, HubPhase, no_hub, active, exiting,
  challenged, healthy, ExecutionObservation, exec_eq, phase_eq, is_healthy, is_rate_limited,
  is_sustained, is_silent,
}
use pongit.Authority.Recovery.{
  RecoveryReason, Action, begin_recovery, finish_recovery, close_completed_session,
  RecoveryDecision, result, result_action, result_retry, result_open, in_recovery, with_delegation,
  delegated,
}

abbrev pub HubIsFresh : ExecutionObservation → Type 0
HubIsFresh o =
    (o.hub.phase ≡ active)
    × (o.health.kind ≡ healthy)
    × (o.timestamp ≤ℤ o.hub.expires_at)
    × (o.closure.draining_epoch ≡ pos 0)

abbrev pub MayPlay : ExecutionObservation → Type 0
MayPlay o =
    ((o.execution ≡ monad) × (o.hub.phase ≡ no_hub)) ⊎ ((o.execution ≡ interlude) × HubIsFresh o)

-- The hub or the clock has ended the delegation, or a sustained failure meets its silence.
abbrev pub MayLeave : ExecutionObservation → Type 0
MayLeave o =
    ((o.hub.phase ≡ no_hub) ⊎ (o.hub.phase ≡ exiting))
    ⊎ ((o.hub.phase ≡ active) × (o.hub.expires_at <ℤ o.timestamp))
    ⊎ ((o.hub.phase ≡ active) × (is_sustained o ≡ true) × (is_silent o ≡ true))

-- What each action needs.
abbrev pub MayAct : ExecutionObservation → Action → Type 0
MayAct o begin_recovery = ((o.execution ≡ interlude) ⊎ (o.execution ≡ returning)) × MayLeave o
MayAct o finish_recovery =
    (o.execution ≡ recovery)
    × ((o.hub.phase ≡ no_hub) ⊎ ((o.hub.phase ≡ exiting) × (o.hub.stake_unlock_at ≤ℤ o.timestamp)))
MayAct o close_completed_session =
    (o.execution ≡ interlude)
    × (o.hub.phase ≡ active)
    × (o.closure.sealed_epoch ≡ o.hub.epoch)
    × (eqb_ℤ o.hub.epoch (pos 0) ≡ false)

-- A decision that the observation bears out.
pub record IsJustified (o : ExecutionObservation) (d : RecoveryDecision) : Type 0 where
  pub plays : d.admissions ≡ true → MayPlay o
  pub acts :
      (a : Action) → d.action ≡ some a → MayAct o a × (d.admissions ≡ false) × (d.retry_at ≡ none)

pub result-IsJustified :
    (o : ExecutionObservation) (r : RecoveryReason) → IsJustified o (result o r)
unfolding result
result-IsJustified o r = record { plays = λ h. cc; acts = λ a h. cc }

pub result_retry-IsJustified :
    (o : ExecutionObservation) (r : RecoveryReason) (at : ℤ) → IsJustified o (result_retry o r at)
unfolding result_retry
result_retry-IsJustified o r at = record { plays = λ h. cc; acts = λ a h. cc }

pub result_open-IsJustified :
    (o : ExecutionObservation) (r : RecoveryReason) → MayPlay o → IsJustified o (result_open o r)
unfolding result_open
result_open-IsJustified o r m = record { plays = λ _. m; acts = λ a h. cc }

pub result_action-IsJustified :
    (o : ExecutionObservation) (r : RecoveryReason) (a : Action)
    → MayAct o a
    → IsJustified o (result_action o r a)
unfolding result_action
result_action-IsJustified o r a m = record {
  plays = λ h. cc;
  acts = λ b h. (let same : a ≡ b = cc in subst (MayAct o) same m, refl, refl);
}

pub if-IsJustified :
    (o : ExecutionObservation) (b : Bool) {d e : RecoveryDecision}
    → (b ≡ true → IsJustified o d)
    → (b ≡ false → IsJustified o e)
    → IsJustified o (if b then d else e)
if-IsJustified o true h k = h refl
if-IsJustified o false h k = k refl

pub exec_eq_sound : (m n : ExecutionMode) → exec_eq m n ≡ true → m ≡ n
exec_eq_sound m n h = ground arith

pub phase_eq_sound : (m n : HubPhase) → phase_eq m n ≡ true → m ≡ n
phase_eq_sound m n h = ground arith

ltb-false : (a b : ℤ) → ltb_ℤ a b ≡ false → b ≤ℤ a
ltb-false a b h = ground arith

ltb-true : (a b : ℤ) → ltb_ℤ a b ≡ true → a <ℤ b
ltb-true a b h = ground arith

eqb_eq : (a b : ℤ) → eqb_ℤ a b ≡ true → a ≡ b
eqb_eq a b h = ground arith

pub in_recovery-IsJustified :
    (o : ExecutionObservation) → o.execution ≡ recovery → IsJustified o (in_recovery o)
unfolding in_recovery
in_recovery-IsJustified o e =
    if-IsJustified o (phase_eq o.hub.phase no_hub)
      (λ p.
        result_action-IsJustified o _ finish_recovery
          (e, inl (phase_eq_sound o.hub.phase no_hub p)))
      λ _.
        if-IsJustified o (phase_eq o.hub.phase exiting)
          (λ p.
            if-IsJustified o (ltb_ℤ o.timestamp o.hub.stake_unlock_at)
              (λ _. result_retry-IsJustified o _ _)
              λ late.
                result_action-IsJustified o _ finish_recovery
                  (e, inr (phase_eq_sound o.hub.phase exiting p, ltb-false o.timestamp _ late)))
          λ _. result-IsJustified o _

is_active :
    (p : HubPhase)
    → phase_eq p challenged ≡ false
    → (phase_eq p no_hub || phase_eq p exiting) ≡ false
    → p ≡ active
is_active p c n = ground arith

pub is_delegated :
    (m : ExecutionMode)
    → exec_eq m monad ≡ false
    → exec_eq m recovery ≡ false
    → (m ≡ interlude) ⊎ (m ≡ returning)
is_delegated m a b = ground arith

pub with_delegation-IsJustified :
    (o : ExecutionObservation)
    → o.execution ≡ interlude
    → o.hub.phase ≡ active
    → o.timestamp ≤ℤ o.hub.expires_at
    → IsJustified o (with_delegation o)
unfolding with_delegation
with_delegation-IsJustified o e p t =
    if-IsJustified o (not (eqb_ℤ o.closure.draining_epoch (pos 0)))
      (λ _.
        if-IsJustified o (not (eqb_ℤ o.closure.draining_epoch o.hub.epoch))
          (λ _. result-IsJustified o _) λ _. result-IsJustified o _)
      λ c.
        if-IsJustified o (is_healthy o.health.kind)
          (λ k. result_open-IsJustified o _ (inr (e, (p, ground arith, t, undrained c))))
          λ _.
            if-IsJustified o (is_rate_limited o.health.kind) (λ _. result-IsJustified o _)
              λ _.
                if-IsJustified o (is_sustained o) (λ _. result_retry-IsJustified o _ _)
                  λ _. result-IsJustified o _
  where
    undrained :
        not (eqb_ℤ o.closure.draining_epoch (pos 0)) ≡ false → o.closure.draining_epoch ≡ pos 0
    undrained c = eqb_eq o.closure.draining_epoch (pos 0) (ground arith)

-- The tests of a session that is sealed.
is_sealed :
    (o : ExecutionObservation)
    → (exec_eq o.execution interlude
        && phase_eq o.hub.phase active
        && eqb_ℤ o.closure.sealed_epoch o.hub.epoch
        && not (eqb_ℤ o.hub.epoch (pos 0)))
      ≡ true
    → MayAct o close_completed_session
is_sealed o h = ground (arith, eqb_eq o.closure.sealed_epoch o.hub.epoch)

is_closed :
    (p : HubPhase) → (phase_eq p no_hub || phase_eq p exiting) ≡ true → (p ≡ no_hub) ⊎ (p ≡ exiting)
is_closed p h = ground arith

stays :
    (m : ExecutionMode)
    → (m ≡ interlude) ⊎ (m ≡ returning)
    → exec_eq m returning ≡ false
    → m ≡ interlude
stays m h r = ground arith

pub delegated-IsJustified :
    (o : ExecutionObservation)
    → (o.execution ≡ interlude) ⊎ (o.execution ≡ returning)
    → phase_eq o.hub.phase challenged ≡ false
    → IsJustified o (delegated o)
unfolding delegated
delegated-IsJustified o e c =
    if-IsJustified o _ (λ s. result_action-IsJustified o _ close_completed_session (is_sealed o s))
      λ _.
        if-IsJustified o (phase_eq o.hub.phase no_hub || phase_eq o.hub.phase exiting)
          (λ p. result_action-IsJustified o _ begin_recovery (e, inl (is_closed o.hub.phase p)))
          λ p.
            let live = is_active o.hub.phase c p in
            if-IsJustified o (ltb_ℤ o.hub.expires_at o.timestamp)
              (λ x.
                result_action-IsJustified o _ begin_recovery
                  (e, inr (inl (live, ltb-true o.hub.expires_at o.timestamp x))))
              λ x.
                if-IsJustified o (is_sustained o && is_silent o)
                  (λ b.
                    result_action-IsJustified o _ begin_recovery
                      (e, inr (inr (live, ground arith, ground arith))))
                  λ _.
                    if-IsJustified o (exec_eq o.execution returning) (λ _. result-IsJustified o _)
                      λ r.
                        with_delegation-IsJustified o (stays o.execution e r) live
                          (ltb-false o.hub.expires_at o.timestamp x)
