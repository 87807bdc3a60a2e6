-- ===== src/Authority/Recovery.antt =====
-- shared/authority-recovery.ts: the decision whether a room may leave the hosted engine.
-- `isAddress` of viem and the hash of "MATCH_SESSION_CLOSED" are parameters.
pub mod Justified
pub mod Boundary
use pongit.Common.{
  ℕ, zero, suc, ◌+◌, ◌-◌, ◌^◌, ◌≡◌, Bool, true, false, not, ◌&&◌, ◌||◌, ltb, leb, ◌==◌,
  if◌then◌else◌, Result, ok, err, ◌>>=◌, ◌>>◌, throw_if, invalid_observation, List, [], ◌∷◌, Option,
  none, some, length, Text, text_eq,
}
use pongit.Common.Int.{ℤ, pos, negsuc, ◌+ℤ◌, ltb_ℤ, leb_ℤ, eqb_ℤ}
use pongit.Authority.Observation.{
  ExecutionMode, interlude, recovery, monad, returning, HubPhase, no_hub, active, exiting,
  challenged, HealthKind, healthy, rate_limited, unreachable, publication_failed, epoch_mismatch,
  Closure, Hub, Health, ExecutionObservation, exec_eq, phase_eq, is_healthy, is_rate_limited,
  is_hash, out_of_time, is_sustained, is_silent,
}

pub data RecoveryReason : Type 0 where
  interlude_healthy interlude_rate_limited interlude_reconnecting waiting_protocol_exit :
      RecoveryReason
  delegation_expired publication_stopped delegation_closed challenge_pending : RecoveryReason
  challenge_window_pending recovery_ready monad_fallback_active admin_return_pending :
      RecoveryReason
  session_draining session_sealed session_renewal_pending : RecoveryReason
  execution_state_inconsistent : RecoveryReason

pub data Action : Type 0 where
  begin_recovery finish_recovery close_completed_session : Action

pub record RecoveryDecision : Type 0 where
  pub execution : ExecutionMode
  pub admissions : Bool
  pub reason : RecoveryReason
  pub action : Option Action
  pub retry_at : Option ℤ

-- The local function `result`.
unfoldable pub result : ExecutionObservation → RecoveryReason → RecoveryDecision
result o reason = record {
  execution = o.execution;
  admissions = false;
  reason = reason;
  action = none;
  retry_at = none;
}

-- `result(reason, { action })`.
unfoldable pub result_action : ExecutionObservation → RecoveryReason → Action → RecoveryDecision
result_action o reason action = record {
  execution = o.execution;
  admissions = false;
  reason = reason;
  action = some action;
  retry_at = none;
}

-- `result(reason, { retryAt })`.
unfoldable pub result_retry : ExecutionObservation → RecoveryReason → ℤ → RecoveryDecision
result_retry o reason at = record {
  execution = o.execution;
  admissions = false;
  reason = reason;
  action = none;
  retry_at = some at;
}

-- `result(reason, { admissions: true })`.
unfoldable pub result_open : ExecutionObservation → RecoveryReason → RecoveryDecision
result_open o reason = record {
  execution = o.execution;
  admissions = true;
  reason = reason;
  action = none;
  retry_at = none;
}

-- `if (o.execution === "Recovery") { … }`
unfoldable pub in_recovery : ExecutionObservation → RecoveryDecision
in_recovery o =
    if phase_eq o.hub.phase no_hub
    then result_action o recovery_ready finish_recovery
    else if phase_eq o.hub.phase exiting
    then if ltb_ℤ o.timestamp o.hub.stake_unlock_at
      then result_retry o challenge_window_pending o.hub.stake_unlock_at
      else result_action o recovery_ready finish_recovery
    else result o execution_state_inconsistent

-- The tail of the decision, from the test of `closure.drainingEpoch`.
unfoldable pub with_delegation : ExecutionObservation → RecoveryDecision
with_delegation o =
    if not (eqb_ℤ o.closure.draining_epoch (pos 0))
    then if not (eqb_ℤ o.closure.draining_epoch o.hub.epoch)
      then result o execution_state_inconsistent
      else result o
          (if not (eqb_ℤ o.closure.sealed_epoch (pos 0)) then session_sealed else session_draining)
    else if is_healthy o.health.kind
    then result_open o interlude_healthy
    else if is_rate_limited o.health.kind
    then result o interlude_rate_limited
    else if is_sustained o
    then result_retry o waiting_protocol_exit
        (o.hub.last_commit_at +ℤ o.hub.max_batch_interval +ℤ pos 1)
    else result o interlude_reconnecting

-- The decision in the modes Interlude and Returning, after the planned close.
unfoldable pub delegated : ExecutionObservation → RecoveryDecision
delegated o =
    if exec_eq o.execution interlude
      && phase_eq o.hub.phase active
      && eqb_ℤ o.closure.sealed_epoch o.hub.epoch
      && not (eqb_ℤ o.hub.epoch (pos 0))
    then result_action o session_sealed close_completed_session
    else if phase_eq o.hub.phase no_hub || phase_eq o.hub.phase exiting
    then result_action o delegation_closed begin_recovery
    else if ltb_ℤ o.hub.expires_at o.timestamp
    then result_action o delegation_expired begin_recovery
    else if is_sustained o && is_silent o
    then result_action o publication_stopped begin_recovery
    else if exec_eq o.execution returning
    then result o admin_return_pending
    else with_delegation o

-- The checks of `closure`, in the order of the code.
unfoldable pub invalid_closure : Closure → Bool
invalid_closure c =
    ltb_ℤ c.draining_epoch (pos 0)
    || ltb_ℤ c.sealed_epoch (pos 0)
    || not (eqb_ℤ c.sealed_epoch (pos 0)) && not (eqb_ℤ c.sealed_epoch c.draining_epoch)

unfoldable pub invalid_hub : Hub → Bool
invalid_hub h =
    out_of_time h.epoch
    || out_of_time h.last_commit_at
    || out_of_time h.max_batch_interval
    || out_of_time h.expires_at
    || out_of_time h.stake_unlock_at

unfoldable pub invalid_health : ℤ → Health → Bool
invalid_health timestamp h =
    ltb_ℤ (pos (2 ^ 53 - 1)) h.consecutive_failures
    || ltb_ℤ h.consecutive_failures (pos 0)
    || ltb_ℤ h.unhealthy_since (pos 0)
    || ltb_ℤ timestamp h.unhealthy_since

module _ (is_address : Text → Bool) (normal_closure : Text) where
  unfoldable pub invalid_identity : ExecutionObservation → Bool
  invalid_identity o =
      not (o.chain_id == 10143)
      || not (is_address o.app)
      || ltb_ℤ o.generation (pos 1)
      || ltb_ℤ o.block (pos 0)
      || not (is_hash o.block_hash)
      || not (is_hash o.transition_reason)

  unfoldable pub invalid : ExecutionObservation → Bool
  invalid o =
      invalid_identity o
      || invalid_closure o.closure
      || out_of_time o.timestamp
      || invalid_hub o.hub
      || invalid_health o.timestamp o.health

  unfoldable pub decide : ExecutionObservation → RecoveryDecision
  decide o =
      if phase_eq o.hub.phase challenged
      then result o challenge_pending
      else if exec_eq o.execution monad
      then if not (phase_eq o.hub.phase no_hub)
        then result o execution_state_inconsistent
        else result_open o monad_fallback_active
      else if exec_eq o.execution recovery
      then in_recovery o
      else if exec_eq o.execution returning && text_eq o.transition_reason normal_closure
      then if phase_eq o.hub.phase exiting && ltb_ℤ o.timestamp o.hub.stake_unlock_at
        then result_retry o session_renewal_pending o.hub.stake_unlock_at
        else result o session_renewal_pending
      else delegated o

  unfoldable pub decide_recovery : ExecutionObservation → Result RecoveryDecision
  decide_recovery o = do throw_if (invalid o) invalid_observation; ok (decide o)
