-- ===== src/Scenarios/Authority.antt =====
-- Decisions of shared/authority-recovery.ts at concrete observations.
use pongit.Common.{
  ℕ, zero, suc, ◌≡◌, ◌↔◌, ◌==◌, refl, Bool, true, false, ok, some, none, Option, [], ◌∷◌, Text,
  length,
}
use pongit.Common.Int.{ℤ, pos, ◌+ℤ◌}
use pongit.Authority.Observation.{
  ExecutionMode, interlude, returning, active, HealthKind, unreachable, healthy,
  ExecutionObservation, is_hash, is_sustained, is_silent, out_of_time,
}
use pongit.Authority.Recovery.{
  Action, begin_recovery, RecoveryReason, RecoveryDecision, publication_stopped, interlude_healthy,
  session_renewal_pending, decide_recovery, result, result_action, result_open, invalid,
  invalid_identity, invalid_closure, invalid_hub, invalid_health, decide, delegated,
  with_delegation,
}
use pongit.Authority.Recovery.Justified.{MayPlay, MayAct}
use pongit.Authority.Recovery.Boundary.{admissions_iff, action_needs}

repeat : ℕ → ℕ → Text
repeat zero c = []
repeat (suc n) c = c ∷ repeat n c

-- A text of the length of an address passes for one.
abbrev is_address : Text → Bool
is_address a = length a == 42

address : Text
unfolding repeat
address = b'0' ∷ b'x' ∷ repeat 40 b'1'

hash : ℕ → Text
unfolding repeat
hash c = b'0' ∷ b'x' ∷ repeat 64 c

-- A room whose hub was last heard of at 9000 and may be silent for 600 seconds.
observed : ExecutionMode → HealthKind → Text → ℤ → ExecutionObservation
unfolding address hash
observed execution kind reason timestamp = record {
  chain_id = 10143;
  app = address;
  generation = pos 1;
  block = pos 100;
  block_hash = hash b'a';
  timestamp = timestamp;
  execution = execution;
  transition_reason = reason;
  closure = record { draining_epoch = pos 0; sealed_epoch = pos 0 };
  hub = record {
    phase = active;
    epoch = pos 3;
    last_commit_at = pos 9000;
    max_batch_interval = pos 600;
    expires_at = pos 20000;
    stake_unlock_at = pos 0;
  };
  health = record { kind = kind; consecutive_failures = pos 4; unhealthy_since = pos 9000 };
}

abbrev decision : ExecutionMode → Bool → RecoveryReason → Option Action → RecoveryDecision
decision execution admissions reason action = record {
  execution = execution;
  admissions = admissions;
  reason = reason;
  action = action;
  retry_at = none;
}

silent : ExecutionObservation
unfolding observed hash
silent = observed interlude unreachable (hash b'0') (pos 9601)

live : ExecutionObservation
unfolding observed hash
live = observed interlude healthy (hash b'0') (pos 9601)

closing : ExecutionObservation
unfolding observed hash
closing = observed returning unreachable (hash b'9') (pos 9601)

silent_leaves :
    decide_recovery is_address (hash b'9') silent
    ≡ ok (decision interlude false publication_stopped (some begin_recovery))
unfolding decide_recovery invalid invalid_identity invalid_closure invalid_hub invalid_health
    out_of_time decide delegated silent hash is_hash is_sustained is_silent result_action ◌+ℤ◌
silent_leaves = refl

live_plays :
    decide_recovery is_address (hash b'9') live
    ≡ ok (decision interlude true interlude_healthy none)
unfolding decide_recovery invalid invalid_identity invalid_closure invalid_hub invalid_health
    out_of_time decide delegated with_delegation live hash is_hash is_sustained is_silent
    result_open ◌+ℤ◌
live_plays = refl

closing_waits :
    decide_recovery is_address (hash b'9') closing
    ≡ ok (decision returning false session_renewal_pending none)
unfolding decide_recovery invalid invalid_identity invalid_closure invalid_hub invalid_health
    out_of_time decide closing hash is_hash is_sustained is_silent result ◌+ℤ◌
closing_waits = refl

action_needs_example :
    MayAct silent begin_recovery × (false ≡ false) × (◌≡◌ {A = Option ℤ} none none)
action_needs_example = action_needs is_address (hash b'9') silent begin_recovery silent_leaves refl

admissions_iff_example : (true ≡ true) ↔ MayPlay live
admissions_iff_example = admissions_iff is_address (hash b'9') live live_plays
