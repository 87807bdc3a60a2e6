-- ===== src/Scenarios/Lifecycle.antt =====
-- Renewals of the engine: a closure that is journaled, one that is refused, and a release.
use pongit.Common.{
  ℕ, arith, ◌≡◌, refl, Bool, true, false, All, List, [], ◌∷◌, Option, none, some, Text,
}
use pongit.Rooms.Lifecycle.{
  Stage, draining, close, JobId, Job, pending, HubDelegation, NodeStatus, created, sent, fenced,
  State, Options, Answers,
}
use pongit.Rooms.Availability.{rooms_drain_blocker}
use pongit.Rooms.Lifecycle.Submit.{settle, submit, create_job, transition}
use pongit.Rooms.Lifecycle.Cycle.{cycle, body, on_active, drain, close_up, same_stage}
use pongit.Rooms.Lifecycle.Reasons.{IsSound}
use pongit.Rooms.Lifecycle.Safety.{cycle-IsSound}
use pongit.Rooms.Lifecycle.Journal.{IsJournal, IsHashed, cycle-IsJournal}

abbrev app : Text
app = b'a' ∷ []

abbrev options : Options
options = record {
  app = app;
  hub = b'h' ∷ [];
  adapter = b'r' ∷ [];
  owner = b'o' ∷ [];
  hold_renew = false;
  sign = λ r. r.to_;
  keccak256 = λ t. b'k' ∷ t;
}

abbrev drained_node : NodeStatus
drained_node = record {
  app = app;
  chain_id = 4242;
  epoch = 5;
  committed_batches = 7;
  pending_diffs = 0;
}

-- The hub's delegation of epoch 5, in a status.
abbrev delegation_in : ℕ → HubDelegation
delegation_in status = record {
  status = status;
  epoch = 5;
  expires_at = 2000;
  stake_unlock_at = 90;
  batch_index = 7;
}

-- Second 100; the node is drained, but has some active matches at the second look.
abbrev answers : ℕ → ℕ → Option Bool → Answers
answers status active_later mined = record {
  locked = true;
  now_ms = 100000;
  first_receipt = λ _. mined;
  delegation = some (delegation_in status);
  node = some drained_node;
  active = some 0;
  before_close = some tt;
  fenced_node = some drained_node;
  fenced_active = some active_later;
  active_count = some 0;
  results = [];
  final_results = λ _. none;
  before_renew = some tt;
  hosted_renewal = some tt;
  nonce_pending = some 3;
  nonce_latest = some 3;
  simulated = some tt;
  prepared_gas = some 100;
  receipt = λ _. mined;
  resent = some tt;
}

abbrev state_in : Stage → List Job → State
state_in stage jobs = record {
  stage = stage;
  changed_at = 40000;
  epoch = 5;
  jobs = jobs;
  engine_jobs = [];
  working = false;
  healthy = false;
  error = none;
  session = record { epoch = 0; expires_at = 0; release_at = 0; batch = 0 };
  log = [];
}

abbrev close_id : JobId
close_id = record { app = app; epoch = 5; kind = close }

abbrev close_job : Job
close_job = record {
  id = close_id;
  owner = b'o' ∷ [];
  nonce = 3;
  raw = app;
  hash = b'k' ∷ app;
  status = pending;
}

close_journaled :
    (cycle options (answers 1 0 none) (state_in draining [])).log
    ≡ sent close_job ∷ created close_job ∷ fenced 5 ∷ []
unfolding cycle body settle on_active drain close_up submit create_job transition same_stage
    rooms_drain_blocker
close_journaled = refl

cycle-IsSound_example :
    IsSound options
      (answers 1 0 none)
      (state_in draining [])
      (cycle options (answers 1 0 none) (state_in draining []))
cycle-IsSound_example = cycle-IsSound options (answers 1 0 none) (state_in draining []) refl

cycle-IsJournal_example :
    IsJournal options.owner
      (cycle options (answers 1 0 (some true)) (state_in draining (close_job ∷ []))).jobs
    × All
        (IsHashed options)
        (cycle options (answers 1 0 (some true)) (state_in draining (close_job ∷ []))).jobs
cycle-IsJournal_example =
    cycle-IsJournal options (answers 1 0 (some true)) (state_in draining (close_job ∷ []))
      (omega arith, (tt, tt)) (refl, tt)
