-- ===== src/Rooms/Lifecycle/Reasons.antt =====
-- Why a cycle may journal a transaction or change the stage.
use pongit.Common.{
  ℕ, suc, ◌+◌, ◌*◌, ◌/◌, none, Text, List, [], ◌∷◌, ◌≤◌, ◌<◌, ◌≡◌, ◌≢◌, ◌⊎◌, false, All, Option,
  some,
}
use pongit.Rooms.Availability.{IsAvailable}
use pongit.Rooms.Lifecycle.{
  Stage, playing, draining, challenge, finalizing, renewing, starting, JobKind, close, release,
  renew, final, JobId, Job, pending, Call, close_engine, renew_engine, release_stake,
  finalize_result, HubDelegation, NodeStatus, Event, created, sent, moved, ready, fenced,
  asked_hosted, State, Options, Answers,
}
use pongit.Rooms.Lifecycle.Cycle.{now, finished_chaos, has_engine_pending}

abbrev pub InJournal : Job → List Job → Type 0
InJournal job [] = ⊥
InJournal job (j ∷ js) = (j ≡ job) ⊎ InJournal job js

module _ (o : Options) (a : Answers) where
  -- A node of the delegation's epoch has published everything, and no match is active.
  abbrev pub IsDrained : HubDelegation → Option NodeStatus → Option ℕ → Type 0
  IsDrained d node active =
      ((n : NodeStatus) × (node ≡ some n) × (n.epoch ≡ d.epoch) × (n.pending_diffs ≡ 0))
      × (active ≡ some 0)

  -- The node serves the delegation, and has committed what the hub has.
  abbrev pub IsSynchronised : HubDelegation → Type 0
  IsSynchronised d =
      (n : NodeStatus) × (a.node ≡ some n)
      × IsAvailable o.app (record { app = n.app; chain_id = n.chain_id; epoch = n.epoch })
          (record { status = d.status; expires_at = d.expires_at; epoch = d.epoch }) (now o a)
      × (n.committed_batches ≡ d.batch_index)

  abbrev pub IsFinal : ℕ → Type 0
  IsFinal id = (k : ℕ) × (a.final_results id ≡ some (suc k))

  module _ (s : State) (d : HubDelegation) where
    abbrev pub CreationReason : JobKind → Type 0
    CreationReason close =
        (d.status ≡ 1)
        × (s.stage ≡ draining)
        × (s.changed_at + 60000 ≤ a.now_ms)
        × (has_engine_pending o.app s.engine_jobs ≡ false)
        × IsDrained d a.node a.active
        × (a.before_close ≡ some tt)
        × IsDrained d a.fenced_node a.fenced_active
        × (a.active_count ≡ some 0)
    CreationReason release = (d.status ≡ 2) × (d.stake_unlock_at ≤ now o a)
    CreationReason (final id) = (d.status ≡ 0) × (s.stage ≢ playing) × (a.final_results id ≡ some 0)
    CreationReason renew =
        (d.status ≡ 0)
        × ((s.stage ≡ renewing) ⊎ All IsFinal (finished_chaos a.results))
        × (a.before_renew ≡ some tt)

    abbrev pub MoveReason : Stage → Stage → Type 0
    MoveReason from playing = (from ≡ starting) × IsSynchronised d
    MoveReason from draining = (d.status ≡ 1) × (from ≡ playing → d.expires_at ≤ now o a + 3600)
    MoveReason from challenge = ((d.status ≡ 1) × (from ≡ draining)) ⊎ (d.status ≡ 2)
    MoveReason from finalizing =
        ((d.status ≡ 2) × (d.stake_unlock_at ≤ now o a)) ⊎ ((d.status ≡ 0) × (from ≢ playing))
    MoveReason from renewing =
        (d.status ≡ 0)
        × (from ≡ finalizing)
        × All IsFinal (finished_chaos a.results)
        × (o.hold_renew ≡ false)
    MoveReason from starting = (d.status ≡ 1) × (from ≡ renewing)

    -- The players are told that they may play: the session goes on for more than an hour, or the
    -- node has just caught up with the hub.
    abbrev pub ReadyReason : ℕ → Type 0
    ReadyReason epoch =
        (epoch ≡ d.epoch)
        × (((s.stage ≡ playing) × (d.status ≡ 1) × (now o a + 3600 < d.expires_at))
            ⊎ IsSynchronised d)

  -- The contract that a job of the kind calls, and the function.
  abbrev pub transaction_of : JobKind → Text × Call
  transaction_of close = (o.app, close_engine)
  transaction_of release = (o.hub, release_stake o.app)
  transaction_of (final id) = (o.adapter, finalize_result id)
  transaction_of renew = (o.app, renew_engine)

  -- A new row of the operator, with the signed transaction of its kind, whose nonce is the account's and
  -- has no transaction before it, which has been simulated, and which has a fifth more gas than estimated.
  pub record IsSigned (job : Job) : Type 0 where
    pub app : job.id.app ≡ o.app
    pub owner : job.owner ≡ o.owner
    pub status : job.status ≡ pending
    pub hash : job.hash ≡ o.keccak256 job.raw
    pub nonces : (a.nonce_pending ≡ some job.nonce) × (a.nonce_latest ≡ some job.nonce)
    pub simulated : a.simulated ≡ some tt
    pub raw :
        (gas : ℕ) × (a.prepared_gas ≡ some gas)
        × (job.raw
            ≡ o.sign (record {
              to_ = (transaction_of job.id.kind).0;
              call = (transaction_of job.id.kind).1;
              nonce = job.nonce;
              gas = gas * 12 / 10;
            }))

  -- A row that the journal had before the cycle, or a new one.
  abbrev pub IsKnown : State → Job → Type 0
  IsKnown s job = InJournal job s.jobs ⊎ IsSigned job

  -- The row is pending, and its transaction has no receipt.
  abbrev pub IsUnconfirmed : Job → Type 0
  IsUnconfirmed job =
      (job.status ≡ pending) × ((a.first_receipt job.hash ≡ none) ⊎ (a.receipt job.hash ≡ none))

  -- A job may be created, for the transaction of its kind.
  abbrev pub MayCreate : State → JobId → Text → Call → Type 0
  MayCreate s id to_ call =
      ((d : HubDelegation) × (a.delegation ≡ some d) × CreationReason s d id.kind)
      × (id.app ≡ o.app)
      × (to_ ≡ (transaction_of id.kind).0)
      × (call ≡ (transaction_of id.kind).1)

  -- The node is drained, and `beforeClose` has returned.
  abbrev pub FenceReason : State → HubDelegation → ℕ → Type 0
  FenceReason s d epoch =
      (epoch ≡ d.epoch)
      × (d.status ≡ 1)
      × (s.stage ≡ draining)
      × (s.changed_at + 60000 ≤ a.now_ms)
      × IsDrained d a.node a.active
      × (a.before_close ≡ some tt)

  -- The hub is active, no node of its epoch answers, and the host has taken the request.
  abbrev pub HostReason : HubDelegation → ℕ → Type 0
  HostReason d epoch =
      (epoch ≡ d.epoch)
      × (d.status ≡ 1)
      × ((n : NodeStatus) → a.node ≡ some n → n.epoch ≢ d.epoch)
      × (a.hosted_renewal ≡ some tt)

  abbrev pub Reason : State → Event → Type 0
  Reason s (created job) =
      ((d : HubDelegation) × (a.delegation ≡ some d) × CreationReason s d job.id.kind)
      × IsSigned job
  Reason s (sent job) = IsUnconfirmed job × IsKnown s job
  Reason s (moved from to_) =
      (d : HubDelegation) × (a.delegation ≡ some d) × MoveReason s d from to_
  Reason s (ready epoch) = (d : HubDelegation) × (a.delegation ≡ some d) × ReadyReason s d epoch
  Reason s (fenced epoch) = (d : HubDelegation) × (a.delegation ≡ some d) × FenceReason s d epoch
  Reason s (asked_hosted epoch) = (d : HubDelegation) × (a.delegation ≡ some d) × HostReason d epoch

  module _ (s : State) where
    -- The log is sound, and the pending rows are old or new.
    abbrev pub IsSound : State → Type 0
    IsSound t = All (Reason s) t.log × All (λ job. job.status ≡ pending → IsKnown s job) t.jobs

    -- The journal's row is known where it is pending.
    abbrev pub IsAtRow : Stage → Job → State → Type 0
    IsAtRow stage job t = (t.stage ≡ stage) × IsSound t × (job.status ≡ pending → IsKnown s job)

    -- The stage has been read or written, and the log is sound.
    abbrev pub IsAt : {A : Type 0} → Stage → A → State → Type 0
    IsAt stage v t = (t.stage ≡ stage) × IsSound t

    -- What the reasons say of the state has not changed since the start.
    abbrev pub IsFresh : {A : Type 0} → A → State → Type 0
    IsFresh v t =
        (t.stage ≡ s.stage)
        × (t.changed_at ≡ s.changed_at)
        × (t.engine_jobs ≡ s.engine_jobs)
        × IsSound t
