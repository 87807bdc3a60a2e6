-- ===== src/Rooms/Lifecycle/Submit.antt =====
-- The operator's journal: the local functions `transition` and `submit`, and the pending job that a
-- cycle settles first.
use pongit.Common.{
  ℕ, ◌*◌, ◌/◌, ◌==◌, ltb, Bool, true, false, not, ◌&&◌, if◌then◌else◌, List, [], ◌∷◌, Option, none,
  some, Text, text_eq, map,
}
use pongit.Rooms.Lifecycle.{
  Stage, JobKind, close, release, renew, final, JobId, JobStatus, pending, confirmed, failed, Job,
  Call, created, sent, moved, Options, Answers, awaiting_confirmation, account_used_elsewhere,
  nonce_taken, reverted_inspect, reverted, reverted_review, Act, ◌>>=◌, ◌>>◌, returned, threw,
  return, throw, get, modify, await, record_event,
}

abbrev same_kind : JobKind → JobKind → Bool
same_kind close close = true
same_kind release release = true
same_kind renew renew = true
same_kind (final i) (final j) = i == j
same_kind _ _ = false

abbrev pub same_id : JobId → JobId → Bool
same_id a b = text_eq a.app b.app && a.epoch == b.epoch && same_kind a.kind b.kind

abbrev pub is_pending : JobStatus → Bool
is_pending pending = true
is_pending _ = false

-- `WHERE id=$1`
abbrev pub find_job : JobId → List Job → Option Job
find_job id [] = none
find_job id (j ∷ js) = let rest = find_job id js in if same_id j.id id then some j else rest

-- `WHERE owner=$1 AND status='pending'`
abbrev pub owner_pending : Text → Job → Bool
owner_pending owner j = text_eq j.owner owner && is_pending j.status

abbrev pub earlier : Job → Option Job → Job
earlier j none = j
earlier j (some k) = if ltb k.nonce j.nonce then k else j

-- `ORDER BY nonce LIMIT 1`
abbrev pub oldest_pending : Text → List Job → Option Job
oldest_pending owner [] = none
oldest_pending owner (j ∷ js) =
    let rest = oldest_pending owner js in
    if owner_pending owner j then some (earlier j rest) else rest

-- `UNIQUE(owner,nonce)` refuses the row.
abbrev pub has_nonce : Text → ℕ → List Job → Bool
has_nonce owner nonce [] = false
has_nonce owner nonce (j ∷ js) =
    let rest = has_nonce owner nonce js in
    if text_eq j.owner owner && j.nonce == nonce then true else rest

abbrev pub set_job : JobId → JobStatus → Job → Job
set_job id status j = if same_id j.id id then record j { status = status } else j

-- `UPDATE il_lifecycle_jobs SET status=$2 WHERE id=$1`
abbrev pub set_status : JobId → JobStatus → List Job → List Job
set_status id status jobs = map (set_job id status) jobs

abbrev pub outcome : Bool → JobStatus
outcome true = confirmed
outcome false = failed

abbrev pub mark : JobId → JobStatus → Act (Unit {0})
mark id status = modify (λ s. record s { jobs = set_status id status s.jobs })

module _ (o : Options) (a : Answers) where
  unfoldable pub transition : Stage → Act (Unit {0})
  transition to_ = do
    s ← get
    modify (λ t. record t { stage = to_; changed_at = a.now_ms })
    record_event (moved s.stage to_)

  -- `sendRawTransaction` of the text of a row.
  abbrev pub send : Job → Act (Unit {0})
  send job = do record_event (sent job); await a.resent

  abbrev pub new_job : JobId → ℕ → Text → Job
  new_job id nonce raw = record {
    id = id;
    owner = o.owner;
    nonce = nonce;
    raw = raw;
    hash = o.keccak256 raw;
    status = pending;
  }

  abbrev pub insert_job : Job → Act Job
  insert_job job s =
      if has_nonce job.owner job.nonce s.jobs
      then threw nonce_taken s
      else returned job (record s { jobs = job ∷ s.jobs; log = created job ∷ s.log })

  -- The body of `if (!job)` from the pending row on: the job that is journaled.
  unfoldable pub create_job : JobId → Text → Call → Act Job
  create_job id to_ call = do
    nonce ← await a.nonce_pending
    latest ← await a.nonce_latest
    if not (nonce == latest) then throw account_used_elsewhere else do
      await a.simulated
      gas ← await a.prepared_gas
      insert_job (
          new_job id nonce
            (o.sign (record { to_ = to_; call = call; nonce = nonce; gas = gas * 12 / 10 })))

  abbrev pub create_unless : JobId → Text → Call → Option Job → Act Job
  create_unless id to_ call (some other) = throw awaiting_confirmation
  create_unless id to_ call none = create_job id to_ call

  abbrev pub journaled : JobId → Text → Call → Option Job → Act Job
  journaled id to_ call (some job) = return job
  journaled id to_ call none = do s ← get; create_unless id to_ call (oldest_pending o.owner s.jobs)

  abbrev pub resolve_receipt : JobId → Job → Option Bool → Act Bool
  resolve_receipt id job none = do send job; return false
  resolve_receipt id job (some success) = do
    mark id (outcome success)
    if success then return true else throw reverted

  abbrev pub follow_up : JobId → Job → JobStatus → Act Bool
  follow_up id job failed = throw reverted_inspect
  follow_up id job confirmed = return true
  follow_up id job pending = resolve_receipt id job (a.receipt job.hash)

  unfoldable pub submit : JobId → Text → Call → Act Bool
  submit id to_ call = do
    s ← get
    job ← journaled id to_ call (find_job id s.jobs)
    follow_up id job job.status

  -- The first statements of `cycle` on a pending job: whether the cycle goes on.
  abbrev pub settle_receipt : Job → Option Bool → Act Bool
  settle_receipt job none = do send job; return false
  settle_receipt job (some success) = do
    mark job.id (outcome success)
    if success then return true else throw reverted_review

  abbrev pub settle_job : Option Job → Act Bool
  settle_job none = return true
  settle_job (some job) = settle_receipt job (a.first_receipt job.hash)

  unfoldable pub settle : Act Bool
  settle = do s ← get; settle_job (oldest_pending o.owner s.jobs)
