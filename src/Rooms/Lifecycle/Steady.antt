-- ===== src/Rooms/Lifecycle/Steady.antt =====
-- What is kept when a job of the journal gets its outcome, and when an idle operator's next job is
-- inserted, is kept by `submit`.
use pongit.Common.{
  ◌==◌, ◌≡◌, refl, Bool, true, false, not, if◌then◌else◌, List, ◌∷◌, Option, none, some, Text,
}
use pongit.Rooms.Lifecycle.{
  Stage, JobId, Job, JobStatus, pending, confirmed, failed, Call, State, Options, Answers, return,
}
use pongit.Rooms.Lifecycle.Submit.{
  find_job, oldest_pending, has_nonce, set_status, outcome, create_job, insert_job, journaled,
  create_unless, follow_up, resolve_receipt, submit, settle, settle_job, settle_receipt, transition,
}
use pongit.Rooms.Lifecycle.Cycle.{submit_then}
use pongit.Rooms.Lifecycle.Runs.{Keeps, chain, reads, either, After-if}

pub record JournalLaws (o : Options) (C : List Job → Type 0) : Type 0 where
  pub settled :
      (id : JobId) (success : Bool) (jobs : List Job)
      → C jobs
      → C (set_status id (outcome success) jobs)
  pub inserted :
      (job : Job) (jobs : List Job)
      → job.owner ≡ o.owner
      → job.hash ≡ o.keccak256 job.raw
      → oldest_pending o.owner jobs ≡ none
      → find_job job.id jobs ≡ none
      → C jobs
      → C (job ∷ jobs)

module _ (o : Options) (a : Answers) (C : List Job → Type 0) (laws : JournalLaws o C) where
  abbrev P : State → Type 0
  P t = C t.jobs

  settle_receipt-Keeps :
      (job : Job) (r : Option Bool) (t : State) → P t → Keeps P (settle_receipt o a job r t)
  settle_receipt-Keeps job none t h = reads P a.resent _ _ h λ _. h
  settle_receipt-Keeps job (some true) t h = laws.settled job.id true t.jobs h
  settle_receipt-Keeps job (some false) t h = laws.settled job.id false t.jobs h

  settle_job-Keeps : (job : Option Job) (t : State) → P t → Keeps P (settle_job o a job t)
  settle_job-Keeps none t h = h
  settle_job-Keeps (some job) t h = settle_receipt-Keeps job (a.first_receipt job.hash) t h

  pub settle-Keeps : (t : State) → P t → Keeps P (settle o a t)
  unfolding settle
  settle-Keeps t h = settle_job-Keeps (oldest_pending o.owner t.jobs) t h

  insert_job-Keeps :
      (job : Job) (t : State)
      → job.owner ≡ o.owner
      → job.hash ≡ o.keccak256 job.raw
      → oldest_pending o.owner t.jobs ≡ none
      → find_job job.id t.jobs ≡ none
      → P t
      → Keeps P (insert_job o a job t)
  insert_job-Keeps job t own hashed idle fresh h =
      After-if P (λ _. P) (has_nonce job.owner job.nonce t.jobs) _ _ (λ _. h)
        (λ _. laws.inserted job t.jobs own hashed idle fresh h)

  create_job-Keeps :
      (id : JobId) (to_ : Text) (call : Call) (t : State)
      → oldest_pending o.owner t.jobs ≡ none
      → find_job id t.jobs ≡ none
      → P t
      → Keeps P (create_job o a id to_ call t)
  unfolding create_job
  create_job-Keeps id to_ call t idle fresh h = reads P a.nonce_pending t _ h λ nonce.
      reads P a.nonce_latest t _ h λ latest. either P (not (nonce == latest)) _ _ t h (
        reads P a.simulated t _ h
          λ _. reads P a.prepared_gas t _ h λ gas. insert_job-Keeps _ t refl refl idle fresh h)

  create_unless-Keeps :
      (id : JobId) (to_ : Text) (call : Call) (other : Option Job) (t : State)
      → oldest_pending o.owner t.jobs ≡ other
      → find_job id t.jobs ≡ none
      → P t
      → Keeps P (create_unless o a id to_ call other t)
  create_unless-Keeps id to_ call none t idle fresh h = create_job-Keeps id to_ call t idle fresh h
  create_unless-Keeps id to_ call (some other) t idle fresh h = h

  journaled-Keeps :
      (id : JobId) (to_ : Text) (call : Call) (found : Option Job) (t : State)
      → find_job id t.jobs ≡ found
      → P t
      → Keeps P (journaled o a id to_ call found t)
  journaled-Keeps id to_ call none t fresh h =
      create_unless-Keeps id to_ call (oldest_pending o.owner t.jobs) t refl fresh h
  journaled-Keeps id to_ call (some job) t fresh h = h

  resolve_receipt-Keeps :
      (id : JobId) (job : Job) (r : Option Bool) (t : State)
      → P t
      → Keeps P (resolve_receipt o a id job r t)
  resolve_receipt-Keeps id job none t h = reads P a.resent _ _ h λ _. h
  resolve_receipt-Keeps id job (some true) t h = laws.settled id true t.jobs h
  resolve_receipt-Keeps id job (some false) t h = laws.settled id false t.jobs h

  follow_up-Keeps :
      (id : JobId) (job : Job) (status : JobStatus) (t : State)
      → P t
      → Keeps P (follow_up o a id job status t)
  follow_up-Keeps id job pending t h = resolve_receipt-Keeps id job (a.receipt job.hash) t h
  follow_up-Keeps id job confirmed t h = h
  follow_up-Keeps id job failed t h = h

  pub submit-Keeps :
      (id : JobId) (to_ : Text) (call : Call) (t : State) → P t → Keeps P (submit o a id to_ call t)
  unfolding submit
  submit-Keeps id to_ call t h =
      chain P (journaled o a id to_ call (find_job id t.jobs) t) _
        (journaled-Keeps id to_ call (find_job id t.jobs) t refl h)
        λ job u k. follow_up-Keeps id job job.status u k

  pub transition-Keeps : (to_ : Stage) (t : State) → P t → Keeps P (transition o a to_ t)
  unfolding transition
  transition-Keeps to_ t h = h

  pub move-Keeps :
      (b : Bool) (to_ : Stage) (t : State)
      → P t
      → Keeps P ((if b then return tt else transition o a to_) t)
  move-Keeps true to_ t h = h
  move-Keeps false to_ t h = transition-Keeps to_ t h

  pub submit_then-Keeps :
      (next : Stage) (id : JobId) (to_ : Text) (call : Call) (t : State)
      → P t
      → Keeps P (submit_then o a next id to_ call t)
  submit_then-Keeps next id to_ call t h =
      chain P (submit o a id to_ call t) _ (submit-Keeps id to_ call t h)
        λ done u k. either P done _ _ u (transition-Keeps next u k) k
