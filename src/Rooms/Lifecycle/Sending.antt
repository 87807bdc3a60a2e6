-- ===== src/Rooms/Lifecycle/Sending.antt =====
-- `submit`, `transition` and the pending job keep the reasons.
use pongit.Common.{
  ℕ, ◌*◌, ◌/◌, ◌≡◌, refl, sym, ap, ap₂, ◌∙◌, subst, ◌==◌, ltb, inl, inr, arith, Bool, true, false,
  not, ◌&&◌, Bool-cases, found-if, All, List, [], ◌∷◌, Option, none, some, Text, text_eq,
}
use pongit.Rooms.Lifecycle.{
  Stage, JobId, Job, JobStatus, pending, confirmed, failed, Call, created, moved, State, Options,
  Answers,
}
use pongit.Rooms.Lifecycle.Submit.{
  transition, submit, settle, find_job, oldest_pending, owner_pending, is_pending, earlier, same_id,
  set_status, outcome, has_nonce, new_job, create_job, insert_job, journaled, create_unless,
  follow_up, resolve_receipt, settle_job, settle_receipt,
}
use pongit.Rooms.Lifecycle.Runs.{After, After-continue, After-if, After-choose, After-await}
use pongit.Rooms.Lifecycle.Reasons.{Reason, MayCreate, IsKnown, IsAtRow, IsSound, IsAt, IsFresh}

unless-same : (m n : ℕ) → not (m == n) ≡ false → m ≡ n
unless-same m n h = ground arith

-- A job that is there is pending, and satisfies what a pending job does.
abbrev IsPendingJob : (Job → Type 0) → Option Job → Type 0
IsPendingJob P none = Unit
IsPendingJob P (some job) = (job.status ≡ pending) × P job

owner_pending-pending : (b : Bool) (x : JobStatus) → (b && is_pending x) ≡ true → x ≡ pending
owner_pending-pending b x h = ground arith

earlier-IsPendingJob :
    (P : Job → Type 0) (j : Job) (rest : Option Job)
    → (j.status ≡ pending) × P j
    → IsPendingJob P rest
    → IsPendingJob P (some (earlier j rest))
earlier-IsPendingJob P j none h k = h
earlier-IsPendingJob P j (some x) h k = elim (Bool-cases (ltb x.nonce j.nonce)) [
  | inl e ↦ rw e k
  | inr e ↦ rw e h
]

oldest_pending-IsPendingJob :
    (P : Job → Type 0) (owner : Text) (jobs : List Job)
    → All (λ j. j.status ≡ pending → P j) jobs
    → IsPendingJob P (oldest_pending owner jobs)
oldest_pending-IsPendingJob P owner [] h = tt
oldest_pending-IsPendingJob P owner (j ∷ js) (h, hs) =
    let rest = oldest_pending-IsPendingJob P owner js hs in
    elim (Bool-cases (owner_pending owner j)) [
      | inl e ↦
          let p = owner_pending-pending (text_eq j.owner owner) j.status e in
          rw e (earlier-IsPendingJob P j (oldest_pending owner js) (p, h p) rest)
      | inr e ↦ rw e rest
    ]

found-All :
    (P : Job → Type 0) (id : JobId) (jobs : List Job) (job : Job)
    → All P jobs
    → find_job id jobs ≡ some job
    → P job
found-All P id [] job h e = absurd (cc)
found-All P id (j ∷ js) job (h, hs) e = elim (found-if (same_id j.id id) j job (find_job id js) e) [
  | inl (_, same) ↦ subst P same h
  | inr later ↦ found-All P id js job hs later
]

-- A row whose outcome is written is not pending.
set_status-All :
    (P : Job → Type 0) (id : JobId) (success : Bool) (jobs : List Job)
    → All (λ j. j.status ≡ pending → P j) jobs
    → All (λ j. j.status ≡ pending → P j) (set_status id (outcome success) jobs)
set_status-All P id success [] h = tt
set_status-All P id success (j ∷ js) (h, hs) =
    let rest = set_status-All P id success js hs in
    elim (Bool-cases (same_id j.id id)) [
      | inl e ↦ rw e (λ p. absurd (settled success p), rest)
      | inr e ↦ rw e (h, rest)
    ]
  where
    settled : (b : Bool) → outcome b ≡ pending → ⊥
    settled true h = cc
    settled false h = cc

module _ (o : Options) (a : Answers) (s : State) where
  pub insert_job_lem :
      (stage : Stage) (job : Job) (t : State)
      → IsAt o a s stage tt t
      → Reason o a s (created job)
      → After (IsSound o a s) (IsAtRow o a s stage) (insert_job o a job t)
  insert_job_lem stage job t (at, (log, jobs)) r =
      After-if (IsSound o a s) (IsAtRow o a s stage) (has_nonce job.owner job.nonce t.jobs) _ _
        (λ _. (log, jobs)) (λ _. (at, ((r, log), (λ _. inr r.1, jobs)), λ _. inr r.1))

  new_job-Reason :
      (id : JobId) (to_ : Text) (call : Call) (nonce latest gas : ℕ)
      → MayCreate o a s id to_ call
      → a.nonce_pending ≡ some nonce
      → a.nonce_latest ≡ some latest
      → nonce ≡ latest
      → a.simulated ≡ some tt
      → a.prepared_gas ≡ some gas
      → Reason o a s (
          created (
            new_job o a id nonce
              (o.sign (record { to_ = to_; call = call; nonce = nonce; gas = gas * 12 / 10 }))))
  new_job-Reason id to_ call nonce latest gas (why, app, target, function) first last same run
        cost =
      (
        why,
        record {
          app = app;
          owner = refl;
          status = refl;
          hash = refl;
          nonces = (first, last ∙ ap some (sym same));
          simulated = run;
          raw = (gas, cost, ap₂ signed target function);
        },
      )
    where
      signed : Text → Call → Text
      signed x y = o.sign (record { to_ = x; call = y; nonce = nonce; gas = gas * 12 / 10 })

  pub create_job_lem :
      (stage : Stage) (id : JobId) (to_ : Text) (call : Call) (t : State)
      → IsAt o a s stage tt t
      → MayCreate o a s id to_ call
      → After (IsSound o a s) (IsAtRow o a s stage) (create_job o a id to_ call t)
  unfolding create_job
  create_job_lem stage id to_ call t h r =
      After-await (IsSound o a s) (IsAtRow o a s stage) a.nonce_pending t _ h.1 λ nonce first.
        After-await (IsSound o a s) (IsAtRow o a s stage) a.nonce_latest t _ h.1 λ latest last.
          After-choose (IsSound o a s) (IsAtRow o a s stage) (not (nonce == latest)) _ _ t
            (λ _. h.1)
            λ same. After-await (IsSound o a s) (IsAtRow o a s stage) a.simulated t _ h.1 λ u run.
              After-await (IsSound o a s) (IsAtRow o a s stage) a.prepared_gas t _ h.1 λ gas cost.
                insert_job_lem stage _ t h (
                  new_job-Reason id to_ call nonce latest gas r first last
                    (unless-same nonce latest same) run cost)

  pub resolve_receipt_lem :
      (stage : Stage) (id : JobId) (job : Job) (r : Option Bool) (t : State)
      → IsAt o a s stage tt t
      → job.status ≡ pending
      → a.receipt job.hash ≡ r
      → IsKnown o a s job
      → After (IsSound o a s) (IsAt o a s stage) (resolve_receipt o a id job r t)
  resolve_receipt_lem stage id job none t (at, (log, jobs)) p e known =
      After-await (IsSound o a s) (IsAt o a s stage) a.resent _ _ ((((p, inr e), known), log), jobs)
        λ _ _. (at, ((((p, inr e), known), log), jobs))
  resolve_receipt_lem stage id job (some true) t (at, (log, jobs)) p e known =
      (at, (log, set_status-All (IsKnown o a s) id true t.jobs jobs))
  resolve_receipt_lem stage id job (some false) t (at, (log, jobs)) p e known =
      (log, set_status-All (IsKnown o a s) id false t.jobs jobs)

  pub follow_up_lem :
      (stage : Stage) (id : JobId) (job : Job) (status : JobStatus) (t : State)
      → IsAt o a s stage tt t
      → (job.status ≡ pending → IsKnown o a s job)
      → job.status ≡ status
      → After (IsSound o a s) (IsAt o a s stage) (follow_up o a id job status t)
  follow_up_lem stage id job pending t h known e =
      resolve_receipt_lem stage id job (a.receipt job.hash) t h e refl (known e)
  follow_up_lem stage id job confirmed t h known e = h
  follow_up_lem stage id job failed t h known e = h.1

  pub create_unless_lem :
      (stage : Stage) (id : JobId) (to_ : Text) (call : Call) (other : Option Job) (t : State)
      → IsAt o a s stage tt t
      → MayCreate o a s id to_ call
      → After (IsSound o a s) (IsAtRow o a s stage) (create_unless o a id to_ call other t)
  create_unless_lem stage id to_ call none t h r = create_job_lem stage id to_ call t h r
  create_unless_lem stage id to_ call (some other) t h r = h.1

  pub journaled_lem :
      (stage : Stage) (id : JobId) (to_ : Text) (call : Call) (found : Option Job) (t : State)
      → find_job id t.jobs ≡ found
      → IsAt o a s stage tt t
      → MayCreate o a s id to_ call
      → After (IsSound o a s) (IsAtRow o a s stage) (journaled o a id to_ call found t)
  journaled_lem stage id to_ call none t e h r =
      create_unless_lem stage id to_ call (oldest_pending o.owner t.jobs) t h r
  journaled_lem stage id to_ call (some job) t e h r =
      (h.0, h.1, found-All (λ j. j.status ≡ pending → IsKnown o a s j) id t.jobs job h.1.1 e)

  pub submit_lem :
      (stage : Stage) (id : JobId) (to_ : Text) (call : Call) (t : State)
      → IsAt o a s stage tt t
      → MayCreate o a s id to_ call
      → After (IsSound o a s) (IsAt o a s stage) (submit o a id to_ call t)
  unfolding submit
  submit_lem stage id to_ call t h r =
      After-continue (IsSound o a s) (IsAtRow o a s stage) (IsAt o a s stage)
        (journaled o a id to_ call (find_job id t.jobs) t) _
        (journaled_lem stage id to_ call (find_job id t.jobs) t refl h r)
        λ job u (at, sound, known). follow_up_lem stage id job job.status u (at, sound) known refl

  pub transition_lem :
      (from to_ : Stage) (t : State)
      → IsAt o a s from tt t
      → Reason o a s (moved from to_)
      → After (IsSound o a s) (IsAt o a s to_) (transition o a to_ t)
  unfolding transition
  transition_lem from to_ t h r =
      (refl, ((subst (λ from'. Reason o a s (moved from' to_)) (sym h.0) r, h.1.0), h.1.1))

  settle_receipt-IsFresh :
      (job : Job) (r : Option Bool) (t : State)
      → IsFresh o a s tt t
      → job.status ≡ pending
      → a.first_receipt job.hash ≡ r
      → IsKnown o a s job
      → After (IsSound o a s) (IsFresh o a s) (settle_receipt o a job r t)
  settle_receipt-IsFresh job none t (at, since, same, (log, jobs)) p e known =
      After-await (IsSound o a s) (IsFresh o a s) a.resent _ _ ((((p, inl e), known), log), jobs)
        λ _ _. (at, since, same, ((((p, inl e), known), log), jobs))
  settle_receipt-IsFresh job (some true) t (at, since, same, (log, jobs)) p e known =
      (at, since, same, (log, set_status-All (IsKnown o a s) job.id true t.jobs jobs))
  settle_receipt-IsFresh job (some false) t (at, since, same, (log, jobs)) p e known =
      (log, set_status-All (IsKnown o a s) job.id false t.jobs jobs)

  settle_job-IsFresh :
      (job : Option Job) (t : State)
      → IsFresh o a s tt t
      → IsPendingJob (IsKnown o a s) job
      → After (IsSound o a s) (IsFresh o a s) (settle_job o a job t)
  settle_job-IsFresh none t h p = h
  settle_job-IsFresh (some job) t h p =
      settle_receipt-IsFresh job (a.first_receipt job.hash) t h p.0 refl p.1

  pending_rows :
      (t : State) → IsFresh o a s tt t → All (λ j. j.status ≡ pending → IsKnown o a s j) t.jobs
  pending_rows t (at, since, same, (log, jobs)) = jobs

  pub settle-IsFresh :
      (t : State) → IsFresh o a s tt t → After (IsSound o a s) (IsFresh o a s) (settle o a t)
  unfolding settle
  settle-IsFresh t h =
      settle_job-IsFresh (oldest_pending o.owner t.jobs) t h
        (oldest_pending-IsPendingJob (IsKnown o a s) o.owner t.jobs (pending_rows t h))
