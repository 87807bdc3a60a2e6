-- ===== src/Rooms/Lifecycle/Journal.antt =====
-- The journal: one pending transaction of the operator at a time, and one job for an id.
use pongit.Common.{
  unfound, ℕ, suc, ◌≤◌, ◌≡◌, refl, Bool, true, false, ◌&&◌, if◌then◌else◌, arith, All, List, [],
  ◌∷◌, none, Text, text_eq,
}
use pongit.Rooms.Lifecycle.{JobId, Job, JobStatus, State, Options, Answers}
use pongit.Rooms.Lifecycle.Submit.{
  same_id, find_job, owner_pending, oldest_pending, set_status, set_job, outcome,
}
use pongit.Rooms.Lifecycle.Cycle.{cycle}
use pongit.Rooms.Lifecycle.Steady.{JournalLaws}
use pongit.Rooms.Lifecycle.Induction.{cycle_keeps}

abbrev pub pending_count : Text → List Job → ℕ
pending_count owner [] = 0
pending_count owner (j ∷ js) =
    let rest = pending_count owner js in if owner_pending owner j then suc rest else rest

abbrev pub HasDistinctIds : List Job → Type 0
HasDistinctIds [] = Unit
HasDistinctIds (j ∷ js) = All (λ k. same_id k.id j.id ≡ false) js × HasDistinctIds js

-- The owner has at most one pending job, and no two jobs have one id.
abbrev pub IsJournal : Text → List Job → Type 0
IsJournal owner jobs = (pending_count owner jobs ≤ 1) × HasDistinctIds jobs

count-if :
    (b c : Bool) (m n : ℕ)
    → (b ≡ true → c ≡ true)
    → m ≤ n
    → (if b then suc m else m) ≤ (if c then suc n else n)
count-if true true m n h k = omega arith
count-if true false m n h k = absurd (ground (arith, h refl))
count-if false true m n h k = omega arith
count-if false false m n h k = k

settled-id :
    (b : Bool) (j : Job) (status : JobStatus) (other : JobId)
    → same_id j.id other ≡ false
    → same_id (if b then record j { status = status } else j).id other ≡ false
settled-id true j status other h = h
settled-id false j status other h = h

module _ (owner : Text) where
  no_pending : (jobs : List Job) → oldest_pending owner jobs ≡ none → pending_count owner jobs ≡ 0
  no_pending [] h = refl
  no_pending (j ∷ js) h =
      let (off, rest) = unfound (owner_pending owner j) _ (oldest_pending owner js) h in
      let same = no_pending js rest in rw off same

  absent-id :
      (id : JobId) (jobs : List Job)
      → find_job id jobs ≡ none
      → All (λ k. same_id k.id id ≡ false) jobs
  absent-id id [] h = tt
  absent-id id (j ∷ js) h =
      let (off, rest) = unfound (same_id j.id id) j (find_job id js) h in
      (off, absent-id id js rest)

  both-false : (b : Bool) → (b && false) ≡ true → ⊥
  both-false true h = cc
  both-false false h = cc

  settled-pending :
      (b success : Bool) (j : Job)
      → owner_pending owner (if b then record j { status = outcome success } else j) ≡ true
      → owner_pending owner j ≡ true
  settled-pending false success j h = h
  settled-pending true true j h = absurd (both-false (text_eq j.owner owner) h)
  settled-pending true false j h = absurd (both-false (text_eq j.owner owner) h)

  count-settled :
      (id : JobId) (success : Bool) (jobs : List Job)
      → pending_count owner (set_status id (outcome success) jobs) ≤ pending_count owner jobs
  count-settled id success [] = omega arith
  count-settled id success (j ∷ js) =
      count-if (owner_pending owner (set_job id (outcome success) j)) (owner_pending owner j) _ _
        (settled-pending (same_id j.id id) success j) (count-settled id success js)

  ids-settled :
      (id other : JobId) (status : JobStatus) (jobs : List Job)
      → All (λ k. same_id k.id other ≡ false) jobs
      → All (λ k. same_id k.id other ≡ false) (set_status id status jobs)
  ids-settled id other status [] h = tt
  ids-settled id other status (j ∷ js) (h, hs) =
      (settled-id (same_id j.id id) j status other h, ids-settled id other status js hs)

  distinct-settled :
      (id : JobId) (status : JobStatus) (jobs : List Job)
      → HasDistinctIds jobs
      → HasDistinctIds (set_status id status jobs)
  distinct-settled id status [] h = tt
  distinct-settled id status (j ∷ js) (h, hs) = (
    choose_id (same_id j.id id) (ids-settled id j.id status js h),
    distinct-settled id status js hs,
  )
    where
      choose_id :
          (b : Bool)
          → All (λ k. same_id k.id j.id ≡ false) (set_status id status js)
          → All
              (λ k. same_id k.id (if b then record j { status = status } else j).id ≡ false)
              (set_status id status js)
      choose_id true h' = h'
      choose_id false h' = h'

  pub IsJournal-settled :
      (id : JobId) (success : Bool) (jobs : List Job)
      → IsJournal owner jobs
      → IsJournal owner (set_status id (outcome success) jobs)
  IsJournal-settled id success jobs (few, distinct) = (
    omega (arith, count-settled id success jobs),
    distinct-settled id (outcome success) jobs distinct,
  )

  insert-le : (b : Bool) (n : ℕ) → n ≡ 0 → (if b then suc n else n) ≤ 1
  insert-le true n h = omega arith
  insert-le false n h = omega arith

  pub IsJournal-insert :
      (job : Job) (jobs : List Job)
      → oldest_pending owner jobs ≡ none
      → find_job job.id jobs ≡ none
      → IsJournal owner jobs
      → IsJournal owner (job ∷ jobs)
  IsJournal-insert job jobs idle fresh (few, distinct) = (
    insert-le (owner_pending owner job) _ (no_pending jobs idle),
    (absent-id job.id jobs fresh, distinct),
  )

abbrev pub IsHashed : Options → Job → Type 0
IsHashed o j = j.hash ≡ o.keccak256 j.raw

IsHashed-settled :
    (o : Options) (id : JobId) (status : JobStatus) (jobs : List Job)
    → All (IsHashed o) jobs
    → All (IsHashed o) (set_status id status jobs)
IsHashed-settled o id status [] h = tt
IsHashed-settled o id status (j ∷ js) (h, hs) =
    (choose_hash (same_id j.id id), IsHashed-settled o id status js hs)
  where
    choose_hash : (b : Bool) → IsHashed o (if b then record j { status = status } else j)
    choose_hash true = h
    choose_hash false = h

journal_laws :
    (o : Options) → JournalLaws o (λ jobs. IsJournal o.owner jobs × All (IsHashed o) jobs)
journal_laws o = record {
  settled = λ id success jobs h. (
    IsJournal-settled o.owner id success jobs h.0,
    IsHashed-settled o id (outcome success) jobs h.1,
  );
  inserted = λ job jobs own hashed idle fresh h.
      (IsJournal-insert o.owner job jobs idle fresh h.0, (hashed, h.1));
}

-- Whatever a cycle reads, it keeps the journal in order: the operator has at most one pending
-- transaction, no two jobs have one id, and the hash of every job is that of its transaction.
pub cycle-IsJournal :
    (o : Options) (a : Answers) (s : State)
    → IsJournal o.owner s.jobs
    → All (IsHashed o) s.jobs
    → IsJournal o.owner (cycle o a s).jobs × All (IsHashed o) (cycle o a s).jobs
cycle-IsJournal o a s h k =
    cycle_keeps o a (λ jobs. IsJournal o.owner jobs × All (IsHashed o) jobs) (journal_laws o) s
      (h, k)
