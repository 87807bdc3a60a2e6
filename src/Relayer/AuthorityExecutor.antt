-- ===== src/Relayer/AuthorityExecutor.antt =====
-- `authorityExecutor` of relayer/src/authority-keeper.ts: one run for one request at a time. What the
-- port answers in a run is an argument, and what the run asks of it is a list of steps. The request
-- identifier of the call is a number here. The journal, the reconciliation and the question to the
-- sponsor are taken to answer.
use pongit.Common.{
  ℕ, ◌+◌, ◌≤◌, ◌≡◌, ◌⊎◌, ◌↔◌, refl, Bool, true, false, not, ◌||◌, arith, ◌==◌, if◌then◌else◌, List,
  [], ◌∷◌,
}

pub data JournalState : Type 0 where
  missing uncertain submitted confirmed failed : JournalState

abbrev is_open : JournalState → Bool
is_open uncertain = true
is_open submitted = true
is_open _ = false

abbrev is_absent : JournalState → Bool
is_absent missing = true
is_absent failed = true
is_absent _ = false

-- What the port answers; a simulation or a queueing that fails throws.
pub record Port : Type 0 where
  pub journal : JournalState
  pub reconciled : JournalState
  pub sponsor_available : Bool
  pub simulates : Bool
  pub enqueues : Bool

pub data Step : Type 0 where
  read_journal reconcile ask_sponsor simulate enqueue : Step

pub data Outcome : Type 0 where
  settled : JournalState → Outcome
  waiting_for_sponsor sent threw : Outcome

-- After the journal and the reconciliation.
submit : Port → JournalState → List Step × Outcome
submit p state =
    if not (is_absent state)
    then ([], settled state)
    else if not p.sponsor_available
    then (ask_sponsor ∷ [], waiting_for_sponsor)
    else if not p.simulates
    then (ask_sponsor ∷ simulate ∷ [], threw)
    else if not p.enqueues
    then (ask_sponsor ∷ simulate ∷ enqueue ∷ [], threw)
    else (ask_sponsor ∷ simulate ∷ enqueue ∷ [], sent)

unfoldable pub work : Port → List Step × Outcome
unfolding submit
work p =
    if is_open p.journal
    then (let r = submit p p.reconciled in (read_journal ∷ reconcile ∷ r.0, r.1))
    else (let r = submit p p.journal in (read_journal ∷ r.0, r.1))

abbrev pub asks : Step → Step → Bool
asks read_journal read_journal = true
asks reconcile reconcile = true
asks ask_sponsor ask_sponsor = true
asks simulate simulate = true
asks enqueue enqueue = true
asks _ _ = false

abbrev pub count : Step → List Step → ℕ
count s [] = 0
count s (x ∷ xs) = let rest = count s xs in if asks s x then rest + 1 else rest

-- The state that the run goes by: the journal's, reconciled where a transaction may be under way.
abbrev pub known_state : Port → JournalState
known_state p = if is_open p.journal then p.reconciled else p.journal

-- A run puts a transaction in the queue at most once, and exactly where the journal, reconciled if a
-- transaction may be under way, has none or a failed one, the sponsor can pay and the simulation
-- passes; and it reports one as submitted by itself only then.
pub enqueue_iff :
    (p : Port)
    → (count enqueue (work p).0 ≤ 1)
      × ((count enqueue (work p).0 ≡ 1) ↔ (
          ((known_state p ≡ missing) ⊎ (known_state p ≡ failed))
          × (p.sponsor_available ≡ true)
          × (p.simulates ≡ true)))
      × ((work p).1 ≡ sent → count enqueue (work p).0 ≡ 1)
unfolding work
enqueue_iff p = ground arith

-- The requests whose runs have not ended.
abbrev pub InFlight : Type 0
InFlight = List ℕ

abbrev has : ℕ → InFlight → Bool
has id [] = false
has id (x ∷ xs) = x == id || has id xs

-- A request starts a run, unless one is under way, which it then joins.
unfoldable pub request : InFlight → ℕ → InFlight × Bool
request runs id = if has id runs then (runs, false) else (id ∷ runs, true)

unfoldable pub finish : InFlight → ℕ → InFlight
finish [] id = []
finish (x ∷ xs) id = let rest = finish xs id in if x == id then rest else x ∷ rest

-- The states that requests and ends of runs lead to.
pub data Reachable : InFlight → Type 0 where
  start : Reachable []
  step_request : (runs : InFlight) (id : ℕ) → Reachable runs → Reachable (request runs id).0
  step_finish : (runs : InFlight) (id : ℕ) → Reachable runs → Reachable (finish runs id)

abbrev pub occurrences : ℕ → InFlight → ℕ
occurrences id [] = 0
occurrences id (x ∷ xs) = let rest = occurrences id xs in if x == id then rest + 1 else rest

has-occurrences : (id : ℕ) (runs : InFlight) → has id runs ≡ false → occurrences id runs ≡ 0
has-occurrences id [] h = refl
has-occurrences id (x ∷ xs) h = ground (arith, has-occurrences id xs)

request-occurrences :
    (id k : ℕ) (runs : InFlight) → occurrences id runs ≤ 1 → occurrences id (request runs k).0 ≤ 1
unfolding request
request-occurrences id k runs h = ground (arith, has-occurrences k runs, has-occurrences id runs)

finish-occurrences :
    (id k : ℕ) (runs : InFlight) → occurrences id (finish runs k) ≤ occurrences id runs
unfolding finish
finish-occurrences id k [] = omega arith
finish-occurrences id k (x ∷ xs) = ground (arith, finish-occurrences id k xs)

-- However requests and ends of runs follow one another, no request has two runs at a time.
pub one_run : (runs : InFlight) → Reachable runs → (id : ℕ) → occurrences id runs ≤ 1
one_run _ start id = omega arith
one_run _ (step_request runs k r) id = request-occurrences id k runs (one_run runs r id)
one_run _ (step_finish runs k r) id = omega (arith, finish-occurrences id k runs, one_run runs r id)
