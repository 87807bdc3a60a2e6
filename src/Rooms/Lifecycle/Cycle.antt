-- ===== src/Rooms/Lifecycle/Cycle.antt =====
-- `cycle`: what the operator does for each status of the delegation.
use pongit.Common.{
  ℕ, ◌+◌, ◌-◌, ◌*◌, ◌/◌, ◌==◌, ltb, leb, Bool, true, false, not, ◌&&◌, ◌||◌, if◌then◌else◌, Result,
  ok, err, List, [], ◌∷◌, Option, none, some, Text, text_eq, map,
}
use pongit.Rooms.Availability.{
  DrainBlocker, clear, assert_rooms_engine_available, rooms_drain_blocker,
}
use pongit.Rooms.Lifecycle.{
  Stage, playing, draining, challenge, finalizing, renewing, starting, JobKind, close, release,
  renew, final, JobId, Call, close_engine, renew_engine, release_stake, finalize_result, EngineJob,
  engine_pending, quarantined, obsolete, HubDelegation, NodeStatus, ResultRow, ready, fenced,
  asked_hosted, State, Options, Answers, Trouble, publication_differs, match_changed,
  ended_outside_journal, challenged_suspended, engine_unconfirmed, hosted_not_confirmed,
  unavailable, blocked, Run, returned, threw, Act, ◌>>=◌, ◌>>◌, return, throw, throw_when, get,
  modify, await, record_event,
}
use pongit.Rooms.Lifecycle.Submit.{transition, submit, settle}

unfoldable pub same_stage : Stage → Stage → Bool
same_stage playing playing = true
same_stage draining draining = true
same_stage challenge challenge = true
same_stage finalizing finalizing = true
same_stage renewing renewing = true
same_stage starting starting = true
same_stage _ _ = false

abbrev quarantined_in : Text → ℕ → EngineJob → Bool
quarantined_in app epoch j = elim j.status [
  | quarantined ↦ text_eq j.app app && j.epoch == epoch
  | _ ↦ false
]

-- `UPDATE il_engine_jobs SET status='obsolete' ... AND status='quarantined'`
abbrev pub retire : Text → ℕ → EngineJob → EngineJob
retire app epoch j = if quarantined_in app epoch j then record j { status = obsolete } else j

-- `SELECT 1 FROM il_engine_jobs WHERE app=$1 AND status='pending'`
abbrev engine_job_pending : EngineJob → Bool
engine_job_pending j = elim j.status [ engine_pending ↦ true | _ ↦ false ]

abbrev pub has_engine_pending : Text → List EngineJob → Bool
has_engine_pending app [] = false
has_engine_pending app (j ∷ js) =
    let rest = has_engine_pending app js in
    if text_eq j.app app && engine_job_pending j then true else rest

-- `WHERE mode=1 AND phase>=3`
abbrev pub finished_chaos : List ResultRow → List ℕ
finished_chaos [] = []
finished_chaos (r ∷ rs) =
    let rest = finished_chaos rs in if r.mode == 1 && leb 3 r.phase then r.id ∷ rest else rest

abbrev pub message : DrainBlocker → Option Trouble
message clear = none
message blocker = some (blocked blocker)

abbrev pub set_error : Option Trouble → Act (Unit {0})
set_error e = modify (λ s. record s { error = e })

abbrev pub check_result : Result (Unit {0}) → Act (Unit {0})
check_result (ok u) = return tt
check_result (err e) = throw (unavailable e)

module _ (o : Options) (a : Answers) where
  abbrev pub now : ℕ
  now = a.now_ms / 1000

  abbrev pub job_id : State → JobKind → JobId
  job_id s kind = record { app = o.app; epoch = s.epoch; kind = kind }

  abbrev pub seen_delegation : HubDelegation → State → State
  seen_delegation d s = record s {
    session = record {
      epoch = d.epoch;
      expires_at = d.expires_at * 1000;
      release_at = d.stake_unlock_at * 1000;
      batch = d.batch_index;
    };
    epoch = if ltb 0 d.epoch then d.epoch else s.epoch;
  }

  -- The hub has released the whole epoch.
  abbrev pub retire_quarantined : HubDelegation → State → State
  retire_quarantined d s =
      if d.status == 0 && not (same_stage s.stage playing)
      then record s { engine_jobs = map (retire o.app s.epoch) s.engine_jobs }
      else s

  -- `if (await submit(...)) await transition(...);`
  abbrev pub submit_then : Stage → JobId → Text → Call → Act (Unit {0})
  submit_then next id to_ call = do
    done ← submit o a id to_ call
    if done then transition o a next else return tt

  abbrev pub availability : HubDelegation → NodeStatus → Result (Unit {0})
  availability d node =
      assert_rooms_engine_available o.app
        (record { app = node.app; chain_id = node.chain_id; epoch = node.epoch })
        (record { status = d.status; expires_at = d.expires_at; epoch = d.epoch }) now

  abbrev pub join_node : HubDelegation → NodeStatus → Act (Unit {0})
  join_node d node = do
    await a.active
    if not (node.committed_batches == d.batch_index) then throw publication_differs else do
      transition o a playing
      modify (λ s. record s { healthy = true })
      record_event (ready d.epoch)

  abbrev pub playing_again : HubDelegation → NodeStatus → Act (Unit {0})
  playing_again d node = do check_result (availability d node); join_node d node

  abbrev pub ask_hosted : HubDelegation → Act (Unit {0})
  ask_hosted d = do
    await a.hosted_renewal
    record_event (asked_hosted d.epoch)
    set_error (some (hosted_not_confirmed d.epoch))

  abbrev pub meet_node : HubDelegation → Option NodeStatus → Act (Unit {0})
  meet_node d none = ask_hosted d
  meet_node d (some node) = if node.epoch == d.epoch then playing_again d node else ask_hosted d

  unfoldable pub start_up : HubDelegation → Act (Unit {0})
  start_up d = do
    s ← get
    if same_stage s.stage starting then return tt else transition o a starting
    meet_node d a.node

  abbrev pub blocker_of : HubDelegation → NodeStatus → ℕ → DrainBlocker
  blocker_of d node active =
      rooms_drain_blocker (leb d.expires_at now) active node.pending_diffs (node.epoch == d.epoch)

  abbrev pub if_blocked_throw : DrainBlocker → Act (Unit {0})
  if_blocked_throw clear = return tt
  if_blocked_throw blocker = throw (blocked blocker)

  -- `closeEngine`, unless a transaction of the engine is unconfirmed.
  abbrev pub submit_close : Act (Unit {0})
  submit_close s =
      if has_engine_pending o.app s.engine_jobs
      then set_error (some engine_unconfirmed) s
      else submit_then challenge (job_id s close) o.app close_engine s

  -- After the fence: the checks again, and the transaction.
  unfoldable pub close_up : HubDelegation → Act (Unit {0})
  close_up d = do
    node ← await a.fenced_node
    active ← await a.fenced_active
    if_blocked_throw (blocker_of d node active)
    count ← await a.active_count
    throw_when (not (count == 0)) match_changed
    submit_close

  abbrev pub fence_if_clear : HubDelegation → DrainBlocker → Act (Unit {0})
  fence_if_clear d clear = do await a.before_close; record_event (fenced d.epoch); close_up d
  fence_if_clear d blocker = return tt

  abbrev pub drained : HubDelegation → Act (Unit {0})
  drained d = do
    node ← await a.node
    active ← await a.active
    set_error (message (blocker_of d node active))
    fence_if_clear d (blocker_of d node active)

  unfoldable pub drain : HubDelegation → Act (Unit {0})
  drain d = do
    s ← get
    if same_stage s.stage draining then return tt else transition o a draining
    t ← get
    if ltb (a.now_ms - t.changed_at) 60000 then return tt else drained d

  abbrev pub stay_playing : HubDelegation → Act (Unit {0})
  stay_playing d = do modify (λ s. record s { healthy = true }); record_event (ready d.epoch)

  unfoldable pub on_active : HubDelegation → Act (Unit {0})
  on_active d s =
      if same_stage s.stage renewing || same_stage s.stage starting
      then start_up d s
      else if same_stage s.stage playing && ltb (now + 3600) d.expires_at
      then stay_playing d s
      else drain d s

  unfoldable pub on_exiting : HubDelegation → Act (Unit {0})
  on_exiting d = do
    s ← get
    if same_stage s.stage challenge then return tt else transition o a challenge
    if ltb now d.stake_unlock_at
        then return tt
        else submit_then finalizing (job_id s release) o.hub (release_stake o.app)

  abbrev pub submit_final : State → ℕ → Act Bool
  submit_final s id = do
    submit o a (job_id s (final id)) o.adapter (finalize_result id)
    return false

  -- Whether every result is final; else the first that is not is submitted.
  abbrev pub finalize_first : List ℕ → Act Bool
  finalize_first [] = return true
  finalize_first (id ∷ ids) = do
    f ← await (a.final_results id)
    s ← get
    let rest = finalize_first ids
    if f == 0 then submit_final s id else rest

  abbrev pub renew_now : Act (Unit {0})
  renew_now = do
    await a.before_renew
    s ← get
    submit o a (job_id s renew) o.app renew_engine
    set_error none

  abbrev pub renew_if_final : Bool → Act (Unit {0})
  renew_if_final all_final =
      if not all_final || o.hold_renew then return tt else do transition o a renewing; renew_now

  unfoldable pub finalize : Act (Unit {0})
  finalize = do
    s ← get
    if same_stage s.stage finalizing then return tt else transition o a finalizing
    all_final ← finalize_first (finished_chaos a.results)
    renew_if_final all_final

  unfoldable pub on_released : Act (Unit {0})
  on_released s =
      if same_stage s.stage playing
      then threw ended_outside_journal s
      else if same_stage s.stage renewing
      then renew_now s
      else finalize s

  abbrev pub by_status : HubDelegation → Act (Unit {0})
  by_status d =
      if d.status == 3
      then set_error (some challenged_suspended)
      else if d.status == 1
      then on_active d
      else if d.status == 2
      then on_exiting d
      else if d.status == 0
      then on_released
      else return tt

  abbrev pub with_delegation : HubDelegation → Act (Unit {0})
  with_delegation d = do
    modify (seen_delegation d)
    modify (retire_quarantined d)
    modify (λ s. record s { healthy = false; error = none })
    by_status d

  abbrev pub a_delegation : Act (Unit {0})
  a_delegation = do d ← await a.delegation; with_delegation d

  unfoldable pub body : Act (Unit {0})
  body = do go_on ← settle o a; if go_on then a_delegation else return tt

  -- The `catch`.
  abbrev pub caught : Run (Unit {0}) → State
  caught (returned u s) = s
  caught (threw e s) = record s { healthy = false; error = some e }

  unfoldable pub cycle : State → State
  cycle s =
      if s.working
      then s
      else if a.locked
      then record (caught (body (record s { working = true }))) { working = false }
      else s
