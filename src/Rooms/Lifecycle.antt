-- ===== src/Rooms/Lifecycle.antt =====
-- relayer/src/rooms-lifecycle.ts: the stages through which the operator renews the shared engine.
-- This file has the state, the answers that a cycle gets from outside, and code that may throw and
-- keeps the state it has written. Times and ids are not negative. Calls of the chain, of the engine
-- and of the other services answer `none` where they throw. A message is named by a `Trouble`, the
-- first argument of `encodeFunctionData` and its arguments by a `Call`, and the id of a job, which is
-- text, by its parts. Queries of the database do not fail.
pub mod Submit
pub mod Start
pub mod Cycle
pub mod Runs
pub mod Reasons
pub mod Sending
pub mod Closing
pub mod Justified
pub mod Safety
pub mod Steady
pub mod Induction
pub mod Journal
use pongit.Common.{
  ℕ, ◌+◌, ◌*◌, ◌/◌, ◌==◌, Bool, true, false, ◌&&◌, if◌then◌else◌, Result, ok, err, Fault, List, [],
  ◌∷◌, Option, none, some, Text, text_eq, map,
}
use pongit.Rooms.Availability.{DrainBlocker}

pub data Stage : Type 0 where
  playing draining challenge finalizing renewing starting : Stage

pub data JobKind : Type 0 where
  close release renew : JobKind
  final : ℕ → JobKind

-- `${app}:${epoch}` and the suffix.
pub record JobId : Type 0 where
  pub app : Text
  pub epoch : ℕ
  pub kind : JobKind

pub data JobStatus : Type 0 where
  pending confirmed failed : JobStatus

-- A row of `il_lifecycle_jobs`.
pub record Job : Type 0 where
  pub id : JobId
  pub owner : Text
  pub nonce : ℕ
  pub raw : Text
  pub hash : Text
  pub status : JobStatus

pub data EngineJobStatus : Type 0 where
  engine_pending quarantined obsolete settled : EngineJobStatus

-- A row of `il_engine_jobs`.
pub record EngineJob : Type 0 where
  pub app : Text
  pub epoch : ℕ
  pub status : EngineJobStatus

pub data Trouble : Type 0 where
  network operator_mismatch awaiting_confirmation account_used_elsewhere nonce_taken : Trouble
  reverted_inspect reverted reverted_review publication_differs match_changed : Trouble
  ended_outside_journal challenged_suspended engine_unconfirmed : Trouble
  hosted_not_confirmed : ℕ → Trouble
  unavailable : Fault → Trouble
  blocked : DrainBlocker → Trouble

pub data Call : Type 0 where
  close_engine renew_engine : Call
  release_stake : Text → Call
  finalize_result : ℕ → Call

pub record Request : Type 0 where
  pub to_ : Text
  pub call : Call
  pub nonce : ℕ
  pub gas : ℕ

-- The answer of `readHubDelegation`; seconds.
pub record HubDelegation : Type 0 where
  pub status : ℕ
  pub epoch : ℕ
  pub expires_at : ℕ
  pub stake_unlock_at : ℕ
  pub batch_index : ℕ

-- The answer of `engineStatus`; `pending_diffs` is the length of the list.
pub record NodeStatus : Type 0 where
  pub app : Text
  pub chain_id : ℕ
  pub epoch : ℕ
  pub committed_batches : ℕ
  pub pending_diffs : ℕ

pub record ResultRow : Type 0 where
  pub id : ℕ
  pub mode : ℕ
  pub phase : ℕ

-- `sessionInfo`; milliseconds.
pub record SessionInfo : Type 0 where
  pub epoch : ℕ
  pub expires_at : ℕ
  pub release_at : ℕ
  pub batch : ℕ

-- What a cycle does to the world: the row that it adds to the journal, the row whose transaction it
-- sends, and the rest besides its reads.
pub data Event : Type 0 where
  created sent : Job → Event
  moved : Stage → Stage → Event
  ready fenced asked_hosted : ℕ → Event

pub record State : Type 0 where
  pub stage : Stage
  pub changed_at : ℕ
  pub epoch : ℕ
  pub jobs : List Job
  pub engine_jobs : List EngineJob
  pub working : Bool
  pub healthy : Bool
  pub error : Option Trouble
  pub session : SessionInfo
  pub log : List Event

-- The arguments of `roomsLifecycle`, its environment, and the wallet.
pub record Options : Type 0 where
  pub app : Text
  pub hub : Text
  pub adapter : Text
  pub owner : Text
  pub hold_renew : Bool
  pub sign : Request → Text
  pub keccak256 : Text → Text

-- What the reads of one cycle answer, in the order in which the cycle makes them.
pub record Answers : Type 0 where
  pub locked : Bool
  pub now_ms : ℕ
  pub first_receipt : Text → Option Bool
  pub delegation : Option HubDelegation
  pub node : Option NodeStatus
  pub active : Option ℕ
  pub before_close : Option (Unit {0})
  pub fenced_node : Option NodeStatus
  pub fenced_active : Option ℕ
  pub active_count : Option ℕ
  pub results : List ResultRow
  pub final_results : ℕ → Option ℕ
  pub before_renew : Option (Unit {0})
  pub hosted_renewal : Option (Unit {0})
  pub nonce_pending : Option ℕ
  pub nonce_latest : Option ℕ
  pub simulated : Option (Unit {0})
  pub prepared_gas : Option ℕ
  pub receipt : Text → Option Bool
  pub resent : Option (Unit {0})

pub data Run {ℓ} (A : Type ℓ) : Type ℓ where
  returned : A → State → Run A
  threw : Trouble → State → Run A

-- Code that reads and writes the state and may throw.
abbrev pub Act {ℓ} : Type ℓ → Type ℓ
Act A = State → Run A

abbrev pub continue {ℓ κ} : {A : Type ℓ} {B : Type κ} → Run A → (A → Act B) → Run B
continue (returned a s) rest = rest a s
continue (threw e s) rest = threw e s

module _ {ℓ κ} {A : Type ℓ} {B : Type κ} where
  infixl 5 ◌>>=◌
  abbrev pub ◌>>=◌ : Act A → (A → Act B) → Act B
  (m >>= rest) s = continue (m s) rest

  infixl 5 ◌>>◌
  abbrev pub ◌>>◌ : Act A → Act B → Act B
  m >> rest = m >>= λ _. rest

abbrev pub return {ℓ} : {A : Type ℓ} → A → Act A
return a s = returned a s

abbrev pub throw {ℓ} : {A : Type ℓ} → Trouble → Act A
throw e s = threw e s

abbrev pub throw_when : Bool → Trouble → Act (Unit {0})
throw_when true e s = threw e s
throw_when false e s = returned tt s

abbrev pub get : Act State
get s = returned s s

abbrev pub modify : (State → State) → Act (Unit {0})
modify f s = returned tt (f s)

-- `await` of a call that answers, or throws.
abbrev pub await {ℓ} : {A : Type ℓ} → Option A → Act A
await (some a) s = returned a s
await none s = threw network s

abbrev pub record_event : Event → Act (Unit {0})
record_event e = modify (λ s. record s { log = e ∷ s.log })

abbrev pub run_state {ℓ} : {A : Type ℓ} → Run A → State
run_state (returned a s) = s
run_state (threw e s) = s

-- The returned object's `available`.
unfoldable pub available : State → Bool
available s = elim s.stage [ playing ↦ s.healthy | _ ↦ false ]
