-- ===== src/Relayer/MaintenanceCall.antt =====
-- `maintenanceCall` of relayer/src/authority-keeper.ts: the transaction for a maintenance task, and the
-- identifier under which it is sent once. `encodeFunctionData` with the module's ABI, and
-- `keccak256(stringToHex(text))` as a function of the text, are parameters. Addresses and other hex
-- values are texts; numbers are not negative.
pub mod Identity
use pongit.Common.{
  ℕ, leb, Result, ok, throw_if, ◌>>◌, ◌>>=◌, epoch_required, List, [], ◌∷◌, ◌++◌, Text,
  to_lower_case,
}
use pongit.Relayer.Decimal.{show, colon}

pub data Maintenance : Type 0 where
  matchmake propose tick : ℕ → ℕ → Maintenance
  expire_proposal expire_room finalize_result close_completed_session : ℕ → Maintenance
  begin_recovery finish_recovery : Maintenance
  freeze_checkpoint open_round : ℕ → ℕ → Maintenance
  claim : ℕ → Text → Maintenance
  retry_payout : Text → ℕ → Maintenance

-- The function of the ABI, with its arguments.
pub data Function : Type 0 where
  call_matchmake : ℕ → ℕ → Function
  call_propose call_tick call_expire_proposal call_expire_room call_finalize_result : ℕ → Function
  call_close call_open_round : ℕ → Function
  call_begin call_finish : Function
  call_freeze : ℕ → ℕ → Function
  call_claim : ℕ → Text → Function
  call_retry : Text → Function

pub data Cycle : Type 0 where
  once : Cycle
  numbered : ℕ → Cycle

pub record Targets : Type 0 where
  pub chain_id : ℕ
  pub generation : ℕ
  pub game : Text
  pub finance : Text
  pub market : Text

abbrev pub target_of : Targets → Maintenance → Text
target_of t (freeze_checkpoint id rally) = t.finance
target_of t (open_round id rally) = t.finance
target_of t (finalize_result id) = t.finance
target_of t (claim id beneficiary) = t.market
target_of t (retry_payout id attempt) = t.market
target_of t _ = t.game

abbrev pub function_of : Maintenance → Function
function_of (matchmake mode revision) = call_matchmake mode 32
function_of (propose id revision) = call_propose id
function_of (tick id revision) = call_tick id
function_of (expire_proposal id) = call_expire_proposal id
function_of (expire_room id) = call_expire_room id
function_of (finalize_result id) = call_finalize_result id
function_of (close_completed_session epoch) = call_close epoch
function_of begin_recovery = call_begin
function_of finish_recovery = call_finish
function_of (freeze_checkpoint id rally) = call_freeze id rally
function_of (open_round id rally) = call_open_round id
function_of (claim id beneficiary) = call_claim id beneficiary
function_of (retry_payout id attempt) = call_retry id

-- What the task was observed against.
abbrev pub cycle_of : Maintenance → Cycle
cycle_of (matchmake mode revision) = numbered revision
cycle_of (propose id revision) = numbered revision
cycle_of (tick id revision) = numbered revision
cycle_of (retry_payout id attempt) = numbered attempt
cycle_of (freeze_checkpoint id rally) = numbered rally
cycle_of (open_round id rally) = numbered rally
cycle_of _ = once

pub record Call (K : Type 0) : Type 0 where
  pub to_ : Text
  pub data_ : Text
  pub value : ℕ
  pub request_id : K

abbrev pub check_task : Maintenance → Result (Unit {0})
check_task (close_completed_session epoch) = throw_if (leb epoch 0) epoch_required
check_task _ = ok tt

-- `${cycle}`
abbrev pub cycle_text : Cycle → Text
cycle_text once = b'o' ∷ b'n' ∷ b'c' ∷ b'e' ∷ []
cycle_text (numbered n) = show n

-- `${t.chainId}:${to.toLowerCase()}:${t.generation}:${data}:${cycle}`
abbrev pub preimage_of : Targets → Maintenance → Text → Text
preimage_of t task data_ =
    show t.chain_id
    ++ (colon
        ∷ (to_lower_case (target_of t task)
            ++ (colon
                ∷ (show t.generation
                    ++ (colon ∷ (data_ ++ (colon ∷ cycle_text (cycle_of task))))))))

-- `encodeFunctionData` throws on arguments that the function does not take.
module _ {K : Type 0} (encode : Function → Result Text) (keccak256 : Text → K) where
  abbrev pub call_of : Targets → Maintenance → Text → Call K
  call_of t task data_ = record {
    to_ = target_of t task;
    data_ = data_;
    value = 0;
    request_id = keccak256 (preimage_of t task data_);
  }

  unfoldable pub maintenance_call : Targets → Maintenance → Result (Call K)
  maintenance_call t task = do
    check_task task
    data_ ← encode (function_of task)
    ok (call_of t task data_)
