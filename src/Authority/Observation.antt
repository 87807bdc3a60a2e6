-- ===== src/Authority/Observation.antt =====
-- What shared/authority-recovery.ts is told of a room, and the tests on it. Texts are lists of
-- character codes. A `number` that is no integer and a string outside its union type have no
-- counterpart here, so the checks for those have none either.
use pongit.Common.{ℕ, Bool, true, false, not, ◌&&◌, ◌||◌, leb, ◌==◌, [], ◌∷◌, length, Text}
use pongit.Common.Int.{ℤ, pos, ◌+ℤ◌, ltb_ℤ, leb_ℤ}

pub data ExecutionMode : Type 0 where
  interlude recovery monad returning : ExecutionMode

pub data HubPhase : Type 0 where
  no_hub active exiting challenged : HubPhase

pub data HealthKind : Type 0 where
  healthy rate_limited unreachable publication_failed epoch_mismatch : HealthKind

pub record Closure : Type 0 where
  pub draining_epoch : ℤ
  pub sealed_epoch : ℤ

pub record Hub : Type 0 where
  pub phase : HubPhase
  pub epoch : ℤ
  pub last_commit_at : ℤ
  pub max_batch_interval : ℤ
  pub expires_at : ℤ
  pub stake_unlock_at : ℤ

pub record Health : Type 0 where
  pub kind : HealthKind
  pub consecutive_failures : ℤ
  pub unhealthy_since : ℤ

pub record ExecutionObservation : Type 0 where
  pub chain_id : ℕ
  pub app : Text
  pub generation : ℤ
  pub block : ℤ
  pub block_hash : Text
  pub timestamp : ℤ
  pub execution : ExecutionMode
  pub transition_reason : Text
  pub closure : Closure
  pub hub : Hub
  pub health : Health

abbrev pub exec_eq : ExecutionMode → ExecutionMode → Bool
exec_eq interlude interlude = true
exec_eq recovery recovery = true
exec_eq monad monad = true
exec_eq returning returning = true
exec_eq _ _ = false

abbrev pub phase_eq : HubPhase → HubPhase → Bool
phase_eq no_hub no_hub = true
phase_eq active active = true
phase_eq exiting exiting = true
phase_eq challenged challenged = true
phase_eq _ _ = false

abbrev pub is_healthy : HealthKind → Bool
is_healthy healthy = true
is_healthy _ = false

abbrev pub is_rate_limited : HealthKind → Bool
is_rate_limited rate_limited = true
is_rate_limited _ = false

-- `/^0x[0-9a-f]{64}$/i`
hex_digit : ℕ → Bool
hex_digit c = leb b'0' c && leb c b'9' || leb b'a' c && leb c b'f' || leb b'A' c && leb c b'F'

all_hex : Text → Bool
all_hex [] = true
all_hex (c ∷ cs) = hex_digit c && all_hex cs

unfoldable pub is_hash : Text → Bool
unfolding hex_digit all_hex
is_hash (z ∷ x ∷ digits) =
    z == b'0' && (x == b'x' || x == b'X') && length digits == 64 && all_hex digits
is_hash _ = false

abbrev time_limit : ℤ
time_limit = pos 8640000000000

-- `v < 0n || v > 8_640_000_000_000n`
unfoldable pub out_of_time : ℤ → Bool
out_of_time v = ltb_ℤ v (pos 0) || ltb_ℤ time_limit v

-- At least three failures of the transport, for at least 15 seconds.
unfoldable pub is_sustained : ExecutionObservation → Bool
is_sustained o =
    not (is_healthy o.health.kind)
    && not (is_rate_limited o.health.kind)
    && leb_ℤ (pos 3) o.health.consecutive_failures
    && ltb_ℤ (pos 0) o.health.unhealthy_since
    && leb_ℤ (o.health.unhealthy_since +ℤ pos 15) o.timestamp

-- The hub's own silence window has passed.
unfoldable pub is_silent : ExecutionObservation → Bool
is_silent o = ltb_ℤ (o.hub.last_commit_at +ℤ o.hub.max_batch_interval) o.timestamp
