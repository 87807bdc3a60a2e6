-- ===== src/Rooms/Availability.antt =====
-- shared/rooms-availability.ts: whether the shared engine can take play, and what blocks a renewal.
-- Numbers are not negative; an address is a list of ASCII codes.
use pongit.Common.{
  ℕ, ◌+◌, ◌<◌, ◌≡◌, ◌↔◌, Bool, true, not, ◌||◌, ◌&&◌, arith, leb, ltb, ◌==◌, if◌then◌else◌, Result,
  ok, ◌>>◌, throw_if, Text, text_eq, to_lower_case, engine_deployment_mismatch,
  engine_delegation_inactive, engine_delegation_expired, engine_epoch_mismatch,
  engine_delegation_ending,
}

pub record Node : Type 0 where
  pub app : Text
  pub chain_id : ℕ
  pub epoch : ℕ

pub record Delegation : Type 0 where
  pub status : ℕ
  pub expires_at : ℕ
  pub epoch : ℕ

unfoldable pub same_app : Text → Text → Bool
unfolding to_lower_case
same_app a b = text_eq (to_lower_case a) (to_lower_case b)

unfoldable pub assert_rooms_engine_available : Text → Node → Delegation → ℕ → Result (Unit {0})
assert_rooms_engine_available app node delegation now = do
  throw_if (not (same_app node.app app) || not (node.chain_id == 4242)) engine_deployment_mismatch
  throw_if (not (delegation.status == 1)) engine_delegation_inactive
  throw_if (leb delegation.expires_at now) engine_delegation_expired
  throw_if (not (node.epoch == delegation.epoch)) engine_epoch_mismatch
  throw_if (leb delegation.expires_at (now + 40)) engine_delegation_ending
  ok tt

-- The messages of `roomsDrainBlocker`; `clear` is the empty one.
pub data DrainBlocker : Type 0 where
  epoch_differs unfinished_state active_matches pending_publication clear : DrainBlocker

unfoldable pub rooms_drain_blocker : Bool → ℕ → ℕ → Bool → DrainBlocker
rooms_drain_blocker expired active pending_diffs epoch_matches =
    if not epoch_matches
    then epoch_differs
    else if expired && (ltb 0 active || ltb 0 pending_diffs)
    then unfinished_state
    else if ltb 0 active
    then active_matches
    else if ltb 0 pending_diffs
    then pending_publication
    else clear

-- The engine is on the chain and deployment of the app, and its delegation is active, in the epoch
-- of the node, and lasts more than 40 seconds.
abbrev pub IsAvailable : Text → Node → Delegation → ℕ → Type 0
IsAvailable app node delegation now =
    (same_app node.app app ≡ true)
    × (node.chain_id ≡ 4242)
    × (delegation.status ≡ 1)
    × (now + 40 < delegation.expires_at)
    × (node.epoch ≡ delegation.epoch)

-- The call returns exactly where the node serves the app, up to the case of its address, on chain
-- 4242, the delegation is active and in the node's epoch, and it lasts more than 40 seconds from
-- now.
pub assert-IsAvailable_iff :
    (app : Text) (node : Node) (delegation : Delegation) (now : ℕ)
    → (assert_rooms_engine_available app node delegation now ≡ ok tt)
      ↔ IsAvailable app node delegation now
unfolding assert_rooms_engine_available
assert-IsAvailable_iff app node delegation now = ground arith

-- Nothing blocks a renewal exactly when the epochs match and neither a match nor a diff is open.
-- An operator is needed for open work exactly when the delegation expired with it.
pub drain_blocker_iff :
    (expired : Bool) (active pending_diffs : ℕ) (epoch_matches : Bool)
    → let blocker = rooms_drain_blocker expired active pending_diffs epoch_matches in
      ((blocker ≡ clear) ↔ ((epoch_matches ≡ true) × (active ≡ 0) × (pending_diffs ≡ 0)))
      × ((blocker ≡ unfinished_state)
          ↔ ((epoch_matches ≡ true) × (expired ≡ true) × (0 < active + pending_diffs)))
unfolding rooms_drain_blocker
drain_blocker_iff expired active pending_diffs epoch_matches = ground arith
