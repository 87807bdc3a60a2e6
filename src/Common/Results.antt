-- ===== src/Common/Results.antt =====
-- Code that may throw. An `Error` of the source is a `Fault`, named for its message.
use mathlib.Core.Path.{◌≡◌, refl, subst}
use mathlib.Core.Logic.{◌⊎◌, inl, inr}
use mathlib.Core.Bool.{Bool, true, false}
use pongit.Common.Tests.{if◌then◌else◌}

pub data Fault : Type 0 where
  bad_mode time_reversal serve_not_ready division_by_zero : Fault
  classic_clock chaos_state chaos_clock realtime_clock : Fault
  invalid_effect duplicate_effect no_effect_slot unknown_event : Fault
  invalid_effect_state invalid_goal_state numeric_range : Fault
  invalid_observation : Fault
  engine_deployment_mismatch engine_delegation_inactive engine_delegation_expired : Fault
  engine_epoch_mismatch engine_delegation_ending : Fault
  invalid_log_range log_range_too_large : Fault
  invalid_input chaos_not_open already_placed publication_unavailable matchmaking_closed : Fault
  opponent_found rooms_closed invitation_unavailable invitation_refused : Fault
  invitation_limit invitation_repeated invitation_expired room_expired reserved_invitation : Fault
  room_full room_unavailable not_in_room duel_unavailable room_changed receipt_mismatch : Fault
  duel_not_readable duel_expired countdown_missing countdown_running too_late_to_start : Fault
  match_started acceptance_submitted concede_first cancel_first operation_reused : Fault
  occupied_twice epoch_required : Fault

pub data Result {ℓ} (A : Type ℓ) : Type ℓ where
  ok : A → Result A
  err : Fault → Result A

module _ {ℓ κ} {A : Type ℓ} {B : Type κ} where
  infixl 5 ◌>>=◌
  abbrev pub ◌>>=◌ : Result A → (A → Result B) → Result B
  err fault >>= rest = err fault
  ok value >>= rest = rest value

  abbrev pub map_result : (A → B) → Result A → Result B
  map_result f (ok value) = ok (f value)
  map_result f (err fault) = err fault

module _ {κ} {B : Type κ} where
  infixl 5 ◌>>◌
  abbrev pub ◌>>◌ : Result (Unit {0}) → Result B → Result B
  statement >> rest = statement >>= λ _. rest

-- `if (b) throw e;`
abbrev pub throw_if : Bool → Fault → Result (Unit {0})
throw_if true e = err e
throw_if false e = ok tt

-- The code returns, and its result satisfies `Q`.
abbrev pub Returns {ℓ} : {A : Type ℓ} → (A → Type 0) → Result A → Type 0
Returns Q (ok a) = Q a
Returns Q (err e) = ⊥

-- If the code returns, its result satisfies `Q`.
abbrev pub Ensures {ℓ} : {A : Type ℓ} → (A → Type 0) → Result A → Type 0
Ensures Q (ok a) = Q a
Ensures Q (err e) = Unit

pub Result-cases {ℓ} :
    {A : Type ℓ} (m : Result A) → ((a : A) × (m ≡ ok a)) ⊎ ((e : Fault) × (m ≡ err e))
Result-cases (ok a) = inl (a, refl)
Result-cases (err e) = inr (e, refl)

module _ {ℓ κ} {A : Type ℓ} {B : Type κ} where
  pub Returns-bind :
      (P : A → Type 0) (Q : B → Type 0) (m : Result A) (f : A → Result B)
      → Returns P m
      → ((a : A) → P a → Returns Q (f a))
      → Returns Q (m >>= f)
  Returns-bind P Q (ok a) f h k = k a h
  Returns-bind P Q (err e) f h k = absurd h

module _ {ℓ κ} {A : Type ℓ} {B : Type κ} where
  pub Ensures-bind :
      (Q : B → Type 0) (m : Result A) (f : A → Result B)
      → ((a : A) → m ≡ ok a → Ensures Q (f a))
      → Ensures Q (m >>= f)
  Ensures-bind Q (ok a) f h = h a refl
  Ensures-bind Q (err e) f h = tt

module _ {ℓ} {B : Type ℓ} where
  pub Ensures-throw :
      (Q : B → Type 0) (b : Bool) (e : Fault) (m : Result B)
      → (b ≡ false → Ensures Q m)
      → Ensures Q (throw_if b e >> m)
  Ensures-throw Q true e m h = tt
  Ensures-throw Q false e m h = h refl

  pub Ensures-if :
      (Q : B → Type 0) (b : Bool) (x y : Result B)
      → (b ≡ true → Ensures Q x)
      → (b ≡ false → Ensures Q y)
      → Ensures Q (if b then x else y)
  Ensures-if Q true x y h k = h refl
  Ensures-if Q false x y h k = k refl

module _ {ℓ} {A : Type ℓ} where
  pub Returns-each :
      (P Q : A → Type 0) (m : Result A) → Returns P m → ((a : A) → P a → Q a) → Returns Q m
  Returns-each P Q (ok a) h k = k a h
  Returns-each P Q (err e) h k = absurd h

  pub Returns-ok : (Q : A → Type 0) (m : Result A) {a : A} → Returns Q m → m ≡ ok a → Q a
  Returns-ok Q m h e = subst (Returns Q) e h

  pub Ensures-ok : (Q : A → Type 0) (m : Result A) {a : A} → Ensures Q m → m ≡ ok a → Q a
  Ensures-ok Q m h e = subst (Ensures Q) e h
