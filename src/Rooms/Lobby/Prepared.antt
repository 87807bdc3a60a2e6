-- ===== src/Rooms/Lobby/Prepared.antt =====
-- The countdown of a duel: what `prepareRoomLaunch` returns or throws.
use pongit.Common.{
  ℕ, ◌+◌, ◌*◌, ◌<◌, ◌≤◌, ◌≡◌, ◌≢◌, ◌⊎◌, true, Result, ok, err, ◌>>=◌, duel_unavailable,
  too_late_to_start, length, All, Option, none, some, Text,
}
use pongit.Rooms.Lobby.{LobbyOffer, offered}
use pongit.Rooms.Lobby.Acceptance.{includes, plays, launch_ready, now_ready, launch_at, launch_time}

-- What `prepareRoomLaunch` makes of an offer that it takes: the player is ready, with the duellists who
-- were ready or have accepted, and nobody else; a time that is set stays, and otherwise one is set where
-- both are ready, in three seconds, with a second to spare before the offer runs out.
pub record IsPrepared (offer : LobbyOffer) (player : Text) (now : ℕ) (next : LobbyOffer)
    : Type 0 where
  pub unchanged : next ≡ record offer { launch = next.launch }
  pub recorded : includes player (launch_ready next.launch) ≡ true
  pub still_ready :
      (p : Text)
      → plays offer p ≡ true
      → (includes p (launch_ready offer.launch) ≡ true) ⊎ (includes p offer.accepted ≡ true)
      → includes p (launch_ready next.launch) ≡ true
  pub only_duellists : All (λ p. plays offer p ≡ true) (launch_ready next.launch)
  pub keeps : (at : ℕ) → launch_at offer.launch ≡ some at → launch_at next.launch ≡ some at
  pub starts :
      launch_at offer.launch ≡ none
      → length (launch_ready next.launch) ≡ 2
      → (launch_at next.launch ≡ some (now + 3000)) × (now + 4000 < offer.expires * 1000)
  pub waits :
      launch_at offer.launch ≡ none
      → length (launch_ready next.launch) ≢ 2
      → launch_at next.launch ≡ none

-- A duellist answers an offer that is still open.
abbrev pub IsOpen : LobbyOffer → Text → ℕ → Type 0
IsOpen offer player now =
    (plays offer player ≡ true) × (offer.status ≡ offered) × (now < offer.expires * 1000)

-- Both are ready, no time is set, and three seconds and a second more do not fit.
abbrev pub IsLate : LobbyOffer → Text → ℕ → Type 0
IsLate offer player now =
    (launch_at offer.launch ≡ none)
    × (length (now_ready offer player) ≡ 2)
    × (offer.expires * 1000 ≤ now + 4000)

-- What the call returns or throws.
abbrev pub Prepares : LobbyOffer → Text → ℕ → Result LobbyOffer → Type 0
Prepares offer player now (ok next) =
    IsOpen offer player now × (¬ IsLate offer player now) × IsPrepared offer player now next
Prepares offer player now (err e) =
    ((e ≡ duel_unavailable) × (¬ IsOpen offer player now))
    ⊎ ((e ≡ too_late_to_start) × IsOpen offer player now × IsLate offer player now)

-- What follows the test of the offer.
abbrev go_on : LobbyOffer → Text → ℕ → Option ℕ → Result LobbyOffer
go_on offer player now found = do
  at ← launch_time offer (now_ready offer player) now found
  ok (record offer { launch = some (record { ready = now_ready offer player; at = at }) })
