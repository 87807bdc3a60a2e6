-- ===== src/Rooms/Lobby/Budget.antt =====
-- How many offers a maintenance pass makes.
use pongit.Common.{◌+◌, ◌*◌, ◌≤◌, ◌≡◌, max}
use pongit.Rooms.Lobby.Places.{HasDistinctKeys}
use pongit.Rooms.Lobby.Offers.{Pass, Ledger, open_offers}

module _ (c : Pass) where
  -- From the counters `l` to the counters `k`.
  pub record IsWithin (l k : Ledger) : Type 0 where
    pub few : k.active ≤ max 2 l.active
    pub fits : k.reserved ≤ max c.max_diffs l.reserved
    pub grows : l.active ≤ k.active
    pub paid : k.reserved + c.creation_budget * l.active ≡ l.reserved + c.creation_budget * k.active

module _ (c : Pass) where
  -- The counter `active` counts the open offers of the lobby.
  record IsTied (l : Ledger) : Type 0 where
    pub keyed : HasDistinctKeys l.state.rooms
    pub counted : open_offers c l.state.rooms ≤ l.active
