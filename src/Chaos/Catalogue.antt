-- ===== src/Chaos/Catalogue.antt =====
-- shared/chaos-events.ts: the events of rules 6. Names, colours, texts and sounds are left out.
use pongit.Common.{
  ℕ, ◌-◌, ◌==◌, if◌then◌else◌, List, [], ◌∷◌, Option, none, some, get_elem?, Result, ok, err,
  unknown_event,
}

pub data ChaosTarget : Type 0 where
  player both court : ChaosTarget

pub record ChaosEventDefinition : Type 0 where
  pub id : ℕ
  pub duration_ms : ℕ
  pub weight : ℕ
  pub target : ChaosTarget

abbrev event : ℕ → ℕ → ℕ → ChaosTarget → ChaosEventDefinition
event id duration_ms weight target = record {
  id = id;
  duration_ms = duration_ms;
  weight = weight;
  target = target;
}

abbrev pub chaos_events : List ChaosEventDefinition
chaos_events =
    event 1 6000 4 player
    ∷ event 2 5000 4 player
    ∷ event 3 12000 4 player
    ∷ event 4 8000 4 player
    ∷ event 5 8000 4 player
    ∷ event 6 8000 4 player
    ∷ event 7 6000 4 player
    ∷ event 8 5000 4 player
    ∷ event 9 8000 4 player
    ∷ event 10 7000 4 player
    ∷ event 11 6000 4 player
    ∷ event 12 6000 4 both
    ∷ event 13 10000 4 court
    ∷ event 14 10000 4 court
    ∷ event 15 8000 4 court
    ∷ event 16 8000 4 court
    ∷ event 17 8000 4 court
    ∷ event 18 10000 4 court
    ∷ event 19 12000 4 court
    ∷ event 20 8000 4 court
    ∷ event 21 12000 1 court
    ∷ event 22 12000 1 both
    ∷ event 23 8000 1 both
    ∷ event 24 12000 1 court
    ∷ []

-- `chaosEvents[id-1]`; the index -1 holds nothing.
abbrev pub event_at : ℕ → Option ChaosEventDefinition
event_at id = if id == 0 then none else get_elem? chaos_events (id - 1)

abbrev pub check_event : ℕ → Option ChaosEventDefinition → Result ChaosEventDefinition
check_event id none = err unknown_event
check_event id (some e) = if e.id == id then ok e else err unknown_event

unfoldable pub chaos_event : ℕ → Result ChaosEventDefinition
chaos_event id = check_event id (event_at id)
