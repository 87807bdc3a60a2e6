-- ===== src/Scenarios/Members.antt =====
-- Pairings of the rooms at concrete inputs.
use pongit.Common.{ℕ, ◌<◌, ◌≡◌, refl, true, false, some, none, List, [], ◌∷◌, get_elem?}
use pongit.Rooms.Members.{RoomMember, next_pair, rotate_members}
use pongit.Rooms.Members.Order.{IsPair, next_pair-IsPair}
use pongit.Rooms.Members.Rotation.{rotate_members_behind}

abbrev member : ℕ → ℕ → ℕ → RoomMember
member name joined position = record {
  player = name ∷ [];
  joined = joined;
  position = position;
  away = false;
  seen = 1000;
}

abbrev room : List RoomMember
room = member 1 10 3 ∷ member 2 20 1 ∷ member 3 5 1 ∷ record (member 4 1 0) { away = true } ∷ []

champion_first : next_pair room (some (1 ∷ [])) 2000 ≡ member 1 10 3 ∷ member 3 5 1 ∷ []
unfolding next_pair
champion_first = refl

queue_first : next_pair room none 2000 ≡ member 3 5 1 ∷ member 2 20 1 ∷ []
unfolding next_pair
queue_first = refl

next_pair-IsPair_example : IsPair room (some (1 ∷ [])) 2000 (next_pair room (some (1 ∷ [])) 2000)
next_pair-IsPair_example = next_pair-IsPair room (some (1 ∷ [])) 2000

lost : get_elem? (rotate_members room (1 ∷ []) (3 ∷ []) (1 ∷ [])) 2 ≡ some (member 3 5 4)
unfolding rotate_members
lost = refl

won : get_elem? (rotate_members room (1 ∷ []) (3 ∷ []) (1 ∷ [])) 0 ≡ some (member 1 10 3)
unfolding rotate_members
won = refl

rotate_members_behind_example : 3 < 4
rotate_members_behind_example =
    rotate_members_behind room (1 ∷ []) (3 ∷ []) (1 ∷ []) 2 0 lost won refl refl
