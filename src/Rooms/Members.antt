-- ===== src/Rooms/Members.antt =====
-- `nextPair` and `rotateMembers` of shared/rooms.ts: who plays next in a room. Times and positions
-- are not negative. The stable sort of the language is an insertion sort; `m !== champion`, which
-- compares objects, leaves out the place where the champion was found.
pub mod Sorting
pub mod Order
pub mod Rotation
use pongit.Common.{
  ℕ, zero, suc, ◌+◌, ◌-◌, ◌≤◌, ◌<◌, ◌≡◌, refl, subst, Bool, true, false, not, ◌||◌, ◌&&◌, arith,
  min, max, leb, ltb, ◌==◌, if◌then◌else◌, Bool-cases, inl, inr, List, [], ◌∷◌, Option, none, some,
  Text, text_eq, length, All, get_elem?, map,
}

pub record RoomMember : Type 0 where
  pub player : Text
  pub joined : ℕ
  pub position : ℕ
  pub away : Bool
  pub seen : ℕ

abbrev pub last_position : List RoomMember → ℕ
last_position [] = 0
last_position (m ∷ ms) = max m.position (last_position ms)

-- The member that lost goes behind the last position.
abbrev pub move_back : Text → ℕ → RoomMember → RoomMember
move_back loser last m = if text_eq m.player loser then record m { position = last + 1 } else m

unfoldable pub rotate_members : List RoomMember → Text → Text → Text → List RoomMember
rotate_members members a b winner =
    let loser = if text_eq winner a then b else a in
    map (move_back loser (last_position members)) members

abbrev pub eligible : ℕ → RoomMember → Bool
eligible now m = not m.away && ltb now (m.seen + 30000)

abbrev pub eligible_members : ℕ → List RoomMember → List RoomMember
eligible_members now [] = []
eligible_members now (m ∷ ms) =
    let rest = eligible_members now ms in if eligible now m then m ∷ rest else rest

-- The comparison puts `a` before `b`, or calls them equal.
abbrev pub before : RoomMember → RoomMember → Bool
before a b = ltb a.position b.position || a.position == b.position && leb a.joined b.joined

abbrev insert : RoomMember → List RoomMember → List RoomMember
insert m [] = m ∷ []
insert m (x ∷ xs) = let rest = insert m xs in if before m x then m ∷ x ∷ xs else x ∷ rest

abbrev pub sort : List RoomMember → List RoomMember
sort [] = []
sort (m ∷ ms) = insert m (sort ms)

-- `eligible.find(m => m.player === winner)`
abbrev pub find : Text → List RoomMember → Option RoomMember
find w [] = none
find w (m ∷ ms) = let rest = find w ms in if text_eq m.player w then some m else rest

-- The members but the one that `find` finds.
abbrev others : Text → List RoomMember → List RoomMember
others w [] = []
others w (m ∷ ms) = let rest = others w ms in if text_eq m.player w then ms else m ∷ rest

abbrev take_two : List RoomMember → List RoomMember
take_two (a ∷ b ∷ ms) = a ∷ b ∷ []
take_two ms = ms

abbrev champion_first : Text → List RoomMember → Option RoomMember → List RoomMember
champion_first w ms none = ms
champion_first w ms (some c) = c ∷ others w ms

abbrev pub find_winner : Option Text → List RoomMember → Option RoomMember
find_winner none ms = none
find_winner (some w) ms = find w ms

abbrev lined_up : Option Text → List RoomMember → List RoomMember
lined_up none ms = ms
lined_up (some w) ms = champion_first w ms (find w ms)

unfoldable pub next_pair : List RoomMember → Option Text → ℕ → List RoomMember
next_pair members winner now = take_two (lined_up winner (sort (eligible_members now members)))
