-- ===== src/Rooms/Members/Rotation.antt =====
-- Where `rotateMembers` of shared/rooms.ts puts the member that lost.
use pongit.Common.{
  ℕ, ◌+◌, ◌≤◌, ◌<◌, ◌≡◌, refl, true, false, arith, if◌then◌else◌, Bool-cases, inl, inr, List, [],
  ◌∷◌, some, Text, text_eq, All, All-get_elem?, get_elem?, map,
}
use pongit.Rooms.Members.{RoomMember, last_position, move_back, rotate_members}

-- The loser is behind the position `last`, and all others are not.
abbrev Placed : Text → ℕ → RoomMember → Type 0
Placed loser last m = if text_eq m.player loser then m.position ≡ last + 1 else m.position ≤ last

move_back-Placed :
    (loser : Text) (last : ℕ) (m : RoomMember)
    → m.position ≤ last
    → Placed loser last (move_back loser last m)
move_back-Placed loser last m le = elim (Bool-cases (text_eq m.player loser)) [
  | inl same ↦ simp same refl
  | inr other ↦ simp other le
]

map-Placed :
    (loser : Text) (last : ℕ) (ms : List RoomMember)
    → last_position ms ≤ last
    → All (Placed loser last) (map (move_back loser last) ms)
map-Placed loser last [] le = tt
map-Placed loser last (m ∷ ms) le =
    (move_back-Placed loser last m (omega arith), map-Placed loser last ms (omega arith))

abbrev pub loser_of : Text → Text → Text → Text
loser_of a b winner = if text_eq winner a then b else a

-- In the rotated room every entry of the member that lost, who is `b` if `a` won and else `a`,
-- stands behind every entry of another member.
pub rotate_members_behind :
    (members : List RoomMember) (a b winner : Text) (i j : ℕ) {m n : RoomMember}
    → get_elem? (rotate_members members a b winner) i ≡ some m
    → get_elem? (rotate_members members a b winner) j ≡ some n
    → text_eq m.player (loser_of a b winner) ≡ true
    → text_eq n.player (loser_of a b winner) ≡ false
    → n.position < m.position
unfolding rotate_members
rotate_members_behind members a b winner i j {m} {n} e f lost other =
    let loser = loser_of a b winner in
    let last = last_position members in
    let placed = map-Placed loser last members (omega arith) in
    let behind : m.position ≡ last + 1 =
      simp lost at (All-get_elem? (Placed loser last) _ i placed e) in
    let ahead : n.position ≤ last =
      simp other at (All-get_elem? (Placed loser last) _ j placed f) in
    omega arith
