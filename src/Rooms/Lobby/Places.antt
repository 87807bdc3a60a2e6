-- ===== src/Rooms/Lobby/Places.antt =====
-- Where a player is: the places in rooms that are not closed, and in the queue.
use pongit.Common.{
  found-if, false-if, ℕ, suc, ◌+◌, ◌≤◌, ◌≡◌, refl, subst, ◌⊎◌, inl, inr, Bool, true, false, not,
  ◌&&◌, ◌||◌, arith, if◌then◌else◌, ok, Fault, throw_if, List, [], ◌∷◌, All, Option, some, Text,
  text_eq,
}
use pongit.Rooms.Members.{RoomMember}
use pongit.Rooms.Lobby.{LobbyRoom, Queued, State}
use pongit.Rooms.Lobby.Table.{
  is_closed, has_member, is_queued, houses, find_occupied, find_room, occupant, available, is_some,
}

abbrev pub count_member : Text → List RoomMember → ℕ
count_member p [] = 0
count_member p (m ∷ ms) =
    let rest = count_member p ms in if text_eq m.player p then suc rest else rest

abbrev pub room_places : Text → LobbyRoom → ℕ
room_places p r = if is_closed r.status then 0 else count_member p r.members

abbrev pub rooms_places : Text → List LobbyRoom → ℕ
rooms_places p [] = 0
rooms_places p (r ∷ rs) = room_places p r + rooms_places p rs

abbrev pub queue_places : Text → List Queued → ℕ
queue_places p [] = 0
queue_places p (q ∷ qs) =
    let rest = queue_places p qs in if text_eq q.player p then suc rest else rest

unfoldable pub places : Text → State → ℕ
places p s = rooms_places p s.rooms + queue_places p s.queue

abbrev pub HasDistinctKeys : List LobbyRoom → Type 0
HasDistinctKeys [] = Unit
HasDistinctKeys (r ∷ rs) = All (λ x. text_eq x.id r.id ≡ false) rs × HasDistinctKeys rs

-- Every player is in one place at most, and the keys of the rooms are distinct.
pub record IsLobby (s : State) : Type 0 where
  pub placed : (p : Text) → places p s ≤ 1
  pub keyed : HasDistinctKeys s.rooms

abbrev pub In : LobbyRoom → List LobbyRoom → Type 0
In r [] = ⊥
In r (x ∷ xs) = (x ≡ r) ⊎ In r xs

pub find_occupied-In :
    (p : Text) (rs : List LobbyRoom) {r : LobbyRoom}
    → find_occupied p rs ≡ some r
    → In r rs × (houses p r ≡ true)
find_occupied-In p [] h = absurd (cc)
find_occupied-In p (x ∷ xs) {r} h = elim (found-if (houses p x) x r (find_occupied p xs) h) [
  | inl (e, same) ↦ (inl same, subst (λ y. houses p y ≡ true) same e)
  | inr later ↦ let (at, e) = find_occupied-In p xs later in (inr at, e)
]

pub find_room-In :
    (id : Text) (rs : List LobbyRoom) {r : LobbyRoom} → find_room id rs ≡ some r → In r rs
find_room-In id [] h = absurd (cc)
find_room-In id (x ∷ xs) {r} h = elim (found-if (text_eq x.id id) x r (find_room id xs) h) [
  | inl (e, same) ↦ inl same
  | inr later ↦ inr (find_room-In id xs later)
]

none-if :
    {A : Type 0} (b : Bool) (x : A) (rest : Option A)
    → is_some (if b then some x else rest) ≡ false
    → (b ≡ false) × (is_some rest ≡ false)
none-if true x rest h = absurd (cc)
none-if false x rest h = (refl, h)

count-absent : (p : Text) (ms : List RoomMember) → has_member p ms ≡ false → count_member p ms ≡ 0
count-absent p [] h = refl
count-absent p (m ∷ ms) h =
    let (off, rest) = false-if (text_eq m.player p) (has_member p ms) h in
    let same = count-absent p ms rest in rw off same

queue-absent : (p : Text) (qs : List Queued) → is_queued p qs ≡ false → queue_places p qs ≡ 0
queue-absent p [] h = refl
queue-absent p (q ∷ qs) h =
    let (off, rest) = false-if (text_eq q.player p) (is_queued p qs) h in
    let same = queue-absent p qs rest in rw off same

unhoused :
    (b : Bool) (p : Text) (ms : List RoomMember)
    → (not b && has_member p ms) ≡ false
    → (if b then 0 else count_member p ms) ≡ 0
unhoused true p ms h = refl
unhoused false p ms h = count-absent p ms h

rooms-absent :
    (p : Text) (rs : List LobbyRoom) → is_some (find_occupied p rs) ≡ false → rooms_places p rs ≡ 0
rooms-absent p [] h = refl
rooms-absent p (r ∷ rs) h =
    let (off, rest) = none-if (houses p r) r (find_occupied p rs) h in
    omega (arith, unhoused (is_closed r.status) p r.members off, rooms-absent p rs rest)

either-false : (a b : Bool) → (a || b) ≡ false → (a ≡ false) × (b ≡ false)
either-false true b h = absurd (cc)
either-false false b h = (refl, h)

-- A player who is available has no place.
pub available-places : (s : State) (p : Text) → available s p ≡ ok tt → places p s ≡ 0
unfolding available occupant places
available-places s p h =
    let (homeless, unqueued) =
      either-false (is_some (find_occupied p s.rooms)) (is_queued p s.queue) (not-thrown _ _ h) in
    omega (arith, rooms-absent p s.rooms homeless, queue-absent p s.queue unqueued)
  where
    not-thrown : (b : Bool) (e : Fault) → throw_if b e ≡ ok tt → b ≡ false
    not-thrown true e h = absurd (cc)
    not-thrown false e h = refl
