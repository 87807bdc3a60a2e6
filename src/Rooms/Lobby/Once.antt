-- ===== src/Rooms/Lobby/Once.antt =====
-- A transaction is done once, and its table of places is the lobby's.
use pongit.Common.{
  step-if, counted-if, ℕ, suc, ◌+◌, ◌≤◌, ◌≡◌, refl, sym, subst, inl, inr, Bool, true, false, ◌&&◌,
  arith, if◌then◌else◌, Bool-cases, Returns, List, [], ◌∷◌, ◌++◌, Text, text_eq, text_eq-≡,
  text_eq_refl, ◌⊎◌,
}
use pongit.Rooms.Members.{RoomMember}
use pongit.Rooms.Lobby.{LobbyRoom, Queued, State}
use pongit.Rooms.Lobby.Table.{is_closed}
use pongit.Rooms.Lobby.Places.{
  count_member, room_places, rooms_places, queue_places, places, IsLobby,
}
use pongit.Rooms.Lobby.Transact.{
  queue_place, Place, Store, member_places, room_rows, rooms_rows, queue_rows, occupancy_rows,
  has_place, has_double, save,
}

abbrev pub count_places : Text → List Place → ℕ
count_places p [] = 0
count_places p (x ∷ xs) =
    let rest = count_places p xs in if text_eq x.player p then suc rest else rest

count-append :
    (p : Text) (xs ys : List Place)
    → count_places p (xs ++ ys) ≡ count_places p xs + count_places p ys
count-append p [] ys = omega arith
count-append p (x ∷ xs) ys = step-if (text_eq x.player p) _ _ _ (count-append p xs ys)

same-if : (b : Bool) (m n : ℕ) → m ≡ n → (if b then suc m else m) ≡ (if b then suc n else n)
same-if b m n h = rw h refl

count-members :
    (p room : Text) (ms : List RoomMember)
    → count_places p (member_places room ms) ≡ count_member p ms
count-members p room [] = refl
count-members p room (m ∷ ms) = same-if (text_eq m.player p) _ _ (count-members p room ms)

count-room :
    (b : Bool) (p room : Text) (ms : List RoomMember)
    → count_places p (if b then [] else member_places room ms)
      ≡ (if b then 0 else count_member p ms)
count-room true p room ms = refl
count-room false p room ms = count-members p room ms

count-rooms : (p : Text) (rs : List LobbyRoom) → count_places p (rooms_rows rs) ≡ rooms_places p rs
count-rooms p [] = refl
count-rooms p (r ∷ rs) = omega (
  arith,
  count-append p (room_rows r) (rooms_rows rs),
  count-room (is_closed r.status) p r.id r.members,
  count-rooms p rs,
)

count-queue : (p : Text) (qs : List Queued) → count_places p (queue_rows qs) ≡ queue_places p qs
count-queue p [] = refl
count-queue p (q ∷ qs) = same-if (text_eq q.player p) _ _ (count-queue p qs)

count-all : (p : Text) (s : State) → count_places p (occupancy_rows s) ≡ places p s
unfolding places
count-all p s = omega (
  arith,
  count-append p (rooms_rows s.rooms) (queue_rows s.queue),
  count-rooms p s.rooms,
  count-queue p s.queue,
)

-- The rows of a player at a place.
abbrev pub count_at : Text → Text → List Place → ℕ
count_at p place [] = 0
count_at p place (x ∷ xs) =
    let rest = count_at p place xs in
    if text_eq x.player p && text_eq x.place place then suc rest else rest

abbrev pub rooms_at : Text → Text → List LobbyRoom → ℕ
rooms_at p place [] = 0
rooms_at p place (r ∷ rs) =
    let rest = rooms_at p place rs in if text_eq r.id place then room_places p r + rest else rest

-- How often a player is in the open room with the key `place`, and in the queue where that is the place.
abbrev pub places_at : Text → Text → State → ℕ
places_at p place s =
    rooms_at p place s.rooms + (if text_eq queue_place place then queue_places p s.queue else 0)

count_at-append :
    (p place : Text) (xs ys : List Place)
    → count_at p place (xs ++ ys) ≡ count_at p place xs + count_at p place ys
count_at-append p place [] ys = omega arith
count_at-append p place (x ∷ xs) ys =
    step-if (text_eq x.player p && text_eq x.place place) _ _ _ (count_at-append p place xs ys)

one-more :
    (b c : Bool) (m n : ℕ)
    → m ≡ (if c then n else 0)
    → (if b && c then suc m else m) ≡ (if c then (if b then suc n else n) else 0)
one-more b c m n h = ground arith

count_at-members :
    (p place room : Text) (ms : List RoomMember)
    → count_at p place (member_places room ms)
      ≡ (if text_eq room place then count_member p ms else 0)
count_at-members p place room [] = ground arith
count_at-members p place room (m ∷ ms) =
    one-more (text_eq m.player p) (text_eq room place) _ _ (count_at-members p place room ms)

count_at-room :
    (b : Bool) (p place room : Text) (ms : List RoomMember)
    → count_at p place (if b then [] else member_places room ms)
      ≡ (if text_eq room place then (if b then 0 else count_member p ms) else 0)
count_at-room true p place room ms = ground arith
count_at-room false p place room ms = count_at-members p place room ms

count_at-rooms :
    (p place : Text) (rs : List LobbyRoom) → count_at p place (rooms_rows rs) ≡ rooms_at p place rs
count_at-rooms p place [] = refl
count_at-rooms p place (r ∷ rs) =
    add-if (text_eq r.id place) _ _ _ _ _ (count_at-append p place (room_rows r) (rooms_rows rs))
      (count_at-room (is_closed r.status) p place r.id r.members) (count_at-rooms p place rs)
  where
    add-if :
        (b : Bool) (x m n k l : ℕ)
        → x ≡ m + n
        → m ≡ (if b then k else 0)
        → n ≡ l
        → x ≡ (if b then k + l else l)
    add-if b x m n k l e f g = ground arith

count_at-queue :
    (p place : Text) (qs : List Queued)
    → count_at p place (queue_rows qs)
      ≡ (if text_eq queue_place place then queue_places p qs else 0)
count_at-queue p place [] = ground arith
count_at-queue p place (q ∷ qs) =
    one-more (text_eq q.player p) (text_eq queue_place place) _ _ (count_at-queue p place qs)

-- The table of places has for every player and every place as many rows as the player has places there
-- in the lobby: as a member of the open room with that key, and in the queue where the place is "queue".
-- All the rows of a player together are the player's places.
pub occupancy-places :
    (p place : Text) (s : State)
    → (count_at p place (occupancy_rows s) ≡ places_at p place s)
      × (count_places p (occupancy_rows s) ≡ places p s)
occupancy-places p place s = (
  omega (
    arith,
    count_at-append p place (rooms_rows s.rooms) (queue_rows s.queue),
    count_at-rooms p place s.rooms,
    count_at-queue p place s.queue,
  ),
  count-all p s,
)

has-count : (p : Text) (xs : List Place) → has_place p xs ≡ true → 1 ≤ count_places p xs
has-count p [] h = absurd (cc)
has-count p (x ∷ xs) h = counted-if (text_eq x.player p) (has_place p xs) _ h (has-count p xs)

tail-le : (b : Bool) (n : ℕ) → (if b then suc n else n) ≤ 1 → n ≤ 1
tail-le true n h = omega arith
tail-le false n h = h

no-double : (xs : List Place) → ((p : Text) → count_places p xs ≤ 1) → has_double xs ≡ false
no-double [] h = refl
no-double (x ∷ xs) h = elim (Bool-cases (has_place x.player xs)) [
  | inl e ↦ absurd (
      twice (text_eq x.player x.player) _ (text_eq_refl x.player) (h x.player)
        (has-count x.player xs e))
  | inr e ↦ let rest = no-double xs (λ p. tail-le (text_eq x.player p) _ (h p)) in rw e rest
]
  where
    twice : (b : Bool) (n : ℕ) → b ≡ true → (if b then suc n else n) ≤ 1 → 1 ≤ n → ⊥
    twice true n e h k = omega arith
    twice false n e h k = cc

-- What `save` leaves: the old store for a document that has not changed, else the document and its rows.
abbrev pub IsSaved : (State → Text) → State → State → Store → Store → Type 0
IsSaved json previous state store saved =
    ((json state ≡ json previous) × (saved ≡ store))
    ⊎ ((saved.document ≡ state) × (saved.occupancy ≡ occupancy_rows state))

-- A lobby in which every player is in one place at most is saved: the table of places takes its rows, and
-- its primary key refuses none of them.
pub save-IsSaved :
    (json : State → Text) (hash : Text → Text) (previous state : State) (store : Store)
    → IsLobby state
    → Returns (IsSaved json previous state store) (save json hash previous state store)
save-IsSaved json hash previous state store h =
    let distinct =
      no-double (occupancy_rows state)
        (λ p. subst (λ n. n ≤ 1) (sym (count-all p state)) (h.placed p)) in
    elim (Bool-cases (text_eq (json state) (json previous))) [
      | inl e ↦ rw e (inl (text_eq-≡ _ _ e, refl))
      | inr e ↦ rw e (rw distinct (inr (refl, refl)))
    ]
