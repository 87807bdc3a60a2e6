-- ===== src/Rooms/Lobby/Passes.antt =====
-- A whole maintenance pass keeps every player in one place.
use pongit.Common.{
  unfound, ℕ, ◌≤◌, ◌<◌, ◌≡◌, refl, sym, subst, inl, inr, Bool, true, false, ◌||◌, arith, leb,
  if◌then◌else◌, Bool-cases, List, [], ◌∷◌, map, All, none, Text, text_eq,
}
use pongit.Rooms.Members.{RoomMember, next_pair}
use pongit.Rooms.Lobby.{LobbyRoom, capacity, State}
use pongit.Rooms.Lobby.Table.{is_closed, find_room, set_room, put_room}
use pongit.Rooms.Lobby.Places.{room_places, HasDistinctKeys, IsLobby, In}
use pongit.Rooms.Lobby.Moves.{put-IsLobby, other-key}
use pongit.Rooms.Lobby.Tended.{IsTidy, tend-far, tend-IsLobby}
use pongit.Rooms.Lobby.Matching.{match_queue-IsLobby}
use pongit.Rooms.Lobby.Tending.{tend, tend_rooms}
use pongit.Rooms.Lobby.Offers.{
  Pass, Ledger, insert_by, sort_by, skipped, rests, full, make_offer, offer_pair, offer_room,
  offer_rooms, make_offers, maintain,
}

In-self : (rs : List LobbyRoom) → All (λ r. In r rs) rs
In-self [] = tt
In-self (r ∷ rs) = (inl refl, later rs (In-self rs))
  where
    later : (xs : List LobbyRoom) → All (λ x. In x rs) xs → All (λ x. In x (r ∷ rs)) xs
    later [] h = tt
    later (x ∷ xs) (h, hs) = (inr h, later xs hs)

module _ (P : LobbyRoom → Type 0) (key : LobbyRoom → ℕ) where
  insert-if :
      (b : Bool) (x y : LobbyRoom) (ys rest : List LobbyRoom)
      → P x
      → P y
      → All P ys
      → All P rest
      → All P (if b then x ∷ y ∷ ys else y ∷ rest)
  insert-if true x y ys rest h k l m = (h, (k, l))
  insert-if false x y ys rest h k l m = (k, m)

  All-insert : (x : LobbyRoom) (ys : List LobbyRoom) → P x → All P ys → All P (insert_by key x ys)
  All-insert x [] h k = (h, tt)
  All-insert x (y ∷ ys) h (k, ks) =
      insert-if (leb (key x) (key y)) x y ys (insert_by key x ys) h k ks (All-insert x ys h ks)

  All-sort : (xs : List LobbyRoom) → All P xs → All P (sort_by key xs)
  All-sort [] h = tt
  All-sort (x ∷ xs) (h, hs) = All-insert x (sort_by key xs) h (All-sort xs hs)

module _ (key : LobbyRoom → ℕ) where
  swapped : (x y : LobbyRoom) → text_eq y.id x.id ≡ false → text_eq x.id y.id ≡ false
  swapped x y h = other-key x.id y.id y.id h refl

  keys-if :
      (b : Bool) (x y : LobbyRoom) (ys rest : List LobbyRoom)
      → text_eq y.id x.id ≡ false
      → All (λ z. text_eq z.id x.id ≡ false) ys
      → All (λ z. text_eq z.id y.id ≡ false) ys
      → HasDistinctKeys ys
      → All (λ z. text_eq z.id y.id ≡ false) rest
      → HasDistinctKeys rest
      → HasDistinctKeys (if b then x ∷ y ∷ ys else y ∷ rest)
  keys-if true x y ys rest a b c d e f = ((a, b), (c, d))
  keys-if false x y ys rest a b c d e f = (e, f)

  keys-insert :
      (x : LobbyRoom) (ys : List LobbyRoom)
      → All (λ z. text_eq z.id x.id ≡ false) ys
      → HasDistinctKeys ys
      → HasDistinctKeys (insert_by key x ys)
  keys-insert x [] h k = (tt, tt)
  keys-insert x (y ∷ ys) (h, hs) (k, ks) =
      keys-if (leb (key x) (key y)) x y ys (insert_by key x ys) h hs k ks
        (All-insert (λ z. text_eq z.id y.id ≡ false) key x ys (swapped x y h) k)
        (keys-insert x ys hs ks)

  keys-sort : (xs : List LobbyRoom) → HasDistinctKeys xs → HasDistinctKeys (sort_by key xs)
  keys-sort [] h = tt
  keys-sort (x ∷ xs) (h, hs) =
      keys-insert x (sort_by key xs) (All-sort (λ z. text_eq z.id x.id ≡ false) key xs h)
        (keys-sort xs hs)

-- A room of another key is still there after an assignment.
In-put :
    (r new : LobbyRoom) (rs : List LobbyRoom)
    → text_eq r.id new.id ≡ false
    → In r rs
    → In r (map (set_room new) rs)
In-put r new [] e at = absurd at
In-put r new (x ∷ rs) e (inl same) = inl (subst (λ y. set_room new y ≡ r) (sym same) (rw e refl))
In-put r new (x ∷ rs) e (inr later) = inr (In-put r new rs e later)

All-In-put :
    (new : LobbyRoom) (rs xs : List LobbyRoom)
    → All (λ x. text_eq x.id new.id ≡ false) xs
    → All (λ x. In x rs) xs
    → All (λ x. In x (map (set_room new) rs)) xs
All-In-put new rs [] h k = tt
All-In-put new rs (x ∷ xs) (h, hs) (k, ks) = (In-put x new rs h k, All-In-put new rs xs hs ks)

module _ (c : Pass) where
  -- The lobby is in order, and the rooms that are still to come are in it as they are.
  abbrev IsOnWay : List LobbyRoom → Ledger → Type 0
  IsOnWay rs l = IsLobby l.state × All (λ r. In r l.state.rooms) rs

  not-skipped : (b rest_ : Bool) → (b || rest_) ≡ false → b ≡ false
  not-skipped true rest_ h = absurd (cc)
  not-skipped false rest_ h = refl

  open-count : (b : Bool) (n : ℕ) → b ≡ false → n ≤ (if b then 0 else n)
  open-count true n h = absurd (cc)
  open-count false n h = omega arith

  put-IsOnWay :
      (r new : LobbyRoom) (rs : List LobbyRoom) (s : State)
      → new.id ≡ r.id
      → ((q : Text) → room_places q new ≤ room_places q r)
      → All (λ x. text_eq x.id r.id ≡ false) rs
      → IsLobby s
      → In r s.rooms
      → All (λ x. In x s.rooms) rs
      → IsLobby (put_room new s) × All (λ x. In x (put_room new s).rooms) rs
  put-IsOnWay r new rs s key fewer far h at later = (
    put-IsLobby s r new h at key fewer,
    All-In-put new s.rooms rs (subst (λ i. All (λ x. text_eq x.id i ≡ false) rs) (sym key) far)
        later,
  )

  offer_pair-IsOnWay :
      (r : LobbyRoom) (pair : List RoomMember) (rs : List LobbyRoom) (l : Ledger)
      → is_closed r.status ≡ false
      → All (λ x. text_eq x.id r.id ≡ false) rs
      → IsOnWay (r ∷ rs) l
      → IsOnWay rs (offer_pair c r pair l)
  offer_pair-IsOnWay r [] rs l opened far (h, (at, later)) = (h, later)
  offer_pair-IsOnWay r (a ∷ []) rs l opened far (h, (at, later)) = (h, later)
  offer_pair-IsOnWay r (a ∷ b ∷ more) rs l opened far (h, (at, later)) =
      elim (Bool-cases (full c l.active l.reserved)) [
        | inl e ↦ rw e (
            put-IsOnWay r (record r { status = capacity }) rs l.state refl
              (λ q. open-count (is_closed r.status) _ opened) far h at later)
        | inr e ↦ rw e (
            put-IsOnWay r (make_offer c l.active r a b) rs l.state refl
              (λ q. open-count (is_closed r.status) _ opened) far h at later)
      ]

  offer_room-IsOnWay :
      (r : LobbyRoom) (rs : List LobbyRoom) (l : Ledger)
      → All (λ x. text_eq x.id r.id ≡ false) rs
      → IsOnWay (r ∷ rs) l
      → IsOnWay rs (offer_room c r l)
  offer_room-IsOnWay r rs l far h = elim (Bool-cases (skipped c r)) [
    | inl e ↦ rw e (h.0, h.1.1)
    | inr e ↦ rw e (
        offer_pair-IsOnWay r (next_pair r.members r.winner c.now) rs l
          (not-skipped (is_closed r.status) (rests c r r.offer) e) far h)
  ]

  offer_rooms-IsLobby :
      (rs : List LobbyRoom) (l : Ledger)
      → HasDistinctKeys rs
      → IsOnWay rs l
      → IsLobby (offer_rooms c rs l).state
  offer_rooms-IsLobby [] l keys h = h.0
  offer_rooms-IsLobby (r ∷ rs) l (far, keys) h =
      offer_rooms-IsLobby rs (offer_room c r l) keys (offer_room-IsOnWay r rs l far h)

make_offers-IsLobby :
    (c : Pass) (before s : State) → IsLobby s → IsLobby (make_offers c before s).state
unfolding make_offers
make_offers-IsLobby c before s h =
    offer_rooms-IsLobby c (sort_by (λ r. r.created) s.rooms) _
      (keys-sort (λ r. r.created) s.rooms h.keyed)
      (h, All-sort (λ r. In r s.rooms) (λ r. r.created) s.rooms (In-self s.rooms))

find-far :
    (id : Text) (rs : List LobbyRoom)
    → find_room id rs ≡ none
    → All (λ y. text_eq y.id id ≡ false) rs
find-far id [] h = tt
find-far id (x ∷ rs) h =
    let (off, rest) = unfound (text_eq x.id id) x (find_room id rs) h in (off, find-far id rs rest)

far-find :
    (id : Text) (rs : List LobbyRoom)
    → All (λ y. text_eq y.id id ≡ false) rs
    → find_room id rs ≡ none
far-find id [] h = refl
far-find id (x ∷ rs) (h, hs) = let rest = far-find id rs hs in rw h rest

-- A maintenance pass keeps every player in one place. From a lobby in which each is in one and no closed
-- room has members, and with new ids for the rooms that it makes, the pass, which follows the engine's
-- snapshots, closes and deletes rooms, matches queued players and makes offers, leads to a lobby in which
-- each is in one.
pub maintain-IsLobby :
    (c : Pass) (before s : State)
    → ((m n : ℕ) → m < n → text_eq (c.room_id m) (c.room_id n) ≡ false)
    → ((n : ℕ) → find_room (c.room_id n) s.rooms ≡ none)
    → All IsTidy s.rooms
    → IsLobby s
    → IsLobby (maintain c before s)
unfolding maintain tend
maintain-IsLobby c before s apart fresh tidy h = make_offers-IsLobby c before _ (
    match_queue-IsLobby c (tend c.observed c.now s) apart
      (λ n. far-find (c.room_id n) (tend_rooms c.observed c.now s.rooms) (
        tend-far c.observed c.now (c.room_id n) s.rooms (find-far (c.room_id n) s.rooms (fresh n))))
      (tend-IsLobby c.observed c.now s tidy h))
