-- ===== src/Rooms/Lobby/Moves.antt =====
-- What an assignment of a room, a new member, a new room and a queued player do to the places.
use pongit.Common.{
  step-if, unfound, ℕ, ◌+◌, ◌≤◌, ◌≡◌, refl, sym, ap, ◌∙◌, subst, inl, inr, Bool, true, false, arith,
  if◌then◌else◌, Bool-cases, List, [], ◌∷◌, ◌++◌, map, All, none, Text, text_eq, text_eq-≡,
  text_eq_refl,
}
use pongit.Rooms.Members.{RoomMember}
use pongit.Rooms.Lobby.{LobbyRoom, Queued, State}
use pongit.Rooms.Lobby.Table.{find_room, set_room, put_room}
use pongit.Rooms.Lobby.Places.{
  count_member, room_places, rooms_places, queue_places, places, HasDistinctKeys, IsLobby, In,
}

one-if : (b : Bool) → (if b then 1 else 0) ≡ 0 + (if b then 1 else 0)
one-if true = refl
one-if false = refl

-- The count of one more member.
pub count-push :
    (p : Text) (ms : List RoomMember) (m : RoomMember)
    → count_member p (ms ++ (m ∷ [])) ≡ count_member p ms + (if text_eq m.player p then 1 else 0)
count-push p [] m = one-if (text_eq m.player p)
count-push p (x ∷ ms) m = step-if (text_eq x.player p) _ _ _ (count-push p ms m)

pub queue-push :
    (p : Text) (qs : List Queued) (q : Queued)
    → queue_places p (qs ++ (q ∷ [])) ≡ queue_places p qs + (if text_eq q.player p then 1 else 0)
queue-push p [] q = one-if (text_eq q.player p)
queue-push p (x ∷ qs) q = step-if (text_eq x.player p) _ _ _ (queue-push p qs q)

pub rooms-push :
    (p : Text) (rs : List LobbyRoom) (r : LobbyRoom)
    → rooms_places p (rs ++ (r ∷ [])) ≡ rooms_places p rs + room_places p r
rooms-push p [] r = omega arith
rooms-push p (x ∷ rs) r = omega (arith, rooms-push p rs r)

-- An assignment to a key that no room has changes nothing.
pub set_room-absent :
    (new : LobbyRoom) (rs : List LobbyRoom)
    → All (λ x. text_eq x.id new.id ≡ false) rs
    → map (set_room new) rs ≡ rs
set_room-absent new [] h = refl
set_room-absent new (x ∷ rs) (h, hs) =
    let same = set_room-absent new rs hs in rw h (ap (◌∷◌ x) same)

In-All : (P : LobbyRoom → Type 0) (r : LobbyRoom) (rs : List LobbyRoom) → In r rs → All P rs → P r
In-All P r [] at h = absurd at
In-All P r (x ∷ rs) (inl e) (h, hs) = subst P e h
In-All P r (x ∷ rs) (inr later) (h, hs) = In-All P r rs later hs

true≢false : {b : Bool} → b ≡ true → b ≡ false → ⊥
true≢false h k = cc

pub other-key : (a b c : Text) → text_eq c a ≡ false → b ≡ c → text_eq a b ≡ false
other-key a b c far same = elim (Bool-cases (text_eq a b)) [
  | inr e ↦ e
  | inl e ↦ absurd (
      true≢false (subst (λ x. text_eq c x ≡ true) (sym (text_eq-≡ a b e ∙ same)) (text_eq_refl c))
        far)
]

-- The places after the room `r` has become `new`, which has its key.
pub put-places :
    (p : Text) (r new : LobbyRoom) (rs : List LobbyRoom)
    → HasDistinctKeys rs
    → In r rs
    → new.id ≡ r.id
    → rooms_places p (map (set_room new) rs) + room_places p r
      ≡ rooms_places p rs + room_places p new
put-places p r new [] h at k = absurd at
put-places p r new (x ∷ rs) (far, distinct) (inl e) k =
    let here : text_eq x.id new.id ≡ true =
      subst (λ i. text_eq x.id i ≡ true) (ap (λ y. y.id) e ∙ sym k) (text_eq_refl x.id) in
    let rest : map (set_room new) rs ≡ rs =
      set_room-absent new rs
        (subst (λ i. All (λ y. text_eq y.id i ≡ false) rs) (ap (λ y. y.id) e ∙ sym k) far) in
    let same : room_places p x ≡ room_places p r = ap (room_places p) e in
    rw here (rw rest (omega arith))
put-places p r new (x ∷ rs) (far, distinct) (inr later) k =
    let there : text_eq x.id new.id ≡ false =
      other-key x.id new.id r.id (In-All (λ y. text_eq y.id x.id ≡ false) r rs later far) k in
    let more = put-places p r new rs distinct later k in rw there (omega arith)

set_room-id : (new x : LobbyRoom) → (set_room new x).id ≡ x.id
set_room-id new x = elim (Bool-cases (text_eq x.id new.id)) [
  | inl e ↦ rw e (sym (text_eq-≡ x.id new.id e))
  | inr e ↦ rw e refl
]

keys-after :
    (new : LobbyRoom) (key : Text) (rs : List LobbyRoom)
    → All (λ y. text_eq y.id key ≡ false) rs
    → All (λ y. text_eq y.id key ≡ false) (map (set_room new) rs)
keys-after new key [] h = tt
keys-after new key (x ∷ rs) (h, hs) =
    (subst (λ i. text_eq i key ≡ false) (sym (set_room-id new x)) h, keys-after new key rs hs)

pub put-keys :
    (new : LobbyRoom) (rs : List LobbyRoom)
    → HasDistinctKeys rs
    → HasDistinctKeys (map (set_room new) rs)
put-keys new [] h = tt
put-keys new (x ∷ rs) (far, distinct) = (
  subst (λ i. All (λ y. text_eq y.id i ≡ false) (map (set_room new) rs)) (sym (set_room-id new x))
      (keys-after new x.id rs far),
  put-keys new rs distinct,
)

All-push :
    (key : Text) (r : LobbyRoom) (rs : List LobbyRoom)
    → All (λ y. text_eq y.id key ≡ false) rs
    → text_eq r.id key ≡ false
    → All (λ y. text_eq y.id key ≡ false) (rs ++ (r ∷ []))
All-push key r [] h e = (e, tt)
All-push key r (x ∷ rs) (h, hs) e = (h, All-push key r rs hs e)

pub push-keys :
    (r : LobbyRoom) (rs : List LobbyRoom)
    → HasDistinctKeys rs
    → find_room r.id rs ≡ none
    → HasDistinctKeys (rs ++ (r ∷ []))
push-keys r [] h e = (tt, tt)
push-keys r (x ∷ rs) (far, distinct) e =
    let (off, absent) = unfound (text_eq x.id r.id) x (find_room r.id rs) e in
    (All-push x.id r rs far (other-key r.id x.id x.id off refl), push-keys r rs distinct absent)

-- A room that keeps its key and gets no new player.
pub put-IsLobby :
    (s : State) (r new : LobbyRoom)
    → IsLobby s
    → In r s.rooms
    → new.id ≡ r.id
    → ((p : Text) → room_places p new ≤ room_places p r)
    → IsLobby (put_room new s)
unfolding places
put-IsLobby s r new h at key fewer = record {
  placed = λ p. omega (arith, h.placed p, fewer p, put-places p r new s.rooms h.keyed at key);
  keyed = put-keys new s.rooms h.keyed;
}

one-more : (b : Bool) (n : ℕ) → n ≤ 1 → (b ≡ true → n ≡ 0) → n + (if b then 1 else 0) ≤ 1
one-more true n h k = omega (arith, k refl)
one-more false n h k = omega arith

-- The place of one more player, who had none.
placed-more :
    (s : State) (p q : Text)
    → IsLobby s
    → places p s ≡ 0
    → places q s + (if text_eq p q then 1 else 0) ≤ 1
placed-more s p q h free =
    one-more (text_eq p q) (places q s) (h.placed q)
      (λ e. subst (λ x. places x s ≡ 0) (text_eq-≡ p q e) free)

pub enter-IsLobby :
    (s : State) (r new : LobbyRoom) (p : Text)
    → IsLobby s
    → places p s ≡ 0
    → In r s.rooms
    → new.id ≡ r.id
    → ((q : Text) → room_places q new ≤ room_places q r + (if text_eq p q then 1 else 0))
    → IsLobby (put_room new s)
unfolding places
enter-IsLobby s r new p h free at key more = record {
  placed = λ q.
      omega (arith, placed-more s p q h free, more q, put-places q r new s.rooms h.keyed at key);
  keyed = put-keys new s.rooms h.keyed;
}

pub open-IsLobby :
    (s : State) (new : LobbyRoom) (p : Text)
    → IsLobby s
    → places p s ≡ 0
    → find_room new.id s.rooms ≡ none
    → ((q : Text) → room_places q new ≤ (if text_eq p q then 1 else 0))
    → IsLobby (record s { rooms = s.rooms ++ (new ∷ []) })
unfolding places
open-IsLobby s new p h free fresh more = record {
  placed = λ q. omega (arith, placed-more s p q h free, more q, rooms-push q s.rooms new);
  keyed = push-keys new s.rooms h.keyed fresh;
}

pub queue-IsLobby :
    (s : State) (new : Queued)
    → IsLobby s
    → places new.player s ≡ 0
    → IsLobby (record s { queue = s.queue ++ (new ∷ []) })
unfolding places
queue-IsLobby s new h free = record {
  placed = λ q. omega (arith, placed-more s new.player q h free, queue-push q s.queue new);
  keyed = h.keyed;
}
