-- ===== src/Rooms/Lobby/Tended.antt =====
-- Tending the rooms keeps every player in one place.
use pongit.Common.{
  ℕ, suc, ◌+◌, ◌*◌, ◌-◌, ◌≤◌, ◌≡◌, refl, sym, ◌∙◌, subst, Bool, true, false, not, ◌&&◌, ◌||◌, arith,
  leb, ltb, ◌==◌, if◌then◌else◌, List, [], ◌∷◌, map, All, Option, none, some, Text, text_eq,
  to_lower_case,
}
use pongit.Rooms.Members.{RoomMember, rotate_members, move_back, last_position}
use pongit.Rooms.Lobby.{LobbyOffer, LobbyRoom, closed, Queued, State}
use pongit.Rooms.Lobby.Table.{is_closed}
use pongit.Rooms.Lobby.Acceptance.{
  is_offered, plays, phase_is, step_aside, expire_offer, expire_if, expire_unstarted_room_offer,
}
use pongit.Rooms.Lobby.Places.{
  count_member, room_places, rooms_places, queue_places, places, HasDistinctKeys, IsLobby,
}
use pongit.Rooms.Lobby.Safety.{grow-if, both-if}
use pongit.Rooms.Lobby.Seated.{count-map, choose-player}
use pongit.Rooms.Lobby.Tending.{
  Snapshot, fresh_queue, is_over, absent_away, follow, phase_of, follow_offer, is_stale, tend_room,
  tend_rooms, tend,
}

-- A closed room has no members.
abbrev pub IsTidy : LobbyRoom → Type 0
IsTidy r = is_closed r.status ≡ true → r.members ≡ []

-- The same room with the same players.
abbrev HasRoster : LobbyRoom → LobbyRoom → Type 0
HasRoster r x = (x.id ≡ r.id) × ((q : Text) → count_member q x.members ≡ count_member q r.members)

HasRoster-trans : (r x y : LobbyRoom) → HasRoster r x → HasRoster x y → HasRoster r y
HasRoster-trans r x y (e, f) (g, h) = (g ∙ e, λ q. h q ∙ f q)

either-HasRoster :
    (b : Bool) (r x y : LobbyRoom)
    → HasRoster r x
    → HasRoster r y
    → HasRoster r (if b then x else y)
either-HasRoster true r x y h k = h
either-HasRoster false r x y h k = k

rotate-count :
    (a b w q : Text) (ms : List RoomMember)
    → count_member q (rotate_members ms a b w) ≡ count_member q ms
unfolding rotate_members
rotate-count a b w q ms =
    count-map (move_back (if text_eq w a then b else a) (last_position ms))
      (λ m. choose-player (text_eq m.player (if text_eq w a then b else a)) m _ refl) q ms

absent-count :
    (b : Bool) (offer : LobbyOffer) (q : Text) (ms : List RoomMember)
    → count_member q (if b then map (absent_away offer) ms else ms) ≡ count_member q ms
absent-count true offer q ms =
    count-map (absent_away offer) (λ m. choose-player (plays offer m.player && not _) m _ refl) q ms
absent-count false offer q ms = refl

follow-HasRoster :
    (now : ℕ) (offer : LobbyOffer) (snap : Option Snapshot) (r : LobbyRoom)
    → HasRoster r (follow now offer snap r)
follow-HasRoster now offer none r = (refl, λ q. refl)
follow-HasRoster now offer (some snap) r =
    either-HasRoster (snap.phase == 2) r _ _ (refl, λ q. refl)
      (either-HasRoster (leb 3 snap.phase && not (is_over offer.status)) r _ _
        (either-HasRoster (snap.phase == 3) r _ _
          (refl, λ q. rotate-count offer.a offer.b (to_lower_case snap.winner) q r.members)
          (
            refl,
            λ q. absent-count (snap.phase == 4 && ltb (offer.expires * 1000) now) offer q r.members,
          ))
        (refl, λ q. refl))

abbrev FirstHasRoster : LobbyRoom → LobbyRoom × Bool → Type 0
FirstHasRoster r after = HasRoster r after.0

expire-HasRoster :
    (r : LobbyRoom) (phase : Option ℕ) (now : ℕ) (found : Option LobbyOffer)
    → FirstHasRoster r (expire_if r phase now found)
expire-HasRoster r phase now none = (refl, λ q. refl)
expire-HasRoster r phase now (some offer) = kept (
    not (is_offered offer.status)
    || not (phase_is phase 0)
    || leb now (offer.expires * 1000 + 3000))
  where
    kept : (b : Bool) → FirstHasRoster r (if b then (r, false) else (expire_offer r offer, true))
    kept true = (refl, λ q. refl)
    kept false = (
      refl,
      λ q.
          count-map (step_aside offer) (λ m. choose-player (plays offer m.player) m _ refl) q
            r.members,
    )

follow_offer-HasRoster :
    (observed : Text → Option Snapshot) (now : ℕ) (found : Option LobbyOffer) (r : LobbyRoom)
    → HasRoster r (follow_offer observed now found r)
unfolding expire_unstarted_room_offer
follow_offer-HasRoster observed now none r = (refl, λ q. refl)
follow_offer-HasRoster observed now (some offer) r =
    let followed = follow now offer (observed offer.id) r in
    HasRoster-trans r followed
      (expire_if followed (phase_of (observed offer.id)) now followed.offer).0
      (follow-HasRoster now offer (observed offer.id) r)
      (expire-HasRoster followed (phase_of (observed offer.id)) now followed.offer)

-- A room that a pass has tended: the same key, no new players, and no members once it is closed.
abbrev IsTended : LobbyRoom → LobbyRoom → Type 0
IsTended r x = (x.id ≡ r.id) × ((q : Text) → room_places q x ≤ count_member q r.members)

open-le : (b : Bool) (m n : ℕ) → m ≡ n → (if b then 0 else m) ≤ n
open-le true m n h = omega arith
open-le false m n h = omega arith

close-IsTended :
    (b : Bool) (r x : LobbyRoom)
    → HasRoster r x
    → IsTended r (if b then record x { status = closed; members = [] } else x)
close-IsTended true r x (e, f) = (e, λ q. omega arith)
close-IsTended false r x (e, f) = (e, λ q. open-le (is_closed x.status) _ _ (f q))

tend_room-IsTended :
    (observed : Text → Option Snapshot) (now : ℕ) (r : LobbyRoom)
    → IsTended r (tend_room observed now r)
tend_room-IsTended observed now r =
    close-IsTended (is_stale now (follow_offer observed now r.offer r)) r _
      (follow_offer-HasRoster observed now r.offer r)

tidy-count : (r : LobbyRoom) (q : Text) → IsTidy r → count_member q r.members ≤ room_places q r
tidy-count r q h = counted (is_closed r.status) refl
  where
    counted :
        (b : Bool)
        → is_closed r.status ≡ b
        → count_member q r.members ≤ (if b then 0 else count_member q r.members)
    counted true e = subst (λ ms. count_member q ms ≤ 0) (sym (h e)) (omega arith)
    counted false e = omega arith

drop-places :
    (b : Bool) (q : Text) (x : LobbyRoom) (rest : List LobbyRoom) (m n : ℕ)
    → room_places q x ≤ m
    → rooms_places q rest ≤ n
    → rooms_places q (if b then rest else x ∷ rest) ≤ m + n
drop-places true q x rest m n h k = omega arith
drop-places false q x rest m n h k = omega arith

tend-places :
    (observed : Text → Option Snapshot) (now : ℕ) (q : Text) (rs : List LobbyRoom)
    → All IsTidy rs
    → rooms_places q (tend_rooms observed now rs) ≤ rooms_places q rs
tend-places observed now q [] h = omega arith
tend-places observed now q (r ∷ rs) (tidy, h) =
    let tended = tend_room observed now r in
    drop-places (is_closed tended.status && ltb 86400000 (now - tended.activity)) q tended
      (tend_rooms observed now rs) _ _
      (omega (arith, (tend_room-IsTended observed now r).1 q, tidy-count r q tidy))
      (tend-places observed now q rs h)

drop-far :
    (b : Bool) (key : Text) (x : LobbyRoom) (rest : List LobbyRoom)
    → text_eq x.id key ≡ false
    → All (λ y. text_eq y.id key ≡ false) rest
    → All (λ y. text_eq y.id key ≡ false) (if b then rest else x ∷ rest)
drop-far true key x rest h k = k
drop-far false key x rest h k = (h, k)

pub tend-far :
    (observed : Text → Option Snapshot) (now : ℕ) (key : Text) (rs : List LobbyRoom)
    → All (λ y. text_eq y.id key ≡ false) rs
    → All (λ y. text_eq y.id key ≡ false) (tend_rooms observed now rs)
tend-far observed now key [] h = tt
tend-far observed now key (r ∷ rs) (far, h) =
    let tended = tend_room observed now r in
    drop-far (is_closed tended.status && ltb 86400000 (now - tended.activity)) key tended
      (tend_rooms observed now rs)
      (subst (λ i. text_eq i key ≡ false) (sym (tend_room-IsTended observed now r).0) far)
      (tend-far observed now key rs h)

drop-keys :
    (b : Bool) (x : LobbyRoom) (rest : List LobbyRoom)
    → All (λ y. text_eq y.id x.id ≡ false) rest
    → HasDistinctKeys rest
    → HasDistinctKeys (if b then rest else x ∷ rest)
drop-keys true x rest h k = k
drop-keys false x rest h k = (h, k)

tend-keys :
    (observed : Text → Option Snapshot) (now : ℕ) (rs : List LobbyRoom)
    → HasDistinctKeys rs
    → HasDistinctKeys (tend_rooms observed now rs)
tend-keys observed now [] h = tt
tend-keys observed now (r ∷ rs) (far, h) =
    let tended = tend_room observed now r in
    drop-keys (is_closed tended.status && ltb 86400000 (now - tended.activity)) tended
      (tend_rooms observed now rs)
      (subst (λ i. All (λ y. text_eq y.id i ≡ false) (tend_rooms observed now rs))
        (sym (tend_room-IsTended observed now r).0) (tend-far observed now r.id rs far))
      (tend-keys observed now rs h)

keep-queued :
    (b : Bool) (q : Text) (x : Queued) (left : List Queued) (n : ℕ)
    → queue_places q left ≤ n
    → queue_places q (if b then x ∷ left else left) ≤ (if text_eq x.player q then suc n else n)
keep-queued true q x left n h = both-if (text_eq x.player q) _ n h
keep-queued false q x left n h = grow-if (text_eq x.player q) _ n h

fresh-fewer :
    (now : ℕ) (q : Text) (qs : List Queued)
    → queue_places q (fresh_queue now qs) ≤ queue_places q qs
fresh-fewer now q [] = omega arith
fresh-fewer now q (x ∷ qs) =
    keep-queued (ltb now (x.seen + 30000)) q x (fresh_queue now qs) _ (fresh-fewer now q qs)

-- Whatever the engine's snapshots say, tending the rooms keeps every player in one place, from a lobby
-- in which each is in one and no closed room has members.
pub tend-IsLobby :
    (observed : Text → Option Snapshot) (now : ℕ) (s : State)
    → All IsTidy s.rooms
    → IsLobby s
    → IsLobby (tend observed now s)
unfolding tend places
tend-IsLobby observed now s tidy h = record {
  placed = λ q.
      omega (arith, h.placed q, tend-places observed now q s.rooms tidy, fresh-fewer now q s.queue);
  keyed = tend-keys observed now s.rooms h.keyed;
}
