-- ===== src/Rooms/Lobby/Seated.antt =====
-- The requests of a player in a room keep each player in one place; so does every request.
use pongit.Common.{
  ℕ, suc, ◌+◌, ◌*◌, ◌≤◌, ◌≡◌, refl, Bool, true, false, not, ◌&&◌, ◌||◌, arith, leb, ◌==◌,
  if◌then◌else◌, ok, Ensures, Ensures-bind, Ensures-throw, Ensures-ok, Ensures-if, ◌>>=◌,
  match_started, acceptance_submitted, receipt_mismatch, duel_not_readable, duel_expired,
  countdown_missing, concede_first, cancel_first, publication_unavailable, List, [], ◌∷◌, map,
  Option, none, some, Text, text_eq,
}
use pongit.Rooms.Members.{RoomMember, last_position}
use pongit.Rooms.Lobby.{
  LobbyOffer, LobbyRoom, State, Evidence, Context, Request, queue_up, queue_cancel, rejoin, leave,
  open_room, invite_player, decline, join, invite_here, ready_up, back_out, accept_offer,
}
use pongit.Rooms.Lobby.Table.{
  is_closed, has_member, find_occupied, find_room, occupant, put_room, invite,
}
use pongit.Rooms.Lobby.Acceptance.{prepare_room_launch, assert_room_launch_ready, plays}
use pongit.Rooms.Lobby.Routes.{Reply}
use pongit.Rooms.Lobby.Seat.{
  rejoin_room, check_evidence, check_offer, put_offer, ready_offer, accept_receipt, accept_intent,
  accept_unstarted, accept_duel, is_active, is_cancelled, back_from_duel, remove_member, drop_offer,
  leave_room, invite_player_here, in_seat, dispatch, request, needs_publication, confirms, set_away,
  come_back,
}
use pongit.Rooms.Lobby.Places.{count_member, IsLobby, In, find_occupied-In}
use pongit.Rooms.Lobby.Moves.{put-IsLobby}
use pongit.Rooms.Lobby.Safety.{
  LobbyAfter, Keeps, same-IsLobby, invite-same, SamePlaces, join_queue-IsLobby,
  cancel_queue-IsLobby, open_group-IsLobby, open_duel-IsLobby, decline_invite-IsLobby,
  join_room-IsLobby, grow-if, both-if,
}

closed-le : (b : Bool) (m n : ℕ) → m ≤ n → (if b then 0 else m) ≤ (if b then 0 else n)
closed-le true m n h = omega arith
closed-le false m n h = h

-- What keeps the players keeps the counts.
pub count-map :
    (f : RoomMember → RoomMember)
    → ((m : RoomMember) → (f m).player ≡ m.player)
    → (q : Text) (ms : List RoomMember) → count_member q (map f ms) ≡ count_member q ms
count-map f keeps q [] = refl
count-map f keeps q (m ∷ ms) = let rest = count-map f keeps q ms in rw (keeps m) (rw rest refl)

pub choose-player :
    (b : Bool) (m new : RoomMember)
    → new.player ≡ m.player
    → (if b then new else m).player ≡ m.player
choose-player true m new h = h
choose-player false m new h = refl

open-le : (b : Bool) (m n : ℕ) → b ≡ false → m ≤ n → m ≤ (if b then 0 else n)
open-le true m n e h = absurd (cc)
open-le false m n e h = h

drop-member :
    (b : Bool) (q : Text) (m : RoomMember) (left : List RoomMember) (n : ℕ)
    → count_member q left ≤ n
    → count_member q (if b then left else m ∷ left) ≤ (if text_eq m.player q then suc n else n)
drop-member true q m left n h = grow-if (text_eq m.player q) _ n h
drop-member false q m left n h = both-if (text_eq m.player q) _ n h

remove-fewer :
    (p q : Text) (ms : List RoomMember) → count_member q (remove_member p ms) ≤ count_member q ms
remove-fewer p q [] = omega arith
remove-fewer p q (m ∷ ms) =
    drop-member (text_eq m.player p) q m (remove_member p ms) _ (remove-fewer p q ms)

module _ (c : Context) (s : State) (p : Text) (h : IsLobby s) (r : LobbyRoom) (at : In r s.rooms)
    (opened : is_closed r.status ≡ false) where
  same-room :
      (new : LobbyRoom)
      → new.id ≡ r.id
      → new.status ≡ r.status
      → new.members ≡ r.members
      → IsLobby (put_room new s)
  same-room new e f g = put-IsLobby s r new h at e λ q. rw f (rw g (omega arith))

  put_offer-IsLobby : (offer : LobbyOffer) → IsLobby (put_offer offer r s)
  put_offer-IsLobby offer = same-room (record r { offer = some offer }) refl refl refl

  rejoin-IsLobby : Keeps (rejoin_room c s p r)
  unfolding rejoin_room
  rejoin-IsLobby = put-IsLobby s r _ h at refl λ q. closed-le (is_closed r.status) _ _ (
      omega (
        arith,
        count-map (come_back c.now (last_position r.members + 1) p)
            (λ m. choose-player (text_eq m.player p) m _ refl) q r.members,
      ))

  with-offer :
      (id : Text) (rest : LobbyOffer → Evidence → Reply)
      → ((offer : LobbyOffer) (e : Evidence) → Keeps (rest offer e))
      → Keeps (
          check_offer p id r.offer >>= λ offer.
          check_evidence c.now r offer c.evidence >>= λ e. rest offer e)
  with-offer id rest k = Ensures-bind LobbyAfter (check_offer p id r.offer) _ λ offer _.
      Ensures-bind LobbyAfter (check_evidence c.now r offer c.evidence) _ λ e _. k offer e

  ready-IsLobby : (id : Text) → Keeps (ready_offer c s p r id)
  unfolding ready_offer
  ready-IsLobby id = with-offer id _ λ offer e.
      Ensures-if LobbyAfter (leb 2 e.phase) _ _ (λ _. h)
        λ _.
          Ensures-bind LobbyAfter (prepare_room_launch offer p c.now) _
            λ launched _. put_offer-IsLobby launched

  receipt-IsLobby :
      (offer : LobbyOffer) (e : Evidence) (hash : Text)
      → Keeps (accept_receipt c s p r offer e hash)
  receipt-IsLobby offer e hash =
      Ensures-throw LobbyAfter (not (confirms c offer p hash e.receipt)) receipt_mismatch _
        λ _. Ensures-throw LobbyAfter (e.phase == 0) duel_not_readable _ λ _. put_offer-IsLobby _

  intent-IsLobby :
      (offer : LobbyOffer) (e : Evidence) (countdown : Bool)
      → Keeps (accept_intent c s p r offer e countdown)
  intent-IsLobby offer e countdown =
      let cleared : LobbyOffer = if e.phase == 0 then record offer { accepted = [] } else offer in
      Ensures-throw LobbyAfter
        (is_cancelled cleared.status || leb 3 e.phase || leb (cleared.expires * 1000) c.now)
        duel_expired _
        λ _. Ensures-throw LobbyAfter (not countdown) countdown_missing _ λ _.
          Ensures-bind LobbyAfter (assert_room_launch_ready cleared c.now) _
            λ _ _. put_offer-IsLobby cleared

  unstarted-IsLobby :
      (offer : LobbyOffer) (e : Evidence) (hash : Option Text) (countdown : Bool)
      → Keeps (accept_unstarted c s p r offer e hash countdown)
  unstarted-IsLobby offer e (some hash) countdown = receipt-IsLobby offer e hash
  unstarted-IsLobby offer e none countdown = intent-IsLobby offer e countdown

  accept-IsLobby :
      (id : Text) (hash : Option Text) (countdown : Bool)
      → Keeps (accept_duel c s p r id hash countdown)
  unfolding accept_duel
  accept-IsLobby id hash countdown = with-offer id _ λ offer e.
      Ensures-if LobbyAfter (e.phase == 2) _ _ (λ _. put_offer-IsLobby _)
        λ _. unstarted-IsLobby offer e hash countdown

  back-IsLobby : (id : Text) → Keeps (back_from_duel c s p r id)
  unfolding back_from_duel
  back-IsLobby id = with-offer id _ λ offer e.
      Ensures-throw LobbyAfter (e.phase == 2 || is_active offer.status) match_started _ λ _.
        Ensures-throw LobbyAfter (e.phase == 1) acceptance_submitted _ λ _.
          put-IsLobby s r _ h at refl λ q. open-le (is_closed r.status) _ _ opened (
            omega (
              arith,
              count-map (set_away p) (λ m. choose-player (text_eq m.player p) m _ refl) q r.members,
            ))

  abbrev SameRoom : LobbyRoom → Type 0
  SameRoom dropped = (dropped.id ≡ r.id) × (dropped.status ≡ r.status)

  drop-same : (found : Option LobbyOffer) → Ensures SameRoom (drop_offer c p r found)
  drop-same none = (refl, refl)
  drop-same (some offer) =
      Ensures-if SameRoom (not (plays offer p)) _ _ (λ _. (refl, refl))
        λ _. Ensures-bind SameRoom (check_evidence c.now r offer c.evidence) _ λ e _.
          Ensures-throw SameRoom (e.phase == 2) concede_first _
            λ _. Ensures-throw SameRoom (e.phase == 1) cancel_first (ok _) λ _. (refl, refl)

  leave-IsLobby : Keeps (leave_room c s p r)
  unfolding leave_room
  leave-IsLobby = Ensures-bind LobbyAfter (drop_offer c p r r.offer) _ λ dropped e.
      let (key, status) = Ensures-ok SameRoom (drop_offer c p r r.offer) (drop-same r.offer) e in
      put-IsLobby s r _ h at key
        λ q. rw status (closed-le (is_closed r.status) _ _ (remove-fewer p q r.members))

  invite_here-IsLobby : (target : Text) → Keeps (invite_player_here c s p r target)
  unfolding invite_player_here
  invite_here-IsLobby target = Ensures-bind LobbyAfter (invite c s r p target) _ λ t e.
      let (rooms, queue) =
        Ensures-ok (SamePlaces s) (invite c s r p target) (invite-same c s r p target) e in
      same-IsLobby s t rooms queue h

seat-Keeps :
    (s : State) (p : Text) (act : LobbyRoom → Reply)
    → ((r : LobbyRoom) → In r s.rooms → is_closed r.status ≡ false → Keeps (act r))
    → Keeps (in_seat (occupant s p) act)
unfolding occupant
seat-Keeps s p act k = seated (find_occupied p s.rooms) refl
  where
    not-closed : (b rest : Bool) → (not b && rest) ≡ true → b ≡ false
    not-closed true rest e = absurd (cc)
    not-closed false rest e = refl

    seated :
        (found : Option LobbyRoom) → find_occupied p s.rooms ≡ found → Keeps (in_seat found act)
    seated none e = tt
    seated (some r) e =
        let (at, housed) = find_occupied-In p s.rooms e in
        k r at (not-closed (is_closed r.status) (has_member p r.members) housed)

dispatch-IsLobby :
    (c : Context) (s : State) (p : Text) (r : Request)
    → IsLobby s
    → find_room c.room_id s.rooms ≡ none
    → Keeps (dispatch c s p r)
dispatch-IsLobby c s p (queue_up mode) h fresh = join_queue-IsLobby c s p mode h
dispatch-IsLobby c s p queue_cancel h fresh = cancel_queue-IsLobby s p h
dispatch-IsLobby c s p (open_room mode players) h fresh =
    open_group-IsLobby c s p mode players h fresh
dispatch-IsLobby c s p (invite_player mode target) h fresh =
    open_duel-IsLobby c s p mode target h fresh
dispatch-IsLobby c s p (decline id) h fresh = decline_invite-IsLobby s p id h
dispatch-IsLobby c s p (join room) h fresh = join_room-IsLobby c s p room h
dispatch-IsLobby c s p (invite_here target) h fresh =
    seat-Keeps s p _ λ r at opened. invite_here-IsLobby c s p h r at opened target
dispatch-IsLobby c s p rejoin h fresh =
    seat-Keeps s p _ λ r at opened. rejoin-IsLobby c s p h r at opened
dispatch-IsLobby c s p (ready_up id) h fresh =
    seat-Keeps s p _ λ r at opened. ready-IsLobby c s p h r at opened id
dispatch-IsLobby c s p (accept_offer id hash countdown) h fresh =
    seat-Keeps s p _ λ r at opened. accept-IsLobby c s p h r at opened id hash countdown
dispatch-IsLobby c s p (back_out id) h fresh =
    seat-Keeps s p _ λ r at opened. back-IsLobby c s p h r at opened id
dispatch-IsLobby c s p leave h fresh =
    seat-Keeps s p _ λ r at opened. leave-IsLobby c s p h r at opened

-- From a lobby in which every player is in one place at most (in one room that is not closed, or once
-- in the queue) and the keys of the rooms are distinct, every request that returns, of any player and
-- on any evidence, leads to such a lobby, provided that the random id of a new room is not a key yet.
pub request-IsLobby :
    (c : Context) (s : State) (p : Text) (r : Request)
    → IsLobby s
    → find_room c.room_id s.rooms ≡ none
    → Keeps (request c s p r)
unfolding request
request-IsLobby c s p r h fresh =
    Ensures-throw LobbyAfter (c.publication_failed && needs_publication r) publication_unavailable _
      λ _. dispatch-IsLobby c s p r h fresh
