-- ===== src/Rooms/Lobby/Seat.antt =====
-- The requests of a player who is in a room: rejoin, the offer's, and leave.
use pongit.Common.{
  ℕ, ◌+◌, ◌-◌, ◌*◌, ◌==◌, ltb, leb, Bool, true, false, not, ◌&&◌, ◌||◌, if◌then◌else◌, Result, ok,
  err, throw_if, ◌>>=◌, ◌>>◌, publication_unavailable, not_in_room, duel_unavailable, room_changed,
  receipt_mismatch, duel_not_readable, duel_expired, countdown_missing, match_started,
  acceptance_submitted, concede_first, cancel_first, List, [], ◌∷◌, ◌++◌, map, Option, none, some,
  Text, text_eq,
}
use pongit.Rooms.Members.{RoomMember, last_position}
use pongit.Rooms.Lobby.{
  waiting, OfferStatus, active, cancelled, LobbyOffer, LobbyRoom, State, Evidence, Receipt, Context,
  Request, queue_up, queue_cancel, rejoin, leave, open_room, invite_player, decline, join,
  invite_here, ready_up, back_out, accept_offer, done, offer_view,
}
use pongit.Rooms.Lobby.Table.{occupant, put_room, invite}
use pongit.Rooms.Lobby.Acceptance.{
  includes, is_offered, plays, prepare_room_launch, assert_room_launch_ready,
  confirms_room_acceptance,
}
use pongit.Rooms.Lobby.Routes.{
  Reply, join_queue, cancel_queue, open_group, open_duel, decline_invite, join_room,
}

abbrev pub come_back : ℕ → ℕ → Text → RoomMember → RoomMember
come_back now position p m =
    if text_eq m.player p then record m { away = false; seen = now; position = position } else m

unfoldable pub rejoin_room : Context → State → Text → LobbyRoom → Reply
rejoin_room c s p r = ok (
  put_room
      (record r {
        members = map (come_back c.now (last_position r.members + 1) p) r.members;
        activity = c.now;
      })
      s,
  done,
)

-- `verifiedEvidence`: the evidence is of the room and of its offer, and at most two seconds old.
abbrev pub check_evidence : ℕ → LobbyRoom → LobbyOffer → Option Evidence → Result Evidence
check_evidence now room offer none = err room_changed
check_evidence now room offer (some e) = do
  throw_if
      (not (text_eq e.room room.id)
        || not (text_eq e.id offer.id)
        || not (text_eq e.signature offer.signature)
        || ltb 2000 (now - e.at))
      room_changed
  ok e

abbrev pub put_offer : LobbyOffer → LobbyRoom → State → State
put_offer offer r s = put_room (record r { offer = some offer }) s

-- `if (offer && offer.id === id && [offer.a, offer.b].includes(p))`
abbrev pub check_offer : Text → Text → Option LobbyOffer → Result LobbyOffer
check_offer p id none = err duel_unavailable
check_offer p id (some offer) = do
  throw_if (not (text_eq offer.id id) || not (plays offer p)) duel_unavailable
  ok offer

unfoldable pub ready_offer : Context → State → Text → LobbyRoom → Text → Reply
ready_offer c s p r id = do
  offer ← check_offer p id r.offer
  e ← check_evidence c.now r offer c.evidence
  if leb 2 e.phase then ok (s, offer_view offer (e.phase == 2)) else (do
    launched ← prepare_room_launch offer p c.now
    ok (put_offer launched r s, offer_view launched false))

abbrev pub add_accepted : Text → List Text → List Text
add_accepted p ps = if includes p ps then ps else ps ++ (p ∷ [])

abbrev pub confirms : Context → LobbyOffer → Text → Text → Option Receipt → Bool
confirms c offer p hash none = false
confirms c offer p hash (some receipt) =
    confirms_room_acceptance c.decode_event_log c.app offer p receipt hash

-- With the hash of a receipt: the acceptance is on the engine.
abbrev pub accept_receipt :
    Context → State → Text → LobbyRoom → LobbyOffer → Evidence → Text → Reply
accept_receipt c s p r offer e hash = do
  throw_if (not (confirms c offer p hash e.receipt)) receipt_mismatch
  throw_if (e.phase == 0) duel_not_readable
  let taken = record offer { accepted = add_accepted p offer.accepted }
  ok (put_offer taken r s, offer_view taken true)

abbrev pub is_cancelled : OfferStatus → Bool
is_cancelled cancelled = true
is_cancelled _ = false

-- Without one: the player may send the acceptance to the engine.
abbrev pub accept_intent : Context → State → Text → LobbyRoom → LobbyOffer → Evidence → Bool → Reply
accept_intent c s p r offer e countdown = do
  let cleared = if e.phase == 0 then record offer { accepted = [] } else offer
  throw_if (is_cancelled cleared.status || leb 3 e.phase || leb (cleared.expires * 1000) c.now)
      duel_expired
  throw_if (not countdown) countdown_missing
  assert_room_launch_ready cleared c.now
  ok (put_offer cleared r s, offer_view cleared (includes p cleared.accepted))

abbrev pub accept_unstarted :
    Context → State → Text → LobbyRoom → LobbyOffer → Evidence → Option Text → Bool → Reply
accept_unstarted c s p r offer e (some hash) countdown = accept_receipt c s p r offer e hash
accept_unstarted c s p r offer e none countdown = accept_intent c s p r offer e countdown

unfoldable pub accept_duel : Context → State → Text → LobbyRoom → Text → Option Text → Bool → Reply
accept_duel c s p r id hash countdown = do
  offer ← check_offer p id r.offer
  e ← check_evidence c.now r offer c.evidence
  let started = record offer { accepted = offer.a ∷ offer.b ∷ [] }
  if e.phase == 2
      then ok (put_offer started r s, offer_view started true)
      else accept_unstarted c s p r offer e hash countdown

abbrev pub is_active : OfferStatus → Bool
is_active active = true
is_active _ = false

abbrev pub set_away : Text → RoomMember → RoomMember
set_away p m = if text_eq m.player p then record m { away = true } else m

unfoldable pub back_from_duel : Context → State → Text → LobbyRoom → Text → Reply
back_from_duel c s p r id = do
  offer ← check_offer p id r.offer
  e ← check_evidence c.now r offer c.evidence
  throw_if (e.phase == 2 || is_active offer.status) match_started
  throw_if (e.phase == 1) acceptance_submitted
  ok (
    put_room
        (record r {
          members = map (set_away p) r.members;
          offer = some (record offer { status = cancelled });
          status = waiting;
        })
        s,
    done,
  )

abbrev pub remove_member : Text → List RoomMember → List RoomMember
remove_member p [] = []
remove_member p (m ∷ ms) =
    let rest = remove_member p ms in if text_eq m.player p then rest else m ∷ rest

abbrev pub first_joined : RoomMember → List RoomMember → RoomMember
first_joined best [] = best
first_joined best (m ∷ ms) =
    if ltb m.joined best.joined then first_joined m ms else first_joined best ms

-- The member who joined first, the earliest in the list where several did; "" without members.
abbrev pub eldest : List RoomMember → Text
eldest [] = []
eldest (m ∷ ms) = (first_joined m ms).player

abbrev pub pass_host : Text → LobbyRoom → LobbyRoom
pass_host p r = record r { host = if text_eq r.host p then eldest r.members else r.host }

abbrev pub withdrawn : LobbyOffer → LobbyOffer
withdrawn offer = record offer {
  status = if is_offered offer.status then cancelled else offer.status;
}

-- A duellist leaves only where the engine has no match of the offer.
abbrev pub drop_offer : Context → Text → LobbyRoom → Option LobbyOffer → Result LobbyRoom
drop_offer c p r none = ok r
drop_offer c p r (some offer) = if not (plays offer p) then ok r else (do
  e ← check_evidence c.now r offer c.evidence
  throw_if (e.phase == 2) concede_first
  throw_if (e.phase == 1) cancel_first
  ok (record r { offer = some (withdrawn offer) }))

unfoldable pub leave_room : Context → State → Text → LobbyRoom → Reply
leave_room c s p r = do
  dropped ← drop_offer c p r r.offer
  ok (
    put_room
        (pass_host p (record dropped { members = remove_member p r.members; activity = c.now })) s,
    done,
  )

unfoldable pub invite_player_here : Context → State → Text → LobbyRoom → Text → Reply
invite_player_here c s p r target = do invited ← invite c s r p target; ok (invited, done)

abbrev pub in_seat : Option LobbyRoom → (LobbyRoom → Reply) → Reply
in_seat none act = err not_in_room
in_seat (some r) act = act r

abbrev pub dispatch : Context → State → Text → Request → Reply
dispatch c s p (queue_up mode) = join_queue c s p mode
dispatch c s p queue_cancel = cancel_queue s p
dispatch c s p (open_room mode players) = open_group c s p mode players
dispatch c s p (invite_player mode target) = open_duel c s p mode target
dispatch c s p (decline id) = decline_invite s p id
dispatch c s p (join room) = join_room c s p room
dispatch c s p (invite_here target) = in_seat (occupant s p) λ r. invite_player_here c s p r target
dispatch c s p rejoin = in_seat (occupant s p) λ r. rejoin_room c s p r
dispatch c s p (ready_up id) = in_seat (occupant s p) λ r. ready_offer c s p r id
dispatch c s p (accept_offer id hash countdown) =
    in_seat (occupant s p) λ r. accept_duel c s p r id hash countdown
dispatch c s p (back_out id) = in_seat (occupant s p) λ r. back_from_duel c s p r id
dispatch c s p leave = in_seat (occupant s p) λ r. leave_room c s p r

-- The paths that need the publication.
abbrev pub needs_publication : Request → Bool
needs_publication (queue_up mode) = true
needs_publication (open_room mode players) = true
needs_publication (invite_player mode target) = true
needs_publication (ready_up id) = true
needs_publication (accept_offer id hash countdown) = true
needs_publication _ = false

unfoldable pub request : Context → State → Text → Request → Reply
request c s p r = do
  throw_if (c.publication_failed && needs_publication r) publication_unavailable
  dispatch c s p r
