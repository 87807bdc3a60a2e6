-- ===== src/Rooms/Lobby/Routes.antt =====
-- The requests that change the lobby: the function that `route` gives to `transact`. The first test of
-- the function, on the health of the publication, is in `request`.
use pongit.Common.{
  ℕ, ◌==◌, ltb, leb, Bool, true, false, not, ◌&&◌, if◌then◌else◌, Result, ok, err, throw_if, ◌>>=◌,
  ◌>>◌, matchmaking_closed, opponent_found, rooms_closed, invitation_unavailable,
  invitation_expired, room_expired, reserved_invitation, room_full, room_unavailable, invalid_input,
  List, [], ◌∷◌, ◌++◌, map, length, Option, none, some, Text, text_eq,
}
use pongit.Rooms.Members.{RoomMember}
use pongit.Rooms.Lobby.{
  RoomKind, group, duel, LobbyOffer, LobbyRoom, InviteStatus, accepted, declined, Invitation,
  Queued, State, Context, Response, done, in_room, joined_room,
}
use pongit.Rooms.Lobby.Table.{
  is_closed, is_open_invite, has_member, is_queued, occupant, find_room, put_room, available,
  new_member, new_room, make_room, push_member, next_position, mode_of, invites_to, find_invite,
  invite_all, is_some,
}
use pongit.Rooms.Lobby.Acceptance.{is_offered, unique}

abbrev pub Reply : Type 0
Reply = Result (State × Response)

-- `online && admissionHealthy && ... && lifecycle.available()`
abbrev pub admits : Context → Bool
admits c = c.online && c.admission_healthy && c.admission_enabled && c.lifecycle_available

abbrev pub queued_entry : Context → Text → ℕ → Queued
queued_entry c p mode = record {
  player = p;
  mode = mode;
  elo = c.rating p mode;
  at = c.now;
  seen = c.now;
}

unfoldable pub join_queue : Context → State → Text → Option ℕ → Reply
join_queue c s p wanted = do
  mode ← mode_of c wanted
  if is_queued p s.queue then ok (s, done) else (do
    available s p
    throw_if (not (admits c)) matchmaking_closed
    ok (record s { queue = s.queue ++ (queued_entry c p mode ∷ []) }, done))

abbrev pub leave_queue : Text → List Queued → List Queued
leave_queue p [] = []
leave_queue p (q ∷ qs) =
    let rest = leave_queue p qs in if text_eq q.player p then rest else q ∷ rest

unfoldable pub cancel_queue : State → Text → Reply
cancel_queue s p = do
  throw_if (is_some (occupant s p)) opponent_found
  ok (record s { queue = leave_queue p s.queue }, done)

abbrev pub is_duel : RoomKind → Bool
is_duel duel = true
is_duel _ = false

abbrev pub is_group : RoomKind → Bool
is_group group = true
is_group _ = false

abbrev pub is_duel_room : ℕ → Option LobbyRoom → Bool
is_duel_room mode none = false
is_duel_room mode (some r) = is_duel r.kind && r.mode == mode

-- The target's own pending invitation to a duel of the mode.
abbrev pub mutual_invite : Context → State → Text → Text → ℕ → Invitation → Bool
mutual_invite c s p target mode i =
    text_eq i.creator target
    && text_eq i.recipient p
    && is_open_invite i.status
    && ltb c.now i.expires
    && is_duel_room mode (find_room i.room s.rooms)

-- An assignment to the status of the invitation with the id.
abbrev pub set_invite : Text → InviteStatus → Invitation → Invitation
set_invite id status i = if text_eq i.id id then record i { status = status } else i

abbrev pub set_invite_status : Text → InviteStatus → State → State
set_invite_status id status s = record s { invites = map (set_invite id status) s.invites }

abbrev pub enter_duel : Context → State → Text → Invitation → Option LobbyRoom → Reply
enter_duel c s p existing none = err invalid_input
enter_duel c s p existing (some r) = ok (
  set_invite_status existing.id accepted
      (put_room (record (push_member (new_member p c.now 1 c.now) r) { activity = c.now }) s),
  in_room r.id,
)

-- The invitation is accepted by inviting back.
unfoldable pub accept_invite : Context → State → Text → Text → Invitation → Reply
accept_invite c s p target existing = do
  available s p
  throw_if (c.blocked p target) invitation_unavailable
  enter_duel c s p existing (find_room existing.room s.rooms)

unfoldable pub create_room : Context → State → Text → RoomKind → ℕ → List Text → Reply
create_room c s p kind mode recipients = do
  available s p
  throw_if (not (admits c)) rooms_closed
  throw_if (ltb 7 (length recipients)) invalid_input
  invited ← invite_all c (new_room c p kind mode) p (unique recipients) (make_room c s p kind mode)
  ok (invited, in_room c.room_id)

abbrev pub invite_back : Context → State → Text → Text → ℕ → Option Invitation → Reply
invite_back c s p target mode (some existing) = accept_invite c s p target existing
invite_back c s p target mode none = create_room c s p duel mode (target ∷ [])

unfoldable pub open_duel : Context → State → Text → Option ℕ → Text → Reply
open_duel c s p wanted target = do
  mode ← mode_of c wanted
  invite_back c s p target mode (find_invite (mutual_invite c s p target mode) s.invites)

unfoldable pub open_group : Context → State → Text → Option ℕ → List Text → Reply
open_group c s p wanted players = do mode ← mode_of c wanted; create_room c s p group mode players

abbrev pub declinable : Text → Text → Invitation → Bool
declinable p id i = text_eq i.id id && text_eq i.recipient p && is_open_invite i.status

abbrev pub decline_found : State → Option Invitation → Reply
decline_found s none = err invitation_expired
decline_found s (some i) = ok (set_invite_status i.id declined s, done)

unfoldable pub decline_invite : State → Text → Text → Reply
decline_invite s p id = decline_found s (find_invite (declinable p id) s.invites)

abbrev pub capacity_of : RoomKind → ℕ
capacity_of kind = if is_group kind then 8 else 2

abbrev pub any_blocked : Context → Text → List RoomMember → Bool
any_blocked c p [] = false
any_blocked c p (m ∷ ms) =
    let rest = any_blocked c p ms in if c.blocked p m.player then true else rest

abbrev pub claim_host : Text → LobbyRoom → LobbyRoom
claim_host p r = record r { host = if text_eq r.host [] then p else r.host }

-- The pending invitations of the player to the room, expired or not.
abbrev pub take_invite : Text → Text → Invitation → Invitation
take_invite room p i =
    if text_eq i.room room && text_eq i.recipient p && is_open_invite i.status
    then record i { status = accepted }
    else i

abbrev pub fresh_offer : Option LobbyOffer → Bool
fresh_offer none = true
fresh_offer (some offer) = is_offered offer.status

abbrev pub enter_room : Context → State → Text → LobbyRoom → State × Response
enter_room c s p r =
    let joined =
      record (claim_host p (push_member (new_member p c.now (next_position r.members) c.now) r)) {
        activity = c.now;
      } in
    let placed = put_room joined s in
    (
      record placed { invites = map (take_invite r.id p) placed.invites },
      joined_room r.id (length joined.members == 2 && fresh_offer r.offer),
    )

abbrev pub join_found : Context → State → Text → Option LobbyRoom → Reply
join_found c s p none = err room_expired
join_found c s p (some r) = do
  throw_if (is_closed r.status) room_expired
  if has_member p r.members then ok (s, in_room r.id) else (do
    available s p
    throw_if
        (not (is_group r.kind) && not (is_some (find_invite (invites_to c.now r.id p) s.invites)))
        reserved_invitation
    throw_if (leb (capacity_of r.kind) (length r.members)) room_full
    throw_if (any_blocked c p r.members) room_unavailable
    ok (enter_room c s p r))

unfoldable pub join_room : Context → State → Text → Text → Reply
join_room c s p room = join_found c s p (find_room room s.rooms)
