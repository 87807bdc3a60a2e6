-- ===== src/Rooms/Lobby/Table.antt =====
-- The rooms by their key, the room that a player is in, and the local functions `available`,
-- `makeRoom`, `invite` and `modeOf`.
use pongit.Common.{
  ℕ, ◌+◌, ◌==◌, ltb, leb, Bool, true, false, not, ◌&&◌, ◌||◌, if◌then◌else◌, Result, ok, throw_if,
  ◌>>=◌, ◌>>◌, already_placed, chaos_not_open, invalid_input, invitation_refused, invitation_limit,
  invitation_repeated, List, [], ◌∷◌, ◌++◌, map, length, Option, none, some, Text, text_eq,
}
use pongit.Rooms.Members.{RoomMember, last_position}
use pongit.Rooms.Lobby.{
  RoomKind, LobbyRoom, RoomStatus, waiting, closed, InviteStatus, pending, Invitation, Queued,
  State, Context,
}

abbrev pub is_closed : RoomStatus → Bool
is_closed closed = true
is_closed _ = false

abbrev pub is_open_invite : InviteStatus → Bool
is_open_invite pending = true
is_open_invite _ = false

-- `r.members.some(m => m.player === p)`
abbrev pub has_member : Text → List RoomMember → Bool
has_member p [] = false
has_member p (m ∷ ms) = let rest = has_member p ms in if text_eq m.player p then true else rest

abbrev pub is_queued : Text → List Queued → Bool
is_queued p [] = false
is_queued p (q ∷ qs) = let rest = is_queued p qs in if text_eq q.player p then true else rest

abbrev pub houses : Text → LobbyRoom → Bool
houses p r = not (is_closed r.status) && has_member p r.members

abbrev pub find_occupied : Text → List LobbyRoom → Option LobbyRoom
find_occupied p [] = none
find_occupied p (r ∷ rs) = let rest = find_occupied p rs in if houses p r then some r else rest

unfoldable pub occupant : State → Text → Option LobbyRoom
occupant s p = find_occupied p s.rooms

-- `s.rooms[id]`
abbrev pub find_room : Text → List LobbyRoom → Option LobbyRoom
find_room id [] = none
find_room id (r ∷ rs) = let rest = find_room id rs in if text_eq r.id id then some r else rest

-- The room of a key is assigned.
abbrev pub set_room : LobbyRoom → LobbyRoom → LobbyRoom
set_room new r = if text_eq r.id new.id then new else r

abbrev pub put_room : LobbyRoom → State → State
put_room new s = record s { rooms = map (set_room new) s.rooms }

abbrev pub is_some : {A : Type 0} → Option A → Bool
is_some none = false
is_some (some a) = true

unfoldable pub available : State → Text → Result (Unit {0})
available s p = throw_if (is_some (occupant s p) || is_queued p s.queue) already_placed

abbrev pub new_member : Text → ℕ → ℕ → ℕ → RoomMember
new_member p joined position seen = record {
  player = p;
  joined = joined;
  position = position;
  away = false;
  seen = seen;
}

abbrev pub new_room : Context → Text → RoomKind → ℕ → LobbyRoom
new_room c p kind mode = record {
  id = c.room_id;
  host = p;
  kind = kind;
  mode = mode;
  members = new_member p c.now 0 c.now ∷ [];
  offer = none;
  winner = none;
  status = waiting;
  created = c.now;
  activity = c.now;
}

-- The id is random: the new room takes a new key.
unfoldable pub make_room : Context → State → Text → RoomKind → ℕ → State
make_room c s p kind mode = record s { rooms = s.rooms ++ (new_room c p kind mode ∷ []) }

abbrev pub push_member : RoomMember → LobbyRoom → LobbyRoom
push_member m r = record r { members = r.members ++ (m ∷ []) }

-- `Math.max(-1, ...positions) + 1`
abbrev pub next_position : List RoomMember → ℕ
next_position [] = 0
next_position (m ∷ ms) = last_position (m ∷ ms) + 1

unfoldable pub mode_of : Context → Option ℕ → Result ℕ
mode_of c none = ok 0
mode_of c (some mode) = do
  throw_if (ltb 1 mode) invalid_input
  throw_if (mode == 1 && (not c.chaos_enabled || not c.chaos_open)) chaos_not_open
  ok mode

-- A pending invitation to the room that has not expired.
abbrev pub invites_to : ℕ → Text → Text → Invitation → Bool
invites_to now room p i =
    text_eq i.room room && text_eq i.recipient p && is_open_invite i.status && ltb now i.expires

abbrev pub find_invite : (Invitation → Bool) → List Invitation → Option Invitation
find_invite f [] = none
find_invite f (i ∷ is) = let rest = find_invite f is in if f i then some i else rest

abbrev pub count_invites : (Invitation → Bool) → List Invitation → ℕ
count_invites f [] = 0
count_invites f (i ∷ is) = let rest = count_invites f is in if f i then rest + 1 else rest

abbrev pub sent_by : ℕ → Text → Invitation → Bool
sent_by now p i = text_eq i.creator p && ltb now i.expires

abbrev pub sent_to : ℕ → Text → Text → Invitation → Bool
sent_to now p target i = text_eq i.creator p && text_eq i.recipient target && ltb now i.expires

abbrev pub send_invite :
    Context → State → LobbyRoom → Text → Text → Option Invitation → Result State
send_invite c s r p target (some existing) = ok s
send_invite c s r p target none = do
  throw_if (leb 20 (count_invites (sent_by c.now p) s.invites)) invitation_limit
  throw_if (leb 3 (count_invites (sent_to c.now p target) s.invites)) invitation_repeated
  ok (record s {
    invites =
        s.invites
        ++ (record {
          id = c.invite_id (length s.invites);
          room = r.id;
          creator = p;
          recipient = target;
          expires = c.now + 600000;
          status = pending;
        }
            ∷ []);
  })

unfoldable pub invite : Context → State → LobbyRoom → Text → Text → Result State
invite c s r p target = do
  throw_if (text_eq target p || c.blocked p target) invitation_refused
  send_invite c s r p target (find_invite (invites_to c.now r.id target) s.invites)

-- `for (const target of new Set(recipients)) await invite(...)`
abbrev pub invite_all : Context → LobbyRoom → Text → List Text → State → Result State
invite_all c r p [] s = ok s
invite_all c r p (target ∷ targets) s = invite c s r p target >>= invite_all c r p targets
