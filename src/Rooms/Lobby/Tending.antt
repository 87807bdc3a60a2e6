-- ===== src/Rooms/Lobby/Tending.antt =====
-- The first half of what `maintenance` does to the lobby: old entries and invitations go, and each room
-- follows the engine's snapshot of its offer, or closes.
use pongit.Common.{
  ℕ, ◌+◌, ◌-◌, ◌*◌, ◌==◌, ltb, leb, Bool, true, false, not, ◌&&◌, ◌||◌, if◌then◌else◌, List, [],
  ◌∷◌, map, Option, none, some, Text, to_lower_case,
}
use pongit.Rooms.Members.{RoomMember, rotate_members}
use pongit.Rooms.Lobby.{
  LobbyOffer, OfferStatus, active, complete, cancelled, LobbyRoom, waiting, playing, closed,
  expired, Invitation, Queued, State,
}
use pongit.Rooms.Lobby.Table.{is_closed, is_open_invite}
use pongit.Rooms.Lobby.Acceptance.{includes, plays, expire_unstarted_room_offer}
use pongit.Rooms.Lobby.Seat.{is_active}

-- The third number of the engine's snapshot, and the winner in it.
pub record Snapshot : Type 0 where
  pub phase : ℕ
  pub winner : Text

-- `Number(now - q.seen) < 30000`
abbrev pub fresh_queue : ℕ → List Queued → List Queued
fresh_queue now [] = []
fresh_queue now (q ∷ qs) =
    let rest = fresh_queue now qs in if ltb now (q.seen + 30000) then q ∷ rest else rest

abbrev pub expire_invite : ℕ → Invitation → Invitation
expire_invite now i =
    if leb i.expires now && is_open_invite i.status then record i { status = expired } else i

-- Invitations stay for ten minutes after they expire.
abbrev pub recent_invites : ℕ → List Invitation → List Invitation
recent_invites now [] = []
recent_invites now (i ∷ is) =
    let rest = recent_invites now is in
    if ltb now (i.expires + 600000) then expire_invite now i ∷ rest else rest

-- `["complete", "cancelled"].includes(status)`
abbrev pub is_over : OfferStatus → Bool
is_over complete = true
is_over cancelled = true
is_over _ = false

-- A duellist who has not accepted an offer that ran out.
abbrev pub absent_away : LobbyOffer → RoomMember → RoomMember
absent_away offer m =
    if plays offer m.player && not (includes m.player offer.accepted)
    then record m { away = true }
    else m

abbrev pub start_match : LobbyOffer → LobbyRoom → LobbyRoom
start_match offer r = record r {
  offer = some (record offer { accepted = offer.a ∷ offer.b ∷ []; status = active });
  status = playing;
}

abbrev pub finish_match : ℕ → LobbyOffer → Snapshot → LobbyRoom → LobbyRoom
finish_match now offer snap r = record r {
  offer = some (record offer { status = complete });
  status = waiting;
  activity = now;
  winner = some (to_lower_case snap.winner);
  members = rotate_members r.members offer.a offer.b (to_lower_case snap.winner);
}

abbrev pub cancel_match : ℕ → LobbyOffer → Snapshot → LobbyRoom → LobbyRoom
cancel_match now offer snap r = record r {
  offer = some (record offer { status = cancelled });
  status = waiting;
  activity = now;
  winner = none;
  members =
      if snap.phase == 4 && ltb (offer.expires * 1000) now
      then map (absent_away offer) r.members
      else r.members;
}

abbrev pub follow : ℕ → LobbyOffer → Option Snapshot → LobbyRoom → LobbyRoom
follow now offer none r = r
follow now offer (some snap) r =
    if snap.phase == 2
    then start_match offer r
    else if leb 3 snap.phase && not (is_over offer.status)
    then (if snap.phase == 3 then finish_match now offer snap r else cancel_match now offer snap r)
    else r

abbrev pub phase_of : Option Snapshot → Option ℕ
phase_of none = none
phase_of (some snap) = some snap.phase

abbrev pub follow_offer : (Text → Option Snapshot) → ℕ → Option LobbyOffer → LobbyRoom → LobbyRoom
follow_offer observed now none r = r
follow_offer observed now (some offer) r =
    let snap = observed offer.id in
    (expire_unstarted_room_offer (follow now offer snap r) (phase_of snap) now).0

abbrev is_empty : List RoomMember → Bool
is_empty [] = true
is_empty (m ∷ ms) = false

abbrev offer_active : Option LobbyOffer → Bool
offer_active none = false
offer_active (some offer) = is_active offer.status

-- Empty for half an hour, or without an active match for a day.
abbrev pub is_stale : ℕ → LobbyRoom → Bool
is_stale now r =
    is_empty r.members && ltb 1800000 (now - r.activity)
    || not (offer_active r.offer) && ltb 86400000 (now - r.activity)

abbrev pub close_stale : ℕ → LobbyRoom → LobbyRoom
close_stale now r = if is_stale now r then record r { status = closed; members = [] } else r

abbrev pub tend_room : (Text → Option Snapshot) → ℕ → LobbyRoom → LobbyRoom
tend_room observed now r = close_stale now (follow_offer observed now r.offer r)

-- A closed room is deleted a day after its last activity.
abbrev pub tend_rooms : (Text → Option Snapshot) → ℕ → List LobbyRoom → List LobbyRoom
tend_rooms observed now [] = []
tend_rooms observed now (r ∷ rs) =
    let rest = tend_rooms observed now rs in
    let tended = tend_room observed now r in
    if is_closed tended.status && ltb 86400000 (now - tended.activity) then rest else tended ∷ rest

unfoldable pub tend : (Text → Option Snapshot) → ℕ → State → State
tend observed now s = record {
  rooms = tend_rooms observed now s.rooms;
  queue = fresh_queue now s.queue;
  invites = recent_invites now s.invites;
}
