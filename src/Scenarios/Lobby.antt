-- ===== src/Scenarios/Lobby.antt =====
-- The lobby at concrete inputs.
use pongit.Common.{
  err, room_full, ◌<◌, ℕ, ◌≤◌, ◌≡◌, refl, true, false, arith, ok, Returns, Ensures, List, [], ◌∷◌,
  map, none, some, Text, text_eq,
}
use pongit.Rooms.Members.{RoomMember, next_pair}
use pongit.Rooms.Lobby.{
  RoomKind, group, duel, waiting, offer_made, offered, LobbyOffer, LobbyRoom, State, Context, join,
  Response, done, in_room, invite_player, pending,
}
use pongit.Rooms.Lobby.Table.{available, occupant, mode_of, new_member}
use pongit.Rooms.Lobby.Acceptance.{prepare_room_launch, expire_unstarted_room_offer}
use pongit.Rooms.Lobby.Seat.{request}
use pongit.Rooms.Lobby.Routes.{Reply, join_room, open_duel, accept_invite}
use pongit.Rooms.Lobby.Places.{places, IsLobby}
use pongit.Rooms.Lobby.Seated.{request-IsLobby}
use pongit.Rooms.Lobby.Safety.{LobbyAfter}
use pongit.Rooms.Lobby.Offers.{open_offers, match_queue, maintain, Pass, make_offers}
use pongit.Rooms.Lobby.Countdown.{Expires, expire_unstarted-cases}
use pongit.Rooms.Lobby.Transact.{Store, Asked, transact, save, overlay_presence, occupancy_rows}
use pongit.Rooms.Lobby.Tending.{tend}
use pongit.Rooms.Lobby.Passes.{maintain-IsLobby}
use pongit.Rooms.Lobby.Once.{
  count_places, count_at, places_at, occupancy-places, IsSaved, save-IsSaved,
}
use pongit.Rooms.Lobby.Repeats.{Attempt, run_attempts, transact_once}

abbrev ann : Text
ann = b'a' ∷ []

abbrev bob : Text
bob = b'b' ∷ []

abbrev cat : Text
cat = b'c' ∷ []

abbrev arena : Text
arena = b'r' ∷ []

abbrev context : Context
context = record {
  now = 50000;
  app = b'x' ∷ [];
  online = true;
  admission_healthy = true;
  admission_enabled = true;
  lifecycle_available = true;
  publication_failed = false;
  chaos_enabled = true;
  chaos_open = true;
  blocked = λ _ _. false;
  rating = λ _ _. 1000;
  room_id = b'n' ∷ [];
  invite_id = λ n. n ∷ [];
  evidence = none;
  decode_event_log = λ _. none;
}

abbrev room_of : RoomKind → List RoomMember → LobbyRoom
room_of kind members = record {
  id = arena;
  host = ann;
  kind = kind;
  mode = 0;
  members = members;
  offer = none;
  winner = none;
  status = waiting;
  created = 1000;
  activity = 40000;
}

abbrev lobby : State
lobby = record {
  rooms = room_of group (new_member ann 1000 0 45000 ∷ []) ∷ [];
  queue = [];
  invites = [];
}

lobby-IsLobby : IsLobby lobby
unfolding places
lobby-IsLobby = record { placed = λ p. ground arith; keyed = (tt, tt) }

request-IsLobby_example : Ensures LobbyAfter (request context lobby bob (join arena))
request-IsLobby_example = request-IsLobby context lobby bob (join arena) lobby-IsLobby refl

occupancy-places_example :
    (count_at ann arena (occupancy_rows lobby) ≡ places_at ann arena lobby)
    × (count_places ann (occupancy_rows lobby) ≡ places ann lobby)
occupancy-places_example = occupancy-places ann arena lobby

abbrev store : Store
store = record { document = lobby; operations = []; occupancy = []; offers = [] }

-- The texts of two documents differ where their numbers of queued players do.
abbrev queue_text : State → Text
queue_text s = map (λ q. q.at) s.queue

abbrev queued : State
queued = record lobby {
  queue = record { player = bob; mode = 0; elo = 1000; at = 7; seen = 7 } ∷ [];
}

queued-placed : (p : Text) → places p queued ≤ 1
unfolding places
queued-placed [] = omega arith
queued-placed (x ∷ []) = ground arith
queued-placed (x ∷ y ∷ p) = ground arith

queued-IsLobby : IsLobby queued
queued-IsLobby = record { placed = queued-placed; keyed = (tt, tt) }

save-IsSaved_example :
    Returns (IsSaved queue_text lobby queued store) (save queue_text (λ t. t) lobby queued store)
save-IsSaved_example = save-IsSaved queue_text (λ t. t) lobby queued store queued-IsLobby

abbrev asked : Asked
asked = record { player = bob; id = 1 ∷ []; request = 2 ∷ [] }

abbrev result : Store × Response
result = (
  record store {
    operations = record { player = bob; id = 1 ∷ []; request_hash = 2 ∷ []; response = done } ∷ [];
  },
  done,
)

first_time :
    transact queue_text (λ t. t) 50000 [] (λ s. ok (s, done)) (some asked) store ≡ ok result
unfolding transact overlay_presence
first_time = refl

-- In between, the document changes under another operation, and one throws.
abbrev attempts : List Attempt
attempts =
    record {
      now = 55000;
      rows = [];
      change = λ s. ok (record s { queue = queued.queue }, done);
      operation = some (record { player = ann; id = 1 ∷ []; request = 3 ∷ [] });
    }
    ∷ record { now = 56000; rows = []; change = λ _. err room_full; operation = none }
    ∷ []

transact_once_example :
    let reached = run_attempts queue_text (λ t. t) attempts result.0 in
    transact queue_text (λ t. t) 60000 [] (λ s. ok (s, in_room arena)) (some asked) reached
    ≡ ok (reached, done)
transact_once_example =
    transact_once queue_text (λ t. t) asked 50000 [] (λ s. ok (s, done)) store result first_time
      attempts 60000 [] (λ s. ok (s, in_room arena))

abbrev duel_offer : LobbyOffer
duel_offer = record {
  id = 5 ∷ [];
  room = arena;
  a = ann;
  b = bob;
  mode = 0;
  ranked = false;
  expires = 60;
  rules = 6;
  entropy = [];
  signature = [];
  accepted = [];
  launch = some (record { ready = ann ∷ []; at = none });
  status = offered;
}

abbrev duel_room : LobbyRoom
duel_room = record (room_of duel (new_member ann 1000 0 45000 ∷ new_member bob 2000 1 45000 ∷ [])) {
  offer = some duel_offer;
  status = offer_made;
}

-- Both are ready at second 50, and the duel starts at second 53.
both_ready :
    prepare_room_launch duel_offer bob 50000
    ≡ ok (record duel_offer { launch = some (record { ready = ann ∷ bob ∷ []; at = some 53000 }) })
unfolding prepare_room_launch
both_ready = refl

expire_unstarted-cases_example :
    Expires duel_room
      (some 0)
      70000
      duel_offer
      (expire_unstarted_room_offer duel_room (some 0) 70000)
expire_unstarted-cases_example = expire_unstarted-cases duel_room (some 0) 70000 duel_offer refl

abbrev pass : Pass
pass = record {
  now = 50000;
  writable = true;
  admitting = true;
  publication_failed = false;
  observed = λ _. none;
  blocked = λ _ _. false;
  rating = λ _ _. 1000;
  room_id = λ n. n ∷ n ∷ [];
  ticket_id = λ n. n ∷ [];
  entropy = λ n. n ∷ [];
  sign = λ _. [];
  pending_diffs = 10;
  max_diffs = 100;
  creation_budget = 38;
  terminal_budget = 18;
  chaos_enabled = true;
  rules_version = 6;
}

abbrev pair_waiting : State
pair_waiting = record {
  rooms = room_of duel (new_member ann 1000 0 45000 ∷ new_member bob 2000 1 45000 ∷ []) ∷ [];
  queue = [];
  invites = [];
}

-- A duel room of two whose host has invited a third player.
abbrev crowded : State
crowded = record {
  rooms = room_of duel (new_member ann 1000 0 45000 ∷ new_member bob 2000 1 45000 ∷ []) ∷ [];
  queue = [];
  invites =
      record {
        id = 1 ∷ [];
        room = arena;
        creator = ann;
        recipient = cat;
        expires = 90000;
        status = pending;
      }
      ∷ [];
}

abbrev first_members : List LobbyRoom → List Text
first_members [] = []
first_members (r ∷ _) = map (λ m. m.player) r.members

abbrev members_after : Reply → List Text
members_after (ok (s, _)) = first_members s.rooms
members_after (err _) = []

-- The third player joins by the room and is refused, but enters by inviting the host back.
refused_by_room : request context crowded cat (join arena) ≡ err room_full
unfolding request join_room available occupant
refused_by_room = refl

enters_by_invitation :
    members_after (request context crowded cat (invite_player none ann)) ≡ ann ∷ bob ∷ cat ∷ []
unfolding request open_duel accept_invite available occupant mode_of
enters_by_invitation = refl

-- Two players who wait in the queue.
abbrev two_queued : State
two_queued = record {
  rooms = [];
  queue =
      record { player = bob; mode = 0; elo = 1000; at = 40000; seen = 49000 }
      ∷ record { player = cat; mode = 0; elo = 1050; at = 41000; seen = 49000 }
      ∷ [];
  invites = [];
}

two_queued-placed : (p : Text) → places p two_queued ≤ 1
unfolding places
two_queued-placed [] = omega arith
two_queued-placed (x ∷ []) = ground arith
two_queued-placed (x ∷ y ∷ p) = ground arith

rooms_apart : (m n : ℕ) → m < n → text_eq (pass.room_id m) (pass.room_id n) ≡ false
rooms_apart m n h = ground arith

-- The pass gives them a room and an offer.
paired : open_offers pass (maintain pass two_queued two_queued).rooms ≡ 1
unfolding maintain tend match_queue make_offers next_pair
paired = refl

maintain-IsLobby_example : IsLobby (maintain pass two_queued two_queued)
maintain-IsLobby_example =
    maintain-IsLobby pass two_queued two_queued rooms_apart (λ n. refl) tt
      (record { placed = two_queued-placed; keyed = tt })
