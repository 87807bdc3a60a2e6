-- ===== src/Rooms/Lobby/Transact.antt =====
-- `transact`: a change of the lobby in one transaction of the database, once for each operation; and
-- `overlayPresence` of relayer/src/rooms-presence.ts. The lock of the database makes transactions one
-- after another. A throw rolls back, so that the store of a run that throws is the old one. The text of
-- a document (`JSON.stringify`) and the hash of a request are parameters.
use pongit.Common.{
  ℕ, ◌+◌, max, ltb, Bool, true, false, not, ◌&&◌, if◌then◌else◌, Result, ok, throw_if, ◌>>=◌, ◌>>◌,
  operation_reused, occupied_twice, List, [], ◌∷◌, ◌++◌, map, Option, none, some, Text, text_eq,
}
use pongit.Rooms.Members.{RoomMember}
use pongit.Rooms.Lobby.{LobbyOffer, LobbyRoom, Queued, State, Response}
use pongit.Rooms.Lobby.Table.{is_closed}
use pongit.Rooms.Lobby.Routes.{Reply}

-- A row of `il_operations`.
pub record Operation : Type 0 where
  pub player : Text
  pub id : Text
  pub request_hash : Text
  pub response : Response

-- A row of `il_occupancy`; the place is the id of a room, or "queue".
pub record Place : Type 0 where
  pub player : Text
  pub place : Text

-- A row of `il_offers`.
pub record OfferRow : Type 0 where
  pub id : Text
  pub room : Text
  pub offer : LobbyOffer

-- A row of `il_presence`.
pub record Presence : Type 0 where
  pub player : Text
  pub seen : ℕ

pub record Store : Type 0 where
  pub document : State
  pub operations : List Operation
  pub occupancy : List Place
  pub offers : List OfferRow

-- The optional argument `operation`.
pub record Asked : Type 0 where
  pub player : Text
  pub id : Text
  pub request : Text

abbrev pub queue_place : Text
queue_place = b'q' ∷ b'u' ∷ b'e' ∷ b'u' ∷ b'e' ∷ []

-- The time of a player's last row, where it is less than two minutes old; else 0.
abbrev pub last_seen : ℕ → Text → List Presence → ℕ
last_seen now p [] = 0
last_seen now p (row ∷ rows) =
    let rest = last_seen now p rows in
    if text_eq row.player p && ltb now (row.seen + 120000) then row.seen else rest

abbrev pub refresh_member : ℕ → List Presence → RoomMember → RoomMember
refresh_member now rows m = record m { seen = max m.seen (last_seen now m.player rows) }

abbrev pub refresh_room : ℕ → List Presence → LobbyRoom → LobbyRoom
refresh_room now rows r = record r { members = map (refresh_member now rows) r.members }

abbrev pub refresh_queued : ℕ → List Presence → Queued → Queued
refresh_queued now rows q = record q { seen = max q.seen (last_seen now q.player rows) }

unfoldable pub overlay_presence : ℕ → List Presence → State → State
overlay_presence now rows s = record s {
  rooms = map (refresh_room now rows) s.rooms;
  queue = map (refresh_queued now rows) s.queue;
}

abbrev pub find_operation : Text → Text → List Operation → Option Operation
find_operation player id [] = none
find_operation player id (x ∷ xs) =
    let rest = find_operation player id xs in
    if text_eq x.player player && text_eq x.id id then some x else rest

abbrev pub member_places : Text → List RoomMember → List Place
member_places room [] = []
member_places room (m ∷ ms) = record { player = m.player; place = room } ∷ member_places room ms

abbrev pub room_rows : LobbyRoom → List Place
room_rows r = if is_closed r.status then [] else member_places r.id r.members

abbrev pub rooms_rows : List LobbyRoom → List Place
rooms_rows [] = []
rooms_rows (r ∷ rs) = room_rows r ++ rooms_rows rs

abbrev pub queue_rows : List Queued → List Place
queue_rows [] = []
queue_rows (q ∷ qs) = record { player = q.player; place = queue_place } ∷ queue_rows qs

abbrev pub occupancy_rows : State → List Place
occupancy_rows s = rooms_rows s.rooms ++ queue_rows s.queue

abbrev pub has_place : Text → List Place → Bool
has_place p [] = false
has_place p (x ∷ xs) = let rest = has_place p xs in if text_eq x.player p then true else rest

-- The primary key of the table refuses a player's second row.
abbrev pub has_double : List Place → Bool
has_double [] = false
has_double (x ∷ xs) = let rest = has_double xs in if has_place x.player xs then true else rest

-- `ON CONFLICT(app,id) DO UPDATE SET offer=$4`
abbrev pub upsert_offer : Text → LobbyOffer → List OfferRow → List OfferRow
upsert_offer room offer [] = record { id = offer.id; room = room; offer = offer } ∷ []
upsert_offer room offer (x ∷ xs) =
    let rest = upsert_offer room offer xs in
    if text_eq x.id offer.id then record x { offer = offer } ∷ xs else x ∷ rest

abbrev pub upsert_room : LobbyRoom → Option LobbyOffer → List OfferRow → List OfferRow
upsert_room r none rows = rows
upsert_room r (some offer) rows = upsert_offer r.id offer rows

abbrev pub upsert_offers : List LobbyRoom → List OfferRow → List OfferRow
upsert_offers [] rows = rows
upsert_offers (r ∷ rs) rows = upsert_offers rs (upsert_room r r.offer rows)

module _ (json : State → Text) (hash : Text → Text) where
  abbrev pub save : State → State → Store → Result Store
  save previous state store = if text_eq (json state) (json previous) then ok store else (do
    throw_if (has_double (occupancy_rows state)) occupied_twice
    ok (record store {
      document = state;
      occupancy = occupancy_rows state;
      offers = upsert_offers state.rooms store.offers;
    }))

  abbrev pub log_operation : Option Asked → Response → Store → Store
  log_operation none response store = store
  log_operation (some asked) response store = record store {
    operations =
        record {
          player = asked.player;
          id = asked.id;
          request_hash = hash asked.request;
          response = response;
        }
        ∷ store.operations;
  }

  abbrev pub perform :
      ℕ → List Presence → (State → Reply) → Option Asked → Store → Result (Store × Response)
  perform now rows change asked store = do
    reply ← change (overlay_presence now rows store.document)
    saved ← save (overlay_presence now rows store.document) reply.0 store
    ok (log_operation asked reply.1 saved, reply.1)

  abbrev pub old_or_perform :
      ℕ
      → List Presence
      → (State → Reply)
      → Asked
      → Store
      → Option Operation
      → Result (Store × Response)
  old_or_perform now rows change asked store (some old) = do
    throw_if (not (text_eq old.request_hash (hash asked.request))) operation_reused
    ok (store, old.response)
  old_or_perform now rows change asked store none = perform now rows change (some asked) store

  unfoldable pub transact :
      ℕ → List Presence → (State → Reply) → Option Asked → Store → Result (Store × Response)
  transact now rows change none store = perform now rows change none store
  transact now rows change (some asked) store =
      old_or_perform now rows change asked store
        (find_operation asked.player asked.id store.operations)
