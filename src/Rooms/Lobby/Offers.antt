-- ===== src/Rooms/Lobby/Offers.antt =====
-- The second half of what `maintenance` does to the lobby: queued players get rooms, and rooms get offers
-- as far as the engine has room for them. An entry of the queue is identified by its player. Random ids
-- and the signature are functions of the number of rooms and tickets made before.
use pongit.Common.{
  ℕ, suc, ◌+◌, ◌-◌, ◌*◌, ◌/◌, ◌==◌, ltb, leb, min, Bool, true, false, not, ◌&&◌, ◌||◌,
  if◌then◌else◌, List, [], ◌∷◌, ◌++◌, Option, none, some, Text, text_eq,
}
use pongit.Rooms.Members.{RoomMember, next_pair}
use pongit.Rooms.Lobby.{
  LobbyOffer, offered, complete, cancelled, LobbyRoom, RoomKind, ranked, waiting, offer_made,
  capacity, Queued, State,
}
use pongit.Rooms.Lobby.Table.{is_closed, is_queued, new_member, put_room}
use pongit.Rooms.Lobby.Routes.{leave_queue}
use pongit.Rooms.Lobby.Tending.{Snapshot, is_over, tend}

-- What a maintenance pass reads besides the state.
pub record Pass : Type 0 where
  pub now : ℕ
  pub writable : Bool
  pub admitting : Bool
  pub publication_failed : Bool
  pub observed : Text → Option Snapshot
  pub blocked : Text → Text → Bool
  pub rating : Text → ℕ → ℕ
  pub room_id : ℕ → Text
  pub ticket_id : ℕ → Text
  pub entropy : ℕ → Text
  pub sign : LobbyOffer → Text
  pub pending_diffs : ℕ
  pub max_diffs : ℕ
  pub creation_budget : ℕ
  pub terminal_budget : ℕ
  pub chaos_enabled : Bool
  pub rules_version : ℕ

abbrev pub insert_by : {A : Type 0} → (A → ℕ) → A → List A → List A
insert_by key x [] = x ∷ []
insert_by key x (y ∷ ys) =
    let rest = insert_by key x ys in if leb (key x) (key y) then x ∷ y ∷ ys else y ∷ rest

-- The stable sort of the language, by a number.
abbrev pub sort_by : {A : Type 0} → (A → ℕ) → List A → List A
sort_by key [] = []
sort_by key (x ∷ xs) = insert_by key x (sort_by key xs)

abbrev pub distance : ℕ → ℕ → ℕ
distance a b = (a - b) + (b - a)

-- The lobby, and the counters `active` and `reserved`.
pub record Ledger : Type 0 where
  pub state : State
  pub active : ℕ
  pub reserved : ℕ

module _ (c : Pass) where
  -- The rating band of a player, wider with the time in the queue.
  abbrev pub width : Queued → ℕ
  width first = min 600 (100 + 50 * ((c.now - first.at) / 15000))

  abbrev pub suits : Queued → Queued → Bool
  suits first other =
      not (text_eq other.player first.player)
      && other.mode == first.mode
      && leb (distance (c.rating first.player first.mode) (c.rating other.player other.mode))
          (width first)
      && not (c.blocked first.player other.player)

  abbrev pub find_opponent : Queued → List Queued → Option Queued
  find_opponent first [] = none
  find_opponent first (q ∷ qs) =
      let rest = find_opponent first qs in if suits first q then some q else rest

  abbrev pub ranked_room : ℕ → Queued → Queued → LobbyRoom
  ranked_room n first second = record {
    id = c.room_id n;
    host = first.player;
    kind = ranked;
    mode = first.mode;
    members =
        new_member first.player c.now 0 c.now ∷ new_member second.player c.now 1 second.seen ∷ [];
    offer = none;
    winner = none;
    status = waiting;
    created = c.now;
    activity = c.now;
  }

  abbrev pub pair_up : ℕ → Queued → Option Queued → State → State
  pair_up n first none s = s
  pair_up n first (some second) s = record s {
    queue = leave_queue second.player (leave_queue first.player s.queue);
    rooms = s.rooms ++ (ranked_room n first second ∷ []);
  }

  abbrev pub match_first : ℕ → Queued → State → State
  match_first n first s =
      if is_queued first.player s.queue then pair_up n first (find_opponent first s.queue) s else s

  -- The n-th entry of the queue, oldest first, finds its opponent or waits on.
  abbrev pub match_all : ℕ → List Queued → State → State
  match_all n [] s = s
  match_all n (first ∷ rest) s = match_all (suc n) rest (match_first n first s)

  unfoldable pub match_queue : State → State
  match_queue s = if c.writable then match_all 0 (sort_by (λ q. q.at) s.queue) s else s

  abbrev pub has_open_offer : Option LobbyOffer → Bool
  has_open_offer none = false
  has_open_offer (some offer) = not (is_over offer.status)

  abbrev pub open_offers : List LobbyRoom → ℕ
  open_offers [] = 0
  open_offers (r ∷ rs) =
      let rest = open_offers rs in if has_open_offer r.offer then suc rest else rest

  abbrev unstarted : Option Snapshot → Bool
  unstarted none = false
  unstarted (some snap) = snap.phase == 0

  abbrev pub reserve : Option LobbyOffer → ℕ
  reserve none = 0
  reserve (some offer) =
      if is_over offer.status
      then 0
      else if unstarted (c.observed offer.id)
      then c.creation_budget
      else c.terminal_budget

  -- The writes that unfinished offers may still need.
  abbrev pub reserved_writes : List LobbyRoom → ℕ
  reserved_writes [] = c.pending_diffs
  reserved_writes (r ∷ rs) = reserve r.offer + reserved_writes rs

  -- A pause after a match, and the time in which a cancelled ticket can still be used.
  abbrev pub rests : LobbyRoom → Option LobbyOffer → Bool
  rests r none = false
  rests r (some offer) = elim offer.status [
    | complete ↦ ltb (c.now - r.activity) 5000
    | cancelled ↦ ltb c.now (offer.expires * 1000 + 3000)
    | _ ↦ true
  ]

  abbrev pub skipped : LobbyRoom → Bool
  skipped r = is_closed r.status || rests r r.offer

  abbrev pub full : ℕ → ℕ → Bool
  full active reserved =
      not c.admitting
      || leb 2 active
      || ltb c.max_diffs (reserved + c.creation_budget)
      || c.publication_failed

  abbrev is_ranked : RoomKind → Bool
  is_ranked ranked = true
  is_ranked _ = false

  abbrev pub unsigned_ticket : ℕ → LobbyRoom → RoomMember → RoomMember → LobbyOffer
  unsigned_ticket n r a b = record {
    id = c.ticket_id n;
    room = r.id;
    a = a.player;
    b = b.player;
    mode = if c.chaos_enabled then r.mode else 0;
    ranked = is_ranked r.kind;
    expires = c.now / 1000 + 20;
    rules = c.rules_version;
    entropy = c.entropy n;
    signature = [];
    accepted = [];
    launch = none;
    status = offered;
  }

  abbrev pub ticket : ℕ → LobbyRoom → RoomMember → RoomMember → LobbyOffer
  ticket n r a b = record (unsigned_ticket n r a b) { signature = c.sign (unsigned_ticket n r a b) }

  abbrev pub make_offer : ℕ → LobbyRoom → RoomMember → RoomMember → LobbyRoom
  make_offer n r a b = record r {
    offer = some (ticket n r a b);
    status = offer_made;
    activity = c.now;
  }

  abbrev pub offer_pair : LobbyRoom → List RoomMember → Ledger → Ledger
  offer_pair r (a ∷ b ∷ more) l =
      if full l.active l.reserved
      then record l { state = put_room (record r { status = capacity }) l.state }
      else record {
        state = put_room (make_offer l.active r a b) l.state;
        active = l.active + 1;
        reserved = l.reserved + c.creation_budget;
      }
  offer_pair r _ l = l

  abbrev pub offer_room : LobbyRoom → Ledger → Ledger
  offer_room r l = if skipped r then l else offer_pair r (next_pair r.members r.winner c.now) l

  abbrev pub offer_rooms : List LobbyRoom → Ledger → Ledger
  offer_rooms [] l = l
  offer_rooms (r ∷ rs) l = offer_rooms rs (offer_room r l)

  -- `before` is the lobby as it was read before the transaction.
  unfoldable pub make_offers : State → State → Ledger
  make_offers before s =
      offer_rooms (sort_by (λ r. r.created) s.rooms) (record {
        state = s;
        active = open_offers s.rooms;
        reserved = reserved_writes before.rooms;
      })

  unfoldable pub maintain : State → State → State
  maintain before s = (make_offers before (match_queue (tend c.observed c.now s))).state
