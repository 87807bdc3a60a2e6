-- ===== src/Rooms/Lobby/Acceptance.antt =====
-- shared/rooms-acceptance.ts: the countdown before a duel, the expiry of an offer that nobody has
-- taken to the engine, and what proves that a player has accepted.
use pongit.Common.{
  ℕ, ◌+◌, ◌*◌, ◌==◌, leb, Bool, true, false, not, ◌&&◌, ◌||◌, if◌then◌else◌, Result, ok, throw_if,
  ◌>>=◌, ◌>>◌, duel_unavailable, too_late_to_start, countdown_running, List, [], ◌∷◌, ◌++◌, map,
  length, Option, none, some, Text, text_eq,
}
use pongit.Rooms.Members.{RoomMember}
use pongit.Rooms.Availability.{same_app}
use pongit.Rooms.Lobby.{
  Launch, LobbyOffer, OfferStatus, offered, cancelled, LobbyRoom, waiting, Log, MatchAccepted,
  Receipt,
}

abbrev pub match_intro_ms : ℕ
match_intro_ms = 3000

abbrev pub includes : Text → List Text → Bool
includes p [] = false
includes p (q ∷ qs) = let rest = includes p qs in if text_eq q p then true else rest

abbrev pub is_offered : OfferStatus → Bool
is_offered offered = true
is_offered _ = false

abbrev pub plays : LobbyOffer → Text → Bool
plays offer p = text_eq offer.a p || text_eq offer.b p

-- `new Set`: every text once, at its first place.
abbrev pub without : Text → List Text → List Text
without p [] = []
without p (q ∷ qs) = let rest = without p qs in if text_eq q p then rest else q ∷ rest

abbrev pub unique : List Text → List Text
unique [] = []
unique (p ∷ ps) = p ∷ without p (unique ps)

abbrev pub keep_players : LobbyOffer → List Text → List Text
keep_players offer [] = []
keep_players offer (p ∷ ps) =
    let rest = keep_players offer ps in if plays offer p then p ∷ rest else rest

abbrev pub launch_ready : Option Launch → List Text
launch_ready none = []
launch_ready (some l) = l.ready

-- A time that is set; 0 counts as none.
abbrev pub set_time : Option ℕ → Option ℕ
set_time none = none
set_time (some at) = if at == 0 then none else some at

abbrev pub launch_at : Option Launch → Option ℕ
launch_at none = none
launch_at (some l) = set_time l.at

abbrev pub now_ready : LobbyOffer → Text → List Text
now_ready offer player =
    keep_players offer (unique (launch_ready offer.launch ++ (offer.accepted ++ (player ∷ []))))

-- Both are ready and no time is set: three seconds from now, with a second to spare.
abbrev pub launch_time : LobbyOffer → List Text → ℕ → Option ℕ → Result (Option ℕ)
launch_time offer ready now (some at) = ok (some at)
launch_time offer ready now none =
    if length ready == 2
    then (do
      throw_if (leb (offer.expires * 1000) (now + match_intro_ms + 1000)) too_late_to_start
      ok (some (now + match_intro_ms)))
    else ok none

unfoldable pub prepare_room_launch : LobbyOffer → Text → ℕ → Result LobbyOffer
prepare_room_launch offer player now = do
  throw_if
      (not (plays offer player) || not (is_offered offer.status) || leb (offer.expires * 1000) now)
      duel_unavailable
  at ← launch_time offer (now_ready offer player) now (launch_at offer.launch)
  ok (record offer { launch = some (record { ready = now_ready offer player; at = at }) })

abbrev pub launched : LobbyOffer → ℕ → Option Launch → Bool
launched offer now none = false
launched offer now (some l) = elim l.at [
  | none ↦ false
  | some at ↦ not (at == 0) && includes offer.a l.ready && includes offer.b l.ready && leb at now
]

unfoldable pub assert_room_launch_ready : LobbyOffer → ℕ → Result (Unit {0})
assert_room_launch_ready offer now =
    throw_if (not (launched offer now offer.launch)) countdown_running

abbrev pub step_aside : LobbyOffer → RoomMember → RoomMember
step_aside offer m = if plays offer m.player then record m { away = true } else m

abbrev pub phase_is : Option ℕ → ℕ → Bool
phase_is none n = false
phase_is (some phase) n = phase == n

abbrev pub expire_offer : LobbyRoom → LobbyOffer → LobbyRoom
expire_offer room offer = record room {
  members = map (step_aside offer) room.members;
  offer = some (record offer { accepted = []; status = cancelled });
  status = waiting;
}

-- The room after the call, and what the call returns.
abbrev pub expire_if : LobbyRoom → Option ℕ → ℕ → Option LobbyOffer → LobbyRoom × Bool
expire_if room phase now none = (room, false)
expire_if room phase now (some offer) =
    if not (is_offered offer.status)
      || not (phase_is phase 0)
      || leb now (offer.expires * 1000 + 3000)
    then (room, false)
    else (expire_offer room offer, true)

unfoldable pub expire_unstarted_room_offer : LobbyRoom → Option ℕ → ℕ → LobbyRoom × Bool
expire_unstarted_room_offer room phase now = expire_if room phase now room.offer

abbrev pub same_match : LobbyOffer → Text → MatchAccepted → Bool
same_match offer player event =
    text_eq event.id offer.id
    && same_app event.room offer.room
    && same_app event.player player
    && same_app event.a offer.a
    && same_app event.b offer.b
    && same_bool event.ranked offer.ranked
    && event.mode == offer.mode
  where
    same_bool : Bool → Bool → Bool
    same_bool x y = if x then y else not y

-- `decodeEventLog` throws on a log of another event.
module _ (decode_event_log : Text → Option MatchAccepted) (app : Text) (offer : LobbyOffer)
    (player : Text) where
  abbrev pub decoded_match : Option MatchAccepted → Bool
  decoded_match none = false
  decoded_match (some event) = same_match offer player event

  abbrev pub confirms_log : Log → Bool
  confirms_log log =
      if log.removed || not (same_app log.address app)
      then false
      else decoded_match (decode_event_log log.raw)

  abbrev pub some_log : List Log → Bool
  some_log [] = false
  some_log (l ∷ ls) = let rest = some_log ls in if confirms_log l then true else rest

  unfoldable pub confirms_room_acceptance : Receipt → Text → Bool
  confirms_room_acceptance receipt hash =
      if not receipt.succeeded || not (same_app receipt.transaction_hash hash)
      then false
      else some_log receipt.logs
