-- ===== src/Rooms/Lobby.antt =====
-- relayer/src/interlude-rooms.ts: the lobby, its rooms, queue and invitations.
-- This file has the state of the lobby, the requests, and what a request reads besides the state.
-- Times are in milliseconds, an expiry of an offer in seconds, and none is negative. The rooms are
-- listed in the order of their keys; the key of a room is its id.
pub mod Table
pub mod Acceptance
pub mod Routes
pub mod Seat
pub mod Places
pub mod Moves
pub mod Safety
pub mod Seated
pub mod Tending
pub mod Offers
pub mod Budget
pub mod Readiness
pub mod Prepared
pub mod Countdown
pub mod Transact
pub mod Once
pub mod Repeats
pub mod Matching
pub mod Tended
pub mod Passes
use pongit.Common.{ℕ, Bool, Text, List, Option}
use pongit.Rooms.Members.{RoomMember}

pub data RoomKind : Type 0 where
  group duel ranked : RoomKind

pub data RoomStatus : Type 0 where
  waiting offer_made playing capacity closed : RoomStatus

pub data OfferStatus : Type 0 where
  offered submitted active complete cancelled : OfferStatus

pub record Launch : Type 0 where
  pub ready : List Text
  pub at : Option ℕ

pub record LobbyOffer : Type 0 where
  pub id : Text
  pub room : Text
  pub a : Text
  pub b : Text
  pub mode : ℕ
  pub ranked : Bool
  pub expires : ℕ
  pub rules : ℕ
  pub entropy : Text
  pub signature : Text
  pub accepted : List Text
  pub launch : Option Launch
  pub status : OfferStatus

pub record LobbyRoom : Type 0 where
  pub id : Text
  pub host : Text
  pub kind : RoomKind
  pub mode : ℕ
  pub members : List RoomMember
  pub offer : Option LobbyOffer
  pub winner : Option Text
  pub status : RoomStatus
  pub created : ℕ
  pub activity : ℕ

pub data InviteStatus : Type 0 where
  pending accepted declined expired : InviteStatus

pub record Invitation : Type 0 where
  pub id : Text
  pub room : Text
  pub creator : Text
  pub recipient : Text
  pub expires : ℕ
  pub status : InviteStatus

pub record Queued : Type 0 where
  pub player : Text
  pub mode : ℕ
  pub elo : ℕ
  pub at : ℕ
  pub seen : ℕ

pub record State : Type 0 where
  pub rooms : List LobbyRoom
  pub queue : List Queued
  pub invites : List Invitation

-- A log of a receipt; its topics and data are what `decodeEventLog` makes of them.
pub record MatchAccepted : Type 0 where
  pub id : Text
  pub room : Text
  pub player : Text
  pub a : Text
  pub b : Text
  pub ranked : Bool
  pub mode : ℕ

pub record Log : Type 0 where
  pub address : Text
  pub removed : Bool
  pub raw : Text

pub record Receipt : Type 0 where
  pub succeeded : Bool
  pub transaction_hash : Text
  pub logs : List Log

-- `evidence`, read before the transaction; `phase` is the third number of the snapshot.
pub record Evidence : Type 0 where
  pub room : Text
  pub id : Text
  pub signature : Text
  pub phase : ℕ
  pub receipt : Option Receipt
  pub at : ℕ

-- What a request reads besides the state: the clock, the service's flags, the players' blocks and
-- ratings, random ids, and the evidence.
pub record Context : Type 0 where
  pub now : ℕ
  pub app : Text
  pub online : Bool
  pub admission_healthy : Bool
  pub admission_enabled : Bool
  pub lifecycle_available : Bool
  pub publication_failed : Bool
  pub chaos_enabled : Bool
  pub chaos_open : Bool
  pub blocked : Text → Text → Bool
  pub rating : Text → ℕ → ℕ
  pub room_id : Text
  pub invite_id : ℕ → Text
  pub evidence : Option Evidence
  pub decode_event_log : Text → Option MatchAccepted

-- The paths of the requests that change the lobby, with their parsed bodies.
pub data Request : Type 0 where
  queue_up : Option ℕ → Request
  queue_cancel rejoin leave : Request
  open_room : Option ℕ → List Text → Request
  invite_player : Option ℕ → Text → Request
  decline join invite_here ready_up back_out : Text → Request
  accept_offer : Text → Option Text → Bool → Request

pub data Response : Type 0 where
  done : Response
  in_room : Text → Response
  joined_room : Text → Bool → Response
  offer_view : LobbyOffer → Bool → Response
