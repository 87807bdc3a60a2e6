-- ===== src/Rooms/Lobby/Safety.antt =====
-- Every request keeps each player in one place.
use pongit.Common.{
  ℕ, suc, ◌+◌, ◌≤◌, ◌≡◌, refl, sym, subst, Bool, true, false, not, ◌&&◌, ◌||◌, arith, ltb, leb,
  if◌then◌else◌, rooms_closed, invalid_input, invitation_unavailable, room_expired,
  reserved_invitation, room_full, room_unavailable, Result, ok, err, Ensures, Ensures-bind,
  Ensures-throw, Ensures-ok, Fault, Ensures-if, throw_if, ◌>>=◌, ◌>>◌, List, [], ◌∷◌, ◌++◌, length,
  Option, none, some, Text, text_eq,
}
use pongit.Rooms.Members.{RoomMember}
use pongit.Rooms.Lobby.{
  LobbyRoom, RoomKind, duel, group, Invitation, Queued, State, Context, Response, in_room,
}
use pongit.Rooms.Lobby.Table.{
  is_closed, has_member, is_queued, is_some, sent_by, sent_to, count_invites, find_room, occupant,
  available, new_room, make_room, new_member, mode_of, invite, send_invite, invite_all, find_invite,
  invites_to, next_position,
}
use pongit.Rooms.Lobby.Acceptance.{unique}
use pongit.Rooms.Lobby.Routes.{
  Reply, admits, queued_entry, join_queue, leave_queue, cancel_queue, enter_duel, accept_invite,
  create_room, invite_back, open_duel, open_group, decline_invite, decline_found, join_room,
  join_found, enter_room, is_group, capacity_of, any_blocked, mutual_invite, declinable,
}
use pongit.Rooms.Lobby.Places.{
  count_member, queue_places, places, HasDistinctKeys, IsLobby, find_room-In, available-places,
}
use pongit.Rooms.Lobby.Moves.{count-push, enter-IsLobby, open-IsLobby, queue-IsLobby}

abbrev pub LobbyAfter : State × Response → Type 0
LobbyAfter reply = IsLobby reply.0

-- What a request that returns leaves.
abbrev pub Keeps : Reply → Type 0
Keeps = Ensures LobbyAfter

-- Same rooms, same queue.
pub same-IsLobby : (s t : State) → t.rooms ≡ s.rooms → t.queue ≡ s.queue → IsLobby s → IsLobby t
unfolding places
same-IsLobby s t e f h = record {
  placed = λ p. rw e (rw f (h.placed p));
  keyed = subst (λ rs. HasDistinctKeys rs) (sym e) h.keyed;
}

-- The check that the player is available, and what follows it.
available-Keeps :
    (s : State) (p : Text) (rest : Reply)
    → (places p s ≡ 0 → Keeps rest)
    → Keeps (available s p >> rest)
available-Keeps s p rest h =
    Ensures-bind LobbyAfter (available s p) (λ _. rest) λ u e. h (available-places s p e)

pub join_queue-IsLobby :
    (c : Context) (s : State) (p : Text) (wanted : Option ℕ)
    → IsLobby s
    → Keeps (join_queue c s p wanted)
unfolding join_queue
join_queue-IsLobby c s p wanted h = Ensures-bind LobbyAfter (mode_of c wanted) _ λ mode _.
    Ensures-if LobbyAfter (is_queued p s.queue) _ _ (λ _. h)
      λ _. available-Keeps s p _ λ free.
        Ensures-throw LobbyAfter (not (admits c)) _ _
          λ _. queue-IsLobby s (queued_entry c p mode) h free

pub grow-if : (c : Bool) (m n : ℕ) → m ≤ n → m ≤ (if c then suc n else n)
grow-if true m n h = omega arith
grow-if false m n h = h

pub both-if : (c : Bool) (m n : ℕ) → m ≤ n → (if c then suc m else m) ≤ (if c then suc n else n)
both-if true m n h = omega arith
both-if false m n h = h

drop-queued :
    (b : Bool) (q : Text) (x : Queued) (left : List Queued) (n : ℕ)
    → queue_places q left ≤ n
    → queue_places q (if b then left else x ∷ left) ≤ (if text_eq x.player q then suc n else n)
drop-queued true q x left n h = grow-if (text_eq x.player q) _ n h
drop-queued false q x left n h = both-if (text_eq x.player q) _ n h

pub leave-fewer :
    (p q : Text) (qs : List Queued) → queue_places q (leave_queue p qs) ≤ queue_places q qs
leave-fewer p q [] = omega arith
leave-fewer p q (x ∷ qs) =
    drop-queued (text_eq x.player p) q x (leave_queue p qs) _ (leave-fewer p q qs)

pub cancel_queue-IsLobby : (s : State) (p : Text) → IsLobby s → Keeps (cancel_queue s p)
unfolding cancel_queue places
cancel_queue-IsLobby s p h =
    let kept : IsLobby (record s { queue = leave_queue p s.queue }) = record {
      placed = λ q. omega (arith, h.placed q, leave-fewer p q s.queue);
      keyed = h.keyed;
    } in
    Ensures-throw LobbyAfter (is_some (occupant s p)) _ _ λ _. kept

-- An invitation changes neither the rooms nor the queue.
abbrev pub SamePlaces : State → State → Type 0
SamePlaces s t = (t.rooms ≡ s.rooms) × (t.queue ≡ s.queue)

throw-same :
    (s : State) (b d : Bool) (e f : Fault) (t : State)
    → SamePlaces s t
    → Ensures (SamePlaces s) (throw_if b e >> (throw_if d f >> ok t))
throw-same s true d e f t h = tt
throw-same s false true e f t h = tt
throw-same s false false e f t h = h

pub invite-same :
    (c : Context) (s : State) (r : LobbyRoom) (p target : Text)
    → Ensures (SamePlaces s) (invite c s r p target)
unfolding invite
invite-same c s r p target =
    Ensures-throw (SamePlaces s) (text_eq target p || c.blocked p target) _ _
      λ _. sent (find_invite (invites_to c.now r.id target) s.invites)
  where
    sent : (found : Option Invitation) → Ensures (SamePlaces s) (send_invite c s r p target found)
    sent (some existing) = (refl, refl)
    sent none =
        throw-same s (leb 20 (count_invites (sent_by c.now p) s.invites))
          (leb 3 (count_invites (sent_to c.now p target) s.invites)) _ _ _ (refl, refl)

invite_all-IsLobby :
    (c : Context) (r : LobbyRoom) (p : Text) (targets : List Text) (s : State)
    → IsLobby s
    → Ensures IsLobby (invite_all c r p targets s)
invite_all-IsLobby c r p [] s h = h
invite_all-IsLobby c r p (target ∷ targets) s h =
    Ensures-bind IsLobby (invite c s r p target) _ λ t e.
      let (rooms, queue) =
        Ensures-ok (SamePlaces s) (invite c s r p target) (invite-same c s r p target) e in
      invite_all-IsLobby c r p targets t (same-IsLobby s t rooms queue h)

pub reply-Keeps :
    (m : Result State) (response : Response)
    → Ensures IsLobby m
    → Keeps (m >>= λ t. ok (t, response))
reply-Keeps (ok t) response h = h
reply-Keeps (err e) response h = tt

create_room-IsLobby :
    (c : Context) (s : State) (p : Text) (kind : RoomKind) (mode : ℕ) (recipients : List Text)
    → IsLobby s
    → find_room c.room_id s.rooms ≡ none
    → Keeps (create_room c s p kind mode recipients)
unfolding create_room make_room
create_room-IsLobby c s p kind mode recipients h fresh = available-Keeps s p _ λ free.
    Ensures-throw LobbyAfter (not (admits c)) rooms_closed _ λ _.
      Ensures-throw LobbyAfter (ltb 7 (length recipients)) invalid_input _ λ _.
        reply-Keeps
          (invite_all c (new_room c p kind mode) p (unique recipients) (make_room c s p kind mode))
          (in_room c.room_id)
          (invite_all-IsLobby c (new_room c p kind mode) p (unique recipients)
            (make_room c s p kind mode)
            (open-IsLobby s (new_room c p kind mode) p h free fresh λ q. alone (text_eq p q)))
  where
    alone : (b : Bool) → (if b then 1 else 0) ≤ (if b then 1 else 0)
    alone true = omega arith
    alone false = omega arith

-- One more member in a room, whatever else changes in it.
pushed-places :
    (closed_ : Bool) (q : Text) (ms : List RoomMember) (m : RoomMember)
    → (if closed_ then 0 else count_member q (ms ++ (m ∷ [])))
      ≤ (if closed_ then 0 else count_member q ms) + (if text_eq m.player q then 1 else 0)
pushed-places true q ms m = omega arith
pushed-places false q ms m = omega (arith, count-push q ms m)

enter_duel-IsLobby :
    (c : Context) (s : State) (p : Text) (existing : Invitation)
    → IsLobby s
    → places p s ≡ 0
    → Keeps (enter_duel c s p existing (find_room existing.room s.rooms))
enter_duel-IsLobby c s p existing h free = enter (find_room existing.room s.rooms) refl
  where
    enter :
        (found : Option LobbyRoom)
        → find_room existing.room s.rooms ≡ found
        → Keeps (enter_duel c s p existing found)
    enter none e = tt
    enter (some r) e = same-IsLobby _ _ refl refl (
        enter-IsLobby s r _ p h free (find_room-In existing.room s.rooms e) refl
          λ q. pushed-places (is_closed r.status) q r.members (new_member p c.now 1 c.now))

accept_invite-IsLobby :
    (c : Context) (s : State) (p target : Text) (existing : Invitation)
    → IsLobby s
    → Keeps (accept_invite c s p target existing)
unfolding accept_invite
accept_invite-IsLobby c s p target existing h = available-Keeps s p _ λ free.
    Ensures-throw LobbyAfter (c.blocked p target) invitation_unavailable _
      λ _. enter_duel-IsLobby c s p existing h free

pub open_duel-IsLobby :
    (c : Context) (s : State) (p : Text) (wanted : Option ℕ) (target : Text)
    → IsLobby s
    → find_room c.room_id s.rooms ≡ none
    → Keeps (open_duel c s p wanted target)
unfolding open_duel
open_duel-IsLobby c s p wanted target h fresh =
    Ensures-bind LobbyAfter (mode_of c wanted) _
      λ mode _. answer mode (find_invite (mutual_invite c s p target mode) s.invites)
  where
    answer : (mode : ℕ) (found : Option Invitation) → Keeps (invite_back c s p target mode found)
    answer mode (some existing) = accept_invite-IsLobby c s p target existing h
    answer mode none = create_room-IsLobby c s p duel mode (target ∷ []) h fresh

pub open_group-IsLobby :
    (c : Context) (s : State) (p : Text) (wanted : Option ℕ) (players : List Text)
    → IsLobby s
    → find_room c.room_id s.rooms ≡ none
    → Keeps (open_group c s p wanted players)
unfolding open_group
open_group-IsLobby c s p wanted players h fresh =
    Ensures-bind LobbyAfter (mode_of c wanted) _
      λ mode _. create_room-IsLobby c s p group mode players h fresh

pub decline_invite-IsLobby : (s : State) (p id : Text) → IsLobby s → Keeps (decline_invite s p id)
unfolding decline_invite
decline_invite-IsLobby s p id h = declined_found (find_invite (declinable p id) s.invites)
  where
    declined_found : (found : Option Invitation) → Keeps (decline_found s found)
    declined_found none = tt
    declined_found (some i) = same-IsLobby s _ refl refl h

enter_room-IsLobby :
    (c : Context) (s : State) (p room : Text) (r : LobbyRoom)
    → IsLobby s
    → places p s ≡ 0
    → find_room room s.rooms ≡ some r
    → IsLobby (enter_room c s p r).0
enter_room-IsLobby c s p room r h free e = same-IsLobby _ _ refl refl (
    enter-IsLobby s r _ p h free (find_room-In room s.rooms e) refl λ q.
      pushed-places (is_closed r.status) q r.members
        (new_member p c.now (next_position r.members) c.now))

pub join_room-IsLobby :
    (c : Context) (s : State) (p room : Text) → IsLobby s → Keeps (join_room c s p room)
unfolding join_room
join_room-IsLobby c s p room h = joined (find_room room s.rooms) refl
  where
    joined :
        (found : Option LobbyRoom) → find_room room s.rooms ≡ found → Keeps (join_found c s p found)
    joined none e = tt
    joined (some r) e = Ensures-throw LobbyAfter (is_closed r.status) room_expired _ λ _.
        Ensures-if LobbyAfter (has_member p r.members) _ _ (λ _. h)
          λ _. available-Keeps s p _ λ free.
            Ensures-throw LobbyAfter
              (not (is_group r.kind)
                && not (is_some (find_invite (invites_to c.now r.id p) s.invites)))
              reserved_invitation _
              λ _.
                Ensures-throw LobbyAfter (leb (capacity_of r.kind) (length r.members)) room_full _
                  λ _.
                    Ensures-throw LobbyAfter (any_blocked c p r.members) room_unavailable _
                      λ _. enter_room-IsLobby c s p room r h free e
