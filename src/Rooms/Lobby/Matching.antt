-- ===== src/Rooms/Lobby/Matching.antt =====
-- Matched players leave the queue for one room, and stay in one place each.
use pongit.Common.{
  unfound, found-if, counted-if, ℕ, suc, ◌+◌, ◌≤◌, ◌<◌, ◌≡◌, refl, ap, subst, inl, inr, Bool, true,
  false, not, ◌&&◌, arith, leb, ◌==◌, if◌then◌else◌, Bool-cases, List, [], ◌∷◌, ◌++◌, Option, none,
  some, Text, text_eq, text_eq-≡, text_eq_refl,
}
use pongit.Rooms.Lobby.{LobbyRoom, Queued, State}
use pongit.Rooms.Lobby.Table.{find_room, is_queued}
use pongit.Rooms.Lobby.Routes.{leave_queue}
use pongit.Rooms.Lobby.Places.{rooms_places, queue_places, places, IsLobby}
use pongit.Rooms.Lobby.Moves.{rooms-push, push-keys}
use pongit.Rooms.Lobby.Safety.{leave-fewer}
use pongit.Rooms.Lobby.Offers.{
  Pass, distance, width, suits, find_opponent, ranked_room, pair_up, match_first, match_all,
  match_queue, sort_by,
}

-- Who has left the queue is not in it.
left-absent : (p : Text) (qs : List Queued) → queue_places p (leave_queue p qs) ≡ 0
left-absent p [] = refl
left-absent p (q ∷ qs) = elim (Bool-cases (text_eq q.player p)) [
  | inl e ↦ let rest = left-absent p qs in rw e rest
  | inr e ↦ let rest = left-absent p qs in rw e (rw e rest)
]

queued-count : (p : Text) (qs : List Queued) → is_queued p qs ≡ true → 1 ≤ queue_places p qs
queued-count p [] h = absurd (cc)
queued-count p (q ∷ qs) h = counted-if (text_eq q.player p) (is_queued p qs) _ h (queued-count p qs)

-- The places of a player after a pair has got a room: `a` and `b` say whether the player is in the pair.
pair-le :
    (a b : Bool) (room rooms queue left : ℕ)
    → room ≡ rooms + (if a then suc (if b then 1 else 0) else (if b then 1 else 0))
    → rooms + queue ≤ 1
    → left ≤ queue
    → (a ≡ true → (b ≡ false) × (1 ≤ queue) × (left ≡ 0))
    → (b ≡ true → (1 ≤ queue) × (left ≡ 0))
    → room + left ≤ 1
pair-le true true room rooms queue left h k l f g = absurd (ground (arith, (f refl).0))
pair-le true false room rooms queue left h k l f g = let (off, some_, none_) = f refl in omega arith
pair-le false true room rooms queue left h k l f g = let (some_, none_) = g refl in omega arith
pair-le false false room rooms queue left h k l f g = omega arith

module _ (c : Pass) where
  distinct : (b x y z : Bool) → (not b && x && y && z) ≡ true → b ≡ false
  distinct b x y z h = ground arith

  seen-first :
      (p : Text) (q : Queued) (qs : List Queued) → q.player ≡ p → is_queued p (q ∷ qs) ≡ true
  seen-first p q qs e =
      subst (λ x. is_queued x (q ∷ qs) ≡ true) e (let same = text_eq_refl q.player in rw same refl)

  later-true : (b rest : Bool) → rest ≡ true → (if b then true else rest) ≡ true
  later-true true rest h = refl
  later-true false rest h = h

  -- The opponent is in the queue, and is someone else.
  opponent-queued :
      (first second : Queued) (qs : List Queued)
      → find_opponent c first qs ≡ some second
      → (is_queued second.player qs ≡ true) × (text_eq second.player first.player ≡ false)
  opponent-queued first second [] h = absurd (cc)
  opponent-queued first second (q ∷ qs) h =
      elim (found-if (suits c first q) q second (find_opponent c first qs) h) [
        | inl (e, same) ↦ (
          seen-first second.player q qs (ap (λ x. x.player) same),
          subst (λ x. text_eq x.player first.player ≡ false) same
              (distinct (text_eq q.player first.player) (q.mode == first.mode)
                (leb (distance (c.rating first.player first.mode) (c.rating q.player q.mode))
                  (width c first))
                (not (c.blocked first.player q.player)) e),
        )
        | inr later ↦
            let (at, other) = opponent-queued first second qs later in
            (later-true (text_eq q.player second.player) _ at, other)
      ]

  pair_up-places :
      (n : ℕ) (first second : Queued) (s : State) (q : Text)
      → IsLobby s
      → is_queued first.player s.queue ≡ true
      → is_queued second.player s.queue ≡ true
      → text_eq second.player first.player ≡ false
      → places q (pair_up c n first (some second) s) ≤ 1
  unfolding places
  pair_up-places n first second s q h one two other =
      let without_first = leave_queue first.player s.queue in
      let fewer = leave-fewer first.player q s.queue in
      let fewest = leave-fewer second.player q without_first in
      pair-le (text_eq first.player q) (text_eq second.player q) _ (rooms_places q s.rooms)
        (queue_places q s.queue) _ (rooms-push q s.rooms (ranked_room c n first second))
        (h.placed q) (omega arith)
        (λ e.
          let same = text_eq-≡ first.player q e in
          (
            subst (λ x. text_eq second.player x ≡ false) same other,
            subst (λ x. 1 ≤ queue_places x s.queue) same (queued-count first.player s.queue one),
            ground (
              arith,
              fewest,
              subst (λ x. queue_places x without_first ≡ 0) same (left-absent first.player s.queue),
            ),
          ))
        (λ e.
          let same = text_eq-≡ second.player q e in
          (
            subst (λ x. 1 ≤ queue_places x s.queue) same (queued-count second.player s.queue two),
            subst (λ x. queue_places x (leave_queue second.player without_first) ≡ 0) same
                (left-absent second.player without_first),
          ))

  -- No room has the id of a room that is still to be made.
  abbrev pub IsFresh : ℕ → State → Type 0
  IsFresh n s = (k : ℕ) → n ≤ k → find_room (c.room_id k) s.rooms ≡ none

  find-push :
      (id : Text) (rs : List LobbyRoom) (r : LobbyRoom)
      → find_room id rs ≡ none
      → text_eq r.id id ≡ false
      → find_room id (rs ++ (r ∷ [])) ≡ none
  find-push id [] r h e = rw e refl
  find-push id (x ∷ rs) r h e =
      let (off, rest) = unfound (text_eq x.id id) x (find_room id rs) h in
      let more = find-push id rs r rest e in rw off more

  module _ (apart : (m n : ℕ) → m < n → text_eq (c.room_id m) (c.room_id n) ≡ false) where
    abbrev IsReady : ℕ → State → Type 0
    IsReady n s = IsLobby s × IsFresh n s

    pair_up-IsReady :
        (n : ℕ) (first : Queued) (found : Option Queued) (s : State)
        → IsReady n s
        → is_queued first.player s.queue ≡ true
        → find_opponent c first s.queue ≡ found
        → IsReady (suc n) (pair_up c n first found s)
    pair_up-IsReady n first none s (h, fresh) one e = (h, λ k le. fresh k (omega arith))
    pair_up-IsReady n first (some second) s (h, fresh) one e =
        let (two, other) = opponent-queued first second s.queue e in
        let lobby : IsLobby (pair_up c n first (some second) s) = record {
          placed = λ q. pair_up-places n first second s q h one two other;
          keyed = push-keys (ranked_room c n first second) s.rooms h.keyed (fresh n (omega arith));
        } in
        (
          lobby,
          λ k le.
              find-push (c.room_id k) s.rooms (ranked_room c n first second) (fresh k (omega arith))
                (apart n k (omega arith)),
        )

    match_first-IsReady :
        (n : ℕ) (first : Queued) (s : State)
        → IsReady n s
        → IsReady (suc n) (match_first c n first s)
    match_first-IsReady n first s h = chosen (is_queued first.player s.queue) refl
      where
        chosen :
            (b : Bool)
            → is_queued first.player s.queue ≡ b
            → IsReady (suc n) (if b then pair_up c n first (find_opponent c first s.queue) s else s)
        chosen true e = pair_up-IsReady n first (find_opponent c first s.queue) s h e refl
        chosen false e = (h.0, λ k le. h.1 k (omega arith))

    match_all-IsReady :
        (n : ℕ) (firsts : List Queued) (s : State) → IsReady n s → IsLobby (match_all c n firsts s)
    match_all-IsReady n [] s h = h.0
    match_all-IsReady n (first ∷ firsts) s h =
        match_all-IsReady (suc n) firsts (match_first c n first s) (match_first-IsReady n first s h)

-- Matchmaking keeps every player in one place: from such a lobby, with new ids for the rooms that it
-- makes, each pair that it finds leaves the queue for one room.
pub match_queue-IsLobby :
    (c : Pass) (s : State)
    → ((m n : ℕ) → m < n → text_eq (c.room_id m) (c.room_id n) ≡ false)
    → ((n : ℕ) → find_room (c.room_id n) s.rooms ≡ none)
    → IsLobby s
    → IsLobby (match_queue c s)
unfolding match_queue
match_queue-IsLobby c s apart fresh h = matched c.writable
  where
    matched : (b : Bool) → IsLobby (if b then match_all c 0 (sort_by (λ q. q.at) s.queue) s else s)
    matched true = match_all-IsReady c apart 0 (sort_by (λ q. q.at) s.queue) s (h, λ k _. fresh k)
    matched false = h
