-- ===== src/Rooms/Lobby/Countdown.antt =====
-- The expiry of a duel's offer.
use pongit.Common.{
  ℕ, ◌+◌, ◌*◌, ◌<◌, ◌≡◌, ◌↔◌, ◌⊎◌, inl, inr, refl, sym, subst, Bool, true, false, not, ◌||◌, leb,
  arith, Bool-cases, List, [], ◌∷◌, map, All, Option, some,
}
use pongit.Rooms.Members.{RoomMember}
use pongit.Rooms.Lobby.{LobbyOffer, OfferStatus, offered, cancelled, LobbyRoom, waiting}
use pongit.Rooms.Lobby.Acceptance.{
  is_offered, plays, step_aside, phase_is, expire_if, expire_unstarted_room_offer,
}

-- The offer is cancelled, no acceptance is left, and every duellist in the room is away.
abbrev pub HasExpired : LobbyOffer → LobbyRoom → Type 0
HasExpired offer next =
    (next.offer ≡ some (record offer { accepted = []; status = cancelled }))
    × (next.status ≡ waiting)
    × All (λ m. plays offer m.player ≡ true → m.away ≡ true) next.members

abbrev pub IsUnstarted : LobbyOffer → Option ℕ → ℕ → Type 0
IsUnstarted offer phase now =
    (offer.status ≡ offered) × (phase ≡ some 0) × (offer.expires * 1000 + 3000 < now)

step_aside-away :
    (offer : LobbyOffer) (m : RoomMember)
    → plays offer (step_aside offer m).player ≡ true
    → (step_aside offer m).away ≡ true
step_aside-away offer m = elim (Bool-cases (plays offer m.player)) [
  | inl e ↦ rw e (λ _. refl)
  | inr e ↦ rw e (λ h. absurd (apart (plays offer m.player) h e))
]
  where
    apart : (b : Bool) → b ≡ true → b ≡ false → ⊥
    apart b h k = cc

All-away :
    (offer : LobbyOffer) (ms : List RoomMember)
    → All (λ m. plays offer m.player ≡ true → m.away ≡ true) (map (step_aside offer) ms)
All-away offer [] = tt
All-away offer (m ∷ ms) = (step_aside-away offer m, All-away offer ms)

unstarted_iff :
    (status : OfferStatus) (phase : Option ℕ) (limit now : ℕ)
    → ((not (is_offered status) || not (phase_is phase 0) || leb now limit) ≡ false)
      ↔ ((status ≡ offered) × (phase ≡ some 0) × (limit < now))
unstarted_iff status phase limit now = ground arith

apart : {b : Bool} → b ≡ true → b ≡ false → ⊥
apart h k = cc

-- After the call: what it returns, and the room.
abbrev pub Expires : LobbyRoom → Option ℕ → ℕ → LobbyOffer → LobbyRoom × Bool → Type 0
Expires room phase now offer after =
    (IsUnstarted offer phase now × (after.1 ≡ true) × HasExpired offer after.0)
    ⊎ (¬ IsUnstarted offer phase now × (after.1 ≡ false) × (after.0 ≡ room))

expire-cases :
    (room : LobbyRoom) (phase : Option ℕ) (now : ℕ) (offer : LobbyOffer)
    → Expires room phase now offer (expire_if room phase now (some offer))
expire-cases room phase now offer =
    elim (Bool-cases (
      not (is_offered offer.status)
      || not (phase_is phase 0)
      || leb now (offer.expires * 1000 + 3000))) [
        | inl e ↦
            inr (rw e (λ h. apart e ((unstarted_iff offer.status phase _ now).1 h), refl, refl))
        | inr e ↦ inl (
            rw e (
              (unstarted_iff offer.status phase _ now).0 e,
              refl,
              (refl, refl, All-away offer room.members),
            ))
      ]

-- An offer that nobody has taken to the engine expires exactly where it is still offered, the engine
-- says that it has no such match, and more than three seconds have passed since the expiry of the offer.
-- Then the offer is cancelled, no acceptance is left, and every duellist in the room is away; otherwise
-- the room stays as it is.
pub expire_unstarted-cases :
    (room : LobbyRoom) (phase : Option ℕ) (now : ℕ) (offer : LobbyOffer)
    → room.offer ≡ some offer
    → Expires room phase now offer (expire_unstarted_room_offer room phase now)
unfolding expire_unstarted_room_offer
expire_unstarted-cases room phase now offer e =
    subst (λ found. Expires room phase now offer (expire_if room phase now found)) (sym e)
      (expire-cases room phase now offer)
