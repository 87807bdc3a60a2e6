-- ===== src/Rooms/Lobby/Readiness.antt =====
-- Who is ready for a duel: the list that `prepareRoomLaunch` makes.
use pongit.Common.{
  ◌≡◌, refl, sym, subst, ◌⊎◌, inl, inr, Bool, true, false, arith, if◌then◌else◌, Bool-cases, List,
  [], ◌∷◌, ◌++◌, All, Text, text_eq, text_eq-≡, text_eq_refl,
}
use pongit.Rooms.Lobby.{LobbyOffer}
use pongit.Rooms.Lobby.Acceptance.{
  includes, plays, without, unique, keep_players, launch_ready, now_ready,
}

includes-append :
    (p : Text) (xs ys : List Text)
    → (includes p xs ≡ true) ⊎ (includes p ys ≡ true)
    → includes p (xs ++ ys) ≡ true
includes-append p [] ys (inl h) = absurd (cc)
includes-append p [] ys (inr h) = h
includes-append p (x ∷ xs) ys h = elim (Bool-cases (text_eq x p)) [
  | inl e ↦ rw e refl
  | inr e ↦ rw e (includes-append p xs ys (behind h e))
]
  where
    behind :
        ((if text_eq x p then true else includes p xs) ≡ true) ⊎ (includes p ys ≡ true)
        → text_eq x p ≡ false
        → (includes p xs ≡ true) ⊎ (includes p ys ≡ true)
    behind h e = ground arith

later : (b c : Bool) → b ≡ false → (if b then true else c) ≡ true → c ≡ true
later b c e h = ground arith

-- A text that is not left out stays.
includes-without :
    (p q : Text) (xs : List Text)
    → text_eq q p ≡ false
    → includes p xs ≡ true
    → includes p (without q xs) ≡ true
includes-without p q [] off h = h
includes-without p q (x ∷ xs) off h = elim (Bool-cases (text_eq x q)) [
  | inl e ↦
      let other = subst (λ y. text_eq y p ≡ false) (sym (text_eq-≡ x q e)) off in
      rw e (includes-without p q xs off (later (text_eq x p) _ other h))
  | inr e ↦ rw e (elim (Bool-cases (text_eq x p)) [
    | inl f ↦ rw f refl
    | inr f ↦ rw f (includes-without p q xs off (later (text_eq x p) _ f h))
  ])
]

includes-unique : (p : Text) (xs : List Text) → includes p xs ≡ true → includes p (unique xs) ≡ true
includes-unique p [] h = h
includes-unique p (x ∷ xs) h = elim (Bool-cases (text_eq x p)) [
  | inl e ↦ rw e refl
  | inr e ↦
      rw e (includes-without p x (unique xs) e (includes-unique p xs (later (text_eq x p) _ e h)))
]

includes-keep_players :
    (offer : LobbyOffer) (p : Text) (xs : List Text)
    → plays offer p ≡ true
    → includes p xs ≡ true
    → includes p (keep_players offer xs) ≡ true
includes-keep_players offer p [] in_ h = h
includes-keep_players offer p (x ∷ xs) in_ h = elim (Bool-cases (text_eq x p)) [
  | inl e ↦
      let kept = subst (λ y. plays offer y ≡ true) (sym (text_eq-≡ x p e)) in_ in
      rw kept (rw e refl)
  | inr e ↦
      let rest = includes-keep_players offer p xs in_ (later (text_eq x p) _ e h) in
      elim (Bool-cases (plays offer x)) [ inl f ↦ rw f (rw e rest) | inr f ↦ rw f rest ]
]

-- Ready are the player, who was ready before, and who has accepted, where they play.
pub now_ready-includes :
    (offer : LobbyOffer) (player p : Text)
    → plays offer p ≡ true
    → (p ≡ player)
      ⊎ ((includes p (launch_ready offer.launch) ≡ true) ⊎ (includes p offer.accepted ≡ true))
    → includes p (now_ready offer player) ≡ true
now_ready-includes offer player p in_ h = includes-keep_players offer p _ in_ (
    includes-unique p _
      (includes-append p (launch_ready offer.launch) (offer.accepted ++ (player ∷ [])) (parts h)))
  where
    parts :
        (p ≡ player)
          ⊎ ((includes p (launch_ready offer.launch) ≡ true) ⊎ (includes p offer.accepted ≡ true))
        → (includes p (launch_ready offer.launch) ≡ true)
          ⊎ (includes p (offer.accepted ++ (player ∷ [])) ≡ true)
    parts (inl e) = inr (
        includes-append p offer.accepted (player ∷ [])
          (inr (subst (λ x. includes p (x ∷ []) ≡ true) e (rw (text_eq_refl p) refl))))
    parts (inr (inl h)) = inl h
    parts (inr (inr h)) = inr (includes-append p offer.accepted (player ∷ []) (inl h))

-- Nobody else is ready.
pub now_ready-plays :
    (offer : LobbyOffer) (player : Text) → All (λ p. plays offer p ≡ true) (now_ready offer player)
now_ready-plays offer player =
    kept (unique (launch_ready offer.launch ++ (offer.accepted ++ (player ∷ []))))
  where
    kept : (xs : List Text) → All (λ p. plays offer p ≡ true) (keep_players offer xs)
    kept [] = tt
    kept (x ∷ xs) = elim (Bool-cases (plays offer x)) [
      | inl e ↦ rw e (e, kept xs)
      | inr e ↦ rw e (kept xs)
    ]
