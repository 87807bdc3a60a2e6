-- ===== src/Chaos/Effects/Slots.antt =====
-- The two slots of shared/chaos-effects.ts: their invariant, and what each operation does to them.
use pongit.Common.{
  ℕ, zero, suc, ◌+◌, ◌-◌, ◌≤◌, ◌<◌, ◌≡◌, ◌≢◌, refl, sym, ap, ◌∙◌, ◌⊎◌, inl, inr, false, arith, ◌==◌,
  Ensures, Result-cases, Bool-cases, Returns, Returns-ok, Returns-each, ok, leb, if◌then◌else◌,
  get_elem?, List, [], ◌∷◌, length, subst, some, none, Option, All, All-get_elem?,
}
use pongit.Chaos.Catalogue.{chaos_event, chaos_events, event_at, check_event, ChaosEventDefinition}
use pongit.Chaos.Effects.{
  RuntimeEffect, EffectPair, slot_of, set_slot, expire_effects, announce_effect, u32, charges,
}

-- A slot is free, or holds an event of the catalogue with a start before its end.
abbrev pub IsEffect : RuntimeEffect → Type 0
IsEffect e =
    (e.id ≡ 0)
    ⊎ ((1 ≤ e.id)
        × (e.id ≤ 24)
        × (e.target ≤ 2)
        × (e.starts_at < e.expires_at)
        × (e.expires_at ≤ 0xffffffff))

-- The slots are sound and never hold one event twice.
pub record IsSound (p : EffectPair) : Type 0 where
  pub first_sound : IsEffect p.first
  pub second_sound : IsEffect p.second
  pub distinct : p.first.id ≡ p.second.id → p.first.id ≡ 0

-- An event that the catalogue knows has its number and a duration of 5 to 12 seconds.
abbrev pub IsKnown : ℕ → ChaosEventDefinition → Type 0
IsKnown id d = (1 ≤ id) × (id ≤ 24) × (d.id ≡ id) × (5000 ≤ d.duration_ms) × (d.duration_ms ≤ 12000)

abbrev IsListed : ChaosEventDefinition → Type 0
IsListed d = (1 ≤ d.id) × (d.id ≤ 24) × (5000 ≤ d.duration_ms) × (d.duration_ms ≤ 12000)

catalogue-IsListed : All IsListed chaos_events
catalogue-IsListed = omega arith

listed : (id : ℕ) {d : ChaosEventDefinition} → event_at id ≡ some d → IsListed d
listed id e = elim (Bool-cases (id == 0)) [
  | inl zero' ↦ let e' = simp zero' at e in cc e'
  | inr other ↦ All-get_elem? IsListed chaos_events (id - 1) catalogue-IsListed (simp other at e)
]

-- The event at a place has the number of the place.
abbrev Numbered : ℕ → List ChaosEventDefinition → Type 0
Numbered n [] = Unit
Numbered n (e ∷ es) = (e.id ≡ n) × Numbered (suc n) es

abbrev Found : ℕ → Option ChaosEventDefinition → Type 0
Found n none = ⊥
Found n (some d) = d.id ≡ n

Numbered-Found :
    (n k : ℕ) (l : List ChaosEventDefinition)
    → Numbered n l
    → k < length l
    → Found (n + k) (get_elem? l k)
Numbered-Found n k [] h lt = absurd (omega arith)
Numbered-Found n zero (e ∷ es) h lt = omega (arith, h.0)
Numbered-Found n (suc k) (e ∷ es) h lt =
    subst (λ m. Found m (get_elem? es k)) (omega arith)
      (Numbered-Found (suc n) k es h.1 (omega arith))

catalogue-Numbered : Numbered 1 chaos_events
catalogue-Numbered = omega arith

found : (id : ℕ) → 1 ≤ id → id ≤ 24 → Found id (event_at id)
found id lo hi = simp (positive id lo) (
    subst (λ m. Found m (get_elem? chaos_events (id - 1))) (omega arith)
      (Numbered-Found 1 (id - 1) chaos_events catalogue-Numbered (omega arith)))
  where
    positive : (k : ℕ) → 1 ≤ k → (k == 0) ≡ false
    positive k h = ground arith

pub chaos_event-IsKnown : (id : ℕ) → 1 ≤ id → id ≤ 24 → Returns (IsKnown id) (chaos_event id)
unfolding chaos_event
chaos_event-IsKnown id lo hi = go (event_at id) (found id lo hi) (λ d. listed id)
  where
    go :
        (o : Option ChaosEventDefinition)
        → Found id o
        → ((d : ChaosEventDefinition) → o ≡ some d → IsListed d)
        → Returns (IsKnown id) (check_event id o)
    go none f h = absurd f
    go (some d) f h = ground (arith, h d refl)

-- The event that the catalogue returns is the one at its place.
event_at-once :
    (id : ℕ) (d : ChaosEventDefinition)
    → chaos_event id ≡ ok d
    → (x : ChaosEventDefinition) → event_at id ≡ some x
    → x ≡ d
unfolding chaos_event
event_at-once id d e x f = go (event_at id) e f
  where
    go : (o : Option ChaosEventDefinition) → check_event id o ≡ ok d → o ≡ some x → x ≡ d
    go none e f = absurd (cc)
    go (some y) e f = ground (arith, e, f)

expire-IsSound : (p : EffectPair) (now : ℕ) → IsSound p → IsSound (expire_effects p now).0
unfolding expire_effects
expire-IsSound p now h = ground arith

-- The effect of an announcement: on its side, or on both from event 12 on; with its uses, its serial
-- number and its variant: three bricks, one shield or hit, or nothing that is counted; one second from now, and as long as the catalogue says.
pub record IsNewEffect (id target variant serial now : ℕ) (e : RuntimeEffect) : Type 0 where
  pub announced : e.id ≡ id
  pub side : e.target ≡ (if leb 12 id then 2 else target)
  pub bricks : id ≡ 19 → e.remaining ≡ 7
  pub used_once : (id ≡ 3) ⊎ (id ≡ 4) ⊎ (id ≡ 5) → e.remaining ≡ 1
  pub uncounted : id ≢ 19 → id ≢ 3 → id ≢ 4 → id ≢ 5 → e.remaining ≡ 0
  pub numbered : e.serial ≡ serial
  pub varied : e.variant ≡ variant
  pub starts : e.starts_at ≡ now + 1000
  pub lasts :
      (d : ChaosEventDefinition) → event_at id ≡ some d → e.expires_at ≡ now + 1000 + d.duration_ms

-- An announced effect stands in a slot that was free; the other slot only loses what has expired.
pub record IsAnnounced (p : EffectPair) (id target variant serial now : ℕ) (r : EffectPair × ℕ)
    : Type 0 where
  pub sound : IsSound r.0
  pub slot_known : (r.1 ≡ 0) ⊎ (r.1 ≡ 1)
  pub was_free : (slot_of (expire_effects p now).0 r.1).id ≡ 0
  pub other_kept : slot_of r.0 (1 - r.1) ≡ slot_of (expire_effects p now).0 (1 - r.1)
  pub effect : IsNewEffect id target variant serial now (slot_of r.0 r.1)

-- The event is not running, and a slot is free once the expired effects are gone.
abbrev pub HasPlace : EffectPair → ℕ → Type 0
HasPlace p id = (p.first.id ≢ id) × (p.second.id ≢ id) × ((p.first.id ≡ 0) ⊎ (p.second.id ≡ 0))

abbrev IsFull : EffectPair → ℕ → Type 0
IsFull p id = (p.first.id ≡ id) ⊎ (p.second.id ≡ id) ⊎ ((p.first.id ≢ 0) × (p.second.id ≢ 0))

-- An effect in a free slot.
placed-IsSound :
    (q : EffectPair) (k : ℕ) (e : RuntimeEffect)
    → IsSound q
    → IsEffect e
    → HasPlace q e.id
    → (k ≡ 0) ⊎ (k ≡ 1)
    → IsSound (set_slot q k e)
placed-IsSound q k e h sound place known = ground arith

placed-slots :
    (q : EffectPair) (k : ℕ) (e : RuntimeEffect)
    → (k ≡ 0) ⊎ (k ≡ 1)
    → (slot_of (set_slot q k e) k ≡ e) × (slot_of (set_slot q k e) (1 - k) ≡ slot_of q (1 - k))
placed-slots q k e known = ground arith

abbrev new_effect : ℕ → ℕ → ℕ → ℕ → ℕ → ChaosEventDefinition → RuntimeEffect
new_effect id target variant serial now d = record {
  id = id;
  target = if leb 12 id then 2 else target;
  remaining = charges id;
  serial = serial;
  starts_at = now + 1000;
  expires_at = now + 1000 + d.duration_ms;
  variant = variant;
}

-- The effect is put in a free slot.
abbrev IsPlaced : EffectPair → RuntimeEffect → EffectPair × ℕ → Type 0
IsPlaced q e r = ((r.1 ≡ 0) ⊎ (r.1 ≡ 1)) × ((slot_of q r.1).id ≡ 0) × (r ≡ (set_slot q r.1 e, r.1))

announce-IsPlaced :
    (p : EffectPair) (id target variant serial now : ℕ) (d : ChaosEventDefinition)
    → chaos_event id ≡ ok d
    → d.duration_ms ≤ 12000
    → target ≤ 1
    → HasPlace (expire_effects p now).0 id
    → variant ≤ 0xffffffff
    → serial ≤ 0xffffffff
    → now + 13000 ≤ 0xffffffff
    → Returns
        (IsPlaced (expire_effects p now).0 (new_effect id target variant serial now d))
        (announce_effect p id target variant serial now)
unfolding announce_effect u32
announce-IsPlaced p id target variant serial now d e short t place v s n = simp e (ground arith)

new_effect-lem :
    (id target variant serial now : ℕ) (d : ChaosEventDefinition)
    → chaos_event id ≡ ok d
    → IsNewEffect id target variant serial now (new_effect id target variant serial now d)
new_effect-lem id target variant serial now d e = ground (arith, event_at-once id d e)

new_effect-IsEffect :
    (id target variant serial now : ℕ) (d : ChaosEventDefinition)
    → IsKnown id d
    → target ≤ 1
    → now + 13000 ≤ 0xffffffff
    → IsEffect (new_effect id target variant serial now d)
new_effect-IsEffect id target variant serial now d known t n = ground arith

placed-IsAnnounced :
    (p : EffectPair) (id target variant serial now : ℕ) (d : ChaosEventDefinition)
    (r : EffectPair × ℕ)
    → IsSound p
    → chaos_event id ≡ ok d
    → IsKnown id d
    → target ≤ 1
    → now + 13000 ≤ 0xffffffff
    → HasPlace (expire_effects p now).0 id
    → IsPlaced (expire_effects p now).0 (new_effect id target variant serial now d) r
    → IsAnnounced p id target variant serial now r
placed-IsAnnounced p id target variant serial now d r h e known t n place (at, free, same) =
    let q = (expire_effects p now).0 in
    let new = new_effect id target variant serial now d in
    let sound = new_effect-IsEffect id target variant serial now d known t n in
    let (here, there) = placed-slots q r.1 new at in
    let pair = ap (λ x. x.0) same in
    record {
      sound =
          subst IsSound (sym pair)
            (placed-IsSound q r.1 new (expire-IsSound p now h) sound place at);
      slot_known = at;
      was_free = free;
      other_kept = ap (λ x. slot_of x (1 - r.1)) pair ∙ there;
      effect =
          subst (IsNewEffect id target variant serial now)
            (sym (ap (λ x. slot_of x r.1) pair ∙ here))
            (new_effect-lem id target variant serial now d e);
    }

-- On sound slots, one of the 24 events that does not run and finds a free slot once the expired
-- effects are gone is announced for either side, with numbers that stay within 32 bits: in a slot that
-- was free stands the event with its uses, serial number and variant, on the side that is asked or on
-- both from event 12 on, from one second from now and exactly as long as the catalogue says; the other
-- slot only loses what has expired, and the slots stay sound.
pub announce-IsAnnounced :
    (p : EffectPair) (id target variant serial now : ℕ)
    → IsSound p
    → 1 ≤ id
    → id ≤ 24
    → target ≤ 1
    → HasPlace (expire_effects p now).0 id
    → variant ≤ 0xffffffff
    → serial ≤ 0xffffffff
    → now + 13000 ≤ 0xffffffff
    → Returns
        (IsAnnounced p id target variant serial now)
        (announce_effect p id target variant serial now)
announce-IsAnnounced p id target variant serial now h lo hi t place v s n =
    elim (Result-cases (chaos_event id)) [
      | inl (d, e) ↦
          let known = Returns-ok (IsKnown id) (chaos_event id) (chaos_event-IsKnown id lo hi) e in
          let (least, most, numbered, long, short) = known in
          Returns-each
            (IsPlaced (expire_effects p now).0 (new_effect id target variant serial now d))
            (IsAnnounced p id target variant serial now) _
            (announce-IsPlaced p id target variant serial now d e short t place v s n)
            (λ r k. placed-IsAnnounced p id target variant serial now d r h e known t n place k)
      | inr (f, e) ↦ absurd (subst (Returns (IsKnown id)) e (chaos_event-IsKnown id lo hi))
    ]

-- An announcement is refused of an event, with a number that is not 0, that still runs once the
-- expired effects are gone, or that then finds both slots taken.
announce_refused :
    (p : EffectPair) (id target variant serial now : ℕ)
    → 1 ≤ id
    → IsFull (expire_effects p now).0 id
    → Ensures (λ _. ⊥) (announce_effect p id target variant serial now)
unfolding announce_effect
announce_refused p id target variant serial now lo full = ground arith
