-- ===== src/Chaos/Effects/Uses.antt =====
-- The uses of an effect in shared/chaos-effects.ts: hits, shields, bricks and pickups.
use pongit.Common.{
  ℕ, zero, suc, ◌+◌, ◌-◌, ◌*◌, ◌%◌, ◌≤◌, ◌<◌, ◌≡◌, ◌≢◌, refl, ◌⊎◌, inl, inr, Bool, true, false, not,
  ◌&&◌, ◌||◌, arith, ltb, ◌==◌, if◌then◌else◌, ok, err, Returns, Returns-ok, Result-cases, subst,
  invalid_effect,
}
use pongit.Common.Int.{pos, negsuc, eqb_ℤ}
use pongit.Chaos.Catalogue.{chaos_event, ChaosEventDefinition}
use pongit.Chaos.Effects.{
  RuntimeEffect, EffectPair, empty_effect, slot_of, set_slot, active_effect, Hit, Shot, new_shot,
  effect_paddle_hit, hit_effect, consume_shield, break_chaos_brick, collect_chaos_pickup, charges,
  u32,
}
use pongit.Chaos.Effects.Slots.{IsEffect, IsSound, IsKnown, chaos_event-IsKnown}

-- A hit leaves an effect as it is, moves the hot potato, or uses the effect up.
hit-kept :
    (h : Hit) (i : ℕ) (e : RuntimeEffect) (shot : Shot)
    → h.side ≤ 1
    → let e' = (hit_effect h i e shot).0 in
      IsEffect e → IsEffect e' × ((e'.id ≡ e.id) ⊎ (e'.id ≡ 0))
unfolding hit_effect
hit-kept h i e shot s v = ground arith

-- The boost of one effect.
hit-boost :
    (h : Hit) (i : ℕ) (e : RuntimeEffect) (shot : Shot)
    → let r = (hit_effect h i e shot).1 in
      ((r.numerator ≡ shot.numerator) × (r.denominator ≡ shot.denominator))
      ⊎ (((e.id ≡ 4) ⊎ (e.id ≡ 9))
          × (r.numerator ≡ shot.numerator * 6)
          × (r.denominator ≡ shot.denominator * 5))
      ⊎ ((e.id ≡ 6) × (r.numerator ≡ shot.numerator * 13) × (r.denominator ≡ shot.denominator * 10))
unfolding hit_effect
hit-boost h i e shot = ground arith

abbrev refused : Hit → Bool
refused h =
    not (h.side == 0) && not (h.side == 1)
    || not (
        eqb_ℤ h.last_direction (pos 0)
        || eqb_ℤ h.last_direction (pos 1)
        || eqb_ℤ h.last_direction (negsuc 0))

-- What a paddle hit makes of the effects and of the shot.
pub record IsHit (r : EffectPair × Shot) : Type 0 where
  pub sound : IsSound r.0
  pub positive : 0 < r.1.denominator
  pub not_slower : r.1.denominator ≤ r.1.numerator
  pub at_most : r.1.numerator * 50 ≤ r.1.denominator * 78

-- On sound slots a paddle hit of one of the two sides, with a last direction of -1, 0 or 1, keeps
-- the slots sound, never slows the shot, and speeds it up by at most 78/50, the boosts 6/5 and
-- 13/10 together.
pub effect_paddle_hit-IsHit :
    (p : EffectPair) (h : Hit)
    → IsSound p
    → h.side ≤ 1
    → (h.last_direction ≡ pos 0) ⊎ (h.last_direction ≡ pos 1) ⊎ (h.last_direction ≡ negsuc 0)
    → Returns IsHit (effect_paddle_hit p h)
unfolding effect_paddle_hit
effect_paddle_hit-IsHit p h v side dir =
    let shot = (hit_effect h 0 p.first new_shot).1 in
    let good : refused h ≡ false = ground (arith, dir) in
    simp good (
      ground (
        arith,
        hit-kept h 0 p.first new_shot side v.first_sound,
        hit-kept h 1 p.second shot side v.second_sound,
        hit-boost h 0 p.first new_shot,
        hit-boost h 1 p.second shot,
      ))

-- On sound slots a shield that a call reports as consumed leaves its slot empty and the other slot
-- as it was; the slots stay sound, and a second call finds no shield.
consume_shield_once :
    (p : EffectPair) (side now : ℕ) {r : EffectPair × Bool × ℕ}
    → IsSound p
    → consume_shield p side now ≡ ok r
    → r.1 ≡ true
    → IsSound r.0
      × ((slot_of r.0 r.2).id ≡ 0)
      × (slot_of r.0 (1 - r.2) ≡ slot_of p (1 - r.2))
      × (consume_shield r.0 side now ≡ ok (r.0, false, 0))
unfolding consume_shield active_effect
consume_shield_once p side now v e t = ground arith

-- On sound slots, and in a slot with at most the three bricks, a brick breaks once: the call that
-- breaks it keeps the slots sound, and a second call for the same brick is refused.
break_chaos_brick_once :
    (p q : EffectPair) (slot brick now : ℕ)
    → IsSound p
    → (slot_of p slot).remaining ≤ 7
    → break_chaos_brick p slot brick now ≡ ok q
    → IsSound q × (break_chaos_brick q slot brick now ≡ err invalid_effect)
unfolding break_chaos_brick active_effect
break_chaos_brick_once p q slot brick now v le e = ground arith

-- What a pickup makes of the two slots.
pub record IsCollected (p : EffectPair) (slot last_hitter now : ℕ) (r : EffectPair × ℕ)
    : Type 0 where
  pub sound : IsSound r.0
  pub reward_from : 1 ≤ r.1
  pub reward_to : r.1 ≤ 4
  pub spent : (slot_of r.0 slot).id ≢ 24
  pub won :
      let i = if (slot_of r.0 slot).id == 0 then 1 - slot else slot in
      ((slot_of r.0 i).id ≡ r.1)
      × ((slot_of r.0 i).target ≡ last_hitter)
      × ((slot_of r.0 i).starts_at ≡ now)
      × (now + 5000 ≤ (slot_of r.0 i).expires_at)

-- The placing of the reward, once the guards have passed.
abbrev rewarded : EffectPair → ℕ → ℕ → RuntimeEffect → EffectPair
rewarded p slot now updated =
    if (slot_of p (1 - slot)).id == updated.id && ltb now (slot_of p (1 - slot)).expires_at
    then set_slot (set_slot p (1 - slot) updated) slot empty_effect
    else set_slot p slot updated

rewarded-IsCollected :
    (p : EffectPair) (slot last_hitter now : ℕ) (u : RuntimeEffect)
    → IsSound p
    → slot ≤ 1
    → last_hitter ≤ 1
    → ((slot_of p (1 - slot)).id ≡ 0) ⊎ (now < (slot_of p (1 - slot)).expires_at)
    → (1 ≤ u.id)
      × (u.id ≤ 4)
      × (u.target ≡ last_hitter)
      × (u.starts_at ≡ now)
      × (now + 5000 ≤ u.expires_at)
      × (u.expires_at ≤ 0xffffffff)
    → IsCollected p slot last_hitter now (rewarded p slot now u, u.id)
rewarded-IsCollected p zero last_hitter now u v s l fresh h = ground arith
rewarded-IsCollected p (suc zero) last_hitter now u v s l fresh h = ground arith
rewarded-IsCollected p (suc (suc k)) last_hitter now u v s l fresh h = absurd (omega arith)

abbrev pickup_refused : EffectPair → ℕ → ℕ → ℕ → Bool
pickup_refused p slot last_hitter now =
    not (slot == 0 || slot == 1)
    || not (last_hitter == 0 || last_hitter == 1)
    || not (active_effect (slot_of p slot) now)
    || not ((slot_of p slot).id == 24)

accepted :
    (p : EffectPair) (slot last_hitter now : ℕ)
    → slot ≤ 1
    → last_hitter ≤ 1
    → active_effect (slot_of p slot) now ≡ true
    → (slot_of p slot).id ≡ 24
    → pickup_refused p slot last_hitter now ≡ false
accepted p slot last_hitter now s l a e = ground arith

-- On sound slots, and at a time whose next 12 seconds fit in 32 bits, a pickup that runs is taken
-- by the last hitter: one of the first four events runs for them from now on, for at least five
-- seconds; the slots stay sound, and the pickup is gone. The other slot is free or has not
-- expired, as after `expire_effects`.
pub collect_chaos_pickup-IsCollected :
    (p : EffectPair) (slot last_hitter now : ℕ)
    → IsSound p
    → slot ≤ 1
    → last_hitter ≤ 1
    → active_effect (slot_of p slot) now ≡ true
    → (slot_of p slot).id ≡ 24
    → ((slot_of p (1 - slot)).id ≡ 0) ⊎ (now < (slot_of p (1 - slot)).expires_at)
    → now + 12000 ≤ 0xffffffff
    → Returns (IsCollected p slot last_hitter now) (collect_chaos_pickup p slot last_hitter now)
unfolding collect_chaos_pickup u32
collect_chaos_pickup-IsCollected p slot last_hitter now v s l a pickup fresh n =
    let good = accepted p slot last_hitter now s l a pickup in
    elim (Result-cases (chaos_event reward)) [
      | inl (d, e) ↦
          let known =
            Returns-ok (IsKnown reward) (chaos_event reward)
              (chaos_event-IsKnown reward (omega arith) (omega arith)) e in
          let fits : ltb 0xffffffff (now + d.duration_ms) ≡ false = ground (arith, known) in
          let soon : ltb 0xffffffff now ≡ false = ground arith in
          simp (good, soon, e, fits)
            (rewarded-IsCollected p slot last_hitter now (updated d) v s l fresh
              (omega arith, omega arith, refl, refl, omega (arith, known), omega (arith, known)))
      | inr (f, e) ↦ absurd (
          subst (Returns (IsKnown reward)) e
            (chaos_event-IsKnown reward (omega arith) (omega arith)))
    ]
  where
    reward : ℕ
    reward = (slot_of p slot).variant % 4 + 1

    updated : ChaosEventDefinition → RuntimeEffect
    updated d = record {
      id = reward;
      target = last_hitter;
      remaining = charges reward;
      serial = (slot_of p slot).serial;
      starts_at = now;
      expires_at = now + d.duration_ms;
      variant = (slot_of p slot).variant;
    }
