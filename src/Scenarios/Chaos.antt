-- ===== src/Scenarios/Chaos.antt =====
-- Effects and goals of Chaos games at concrete inputs.
use pongit.Common.{ℕ, ◌≡◌, refl, true, false, arith, inl, inr, ok, Returns}
use pongit.Common.Int.{pos}
use pongit.Chaos.Effects.{
  RuntimeEffect, EffectPair, empty_effect, Hit, expire_effects, active_effect, announce_effect,
  effect_paddle_hit, consume_shield, break_chaos_brick, collect_chaos_pickup,
}
use pongit.Chaos.Effects.Slots.{IsSound, IsAnnounced, announce-IsAnnounced}
use pongit.Chaos.Effects.Uses.{
  IsHit, effect_paddle_hit-IsHit, IsCollected, collect_chaos_pickup-IsCollected,
}
use pongit.Chaos.Rally.{ChaosScore, resolve_chaos_goals, IsResolved, resolve_chaos_goals-IsResolved}
use pongit.Chaos.Modifiers.{
  ModifierEffect, bad_modifier, chaos_paddles, IsPaddles, chaos_paddles-IsPaddles,
}

abbrev running : ℕ → ℕ → RuntimeEffect
running id remaining = record {
  id = id;
  target = 0;
  remaining = remaining;
  serial = 1;
  starts_at = 1000;
  expires_at = 9000;
  variant = 2;
}

abbrev boosted : EffectPair
boosted = record { first = running 4 1; second = running 6 0 }

boosted-IsSound : IsSound boosted
boosted-IsSound = ground arith

announce_example :
    Returns (IsAnnounced boosted 13 1 0 7 10000) (announce_effect boosted 13 1 0 7 10000)
unfolding expire_effects
announce_example =
    announce-IsAnnounced boosted 13 1 0 7 10000 boosted-IsSound (omega arith) (omega arith)
      (omega arith) (ground arith) (omega arith) (omega arith) (omega arith)

abbrev hit : Hit
hit = record { side = 0; last_direction = pos 1; outgoing_vy = pos 5; central = true; now = 2000 }

effect_paddle_hit_example : Returns IsHit (effect_paddle_hit boosted hit)
effect_paddle_hit_example =
    effect_paddle_hit-IsHit boosted hit boosted-IsSound (omega arith) (inr (inl refl))

abbrev shielded : EffectPair
shielded = record { first = running 3 1; second = running 19 7 }

shielded-IsSound : IsSound shielded
shielded-IsSound = ground arith

abbrev unshielded : EffectPair
unshielded = record { first = empty_effect; second = running 19 7 }

shield_used : consume_shield shielded 0 2000 ≡ ok (unshielded, true, 0)
unfolding consume_shield active_effect
shield_used = refl

abbrev broken : EffectPair
broken = record { first = running 3 1; second = running 19 5 }

brick_broken : break_chaos_brick shielded 1 1 2000 ≡ ok broken
unfolding break_chaos_brick active_effect
brick_broken = refl

abbrev picked : EffectPair
picked = record { first = running 24 0; second = running 3 1 }

picked-IsSound : IsSound picked
picked-IsSound = ground arith

collect_chaos_pickup_example :
    Returns (IsCollected picked 0 1 2000) (collect_chaos_pickup picked 0 1 2000)
unfolding active_effect
collect_chaos_pickup_example =
    collect_chaos_pickup-IsCollected picked 0 1 2000 picked-IsSound (omega arith) (omega arith) refl
      refl (inr (omega arith)) (omega arith)

abbrev score : ChaosScore
score = record { a = 6; b = 3; rally = 9; finished = false; winner = 0 }

resolve_chaos_goals_example : Returns (IsResolved score 1 true) (resolve_chaos_goals score 1 true)
resolve_chaos_goals_example =
    resolve_chaos_goals-IsResolved score 1 true (ground arith) (omega arith) (omega arith)

abbrev modifier : ℕ → ModifierEffect
modifier id = record { id = id; target = 0; starts_at = 1000; expires_at = 9000; consumed = false }

chaos_paddles_example :
    Returns IsPaddles (chaos_paddles 96000000 72000000 (modifier 1) (modifier 2) 2000)
unfolding bad_modifier
chaos_paddles_example =
    chaos_paddles-IsPaddles 96000000 72000000 (modifier 1) (modifier 2) 2000
      (omega arith, omega arith) (omega arith, omega arith) refl
