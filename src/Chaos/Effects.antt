-- ===== src/Chaos/Effects.antt =====
-- shared/chaos-effects.ts: the two slots of running effects. Times are milliseconds of the game
-- clock and never negative; a bit mask is a number.
pub mod Slots
pub mod Uses
use Prim.Native.Nat.{bit_or}
use pongit.Common.{
  ℕ, ◌+◌, ◌-◌, ◌*◌, ◌/◌, ◌%◌, ◌^◌, ◌≡◌, Bool, true, false, not, ◌&&◌, ◌||◌, ltb, leb, ◌==◌,
  if◌then◌else◌, Result, ok, err, ◌>>=◌, ◌>>◌, throw_if, invalid_effect, duplicate_effect,
  no_effect_slot,
}
use pongit.Common.Int.{ℤ, pos, negsuc, ltb_ℤ, eqb_ℤ}
use pongit.Chaos.Catalogue.{chaos_event}

pub record RuntimeEffect : Type 0 where
  pub id : ℕ
  pub target : ℕ
  pub remaining : ℕ
  pub serial : ℕ
  pub starts_at : ℕ
  pub expires_at : ℕ
  pub variant : ℕ

pub record EffectPair : Type 0 where
  pub first : RuntimeEffect
  pub second : RuntimeEffect

abbrev pub empty_effect : RuntimeEffect
empty_effect = record {
  id = 0;
  target = 0;
  remaining = 0;
  serial = 0;
  starts_at = 0;
  expires_at = 0;
  variant = 0;
}

abbrev pub empty_effects : EffectPair
empty_effects = record { first = empty_effect; second = empty_effect }

-- `effects[slot]` for the slots 0 and 1.
abbrev pub slot_of : EffectPair → ℕ → RuntimeEffect
slot_of p slot = if slot == 0 then p.first else p.second

abbrev pub set_slot : EffectPair → ℕ → RuntimeEffect → EffectPair
set_slot p slot e = if slot == 0 then record p { first = e } else record p { second = e }

unfoldable pub u32 : ℕ → Result ℕ
u32 x = if ltb 0xffffffff x then err invalid_effect else ok x

abbrev pub charges : ℕ → ℕ
charges id = if id == 19 then 7 else if id == 3 || id == 4 || id == 5 then 1 else 0

unfoldable pub active_effect : RuntimeEffect → ℕ → Bool
active_effect e now = not (e.id == 0) && leb e.starts_at now && ltb now e.expires_at

abbrev expired : RuntimeEffect → ℕ → Bool
expired e now = not (e.id == 0) && leb e.expires_at now

unfoldable pub expire_effects : EffectPair → ℕ → EffectPair × ℕ
expire_effects source now =
    let effects : EffectPair = record {
      first = if expired source.first now then empty_effect else source.first;
      second = if expired source.second now then empty_effect else source.second;
    } in
    let mask : ℕ =
      (if expired source.first now then 1 else 0) + (if expired source.second now then 2 else 0) in
    (effects, mask)

-- The bits of the events that may not be drawn.
abbrev exclude : ℕ → ℕ → RuntimeEffect → ℕ
exclude now mask e =
    if not (e.id == 0) && ltb now e.expires_at then bit_or mask (2 ^ (e.id - 1)) else mask

unfoldable pub excluded_effects : EffectPair → ℕ → ℕ
excluded_effects p now = exclude now (exclude now 0 p.first) p.second

unfoldable pub announce_effect : EffectPair → ℕ → ℕ → ℕ → ℕ → ℕ → Result (EffectPair × ℕ)
announce_effect source id target variant serial now = do
  throw_if (not (target == 0) && not (target == 1)) invalid_effect
  definition ← chaos_event id
  let effects = (expire_effects source now).0
  throw_if (effects.first.id == id || effects.second.id == id) duplicate_effect
  let slot : ℕ = if effects.first.id == 0 then 0 else if effects.second.id == 0 then 1 else 2
  throw_if (slot == 2) no_effect_slot
  start ← u32 (now + 1000)
  serial' ← u32 serial
  expires ← u32 (start + definition.duration_ms)
  variant' ← u32 variant
  let e : RuntimeEffect = record {
    id = id;
    target = if leb 12 id then 2 else target;
    remaining = charges id;
    serial = serial';
    starts_at = start;
    expires_at = expires;
    variant = variant';
  }
  ok (set_slot effects slot e, slot)

pub record Shot : Type 0 where
  pub numerator : ℕ
  pub denominator : ℕ
  pub curve_sign : ℤ
  pub consumed_mask : ℕ

pub record Hit : Type 0 where
  pub side : ℕ
  pub last_direction : ℤ
  pub outgoing_vy : ℤ
  pub central : Bool
  pub now : ℕ

-- The body of the loop of `effectPaddleHit` on the effect of slot `i`.
unfoldable pub hit_effect : Hit → ℕ → RuntimeEffect → Shot → RuntimeEffect × Shot
hit_effect h i e shot =
    let stronger : Shot =
      if e.id == 4 || e.id == 9
      then record shot { numerator = shot.numerator * 6; denominator = shot.denominator * 5 }
      else shot in
    let parried : Shot =
      if e.id == 6 && h.central
      then record stronger {
        numerator = stronger.numerator * 13;
        denominator = stronger.denominator * 10;
      }
      else stronger in
    let curved : Shot =
      if e.id == 5
      then record parried {
        curve_sign =
            if not (eqb_ℤ h.last_direction (pos 0))
            then h.last_direction
            else if ltb_ℤ h.outgoing_vy (pos 0)
            then negsuc 0
            else pos 1;
      }
      else parried in
    if not (active_effect e h.now)
    then (e, shot)
    else if e.id == 10 && ltb h.now (e.starts_at + 4000)
    then (record e { target = h.side }, shot)
    else if not (e.target == h.side)
    then (e, shot)
    else if e.id == 4 || e.id == 5
    then (empty_effect, record curved { consumed_mask = curved.consumed_mask + 2 ^ i })
    else (e, curved)

abbrev pub new_shot : Shot
new_shot = record { numerator = 1; denominator = 1; curve_sign = pos 0; consumed_mask = 0 }

unfoldable pub effect_paddle_hit : EffectPair → Hit → Result (EffectPair × Shot)
effect_paddle_hit source h = do
  throw_if
      (not (h.side == 0) && not (h.side == 1)
        || not (
            eqb_ℤ h.last_direction (pos 0)
            || eqb_ℤ h.last_direction (pos 1)
            || eqb_ℤ h.last_direction (negsuc 0)))
      invalid_effect
  let one = hit_effect h 0 source.first new_shot
  let two = hit_effect h 1 source.second one.1
  ok (record { first = one.0; second = two.0 }, two.1)

abbrev pub is_shield : ℕ → ℕ → RuntimeEffect → Bool
is_shield side now e = active_effect e now && e.id == 3 && e.target == side

unfoldable pub consume_shield : EffectPair → ℕ → ℕ → Result (EffectPair × Bool × ℕ)
consume_shield source side now = do
  throw_if (not (side == 0) && not (side == 1)) invalid_effect
  ok (
      if is_shield side now source.first
      then (record source { first = empty_effect }, true, 0)
      else if is_shield side now source.second
      then (record source { second = empty_effect }, true, 1)
      else (source, false, 0))

-- `effects[slot].remaining&=~bit` for a bit that is set.
unfoldable pub break_chaos_brick : EffectPair → ℕ → ℕ → ℕ → Result EffectPair
break_chaos_brick source slot brick now = do
  throw_if
      (not (slot == 0 || slot == 1)
        || not (brick == 0 || brick == 1 || brick == 2)
        || not (active_effect (slot_of source slot) now)
        || not ((slot_of source slot).id == 19))
      invalid_effect
  let e = slot_of source slot
  throw_if (e.remaining / 2 ^ brick % 2 == 0) invalid_effect
  let remaining = e.remaining - 2 ^ brick
  ok (
      set_slot source slot
        (if remaining == 0 then empty_effect else record e { remaining = remaining }))

abbrev is_jackpot : ℕ → RuntimeEffect → Bool
is_jackpot now e = active_effect e now && e.id == 22

unfoldable pub chaos_point_value : EffectPair → ℕ → ℕ
chaos_point_value p now = if is_jackpot now p.first || is_jackpot now p.second then 2 else 1

unfoldable pub collect_chaos_pickup : EffectPair → ℕ → ℕ → ℕ → Result (EffectPair × ℕ)
collect_chaos_pickup source slot last_hitter now = do
  throw_if
      (not (slot == 0 || slot == 1)
        || not (last_hitter == 0 || last_hitter == 1)
        || not (active_effect (slot_of source slot) now)
        || not ((slot_of source slot).id == 24))
      invalid_effect
  let e = slot_of source slot
  let reward = e.variant % 4 + 1
  let other = 1 - slot
  start ← u32 now
  definition ← chaos_event reward
  expires ← u32 (now + definition.duration_ms)
  let updated : RuntimeEffect = record {
    id = reward;
    target = last_hitter;
    remaining = charges reward;
    serial = e.serial;
    starts_at = start;
    expires_at = expires;
    variant = e.variant;
  }
  ok (
    (if (slot_of source other).id == reward && ltb now (slot_of source other).expires_at
        then set_slot (set_slot source other updated) slot empty_effect
        else set_slot source slot updated),
    reward,
  )
