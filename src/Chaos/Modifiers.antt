-- ===== src/Chaos/Modifiers.antt =====
-- shared/chaos-modifiers.ts: what the running effects make of the paddles. Lengths are microunits,
-- times milliseconds, neither of them negative.
use pongit.Common.{
  ℕ, ◌+◌, ◌*◌, ◌/◌, ◌≤◌, ◌<◌, ◌≡◌, ◌⊎◌, Bool, false, not, ◌||◌, ◌&&◌, arith, leb, ltb, ◌==◌,
  if◌then◌else◌, Result, ok, ◌>>◌, throw_if, invalid_effect_state, Returns,
}
use native.Mathlib.Nat.{div-le_of_le-mul, le-div_iff_mul-le}

pub record ModifierEffect : Type 0 where
  pub id : ℕ
  pub target : ℕ
  pub starts_at : ℕ
  pub expires_at : ℕ
  pub consumed : Bool

pub record Paddles : Type 0 where
  pub height_a : ℕ
  pub height_b : ℕ
  pub speed_a : ℕ
  pub speed_b : ℕ
  pub split_a : Bool
  pub split_b : Bool

-- The fractions `hn/hd` and `vn/vd` of one side, and whether its paddle is split.
pub record Factors : Type 0 where
  pub hn : ℕ
  pub hd : ℕ
  pub vn : ℕ
  pub vd : ℕ
  pub split : Bool

abbrev s_unit : ℕ
s_unit = 1000000

unfoldable pub modifier_active : ModifierEffect → ℕ → Bool
modifier_active e now =
    not (e.id == 0) && not e.consumed && leb e.starts_at now && ltb now e.expires_at

unfoldable pub bad_modifier : ModifierEffect → Bool
bad_modifier e = ltb 24 e.id || ltb 2 e.target || not (e.id == 0) && leb e.expires_at e.starts_at

-- The sizes after the first loop, on one effect.
swap_sizes : ℕ → ModifierEffect → ℕ × ℕ → ℕ × ℕ
swap_sizes now e sizes = if modifier_active e now && e.id == 12 then (sizes.1, sizes.0) else sizes

-- The body of the second loop on an active effect that concerns the side.
scale_paddle : ℕ → ModifierEffect → Factors → Factors
scale_paddle now e f =
    let longer = e.id == 1 || e.id == 23 in
    let shorter = e.id == 7 || e.id == 9 in
    let faster = e.id == 2 in
    let slower = e.id == 8 || e.id == 10 && leb (e.starts_at + 4000) now in
    record {
      hn = if longer then f.hn * 5 else if shorter then f.hn * 4 else f.hn;
      hd = if longer then f.hd * 4 else if shorter then f.hd * 5 else f.hd;
      vn = if faster then f.vn * 13 else if slower then f.vn * 4 else f.vn;
      vd = if faster then f.vd * 10 else if slower then f.vd * 5 else f.vd;
      split = f.split || e.id == 11;
    }

unfoldable pub modify : ℕ → ℕ → ModifierEffect → Factors → Factors
unfolding scale_paddle
modify now side e f =
    if modifier_active e now && (e.target == side || e.id == 23) then scale_paddle now e f else f

abbrev plain : Factors
plain = record { hn = 1; hd = 1; vn = 1; vd = 1; split = false }

unfoldable pub factors : ℕ → ℕ → ModifierEffect → ModifierEffect → Factors
factors now side e1 e2 = modify now side e2 (modify now side e1 plain)

abbrev bound : ℕ → ℕ
bound n =
    if ltb n (64 * s_unit) then 64 * s_unit else if ltb (120 * s_unit) n then 120 * s_unit else n

unfoldable pub chaos_paddles : ℕ → ℕ → ModifierEffect → ModifierEffect → ℕ → Result Paddles
unfolding swap_sizes
chaos_paddles betting_a betting_b e1 e2 now = do
  throw_if
      (ltb betting_a (72 * s_unit)
        || ltb (96 * s_unit) betting_a
        || ltb betting_b (72 * s_unit)
        || ltb (96 * s_unit) betting_b)
      invalid_effect_state
  throw_if (bad_modifier e1 || bad_modifier e2) invalid_effect_state
  let sizes = swap_sizes now e2 (swap_sizes now e1 (betting_a, betting_b))
  let a = factors now 0 e1 e2
  let b = factors now 1 e1 e2
  ok (record {
    height_a = bound (sizes.0 * a.hn / a.hd);
    height_b = bound (sizes.1 * b.hn / b.hd);
    speed_a = 180 * s_unit * a.vn / a.vd;
    speed_b = 180 * s_unit * b.vn / b.vd;
    split_a = a.split;
    split_b = b.split;
  })

-- The height of the half of a split paddle with its gap of 16 units.
pub chaos_outer_half : ℕ → Bool → ℕ
chaos_outer_half solid_height split = (solid_height + (if split then 16000000 else 0)) / 2

modify-speed :
    (now side : ℕ) (e : ModifierEffect) (f : Factors)
    → let r = modify now side e f in
      ((r.vn ≡ f.vn) × (r.vd ≡ f.vd))
      ⊎ ((r.vn ≡ f.vn * 13) × (r.vd ≡ f.vd * 10))
      ⊎ ((r.vn ≡ f.vn * 4) × (r.vd ≡ f.vd * 5))
unfolding modify
modify-speed now side e f = ground arith

abbrev IsSpeedFactor : Factors → Type 0
IsSpeedFactor f = (0 < f.vd) × (f.vd * 16 ≤ f.vn * 25) × (f.vn * 100 ≤ f.vd * 169)

factors-IsSpeedFactor :
    (now side : ℕ) (e1 e2 : ModifierEffect) → IsSpeedFactor (factors now side e1 e2)
unfolding factors
factors-IsSpeedFactor now side e1 e2 =
    ground
      (arith, modify-speed now side e1 plain, modify-speed now side e2 (modify now side e1 plain))

-- The speed of a paddle under two effects at most.
abbrev pub IsPaddleSpeed : ℕ → Type 0
IsPaddleSpeed v = (115200000 ≤ v) × (v ≤ 304200000)

speed-range : (f : Factors) → IsSpeedFactor f → IsPaddleSpeed (180 * s_unit * f.vn / f.vd)
speed-range f (d, lo, hi) =
    ((le-div_iff_mul-le d).1 (omega arith), div-le_of_le-mul f.vd (omega arith))

abbrev IsHeight : ℕ → Type 0
IsHeight h = (64 * s_unit ≤ h) × (h ≤ 120 * s_unit)

-- The paddles of a Chaos rally are within these limits.
pub record IsPaddles (p : Paddles) : Type 0 where
  pub heights : IsHeight p.height_a × IsHeight p.height_b
  pub speeds : IsPaddleSpeed p.speed_a × IsPaddleSpeed p.speed_b

abbrev pub IsBetting : ℕ → Type 0
IsBetting h = (72 * s_unit ≤ h) × (h ≤ 96 * s_unit)

bound-IsHeight : (n : ℕ) → IsHeight (bound n)
bound-IsHeight n = ground arith

in_range :
    (a b : ℕ)
    → IsBetting a
    → IsBetting b
    → (ltb a (72 * s_unit) || ltb (96 * s_unit) a || ltb b (72 * s_unit) || ltb (96 * s_unit) b)
      ≡ false
in_range a b h k = ground arith

-- For betting sizes of 72 to 96 units and two well-formed effects, free or of the catalogue, the
-- call returns; whatever the effects are, the heights are 64 to 120 units, and the speeds 115.2 to
-- 304.2 units per second.
pub chaos_paddles-IsPaddles :
    (a b : ℕ) (e1 e2 : ModifierEffect) (now : ℕ)
    → IsBetting a
    → IsBetting b
    → (bad_modifier e1 || bad_modifier e2) ≡ false
    → Returns IsPaddles (chaos_paddles a b e1 e2 now)
unfolding chaos_paddles
chaos_paddles-IsPaddles a b e1 e2 now h k good =
    let sizes = swap_sizes now e2 (swap_sizes now e1 (a, b)) in
    let f = factors now 0 e1 e2 in
    let g = factors now 1 e1 e2 in
    simp (in_range a b h k, good)
      (record {
        heights = (bound-IsHeight (sizes.0 * f.hn / f.hd), bound-IsHeight (sizes.1 * g.hn / g.hd));
        speeds = (
          speed-range f (factors-IsSpeedFactor now 0 e1 e2),
          speed-range g (factors-IsSpeedFactor now 1 e1 e2),
        );
      })
