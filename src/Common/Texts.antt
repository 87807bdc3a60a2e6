-- ===== src/Common/Texts.antt =====
-- Texts as lists of character codes.
use Prim.Native.Nat.{ℕ, ◌+◌}
use mathlib.Core.Path.{◌≡◌, refl, ap₂}
use mathlib.Core.Bool.{Bool, true, false, ◌&&◌}
use mathlib.Core.List.{List, [], ◌∷◌, map}
use native.Mathlib.Omega.{arith}
use pongit.Common.Tests.{leb, ◌==◌, ==_iff, if◌then◌else◌}

both-true : (a b : Bool) → (a && b) ≡ true → (a ≡ true) × (b ≡ true)
both-true true b h = (refl, h)
both-true false b h = absurd (cc)

abbrev pub Text : Type 0
Text = List ℕ

abbrev pub text_eq : Text → Text → Bool
text_eq [] [] = true
text_eq (a ∷ as') (b ∷ bs) = a == b && text_eq as' bs
text_eq [] (b ∷ bs) = false
text_eq (a ∷ as') [] = false

pub text_eq_refl : (s : Text) → text_eq s s ≡ true
text_eq_refl [] = refl
text_eq_refl (c ∷ s) = ground (arith, text_eq_refl s)

pub text_eq-≡ : (s t : Text) → text_eq s t ≡ true → s ≡ t
text_eq-≡ [] [] h = refl
text_eq-≡ (a ∷ s) (b ∷ t) h =
    let (same_head, same_tail) = both-true (a == b) (text_eq s t) h in
    ap₂ ◌∷◌ ((==_iff a b).0 same_head) (text_eq-≡ s t same_tail)
text_eq-≡ [] (b ∷ t) h = absurd (cc)
text_eq-≡ (a ∷ s) [] h = absurd (cc)

-- `toLowerCase` on ASCII.
lower : ℕ → ℕ
lower c = if leb b'A' c && leb c b'Z' then c + 32 else c

unfoldable pub to_lower_case : Text → Text
unfolding lower
to_lower_case s = map lower s
