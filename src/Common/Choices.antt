-- ===== src/Common/Choices.antt =====
-- What a choice by a Boolean says of its test: the steps of searches and counts through lists.
use Prim.Native.Nat.{ℕ, suc, ◌+◌, ◌≤◌}
use mathlib.Core.Path.{◌≡◌, refl}
use mathlib.Core.Logic.{◌⊎◌, inl, inr}
use mathlib.Core.Bool.{Bool, true, false}
use mathlib.Core.Option.{Option, none, some}
use native.Mathlib.Omega.{arith}
use pongit.Common.Tests.{if◌then◌else◌}

module _ {A : Type 0} where
  some-injective : (x y : A) → ◌≡◌ {A = Option A} (some x) (some y) → x ≡ y
  some-injective x y h = cc

  pub found-if :
      (b : Bool) (x r : A) (rest : Option A)
      → ◌≡◌ {A = Option A} (if b then some x else rest) (some r)
      → ((b ≡ true) × (x ≡ r)) ⊎ (rest ≡ some r)
  found-if true x r rest h = inl (refl, some-injective x r h)
  found-if false x r rest h = inr h

  pub unfound :
      (b : Bool) (x : A) (rest : Option A)
      → ◌≡◌ {A = Option A} (if b then some x else rest) none
      → (b ≡ false) × (rest ≡ none)
  unfound true x rest h = absurd (cc)
  unfound false x rest h = (refl, h)

pub false-if : (b rest : Bool) → (if b then true else rest) ≡ false → (b ≡ false) × (rest ≡ false)
false-if true rest h = absurd (cc)
false-if false rest h = (refl, h)

pub step-if :
    (b : Bool) (a c d : ℕ) → a ≡ c + d → (if b then suc a else a) ≡ (if b then suc c else c) + d
step-if true a c d h = omega arith
step-if false a c d h = h

pub counted-if :
    (b rest : Bool) (n : ℕ)
    → (if b then true else rest) ≡ true
    → (rest ≡ true → 1 ≤ n)
    → 1 ≤ (if b then suc n else n)
counted-if true rest n h k = omega arith
counted-if false rest n h k = k h
