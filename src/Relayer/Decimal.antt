-- ===== src/Relayer/Decimal.antt =====
-- The texts that relayer/src/authority-keeper.ts puts in its templates: a number that is not negative in
-- decimal, as the language writes it, and parts that are joined by colons.
use pongit.Common.{
  ℕ, zero, suc, ◌+◌, ◌-◌, ◌*◌, ◌/◌, ◌%◌, ◌<◌, ◌≡◌, ◌≢◌, refl, sym, ap, ap₂, ◌∙◌, Bool, ltb, true,
  false, arith, [], ◌∷◌, ◌++◌, All, Text,
}

-- The digits of a number before a text; a digit for each unit of fuel.
abbrev digits : ℕ → ℕ → Text → Text
digits zero n text = text
digits (suc fuel) n text = elim (ltb n 10) [
  | true ↦ (b'0' + n) ∷ text
  | false ↦ digits fuel (n / 10) ((b'0' + n % 10) ∷ text)
]

-- `${n}`
unfoldable pub show : ℕ → Text
show n = digits (suc n) n []

-- The number that digits continue.
abbrev read : ℕ → Text → ℕ
read n [] = n
read n (c ∷ cs) = read (10 * n + (c - b'0')) cs

-- A text that depends on a test.
by_test :
    (Q : Text → Type 0) (b : Bool) (x y : Text)
    → (b ≡ true → Q x)
    → (b ≡ false → Q y)
    → Q (elim b [ true ↦ x | false ↦ y ])
by_test Q true x y h k = h refl
by_test Q false x y h k = k refl

read-digits : (fuel n : ℕ) (text : Text) → n < fuel → read 0 (digits fuel n text) ≡ read n text
read-digits zero n text h = absurd (omega arith)
read-digits (suc fuel) n text h =
    by_test (λ x. read 0 x ≡ read n text) (ltb n 10) _ _ (λ _. ap (λ k. read k text) (one n))
      λ e.
        read-digits fuel (n / 10) ((b'0' + n % 10) ∷ text) (smaller n fuel e h)
        ∙ ap (λ k. read k text) (joined n)
  where
    one : (n : ℕ) → 10 * 0 + (b'0' + n - b'0') ≡ n
    one n = omega arith

    joined : (n : ℕ) → 10 * (n / 10) + (b'0' + n % 10 - b'0') ≡ n
    joined n = omega arith

    smaller : (n fuel : ℕ) → ltb n 10 ≡ false → n < suc fuel → n / 10 < fuel
    smaller n fuel e h = ground arith

-- Two numbers with one text are one number.
pub show-injective : (m n : ℕ) → show m ≡ show n → m ≡ n
unfolding show
show-injective m n e =
    sym (read-digits (suc m) m [] (omega arith))
    ∙ (ap (read 0) e ∙ read-digits (suc n) n [] (omega arith))

module _ (P : ℕ → Type 0) (digit : (d : ℕ) → d < 10 → P (b'0' + d)) where
  digits-All : (fuel n : ℕ) (text : Text) → All P text → All P (digits fuel n text)
  digits-All zero n text h = h
  digits-All (suc fuel) n text h =
      by_test (All P) (ltb n 10) _ _ (λ e. (digit n (small n e), h))
        λ _. digits-All fuel (n / 10) ((b'0' + n % 10) ∷ text) (digit (n % 10) (omega arith), h)
    where
      small : (n : ℕ) → ltb n 10 ≡ true → n < 10
      small n e = ground arith

  -- What every digit satisfies.
  pub show-All : (n : ℕ) → All P (show n)
  unfolding show
  show-All n = digits-All (suc n) n [] tt

abbrev pub colon : ℕ
colon = b':'

abbrev pub HasNoColon : Text → Type 0
HasNoColon text = All (λ c. c ≢ colon) text

pub show-HasNoColon : (n : ℕ) → HasNoColon (show n)
show-HasNoColon n = show-All (λ c. c ≢ colon) (λ d h. not_colon d h) n
  where
    not_colon : (d : ℕ) → d < 10 → b'0' + d ≢ colon
    not_colon d h = ground arith

-- The first part of a text that colons divide.
pub split_at_colon :
    (x y r q : Text)
    → HasNoColon x
    → HasNoColon y
    → x ++ (colon ∷ r) ≡ y ++ (colon ∷ q)
    → (x ≡ y) × (r ≡ q)
split_at_colon [] [] r q h k e = (refl, cc)
split_at_colon [] (b ∷ y) r q h (k, ks) e = absurd (k (cc))
split_at_colon (a ∷ x) [] r q (h, hs) k e = absurd (h (cc))
split_at_colon (a ∷ x) (b ∷ y) r q (h, hs) (k, ks) e =
    let head_ : a ≡ b = cc in
    let tail_ : x ++ (colon ∷ r) ≡ y ++ (colon ∷ q) = cc in
    let (same, rest) = split_at_colon x y r q hs ks tail_ in (ap₂ ◌∷◌ head_ same, rest)
