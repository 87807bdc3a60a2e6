-- ===== src/Common/Loops.antt =====
-- `for (let i = 0; i < limit; i++) { … }` with a body that may return or throw.
use pongit.Common.Results.{Result, ok, ◌>>=◌, Returns, Returns-bind}
use Prim.Native.Nat.{ℕ, zero, suc, ◌+◌}
use mathlib.Core.Path.{◌≡◌, ap, fun_ext}
use native.Mathlib.Nat.{zero-add, suc-add}

-- One round of the body: it returned from the function, or it reached its end.
pub data Round {ℓ κ} (S : Type ℓ) (R : Type κ) : Type (ℓ ⊔ κ) where
  returned : R → Round S R
  continued : S → Round S R

abbrev pub Outcome {ℓ κ} :
    {S : Type ℓ} {R : Type κ} → (S → Type 0) → (R → Type 0) → Round S R → Type 0
Outcome P Q (returned r) = Q r
Outcome P Q (continued s) = P s

module _ {ℓ κ} {S : Type ℓ} {R : Type κ} where
  abbrev pub proceed : Round S R → (S → Result R) → Result R
  proceed (returned r) k = ok r
  proceed (continued s) k = k s

  unfoldable pub for_loop : ℕ → (S → Result (Round S R)) → (S → Result R) → S → Result R
  for_loop zero body after s = after s
  for_loop (suc n) body after s = body s >>= λ r. proceed r (for_loop n body after)

  -- The invariant rule: no round throws, each keeps `P`, and what is returned satisfies `Q`.
  pub for_loop-Returns :
      (P : S → Type 0) (Q : R → Type 0) (body : S → Result (Round S R)) (after : S → Result R)
      → ((s : S) → P s → Returns (Outcome P Q) (body s))
      → ((s : S) → P s → Returns Q (after s))
      → (n : ℕ) (s : S) → P s
      → Returns Q (for_loop n body after s)
  unfolding for_loop
  for_loop-Returns P Q body after step last zero s h = last s h
  for_loop-Returns P Q body after step last (suc n) s h =
      Returns-bind (Outcome P Q) Q (body s) (λ r. proceed r (for_loop n body after)) (step s h)
        (rest (for_loop-Returns P Q body after step last n))
    where
      rest :
          ((t : S) → P t → Returns Q (for_loop n body after t))
          → (r : Round S R) → Outcome P Q r
          → Returns Q (proceed r (for_loop n body after))
      rest ih (returned r) q = q
      rest ih (continued t) p = ih t p

  -- A loop of `n + m` rounds is a loop of `n` rounds, followed by one of `m`.
  pub for_loop-add :
      (body : S → Result (Round S R)) (after : S → Result R) (n m : ℕ) (s : S)
      → for_loop (n + m) body after s ≡ for_loop n body (for_loop m body after) s
  unfolding for_loop
  for_loop-add body after zero m s = rw zero-add
  for_loop-add body after (suc n) m s =
      rw suc-add (ap (λ f. body s >>= λ r. proceed r f) (fun_ext (for_loop-add body after n m)))
