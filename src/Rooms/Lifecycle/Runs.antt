-- ===== src/Rooms/Lifecycle/Runs.antt =====
-- What a run leaves, whether it returns or throws.
use pongit.Common.{◌≡◌, refl, Bool, true, false, if◌then◌else◌, Option, none, some}
use pongit.Rooms.Lifecycle.{State, Run, returned, threw, Act, continue, await}

-- A run that returns ends in `Q`, one that throws in `E`.
abbrev pub After {ℓ} : {A : Type ℓ} → (State → Type 0) → (A → State → Type 0) → Run A → Type 0
After E Q (returned a s) = Q a s
After E Q (threw e s) = E s

-- A choice between two states, each of which satisfies `P`.
pub choose_state :
    (P : State → Type 0) (b : Bool) (x y : State)
    → (b ≡ true → P x)
    → (b ≡ false → P y)
    → P (if b then x else y)
choose_state P true x y h k = h refl
choose_state P false x y h k = k refl

module _ {ℓ κ} {A : Type ℓ} {B : Type κ} (E : State → Type 0) where
  pub After-continue :
      (Q : A → State → Type 0) (R : B → State → Type 0) (m : Run A) (rest : A → Act B)
      → After E Q m
      → ((a : A) (s : State) → Q a s → After E R (rest a s))
      → After E R (continue m rest)
  After-continue Q R (returned a s) rest h k = k a s h
  After-continue Q R (threw e s) rest h k = h

module _ {ℓ} {A : Type ℓ} (E : State → Type 0) (Q : A → State → Type 0) where
  pub After-if :
      (b : Bool) (x y : Run A)
      → (b ≡ true → After E Q x)
      → (b ≡ false → After E Q y)
      → After E Q (if b then x else y)
  After-if true x y h k = h refl
  After-if false x y h k = k refl

  pub After-choose :
      (b : Bool) (x y : Act A) (s : State)
      → (b ≡ true → After E Q (x s))
      → (b ≡ false → After E Q (y s))
      → After E Q ((if b then x else y) s)
  After-choose true x y s h k = h refl
  After-choose false x y s h k = k refl

  pub After-await :
      {B : Type 0} (answer : Option B) (s : State) (rest : B → Act A)
      → E s
      → ((b : B) → answer ≡ some b → After E Q (rest b s))
      → After E Q (continue (await answer s) rest)
  After-await none s rest h k = h
  After-await (some b) s rest h k = k b refl

-- What returns and what throws both end in `P`.
abbrev pub Keeps {ℓ} : {A : Type ℓ} → (State → Type 0) → Run A → Type 0
Keeps P = After P (λ _. P)

module _ (P : State → Type 0) where
  pub chain :
      {A B : Type 0} (m : Run A) (rest : A → Act B)
      → Keeps P m
      → ((v : A) (t : State) → P t → Keeps P (rest v t))
      → Keeps P (continue m rest)
  chain m rest h k = After-continue P (λ _. P) (λ _. P) m rest h k

  pub reads :
      {A B : Type 0} (answer : Option A) (t : State) (rest : A → Act B)
      → P t
      → ((v : A) → Keeps P (rest v t))
      → Keeps P (continue (await answer t) rest)
  reads answer t rest h k = After-await P (λ _. P) answer t rest h (λ v _. k v)

  pub either :
      {A : Type 0} (b : Bool) (x y : Act A) (t : State)
      → Keeps P (x t)
      → Keeps P (y t)
      → Keeps P ((if b then x else y) t)
  either true x y t h k = h
  either false x y t h k = k
