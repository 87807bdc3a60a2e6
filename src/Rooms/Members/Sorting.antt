-- ===== src/Rooms/Members/Sorting.antt =====
-- The sort of the members of a room, and the champion and the others: their order, and that nobody is
-- lost.
use pongit.Common.{
  suc, ◌≡◌, refl, true, false, arith, min, Bool-cases, inl, inr, List, [], ◌∷◌, Option, none, some,
  Text, text_eq, length, All,
}
use mathlib.Core.List.Permᴰ
use mathlib.Core.List.{Permᴰ}
use pongit.Rooms.Members.{RoomMember, before, insert, sort, find, others, take_two}

module _ (P : RoomMember → Type 0) where
  All-insert : (m : RoomMember) (xs : List RoomMember) → P m → All P xs → All P (insert m xs)
  All-insert m [] h hs = (h, tt)
  All-insert m (x ∷ xs) h (hx, hs) = elim (Bool-cases (before m x)) [
    | inl le ↦ simp le (h, (hx, hs))
    | inr gt ↦ simp gt (hx, All-insert m xs h hs)
  ]

  pub All-sort : (xs : List RoomMember) → All P xs → All P (sort xs)
  All-sort [] hs = tt
  All-sort (x ∷ xs) (h, hs) = All-insert x (sort xs) h (All-sort xs hs)

  pub All-others : (w : Text) (xs : List RoomMember) → All P xs → All P (others w xs)
  All-others w [] hs = tt
  All-others w (x ∷ xs) (h, hs) = elim (Bool-cases (text_eq x.player w)) [
    | inl same ↦ simp same hs
    | inr other ↦ simp other (h, All-others w xs hs)
  ]

  pub All-take_two : (xs : List RoomMember) → All P xs → All P (take_two xs)
  All-take_two [] hs = tt
  All-take_two (a ∷ []) hs = hs
  All-take_two (a ∷ b ∷ xs) (h, (k, hs)) = (h, (k, tt))

abbrev pub Found : (RoomMember → Type 0) → Text → Option RoomMember → Type 0
Found P w none = Unit
Found P w (some c) = P c × (text_eq c.player w ≡ true)

pub find-Found :
    (P : RoomMember → Type 0) (w : Text) (xs : List RoomMember) → All P xs → Found P w (find w xs)
find-Found P w [] hs = tt
find-Found P w (x ∷ xs) (h, hs) = elim (Bool-cases (text_eq x.player w)) [
  | inl same ↦ simp same (h, refl)
  | inr other ↦ simp other (find-Found P w xs hs)
]

length-insert : (m : RoomMember) (xs : List RoomMember) → length (insert m xs) ≡ suc (length xs)
length-insert m [] = refl
length-insert m (x ∷ xs) = elim (Bool-cases (before m x)) [
  | inl le ↦ simp le
  | inr gt ↦ simp gt (omega (arith, length-insert m xs))
]

pub length-sort : (xs : List RoomMember) → length (sort xs) ≡ length xs
length-sort [] = refl
length-sort (x ∷ xs) = omega (arith, length-insert x (sort xs), length-sort xs)

abbrev pub Fits : List RoomMember → Option RoomMember → List RoomMember → Type 0
Fits ms none rest = Unit
Fits ms (some c) rest = suc (length rest) ≡ length ms

pub others-Fits : (w : Text) (ms : List RoomMember) → Fits ms (find w ms) (others w ms)
others-Fits w [] = tt
others-Fits w (m ∷ ms) = elim (Bool-cases (text_eq m.player w)) [
  | inl same ↦ simp same
  | inr other ↦ simp other (grown (find w ms) (others-Fits w ms))
]
  where
    grown : (o : Option RoomMember) → Fits ms o (others w ms) → Fits (m ∷ ms) o (m ∷ others w ms)
    grown none h = tt
    grown (some c) h = omega arith

pub length-take_two : (ms : List RoomMember) → length (take_two ms) ≡ min 2 (length ms)
length-take_two [] = refl
length-take_two (a ∷ []) = refl
length-take_two (a ∷ b ∷ ms) = omega arith

-- The order of the queue.
abbrev pub Sorted : List RoomMember → Type 0
Sorted [] = Unit
Sorted (x ∷ xs) = All (λ y. before x y ≡ true) xs × Sorted xs

before_total : (a b : RoomMember) → before a b ≡ false → before b a ≡ true
before_total a b h = ground arith

before_trans : (a b c : RoomMember) → before a b ≡ true → before b c ≡ true → before a c ≡ true
before_trans a b c h k = ground arith

All-before :
    (a b : RoomMember) (xs : List RoomMember)
    → before a b ≡ true
    → All (λ y. before b y ≡ true) xs
    → All (λ y. before a y ≡ true) xs
All-before a b [] h hs = tt
All-before a b (x ∷ xs) h (k, hs) = (before_trans a b x h k, All-before a b xs h hs)

insert-Sorted : (m : RoomMember) (xs : List RoomMember) → Sorted xs → Sorted (insert m xs)
insert-Sorted m [] s = (tt, tt)
insert-Sorted m (x ∷ xs) (h, s) = elim (Bool-cases (before m x)) [
  | inl le ↦ simp le ((refl, All-before m x xs le h), (h, s))
  | inr gt ↦
      simp gt
        (All-insert (λ y. before x y ≡ true) m xs (before_total m x gt) h, insert-Sorted m xs s)
]

pub sort-Sorted : (xs : List RoomMember) → Sorted (sort xs)
sort-Sorted [] = tt
sort-Sorted (x ∷ xs) = insert-Sorted x (sort xs) (sort-Sorted xs)

insert-Perm : (m : RoomMember) (xs : List RoomMember) → Permᴰ (m ∷ xs) (insert m xs)
insert-Perm m [] = Permᴰ.refl (m ∷ [])
insert-Perm m (x ∷ xs) = elim (Bool-cases (before m x)) [
  | inl le ↦ simp le (Permᴰ.refl (m ∷ x ∷ xs))
  | inr gt ↦ simp gt (Permᴰ.trans (Permᴰ.swap refl refl) (Permᴰ.cons refl (insert-Perm m xs)))
]

pub sort-Perm : (xs : List RoomMember) → Permᴰ xs (sort xs)
sort-Perm [] = Permᴰ.nil
sort-Perm (x ∷ xs) = Permᴰ.trans (Permᴰ.cons refl (sort-Perm xs)) (insert-Perm x (sort xs))

-- The one who is found, before the others.
abbrev pub Rearranged : List RoomMember → List RoomMember → Option RoomMember → Type 0
Rearranged ms rest none = Unit
Rearranged ms rest (some c) = Permᴰ ms (c ∷ rest)

pub others-Perm : (w : Text) (ms : List RoomMember) → Rearranged ms (others w ms) (find w ms)
others-Perm w [] = tt
others-Perm w (m ∷ ms) = elim (Bool-cases (text_eq m.player w)) [
  | inl same ↦ simp same (Permᴰ.refl (m ∷ ms))
  | inr other ↦ simp other (moved (find w ms) (others-Perm w ms))
]
  where
    moved :
        (o : Option RoomMember)
        → Rearranged ms (others w ms) o
        → Rearranged (m ∷ ms) (m ∷ others w ms) o
    moved none h = tt
    moved (some c) h = Permᴰ.trans (Permᴰ.cons refl h) (Permᴰ.swap refl refl)

pub others-Sorted : (w : Text) (ms : List RoomMember) → Sorted ms → Sorted (others w ms)
others-Sorted w [] s = tt
others-Sorted w (m ∷ ms) (h, s) = elim (Bool-cases (text_eq m.player w)) [
  | inl same ↦ simp same s
  | inr other ↦ simp other (All-others (λ y. before m y ≡ true) w ms h, others-Sorted w ms s)
]

-- The line behind its first.
abbrev pub TailSorted : List RoomMember → Type 0
TailSorted [] = Unit
TailSorted (m ∷ ms) = Sorted ms

pub Sorted-tail : (ms : List RoomMember) → Sorted ms → TailSorted ms
Sorted-tail [] s = tt
Sorted-tail (m ∷ ms) s = s.1
