-- ===== src/Rooms/Members/Order.antt =====
-- The order of the pairs of shared/rooms.ts: who is in them, and who is first.
use pongit.Common.{
  ◌++◌, ◌⊎◌, ℕ, ◌≡◌, refl, subst, true, arith, min, Bool-cases, inl, inr, List, [], ◌∷◌, Option,
  none, some, Text, length, All, get_elem?,
}
use mathlib.Core.List.Permᴰ
use mathlib.Core.List.{Permᴰ}
use pongit.Rooms.Members.{
  RoomMember, eligible, eligible_members, before, sort, find, others, take_two, champion_first,
  find_winner, lined_up, next_pair,
}
use pongit.Rooms.Members.Sorting.{
  All-sort, All-take_two, All-others, Found, find-Found, Fits, others-Fits, length-sort,
  length-take_two, Sorted, sort-Sorted, sort-Perm, Rearranged, others-Perm, others-Sorted,
  TailSorted, Sorted-tail,
}

-- A member of the list.
abbrev pub In : RoomMember → List RoomMember → Type 0
In m [] = ⊥
In m (x ∷ xs) = (x ≡ m) ⊎ In m xs

-- The pair is made of members of the room that are there, one for each of the first two places that can
-- be filled. With the rest it is a rearrangement of all who can play, so that nobody is taken twice. The
-- winner stands first where they can play, and otherwise one whom no other precedes; the second precedes
-- the rest.
pub record IsPair (members : List RoomMember) (winner : Option Text) (now : ℕ)
    (pair : List RoomMember) : Type 0 where
  pub present : All (λ m. (eligible now m ≡ true) × In m members) pair
  pub size : length pair ≡ min 2 (length (eligible_members now members))
  pub champion :
      (c : RoomMember)
      → find_winner winner (sort (eligible_members now members)) ≡ some c
      → get_elem? pair 0 ≡ some c
  pub foremost :
      (first : RoomMember)
      → find_winner winner (sort (eligible_members now members)) ≡ none
      → get_elem? pair 0 ≡ some first
      → All (λ m. before first m ≡ true) (sort (eligible_members now members))
  pub rest : List RoomMember
  pub split : Permᴰ (eligible_members now members) (pair ++ rest)
  pub second :
      (m : RoomMember) → get_elem? pair 1 ≡ some m → All (λ other. before m other ≡ true) rest

self-In : (ms : List RoomMember) → All (λ m. In m ms) ms
self-In [] = tt
self-In (x ∷ xs) = (inl refl, later xs (self-In xs))
  where
    later : (ys : List RoomMember) → All (λ m. In m xs) ys → All (λ m. In m (x ∷ xs)) ys
    later [] h = tt
    later (y ∷ ys) (h, hs) = (inr h, later ys hs)

eligible_members-All :
    (P : RoomMember → Type 0) (now : ℕ) (ms : List RoomMember)
    → All P ms
    → All (λ m. (eligible now m ≡ true) × P m) (eligible_members now ms)
eligible_members-All P now [] h = tt
eligible_members-All P now (m ∷ ms) (h, hs) = elim (Bool-cases (eligible now m)) [
  | inl yes' ↦ simp yes' ((refl, h), eligible_members-All P now ms hs)
  | inr no' ↦ simp no' (eligible_members-All P now ms hs)
]

line-Perm : (winner : Option Text) (q : List RoomMember) → Permᴰ q (lined_up winner q)
line-Perm none q = Permᴰ.refl q
line-Perm (some w) q = go (find w q) (others-Perm w q)
  where
    go : (o : Option RoomMember) → Rearranged q (others w q) o → Permᴰ q (champion_first w q o)
    go none h = Permᴰ.refl q
    go (some c) h = h

line-Sorted :
    (winner : Option Text) (q : List RoomMember) → Sorted q → TailSorted (lined_up winner q)
line-Sorted none q s = Sorted-tail q s
line-Sorted (some w) q s = go (find w q)
  where
    go : (o : Option RoomMember) → TailSorted (champion_first w q o)
    go none = Sorted-tail q s
    go (some c) = others-Sorted w q s

abbrev drop_two : List RoomMember → List RoomMember
drop_two (a ∷ b ∷ ms) = ms
drop_two _ = []

take_two-drop_two : (ms : List RoomMember) → ms ≡ take_two ms ++ drop_two ms
take_two-drop_two [] = refl
take_two-drop_two (a ∷ []) = refl
take_two-drop_two (a ∷ b ∷ ms) = refl

second-before :
    (ms : List RoomMember) (m : RoomMember)
    → TailSorted ms
    → get_elem? (take_two ms) 1 ≡ some m
    → All (λ other. before m other ≡ true) (drop_two ms)
second-before [] m s e = tt
second-before (a ∷ []) m s e = tt
second-before (a ∷ b ∷ ms) m s e =
    let same : b ≡ m = cc in subst (λ x. All (λ other. before x other ≡ true) ms) same s.0

present-line :
    (P : RoomMember → Type 0) (winner : Option Text) (q : List RoomMember)
    → All P q
    → All P (lined_up winner q)
present-line P none q h = h
present-line P (some w) q h = go (find w q) (find-Found P w q h)
  where
    go : (o : Option RoomMember) → Found P w o → All P (champion_first w q o)
    go none f = h
    go (some c) f = (f.0, All-others P w q h)

length-line : (winner : Option Text) (q : List RoomMember) → length (lined_up winner q) ≡ length q
length-line none q = refl
length-line (some w) q = go (find w q) (others-Fits w q)
  where
    go : (o : Option RoomMember) → Fits q o (others w q) → length (champion_first w q o) ≡ length q
    go none f = refl
    go (some c) f = f

champion-line :
    (winner : Option Text) (q : List RoomMember) (c : RoomMember)
    → find_winner winner q ≡ some c
    → get_elem? (take_two (lined_up winner q)) 0 ≡ some c
champion-line none q c e = cc
champion-line (some w) q c e = simp e (first_of c (others w q))
  where
    first_of : (c : RoomMember) (ms : List RoomMember) → get_elem? (take_two (c ∷ ms)) 0 ≡ some c
    first_of c [] = refl
    first_of c (m ∷ ms) = refl

before_refl : (m : RoomMember) → before m m ≡ true
before_refl m = ground arith

head-least :
    (q : List RoomMember) (first : RoomMember)
    → Sorted q
    → get_elem? (take_two q) 0 ≡ some first
    → All (λ m. before first m ≡ true) q
head-least [] first s e = tt
head-least (a ∷ []) first s e =
    let same : a ≡ first = cc in
    subst (λ b. All (λ m. before b m ≡ true) (a ∷ [])) same (before_refl a, tt)
head-least (a ∷ b ∷ q) first (h, s) e =
    let same : a ≡ first = cc in
    subst (λ x. All (λ m. before x m ≡ true) (a ∷ b ∷ q)) same (before_refl a, h)

foremost-line :
    (winner : Option Text) (q : List RoomMember) (first : RoomMember)
    → Sorted q
    → find_winner winner q ≡ none
    → get_elem? (take_two (lined_up winner q)) 0 ≡ some first
    → All (λ m. before first m ≡ true) q
foremost-line none q first s n e = head-least q first s e
foremost-line (some w) q first s n e = head-least q first s (simp n at e)

-- The next pair of a room has as many members as there are who can play, but no more than two, all
-- of them present members of the room, and nobody twice: the pair and the rest are together all who can
-- play. The winner stands first where they can play; without them it begins with a member whom no other
-- who can play precedes by position and then by the time of joining; and nobody of the rest precedes the
-- second.
pub next_pair-IsPair :
    (members : List RoomMember) (winner : Option Text) (now : ℕ)
    → IsPair members winner now (next_pair members winner now)
unfolding next_pair
next_pair-IsPair members winner now =
    let able = eligible_members now members in
    let q = sort able in
    let line = lined_up winner q in
    let P : RoomMember → Type 0 = λ m. (eligible now m ≡ true) × In m members in
    let all_able = eligible_members-All (λ m. In m members) now members (self-In members) in
    record {
      present = All-take_two P line (present-line P winner q (All-sort P able all_able));
      size = omega (arith, length-take_two line, length-line winner q, length-sort able);
      champion = λ c e. champion-line winner q c e;
      foremost = λ first n e. foremost-line winner q first (sort-Sorted able) n e;
      rest = drop_two line;
      split =
          subst (Permᴰ able) (take_two-drop_two line)
            (Permᴰ.trans (sort-Perm able) (line-Perm winner q));
      second = λ m e. second-before line m (line-Sorted winner q (sort-Sorted able)) e;
    }
