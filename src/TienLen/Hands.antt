-- ===== src/TienLen/Hands.antt =====
-- src/games/tienlen/tienlen.logic.ts: `removeCards` and the price of chopped and kept twos.
use backend_htssclub.Base.{
  ℕ, ◌+◌, ◌*◌, ◌≤◌, ◌<◌, ◌≡◌, refl, inl, inr, false, not, Option, none, some, List, [], ◌∷◌, arith,
  Bool-cases, length, contains, keep, count, count-sort, contains_iff_count, sort, sort-IsSorted,
  IsSorted, IsDistinct, ◌==◌, if◌then◌else◌,
}
use backend_htssclub.TienLen.Cards.{count_heo, chop_heo_breakdown, is_red_suit}

-- `set.delete(c)`
abbrev pub delete : ℕ → List ℕ → List ℕ
delete c xs = keep (λ x. not (x == c)) xs

-- `new Set(xs)`: the values in the order of their first occurrence.
unfoldable pub to_set : List ℕ → List ℕ
to_set [] = []
to_set (x ∷ xs) = x ∷ delete x (to_set xs)

-- The loop of `removeCards`.
unfoldable pub remove_from : List ℕ → List ℕ → Option (List ℕ)
remove_from set [] = some (sort set)
remove_from set (c ∷ cs) =
    let rest = remove_from (delete c set) cs in if contains c set then rest else none

unfoldable pub remove_cards : List ℕ → List ℕ → Option (List ℕ)
remove_cards hand cards = remove_from (to_set hand) cards

count-delete : (a c : ℕ) (xs : List ℕ) → count a (delete c xs) ≡ (if a == c then 0 else count a xs)
count-delete a c [] = ground arith
count-delete a c (x ∷ xs) = ground (arith, count-delete a c xs)

delete-absent : (c : ℕ) (xs : List ℕ) → contains c xs ≡ false → delete c xs ≡ xs
delete-absent c [] h = refl
delete-absent c (x ∷ xs) h = ground (arith, delete-absent c xs)

to_set-IsDistinct : (xs : List ℕ) → IsDistinct xs → to_set xs ≡ xs
unfolding to_set
to_set-IsDistinct [] d = refl
to_set-IsDistinct (x ∷ xs) d = rw (to_set-IsDistinct xs d.1) (rw (delete-absent x xs d.0))

count-le_one : (a : ℕ) (xs : List ℕ) → IsDistinct xs → count a xs ≤ 1
count-le_one a [] d = omega arith
count-le_one a (x ∷ xs) d = grind (arith, count-le_one a xs d.1, contains_iff_count x xs)

-- A set given by the numbers in it: none twice.
abbrev Single : List ℕ → Type 0
Single xs = (a : ℕ) → count a xs ≤ 1

delete-Single : (c : ℕ) (xs : List ℕ) → Single xs → Single (delete c xs)
delete-Single c xs s a = ground (arith, count-delete a c xs, s a)

remove_from-counts :
    (cards set rest : List ℕ)
    → Single set
    → remove_from set cards ≡ some rest
    → ((a : ℕ) → count a set ≡ count a cards + count a rest) × IsSorted rest
unfolding remove_from
remove_from-counts [] set rest s h =
    let e : sort set ≡ rest = cc in
    ((λ a. rw (← e) (omega (arith, count-sort a set))), rw (← e) (sort-IsSorted set))
remove_from-counts (c ∷ cs) set rest s h = elim (Bool-cases (contains c set)) [
  | inl there ↦
      let (counts, sorted) =
        remove_from-counts cs (delete c set) rest (delete-Single c set s) (rw there at h) in
      (
        (λ a.
            ground
              (arith, counts a, count-delete a c set, s c, (contains_iff_count c set).0 there)),
        sorted,
      )
  | inr absent ↦ absurd (ground arith)
]

-- Taking cards out of a hand of distinct cards loses and invents none: every card is in the hand
-- as often as in the cards played and the sorted rest together.
pub remove_cards-counts :
    (hand cards rest : List ℕ)
    → IsDistinct hand
    → remove_cards hand cards ≡ some rest
    → ((a : ℕ) → count a hand ≡ count a cards + count a rest) × IsSorted rest
unfolding remove_cards
remove_cards-counts hand cards rest d h =
    remove_from-counts cards hand rest (λ a. count-le_one a hand d)
      (rw (to_set-IsDistinct hand d) at h)

remove_from-none :
    (cards set : List ℕ)
    → Single set
    → remove_from set cards ≡ none
    → (a : ℕ) × (count a set < count a cards)
unfolding remove_from
remove_from-none [] set s h = cc
remove_from-none (c ∷ cs) set s h = elim (Bool-cases (contains c set)) [
  | inl there ↦
      let (a, more) = remove_from-none cs (delete c set) (delete-Single c set s) (rw there at h) in
      (a, ground (arith, more, count-delete a c set, s a, (contains_iff_count c set).0 there))
  | inr absent ↦ (c, ground (arith, contains_iff_count c set))
]

-- The play is refused only where some card is played more often than the hand holds it.
pub remove_cards-none :
    (hand cards : List ℕ)
    → IsDistinct hand
    → remove_cards hand cards ≡ none
    → (a : ℕ) × (count a hand < count a cards)
unfolding remove_cards
remove_cards-none hand cards d h =
    remove_from-none cards hand (λ a. count-le_one a hand d) (rw (to_set-IsDistinct hand d) at h)

sorted-IsDistinct : (xs : List ℕ) → IsDistinct xs → Single xs
sorted-IsDistinct xs d a = count-le_one a xs d

Single-IsDistinct : (xs : List ℕ) → Single xs → IsDistinct xs
Single-IsDistinct [] s = tt
Single-IsDistinct (x ∷ xs) s = (
  elim (Bool-cases (contains x xs)) [
    | inl there ↦ absurd (ground (arith, s x, (contains_iff_count x xs).0 there))
    | inr absent ↦ absent
  ],
  Single-IsDistinct xs (λ a. ground (arith, s a)),
)

-- What is left of a hand of distinct cards is a hand of distinct cards.
pub remove_cards-IsDistinct :
    (hand cards rest : List ℕ)
    → IsDistinct hand
    → remove_cards hand cards ≡ some rest
    → IsDistinct rest
remove_cards-IsDistinct hand cards rest d h =
    let counts = (remove_cards-counts hand cards rest d h).0 in
    Single-IsDistinct rest (λ a. omega (arith, counts a, count-le_one a hand d))

count_heo_lem :
    (cards : List ℕ) (black red : ℕ)
    → let b = count_heo cards black red in
      (b.red ≡ red + length (keep is_red_suit cards))
      × (b.black + b.red ≡ black + red + length cards)
      × (b.units ≡ b.black + 2 * b.red)
unfolding count_heo
count_heo_lem [] black red = omega arith
count_heo_lem (c ∷ cs) black red =
    ground (arith, count_heo_lem cs black (red + 1), count_heo_lem cs (black + 1) red)

-- The price of a list of twos: each is counted once as black or red, exactly the red ones as red,
-- and a red one is worth two units.
pub chop_heo_breakdown_lem :
    (cards : List ℕ)
    → let b = chop_heo_breakdown cards in
      (b.red ≡ length (keep is_red_suit cards))
      × (b.black + b.red ≡ length cards)
      × (b.units ≡ b.black + 2 * b.red)
unfolding chop_heo_breakdown
chop_heo_breakdown_lem cards = omega (arith, count_heo_lem cards 0 0)
