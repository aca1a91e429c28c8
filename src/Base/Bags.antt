-- ===== src/Base/Bags.antt =====
-- Lists of numbers: membership, filters, how often a number occurs, and `sort`.
use Prim.Native.Nat.{ℕ, suc, ◌+◌, ◌≤◌, ◌<◌}
use mathlib.Core.Path.{◌≡◌, refl, ap, ap₂, sym, ◌∙◌}
use native.Mathlib.Nat.{le_refl}
use mathlib.Core.Logic.{◌↔◌, inl, inr}
use mathlib.Core.Bool.{Bool, true, false, ◌&&◌, ◌||◌}
use mathlib.Core.List.{List, [], ◌∷◌, ◌++◌}
use native.Mathlib.Omega.{arith}
use backend_htssclub.Base.Tests.{leb, ◌==◌, if◌then◌else◌, Bool-cases}
use backend_htssclub.Base.Lists.{length}

module _ {ℓ} {A : Type ℓ} where
  abbrev pub all : (A → Bool) → List A → Bool
  all p [] = true
  all p (x ∷ xs) = p x && all p xs

  abbrev pub any : (A → Bool) → List A → Bool
  any p [] = false
  any p (x ∷ xs) = p x || any p xs

  -- `filter` of the source; the library's takes a decision.
  abbrev pub keep : (A → Bool) → List A → List A
  keep p [] = []
  keep p (x ∷ xs) = if p x then x ∷ keep p xs else keep p xs

  abbrev pub All {κ} : (A → Type κ) → List A → Type κ
  All P [] = Unit
  All P (x ∷ xs) = P x × All P xs

abbrev pub contains : ℕ → List ℕ → Bool
contains a [] = false
contains a (x ∷ xs) = x == a || contains a xs

abbrev pub count : ℕ → List ℕ → ℕ
count a [] = 0
count a (x ∷ xs) = (if x == a then 1 else 0) + count a xs

-- The same numbers, each as often.
abbrev pub SameCounts : List ℕ → List ℕ → Type 0
SameCounts xs ys = (a : ℕ) → count a xs ≡ count a ys

abbrev pub IsDistinct : List ℕ → Type 0
IsDistinct [] = Unit
IsDistinct (x ∷ xs) = (contains x xs ≡ false) × IsDistinct xs

abbrev pub IsSorted : List ℕ → Type 0
IsSorted [] = Unit
IsSorted (x ∷ xs) = All (λ y. x ≤ y) xs × IsSorted xs

abbrev pub insert : ℕ → List ℕ → List ℕ
insert a [] = a ∷ []
insert a (x ∷ xs) = if leb a x then a ∷ x ∷ xs else x ∷ insert a xs

-- `xs.sort((a, b) => a - b)`
unfoldable pub sort : List ℕ → List ℕ
sort [] = []
sort (x ∷ xs) = insert x (sort xs)

pub count-append :
    (card : ℕ) (front back : List ℕ)
    → count card (front ++ back) ≡ count card front + count card back
count-append card [] back = omega arith
count-append card (f ∷ front) back = ground (arith, count-append card front back)

pub count-insert : (a x : ℕ) (xs : List ℕ) → count a (insert x xs) ≡ count a (x ∷ xs)
count-insert a x [] = refl
count-insert a x (y ∷ ys) = ground (arith, count-insert a x ys)

pub count-sort : (a : ℕ) (xs : List ℕ) → count a (sort xs) ≡ count a xs
unfolding sort
count-sort a [] = refl
count-sort a (x ∷ xs) = count-insert a x (sort xs) ∙ omega (arith, count-sort a xs)

pub length-insert : (x : ℕ) (xs : List ℕ) → length (insert x xs) ≡ suc (length xs)
length-insert x [] = refl
length-insert x (y ∷ ys) = ground (arith, length-insert x ys)

pub length-sort : (xs : List ℕ) → length (sort xs) ≡ length xs
unfolding sort
length-sort [] = refl
length-sort (x ∷ xs) = length-insert x (sort xs) ∙ ap suc (length-sort xs)

All-insert {κ} : (P : ℕ → Type κ) (x : ℕ) (xs : List ℕ) → P x → All P xs → All P (insert x xs)
All-insert P x [] p h = (p, h)
All-insert P x (y ∷ ys) p h = elim (Bool-cases (leb x y)) [
  | inl le ↦ rw le (p, h)
  | inr gt ↦ rw gt (h.0, All-insert P x ys p h.1)
]

pub All-sort {κ} : (P : ℕ → Type κ) (xs : List ℕ) → All P xs → All P (sort xs)
unfolding sort
All-sort P [] h = h
All-sort P (x ∷ xs) h = All-insert P x (sort xs) h.0 (All-sort P xs h.1)

All-le_trans : (x y : ℕ) (ys : List ℕ) → x ≤ y → All (λ z. y ≤ z) ys → All (λ z. x ≤ z) ys
All-le_trans x y [] h a = tt
All-le_trans x y (z ∷ zs) h a = (omega arith, All-le_trans x y zs h a.1)

insert-IsSorted : (x : ℕ) (xs : List ℕ) → IsSorted xs → IsSorted (insert x xs)
insert-IsSorted x [] h = (tt, tt)
insert-IsSorted x (y ∷ ys) h = elim (Bool-cases (leb x y)) [
  | inl le ↦ let p : x ≤ y = ground arith in rw le ((p, All-le_trans x y ys p h.0), h)
  | inr gt ↦
      let p : y ≤ x = ground arith in
      rw gt (All-insert (λ z. y ≤ z) x ys p h.0, insert-IsSorted x ys h.1)
]

pub sort-IsSorted : (xs : List ℕ) → IsSorted (sort xs)
unfolding sort
sort-IsSorted [] = tt
sort-IsSorted (x ∷ xs) = insert-IsSorted x (sort xs) (sort-IsSorted xs)

le_of_count : (y a : ℕ) (ys : List ℕ) → All (λ z. y ≤ z) ys → 0 < count a ys → y ≤ a
le_of_count y a [] h p = absurd (omega arith)
le_of_count y a (z ∷ zs) h p = ground (arith, h.0, le_of_count y a zs h.1)

pub count_self : (x : ℕ) (xs : List ℕ) → count x (x ∷ xs) ≡ suc (count x xs)
count_self x xs = ground arith

-- A sorted list is determined by how often each number occurs in it.
pub sorted_unique : (xs ys : List ℕ) → IsSorted xs → IsSorted ys → SameCounts xs ys → xs ≡ ys
sorted_unique [] [] sx sy h = refl
sorted_unique [] (y ∷ ys) sx sy h = absurd (omega (arith, h y, count_self y ys))
sorted_unique (x ∷ xs) [] sx sy h = absurd (omega (arith, h x, count_self x xs))
sorted_unique (x ∷ xs) (y ∷ ys) sx sy h =
    let p : x ≤ y =
      le_of_count x y (x ∷ xs) (le_refl x, sx.0) (omega (arith, h y, count_self y ys)) in
    let q : y ≤ x =
      le_of_count y x (y ∷ ys) (le_refl y, sy.0) (omega (arith, h x, count_self x xs)) in
    let e : x ≡ y = omega arith in
    let rest : SameCounts xs ys =
      λ a. omega (arith, h a, ap {B = ℕ} (λ (z : ℕ). if z == a then 1 else 0) e) in
    ap₂ ◌∷◌ e (sorted_unique xs ys sx.1 sy.1 rest)

-- So the order in which the numbers come does not show in the sorted list.
pub sort-eq_of_SameCounts : (xs ys : List ℕ) → SameCounts xs ys → sort xs ≡ sort ys
sort-eq_of_SameCounts xs ys h =
    sorted_unique (sort xs) (sort ys) (sort-IsSorted xs) (sort-IsSorted ys)
      (λ a. count-sort a xs ∙ h a ∙ sym (count-sort a ys))

pub contains_iff_count : (a : ℕ) (xs : List ℕ) → (contains a xs ≡ true) ↔ (0 < count a xs)
contains_iff_count a [] = ground arith
contains_iff_count a (x ∷ xs) = ground (arith, contains_iff_count a xs)
