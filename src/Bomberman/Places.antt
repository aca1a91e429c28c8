-- ===== src/Bomberman/Places.antt =====
-- The standing at the end of a game of src/games/bomberman/bomberman.logic.ts.
use backend_htssclub.Base.{
  ℕ, zero, suc, ◌+◌, ◌≤◌, ◌≡◌, refl, ap, sym, ◌∙◌, ◌++◌, ◌<◌, length, inl, inr, true, false,
  Bool-cases, Option, none, some, List, [], ◌∷◌, ◌==◌, arith, get_elem?, keep, map, reverse, count,
  count-append,
}
use backend_htssclub.Bomberman.{BPlayer, BombermanState}
use backend_htssclub.Bomberman.Tick.{placement_order, place_in, placement}
use backend_htssclub.Bomberman.Games.{GameStep, take_steps}
use mathlib.Core.List.{reverse-cons, reverse-append, append_assoc}
use backend_htssclub.Bomberman.Ordered.{seated, living, AreOrdered, take_steps-AreOrdered}
use backend_htssclub.Bomberman.Deaths.{take_steps-Follows}

count-living :
    (s : ℕ) (ps : List BPlayer)
    → count s (map (λ (p : BPlayer). p.seat) (keep (λ (p : BPlayer). p.alive) ps)) ≡ living s ps
unfolding living
count-living s [] = refl
count-living s (p ∷ ps) = ground (arith, count-living s ps)

count-reverse : (s : ℕ) (xs : List ℕ) → count s (reverse xs) ≡ count s xs
count-reverse s [] = refl
count-reverse s (x ∷ xs) =
    rw (reverse-cons x xs) (omega (arith, count-append s (reverse xs) (x ∷ []), count-reverse s xs))

place_in_absent :
    (s i : ℕ) (ts : List ℕ) (found : Option ℕ) → count s ts ≡ 0 → place_in s i ts found ≡ found
unfolding place_in
place_in_absent s i [] found h = refl
place_in_absent s i (t ∷ ts) found h = elim (Bool-cases (t == s)) [
  | inl here ↦ absurd (ground (arith, h, here))
  | inr there ↦ rw there (place_in_absent s (suc i) ts found (ground (arith, h, there)))
]

listed_at : (s j : ℕ) (ts : List ℕ) → get_elem? ts j ≡ some s → 0 < count s ts
listed_at s j [] h = absurd (ground (arith, h))
listed_at s zero (t ∷ ts) h = ground (arith, h)
listed_at s (suc j) (t ∷ ts) h = ground (arith, listed_at s j ts h)

place_in_at :
    (s i j : ℕ) (ts : List ℕ) (found : Option ℕ)
    → get_elem? ts j ≡ some s
    → count s ts ≤ 1
    → place_in s i ts found ≡ some (suc (i + j))
unfolding place_in
place_in_at s i j [] found h c = absurd (ground (arith, h))
place_in_at s i zero (t ∷ ts) found h c =
    let e : (t == s) ≡ true = ground (arith, h) in
    rw e (place_in_absent s (suc i) ts (some (suc i)) (ground (arith, c, e)) ∙ ground arith)
place_in_at s i (suc j) (t ∷ ts) found h c =
    let e : (t == s) ≡ false = ground (arith, c, listed_at s j ts h) in
    rw e (place_in_at s (suc i) j ts found h (ground (arith, c, e)) ∙ ground arith)

listed_somewhere : (s : ℕ) (ts : List ℕ) → 0 < count s ts → (j : ℕ) × (get_elem? ts j ≡ some s)
listed_somewhere s [] h = absurd (omega arith)
listed_somewhere s (t ∷ ts) h = elim (Bool-cases (t == s)) [
  | inl here ↦ let e : t ≡ s = ground arith in (0, ap some e)
  | inr there ↦ let (j, e) = listed_somewhere s ts (ground (arith, h, there)) in (suc j, e)
]

-- What is not in the second of two lists is listed in the first,
place_front :
    (s j : ℕ) (xs ys : List ℕ) → get_elem? (xs ++ ys) j ≡ some s → count s ys ≡ 0 → j < length xs
place_front s j [] ys h none_back = absurd (omega (arith, none_back, listed_at s j ys h))
place_front s zero (x ∷ xs) ys h none_back = omega arith
place_front s (suc j) (x ∷ xs) ys h none_back = omega (arith, place_front s j xs ys h none_back)

-- and what is not in the first in the second.
place_back :
    (s j : ℕ) (xs ys : List ℕ) → get_elem? (xs ++ ys) j ≡ some s → count s xs ≡ 0 → length xs ≤ j
place_back s j [] ys h none_front = omega arith
place_back s zero (x ∷ xs) ys h none_front = absurd (ground (arith, h, none_front))
place_back s (suc j) (x ∷ xs) ys h none_front =
    omega (arith, place_back s j xs ys h (ground (arith, none_front)))

module _ (w : BombermanState) (ordered : AreOrdered w.players w.death_order) where
  abbrev survivors : List ℕ
  survivors = map (λ (p : BPlayer). p.seat) (keep (λ (p : BPlayer). p.alive) w.players)

  count-placement_order : (s : ℕ) → count s (placement_order w) ≡ seated s w.players
  unfolding placement_order
  count-placement_order s = omega (
    arith,
    count-append s survivors (reverse w.death_order),
    count-living s w.players,
    count-reverse s w.death_order,
    ordered s,
  )

  placement_at : (j s : ℕ) → get_elem? (placement_order w) j ≡ some s → placement w s ≡ suc j
  unfolding placement
  placement_at j s h =
      rw
        (place_in_at s 0 j (placement_order w) none h
          (omega (arith, count-placement_order s, ordered s)))
        (ground arith)

  -- The place of a player is a position of the standing.
  placed :
      (s : ℕ)
      → 0 < seated s w.players
      → (j : ℕ) × (get_elem? (placement_order w) j ≡ some s) × (placement w s ≡ suc j)
  placed s h =
      let (j, e) =
        listed_somewhere s (placement_order w) (omega (arith, h, count-placement_order s)) in
      (j, e, placement_at j s e)

  pub placement_distinct :
      (s t : ℕ)
      → 0 < seated s w.players
      → 0 < seated t w.players
      → placement w s ≡ placement w t
      → s ≡ t
  placement_distinct s t h k same =
      let (i, at_i, place_i) = placed s h in
      let (j, at_j, place_j) = placed t k in
      let e : i ≡ j = omega (arith, same, place_i, place_j) in
      let both : some s ≡ some t = sym at_i ∙ ap (get_elem? (placement_order w)) e ∙ at_j in cc

  -- Who is not among the first deaths is placed better than who is.
  pub placement_earlier :
      (early later : List ℕ) (s t : ℕ)
      → w.death_order ≡ early ++ later
      → 0 < count s early
      → count t early ≡ 0
      → 0 < seated t w.players
      → placement w t < placement w s
  unfolding placement_order
  placement_earlier early later s t e dead lives seat =
      let front = survivors ++ reverse later in
      let split : placement_order w ≡ front ++ reverse early =
        ap (λ (order : List ℕ). survivors ++ reverse order) e
        ∙ ap (λ (order : List ℕ). survivors ++ order) (reverse-append early later)
        ∙ sym (append_assoc survivors (reverse later) (reverse early)) in
      let total : (u : ℕ) → count u front + count u early ≡ seated u w.players = λ u. omega (
        arith,
        count-placement_order u,
        ap (count u) split,
        count-append u front (reverse early),
        count-reverse u early,
      ) in
      let (i, at_i, place_i) = placed s (omega (arith, total s, dead)) in
      let (j, at_j, place_j) = placed t seat in
      let first =
        place_front t j front (reverse early) (rw split at at_j)
          (omega (arith, count-reverse t early, lives)) in
      let second =
        place_back s i front (reverse early) (rw split at at_i)
          (omega (arith, total s, dead, ordered s)) in
      omega (arith, first, second, place_i, place_j)

-- The standing `gs` after a state of a game: it lists each seat once, the place of a seat is where
-- it stands in it, no two seats share a place, and whoever was dead in that state is placed worse
-- than whoever lived in it.
pub placement_lem :
    (dice : ℕ → ℕ) (w : BombermanState) (gs : List GameStep)
    → AreOrdered w.players w.death_order
    → let v = take_steps dice gs w in
      ((s : ℕ) → count s (placement_order v) ≡ seated s w.players)
      × ((j s : ℕ) → get_elem? (placement_order v) j ≡ some s → placement v s ≡ suc j)
      × ((s t : ℕ)
          → 0 < seated s w.players
          → 0 < seated t w.players
          → placement v s ≡ placement v t
          → s ≡ t)
      × ((s t : ℕ)
          → 0 < seated s w.players
          → living s w.players ≡ 0
          → 0 < living t w.players
          → placement v t < placement v s)
placement_lem dice w gs ordered =
    let v = take_steps dice gs w in
    let ordered_later = take_steps-AreOrdered dice gs w ordered in
    let (seats, (later, grown)) = take_steps-Follows dice gs w in
    (
      (λ s. count-placement_order v ordered_later s ∙ seats s),
      placement_at v ordered_later,
      (λ s t h k.
          placement_distinct v ordered_later s t (omega (arith, h, seats s))
            (omega (arith, k, seats t))),
      λ s t seat dead lives.
          placement_earlier v ordered_later w.death_order later s t grown
            (omega (arith, ordered s, dead, seat)) (omega (arith, ordered t, lives))
            (omega (arith, ordered t, seats t, lives)),
    )
