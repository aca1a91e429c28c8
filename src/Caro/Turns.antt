-- ===== src/Caro/Turns.antt =====
-- What a move of src/games/caro/caro.logic.ts does to the stones on the board.
use backend_htssclub.Base.{
  ℕ, suc, zero, ◌+◌, ◌*◌, ◌/◌, ◌%◌, ◌<◌, ◌≡◌, refl, inl, inr, true, false, ◌&&◌, Bool-cases,
  Option-cases, none, some, [], ◌∷◌, ◌==◌, if◌then◌else◌, arith, count, length, length-set,
  get_elem?, set,
}
use backend_htssclub.Base.Int.{ℤ, pos}
use backend_htssclub.Caro.{
  Board, in_bounds, place, is_at, is_full, find_winning_line, MoveResult, refused, win, draw,
  goes_on, judge, apply_move,
}

is_at-elem : (board : Board) (i v : ℕ) → is_at board i v ≡ true → get_elem? board i ≡ some v
is_at-elem [] i v h = absurd (ground (arith, h))
is_at-elem (c ∷ board) zero v h = let e : c ≡ v = ground arith in rw e
is_at-elem (c ∷ board) (suc i) v h = is_at-elem board i v h

count-set :
    (a : ℕ) (board : Board) (i v w : ℕ)
    → get_elem? board i ≡ some v
    → count a (set board i w) + (if v == a then 1 else 0)
      ≡ count a board + (if w == a then 1 else 0)
count-set a [] i v w h = absurd (ground (arith, h))
count-set a (c ∷ board) zero v w h = let e : c ≡ v = ground (arith, h) in rw e (omega arith)
count-set a (c ∷ board) (suc i) v w h = omega (arith, count-set a board i v w h)

pub full_iff : (board : Board) → is_full board ≡ (count 0 board == 0)
full_iff [] = refl
full_iff (c ∷ board) = ground (arith, full_iff board)

-- The board after an accepted move: one empty place has the mark.
abbrev pub IsPlaced : Board → ℤ → ℤ → ℕ → Board → Type 0
IsPlaced board row col mark board' =
    (in_bounds row col ≡ true)
    × (is_at board (place row col) 0 ≡ true)
    × (board' ≡ set board (place row col) mark)

abbrev pub Outcome : Board → ℤ → ℤ → ℕ → MoveResult → Type 0
Outcome board row col mark (refused reason) =
    (in_bounds row col && is_at board (place row col) 0) ≡ false
Outcome board row col mark (win board' line) =
    IsPlaced board row col mark board' × (find_winning_line board' row col mark ≡ some line)
Outcome board row col mark (draw board') =
    IsPlaced board row col mark board'
    × (find_winning_line board' row col mark ≡ none)
    × (count 0 board' ≡ 0)
Outcome board row col mark (goes_on board') =
    IsPlaced board row col mark board'
    × (find_winning_line board' row col mark ≡ none)
    × (0 < count 0 board')

judge_lem :
    (board : Board) (row col : ℤ) (mark : ℕ)
    → in_bounds row col ≡ true
    → is_at board (place row col) 0 ≡ true
    → Outcome board row col mark (judge (set board (place row col) mark) row col mark)
unfolding judge
judge_lem board row col mark inside free =
    let board' = set board (place row col) mark in
    elim (Option-cases (find_winning_line board' row col mark)) [
      | inl none_found ↦ elim (Bool-cases (is_full board')) [
        | inl full ↦
            rw (judge, none_found, full)
              ((inside, free, refl), none_found, ground (arith, full, full_iff board'))
        | inr open_ ↦
            rw (judge, none_found, open_)
              ((inside, free, refl), none_found, ground (arith, open_, full_iff board'))
      ]
      | inr (line, found) ↦ rw (judge, found) ((inside, free, refl), found)
    ]

-- `applyMove` on every branch: a move outside the board or on a taken place is refused; any other
-- one puts the mark on the empty place, and wins when a line is found, draws when no place is left,
-- and otherwise leaves an empty place.
pub apply_move_lem :
    (board : Board) (row col : ℤ) (mark : ℕ)
    → Outcome board row col mark (apply_move board row col mark)
unfolding apply_move
apply_move_lem board row col mark = elim (Bool-cases (in_bounds row col)) [
  | inr outside ↦ rw outside (ground (arith, outside))
  | inl inside ↦ elim (Bool-cases (is_at board (place row col) 0)) [
    | inr taken ↦ rw (inside, taken) (ground (arith, taken))
    | inl free ↦ rw (inside, free) (judge_lem board row col mark inside free)
  ]
]

-- The stones after a move.
module _ (board : Board) (row col : ℤ) (mark : ℕ) (board' : Board) where
  pub placed_counts :
      IsPlaced board row col mark board'
      → (length board' ≡ length board)
        × ((a : ℕ)
            → count a board' + (if 0 == a then 1 else 0)
              ≡ count a board + (if mark == a then 1 else 0))
  placed_counts (inside, free, e) =
      let there = is_at-elem board (place row col) 0 free in
      rw e
        (length-set board (place row col) mark, λ a. count-set a board (place row col) 0 mark there)

-- An empty place of a board, as a place to move to.
pub empty_place :
    (board : Board) → 0 < count 0 board → (i : ℕ) × (i < length board) × (is_at board i 0 ≡ true)
empty_place [] h = absurd (ground (arith, h))
empty_place (c ∷ board) h = elim (Bool-cases (c == 0)) [
  | inl free ↦ (0, ground arith, free)
  | inr taken ↦
      let (i, l, e) = empty_place board (ground (arith, h, taken)) in (suc i, ground (arith, l), e)
]

pub legal_move :
    (board : Board) (mark : ℕ)
    → length board ≡ 225
    → 0 < count 0 board
    → (row : ℕ) × (col : ℕ) × ((in_bounds (pos row) (pos col)
          && is_at board (place (pos row) (pos col)) 0)
        ≡ true)
unfolding in_bounds
legal_move board mark size free =
    let (i, l, e) = empty_place board free in
    let whole : (i / 15) * 15 + i % 15 ≡ i = ground arith in
    (i / 15, i % 15, rw whole (ground (arith, e, l, size)))
