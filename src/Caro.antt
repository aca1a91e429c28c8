-- ===== src/Caro.antt =====
-- src/games/caro/caro.logic.ts: the board of Caro, its moves and the lines that win.
pub mod Marks
pub mod Lines
pub mod Elo
pub mod Match
pub mod Turns
pub mod Sound
mod Coins
pub mod History
pub mod Ended
pub mod Points
pub mod Progress
mod Tests
use backend_htssclub.Base.{
  ℕ, suc, zero, ◌+◌, ◌*◌, Bool, true, false, not, ◌&&◌, Option, none, some, List, [], ◌∷◌, ◌==◌,
  leb, if◌then◌else◌, all, length, get_elem?, set, replicate,
}
use backend_htssclub.Base.Int.{ℤ, pos, negsuc, pos_part, ◌+ℤ◌, ◌-ℤ◌, ◌*ℤ◌, leb_ℤ, ltb_ℤ}
use backend_htssclub.Common.Action.{Reason, out_of_bounds, cell_taken}

abbrev pub board_size : ℕ
board_size = 15

abbrev pub win_count : ℕ
win_count = 5

-- A cell is 0 when it is empty, 1 for X and 2 for O.
abbrev pub Board : Type 0
Board = List ℕ

unfoldable pub create_board : Board
create_board = replicate (board_size * board_size) 0

abbrev pub idx : ℕ → ℕ → ℕ
idx row col = row * board_size + col

unfoldable pub in_bounds : ℤ → ℤ → Bool
in_bounds row col =
    (leb_ℤ (pos 0) row && ltb_ℤ row (pos board_size))
    && (leb_ℤ (pos 0) col && ltb_ℤ col (pos board_size))

-- The index of a place on the board.
abbrev pub place : ℤ → ℤ → ℕ
place row col = idx (pos_part row) (pos_part col)

-- `board[i] === mark`, for an index that may be out of range.
abbrev pub is_at : Board → ℕ → ℕ → Bool
is_at board i mark = elim (get_elem? board i) [ none ↦ false | some cell ↦ cell == mark ]

-- The index of a place that has this mark.
unfoldable pub probe : Board → ℕ → ℤ → ℤ → Option ℕ
probe board mark row col =
    if in_bounds row col && is_at board (place row col) mark then some (place row col) else none

-- The loops of `findWinningLine`, from the step `s`, for the remaining rounds: they stop at the
-- first step that finds nothing.
unfoldable pub scan : (ℕ → Option ℕ) → ℕ → ℕ → List ℕ
scan at zero s = []
scan at (suc n) s = elim (at s) [ none ↦ [] | some i ↦ i ∷ scan at n (suc s) ]

pub data Direction : Type 0 where
  horizontal vertical down_right down_left : Direction

abbrev pub row_step : Direction → ℤ
row_step horizontal = pos 0
row_step _ = pos 1

abbrev pub col_step : Direction → ℤ
col_step horizontal = pos 1
col_step vertical = pos 0
col_step down_right = pos 1
col_step down_left = negsuc 0

-- One `unshift` after another.
abbrev pub unshift_all : List ℕ → List ℕ → List ℕ
unshift_all [] cells = cells
unshift_all (i ∷ is) cells = unshift_all is (i ∷ cells)

module _ (board : Board) (row col : ℤ) (mark : ℕ) where
  unfoldable pub ahead : Direction → ℕ → Option ℕ
  ahead d s = probe board mark (row +ℤ row_step d *ℤ pos s) (col +ℤ col_step d *ℤ pos s)

  unfoldable pub behind : Direction → ℕ → Option ℕ
  behind d s = probe board mark (row -ℤ row_step d *ℤ pos s) (col -ℤ col_step d *ℤ pos s)

  unfoldable pub line_through : Direction → List ℕ
  line_through d = unshift_all (scan (behind d) 4 1) (place row col ∷ scan (ahead d) 4 1)

  unfoldable pub first_line : List Direction → Option (List ℕ)
  first_line [] = none
  first_line (d ∷ ds) =
      if leb win_count (length (line_through d)) then some (line_through d) else first_line ds

  -- `findWinningLine`
  unfoldable pub find_winning_line : Option (List ℕ)
  find_winning_line = first_line (horizontal ∷ vertical ∷ down_right ∷ down_left ∷ [])

-- `MoveResult`, with the board that `applyMove` leaves.
pub data MoveResult : Type 0 where
  refused : Reason → MoveResult
  win : Board → List ℕ → MoveResult
  draw goes_on : Board → MoveResult

abbrev pub is_full : Board → Bool
is_full board = all (λ cell. not (cell == 0)) board

-- `applyMove` after its two guards.
unfoldable pub judge : Board → ℤ → ℤ → ℕ → MoveResult
judge board row col mark = elim (find_winning_line board row col mark) [
  | some line ↦ win board line
  | none ↦ if is_full board then draw board else goes_on board
]

unfoldable pub apply_move : Board → ℤ → ℤ → ℕ → MoveResult
apply_move board row col mark =
    if not (in_bounds row col)
    then refused out_of_bounds
    else if not (is_at board (place row col) 0)
    then refused cell_taken
    else judge (set board (place row col) mark) row col mark
