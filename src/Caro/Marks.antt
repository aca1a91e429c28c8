-- ===== src/Caro/Marks.antt =====
-- The places of the board of src/games/caro/caro.logic.ts that have a mark, by row and column, and
-- the steps of `findWinningLine` that come to them.
use backend_htssclub.Base.{
  ℕ, ◌+◌, ◌-◌, ◌*◌, ◌≤◌, ◌<◌, ◌≡◌, ◌↔◌, Bool, true, false, Option, none, some, arith, get_elem?,
}
use backend_htssclub.Base.Int.{ℤ, pos, negsuc, ◌+ℤ◌, ◌-ℤ◌, ◌*ℤ◌}
use backend_htssclub.Caro.{
  Board, in_bounds, probe, Direction, horizontal, vertical, down_right, down_left, ahead, behind,
}

abbrev pub is_some : {A : Type 0} → Option A → Bool
is_some none = false
is_some (some a) = true

-- The place in this row and this column is on the board of 15 by 15 and has the mark.
abbrev pub HasMark : Board → ℕ → ℤ → ℤ → Type 0
HasMark board mark (pos r) (pos c) =
    (r < 15) × (c < 15) × (get_elem? board (r * 15 + c) ≡ some mark)
HasMark board mark _ _ = ⊥

HasMark-probe :
    (board : Board) (mark : ℕ) (r c : ℤ)
    → is_some (probe board mark r c) ≡ true
    → HasMark board mark r c
unfolding probe in_bounds
HasMark-probe board mark (pos r) (pos c) h = ground (arith, h)
HasMark-probe board mark (pos r) (negsuc c) h = absurd (ground (arith, h))
HasMark-probe board mark (negsuc r) c h = absurd (ground (arith, h))

probe-HasMark :
    (board : Board) (mark : ℕ) (r c : ℤ)
    → HasMark board mark r c
    → is_some (probe board mark r c) ≡ true
unfolding probe in_bounds
probe-HasMark board mark (pos r) (pos c) (low, left, there) = ground (arith, low, left, there)
probe-HasMark board mark (pos r) (negsuc c) h = absurd h
probe-HasMark board mark (negsuc r) c h = absurd h

probe_iff :
    (board : Board) (mark : ℕ) (r c : ℤ)
    → (is_some (probe board mark r c) ≡ true) ↔ HasMark board mark r c
probe_iff board mark r c = (HasMark-probe board mark r c, probe-HasMark board mark r c)

module _ (a : ℤ) (s : ℕ) where
  no_step : (a +ℤ pos 0 *ℤ pos s ≡ a) × (a -ℤ pos 0 *ℤ pos s ≡ a)
  unfolding ◌+ℤ◌ ◌-ℤ◌ ◌*ℤ◌
  no_step = (ground arith, ground arith)

  one_step : (a +ℤ pos 1 *ℤ pos s ≡ a +ℤ pos s) × (a -ℤ pos 1 *ℤ pos s ≡ a -ℤ pos s)
  unfolding ◌+ℤ◌ ◌-ℤ◌ ◌*ℤ◌
  one_step = (ground arith, ground arith)

  step_back : (a +ℤ negsuc 0 *ℤ pos s ≡ a -ℤ pos s) × (a -ℤ negsuc 0 *ℤ pos s ≡ a +ℤ pos s)
  unfolding ◌+ℤ◌ ◌-ℤ◌ ◌*ℤ◌
  step_back = (ground arith, ground arith)

module _ (board : Board) (row col : ℤ) (mark : ℕ) where
  -- The mark stands `s` places after (row, col), which is to the right on a row, down on a column
  -- and down on both diagonals,
  abbrev pub MarkAfter : Direction → ℕ → Type 0
  MarkAfter horizontal s = HasMark board mark row (col +ℤ pos s)
  MarkAfter vertical s = HasMark board mark (row +ℤ pos s) col
  MarkAfter down_right s = HasMark board mark (row +ℤ pos s) (col +ℤ pos s)
  MarkAfter down_left s = HasMark board mark (row +ℤ pos s) (col -ℤ pos s)

  -- or `s` places before it.
  abbrev pub MarkBefore : Direction → ℕ → Type 0
  MarkBefore horizontal s = HasMark board mark row (col -ℤ pos s)
  MarkBefore vertical s = HasMark board mark (row -ℤ pos s) col
  MarkBefore down_right s = HasMark board mark (row -ℤ pos s) (col -ℤ pos s)
  MarkBefore down_left s = HasMark board mark (row -ℤ pos s) (col +ℤ pos s)

  -- Five places in a row, `k` of them before (row, col), on which nothing is asked, and the four
  -- others with the mark.
  abbrev pub IsFive : Direction → ℕ → Type 0
  IsFive d k =
      (k ≤ 4)
      × ((s : ℕ) → 1 ≤ s → s ≤ k → MarkBefore d s)
      × ((s : ℕ) → 1 ≤ s → s ≤ 4 - k → MarkAfter d s)

  pub ahead_iff :
      (d : Direction) (s : ℕ) → (is_some (ahead board row col mark d s) ≡ true) ↔ MarkAfter d s
  unfolding ahead
  ahead_iff horizontal s =
      rw ((no_step row s).0, (one_step col s).0) (probe_iff board mark row (col +ℤ pos s))
  ahead_iff vertical s =
      rw ((one_step row s).0, (no_step col s).0) (probe_iff board mark (row +ℤ pos s) col)
  ahead_iff down_right s =
      rw ((one_step row s).0, (one_step col s).0)
        (probe_iff board mark (row +ℤ pos s) (col +ℤ pos s))
  ahead_iff down_left s =
      rw ((one_step row s).0, (step_back col s).0)
        (probe_iff board mark (row +ℤ pos s) (col -ℤ pos s))

  pub behind_iff :
      (d : Direction) (s : ℕ) → (is_some (behind board row col mark d s) ≡ true) ↔ MarkBefore d s
  unfolding behind
  behind_iff horizontal s =
      rw ((no_step row s).1, (one_step col s).1) (probe_iff board mark row (col -ℤ pos s))
  behind_iff vertical s =
      rw ((one_step row s).1, (no_step col s).1) (probe_iff board mark (row -ℤ pos s) col)
  behind_iff down_right s =
      rw ((one_step row s).1, (one_step col s).1)
        (probe_iff board mark (row -ℤ pos s) (col -ℤ pos s))
  behind_iff down_left s =
      rw ((one_step row s).1, (step_back col s).1)
        (probe_iff board mark (row -ℤ pos s) (col +ℤ pos s))
