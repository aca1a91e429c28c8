-- ===== src/Caro/Progress.antt =====
-- A running match of src/games/caro/caro.service.ts can go on.
use backend_htssclub.Base.{
  ℕ, ◌≡◌, refl, ap, ◌∙◌, ◌⊎◌, inl, inr, Bool, true, false, ◌&&◌, Option, none, some, ◌==◌,
  if◌then◌else◌, arith,
}
use backend_htssclub.Base.Int.{ℤ, pos}
use backend_htssclub.Common.Action.{Action, ok, ◌>>=◌}
use backend_htssclub.Common.Action.Atomic.{
  IsTotal, IsTotal-bind, IsTotal-gets, IsTotal-pure, IsTotal-if, total_rules,
}
use backend_htssclub.Leveling.Service.{
  Hall, Profile, move_points, add_rank_points, announce_rank, change_profile, emit, notify,
}
use backend_htssclub.Caro.{
  Board, in_bounds, is_at, place, MoveResult, refused, win, draw, goes_on, apply_move,
}
use backend_htssclub.Caro.Elo.{EloDelta}
use backend_htssclub.Caro.Match.{
  CaroGame, CaroEndReason, Match, is_playing, mark_of, at_hall, clear_timer, start_turn_timer,
  change_points, close_if_any, close_room_of, reward_winner, finish, reward_draw, finish_draw,
  after_move, move,
}
use backend_htssclub.Caro.Turns.{Outcome, apply_move_lem, legal_move}
use backend_htssclub.Caro.Sound.{IsSound}

announce-IsTotal : (u : ℕ) (r q : _) → IsTotal (announce_rank u r q)
unfolding announce_rank emit notify
announce-IsTotal u r q = search total_rules depth 9

moved-IsTotal : (u : ℕ) (d : ℤ) (before : Option Profile) → IsTotal (move_points u d before)
unfolding change_profile emit move_points
moved-IsTotal u d none = search total_rules
moved-IsTotal u d (some p) = search (total_rules, announce-IsTotal) depth 9

pub add-IsTotal : (u : ℕ) (d : ℤ) → IsTotal (add_rank_points u d)
unfolding add_rank_points
add-IsTotal u d =
    IsTotal-if _ _ _ (IsTotal-pure none) (IsTotal-bind _ _ (IsTotal-gets _) (moved-IsTotal u d))

at_hall-IsTotal : {A : Type 0} (m : Action Hall A) → IsTotal m → IsTotal (at_hall m)
unfolding at_hall
at_hall-IsTotal m h = record { value = λ s. h.value s.hall; returns = λ s. h.returns s.hall }

change-IsTotal : (a : ℕ) (da : ℤ) (b : ℕ) (db : ℤ) → IsTotal (change_points a da b db)
unfolding change_points
change-IsTotal a da b db = search (total_rules, at_hall-IsTotal, add-IsTotal) depth 9

close_any-IsTotal : (room : Option ℕ) → IsTotal (close_if_any room)
unfolding close_if_any
close_any-IsTotal none = search total_rules
close_any-IsTotal (some i) = search total_rules

close-IsTotal : IsTotal close_room_of
unfolding close_room_of
close-IsTotal = search (total_rules, close_any-IsTotal)

abbrev is_accepted : MoveResult → Bool
is_accepted (refused reason) = false
is_accepted _ = true

abbrev pub on_turn : CaroGame → ℕ
on_turn g = if g.turn == 1 then g.player_x else g.player_o

module _ (elo_delta : EloDelta) where
  finish-IsTotal : (winner : ℕ) (reason : CaroEndReason) → IsTotal (finish elo_delta winner reason)
  unfolding finish reward_winner clear_timer
  finish-IsTotal winner reason = search (total_rules, change-IsTotal, close-IsTotal) depth 12

  finish_draw-IsTotal : IsTotal (finish_draw elo_delta)
  unfolding finish_draw reward_draw clear_timer
  finish_draw-IsTotal = search (total_rules, change-IsTotal, close-IsTotal) depth 12

  after_move-IsTotal :
      (g : CaroGame) (row col : ℤ) (mark user : ℕ) (result : MoveResult)
      → is_accepted result ≡ true
      → IsTotal (after_move elo_delta g mark row col user result)
  unfolding after_move start_turn_timer
  after_move-IsTotal g row col mark user (refused reason) may = absurd (ground (arith, may))
  after_move-IsTotal g row col mark user (win board line) may = search (total_rules, finish-IsTotal)
  after_move-IsTotal g row col mark user (draw board) may =
      search (total_rules, finish_draw-IsTotal)
  after_move-IsTotal g row col mark user (goes_on board) may = search total_rules

  Outcome-accepted :
      (board : Board) (row col : ℤ) (mark : ℕ) (result : MoveResult)
      → (in_bounds row col && is_at board (place row col) 0) ≡ true
      → Outcome board row col mark result
      → is_accepted result ≡ true
  Outcome-accepted board row col mark (refused reason) may o = absurd (ground (arith, may, o))
  Outcome-accepted board row col mark (win b line) may o = refl
  Outcome-accepted board row col mark (draw b) may o = refl
  Outcome-accepted board row col mark (goes_on b) may o = refl

  move_run :
      (s : Match) (user : ℕ) (row col : ℤ)
      → is_playing s.game.status ≡ true
      → (mark_of s.game user == 0) ≡ false
      → (s.game.turn == mark_of s.game user) ≡ true
      → move elo_delta user row col s
        ≡ after_move elo_delta s.game
            (mark_of s.game user)
            row
            col
            user
            (apply_move s.game.board row col (mark_of s.game user))
            s
  unfolding move ◌>>=◌
  move_run s user row col playing player turn = rw (playing, player, turn)

  mark_on_turn :
      (g : CaroGame)
      → (g.player_x == g.player_o) ≡ false
      → (g.turn ≡ 1) ⊎ (g.turn ≡ 2)
      → mark_of g (on_turn g) ≡ g.turn
  unfolding mark_of
  mark_on_turn g two turn = ground (arith, two, turn)

  -- In a running match between two players the one on turn always has a move that is accepted.
  pub player_can_move :
      (w : ℤ) (s : Match)
      → IsSound w s
      → is_playing s.game.status ≡ true
      → (s.game.player_x == s.game.player_o) ≡ false
      → (row : ℕ) × (col : ℕ) × ((move elo_delta (on_turn s.game) (pos row) (pos col) s).0 ≡ ok tt)
  player_can_move w s h playing two =
      let g = s.game in
      let (free, turns) = h.turns playing in
      let mark = mark_of g (on_turn g) in
      let own : (g.turn ≡ 1) ⊎ (g.turn ≡ 2) = elim turns [
        | inl (x, _) ↦ inl x
        | inr (o, _) ↦ inr o
      ] in
      let same : mark ≡ g.turn = mark_on_turn g two own in
      let (row, col, may) = legal_move g.board mark h.counted.0 free in
      let result = apply_move g.board (pos row) (pos col) mark in
      let done = after_move-IsTotal g (pos row) (pos col) mark (on_turn g) result (
        Outcome-accepted g.board (pos row) (pos col) mark result may
          (apply_move_lem g.board (pos row) (pos col) mark)) in
      let run =
        move_run s (on_turn g) (pos row) (pos col) playing (rw same (ground (arith, own)))
          (rw same (ground arith)) in
      (row, col, ap (λ r. r.0) run ∙ done.returns s)
