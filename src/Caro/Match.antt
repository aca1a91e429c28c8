-- ===== src/Caro/Match.antt =====
-- src/games/caro/caro.service.ts: a match of Caro, on the document of Match/Game.
pub mod Game
unfoldable pub use Game.*
use backend_htssclub.Base.{
  ℕ, ◌*◌, Bool, true, false, not, ◌&&◌, ◌||◌, Option, none, some, List, [], ◌∷◌, ◌++◌, ltb, ◌==◌,
  if◌then◌else◌, contains, keep,
}
use backend_htssclub.Base.Int.{ℤ, pos}
use backend_htssclub.Common.Enums.{GameMode, ranked, wager}
use backend_htssclub.Common.Action.{
  Action, pure, throw, throw_if, gets, modify, ignore, ◌>>=◌, ◌>>◌, bad_request, forbidden,
  game_not_active, not_player, not_your_turn, player_count,
}
use backend_htssclub.Wallet.{caro_game}
use backend_htssclub.Wager.{payout, refund}
use backend_htssclub.Rooms.{Lobby, at_bank, close, mark_in_progress}
use backend_htssclub.Leveling.Service.{Hall, find_profile, add_rank_points}
use backend_htssclub.Caro.{Board, create_board, MoveResult, refused, win, draw, goes_on, apply_move}
use backend_htssclub.Caro.Elo.{EloDelta, ranked_outcome, draw_outcome}

-- One match: its document, the lobby with the bank, the users' points, whether the timer of the
-- turn runs, and the users whose grace timer runs.
pub record Match : Type 0 where
  pub id : ℕ
  pub game : CaroGame
  pub lobby : Lobby
  pub hall : Hall
  pub armed : Bool
  pub grace : List ℕ

unfoldable pub at_lobby : {A : Type 0} → Action Lobby A → Action Match A
at_lobby m s = let (r, l) = m s.lobby in (r, record s { lobby = l })

unfoldable pub at_hall : {A : Type 0} → Action Hall A → Action Match A
at_hall m s = let (r, h) = m s.hall in (r, record s { hall = h })

abbrev pub set_game : CaroGame → Match → Match
set_game g s = record s { game = g }

unfoldable pub start_turn_timer : Action Match (Unit {0})
start_turn_timer = modify (λ s. record s { armed = true })

unfoldable pub clear_timer : Action Match (Unit {0})
clear_timer = modify (λ s. record s { armed = false })

abbrev pub clear_dc_timer : ℕ → Action Match (Unit {0})
clear_dc_timer u = modify (λ s. record s { grace = keep (λ v. not (v == u)) s.grace })

-- `launchFromRoom`, once chance has put the two members in order; the turn timer starts.
unfoldable pub launch_from_room : ℕ → GameMode → ℕ → List ℕ → Action Match (Unit {0})
launch_from_room room mode bet (x ∷ o ∷ []) = do
  modify (set_game (create_game x o mode bet (some room)))
  start_turn_timer
  s ← gets (λ s. s)
  at_lobby (mark_in_progress room s.id)
  pure tt
launch_from_room room mode bet _ = throw (bad_request player_count)

unfoldable pub on_disconnect : ℕ → Action Match (Unit {0})
on_disconnect user = do
  g ← gets (λ s. s.game)
  if not (is_playing g.status) || mark_of g user == 0
      then pure tt
      else (clear_dc_timer user >> modify (λ s. record s { grace = user ∷ s.grace }))

unfoldable pub on_reconnect : ℕ → Action Match (Unit {0})
on_reconnect user = clear_dc_timer user

-- `user?.rankPoints ?? 0`
unfoldable pub points_of : ℕ → Hall → ℕ
points_of u h = elim (find_profile u h.profiles) [ none ↦ 0 | some p ↦ p.rank_points ]

unfoldable pub change_points : ℕ → ℤ → ℕ → ℤ → Action Match (Unit {0})
change_points a da b db = do
  g ← gets (λ s. s.game)
  modify (set_game (record g { rp_change = some ((a, da) ∷ (b, db) ∷ []) }))
  at_hall (add_rank_points a da)
  at_hall (add_rank_points b db)
  pure tt

unfoldable pub close_if_any : Option ℕ → Action Match (Unit {0})
close_if_any none = pure tt
close_if_any (some room) = ignore (at_lobby (close room))

-- `if (game.roomId) await this.rooms.close(…)`
unfoldable pub close_room_of : Action Match (Unit {0})
close_room_of = do room ← gets (λ s. s.game.room_id); close_if_any room

abbrev pub end_game : Option ℕ → CaroEndReason → CaroGame → CaroGame
end_game winner reason g = record g { status = finished; winner = winner; end_reason = some reason }

abbrev pub with_move : ℕ → ℤ → ℤ → Board → CaroGame → CaroGame
with_move mark row col board g = record g {
  board = board;
  moves = g.moves ++ record { by = mark; row = row; col = col } ∷ [];
}

module _ (elo_delta : EloDelta) where
  unfoldable pub reward_winner : ℕ → ℕ → CaroGame → Action Match (Unit {0})
  reward_winner winner loser g =
      if is_ranked g.mode
      then (do
        h ← gets (λ s. s.hall)
        change_points winner
            (ranked_outcome elo_delta (points_of winner h) (points_of loser h)).winner_delta loser
            (ranked_outcome elo_delta (points_of winner h) (points_of loser h)).loser_delta)
      else if is_wager g.mode && ltb 0 g.pot
      then (do
        s ← gets (λ s. s)
        ignore (at_lobby (at_bank (payout winner (pos g.pot) (caro_game s.id)))))
      else pure tt

  -- `finish`
  unfoldable pub finish : ℕ → CaroEndReason → Action Match (Unit {0})
  finish winner reason = do
    clear_timer
    g ← gets (λ s. s.game)
    modify (set_game (end_game (some winner) reason g))
    reward_winner winner (opponent_of g winner) g
    close_room_of

  unfoldable pub reward_draw : CaroGame → Action Match (Unit {0})
  reward_draw g =
      if is_ranked g.mode
      then (do
        h ← gets (λ s. s.hall)
        change_points g.player_x
            (draw_outcome elo_delta (points_of g.player_x h) (points_of g.player_o h)).0 g.player_o
            (draw_outcome elo_delta (points_of g.player_x h) (points_of g.player_o h)).1)
      else if is_wager g.mode && ltb 0 g.pot
      then (do
        s ← gets (λ s. s)
        ignore (at_lobby (at_bank (refund g.player_x (pos g.bet_amount) (caro_game s.id))))
        ignore (at_lobby (at_bank (refund g.player_o (pos g.bet_amount) (caro_game s.id)))))
      else pure tt

  -- `finishDraw`
  unfoldable pub finish_draw : Action Match (Unit {0})
  finish_draw = do
    clear_timer
    g ← gets (λ s. s.game)
    modify (set_game (end_game none by_draw g))
    reward_draw g
    close_room_of

  -- `move` after `applyMove`.
  unfoldable pub after_move : CaroGame → ℕ → ℤ → ℤ → ℕ → MoveResult → Action Match (Unit {0})
  after_move g mark row col user (refused reason) = throw (bad_request reason)
  after_move g mark row col user (win board line) = do
    modify (set_game (record (with_move mark row col board g) { winning_line = some line }))
    finish user by_win
  after_move g mark row col user (draw board) = do
    modify (set_game (with_move mark row col board g))
    finish_draw
  after_move g mark row col user (goes_on board) = do
    modify
        (set_game (record (with_move mark row col board g) { turn = if mark == 1 then 2 else 1 }))
    start_turn_timer

  unfoldable pub move : ℕ → ℤ → ℤ → Action Match (Unit {0})
  move user row col = do
    g ← gets (λ s. s.game)
    throw_if (not (is_playing g.status)) (bad_request game_not_active)
    throw_if (mark_of g user == 0) (forbidden not_player)
    throw_if (not (g.turn == mark_of g user)) (bad_request not_your_turn)
    after_move g (mark_of g user) row col user (apply_move g.board row col (mark_of g user))

  unfoldable pub resign : ℕ → Action Match (Unit {0})
  resign user = do
    g ← gets (λ s. s.game)
    throw_if (not (is_playing g.status)) (bad_request game_not_active)
    throw_if (mark_of g user == 0) (forbidden not_player)
    finish (opponent_of g user) by_resign

  unfoldable pub forfeit_disconnected : ℕ → Action Match (Unit {0})
  forfeit_disconnected user = do
    g ← gets (λ s. s.game)
    if not (is_playing g.status) then pure tt else finish (opponent_of g user) by_disconnect

  unfoldable pub on_turn_timeout : Action Match (Unit {0})
  on_turn_timeout = do
    g ← gets (λ s. s.game)
    if not (is_playing g.status)
        then pure tt
        else finish (opponent_of g (if g.turn == 1 then g.player_x else g.player_o)) by_timeout

  -- What reaches a match: requests, and timers that fire while they run.
  unfoldable pub grace_expired : ℕ → Action Match (Unit {0})
  grace_expired user = do
    s ← gets (λ s. s)
    if contains user s.grace then (clear_dc_timer user >> forfeit_disconnected user) else pure tt

  unfoldable pub turn_expired : Action Match (Unit {0})
  turn_expired = do s ← gets (λ s. s); if s.armed then (clear_timer >> on_turn_timeout) else pure tt

pub data MatchEvent : Type 0 where
  moves_to : ℕ → ℤ → ℤ → MatchEvent
  resigns disconnects reconnects grace_passes : ℕ → MatchEvent
  turn_passes : MatchEvent

module _ (elo_delta : EloDelta) where
  abbrev pub react : MatchEvent → Action Match (Unit {0})
  react (moves_to u row col) = move elo_delta u row col
  react (resigns u) = resign elo_delta u
  react (disconnects u) = on_disconnect u
  react (reconnects u) = on_reconnect u
  react (grace_passes u) = grace_expired elo_delta u
  react turn_passes = turn_expired elo_delta

  abbrev pub react_all : List MatchEvent → Match → Match
  react_all [] s = s
  react_all (e ∷ es) s = react_all es (react e s).1
