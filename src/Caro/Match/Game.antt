-- ===== src/Caro/Match/Game.antt =====
-- src/games/caro/schemas/caro-game.schema.ts: the document of a match of Caro.
use backend_htssclub.Base.{ℕ, ◌*◌, Bool, true, false, Option, none, List, [], ◌==◌, if◌then◌else◌}
use backend_htssclub.Base.Int.{ℤ}
use backend_htssclub.Common.Enums.{GameMode, ranked, wager}
use backend_htssclub.Caro.{Board, create_board}

pub data CaroStatus : Type 0 where
  active finished aborted : CaroStatus

pub data CaroEndReason : Type 0 where
  by_win by_resign by_timeout by_disconnect by_draw by_abort : CaroEndReason

pub record CaroMove : Type 0 where
  pub by : ℕ
  pub row : ℤ
  pub col : ℤ

pub record CaroGame : Type 0 where
  pub player_x : ℕ
  pub player_o : ℕ
  pub mode : GameMode
  pub bet_amount : ℕ
  pub pot : ℕ
  pub room_id : Option ℕ
  pub status : CaroStatus
  pub board : Board
  pub moves : List CaroMove
  pub turn : ℕ
  pub winner : Option ℕ
  pub end_reason : Option CaroEndReason
  pub winning_line : Option (List ℕ)
  pub rp_change : Option (List (ℕ × ℤ))

abbrev pub is_playing : CaroStatus → Bool
is_playing active = true
is_playing _ = false

abbrev pub is_ranked : GameMode → Bool
is_ranked ranked = true
is_ranked _ = false

abbrev pub is_wager : GameMode → Bool
is_wager wager = true
is_wager _ = false

-- `createGame`, with a whole stake.
unfoldable pub create_game : ℕ → ℕ → GameMode → ℕ → Option ℕ → CaroGame
create_game x o mode bet room =
    let bet_amount : ℕ = if is_wager mode then bet else 0 in
    record {
      player_x = x;
      player_o = o;
      mode = mode;
      bet_amount = bet_amount;
      pot = bet_amount * 2;
      room_id = room;
      status = active;
      board = create_board;
      moves = [];
      turn = 1;
      winner = none;
      end_reason = none;
      winning_line = none;
      rp_change = none;
    }

unfoldable pub mark_of : CaroGame → ℕ → ℕ
mark_of g u = if g.player_x == u then 1 else if g.player_o == u then 2 else 0

unfoldable pub opponent_of : CaroGame → ℕ → ℕ
opponent_of g u = if g.player_x == u then g.player_o else g.player_x
