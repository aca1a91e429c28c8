-- ===== src/Caro/Tests.antt =====
-- Examples.
use backend_htssclub.Base.{
  ℕ, ◌-◌, ◌≤◌, ◌<◌, ◌≡◌, ◌↔◌, inl, refl, true, false, none, some, [], ◌∷◌, ◌==◌, arith,
}
use backend_htssclub.Base.Int.{pos, negsuc, ◌+ℤ◌, ◌-ℤ◌, ◌*ℤ◌}
use backend_htssclub.Common.Enums.{wager, ranked}
use backend_htssclub.Common.Action.{ok}
use backend_htssclub.Wallet.{find_by_id}
use backend_htssclub.Wallet.Users.{total}
use backend_htssclub.Wager.Effects.{is_known}
use backend_htssclub.Leveling.Service.{find_profile}
use backend_htssclub.Caro.{
  Board, create_board, Direction, find_winning_line, first_line, line_through, scan, ahead, behind,
  probe, in_bounds,
}
use backend_htssclub.Caro.Marks.{is_some, IsFive}
use backend_htssclub.Caro.Lines.{find_winning_line_iff}
use backend_htssclub.Caro.Elo.{EloDelta, won, lost, half}
use backend_htssclub.Caro.Match.{
  Match, create_game, is_playing, opponent_of, finish, by_win, by_resign, end_game, points_of, move,
  moves_to, resigns, grace_passes, react_all,
}
use backend_htssclub.Caro.Sound.{IsSound}
use backend_htssclub.Caro.History.{react_all-IsSound}
use backend_htssclub.Caro.Progress.{on_turn, player_can_move}
use backend_htssclub.Caro.Ended.{react_all_over}
use backend_htssclub.Caro.Points.{finish_ranked_moves_points}

abbrev elo : EloDelta
elo _ _ won = pos 16
elo _ _ lost = negsuc 15
elo _ _ half = pos 0

-- Five stones of X in the first row, and four.
abbrev row_of_five : Board
row_of_five = 1 ∷ 1 ∷ 1 ∷ 1 ∷ 1 ∷ []

abbrev row_of_four : Board
row_of_four = 1 ∷ 1 ∷ 0 ∷ 1 ∷ 1 ∷ []

find_winning_line_iff_example :
    (is_some (find_winning_line row_of_five (pos 0) (pos 2) 1) ≡ true)
    ↔ ((d : Direction) × (k : ℕ) × IsFive row_of_five (pos 0) (pos 2) 1 d k)
find_winning_line_iff_example = find_winning_line_iff row_of_five (pos 0) (pos 2) 1

five_found : find_winning_line row_of_five (pos 0) (pos 2) 1 ≡ some (0 ∷ 1 ∷ 2 ∷ 3 ∷ 4 ∷ [])
unfolding find_winning_line first_line line_through scan ahead behind probe in_bounds ◌+ℤ◌ ◌-ℤ◌ ◌*ℤ◌
five_found = refl

-- 1 and 2 play for the 20 coins that both staked.
abbrev fresh : Match
fresh = record {
  id = 7;
  game = create_game 1 2 wager 20 none;
  lobby = record {
    bank = record {
      users = record { id = 1; balance = pos 80 } ∷ record { id = 2; balance = pos 5 } ∷ [];
      transactions = [];
      emitted = [];
    };
    rooms = [];
    next_id = 1;
  };
  hall = record {
    profiles =
        record { id = 1; xp = 0; level = 1; rank_points = 40; coins = 80 }
        ∷ record { id = 2; xp = 0; level = 1; rank_points = 10; coins = 5 }
        ∷ [];
    events = [];
    notices = [];
    memberships = [];
  };
  armed = true;
  grace = [];
}

fresh-IsSound : IsSound (pos 125) fresh
unfolding create_game create_board is_known find_by_id total ◌+ℤ◌
fresh-IsSound = record {
  counted = (refl, refl);
  turns = λ _. (ground arith, inl (refl, refl));
  coins = record {
    unique = (refl, (refl, tt));
    known_x = refl;
    known_o = refl;
    stakes = refl;
    sum = refl;
  };
}

react_all-IsSound_example :
    IsSound
      (pos 125)
      (react_all elo (moves_to 1 (pos 7) (pos 7) ∷ resigns 2 ∷ grace_passes 1 ∷ []) fresh)
react_all-IsSound_example =
    react_all-IsSound (pos 125) elo (moves_to 1 (pos 7) (pos 7) ∷ resigns 2 ∷ grace_passes 1 ∷ [])
      fresh fresh-IsSound

is_on : is_playing fresh.game.status ≡ true
unfolding create_game
is_on = refl

two_players : (fresh.game.player_x == fresh.game.player_o) ≡ false
unfolding create_game
two_players = refl

player_can_move_example :
    (row : ℕ) × (col : ℕ) × ((move elo (on_turn fresh.game) (pos row) (pos col) fresh).0 ≡ ok tt)
player_can_move_example = player_can_move elo (pos 125) fresh fresh-IsSound is_on two_players

abbrev done : Match
done = record fresh { game = end_game (some 1) by_resign fresh.game }

react_all_over_example :
    let s' = react_all elo (moves_to 2 (pos 7) (pos 7) ∷ resigns 2 ∷ []) done in
    (s'.game ≡ done.game) × (s'.lobby ≡ done.lobby) × (s'.hall ≡ done.hall)
react_all_over_example = react_all_over elo (moves_to 2 (pos 7) (pos 7) ∷ resigns 2 ∷ []) done refl

abbrev ladder_match : Match
ladder_match = record fresh { game = create_game 1 2 ranked 0 none }

opponent : opponent_of ladder_match.game 1 ≡ 2
unfolding opponent_of create_game
opponent = refl

finish_ranked_moves_points_example :
    let h = (finish elo 1 by_win ladder_match).1.hall in
    (points_of 1 ladder_match.hall < points_of 1 h)
    × (points_of (opponent_of ladder_match.game 1) h
        ≤ points_of (opponent_of ladder_match.game 1) ladder_match.hall - 1)
unfolding create_game find_profile opponent_of
finish_ranked_moves_points_example =
    finish_ranked_moves_points elo 1 by_win ladder_match
      (record { id = 1; xp = 0; level = 1; rank_points = 40; coins = 80 })
      (record { id = 2; xp = 0; level = 1; rank_points = 10; coins = 5 }) refl
      (λ e. ground (arith, e)) refl refl
