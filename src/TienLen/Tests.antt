-- ===== src/TienLen/Tests.antt =====
-- The rules and the tricks on concrete cards.
use backend_htssclub.Base.{
  ℕ, ◌+◌, ◌≡◌, ◌↔◌, refl, true, false, none, some, List, [], ◌∷◌, map, contains, sort, length,
  IsDistinct,
}
use backend_htssclub.Common.Enums.{casual}
use backend_htssclub.TienLen.Cards.{
  Combo, ComboType, single, straight, pair_straight, four, identify_combo, identify_sorted,
  all_same, consecutive, is_straight, rank_of, beats,
}
use backend_htssclub.TienLen.Combos.{IsShape, combo_of, identify_combo_iff}
use backend_htssclub.TienLen.Beats.{beats_asymm}
use backend_htssclub.TienLen.Game.{
  Seat, Game, active, put_down, apply_play, advance_turn, advance_from, maybe_finish, final_order,
}
use backend_htssclub.TienLen.Table.{Config, Table}
use backend_htssclub.TienLen.Numbers.{numbers}
use backend_htssclub.TienLen.Progress.{IsLive}
use backend_htssclub.TienLen.Handlers.{
  TableEvent, play_cards, disconnected, turn_over, give_up, react_all, react_all-IsLive,
}
use backend_htssclub.TienLen.Turns.{Move, IsPlayable, Move-IsPlayable}
use backend_htssclub.TienLen.Standing.{final_order_complete}

-- 3♠ 4♥ 5♠ in the order of a client.
abbrev run_of_three : List ℕ
run_of_three = 8 ∷ 0 ∷ 7 ∷ []

abbrev two_of_spades : Combo
two_of_spades = record { type = single; cards = 48 ∷ []; rank_value = 48; length = 1 }

abbrev four_threes : Combo
four_threes = record { type = four; cards = 0 ∷ 1 ∷ 2 ∷ 3 ∷ []; rank_value = 3; length = 4 }

abbrev five_pairs : Combo
five_pairs = record {
  type = pair_straight;
  cards = 0 ∷ 1 ∷ 4 ∷ 5 ∷ 8 ∷ 9 ∷ 12 ∷ 13 ∷ 16 ∷ 17 ∷ [];
  rank_value = 17;
  length = 10;
}

abbrev seat_with : ℕ → List ℕ → Seat
seat_with i cards = record {
  user_id = i + 10;
  seat = i;
  hand = cards;
  hand_count = length cards;
  finished_rank = 0;
  passed = false;
  connected = true;
}

-- Three players; the first one leads.
abbrev table : Game
table = record {
  mode = casual;
  bet_amount = 0;
  pot = 0;
  status = active;
  seats = seat_with 0 (0 ∷ []) ∷ seat_with 1 (7 ∷ 48 ∷ []) ∷ seat_with 2 (20 ∷ 21 ∷ []) ∷ [];
  turn = 0;
  opening_card = 0;
  current_combo = [];
  current_combo_type = none;
  lead_seat = 0;
  history = [];
  finish_order = [];
  resigned_seats = [];
  rp_change = none;
  coin_change = none;
  chops = [];
}

abbrev three_of_spades : Combo
three_of_spades = record { type = single; cards = 0 ∷ []; rank_value = 0; length = 1 }

identify-run : identify_combo run_of_three ≡ some (combo_of straight (0 ∷ 7 ∷ 8 ∷ []))
unfolding identify_combo identify_sorted all_same is_straight consecutive sort
identify-run = refl

identify_combo_iff_example :
    (identify_combo run_of_three ≡ some (combo_of straight (0 ∷ 7 ∷ 8 ∷ []))) ↔ (
      (t : ComboType) × (combo_of straight (0 ∷ 7 ∷ 8 ∷ []) ≡ combo_of t (sort run_of_three))
      × IsShape t (map rank_of (sort run_of_three)))
identify_combo_iff_example = identify_combo_iff run_of_three (combo_of straight (0 ∷ 7 ∷ 8 ∷ []))

beats_asymm_example : beats two_of_spades four_threes ≡ false
beats_asymm_example = beats_asymm four_threes two_of_spades (unfold beats in refl)

-- 2♠ and 2♥.
abbrev both_colours : List ℕ
both_colours = 48 ∷ 51 ∷ []

-- The first player goes out with a three, and the second is to respond.
Move-IsPlayable_example : IsPlayable (apply_play table 0 (seat_with 0 (0 ∷ [])) three_of_spades [])
Move-IsPlayable_example =
    Move-IsPlayable {g = table} {g' = apply_play table 0 (seat_with 0 (0 ∷ [])) three_of_spades []}
      (Move.play 0 (seat_with 0 (0 ∷ [])) three_of_spades []) refl
      (unfold maybe_finish apply_play put_down advance_turn advance_from in refl)

abbrev ended : Game
ended = record table {
  finish_order = 2 ∷ [];
  resigned_seats = 1 ∷ 0 ∷ [];
  seats = seat_with 0 [] ∷ seat_with 1 [] ∷ seat_with 2 [] ∷ [];
}

final_order_complete_example :
    IsDistinct (final_order ended)
    × ((a : ℕ) → contains a (0 ∷ 1 ∷ 2 ∷ []) ≡ true → contains a (final_order ended) ≡ true)
final_order_complete_example = final_order_complete ended

abbrev at_table : Table
at_table = record {
  id = 500;
  game = table;
  room_id = none;
  lobby = record {
    bank = record { users = []; transactions = []; emitted = [] };
    rooms = [];
    next_id = 0;
  };
  standings = [];
  armed = true;
  grace = [];
}

abbrev prices : Config
prices = record {
  chop_num = 1;
  chop_den = 2;
  chop_rp = 5;
  rotten_num = 1;
  rotten_den = 2;
  rotten_rp = 5;
}

-- The first player goes out, the second loses the connection, and the third gives up.
abbrev evening : List TableEvent
evening = play_cards 10 (0 ∷ []) ∷ disconnected 11 ∷ turn_over ∷ give_up 12 ∷ []

starts-IsLive : IsLive at_table
unfolding numbers
starts-IsLive = record {
  going = λ a. record { numbered = (refl, (refl, (refl, tt))); playable = λ h. refl };
}

react_all-IsLive_example : IsLive (react_all prices evening at_table)
react_all-IsLive_example = react_all-IsLive prices evening at_table starts-IsLive
