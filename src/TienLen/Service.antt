-- ===== src/TienLen/Service.antt =====
-- src/games/tienlen/tienlen.service.ts: the handlers of a match, its timers and disconnects.
use backend_htssclub.Base.{
  ℕ, ◌*◌, Bool, true, false, not, ◌&&◌, Option, none, some, List, [], ◌∷◌, ◌++◌, ◌==◌,
  if◌then◌else◌, length, get_elem?, keep,
}
use backend_htssclub.Base.Int.{pos, ◌-ℤ◌}
use backend_htssclub.Common.Action.{
  Action, pure, throw_if, or_throw, gets, modify, succeeds, ignore, ◌>>=◌, ◌>>◌, bad_request,
  forbidden, game_not_active, not_player, not_your_turn, no_cards, bad_combination, does_not_beat,
  cards_not_held, must_lead, already_finished,
}
use backend_htssclub.Wallet.{tienlen_chop}
use backend_htssclub.Wager.{collect_stake, payout}
use backend_htssclub.Rooms.{at_bank}
use backend_htssclub.TienLen.Cards.{
  Combo, identify_combo, can_beat, chopped_heo_cards, chop_heo_breakdown, head_or_zero,
}
use backend_htssclub.TienLen.Hands.{remove_cards}
use backend_htssclub.TienLen.Game.{
  Game, Seat, Chop, is_active_status, seat_of, modify_at, current_combo_obj, apply_play, apply_pass,
  maybe_finish, force_finish_last, hand_on, skip,
}
use backend_htssclub.TienLen.Table.{
  Config, Table, at_lobby, set_game, clear_timer, start_turn_timer, add_rank_points, unit_price,
  is_ranked, is_wager, finish,
}

-- A chop that is to be paid, with its units.
pub record ChopEvent : Type 0 where
  pub chop : Chop
  pub units : ℕ

-- `victimSeat && victimSeat.userId !== userId`
unfoldable pub chop_of : Game → ℕ → List ℕ → Option ChopEvent
chop_of g user [] = none
chop_of g user (c ∷ cs) = elim (get_elem? g.seats g.lead_seat) [
  | none ↦ none
  | some victim ↦
      if victim.user_id == user
      then none
      else some (record {
        chop = record {
          chopper = user;
          victim = victim.user_id;
          heo_count = length (c ∷ cs);
          black = (chop_heo_breakdown (c ∷ cs)).black;
          red = (chop_heo_breakdown (c ∷ cs)).red;
        };
        units = (chop_heo_breakdown (c ∷ cs)).units;
      })
]

abbrev pub note_chop : Option ChopEvent → Game → Game
note_chop none g = g
note_chop (some e) g = record g { chops = g.chops ++ e.chop ∷ [] }

-- The coins of a chop go from the victim to the chopper where the victim has them.
unfoldable pub pay_chop : ℕ → Chop → Action Table (Unit {0})
pay_chop amount chop = do
  t ← gets (λ t. t)
  debited ←
      succeeds (at_lobby (at_bank (collect_stake chop.victim (pos amount) (tienlen_chop t.id))))
  if debited
      then ignore (at_lobby (at_bank (payout chop.chopper (pos amount) (tienlen_chop t.id))))
      else pure tt

-- `applyChopPenalty`
unfoldable pub apply_chop_penalty : Config → Option ChopEvent → Action Table (Unit {0})
apply_chop_penalty config none = pure tt
apply_chop_penalty config (some e) = do
  g ← gets (λ t. t.game)
  if is_wager g.mode
      then pay_chop (unit_price g.bet_amount config.chop_num config.chop_den * e.units) e.chop
      else if is_ranked g.mode
      then (add_rank_points e.chop.chopper (pos (config.chop_rp * e.units))
          >> add_rank_points e.chop.victim (pos 0 -ℤ pos (config.chop_rp * e.units)))
      else pure tt

-- The game goes on with the next turn, or it is over.
unfoldable pub go_on_or_finish : Config → Action Table (Unit {0})
go_on_or_finish config = do
  g ← gets (λ t. t.game)
  if maybe_finish g then finish config else start_turn_timer

-- `play` from the combination on: the cards are on the table.
unfoldable pub play_combo : Config → Game → ℕ → ℕ → Seat → Combo → List ℕ → Action Table (Unit {0})
play_combo config g user place seat combo cards = do
  new_hand ← or_throw (remove_cards seat.hand cards) (bad_request cards_not_held)
  event ← gets (λ _. chop_of g user (chopped_heo_cards combo (current_combo_obj g)))
  modify (set_game (apply_play (note_chop event g) place seat combo new_hand))
  apply_chop_penalty config event
  go_on_or_finish config

unfoldable pub play : Config → ℕ → List ℕ → Action Table (Unit {0})
play config user cards = do
  g ← gets (λ t. t.game)
  throw_if (not (is_active_status g.status)) (bad_request game_not_active)
  found ← or_throw (seat_of g user) (forbidden not_player)
  throw_if (not (g.turn == found.1.seat)) (bad_request not_your_turn)
  throw_if (length cards == 0) (bad_request no_cards)
  clear_timer
  combo ← or_throw (identify_combo cards) (bad_request bad_combination)
  throw_if (not (length g.history == 0) && not (can_beat combo (current_combo_obj g)))
      (bad_request does_not_beat)
  play_combo config g user found.0 found.1 combo cards

unfoldable pub pass : ℕ → Action Table (Unit {0})
pass user = do
  g ← gets (λ t. t.game)
  throw_if (not (is_active_status g.status)) (bad_request game_not_active)
  found ← or_throw (seat_of g user) (forbidden not_player)
  throw_if (not (g.turn == found.1.seat)) (bad_request not_your_turn)
  throw_if (length g.current_combo == 0) (bad_request must_lead)
  clear_timer
  modify (set_game (apply_pass g found.0 found.1))
  start_turn_timer

-- `forceFinishLast`, and the game over or handed on.
unfoldable pub forfeit : Config → Game → ℕ → Seat → Action Table (Unit {0})
forfeit config g place seat = do
  modify (set_game (force_finish_last g place seat))
  if maybe_finish (force_finish_last g place seat)
      then finish config
      else (modify (set_game (hand_on (force_finish_last g place seat) seat)) >> start_turn_timer)

unfoldable pub resign : Config → ℕ → Action Table (Unit {0})
resign config user = do
  g ← gets (λ t. t.game)
  throw_if (not (is_active_status g.status)) (bad_request game_not_active)
  found ← or_throw (seat_of g user) (forbidden not_player)
  throw_if (found.1.hand_count == 0) (bad_request already_finished)
  clear_timer
  forfeit config g found.0 found.1

-- `autoSkip`, for the seat at this place.
unfoldable pub auto_skip : ℕ → Action Table (Unit {0})
auto_skip place = do
  g ← gets (λ t. t.game)
  if not (is_active_status g.status)
      then pure tt
      else if not (g.turn == place)
      then pure tt
      else elim (get_elem? g.seats place) [
        | none ↦ pure tt
        | some seat ↦ (modify (set_game (skip g place seat)) >> start_turn_timer)
      ]

-- `onTimeout`: the timer of the turn has fired.
unfoldable pub on_timeout : Config → Action Table (Unit {0})
on_timeout config = do
  modify (λ t. record t { armed = false })
  g ← gets (λ t. t.game)
  if not (is_active_status g.status) then pure tt else elim (get_elem? {A = Seat} g.seats g.turn) [
    | none ↦ pure tt
    | some seat ↦
        if seat.hand_count == 0
        then pure tt
        else if not seat.connected
        then ignore (auto_skip seat.seat)
        else if length g.current_combo == 0
        then ignore (play config seat.user_id (head_or_zero seat.hand ∷ []))
        else ignore (pass seat.user_id)
  ]

abbrev pub set_connected : Bool → Seat → Seat
set_connected b s = record s { connected = b }

-- `clearDcTimer`
unfoldable pub clear_dc_timer : ℕ → Action Table (Unit {0})
clear_dc_timer user = modify (λ t. record t { grace = keep (λ u. not (u == user)) t.grace })

unfoldable pub on_reconnect : ℕ → Action Table (Unit {0})
on_reconnect user = do
  clear_dc_timer user
  g ← gets (λ t. t.game)
  elim (seat_of g user) [
    | none ↦ pure tt
    | some found ↦
        if found.1.connected
        then pure tt
        else modify (set_game (record g { seats = modify_at found.0 (set_connected true) g.seats }))
  ]

unfoldable pub on_disconnect : ℕ → Action Table (Unit {0})
on_disconnect user = do
  g ← gets (λ t. t.game)
  if not (is_active_status g.status) then pure tt else elim (seat_of g user) [
    | none ↦ pure tt
    | some found ↦ if found.1.hand_count == 0 then pure tt else do
      modify (set_game (record g { seats = modify_at found.0 (set_connected false) g.seats }))
      if g.turn == found.1.seat then ignore (auto_skip found.1.seat) else pure tt
      clear_dc_timer user
      modify (λ t. record t { grace = user ∷ t.grace })
  ]

-- `forfeitDisconnected`: the grace timer of a user has fired.
unfoldable pub forfeit_disconnected : Config → ℕ → Action Table (Unit {0})
forfeit_disconnected config user = do
  clear_dc_timer user
  g ← gets (λ t. t.game)
  if not (is_active_status g.status) then pure tt else elim (seat_of g user) [
    | none ↦ pure tt
    | some found ↦ if found.1.hand_count == 0 then pure tt else forfeit config g found.0 found.1
  ]
