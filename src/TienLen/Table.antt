-- ===== src/TienLen/Table.antt =====
-- src/games/tienlen/tienlen.service.ts: the state around a match, and how it ends.
pub mod Scores
unfoldable pub use Scores.*
use backend_htssclub.Base.{
  ℕ, ◌+◌, ◌-◌, ◌*◌, ◌/◌, Bool, true, false, ◌&&◌, Option, none, some, List, [], ◌∷◌, map, ltb, leb,
  ◌==◌, if◌then◌else◌, length, max,
}
use backend_htssclub.Base.Int.{ℤ, pos, ◌+ℤ◌, ◌-ℤ◌, leb_ℤ, eqb_ℤ}
use backend_htssclub.Common.Enums.{GameMode, ranked, wager}
use backend_htssclub.Common.Action.{Action, pure, gets, modify, succeeds, ignore, ◌>>=◌, ◌>>◌}
use backend_htssclub.Wallet.{Ref, tienlen_game, tienlen_rotten}
use backend_htssclub.Wager.{collect_stake, payout}
use backend_htssclub.Rooms.{Lobby, at_bank, close}
use backend_htssclub.TienLen.Cards.{chop_heo_breakdown, rotten_heo_cards}
use backend_htssclub.TienLen.Game.{Game, Seat, finished, final_order}

-- The rank points of a user document.
pub record Standing : Type 0 where
  pub user_id : ℕ
  pub rank_points : ℤ

-- One match: its document, the lobby with the bank, the rank points, whether the timer of the
-- turn runs, and the users whose grace timer runs.
pub record Table : Type 0 where
  pub id : ℕ
  pub game : Game
  pub room_id : Option ℕ
  pub lobby : Lobby
  pub standings : List Standing
  pub armed : Bool
  pub grace : List ℕ

unfoldable pub at_lobby : {A : Type 0} → Action Lobby A → Action Table A
at_lobby m t = let (r, l) = m t.lobby in (r, record t { lobby = l })

abbrev pub set_game : Game → Table → Table
set_game g t = record t { game = g }

-- `clearTimer` and `startTurnTimer`
unfoldable pub clear_timer : Action Table (Unit {0})
clear_timer = modify (λ t. record t { armed = false })

unfoldable pub start_turn_timer : Action Table (Unit {0})
start_turn_timer = modify (λ t. record t { armed = true })

-- `Math.max(0, prevRp + delta)` for the user with this identifier.
abbrev pub raise_points : ℕ → ℤ → List Standing → List Standing
raise_points u delta [] = []
raise_points u delta (p ∷ ps) =
    if p.user_id == u
    then record p {
      rank_points =
          if leb_ℤ (pos 0) (p.rank_points +ℤ delta) then p.rank_points +ℤ delta else pos 0;
    }
      ∷ ps
    else p ∷ raise_points u delta ps

-- `addRankPoints` of src/leveling/leveling.service.ts, without its announcements.
unfoldable pub add_rank_points : ℕ → ℤ → Action Table (Unit {0})
add_rank_points u delta =
    if eqb_ℤ delta (pos 0)
    then pure tt
    else modify (λ t. record t { standings = raise_points u delta t.standings })

unfoldable pub apply_rp : List (ℕ × ℤ) → List Seat → Action Table (Unit {0})
apply_rp cs [] = pure tt
apply_rp cs (s ∷ ss) = do add_rank_points s.user_id (change_of s.user_id cs); apply_rp cs ss

-- The loop of `applyRottenHeoCoins`.
unfoldable pub charge_rotten :
    ℕ → Ref → ℕ → List (ℕ × ℕ) → List (ℕ × ℤ) → Action Table (List (ℕ × ℤ))
charge_rotten price ref winner [] cs = pure cs
charge_rotten price ref winner ((u, units) ∷ rs) cs =
    if leb (price * units) 0 then charge_rotten price ref winner rs cs else do
      debited ← succeeds (at_lobby (at_bank (collect_stake u (pos (price * units)) ref)))
      if debited
          then (ignore (at_lobby (at_bank (payout winner (pos (price * units)) ref)))
              >> charge_rotten price ref winner rs (
                  add_change winner (pos (price * units))
                    (add_change u (pos 0 -ℤ pos (price * units)) cs)))
          else charge_rotten price ref winner rs cs

-- `applyRottenHeoCoins`
unfoldable pub apply_rotten_heo_coins :
    Config → Option ℕ → List (ℕ × ℕ) → List (ℕ × ℤ) → Action Table (List (ℕ × ℤ))
apply_rotten_heo_coins config none rotten cs = pure cs
apply_rotten_heo_coins config (some winner) rotten cs = do
  t ← gets (λ t. t)
  charge_rotten (unit_price t.game.bet_amount config.rotten_num config.rotten_den)
      (tienlen_rotten t.id) winner rotten cs

abbrev pub is_ranked : GameMode → Bool
is_ranked ranked = true
is_ranked _ = false

abbrev pub is_wager : GameMode → Bool
is_wager wager = true
is_wager _ = false

-- The winner takes the pot.
unfoldable pub pay_winner : Option ℕ → Game → List (ℕ × ℤ) → Action Table (List (ℕ × ℤ))
pay_winner none g cs = pure cs
pay_winner (some winner) g cs = do
  t ← gets (λ t. t)
  ignore (at_lobby (at_bank (payout winner (pos g.pot) (tienlen_game t.id))))
  pure (put_change winner (pos g.pot -ℤ pos g.bet_amount) cs)

-- The second part of `finish`, where points are at stake,
unfoldable pub reward_points : Config → Game → Action Table (Unit {0})
reward_points config g = do
  cs ← gets (λ _.
      rp_changes config g (user_at g.seats g.finish_order)
        (rotten_players (user_at g.seats g.finish_order) g.seats))
  modify (λ t. set_game (record t.game { rp_change = some cs }) t)
  apply_rp cs g.seats

-- and coins.
unfoldable pub reward_coins : Config → Game → Action Table (Unit {0})
reward_coins config g = do
  cs ← pay_winner (user_at g.seats g.finish_order) g (lose_bets g.bet_amount g.seats [])
  cs' ←
      apply_rotten_heo_coins config (user_at g.seats g.finish_order)
        (rotten_players (user_at g.seats g.finish_order) g.seats) cs
  modify (λ t. set_game (record t.game { coin_change = some cs' }) t)

unfoldable pub reward : Config → Game → Action Table (Unit {0})
reward config g =
    if is_ranked g.mode
    then reward_points config g
    else if is_wager g.mode && ltb 0 g.pot
    then reward_coins config g
    else pure tt

unfoldable pub close_room_of : Action Table (Unit {0})
close_room_of = do
  room ← gets (λ t. t.room_id)
  elim room [ none ↦ pure tt | some i ↦ ignore (at_lobby (close i)) ]

unfoldable pub finish : Config → Action Table (Unit {0})
finish config = do
  clear_timer
  modify (λ t. set_game (settle t.game) t)
  g ← gets (λ t. t.game)
  reward config g
  close_room_of
