-- ===== src/TienLen/Ending.antt =====
-- The end of a match, with its points and coins, keeps the table live.
use backend_htssclub.Base.{ℕ, false, Option, none, some, List, [], ◌∷◌}
use backend_htssclub.Base.Int.{ℤ}
use backend_htssclub.Common.Action.{Action, ◌>>=◌, ◌>>◌, pure, gets, modify, ignore}
use backend_htssclub.Common.Action.Keeps.{Keeps, Keeps-bind, Keeps-modify, keeps_rules}
use backend_htssclub.Rooms.{close}
use backend_htssclub.Wallet.{Ref}
use backend_htssclub.TienLen.Game.{Game, Seat, maybe_finish}
use backend_htssclub.TienLen.Table.{
  Config, Table, at_lobby, set_game, clear_timer, reward, reward_points, reward_coins, apply_rp,
  change_of, pay_winner, charge_rotten, apply_rotten_heo_coins, close_room_of, finish, settle,
}
use backend_htssclub.TienLen.Service.{go_on_or_finish}
use backend_htssclub.TienLen.Progress.{IsLive, live_rules, points-Keeps}

-- The end of a match: it is active no more.
settle-Keeps : Keeps IsLive (modify (λ t. set_game (settle t.game) t))
unfolding settle
settle-Keeps = Keeps-modify _ (λ t p. record { going = λ a. absurd (cc a) })

apply_rp-Keeps : (cs : List (ℕ × ℤ)) (ss : List Seat) → Keeps IsLive (apply_rp cs ss)
unfolding apply_rp
apply_rp-Keeps cs [] = search keeps_rules
apply_rp-Keeps cs (s ∷ ss) =
    Keeps-bind _ _ (points-Keeps s.user_id (change_of s.user_id cs)) (λ _. apply_rp-Keeps cs ss)

rp_note-Keeps :
    (cs : List (ℕ × ℤ))
    → Keeps IsLive (modify (λ t. set_game (record t.game { rp_change = some cs }) t))
unfolding maybe_finish
rp_note-Keeps cs = Keeps-modify _ (λ t p. record {
  going = λ a. record { numbered = (p.going a).numbered; playable = (p.going a).playable };
})

coin_note-Keeps :
    (cs : List (ℕ × ℤ))
    → Keeps IsLive (modify (λ t. set_game (record t.game { coin_change = some cs }) t))
unfolding maybe_finish
coin_note-Keeps cs = Keeps-modify _ (λ t p. record {
  going = λ a. record { numbered = (p.going a).numbered; playable = (p.going a).playable };
})

reward_points-Keeps : (config : Config) (g : Game) → Keeps IsLive (reward_points config g)
unfolding reward_points
reward_points-Keeps config g = search (live_rules, rp_note-Keeps, apply_rp-Keeps) depth 9

charge-Keeps :
    (price : ℕ) (ref : Ref) (winner : ℕ) (rs : List (ℕ × ℕ)) (cs : List (ℕ × ℤ))
    → Keeps IsLive (charge_rotten price ref winner rs cs)
unfolding charge_rotten
charge-Keeps price ref winner [] cs = search keeps_rules
charge-Keeps price ref winner ((u, units) ∷ rs) cs =
    search (live_rules, charge-Keeps price ref winner rs) depth 9

rotten-Keeps :
    (config : Config) (winner : Option ℕ) (rs : List (ℕ × ℕ)) (cs : List (ℕ × ℤ))
    → Keeps IsLive (apply_rotten_heo_coins config winner rs cs)
unfolding apply_rotten_heo_coins
rotten-Keeps config none rs cs = search keeps_rules
rotten-Keeps config (some w) rs cs = search (live_rules, charge-Keeps) depth 9

pay_winner-Keeps :
    (winner : Option ℕ) (g : Game) (cs : List (ℕ × ℤ)) → Keeps IsLive (pay_winner winner g cs)
unfolding pay_winner
pay_winner-Keeps none g cs = search keeps_rules
pay_winner-Keeps (some w) g cs = search live_rules depth 9

reward_coins-Keeps : (config : Config) (g : Game) → Keeps IsLive (reward_coins config g)
unfolding reward_coins
reward_coins-Keeps config g =
    search (live_rules, pay_winner-Keeps, rotten-Keeps, coin_note-Keeps) depth 9

close-Keeps : Keeps IsLive close_room_of
unfolding close_room_of
close-Keeps = Keeps-bind _ _ (search keeps_rules) λ room. closing room
  where
    closing :
        (room : Option ℕ)
        → Keeps IsLive (elim room [ none ↦ pure tt | some i ↦ ignore (at_lobby (close i)) ])
    closing none = search keeps_rules
    closing (some i) = search live_rules

-- What `finish` does once the match is over.
pay_out : Config → Action Table (Unit {0})
pay_out config = do g ← gets (λ t. t.game); reward config g; close_room_of

pay_out-Keeps : (config : Config) → Keeps IsLive (pay_out config)
unfolding pay_out reward
pay_out-Keeps config =
    search (live_rules, reward_points-Keeps, reward_coins-Keeps, close-Keeps) depth 9

-- A match that finishes is live, whatever it was before.
pub finish-IsLive : (config : Config) (t : Table) → IsLive (finish config t).1
unfolding finish clear_timer ◌>>=◌ pay_out settle
finish-IsLive config t =
    (pay_out-Keeps config).at (set_game (settle t.game) (record t { armed = false }))
      (record { going = λ a. absurd (cc a) })

pub finish-Keeps : (config : Config) → Keeps IsLive (finish config)
unfolding finish reward
finish-Keeps config =
    search (live_rules, settle-Keeps, reward_points-Keeps, reward_coins-Keeps, close-Keeps) depth 12

pub go_on-Keeps : (config : Config) → Keeps IsLive (go_on_or_finish config)
unfolding go_on_or_finish
go_on-Keeps config = search (live_rules, finish-Keeps) depth 9
