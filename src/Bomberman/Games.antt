-- ===== src/Bomberman/Games.antt =====
-- A game of src/games/bomberman/bomberman.logic.ts as a sequence of steps, and what all of them keep.
use backend_htssclub.Base.{
  ℕ, ◌≡◌, refl, sym, ◌∙◌, Option, none, some, List, [], ◌∷◌, ◌==◌, if◌then◌else◌, arith,
}
use backend_htssclub.Bomberman.{BPlayer, BombermanState, find_player, change_player, place_bomb}
use backend_htssclub.Bomberman.Tick.{tick_world}
use backend_htssclub.Bomberman.Armed.{owned, IsFit, IsArmed, over, find_player-change}
use backend_htssclub.Bomberman.Allowance.{tick-IsArmed, place_bomb-IsArmed}

-- A step of a game: a player asks for a bomb, moves to another tile, or the clock ticks.
pub data GameStep : Type 0 where
  places : ℕ → ℕ → GameStep
  walks : ℕ → ℕ → ℕ → GameStep
  ticks : ℕ → GameStep

abbrev pub place_for : ℕ → Option BPlayer → BombermanState → BombermanState
place_for now none w = w
place_for now (some p) w = (place_bomb p now w).1

-- `movePlayer` changes only where a player is; the tile is drawn by the caller.
unfoldable pub take_step : (ℕ → ℕ) → GameStep → BombermanState → BombermanState
take_step dice (places u now) w = place_for now (find_player u w.players) w
take_step dice (walks u c r) w = record w {
  players = change_player u (λ p. record p { col = c; row = r }) w.players;
}
take_step dice (ticks now) w = (tick_world dice now w).state

abbrev pub take_steps : (ℕ → ℕ) → List GameStep → BombermanState → BombermanState
take_steps dice [] w = w
take_steps dice (s ∷ ss) w = take_steps dice ss (take_step dice s w)

walk-IsFit :
    (u v n c r : ℕ) (o : Option BPlayer) (p : BPlayer)
    → ((q : BPlayer) → o ≡ some q → IsFit n q)
    → (if v == u then over (λ q. record q { col = c; row = r }) o else o) ≡ some p
    → IsFit n p
walk-IsFit u v n c r none p fit h = absurd (ground (arith, h))
walk-IsFit u v n c r (some q) p fit h = ground (arith, fit q refl, h)

place_for-IsArmed :
    (u now : ℕ) (o : Option BPlayer) (w : BombermanState)
    → find_player u w.players ≡ o
    → IsArmed w
    → IsArmed (place_for now o w)
place_for-IsArmed u now none w e a = a
place_for-IsArmed u now (some p) w e a = place_bomb-IsArmed u now p w e a

take_step-IsArmed :
    (dice : ℕ → ℕ) (s : GameStep) (w : BombermanState) → IsArmed w → IsArmed (take_step dice s w)
unfolding take_step
take_step-IsArmed dice (places u now) w a =
    place_for-IsArmed u now (find_player u w.players) w refl a
take_step-IsArmed dice (walks u c r) w a = record {
  fit = λ v p h.
      walk-IsFit v u (owned v [] w.bombs) c r (find_player v w.players) p (a.fit v) (
        sym (find_player-change v u (λ p. record p { col = c; row = r }) w.players (λ p. refl))
        ∙ h);
  fresh = a.fresh;
}
take_step-IsArmed dice (ticks now) w a = tick-IsArmed dice now w a

-- Over every game, of any length and with any random numbers, each player has exactly as many bombs
-- out as bombs of that player lie on the map, never more than the player may place, and no more
-- than 8, with a range of at most 9 and a speed of at most 8 tiles a second.
pub take_steps-IsArmed :
    (dice : ℕ → ℕ) (ss : List GameStep) (w : BombermanState)
    → IsArmed w
    → IsArmed (take_steps dice ss w)
take_steps-IsArmed dice [] w a = a
take_steps-IsArmed dice (s ∷ ss) w a =
    take_steps-IsArmed dice ss (take_step dice s w) (take_step-IsArmed dice s w a)
