-- ===== src/Bomberman/Tick.antt =====
-- `tickWorld` of src/games/bomberman/bomberman.logic.ts, what ends a game, and the standing.
use backend_htssclub.Base.{
  ℕ, suc, ◌+◌, min, Bool, false, not, ◌&&◌, ◌||◌, Option, none, some, List, [], ◌∷◌, ◌++◌, ltb, leb,
  ◌==◌, if◌then◌else◌, length, keep, map, reverse, contains,
}
use backend_htssclub.Bomberman.{
  BPlayer, Bomb, Flame, PowerUp, PowerType, bomb_power, flame_power, speed_power, BombermanState,
  Run, bomb_cap, flame_cap, speed_cap, speed_step, is_detonated, detonate_all,
}

-- `applyPower`
unfoldable pub apply_power : PowerType → BPlayer → BPlayer
apply_power bomb_power p = record p { max_bombs = min bomb_cap (p.max_bombs + 1) }
apply_power flame_power p = record p { flame = min flame_cap (p.flame + 1) }
apply_power speed_power p = record p { speed = min speed_cap (p.speed + speed_step) }

unfoldable pub find_powerup : ℕ → ℕ → List PowerUp → Option PowerUp
find_powerup c r [] = none
find_powerup c r (u ∷ us) = if u.col == c && u.row == r then some u else find_powerup c r us

-- `splice(pi, 1)`
unfoldable pub drop_powerup : ℕ → ℕ → List PowerUp → List PowerUp
drop_powerup c r [] = []
drop_powerup c r (u ∷ us) = if u.col == c && u.row == r then us else u ∷ drop_powerup c r us

-- One round of the loop over the players: the player, the power-ups left, and what was taken.
abbrev pub taken_by :
    BPlayer → Option PowerUp → List PowerUp → BPlayer × (List PowerUp × List (ℕ × PowerType))
taken_by p none us = (p, (us, []))
taken_by p (some u) us =
    (apply_power u.power p, (drop_powerup p.col p.row us, (p.seat, u.power) ∷ []))

unfoldable pub pick_up : BPlayer → List PowerUp → BPlayer × (List PowerUp × List (ℕ × PowerType))
pick_up p us = if p.alive then taken_by p (find_powerup p.col p.row us) us else (p, (us, []))

unfoldable pub pick_up_all :
    List BPlayer → List PowerUp → List BPlayer × (List PowerUp × List (ℕ × PowerType))
pick_up_all [] us = ([], (us, []))
pick_up_all (p ∷ ps) us =
    let (p', (left, took)) = pick_up p us in
    let (ps', (rest, later)) = pick_up_all ps left in (p' ∷ ps', (rest, took ++ later))

unfoldable pub on_fire : ℕ → ℕ → List Flame → Bool
on_fire c r [] = false
on_fire c r (f ∷ fs) = (f.col == c && f.row == r) || on_fire c r fs

abbrev pub dies : List Flame → BPlayer → Bool
dies fs p = p.alive && on_fire p.col p.row fs

unfoldable pub burn : List Flame → List BPlayer → List BPlayer
burn fs [] = []
burn fs (p ∷ ps) = (if dies fs p then record p { alive = false } else p) ∷ burn fs ps

-- The seats of those who die, in the order of the players,
unfoldable pub deaths : List Flame → List BPlayer → List ℕ
deaths fs [] = []
deaths fs (p ∷ ps) = let rest = deaths fs ps in if dies fs p then p.seat ∷ rest else rest

-- and each is put into the order of the deaths once.
unfoldable pub note_deaths : List ℕ → List ℕ → List ℕ
note_deaths [] order = order
note_deaths (s ∷ ss) order = note_deaths ss (if contains s order then order else order ++ s ∷ [])

abbrev pub due_bombs : ℕ → BombermanState → List Bomb
due_bombs now w = keep (λ (b : Bomb). leb b.fuse_at now) w.bombs

-- The first part of a tick: as much fuel as there are bombs, and one.
unfoldable pub explode : (ℕ → ℕ) → ℕ → BombermanState → Run
explode dice now w =
    detonate_all dice now (suc (length w.bombs)) (due_bombs now w)
      (record { state = w; detonated = []; bricks = []; starved = false })

abbrev pub left_after : Run → BombermanState
left_after o = record (o.state) {
  bombs = keep (λ (b : Bomb). not (is_detonated b.id o.detonated)) o.state.bombs;
}

-- With nothing due nothing explodes, and all bombs are left.
abbrev explosion_of : List Bomb → Run → Option Run
explosion_of [] o = none
explosion_of (b ∷ bs) o = some o

pub record TickResult : Type 0 where
  pub explosion : Option Run
  pub pickups : List (ℕ × PowerType)
  pub died : List ℕ
  pub state : BombermanState

-- `tickWorld`
unfoldable pub tick_world : (ℕ → ℕ) → ℕ → BombermanState → TickResult
tick_world dice now w =
    let o = explode dice now w in
    let exploded = left_after o in
    let flames = keep (λ (f : Flame). ltb now f.until) exploded.flames in
    let (players, (powerups, pickups)) = pick_up_all exploded.players exploded.powerups in
    let died = deaths flames players in
    record {
      explosion = explosion_of (due_bombs now w) o;
      pickups = pickups;
      died = died;
      state = record exploded {
        flames = flames;
        players = burn flames players;
        powerups = powerups;
        death_order = note_deaths died exploded.death_order;
      };
    }

-- `aliveCount`
unfoldable pub alive_count : BombermanState → ℕ
alive_count w = length (keep (λ (p : BPlayer). p.alive) w.players)

-- The seats from the best place to the worst, as `placements` numbers them.
unfoldable pub placement_order : BombermanState → List ℕ
placement_order w =
    map (λ (p : BPlayer). p.seat) (keep (λ (p : BPlayer). p.alive) w.players)
    ++ reverse w.death_order

-- `map.set(seat, i + 1)` for each place: the last one set for a seat counts.
unfoldable pub place_in : ℕ → ℕ → List ℕ → Option ℕ → Option ℕ
place_in s i [] found = found
place_in s i (t ∷ ts) found = place_in s (suc i) ts (if t == s then some (suc i) else found)

abbrev pub or_last : Option ℕ → ℕ → ℕ
or_last none n = n
or_last (some i) n = i

-- `placements`: the place of one seat; a seat that is not covered gets the last place.
unfoldable pub placement : BombermanState → ℕ → ℕ
placement w s = or_last (place_in s 0 (placement_order w) none) (length w.players)
