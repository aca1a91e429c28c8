-- ===== src/Bomberman/Tests.antt =====
-- Examples: a small map with walls around it, a brick in a corner, two players and two bombs.
use backend_htssclub.Base.{
  ℕ, suc, ◌*◌, ◌%◌, ◌≤◌, ◌≡◌, refl, true, false, some, List, [], ◌∷◌, length, get_or, get_elem?,
  all, count, All, ◌<◌, ◌+◌, ◌-◌,
}
use backend_htssclub.Bomberman.{
  Tile, floor, wall, brick, BPlayer, Bomb, BombermanState, find_player, is_detonated, detonate_all,
  detonate, blast, ray, add_flame, find_chained, release, break_brick, tile_at, place_bomb, bomb_on,
  change_player,
}
use backend_htssclub.Bomberman.Tick.{
  due_bombs, explode, tick_world, pick_up_all, pick_up, find_powerup, burn, deaths, on_fire,
  note_deaths, placement_order, placement,
}
use backend_htssclub.Bomberman.Maps.{
  create_state, is_spawn_safe, spawn_corner, get_map, find_map, seat_players, fill_rows, fill_row,
  tile_for, hash_at, hash_in,
}
use backend_htssclub.Bomberman.Starts.{
  create_state-tile_at, take_steps-create_state-IsArmed, placement-take_steps-create_state,
}
use backend_htssclub.Bomberman.Spawns.{is_brick}
use backend_htssclub.Bomberman.Fuel.{explode_ends}
use backend_htssclub.Bomberman.Walls.{tick_world-may_become, may_become}
use backend_htssclub.Bomberman.Armed.{IsArmed}
use backend_htssclub.Bomberman.Games.{GameStep, places, walks, ticks, take_step, take_steps}
use backend_htssclub.Bomberman.Ordered.{living}

abbrev dice : ℕ → ℕ
dice n = n * 7 % 100

abbrev map_grid : List Tile
map_grid =
    wall ∷ wall ∷ wall ∷ wall ∷ wall ∷ wall ∷ floor ∷ floor ∷ floor ∷ wall ∷ wall ∷ floor ∷ wall
    ∷ brick ∷ wall ∷ wall ∷ wall ∷ wall ∷ wall ∷ wall ∷ []

abbrev player : ℕ → ℕ → ℕ → BPlayer
player u s c = record {
  user_id = u;
  seat = s;
  col = c;
  row = 1;
  alive = true;
  max_bombs = 1;
  flame = 2;
  speed = 42;
  bombs_out = 0;
}

abbrev duel : BombermanState
duel = record {
  cols = 5;
  rows = 4;
  grid = map_grid;
  players = player 10 0 1 ∷ player 20 1 3 ∷ [];
  bombs = [];
  flames = [];
  powerups = [];
  death_order = [];
  drawn = 0;
  next_bomb = 0;
}

abbrev steps : List GameStep
steps = places 10 0 ∷ places 20 100 ∷ walks 10 1 2 ∷ ticks 2200 ∷ []

take_steps-create_state-IsArmed_example :
    IsArmed (take_steps dice steps (create_state dice "cross" (10 ∷ 20 ∷ [])))
take_steps-create_state-IsArmed_example =
    take_steps-create_state-IsArmed dice "cross" (10 ∷ 20 ∷ []) steps

abbrev lit : BombermanState
lit = take_steps dice (places 10 0 ∷ places 20 100 ∷ walks 10 1 2 ∷ []) duel

explode_ends_example :
    let o = explode dice 2200 lit in
    (o.starved ≡ false)
    × (all (λ (b : Bomb). is_detonated b.id o.detonated) (due_bombs 2200 lit) ≡ true)
    × (length o.detonated ≤ length lit.bombs)
explode_ends_example = explode_ends dice 2200 lit

-- The bomb that is not due is set off by the one that is.
both_go_off : length (explode dice 2200 lit).detonated ≡ 2
unfolding explode detonate_all detonate blast ray add_flame find_chained release break_brick
    is_detonated tile_at take_step find_player place_bomb bomb_on change_player
both_go_off = refl

tick_world-may_become_example :
    let after = (tick_world dice 2200 lit).state in
    (after.cols ≡ lit.cols)
    × ((after.rows ≡ lit.rows)
        × ((i : ℕ) → may_become (get_or lit.grid i floor) (get_or after.grid i floor) ≡ true))
tick_world-may_become_example = tick_world-may_become dice 2200 lit

abbrev both_users : List ℕ
both_users = 10 ∷ 20 ∷ []

-- 10 dies by a bomb of their own, and 20 by another one later.
abbrev one_dies : List GameStep
one_dies = places 10 0 ∷ ticks 2200 ∷ []

abbrev both_die : List GameStep
both_die = places 20 3000 ∷ ticks 5200 ∷ []

abbrev crossing : BombermanState
crossing = create_state dice "cross" both_users

placement-take_steps-create_state_example :
    let w = take_steps dice one_dies (create_state dice "cross" both_users) in
    let v = take_steps dice both_die w in
    ((s t : ℕ)
      → s < length both_users
      → living s w.players ≡ 0
      → 0 < living t w.players
      → placement v t < placement v s)
    × ((s t : ℕ)
        → s < length both_users
        → t < length both_users
        → placement v s ≡ placement v t
        → s ≡ t)
    × ((s : ℕ) → s < length both_users → count s (placement_order v) ≡ 1)
    × ((j s : ℕ) → get_elem? (placement_order v) j ≡ some s → placement v s ≡ suc j)
placement-take_steps-create_state_example =
    placement-take_steps-create_state dice "cross" both_users one_dies both_die

-- In this game seat 0 is dead when seat 1 still lives.
one_lives :
    let w = take_steps dice one_dies crossing in (living 0 w.players ≡ 0) × (living 1 w.players ≡ 1)
unfolding take_step find_player place_bomb bomb_on change_player on_fire tick_world explode
    detonate_all detonate blast ray add_flame find_chained release break_brick is_detonated tile_at
    create_state get_map find_map seat_players spawn_corner is_spawn_safe fill_rows fill_row
    tile_for hash_at hash_in pick_up_all pick_up find_powerup burn deaths note_deaths living
one_lives = (refl, refl)

create_state-tile_at_example :
    let w = create_state dice "cross" both_users in
    All
      (λ (p : BPlayer).
        (tile_at w.cols w.rows w.grid p.col p.row ≡ floor)
        × ((c r : ℕ)
            → ((p.col - c) + (c - p.col)) + ((p.row - r) + (r - p.row)) ≤ 1
            → is_brick (tile_at w.cols w.rows w.grid c r) ≡ false))
      w.players
create_state-tile_at_example = create_state-tile_at dice "cross" both_users
