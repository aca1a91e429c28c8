-- ===== src/Bomberman.antt =====
-- src/games/bomberman/bomberman.logic.ts: the grid, bombs and their chain reactions, and one tick.
pub mod Tick
pub mod Chains
pub mod Fuel
pub mod Walls
pub mod Armed
pub mod Allowance
pub mod Games
pub mod Aftermath
pub mod Ordered
pub mod Deaths
pub mod Places
pub mod Maps
pub mod Spawns
pub mod Starts
mod Tests
use backend_htssclub.Base.{
  ℕ, zero, suc, ◌+◌, ◌-◌, ◌*◌, ◌<◌, min, Bool, true, false, not, ◌&&◌, ◌||◌, Option, none, some,
  List, [], ◌∷◌, ◌++◌, ltb, leb, ◌==◌, if◌then◌else◌, length, get_or, set, keep, map, reverse,
  contains,
}

pub data Tile : Type 0 where
  floor wall brick : Tile

pub data PowerType : Type 0 where
  bomb_power flame_power speed_power : PowerType

-- The position is the tile that `Math.round` gives for it; the speed is in tenths of a tile.
pub record BPlayer : Type 0 where
  pub user_id : ℕ
  pub seat : ℕ
  pub col : ℕ
  pub row : ℕ
  pub alive : Bool
  pub max_bombs : ℕ
  pub flame : ℕ
  pub speed : ℕ
  pub bombs_out : ℕ

pub record Bomb : Type 0 where
  pub id : ℕ
  pub owner_id : ℕ
  pub col : ℕ
  pub row : ℕ
  pub flame : ℕ
  pub fuse_at : ℕ

pub record Flame : Type 0 where
  pub col : ℕ
  pub row : ℕ
  pub until : ℕ

pub record PowerUp : Type 0 where
  pub col : ℕ
  pub row : ℕ
  pub power : PowerType

-- `drawn` counts the random numbers used, `next_bomb` is the next identifier of a bomb.
pub record BombermanState : Type 0 where
  pub cols : ℕ
  pub rows : ℕ
  pub grid : List Tile
  pub players : List BPlayer
  pub bombs : List Bomb
  pub flames : List Flame
  pub powerups : List PowerUp
  pub death_order : List ℕ
  pub drawn : ℕ
  pub next_bomb : ℕ

abbrev pub fuse_ms : ℕ
fuse_ms = 2200

abbrev pub flame_ms : ℕ
flame_ms = 600

abbrev pub bomb_cap : ℕ
bomb_cap = 8

abbrev pub flame_cap : ℕ
flame_cap = 9

-- In tenths of a tile for a second.
abbrev pub speed_cap : ℕ
speed_cap = 80

abbrev pub speed_step : ℕ
speed_step = 9

-- `tileAt`; a place that is not on the map is a wall. A missing entry would be neither a wall nor a
-- brick.
unfoldable pub tile_at : ℕ → ℕ → List Tile → ℕ → ℕ → Tile
tile_at cols rows grid c r =
    if ltb c cols && ltb r rows then get_or grid (r * cols + c) floor else wall

unfoldable pub find_player : ℕ → List BPlayer → Option BPlayer
find_player u [] = none
find_player u (p ∷ ps) = if p.user_id == u then some p else find_player u ps

unfoldable pub change_player : ℕ → (BPlayer → BPlayer) → List BPlayer → List BPlayer
change_player u f [] = []
change_player u f (p ∷ ps) =
    let rest = change_player u f ps in if p.user_id == u then f p ∷ ps else p ∷ rest

unfoldable pub bomb_on : ℕ → ℕ → List Bomb → Bool
bomb_on c r [] = false
bomb_on c r (b ∷ bs) = (b.col == c && b.row == r) || bomb_on c r bs

abbrev pub is_floor : Tile → Bool
is_floor floor = true
is_floor _ = false

-- The tests of `placeBomb`,
abbrev pub refuses : BPlayer → BombermanState → Bool
refuses p w =
    ((not p.alive || leb p.max_bombs p.bombs_out)
      || not (is_floor (tile_at w.cols w.rows w.grid p.col p.row)))
    || bomb_on p.col p.row w.bombs

-- and `placeBomb`, with the bomb that it returns.
unfoldable pub place_bomb : BPlayer → ℕ → BombermanState → Option Bomb × BombermanState
place_bomb p now w =
    let b : Bomb = record {
      id = w.next_bomb;
      owner_id = p.user_id;
      col = p.col;
      row = p.row;
      flame = p.flame;
      fuse_at = now + fuse_ms;
    } in
    if refuses p w then (none, w) else (
      some b,
      record w {
        bombs = w.bombs ++ b ∷ [];
        players = change_player p.user_id (λ q. record q { bombs_out = suc q.bombs_out }) w.players;
        next_bomb = suc w.next_bomb;
      },
    )

-- `out` of an explosion with the state; `starved` is set where the chain would run out of fuel.
pub record Run : Type 0 where
  pub state : BombermanState
  pub detonated : List Bomb
  pub bricks : List ((ℕ × ℕ) × Option PowerType)
  pub starved : Bool

unfoldable pub is_detonated : ℕ → List Bomb → Bool
is_detonated i [] = false
is_detonated i (b ∷ bs) = b.id == i || is_detonated i bs

-- The bomb that `addFlame` looks for.
unfoldable pub find_chained : ℕ → ℕ → ℕ → List Bomb → List Bomb → Option Bomb
find_chained i c r done [] = none
find_chained i c r done (b ∷ bs) =
    if ((not (b.id == i) && b.col == c) && b.row == r) && not (is_detonated b.id done)
    then some b
    else find_chained i c r done bs

pub data Heading : Type 0 where
  right left down up : Heading

-- The place some steps from another one, unless it is left of or above the map.
abbrev pub toward : Heading → ℕ → ℕ → ℕ → Option (ℕ × ℕ)
toward right c r k = some (c + k, r)
toward left c r k = if leb k c then some (c - k, r) else none
toward down c r k = some (c, r + k)
toward up c r k = if leb k r then some (c, r - k) else none

-- The owner may place one more.
unfoldable pub release : Bomb → Run → Run
release b o = record o {
  state = record (o.state) {
    players =
        change_player b.owner_id (λ p. record p { bombs_out = p.bombs_out - 1 }) o.state.players;
  };
  detonated = o.detonated ++ b ∷ [];
}

module _ (dice : ℕ → ℕ) where
  -- `randomPower`, from a number below 100.
  abbrev pub random_power : ℕ → PowerType
  random_power x = if ltb x 40 then bomb_power else (if ltb x 80 then flame_power else speed_power)

  -- A brick goes, and may drop something: the chance is 0.42.
  unfoldable pub break_brick : ℕ → ℕ → Run → Run
  break_brick c r o =
      let w = o.state in
      let opened = record w { grid = set w.grid (r * w.cols + c) floor; drawn = suc w.drawn } in
      let power = random_power (dice (suc w.drawn)) in
      if ltb (dice w.drawn) 42
      then record o {
        state = record opened {
          powerups = w.powerups ++ record { col = c; row = r; power = power } ∷ [];
          drawn = suc (suc w.drawn);
        };
        bricks = o.bricks ++ ((c, r), some power) ∷ [];
      }
      else record o { state = opened; bricks = o.bricks ++ ((c, r), none) ∷ [] }

  module _ (now : ℕ) where
    abbrev pub chain_on : (Bomb → Run → Run) → Option Bomb → Run → Run
    chain_on chain none o = o
    chain_on chain (some b) o = chain b o

    -- `addFlame`; `chain` is `detonate`.
    unfoldable pub add_flame : (Bomb → Run → Run) → Bomb → ℕ → ℕ → Run → Run
    add_flame chain b c r o =
        let w = o.state in
        let lit = record w {
          flames = w.flames ++ record { col = c; row = r; until = now + flame_ms } ∷ [];
        } in
        chain_on chain (find_chained b.id c r o.detonated w.bombs) (record o { state = lit })

    -- The flame in one direction, for the steps left from step `k` on.
    unfoldable pub ray : (Bomb → Run → Run) → Heading → Bomb → ℕ → ℕ → Run → Run
    ray chain d b zero k o = o
    ray chain d b (suc n) k o = elim (toward d b.col b.row k) [
      | none ↦ o
      | some (c, r) ↦ elim (tile_at o.state.cols o.state.rows o.state.grid c r) [
        | wall ↦ o
        | brick ↦ break_brick c r o
        | floor ↦ ray chain d b n (suc k) (add_flame chain b c r o)
      ]
    ]

    unfoldable pub blast : (Bomb → Run → Run) → Bomb → Run → Run
    blast chain b o =
        let center = add_flame chain b b.col b.row o in
        let east = ray chain right b b.flame 1 center in
        let west = ray chain left b b.flame 1 east in
        let south = ray chain down b b.flame 1 west in ray chain up b b.flame 1 south

    -- `detonate`, with fuel.
    unfoldable pub detonate : ℕ → Bomb → Run → Run
    detonate zero b o = record o { starved = true }
    detonate (suc n) b o = elim (is_detonated b.id o.detonated) [
      | true ↦ o
      | false ↦ blast (detonate n) b (release b o)
    ]

    unfoldable pub detonate_all : ℕ → List Bomb → Run → Run
    detonate_all n [] o = o
    detonate_all n (b ∷ bs) o = detonate_all n bs (detonate n b o)
