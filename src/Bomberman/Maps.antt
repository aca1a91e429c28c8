-- ===== src/Bomberman/Maps.antt =====
-- The maps of src/games/bomberman/bomberman.logic.ts and the first state of a game.
use Prim.Native.String.{String, compare}
use Prim.Native.Nat.{Ordering}
use Prim.Native.Char.{code}
use backend_htssclub.Base.{
  ℕ, zero, suc, ◌+◌, ◌-◌, ◌*◌, ◌%◌, Bool, true, false, not, ◌&&◌, ◌||◌, Option, none, some, List,
  [], ◌∷◌, ◌++◌, ltb, leb, ◌==◌, if◌then◌else◌,
}
use backend_htssclub.Bomberman.{Tile, floor, wall, brick, BPlayer, BombermanState}

-- The density of the bricks is in hundredths.
pub record MapDef : Type 0 where
  pub id : String
  pub cols : ℕ
  pub rows : ℕ
  pub brick_density : ℕ
  pub layout : Option (List String)

abbrev pub classic : MapDef
classic = record { id = "classic"; cols = 13; rows = 11; brick_density = 72; layout = none }

-- `MAPS`
abbrev pub maps : List MapDef
maps =
    classic
    ∷ record { id = "arena"; cols = 15; rows = 13; brick_density = 60; layout = none }
    ∷ record {
      id = "cross";
      cols = 13;
      rows = 11;
      brick_density = 55;
      layout = some (
          "#############" ∷ "#...........#" ∷ "#.#.#.#.#.#.#" ∷ "#...........#" ∷ "#.#.#.###.#.#"
          ∷ "#.....#.....#" ∷ "#.#.#.###.#.#" ∷ "#...........#" ∷ "#.#.#.#.#.#.#" ∷ "#...........#"
          ∷ "#############" ∷ []);
    }
    ∷ record {
      id = "maze";
      cols = 15;
      rows = 13;
      brick_density = 50;
      layout = some (
          "###############" ∷ "#.....#.#.....#" ∷ "#.###.#.#.###.#" ∷ "#.#.......#.#.#"
          ∷ "#.#.##.##.#.#.#" ∷ "#.....#.#.....#" ∷ "##.##.#.#.##.##" ∷ "#.....#.#.....#"
          ∷ "#.#.##.##.#.#.#" ∷ "#.#.......#.#.#" ∷ "#.###.#.#.###.#" ∷ "#.....#.#.....#"
          ∷ "###############" ∷ []);
    }
    ∷ []

abbrev pub is_equal : Ordering → Bool
is_equal Ordering.eq = true
is_equal _ = false

unfoldable pub find_map : String → List MapDef → MapDef
find_map i [] = classic
find_map i (m ∷ ms) = if is_equal (compare m.id i) then m else find_map i ms

-- `getMap`
unfoldable pub get_map : String → MapDef
get_map i = find_map i maps

-- `spawnCorners`, by the number of the corner
unfoldable pub spawn_corner : ℕ → ℕ → ℕ → ℕ × ℕ
spawn_corner cols rows zero = (1, 1)
spawn_corner cols rows (suc zero) = (cols - 2, rows - 2)
spawn_corner cols rows (suc (suc zero)) = (cols - 2, 1)
spawn_corner cols rows (suc (suc (suc k))) = (1, rows - 2)

abbrev pub near : ℕ × ℕ → ℕ → ℕ → Bool
near (a, b) c r = leb (((a - c) + (c - a)) + ((b - r) + (r - b))) 1

-- `isSpawnSafe`
unfoldable pub is_spawn_safe : ℕ → ℕ → ℕ → ℕ → Bool
is_spawn_safe c r cols rows =
    near (spawn_corner cols rows 0) c r
    || (near (spawn_corner cols rows 1) c r
        || (near (spawn_corner cols rows 2) c r || near (spawn_corner cols rows 3) c r))

-- Whether a layout has '#' at a place; what is missing counts as '#'.
unfoldable pub hash_in : String → ℕ → Bool
hash_in String.[] c = true
hash_in (String.◌∷◌ x s) zero = code x == 35
hash_in (String.◌∷◌ x s) (suc c) = hash_in s c

unfoldable pub hash_at : List String → ℕ → ℕ → Bool
hash_at [] c r = true
hash_at (s ∷ ss) c zero = hash_in s c
hash_at (s ∷ ss) c (suc r) = hash_at ss c r

module _ (dice : ℕ → ℕ) (def : MapDef) where
  -- A brick by chance, which draws a number only where a brick may be.
  abbrev pub sprinkle : Bool → ℕ → ℕ → Tile × ℕ
  sprinkle false chance n = (floor, n)
  sprinkle true chance n = (if ltb (dice n * 100) chance then brick else floor, suc n)

  abbrev pub is_inner : ℕ → ℕ → Bool
  is_inner c r = ((leb 1 c && leb 1 r) && ltb (suc c) def.cols) && ltb (suc r) def.rows

  -- The tile of a place and the count of the numbers drawn: with a layout, and without one.
  unfoldable pub tile_for : Option (List String) → ℕ → ℕ → ℕ → Tile × ℕ
  tile_for (some lines) c r n =
      if hash_at lines c r
      then (wall, n)
      else sprinkle (is_inner c r && not (is_spawn_safe c r def.cols def.rows))
          (def.brick_density * 60) n
  tile_for none c r n =
      if not (is_inner c r) || (c % 2 == 0 && r % 2 == 0)
      then (wall, n)
      else sprinkle (not (is_spawn_safe c r def.cols def.rows)) (def.brick_density * 100) n

  -- The loops over the columns and the rows, for as many as are left.
  unfoldable pub fill_row : ℕ → ℕ → ℕ → ℕ → List Tile × ℕ
  fill_row zero c r n = ([], n)
  fill_row (suc k) c r n =
      let (t, n') = tile_for def.layout c r n in
      let (ts, last) = fill_row k (suc c) r n' in (t ∷ ts, last)

  unfoldable pub fill_rows : ℕ → ℕ → ℕ → List Tile × ℕ
  fill_rows zero r n = ([], n)
  fill_rows (suc k) r n =
      let (ts, n') = fill_row def.cols 0 r n in
      let (us, last) = fill_rows k (suc r) n' in (ts ++ us, last)

unfoldable pub seat_players : ℕ → ℕ → ℕ → List ℕ → List BPlayer
seat_players cols rows seat [] = []
seat_players cols rows seat (u ∷ us) =
    let (c, r) = spawn_corner cols rows (seat % 4) in
    record {
      user_id = u;
      seat = seat;
      col = c;
      row = r;
      alive = true;
      max_bombs = 1;
      flame = 2;
      speed = 42;
      bombs_out = 0;
    }
    ∷ seat_players cols rows (suc seat) us

-- `createState`
unfoldable pub create_state : (ℕ → ℕ) → String → List ℕ → BombermanState
create_state dice i us =
    let def = get_map i in
    let (grid, drawn) = fill_rows dice def def.rows 0 0 in
    record {
      cols = def.cols;
      rows = def.rows;
      grid = grid;
      players = seat_players def.cols def.rows 0 us;
      bombs = [];
      flames = [];
      powerups = [];
      death_order = [];
      drawn = drawn;
      next_bomb = 0;
    }
