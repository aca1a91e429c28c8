-- ===== src/Bomberman/Spawns.antt =====
-- Where players start: the corners of every map of src/games/bomberman/bomberman.logic.ts, and the
-- tiles of the first state there.
use Prim.Native.String.{String, compare}
use backend_htssclub.Base.{
  ℕ, zero, suc, ◌+◌, ◌-◌, ◌*◌, ◌%◌, ◌≤◌, ◌<◌, ◌≡◌, refl, ap, ◌∙◌, inl, inr, Bool, true, false, ◌&&◌,
  Bool-cases, Option, none, some, List, [], ◌∷◌, ◌++◌, ltb, arith, length, get_or, all, All,
}
use backend_htssclub.Bomberman.{Tile, floor, brick, BPlayer, tile_at}
use backend_htssclub.Bomberman.Maps.{
  MapDef, classic, maps, find_map, get_map, spawn_corner, near, is_spawn_safe, hash_in, hash_at,
  tile_for, fill_row, fill_rows, seat_players, is_equal,
}

abbrev pub is_brick : Tile → Bool
is_brick brick = true
is_brick _ = false

abbrev is_floor : Tile → Bool
is_floor floor = true
is_floor _ = false

get_or_left :
    (ts us : List Tile) (j : ℕ) → j < length ts → get_or (ts ++ us) j floor ≡ get_or ts j floor
get_or_left [] us j h = absurd (omega arith)
get_or_left (t ∷ ts) us zero h = refl
get_or_left (t ∷ ts) us (suc j) h = get_or_left ts us j (omega arith)

get_or_right :
    (ts us : List Tile) (j k : ℕ)
    → j ≡ length ts + k
    → get_or (ts ++ us) j floor ≡ get_or us k floor
get_or_right [] us j k e = ap (λ (i : ℕ). get_or us i floor) (e ∙ omega arith)
get_or_right (t ∷ ts) us zero k e = absurd (omega (arith, e))
get_or_right (t ∷ ts) us (suc j) k e = get_or_right ts us j k (omega (arith, e))

-- The tile of a place in the first state when no random number turns it into a brick.
abbrev bare_tile : MapDef → ℕ → ℕ → Tile
bare_tile def c r = (tile_for (λ n. 100) def def.layout c r 0).0

module _ (dice : ℕ → ℕ) (def : MapDef) where
  -- Near a corner no random number counts.
  tile_for_safe :
      (lay : Option (List String)) (c r n : ℕ)
      → is_spawn_safe c r def.cols def.rows ≡ true
      → (is_brick (tile_for dice def lay c r n).0 ≡ false)
        × ((tile_for dice def lay c r n).0 ≡ (tile_for (λ k. 100) def lay c r 0).0)
  unfolding tile_for
  tile_for_safe none c r n h = ground (arith, h)
  tile_for_safe (some lines) c r n h = ground (arith, h)

  length-fill_row : (k c r n : ℕ) → length (fill_row dice def k c r n).0 ≡ k
  unfolding fill_row
  length-fill_row zero c r n = refl
  length-fill_row (suc k) c r n = ap suc (length-fill_row k (suc c) r _)

  -- Each place of a row and of the grid has the tile that is drawn for it.
  fill_row_at :
      (k c r n j x : ℕ)
      → c + j ≡ x
      → j < k
      → (m : ℕ) × (get_or (fill_row dice def k c r n).0 j floor
          ≡ (tile_for dice def def.layout x r m).0)
  unfolding fill_row
  fill_row_at zero c r n j x e l = absurd (omega arith)
  fill_row_at (suc k) c r n zero x e l = let same : x ≡ c = omega (arith, e) in rw same (n, refl)
  fill_row_at (suc k) c r n (suc j) x e l =
      fill_row_at k (suc c) r _ j x (omega (arith, e)) (omega arith)

  fill_rows_at :
      (k r n q x y : ℕ)
      → r + q ≡ y
      → q < k
      → x < def.cols
      → (m : ℕ) × (get_or (fill_rows dice def k r n).0 (q * def.cols + x) floor
          ≡ (tile_for dice def def.layout x y m).0)
  unfolding fill_rows
  fill_rows_at zero r n q x y e l w = absurd (omega arith)
  fill_rows_at (suc k) r n zero x y e l w =
      let (ts, drawn) = fill_row dice def def.cols 0 r n in
      let us = (fill_rows dice def k (suc r) drawn).0 in
      let same : y ≡ r = omega (arith, e) in
      let (m, here) =
        fill_row_at def.cols 0 r n (0 * def.cols + x) x (omega arith) (omega (arith, w)) in
      (
        m,
        get_or_left ts us (0 * def.cols + x) (omega (arith, w, length-fill_row def.cols 0 r n))
            ∙ here
            ∙ rw same refl,
      )
  fill_rows_at (suc k) r n (suc q) x y e l w =
      let (ts, drawn) = fill_row dice def def.cols 0 r n in
      let us = (fill_rows dice def k (suc r) drawn).0 in
      let later =
        get_or_right ts us (suc q * def.cols + x) (q * def.cols + x)
          (grind (arith, length-fill_row def.cols 0 r n)) in
      let (m, there) = fill_rows_at k (suc r) drawn q x y (omega (arith, e)) (omega arith) w in
      (m, later ∙ there)

  abbrev pub grid : List Tile
  grid = (fill_rows dice def def.rows 0 0).0

  grid_at :
      (c r : ℕ)
      → ltb c def.cols && ltb r def.rows ≡ true
      → (m : ℕ) × (tile_at def.cols def.rows grid c r ≡ (tile_for dice def def.layout c r m).0)
  unfolding tile_at
  grid_at c r inside = rw inside (
      fill_rows_at def.rows 0 0 r c r (omega arith) (ground (arith, inside))
        (ground (arith, inside)))

  safe_tile :
      (c r : ℕ)
      → is_spawn_safe c r def.cols def.rows ≡ true
      → is_brick (tile_at def.cols def.rows grid c r) ≡ false
  unfolding tile_at
  safe_tile c r h = elim (Bool-cases (ltb c def.cols && ltb r def.rows)) [
    | inl inside ↦ let (m, e) = grid_at c r inside in rw e (tile_for_safe def.layout c r m h).0
    | inr outside ↦ rw outside refl
  ]

near_corner :
    (cols rows k c r : ℕ)
    → near (spawn_corner cols rows k) c r ≡ true
    → is_spawn_safe c r cols rows ≡ true
unfolding is_spawn_safe spawn_corner
near_corner cols rows zero c r h = rw h refl
near_corner cols rows (suc zero) c r h = ground (arith, h)
near_corner cols rows (suc (suc zero)) c r h = ground (arith, h)
near_corner cols rows (suc (suc (suc k))) c r h = ground (arith, h)

-- A corner of a map where no wall stands.
abbrev is_open : MapDef → ℕ → Bool
is_open def k =
    let (c, r) = spawn_corner def.cols def.rows k in
    (ltb c def.cols && ltb r def.rows) && is_floor (bare_tile def c r)

abbrev all_open : MapDef → Bool
all_open def = is_open def 0 && (is_open def 1 && (is_open def 2 && is_open def 3))

classic_open : all_open classic ≡ true
unfolding tile_for is_spawn_safe spawn_corner
classic_open = refl

find_map_open :
    (i : String) (ms : List MapDef) → all all_open ms ≡ true → all_open (find_map i ms) ≡ true
unfolding find_map
find_map_open i [] h = classic_open
find_map_open i (m ∷ ms) h = elim (Bool-cases (is_equal (compare m.id i))) [
  | inl here ↦ rw here (ground (arith, h))
  | inr there ↦ rw there (find_map_open i ms (ground (arith, h)))
]

maps_open : all all_open maps ≡ true
unfolding tile_for is_spawn_safe spawn_corner hash_at hash_in
maps_open = refl

last_corner : (def : MapDef) (k : ℕ) → is_open def (suc (suc (suc k))) ≡ is_open def 3
unfolding spawn_corner
last_corner def k = refl

corner_open : (i : String) (k : ℕ) → is_open (get_map i) k ≡ true
unfolding get_map
corner_open i zero = ground (arith, find_map_open i maps maps_open)
corner_open i (suc zero) = ground (arith, find_map_open i maps maps_open)
corner_open i (suc (suc zero)) = ground (arith, find_map_open i maps maps_open)
corner_open i (suc (suc (suc k))) =
    last_corner (get_map i) k ∙ ground (arith, find_map_open i maps maps_open)

-- What holds of every corner holds of where each player starts.
pub seat_players-All :
    (P : ℕ → ℕ → Type 0) (cols rows seat : ℕ) (us : List ℕ)
    → ((k : ℕ) → let (c, r) = spawn_corner cols rows k in P c r)
    → All (λ (p : BPlayer). P p.col p.row) (seat_players cols rows seat us)
unfolding seat_players
seat_players-All P cols rows seat [] h = tt
seat_players-All P cols rows seat (u ∷ us) h =
    (h (seat % 4), seat_players-All P cols rows (suc seat) us h)

is_floor_lem : (t : Tile) → is_floor t ≡ true → t ≡ floor
is_floor_lem t h = ground (arith, h)

-- The tile of a corner, and those up to one step from it.
pub corner_tiles :
    (dice : ℕ → ℕ) (i : String) (k : ℕ)
    → let def = get_map i in
      let (a, b) = spawn_corner def.cols def.rows k in
      let tile = tile_at def.cols def.rows (grid dice def) in
      (tile a b ≡ floor)
      × ((c r : ℕ) → ((a - c) + (c - a)) + ((b - r) + (r - b)) ≤ 1 → is_brick (tile c r) ≡ false)
corner_tiles dice i k =
    let def = get_map i in
    let (a, b) = spawn_corner def.cols def.rows k in
    let free = corner_open i k in
    let safe : (c r : ℕ)
        → ((a - c) + (c - a)) + ((b - r) + (r - b)) ≤ 1
        → is_spawn_safe c r def.cols def.rows ≡ true =
      λ c r h. near_corner def.cols def.rows k c r (ground (arith, h)) in
    let (m, e) = grid_at dice def a b (ground (arith, free)) in
    let same = (tile_for_safe dice def def.layout a b m (safe a b (omega arith))).1 in
    (
      e ∙ same ∙ is_floor_lem (bare_tile def a b) (ground (arith, free)),
      λ c r h. safe_tile dice def c r (safe c r h),
    )
