-- ===== src/Bomberman/Walls.antt =====
-- What an explosion of src/games/bomberman/bomberman.logic.ts does to the grid.
use backend_htssclub.Base.{
  ℕ, zero, suc, ◌+◌, ◌*◌, ◌≡◌, refl, inl, inr, Bool, true, false, ◌&&◌, Bool-cases, List, [], ◌∷◌,
  ltb, leb, ◌==◌, if◌then◌else◌, arith, length, get_or, set,
}
use backend_htssclub.Bomberman.{
  Tile, floor, wall, brick, Bomb, BombermanState, Run, tile_at, break_brick, release,
}
use backend_htssclub.Bomberman.Tick.{due_bombs, explode, tick_world}
use backend_htssclub.Bomberman.Chains.{keeps_detonate_all}
use backend_htssclub.Bomberman.Fuel.{due_stored}

-- A brick may be gone, everything else is as it was.
abbrev pub may_become : Tile → Tile → Bool
may_become floor floor = true
may_become wall wall = true
may_become brick brick = true
may_become brick floor = true
may_become _ _ = false

get_or-set :
    (ts : List Tile) (i j : ℕ) (t : Tile)
    → get_or (set ts i t) j floor ≡ (if i == j && ltb i (length ts) then t else get_or ts j floor)
get_or-set [] i j t = ground arith
get_or-set (x ∷ ts) zero zero t = ground arith
get_or-set (x ∷ ts) zero (suc j) t = ground arith
get_or-set (x ∷ ts) (suc i) zero t = ground arith
get_or-set (x ∷ ts) (suc i) (suc j) t = ground (arith, get_or-set ts i j t)

-- The map has the size that it had, and each place is as it was or a brick less.
abbrev IsWorn : BombermanState → Run → Type 0
IsWorn w o =
    (o.state.cols ≡ w.cols)
    × ((o.state.rows ≡ w.rows)
        × ((i : ℕ) → may_become (get_or w.grid i floor) (get_or o.state.grid i floor) ≡ true))

opened :
    (before : Tile) (ts : List Tile) (i j : ℕ)
    → get_or ts i floor ≡ brick
    → may_become before (get_or ts j floor) ≡ true
    → may_become before (get_or (set ts i floor) j floor) ≡ true
opened before ts i j e h = elim (Bool-cases (i == j)) [
  | inl here ↦
      let k : i ≡ j = ground arith in
      let e' : get_or ts j floor ≡ brick = rw (← k) e in
      ground (arith, get_or-set ts i j floor, e', h)
  | inr there ↦ ground (arith, get_or-set ts i j floor, there, h)
]

breaks-IsWorn :
    (dice : ℕ → ℕ) (w : BombermanState) (c r : ℕ) (o : Run)
    → tile_at o.state.cols o.state.rows o.state.grid c r ≡ brick
    → IsWorn w o
    → IsWorn w (break_brick dice c r o)
unfolding break_brick tile_at
breaks-IsWorn dice w c r o e p =
    let i = r * o.state.cols + c in
    let b : get_or o.state.grid i floor ≡ brick = ground (arith, e) in
    let q = λ (j : ℕ). opened (get_or w.grid j floor) o.state.grid i j b (p.1.1 j) in
    elim (Bool-cases (ltb (dice o.state.drawn) 42)) [
      | inl drops ↦ rw drops (p.0, (p.1.0, q))
      | inr nothing ↦ rw nothing (p.0, (p.1.0, q))
    ]

-- Whatever explodes in a tick, the map keeps its size, no wall and no free place changes, and a
-- brick stays or becomes free.
pub tick_world-may_become :
    (dice : ℕ → ℕ) (now : ℕ) (w : BombermanState)
    → let after = (tick_world dice now w).state in
      (after.cols ≡ w.cols)
      × ((after.rows ≡ w.rows)
          × ((i : ℕ) → may_become (get_or w.grid i floor) (get_or after.grid i floor) ≡ true))
unfolding tick_world explode release
tick_world-may_become dice now w =
    let start : Run = record { state = w; detonated = []; bricks = []; starved = false } in
    (keeps_detonate_all dice now w.bombs (IsWorn w) (λ t u. u) (λ c r t u. u)
      (λ c r t k u. breaks-IsWorn dice w c r t k u) (λ b t g h f u. u) (suc (length w.bombs))
      (due_bombs now w) start (due_stored (λ (b : Bomb). leb b.fuse_at now) w.bombs)
      (refl, (refl, (refl, λ i. ground arith)))).1
