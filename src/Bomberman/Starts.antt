-- ===== src/Bomberman/Starts.antt =====
-- Games of src/games/bomberman/bomberman.logic.ts from their first state on.
use Prim.Native.String.{String}
use backend_htssclub.Base.{
  ℕ, suc, ◌+◌, ◌≤◌, ◌<◌, ◌≡◌, refl, inl, inr, false, Bool-cases, some, List, [], ◌∷◌, ◌==◌, arith,
  length, get_elem?, count, All, ◌-◌,
}
use backend_htssclub.Bomberman.{floor, BPlayer, tile_at, find_player}
use backend_htssclub.Bomberman.Tick.{placement_order, placement}
use backend_htssclub.Bomberman.Maps.{get_map, seat_players, create_state}
use backend_htssclub.Bomberman.Armed.{owned, IsFit, IsArmed}
use backend_htssclub.Bomberman.Games.{GameStep, take_steps, take_steps-IsArmed}
use backend_htssclub.Bomberman.Ordered.{seated, living, AreOrdered, take_steps-AreOrdered}
use backend_htssclub.Bomberman.Deaths.{take_steps-Follows}
use backend_htssclub.Bomberman.Spawns.{is_brick, grid, seat_players-All, corner_tiles}
use backend_htssclub.Bomberman.Places.{placement_lem}

seat_players-IsFit :
    (cols rows u seat : ℕ) (us : List ℕ) (p : BPlayer)
    → find_player u (seat_players cols rows seat us) ≡ some p
    → IsFit 0 p
unfolding seat_players find_player
seat_players-IsFit cols rows u seat [] p h = absurd (ground (arith, h))
seat_players-IsFit cols rows u seat (v ∷ us) p h =
    ground (arith, h, seat_players-IsFit cols rows u (suc seat) us p)

-- On every map, whatever the random numbers are, each player starts on a floor tile, and no tile up
-- to one step away from where a player starts is a brick.
pub create_state-tile_at :
    (dice : ℕ → ℕ) (i : String) (us : List ℕ)
    → let w = create_state dice i us in
      All
        (λ (p : BPlayer).
          (tile_at w.cols w.rows w.grid p.col p.row ≡ floor)
          × ((c r : ℕ)
              → ((p.col - c) + (c - p.col)) + ((p.row - r) + (r - p.row)) ≤ 1
              → is_brick (tile_at w.cols w.rows w.grid c r) ≡ false))
        w.players
unfolding create_state
create_state-tile_at dice i us =
    let def = get_map i in
    let tile = tile_at def.cols def.rows (grid dice def) in
    seat_players-All
      (λ a b.
        (tile a b ≡ floor)
        × ((c r : ℕ) → ((a - c) + (c - a)) + ((b - r) + (r - b)) ≤ 1 → is_brick (tile c r) ≡ false))
      def.cols def.rows 0 us (corner_tiles dice i)

create_state-IsArmed : (dice : ℕ → ℕ) (i : String) (us : List ℕ) → IsArmed (create_state dice i us)
unfolding create_state owned
create_state-IsArmed dice i us = record {
  fit = λ u p h. seat_players-IsFit (get_map i).cols (get_map i).rows u 0 us p h;
  fresh = tt;
}

seat_players_lem :
    (cols rows s seat : ℕ) (us : List ℕ)
    → let ps = seat_players cols rows seat us in
      (living s ps ≡ seated s ps) × ((seated s ps ≤ 1) × (s < seat → seated s ps ≡ 0))
unfolding seat_players living seated
seat_players_lem cols rows s seat [] = (refl, (omega arith, λ h. refl))
seat_players_lem cols rows s seat (v ∷ us) =
    ground (arith, seat_players_lem cols rows s (suc seat) us)

create_state-AreOrdered :
    (dice : ℕ → ℕ) (i : String) (us : List ℕ)
    → AreOrdered (create_state dice i us).players (create_state dice i us).death_order
unfolding create_state
create_state-AreOrdered dice i us s =
    let seats = seat_players_lem (get_map i).cols (get_map i).rows s 0 us in
    (omega (arith, seats.0), seats.1.0)

-- Over every game on any map with any players, of any length and with any random numbers, each
-- player has exactly as many bombs out as bombs of that player lie on the map, never more than the
-- player may place, and no more than 8, with a range of at most 9 and a speed of at most 8 tiles a
-- second.
pub take_steps-create_state-IsArmed :
    (dice : ℕ → ℕ) (i : String) (us : List ℕ) (gs : List GameStep)
    → IsArmed (take_steps dice gs (create_state dice i us))
take_steps-create_state-IsArmed dice i us gs =
    take_steps-IsArmed dice gs (create_state dice i us) (create_state-IsArmed dice i us)

seated_at :
    (cols rows s seat : ℕ) (us : List ℕ)
    → seat ≤ s
    → s < seat + length us
    → 0 < seated s (seat_players cols rows seat us)
unfolding seat_players seated
seated_at cols rows s seat [] low high = absurd (omega arith)
seated_at cols rows s seat (v ∷ us) low high = elim (Bool-cases (seat == s)) [
  | inl here ↦ rw here (omega arith)
  | inr later ↦
      let rest = seated_at cols rows s (suc seat) us (ground (arith, low, later)) (omega arith) in
      rw later (omega (arith, rest))
]

-- A game on any map with any players is at `w` after some steps and at `v` after some more, and its
-- players have the seats below their number. The standing at `v` gives no two of them the same
-- place, and whoever is dead at `w` has a worse place than whoever lives at `w`, whether that one
-- dies later or not: those who live come first, and a later death is a better place. The standing
-- is a list with each seat once, and the place of a seat is its position there.
pub placement-take_steps-create_state :
    (dice : ℕ → ℕ) (i : String) (us : List ℕ) (gs hs : List GameStep)
    → let w = take_steps dice gs (create_state dice i us) in
      let v = take_steps dice hs w in
      ((s t : ℕ)
        → s < length us
        → living s w.players ≡ 0
        → 0 < living t w.players
        → placement v t < placement v s)
      × ((s t : ℕ) → s < length us → t < length us → placement v s ≡ placement v t → s ≡ t)
      × ((s : ℕ) → s < length us → count s (placement_order v) ≡ 1)
      × ((j s : ℕ) → get_elem? (placement_order v) j ≡ some s → placement v s ≡ suc j)
unfolding create_state
placement-take_steps-create_state dice i us gs hs =
    let start = create_state dice i us in
    let w = take_steps dice gs start in
    let ordered = take_steps-AreOrdered dice gs start (create_state-AreOrdered dice i us) in
    let (seats, _) = take_steps-Follows dice gs start in
    let (once, place, distinct, order) = placement_lem dice w hs ordered in
    let seat : (s : ℕ) → s < length us → 0 < seated s w.players = λ s h. omega (
      arith,
      seated_at (get_map i).cols (get_map i).rows s 0 us (omega arith) (omega (arith, h)),
      seats s,
    ) in
    (
      (λ s t h dead lives. order s t (seat s h) dead lives),
      (λ s t h k. distinct s t (seat s h) (seat t k)),
      (λ s h. omega (arith, once s, seat s h, ordered s)),
      place,
    )
