-- ===== src/TienLen/Table/Scores.antt =====
-- src/games/tienlen/tienlen.service.ts: what the places and the kept twos are worth at the end.
use backend_htssclub.Base.{
  ℕ, ◌+◌, ◌-◌, ◌*◌, ◌/◌, Bool, false, Option, none, some, List, [], ◌∷◌, map, ltb, leb, ◌==◌,
  if◌then◌else◌, length, max,
}
use backend_htssclub.Base.Int.{ℤ, pos, ◌+ℤ◌, ◌-ℤ◌}
use backend_htssclub.TienLen.Cards.{chop_heo_breakdown, rotten_heo_cards}
use backend_htssclub.TienLen.Game.{Game, Seat, finished, final_order}

-- `games.tienlen` of src/config/configuration.ts; a ratio is a fraction.
pub record Config : Type 0 where
  pub chop_num : ℕ
  pub chop_den : ℕ
  pub chop_rp : ℕ
  pub rotten_num : ℕ
  pub rotten_den : ℕ
  pub rotten_rp : ℕ

-- `changes[user] = amount`
unfoldable pub put_change : ℕ → ℤ → List (ℕ × ℤ) → List (ℕ × ℤ)
put_change u a [] = (u, a) ∷ []
put_change u a ((v, b) ∷ cs) = if v == u then (u, a) ∷ cs else (v, b) ∷ put_change u a cs

-- `changes[user] ?? 0`
unfoldable pub change_of : ℕ → List (ℕ × ℤ) → ℤ
change_of u [] = pos 0
change_of u ((v, b) ∷ cs) = if v == u then b else change_of u cs

abbrev pub add_change : ℕ → ℤ → List (ℕ × ℤ) → List (ℕ × ℤ)
add_change u a cs = put_change u (change_of u cs +ℤ a) cs

-- `finalOrder.indexOf(seat) + 1`, 0 where it is missing.
unfoldable pub place_from : ℕ → ℕ → List ℕ → ℕ
place_from i seat [] = 0
place_from i seat (s ∷ ss) = if s == seat then i else place_from (i + 1) seat ss

abbrev pub place_of : ℕ → List ℕ → ℕ
place_of seat order = place_from 1 seat order

-- `Math.round(24 * (n - 2 * place + 1) / (n - 1))`; a half is rounded up.
unfoldable pub rp_delta : ℕ → ℕ → ℤ
rp_delta n place =
    if leb n 1
    then pos 0
    else if leb (2 * place) (n + 1)
    then pos ((48 * (n + 1 - 2 * place) + (n - 1)) / (2 * (n - 1)))
    else pos 0 -ℤ pos ((48 * (2 * place - (n + 1)) + (n - 2)) / (2 * (n - 1)))

unfoldable pub score_all : ℕ → List ℕ → List Seat → List (ℕ × ℤ) → List (ℕ × ℤ)
score_all n order [] cs = cs
score_all n order (s ∷ ss) cs =
    score_all n order ss (put_change s.user_id (rp_delta n (place_of s.seat order)) cs)

unfoldable pub lose_bets : ℕ → List Seat → List (ℕ × ℤ) → List (ℕ × ℤ)
lose_bets bet [] cs = cs
lose_bets bet (s ∷ ss) cs = lose_bets bet ss (put_change s.user_id (pos 0 -ℤ pos bet) cs)

-- `game.seats.find((s) => s.seat === game.finishOrder[0])?.userId`
unfoldable pub user_at : List Seat → List ℕ → Option ℕ
user_at ss [] = none
user_at [] (w ∷ order) = none
user_at (s ∷ ss) (w ∷ order) = if s.seat == w then some s.user_id else user_at ss (w ∷ order)

abbrev pub is_winner : Option ℕ → ℕ → Bool
is_winner none u = false
is_winner (some w) u = w == u

-- The players who still hold twos, the winner left out, each with the units to pay.
unfoldable pub rotten_players : Option ℕ → List Seat → List (ℕ × ℕ)
rotten_players winner [] = []
rotten_players winner (s ∷ ss) =
    let rest = rotten_players winner ss in
    if is_winner winner s.user_id then rest else elim (rotten_heo_cards s.hand) [
      | [] ↦ rest
      | c ∷ cs ↦ (s.user_id, (chop_heo_breakdown (c ∷ cs)).units) ∷ rest
    ]

abbrev pub total_units : List (ℕ × ℕ) → ℕ
total_units [] = 0
total_units ((u, units) ∷ rs) = units + total_units rs

unfoldable pub charge_rp : ℕ → List (ℕ × ℕ) → List (ℕ × ℤ) → List (ℕ × ℤ)
charge_rp rp [] cs = cs
charge_rp rp ((u, units) ∷ rs) cs = charge_rp rp rs (add_change u (pos 0 -ℤ pos (rp * units)) cs)

abbrev pub award : Option ℕ → ℤ → List (ℕ × ℤ) → List (ℕ × ℤ)
award none a cs = cs
award (some w) a cs = add_change w a cs

-- `rpChange` of `finish`.
unfoldable pub rp_changes : Config → Game → Option ℕ → List (ℕ × ℕ) → List (ℕ × ℤ)
rp_changes config g winner rotten =
    let scores = score_all (length g.seats) g.finish_order g.seats [] in
    if ltb 0 (total_units rotten)
    then award winner (pos (config.rotten_rp * total_units rotten))
        (charge_rp config.rotten_rp rotten scores)
    else scores

-- `Math.max(1, Math.round(bet * num / den))`
unfoldable pub unit_price : ℕ → ℕ → ℕ → ℕ
unit_price bet num den = max 1 ((2 * bet * num + den) / (2 * den))

abbrev pub rank_seat : List ℕ → Seat → Seat
rank_seat order s = record s { finished_rank = place_of s.seat order }

-- The first part of `finish`: the final standing.
unfoldable pub settle : Game → Game
settle g = record g {
  finish_order = final_order g;
  seats = map (rank_seat (final_order g)) g.seats;
  status = finished;
}
