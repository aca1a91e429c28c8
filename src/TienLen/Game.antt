-- ===== src/TienLen/Game.antt =====
-- src/games/tienlen/tienlen.service.ts and schemas/tienlen-game.schema.ts: the state of a match and
-- the mechanics of a trick, which change the game document in memory.
use backend_htssclub.Base.{
  ℕ, zero, suc, ◌+◌, ◌%◌, Bool, true, false, not, Option, none, some, List, [], ◌∷◌, ◌++◌, map,
  reverse, ltb, leb, ◌==◌, if◌then◌else◌, length, get_elem?, contains,
}
use backend_htssclub.Base.Int.{ℤ}
use backend_htssclub.Common.Enums.{GameMode}
use backend_htssclub.TienLen.Cards.{Combo, ComboType, identify_combo}

pub data Status : Type 0 where
  active finished aborted : Status

pub record Seat : Type 0 where
  pub user_id : ℕ
  pub seat : ℕ
  pub hand : List ℕ
  pub hand_count : ℕ
  pub finished_rank : ℕ
  pub passed : Bool
  pub connected : Bool

-- An entry of the history; a pass has no cards.
pub record Play : Type 0 where
  pub seat : ℕ
  pub user_id : ℕ
  pub cards : List ℕ
  pub combo_type : Option ComboType

pub record Chop : Type 0 where
  pub chopper : ℕ
  pub victim : ℕ
  pub heo_count : ℕ
  pub black : ℕ
  pub red : ℕ

-- The document. A map from users to changes is a list; a missing one is `none`.
pub record Game : Type 0 where
  pub mode : GameMode
  pub bet_amount : ℕ
  pub pot : ℕ
  pub status : Status
  pub seats : List Seat
  pub turn : ℕ
  pub opening_card : ℕ
  pub current_combo : List ℕ
  pub current_combo_type : Option ComboType
  pub lead_seat : ℕ
  pub history : List Play
  pub finish_order : List ℕ
  pub resigned_seats : List ℕ
  pub rp_change : Option (List (ℕ × ℤ))
  pub coin_change : Option (List (ℕ × ℤ))
  pub chops : List Chop

abbrev pub is_active_status : Status → Bool
is_active_status active = true
is_active_status _ = false

-- `game.seats.find((s) => s.userId === userId)`, as the place of the seat and the seat.
unfoldable pub find_seat : ℕ → ℕ → List Seat → Option (ℕ × Seat)
find_seat user i [] = none
find_seat user i (s ∷ ss) = if s.user_id == user then some (i, s) else find_seat user (i + 1) ss

abbrev pub seat_of : Game → ℕ → Option (ℕ × Seat)
seat_of g user = find_seat user 0 g.seats

abbrev pub is_playing : Seat → Bool
is_playing s = ltb 0 s.hand_count

abbrev pub filter_seats : (Seat → Bool) → List Seat → List Seat
filter_seats p [] = []
filter_seats p (s ∷ ss) = if p s then s ∷ filter_seats p ss else filter_seats p ss

abbrev pub active_seats : Game → List Seat
active_seats g = filter_seats is_playing g.seats

-- A write to the seat object at a place of `game.seats`.
abbrev pub modify_at : ℕ → (Seat → Seat) → List Seat → List Seat
modify_at i f [] = []
modify_at zero f (s ∷ ss) = f s ∷ ss
modify_at (suc i) f (s ∷ ss) = s ∷ modify_at i f ss

-- `game.seats[i].handCount > 0`
abbrev pub plays_at : List Seat → ℕ → Bool
plays_at ss i = elim (get_elem? ss i) [ none ↦ false | some s ↦ is_playing s ]

-- The loop of `nextActiveSeat`, `k` rounds before its end.
unfoldable pub next_active_from : ℕ → ℕ → ℕ → List Seat → ℕ
next_active_from zero i from ss = from
next_active_from (suc k) i from ss =
    let rest = next_active_from k (i + 1) from ss in
    if plays_at ss ((from + i) % length ss) then (from + i) % length ss else rest

unfoldable pub next_active_seat : Game → ℕ → ℕ
next_active_seat g from = next_active_from (length g.seats) 1 from g.seats

abbrev pub clear_passed : Seat → Seat
clear_passed s = record s { passed = false }

-- The lead player wins the trick and leads the next.
unfoldable pub reset_trick : Game → Game
reset_trick g =
    let ss = map clear_passed g.seats in
    let g' = record g { current_combo = []; current_combo_type = none; seats = ss } in
    record g' {
      turn = if plays_at ss g.lead_seat then g.lead_seat else next_active_seat g' g.lead_seat;
    }

abbrev pub has_passed : List Seat → ℕ → Bool
has_passed ss i = elim (get_elem? ss i) [ none ↦ false | some s ↦ s.passed ]

-- The loop of `advanceTurn`, `k` rounds before its end.
unfoldable pub advance_from : ℕ → ℕ → Game → ℕ → Game
advance_from zero i g from = reset_trick g
advance_from (suc k) i g from =
    let cand = (from + i) % length g.seats in
    let rest = advance_from k (i + 1) g from in
    if not (plays_at g.seats cand)
    then rest
    else if cand == g.lead_seat
    then reset_trick g
    else if has_passed g.seats cand
    then rest
    else record g { turn = cand }

unfoldable pub advance_turn : Game → ℕ → Game
advance_turn g from = advance_from (length g.seats) 1 g from

unfoldable pub current_combo_obj : Game → Option Combo
current_combo_obj g = elim g.current_combo [ [] ↦ none | c ∷ cs ↦ identify_combo (c ∷ cs) ]

-- Everyone who still plays may respond to a new combination.
abbrev pub may_respond : Seat → Seat
may_respond s = if is_playing s then record s { passed = false } else s

-- `applyPlay` up to the turn, for the seat at `place`.
unfoldable pub put_down : Game → ℕ → Seat → Combo → List ℕ → Game
put_down g place s combo new_hand =
    let out = length new_hand == 0 in
    let ranked =
      λ (t : Seat). if out then record t { finished_rank = length g.finish_order + 1 } else t in
    let taken =
      modify_at place (λ t. record t { hand = new_hand; hand_count = length new_hand }) g.seats in
    record g {
      current_combo = combo.cards;
      current_combo_type = some combo.type;
      lead_seat = s.seat;
      seats = modify_at place ranked (map may_respond taken);
      history =
          g.history
          ++ record {
            seat = s.seat;
            user_id = s.user_id;
            cards = combo.cards;
            combo_type = some combo.type;
          }
            ∷ [];
      finish_order = if out then g.finish_order ++ s.seat ∷ [] else g.finish_order;
    }

unfoldable pub apply_play : Game → ℕ → Seat → Combo → List ℕ → Game
apply_play g place s combo new_hand = advance_turn (put_down g place s combo new_hand) s.seat

unfoldable pub mark_passed : Game → ℕ → Seat → Game
mark_passed g place s = record g {
  seats = modify_at place (λ t. record t { passed = true }) g.seats;
  history =
      g.history
      ++ record { seat = s.seat; user_id = s.user_id; cards = []; combo_type = none } ∷ [];
}

unfoldable pub apply_pass : Game → ℕ → Seat → Game
apply_pass g place s = advance_turn (mark_passed g place s) s.seat

-- One active player, or none, is left.
unfoldable pub maybe_finish : Game → Bool
maybe_finish g = leb (length (active_seats g)) 1

unfoldable pub force_finish_last : Game → ℕ → Seat → Game
force_finish_last g place s = record g {
  seats = modify_at place (λ t. record t { hand_count = 0; hand = []; finished_rank = 0 }) g.seats;
  resigned_seats =
      if contains s.seat g.resigned_seats
      then g.resigned_seats
      else g.resigned_seats ++ s.seat ∷ [];
}

-- `resign` and `forfeitDisconnected` after the forfeit, where the game goes on.
unfoldable pub hand_on : Game → Seat → Game
hand_on g s =
    if g.lead_seat == s.seat
    then reset_trick (record g { lead_seat = next_active_seat g s.seat })
    else if g.turn == s.seat
    then record g { turn = next_active_seat g s.seat }
    else g

-- `autoSkip` of the player whose turn it is.
unfoldable pub skip : Game → ℕ → Seat → Game
skip g place s =
    if length g.current_combo == 0
    then record g { lead_seat = next_active_seat g place; turn = next_active_seat g place }
    else apply_pass g place s

-- `for (const s of xs) if (!order.includes(s)) order.push(s);`
unfoldable pub push_missing : List ℕ → List ℕ → List ℕ
push_missing order [] = order
push_missing order (s ∷ ss) = push_missing (if contains s order then order else order ++ s ∷ []) ss

-- The standing that `finish` builds: who went out, who still plays, who resigned (latest first),
-- and anybody left.
unfoldable pub final_order : Game → List ℕ
final_order g =
    push_missing
      (push_missing
        (push_missing (push_missing [] g.finish_order) (map (λ s. s.seat) (active_seats g)))
        (reverse g.resigned_seats))
      (map (λ s. s.seat) g.seats)
