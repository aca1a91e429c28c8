-- ===== src/TienLen/Progress.antt =====
-- Whatever happens at the table, a match that is not over waits for a player who can play.
use backend_htssclub.Base.{
  ℕ, zero, suc, length, leb, ◌≡◌, refl, sym, ◌∙◌, ap, true, false, Bool, Option, none, some, List,
  [], ◌∷◌, arith,
}
use backend_htssclub.Base.Int.{ℤ}
use backend_htssclub.Common.Action.{Action, Exception, ◌>>=◌, gets, modify, or_throw}
use backend_htssclub.Common.Action.Keeps.{
  Keeps, Keeps-guarded, Keeps-bind, Keeps-modify, Keeps-if, keeps_rules,
}
use backend_htssclub.Rooms.{Lobby}
use backend_htssclub.TienLen.Cards.{Combo}
use backend_htssclub.TienLen.Game.{
  Game, Seat, Chop, is_active_status, apply_play, apply_pass, maybe_finish, force_finish_last,
  hand_on, skip, modify_at, put_down, is_playing, filter_seats, plays_at,
}
use backend_htssclub.TienLen.Turns.{
  IsPlayable, advance-open-IsPlayable, apply_pass-IsPlayable, skip-IsPlayable, hand_on-IsPlayable,
  plays_at-modify_ne,
}
use backend_htssclub.TienLen.Numbers.{
  numbers, AreNumbered, numbers-play, numbers-pass, numbers-skip, numbers-forfeit,
  numbers-connected, forfeit-open,
}
use backend_htssclub.TienLen.Table.{
  Config, Table, at_lobby, set_game, clear_timer, start_turn_timer, add_rank_points, raise_points,
}
use backend_htssclub.TienLen.Service.{apply_chop_penalty, pay_chop, set_connected, ChopEvent}

-- Seats are numbered by their places, and while two or more players hold cards, so does the one
-- on turn.
pub record IsGoing (g : Game) : Type 0 where
  pub numbered : AreNumbered 0 (numbers g.seats)
  pub playable : maybe_finish g ≡ false → IsPlayable g

-- An active match is going.
pub record IsLive (t : Table) : Type 0 where
  pub going : is_active_status t.game.status ≡ true → IsGoing t.game

pub going-IsLive : (g : Game) → IsGoing g → (t : Table) → IsLive (set_game g t)
going-IsLive g h t = record { going = λ a. h }

pub play-IsGoing :
    (g : Game) (place : ℕ) (s : Seat) (combo : Combo) (rest : List ℕ)
    → AreNumbered 0 (numbers g.seats)
    → IsGoing (apply_play g place s combo rest)
play-IsGoing g place s combo rest n = record {
  numbered = rw (numbers-play g place s combo rest) n;
  playable = unfold apply_play in advance-open-IsPlayable (put_down g place s combo rest) s.seat;
}

pub pass-IsGoing :
    (g : Game) (place : ℕ) (s : Seat)
    → AreNumbered 0 (numbers g.seats)
    → IsGoing (apply_pass g place s)
pass-IsGoing g place s n = record {
  numbered = rw (numbers-pass g place s) n;
  playable = apply_pass-IsPlayable g place s;
}

pub skip-IsGoing :
    (g : Game) (place : ℕ) (s : Seat) → AreNumbered 0 (numbers g.seats) → IsGoing (skip g place s)
skip-IsGoing g place s n = record {
  numbered = rw (numbers-skip g place s) n;
  playable = skip-IsPlayable g place s;
}

count-connected :
    (place : ℕ) (b : Bool) (ss : List Seat)
    → length (filter_seats is_playing (modify_at place (set_connected b) ss))
      ≡ length (filter_seats is_playing ss)
count-connected place b [] = refl
count-connected zero b (s ∷ ss) = ground arith
count-connected (suc place) b (s ∷ ss) = ground (arith, count-connected place b ss)

connected-plays :
    (place i : ℕ) (b : Bool) (ss : List Seat)
    → plays_at (modify_at place (set_connected b) ss) i ≡ plays_at ss i
connected-plays place i b [] = refl
connected-plays zero zero b (s ∷ ss) = refl
connected-plays zero (suc i) b (s ∷ ss) = refl
connected-plays (suc place) zero b (s ∷ ss) = refl
connected-plays (suc place) (suc i) b (s ∷ ss) = connected-plays place i b ss

pub forfeit-IsGoing :
    (g : Game) (place : ℕ) (s : Seat)
    → s.seat ≡ place
    → IsGoing g
    → maybe_finish (force_finish_last g place s) ≡ false
    → IsGoing (hand_on (force_finish_last g place s) s)
forfeit-IsGoing g place s own h still = record {
  numbered = rw (numbers-forfeit g place s) h.numbered;
  playable = hand_on-IsPlayable (force_finish_last g place s) s (
      unfold force_finish_last in
      λ ne.
        plays_at-modify_ne place g.turn _ g.seats (λ e. ne (sym e ∙ sym own))
        ∙ h.playable (forfeit-open g place s still));
}

pub connected-IsGoing :
    (g : Game) (place : ℕ) (b : Bool)
    → IsGoing g
    → IsGoing (record g { seats = modify_at place (set_connected b) g.seats })
unfolding maybe_finish
connected-IsGoing g place b h = record {
  numbered = rw (numbers-connected place b g.seats) h.numbered;
  playable = λ still.
      connected-plays place g.turn b g.seats
      ∙ h.playable (sym (ap (λ n. leb n 1) (count-connected place b g.seats)) ∙ still);
}

-- A handler that reads the match first, and a look-up that is guarded.
module _ {A : Type 0} where
  pub Keeps-read :
      (k : Game → Action Table A)
      → ((g : Game) → (is_active_status g.status ≡ true → IsGoing g) → Keeps IsLive (k g))
      → Keeps IsLive (gets (λ t. t.game) >>= k)
  unfolding ◌>>=◌
  Keeps-read k h = record { at = λ t p. (h t.game p.going).at t p }

  pub Keeps-found :
      {B : Type 0} (o : Option B) (e : Exception) (k : B → Action Table A)
      → ((b : B) → o ≡ some b → Keeps IsLive (k b))
      → Keeps IsLive (or_throw o e >>= k)
  unfolding ◌>>=◌
  Keeps-found none e k h = record { at = λ t p. p }
  Keeps-found (some b) e k h = h b refl

-- What does not touch the match.
pub lobby-Keeps : {A : Type 0} (m : Action Lobby A) → Keeps IsLive (at_lobby m)
unfolding at_lobby
lobby-Keeps m = record { at = λ t p. record { going = p.going } }

pub set-Keeps : (g : Game) → IsGoing g → Keeps IsLive (modify (set_game g))
set-Keeps g h = Keeps-modify _ (λ t p. going-IsLive g h t)

pub clear-Keeps : Keeps IsLive clear_timer
unfolding clear_timer
clear-Keeps = Keeps-modify _ (λ t p. record { going = p.going })

pub start-Keeps : Keeps IsLive start_turn_timer
unfolding start_turn_timer
start-Keeps = Keeps-modify _ (λ t p. record { going = p.going })

raise-Keeps :
    (u : ℕ) (delta : ℤ)
    → Keeps IsLive (modify (λ t. record t { standings = raise_points u delta t.standings }))
raise-Keeps u delta = Keeps-modify _ (λ t p. record { going = p.going })

pub points-Keeps : (u : ℕ) (delta : ℤ) → Keeps IsLive (add_rank_points u delta)
unfolding add_rank_points
points-Keeps u delta = search (keeps_rules, raise-Keeps)

pub ruleset live_rules = (keeps_rules, lobby-Keeps, clear-Keeps, start-Keeps, points-Keeps)

pay_chop-Keeps : (amount : ℕ) (c : Chop) → Keeps IsLive (pay_chop amount c)
unfolding pay_chop
pay_chop-Keeps amount c = search live_rules depth 9

pub penalty-Keeps :
    (config : Config) (e : Option ChopEvent) → Keeps IsLive (apply_chop_penalty config e)
unfolding apply_chop_penalty
penalty-Keeps config none = search live_rules
penalty-Keeps config (some e) = search (live_rules, pay_chop-Keeps) depth 9
