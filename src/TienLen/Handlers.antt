-- ===== src/TienLen/Handlers.antt =====
-- Every handler of the table keeps the match going.
use backend_htssclub.Base.{
  ℕ, ◌≡◌, refl, true, false, not, Bool-cases, inl, inr, Option, none, some, List, [], ◌∷◌, arith,
  get_elem?, length, ◌==◌,
}
use backend_htssclub.Common.Action.{Action, ◌>>=◌, pure, modify}
use backend_htssclub.Common.Action.Keeps.{
  Keeps, Keeps-guarded, Keeps-bind, Keeps-modify, Keeps-if, Keeps-pure, Keeps-ignore, keeps_rules,
}
use backend_htssclub.TienLen.Cards.{Combo, head_or_zero}
use backend_htssclub.TienLen.Game.{
  Game, Seat, is_active_status, seat_of, maybe_finish, force_finish_last, hand_on,
}
use backend_htssclub.TienLen.Numbers.{numbers, AreNumbered, find_seat-number}
use backend_htssclub.TienLen.Table.{Config, Table, set_game}
use backend_htssclub.TienLen.Service.{
  ChopEvent, play, pass, resign, forfeit, auto_skip, on_timeout, on_disconnect, on_reconnect,
  forfeit_disconnected, clear_dc_timer, play_combo, note_chop,
}
use backend_htssclub.TienLen.Ending.{finish-IsLive, go_on-Keeps}
use backend_htssclub.TienLen.Progress.{
  IsGoing, IsLive, going-IsLive, play-IsGoing, pass-IsGoing, skip-IsGoing, forfeit-IsGoing,
  connected-IsGoing, Keeps-read, Keeps-found, set-Keeps, clear-Keeps, start-Keeps, penalty-Keeps,
}

-- What reaches a table: requests, and timers that fire.
pub data TableEvent : Type 0 where
  play_cards : ℕ → List ℕ → TableEvent
  pass_turn give_up reconnected disconnected grace_over : ℕ → TableEvent
  turn_over : TableEvent

unfoldable pub react : Config → TableEvent → Action Table (Unit {0})
react config (play_cards u cards) = play config u cards
react config (pass_turn u) = pass u
react config (give_up u) = resign config u
react config (reconnected u) = on_reconnect u
react config (disconnected u) = on_disconnect u
react config (grace_over u) = forfeit_disconnected config u
react config turn_over = on_timeout config

-- One event after another, refused requests included.
unfoldable pub react_all : Config → List TableEvent → Table → Table
react_all config [] t = t
react_all config (e ∷ es) t = react_all config es (react config e t).1

note_chop-numbered :
    (e : Option ChopEvent) (g : Game)
    → AreNumbered 0 (numbers g.seats)
    → AreNumbered 0 (numbers (note_chop e g).seats)
note_chop-numbered none g n = n
note_chop-numbered (some e) g n = n

play_combo-Keeps :
    (config : Config) (g : Game) (u place : ℕ) (s : Seat) (combo : Combo) (cards : List ℕ)
    → AreNumbered 0 (numbers g.seats)
    → Keeps IsLive (play_combo config g u place s combo cards)
unfolding play_combo
play_combo-Keeps config g u place s combo cards n = Keeps-found _ _ _ λ rest e.
    Keeps-bind _ _ (search keeps_rules) λ event.
      Keeps-bind _ _
        (set-Keeps _
          (play-IsGoing (note_chop event g) place s combo rest (note_chop-numbered event g n)))
        (λ _. Keeps-bind _ _ (penalty-Keeps config event) (λ _. go_on-Keeps config))

play-Keeps : (config : Config) (u : ℕ) (cards : List ℕ) → Keeps IsLive (play config u cards)
unfolding play
play-Keeps config u cards = Keeps-read _ λ g h. Keeps-guarded _ _ _ λ active.
    Keeps-found _ _ _ λ found e. Keeps-guarded _ _ _ λ turn. Keeps-guarded _ _ _ λ some_cards.
      Keeps-bind _ _ clear-Keeps λ _. Keeps-found _ _ _ λ combo c. Keeps-guarded _ _ _ λ beats_it.
        play_combo-Keeps config g u found.0 found.1 combo cards (h (ground arith)).numbered

pass-Keeps : (u : ℕ) → Keeps IsLive (pass u)
unfolding pass
pass-Keeps u = Keeps-read _ λ g h. Keeps-guarded _ _ _ λ active. Keeps-found _ _ _ λ found e.
    Keeps-guarded _ _ _ λ turn. Keeps-guarded _ _ _ λ live. Keeps-bind _ _ clear-Keeps λ _.
      Keeps-bind _ _ (set-Keeps _ (pass-IsGoing g found.0 found.1 (h (ground arith)).numbered))
        (λ _. start-Keeps)

forfeit-Keeps :
    (config : Config) (g : Game) (place : ℕ) (s : Seat)
    → s.seat ≡ place
    → IsGoing g
    → Keeps IsLive (forfeit config g place s)
unfolding forfeit ◌>>=◌
forfeit-Keeps config g place s own h =
    let dead = force_finish_last g place s in
    record {
      at = λ t p. elim (Bool-cases (maybe_finish dead)) [
        | inl over ↦ rw over (finish-IsLive config (set_game dead t))
        | inr still ↦ rw still (
            start-Keeps.at (set_game (hand_on dead s) (set_game dead t)) (
              going-IsLive (hand_on dead s) (forfeit-IsGoing g place s own h still)
                (set_game dead t)))
      ];
    }

seat-place :
    (g : Game) (u place : ℕ) (s : Seat) → IsGoing g → seat_of g u ≡ some (place, s) → s.seat ≡ place
seat-place g u place s h e = find_seat-number u 0 g.seats place s e h.numbered

resign-Keeps : (config : Config) (u : ℕ) → Keeps IsLive (resign config u)
unfolding resign
resign-Keeps config u = Keeps-read _ λ g h. Keeps-guarded _ _ _ λ active.
    Keeps-found _ _ _ λ found e. Keeps-guarded _ _ _ λ holds. Keeps-bind _ _ clear-Keeps λ _.
      let going = h (ground arith) in
      forfeit-Keeps config g found.0 found.1 (seat-place g u found.0 found.1 going e) going

-- A look-up that may fail without a refusal.
Keeps-option :
    {A B : Type 0} (o : Option B) (n : Action Table A) (k : B → Action Table A)
    → Keeps IsLive n
    → ((b : B) → o ≡ some b → Keeps IsLive (k b))
    → Keeps IsLive (elim o [ none ↦ n | some b ↦ k b ])
Keeps-option none n k hn hk = hn
Keeps-option (some b) n k hn hk = hk b refl

nothing-Keeps : Keeps IsLive (pure tt)
nothing-Keeps = Keeps-pure tt

auto_skip-Keeps : (place : ℕ) → Keeps IsLive (auto_skip place)
unfolding auto_skip
auto_skip-Keeps place = Keeps-read _ λ g h.
    Keeps-if (not (is_active_status g.status)) _ _ (λ _. nothing-Keeps)
      λ active.
        Keeps-if (not (g.turn == place)) _ _ (λ _. nothing-Keeps)
          λ turn. Keeps-option (get_elem? g.seats place) _ _ nothing-Keeps λ s e.
            Keeps-bind _ _ (set-Keeps _ (skip-IsGoing g place s (h (ground arith)).numbered))
              (λ _. start-Keeps)

disarm-Keeps : Keeps IsLive (modify (λ t. record t { armed = false }))
disarm-Keeps = Keeps-modify _ (λ t p. record { going = p.going })

on_timeout-Keeps : (config : Config) → Keeps IsLive (on_timeout config)
unfolding on_timeout
on_timeout-Keeps config = Keeps-bind _ _ disarm-Keeps λ _. Keeps-read _ λ g h.
    Keeps-if (not (is_active_status g.status)) _ _ (λ _. nothing-Keeps)
      λ active. Keeps-option (get_elem? g.seats g.turn) _ _ nothing-Keeps λ s e.
        Keeps-if (s.hand_count == 0) _ _ (λ _. nothing-Keeps)
          λ holds.
            Keeps-if (not s.connected) _ _ (λ _. Keeps-ignore (auto_skip-Keeps s.seat))
              λ here.
                Keeps-if (length g.current_combo == 0) _ _
                  (λ _. Keeps-ignore (play-Keeps config s.user_id (head_or_zero s.hand ∷ [])))
                  (λ _. Keeps-ignore (pass-Keeps s.user_id))

clear_dc-Keeps : (u : ℕ) → Keeps IsLive (clear_dc_timer u)
unfolding clear_dc_timer
clear_dc-Keeps u = Keeps-modify _ (λ t p. record { going = p.going })

grace-Keeps : (u : ℕ) → Keeps IsLive (modify (λ t. record t { grace = u ∷ t.grace }))
grace-Keeps u = Keeps-modify _ (λ t p. record { going = p.going })

forfeit_disconnected-Keeps :
    (config : Config) (u : ℕ) → Keeps IsLive (forfeit_disconnected config u)
unfolding forfeit_disconnected
forfeit_disconnected-Keeps config u = Keeps-bind _ _ (clear_dc-Keeps u) λ _. Keeps-read _ λ g h.
    Keeps-if (not (is_active_status g.status)) _ _ (λ _. nothing-Keeps)
      λ active. Keeps-option (seat_of g u) _ _ nothing-Keeps λ found e.
        Keeps-if (found.1.hand_count == 0) _ _ (λ _. nothing-Keeps)
          λ holds.
            let going = h (ground arith) in
            forfeit-Keeps config g found.0 found.1 (seat-place g u found.0 found.1 going e) going

on_disconnect-Keeps : (u : ℕ) → Keeps IsLive (on_disconnect u)
unfolding on_disconnect
on_disconnect-Keeps u = Keeps-read _ λ g h.
    Keeps-if (not (is_active_status g.status)) _ _ (λ _. nothing-Keeps)
      λ active. Keeps-option (seat_of g u) _ _ nothing-Keeps λ found e.
        Keeps-if (found.1.hand_count == 0) _ _ (λ _. nothing-Keeps)
          λ holds.
            Keeps-bind _ _ (set-Keeps _ (connected-IsGoing g found.0 false (h (ground arith)))) λ _.
              Keeps-bind _ _
                (Keeps-if (g.turn == found.1.seat) _ _
                  (λ _. Keeps-ignore (auto_skip-Keeps found.1.seat)) (λ _. nothing-Keeps))
                λ _. Keeps-bind _ _ (clear_dc-Keeps u) (λ _. grace-Keeps u)

put-Keeps :
    (g : Game) → (is_active_status g.status ≡ true → IsGoing g) → Keeps IsLive (modify (set_game g))
put-Keeps g h = Keeps-modify _ (λ t p. record { going = h })

on_reconnect-Keeps : (u : ℕ) → Keeps IsLive (on_reconnect u)
unfolding on_reconnect
on_reconnect-Keeps u = Keeps-bind _ _ (clear_dc-Keeps u) λ _. Keeps-read _ λ g h.
    Keeps-option (seat_of g u) _ _ nothing-Keeps λ found e.
      Keeps-if found.1.connected _ _ (λ _. nothing-Keeps)
        λ away. put-Keeps _ (λ a. connected-IsGoing g found.0 true (h a))

react-Keeps : (config : Config) (e : TableEvent) → Keeps IsLive (react config e)
unfolding react
react-Keeps config (play_cards u cards) = play-Keeps config u cards
react-Keeps config (pass_turn u) = pass-Keeps u
react-Keeps config (give_up u) = resign-Keeps config u
react-Keeps config (reconnected u) = on_reconnect-Keeps u
react-Keeps config (disconnected u) = on_disconnect-Keeps u
react-Keeps config (grace_over u) = forfeit_disconnected-Keeps config u
react-Keeps config turn_over = on_timeout-Keeps config

-- Whatever reaches a table, plays and passes, resignations, lost connections and timers, in any
-- order and with any outcome: as long as the match is active the seats keep their numbers, and
-- while two or more players hold cards the turn belongs to one who holds cards.
pub react_all-IsLive :
    (config : Config) (es : List TableEvent) (t : Table) → IsLive t → IsLive (react_all config es t)
unfolding react_all
react_all-IsLive config [] t h = h
react_all-IsLive config (e ∷ es) t h =
    react_all-IsLive config es (react config e t).1 ((react-Keeps config e).at t h)
