-- ===== src/TienLen/Numbers.antt =====
-- The numbers of the seats, which no move changes.
use backend_htssclub.Base.{
  ℕ, zero, suc, ◌+◌, ◌≤◌, ◌≡◌, refl, sym, ap, ◌∙◌, Bool, inl, inr, Bool-cases, false, some, List,
  [], ◌∷◌, map, arith, length, ◌==◌,
}
use backend_htssclub.TienLen.Cards.{Combo}
use backend_htssclub.TienLen.Game.{
  Seat, Game, find_seat, modify_at, clear_passed, reset_trick, advance_from, advance_turn, put_down,
  apply_play, may_respond, mark_passed, apply_pass, force_finish_last, hand_on, skip, is_playing,
  filter_seats, maybe_finish, next_active_seat,
}

unfoldable pub numbers : List Seat → List ℕ
numbers [] = []
numbers (s ∷ ss) = s.seat ∷ numbers ss

-- The seats are numbered by their places, from `i` on.
abbrev pub AreNumbered : ℕ → List ℕ → Type 0
AreNumbered i [] = Unit
AreNumbered i (n ∷ ns) = (n ≡ i) × AreNumbered (i + 1) ns

numbers-map :
    (f : Seat → Seat) (ss : List Seat)
    → ((s : Seat) → (f s).seat ≡ s.seat)
    → numbers (map f ss) ≡ numbers ss
unfolding numbers
numbers-map f [] h = refl
numbers-map f (s ∷ ss) h = rw (h s, numbers-map f ss h) refl

numbers-modify :
    (i : ℕ) (f : Seat → Seat) (ss : List Seat)
    → ((s : Seat) → (f s).seat ≡ s.seat)
    → numbers (modify_at i f ss) ≡ numbers ss
unfolding numbers
numbers-modify i f [] h = refl
numbers-modify zero f (s ∷ ss) h = rw (h s) refl
numbers-modify (suc i) f (s ∷ ss) h = rw (numbers-modify i f ss h) refl

numbers-reset : (g : Game) → numbers (reset_trick g).seats ≡ numbers g.seats
unfolding reset_trick
numbers-reset g = numbers-map clear_passed g.seats (λ s. refl)

numbers-advance_from :
    (k i from : ℕ) (g : Game) → numbers (advance_from k i g from).seats ≡ numbers g.seats
unfolding advance_from
numbers-advance_from zero i from g = numbers-reset g
numbers-advance_from (suc k) i from g =
    ground (arith, numbers-reset g, numbers-advance_from k (i + 1) from g)

numbers-advance : (g : Game) (from : ℕ) → numbers (advance_turn g from).seats ≡ numbers g.seats
unfolding advance_turn
numbers-advance g from = numbers-advance_from (length g.seats) 1 from g

pub numbers-play :
    (g : Game) (place : ℕ) (s : Seat) (combo : Combo) (rest : List ℕ)
    → numbers (apply_play g place s combo rest).seats ≡ numbers g.seats
unfolding apply_play put_down
numbers-play g place s combo rest =
    numbers-advance (put_down g place s combo rest) s.seat
    ∙ numbers-modify place _ _ (λ t. ground arith)
    ∙ numbers-map may_respond _ (λ t. ground arith)
    ∙ numbers-modify place _ g.seats (λ t. refl)

pub numbers-pass :
    (g : Game) (place : ℕ) (s : Seat) → numbers (apply_pass g place s).seats ≡ numbers g.seats
unfolding apply_pass mark_passed
numbers-pass g place s =
    numbers-advance (mark_passed g place s) s.seat ∙ numbers-modify place _ g.seats (λ t. refl)

pub numbers-skip :
    (g : Game) (place : ℕ) (s : Seat) → numbers (skip g place s).seats ≡ numbers g.seats
unfolding skip
numbers-skip g place s = ground (arith, numbers-pass g place s)

numbers-hand_on : (g : Game) (s : Seat) → numbers (hand_on g s).seats ≡ numbers g.seats
unfolding hand_on
numbers-hand_on g s =
    ground (arith, numbers-reset (record g { lead_seat = next_active_seat g s.seat }))

numbers-dead :
    (g : Game) (place : ℕ) (s : Seat)
    → numbers (force_finish_last g place s).seats ≡ numbers g.seats
unfolding force_finish_last
numbers-dead g place s = numbers-modify place _ g.seats (λ t. refl)

pub numbers-forfeit :
    (g : Game) (place : ℕ) (s : Seat)
    → numbers (hand_on (force_finish_last g place s) s).seats ≡ numbers g.seats
numbers-forfeit g place s = numbers-hand_on (force_finish_last g place s) s ∙ numbers-dead g place s

pub numbers-connected :
    (place : ℕ) (b : Bool) (ss : List Seat)
    → numbers (modify_at place (λ s. record s { connected = b }) ss) ≡ numbers ss
numbers-connected place b ss = numbers-modify place _ ss (λ s. refl)

same_entry : {p q : ℕ × Seat} → some p ≡ some q → p ≡ q
same_entry h = cc

-- The seat found for a user has the number of its place.
pub find_seat-number :
    (u i : ℕ) (ss : List Seat) (place : ℕ) (s : Seat)
    → find_seat u i ss ≡ some (place, s)
    → AreNumbered i (numbers ss)
    → s.seat ≡ place
unfolding find_seat numbers
find_seat-number u i [] place s e n = cc
find_seat-number u i (t ∷ ss) place s e n = elim (Bool-cases (t.user_id == u)) [
  | inl yes_t ↦
      let pair = same_entry {p = (i, t)} {q = (place, s)} (rw yes_t at e) in
      sym (ap (λ p. p.1.seat) pair) ∙ n.0 ∙ ap (λ p. p.0) pair
  | inr no_t ↦ find_seat-number u (i + 1) ss place s (rw no_t at e) n.1
]

-- A forfeit makes nobody active.
count-dead :
    (f : Seat → Seat) (i : ℕ) (ss : List Seat)
    → ((s : Seat) → (f s).hand_count ≡ 0)
    → length (filter_seats is_playing (modify_at i f ss)) ≤ length (filter_seats is_playing ss)
count-dead f i [] h = omega arith
count-dead f zero (s ∷ ss) h = ground (arith, h s)
count-dead f (suc i) (s ∷ ss) h = ground (arith, count-dead f i ss h)

pub forfeit-open :
    (g : Game) (place : ℕ) (s : Seat)
    → maybe_finish (force_finish_last g place s) ≡ false
    → maybe_finish g ≡ false
unfolding maybe_finish force_finish_last
forfeit-open g place s h =
    let dead : Seat → Seat = λ t. record t { hand_count = 0; hand = []; finished_rank = 0 } in
    ground (arith, count-dead dead place g.seats (λ t. refl), h)
