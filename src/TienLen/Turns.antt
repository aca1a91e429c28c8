-- ===== src/TienLen/Turns.antt =====
-- Whose turn it is: after every move that leaves the game open, a player who still holds cards.
use backend_htssclub.Base.{
  ℕ, zero, suc, ◌+◌, ◌-◌, ◌%◌, ◌≤◌, ◌<◌, ◌≡◌, ◌≢◌, inl, inr, refl, sym, ap, ◌∙◌, true, false, none,
  some, List, [], ◌∷◌, map, arith, Bool-cases, if◌then◌else◌, ltb, ◌==◌, length, length-map,
  get_elem?,
}
use native.Mathlib.Nat.{mod-lt, mod-eq_of_lt, mod-add-mod, add-mod_right}
use mathlib.Core.Bool.{false≢true}
use backend_htssclub.TienLen.Cards.{Combo}
use backend_htssclub.TienLen.Game.{
  Seat, Game, is_playing, active_seats, filter_seats, modify_at, plays_at, next_active_from,
  next_active_seat, clear_passed, reset_trick, advance_from, advance_turn, put_down, apply_play,
  mark_passed, apply_pass, maybe_finish, force_finish_last, hand_on, skip,
}

-- Every seat comes up in a round: `n` steps from anywhere meet every index below `n`.
round_meets : (n from i : ℕ) → i < n → (j : ℕ) × (1 ≤ j) × (j ≤ n) × ((from + j) % n ≡ i)
round_meets n from i h =
    let small : from % n < n = mod-lt from (omega arith) in
    elim (Bool-cases (ltb (from % n) i)) [
      | inl above ↦
          let j = i - from % n in
          (
            j,
            ground arith,
            ground arith,
            sym (mod-add-mod from n j)
                ∙ ap (λ t. t % n) {x = from % n + j} {y = i} (ground arith)
                ∙ mod-eq_of_lt h,
          )
      | inr below ↦
          let j = i + n - from % n in
          (
            j,
            ground arith,
            ground arith,
            sym (mod-add-mod from n j)
                ∙ ap (λ t. t % n) {x = from % n + j} {y = i + n} (ground arith)
                ∙ add-mod_right i n
                ∙ mod-eq_of_lt h,
          )
    ]

-- Somebody still holds cards.
abbrev pub SomeActive : List Seat → Type 0
SomeActive ss = (i : ℕ) × (i < length ss) × (plays_at ss i ≡ true)

-- The seat whose turn it is still holds cards.
abbrev pub IsPlayable : Game → Type 0
IsPlayable g = plays_at g.seats g.turn ≡ true

-- The loop finds an active seat if one comes up in the rounds left.
next_active_from-plays :
    (k i from j : ℕ) (ss : List Seat)
    → i ≤ j
    → j < i + k
    → plays_at ss ((from + j) % length ss) ≡ true
    → plays_at ss (next_active_from k i from ss) ≡ true
unfolding next_active_from
next_active_from-plays zero i from j ss lo hi h = absurd (omega arith)
next_active_from-plays (suc k) i from j ss lo hi h =
    elim (Bool-cases (plays_at ss ((from + i) % length ss))) [
      | inl yes_here ↦ rw yes_here yes_here
      | inr not_here ↦ rw not_here (elim (Bool-cases (i == j)) [
        | inl same ↦ let e : i ≡ j = ground arith in absurd (false≢true (sym not_here ∙ rw e h))
        | inr later ↦ next_active_from-plays k (i + 1) from j ss (ground arith) (omega arith) h
      ])
    ]

next_active-plays :
    (g : Game) (from : ℕ) → SomeActive g.seats → plays_at g.seats (next_active_seat g from) ≡ true
unfolding next_active_seat
next_active-plays g from (i, below, plays) =
    let (j, lo, hi, e) = round_meets (length g.seats) from i below in
    next_active_from-plays (length g.seats) 1 from j g.seats lo (omega arith) (rw e plays)

plays_at-clear : (ss : List Seat) (i : ℕ) → plays_at (map clear_passed ss) i ≡ plays_at ss i
plays_at-clear [] i = refl
plays_at-clear (s ∷ ss) zero = refl
plays_at-clear (s ∷ ss) (suc i) = plays_at-clear ss i

SomeActive-clear : (ss : List Seat) → SomeActive ss → SomeActive (map clear_passed ss)
SomeActive-clear ss (i, below, plays) =
    (i, rw (length-map ss clear_passed) below, plays_at-clear ss i ∙ plays)

-- `if (lead.handCount > 0) turn = leadSeat else turn = nextActiveSeat(leadSeat)`
lead_or_next :
    (g : Game) (lead : ℕ)
    → SomeActive g.seats
    → plays_at g.seats (if plays_at g.seats lead then lead else next_active_seat g lead) ≡ true
lead_or_next g lead a = elim (Bool-cases (plays_at g.seats lead)) [
  | inl lead_plays ↦ rw lead_plays lead_plays
  | inr lead_out ↦ rw lead_out (next_active-plays g lead a)
]

reset_trick-IsPlayable : (g : Game) → SomeActive g.seats → IsPlayable (reset_trick g)
unfolding reset_trick
reset_trick-IsPlayable g a =
    lead_or_next
      (record g { current_combo = []; current_combo_type = none; seats = map clear_passed g.seats })
      g.lead_seat (SomeActive-clear g.seats a)

advance_from-IsPlayable :
    (k i from : ℕ) (g : Game) → SomeActive g.seats → IsPlayable (advance_from k i g from)
unfolding advance_from
advance_from-IsPlayable zero i from g a = reset_trick-IsPlayable g a
advance_from-IsPlayable (suc k) i from g a =
    ground (arith, reset_trick-IsPlayable g a, advance_from-IsPlayable k (i + 1) from g a)

pub advance_turn-IsPlayable :
    (g : Game) (from : ℕ) → SomeActive g.seats → IsPlayable (advance_turn g from)
unfolding advance_turn
advance_turn-IsPlayable g from a = advance_from-IsPlayable (length g.seats) 1 from g a

-- Advancing the turn takes no cards and gives none.
reset_trick-plays_at : (g : Game) (i : ℕ) → plays_at (reset_trick g).seats i ≡ plays_at g.seats i
unfolding reset_trick
reset_trick-plays_at g i = plays_at-clear g.seats i

advance_from-plays_at :
    (k i from j : ℕ) (g : Game) → plays_at (advance_from k i g from).seats j ≡ plays_at g.seats j
unfolding advance_from
advance_from-plays_at zero i from j g = reset_trick-plays_at g j
advance_from-plays_at (suc k) i from j g =
    ground (arith, reset_trick-plays_at g j, advance_from-plays_at k (i + 1) from j g)

-- The length of the list of active seats against the test of one seat.
SomeActive-of_count : (ss : List Seat) → 0 < length (filter_seats is_playing ss) → SomeActive ss
SomeActive-of_count [] h = absurd (omega arith)
SomeActive-of_count (s ∷ ss) h = elim (Bool-cases (is_playing s)) [
  | inl plays ↦ (0, omega arith, plays)
  | inr out ↦
      let (i, below, plays) = SomeActive-of_count ss (ground arith) in (suc i, omega arith, plays)
]

count_active-clear :
    (ss : List Seat)
    → length (filter_seats is_playing (map clear_passed ss)) ≡ length (filter_seats is_playing ss)
count_active-clear [] = refl
count_active-clear (s ∷ ss) = ground (arith, count_active-clear ss)

reset_trick-active : (g : Game) → length (active_seats (reset_trick g)) ≡ length (active_seats g)
unfolding reset_trick
reset_trick-active g = count_active-clear g.seats

advance_from-active :
    (k i from : ℕ) (g : Game)
    → length (active_seats (advance_from k i g from)) ≡ length (active_seats g)
unfolding advance_from
advance_from-active zero i from g = reset_trick-active g
advance_from-active (suc k) i from g =
    ground (arith, reset_trick-active g, advance_from-active k (i + 1) from g)

-- A game that is not over has an active seat.
SomeActive-open : (g : Game) → maybe_finish g ≡ false → SomeActive g.seats
unfolding maybe_finish
SomeActive-open g h = SomeActive-of_count g.seats (ground arith)

maybe_finish-advance : (g : Game) (from : ℕ) → maybe_finish (advance_turn g from) ≡ maybe_finish g
unfolding maybe_finish advance_turn
maybe_finish-advance g from = rw (advance_from-active (length g.seats) 1 from g)

-- The moves of a match, as the handlers compose them: a play, a pass, a skipped turn, and a
-- forfeit (by resigning or by staying away) after which the game goes on.
pub data Move (g : Game) : Game → Type 0 where
  play :
      (place : ℕ) (s : Seat) (combo : Combo) (rest : List ℕ)
      → Move g (apply_play g place s combo rest)
  pass : (place : ℕ) (s : Seat) → Move g (apply_pass g place s)
  skipped : (place : ℕ) (s : Seat) → Move g (skip g place s)
  forfeit :
      (place : ℕ) (s : Seat)
      → get_elem? g.seats place ≡ some s
      → s.seat ≡ place
      → Move g (hand_on (force_finish_last g place s) s)

pub maybe_finish-reset : (g : Game) → maybe_finish (reset_trick g) ≡ maybe_finish g
unfolding maybe_finish
maybe_finish-reset g = rw (reset_trick-active g)

pub plays_at-modify_ne :
    (i j : ℕ) (f : Seat → Seat) (ss : List Seat)
    → i ≢ j
    → plays_at (modify_at i f ss) j ≡ plays_at ss j
plays_at-modify_ne i j f [] ne = refl
plays_at-modify_ne zero zero f (s ∷ ss) ne = absurd (ne refl)
plays_at-modify_ne zero (suc j) f (s ∷ ss) ne = refl
plays_at-modify_ne (suc i) zero f (s ∷ ss) ne = refl
plays_at-modify_ne (suc i) (suc j) f (s ∷ ss) ne = plays_at-modify_ne i j f ss (λ e. ne (ap suc e))

pub advance-open-IsPlayable :
    (g : Game) (from : ℕ)
    → maybe_finish (advance_turn g from) ≡ false
    → IsPlayable (advance_turn g from)
advance-open-IsPlayable g from still =
    advance_turn-IsPlayable g from (SomeActive-open g (sym (maybe_finish-advance g from) ∙ still))

pub apply_pass-IsPlayable :
    (g : Game) (place : ℕ) (s : Seat)
    → maybe_finish (apply_pass g place s) ≡ false
    → IsPlayable (apply_pass g place s)
unfolding apply_pass
apply_pass-IsPlayable g place s still = advance-open-IsPlayable (mark_passed g place s) s.seat still

pub skip-IsPlayable :
    (g : Game) (place : ℕ) (s : Seat)
    → maybe_finish (skip g place s) ≡ false
    → IsPlayable (skip g place s)
unfolding skip
skip-IsPlayable g place s still = elim (Bool-cases (length g.current_combo == 0)) [
  | inl free ↦
      let open_game : maybe_finish g ≡ false = unfold maybe_finish in (rw free at still) in
      rw free (next_active-plays g place (SomeActive-open g open_game))
  | inr live ↦ rw live (apply_pass-IsPlayable g place s (rw live at still))
]

pub hand_on-IsPlayable :
    (g : Game) (s : Seat)
    → (g.turn ≢ s.seat → IsPlayable g)
    → maybe_finish (hand_on g s) ≡ false
    → IsPlayable (hand_on g s)
unfolding hand_on
hand_on-IsPlayable g s keeps still = elim (Bool-cases (g.lead_seat == s.seat)) [
  | inl led ↦
      let next = record g { lead_seat = next_active_seat g s.seat } in
      rw led (
        reset_trick-IsPlayable next
          (SomeActive-open next (sym (maybe_finish-reset next) ∙ (rw led at still))))
  | inr other ↦ elim (Bool-cases (g.turn == s.seat)) [
    | inl turned ↦
        let open_game : maybe_finish g ≡ false =
          unfold maybe_finish in (rw (other, turned) at still) in
        rw (other, turned) (next_active-plays g s.seat (SomeActive-open g open_game))
    | inr waiting ↦ rw (other, waiting) (keeps (ground arith))
  ]
]

-- After every move that leaves the game open, the turn belongs to a seat that still holds cards:
-- a match never waits for a player who is out.
pub Move-IsPlayable :
    {g g' : Game} → Move g g' → IsPlayable g → maybe_finish g' ≡ false → IsPlayable g'
Move-IsPlayable {g} (play place s combo rest) p still =
    unfold apply_play in advance-open-IsPlayable (put_down g place s combo rest) s.seat still
Move-IsPlayable {g} (pass place s) p still = apply_pass-IsPlayable g place s still
Move-IsPlayable {g} (skipped place s) p still = skip-IsPlayable g place s still
Move-IsPlayable {g} (forfeit place s here own) p still =
    hand_on-IsPlayable (force_finish_last g place s) s
      (unfold force_finish_last in
        λ ne. plays_at-modify_ne place g.turn _ g.seats (λ e. ne (sym e ∙ sym own)) ∙ p)
      still
