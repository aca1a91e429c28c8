-- ===== src/Bomberman/Deaths.antt =====
-- What stays and what grows over a game of src/games/bomberman/bomberman.logic.ts: the seats of the
-- players, and the order of their deaths.
use backend_htssclub.Base.{
  ℕ, ◌≡◌, refl, ◌∙◌, ap, sym, inl, inr, Bool-cases, Option, none, some, List, [], ◌∷◌, ◌++◌,
  contains,
}
use mathlib.Core.List.{append-nil, append_assoc}
use backend_htssclub.Bomberman.{BPlayer, BombermanState}
use backend_htssclub.Bomberman.Tick.{explode, note_deaths, deaths, tick_world}
use backend_htssclub.Bomberman.Games.{
  GameStep, places, walks, ticks, place_for, take_step, take_steps,
}
use backend_htssclub.Bomberman.Ordered.{
  seated, change-Unmoved, pick_up_all-Unmoved, burn-living, explode-Stands, place_bomb-players,
}

-- The players of the second state have the seats of the first one, and the deaths of the first
-- one are the first deaths of the second.
abbrev pub Follows : BombermanState → BombermanState → Type 0
Follows w v =
    ((s : ℕ) → seated s v.players ≡ seated s w.players)
    × ((later : List ℕ) × (v.death_order ≡ w.death_order ++ later))

Follows-trans : (u v w : BombermanState) → Follows u v → Follows v w → Follows u w
Follows-trans u v w (seats, (early, e)) (more_seats, (later, l)) = (
  (λ s. more_seats s ∙ seats s),
  (
    early ++ later,
    l ∙ ap (λ (order : List ℕ). order ++ later) e ∙ append_assoc u.death_order early later,
  ),
)

note_deaths_grows :
    (died order : List ℕ) → (later : List ℕ) × (note_deaths died order ≡ order ++ later)
unfolding note_deaths
note_deaths_grows [] order = ([], sym (append-nil order))
note_deaths_grows (d ∷ died) order = elim (Bool-cases (contains d order)) [
  | inl known ↦ rw known (note_deaths_grows died order)
  | inr new ↦
      let (later, e) = note_deaths_grows died (order ++ d ∷ []) in
      rw new (d ∷ later, e ∙ append_assoc order (d ∷ []) later)
]

tick-Follows :
    (dice : ℕ → ℕ) (now : ℕ) (w : BombermanState) → Follows w (tick_world dice now w).state
unfolding tick_world
tick-Follows dice now w =
    let o = explode dice now w in
    let (unmoved, same) = explode-Stands dice now w in
    let moved = pick_up_all-Unmoved o.state.players o.state.powerups in
    let (later, grown) = note_deaths_grows (deaths _ _) o.state.death_order in
    (
      (λ s. (burn-living s _ _).1 ∙ (moved s).1 ∙ (unmoved s).1),
      (later, grown ∙ ap (λ (order : List ℕ). order ++ later) same),
    )

place_for-Follows :
    (now : ℕ) (o : Option BPlayer) (w : BombermanState) → Follows w (place_for now o w)
place_for-Follows now none w = ((λ s. refl), ([], sym (append-nil w.death_order)))
place_for-Follows now (some p) w =
    let (unmoved, same) = place_bomb-players now p w in
    ((λ s. (unmoved s).1), ([], same ∙ sym (append-nil w.death_order)))

take_step-Follows :
    (dice : ℕ → ℕ) (g : GameStep) (w : BombermanState) → Follows w (take_step dice g w)
unfolding take_step
take_step-Follows dice (places u now) w = place_for-Follows now _ w
take_step-Follows dice (walks u c r) w =
    let unmoved =
      change-Unmoved u (λ p. record p { col = c; row = r }) w.players (λ p. (refl, refl)) in
    ((λ s. (unmoved s).1), ([], sym (append-nil w.death_order)))
take_step-Follows dice (ticks now) w = tick-Follows dice now w

pub take_steps-Follows :
    (dice : ℕ → ℕ) (gs : List GameStep) (w : BombermanState) → Follows w (take_steps dice gs w)
take_steps-Follows dice [] w = ((λ s. refl), ([], sym (append-nil w.death_order)))
take_steps-Follows dice (g ∷ gs) w =
    Follows-trans w (take_step dice g w) (take_steps dice gs (take_step dice g w))
      (take_step-Follows dice g w) (take_steps-Follows dice gs (take_step dice g w))
