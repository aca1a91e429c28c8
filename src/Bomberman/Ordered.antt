-- ===== src/Bomberman/Ordered.antt =====
-- Seats and deaths over a game of src/games/bomberman/bomberman.logic.ts.
use backend_htssclub.Base.{
  ℕ, suc, ◌+◌, ◌-◌, ◌≤◌, ◌≡◌, refl, ◌∙◌, inl, inr, Bool, true, false, ◌&&◌, Bool-cases, Option,
  none, some, List, [], ◌∷◌, ◌++◌, ltb, leb, ◌==◌, if◌then◌else◌, arith, length, contains, count,
  count-append, contains_iff_count,
}
use backend_htssclub.Bomberman.{
  BPlayer, Bomb, Flame, PowerUp, PowerType, bomb_power, flame_power, speed_power, BombermanState,
  Run, change_player, place_bomb, refuses, break_brick, release,
}
use backend_htssclub.Bomberman.Tick.{
  due_bombs, explode, apply_power, find_powerup, taken_by, pick_up, pick_up_all, burn, deaths,
  note_deaths, tick_world,
}
use backend_htssclub.Bomberman.Games.{
  GameStep, places, walks, ticks, place_for, take_step, take_steps,
}
use backend_htssclub.Bomberman.Chains.{keeps_detonate_all}
use backend_htssclub.Bomberman.Fuel.{due_stored}
use backend_htssclub.Bomberman.Armed.{break_brick-players}

-- How many players have a seat, and how many of them live.
unfoldable pub seated : ℕ → List BPlayer → ℕ
seated s [] = 0
seated s (p ∷ ps) = (if p.seat == s then 1 else 0) + seated s ps

unfoldable pub living : ℕ → List BPlayer → ℕ
living s [] = 0
living s (p ∷ ps) = (if p.alive && p.seat == s then 1 else 0) + living s ps

-- A seat belongs to one player at most; who has it lives or is noted once among the dead.
abbrev pub AreOrdered : List BPlayer → List ℕ → Type 0
AreOrdered ps order = (s : ℕ) → (living s ps + count s order ≡ seated s ps) × (seated s ps ≤ 1)

-- Players who keep their seats and lives.
abbrev pub Unmoved : List BPlayer → List BPlayer → Type 0
Unmoved ps qs = (s : ℕ) → (living s qs ≡ living s ps) × (seated s qs ≡ seated s ps)

pub change-Unmoved :
    (v : ℕ) (f : BPlayer → BPlayer) (ps : List BPlayer)
    → ((p : BPlayer) → ((f p).seat ≡ p.seat) × ((f p).alive ≡ p.alive))
    → Unmoved ps (change_player v f ps)
unfolding change_player living seated
change-Unmoved v f [] k s = (refl, refl)
change-Unmoved v f (c ∷ ps) k s = ground (arith, k c, change-Unmoved v f ps k s)

power-Unmoved :
    (k : PowerType) (p : BPlayer)
    → ((apply_power k p).seat ≡ p.seat) × ((apply_power k p).alive ≡ p.alive)
unfolding apply_power
power-Unmoved bomb_power p = (refl, refl)
power-Unmoved flame_power p = (refl, refl)
power-Unmoved speed_power p = (refl, refl)

picked_seat :
    (p : BPlayer) (us : List PowerUp) (b : Bool) (o : Option PowerUp)
    → let after = (if b then taken_by p o us else (p, (us, []))).0 in
      (after.seat ≡ p.seat) × (after.alive ≡ p.alive)
picked_seat p us false o = (refl, refl)
picked_seat p us true none = (refl, refl)
picked_seat p us true (some u) = power-Unmoved u.power p

pub pick_up_all-Unmoved : (ps : List BPlayer) (us : List PowerUp) → Unmoved ps (pick_up_all ps us).0
unfolding pick_up_all pick_up living seated
pick_up_all-Unmoved [] us s = (refl, refl)
pick_up_all-Unmoved (c ∷ ps) us s =
    let step = picked_seat c us c.alive (find_powerup c.col c.row us) in
    let rest = pick_up_all-Unmoved ps (pick_up c us).1.0 s in
    rw (step.0, step.1) (rw (rest.0, rest.1) (refl, refl))

pub burn-living :
    (s : ℕ) (fs : List Flame) (ps : List BPlayer)
    → (living s (burn fs ps) + count s (deaths fs ps) ≡ living s ps)
      × (seated s (burn fs ps) ≡ seated s ps)
unfolding burn deaths living seated
burn-living s fs [] = (refl, refl)
burn-living s fs (p ∷ ps) = ground (arith, burn-living s fs ps)

count-note_deaths :
    (s : ℕ) (died order : List ℕ)
    → ((t : ℕ) → count t died + count t order ≤ 1)
    → count s (note_deaths died order) ≡ count s died + count s order
unfolding note_deaths
count-note_deaths s [] order h = omega arith
count-note_deaths s (d ∷ died) order h = elim (Bool-cases (contains d order)) [
  | inl known ↦ absurd (ground (arith, h d, known, contains_iff_count d order))
  | inr new ↦ rw new (
      count-note_deaths s died (order ++ d ∷ [])
        (λ t. omega (arith, h t, count-append t order (d ∷ [])))
      ∙ omega (arith, count-append s order (d ∷ [])))
]

break_brick-deaths :
    (dice : ℕ → ℕ) (c r : ℕ) (o : Run)
    → (break_brick dice c r o).state.death_order ≡ o.state.death_order
unfolding break_brick
break_brick-deaths dice c r o = elim (Bool-cases (ltb (dice o.state.drawn) 42)) [
  | inl drops ↦ rw drops refl
  | inr nothing ↦ rw nothing refl
]

abbrev pub Stands : BombermanState → Run → Type 0
Stands w o = Unmoved w.players o.state.players × (o.state.death_order ≡ w.death_order)

pub explode-Stands : (dice : ℕ → ℕ) (now : ℕ) (w : BombermanState) → Stands w (explode dice now w)
unfolding explode release
explode-Stands dice now w =
    (keeps_detonate_all dice now w.bombs (Stands w) (λ t u. u) (λ c r t u. u)
      (λ c r t k u.
        (rw (break_brick-players dice c r t).0 u.0, break_brick-deaths dice c r t ∙ u.1))
      (λ b t g m f u.
        let step =
          change-Unmoved b.owner_id (λ p. record p { bombs_out = p.bombs_out - 1 }) t.state.players
            (λ p. (refl, refl)) in
        (λ s. ((step s).0 ∙ (u.0 s).0, (step s).1 ∙ (u.0 s).1), u.1))
      (suc (length w.bombs)) (due_bombs now w) _
      (due_stored (λ (b : Bomb). leb b.fuse_at now) w.bombs) (refl, (λ s. (refl, refl), refl))).1

Unmoved-AreOrdered :
    (ps qs : List BPlayer) (order : List ℕ)
    → Unmoved ps qs
    → AreOrdered ps order
    → AreOrdered qs order
Unmoved-AreOrdered ps qs order u a s = ground (arith, u s, a s)

burn-AreOrdered :
    (fs : List Flame) (ps : List BPlayer) (order : List ℕ)
    → AreOrdered ps order
    → AreOrdered (burn fs ps) (note_deaths (deaths fs ps) order)
burn-AreOrdered fs ps order a s =
    let noted =
      count-note_deaths s (deaths fs ps) order (λ t. omega (arith, a t, burn-living t fs ps)) in
    omega (arith, noted, burn-living s fs ps, a s)

tick-AreOrdered :
    (dice : ℕ → ℕ) (now : ℕ) (w : BombermanState)
    → AreOrdered w.players w.death_order
    → AreOrdered (tick_world dice now w).state.players (tick_world dice now w).state.death_order
unfolding tick_world
tick-AreOrdered dice now w a =
    let o = explode dice now w in
    let (unmoved, same) = explode-Stands dice now w in
    let first : AreOrdered o.state.players o.state.death_order =
      rw same (Unmoved-AreOrdered w.players o.state.players w.death_order unmoved a) in
    let second =
      Unmoved-AreOrdered o.state.players (pick_up_all o.state.players o.state.powerups).0
        o.state.death_order (pick_up_all-Unmoved o.state.players o.state.powerups) first in
    burn-AreOrdered _ _ _ second

pub place_bomb-players :
    (now : ℕ) (p : BPlayer) (w : BombermanState)
    → Unmoved w.players (place_bomb p now w).1.players
      × ((place_bomb p now w).1.death_order ≡ w.death_order)
unfolding place_bomb
place_bomb-players now p w = elim (Bool-cases (refuses p w)) [
  | inl refused ↦ (λ s. rw refused (refl, refl), rw refused refl)
  | inr free ↦ (
    λ s. rw free (
        change-Unmoved p.user_id (λ q. record q { bombs_out = suc q.bombs_out }) w.players
          (λ q. (refl, refl)) s),
    rw free refl,
  )
]

place_for-AreOrdered :
    (now : ℕ) (o : Option BPlayer) (w : BombermanState)
    → AreOrdered w.players w.death_order
    → AreOrdered (place_for now o w).players (place_for now o w).death_order
place_for-AreOrdered now none w a = a
place_for-AreOrdered now (some p) w a =
    rw ((place_bomb-players now p w).1)
      (Unmoved-AreOrdered w.players _ w.death_order (place_bomb-players now p w).0 a)

take_step-AreOrdered :
    (dice : ℕ → ℕ) (g : GameStep) (w : BombermanState)
    → AreOrdered w.players w.death_order
    → AreOrdered (take_step dice g w).players (take_step dice g w).death_order
unfolding take_step
take_step-AreOrdered dice (places u now) w a = place_for-AreOrdered now _ w a
take_step-AreOrdered dice (walks u c r) w a =
    Unmoved-AreOrdered w.players _ w.death_order
      (change-Unmoved u (λ p. record p { col = c; row = r }) w.players (λ p. (refl, refl))) a
take_step-AreOrdered dice (ticks now) w a = tick-AreOrdered dice now w a

pub take_steps-AreOrdered :
    (dice : ℕ → ℕ) (gs : List GameStep) (w : BombermanState)
    → AreOrdered w.players w.death_order
    → AreOrdered (take_steps dice gs w).players (take_steps dice gs w).death_order
take_steps-AreOrdered dice [] w a = a
take_steps-AreOrdered dice (g ∷ gs) w a =
    take_steps-AreOrdered dice gs (take_step dice g w) (take_step-AreOrdered dice g w a)
