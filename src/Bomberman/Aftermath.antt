-- ===== src/Bomberman/Aftermath.antt =====
-- What holds after a tick of src/games/bomberman/bomberman.logic.ts.
use backend_htssclub.Base.{
  ℕ, suc, ◌≡◌, refl, inl, inr, Bool, true, not, Bool-cases, List, [], ◌∷◌, ltb, leb, arith, length,
  keep, all,
}
use backend_htssclub.Bomberman.{BPlayer, Bomb, Flame, BombermanState, is_detonated}
use backend_htssclub.Bomberman.Tick.{due_bombs, explode, dies, burn, tick_world}
use backend_htssclub.Bomberman.Chains.{keeps_detonate_all}
use backend_htssclub.Bomberman.Fuel.{due_stored, explode_ends}

all-keep : {A : Type 0} (p : A → Bool) (xs : List A) → all p (keep p xs) ≡ true
all-keep p [] = refl
all-keep p (x ∷ xs) = elim (Bool-cases (p x)) [
  | inl yes_x ↦ rw (yes_x, yes_x, all-keep p xs)
  | inr no_x ↦ rw (no_x, all-keep p xs)
]

burn_safe : (fs : List Flame) (ps : List BPlayer) → all (λ p. not (dies fs p)) (burn fs ps) ≡ true
unfolding burn
burn_safe fs [] = refl
burn_safe fs (p ∷ ps) = ground (arith, burn_safe fs ps)

left_wait :
    (now : ℕ) (done bs : List Bomb)
    → all (λ (b : Bomb). is_detonated b.id done) (keep (λ (b : Bomb). leb b.fuse_at now) bs) ≡ true
    → all (λ (b : Bomb). ltb now b.fuse_at) (keep (λ (b : Bomb). not (is_detonated b.id done)) bs)
      ≡ true
left_wait now done [] h = refl
left_wait now done (b ∷ bs) h = ground (arith, h, left_wait now done bs)

explode-bombs :
    (dice : ℕ → ℕ) (now : ℕ) (w : BombermanState) → (explode dice now w).state.bombs ≡ w.bombs
unfolding explode
explode-bombs dice now w =
    (keeps_detonate_all dice now w.bombs (λ t. Unit {0}) (λ t u. tt) (λ c r t u. tt)
      (λ c r t k u. tt) (λ b t g m f u. tt) (suc (length w.bombs)) (due_bombs now w) _
      (due_stored (λ (b : Bomb). leb b.fuse_at now) w.bombs) (refl, tt)).0

-- After a tick no living player stands on a burning tile, every flame that is left burns on, and
-- every bomb that is left has its fuse still to burn.
pub tick_world_lem :
    (dice : ℕ → ℕ) (now : ℕ) (w : BombermanState)
    → let after = (tick_world dice now w).state in
      (all (λ p. not (dies after.flames p)) after.players ≡ true)
      × ((all (λ (f : Flame). ltb now f.until) after.flames ≡ true)
          × (all (λ (b : Bomb). ltb now b.fuse_at) after.bombs ≡ true))
unfolding tick_world
tick_world_lem dice now w =
    let o = explode dice now w in
    (
      burn_safe _ _,
      (
        all-keep (λ (f : Flame). ltb now f.until) o.state.flames,
        rw (explode-bombs dice now w)
            (left_wait now o.detonated w.bombs (explode_ends dice now w).1),
      ),
    )
