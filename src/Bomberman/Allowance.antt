-- ===== src/Bomberman/Allowance.antt =====
-- What a tick and a new bomb of src/games/bomberman/bomberman.logic.ts keep of the bombs out.
use backend_htssclub.Base.{
  ℕ, suc, ◌+◌, ◌≡◌, refl, sym, ◌∙◌, inl, inr, Bool, true, false, not, Bool-cases, Option, none,
  some, List, [], ◌∷◌, ◌++◌, leb, ◌==◌, if◌then◌else◌, arith, length, keep,
}
use backend_htssclub.Bomberman.{
  BPlayer, Bomb, BombermanState, Run, PowerType, bomb_power, flame_power, speed_power, PowerUp,
  Flame, find_player, is_detonated, refuses, place_bomb, release,
}
use backend_htssclub.Bomberman.Tick.{
  due_bombs, explode, apply_power, find_powerup, taken_by, pick_up, pick_up_all, dies, burn,
  left_after, tick_world,
}
use backend_htssclub.Bomberman.Chains.{keeps_detonate_all, is_stored}
use backend_htssclub.Bomberman.Fuel.{due_stored}
use backend_htssclub.Bomberman.Armed.{
  owned, AreFresh, IsFit, IsArmed, over, one_if, find_player-change, AreFit, AreFit-released,
  AreFit-broken, break_brick-players,
}

owned_keep :
    (u : ℕ) (done bs : List Bomb)
    → owned u [] (keep (λ (b : Bomb). not (is_detonated b.id done)) bs) ≡ owned u done bs
unfolding owned is_detonated
owned_keep u done [] = refl
owned_keep u done (b ∷ bs) = ground (arith, owned_keep u done bs)

stored_keep :
    (b : Bomb) (p : Bomb → Bool) (bs : List Bomb)
    → is_stored b bs ≡ false
    → is_stored b (keep p bs) ≡ false
stored_keep b p [] h = refl
stored_keep b p (c ∷ bs) h = ground (arith, h, stored_keep b p bs)

AreFresh_keep : (n : ℕ) (p : Bomb → Bool) (bs : List Bomb) → AreFresh n bs → AreFresh n (keep p bs)
AreFresh_keep n p [] h = tt
AreFresh_keep n p (b ∷ bs) h = elim (Bool-cases (p b)) [
  | inl yes_b ↦ rw yes_b (stored_keep b p bs h.0, (h.1.0, AreFresh_keep n p bs h.1.1))
  | inr no_b ↦ rw no_b (AreFresh_keep n p bs h.1.1)
]

apply_power-IsFit : (n : ℕ) (k : PowerType) (p : BPlayer) → IsFit n p → IsFit n (apply_power k p)
unfolding apply_power
apply_power-IsFit n bomb_power p h = grind (arith, h)
apply_power-IsFit n flame_power p h = grind (arith, h)
apply_power-IsFit n speed_power p h = grind (arith, h)

apply_power-user : (k : PowerType) (p : BPlayer) → (apply_power k p).user_id ≡ p.user_id
unfolding apply_power
apply_power-user bomb_power p = refl
apply_power-user flame_power p = refl
apply_power-user speed_power p = refl

-- The player after a round of the loop, for each outcome of its two tests.
picked :
    (n : ℕ) (p : BPlayer) (us : List PowerUp) (b : Bool) (o : Option PowerUp)
    → let after = (if b then taken_by p o us else (p, (us, []))).0 in
      (IsFit n p → IsFit n after) × (after.user_id ≡ p.user_id)
picked n p us false o = (λ h. h, refl)
picked n p us true none = (λ h. h, refl)
picked n p us true (some u) = (apply_power-IsFit n u.power p, apply_power-user u.power p)

pick_up_all-IsFit :
    (n u : ℕ) (ps : List BPlayer) (us : List PowerUp) (p : BPlayer)
    → ((q : BPlayer) → find_player u ps ≡ some q → IsFit n q)
    → find_player u (pick_up_all ps us).0 ≡ some p
    → IsFit n p
unfolding pick_up_all pick_up find_player
pick_up_all-IsFit n u [] us p fit h = absurd (ground (arith, h))
pick_up_all-IsFit n u (c ∷ ps) us p fit h =
    let step = picked n c us c.alive (find_powerup c.col c.row us) in
    elim (Bool-cases (c.user_id == u)) [
      | inl here ↦
          let same : some (pick_up c us).0 ≡ some p = rw (step.1, here) at h in
          let e : (pick_up c us).0 ≡ p = cc in rw (← e) (step.0 (fit c (rw here refl)))
      | inr there ↦
          pick_up_all-IsFit n u ps (pick_up c us).1.0 p (λ q e. fit q (rw there e))
            (rw (step.1, there) at h)
    ]

burned :
    (n : ℕ) (p : BPlayer) (b : Bool)
    → let after = if b then record p { alive = false } else p in
      (IsFit n p → IsFit n after) × (after.user_id ≡ p.user_id)
burned n p true = (λ h. h, refl)
burned n p false = (λ h. h, refl)

burn-IsFit :
    (n u : ℕ) (fs : List Flame) (ps : List BPlayer) (p : BPlayer)
    → ((q : BPlayer) → find_player u ps ≡ some q → IsFit n q)
    → find_player u (burn fs ps) ≡ some p
    → IsFit n p
unfolding burn find_player
burn-IsFit n u fs [] p fit h = absurd (ground (arith, h))
burn-IsFit n u fs (c ∷ ps) p fit h =
    let after : BPlayer = if dies fs c then record c { alive = false } else c in
    let step = burned n c (dies fs c) in
    elim (Bool-cases (c.user_id == u)) [
      | inl here ↦
          let same : some after ≡ some p = rw (step.1, here) at h in
          let e : after ≡ p = cc in rw (← e) (step.0 (fit c (rw here refl)))
      | inr there ↦ burn-IsFit n u fs ps p (λ q e. fit q (rw there e)) (rw (step.1, there) at h)
    ]

find_player-user :
    (u : ℕ) (ps : List BPlayer) (p : BPlayer) → find_player u ps ≡ some p → p.user_id ≡ u
unfolding find_player
find_player-user u [] p h = ground (arith, h)
find_player-user u (c ∷ ps) p h = ground (arith, h, find_player-user u ps p)

left_after-IsArmed :
    (o : Run) (n : ℕ) (bs : List Bomb)
    → o.state.bombs ≡ bs
    → AreFit bs o
    → o.state.next_bomb ≡ n
    → AreFresh n bs
    → IsArmed (left_after o)
left_after-IsArmed o n bs same fit next fresh = record {
  fit = λ u p h. rw (same, owned_keep u o.detonated bs) (fit u p h);
  fresh =
      rw (same, next)
        (AreFresh_keep n (λ (b : Bomb). not (is_detonated b.id o.detonated)) bs fresh);
}

pub tick-IsArmed :
    (dice : ℕ → ℕ) (now : ℕ) (w : BombermanState)
    → IsArmed w
    → IsArmed (tick_world dice now w).state
unfolding tick_world explode release
tick-IsArmed dice now w a =
    let start : Run = record { state = w; detonated = []; bricks = []; starved = false } in
    let P : Run → Type 0 = λ t. AreFit w.bombs t × (t.state.next_bomb ≡ w.next_bomb) in
    let first : AreFit w.bombs start = λ u p h. a.fit u p h in
    let o = explode dice now w in
    let kept =
      keeps_detonate_all dice now w.bombs P (λ t u. u) (λ c r t u. u)
        (λ c r t k u.
          (AreFit-broken dice w.bombs c r t u.0, (break_brick-players dice c r t).1 ∙ u.1))
        (λ b t g m f u. (AreFit-released w.next_bomb w.bombs b t a.fresh m f u.0, u.1))
        (suc (length w.bombs)) (due_bombs now w) start
        (due_stored (λ (b : Bomb). leb b.fuse_at now) w.bombs) (refl, (first, refl)) in
    let left = left_after-IsArmed o w.next_bomb w.bombs kept.0 kept.1.0 kept.1.1 a.fresh in
    record {
      fit = λ u p h.
          burn-IsFit _ u _ _ p (λ q e. pick_up_all-IsFit _ u _ _ q (λ c f. left.fit u c f) e) h;
      fresh = left.fresh;
    }

stored-snoc :
    (b c : Bomb) (bs : List Bomb)
    → is_stored b bs ≡ false
    → (c.id == b.id) ≡ false
    → is_stored b (bs ++ c ∷ []) ≡ false
stored-snoc b c [] h n = ground (arith, n)
stored-snoc b c (d ∷ bs) h n = ground (arith, h, n, stored-snoc b c bs)

AreFresh-snoc :
    (n : ℕ) (bs : List Bomb) (b : Bomb) → AreFresh n bs → b.id ≡ n → AreFresh (suc n) (bs ++ b ∷ [])
AreFresh-snoc n [] b h e = (refl, (omega arith, tt))
AreFresh-snoc n (c ∷ bs) b h e =
    (stored-snoc c b bs h.0 (ground (arith, h.1.0, e)), (omega arith, AreFresh-snoc n bs b h.1.1 e))

owned-snoc :
    (u : ℕ) (bs : List Bomb) (b : Bomb)
    → owned u [] (bs ++ b ∷ []) ≡ one_if (b.owner_id == u) + owned u [] bs
unfolding owned is_detonated
owned-snoc u [] b = ground arith
owned-snoc u (c ∷ bs) b = ground (arith, owned-snoc u bs b)

placed-IsFit :
    (u v n m : ℕ) (o : Option BPlayer) (p : BPlayer)
    → ((q : BPlayer) → o ≡ some q → IsFit n q)
    → ((q : BPlayer) → v ≡ u → o ≡ some q → leb q.max_bombs q.bombs_out ≡ false)
    → m ≡ one_if (v == u) + n
    → (if v == u then over (λ q. record q { bombs_out = suc q.bombs_out }) o else o) ≡ some p
    → IsFit m p
placed-IsFit u v n m none p fit room e h = absurd (ground (arith, h))
placed-IsFit u v n m (some q) p fit room e h =
    ground (arith, fit q refl, λ (k : v ≡ u). room q k refl, e, h)

pub place_bomb-IsArmed :
    (u now : ℕ) (p : BPlayer) (w : BombermanState)
    → find_player u w.players ≡ some p
    → IsArmed w
    → IsArmed (place_bomb p now w).1
unfolding place_bomb
place_bomb-IsArmed u now p w found a = elim (Bool-cases (refuses p w)) [
  | inl refused ↦ rw refused a
  | inr free ↦
      let room : leb p.max_bombs p.bombs_out ≡ false = ground (arith, free) in
      let inc : BPlayer → BPlayer = λ q. record q { bombs_out = suc q.bombs_out } in
      let mine : p.user_id ≡ u = find_player-user u w.players p found in
      rw free (record {
        fit = λ v q h.
            placed-IsFit v p.user_id (owned v [] w.bombs) _ (find_player v w.players) q (a.fit v)
              (λ c k e.
                let here : find_player u w.players ≡ some c = rw (sym mine ∙ k) e in
                let same : some p ≡ some c = sym found ∙ here in ground (arith, same, room))
              (owned-snoc v w.bombs _)
              (sym (find_player-change v p.user_id inc w.players (λ c. refl)) ∙ h);
        fresh = AreFresh-snoc w.next_bomb w.bombs _ a.fresh refl;
      })
]
