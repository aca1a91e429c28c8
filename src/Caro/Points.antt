-- ===== src/Caro/Points.antt =====
-- What a ranked match of src/games/caro/caro.service.ts does to the rank points of the two players.
use backend_htssclub.Base.{
  ℕ, ◌-◌, ◌≤◌, ◌<◌, ◌≡◌, ◌≢◌, refl, ap, sym, ◌∙◌, inl, inr, true, false, Bool-cases, Option, none,
  some, List, [], ◌∷◌, ◌==◌, ltb, arith,
}
use backend_htssclub.Base.Int.{ℤ, pos, negsuc, ◌≤ℤ◌, ◌+ℤ◌, +ℤ_parts, int_laws, eqb_ℤ}
use backend_htssclub.Common.Action.{ok, pure, ◌>>=◌}
use backend_htssclub.Leveling.Service.{
  Profile, Hall, find_profile, update_profile, moved_points, add_rank_points, move_points,
  change_profile, emit, notify, announce_rank,
}
use backend_htssclub.Leveling.Ranks.{RankInfo, ladder}
use backend_htssclub.Common.Action.After.{
  After, After-pure, After-gets, After-modify, After-ok, After-then,
}
use backend_htssclub.Rooms.{close}
use backend_htssclub.Caro.Elo.{EloDelta, EloOutcome, ranked_outcome}
use backend_htssclub.Caro.Progress.{add-IsTotal}
use backend_htssclub.Caro.Match.{
  CaroGame, Match, clear_timer, is_ranked, points_of, finish, opponent_of, CaroEndReason, at_hall,
  at_lobby, change_points, close_if_any, close_room_of, reward_winner,
}

-- The points of the users.
find-update :
    (i : ℕ) (f : Profile → Profile) (ps : List Profile) (p : Profile)
    → ((q : Profile) → (f q).id ≡ q.id)
    → find_profile i ps ≡ some p
    → find_profile i (update_profile i f ps) ≡ some (f p)
unfolding find_profile update_profile
find-update i f [] p k e = ground (arith, e)
find-update i f (q ∷ ps) p k e = ground (arith, k q, e, find-update i f ps p k)

find-update_ne :
    (i j : ℕ) (f : Profile → Profile) (ps : List Profile)
    → ((q : Profile) → (f q).id ≡ q.id)
    → i ≢ j
    → find_profile j (update_profile i f ps) ≡ find_profile j ps
unfolding find_profile update_profile
find-update_ne i j f [] k n = refl
find-update_ne i j f (q ∷ ps) k n = elim (Bool-cases (q.id == i)) [
  | inl same ↦
      let other : (q.id == j) ≡ false = ground (arith, same, n) in
      let still : ((f q).id == j) ≡ false = rw (k q) other in rw (same, other, still)
  | inr other ↦ ground (arith, other, find-update_ne i j f ps k n)
]

announce-profiles :
    (u : ℕ) (r q : RankInfo) (h : Hall) → (announce_rank u r q h).1.profiles ≡ h.profiles
unfolding announce_rank emit notify ◌>>=◌
announce-profiles u r q h = elim (Bool-cases (ltb (ladder r) (ladder q))) [
  | inl up ↦ rw up refl
  | inr not_up ↦ elim (Bool-cases (ltb (ladder q) (ladder r))) [
    | inl down ↦ rw (not_up, down) refl
    | inr level ↦ rw (not_up, level) refl
  ]
]

-- `addRankPoints` moves the points of one user.
abbrev pub moved_profiles : ℕ → ℤ → Profile → Hall → List Profile
moved_profiles u d p h =
    update_profile u (λ q. record q { rank_points = moved_points p.rank_points d }) h.profiles

move_points-profiles :
    (u : ℕ) (d : ℤ) (p : Profile) (h : Hall)
    → (move_points u d (some p) h).1.profiles ≡ moved_profiles u d p h
unfolding move_points change_profile emit
move_points-profiles u d p h =
    let P : Hall → Type 0 = λ k. k.profiles ≡ moved_profiles u d p h in
    After-modify P _ _ h (
      After-modify P _ _ _ (
        After-then P (announce_rank u _ _) (λ _. pure _) _ (announce-profiles u _ _ _)
          (λ _ t q. After-pure P _ t q)))

add-profiles :
    (u : ℕ) (d : ℤ) (p : Profile) (h : Hall)
    → eqb_ℤ d (pos 0) ≡ false
    → find_profile u h.profiles ≡ some p
    → (add_rank_points u d h).1.profiles ≡ moved_profiles u d p h
unfolding add_rank_points ◌>>=◌
add-profiles u d p h n found = rw (n, found) (move_points-profiles u d p h)

points_of_found :
    (u : ℕ) (h : Hall) (p : Profile)
    → find_profile u h.profiles ≡ some p
    → points_of u h ≡ p.rank_points
unfolding points_of
points_of_found u h p e = rw (e, points_of)

moved_up : (n : ℕ) (d : ℤ) → pos 1 ≤ℤ d → n < moved_points n d
moved_up n d up = omega (int_laws, +ℤ_parts (pos n) d)

moved_down : (n : ℕ) (d : ℤ) → d ≤ℤ negsuc 0 → moved_points n d ≤ n - 1
unfolding ◌+ℤ◌
moved_down n d down = ground arith

-- A gain of one user and a loss of another.
two_moves :
    (a b : ℕ) (da db : ℤ) (h : Hall) (p q : Profile)
    → a ≢ b
    → pos 1 ≤ℤ da
    → db ≤ℤ negsuc 0
    → find_profile a h.profiles ≡ some p
    → find_profile b h.profiles ≡ some q
    → let h' = (add_rank_points b db (add_rank_points a da h).1).1 in
      (points_of a h < points_of a h') × (points_of b h' ≤ points_of b h - 1)
two_moves a b da db h p q two up down found_p found_q =
    let h₁ = (add_rank_points a da h).1 in
    let h₂ = (add_rank_points b db h₁).1 in
    let f : Profile → Profile = λ x. record x { rank_points = moved_points p.rank_points da } in
    let g : Profile → Profile = λ x. record x { rank_points = moved_points q.rank_points db } in
    let e₁ : h₁.profiles ≡ update_profile a f h.profiles =
      add-profiles a da p h (ground (arith, up)) found_p in
    let b₁ : find_profile b h₁.profiles ≡ some q =
      rw e₁ (find-update_ne a b f h.profiles (λ _. refl) two ∙ found_q) in
    let a₁ : find_profile a h₁.profiles ≡ some (f p) =
      rw e₁ (find-update a f h.profiles p (λ _. refl) found_p) in
    let e₂ : h₂.profiles ≡ update_profile b g h₁.profiles =
      add-profiles b db q h₁ (ground (arith, down)) b₁ in
    let a₂ : find_profile a h₂.profiles ≡ some (f p) =
      rw e₂ (find-update_ne b a g h₁.profiles (λ _. refl) (λ e. two (sym e)) ∙ a₁) in
    let b₂ : find_profile b h₂.profiles ≡ some (g q) =
      rw e₂ (find-update b g h₁.profiles q (λ _. refl) b₁) in
    (
      rw (points_of_found a h p found_p, points_of_found a h₂ (f p) a₂)
          (moved_up p.rank_points da up),
      rw (points_of_found b h₂ (g q) b₂, points_of_found b h q found_q)
          (moved_down q.rank_points db down),
    )

at_hall_ok :
    (u : ℕ) (d : ℤ) (s : Match)
    → at_hall (add_rank_points u d) s
      ≡ (ok ((add-IsTotal u d).value s.hall), record s { hall = (add_rank_points u d s.hall).1 })
unfolding at_hall
at_hall_ok u d s =
    ap (λ r. (r, record s { hall = (add_rank_points u d s.hall).1 }))
      ((add-IsTotal u d).returns s.hall)

HasHall : Hall → Match → Type 0
HasHall h s = s.hall ≡ h

change-hall :
    (a : ℕ) (da : ℤ) (b : ℕ) (db : ℤ) (s : Match)
    → After
        (HasHall (add_rank_points b db (add_rank_points a da s.hall).1).1)
        (change_points a da b db)
        s
unfolding change_points HasHall
change-hall a da b db s =
    let P = HasHall (add_rank_points b db (add_rank_points a da s.hall).1).1 in
    After-gets P _ _ s (
      After-modify P _ _ s (
        After-ok P _ _ _ (at_hall_ok a da _)
          (After-ok P _ _ _ (at_hall_ok b db _) (After-pure P tt _ refl))))

close-hall :
    (h : Hall) (room : Option ℕ) (s : Match) → HasHall h s → After (HasHall h) (close_if_any room) s
unfolding close_if_any at_lobby close HasHall ◌>>=◌
close-hall h none s e = e
close-hall h (some i) s e = e

module _ (elo_delta : EloDelta) where
  abbrev outcome_of : ℕ → ℕ → Hall → EloOutcome
  outcome_of winner loser h = ranked_outcome elo_delta (points_of winner h) (points_of loser h)

  -- The hall after a ranked match.
  abbrev ranked_hall : ℕ → ℕ → Hall → Hall
  ranked_hall winner loser h =
      (add_rank_points loser (outcome_of winner loser h).loser_delta
        (add_rank_points winner (outcome_of winner loser h).winner_delta h).1).1

  reward-hall :
      (winner loser : ℕ) (g : CaroGame) (s : Match)
      → is_ranked g.mode ≡ true
      → After (HasHall (ranked_hall winner loser s.hall)) (reward_winner elo_delta winner loser g) s
  unfolding reward_winner
  reward-hall winner loser g s points =
      rw points (After-gets (HasHall _) _ _ s (change-hall winner _ loser _ s))

  finish-hall :
      (winner : ℕ) (reason : CaroEndReason) (s : Match)
      → is_ranked s.game.mode ≡ true
      → After
          (HasHall (ranked_hall winner (opponent_of s.game winner) s.hall))
          (finish elo_delta winner reason)
          s
  unfolding finish clear_timer close_room_of
  finish-hall winner reason s points =
      let h = ranked_hall winner (opponent_of s.game winner) s.hall in
      let P = HasHall h in
      After-modify P _ _ s (
        After-gets P _ _ _ (
          After-modify P _ _ _ (
            After-then P (reward_winner elo_delta winner (opponent_of s.game winner) s.game) _ _
              (reward-hall winner (opponent_of s.game winner) s.game _ points)
              (λ _ t q. After-gets P _ _ t (close-hall h t.game.room_id t q)))))

  finish_hall_eq :
      (winner : ℕ) (reason : CaroEndReason) (s : Match)
      → is_ranked s.game.mode ≡ true
      → (finish elo_delta winner reason s).1.hall
        ≡ ranked_hall winner (opponent_of s.game winner) s.hall
  unfolding HasHall
  finish_hall_eq = finish-hall

  gains : (winner loser : ℕ) (h : Hall) → pos 1 ≤ℤ (outcome_of winner loser h).winner_delta
  unfolding ranked_outcome
  gains winner loser h = ground arith

  loses : (winner loser : ℕ) (h : Hall) → (outcome_of winner loser h).loser_delta ≤ℤ negsuc 0
  unfolding ranked_outcome
  loses winner loser h = ground arith

  -- A ranked match raises the points of the winner and takes points from the loser who has any,
  -- whatever the rating formula gives.
  pub finish_ranked_moves_points :
      (winner : ℕ) (reason : CaroEndReason) (s : Match) (p q : Profile)
      → is_ranked s.game.mode ≡ true
      → winner ≢ opponent_of s.game winner
      → find_profile winner s.hall.profiles ≡ some p
      → find_profile (opponent_of s.game winner) s.hall.profiles ≡ some q
      → let h = (finish elo_delta winner reason s).1.hall in
        (points_of winner s.hall < points_of winner h)
        × (points_of (opponent_of s.game winner) h
            ≤ points_of (opponent_of s.game winner) s.hall - 1)
  finish_ranked_moves_points winner reason s p q points two found_p found_q =
      let loser = opponent_of s.game winner in
      rw (finish_hall_eq winner reason s points) (
        two_moves winner loser _ _ s.hall p q two (gains winner loser s.hall)
          (loses winner loser s.hall) found_p found_q)
