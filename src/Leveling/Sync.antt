-- ===== src/Leveling/Sync.antt =====
-- What experience and rank points do to the profiles, and what is announced of it.
use backend_htssclub.Base.{
  ℕ, ◌+◌, ◌≡◌, ◌≤◌, refl, sym, ◌∙◌, inl, inr, Bool-cases, Option-cases, true, false, none, some,
  List, [], ◌∷◌, arith, ltb, leb, ◌==◌, if◌then◌else◌,
}
use backend_htssclub.Base.Int.{pos, ◌+ℤ◌, eqb_ℤ}
use backend_htssclub.Common.Action.{Action, pure, ◌>>=◌, ◌>>◌}
use backend_htssclub.Common.Action.Keeps.{Keeps, Keeps-bind, Keeps-modify, Keeps-pure, keeps_rules}
use backend_htssclub.Common.Action.After.{After-then}
use backend_htssclub.Leveling.Levels.{level_from_xp, level_progress}
use backend_htssclub.Leveling.Ranks.{RankInfo, rank_from_rp, ladder, apex_gain_moves_ladder}
use backend_htssclub.Leveling.Service.{
  Profile, Hall, LevelEvent, LevelNotice, XpResult, xp_changed, server_level_up, rank_promoted,
  rank_changed, rank_up_notice, find_profile, update_profile, change_profile, emit, notify,
  emit_to_servers, celebrate, gain_xp, reconcile_level, add_xp, add_rank_points, move_points,
  announce_rank, moved_points,
}

find_profile-id : (i : ℕ) (ps : List Profile) (p : Profile) → find_profile i ps ≡ some p → p.id ≡ i
unfolding find_profile
find_profile-id i [] p e = cc
find_profile-id i (q ∷ ps) p e = elim (Bool-cases (q.id == i)) [
  | inl yes_q ↦
      let found : some q ≡ some p = rw yes_q at e in
      let same : q ≡ p = cc in rw (← same) (ground arith)
  | inr no_q ↦ find_profile-id i ps p (rw no_q at e)
]

-- Looking up after an update.
find-update :
    (i j : ℕ) (f : Profile → Profile) (ps : List Profile)
    → ((p : Profile) → (f p).id ≡ p.id)
    → find_profile j (update_profile i f ps) ≡ (
        if i == j
        then elim (find_profile i ps) [ none ↦ none | some p ↦ some (f p) ]
        else find_profile j ps)
unfolding find_profile update_profile
find-update i j f [] h = ground arith
find-update i j f (p ∷ ps) h = ground (arith, h p, find-update i j f ps h)

-- The level that is stored is the level of the experience.
abbrev pub AreSynced : List Profile → Type 0
AreSynced [] = Unit
AreSynced (p ∷ ps) = (p.level ≡ level_from_xp p.xp) × AreSynced ps

-- What is sent and stored beside the profiles leaves them alone.
module _ (ps : List Profile) where
  abbrev Untouched : Hall → Type 0
  Untouched h = h.profiles ≡ ps

  emit-Keeps : (e : LevelEvent) → Keeps Untouched (emit e)
  unfolding emit
  emit-Keeps e = Keeps-modify _ (λ h p. p)

  notify-Keeps : (n : LevelNotice) → Keeps Untouched (notify n)
  unfolding notify
  notify-Keeps n = Keeps-modify _ (λ h p. p)

  servers-Keeps : (u level : ℕ) (ss : List ℕ) → Keeps Untouched (emit_to_servers u level ss)
  unfolding emit_to_servers
  servers-Keeps u level [] = Keeps-pure tt
  servers-Keeps u level (s ∷ ss) =
      Keeps-bind _ _ (emit-Keeps (server_level_up s u level)) (λ _. servers-Keeps u level ss)

  celebrate-Keeps : (u level previous : ℕ) → Keeps Untouched (celebrate u level previous)
  unfolding celebrate
  celebrate-Keeps u level previous =
      search (keeps_rules, emit-Keeps, notify-Keeps, servers-Keeps) depth 9

  announce-Keeps : (u : ℕ) (r q : RankInfo) → Keeps Untouched (announce_rank u r q)
  unfolding announce_rank
  announce-Keeps u r q = search (keeps_rules, emit-Keeps, notify-Keeps) depth 9

-- The document after `$inc` and the level that follows.
abbrev leveled : ℕ → Profile → Profile
leveled amount p = record p { xp = p.xp + amount; level = level_from_xp (p.xp + amount) }

-- The end of `addXp`, once the level is stored.
told : Profile → ℕ → Action Hall XpResult
told p amount = do
  emit (xp_changed p.id (level_progress p.xp) amount)
  if ltb p.level (level_from_xp p.xp) then celebrate p.id (level_from_xp p.xp) p.level else pure tt
  pure (record {
    level = level_from_xp p.xp;
    xp = p.xp;
    leveled_up = ltb p.level (level_from_xp p.xp);
  })

told-Keeps : (ps : List Profile) (p : Profile) (amount : ℕ) → Keeps (Untouched ps) (told p amount)
unfolding told
told-Keeps ps p amount = search (keeps_rules, emit-Keeps ps, celebrate-Keeps ps) depth 9

set_level : Profile → Profile → Profile
set_level p q = record q { level = level_from_xp p.xp }

reconcile_profiles :
    (p : Profile) (amount : ℕ) (h : Hall)
    → (reconcile_level p amount h).1.profiles ≡ (
        if level_from_xp p.xp == p.level
        then h.profiles
        else update_profile p.id (set_level p) h.profiles)
unfolding reconcile_level change_profile told set_level ◌>>=◌
reconcile_profiles p amount h = elim (Bool-cases (level_from_xp p.xp == p.level)) [
  | inl level_fits ↦ rw (level_fits, reconcile_level) ((told-Keeps h.profiles p amount).at h refl)
  | inr level_off ↦
      rw (level_off, reconcile_level)
        ((told-Keeps (update_profile p.id (set_level p) h.profiles) p amount).at
          (record h { profiles = update_profile p.id (set_level p) h.profiles }) refl)
]

module _ (u a : ℕ) where
  gain-missing :
      (ps : List Profile) → find_profile u ps ≡ none → update_profile u (gain_xp a) ps ≡ ps
  unfolding find_profile update_profile
  gain-missing [] e = refl
  gain-missing (q ∷ ps) e = ground (arith, gain-missing ps)

  gain-AreSynced :
      (ps : List Profile) (p : Profile)
      → find_profile u ps ≡ some p
      → level_from_xp (p.xp + a) ≡ p.level
      → AreSynced ps
      → AreSynced (update_profile u (gain_xp a) ps)
  unfolding find_profile update_profile
  gain-AreSynced [] p e l s = tt
  gain-AreSynced (q ∷ ps) p e l s = elim (Bool-cases (q.id == u)) [
    | inl yes_q ↦
        let found : some q ≡ some p = rw yes_q at e in
        let same : q ≡ p = cc in rw yes_q (rw same (sym l), s.1)
    | inr no_q ↦ rw no_q (s.0, gain-AreSynced ps p (rw no_q at e) l s.1)
  ]

  set-AreSynced :
      (ps : List Profile) (p : Profile)
      → find_profile u ps ≡ some p
      → AreSynced ps
      → AreSynced (update_profile u (set_level (gain_xp a p)) (update_profile u (gain_xp a) ps))
  unfolding find_profile update_profile set_level
  set-AreSynced [] p e s = tt
  set-AreSynced (q ∷ ps) p e s = elim (Bool-cases (q.id == u)) [
    | inl yes_q ↦
        let found : some q ≡ some p = rw yes_q at e in
        let same : q ≡ p = cc in rw (yes_q, yes_q) (rw same refl, s.1)
    | inr no_q ↦ rw (no_q, no_q) (s.0, set-AreSynced ps p (rw no_q at e) s.1)
  ]

  find-gain :
      (ps : List Profile) (p : Profile)
      → find_profile u ps ≡ some p
      → find_profile u (update_profile u (gain_xp a) ps) ≡ some (gain_xp a p)
  find-gain ps p e = find-update u u (gain_xp a) ps (λ q. refl) ∙ ground (arith, e)

  set_there :
      (i : ℕ) (ps : List Profile) (p : Profile)
      → i ≡ u
      → find_profile u ps ≡ some p
      → AreSynced ps
      → AreSynced (update_profile i (set_level (gain_xp a p)) (update_profile u (gain_xp a) ps))
  set_there i ps p same e s = rw same (set-AreSynced ps p e s)

  reconciled_either :
      (ps : List Profile) (p : Profile)
      → find_profile u ps ≡ some p
      → AreSynced ps
      → AreSynced (
          if level_from_xp (p.xp + a) == p.level
          then update_profile u (gain_xp a) ps
          else update_profile p.id (set_level (gain_xp a p)) (update_profile u (gain_xp a) ps))
  reconciled_either ps p e s = elim (Bool-cases (level_from_xp (p.xp + a) == p.level)) [
    | inl fits ↦ rw fits (gain-AreSynced ps p e (ground arith) s)
    | inr off ↦ rw off (set_there p.id ps p (find_profile-id u ps p e) e s)
  ]

  -- Experience keeps every stored level the level of the experience, whoever gains it.
  pub add_xp-AreSynced : (h : Hall) → AreSynced h.profiles → AreSynced (add_xp u a h).1.profiles
  unfolding add_xp change_profile ◌>>=◌
  add_xp-AreSynced h s = elim (Bool-cases (leb a 0)) [
    | inl nothing ↦ rw nothing s
    | inr gains ↦ elim (Option-cases (find_profile u h.profiles)) [
      | inl missing ↦ rw (gains, gain-missing h.profiles missing, missing) s
      | inr (p, e) ↦
          let g = gain_xp a p in
          let h' = record h { profiles = update_profile u (gain_xp a) h.profiles } in
          rw (gains, find-gain h.profiles p e)
            (After-then (λ (t : Hall). AreSynced t.profiles) (reconcile_level g a) _ h'
              (rw (reconcile_profiles g a h') (reconciled_either h.profiles p e s)) (λ x t q. q))
    ]
  ]

moved_gain : (a d : ℕ) → moved_points a (pos d) ≡ a + d
unfolding ◌+ℤ◌
moved_gain a d = ground arith

-- In the apex tiers a gain of points that stays inside the tier is announced as a promotion, from
-- a rank to a rank of the same tier, and stored as one.
pub apex_gain_announces_promotion :
    (u d : ℕ) (h : Hall) (p : Profile)
    → find_profile u h.profiles ≡ some p
    → 2000 ≤ p.rank_points
    → 1 ≤ d
    → (rank_from_rp (p.rank_points + d)).tier_index ≡ (rank_from_rp p.rank_points).tier_index
    → let r = rank_from_rp p.rank_points in
      let r' = rank_from_rp (p.rank_points + d) in
      ((add_rank_points u (pos d) h).1.events
        ≡ rank_promoted u r r' ∷ rank_changed u r' (pos d) ∷ h.events)
      × ((add_rank_points u (pos d) h).1.notices ≡ rank_up_notice u r' ∷ h.notices)
unfolding add_rank_points move_points change_profile emit notify announce_rank ◌+ℤ◌ ◌>>=◌
apex_gain_announces_promotion u d h p e top gain same =
    let moves = apex_gain_moves_ladder p.rank_points (p.rank_points + d) top (omega arith) same in
    let up : ltb (ladder (rank_from_rp p.rank_points)) (ladder (rank_from_rp (p.rank_points + d)))
        ≡ true =
      ground arith in
    let some_gain : eqb_ℤ (pos d) (pos 0) ≡ false = ground arith in
    rw (some_gain, e, moved_gain p.rank_points d, announce_rank, up) (refl, refl)
