-- ===== src/Leveling/Service.antt =====
-- src/leveling/leveling.service.ts: experience and rank points of a user, with what is announced.
use backend_htssclub.Base.{
  ℕ, ◌+◌, Bool, not, Option, none, some, List, [], ◌∷◌, ltb, leb, ◌==◌, if◌then◌else◌,
}
use backend_htssclub.Base.Int.{ℤ, pos, pos_part, ◌+ℤ◌, eqb_ℤ}
use backend_htssclub.Common.Action.{Action, pure, gets, modify, ◌>>=◌, ◌>>◌}
use backend_htssclub.Leveling.Levels.{level_from_xp, LevelProgress, level_progress}
use backend_htssclub.Leveling.Ranks.{RankInfo, rank_from_rp, ladder}

-- The fields of a user document that levels and ranks concern.
pub record Profile : Type 0 where
  pub id : ℕ
  pub xp : ℕ
  pub level : ℕ
  pub rank_points : ℕ
  pub coins : ℕ

-- What is sent over the sockets,
pub data LevelEvent : Type 0 where
  xp_changed : ℕ → LevelProgress → ℕ → LevelEvent
  level_up : ℕ → ℕ → ℕ → LevelEvent
  server_level_up : ℕ → ℕ → ℕ → LevelEvent
  rank_changed : ℕ → RankInfo → ℤ → LevelEvent
  rank_promoted rank_demoted : ℕ → RankInfo → RankInfo → LevelEvent

-- and stored as a notification.
pub data LevelNotice : Type 0 where
  level_up_notice : ℕ → ℕ → LevelNotice
  rank_up_notice : ℕ → RankInfo → LevelNotice

-- `memberships` are the pairs of a server and a member.
pub record Hall : Type 0 where
  pub profiles : List Profile
  pub events : List LevelEvent
  pub notices : List LevelNotice
  pub memberships : List (ℕ × ℕ)

unfoldable pub find_profile : ℕ → List Profile → Option Profile
find_profile i [] = none
find_profile i (p ∷ ps) = if p.id == i then some p else find_profile i ps

unfoldable pub update_profile : ℕ → (Profile → Profile) → List Profile → List Profile
update_profile i f [] = []
update_profile i f (p ∷ ps) = if p.id == i then f p ∷ ps else p ∷ update_profile i f ps

unfoldable pub change_profile : ℕ → (Profile → Profile) → Action Hall (Unit {0})
change_profile i f = modify (λ h. record h { profiles = update_profile i f h.profiles })

unfoldable pub emit : LevelEvent → Action Hall (Unit {0})
emit e = modify (λ h. record h { events = e ∷ h.events })

unfoldable pub notify : LevelNotice → Action Hall (Unit {0})
notify n = modify (λ h. record h { notices = n ∷ h.notices })

-- `serverIdsOf`
unfoldable pub server_ids_of : ℕ → List (ℕ × ℕ) → List ℕ
server_ids_of u [] = []
server_ids_of u ((server, member) ∷ ms) =
    let rest = server_ids_of u ms in if member == u then server ∷ rest else rest

unfoldable pub emit_to_servers : ℕ → ℕ → List ℕ → Action Hall (Unit {0})
emit_to_servers u level [] = pure tt
emit_to_servers u level (s ∷ ss) = emit (server_level_up s u level) >> emit_to_servers u level ss

unfoldable pub celebrate : ℕ → ℕ → ℕ → Action Hall (Unit {0})
celebrate u level previous = do
  emit (level_up u level previous)
  h ← gets (λ h. h)
  emit_to_servers u level (server_ids_of u h.memberships)
  notify (level_up_notice u level)

-- What `addXp` returns.
pub record XpResult : Type 0 where
  pub level : ℕ
  pub xp : ℕ
  pub leveled_up : Bool

abbrev pub gain_xp : ℕ → Profile → Profile
gain_xp amount p = record p { xp = p.xp + amount }

-- `addXp` from the updated document on.
unfoldable pub reconcile_level : Profile → ℕ → Action Hall XpResult
reconcile_level updated amount = do
  if not (level_from_xp updated.xp == updated.level)
      then change_profile updated.id (λ p. record p { level = level_from_xp updated.xp })
      else pure tt
  emit (xp_changed updated.id (level_progress updated.xp) amount)
  if ltb updated.level (level_from_xp updated.xp)
      then celebrate updated.id (level_from_xp updated.xp) updated.level
      else pure tt
  pure (record {
    level = level_from_xp updated.xp;
    xp = updated.xp;
    leveled_up = ltb updated.level (level_from_xp updated.xp);
  })

unfoldable pub add_xp : ℕ → ℕ → Action Hall (Option XpResult)
add_xp u amount = if leb amount 0 then pure none else do
  change_profile u (gain_xp amount)
  updated ← gets (λ h. find_profile u h.profiles)
  elim updated [
    | none ↦ pure none
    | some p ↦ do result ← reconcile_level p amount; pure (some result)
  ]

-- The promotion or demotion that a change of points is announced as.
unfoldable pub announce_rank : ℕ → RankInfo → RankInfo → Action Hall (Unit {0})
announce_rank u before after =
    if ltb (ladder before) (ladder after)
    then (emit (rank_promoted u before after) >> notify (rank_up_notice u after))
    else if ltb (ladder after) (ladder before)
    then emit (rank_demoted u before after)
    else pure tt

-- `Math.max(0, prevRp + delta)`
abbrev pub moved_points : ℕ → ℤ → ℕ
moved_points before delta = pos_part (pos before +ℤ delta)

-- `addRankPoints` on the document that it found.
unfoldable pub move_points : ℕ → ℤ → Option Profile → Action Hall (Option ℕ)
move_points u delta none = pure none
move_points u delta (some p) = do
  change_profile u (λ q. record q { rank_points = moved_points p.rank_points delta })
  emit (rank_changed u (rank_from_rp (moved_points p.rank_points delta)) delta)
  announce_rank u (rank_from_rp p.rank_points) (rank_from_rp (moved_points p.rank_points delta))
  pure (some (moved_points p.rank_points delta))

unfoldable pub add_rank_points : ℕ → ℤ → Action Hall (Option ℕ)
add_rank_points u delta =
    if eqb_ℤ delta (pos 0)
    then pure none
    else do before ← gets (λ h. find_profile u h.profiles); move_points u delta before

-- `getProgress` and `getRank`
unfoldable pub get_progress : ℕ → Hall → LevelProgress
get_progress u h = elim (find_profile u h.profiles) [
  | none ↦ level_progress 0
  | some p ↦ level_progress p.xp
]

unfoldable pub get_rank : ℕ → Hall → RankInfo
get_rank u h = elim (find_profile u h.profiles) [
  | none ↦ rank_from_rp 0
  | some p ↦ rank_from_rp p.rank_points
]
