-- ===== src/Leveling/Tests.antt =====
-- Levels, ranks and leaderboards at concrete inputs.
use backend_htssclub.Base.{ℕ, ◌+◌, ◌≡◌, ◌≤◌, ◌<◌, refl, some, [], ◌∷◌, arith, suc, get_elem?}
use backend_htssclub.Leveling.Levels.{
  total_xp_for_level, floor_sqrt, level_from_xp, level_from_xp_lem,
}
use backend_htssclub.Leveling.Service.{Profile, Hall, find_profile}
use backend_htssclub.Leveling.Board.{
  coins, entry, leaderboard, my_rank, count_before, before, my_rank_on_leaderboard,
}

abbrev player : ℕ → ℕ → ℕ → ℕ → ℕ → Profile
player i xp level points money = record {
  id = i;
  xp = xp;
  level = level;
  rank_points = points;
  coins = money;
}

-- The third player reached the master tier.
abbrev hall : Hall
hall = record {
  profiles = player 1 0 1 0 50 ∷ player 2 120 2 410 80 ∷ player 3 90 1 2100 50 ∷ [];
  events = [];
  notices = [];
  memberships = (7, 2) ∷ (7, 3) ∷ [];
}

curve : total_xp_for_level 5 ≡ 1000
unfolding total_xp_for_level
curve = refl

level_of_120 : level_from_xp 120 ≡ 2
unfolding level_from_xp
level_of_120 = unfold floor_sqrt in refl

level_from_xp_lem_example :
    (1 ≤ level_from_xp 120)
    × (total_xp_for_level (level_from_xp 120) ≤ 120)
    × (120 < total_xp_for_level (level_from_xp 120 + 1))
level_from_xp_lem_example = level_from_xp_lem 120

my_rank_on_leaderboard_example :
    (j : ℕ) × (3 ≡ suc j)
    × (get_elem? (leaderboard coins 50 hall) j ≡ some (entry coins 3 (player 3 90 1 2100 50)))
my_rank_on_leaderboard_example =
    my_rank_on_leaderboard 3 50 coins hall (entry coins 3 (player 3 90 1 2100 50))
      (unfold find_profile in (refl, (refl, (refl, tt))))
      (unfold my_rank find_profile count_before before in refl) (omega arith)
