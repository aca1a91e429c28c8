-- ===== src/Leveling/Ranks.antt =====
-- src/leveling/rank.util.ts: the tiers and divisions of rank points, and the ladder index that
-- src/leveling/leveling.service.ts compares.
use backend_htssclub.Base.{
  ℕ, ◌+◌, ◌-◌, ◌*◌, ◌/◌, ◌≤◌, ◌<◌, ◌≡◌, inl, inr, Bool, Bool-cases, true, false, arith, ltb,
  if◌then◌else◌, List, [], ◌∷◌, get_or,
}

pub data RankTier : Type 0 where
  bronze silver gold platinum diamond master grandmaster challenger : RankTier

abbrev pub division_rp : ℕ
division_rp = 100

abbrev pub tier_rp : ℕ
tier_rp = 400

abbrev pub tiered_rp : ℕ
tiered_rp = 2000

abbrev pub apex_band : ℕ
apex_band = 500

abbrev pub tiered : List RankTier
tiered = bronze ∷ silver ∷ gold ∷ platinum ∷ diamond ∷ []

-- `RankInfo`, without the texts and the look, which depend on the tier and the division.
pub record RankInfo : Type 0 where
  pub tier : RankTier
  pub tier_index : ℕ
  pub division : ℕ
  pub rp : ℕ
  pub rp_into_division : ℕ
  pub rp_for_next_step : ℕ
  pub rp_to_next_step : ℕ
  pub is_apex : Bool

unfoldable pub apex : RankTier → ℕ → ℕ → ℕ → ℕ → RankInfo
apex tier index rp into band = record {
  tier = tier;
  tier_index = index;
  division = 0;
  rp = rp;
  rp_into_division = into;
  rp_for_next_step = band;
  rp_to_next_step = if ltb 0 band then band - into else 0;
  is_apex = true;
}

unfoldable pub tiered_rank : ℕ → RankInfo
tiered_rank rp =
    let index = rp / tier_rp in
    let in_tier = rp - index * tier_rp in
    let from_bottom = in_tier / division_rp in
    let into = in_tier - from_bottom * division_rp in
    record {
      tier = get_or tiered index challenger;
      tier_index = index;
      division = 4 - from_bottom;
      rp = rp;
      rp_into_division = into;
      rp_for_next_step = division_rp;
      rp_to_next_step = division_rp - into;
      is_apex = false;
    }

-- `rankFromRp`
unfoldable pub rank_from_rp : ℕ → RankInfo
rank_from_rp rp =
    if ltb rp tiered_rp
    then tiered_rank rp
    else if ltb (rp - tiered_rp) apex_band
    then apex master 5 rp (rp - tiered_rp) apex_band
    else if ltb (rp - tiered_rp) (apex_band * 2)
    then apex grandmaster 6 rp (rp - tiered_rp - apex_band) apex_band
    else apex challenger 7 rp (rp - tiered_rp - apex_band * 2) 0

-- The ladder index of `addRankPoints`.
unfoldable pub ladder : RankInfo → ℕ
ladder r = r.tier_index * 1000 + (if r.is_apex then r.rp else (4 - r.division) * 100)

-- The bands, read off a rank: where it starts and how far its points reach into it.
abbrev pub band_start : RankInfo → ℕ
band_start r =
    if r.is_apex
    then 2000 + (r.tier_index - 5) * 500
    else r.tier_index * 400 + (4 - r.division) * 100

-- A rank is its band: the points are the start of the band and what reaches into it; a tiered
-- rank has one of four divisions of a hundred points in one of five tiers, and an apex rank has no
-- division.
pub rank_from_rp_lem :
    (rp : ℕ)
    → let r = rank_from_rp rp in
      (band_start r + r.rp_into_division ≡ rp)
      × (r.is_apex ≡ false
          → (r.tier_index < 5)
            × (1 ≤ r.division)
            × (r.division ≤ 4)
            × (r.rp_into_division + r.rp_to_next_step ≡ 100)
            × (1 ≤ r.rp_to_next_step))
      × (r.is_apex ≡ true → (r.division ≡ 0) × (5 ≤ r.tier_index) × (r.tier_index ≤ 7))
unfolding rank_from_rp tiered_rank apex
rank_from_rp_lem rp = elim (Bool-cases (ltb rp 2000)) [
  | inl low ↦ rw low (ground arith, (λ _. ground arith), λ h. ground arith)
  | inr high ↦ ground arith
]

-- More points never lower the ladder.
pub ladder_mono : (a b : ℕ) → a ≤ b → ladder (rank_from_rp a) ≤ ladder (rank_from_rp b)
unfolding ladder rank_from_rp tiered_rank apex
ladder_mono a b h = ground arith

-- In the apex tiers every gain moves the ladder, also inside one tier.
pub apex_gain_moves_ladder :
    (a b : ℕ)
    → 2000 ≤ a
    → a < b
    → (rank_from_rp b).tier_index ≡ (rank_from_rp a).tier_index
    → ladder (rank_from_rp a) < ladder (rank_from_rp b)
unfolding ladder rank_from_rp tiered_rank apex
apex_gain_moves_ladder a b top less same = ground arith
