-- ===== src/Caro/Elo.antt =====
-- src/games/caro/elo.util.ts: rank points for a won, lost or drawn match. The power of ten in
-- `eloDelta` is arithmetic on floating point numbers, so the delta is a parameter.
use backend_htssclub.Base.{ℕ, if◌then◌else◌}
use backend_htssclub.Base.Int.{ℤ, pos, negsuc, leb_ℤ}

-- The score of a match from one side.
pub data Score : Type 0 where
  won lost half : Score

-- `eloDelta(ratingA, ratingB, scoreA)`
abbrev pub EloDelta : Type 0
EloDelta = ℕ → ℕ → Score → ℤ

pub record EloOutcome : Type 0 where
  pub winner_delta : ℤ
  pub loser_delta : ℤ

abbrev pub max_ℤ : ℤ → ℤ → ℤ
max_ℤ a b = if leb_ℤ a b then b else a

abbrev pub min_ℤ : ℤ → ℤ → ℤ
min_ℤ a b = if leb_ℤ a b then a else b

module _ (elo_delta : EloDelta) where
  unfoldable pub ranked_outcome : ℕ → ℕ → EloOutcome
  ranked_outcome winner_rp loser_rp = record {
    winner_delta = max_ℤ (pos 1) (elo_delta winner_rp loser_rp won);
    loser_delta = min_ℤ (negsuc 0) (elo_delta loser_rp winner_rp lost);
  }

  unfoldable pub draw_outcome : ℕ → ℕ → ℤ × ℤ
  draw_outcome rp_a rp_b = (elo_delta rp_a rp_b half, elo_delta rp_b rp_a half)
