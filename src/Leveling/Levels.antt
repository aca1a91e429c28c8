-- ===== src/Leveling/Levels.antt =====
-- src/leveling/level.util.ts: the curve of experience, and what a level asks for.
use backend_htssclub.Base.{
  ◌==◌, ℕ, zero, suc, ◌+◌, ◌-◌, ◌*◌, ◌/◌, ◌≤◌, ◌<◌, ◌≡◌, refl, inl, inr, Bool-cases, arith, leb,
  ltb, if◌then◌else◌, max, min,
}

-- `totalXpForLevel`
unfoldable pub total_xp_for_level : ℕ → ℕ
total_xp_for_level level = if leb level 1 then 0 else 50 * level * (level - 1)

-- The whole part of `Math.sqrt`.
unfoldable pub floor_sqrt : ℕ → ℕ
floor_sqrt zero = 0
floor_sqrt (suc n) = let s = floor_sqrt n in if leb ((s + 1) * (s + 1)) (suc n) then s + 1 else s

-- `levelFromXp`: `Math.floor((50 + Math.sqrt(x)) / 100)` depends on the whole part of the root only.
unfoldable pub level_from_xp : ℕ → ℕ
level_from_xp xp = if leb xp 0 then 1 else max 1 ((50 + floor_sqrt (2500 + 200 * xp)) / 100)

-- The fields of `LevelTierStyle` that are computed; the look of a bracket is a table.
pub record Bracket : Type 0 where
  pub bracket : ℕ
  pub min_level : ℕ
  pub max_level : ℕ

-- `levelStyle`, over the eleven brackets; the last one ends at `Number.MAX_SAFE_INTEGER`.
unfoldable pub level_style : ℕ → Bracket
level_style level =
    let bracket = min ((max 1 level - 1) / 10) 10 in
    record {
      bracket = bracket;
      min_level = bracket * 10 + 1;
      max_level = if bracket == 10 then 9007199254740991 else (bracket + 1) * 10;
    }

pub record LevelProgress : Type 0 where
  pub level : ℕ
  pub xp : ℕ
  pub xp_into_level : ℕ
  pub xp_for_next_level : ℕ
  pub xp_to_next_level : ℕ
  pub style : Bracket

-- `levelProgress`; the fraction is `xp_into_level` over `xp_for_next_level`.
unfoldable pub level_progress : ℕ → LevelProgress
level_progress xp =
    let level = level_from_xp xp in
    let base = total_xp_for_level level in
    let next = total_xp_for_level (level + 1) in
    record {
      level = level;
      xp = xp;
      xp_into_level = xp - base;
      xp_for_next_level = next - base;
      xp_to_next_level = next - xp;
      style = level_style level;
    }

square_mono : (a b : ℕ) → a ≤ b → a * a ≤ b * b
square_mono a b h = grind arith

square_lt : (a b : ℕ) → a * a < b * b → a < b
square_lt a b h = elim (Bool-cases (ltb a b)) [
  | inl below ↦ ground arith
  | inr above ↦ absurd (omega (arith, square_mono b a (ground arith)))
]

pub floor_sqrt_lem :
    (n : ℕ) → (floor_sqrt n * floor_sqrt n ≤ n) × (n < (floor_sqrt n + 1) * (floor_sqrt n + 1))
unfolding floor_sqrt
floor_sqrt_lem zero = omega arith
floor_sqrt_lem (suc n) = grind (arith, floor_sqrt_lem n)

-- The curve, with no subtraction.
total-step : (l : ℕ) → total_xp_for_level (l + 1) ≡ 50 * (l * l) + 50 * l
unfolding total_xp_for_level
total-step l = grind arith

total-at : (l : ℕ) → 1 ≤ l → total_xp_for_level l + 50 * l ≡ 50 * (l * l)
unfolding total_xp_for_level
total-at zero h = absurd (omega arith)
total-at (suc l) h = grind arith

-- The level that the root gives, as bounds on squares.
root_bounds :
    (l s x : ℕ)
    → l ≡ (50 + s) / 100
    → s * s ≤ 2500 + 200 * x
    → 2500 + 200 * x < (s + 1) * (s + 1)
    → 1 ≤ l
    → (50 * (l * l) ≤ x + 50 * l) × (x < 50 * (l * l) + 50 * l)
root_bounds l s x e lo hi pos_l =
    let below : 100 * l - 50 ≤ s = omega arith in
    let above : s + 1 ≤ 100 * l + 50 = omega arith in
    let k = 100 * l - 50 in
    let low : k * k ≤ s * s = square_mono k s below in
    let high : (s + 1) * (s + 1) ≤ (100 * l + 50) * (100 * l + 50) =
      square_mono (s + 1) (100 * l + 50) above in
    let shape : k + 50 ≡ 100 * l = omega arith in
    let squared : (k + 50) * (k + 50) ≡ 100 * l * (100 * l) = rw shape refl in
    (grind arith, grind arith)

-- A level is reached exactly from its total on, and below the total of the next one.
pub level_from_xp_lem :
    (xp : ℕ)
    → (1 ≤ level_from_xp xp)
      × (total_xp_for_level (level_from_xp xp) ≤ xp)
      × (xp < total_xp_for_level (level_from_xp xp + 1))
unfolding level_from_xp
level_from_xp_lem zero = unfold total_xp_for_level in omega arith
level_from_xp_lem (suc n) =
    let s = floor_sqrt (2500 + 200 * suc n) in
    let (lo, hi) = floor_sqrt_lem (2500 + 200 * suc n) in
    let l = (50 + s) / 100 in
    let fifty : 50 < s + 1 = square_lt 50 (s + 1) (omega arith) in
    let one : 1 ≤ l = omega arith in
    let (below, above) = root_bounds l s (suc n) refl lo hi one in
    ground (arith, total-at l one, total-step l)

total_mono : (a b : ℕ) → a ≤ b → total_xp_for_level a ≤ total_xp_for_level b
unfolding total_xp_for_level
total_mono zero b h = omega arith
total_mono (suc a) zero h = absurd (omega arith)
total_mono (suc a) (suc b) h = let low : a ≤ b = omega arith in grind (arith, square_mono a b low)

-- Only one level fits.
pub level_from_xp_unique :
    (xp l : ℕ)
    → 1 ≤ l
    → total_xp_for_level l ≤ xp
    → xp < total_xp_for_level (l + 1)
    → level_from_xp xp ≡ l
level_from_xp_unique xp l one lo hi =
    let (one', lo', hi') = level_from_xp_lem xp in
    let k = level_from_xp xp in
    elim (Bool-cases (ltb l k)) [
      | inl less ↦ absurd (omega (arith, total_mono (l + 1) k (ground arith)))
      | inr more ↦ elim (Bool-cases (ltb k l)) [
        | inl less ↦ absurd (omega (arith, total_mono (k + 1) l (ground arith)))
        | inr same ↦ ground arith
      ]
    ]

-- The experience that a level asks for gives that level, and one point less the level before.
pub level_from_xp-total :
    (l : ℕ)
    → 1 ≤ l
    → (level_from_xp (total_xp_for_level l) ≡ l)
      × (level_from_xp (total_xp_for_level (l + 1) - 1) ≡ l)
level_from_xp-total l one =
    let step : total_xp_for_level l < total_xp_for_level (l + 1) =
      omega (arith, total-at l one, total-step l) in
    (
      level_from_xp_unique (total_xp_for_level l) l one (omega arith) step,
      level_from_xp_unique (total_xp_for_level (l + 1) - 1) l one (omega arith) (omega arith),
    )

-- More experience never lowers the level.
pub level_from_xp_mono : (a b : ℕ) → a ≤ b → level_from_xp a ≤ level_from_xp b
level_from_xp_mono a b h =
    let (one, lo, hi) = level_from_xp_lem a in
    let (one', lo', hi') = level_from_xp_lem b in
    elim (Bool-cases (ltb (level_from_xp b) (level_from_xp a))) [
      | inl less ↦
          absurd (omega (arith, total_mono (level_from_xp b + 1) (level_from_xp a) (ground arith)))
      | inr more ↦ ground arith
    ]

-- The progress inside a level: its two parts add up to the span of the level, which is never
-- empty, and the next level is never reached.
pub level_progress_lem :
    (xp : ℕ)
    → let p = level_progress xp in
      (p.xp_into_level + p.xp_to_next_level ≡ p.xp_for_next_level)
      × (p.xp_into_level < p.xp_for_next_level)
      × (total_xp_for_level p.level + p.xp_into_level ≡ xp)
unfolding level_progress
level_progress_lem xp = omega (arith, level_from_xp_lem xp)
