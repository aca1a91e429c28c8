-- ===== src/TienLen/Combos.antt =====
-- What `identifyCombo` accepts: the combinations of the game, described independently of the code.
use backend_htssclub.Base.{
  ℕ, zero, suc, ◌+◌, ◌*◌, ◌≤◌, ◌≡◌, ◌≢◌, ◌↔◌, SameCounts, count_self, sort-eq_of_SameCounts, refl,
  sym, ap, ◌∙◌, inl, inr, true, false, some, List, [], ◌∷◌, map, arith, Bool-cases, length,
  length-map, length-sort, ◌==◌, ◌&&◌, leb, contains, all, sort,
}
use backend_htssclub.TienLen.Cards.{
  ComboType, single, pair, triple, straight, pair_straight, four, Combo, rank_of, all_same,
  consecutive, paired, pair_steps, is_straight, is_pair_straight, identify_sorted, identify_combo,
  of_run, of_same_rank, last_or_zero,
}

-- `r`, `r + 1`, … : `n` consecutive ranks.
abbrev pub run : ℕ → ℕ → List ℕ
run r zero = []
run r (suc n) = r ∷ run (r + 1) n

-- `r`, `r`, `r + 1`, `r + 1`, … : `n` consecutive pairs.
abbrev pub pair_run : ℕ → ℕ → List ℕ
pair_run r zero = []
pair_run r (suc n) = r ∷ r ∷ pair_run (r + 1) n

abbrev pub same : ℕ → ℕ → List ℕ
same r zero = []
same r (suc n) = r ∷ same r n

-- The combinations, by the ranks of their cards in ascending order. A run holds no two, whose
-- rank is 12.
pub data IsShape : ComboType → List ℕ → Type 0 where
  is_single : (r : ℕ) (rs : List ℕ) → rs ≡ same r 1 → IsShape single rs
  is_pair : (r : ℕ) (rs : List ℕ) → rs ≡ same r 2 → IsShape pair rs
  is_triple : (r : ℕ) (rs : List ℕ) → rs ≡ same r 3 → IsShape triple rs
  is_four : (r : ℕ) (rs : List ℕ) → rs ≡ same r 4 → IsShape four rs
  is_run :
      (r n : ℕ) (rs : List ℕ) → 3 ≤ n → contains 12 rs ≡ false → rs ≡ run r n → IsShape straight rs
  is_pair_run :
      (r n : ℕ) (rs : List ℕ)
      → 3 ≤ n
      → contains 12 rs ≡ false
      → rs ≡ pair_run r n
      → IsShape pair_straight rs

all-same : (r : ℕ) (rs : List ℕ) → all (λ x. x == r) rs ≡ true → rs ≡ same r (length rs)
all-same r [] h = refl
all-same r (x ∷ rs) h = ground (arith, all-same r rs)

consecutive-run :
    (r : ℕ) (rs : List ℕ) → consecutive (r ∷ rs) ≡ true → r ∷ rs ≡ run r (suc (length rs))
unfolding consecutive
consecutive-run r [] h = refl
consecutive-run r (x ∷ rs) h = ground (arith, consecutive-run x rs)

run-consecutive : (r n : ℕ) → consecutive (run r n) ≡ true
unfolding consecutive
run-consecutive r zero = refl
run-consecutive r (suc zero) = refl
run-consecutive r (suc (suc n)) = ground (arith, run-consecutive (r + 1) (suc n))

pairs-run :
    (r : ℕ) (rs : List ℕ)
    → paired (r ∷ rs) ≡ true
    → pair_steps (r ∷ rs) ≡ true
    → (k : ℕ) × (length (r ∷ rs) ≡ k * 2) × (r ∷ rs ≡ pair_run r k)
unfolding paired pair_steps
pairs-run r [] p s = ground arith
pairs-run r (x ∷ []) p s = (1, omega arith, ground arith)
pairs-run r (x ∷ y ∷ rs) p s =
    let (k, even, e) = pairs-run y rs (ground arith) (ground arith) in
    (suc k, omega arith, ground arith)

pair_run-paired : (r n : ℕ) → paired (pair_run r n) ≡ true
unfolding paired
pair_run-paired r zero = refl
pair_run-paired r (suc n) = ground (arith, pair_run-paired (r + 1) n)

pair_run-steps : (r n : ℕ) → pair_steps (pair_run r n) ≡ true
unfolding pair_steps
pair_run-steps r zero = refl
pair_run-steps r (suc zero) = refl
pair_run-steps r (suc (suc n)) = ground (arith, pair_run-steps (r + 1) (suc n))

-- The record that `identifyCombo` builds.
abbrev pub combo_of : ComboType → List ℕ → Combo
combo_of t sorted = record {
  type = t;
  cards = sorted;
  rank_value = last_or_zero sorted;
  length = length sorted;
}

-- What an accepted combination is.
abbrev Accepted : List ℕ → Combo → Type 0
Accepted sorted c = (t : ComboType) × (c ≡ combo_of t sorted) × IsShape t (map rank_of sorted)

same_rank_sound :
    (r : ℕ) (xs : List ℕ) (c : Combo)
    → map rank_of xs ≡ same r (length xs)
    → of_same_rank xs (length xs) (last_or_zero xs) ≡ some c
    → Accepted xs c
same_rank_sound r [] c e h = ground arith
same_rank_sound r (a ∷ []) c e h = (single, ground arith, is_single r _ e)
same_rank_sound r (a ∷ b ∷ []) c e h = (pair, ground arith, is_pair r _ e)
same_rank_sound r (a ∷ b ∷ d ∷ []) c e h = (triple, ground arith, is_triple r _ e)
same_rank_sound r (a ∷ b ∷ d ∷ f ∷ []) c e h = (four, ground arith, is_four r _ e)
same_rank_sound r (a ∷ b ∷ d ∷ f ∷ g ∷ xs) c e h = absurd (ground arith)

run_sound :
    (a : ℕ) (xs : List ℕ) (c : Combo)
    → of_run (a ∷ xs) (map rank_of (a ∷ xs)) (length (a ∷ xs)) (last_or_zero (a ∷ xs)) ≡ some c
    → Accepted (a ∷ xs) c
unfolding is_straight is_pair_straight
run_sound a xs c h =
    let ranks : List ℕ = map rank_of (a ∷ xs) in
    let sized : length ranks ≡ length (a ∷ xs) = length-map (a ∷ xs) rank_of in
    elim (Bool-cases (leb 3 (length (a ∷ xs)) && is_straight ranks)) [
      | inl yes_run ↦ (
        straight,
        ground arith,
        is_run (rank_of a) (suc (length (map rank_of xs))) ranks (ground arith) (ground arith)
            (consecutive-run (rank_of a) (map rank_of xs) (ground arith)),
      )
      | inr no_run ↦
          let (k, even, e) = pairs-run (rank_of a) (map rank_of xs) (ground arith) (ground arith) in
          (
            pair_straight,
            ground arith,
            is_pair_run (rank_of a) k ranks (ground arith) (ground arith) e,
          )
    ]

identify_sorted_sound :
    (a : ℕ) (xs : List ℕ) (c : Combo) → identify_sorted (a ∷ xs) ≡ some c → Accepted (a ∷ xs) c
unfolding identify_sorted all_same
identify_sorted_sound a xs c h = elim (Bool-cases (all_same (map rank_of (a ∷ xs)))) [
  | inl yes_same ↦
      same_rank_sound (rank_of a) (a ∷ xs) c
        (all-same (rank_of a) (map rank_of (a ∷ xs)) yes_same
          ∙ ap (same (rank_of a)) (length-map (a ∷ xs) rank_of))
        (rw yes_same at h)
  | inr differ ↦ run_sound a xs c (rw differ at h)
]

equal_ranks : (r n : ℕ) → all (λ x. x == r) (same r n) ≡ true
equal_ranks r zero = refl
equal_ranks r (suc n) = ground (arith, equal_ranks r n)

all_same-same : (r n : ℕ) → all_same (same r (suc n)) ≡ true
unfolding all_same
all_same-same r n = equal_ranks r (suc n)

run-not_same : (r n : ℕ) → 3 ≤ n → all_same (run r n) ≡ false
unfolding all_same
run-not_same r zero h = absurd (omega arith)
run-not_same r (suc zero) h = absurd (omega arith)
run-not_same r (suc (suc n)) h = ground arith

pair_run-not_same : (r n : ℕ) → 3 ≤ n → all_same (pair_run r n) ≡ false
unfolding all_same
pair_run-not_same r zero h = absurd (omega arith)
pair_run-not_same r (suc zero) h = absurd (omega arith)
pair_run-not_same r (suc (suc n)) h = ground arith

length-run : (r n : ℕ) → length (run r n) ≡ n
length-run r zero = refl
length-run r (suc n) = ap suc (length-run (r + 1) n)

length-pair_run : (r n : ℕ) → length (pair_run r n) ≡ n * 2
length-pair_run r zero = omega arith
length-pair_run r (suc n) = omega (arith, length-pair_run (r + 1) n)

-- Pairs are no run of single ranks.
pair_run-not_straight : (r n : ℕ) → 3 ≤ n → consecutive (pair_run r n) ≡ false
unfolding consecutive
pair_run-not_straight r zero h = absurd (omega arith)
pair_run-not_straight r (suc n) h = ground arith

same_rank_complete :
    (a r n : ℕ) (xs : List ℕ) (c : Combo)
    → map rank_of (a ∷ xs) ≡ same r (suc n)
    → of_same_rank (a ∷ xs) (length (a ∷ xs)) (last_or_zero (a ∷ xs)) ≡ some c
    → identify_sorted (a ∷ xs) ≡ some c
unfolding identify_sorted
same_rank_complete a r n xs c e h =
    let f : all_same (map rank_of (a ∷ xs)) ≡ true = rw e (all_same-same r n) in rw f h

sized : (a : ℕ) (xs rs : List ℕ) → map rank_of (a ∷ xs) ≡ rs → length (a ∷ xs) ≡ length rs
sized a xs rs e = sym (length-map (a ∷ xs) rank_of) ∙ ap length e

identify_sorted_complete :
    (t : ComboType) (a : ℕ) (xs : List ℕ)
    → IsShape t (map rank_of (a ∷ xs))
    → identify_sorted (a ∷ xs) ≡ some (combo_of t (a ∷ xs))
identify_sorted_complete t a xs (is_single r _ e) =
    same_rank_complete a r 0 xs _ e (ground (arith, sized a xs _ e))
identify_sorted_complete t a xs (is_pair r _ e) =
    same_rank_complete a r 1 xs _ e (ground (arith, sized a xs _ e))
identify_sorted_complete t a xs (is_triple r _ e) =
    same_rank_complete a r 2 xs _ e (ground (arith, sized a xs _ e))
identify_sorted_complete t a xs (is_four r _ e) =
    same_rank_complete a r 3 xs _ e (ground (arith, sized a xs _ e))
identify_sorted_complete t a xs (is_run r n _ three no_two e) =
    unfold identify_sorted is_straight in
    let differ : all_same (map rank_of (a ∷ xs)) ≡ false = rw e (run-not_same r n three) in
    let goes_up : consecutive (map rank_of (a ∷ xs)) ≡ true = rw e (run-consecutive r n) in
    rw differ (ground (arith, sized a xs _ e, length-run r n))
identify_sorted_complete t a xs (is_pair_run r n _ three no_two e) =
    unfold identify_sorted is_straight is_pair_straight in
    let differ : all_same (map rank_of (a ∷ xs)) ≡ false = rw e (pair_run-not_same r n three) in
    let flat : consecutive (map rank_of (a ∷ xs)) ≡ false =
      rw e (pair_run-not_straight r n three) in
    let in_pairs : paired (map rank_of (a ∷ xs)) ≡ true = rw e (pair_run-paired r n) in
    let steps : pair_steps (map rank_of (a ∷ xs)) ≡ true = rw e (pair_run-steps r n) in
    rw differ (ground (arith, sized a xs _ e, length-pair_run r n))

shape-ne-nil : (t : ComboType) {rs : List ℕ} → IsShape t rs → rs ≢ []
shape-ne-nil t (is_single r _ e) h = cc
shape-ne-nil t (is_pair r _ e) h = cc
shape-ne-nil t (is_triple r _ e) h = cc
shape-ne-nil t (is_four r _ e) h = cc
shape-ne-nil t (is_run r (suc n) _ three no_two e) h = cc
shape-ne-nil t (is_run r zero _ three no_two e) h = absurd (omega arith)
shape-ne-nil t (is_pair_run r (suc n) _ three no_two e) h = cc
shape-ne-nil t (is_pair_run r zero _ three no_two e) h = absurd (omega arith)

identify_sorted_iff :
    (xs : List ℕ) (c : Combo) → xs ≢ [] → (identify_sorted xs ≡ some c) ↔ Accepted xs c
identify_sorted_iff [] c ne = absurd (ne refl)
identify_sorted_iff (a ∷ xs) c ne = (
  identify_sorted_sound a xs c,
  λ ok. identify_sorted_complete ok.0 a xs ok.2 ∙ ap some (sym ok.1),
)

-- `identifyCombo` accepts exactly the cards whose ranks form a combination of the game, in
-- whatever order they come: it returns the type of the shape, the cards in ascending order, their
-- number and the highest card, and refuses everything else.
pub identify_combo_iff :
    (cards : List ℕ) (c : Combo)
    → (identify_combo cards ≡ some c)
      ↔ ((t : ComboType) × (c ≡ combo_of t (sort cards)) × IsShape t (map rank_of (sort cards)))
unfolding identify_combo sort
identify_combo_iff [] c = (λ h. cc, λ ok. absurd (shape-ne-nil ok.0 ok.2 refl))
identify_combo_iff (x ∷ xs) c =
    identify_sorted_iff (sort (x ∷ xs)) c
      λ e. let h : suc (length xs) ≡ 0 = sym (length-sort (x ∷ xs)) ∙ ap length e in cc

-- The order in which a client lists its cards makes no difference.
pub identify_combo-eq_of_SameCounts :
    (xs ys : List ℕ) → SameCounts xs ys → identify_combo xs ≡ identify_combo ys
unfolding identify_combo
identify_combo-eq_of_SameCounts [] [] h = refl
identify_combo-eq_of_SameCounts [] (y ∷ ys) h = absurd (omega (arith, h y, count_self y ys))
identify_combo-eq_of_SameCounts (x ∷ xs) [] h = absurd (omega (arith, h x, count_self x xs))
identify_combo-eq_of_SameCounts (x ∷ xs) (y ∷ ys) h =
    ap identify_sorted (sort-eq_of_SameCounts (x ∷ xs) (y ∷ ys) h)
