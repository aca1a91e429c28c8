-- ===== src/Leveling/Board.antt =====
-- The leaderboards of src/leveling/leveling.service.ts.
use backend_htssclub.Base.{
  ℕ, zero, suc, ◌+◌, ◌≡◌, ◌≢◌, refl, ◌∙◌, ap, inl, inr, Bool, Bool-cases, Option-cases, ◌≤◌, ◌<◌,
  true, false, ◌||◌, ◌&&◌, Option, none, some, List, [], ◌∷◌, ltb, ◌==◌, if◌then◌else◌, min, max,
  take, get_elem?, arith,
}
use backend_htssclub.Leveling.Service.{Profile, Hall, find_profile}

pub data LeaderboardKind : Type 0 where
  xp coins rank : LeaderboardKind

-- `sortFieldOf`, and `score` of `entry`
abbrev pub score_of : LeaderboardKind → Profile → ℕ
score_of xp p = p.xp
score_of coins p = p.coins
score_of rank p = p.rank_points

pub record Entry : Type 0 where
  pub position : ℕ
  pub profile : Profile
  pub score : ℕ

abbrev pub entry : LeaderboardKind → ℕ → Profile → Entry
entry kind position p = record { position = position; profile = p; score = score_of kind p }

-- The order of `.sort({ [field]: -1, _id: 1 })`; `myRank` writes the same order as a filter.
unfoldable pub before : LeaderboardKind → Profile → Profile → Bool
before kind p q =
    ltb (score_of kind q) (score_of kind p) || score_of kind p == score_of kind q && ltb p.id q.id

unfoldable pub insert_profile : LeaderboardKind → Profile → List Profile → List Profile
insert_profile kind p [] = p ∷ []
insert_profile kind p (q ∷ qs) =
    if before kind p q then p ∷ q ∷ qs else q ∷ insert_profile kind p qs

unfoldable pub sort_profiles : LeaderboardKind → List Profile → List Profile
sort_profiles kind [] = []
sort_profiles kind (p ∷ ps) = insert_profile kind p (sort_profiles kind ps)

unfoldable pub entries : LeaderboardKind → ℕ → List Profile → List Entry
entries kind i [] = []
entries kind i (p ∷ ps) = entry kind i p ∷ entries kind (i + 1) ps

unfoldable pub leaderboard : LeaderboardKind → ℕ → Hall → List Entry
leaderboard kind limit h =
    entries kind 1 (take (min (max limit 1) 100) (sort_profiles kind h.profiles))

-- `countDocuments` of the users before this one.
unfoldable pub count_before : LeaderboardKind → Profile → List Profile → ℕ
count_before kind p [] = 0
count_before kind p (q ∷ qs) =
    let rest = count_before kind p qs in if before kind q p then suc rest else rest

unfoldable pub my_rank : ℕ → LeaderboardKind → Hall → Option Entry
my_rank u kind h = elim (find_profile u h.profiles) [
  | none ↦ none
  | some p ↦ some (entry kind (count_before kind p h.profiles + 1) p)
]

-- A user identifier names one document.
abbrev pub HasUniqueProfiles : List Profile → Type 0
HasUniqueProfiles [] = Unit
HasUniqueProfiles (p ∷ ps) = (find_profile p.id ps ≡ none) × HasUniqueProfiles ps

module _ (kind : LeaderboardKind) where
  -- Everyone of these comes after `p`.
  abbrev AllAfter : Profile → List Profile → Type 0
  AllAfter p [] = Unit
  AllAfter p (q ∷ qs) = (before kind p q ≡ true) × AllAfter p qs

  abbrev IsRanked : List Profile → Type 0
  IsRanked [] = Unit
  IsRanked (p ∷ ps) = AllAfter p ps × IsRanked ps

  before_trans :
      (p q r : Profile) → before kind p q ≡ true → before kind q r ≡ true → before kind p r ≡ true
  unfolding before
  before_trans p q r h k = ground arith

  before_irrefl : (p : Profile) → before kind p p ≡ false
  unfolding before
  before_irrefl p = ground arith

  before_total : (p q : Profile) → p.id ≢ q.id → before kind p q ≡ false → before kind q p ≡ true
  unfolding before
  before_total p q ne h = ground arith

  before_asymm : (p q : Profile) → before kind p q ≡ true → before kind q p ≡ false
  unfolding before
  before_asymm p q h = ground arith

  AllAfter-trans :
      (p q : Profile) (rs : List Profile) → before kind p q ≡ true → AllAfter q rs → AllAfter p rs
  AllAfter-trans p q [] h a = tt
  AllAfter-trans p q (r ∷ rs) h a = (before_trans p q r h a.0, AllAfter-trans p q rs h a.1)

  AllAfter-insert :
      (p q : Profile) (rs : List Profile)
      → before kind p q ≡ true
      → AllAfter p rs
      → AllAfter p (insert_profile kind q rs)
  unfolding insert_profile
  AllAfter-insert p q [] h a = (h, tt)
  AllAfter-insert p q (r ∷ rs) h a = ground (arith, AllAfter-insert p q rs h a.1)

  insert-IsRanked :
      (p : Profile) (qs : List Profile)
      → find_profile p.id qs ≡ none
      → IsRanked qs
      → IsRanked (insert_profile kind p qs)
  unfolding insert_profile find_profile
  insert-IsRanked p [] n s = (tt, tt)
  insert-IsRanked p (q ∷ qs) n s = elim (Bool-cases (before kind p q)) [
    | inl first ↦ rw first ((first, AllAfter-trans p q qs first s.0), s)
    | inr later ↦ rw later (
      AllAfter-insert q p qs (before_total p q (ground arith) later) s.0,
      insert-IsRanked p qs (ground arith) s.1,
    )
  ]

  find-insert :
      (i : ℕ) (p : Profile) (qs : List Profile)
      → find_profile p.id qs ≡ none
      → find_profile i (insert_profile kind p qs)
        ≡ (if p.id == i then some p else find_profile i qs)
  unfolding insert_profile find_profile
  find-insert i p [] n = refl
  find-insert i p (q ∷ qs) n = ground (arith, find-insert i p qs)

  find-sort :
      (i : ℕ) (ps : List Profile)
      → HasUniqueProfiles ps
      → find_profile i (sort_profiles kind ps) ≡ find_profile i ps
  unfolding sort_profiles find_profile
  find-sort i [] u = refl
  find-sort i (p ∷ ps) u =
      find-insert i p (sort_profiles kind ps) (find-sort p.id ps u.1 ∙ u.0)
      ∙ rw (find-sort i ps u.1) refl

  sort-IsRanked : (ps : List Profile) → HasUniqueProfiles ps → IsRanked (sort_profiles kind ps)
  unfolding sort_profiles
  sort-IsRanked [] u = tt
  sort-IsRanked (p ∷ ps) u =
      insert-IsRanked p (sort_profiles kind ps) (find-sort p.id ps u.1 ∙ u.0) (sort-IsRanked ps u.1)

  count-insert :
      (p q : Profile) (rs : List Profile)
      → count_before kind p (insert_profile kind q rs) ≡ count_before kind p (q ∷ rs)
  unfolding count_before insert_profile
  count-insert p q [] = refl
  count-insert p q (r ∷ rs) = ground (arith, count-insert p q rs)

  count-sort :
      (p : Profile) (ps : List Profile)
      → count_before kind p (sort_profiles kind ps) ≡ count_before kind p ps
  unfolding sort_profiles count_before
  count-sort p [] = refl
  count-sort p (q ∷ qs) = count-insert p q (sort_profiles kind qs) ∙ rw (count-sort p qs) refl

  none_before : (p : Profile) (qs : List Profile) → AllAfter p qs → count_before kind p qs ≡ 0
  unfolding count_before
  none_before p [] a = refl
  none_before p (q ∷ qs) a = ground (arith, before_asymm p q a.0, none_before p qs a.1)

  find-after :
      (p q : Profile) (i : ℕ) (rs : List Profile)
      → AllAfter p rs
      → find_profile i rs ≡ some q
      → before kind p q ≡ true
  unfolding find_profile
  find-after p q i [] a e = cc
  find-after p q i (r ∷ rs) a e = elim (Bool-cases (r.id == i)) [
    | inl yes_r ↦
        let found : some r ≡ some q = rw yes_r at e in let same : r ≡ q = cc in rw (← same) a.0
    | inr no_r ↦ find-after p q i rs a.1 (rw no_r at e)
  ]

  -- In a ranked list a profile stands behind as many as are before it.
  place_in_ranked :
      (p : Profile) (i : ℕ) (qs : List Profile)
      → IsRanked qs
      → find_profile i qs ≡ some p
      → get_elem? qs (count_before kind p qs) ≡ some p
  unfolding find_profile count_before
  place_in_ranked p i [] s e = cc
  place_in_ranked p i (q ∷ qs) s e = elim (Bool-cases (q.id == i)) [
    | inl yes_q ↦
        let found : some q ≡ some p = rw yes_q at e in
        let same : q ≡ p = cc in
        rw same (rw (before_irrefl p, none_before p qs (rw same at s.0)) refl)
    | inr no_q ↦
        let later = rw no_q at e in
        rw (find-after q p i qs s.0 later) (place_in_ranked p i qs s.1 later)
  ]

  get_elem?-entries :
      (i j : ℕ) (ps : List Profile) (p : Profile)
      → get_elem? ps j ≡ some p
      → get_elem? (entries kind i ps) j ≡ some (entry kind (i + j) p)
  unfolding entries
  get_elem?-entries i j [] p e = cc
  get_elem?-entries i zero (q ∷ ps) p e = ground (arith, e)
  get_elem?-entries i (suc j) (q ∷ ps) p e =
      let shift : i + 1 + j ≡ i + suc j = omega arith in
      get_elem?-entries (i + 1) j ps p e ∙ rw shift refl

get_elem?-take : (n j : ℕ) (ps : List Profile) → j < n → get_elem? (take n ps) j ≡ get_elem? ps j
get_elem?-take zero j ps h = absurd (omega arith)
get_elem?-take (suc n) j [] h = refl
get_elem?-take (suc n) zero (p ∷ ps) h = refl
get_elem?-take (suc n) (suc j) (p ∷ ps) h = get_elem?-take n j ps (omega arith)

-- The rank that a user is told is the place where the leaderboard shows that user, for every kind
-- of board: where the place is within the limit, the entry there is the very same.
pub my_rank_on_leaderboard :
    (u limit : ℕ) (kind : LeaderboardKind) (h : Hall) (e : Entry)
    → HasUniqueProfiles h.profiles
    → my_rank u kind h ≡ some e
    → e.position ≤ min (max limit 1) 100
    → (j : ℕ) × (e.position ≡ suc j) × (get_elem? (leaderboard kind limit h) j ≡ some e)
unfolding my_rank leaderboard
my_rank_on_leaderboard u limit kind h e unique found within =
    elim (Option-cases (find_profile u h.profiles)) [
      | inl missing ↦ absurd (ground arith)
      | inr (p, there) ↦
          let j = count_before kind p h.profiles in
          let mine : some (entry kind (j + 1) p) ≡ some e = rw (there, my_rank) at found in
          let same : entry kind (j + 1) p ≡ e = cc in
          let sorted = sort_profiles kind h.profiles in
          let place : get_elem? sorted j ≡ some p = rw (← count-sort kind p h.profiles) (
            place_in_ranked kind p u sorted (sort-IsRanked kind h.profiles unique)
              (find-sort kind u h.profiles unique ∙ there)) in
          let position : j + 1 ≡ e.position = ap (λ (x : Entry). x.position) same in
          (
            j,
            omega arith,
            get_elem?-entries kind 1 j (take (min (max limit 1) 100) sorted) p
                  (get_elem?-take (min (max limit 1) 100) j sorted (omega arith) ∙ place)
                ∙ ap (λ k. some (entry kind k p)) {x = 1 + j} {y = j + 1} (omega arith)
                ∙ mine,
          )
    ]
