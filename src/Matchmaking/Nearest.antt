-- ===== src/Matchmaking/Nearest.antt =====
-- Whom `tryMatch` of src/games/caro/caro-matchmaking.service.ts finds.
use backend_htssclub.Matchmaking.Unique.{
  AreUnique, absent-drop, score-drop_ne, drop_entry-AreUnique,
}
use backend_htssclub.Base.{
  ℕ, ◌≤◌, ◌≡◌, refl, ◌∙◌, ◌⊎◌, inl, inr, Bool, true, false, Bool-cases, Option, Option-cases, none,
  some, List, [], ◌∷◌, ltb, ◌==◌, ◌&&◌, arith, All,
}
use backend_htssclub.Matchmaking.{
  Entry, Queue, QueuedPlayer, drop_entry, score, is_scored, dist, nearer, nearest, claim,
  settle_claim, match_best, match_score, try_match,
}

-- Nobody but `u` in the list is nearer than `b`.
abbrev pub NoneNearer : ℕ → ℕ → Entry → List Entry → Type 0
NoneNearer u rp b es = All (λ c. (c.user_id == u) ≡ false → dist b.rp rp ≤ dist c.rp rp) es

abbrev pub is_some : Option Entry → Bool
is_some none = false
is_some (some e) = true

module _ (u rp : ℕ) where
  -- The best candidate is as near as the one that the loop starts with, and as all that it passes.
  abbrev Found : List Entry → Option Entry → Option Entry → Type 0
  Found es best none = (best ≡ none) × All (λ c. (c.user_id == u) ≡ true) es
  Found es best (some b) =
      NoneNearer u rp b es
      × ((a : Entry) → best ≡ some a → dist b.rp rp ≤ dist a.rp rp)
      × ((best ≡ some b) ⊎ (((b.user_id == u) ≡ false) × (score b.user_id es ≡ some b.rp)))

  own_step :
      (c : Entry) (es : List Entry) (best r : Option Entry)
      → (c.user_id == u) ≡ true
      → Found es best r
      → Found (c ∷ es) best r
  unfolding score
  own_step c es best none own (e, all_own) = (e, (own, all_own))
  own_step c es best (some b) own (near, start, inl same) =
      (((λ n. ground (arith, own, n)), near), start, inl same)
  own_step c es best (some b) own (near, start, inr (n, queued)) =
      (((λ k. ground (arith, own, k)), near), start, inr (n, ground (arith, queued)))

  nearer_cases :
      (c : Entry) (best : Option Entry) → (nearer rp c best ≡ c) ⊎ (best ≡ some (nearer rp c best))
  unfolding nearer
  nearer_cases c none = inl refl
  nearer_cases c (some b) = elim (Bool-cases (ltb (dist c.rp rp) (dist b.rp rp))) [
    | inl less ↦ inl (rw less refl)
    | inr more ↦ inr (rw more refl)
  ]

  nearer_le :
      (c : Entry) (best : Option Entry)
      → (dist (nearer rp c best).rp rp ≤ dist c.rp rp)
        × ((a : Entry) → best ≡ some a → dist (nearer rp c best).rp rp ≤ dist a.rp rp)
  unfolding nearer
  nearer_le c none = (omega arith, λ a e. ground (arith, e))
  nearer_le c (some b) = elim (Bool-cases (ltb (dist c.rp rp) (dist b.rp rp))) [
    | inl less ↦
        rw less (omega arith, λ a e. let same : b ≡ a = cc in rw (← same) (ground (arith, less)))
    | inr more ↦
        rw more (ground (arith, more), λ a e. let same : b ≡ a = cc in rw (← same) (omega arith))
  ]

  other_step :
      (c : Entry) (es : List Entry) (best r : Option Entry)
      → (c.user_id == u) ≡ false
      → score c.user_id es ≡ none
      → Found es (some (nearer rp c best)) r
      → Found (c ∷ es) best r
  unfolding score
  other_step c es best none other once (e, all_own) = absurd (ground (arith, e))
  other_step c es best (some b) other once (near, start, origin) =
      let (le, from_best) = nearer_le c best in
      let near_start = start (nearer rp c best) refl in
      (
        ((λ _. omega (arith, le, near_start)), near),
        (λ a e. omega (arith, from_best a e, near_start)),
        elim origin [
          | inl same ↦
              let e : nearer rp c best ≡ b = cc in
              elim (nearer_cases c best) [
                | inl is_c ↦ let k : c ≡ b = cc in inr (rw (← k) other, rw (← k) (ground arith))
                | inr is_best ↦ inl cc
              ]
          | inr (n, queued) ↦ inr (n, ground (arith, queued, once))
        ],
      )

  nearest-Found :
      (es : List Entry) (best : Option Entry) → AreUnique es → Found es best (nearest u rp es best)
  unfolding nearest
  nearest-Found [] none all_once = (refl, tt)
  nearest-Found [] (some b) all_once = (tt, (λ a e. ground (arith, e)), inl refl)
  nearest-Found (c ∷ es) best (once, all_once) = elim (Bool-cases (c.user_id == u)) [
    | inl own ↦ rw own (own_step c es best _ own (nearest-Found es best all_once))
    | inr other ↦
        rw other
          (other_step c es best _ other once (nearest-Found es (some (nearer rp c best)) all_once))
  ]

-- What a call of `tryMatch` comes to.
abbrev pub Met : ℕ → Queue → Option QueuedPlayer → Queue → Type 0
Met u q none q' =
    (q' ≡ q) × ((score u q.entries ≡ none) ⊎ All (λ c. (c.user_id == u) ≡ true) q.entries)
Met u q (some opponent) q' =
    ((opponent.user_id == u) ≡ false)
    × (score opponent.user_id q.entries ≡ some opponent.rp)
    × ((rp : ℕ)
        → score u q.entries ≡ some rp
        → All (λ c. (c.user_id == u) ≡ false → dist opponent.rp rp ≤ dist c.rp rp) q.entries)
    × (is_scored (score u q'.entries) ≡ false)
    × (is_scored (score opponent.user_id q'.entries) ≡ false)
    × ((v : ℕ)
        → (u == v) ≡ false
        → (opponent.user_id == v) ≡ false
        → score v q'.entries ≡ score v q.entries)

claim_run :
    (a b : ℕ) (q : Queue)
    → is_scored (score a q.entries) ≡ true
    → is_scored (score b q.entries) ≡ true
    → claim a b q ≡ (true, record q { entries = drop_entry b (drop_entry a q.entries) })
unfolding claim
claim_run a b q x y = rw (x, y)

Met-best :
    (u rp : ℕ) (q : Queue) (r : Option Entry)
    → score u q.entries ≡ some rp
    → Found u rp q.entries none r
    → let (o, q') = match_best u r q in Met u q o q'
unfolding match_best settle_claim
Met-best u rp q none mine (_, own) = (refl, inr own)
Met-best u rp q (some b) mine (near, _, inl none_was) = absurd (ground (arith, none_was))
Met-best u rp q (some b) mine (near, _, inr (n, queued)) =
    let scored : is_scored (score u q.entries) ≡ true = rw mine refl in
    let waits : is_scored (score b.user_id q.entries) ≡ true = rw queued refl in
    let rest = drop_entry u q.entries in
    rw (claim_run u b.user_id q scored waits) (
      n,
      queued,
      (λ rp' e. let same : rp ≡ rp' = ground (mine, e, arith) in rw (← same) near),
      rw (score-drop_ne b.user_id u rest n) (absent-drop u q.entries),
      absent-drop b.user_id rest,
      λ v other_u other_b.
          score-drop_ne b.user_id v rest other_b ∙ score-drop_ne u v q.entries other_u,
    )

match_best-AreUnique :
    (u : ℕ) (r : Option Entry) (q : Queue)
    → AreUnique q.entries
    → AreUnique (match_best u r q).1.entries
unfolding match_best settle_claim claim
match_best-AreUnique u none q all_once = all_once
match_best-AreUnique u (some b) q all_once =
    elim (Bool-cases (is_scored (score u q.entries) && is_scored (score b.user_id q.entries))) [
      | inl both ↦
          rw both (drop_entry-AreUnique b.user_id _ (drop_entry-AreUnique u q.entries all_once))
      | inr gone ↦ rw gone all_once
    ]

-- `tryMatch` on every branch, when each player is queued once: without an opponent the queue stays,
-- and either the player is not queued or nobody else is; an opponent is another queued player,
-- handed back with the rank points of the queue, and nobody else who is queued is nearer to the
-- player than these rank points are; both are gone from the queue, everyone else is there as
-- before, and each player is still queued once.
pub try_match_lem :
    (u : ℕ) (q : Queue)
    → AreUnique q.entries
    → let (o, q') = try_match u q in Met u q o q' × AreUnique q'.entries
unfolding try_match match_score
try_match_lem u q all_once = elim (Option-cases (score u q.entries)) [
  | inl absent ↦ rw absent ((refl, inl absent), all_once)
  | inr (rp, mine) ↦ rw mine (
    Met-best u rp q _ mine (nearest-Found u rp q.entries none all_once),
    match_best-AreUnique u _ q all_once,
  )
]
