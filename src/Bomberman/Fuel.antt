-- ===== src/Bomberman/Fuel.antt =====
-- The chain reaction of src/games/bomberman/bomberman.logic.ts ends: the fuel given is enough.
use backend_htssclub.Base.{
  ℕ, zero, suc, ◌+◌, ◌≤◌, ◌<◌, ◌≡◌, refl, sym, ◌∙◌, inl, inr, Bool, true, false, Bool-cases, List,
  [], ◌∷◌, ◌++◌, ltb, leb, arith, length, length-append, keep, all, All,
}
use mathlib.Core.List.{Memᴰ}
use mathlib.Core.List.Memᴰ.{head, tail}
use backend_htssclub.Bomberman.{
  Bomb, BombermanState, Run, is_detonated, break_brick, release, detonate, detonate_all,
}
use backend_htssclub.Bomberman.Tick.{due_bombs, explode}
use backend_htssclub.Bomberman.Chains.{
  keeps_blast, break_brick-bombs, break_brick-detonated, keeps_detonate, waiting, waiting-release,
  stored_mem, chained_waits, is_detonated-snoc, keeps_detonate_all,
}

-- Within the fuel, with the bombs `bs` of the state and at most `k` of them left to go off.
abbrev pub IsFed : List Bomb → ℕ → Run → Type 0
IsFed bs k o = (o.starved ≡ false) × ((o.state.bombs ≡ bs) × (waiting bs o.detonated ≤ k))

module _ (dice : ℕ → ℕ) (now : ℕ) (bs : List Bomb) where
  breaks-IsFed : (k c r : ℕ) (o : Run) → IsFed bs k o → IsFed bs k (break_brick dice c r o)
  unfolding break_brick
  breaks-IsFed k c r o p = elim (Bool-cases (ltb (dice o.state.drawn) 42)) [
    | inl drops ↦ rw drops p
    | inr none_left ↦ rw none_left p
  ]

  pub detonate-IsFed :
      (n k : ℕ) (b : Bomb) (o : Run)
      → k < n
      → Memᴰ b bs
      → IsFed bs k o
      → IsFed bs k (detonate dice now n b o)
  unfolding detonate release
  detonate-IsFed zero k b o less h p = absurd (omega arith)
  detonate-IsFed (suc n) k b o less h p = elim (Bool-cases (is_detonated b.id o.detonated)) [
    | inl gone ↦ rw (gone, detonate) p
    | inr here ↦
        let j = waiting bs (o.detonated ++ b ∷ []) in
        let fewer : j < waiting bs o.detonated =
          waiting-release bs o.detonated b (stored_mem b bs h) here in
        let inner : IsFed bs j (release b o) = (p.0, (p.1.0, omega arith)) in
        let q =
          keeps_blast dice now (IsFed bs j) (detonate dice now n) (λ c r t u. u)
            (λ c r t e u. breaks-IsFed j c r t u)
            (λ i c r d t found u.
              detonate-IsFed n j d t (omega arith)
                (rw (sym u.1.0) (chained_waits i c r t.detonated t.state.bombs d found)) u)
            b (release b o) inner in
        rw (here, detonate) (q.0, (q.1.0, omega (arith, q.1.1, fewer, p.1.1)))
  ]

  detonate_all-IsFed :
      (n k : ℕ) (ds : List Bomb) (o : Run)
      → k < n
      → All (λ d. Memᴰ d bs) ds
      → IsFed bs k o
      → IsFed bs k (detonate_all dice now n ds o)
  unfolding detonate_all
  detonate_all-IsFed n k [] o less h p = p
  detonate_all-IsFed n k (d ∷ ds) o less h p =
      detonate_all-IsFed n k ds (detonate dice now n d o) less h.1
        (detonate-IsFed n k d o less h.0 p)

All-tail : (c : Bomb) (bs ds : List Bomb) → All (λ d. Memᴰ d bs) ds → All (λ d. Memᴰ d (c ∷ bs)) ds
All-tail c bs [] h = tt
All-tail c bs (d ∷ ds) h = (tail h.0, All-tail c bs ds h.1)

pub due_stored : (p : Bomb → Bool) (bs : List Bomb) → All (λ d. Memᴰ d bs) (keep p bs)
due_stored p [] = tt
due_stored p (b ∷ bs) =
    let rest = All-tail b bs (keep p bs) (due_stored p bs) in
    elim (Bool-cases (p b)) [ inl yes_b ↦ rw yes_b (head refl, rest) | inr no_b ↦ rw no_b rest ]

waiting-none : (bs : List Bomb) → waiting bs [] ≤ length bs
unfolding is_detonated
waiting-none [] = omega arith
waiting-none (b ∷ bs) = omega (arith, waiting-none bs)

module _ (dice : ℕ → ℕ) (now : ℕ) (bs : List Bomb) where
  -- Who went off stays so,
  broken :
      (i c r : ℕ) (t : Run)
      → is_detonated i t.detonated ≡ true
      → is_detonated i (break_brick dice c r t).detonated ≡ true
  broken i c r t u = rw (break_brick-detonated dice c r t) u

  released :
      (i : ℕ) (b : Bomb) (t : Run)
      → is_detonated i t.detonated ≡ true
      → is_detonated i (release b t).detonated ≡ true
  unfolding release
  released i b t u = ground (arith, is_detonated-snoc i t.detonated b, u)

  stays :
      (i n : ℕ) (ds : List Bomb) (o : Run)
      → All (λ d. Memᴰ d bs) ds
      → o.state.bombs ≡ bs
      → is_detonated i o.detonated ≡ true
      → is_detonated i (detonate_all dice now n ds o).detonated ≡ true
  stays i n ds o h e p =
      (keeps_detonate_all dice now bs (λ t. is_detonated i t.detonated ≡ true) (λ t u. u)
        (λ c r t u. u) (λ c r t k u. broken i c r t u) (λ b t k g w u. released i b t u) n ds o h
        (e, p)).1

  -- and a bomb that is set off goes off.
  goes_off :
      (n : ℕ) (b : Bomb) (o : Run)
      → o.state.bombs ≡ bs
      → (is_detonated b.id (detonate dice now (suc n) b o).detonated ≡ true)
        × ((detonate dice now (suc n) b o).state.bombs ≡ bs)
  unfolding detonate release
  goes_off n b o e = elim (Bool-cases (is_detonated b.id o.detonated)) [
    | inl gone ↦ rw (gone, detonate) (gone, e)
    | inr here ↦
        let P : Run → Type 0 = λ t. is_detonated b.id t.detonated ≡ true in
        let Q : Run → Type 0 = λ t. P t × (t.state.bombs ≡ bs) in
        let first : P (release b o) = ground (arith, is_detonated-snoc b.id o.detonated b) in
        rw (here, detonate)
          (keeps_blast dice now Q (detonate dice now n) (λ c r t u. u)
            (λ c r t k u. (broken b.id c r t u.0, break_brick-bombs dice c r t ∙ u.1))
            (λ i c r d t found u.
              let kept =
                keeps_detonate dice now bs P (λ t u. u) (λ c r t u. u)
                  (λ c r t k u. broken b.id c r t u) (λ d t k g w u. released b.id d t u) n d t
                  (rw (sym u.1) (chained_waits i c r t.detonated t.state.bombs d found))
                  (u.1, u.0) in
              (kept.1, kept.0))
            b (release b o) (first, e))
  ]

  all_go_off :
      (n : ℕ) (ds : List Bomb) (o : Run)
      → All (λ d. Memᴰ d bs) ds
      → o.state.bombs ≡ bs
      → all (λ b. is_detonated b.id (detonate_all dice now (suc n) ds o).detonated) ds ≡ true
  unfolding detonate_all
  all_go_off n [] o h e = refl
  all_go_off n (d ∷ ds) o h e =
      let (off, same) = goes_off n d o e in
      let first = stays d.id (suc n) ds (detonate dice now (suc n) d o) h.1 same off in
      let rest = all_go_off n ds (detonate dice now (suc n) d o) h.1 same in
      ground (arith, first, rest)

-- Bombs that went off and bombs that wait are no more than there are.
abbrev IsCounted : List Bomb → Run → Type 0
IsCounted bs o = length o.detonated + waiting bs o.detonated ≤ length bs

IsCounted-broken :
    (dice : ℕ → ℕ) (bs : List Bomb) (c r : ℕ) (o : Run)
    → IsCounted bs o
    → IsCounted bs (break_brick dice c r o)
IsCounted-broken dice bs c r o p = rw (break_brick-detonated dice c r o) p

IsCounted-released :
    (bs : List Bomb) (b : Bomb) (o : Run)
    → Memᴰ b bs
    → is_detonated b.id o.detonated ≡ false
    → IsCounted bs o
    → IsCounted bs (release b o)
unfolding release
IsCounted-released bs b o h f p = omega (
  arith,
  waiting-release bs o.detonated b (stored_mem b bs h) f,
  length-append o.detonated (b ∷ []),
  p,
)

-- An explosion never runs out of the fuel, which is the number of bombs and one: the recursion of
-- the chain reaction ends. Every due bomb goes off, and as no bomb goes off twice, no more do than
-- there are.
pub explode_ends :
    (dice : ℕ → ℕ) (now : ℕ) (w : BombermanState)
    → let o = explode dice now w in
      (o.starved ≡ false)
      × (all (λ (b : Bomb). is_detonated b.id o.detonated) (due_bombs now w) ≡ true)
      × (length o.detonated ≤ length w.bombs)
unfolding explode
explode_ends dice now w =
    let start : Run = record { state = w; detonated = []; bricks = []; starved = false } in
    let n = suc (length w.bombs) in
    let ds = due_bombs now w in
    let stored = due_stored (λ (b : Bomb). leb b.fuse_at now) w.bombs in
    let fed =
      detonate_all-IsFed dice now w.bombs n (length w.bombs) ds start (omega arith) stored
        (refl, (refl, waiting-none w.bombs)) in
    let counted =
      keeps_detonate_all dice now w.bombs (IsCounted w.bombs) (λ t u. u) (λ c r t u. u)
        (λ c r t k u. IsCounted-broken dice w.bombs c r t u)
        (λ b t g h f u. IsCounted-released w.bombs b t h f u) n ds start stored
        (refl, omega (arith, waiting-none w.bombs)) in
    (
      fed.0,
      all_go_off dice now w.bombs (length w.bombs) ds start stored refl,
      omega (arith, counted.1),
    )
